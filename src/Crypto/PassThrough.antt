-- ===== src/Crypto/PassThrough.antt =====
-- shared/crypto.cpp, the branches of VC_NO_SODIUM.
use Prim.Native.Nat.{bit_xor}
use omp_voice.Base.{
  ℕ, zero, suc, ◌+◌, ◌-◌, ◌≡◌, refl, ap, sym, ◌∙◌, List, [], ◌∷◌, ◌++◌, none, some, length,
  length-append, take, take-append, ltb, arith, if◌then◌else◌,
}
use omp_voice.Crypto.{Sodium, IsAead, mac_bytes}

unfoldable pub zeros : ℕ → List ℕ
zeros zero = []
zeros (suc n) = 0 ∷ zeros n

unfoldable pub xor_bytes : List ℕ → List ℕ → List ℕ
xor_bytes [] ys = []
xor_bytes (x ∷ xs) [] = []
xor_bytes (x ∷ xs) (y ∷ ys) = bit_xor x y ∷ xor_bytes xs ys

-- The plaintext, and a MAC of zeros that nobody checks; the keys are the exclusive or.
unfoldable pub pass_through : Sodium
unfolding zeros xor_bytes
pass_through = record {
  kx_client = λ pk sk peer. some (xor_bytes pk peer, xor_bytes pk peer);
  kx_server = λ pk sk peer. some (xor_bytes pk peer, xor_bytes pk peer);
  encrypt = λ nonce key plain. some (plain ++ zeros mac_bytes);
  decrypt = λ nonce key cipher.
      if ltb (length cipher) mac_bytes
      then none
      else some (take (length cipher - mac_bytes) cipher);
}

length-sealed :
    (plain cipher : List ℕ) → plain ++ zeros 16 ≡ cipher → length cipher ≡ length plain + 16
unfolding zeros
length-sealed plain cipher e = omega (arith, ap length e, length-append plain (zeros 16))

opened :
    (plain cipher : List ℕ)
    → plain ++ zeros 16 ≡ cipher
    → pass_through.decrypt [] [] cipher ≡ some plain
unfolding pass_through zeros
opened plain cipher e =
    let long = length-sealed plain cipher e in
    let front : take (length cipher - 16) cipher ≡ plain =
      ap (take (length cipher - 16)) (sym e)
      ∙ take-append (length cipher - 16) plain (zeros 16) (omega arith) in
    ground arith

-- The build without libsodium meets what the envelope relies on.
pub pass_through-IsAead : IsAead pass_through
unfolding pass_through zeros
pass_through-IsAead = record {
  encrypt_total = λ nonce key plain. (plain ++ zeros 16, refl);
  length-encrypt = λ nonce key plain cipher e. length-sealed plain cipher (ground arith);
  decrypt-encrypt = λ nonce key plain cipher e. opened plain cipher (ground arith);
}

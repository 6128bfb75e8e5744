-- ===== src/Base/Codec/Words.antt =====
-- Words, floats and arrays of bytes.
use Prim.Native.Nat.{ℕ, zero, suc, ◌+◌, ◌*◌, ◌/◌, ◌%◌, ◌<◌}
use mathlib.Core.Path.{◌≡◌, refl, ap}
use mathlib.Core.List.{List, [], ◌∷◌}
use mathlib.Core.Option.{Option, none, some}
use native.Mathlib.Omega.{arith}
use omp_voice.Base.Lists.{length, All}
use omp_voice.Base.Float.{FloatOps}
use omp_voice.Base.Codec.{Codec, u8, ◌⊗◌, via}

pub u16_join : (n : ℕ) → n % 256 + 256 * (n / 256) ≡ n
u16_join n = omega arith

unfoldable pub u16 : Codec ℕ
unfolding u8 ◌⊗◌ via
u16 =
    via (λ p. p.0 + 256 * p.1) (λ n. (n % 256, n / 256)) (λ n. Unit {0}) (λ n h. u16_join n)
      (u8 ⊗ u8)

pub u32_join : (n : ℕ) → n % 65536 + 65536 * (n / 65536) ≡ n
u32_join n = omega arith

unfoldable pub u32 : Codec ℕ
unfolding u16 ◌⊗◌ via
u32 =
    via (λ p. p.0 + 65536 * p.1) (λ n. (n % 65536, n / 65536)) (λ n. Unit {0}) (λ n h. u32_join n)
      (u16 ⊗ u16)

unfoldable pub f32 : {F : Type 0} ⦃fl : FloatOps F⦄ → Codec F
unfolding u32 via
f32 ⦃fl⦄ = via fl.of_bits fl.bits (λ x. fl.of_bits (fl.bits x) ≡ x) (λ x h. h) u32

pub nothing_short :
    (bs : List ℕ) → length bs < 0 → ◌≡◌ {A = Option (List ℕ × List ℕ)} (some ([], bs)) none
nothing_short bs h = absurd (omega arith)

pub nothing_put :
    (xs rest : List ℕ)
    → xs ≡ []
    → ◌≡◌ {A = Option (List ℕ × List ℕ)} (some ([], rest)) (some (xs, rest))
nothing_put xs rest h = cc

pub nothing_length :
    (bs a rest : List ℕ)
    → ◌≡◌ {A = Option (List ℕ × List ℕ)} (some ([], bs)) (some (a, rest))
    → length rest + 0 ≡ length bs
nothing_length bs a rest h = let e : bs ≡ rest = ground arith in omega (arith, ap length e)

abbrev pub cons_bytes : ℕ × List ℕ → List ℕ
cons_bytes (a, rest) = a ∷ rest

abbrev pub uncons_bytes : List ℕ → ℕ × List ℕ
uncons_bytes [] = (0, [])
uncons_bytes (a ∷ rest) = (a, rest)

pub cons-uncons : (xs : List ℕ) → 0 < length xs → cons_bytes (uncons_bytes xs) ≡ xs
cons-uncons [] h = absurd (omega arith)
cons-uncons (x ∷ xs) h = refl

-- An array of `n` bytes.
unfoldable pub bytes : ℕ → Codec (List ℕ)
unfolding u8 ◌⊗◌ via
bytes zero = record {
  size = 0;
  put = λ xs. [];
  get = λ bs. some ([], bs);
  Fits = λ xs. xs ≡ [];
  get-put = nothing_put;
  length-put = λ xs h. refl;
  get_total = λ bs h. ([], bs, refl);
  get-length = nothing_length;
  get_short = nothing_short;
}
bytes (suc n) = via cons_bytes uncons_bytes (λ xs. 0 < length xs) cons-uncons (u8 ⊗ bytes n)

-- What an array needs for its round trip.
pub Fits-bytes : (n : ℕ) (xs : List ℕ) → length xs ≡ n → All (λ x. x < 256) xs → (bytes n).Fits xs
unfolding bytes
Fits-bytes zero [] e h = refl
Fits-bytes zero (x ∷ xs) e h = absurd (omega arith)
Fits-bytes (suc n) [] e h = absurd (omega arith)
Fits-bytes (suc n) (x ∷ xs) e h = (omega arith, (h.0, Fits-bytes n xs (omega arith) h.1))

pub size-bytes : (n : ℕ) → (bytes n).size ≡ n
unfolding bytes
size-bytes zero = refl
size-bytes (suc n) = omega (arith, size-bytes n)

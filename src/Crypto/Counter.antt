-- ===== src/Crypto/Counter.antt =====
-- shared/crypto.cpp: the counter in the tail of a nonce.
use native.Mathlib.Nat.{pow-suc}
use omp_voice.Base.{
  ℕ, zero, suc, ◌+◌, ◌*◌, ◌/◌, ◌%◌, ◌^◌, ◌<◌, ◌≡◌, refl, ap, ◌∙◌, List, [], ◌∷◌, ◌++◌, length,
  length-append, arith,
}
use omp_voice.Crypto.{counter_bytes, counter_of}

counter_of-append :
    (acc b : ℕ) (xs : List ℕ) → counter_of acc (xs ++ b ∷ []) ≡ counter_of acc xs * 256 + b
unfolding counter_of
counter_of-append acc b [] = refl
counter_of-append acc b (x ∷ xs) = counter_of-append (acc * 256 + x) b xs

pub counter_of-counter_bytes : (n c : ℕ) → c < 256 ^ n → counter_of 0 (counter_bytes n c) ≡ c
unfolding counter_bytes counter_of
counter_of-counter_bytes zero c h = omega arith
counter_of-counter_bytes (suc n) c h =
    let big : c < 256 ^ n * 256 = rw (← pow-suc 256 n) h in
    let below : c / 256 < 256 ^ n = omega arith in
    counter_of-append 0 (c % 256) (counter_bytes n (c / 256))
    ∙ ap (λ k. k * 256 + c % 256) (counter_of-counter_bytes n (c / 256) below)
    ∙ omega arith

pub length-counter_bytes : (n c : ℕ) → length (counter_bytes n c) ≡ n
unfolding counter_bytes
length-counter_bytes zero c = refl
length-counter_bytes (suc n) c = omega (
  arith,
  length-append (counter_bytes n (c / 256)) ((c % 256) ∷ []),
  length-counter_bytes n (c / 256),
)

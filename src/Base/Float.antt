-- ===== src/Base/Float.antt =====
-- The machine's `float` and <cmath>, which the program uses and does not define: a type with
-- operations, taken as an instance by what computes with them. `lit n k` is the literal n / 10 ^ k.
use Prim.Native.Nat.{ℕ, ◌+◌, ◌*◌, ◌/◌, ◌^◌}
use mathlib.Core.Path.{◌≡◌}
use mathlib.Core.Logic.{◌⊎◌, inl, inr}
use mathlib.Core.Bool.{Bool, true, false, ◌||◌}
use native.Mathlib.Omega.{arith}
use omp_voice.Base.Int.{ℤ, pos, ltb_ℤ, ltb_ℤ-cotrans, sub_ℕ, pos_part, neg_part}
use omp_voice.Base.Tests.{Bool-cases, if◌then◌else◌}

pub record FloatOps (F : Type 0) : Type 0 where
  pub lit : ℕ → ℕ → F
  pub lt : F → F → Bool
  pub eq : F → F → Bool
  pub add : F → F → F
  pub sub : F → F → F
  pub mul : F → F → F
  pub div : F → F → F
  pub neg : F → F
  pub sqrt : F → F
  pub pow : F → F → F
  pub sin : F → F
  pub cos : F → F
  pub tanh : F → F
  pub floor : F → F
  pub ceil : F → F
  pub round : F → F
  -- The casts `(int32_t)x` and `(float)n`.
  pub to_int : F → ℤ
  pub of_int : ℤ → F
  -- The four bytes of a float, as the number that they spell.
  pub bits : F → ℕ
  pub of_bits : ℕ → F

-- What `<` is relied on for. They hold of IEEE numbers, NaN included: a number that is less than
-- another, `b` below, is no NaN.
pub record FloatOrder (F : Type 0) ⦃fl : FloatOps F⦄ : Type 0 where
  pub lt_irrefl : (a : F) → fl.lt a a ≡ false
  pub lt_trans : (a b c : F) → fl.lt a b ≡ true → fl.lt b c ≡ true → fl.lt a c ≡ true
  pub lt_cotrans :
      (a b c d : F) → fl.lt b d ≡ true → fl.lt a c ≡ true → (fl.lt a b ≡ true) ⊎ (fl.lt b c ≡ true)

-- An instance to run the model with: thousandths, with no rounding, roots or waves.
abbrev pub milli_mul : ℤ → ℤ → ℤ
milli_mul a b =
    sub_ℕ ((pos_part a * pos_part b + neg_part a * neg_part b) / 1000)
      ((pos_part a * neg_part b + neg_part a * pos_part b) / 1000)

instance abbrev pub milli : FloatOps ℤ
milli = record {
  lit = λ n k. pos (n * 1000 / 10 ^ k);
  lt = ltb_ℤ;
  eq = λ a b. elim (ltb_ℤ a b) [
    | true ↦ false
    | false ↦ elim (ltb_ℤ b a) [ true ↦ false | false ↦ true ]
  ];
  add = λ a b. sub_ℕ (pos_part a + pos_part b) (neg_part a + neg_part b);
  sub = λ a b. sub_ℕ (pos_part a + neg_part b) (neg_part a + pos_part b);
  mul = milli_mul;
  div = λ a b. pos (pos_part a * 1000 / pos_part b);
  neg = λ a. sub_ℕ (neg_part a) (pos_part a);
  sqrt = λ a. a;
  pow = λ a b. a;
  sin = λ a. a;
  cos = λ a. a;
  tanh = λ a. a;
  floor = λ a. pos (pos_part a / 1000 * 1000);
  ceil = λ a. pos ((pos_part a + 999) / 1000 * 1000);
  round = λ a. a;
  to_int = λ a. pos (pos_part a / 1000);
  of_int = λ a. milli_mul (pos 1000000) a;
  bits = λ a. pos_part a;
  of_bits = λ n. pos n;
}

milli-lt_irrefl : (a : ℤ) → ltb_ℤ a a ≡ false
milli-lt_irrefl a = ground arith

milli-lt_trans : (a b c : ℤ) → ltb_ℤ a b ≡ true → ltb_ℤ b c ≡ true → ltb_ℤ a c ≡ true
milli-lt_trans a b c h k = ground arith

milli-lt_cotrans :
    (a b c d : ℤ) → ltb_ℤ b d ≡ true → ltb_ℤ a c ≡ true → (ltb_ℤ a b ≡ true) ⊎ (ltb_ℤ b c ≡ true)
milli-lt_cotrans a b c d h k = elim (Bool-cases (ltb_ℤ a b)) [
  | inl e ↦ inl e
  | inr e ↦ inr (ltb_ℤ-cotrans a b c k e)
]

pub milli_order : FloatOrder ℤ
milli_order = record {
  lt_irrefl = milli-lt_irrefl;
  lt_trans = milli-lt_trans;
  lt_cotrans = milli-lt_cotrans;
}

module _ {F : Type 0} ⦃fl : FloatOps F⦄ where
  -- a >= b, which no NaN satisfies.
  unfoldable pub ge : F → F → Bool
  ge a b = fl.lt b a || fl.eq a b

  -- std::max(a, b), std::min(a, b) and std::clamp(x, lo, hi).
  unfoldable pub fmax : F → F → F
  fmax a b = if fl.lt a b then b else a

  unfoldable pub fmin : F → F → F
  fmin a b = if fl.lt b a then b else a

  unfoldable pub clamp : F → F → F → F
  clamp x lo hi = if fl.lt x lo then lo else if fl.lt hi x then hi else x

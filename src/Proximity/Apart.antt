-- ===== src/Proximity/Apart.antt =====
-- core/src/proximity.cpp: who is too far apart to be heard, floors included.
use omp_voice.Base.Float.{FloatOps, ge, milli}
use omp_voice.Base.{ℤ, pos, negsuc, ◌≡◌, ◌≢◌, ◌⊎◌, true, arith}
use omp_voice.Registry.{Player}
use omp_voice.Proximity.{ProximityTuning, effective_range}

-- What sums and squares are relied on for. They hold of IEEE numbers, rounded or infinite. A number
-- that equals itself is no NaN.
pub record SumOrder (F : Type 0) ⦃fl : FloatOps F⦄ : Type 0 where
  pub ge_add_left :
      (a b r : F)
      → ge a (fl.lit 0 0) ≡ true
      → ge b (fl.lit 0 0) ≡ true
      → ge b r ≡ true
      → ge (fl.add a b) r ≡ true
  pub ge_add_right :
      (a b r : F)
      → ge a (fl.lit 0 0) ≡ true
      → ge b (fl.lit 0 0) ≡ true
      → ge a r ≡ true
      → ge (fl.add a b) r ≡ true
  pub square_ge : (d : F) → fl.eq d d ≡ true → ge (fl.mul d d) (fl.lit 0 0) ≡ true

module _ {F : Type 0} ⦃fl : FloatOps F⦄ where
  -- As far along one axis as the range of the speaker, by the squares.
  abbrev pub IsBeyond : F → F → Type 0
  IsBeyond range gap = ge (fl.mul gap gap) (fl.mul range range) ≡ true

  -- In another interior or another world, or beyond the range along an axis, up and down included.
  abbrev pub IsApart : Player F → Player F → ProximityTuning F → Type 0
  IsApart sp li t =
      (sp.interior ≢ li.interior)
      ⊎ (sp.vworld ≢ li.vworld)
      ⊎ IsBeyond (effective_range sp t) (fl.sub sp.pos.x li.pos.x)
      ⊎ IsBeyond (effective_range sp t) (fl.sub sp.pos.y li.pos.y)
      ⊎ IsBeyond (effective_range sp t) (fl.sub sp.pos.z li.pos.z)

  -- The gap along an axis is a number.
  abbrev pub IsGap : F → F → Type 0
  IsGap a b = fl.eq (fl.sub a b) (fl.sub a b) ≡ true

milli-ge_add_left :
    (a b r : ℤ)
    → ge a (pos 0) ≡ true
    → ge b (pos 0) ≡ true
    → ge b r ≡ true
    → ge (milli.add a b) r ≡ true
unfolding ge
milli-ge_add_left a b r h k l = ground arith

milli-ge_add_right :
    (a b r : ℤ)
    → ge a (pos 0) ≡ true
    → ge b (pos 0) ≡ true
    → ge a r ≡ true
    → ge (milli.add a b) r ≡ true
unfolding ge
milli-ge_add_right a b r h k l = ground arith

milli-square_ge : (d : ℤ) → ge (milli.mul d d) (pos 0) ≡ true
unfolding ge
milli-square_ge (pos n) = ground arith
milli-square_ge (negsuc n) = ground arith

pub milli_sums : SumOrder ℤ
milli_sums = record {
  ge_add_left = milli-ge_add_left;
  ge_add_right = milli-ge_add_right;
  square_ge = λ d h. milli-square_ge d;
}

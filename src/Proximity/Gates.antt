-- ===== src/Proximity/Gates.antt =====
-- When a listener hears a speaker.
use omp_voice.Base.Float.{FloatOps, ge}
use omp_voice.Base.{◌≡◌, ◌↔◌, true, false, arith}
use omp_voice.Registry.{Player}
use omp_voice.Proximity.{ProximityTuning, effective_range, dist2, heard_volume, evaluate}

module _ {F : Type 0} ⦃fl : FloatOps F⦄ where
  -- What it takes to be heard: the same dimension, the speaker's range, and a volume that is left.
  pub record Hears (sp li : Player F) (t : ProximityTuning F) : Type 0 where
    pub interior : sp.interior ≡ li.interior
    pub vworld : sp.vworld ≡ li.vworld
    pub in_range :
        ge (dist2 sp.pos li.pos) (fl.mul (effective_range sp t) (effective_range sp t)) ≡ false
    pub loud : fl.lt (fl.lit 1 3) (heard_volume sp li t) ≡ true

  -- A speaker is audible exactly under these conditions.
  pub evaluate-Hears :
      (sp li : Player F) (t : ProximityTuning F)
      → ((evaluate sp li t).audible ≡ true) ↔ Hears sp li t
  unfolding evaluate
  evaluate-Hears sp li t = (
    λ h. record {
      interior = ground arith;
      vworld = ground arith;
      in_range = ground arith;
      loud = ground arith;
    },
    λ h. ground arith,
  )

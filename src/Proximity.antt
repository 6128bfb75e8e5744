-- ===== src/Proximity.antt =====
-- core/include/proximity.h and core/src/proximity.cpp: whether and how a listener hears a speaker.
pub mod Gates
pub mod Apart
use omp_voice.Base.Float.{FloatOps, ge, fmax, clamp}
use omp_voice.Base.{ℕ, Bool, true, false, ◌&&◌, ◌||◌, not, nat_beq, if◌then◌else◌}
use omp_voice.Protocol.{RangePreset}
use omp_voice.Registry.{Player, Vec3}

pub record ProximityTuning (F : Type 0) : Type 0 where
  pub whisper : F
  pub normal : F
  pub shout : F
  pub falloff_exp : F
  pub occlusion : Bool
  pub occlude_atten : F
  pub pan_strength : F

pub record ProximityResult (F : Type 0) : Type 0 where
  pub audible : Bool
  pub volume : F
  pub pan : F
  pub occluded : Bool

module _ {F : Type 0} ⦃fl : FloatOps F⦄ where
  unfoldable pub default_prox_tuning : ProximityTuning F
  default_prox_tuning = record {
    whisper = fl.lit 8 0;
    normal = fl.lit 18 0;
    shout = fl.lit 40 0;
    falloff_exp = fl.lit 2 0;
    occlusion = true;
    occlude_atten = fl.lit 45 2;
    pan_strength = fl.lit 8 1;
  }

  preset_range : RangePreset → ProximityTuning F → F
  preset_range RangePreset.whisper t = t.whisper
  preset_range RangePreset.shout t = t.shout
  preset_range RangePreset.normal t = t.normal
  preset_range (RangePreset.unknown n) t = t.normal

  unfoldable pub effective_range : Player F → ProximityTuning F → F
  unfolding preset_range
  effective_range s t =
      if fl.lt (fl.lit 0 0) s.range_override then s.range_override else preset_range s.range t

  unfoldable pub dist2 : Vec3 F → Vec3 F → F
  dist2 a b =
      let dx = fl.sub a.x b.x in
      let dy = fl.sub a.y b.y in
      let dz = fl.sub a.z b.z in fl.add (fl.add (fl.mul dx dx) (fl.mul dy dy)) (fl.mul dz dz)

  abbrev pub silent : ProximityResult F
  silent = record { audible = false; volume = fl.lit 0 0; pan = fl.lit 0 0; occluded = false }

  -- (1 - d / range) ^ falloffExp, and what occlusion leaves of it.
  unfoldable pub falloff : F → F → ProximityTuning F → F
  falloff d range t =
      fl.pow (fmax (fl.lit 0 0) (fl.sub (fl.lit 1 0) (fl.div d range))) t.falloff_exp

  unfoldable pub is_occluded : Player F → Player F → ProximityTuning F → Bool
  is_occluded sp li t = t.occlusion && (nat_beq sp.vehicle 2 || nat_beq li.vehicle 2)

  unfoldable pub heard_volume : Player F → Player F → ProximityTuning F → F
  heard_volume sp li t =
      let v = falloff (fl.sqrt (dist2 sp.pos li.pos)) (effective_range sp t) t in
      if is_occluded sp li t then fl.mul v t.occlude_atten else v

  unfoldable pub pan_of : Player F → Player F → ProximityTuning F → F
  pan_of sp li t =
      let range = effective_range sp t in
      let one = fl.lit 1 0 in
      let norm =
        if fl.lt (fl.lit 0 0) range
        then clamp (fl.div (fl.sub sp.pos.x li.pos.x) range) (fl.neg one) one
        else fl.lit 0 0 in
      fl.mul norm t.pan_strength

  unfoldable pub evaluate : Player F → Player F → ProximityTuning F → ProximityResult F
  unfolding heard_volume pan_of is_occluded
  evaluate sp li t =
      let range = effective_range sp t in
      if not (nat_beq sp.interior li.interior) || not (nat_beq sp.vworld li.vworld)
      then silent
      else if ge (dist2 sp.pos li.pos) (fl.mul range range)
      then silent
      else record {
        audible = fl.lt (fl.lit 1 3) (heard_volume sp li t);
        volume = heard_volume sp li t;
        pan = pan_of sp li t;
        occluded = is_occluded sp li t;
      }

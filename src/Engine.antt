-- ===== src/Engine.antt =====
-- core/include/engine.h and core/src/engine.cpp: the state of the engine, and how one listener comes
-- to hear one speaker. What the engine hands to its sinks is a list of outputs, in order.
pub mod Audio
pub mod Control
pub mod Hearing
pub mod Places
pub mod Distinct
pub mod Capped
pub mod Sound
pub mod Steps
pub mod Departure
use Prim.Native.Nat.{bit_or}
use omp_voice.Base.Float.{FloatOps}
use omp_voice.Base.{
  ℕ, zero, suc, ◌+◌, ◌%◌, ◌^◌, Bool, true, false, not, ◌&&◌, ◌||◌, List, [], ◌∷◌, ◌++◌, Option,
  none, some, Map, lookup, put, contains, nat_beq, nat_eq, length, if◌then◌else◌,
}
use omp_voice.Protocol.{ProximityDown, BusDown, StatusType, af_occluded}
use omp_voice.Registry.{Player, Channel, Registry, empty_registry}
use omp_voice.Grid.{SpatialGrid, empty_grid}
use omp_voice.Proximity.{ProximityTuning, evaluate}
use omp_voice.Near.{NearEntry, nearest_admit}
use omp_voice.Bus.{BusRouter, RadioTuning, BehaviorTuning, value_or}

pub record PolicyLimits : Type 0 where
  pub vad_allowed : ℕ
  pub default_mode : ℕ
  pub max_streams : ℕ

abbrev pub NearSets : Type 0 → Type 0
NearSets F = Map ℕ (List (NearEntry F))

pub record Engine (F D E : Type 0) : Type 0 where
  pub reg : Registry F
  pub grid : SpatialGrid
  pub tune : ProximityTuning F
  pub policy : PolicyLimits
  pub bus : BusRouter F D E
  pub tick_count : ℕ
  pub nearest_n : ℕ
  pub near : NearSets F
  pub spk_enc : Map ℕ (Option E)
  pub spk_seq : Map ℕ ℕ

-- A call of `m_sink` with a `ProximityDown` or a `BusDown` and its Opus bytes, or of `m_status`.
pub data Output (F : Type 0) : Type 0 where
  proximity_down : ℕ → ProximityDown F → List ℕ → Output F
  bus_down : ℕ → BusDown F → List ℕ → Output F
  status : StatusType → ℕ → ℕ → ℕ → Output F

abbrev pub silence_ticks : ℕ
silence_ticks = 8

-- The engine that the constructor makes, with the tunings that `Relay::init` sets.
abbrev pub new_engine :
    {F D E : Type 0}
    → ProximityTuning F
    → PolicyLimits
    → RadioTuning F
    → BehaviorTuning F
    → ℕ
    → Engine F D E
new_engine t p r b n = record {
  reg = empty_registry;
  grid = empty_grid;
  tune = t;
  policy = p;
  bus = record {
    radio = r;
    behavior = b;
    decoders = [];
    encoders = [];
    streams = [];
    last_emit = [];
    chan_active_ms = [];
    garble_phase = [];
    garble_rng = [];
    seq = [];
  };
  tick_count = 0;
  nearest_n = n;
  near = [];
  spk_enc = [];
  spk_seq = [];
}

-- ch && ch->members.count(lid)
unfoldable pub is_member : Option Channel → ℕ → Bool
is_member none lid = false
is_member (some ch) lid = contains lid ch.members

module _ {F : Type 0} ⦃fl : FloatOps F⦄ where
  -- `nearestAdmit` with the set `m_near[listener]`.
  unfoldable pub admit : ℕ → ℕ → ℕ → ℕ → F → NearSets F → Bool × NearSets F
  admit zero now listener speaker vol near = (true, near)
  admit (suc n) now listener speaker vol near =
      let (ok, set) = nearest_admit (suc n) now speaker vol (value_or [] (lookup listener near)) in
      (ok, put listener set near)

  -- The end of both loops over the neighbours: evaluate, nearest-N, and the packet with what is the
  -- listener's own in its header.
  unfoldable pub hear :
      ℕ
      → ℕ
      → ProximityTuning F
      → Player F
      → Player F
      → ℕ
      → ProximityDown F
      → List ℕ
      → NearSets F
      → NearSets F × List (Output F)
  unfolding admit
  hear n now t sp li lid hdr opus near =
      let pr = evaluate sp li t in
      let (ok, near') = admit n now lid hdr.speaker_id pr.volume near in
      if not pr.audible then (near, []) else if not ok then (near', []) else (
        near',
        proximity_down lid
              (record hdr {
                flags = if pr.occluded then bit_or hdr.flags af_occluded else hdr.flags;
                volume = pr.volume;
                pan = pr.pan;
              })
              opus
            ∷ [],
      )

  -- A neighbour in `routeProximity`.
  unfoldable pub proximity_to :
      ℕ
      → ℕ
      → ProximityTuning F
      → Registry F
      → Player F
      → ProximityDown F
      → List ℕ
      → ℕ
      → NearSets F
      → NearSets F × List (Output F)
  unfolding hear
  proximity_to n now t reg sp hdr opus lid near = elim (lookup lid reg.players) [
    | none ↦ (near, [])
    | some li ↦
        if li.deafen || contains hdr.speaker_id li.muted_targets
        then (near, [])
        else hear n now t sp li lid hdr opus near
  ]

  -- A neighbour in `routeSpeakerphone`.
  unfoldable pub speakerphone_to :
      ℕ
      → ℕ
      → ProximityTuning F
      → Registry F
      → ℕ
      → Option Channel
      → Player F
      → ProximityDown F
      → List ℕ
      → ℕ
      → NearSets F
      → NearSets F × List (Output F)
  unfolding hear is_member
  speakerphone_to n now t reg holder ch sp hdr opus lid near = elim (lookup lid reg.players) [
    | none ↦ (near, [])
    | some li ↦
        if nat_beq lid holder
          || (li.deafen || (is_member ch lid || contains holder li.muted_targets))
        then (near, [])
        else hear n now t sp li lid hdr opus near
  ]

-- for (uint16_t lid : neigh).
unfoldable pub visit : {S O : Type 0} → (ℕ → S → S × List O) → List ℕ → S → S × List O
visit f [] s = (s, [])
visit f (lid ∷ lids) s =
    let (s₁, out) = f lid s in let (s₂, outs) = visit f lids s₁ in (s₂, out ++ outs)

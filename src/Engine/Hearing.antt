-- ===== src/Engine/Hearing.antt =====
-- core/src/engine.cpp: who hears a frame of proximity audio.
use omp_voice.Base.Float.{FloatOps}
use omp_voice.Base.{
  ℕ, ◌≡◌, refl, ◌≤◌, inl, inr, false, ◌||◌, List, [], ◌∷◌, some, lookup, contains, nat_eq, ltb,
  length, arith, All, All-append, All-map, Option-cases, Bool-cases, le_of_not_ltb,
}
use omp_voice.Protocol.{ProximityDown, max_opus_bytes}
use omp_voice.Registry.{Player, Registry}
use omp_voice.Grid.{query_neighbours}
use omp_voice.Proximity.{ProximityTuning, evaluate, effective_range}
use omp_voice.Proximity.Gates.{Hears, evaluate-Hears}
use omp_voice.Engine.{
  Engine, Output, NearSets, proximity_down, bus_down, status, admit, hear, proximity_to, visit,
}
use omp_voice.Engine.Audio.{header, route_proximity, is_silenced}

-- What holds of each output of a loop's body holds of each output of the loop.
pub All-visit :
    {S O : Type 0} (P : O → Type 0) (f : ℕ → S → S × List O)
    → ((lid : ℕ) (s : S) → All P (f lid s).1)
    → (lids : List ℕ) (s : S) → All P (visit f lids s).1
unfolding visit
All-visit P f each [] s = tt
All-visit P f each (lid ∷ lids) s =
    All-append P (f lid s).1 (visit f lids (f lid s).0).1 (each lid s)
      (All-visit P f each lids (f lid s).0)

module _ {F : Type 0} ⦃fl : FloatOps F⦄ where
  -- A packet of `sp` to a listener who may hear it: `source` is whom a listener mutes.
  pub record HeardBy (t : ProximityTuning F) (reg : Registry F) (sp : Player F)
      (source speaker_id seq : ℕ) (opus : List ℕ) (lid : ℕ) (down : ProximityDown F)
      (bytes : List ℕ) : Type 0 where
    pub listener : Player F
    pub known : lookup lid reg.players ≡ some listener
    pub not_deaf : listener.deafen ≡ false
    pub not_muted : contains source listener.muted_targets ≡ false
    pub hears : Hears sp listener t
    pub from_speaker : down.speaker_id ≡ speaker_id
    pub in_order : down.seq ≡ seq
    pub loudness : down.volume ≡ (evaluate sp listener t).volume
    pub payload : bytes ≡ opus

  abbrev pub IsHeard :
      ProximityTuning F → Registry F → Player F → ℕ → ℕ → ℕ → List ℕ → Output F → Type 0
  IsHeard t reg sp source speaker_id seq opus (proximity_down lid down bytes) =
      HeardBy t reg sp source speaker_id seq opus lid down bytes
  IsHeard t reg sp source speaker_id seq opus (bus_down lid down bytes) = ⊥
  IsHeard t reg sp source speaker_id seq opus (status ev pid cid byte) = ⊥

  hear-IsHeard :
      (n now : ℕ) (t : ProximityTuning F) (reg : Registry F) (sp li : Player F) (source : ℕ)
      (lid : ℕ) (hdr : ProximityDown F) (opus : List ℕ) (near : NearSets F)
      → lookup lid reg.players ≡ some li
      → li.deafen ≡ false
      → contains source li.muted_targets ≡ false
      → All
          (IsHeard t reg sp source hdr.speaker_id hdr.seq opus)
          (hear n now t sp li lid hdr opus near).1
  unfolding hear
  hear-IsHeard n now t reg sp li source lid hdr opus near known deaf muted =
      elim (Bool-cases (evaluate sp li t).audible) [
        | inr quiet ↦ rw quiet tt
        | inl loud ↦
            elim (Bool-cases (admit n now lid hdr.speaker_id (evaluate sp li t).volume near).0) [
              | inr full ↦ rw loud (rw full tt)
              | inl ok ↦ rw loud (
                  rw ok (
                    record {
                      listener = li;
                      known = known;
                      not_deaf = deaf;
                      not_muted = muted;
                      hears = (evaluate-Hears sp li t).0 loud;
                      from_speaker = refl;
                      in_order = refl;
                      loudness = refl;
                      payload = refl;
                    },
                    tt,
                  ))
            ]
      ]

  proximity_to-IsHeard :
      (n now : ℕ) (t : ProximityTuning F) (reg : Registry F) (sp : Player F) (hdr : ProximityDown F)
      (opus : List ℕ) (lid : ℕ) (near : NearSets F)
      → All
          (IsHeard t reg sp hdr.speaker_id hdr.speaker_id hdr.seq opus)
          (proximity_to n now t reg sp hdr opus lid near).1
  unfolding proximity_to
  proximity_to-IsHeard n now t reg sp hdr opus lid near =
      elim (Option-cases (lookup lid reg.players)) [
        | inl e ↦ rw (e, proximity_to) tt
        | inr (li, e) ↦
            rw (e, proximity_to)
              (elim (Bool-cases (li.deafen || contains hdr.speaker_id li.muted_targets)) [
                | inl shut ↦ rw shut tt
                | inr clear ↦ rw clear (
                    hear-IsHeard n now t reg sp li hdr.speaker_id lid hdr opus near e (ground arith)
                      (ground arith))
              ])
      ]

  -- An output of a frame: its speaker is known and neither dead nor too long.
  abbrev pub IsHeardFrom : {D E : Type 0} → Engine F D E → ℕ → ℕ → List ℕ → Output F → Type 0
  IsHeardFrom e speaker_id seq opus o =
      (sp : Player F) × (lookup speaker_id e.reg.players ≡ some sp)
      × (is_silenced sp ≡ false)
      × (length opus ≤ max_opus_bytes)
      × IsHeard e.tune e.reg sp speaker_id speaker_id seq opus o

  -- Whatever `routeProximity` sends is the frame itself, of a known speaker who is alive or a
  -- spectator, at most 1276 bytes long, to a known listener who is not deafened, has not muted the
  -- speaker, and hears it: same dimension, in range, loud enough, with the volume of `evaluate`.
  pub route_proximity-heard :
      {D E : Type 0} (speaker_id seq flags : ℕ) (opus : List ℕ) (e : Engine F D E)
      → All (IsHeardFrom e speaker_id seq opus) (route_proximity speaker_id seq flags opus e).1
  unfolding route_proximity
  route_proximity-heard speaker_id seq flags opus e =
      elim (Option-cases (lookup speaker_id e.reg.players)) [
        | inl none_there ↦ rw (none_there, route_proximity) tt
        | inr (sp, there) ↦
            rw (there, route_proximity)
              (elim (Bool-cases (is_silenced sp || ltb max_opus_bytes (length opus))) [
                | inl shut ↦ rw shut tt
                | inr clear ↦ rw clear (
                    All-visit (IsHeardFrom e speaker_id seq opus)
                      (proximity_to e.nearest_n e.tick_count e.tune e.reg sp
                        (header speaker_id seq flags opus) opus)
                      (λ lid near.
                        All-map (IsHeard e.tune e.reg sp speaker_id speaker_id seq opus)
                          (IsHeardFrom e speaker_id seq opus)
                          (λ o h. (
                            sp,
                            there,
                            ground arith,
                            le_of_not_ltb max_opus_bytes (length opus) (ground arith),
                            h,
                          ))
                          (proximity_to e.nearest_n e.tick_count e.tune e.reg sp
                            (header speaker_id seq flags opus) opus lid near).1
                          (proximity_to-IsHeard e.nearest_n e.tick_count e.tune e.reg sp
                            (header speaker_id seq flags opus) opus lid near))
                      (query_neighbours sp (effective_range sp e.tune) e.grid) e.near)
              ])
      ]

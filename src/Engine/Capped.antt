-- ===== src/Engine/Capped.antt =====
-- core/src/engine.cpp: the sets of nearest speakers stay within the cap.
use omp_voice.Base.Float.{FloatOps}
use omp_voice.Base.{
  ℕ, zero, suc, ◌≤◌, inl, inr, ◌||◌, List, [], ◌∷◌, Option, lookup, length, contains, lookup-put,
  nat_beq, nat_eq, Option-cases, Bool-cases,
}
use omp_voice.Protocol.{ProximityDown}
use omp_voice.Registry.{Player, Channel, Registry}
use omp_voice.Proximity.{ProximityTuning, evaluate}
use omp_voice.Near.{nearest_admit}
use omp_voice.Near.Bound.{IsOnce, nearest_admit-bounded}
use omp_voice.Bus.{value_or}
use omp_voice.Engine.{NearSets, admit, hear, proximity_to, speakerphone_to, is_member, visit}

pub visit-keeps :
    {S O : Type 0} (P : S → Type 0) (f : ℕ → S → S × List O)
    → ((lid : ℕ) (s : S) → P s → P (f lid s).0)
    → (lids : List ℕ) (s : S) → P s
    → P (visit f lids s).0
unfolding visit
visit-keeps P f each [] s p = p
visit-keeps P f each (lid ∷ lids) s p = visit-keeps P f each lids (f lid s).0 (each lid s p)

module _ {F : Type 0} where
  -- Each listener's set is within the cap and has a speaker at most once.
  abbrev pub IsCapped : ℕ → NearSets F → Type 0
  IsCapped n near =
      (lid : ℕ)
      → (length (value_or [] (lookup lid near)) ≤ n) × IsOnce (value_or [] (lookup lid near))

module _ {F : Type 0} ⦃fl : FloatOps F⦄ where
  pub admit-IsCapped :
      (n now lid speaker : ℕ) (vol : F) (near : NearSets F)
      → IsCapped n near
      → IsCapped n (admit n now lid speaker vol near).1
  unfolding admit value_or
  admit-IsCapped zero now lid speaker vol near c j = c j
  admit-IsCapped (suc n) now lid speaker vol near c j =
      let es = value_or [] (lookup lid near) in
      let r = nearest_admit (suc n) now speaker vol es in
      let b = nearest_admit-bounded n now speaker vol es (c lid).0 (c lid).1 in
      elim (Bool-cases (nat_beq lid j)) [
        | inl same ↦ rw (lookup-put lid j r.1 near) (rw same (b.0, b.1))
        | inr other ↦ rw (lookup-put lid j r.1 near) (rw other (c j))
      ]

  pub hear-IsCapped :
      (n now : ℕ) (t : ProximityTuning F) (sp li : Player F) (lid : ℕ) (hdr : ProximityDown F)
      (opus : List ℕ) (near : NearSets F)
      → IsCapped n near
      → IsCapped n (hear n now t sp li lid hdr opus near).0
  unfolding hear
  hear-IsCapped n now t sp li lid hdr opus near c =
      let vol = (evaluate sp li t).volume in
      let r = admit n now lid hdr.speaker_id vol near in
      elim (Bool-cases (evaluate sp li t).audible) [
        | inr quiet ↦ rw quiet c
        | inl loud ↦ elim (Bool-cases r.0) [
          | inl ok ↦ rw loud (rw ok (admit-IsCapped n now lid hdr.speaker_id vol near c))
          | inr full ↦ rw loud (rw full (admit-IsCapped n now lid hdr.speaker_id vol near c))
        ]
      ]

  pub proximity_to-IsCapped :
      (n now : ℕ) (t : ProximityTuning F) (reg : Registry F) (sp : Player F) (hdr : ProximityDown F)
      (opus : List ℕ) (lid : ℕ) (near : NearSets F)
      → IsCapped n near
      → IsCapped n (proximity_to n now t reg sp hdr opus lid near).0
  unfolding proximity_to
  proximity_to-IsCapped n now t reg sp hdr opus lid near c =
      elim (Option-cases (lookup lid reg.players)) [
        | inl e ↦ rw (e, proximity_to) c
        | inr (li, e) ↦
            rw (e, proximity_to)
              (elim (Bool-cases (li.deafen || contains hdr.speaker_id li.muted_targets)) [
                | inl shut ↦ rw shut c
                | inr clear ↦ rw clear (hear-IsCapped n now t sp li lid hdr opus near c)
              ])
      ]

  pub speakerphone_to-IsCapped :
      (n now : ℕ) (t : ProximityTuning F) (reg : Registry F) (holder : ℕ) (ch : Option Channel)
      (sp : Player F) (hdr : ProximityDown F) (opus : List ℕ) (lid : ℕ) (near : NearSets F)
      → IsCapped n near
      → IsCapped n (speakerphone_to n now t reg holder ch sp hdr opus lid near).0
  unfolding speakerphone_to
  speakerphone_to-IsCapped n now t reg holder ch sp hdr opus lid near c =
      elim (Option-cases (lookup lid reg.players)) [
        | inl e ↦ rw (e, speakerphone_to) c
        | inr (li, e) ↦
            rw (e, speakerphone_to)
              (elim (Bool-cases (
                nat_beq lid holder
                || (li.deafen || (is_member ch lid || contains holder li.muted_targets)))) [
                  | inl shut ↦ rw shut c
                  | inr clear ↦ rw clear (hear-IsCapped n now t sp li lid hdr opus near c)
                ])
      ]

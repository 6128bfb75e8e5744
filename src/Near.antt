-- ===== src/Near.antt =====
-- core/src/engine.cpp, `nearestAdmit`: each listener hears at most N speakers by proximity.
pub mod Pass
pub mod Bound
pub mod Weakest
use omp_voice.Base.Float.{FloatOps}
use omp_voice.Base.{
  ℕ, zero, suc, ◌+◌, ◌-◌, ◌%◌, ◌^◌, Bool, true, false, List, [], ◌∷◌, ◌++◌, Option, none, some, ltb,
  leb, nat_beq, length, set, get_elem?, if◌then◌else◌,
}

pub record NearEntry (F : Type 0) : Type 0 where
  pub speaker : ℕ
  pub volume : F
  pub tick : ℕ

-- uint32_t a - b.
unfoldable pub sub32 : ℕ → ℕ → ℕ
sub32 a b = (a + 2 ^ 32 - b % 2 ^ 32) % 2 ^ 32

-- What the one pass over the set leaves: the fresh entries, and the places of the weakest (with its
-- volume) and of the speaker.
pub record Scan (F : Type 0) : Type 0 where
  pub entries : List (NearEntry F)
  pub weakest : Option ℕ
  pub weakest_vol : F
  pub self : Option ℕ

module _ {F : Type 0} where
  unfoldable pub init_entries : NearEntry F → List (NearEntry F) → List (NearEntry F)
  init_entries x [] = []
  init_entries x (y ∷ ys) = x ∷ init_entries y ys

  unfoldable pub last_entry : NearEntry F → List (NearEntry F) → NearEntry F
  last_entry x [] = x
  last_entry x (y ∷ ys) = last_entry y ys

  -- set[i] = set.back(); set.pop_back(): what then stands from place i on.
  unfoldable pub swap_last : List (NearEntry F) → List (NearEntry F)
  unfolding init_entries last_entry
  swap_last [] = []
  swap_last (y ∷ ys) = last_entry y ys ∷ init_entries y ys

  -- m_tickCount - e.tick > kFreshTicks.
  unfoldable pub is_stale : ℕ → NearEntry F → Bool
  is_stale now e = ltb 2 (sub32 now e.tick)

module _ {F : Type 0} ⦃fl : FloatOps F⦄ where
  -- An entry that stays: it may be the speaker's, or the weakest so far.
  unfoldable pub note : ℕ → NearEntry F → Scan F → Scan F
  note speaker e s =
      let i = length s.entries in
      let weaker = fl.lt e.volume s.weakest_vol in
      record {
        entries = s.entries ++ e ∷ [];
        weakest = if weaker then some i else s.weakest;
        weakest_vol = if weaker then e.volume else s.weakest_vol;
        self = if nat_beq e.speaker speaker then some i else s.self;
      }

  -- The loop: `s.entries` is what stands before place i and `rest` what stands from it on. `fuel` is
  -- at least the length of `rest`.
  unfoldable pub scan : ℕ → ℕ → ℕ → List (NearEntry F) → Scan F → Scan F
  scan zero now speaker rest s = s
  scan (suc fuel) now speaker [] s = s
  scan (suc fuel) now speaker (e ∷ rest) s = elim (is_stale now e) [
    | true ↦ scan fuel now speaker (swap_last rest) s
    | false ↦ scan fuel now speaker rest (note speaker e s)
  ]

  unfoldable pub scan_set : ℕ → ℕ → List (NearEntry F) → Scan F
  unfolding scan
  scan_set now speaker set =
      scan (length set) now speaker set
        (record { entries = []; weakest = none; weakest_vol = fl.lit 1000000000 0; self = none })

  -- set[weakest] = { speaker, vol, m_tickCount }, if it is louder.
  unfoldable pub evict : NearEntry F → Scan F → Bool × List (NearEntry F)
  evict new s = elim s.weakest [
    | none ↦ (false, s.entries)
    | some i ↦
        if fl.lt s.weakest_vol new.volume then (true, set s.entries i new) else (false, s.entries)
  ]

  -- What is done with the scan: refresh, take a free slot, or replace the weakest.
  unfoldable pub admit_scanned : ℕ → NearEntry F → Scan F → Bool × List (NearEntry F)
  unfolding evict
  admit_scanned n new s = elim s.self [
    | some i ↦ (true, set s.entries i new)
    | none ↦ if ltb (length s.entries) n then (true, s.entries ++ new ∷ []) else evict new s
  ]

  unfoldable pub nearest_admit : ℕ → ℕ → ℕ → F → List (NearEntry F) → Bool × List (NearEntry F)
  unfolding scan_set admit_scanned
  nearest_admit zero now speaker vol set = (true, set)
  nearest_admit (suc n) now speaker vol set =
      admit_scanned (suc n) (record { speaker = speaker; volume = vol; tick = now })
        (scan_set now speaker set)

-- ===== src/Near/Pass.antt =====
-- What the pass over a listener's set finds.
use omp_voice.Base.Float.{FloatOps}
use omp_voice.Base.{
  ℕ, zero, suc, ◌+◌, ◌≤◌, ◌≡◌, refl, ◌∙◌, inl, inr, false, not, ◌&&◌, List, [], ◌∷◌, ◌++◌, Option,
  none, some, arith, nat_beq, length, length-append, get_elem?, All, Bool-cases, if◌then◌else◌,
}
use omp_voice.Near.{
  NearEntry, Scan, init_entries, last_entry, swap_last, is_stale, note, scan, scan_set,
}

module _ {F : Type 0} where
  -- How many entries a speaker has, and how many of those are fresh.
  abbrev pub entries_of : ℕ → List (NearEntry F) → ℕ
  entries_of k [] = 0
  entries_of k (e ∷ es) = (if nat_beq e.speaker k then 1 else 0) + entries_of k es

  abbrev pub fresh_of : ℕ → ℕ → List (NearEntry F) → ℕ
  fresh_of now k [] = 0
  fresh_of now k (e ∷ es) =
      (if nat_beq e.speaker k && not (is_stale now e) then 1 else 0) + fresh_of now k es

  pub entries_of-append :
      (k : ℕ) (xs ys : List (NearEntry F))
      → entries_of k (xs ++ ys) ≡ entries_of k xs + entries_of k ys
  entries_of-append k [] ys = omega arith
  entries_of-append k (x ∷ xs) ys = omega (arith, entries_of-append k xs ys)

  pub All-append {κ} :
      (P : NearEntry F → Type κ) (xs ys : List (NearEntry F))
      → All P xs
      → All P ys
      → All P (xs ++ ys)
  All-append P [] ys h k = k
  All-append P (x ∷ xs) ys h k = (h.0, All-append P xs ys h.1 k)

  fresh_of-swap :
      (now k : ℕ) (xs : List (NearEntry F)) → fresh_of now k (swap_last xs) ≡ fresh_of now k xs
  unfolding swap_last init_entries last_entry
  fresh_of-swap now k [] = refl
  fresh_of-swap now k (y ∷ []) = refl
  fresh_of-swap now k (y ∷ z ∷ ys) = omega (arith, fresh_of-swap now k (z ∷ ys))

  length-swap : (xs : List (NearEntry F)) → length (swap_last xs) ≡ length xs
  unfolding swap_last init_entries last_entry
  length-swap [] = refl
  length-swap (y ∷ []) = refl
  length-swap (y ∷ z ∷ ys) = omega (arith, length-swap (z ∷ ys))

  pub get_elem?-snoc :
      (xs : List (NearEntry F)) (e : NearEntry F) → get_elem? (xs ++ e ∷ []) (length xs) ≡ some e
  get_elem?-snoc [] e = refl
  get_elem?-snoc (x ∷ xs) e = get_elem?-snoc xs e

  pub get_elem?-append :
      (xs ys : List (NearEntry F)) (i : ℕ) (e : NearEntry F)
      → get_elem? xs i ≡ some e
      → get_elem? (xs ++ ys) i ≡ some e
  get_elem?-append [] ys i e h = cc
  get_elem?-append (x ∷ xs) ys zero e h = h
  get_elem?-append (x ∷ xs) ys (suc i) e h = get_elem?-append xs ys i e h

module _ {F : Type 0} ⦃fl : FloatOps F⦄ where
  -- The place of the speaker, if it has one.
  abbrev pub SelfOk : ℕ → List (NearEntry F) → Option ℕ → Type 0
  SelfOk speaker es none = entries_of speaker es ≡ 0
  SelfOk speaker es (some i) = (e : NearEntry F) × (get_elem? es i ≡ some e) × (e.speaker ≡ speaker)

  -- The place of the weakest, with its volume.
  abbrev pub WeakestOk : List (NearEntry F) → F → Option ℕ → Type 0
  WeakestOk es v none = Unit {0}
  WeakestOk es v (some i) = (e : NearEntry F) × (get_elem? es i ≡ some e) × (e.volume ≡ v)

  abbrev pub IsFresh : ℕ → NearEntry F → Type 0
  IsFresh now e = is_stale now e ≡ false

  abbrev pub NotBelow : F → NearEntry F → Type 0
  NotBelow v e = fl.lt e.volume v ≡ false

  pub record ScanOk (now speaker : ℕ) (s : Scan F) : Type 0 where
    pub fresh : All (IsFresh now) s.entries
    pub self : SelfOk speaker s.entries s.self
    pub weakest : WeakestOk s.entries s.weakest_vol s.weakest

  note-SelfOk :
      (speaker : ℕ) (e : NearEntry F) (es : List (NearEntry F)) (o : Option ℕ)
      → SelfOk speaker es o
      → SelfOk speaker (es ++ e ∷ []) (if nat_beq e.speaker speaker then some (length es) else o)
  note-SelfOk speaker e es o h = elim (Bool-cases (nat_beq e.speaker speaker)) [
    | inl same ↦ rw same (e, get_elem?-snoc es e, ground arith)
    | inr other ↦ rw other (keep other o h)
  ]
    where
      keep :
          nat_beq e.speaker speaker ≡ false
          → (o : Option ℕ) → SelfOk speaker es o
          → SelfOk speaker (es ++ e ∷ []) o
      keep other none h = ground (arith, entries_of-append speaker es (e ∷ []))
      keep other (some i) h = (h.0, get_elem?-append es (e ∷ []) i h.0 h.1, h.2)

  note-WeakestOk :
      (e : NearEntry F) (es : List (NearEntry F)) (v : F) (o : Option ℕ)
      → WeakestOk es v o
      → WeakestOk
          (es ++ e ∷ [])
          (if fl.lt e.volume v then e.volume else v)
          (if fl.lt e.volume v then some (length es) else o)
  note-WeakestOk e es v o h = elim (Bool-cases (fl.lt e.volume v)) [
    | inl less ↦ rw less (e, get_elem?-snoc es e, refl)
    | inr more ↦ rw more (keep o h)
  ]
    where
      keep : (o : Option ℕ) → WeakestOk es v o → WeakestOk (es ++ e ∷ []) v o
      keep none h = tt
      keep (some i) h = (h.0, get_elem?-append es (e ∷ []) i h.0 h.1, h.2)

  note-ScanOk :
      (now speaker : ℕ) (e : NearEntry F) (s : Scan F)
      → is_stale now e ≡ false
      → ScanOk now speaker s
      → ScanOk now speaker (note speaker e s)
  unfolding note
  note-ScanOk now speaker e s f h = record {
    fresh = All-append (IsFresh now) s.entries (e ∷ []) h.fresh (f, tt);
    self = note-SelfOk speaker e s.entries s.self h.self;
    weakest = note-WeakestOk e s.entries s.weakest_vol s.weakest h.weakest;
  }

  scan-ScanOk :
      (fuel now speaker : ℕ) (rest : List (NearEntry F)) (s : Scan F)
      → ScanOk now speaker s
      → ScanOk now speaker (scan fuel now speaker rest s)
  unfolding scan
  scan-ScanOk zero now speaker rest s h = h
  scan-ScanOk (suc fuel) now speaker [] s h = h
  scan-ScanOk (suc fuel) now speaker (e ∷ rest) s h = elim (Bool-cases (is_stale now e)) [
    | inl old ↦ rw (old, scan) (scan-ScanOk fuel now speaker (swap_last rest) s h)
    | inr new ↦
        rw (new, scan)
          (scan-ScanOk fuel now speaker rest (note speaker e s) (note-ScanOk now speaker e s new h))
  ]

  -- With enough fuel the pass keeps exactly the fresh entries.
  scan-entries :
      (fuel now speaker : ℕ) (rest : List (NearEntry F)) (s : Scan F) (k : ℕ)
      → length rest ≤ fuel
      → entries_of k (scan fuel now speaker rest s).entries
        ≡ entries_of k s.entries + fresh_of now k rest
  unfolding scan note
  scan-entries zero now speaker [] s k h = omega arith
  scan-entries zero now speaker (e ∷ rest) s k h = absurd (omega arith)
  scan-entries (suc fuel) now speaker [] s k h = omega arith
  scan-entries (suc fuel) now speaker (e ∷ rest) s k h = ground (
    arith,
    length-swap rest,
    fresh_of-swap now k rest,
    scan-entries fuel now speaker (swap_last rest) s k,
    scan-entries fuel now speaker rest (note speaker e s) k,
    entries_of-append k s.entries (e ∷ []),
  )

  scan-length :
      (fuel now speaker : ℕ) (rest : List (NearEntry F)) (s : Scan F)
      → length (scan fuel now speaker rest s).entries ≤ length s.entries + length rest
  unfolding scan note
  scan-length zero now speaker rest s = omega arith
  scan-length (suc fuel) now speaker [] s = omega arith
  scan-length (suc fuel) now speaker (e ∷ rest) s = ground (
    arith,
    length-swap rest,
    scan-length fuel now speaker (swap_last rest) s,
    scan-length fuel now speaker rest (note speaker e s),
    length-append s.entries (e ∷ []),
  )

  pub scan_set-ScanOk :
      (now speaker : ℕ) (es : List (NearEntry F)) → ScanOk now speaker (scan_set now speaker es)
  unfolding scan_set
  scan_set-ScanOk now speaker es =
      scan-ScanOk (length es) now speaker es _ (record { fresh = tt; self = refl; weakest = tt })

  pub scan_set-entries :
      (now speaker : ℕ) (es : List (NearEntry F)) (k : ℕ)
      → entries_of k (scan_set now speaker es).entries ≡ fresh_of now k es
  unfolding scan_set
  scan_set-entries now speaker es k =
      scan-entries (length es) now speaker es _ k (omega arith) ∙ omega arith

  pub scan_set-length :
      (now speaker : ℕ) (es : List (NearEntry F))
      → length (scan_set now speaker es).entries ≤ length es
  unfolding scan_set
  scan_set-length now speaker es = omega (arith, scan-length (length es) now speaker es start)
    where
      start : Scan F
      start = record {
        entries = [];
        weakest = none;
        weakest_vol = fl.lit 1000000000 0;
        self = none;
      }

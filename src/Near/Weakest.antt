-- ===== src/Near/Weakest.antt =====
-- Who is refused: only a speaker that is no louder than any of those that are heard.
use omp_voice.Base.Float.{FloatOps, FloatOrder}
use omp_voice.Base.{
  ℕ, zero, suc, ◌≡◌, refl, sym, subst, ◌⊎◌, inl, inr, true, false, List, [], ◌∷◌, none, some, arith,
  length, All, Bool-cases,
}
use omp_voice.Near.Pass.{All-append, NotBelow, IsFresh, scan_set-ScanOk}
use omp_voice.Near.Bound.{admit_scanned-Admitted}
use omp_voice.Near.{
  NearEntry, Scan, note, scan, scan_set, swap_last, is_stale, evict, admit_scanned, nearest_admit,
}

module _ {F : Type 0} ⦃fl : FloatOps F⦄ (order : FloatOrder F) where
  -- `weakestVol` starts above every volume.
  abbrev pub loudest : F
  loudest = fl.lit 1000000000 0

  -- No entry is below the weakest, which is at its start or below that.
  record Lowest (s : Scan F) : Type 0 where
    low : All (NotBelow s.weakest_vol) s.entries
    start :
        ((s.weakest ≡ none) × (s.weakest_vol ≡ loudest))
        ⊎ ((i : ℕ) × (s.weakest ≡ some i) × (fl.lt s.weakest_vol loudest ≡ true))

  NotBelow-weaker :
      (v w : F) (es : List (NearEntry F))
      → fl.lt w v ≡ true
      → All (NotBelow v) es
      → All (NotBelow w) es
  NotBelow-weaker v w [] h a = tt
  NotBelow-weaker v w (e ∷ es) h a =
      (ground (arith, order.lt_trans e.volume w v, a.0), NotBelow-weaker v w es h a.1)

  note-Lowest : (speaker : ℕ) (e : NearEntry F) (s : Scan F) → Lowest s → Lowest (note speaker e s)
  unfolding note
  note-Lowest speaker e s h = elim (Bool-cases (fl.lt e.volume s.weakest_vol)) [
    | inl less ↦
        let under : fl.lt e.volume loudest ≡ true = elim h.start [
          | inl (n, v) ↦ ground arith
          | inr (i, n, l) ↦ order.lt_trans e.volume s.weakest_vol loudest less l
        ] in
        rw (less, note)
          (record {
            low =
                All-append (NotBelow e.volume) s.entries (e ∷ [])
                  (NotBelow-weaker s.weakest_vol e.volume s.entries less h.low)
                  (order.lt_irrefl e.volume, tt);
            start = inr (length s.entries, refl, under);
          })
    | inr more ↦
        rw (more, note)
          (record {
            low = All-append (NotBelow s.weakest_vol) s.entries (e ∷ []) h.low (more, tt);
            start = h.start;
          })
  ]

  scan-Lowest :
      (fuel now speaker : ℕ) (rest : List (NearEntry F)) (s : Scan F)
      → Lowest s
      → Lowest (scan fuel now speaker rest s)
  unfolding scan
  scan-Lowest zero now speaker rest s h = h
  scan-Lowest (suc fuel) now speaker [] s h = h
  scan-Lowest (suc fuel) now speaker (e ∷ rest) s h = elim (Bool-cases (is_stale now e)) [
    | inl old ↦ rw (old, scan) (scan-Lowest fuel now speaker (swap_last rest) s h)
    | inr new ↦
        rw (new, scan)
          (scan-Lowest fuel now speaker rest (note speaker e s) (note-Lowest speaker e s h))
  ]

  -- What is not below the weakest is not below what is no louder than it.
  NotBelow-quieter :
      (v w : F) (es : List (NearEntry F))
      → (w ≡ loudest) ⊎ (fl.lt w loudest ≡ true)
      → fl.lt v loudest ≡ true
      → fl.lt w v ≡ false
      → All (NotBelow w) es
      → All (NotBelow v) es
  NotBelow-quieter v w [] s b q a = tt
  NotBelow-quieter v w (e ∷ es) s b q a = (head s, NotBelow-quieter v w es s b q a.1)
    where
      head : (w ≡ loudest) ⊎ (fl.lt w loudest ≡ true) → fl.lt e.volume v ≡ false
      head (inl top) = ground (arith, order.lt_trans e.volume v loudest, a.0)
      head (inr under) = ground (arith, order.lt_cotrans e.volume w v loudest under, a.0)

  scan_set-Lowest : (now speaker : ℕ) (es : List (NearEntry F)) → Lowest (scan_set now speaker es)
  unfolding scan_set
  scan_set-Lowest now speaker es =
      scan-Lowest (length es) now speaker es _ (record { low = tt; start = inl (refl, refl) })

  refused_quieter :
      (n : ℕ) (new : NearEntry F) (s : Scan F)
      → Lowest s
      → fl.lt new.volume loudest ≡ true
      → (admit_scanned n new s).0 ≡ false
      → ((s.weakest_vol ≡ loudest) ⊎ (fl.lt s.weakest_vol loudest ≡ true))
        × (fl.lt s.weakest_vol new.volume ≡ false)
  unfolding admit_scanned evict
  refused_quieter n new s low b r = elim low.start [
    | inl (w, v) ↦ (
      inl v,
      rw v (
          ground (
            arith,
            order.lt_trans new.volume loudest new.volume,
            order.lt_irrefl new.volume,
            order.lt_irrefl loudest,
            order.lt_trans loudest new.volume loudest,
          )),
    )
    | inr (i, w, l) ↦ (inr l, ground arith)
  ]

  -- With an order of floats, a speaker that is refused at a cap of at least one meets only fresh entries, none of them below
  -- its volume. The volume is less than the number from which the search for the weakest starts.
  pub nearest_admit-refused :
      (n now speaker : ℕ) (vol : F) (es : List (NearEntry F))
      → fl.lt vol loudest ≡ true
      → (nearest_admit (suc n) now speaker vol es).0 ≡ false
      → All (IsFresh now) (nearest_admit (suc n) now speaker vol es).1
        × All (NotBelow vol) (nearest_admit (suc n) now speaker vol es).1
  unfolding nearest_admit
  nearest_admit-refused n now speaker vol es b r =
      let s = scan_set now speaker es in
      let ok = scan_set-ScanOk now speaker es in
      let new : NearEntry F = record { speaker = speaker; volume = vol; tick = now } in
      let a = admit_scanned-Admitted (suc n) now new s s.self refl ok.self ok in
      let low = scan_set-Lowest now speaker es in
      let (under, quiet) = refused_quieter (suc n) new s low b r in
      subst (λ z. All (IsFresh now) z × All (NotBelow vol) z) (sym (a.refused r).0)
        (ok.fresh, NotBelow-quieter vol s.weakest_vol s.entries under b quiet low.low)

-- ===== src/Near/Bound.antt =====
-- The cap: a listener's set never outgrows N, has a speaker once, and holds what was admitted.
use omp_voice.Base.Float.{FloatOps}
use omp_voice.Base.{
  ℕ, zero, suc, ◌+◌, ◌≤◌, ◌<◌, ◌≡◌, refl, ap, ◌∙◌, ◌⊎◌, inl, inr, Bool, true, false, List, [], ◌∷◌,
  ◌++◌, Option, none, some, arith, nat_beq, length, length-append, set, get_elem?, ltb, ltb→lt,
  le_of_not_ltb, Bool-cases, if◌then◌else◌,
}
use omp_voice.Near.Pass.{
  entries_of, fresh_of, entries_of-append, ScanOk, SelfOk, WeakestOk, scan_set-ScanOk,
  scan_set-entries, scan_set-length, get_elem?-snoc,
}
use omp_voice.Near.{NearEntry, Scan, scan_set, evict, admit_scanned, nearest_admit}

module _ {F : Type 0} where
  length-set : (es : List (NearEntry F)) (i : ℕ) (e : NearEntry F) → length (set es i e) ≡ length es
  length-set [] i e = refl
  length-set (x ∷ es) zero e = refl
  length-set (x ∷ es) (suc i) e = omega (arith, length-set es i e)

  -- Writing `new` over `old`.
  entries_of-set :
      (k : ℕ) (es : List (NearEntry F)) (i : ℕ) (old new : NearEntry F)
      → get_elem? es i ≡ some old
      → entries_of k (set es i new) + (if nat_beq old.speaker k then 1 else 0)
        ≡ entries_of k es + (if nat_beq new.speaker k then 1 else 0)
  entries_of-set k [] i old new h = cc
  entries_of-set k (x ∷ es) zero old new h = ground arith
  entries_of-set k (x ∷ es) (suc i) old new h = omega (arith, entries_of-set k es i old new h)

  get_elem?-set :
      (es : List (NearEntry F)) (i : ℕ) (old new : NearEntry F)
      → get_elem? es i ≡ some old
      → get_elem? (set es i new) i ≡ some new
  get_elem?-set [] i old new h = cc
  get_elem?-set (x ∷ es) zero old new h = refl
  get_elem?-set (x ∷ es) (suc i) old new h = get_elem?-set es i old new h

  fresh_of-le : (now k : ℕ) (es : List (NearEntry F)) → fresh_of now k es ≤ entries_of k es
  fresh_of-le now k [] = omega arith
  fresh_of-le now k (e ∷ es) = ground (arith, fresh_of-le now k es)

  -- No speaker has two entries.
  abbrev pub IsOnce : List (NearEntry F) → Type 0
  IsOnce es = (k : ℕ) → entries_of k es ≤ 1

  -- What becomes of the entries `es` that were found: as they are, or with `new` among them.
  pub record Admitted (n : ℕ) (new : NearEntry F) (es : List (NearEntry F))
      (r : Bool × List (NearEntry F)) : Type 0 where
    pub bounded : length es ≤ n → length r.1 ≤ n
    pub once : IsOnce es → IsOnce r.1
    pub held : r.0 ≡ true → (i : ℕ) × (get_elem? r.1 i ≡ some new)
    pub refused : r.0 ≡ false → (r.1 ≡ es) × (n ≤ length es) × (entries_of new.speaker es ≡ 0)

  Admitted-set :
      (n i : ℕ) (old new : NearEntry F) (es : List (NearEntry F))
      → get_elem? es i ≡ some old
      → (old.speaker ≡ new.speaker) ⊎ (entries_of new.speaker es ≡ 0)
      → Admitted n new es (true, set es i new)
  Admitted-set n i old new es h d = record {
    bounded = λ b. omega (arith, length-set es i new);
    once = λ o k. ground (arith, o k, entries_of-set k es i old new h);
    held = λ t. (i, get_elem?-set es i old new h);
    refused = λ t. absurd (cc);
  }

  Admitted-snoc :
      (n : ℕ) (new : NearEntry F) (es : List (NearEntry F))
      → length es < n
      → entries_of new.speaker es ≡ 0
      → Admitted n new es (true, es ++ new ∷ [])
  Admitted-snoc n new es h z = record {
    bounded = λ b. omega (arith, length-append es (new ∷ []));
    once = λ o k. ground (arith, o k, entries_of-append k es (new ∷ []));
    held = λ t. (length es, get_elem?-snoc es new);
    refused = λ t. absurd (cc);
  }

  Admitted-refused :
      (n : ℕ) (new : NearEntry F) (es : List (NearEntry F))
      → n ≤ length es
      → entries_of new.speaker es ≡ 0
      → Admitted n new es (false, es)
  Admitted-refused n new es h z = record {
    bounded = λ b. b;
    once = λ o. o;
    held = λ t. absurd (cc);
    refused = λ t. (refl, h, z);
  }

module _ {F : Type 0} ⦃fl : FloatOps F⦄ where
  evict-Admitted :
      (n : ℕ) (new : NearEntry F) (s : Scan F)
      → (o : Option ℕ) → s.weakest ≡ o
      → WeakestOk s.entries s.weakest_vol o
      → n ≤ length s.entries
      → entries_of new.speaker s.entries ≡ 0
      → Admitted n new s.entries (evict new s)
  unfolding evict
  evict-Admitted n new s none e w h z = rw (e, evict) (Admitted-refused n new s.entries h z)
  evict-Admitted n new s (some i) e w h z = elim (Bool-cases (fl.lt s.weakest_vol new.volume)) [
    | inl louder ↦ rw (e, evict) (rw louder (Admitted-set n i w.0 new s.entries w.1 (inr z)))
    | inr quieter ↦ rw (e, evict) (rw quieter (Admitted-refused n new s.entries h z))
  ]

  pub admit_scanned-Admitted :
      (n now : ℕ) (new : NearEntry F) (s : Scan F) (o : Option ℕ)
      → s.self ≡ o
      → SelfOk new.speaker s.entries o
      → ScanOk now new.speaker s
      → Admitted n new s.entries (admit_scanned n new s)
  unfolding admit_scanned
  admit_scanned-Admitted n now new s (some i) e self ok =
      rw (e, admit_scanned) (Admitted-set n i self.0 new s.entries self.1 (inl self.2))
  admit_scanned-Admitted n now new s none e self ok = elim (Bool-cases (ltb (length s.entries) n)) [
    | inl free ↦
        rw (e, admit_scanned) (rw free (Admitted-snoc n new s.entries (ltb→lt _ _ free) self))
    | inr full ↦
        rw (e, admit_scanned)
          (rw full (evict-Admitted n new s s.weakest refl ok.weakest (le_of_not_ltb _ _ full) self))
  ]

  -- With a cap of at least one, a set within the cap that has no speaker twice stays so; a speaker
  -- that is admitted is in it with its volume and the tick; one that is refused is not in it, and
  -- the set has then as many entries as the cap.
  pub nearest_admit-bounded :
      (n now speaker : ℕ) (vol : F) (es : List (NearEntry F))
      → length es ≤ suc n
      → IsOnce es
      → let r = nearest_admit (suc n) now speaker vol es in
        (length r.1 ≤ suc n)
        × IsOnce r.1
        × (r.0 ≡ true
            → (i : ℕ) × (get_elem? r.1 i
                ≡ some (record { speaker = speaker; volume = vol; tick = now })))
        × (r.0 ≡ false → (suc n ≤ length r.1) × (entries_of speaker r.1 ≡ 0))
  unfolding nearest_admit
  nearest_admit-bounded n now speaker vol es b o =
      let s = scan_set now speaker es in
      let ok = scan_set-ScanOk now speaker es in
      let new : NearEntry F = record { speaker = speaker; volume = vol; tick = now } in
      let a = admit_scanned-Admitted (suc n) now new s s.self refl ok.self ok in
      let once : IsOnce s.entries =
        λ k. ground (arith, scan_set-entries now speaker es k, fresh_of-le now k es, o k) in
      (
        a.bounded (omega (arith, scan_set-length now speaker es)),
        a.once once,
        a.held,
        λ t.
            let (e, h, z) = a.refused t in
            (omega (arith, ap length e), ap (entries_of speaker) e ∙ z),
      )

-- ===== src/Relay/Silence.antt =====
-- relay/src/relay.cpp, `cleanupLoop`: sessions that have been silent for too long.
use omp_voice.Base.{
  ℕ, ◌-◌, ◌≡◌, refl, ◌∙◌, Bool, true, false, [], ◌∷◌, none, some, Map, lookup, erase, lookup-erase,
  Distinct, nat_beq, nat_eq, ltb, arith, Bool-cases, Option-cases, ap, Option, inl, inr,
  if◌then◌else◌,
}
use omp_voice.Relay.{Session, pack_address}
use omp_voice.Relay.Planes.{drop_silent}
use omp_voice.Relay.Index.{Indexed, Indexed-apart}

abbrev pub is_silent : ℕ → Session → Bool
is_silent now s = ltb 15 (now - s.last_seen)

-- What is left of an entry.
abbrev pub heard : ℕ → Option Session → Option Session
heard now none = none
heard now (some s) = if is_silent now s then none else some s

-- The sessions kept are those that were heard of in the last 15 seconds, as they were.
pub lookup-drop_silent :
    (now : ℕ) (ss : Map ℕ Session) (index : Map ℕ ℕ) (pid : ℕ)
    → Distinct ss
    → lookup pid (drop_silent now ss index).0 ≡ heard now (lookup pid ss)
unfolding drop_silent lookup
lookup-drop_silent now [] index pid d = refl
lookup-drop_silent now ((j, t) ∷ ss) index pid d =
    let index' = if is_silent now t then erase (pack_address t.address) index else index in
    let rest = lookup-drop_silent now ss index' pid d.1 in
    elim (Bool-cases (is_silent now t)) [
      | inl quiet ↦ ground (arith, rest)
      | inr loud ↦ ground (arith, rest)
    ]

drop_silent-Distinct :
    (now : ℕ) (ss : Map ℕ Session) (index : Map ℕ ℕ)
    → Distinct ss
    → Distinct (drop_silent now ss index).0
unfolding drop_silent
drop_silent-Distinct now [] index d = tt
drop_silent-Distinct now ((j, t) ∷ ss) index d =
    let index' = if is_silent now t then erase (pack_address t.address) index else index in
    let rest = drop_silent-Distinct now ss index' d.1 in
    let mine = lookup-drop_silent now ss index' j d.1 in
    elim (Bool-cases (is_silent now t)) [
      | inl quiet ↦ ground (arith, rest)
      | inr loud ↦ ground (arith, rest)
    ]

-- A place of the index stays if no session that is dropped has it.
index-drop_silent :
    (now : ℕ) (ss : Map ℕ Session) (index : Map ℕ ℕ) (k : ℕ)
    → Distinct ss
    → ((j : ℕ) (t : Session)
        → lookup j ss ≡ some t
        → is_silent now t ≡ true
        → nat_beq (pack_address t.address) k ≡ false)
    → lookup k (drop_silent now ss index).1 ≡ lookup k index
unfolding drop_silent lookup
index-drop_silent now [] index k d clear = refl
index-drop_silent now ((i, u) ∷ ss) index k d clear =
    let index' = if is_silent now u then erase (pack_address u.address) index else index in
    let rest =
      index-drop_silent now ss index' k d.1 (λ j t e q. clear j t (ground (arith, d.0)) q) in
    elim (Bool-cases (is_silent now u)) [
      | inl quiet ↦
          let off = clear i u (ground arith) quiet in
          ground (arith, rest, lookup-erase (pack_address u.address) k index)
      | inr loud ↦ ground (arith, rest)
    ]

-- The index is right after the cleanup, if it was before.
pub drop_silent-Indexed :
    (now : ℕ) (ss : Map ℕ Session) (index : Map ℕ ℕ)
    → Indexed ss index
    → Indexed (drop_silent now ss index).0 (drop_silent now ss index).1
drop_silent-Indexed now ss index h = record {
  distinct = drop_silent-Distinct now ss index h.distinct;
  listed = λ pid s e.
      let kept = lookup-drop_silent now ss index pid h.distinct in
      elim (Option-cases (lookup pid ss)) [
        | inl gone ↦ absurd (ground arith)
        | inr (t, found) ↦ elim (Bool-cases (is_silent now t)) [
          | inl quiet ↦ absurd (ground arith)
          | inr loud ↦
              let same : t ≡ s = ground arith in
              let found' : lookup pid ss ≡ some s = found ∙ ap some same in
              let (at, own) = h.listed pid s found' in
              let clear : (j : ℕ) (u : Session)
                  → lookup j ss ≡ some u
                  → is_silent now u ≡ true
                  → nat_beq (pack_address u.address) (pack_address s.address) ≡ false =
                λ j u e' q.
                  elim (Bool-cases (nat_beq (pack_address u.address) (pack_address s.address))) [
                    | inr off ↦ off
                    | inl on ↦
                        let one = Indexed-apart ss index j pid u s h e' found' (ground arith) in
                        absurd (ground (arith, one))
                  ] in
              (index-drop_silent now ss index (pack_address s.address) h.distinct clear ∙ at, own)
        ]
      ];
}

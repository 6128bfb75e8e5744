-- ===== src/Relay/Index.antt =====
-- relay/src/relay.cpp: the index of addresses and the sessions.
use omp_voice.Base.{
  ℕ, ◌≡◌, ap, ◌∙◌, false, none, some, Map, lookup, put, erase, lookup-put, lookup-erase, Distinct,
  put-Distinct, erase-Distinct, nat_beq, nat_eq, arith, Option-cases, Bool-cases, inl, inr,
}
use omp_voice.Relay.{Session, Relay, pack_address}
use omp_voice.Relay.Keeps.{Keeps, uncounted}

-- Each session is its player's, and its address leads to it.
abbrev pub Listed : Map ℕ ℕ → ℕ → Session → Type 0
Listed index pid s = (lookup (pack_address s.address) index ≡ some pid) × (s.player_id ≡ pid)

pub record Indexed (ss : Map ℕ Session) (index : Map ℕ ℕ) : Type 0 where
  pub distinct : Distinct ss
  pub listed : (pid : ℕ) (s : Session) → lookup pid ss ≡ some s → Listed index pid s

-- Two sessions do not share an address.
pub Indexed-apart :
    (ss : Map ℕ Session) (index : Map ℕ ℕ) (i j : ℕ) (s t : Session)
    → Indexed ss index
    → lookup i ss ≡ some s
    → lookup j ss ≡ some t
    → pack_address s.address ≡ pack_address t.address
    → i ≡ j
Indexed-apart ss index i j s t h hi hj same =
    let (a, b) = h.listed i s hi in let (c, d) = h.listed j t hj in cc (same, a, c)

module _ {F D E : Type 0} where
  pub Keeps-Indexed :
      (r r' : Relay F D E)
      → Keeps r r'
      → Indexed r.sessions r.addr_index
      → Indexed r'.sessions r'.addr_index
  Keeps-Indexed r r' k h = record {
    distinct = k.distinct h.distinct;
    listed = λ pid s' found.
        let kept = k.sessions pid in
        elim (Option-cases (lookup pid r.sessions)) [
          | inl e ↦ absurd (ground arith)
          | inr (s, e) ↦
              let (there, own) = h.listed pid s e in
              let same : uncounted s' ≡ uncounted s = ground arith in
              let place : s'.address ≡ s.address = ap (λ z. z.address) same in
              let whose : s'.player_id ≡ s.player_id = ap (λ z. z.player_id) same in
              (rw (place, k.addr_index) there, whose ∙ own)
        ];
  }

pub put-Indexed :
    (ss : Map ℕ Session) (index : Map ℕ ℕ) (pid : ℕ) (s s' : Session)
    → Indexed ss index
    → lookup pid ss ≡ some s
    → s'.address ≡ s.address
    → s'.player_id ≡ s.player_id
    → Indexed (put pid s' ss) index
put-Indexed ss index pid s s' h found place whose = record {
  distinct = put-Distinct pid s' ss h.distinct;
  listed = λ j t e.
      let (there, own) = h.listed pid s found in
      let known = lookup-put pid j s' ss in
      elim (Bool-cases (nat_beq pid j)) [
        | inl same ↦
            let t' : s' ≡ t = ground arith in
            let ours : Listed index pid s' = (rw place there, whose ∙ own) in
            let pj : pid ≡ j = ground arith in rw (← t', ← pj) ours
        | inr apart ↦ h.listed j t (ground arith)
      ];
}

pub erase-Indexed :
    (ss : Map ℕ Session) (index : Map ℕ ℕ) (pid : ℕ) (s : Session)
    → Indexed ss index
    → lookup pid ss ≡ some s
    → Indexed (erase pid ss) (erase (pack_address s.address) index)
erase-Indexed ss index pid s h found = record {
  distinct = erase-Distinct pid ss h.distinct;
  listed = λ j t e.
      let gone = lookup-erase pid j ss in
      let left = lookup-erase (pack_address s.address) (pack_address t.address) index in
      elim (Bool-cases (nat_beq pid j)) [
        | inl same ↦ absurd (ground arith)
        | inr apart ↦
            let there : lookup j ss ≡ some t = ground arith in
            let elsewhere = Indexed-apart ss index pid j s t h found there in
            let other : nat_beq (pack_address s.address) (pack_address t.address) ≡ false =
              ground arith in
            let (at, own) = h.listed j t there in (ground arith, own)
      ];
}

-- A session at an address that leads nowhere.
pub fresh-Indexed :
    (ss : Map ℕ Session) (index : Map ℕ ℕ) (pid : ℕ) (s : Session)
    → Indexed ss index
    → s.player_id ≡ pid
    → ((j : ℕ) → lookup (pack_address s.address) index ≡ some j → lookup j ss ≡ none)
    → Indexed (put pid s ss) (put (pack_address s.address) pid index)
fresh-Indexed ss index pid s h own free = record {
  distinct = put-Distinct pid s ss h.distinct;
  listed = λ j t e.
      let known = lookup-put pid j s ss in
      let into = lookup-put (pack_address s.address) (pack_address t.address) pid index in
      elim (Bool-cases (nat_beq pid j)) [
        | inl same ↦
            let t' : s ≡ t = ground arith in
            let pj : pid ≡ j = ground arith in
            let ours : Listed (put (pack_address s.address) pid index) pid s = (
              ground
                  (arith, lookup-put (pack_address s.address) (pack_address s.address) pid index),
              own,
            ) in
            rw (← t', ← pj) ours
        | inr apart ↦
            let there : lookup j ss ≡ some t = ground arith in
            let (at, whose) = h.listed j t there in
            let other : nat_beq (pack_address s.address) (pack_address t.address) ≡ false =
              elim (Bool-cases (nat_beq (pack_address s.address) (pack_address t.address))) [
                | inl e' ↦
                    let same : pack_address s.address ≡ pack_address t.address = ground arith in
                    absurd (ground (arith, free j (rw same at)))
                | inr e' ↦ e'
              ] in
            (ground arith, whose)
      ];
}

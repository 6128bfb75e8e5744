-- ===== src/Crypto/Channel.antt =====
-- shared/crypto.cpp: sealed envelopes between two peers, and replays.
use omp_voice.Base.{
  ℕ, ◌+◌, ◌^◌, ◌≤◌, ◌<◌, ◌≡◌, refl, sym, subst, ap, ◌∙◌, inl, inr, ◌⊎◌, false, List, [], ◌∷◌, ◌++◌,
  some, nat_beq, ltb, length, length-append, drop, take-append, drop-append, arith, Bool-cases,
}
use omp_voice.Crypto.{
  Sodium, IsAead, SessionKeys, overhead, counter_bytes, counter_of, wire_counter, accept, seal,
  open_wire, receive,
}
use omp_voice.Crypto.Counter.{counter_of-counter_bytes, length-counter_bytes}

module _ ⦃na : Sodium⦄ where
  -- The parts of a wire with a nonce of 16 drawn bytes and a counter.
  wire_counter-nonce :
      (c : ℕ) (head cipher : List ℕ)
      → length head ≡ 16
      → c < 256 ^ 8
      → wire_counter ((head ++ counter_bytes 8 c) ++ cipher) ≡ c
  unfolding wire_counter
  wire_counter-nonce c head cipher h b =
      let nonce = head ++ counter_bytes 8 c in
      let long : length nonce ≡ 24 =
        omega (arith, length-append head (counter_bytes 8 c), length-counter_bytes 8 c) in
      ap (λ l. counter_of 0 (drop 16 l)) (take-append 24 nonce cipher long)
      ∙ ap (counter_of 0) (drop-append 16 head (counter_bytes 8 c) h)
      ∙ counter_of-counter_bytes 8 c b

  pub seal_lem :
      (keys : SessionKeys) (c room : ℕ) (head plain cipher : List ℕ)
      → length plain + 40 ≤ room
      → na.encrypt (head ++ counter_bytes 8 c) keys.tx plain ≡ some cipher
      → seal keys c head plain room ≡ (head ++ counter_bytes 8 c) ++ cipher
  unfolding seal
  seal_lem keys c room head plain cipher fits sealed =
      let ok : ltb room (length plain + 40) ≡ false = ground arith in rw ok (rw sealed refl)

  open_wire_lem :
      (keys : SessionKeys) (last room : ℕ) (nonce cipher plain : List ℕ)
      → length nonce ≡ 24
      → length cipher ≡ length plain + 16
      → length plain ≤ room
      → na.decrypt nonce keys.rx cipher ≡ some plain
      → open_wire keys last (nonce ++ cipher) room
        ≡ accept (wire_counter (nonce ++ cipher)) last plain
  unfolding open_wire
  open_wire_lem keys last room nonce cipher plain n m fits opened =
      let front = take-append 24 nonce cipher n in
      let back = drop-append 24 nonce cipher n in
      let long : ltb (length (nonce ++ cipher)) 40 ≡ false =
        ground (arith, length-append nonce cipher) in
      let short : ltb (room + 16) (length cipher) ≡ false = ground arith in
      rw (long, back) (rw (short, front) (rw opened refl))

  -- A packet that is sealed with the sender's key, with 16 drawn bytes and a counter that fits 64
  -- bits, and opened with the same key at a lower mark, with room for it, is read back whole, and
  -- moves the mark to its counter.
  pub open_wire-seal :
      (law : IsAead na) (mine theirs : SessionKeys) (c last room room' : ℕ) (head plain : List ℕ)
      → mine.tx ≡ theirs.rx
      → length head ≡ 16
      → last < c
      → c < 256 ^ 8
      → length plain + overhead ≤ room
      → length plain ≤ room'
      → open_wire theirs last (seal mine c head plain room) room' ≡ (plain, c)
  unfolding accept
  open_wire-seal law mine theirs c last room room' head plain same h more below fits fits' =
      let nonce = head ++ counter_bytes 8 c in
      let (cipher, sealed) = law.encrypt_total nonce mine.tx plain in
      let long : length nonce ≡ 24 =
        omega (arith, length-append head (counter_bytes 8 c), length-counter_bytes 8 c) in
      ap (λ w. open_wire theirs last w room') (seal_lem mine c room head plain cipher fits sealed)
      ∙ open_wire_lem theirs last room' nonce cipher plain long
          (law.length-encrypt nonce mine.tx plain cipher sealed) fits'
          (law.decrypt-encrypt nonce theirs.rx plain cipher
            (ap (λ k. na.encrypt nonce k plain) (sym same) ∙ sealed))
      ∙ ap (λ k. accept k last plain) (wire_counter-nonce c head cipher h below)
      ∙ ground arith

  -- Whatever packet arrives, the mark does not fall; a packet that yields anything either has the
  -- counter 0 or moves the mark, above which its counter was, to its counter.
  open_wire-mark :
      (keys : SessionKeys) (last room : ℕ) (wire : List ℕ)
      → (last ≤ (open_wire keys last wire room).1)
        × ((nat_beq (length (open_wire keys last wire room).0) 0 ≡ false)
            → (wire_counter wire ≡ 0)
              ⊎ ((last < wire_counter wire)
                  × ((open_wire keys last wire room).1 ≡ wire_counter wire)))
  unfolding open_wire accept
  open_wire-mark keys last room wire = ground arith

  -- Each nonzero counter is above the ones before it.
  abbrev pub Ascends : ℕ → List ℕ → Type 0
  Ascends last [] = Unit
  Ascends last (c ∷ cs) = ((c ≡ 0) × Ascends last cs) ⊎ ((last < c) × Ascends c cs)

  Ascends-weaken : (a b : ℕ) (cs : List ℕ) → a ≤ b → Ascends b cs → Ascends a cs
  Ascends-weaken a b [] h k = tt
  Ascends-weaken a b (c ∷ cs) h (inl (z, k)) = inl (z, Ascends-weaken a b cs h k)
  Ascends-weaken a b (c ∷ cs) h (inr (l, k)) = inr (omega arith, k)

  -- Of any packets that arrive, in any order and any number of times, those that are accepted have
  -- the counter 0, which no sender uses, or a counter above all accepted before.
  pub receive-Ascends :
      (keys : SessionKeys) (room last : ℕ) (wires : List (List ℕ))
      → Ascends last (receive keys room last wires)
  unfolding receive
  receive-Ascends keys room last [] = tt
  receive-Ascends keys room last (wire ∷ wires) =
      let r = open_wire keys last wire room in
      let rest = receive-Ascends keys room r.1 wires in
      let (up, taken) = open_wire-mark keys last room wire in
      elim (Bool-cases (nat_beq (length r.0) 0)) [
        | inl empty ↦ rw empty (Ascends-weaken last r.1 (receive keys room r.1 wires) up rest)
        | inr full ↦ rw full (elim (taken full) [
          | inl zeroed ↦ inl (zeroed, Ascends-weaken last r.1 (receive keys room r.1 wires) up rest)
          | inr (above, mark) ↦
              inr (above, subst (λ m. Ascends m (receive keys room r.1 wires)) mark rest)
        ])
      ]

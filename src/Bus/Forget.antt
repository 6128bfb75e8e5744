-- ===== src/Bus/Forget.antt =====
-- core/src/bus_router.cpp: what `prunePlayer` and `pruneChannel` leave of the router's dictionaries.
use omp_voice.Base.{
  ℕ, ◌≡◌, ◌<◌, refl, ◌∙◌, ap, Bool, none, [], ◌∷◌, Map, lookup, lookup-erase, nat_beq, nat_eq,
  arith, if◌then◌else◌, Bool-cases, inl, inr,
}
use omp_voice.Bus.{BusRouter, key2}
use omp_voice.Bus.Prune.{erase_where, high16, low16, prune_player, prune_channel}

lookup-erase_where :
    {V : Type 0}
    → (drop : ℕ → Bool) (k : ℕ) (m : Map ℕ V)
    → lookup k (erase_where drop m) ≡ (if drop k then none else lookup k m)
unfolding lookup erase_where
lookup-erase_where drop k [] = elim (Bool-cases (drop k)) [
  | inl out ↦ rw out refl
  | inr kept ↦ rw kept refl
]
lookup-erase_where drop k ((j, v) ∷ m) =
    let rest = lookup-erase_where drop k m in
    elim (Bool-cases (nat_beq j k)) [
      | inl same ↦ let eq : drop j ≡ drop k = ap drop (ground arith) in ground (arith, rest, eq)
      | inr apart ↦ ground (arith, rest)
    ]

lookup-kept :
    {V : Type 0} (drop : ℕ → Bool) (k : ℕ) (m : Map ℕ V) (t : Bool)
    → drop k ≡ t
    → lookup k (erase_where drop m) ≡ (if t then none else lookup k m)
lookup-kept drop k m t h = lookup-erase_where drop k m ∙ ap (λ u. if u then none else lookup k m) h

high16-key2 : (pid a b : ℕ) → a < 65536 → b < 65536 → high16 pid (key2 a b) ≡ nat_beq a pid
high16-key2 pid a b ha hb = ap (λ n. nat_beq n pid) (omega arith)

low16-key2 : (cid a b : ℕ) → b < 65536 → low16 cid (key2 a b) ≡ nat_beq b cid
low16-key2 cid a b hb = ap (λ n. nat_beq n cid) (omega arith)

module _ {F D E : Type 0} where
  -- A player that is pruned has no decoder, and no stream, encoder or sequence number is kept under a
  -- key of it, a speaker's or a listener's; the entries of all other players are kept.
  pub prune_player-forgets :
      (pid a c : ℕ) (b : BusRouter F D E)
      → a < 65536
      → c < 65536
      → let b' = prune_player pid b in
        (lookup a b'.decoders ≡ (if nat_beq pid a then none else lookup a b.decoders))
        × (lookup (key2 a c) b'.streams
            ≡ (if nat_beq a pid then none else lookup (key2 a c) b.streams))
        × (lookup (key2 a c) b'.encoders
            ≡ (if nat_beq a pid then none else lookup (key2 a c) b.encoders))
        × (lookup (key2 a c) b'.seq ≡ (if nat_beq a pid then none else lookup (key2 a c) b.seq))
  unfolding prune_player
  prune_player-forgets pid a c b ha hc =
      let key = high16-key2 pid a c ha hc in
      (
        lookup-erase pid a b.decoders,
        lookup-kept (high16 pid) (key2 a c) b.streams _ key,
        lookup-kept (high16 pid) (key2 a c) b.encoders _ key,
        lookup-kept (high16 pid) (key2 a c) b.seq _ key,
      )

  -- A channel that is pruned has no stream, encoder or sequence number under a key of it, whoever the
  -- speaker or the listener is, and no time of a mix or of a frame and no garble state; the entries
  -- of all other channels are kept.
  pub prune_channel-forgets :
      (cid a c : ℕ) (b : BusRouter F D E)
      → c < 65536
      → let b' = prune_channel cid b in
        (lookup (key2 a c) b'.streams
          ≡ (if nat_beq c cid then none else lookup (key2 a c) b.streams))
        × (lookup (key2 a c) b'.encoders
            ≡ (if nat_beq c cid then none else lookup (key2 a c) b.encoders))
        × (lookup (key2 a c) b'.seq ≡ (if nat_beq c cid then none else lookup (key2 a c) b.seq))
        × (lookup c b'.last_emit ≡ (if nat_beq cid c then none else lookup c b.last_emit))
        × (lookup c b'.chan_active_ms ≡ (if nat_beq cid c then none else lookup c b.chan_active_ms))
        × (lookup c b'.garble_phase ≡ (if nat_beq cid c then none else lookup c b.garble_phase))
        × (lookup c b'.garble_rng ≡ (if nat_beq cid c then none else lookup c b.garble_rng))
  unfolding prune_channel
  prune_channel-forgets cid a c b hc =
      let key = low16-key2 cid a c hc in
      (
        lookup-kept (low16 cid) (key2 a c) b.streams _ key,
        lookup-kept (low16 cid) (key2 a c) b.encoders _ key,
        lookup-kept (low16 cid) (key2 a c) b.seq _ key,
        lookup-erase cid c b.last_emit,
        lookup-erase cid c b.chan_active_ms,
        lookup-erase cid c b.garble_phase,
        lookup-erase cid c b.garble_rng,
      )

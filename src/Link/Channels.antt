-- ===== src/Link/Channels.antt =====
-- core/src/registry.cpp: the membership of a registry, seen from the bridge and from the engine.
use omp_voice.Base.Float.{FloatOps}
use omp_voice.Base.{
  ℕ, ◌≡◌, refl, sym, ap, ◌∙◌, Bool, List, [], ◌∷◌, Option, none, some, Map, lookup, erase, adjust,
  remove, insert, lookup-put, lookup-erase, lookup-adjust, nat_beq, nat_eq, arith, Option-cases,
  inl, inr, if◌then◌else◌,
}
use omp_voice.Protocol.{Filter}
use omp_voice.Registry.{
  Player, Channel, Registry, new_player, player, channel_or_new, create_channel, destroy_channel,
  join_channel, leave_channel, with_channel, remove_from_all_channels, remove_player,
  drop_channel_of, drop_channel, drop_member, drop_member_of, add_member, add_channel,
}

abbrev pub joined : {F : Type 0} → Option (Player F) → List ℕ
joined none = []
joined (some p) = p.channels

-- The channels of a player, none for one who is not there.
abbrev pub channels_of : {F : Type 0} → ℕ → Registry F → List ℕ
channels_of pid r = joined (lookup pid r.players)

-- The same channels, with the same settings and members, and each player in the same ones.
pub record Agrees {F : Type 0} (r s : Registry F) : Type 0 where
  pub channels : r.channels ≡ s.channels
  pub same : (pid : ℕ) → channels_of pid r ≡ channels_of pid s

-- What `destroy_channel` leaves of a player's channels.
abbrev pub left_of : ℕ → List ℕ → ℕ → List ℕ → List ℕ
left_of cid [] pid cs = cs
left_of cid (m ∷ ms) pid cs = left_of cid ms pid (if nat_beq m pid then remove cid cs else cs)

module _ {F : Type 0} where
  joined-drop_channel :
      (cid m pid : ℕ) (ps : Map ℕ (Player F))
      → joined (lookup pid (adjust m (drop_channel cid) ps))
        ≡ (if nat_beq m pid then remove cid (joined (lookup pid ps)) else joined (lookup pid ps))
  unfolding remove
  joined-drop_channel cid m pid ps = elim (Option-cases (lookup pid ps)) [
    | inl e ↦ ground (arith, lookup-adjust m pid (drop_channel cid) ps)
    | inr (p, e) ↦ ground (arith, lookup-adjust m pid (drop_channel cid) ps)
  ]

  joined-drop_channel_of :
      (cid : ℕ) (ms : List ℕ) (pid : ℕ) (ps : Map ℕ (Player F))
      → joined (lookup pid (drop_channel_of cid ms ps))
        ≡ left_of cid ms pid (joined (lookup pid ps))
  unfolding drop_channel_of
  joined-drop_channel_of cid [] pid ps = refl
  joined-drop_channel_of cid (m ∷ ms) pid ps =
      joined-drop_channel_of cid ms pid (adjust m (drop_channel cid) ps)
      ∙ ap (left_of cid ms pid) (joined-drop_channel cid m pid ps)

  pub destroy_channel-Agrees :
      (cid : ℕ) (r s : Registry F)
      → Agrees r s
      → Agrees (destroy_channel cid r) (destroy_channel cid s)
  unfolding destroy_channel
  destroy_channel-Agrees cid r s h =
      let both = ap (lookup cid) h.channels in
      elim (Option-cases (lookup cid r.channels)) [
        | inl e ↦
            let e' : lookup cid s.channels ≡ none = sym both ∙ e in
            rw (e, destroy_channel) (rw (e', destroy_channel) h)
        | inr (c, e) ↦
            let e' : lookup cid s.channels ≡ some c = sym both ∙ e in
            rw (e, destroy_channel)
              (rw (e', destroy_channel)
                (record {
                  channels = ap (erase cid) h.channels;
                  same = λ pid.
                      joined-drop_channel_of cid c.members pid r.players
                      ∙ ap (left_of cid c.members pid) (h.same pid)
                      ∙ sym (joined-drop_channel_of cid c.members pid s.players);
                }))
      ]

  pub leave_channel-Agrees :
      (pid cid : ℕ) (r s : Registry F)
      → Agrees r s
      → Agrees (leave_channel pid cid r) (leave_channel pid cid s)
  unfolding leave_channel
  leave_channel-Agrees pid cid r s h = record {
    channels = ap (adjust cid (drop_member pid)) h.channels;
    same = λ j.
        joined-drop_channel cid pid j r.players
        ∙ ap (λ cs. if nat_beq pid j then remove cid cs else cs) (h.same j)
        ∙ sym (joined-drop_channel cid pid j s.players);
  }

  pub with_channel-Agrees :
      (cid : ℕ) (f : Channel → Channel) (r s : Registry F)
      → Agrees r s
      → Agrees (with_channel cid f r) (with_channel cid f s)
  unfolding with_channel
  with_channel-Agrees cid f r s h = record {
    channels = ap (adjust cid f) h.channels;
    same = h.same;
  }

  pub create_channel-Agrees :
      (cid : ℕ) (f : Filter) (b : Bool) (k : ℕ) (r s : Registry F)
      → Agrees r s
      → Agrees (create_channel cid f b k r) (create_channel cid f b k s)
  unfolding create_channel channel_or_new
  create_channel-Agrees cid f b k r s h = record {
    channels =
        ap
          (λ cs.
            (create_channel cid f b k (record { players = r.players; channels = cs })).channels)
          h.channels;
    same = h.same;
  }

  pub out-channels :
      (pid : ℕ) (r : Registry F)
      → (remove_from_all_channels pid r).channels
        ≡ drop_member_of pid (channels_of pid r) r.channels
  unfolding remove_from_all_channels drop_member_of
  out-channels pid r = elim (Option-cases (lookup pid r.players)) [
    | inl e ↦ rw (e, remove_from_all_channels) refl
    | inr (p, e) ↦ rw (e, remove_from_all_channels) refl
  ]

  out-joined :
      (pid j : ℕ) (r : Registry F)
      → channels_of j (remove_from_all_channels pid r)
        ≡ (if nat_beq pid j then [] else channels_of j r)
  unfolding remove_from_all_channels
  out-joined pid j r =
      let known = lookup-adjust pid j (λ q. record q { channels = [] }) r.players in
      elim (Option-cases (lookup pid r.players)) [
        | inl e ↦ ground (arith, known)
        | inr (p, e) ↦ elim (Option-cases (lookup j r.players)) [
          | inl f ↦ ground (arith, known)
          | inr (q, f) ↦ ground (arith, known)
        ]
      ]

  removed-joined :
      (pid j : ℕ) (r : Registry F)
      → channels_of j (remove_player pid r) ≡ (if nat_beq pid j then [] else channels_of j r)
  unfolding remove_player
  removed-joined pid j r =
      let out = remove_from_all_channels pid r in
      ground (arith, lookup-erase pid j out.players, out-joined pid j r)

  pub remove_player-Agrees :
      (pid : ℕ) (r s : Registry F) → Agrees r s → Agrees (remove_player pid r) (remove_player pid s)
  unfolding remove_player
  remove_player-Agrees pid r s h = record {
    channels =
        out-channels pid r
        ∙ ap (λ cs. drop_member_of pid cs r.channels) (h.same pid)
        ∙ ap (drop_member_of pid (channels_of pid s)) h.channels
        ∙ sym (out-channels pid s);
    same = λ j.
        removed-joined pid j r
        ∙ ap (λ cs. if nat_beq pid j then [] else cs) (h.same j)
        ∙ sym (removed-joined pid j s);
  }

  -- The bridge takes a player out of all channels first, which the engine's `remove_player` does.
  pub remove_twice-Agrees :
      (pid : ℕ) (r : Registry F)
      → Agrees (remove_player pid (remove_from_all_channels pid r)) (remove_player pid r)
  unfolding remove_player drop_member_of
  remove_twice-Agrees pid r =
      let out = remove_from_all_channels pid r in
      let nowhere : channels_of pid out ≡ [] = ground (arith, out-joined pid pid r) in
      record {
        channels = out-channels pid out ∙ ap (λ cs. drop_member_of pid cs out.channels) nowhere;
        same = λ j.
            let one = removed-joined pid j out in
            let two = removed-joined pid j r in let three = out-joined pid j r in ground arith;
      }

  pub Agrees-sym : (r s : Registry F) → Agrees r s → Agrees s r
  Agrees-sym r s h = record { channels = sym h.channels; same = λ pid. sym (h.same pid) }

  pub Agrees-trans : (r s t : Registry F) → Agrees r s → Agrees s t → Agrees r t
  Agrees-trans r s t h k = record {
    channels = h.channels ∙ k.channels;
    same = λ pid. h.same pid ∙ k.same pid;
  }

module _ {F : Type 0} ⦃fl : FloatOps F⦄ where
  joined-player :
      (id j : ℕ) (f : Player F → Player F) (g : List ℕ → List ℕ) (r : Registry F)
      → ((p : Player F) → (f p).channels ≡ g p.channels)
      → channels_of j (player id f r)
        ≡ (if nat_beq id j then g (channels_of j r) else channels_of j r)
  unfolding player new_player
  joined-player id j f g r k = elim (Option-cases (lookup id r.players)) [
    | inl e ↦ ground (arith, lookup-put id j (f (new_player id)) r.players, k (new_player id))
    | inr (p, e) ↦
        ground
          (arith, lookup-put id j (f (record p { id = id })) r.players, k (record p { id = id }))
  ]

  pub player-channels :
      (id : ℕ) (f : Player F → Player F) (r : Registry F) → (player id f r).channels ≡ r.channels
  unfolding player
  player-channels id f r = elim (Option-cases (lookup id r.players)) [
    | inl e ↦ rw (e, player) refl
    | inr (p, e) ↦ rw (e, player) refl
  ]

  -- A write that leaves a player's channels, on one of the two.
  pub player-Agrees :
      (id : ℕ) (f : Player F → Player F) (r : Registry F)
      → ((p : Player F) → (f p).channels ≡ p.channels)
      → Agrees r (player id f r)
  player-Agrees id f r k = record {
    channels = sym (player-channels id f r);
    same = λ j. ground (arith, joined-player id j f (λ cs. cs) r k);
  }

  pub join_channel-Agrees :
      (pid cid : ℕ) (r s : Registry F)
      → Agrees r s
      → Agrees (join_channel pid cid r) (join_channel pid cid s)
  unfolding join_channel
  join_channel-Agrees pid cid r s h =
      let both = ap (lookup cid) h.channels in
      elim (Option-cases (lookup cid r.channels)) [
        | inl e ↦
            let e' : lookup cid s.channels ≡ none = sym both ∙ e in
            rw (e, join_channel) (rw (e', join_channel) h)
        | inr (c, e) ↦
            let e' : lookup cid s.channels ≡ some c = sym both ∙ e in
            let r' = record r { channels = adjust cid (add_member pid) r.channels } in
            let s' = record s { channels = adjust cid (add_member pid) s.channels } in
            rw (e, join_channel)
              (rw (e', join_channel)
                (record {
                  channels =
                      player-channels pid (add_channel cid) r'
                      ∙ ap (adjust cid (add_member pid)) h.channels
                      ∙ sym (player-channels pid (add_channel cid) s');
                  same = λ j.
                      joined-player pid j (add_channel cid) (insert cid) r' (λ p. refl)
                      ∙ ap (λ cs. if nat_beq pid j then insert cid cs else cs) (h.same j)
                      ∙ sym (joined-player pid j (add_channel cid) (insert cid) s' (λ p. refl));
                }))
      ]

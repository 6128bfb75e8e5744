-- ===== src/Link/Fresh.antt =====
-- core/include/control_link.h, `ChannelAllocator`: the ids of channels, until they wrap around.
use omp_voice.Base.Float.{FloatOps}
use omp_voice.Base.{
  ℕ, Bool, subst, ◌+◌, ◌≤◌, ◌<◌, ◌≡◌, sym, ap, ◌∙◌, List, [], ◌∷◌, none, Map, lookup, adjust,
  lookup-put, lookup-erase, lookup-adjust, nat_eq, arith, Option-cases, inl, inr,
}
use omp_voice.Protocol.{Filter}
use omp_voice.Registry.{
  Channel, Registry, channel_or_new, create_channel, destroy_channel, join_channel, leave_channel,
  with_channel, remove_from_all_channels, remove_player, drop_member, drop_member_of, add_member,
  add_channel,
}
use omp_voice.Link.{
  ControlLink, alloc, create, on_player_connect, destroy, join, leave, set_channel_filter,
  set_channel_priority, on_player_disconnect,
}
use omp_voice.Link.Call.{Call, perform, perform_all}
use omp_voice.Link.Channels.{player-channels, out-channels, channels_of}

-- No channel has an id that has not been handed out.
abbrev pub Unused : {F : Type 0} → ℕ → Registry F → Type 0
Unused n r = (cid : ℕ) → n ≤ cid → lookup cid r.channels ≡ none

-- A number, and one more if the call creates a channel.
abbrev pub counted : {F : Type 0} → Call F → ℕ → ℕ
counted (Call.create_channel a b c) n = n + 1
counted (Call.connect a b c d e) n = n
counted (Call.position a b c d e f g) n = n
counted (Call.meta a b c d) n = n
counted (Call.transmit a b c) n = n
counted (Call.mix_policy a b c d) n = n
counted (Call.mute a b c) n = n
counted (Call.speakerphone a b) n = n
counted (Call.config a b c d e f g h i) n = n
counted (Call.player_name a b) n = n
counted (Call.destroy_channel a) n = n
counted (Call.join_channel a b) n = n
counted (Call.leave_channel a b) n = n
counted (Call.channel_filter a b) n = n
counted (Call.channel_priority a b) n = n
counted (Call.disconnect a) n = n

-- How many of the calls create a channel.
abbrev pub creates : {F : Type 0} → List (Call F) → ℕ
creates [] = 0
creates (c ∷ cs) = counted c (creates cs)

lookup-drop_member_of :
    (pid : ℕ) (cids : List ℕ) (cs : Map ℕ Channel) (cid : ℕ)
    → lookup cid cs ≡ none
    → lookup cid (drop_member_of pid cids cs) ≡ none
unfolding drop_member_of
lookup-drop_member_of pid [] cs cid h = h
lookup-drop_member_of pid (c ∷ cids) cs cid h =
    lookup-drop_member_of pid cids (adjust c (drop_member pid) cs) cid
      (ground (arith, lookup-adjust c cid (drop_member pid) cs))

module _ {F : Type 0} where
  destroy-Unused : (n cid : ℕ) (r : Registry F) → Unused n r → Unused n (destroy_channel cid r)
  unfolding destroy_channel
  destroy-Unused n cid r h = elim (Option-cases (lookup cid r.channels)) [
    | inl e ↦ rw (e, destroy_channel) h
    | inr (c, e) ↦
        rw (e, destroy_channel) (λ j b. ground (arith, lookup-erase cid j r.channels, h j b))
  ]

  with-Unused :
      (n cid : ℕ) (f : Channel → Channel) (r : Registry F)
      → Unused n r
      → Unused n (with_channel cid f r)
  unfolding with_channel
  with-Unused n cid f r h j b = ground (arith, lookup-adjust cid j f r.channels, h j b)

  leave-Unused : (n pid cid : ℕ) (r : Registry F) → Unused n r → Unused n (leave_channel pid cid r)
  unfolding leave_channel
  leave-Unused n pid cid r h j b =
      ground (arith, lookup-adjust cid j (drop_member pid) r.channels, h j b)

  remove-Unused : (n pid : ℕ) (r : Registry F) → Unused n r → Unused n (remove_player pid r)
  unfolding remove_player
  remove-Unused n pid r h j b =
      ap (lookup j) (out-channels pid r)
      ∙ lookup-drop_member_of pid (channels_of pid r) r.channels j (h j b)

  out-Unused : (n pid : ℕ) (r : Registry F) → Unused n r → Unused n (remove_from_all_channels pid r)
  out-Unused n pid r h j b =
      ap (lookup j) (out-channels pid r)
      ∙ lookup-drop_member_of pid (channels_of pid r) r.channels j (h j b)

  create-Unused :
      (n : ℕ) (r : Registry F)
      → Unused n r
      → (f : Filter) (b : Bool) (k : ℕ) → Unused (n + 1) (create_channel n f b k r)
  unfolding create_channel
  create-Unused n r h f b k j above = ground (
    arith,
    lookup-put n j
        (record (channel_or_new n r) { id = n; filter = f; positional = b; priority = k })
        r.channels,
    h j (omega arith),
  )

module _ {F : Type 0} ⦃fl : FloatOps F⦄ where
  join-Unused : (n pid cid : ℕ) (r : Registry F) → Unused n r → Unused n (join_channel pid cid r)
  unfolding join_channel
  join-Unused n pid cid r h = elim (Option-cases (lookup cid r.channels)) [
    | inl e ↦ rw (e, join_channel) h
    | inr (c, e) ↦
        rw (e, join_channel)
          (λ j b.
            ap (lookup j) (
              player-channels pid (add_channel cid)
                (record r { channels = adjust cid (add_member pid) r.channels }))
            ∙ ground (arith, lookup-adjust cid j (add_member pid) r.channels, h j b))
  ]

  -- What holds of the ids after a call.
  abbrev pub IdsAfter : ℕ → ControlLink F → Type 0
  IdsAfter n l = (l.next ≡ n) × Unused n l.reg

  perform-IdsAfter :
      (c : Call F) (n : ℕ) (l : ControlLink F)
      → IdsAfter n l
      → counted c n < 65536
      → IdsAfter (counted c n) (perform c l).0
  unfolding perform on_player_connect create alloc destroy join leave set_channel_filter
      set_channel_priority on_player_disconnect
  perform-IdsAfter (Call.connect now tok pid ip ttl) n l h b =
      (h.0, λ j m. ap (lookup j) (player-channels pid (λ p. p) l.reg) ∙ h.1 j m)
  perform-IdsAfter (Call.position pid x y z i w v) n l h b = h
  perform-IdsAfter (Call.meta pid f p o) n l h b = h
  perform-IdsAfter (Call.transmit pid on m) n l h b = h
  perform-IdsAfter (Call.mix_policy pid p d f) n l h b = h
  perform-IdsAfter (Call.mute u v on) n l h b = h
  perform-IdsAfter (Call.speakerphone pid on) n l h b = h
  perform-IdsAfter (Call.config a w x s f o v m k) n l h b = h
  perform-IdsAfter (Call.player_name pid x) n l h b = h
  perform-IdsAfter (Call.create_channel f p k) n l h b =
      let made = create-Unused n l.reg h.1 f p k in
      (
        omega (arith, h.0),
        subst (λ i. Unused (n + 1) (create_channel i f p k l.reg)) (sym h.0) made,
      )
  perform-IdsAfter (Call.destroy_channel c) n l h b = (h.0, destroy-Unused n c l.reg h.1)
  perform-IdsAfter (Call.join_channel pid c) n l h b = (h.0, join-Unused n pid c l.reg h.1)
  perform-IdsAfter (Call.leave_channel pid c) n l h b = (h.0, leave-Unused n pid c l.reg h.1)
  perform-IdsAfter (Call.channel_filter c f) n l h b = (h.0, with-Unused n c _ l.reg h.1)
  perform-IdsAfter (Call.channel_priority c k) n l h b = (h.0, with-Unused n c _ l.reg h.1)
  perform-IdsAfter (Call.disconnect pid) n l h b =
      (h.0, remove-Unused n pid (remove_from_all_channels pid l.reg) (out-Unused n pid l.reg h.1))

  counted-add : (c : Call F) (n k : ℕ) → n + counted c k ≡ counted c n + k
  counted-add (Call.create_channel x1 x2 x3) n k = omega arith
  counted-add (Call.connect x1 x2 x3 x4 x5) n k = omega arith
  counted-add (Call.position x1 x2 x3 x4 x5 x6 x7) n k = omega arith
  counted-add (Call.meta x1 x2 x3 x4) n k = omega arith
  counted-add (Call.transmit x1 x2 x3) n k = omega arith
  counted-add (Call.mix_policy x1 x2 x3 x4) n k = omega arith
  counted-add (Call.mute x1 x2 x3) n k = omega arith
  counted-add (Call.speakerphone x1 x2) n k = omega arith
  counted-add (Call.config x1 x2 x3 x4 x5 x6 x7 x8 x9) n k = omega arith
  counted-add (Call.player_name x1 x2) n k = omega arith
  counted-add (Call.destroy_channel x1) n k = omega arith
  counted-add (Call.join_channel x1 x2) n k = omega arith
  counted-add (Call.leave_channel x1 x2) n k = omega arith
  counted-add (Call.channel_filter x1 x2) n k = omega arith
  counted-add (Call.channel_priority x1 x2) n k = omega arith
  counted-add (Call.disconnect x1) n k = omega arith

  perform_all-IdsAfter :
      (cs : List (Call F)) (n : ℕ) (l : ControlLink F)
      → IdsAfter n l
      → n + creates cs < 65536
      → IdsAfter (n + creates cs) (perform_all cs l).0
  unfolding perform_all
  perform_all-IdsAfter [] n l h b = subst (λ m. IdsAfter m l) (omega arith) h
  perform_all-IdsAfter (c ∷ cs) n l h b =
      let more = counted-add c n (creates cs) in
      let here = perform-IdsAfter c n l h (omega arith) in
      let there = perform_all-IdsAfter cs (counted c n) (perform c l).0 here (omega arith) in
      subst (λ m. IdsAfter m (perform_all cs (perform c l).0).0) (omega arith) there

  -- From a bridge whose next id is 1 and that has no channels, after calls that create fewer than
  -- 65535 channels, the id that the next `createChannel` gives is one more than their number, and
  -- no channel has it.
  pub create-fresh :
      (cs : List (Call F)) (f : Filter) (p : Bool) (k : ℕ) (l : ControlLink F)
      → l.next ≡ 1
      → l.reg.channels ≡ []
      → creates cs < 65535
      → let l' = (perform_all cs l).0 in
        ((create f p k l').0 ≡ creates cs + 1) × (lookup (create f p k l').0 l'.reg.channels ≡ none)
  unfolding create alloc lookup
  create-fresh cs f p k l first empty few =
      let start : Unused 1 l.reg = λ j b. ap (lookup j) empty in
      let (next, unused) = perform_all-IdsAfter cs 1 l (first, start) (omega arith) in
      (omega arith, unused (perform_all cs l).0.next (omega arith))

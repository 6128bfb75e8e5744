-- ===== src/Engine/Places.antt =====
-- core/src/engine.cpp: the players' places in the grid follow their positions.
use omp_voice.Base.Float.{FloatOps}
use omp_voice.Base.{
  ℕ, ◌≡◌, refl, ap, sym, ◌∙◌, inl, inr, ◌⊎◌, Bool, true, false, List, [], ◌∷◌, Option, none, some,
  Map, over, lookup, put, adjust, lookup-put, lookup-adjust, contains, nat_beq, nat_beq_iff, subst,
  nat_eq, arith, Option-cases, Bool-cases, if◌then◌else◌,
}
use omp_voice.Registry.{
  Player, Registry, new_player, player, drop_channel, drop_channel_of, destroy_channel,
  leave_channel, add_channel, add_member, join_channel,
}
use omp_voice.Grid.{Key, SpatialGrid, key_for, update}
use omp_voice.Grid.Cells.{IsIndexed, place-where, place-IsIndexed}
use omp_voice.Engine.Audio.{stop_silent, has_stopped, talking}
use omp_voice.Engine.Control.{unmute_all, unmute, update_at}

-- The key of a player that no `CtrlPlayerPos` has moved.
abbrev pub origin : (F : Type 0) ⦃fl : FloatOps F⦄ → Key
origin F = key_for (new_player {F = F} 0)

module _ {F : Type 0} ⦃fl : FloatOps F⦄ where
  -- The grid has each player at the key of its position. Only a player at the origin, as one is of
  -- whom no position has come, may be missing.
  abbrev pub IsPlaced : Map ℕ (Player F) → SpatialGrid → Type 0
  IsPlaced ps g =
      (id : ℕ)
      → ((lookup id g.where_is ≡ none) × (over key_for (lookup id ps) ≡ some (origin F)))
        ⊎ (lookup id g.where_is ≡ over key_for (lookup id ps))

  -- The players that were there stay, at their keys, and those that are new are at the origin.
  abbrev pub Keeps : Map ℕ (Player F) → Map ℕ (Player F) → Type 0
  Keeps ps qs =
      (id : ℕ)
      → ((lookup id ps ≡ none) × (over key_for (lookup id qs) ≡ some (origin F)))
        ⊎ (over key_for (lookup id qs) ≡ over key_for (lookup id ps))

  pub IsPlaced-Keeps :
      (ps qs : Map ℕ (Player F)) (g : SpatialGrid) → Keeps ps qs → IsPlaced ps g → IsPlaced qs g
  IsPlaced-Keeps ps qs g k v id = elim (k id) [
    | inl (gone, home) ↦ elim (v id) [
      | inl (out, at) ↦ inl (out, home)
      | inr at ↦ inl (at ∙ ap (over key_for) gone, home)
    ]
    | inr same ↦ elim (v id) [ inl (out, at) ↦ inl (out, same ∙ at) | inr at ↦ inr (at ∙ sym same) ]
  ]

  pub Keeps-adjust :
      (id : ℕ) (f : Player F → Player F) (ps : Map ℕ (Player F))
      → ((p : Player F) → key_for (f p) ≡ key_for p)
      → Keeps ps (adjust id f ps)
  Keeps-adjust id f ps k j = elim (Option-cases (lookup j ps)) [
    | inl e ↦ inr (ground (arith, lookup-adjust id j f ps))
    | inr (p, e) ↦ inr (ground (arith, lookup-adjust id j f ps, k p))
  ]

  key_for-written :
      (id : ℕ) (f : Player F → Player F)
      → ((p : Player F) → key_for (f p) ≡ key_for p)
      → (q : Player F) → key_for (f (record q { id = id })) ≡ key_for q
  unfolding key_for
  key_for-written id f k q = k (record q { id = id })

  key_for-fresh :
      (id : ℕ) (f : Player F → Player F)
      → ((p : Player F) → key_for (f p) ≡ key_for p)
      → key_for (f (new_player id)) ≡ origin F
  unfolding key_for new_player
  key_for-fresh id f k = k (new_player id)

  pub Keeps-player :
      (id : ℕ) (f : Player F → Player F) (r : Registry F)
      → ((p : Player F) → key_for (f p) ≡ key_for p)
      → Keeps r.players (player id f r).players
  unfolding player
  Keeps-player id f r k j = elim (Option-cases (lookup id r.players)) [
    | inl g ↦
        rw (g, player)
          (let found = lookup-put id j (f (new_player id)) r.players in
            elim (Bool-cases (nat_beq id j)) [
              | inl here ↦ inl (ground (arith, g), ground (arith, found, key_for-fresh id f k))
              | inr away ↦ inr (ground (arith, found))
            ])
    | inr (q, g) ↦
        rw (g, player)
          (let found = lookup-put id j (f (record q { id = id })) r.players in
            inr (ground (arith, found, key_for-written id f k q)))
  ]

  Keeps-trans : (ps qs rs : Map ℕ (Player F)) → Keeps ps qs → Keeps qs rs → Keeps ps rs
  Keeps-trans ps qs rs k l id = elim (k id) [
    | inl (gone, home) ↦ elim (l id) [
      | inl (gone', home') ↦ inl (gone, home')
      | inr same ↦ inl (gone, same ∙ home)
    ]
    | inr same ↦ elim (l id) [
      | inl (gone', home') ↦ elim (Option-cases (lookup id ps)) [
        | inl gone ↦ inl (gone, home')
        | inr (p, e) ↦ inr (ground (arith, same, gone', e))
      ]
      | inr same' ↦ inr (same' ∙ same)
    ]
  ]

  key_for-drop : (cid : ℕ) (p : Player F) → key_for (drop_channel cid p) ≡ key_for p
  unfolding key_for
  key_for-drop cid p = refl

  key_for-add : (cid : ℕ) (p : Player F) → key_for (add_channel cid p) ≡ key_for p
  unfolding key_for
  key_for-add cid p = refl

  Keeps-drop :
      (cid : ℕ) (pids : List ℕ) (ps : Map ℕ (Player F)) → Keeps ps (drop_channel_of cid pids ps)
  unfolding drop_channel_of
  Keeps-drop cid [] ps id = inr refl
  Keeps-drop cid (pid ∷ pids) ps id =
      Keeps-trans ps (adjust pid (drop_channel cid) ps)
        (drop_channel_of cid pids (adjust pid (drop_channel cid) ps))
        (Keeps-adjust pid (drop_channel cid) ps (key_for-drop cid))
        (Keeps-drop cid pids (adjust pid (drop_channel cid) ps)) id

  pub Keeps-destroy : (cid : ℕ) (r : Registry F) → Keeps r.players (destroy_channel cid r).players
  unfolding destroy_channel
  Keeps-destroy cid r = elim (Option-cases (lookup cid r.channels)) [
    | inl e ↦ rw (e, destroy_channel) (λ id. inr refl)
    | inr (c, e) ↦ rw (e, destroy_channel) (Keeps-drop cid c.members r.players)
  ]

  pub Keeps-leave :
      (pid cid : ℕ) (r : Registry F) → Keeps r.players (leave_channel pid cid r).players
  unfolding leave_channel
  Keeps-leave pid cid r = Keeps-adjust pid (drop_channel cid) r.players (key_for-drop cid)

  pub Keeps-join : (pid cid : ℕ) (r : Registry F) → Keeps r.players (join_channel pid cid r).players
  unfolding join_channel
  Keeps-join pid cid r = elim (Option-cases (lookup cid r.channels)) [
    | inl e ↦ rw (e, join_channel) (λ id. inr refl)
    | inr (c, e) ↦
        rw (e, join_channel)
          (Keeps-player pid (add_channel cid)
            (record r { channels = adjust cid (add_member pid) r.channels }) (key_for-add cid))
  ]

  pub lookup-unmute_all :
      (gone : ℕ) (ps : Map ℕ (Player F)) (id : ℕ)
      → lookup id (unmute_all gone ps) ≡ over (unmute gone) (lookup id ps)
  unfolding unmute_all lookup
  lookup-unmute_all gone [] id = refl
  lookup-unmute_all gone ((i, p) ∷ ps) id = ground (arith, lookup-unmute_all gone ps id)

  -- What `tick` does to one player.
  abbrev pub hushed : ℕ → Player F → Player F
  hushed now p = if has_stopped now p then record p { audio_active = false } else p

  pub lookup-stop_silent :
      (now : ℕ) (ps : Map ℕ (Player F)) (id : ℕ)
      → lookup id (stop_silent now ps).0 ≡ over (hushed now) (lookup id ps)
  unfolding stop_silent lookup
  lookup-stop_silent now [] id = refl
  lookup-stop_silent now ((i, p) ∷ ps) id = ground (arith, lookup-stop_silent now ps id)

  -- The grid after a player is written at a new position.
  pub IsPlaced-update :
      (w : Player F) (ps : Map ℕ (Player F)) (g : SpatialGrid)
      → IsPlaced ps g
      → IsPlaced (put w.id w ps) (update w g)
  unfolding update
  IsPlaced-update w ps g v j = elim (Bool-cases (nat_beq w.id j)) [
    | inl here ↦ inr (ground (arith, place-where (key_for w) w.id j g, lookup-put w.id j w ps))
    | inr away ↦ ground (arith, place-where (key_for w) w.id j g, lookup-put w.id j w ps, v j)
  ]

  -- A `CtrlPlayerPos`: what is written, and where it goes.
  pub player-written :
      (id : ℕ) (f : Player F → Player F) (r : Registry F)
      → ((p : Player F) → (f p).id ≡ p.id)
      → (w : Player F) × (w.id ≡ id) × ((player id f r).players ≡ put w.id w r.players)
  unfolding player new_player
  player-written id f r k = elim (Option-cases (lookup id r.players)) [
    | inl e ↦ (
      f (new_player id),
      k (new_player id),
      rw (e, player) (ap (λ n. put n (f (new_player id)) r.players) (sym (k (new_player id)))),
    )
    | inr (q, e) ↦ (
      f (record q { id = id }),
      k (record q { id = id }),
      rw (e, player)
          (ap (λ n. put n (f (record q { id = id })) r.players) (sym (k (record q { id = id })))),
    )
  ]

  update_at-written :
      (id : ℕ) (w : Player F) (r : Registry F) (ps : Map ℕ (Player F)) (g : SpatialGrid)
      → w.id ≡ id
      → r.players ≡ put w.id w ps
      → update_at id r g ≡ update w g
  unfolding update_at
  update_at-written id w r ps g same e =
      let found : lookup id r.players ≡ some w =
        ap (lookup id) e ∙ lookup-put w.id id w ps ∙ ground (arith, nat_beq_iff w.id id) in
      rw (found, update_at) refl

  pub IsPlaced-move :
      (id : ℕ) (f : Player F → Player F) (r : Registry F) (g : SpatialGrid)
      → ((p : Player F) → (f p).id ≡ p.id)
      → IsPlaced r.players g
      → IsIndexed g
      → IsPlaced (player id f r).players (update_at id (player id f r) g)
        × IsIndexed (update_at id (player id f r) g)
  unfolding update
  IsPlaced-move id f r g k v x =
      let (w, same, e) = player-written id f r k in
      let moved = update_at-written id w (player id f r) r.players g same e in
      (
        subst (λ ps. IsPlaced ps (update_at id (player id f r) g)) (sym e)
            (subst (IsPlaced (put w.id w r.players)) (sym moved) (IsPlaced-update w r.players g v)),
        subst IsIndexed (sym moved) (place-IsIndexed (key_for w) w.id g x),
      )

  -- The two walks keep the positions and the channels.
  abbrev pub in_channel : ℕ → Option (Player F) → Bool
  in_channel cid none = false
  in_channel cid (some p) = contains cid p.channels

  pub over-hushed :
      (now : ℕ) (o : Option (Player F)) → over key_for (over (hushed now) o) ≡ over key_for o
  unfolding key_for
  over-hushed now none = refl
  over-hushed now (some p) = elim (Bool-cases (has_stopped now p)) [
    | inl stopped ↦ rw stopped refl
    | inr on ↦ rw on refl
  ]

  pub in_channel-hushed :
      (now cid : ℕ) (o : Option (Player F))
      → in_channel cid (over (hushed now) o) ≡ in_channel cid o
  in_channel-hushed now cid none = refl
  in_channel-hushed now cid (some p) = elim (Bool-cases (has_stopped now p)) [
    | inl stopped ↦ rw stopped refl
    | inr on ↦ rw on refl
  ]

  pub over-unmute :
      (gone : ℕ) (o : Option (Player F)) → over key_for (over (unmute gone) o) ≡ over key_for o
  unfolding key_for
  over-unmute gone none = refl
  over-unmute gone (some p) = refl

  pub in_channel-unmute :
      (gone cid : ℕ) (o : Option (Player F))
      → in_channel cid (over (unmute gone) o) ≡ in_channel cid o
  in_channel-unmute gone cid none = refl
  in_channel-unmute gone cid (some p) = refl

  pub in_channel-if :
      (cid : ℕ) (b : Bool) (f : Player F → Player F)
      → ((p : Player F) → (f p).channels ≡ p.channels)
      → (o : Option (Player F)) → in_channel cid (if b then over f o else o) ≡ in_channel cid o
  in_channel-if cid false f k o = refl
  in_channel-if cid true f k none = refl
  in_channel-if cid true f k (some p) = ap (contains cid) (k p)

  pub key_for-talking : (now : ℕ) (p : Player F) → key_for (talking now p) ≡ key_for p
  unfolding key_for
  key_for-talking now p = refl

-- ===== src/Registry/Members.antt =====
-- Membership is kept twice, in the players and in the channels: the two agree.
use omp_voice.Base.Float.{FloatOps}
use omp_voice.Base.{
  ℕ, ◌≡◌, inl, inr, ◌&&◌, Bool, false, List, [], ◌∷◌, none, some, Map, lookup, adjust, contains,
  nat_eq, arith, lookup-put, lookup-erase, lookup-adjust, contains-insert, contains-remove,
  Option-cases, nat_beq, if◌then◌else◌,
}
use omp_voice.Protocol.{Filter}
use omp_voice.Registry.{
  Player, Channel, Registry, new_player, channel_or_new, create_channel, drop_channel, add_channel,
  drop_member, add_member, drop_channel_of, drop_member_of, destroy_channel, leave_channel,
  remove_from_all_channels, remove_player, player, join_channel,
}

-- What the players' side and the channels' side say of a pair.
abbrev pub player_in : {F : Type 0} → Map ℕ (Player F) → ℕ → ℕ → Bool
player_in ps pid cid = elim (lookup pid ps) [ none ↦ false | some p ↦ contains cid p.channels ]

abbrev pub member_of : Map ℕ Channel → ℕ → ℕ → Bool
member_of cs pid cid = elim (lookup cid cs) [ none ↦ false | some c ↦ contains pid c.members ]

abbrev pub IsMirrored : {F : Type 0} → Registry F → Type 0
IsMirrored r = (pid cid : ℕ) → player_in r.players pid cid ≡ member_of r.channels pid cid

member_of-adjust :
    (pid cid : ℕ) (cs : Map ℕ Channel) (p c : ℕ)
    → member_of (adjust cid (drop_member pid) cs) p c
      ≡ (if nat_beq pid p && nat_beq cid c then false else member_of cs p c)
member_of-adjust pid cid cs p c = elim (Option-cases (lookup c cs)) [
  | inl e ↦ ground (arith, lookup-adjust cid c (drop_member pid) cs)
  | inr (q, e) ↦
      ground (arith, lookup-adjust cid c (drop_member pid) cs, contains-remove pid p q.members)
]

pub member_of-drop :
    (pid : ℕ) (cids : List ℕ) (cs : Map ℕ Channel) (p c : ℕ)
    → member_of (drop_member_of pid cids cs) p c
      ≡ (if nat_beq pid p && contains c cids then false else member_of cs p c)
unfolding drop_member_of contains
member_of-drop pid [] cs p c = ground arith
member_of-drop pid (cid ∷ cids) cs p c = ground (
  arith,
  member_of-drop pid cids (adjust cid (drop_member pid) cs) p c,
  member_of-adjust pid cid cs p c,
)

module _ {F : Type 0} where
  player_in-adjust :
      (cid pid : ℕ) (ps : Map ℕ (Player F)) (p c : ℕ)
      → player_in (adjust pid (drop_channel cid) ps) p c
        ≡ (if nat_beq cid c && nat_beq pid p then false else player_in ps p c)
  player_in-adjust cid pid ps p c = elim (Option-cases (lookup p ps)) [
    | inl e ↦ ground (arith, lookup-adjust pid p (drop_channel cid) ps)
    | inr (q, e) ↦
        ground (arith, lookup-adjust pid p (drop_channel cid) ps, contains-remove cid c q.channels)
  ]

  pub player_in-drop :
      (cid : ℕ) (pids : List ℕ) (ps : Map ℕ (Player F)) (p c : ℕ)
      → player_in (drop_channel_of cid pids ps) p c
        ≡ (if nat_beq cid c && contains p pids then false else player_in ps p c)
  unfolding drop_channel_of contains
  player_in-drop cid [] ps p c = ground arith
  player_in-drop cid (pid ∷ pids) ps p c = ground (
    arith,
    player_in-drop cid pids (adjust pid (drop_channel cid) ps) p c,
    player_in-adjust cid pid ps p c,
  )

  pub destroy_channel-IsMirrored :
      (id : ℕ) (r : Registry F) → IsMirrored r → IsMirrored (destroy_channel id r)
  unfolding destroy_channel
  destroy_channel-IsMirrored id r m p c = elim (Option-cases (lookup id r.channels)) [
    | inl e ↦ rw (e, destroy_channel) (m p c)
    | inr (d, e) ↦
        rw (e, destroy_channel)
          (ground
            (arith, player_in-drop id d.members r.players p c, lookup-erase id c r.channels, m p c))
  ]

  pub leave_channel-IsMirrored :
      (pid cid : ℕ) (r : Registry F) → IsMirrored r → IsMirrored (leave_channel pid cid r)
  unfolding leave_channel
  leave_channel-IsMirrored pid cid r m p c = ground (
    arith,
    player_in-adjust cid pid r.players p c,
    member_of-adjust pid cid r.channels p c,
    m p c,
  )

  pub remove_from_all_channels-IsMirrored :
      (pid : ℕ) (r : Registry F) → IsMirrored r → IsMirrored (remove_from_all_channels pid r)
  unfolding remove_from_all_channels contains
  remove_from_all_channels-IsMirrored pid r m p c = elim (Option-cases (lookup pid r.players)) [
    | inl e ↦ rw (e, remove_from_all_channels) (m p c)
    | inr (q, e) ↦
        rw (e, remove_from_all_channels)
          (ground (
            arith,
            member_of-drop pid q.channels r.channels p c,
            lookup-adjust pid p (λ (z : Player F). record z { channels = [] }) r.players,
            m p c,
          ))
  ]

  -- A player without channels is a member of none: dropping the entry changes no pair.
  pub remove_player-IsMirrored :
      (pid : ℕ) (r : Registry F) → IsMirrored r → IsMirrored (remove_player pid r)
  unfolding remove_player remove_from_all_channels contains
  remove_player-IsMirrored pid r m p c = elim (Option-cases (lookup pid r.players)) [
    | inl e ↦ ground (arith, lookup-erase pid p r.players, m p c)
    | inr (q, e) ↦ ground (
      arith,
      member_of-drop pid q.channels r.channels p c,
      lookup-erase pid p (adjust pid (λ (z : Player F). record z { channels = [] }) r.players),
      lookup-adjust pid p (λ (z : Player F). record z { channels = [] }) r.players,
      m p c,
    )
  ]

  pub create_channel-IsMirrored :
      (id : ℕ) (f : Filter) (b : Bool) (n : ℕ) (r : Registry F)
      → IsMirrored r
      → IsMirrored (create_channel id f b n r)
  unfolding create_channel contains
  create_channel-IsMirrored id f b n r m p c = ground (
    arith,
    lookup-put id c
        (record (channel_or_new id r) { id = id; filter = f; positional = b; priority = n })
        r.channels,
    m p c,
  )

module _ {F : Type 0} ⦃fl : FloatOps F⦄ where
  -- Creating or writing a player keeps the mirror if the write keeps the channels.
  pub player-IsMirrored :
      (pid : ℕ) (f : Player F → Player F) (r : Registry F)
      → ((q : Player F) → (f q).channels ≡ q.channels)
      → IsMirrored r
      → IsMirrored (player pid f r)
  unfolding player contains new_player
  player-IsMirrored pid f r k m p c = elim (Option-cases (lookup pid r.players)) [
    | inl e ↦
        rw (e, player)
          (ground
            (arith, lookup-put pid p (f (new_player pid)) r.players, k (new_player pid), m p c))
    | inr (q, e) ↦
        rw (e, player)
          (ground (
            arith,
            lookup-put pid p (f (record q { id = pid })) r.players,
            k (record q { id = pid }),
            m p c,
          ))
  ]

  pub join_channel-IsMirrored :
      (pid cid : ℕ) (r : Registry F) → IsMirrored r → IsMirrored (join_channel pid cid r)
  unfolding join_channel contains new_player
  join_channel-IsMirrored pid cid r m p c = elim (Option-cases (lookup cid r.channels)) [
    | inl e ↦ rw (e, join_channel) (m p c)
    | inr (d, e) ↦ elim (Option-cases (lookup pid r.players)) [
      | inl g ↦
          rw (e, join_channel)
            (rw (g, player)
              (ground (
                arith,
                lookup-put pid p (add_channel cid (new_player pid)) r.players,
                lookup-adjust cid c (add_member pid) r.channels,
                contains-insert pid p d.members,
                contains-insert cid c [],
                m p c,
              )))
      | inr (q, g) ↦
          rw (e, join_channel)
            (rw (g, player)
              (ground (
                arith,
                lookup-put pid p (add_channel cid (record q { id = pid })) r.players,
                lookup-adjust cid c (add_member pid) r.channels,
                contains-insert pid p d.members,
                contains-insert cid c q.channels,
                m p c,
              )))
    ]
  ]

-- ===== src/Registry/Cleanup.antt =====
-- What `removePlayer` and `destroyChannel` leave behind: nothing of the player or the channel, and
-- all of the others.
use omp_voice.Base.{
  ℕ, ◌≡◌, inl, inr, false, [], none, lookup, adjust, contains, nat_eq, arith, lookup-erase,
  lookup-adjust, Option-cases, nat_beq, if◌then◌else◌,
}
use omp_voice.Registry.Members.{player_in, member_of, IsMirrored, member_of-drop, player_in-drop}
use omp_voice.Registry.{Player, Registry, destroy_channel, remove_from_all_channels, remove_player}

module _ {F : Type 0} where
  -- In a registry whose two sides agree, removing a player drops its entry, and every pair that it was in; the other players and their
  -- memberships are as before.
  pub remove_player-clears :
      (pid : ℕ) (r : Registry F) (p c : ℕ)
      → IsMirrored r
      → (lookup p (remove_player pid r).players
          ≡ (if nat_beq pid p then none else lookup p r.players))
        × (member_of (remove_player pid r).channels p c
            ≡ (if nat_beq pid p then false else member_of r.channels p c))
  unfolding remove_player remove_from_all_channels contains
  remove_player-clears pid r p c m = elim (Option-cases (lookup pid r.players)) [
    | inl e ↦ (ground (arith, lookup-erase pid p r.players), ground (arith, m p c))
    | inr (q, e) ↦ (
      ground (
        arith,
        lookup-erase pid p (adjust pid (λ (z : Player F). record z { channels = [] }) r.players),
        lookup-adjust pid p (λ (z : Player F). record z { channels = [] }) r.players,
      ),
      ground (arith, member_of-drop pid q.channels r.channels p c, m p c),
    )
  ]

  -- In a registry whose two sides agree, destroying a channel drops its entry, and it from every player that was in it; the other pairs
  -- are as before.
  pub destroy_channel-clears :
      (id : ℕ) (r : Registry F) (p c : ℕ)
      → IsMirrored r
      → (lookup c (destroy_channel id r).channels
          ≡ (if nat_beq id c then none else lookup c r.channels))
        × (player_in (destroy_channel id r).players p c
            ≡ (if nat_beq id c then false else player_in r.players p c))
  unfolding destroy_channel
  destroy_channel-clears id r p c m = elim (Option-cases (lookup id r.channels)) [
    | inl e ↦ (ground arith, ground (arith, m p c))
    | inr (d, e) ↦ (
      ground (arith, lookup-erase id c r.channels),
      ground (arith, player_in-drop id d.members r.players p c, m p c),
    )
  ]

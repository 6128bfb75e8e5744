-- ===== src/Engine/Distinct.antt =====
-- core/src/engine.cpp: a player has one entry.
use omp_voice.Base.Float.{FloatOps}
use omp_voice.Base.{
  ℕ, ap, ◌∙◌, inl, inr, List, [], ◌∷◌, Map, over, lookup, adjust, Distinct, put-Distinct,
  erase-Distinct, adjust-Distinct, nat_eq, arith, Option-cases,
}
use omp_voice.Registry.{
  Player, Registry, new_player, player, drop_channel, drop_channel_of, destroy_channel,
  leave_channel, add_channel, add_member, join_channel, remove_from_all_channels, remove_player,
}
use omp_voice.Engine.Audio.{stop_silent}
use omp_voice.Engine.Control.{unmute_all, unmute}
use omp_voice.Engine.Places.{lookup-unmute_all, lookup-stop_silent}

module _ {F : Type 0} ⦃fl : FloatOps F⦄ where
  pub player-Distinct :
      (id : ℕ) (f : Player F → Player F) (r : Registry F)
      → Distinct r.players
      → Distinct (player id f r).players
  unfolding player
  player-Distinct id f r d = elim (Option-cases (lookup id r.players)) [
    | inl e ↦ rw (e, player) (put-Distinct id (f (new_player id)) r.players d)
    | inr (q, e) ↦ rw (e, player) (put-Distinct id (f (record q { id = id })) r.players d)
  ]

  drop-Distinct :
      (cid : ℕ) (pids : List ℕ) (ps : Map ℕ (Player F))
      → Distinct ps
      → Distinct (drop_channel_of cid pids ps)
  unfolding drop_channel_of
  drop-Distinct cid [] ps d = d
  drop-Distinct cid (pid ∷ pids) ps d =
      drop-Distinct cid pids (adjust pid (drop_channel cid) ps)
        (adjust-Distinct pid (drop_channel cid) ps d)

  pub destroy_channel-Distinct :
      (cid : ℕ) (r : Registry F) → Distinct r.players → Distinct (destroy_channel cid r).players
  unfolding destroy_channel
  destroy_channel-Distinct cid r d = elim (Option-cases (lookup cid r.channels)) [
    | inl e ↦ rw (e, destroy_channel) d
    | inr (c, e) ↦ rw (e, destroy_channel) (drop-Distinct cid c.members r.players d)
  ]

  pub join_channel-Distinct :
      (pid cid : ℕ) (r : Registry F)
      → Distinct r.players
      → Distinct (join_channel pid cid r).players
  unfolding join_channel
  join_channel-Distinct pid cid r d = elim (Option-cases (lookup cid r.channels)) [
    | inl e ↦ rw (e, join_channel) d
    | inr (c, e) ↦
        rw (e, join_channel)
          (player-Distinct pid (add_channel cid)
            (record r { channels = adjust cid (add_member pid) r.channels }) d)
  ]

  pub remove_player-Distinct :
      (pid : ℕ) (r : Registry F) → Distinct r.players → Distinct (remove_player pid r).players
  unfolding remove_player remove_from_all_channels
  remove_player-Distinct pid r d = elim (Option-cases (lookup pid r.players)) [
    | inl e ↦ rw (e, remove_from_all_channels) (erase-Distinct pid r.players d)
    | inr (q, e) ↦
        rw (e, remove_from_all_channels) (erase-Distinct pid _ (adjust-Distinct pid _ r.players d))
  ]

  pub unmute_all-Distinct :
      (gone : ℕ) (ps : Map ℕ (Player F)) → Distinct ps → Distinct (unmute_all gone ps)
  unfolding unmute_all
  unmute_all-Distinct gone [] d = tt
  unmute_all-Distinct gone ((i, p) ∷ ps) d =
      (lookup-unmute_all gone ps i ∙ ap (over (unmute gone)) d.0, unmute_all-Distinct gone ps d.1)

  pub stop_silent-Distinct :
      (now : ℕ) (ps : Map ℕ (Player F)) → Distinct ps → Distinct (stop_silent now ps).0
  unfolding stop_silent
  stop_silent-Distinct now [] d = tt
  stop_silent-Distinct now ((i, p) ∷ ps) d =
      ground (arith, lookup-stop_silent now ps i, stop_silent-Distinct now ps d.1)

  pub leave_channel-Distinct :
      (pid cid : ℕ) (r : Registry F)
      → Distinct r.players
      → Distinct (leave_channel pid cid r).players
  unfolding leave_channel
  leave_channel-Distinct pid cid r d = adjust-Distinct pid (drop_channel cid) r.players d

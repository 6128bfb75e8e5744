-- ===== src/Engine/Departure.antt =====
-- core/src/engine.cpp: what a `CtrlPlayerGone` and a tick leave behind.
use omp_voice.Base.Float.{FloatOps}
use omp_voice.Base.{
  ℕ, ◌+◌, ◌%◌, ◌^◌, ◌≡◌, refl, ap, ◌∙◌, Bool, false, List, [], ◌∷◌, Option, none, some, Map, over,
  lookup, Distinct, count, leb, ◌-◌, ◌&&◌, ◌<◌, contains, contains-remove, lookup-erase, nat_beq,
  nat_beq_iff, nat_eq, arith, if◌then◌else◌,
}
use omp_voice.Registry.{Player, remove_player}
use omp_voice.Registry.Members.{member_of}
use omp_voice.Registry.Cleanup.{remove_player-clears}
use omp_voice.Grid.{Key, cell, remove}
use omp_voice.Grid.Cells.{here, remove-where, remove-IsIndexed}
use omp_voice.Protocol.{StatusType}
use omp_voice.Near.{sub32}
use omp_voice.Bus.{key2}
use omp_voice.Bus.Forget.{prune_player-forgets}
use omp_voice.Engine.{Engine, Output, status}
use omp_voice.Engine.Audio.{stop_silent, has_stopped, tick}
use omp_voice.Engine.Control.{on_player_gone, unmute}
use omp_voice.Engine.Places.{lookup-unmute_all, lookup-stop_silent, hushed}
use omp_voice.Engine.Sound.{IsSound}
use omp_voice.Opus.{OpusDecoder, OpusEncoder}

module _ {F : Type 0} where
  -- Whether the player there is, and has muted `pid`.
  abbrev pub mutes : ℕ → Option (Player F) → Bool
  mutes pid none = false
  mutes pid (some p) = contains pid p.muted_targets

  mutes-unmute : (gone : ℕ) (o : Option (Player F)) → mutes gone (over (unmute gone) o) ≡ false
  mutes-unmute gone none = refl
  mutes-unmute gone (some p) =
      ground (arith, contains-remove gone gone p.muted_targets, nat_beq_iff gone gone)

  -- How many stop events for `id` are among the outputs.
  abbrev pub stops : ℕ → List (Output F) → ℕ
  stops id [] = 0
  stops id (status StatusType.speaker_stop pid cid byte ∷ os) =
      (if nat_beq pid id then 1 else 0) + stops id os
  stops id (_ ∷ os) = stops id os

  -- Whether the player talks as far as the server knows, and the last frame is eight ticks or more
  -- before `now`, on a clock of 32 bits.
  abbrev pub is_overdue : ℕ → Player F → Bool
  is_overdue now p = p.audio_active && leb 8 ((now + 2 ^ 32 - p.last_audio_tick % 2 ^ 32) % 2 ^ 32)

  abbrev pub stopped_at : ℕ → Option (Player F) → ℕ
  stopped_at now none = 0
  stopped_at now (some p) = if is_overdue now p then 1 else 0

  -- The player after the tick at `now`.
  abbrev pub settled : ℕ → Player F → Player F
  settled now p = if is_overdue now p then record p { audio_active = false } else p

  hushed-settled :
      ⦃fl : FloatOps F⦄
      → (now : ℕ) (o : Option (Player F)) → over (hushed now) o ≡ over (settled now) o
  unfolding has_stopped sub32
  hushed-settled now none = refl
  hushed-settled now (some p) = refl

  stops-stop_silent :
      (now id : ℕ) (ps : Map ℕ (Player F))
      → Distinct ps
      → stops id (stop_silent now ps).1 ≡ stopped_at now (lookup id ps)
  unfolding stop_silent has_stopped sub32 lookup
  stops-stop_silent now id [] d = refl
  stops-stop_silent now id ((i, p) ∷ ps) d =
      ground (arith, stops-stop_silent now id ps d.1, d.0, nat_beq_iff i id)

module _ {F D E : Type 0} ⦃fl : FloatOps F⦄ ⦃od : OpusDecoder F D⦄ ⦃oe : OpusEncoder F E⦄ where
  -- When a player with a number of 16 bits leaves a well-formed engine, it has no entry, is a member
  -- of no channel, stands in no cell of the grid nor in its index, has no set of nearest speakers of
  -- its own, no decoder, no stream, encoder or sequence number on any channel, no speakerphone
  -- encoder or sequence number, and nobody mutes its number any more.
  pub on_player_gone-clears :
      (pid cid id : ℕ) (k : Key) (e : Engine F D E)
      → IsSound e
      → pid < 65536
      → cid < 65536
      → let e' = on_player_gone pid e in
        (lookup pid e'.reg.players ≡ none)
        × (member_of e'.reg.channels pid cid ≡ false)
        × (mutes pid (lookup id e'.reg.players) ≡ false)
        × (lookup pid e'.grid.where_is ≡ none)
        × (count pid (cell k e'.grid.cells) ≡ 0)
        × (lookup pid e'.near ≡ none)
        × (lookup pid e'.bus.decoders ≡ none)
        × (lookup (key2 pid cid) e'.bus.streams ≡ none)
        × (lookup (key2 pid cid) e'.bus.encoders ≡ none)
        × (lookup (key2 pid cid) e'.bus.seq ≡ none)
        × (lookup pid e'.spk_enc ≡ none)
        × (lookup pid e'.spk_seq ≡ none)
  unfolding on_player_gone
  on_player_gone-clears pid cid id k e w hp hc =
      let ps = (remove_player pid e.reg).players in
      let same = nat_beq_iff pid pid in
      let place : lookup pid (remove pid e.grid).where_is ≡ none =
        ground (arith, remove-where pid pid e.grid, same) in
      let router = prune_player-forgets pid pid cid e.bus hp hc in
      let gone : lookup pid ps ≡ none =
        ground (arith, (remove_player-clears pid e.reg pid 0 w.mirrored).0, same) in
      (
        lookup-unmute_all pid ps pid ∙ ap (over (unmute pid)) gone,
        ground (arith, (remove_player-clears pid e.reg pid cid w.mirrored).1, same),
        ap (mutes pid) (lookup-unmute_all pid ps id) ∙ mutes-unmute pid (lookup id ps),
        place,
        remove-IsIndexed pid e.grid w.indexed pid k ∙ ap (λ o. here o k) place,
        ground (arith, lookup-erase pid pid e.near, same),
        ground (arith, router.0, same),
        ground (arith, router.1, same),
        ground (arith, router.2, same),
        ground (arith, router.3, same),
        ground (arith, lookup-erase pid pid e.spk_enc, same),
        ground (arith, lookup-erase pid pid e.spk_seq, same),
      )

  -- A tick of a well-formed engine tells of each active player whose last frame is eight ticks or more
  -- back, on the clock of 32 bits, once, and of no other; that player, and no other, stops being
  -- active.
  pub tick-stops :
      (id : ℕ) (e : Engine F D E)
      → IsSound e
      → let now = (e.tick_count + 1) % 2 ^ 32 in
        (stops id (tick e).1 ≡ stopped_at now (lookup id e.reg.players))
        × (lookup id (tick e).0.reg.players ≡ over (settled now) (lookup id e.reg.players))
  unfolding tick
  tick-stops id e w =
      let now = (e.tick_count + 1) % 2 ^ 32 in
      (
        stops-stop_silent now id e.reg.players w.distinct,
        lookup-stop_silent now e.reg.players id ∙ hushed-settled now (lookup id e.reg.players),
      )

-- ===== src/Engine/Steps.antt =====
-- core/src/engine.cpp: the engine is well formed after any control packets, frames and ticks.
use omp_voice.Base.Float.{FloatOps}
use omp_voice.Base.{
  ℕ, ◌≡◌, refl, ap, ◌∙◌, inl, inr, Bool, not, ◌&&◌, ◌||◌, List, [], ◌∷◌, Map, over, lookup,
  contains, lookup-erase, lookup-adjust, nat_beq, nat_eq, arith, Option-cases, Bool-cases,
}
use omp_voice.Protocol.{CtrlTransmit, filter_of}
use omp_voice.Protocol.Control.{CtrlMsg, decode}
use omp_voice.Registry.{Player, Channel, player, with_channel, create_channel, remove_player}
use omp_voice.Registry.Members.{
  player-IsMirrored, create_channel-IsMirrored, destroy_channel-IsMirrored,
  leave_channel-IsMirrored, join_channel-IsMirrored, remove_player-IsMirrored,
}
use omp_voice.Registry.Cleanup.{remove_player-clears}
use omp_voice.Grid.{key_for}
use omp_voice.Grid.Cells.{remove-IsIndexed, remove-where, empty-IsIndexed}
use omp_voice.Opus.{OpusDecoder, OpusEncoder}
use omp_voice.Proximity.{ProximityTuning}
use omp_voice.Bus.{RadioTuning, BehaviorTuning, is_radio, value_or}
use omp_voice.Bus.Route.{on_radio_key}
use omp_voice.Engine.{Engine, Output, PolicyLimits, new_engine}
use omp_voice.Engine.Audio.{on_audio_frame, tick, sink_events}
use omp_voice.Engine.Control.{
  set_pos, set_meta, set_transmit, set_policy, set_mute, set_speakerphone, unmute_all, flag,
  was_transmitting, key_channels, on_transmit, on_player_gone, handle, on_control,
}
use omp_voice.Engine.Places.{
  Keeps-player, Keeps-destroy, Keeps-leave, Keeps-join, lookup-unmute_all, IsPlaced-move,
  in_channel, over-unmute, in_channel-unmute,
}
use omp_voice.Engine.Distinct.{
  player-Distinct, destroy_channel-Distinct, leave_channel-Distinct, join_channel-Distinct,
  remove_player-Distinct, unmute_all-Distinct,
}
use omp_voice.Engine.Sound.{
  IsSound, rewritten, sink_events-IsSound, on_audio_frame-IsSound, tick-IsSound,
}

-- What the relay calls: a control packet, an audio frame (at a time), or a tick.
pub data Call : Type 0 where
  control : List ℕ → Call
  audio : ℕ → ℕ → ℕ → ℕ → List ℕ → Call
  ticked : Call

module _ {F D E : Type 0} ⦃fl : FloatOps F⦄ ⦃od : OpusDecoder F D⦄ ⦃oe : OpusEncoder F E⦄ where
  -- A write to a player that keeps its channels and its position.
  quiet-IsSound :
      (id : ℕ) (f : Player F → Player F) (e : Engine F D E)
      → ((p : Player F) → (f p).channels ≡ p.channels)
      → ((p : Player F) → key_for (f p) ≡ key_for p)
      → IsSound e
      → IsSound (record e { reg = player id f e.reg })
  quiet-IsSound id f e c k w =
      rewritten w (player-IsMirrored id f e.reg c w.mirrored)
        (player-Distinct id f e.reg w.distinct) (Keeps-player id f e.reg k)

  -- A write to a channel that keeps its members.
  with_channel-IsSound :
      (cid : ℕ) (f : Channel → Channel) (e : Engine F D E)
      → ((c : Channel) → (f c).members ≡ c.members)
      → IsSound e
      → IsSound (record e { reg = with_channel cid f e.reg })
  unfolding with_channel
  with_channel-IsSound cid f e k w =
      rewritten w
        (λ p c. elim (Option-cases (lookup c e.reg.channels)) [
          | inl g ↦ ground (arith, w.mirrored p c, lookup-adjust cid c f e.reg.channels)
          | inr (ch, g) ↦ ground (arith, w.mirrored p c, lookup-adjust cid c f e.reg.channels, k ch)
        ])
        w.distinct (λ id. inr refl)

  key_channels-IsSound :
      (pid : ℕ) (down : Bool) (chs : Map ℕ Channel) (e : Engine F D E)
      → IsSound e
      → IsSound (key_channels pid down chs e).0
  unfolding key_channels
  key_channels-IsSound pid down [] e w = w
  key_channels-IsSound pid down ((cid, ch) ∷ chs) e w =
      let r = on_radio_key e.reg pid cid down e.bus in
      elim (Bool-cases (is_radio ch.filter && contains pid ch.members)) [
        | inl keyed ↦ rw keyed (
            key_channels-IsSound pid down chs (sink_events r.1 (record e { bus = r.0 })).0
              (sink_events-IsSound r.1 (record e { bus = r.0 }) w))
        | inr other ↦ rw other (key_channels-IsSound pid down chs e w)
      ]

  on_transmit-IsSound :
      (t : CtrlTransmit) (e : Engine F D E) → IsSound e → IsSound (on_transmit t e).0
  unfolding on_transmit key_for
  on_transmit-IsSound t e w =
      let was = was_transmitting t.player_id e.reg in
      let e' = record e { reg = player t.player_id (set_transmit t) e.reg } in
      let w' = quiet-IsSound t.player_id (set_transmit t) e (λ p. refl) (λ p. refl) w in
      elim (Bool-cases (was && flag t.on || not was && not (flag t.on))) [
        | inl same ↦ rw same w'
        | inr changed ↦
            rw changed (key_channels-IsSound t.player_id (flag t.on) e'.reg.channels e' w')
      ]

  on_player_gone-IsSound : (pid : ℕ) (e : Engine F D E) → IsSound e → IsSound (on_player_gone pid e)
  unfolding on_player_gone value_or
  on_player_gone-IsSound pid e w =
      let r = remove_player pid e.reg in
      let m = remove_player-IsMirrored pid e.reg w.mirrored in
      record {
        mirrored = λ p c.
            ap (in_channel c) (lookup-unmute_all pid r.players p)
            ∙ in_channel-unmute pid c (lookup p r.players)
            ∙ m p c;
        distinct = unmute_all-Distinct pid r.players (remove_player-Distinct pid e.reg w.distinct);
        indexed = remove-IsIndexed pid e.grid w.indexed;
        placed = λ id.
            let there : over key_for (lookup id (unmute_all pid r.players))
                ≡ over key_for (lookup id r.players) =
              ap (over key_for) (lookup-unmute_all pid r.players id)
              ∙ over-unmute pid (lookup id r.players) in
            ground (
              arith,
              there,
              remove-where pid id e.grid,
              w.placed id,
              (remove_player-clears pid e.reg id 0 w.mirrored).0,
            );
        capped = λ id. elim (Bool-cases (nat_beq pid id)) [
          | inl same ↦ rw (lookup-erase pid id e.near) (rw same (omega arith, λ k. omega arith))
          | inr other ↦ rw (lookup-erase pid id e.near) (rw other (w.capped id))
        ];
      }

  handle-IsSound : (m : CtrlMsg F) (e : Engine F D E) → IsSound e → IsSound (handle m e).0
  unfolding handle key_for create_channel
  handle-IsSound (CtrlMsg.player_pos p) e w =
      let f = set_pos p in
      let (placed, indexed) =
        IsPlaced-move p.player_id f e.reg e.grid (λ q. refl) w.placed w.indexed in
      record {
        mirrored = player-IsMirrored p.player_id f e.reg (λ q. refl) w.mirrored;
        distinct = player-Distinct p.player_id f e.reg w.distinct;
        indexed = indexed;
        placed = placed;
        capped = w.capped;
      }
  handle-IsSound (CtrlMsg.player_meta m) e w =
      quiet-IsSound m.player_id (set_meta e.tune.shout m) e (λ p. refl) (λ p. refl) w
  handle-IsSound (CtrlMsg.chan_create c) e w =
      rewritten w
        (create_channel-IsMirrored c.channel_id (filter_of c.filter) (flag c.positional) c.priority
          e.reg w.mirrored)
        w.distinct (λ id. inr refl)
  handle-IsSound (CtrlMsg.chan_destroy c) e w =
      rewritten w (destroy_channel-IsMirrored c.channel_id e.reg w.mirrored)
        (destroy_channel-Distinct c.channel_id e.reg w.distinct) (Keeps-destroy c.channel_id e.reg)
  handle-IsSound (CtrlMsg.chan_join c) e w =
      rewritten w (join_channel-IsMirrored c.player_id c.channel_id e.reg w.mirrored)
        (join_channel-Distinct c.player_id c.channel_id e.reg w.distinct)
        (Keeps-join c.player_id c.channel_id e.reg)
  handle-IsSound (CtrlMsg.chan_leave c) e w =
      rewritten w (leave_channel-IsMirrored c.player_id c.channel_id e.reg w.mirrored)
        (leave_channel-Distinct c.player_id c.channel_id e.reg w.distinct)
        (Keeps-leave c.player_id c.channel_id e.reg)
  handle-IsSound (CtrlMsg.chan_filter c) e w =
      with_channel-IsSound c.channel_id (λ ch. record ch { filter = filter_of c.arg }) e
        (λ ch. refl) w
  handle-IsSound (CtrlMsg.chan_prio c) e w =
      with_channel-IsSound c.channel_id (λ ch. record ch { priority = c.arg }) e (λ ch. refl) w
  handle-IsSound (CtrlMsg.transmit t) e w = on_transmit-IsSound t e w
  handle-IsSound (CtrlMsg.mix_policy m) e w =
      quiet-IsSound m.player_id (set_policy m) e (λ p. refl) (λ p. refl) w
  handle-IsSound (CtrlMsg.config c) e w = w
  handle-IsSound (CtrlMsg.pair_mute m) e w =
      quiet-IsSound m.listener_id (set_mute m) e (λ p. refl) (λ p. refl) w
  handle-IsSound (CtrlMsg.speakerphone m) e w =
      quiet-IsSound m.player_id (set_speakerphone m) e (λ p. refl) (λ p. refl) w
  handle-IsSound (CtrlMsg.player_gone c) e w = on_player_gone-IsSound c.player_id e w
  handle-IsSound (CtrlMsg.bind_token b) e w = w
  handle-IsSound (CtrlMsg.player_name p) e w = w

  on_control-IsSound :
      (bytes : List ℕ) (e : Engine F D E) → IsSound e → IsSound (on_control bytes e).0
  unfolding on_control
  on_control-IsSound bytes e w = elim (Option-cases (decode {F = F} bytes)) [
    | inl none_read ↦ rw (none_read, on_control) w
    | inr (m, read) ↦ rw (read, on_control) (handle-IsSound m e w)
  ]

  unfoldable pub step : Call → Engine F D E → Engine F D E × List (Output F)
  unfolding on_control on_audio_frame tick
  step (control bytes) e = on_control bytes e
  step (audio now speaker_id seq flags opus) e = on_audio_frame now speaker_id seq flags opus e
  step ticked e = tick e

  unfoldable pub run : List Call → Engine F D E → Engine F D E
  unfolding step
  run [] e = e
  run (c ∷ cs) e = run cs (step c e).0

  step-IsSound : (c : Call) (e : Engine F D E) → IsSound e → IsSound (step c e).0
  unfolding step
  step-IsSound (control bytes) e w = on_control-IsSound bytes e w
  step-IsSound (audio now speaker_id seq flags opus) e w =
      on_audio_frame-IsSound now speaker_id seq flags opus e w
  step-IsSound ticked e w = tick-IsSound e w

  run-keeps : (cs : List Call) (e : Engine F D E) → IsSound e → IsSound (run cs e)
  unfolding run
  run-keeps [] e w = w
  run-keeps (c ∷ cs) e w = run-keeps cs (step c e).0 (step-IsSound c e w)

pub run-IsSound :
    {F : Type 0} (D E : Type 0) ⦃fl : FloatOps F⦄ ⦃od : OpusDecoder F D⦄ ⦃oe : OpusEncoder F E⦄
    (t : ProximityTuning F) (p : PolicyLimits) (r : RadioTuning F) (b : BehaviorTuning F) (n : ℕ)
    (cs : List Call)
    → IsSound (run cs (new_engine {D = D} {E = E} t p r b n))
unfolding value_or lookup
run-IsSound D E t p r b n cs = run-keeps cs (new_engine {D = D} {E = E} t p r b n) (record {
  mirrored = λ pid cid. refl;
  distinct = tt;
  indexed = empty-IsIndexed;
  placed = λ id. inr refl;
  capped = λ id. (omega arith, λ k. omega arith);
})

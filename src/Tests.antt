-- ===== src/Tests.antt =====
-- Runs of the model at concrete inputs: the floats are thousandths, and the codec a stub that gives
-- two samples for any packet, and one byte for any frame.
mod Network
mod Bridge
mod Sound
mod Watchdog
use omp_voice.Base.Float.{milli, milli_order}
use omp_voice.Base.{
  ℤ, pos, ℕ, ◌+◌, ◌-◌, ◌*◌, ◌%◌, ◌^◌, min, ◌≡◌, ◌⊎◌, ◌≢◌, ◌↔◌, refl, true, false, not, ◌&&◌, List,
  [], ◌∷◌, ◌++◌, none, some, All, over, lookup, count, length, get_elem?, arith, ◌≤◌, nat_beq,
  nat_eq, if◌then◌else◌,
}
use omp_voice.Protocol.{HandshakeReq}
use omp_voice.Protocol.Commands.{ctrl_chan_op_codec}
use omp_voice.Protocol.Control.{CtrlMsg, encode, decode, decode-encode}
use omp_voice.Registry.{Player, new_player, remove_player, destroy_channel}
use omp_voice.Registry.Members.{member_of, player_in}
use omp_voice.Registry.Cleanup.{remove_player-clears, destroy_channel-clears}
use omp_voice.Grid.{Key, cell, query_cells, offsets, rebuild, key_for}
use omp_voice.Grid.Cells.{IsIndexed}
use omp_voice.Grid.Query.{in_reach, count-query_cells}
use omp_voice.Grid.Rebuild.{rebuild-IsIndexed}
use omp_voice.Proximity.{default_prox_tuning}
use omp_voice.Near.{
  NearEntry, nearest_admit, scan, scan_set, admit_scanned, evict, note, is_stale, sub32,
}
use omp_voice.Near.Pass.{entries_of, IsFresh, NotBelow}
use omp_voice.Near.Bound.{IsOnce, nearest_admit-bounded}
use omp_voice.Near.Weakest.{nearest_admit-refused}
use omp_voice.Opus.{OpusDecoder, OpusEncoder}
use omp_voice.Bus.{RadioTuning, BehaviorTuning, BusRouter, key2}
use omp_voice.Bus.Prune.{prune_player, prune_channel}
use omp_voice.Bus.Forget.{prune_player-forgets, prune_channel-forgets}
use omp_voice.Bus.Route.{on_speaker_frame}
use omp_voice.Bus.Listeners.{IsFrameEvent, on_speaker_frame-routed}
use omp_voice.Engine.{Engine, PolicyLimits, new_engine}
use omp_voice.Engine.Audio.{route_proximity, tick}
use omp_voice.Engine.Control.{on_player_gone}
use omp_voice.Engine.Hearing.{IsHeardFrom, route_proximity-heard}
use omp_voice.Engine.Sound.{IsSound}
use omp_voice.Engine.Steps.{Call, control, audio, ticked, run, run-IsSound}
use omp_voice.Engine.Departure.{
  mutes, stops, stopped_at, settled, on_player_gone-clears, tick-stops,
}

instance abbrev test_decoder : OpusDecoder ℤ Unit
test_decoder = record {
  create = λ rate channels. some tt;
  decode_float = λ d opus room. (pos 100 ∷ pos 200 ∷ [], d);
}

instance abbrev test_encoder : OpusEncoder ℤ Unit
test_encoder = record {
  create = λ rate channels bitrate. some tt;
  encode_float = λ e pcm room. (7 ∷ [], e);
}

abbrev test_radio : RadioTuning ℤ
test_radio = record {
  bandpass_low_hz = pos 300000;
  bandpass_high_hz = pos 3000000;
  phone_low_hz = pos 400000;
  phone_high_hz = pos 3400000;
  drive = pos 2000;
  squelch_beep = true;
  static_level = pos 20;
  half_duplex_garble = true;
}

abbrev test_behavior : BehaviorTuning ℤ
test_behavior = record {
  suppress_double_play = true;
  speakerphone = true;
  normalize = false;
  limiter_ceiling = pos 950;
  bitrate = 24000;
}

abbrev test_policy : PolicyLimits
test_policy = record { vad_allowed = 1; default_mode = 0; max_streams = 8 }

-- Two players close to each other, both on a radio channel; the first talks.
abbrev test_calls : List Call
test_calls =
    control (
      encode {F = ℤ} (
        CtrlMsg.chan_create
          (record { channel_id = 5; filter = 1; positional = 0; priority = 100 })))
    ∷ control (
        encode (
          CtrlMsg.player_pos (record {
            player_id = 1;
            x = pos 10000;
            y = pos 0;
            z = pos 0;
            interior = 0;
            virtual_world = 0;
            vehicle_state = 0;
          })))
    ∷ control (
        encode (
          CtrlMsg.player_pos (record {
            player_id = 2;
            x = pos 12000;
            y = pos 0;
            z = pos 0;
            interior = 0;
            virtual_world = 0;
            vehicle_state = 0;
          })))
    ∷ control
        (encode {F = ℤ} (CtrlMsg.chan_join (record { channel_id = 5; player_id = 1; arg = 0 })))
    ∷ control
        (encode {F = ℤ} (CtrlMsg.chan_join (record { channel_id = 5; player_id = 2; arg = 0 })))
    ∷ control
        (encode {F = ℤ} (CtrlMsg.transmit (record { player_id = 1; on = 1; channel_mask = 0 })))
    ∷ audio 1000 1 1 0 (9 ∷ 9 ∷ [])
    ∷ ticked
    ∷ []

abbrev test_engine : Engine ℤ Unit Unit
test_engine = run test_calls (new_engine default_prox_tuning test_policy test_radio test_behavior 2)

run-IsSound_example : IsSound test_engine
run-IsSound_example =
    run-IsSound Unit Unit default_prox_tuning test_policy test_radio test_behavior 2 test_calls

route_proximity-heard_example :
    All (IsHeardFrom test_engine 1 4 (9 ∷ [])) (route_proximity 1 4 0 (9 ∷ []) test_engine).1
route_proximity-heard_example = route_proximity-heard 1 4 0 (9 ∷ []) test_engine

-- The router of the same engine, with members heard on the radio also when they are near.
abbrev loud_bus : BusRouter ℤ Unit Unit
loud_bus = record test_engine.bus {
  behavior = record test_behavior { suppress_double_play = false };
}

on_speaker_frame-routed_example :
    All
      (IsFrameEvent test_engine.reg 1)
      (on_speaker_frame 1040 test_engine.reg test_engine.tune 1 (9 ∷ []) loud_bus).1
on_speaker_frame-routed_example =
    on_speaker_frame-routed 1040 test_engine.reg test_engine.tune 1 (9 ∷ []) loud_bus

-- The streams of a frame that the first player sends on the radio.
abbrev test_bus : BusRouter ℤ Unit Unit
test_bus = (on_speaker_frame 1040 test_engine.reg test_engine.tune 1 (9 ∷ []) test_engine.bus).0

prune_player-forgets_example :
    let b' = prune_player 1 test_bus in
    (lookup 1 b'.decoders ≡ (if nat_beq 1 1 then none else lookup 1 test_bus.decoders))
    × (lookup (key2 1 5) b'.streams
        ≡ (if nat_beq 1 1 then none else lookup (key2 1 5) test_bus.streams))
    × (lookup (key2 1 5) b'.encoders
        ≡ (if nat_beq 1 1 then none else lookup (key2 1 5) test_bus.encoders))
    × (lookup (key2 1 5) b'.seq ≡ (if nat_beq 1 1 then none else lookup (key2 1 5) test_bus.seq))
prune_player-forgets_example = prune_player-forgets 1 1 5 test_bus (omega arith) (omega arith)

prune_channel-forgets_example :
    let b' = prune_channel 5 test_bus in
    (lookup (key2 2 5) b'.streams
      ≡ (if nat_beq 5 5 then none else lookup (key2 2 5) test_bus.streams))
    × (lookup (key2 2 5) b'.encoders
        ≡ (if nat_beq 5 5 then none else lookup (key2 2 5) test_bus.encoders))
    × (lookup (key2 2 5) b'.seq ≡ (if nat_beq 5 5 then none else lookup (key2 2 5) test_bus.seq))
    × (lookup 5 b'.last_emit ≡ (if nat_beq 5 5 then none else lookup 5 test_bus.last_emit))
    × (lookup 5 b'.chan_active_ms
        ≡ (if nat_beq 5 5 then none else lookup 5 test_bus.chan_active_ms))
    × (lookup 5 b'.garble_phase ≡ (if nat_beq 5 5 then none else lookup 5 test_bus.garble_phase))
    × (lookup 5 b'.garble_rng ≡ (if nat_beq 5 5 then none else lookup 5 test_bus.garble_rng))
prune_channel-forgets_example = prune_channel-forgets 5 2 5 test_bus (omega arith)

-- Where the first player stands.
abbrev test_place : Key
test_place = record { interior = 0; vworld = 0; cx = pos 0; cy = pos 0 }

on_player_gone-clears_example :
    let e' = on_player_gone 1 test_engine in
    (lookup 1 e'.reg.players ≡ none)
    × (member_of e'.reg.channels 1 5 ≡ false)
    × (mutes 1 (lookup 2 e'.reg.players) ≡ false)
    × (lookup 1 e'.grid.where_is ≡ none)
    × (count 1 (cell test_place e'.grid.cells) ≡ 0)
    × (lookup 1 e'.near ≡ none)
    × (lookup 1 e'.bus.decoders ≡ none)
    × (lookup (key2 1 5) e'.bus.streams ≡ none)
    × (lookup (key2 1 5) e'.bus.encoders ≡ none)
    × (lookup (key2 1 5) e'.bus.seq ≡ none)
    × (lookup 1 e'.spk_enc ≡ none)
    × (lookup 1 e'.spk_seq ≡ none)
on_player_gone-clears_example =
    on_player_gone-clears 1 5 2 test_place test_engine run-IsSound_example (omega arith)
      (omega arith)

-- The first player has been silent for seven ticks.
abbrev quiet_calls : List Call
quiet_calls = test_calls ++ (ticked ∷ ticked ∷ ticked ∷ ticked ∷ ticked ∷ ticked ∷ [])

abbrev quiet_engine : Engine ℤ Unit Unit
quiet_engine =
    run quiet_calls (new_engine default_prox_tuning test_policy test_radio test_behavior 2)

quiet-IsSound : IsSound quiet_engine
quiet-IsSound =
    run-IsSound Unit Unit default_prox_tuning test_policy test_radio test_behavior 2 quiet_calls

tick-stops_example :
    let now = (quiet_engine.tick_count + 1) % 2 ^ 32 in
    (stops 1 (tick quiet_engine).1 ≡ stopped_at now (lookup 1 quiet_engine.reg.players))
    × (lookup 1 (tick quiet_engine).0.reg.players
        ≡ over (settled now) (lookup 1 quiet_engine.reg.players))
tick-stops_example = tick-stops 1 quiet_engine quiet-IsSound

-- The second player, thirty metres above the first.
abbrev upstairs : Player ℤ
upstairs = record (new_player 2) { pos = record { x = pos 0; y = pos 0; z = pos 30000 } }

remove_player-clears_example :
    (lookup 2 (remove_player 2 test_engine.reg).players ≡ none)
    × (member_of (remove_player 2 test_engine.reg).channels 2 5 ≡ false)
remove_player-clears_example =
    remove_player-clears 2 test_engine.reg 2 5 run-IsSound_example.mirrored

destroy_channel-clears_example :
    (lookup 5 (destroy_channel 5 test_engine.reg).channels ≡ none)
    × (player_in (destroy_channel 5 test_engine.reg).players 1 5 ≡ false)
destroy_channel-clears_example =
    destroy_channel-clears 5 test_engine.reg 1 5 run-IsSound_example.mirrored

count-query_cells_example :
    count 2 (
      query_cells 1
        (key_for (new_player {F = ℤ} 1))
        (offsets (pos 1))
        (offsets (pos 1))
        test_engine.grid.cells)
    ≡ (if not (nat_beq 1 2)
          && in_reach 1 (key_for (new_player {F = ℤ} 1)) (lookup 2 test_engine.grid.where_is)
        then 1
        else 0)
count-query_cells_example =
    count-query_cells test_engine.grid 1 2 1 (key_for (new_player {F = ℤ} 1))
      run-IsSound_example.indexed

rebuild-IsIndexed_example :
    IsIndexed (rebuild test_engine.reg.players)
    × ((id : ℕ)
        → lookup id (rebuild test_engine.reg.players).where_is
          ≡ over key_for (lookup id test_engine.reg.players))
rebuild-IsIndexed_example = rebuild-IsIndexed test_engine.reg.players run-IsSound_example.distinct

abbrev test_join : CtrlMsg ℤ
test_join = CtrlMsg.chan_join (record { channel_id = 5; player_id = 2; arg = 0 })

decode-encode_example : decode (encode test_join ++ 7 ∷ []) ≡ some test_join
unfolding ctrl_chan_op_codec
decode-encode_example =
    decode-encode test_join (7 ∷ []) (tt, (omega arith, (omega arith, omega arith)))

-- A listener who hears one speaker, at a cap of one.
abbrev test_near : List (NearEntry ℤ)
test_near = record { speaker = 1; volume = pos 500; tick = 3 } ∷ []

nearest_admit-bounded_example :
    let r = nearest_admit 1 4 2 (pos 300) test_near in
    (length r.1 ≤ 1)
    × IsOnce r.1
    × (r.0 ≡ true
        → (i : ℕ) × (get_elem? r.1 i ≡ some (record { speaker = 2; volume = pos 300; tick = 4 })))
    × (r.0 ≡ false → (1 ≤ length r.1) × (entries_of 2 r.1 ≡ 0))
nearest_admit-bounded_example =
    nearest_admit-bounded 0 4 2 (pos 300) test_near (omega arith) (λ k. ground arith)

nearest_admit-refused_example :
    All (IsFresh 4) (nearest_admit 1 4 2 (pos 300) test_near).1
    × All (NotBelow (pos 300)) (nearest_admit 1 4 2 (pos 300) test_near).1
unfolding nearest_admit scan_set scan note is_stale sub32 admit_scanned evict
nearest_admit-refused_example =
    nearest_admit-refused milli_order 0 4 2 (pos 300) test_near refl refl

-- ===== src/Engine/Audio.antt =====
-- core/src/engine.cpp: `onAudioFrame` and its routes, and `tick`.
use Prim.Native.Nat.{bit_or}
use omp_voice.Base.Float.{FloatOps}
use omp_voice.Base.{
  ℕ, ◌+◌, ◌%◌, ◌^◌, Bool, true, false, not, ◌&&◌, ◌||◌, List, [], ◌∷◌, ◌++◌, none, some, Map,
  lookup, put, nat_beq, nat_eq, ltb, leb, length, if◌then◌else◌,
}
use omp_voice.Protocol.{
  ProximityDown, StatusType, invalid_channel, max_opus_bytes, sample_rate, voice_channels,
  af_speakerph, speakerphone_id_bit,
}
use omp_voice.Registry.{Player, with_player}
use omp_voice.Grid.{query_neighbours, rebuild}
use omp_voice.Proximity.{effective_range}
use omp_voice.Near.{sub32}
use omp_voice.Opus.{OpusDecoder, OpusEncoder, encode}
use omp_voice.Bus.{BusEvent, value_or}
use omp_voice.Bus.Route.{on_speaker_frame}
use omp_voice.Engine.{
  Engine, Output, bus_down, status, silence_ticks, proximity_to, speakerphone_to, visit,
}

-- !sp->alive && !sp->spectator.
abbrev pub is_silenced : {F : Type 0} → Player F → Bool
is_silenced sp = not sp.alive && not sp.spectator

-- audioActive and lastAudioTick of the speaker.
abbrev pub talking : {F : Type 0} → ℕ → Player F → Player F
talking now p = record p { audio_active = true; last_audio_tick = now }

-- What of the header is the same for each listener.
abbrev pub header : {F : Type 0} ⦃fl : FloatOps F⦄ → ℕ → ℕ → ℕ → List ℕ → ProximityDown F
header ⦃fl⦄ speaker_id seq flags opus = record {
  speaker_id = speaker_id;
  seq = seq;
  flags = flags;
  volume = fl.lit 0 0;
  pan = fl.lit 0 0;
  length = length opus;
}

module _ {F D E : Type 0} ⦃fl : FloatOps F⦄ where
  unfoldable pub route_proximity :
      ℕ → ℕ → ℕ → List ℕ → Engine F D E → Engine F D E × List (Output F)
  unfolding visit proximity_to
  route_proximity speaker_id seq flags opus e = elim (lookup speaker_id e.reg.players) [
    | none ↦ (e, [])
    | some sp ↦
        if is_silenced sp || ltb max_opus_bytes (length opus)
        then (e, [])
        else let neigh = query_neighbours sp (effective_range sp e.tune) e.grid in
          let hdr = header speaker_id seq flags opus in
          let (near, out) =
            visit (proximity_to e.nearest_n e.tick_count e.tune e.reg sp hdr opus) neigh e.near in
          (record e { near = near }, out)
  ]

  -- What the loop over the neighbours does once there are bytes to send.
  unfoldable pub phone_fan :
      ℕ → ℕ → Player F → List ℕ → Engine F D E → Engine F D E × List (Output F)
  unfolding visit speakerphone_to
  phone_fan holder_id channel_id sp opus e =
      let seq = (value_or 0 (lookup holder_id e.spk_seq) + 1) % 65536 in
      let neigh = query_neighbours sp (effective_range sp e.tune) e.grid in
      let hdr = header (bit_or holder_id speakerphone_id_bit) seq af_speakerph opus in
      let ch = lookup channel_id e.reg.channels in
      let (near, out) =
        visit (speakerphone_to e.nearest_n e.tick_count e.tune e.reg holder_id ch sp hdr opus) neigh
          e.near in
      (record e { near = near; spk_seq = put holder_id seq e.spk_seq }, out)

  module _ ⦃od : OpusDecoder F D⦄ ⦃oe : OpusEncoder F E⦄ where
    unfoldable pub route_speakerphone :
        ℕ → ℕ → List F → Engine F D E → Engine F D E × List (Output F)
    unfolding phone_fan
    route_speakerphone holder_id channel_id pcm e = elim (lookup holder_id e.reg.players) [
      | none ↦ (e, [])
      | some sp ↦
          if nat_beq (length pcm) 0 || is_silenced sp
          then (e, [])
          else let enc =
              value_or (oe.create sample_rate voice_channels e.bus.behavior.bitrate)
                (lookup holder_id e.spk_enc) in
            let (opus, enc') = encode enc pcm max_opus_bytes in
            let e' = record e { spk_enc = put holder_id enc' e.spk_enc } in
            if nat_beq (length opus) 0 then (e', []) else phone_fan holder_id channel_id sp opus e'
    ]

    -- What the router hands to its two sinks, in order.
    unfoldable pub sink_events : List (BusEvent F) → Engine F D E → Engine F D E × List (Output F)
    unfolding route_speakerphone
    sink_events [] e = (e, [])
    sink_events (BusEvent.bus_down lid hdr opus ∷ evs) e =
        let (e', out) = sink_events evs e in (e', bus_down lid hdr opus ∷ out)
    sink_events (BusEvent.speaker lid cid pcm ∷ evs) e =
        let (e₁, first) = route_speakerphone lid cid pcm e in
        let (e₂, out) = sink_events evs e₁ in (e₂, first ++ out)

    -- `m_bus.onSpeakerFrame` with its sinks.
    unfoldable pub route_buses : ℕ → ℕ → List ℕ → Engine F D E → Engine F D E × List (Output F)
    unfolding sink_events
    route_buses now speaker_id opus e =
        let (bus, evs) = on_speaker_frame now e.reg e.tune speaker_id opus e.bus in
        sink_events evs (record e { bus = bus })

    unfoldable pub on_audio_frame :
        ℕ → ℕ → ℕ → ℕ → List ℕ → Engine F D E → Engine F D E × List (Output F)
    unfolding route_proximity route_buses
    on_audio_frame now speaker_id seq flags opus e = elim (lookup speaker_id e.reg.players) [
      | none ↦ (e, [])
      | some sp ↦
          if sp.muted
          then (e, [])
          else let e₀ = record e { reg = with_player speaker_id (talking e.tick_count) e.reg } in
            let start =
              if sp.audio_active
              then []
              else status StatusType.speaker_start speaker_id invalid_channel 0 ∷ [] in
            let (e₁, near) = route_proximity speaker_id seq flags opus e₀ in
            let (e₂, bus) = route_buses now speaker_id opus e₁ in (e₂, start ++ near ++ bus)
    ]

-- pl.audioActive && m_tickCount - pl.lastAudioTick >= m_silenceTicks.
unfoldable pub has_stopped : {F : Type 0} → ℕ → Player F → Bool
has_stopped now p = p.audio_active && leb silence_ticks (sub32 now p.last_audio_tick)

module _ {F : Type 0} where
  unfoldable pub stop_silent : ℕ → Map ℕ (Player F) → Map ℕ (Player F) × List (Output F)
  unfolding has_stopped
  stop_silent now [] = ([], [])
  stop_silent now ((id, p) ∷ ps) =
      let (rest, out) = stop_silent now ps in
      if has_stopped now p
      then (
        (id, record p { audio_active = false }) ∷ rest,
        status StatusType.speaker_stop id invalid_channel 0 ∷ out,
      )
      else ((id, p) ∷ rest, out)

unfoldable pub tick :
    {F D E : Type 0} ⦃fl : FloatOps F⦄ → Engine F D E → Engine F D E × List (Output F)
unfolding stop_silent
tick e =
    let now = (e.tick_count + 1) % 2 ^ 32 in
    let grid = if nat_beq (now % 1024) 0 then rebuild e.reg.players else e.grid in
    let (players, out) = stop_silent now e.reg.players in
    (
      record e {
        tick_count = now;
        grid = grid;
        reg = record { players = players; channels = e.reg.channels };
      },
      out,
    )

-- ===== src/Bus/Mix.antt =====
-- core/src/bus_router.cpp: a frame into a stream, and the mix of a channel for each member.
use omp_voice.Base.Float.{FloatOps, ge}
use omp_voice.Base.{
  ℕ, ◌+◌, ◌%◌, max, Bool, true, false, not, ◌&&◌, ◌||◌, List, [], ◌∷◌, ◌++◌, Option, none, some,
  Map, lookup, put, nat_beq, nat_eq, ltb, leb, length, if◌then◌else◌,
}
use omp_voice.Protocol.{filter_byte, max_opus_bytes, sample_rate, voice_channels}
use omp_voice.Registry.{Player, Channel, Registry}
use omp_voice.Proximity.{ProximityTuning}
use omp_voice.Near.{sub32}
use omp_voice.Opus.{OpusDecoder, OpusEncoder, encode}
use omp_voice.Dsp.{garble, limiter}
use omp_voice.Bus.{
  BusRouter, BusEvent, bus_down, speaker, Stream, key2, value_or, fresh_ms, policy_gain, new_stream,
  tuned_stream, filtered, proximity_audible, add_frame, silence, is_clean,
}

-- A contributor of a channel: the member and its last filtered frame.
abbrev pub Contrib : Type 0 → Type 0
Contrib F = List (ℕ × List F)

-- le && nowMs - le < FRAME_MS - 2.
unfoldable pub is_throttled : ℕ → Option ℕ → Bool
is_throttled now none = false
is_throttled now (some le) = not (nat_beq le 0) && ltb (sub32 now le) 18

module _ {F : Type 0} where
  -- Members with a recent filtered frame on the channel.
  unfoldable pub contributors : ℕ → ℕ → Map ℕ (Stream F) → List ℕ → Contrib F
  contributors now cid streams [] = []
  contributors now cid streams (mid ∷ mids) =
      let rest = contributors now cid streams mids in
      elim (lookup (key2 mid cid) streams) [
        | none ↦ rest
        | some s ↦
            if nat_beq (length s.pcm) 0 || ltb fresh_ms (sub32 now s.last_ms)
            then rest
            else (mid, s.pcm) ∷ rest
      ]

  unfoldable pub longest : Contrib F → ℕ
  longest [] = 0
  longest (c ∷ cs) = max (length c.1) (longest cs)

module _ {F : Type 0} ⦃fl : FloatOps F⦄ where
  -- Whether `lid` hears this contributor on the bus: never itself, nor who it hears in person.
  unfoldable pub is_included : Bool → ProximityTuning F → Registry F → ℕ → ℕ → Bool
  is_included suppress t reg lid id =
      not (nat_beq id lid) && not (suppress && proximity_audible t reg id lid)

  unfoldable pub included : Bool → ProximityTuning F → Registry F → ℕ → Contrib F → Contrib F
  unfolding is_included
  included suppress t reg lid [] = []
  included suppress t reg lid (c ∷ cs) =
      let rest = included suppress t reg lid cs in
      if is_included suppress t reg lid c.0 then c ∷ rest else rest

  unfoldable pub sum_frames : List F → Contrib F → List F
  sum_frames scratch [] = scratch
  sum_frames scratch (c ∷ cs) = sum_frames (add_frame scratch c.1) cs

  -- The highest priority among the listener's active filtered channels.
  unfoldable pub top_priority : ℕ → Map ℕ ℕ → Registry F → List ℕ → ℕ
  top_priority now active reg [] = 0
  top_priority now active reg (cid ∷ cids) =
      let rest = top_priority now active reg cids in
      elim (lookup cid reg.channels) [
        | none ↦ rest
        | some c ↦ elim (lookup cid active) [
          | none ↦ rest
          | some at ↦
              if is_clean c.filter || ltb fresh_ms (sub32 now at) then rest else max c.priority rest
        ]
      ]

  unfoldable pub bus_volume : ℕ → Map ℕ ℕ → Registry F → Player F → Channel → F
  unfolding top_priority policy_gain
  bus_volume now active reg listener ch =
      policy_gain listener.policy ch.priority (top_priority now active reg listener.channels)
        listener.duck_level

module _ {F D E : Type 0} ⦃fl : FloatOps F⦄ ⦃od : OpusDecoder F D⦄ ⦃oe : OpusEncoder F E⦄ where
  -- `encoder` and the encode; a packet and a number of the sequence only if it gave any byte.
  unfoldable pub send_bus :
      ℕ → Channel → List F → F → BusRouter F D E → BusRouter F D E × List (BusEvent F)
  send_bus lid ch pcm volume b =
      let k = key2 lid ch.id in
      let enc =
        value_or (oe.create sample_rate voice_channels b.behavior.bitrate) (lookup k b.encoders) in
      let (bytes, enc') = encode enc pcm max_opus_bytes in
      let b' = record b { encoders = put k enc' b.encoders } in
      let next = (value_or 0 (lookup k b.seq) + 1) % 65536 in
      if nat_beq (length bytes) 0 then (b', []) else (
        record b' { seq = put k next b.seq },
        bus_down lid
              (record {
                channel_id = ch.id;
                filter = filter_byte ch.filter;
                seq = next;
                volume = volume;
                length = length bytes;
              })
              bytes
            ∷ [],
      )

  -- The ring modulator of a collision, with its phase and rng of the channel.
  unfoldable pub jam : Bool → ℕ → List F → BusRouter F D E → List F × BusRouter F D E
  jam false cid pcm b = (pcm, b)
  jam true cid pcm b =
      let (ys, phase, rng) =
        garble (fl.lit sample_rate 0) (value_or (fl.lit 0 0) (lookup cid b.garble_phase))
          (value_or 0 (lookup cid b.garble_rng)) pcm in
      (
        ys,
        record b {
          garble_phase = put cid phase b.garble_phase;
          garble_rng = put cid rng b.garble_rng;
        },
      )

  -- The mix of a listener who has something to hear: jam, limit, speakerphone, policy, send.
  unfoldable pub emit_mix :
      ℕ
      → Registry F
      → Channel
      → Bool
      → Player F
      → ℕ
      → List F
      → BusRouter F D E
      → BusRouter F D E × List (BusEvent F)
  emit_mix now reg ch collision li lid scratch b =
      let (jammed, b₁) = jam collision ch.id scratch b in
      let pcm = limiter b.behavior.limiter_ceiling jammed in
      let phone =
        if b.behavior.speakerphone && li.speakerphone then speaker lid ch.id pcm ∷ [] else [] in
      let vol = bus_volume now b.chan_active_ms reg li ch in
      if ge (fl.lit 1 3) vol
      then (b₁, phone)
      else let (b₂, out) = send_bus lid ch pcm vol b₁ in (b₂, phone ++ out)

  -- One member of the channel.
  unfoldable pub emit_to :
      ℕ
      → Registry F
      → ProximityTuning F
      → Channel
      → Contrib F
      → ℕ
      → BusRouter F D E
      → BusRouter F D E × List (BusEvent F)
  unfolding emit_mix included longest sum_frames
  emit_to now reg t ch contrib lid b = elim (lookup lid reg.players) [
    | none ↦ (b, [])
    | some li ↦
        let heard = included b.behavior.suppress_double_play t reg lid contrib in
        if li.deafen || nat_beq (length heard) 0
        then (b, [])
        else emit_mix now reg ch (b.radio.half_duplex_garble && leb 2 (length contrib)) li lid
            (sum_frames (silence (longest contrib)) heard) b
  ]

  unfoldable pub emit_members :
      ℕ
      → Registry F
      → ProximityTuning F
      → Channel
      → Contrib F
      → List ℕ
      → BusRouter F D E
      → BusRouter F D E × List (BusEvent F)
  emit_members now reg t ch contrib [] b = (b, [])
  emit_members now reg t ch contrib (lid ∷ lids) b =
      let (b₁, now_out) = emit_to now reg t ch contrib lid b in
      let (b₂, out) = emit_members now reg t ch contrib lids b₁ in (b₂, now_out ++ out)

  unfoldable pub emit_channel :
      ℕ
      → Registry F
      → ProximityTuning F
      → Channel
      → BusRouter F D E
      → BusRouter F D E × List (BusEvent F)
  unfolding contributors emit_members
  emit_channel now reg t ch b =
      let contrib = contributors now ch.id b.streams ch.members in
      if nat_beq (length contrib) 0 then (b, []) else emit_members now reg t ch contrib ch.members b

  -- The frame into the speaker's stream of a channel.
  unfoldable pub feed : ℕ → ℕ → Channel → List F → BusRouter F D E → BusRouter F D E
  unfolding tuned_stream filtered
  feed now speaker_id ch pcm b =
      let k = key2 speaker_id ch.id in
      let st =
        tuned_stream b.radio speaker_id ch.id ch.filter
          (value_or new_stream (lookup k b.streams)) in
      record b {
        streams = put k (filtered b.radio ch.filter pcm now st) b.streams;
        chan_active_ms = put ch.id now b.chan_active_ms;
      }

  -- `m_lastEmit[cid]` and what follows it.
  unfoldable pub emit_throttled :
      ℕ
      → Registry F
      → ProximityTuning F
      → Channel
      → BusRouter F D E
      → BusRouter F D E × List (BusEvent F)
  unfolding is_throttled emit_channel
  emit_throttled now reg t ch b =
      if is_throttled now (lookup ch.id b.last_emit)
      then (b, [])
      else emit_channel now reg t ch (record b { last_emit = put ch.id now b.last_emit })

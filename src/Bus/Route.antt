-- ===== src/Bus/Route.antt =====
-- core/src/bus_router.cpp: `onSpeakerFrame` and `onRadioKey`.
use omp_voice.Base.Float.{FloatOps}
use omp_voice.Base.{
  ℕ, Bool, not, ◌&&◌, ◌||◌, List, [], ◌∷◌, ◌++◌, none, some, lookup, put, nat_beq, nat_eq, length,
  if◌then◌else◌,
}
use omp_voice.Protocol.{sample_rate, voice_channels}
use omp_voice.Registry.{Player, Channel, Registry}
use omp_voice.Proximity.{ProximityTuning}
use omp_voice.Opus.{OpusDecoder, OpusEncoder, decode}
use omp_voice.Dsp.{squelch_beep}
use omp_voice.Bus.{
  BusRouter, BusEvent, keyed, value_or, frame_samples, max_decode, is_radio, is_clean,
}
use omp_voice.Bus.Mix.{send_bus, feed, emit_throttled}

module _ {F D E : Type 0} ⦃fl : FloatOps F⦄ ⦃od : OpusDecoder F D⦄ ⦃oe : OpusEncoder F E⦄ where
  -- One channel of the speaker.
  unfoldable pub route_channel :
      ℕ
      → Registry F
      → ProximityTuning F
      → Player F
      → ℕ
      → List F
      → ℕ
      → BusRouter F D E
      → BusRouter F D E × List (BusEvent F)
  unfolding feed emit_throttled
  route_channel now reg t sp speaker_id pcm cid b = elim (lookup cid reg.channels) [
    | none ↦ (b, [])
    | some ch ↦
        if is_clean ch.filter
          || (not (nat_beq sp.channel_mask 0) && not (keyed sp.channel_mask cid))
        then (b, [])
        else emit_throttled now reg t ch (feed now speaker_id ch pcm b)
  ]

  unfoldable pub route_channels :
      ℕ
      → Registry F
      → ProximityTuning F
      → Player F
      → ℕ
      → List F
      → List ℕ
      → BusRouter F D E
      → BusRouter F D E × List (BusEvent F)
  route_channels now reg t sp speaker_id pcm [] b = (b, [])
  route_channels now reg t sp speaker_id pcm (cid ∷ cids) b =
      let (b₁, first) = route_channel now reg t sp speaker_id pcm cid b in
      let (b₂, out) = route_channels now reg t sp speaker_id pcm cids b₁ in (b₂, first ++ out)

  -- Decode once, with the speaker's decoder.
  unfoldable pub decode_frame : ℕ → List ℕ → BusRouter F D E → List F × BusRouter F D E
  decode_frame speaker_id opus b =
      let dec = value_or (od.create sample_rate voice_channels) (lookup speaker_id b.decoders) in
      let (pcm, dec') = decode dec opus max_decode in
      (pcm, record b { decoders = put speaker_id dec' b.decoders })

  unfoldable pub on_speaker_frame :
      ℕ
      → Registry F
      → ProximityTuning F
      → ℕ
      → List ℕ
      → BusRouter F D E
      → BusRouter F D E × List (BusEvent F)
  unfolding route_channels decode_frame
  on_speaker_frame now reg t speaker_id opus b = elim (lookup speaker_id reg.players) [
    | none ↦ (b, [])
    | some sp ↦
        if sp.muted || not sp.transmitting || nat_beq (length sp.channels) 0
        then (b, [])
        else let (pcm, b₁) = decode_frame speaker_id opus b in
          if nat_beq (length pcm) 0
          then (b₁, [])
          else route_channels now reg t sp speaker_id pcm sp.channels b₁
  ]

  -- The beep to one member: not to the operator, nor to one that is deaf.
  unfoldable pub beep_to :
      Registry F → Channel → ℕ → List F → ℕ → BusRouter F D E → BusRouter F D E × List (BusEvent F)
  unfolding send_bus
  beep_to reg ch speaker_id beep mid b = elim (lookup mid reg.players) [
    | none ↦ (b, [])
    | some li ↦
        if nat_beq mid speaker_id || li.deafen then (b, []) else send_bus mid ch beep (fl.lit 1 0) b
  ]

  unfoldable pub beep_members :
      Registry F
      → Channel
      → ℕ
      → List F
      → List ℕ
      → BusRouter F D E
      → BusRouter F D E × List (BusEvent F)
  beep_members reg ch speaker_id beep [] b = (b, [])
  beep_members reg ch speaker_id beep (mid ∷ mids) b =
      let (b₁, first) = beep_to reg ch speaker_id beep mid b in
      let (b₂, out) = beep_members reg ch speaker_id beep mids b₁ in (b₂, first ++ out)

  unfoldable pub on_radio_key :
      Registry F → ℕ → ℕ → Bool → BusRouter F D E → BusRouter F D E × List (BusEvent F)
  unfolding beep_members
  on_radio_key reg speaker_id channel_id down b = elim (lookup channel_id reg.channels) [
    | none ↦ (b, [])
    | some ch ↦
        if not b.radio.squelch_beep || not (is_radio ch.filter)
        then (b, [])
        else let freq = if down then fl.lit 1500 0 else fl.lit 1200 0 in
          let beep =
            squelch_beep frame_samples (fl.lit sample_rate 0) freq (fl.lit 30 2) (fl.lit 0 0) in
          beep_members reg ch speaker_id beep ch.members b
  ]

-- ===== src/Bus.antt =====
-- core/include/bus_router.h and core/src/bus_router.cpp: the filtered channels, mixed per listener.
-- What the router hands to its sinks is a list of events, in order. Members are visited in the
-- order of the set's list. core/include/mixer.h: the mix policy.
pub mod Mix
pub mod Route
pub mod Prune
pub mod Forget
pub mod Listeners
use Prim.Native.Nat.{bit_xor}
use omp_voice.Base.Float.{FloatOps, ge, fmax}
use omp_voice.Base.{
  ℕ, zero, suc, ◌+◌, ◌*◌, ◌/◌, ◌%◌, ◌^◌, ◌-◌, max, Bool, true, false, not, ◌&&◌, ◌||◌, List, [],
  ◌∷◌, ◌++◌, Option, none, some, Map, lookup, put, erase, adjust, nat_beq, nat_eq, ltb, leb, length,
  if◌then◌else◌,
}
use omp_voice.Protocol.{
  Filter, MixPolicy, BusDown, filter_byte, max_opus_bytes, sample_rate, frame_ms, voice_channels,
}
use omp_voice.Registry.{Player, Channel, Registry}
use omp_voice.Proximity.{ProximityTuning, evaluate}
use omp_voice.Near.{sub32}
use omp_voice.Opus.{OpusDecoder, OpusEncoder, decode, encode}
use omp_voice.Dsp.{
  BandpassChain, new_biquad, configure, reset_chain, process_frame, drive, add_static, garble,
  squelch_beep, limiter,
}

pub record RadioTuning (F : Type 0) : Type 0 where
  pub bandpass_low_hz : F
  pub bandpass_high_hz : F
  pub phone_low_hz : F
  pub phone_high_hz : F
  pub drive : F
  pub squelch_beep : Bool
  pub static_level : F
  pub half_duplex_garble : Bool

pub record BehaviorTuning (F : Type 0) : Type 0 where
  pub suppress_double_play : Bool
  pub speakerphone : Bool
  pub normalize : Bool
  pub limiter_ceiling : F
  pub bitrate : ℕ

-- Per (speaker, channel).
pub record Stream (F : Type 0) : Type 0 where
  pub band : BandpassChain F
  pub filter : Filter
  pub configured : Bool
  pub pcm : List F
  pub last_ms : ℕ
  pub rng : ℕ

pub record BusRouter (F D E : Type 0) : Type 0 where
  pub radio : RadioTuning F
  pub behavior : BehaviorTuning F
  pub decoders : Map ℕ (Option D)
  pub encoders : Map ℕ (Option E)
  pub streams : Map ℕ (Stream F)
  pub last_emit : Map ℕ ℕ
  pub chan_active_ms : Map ℕ ℕ
  pub garble_phase : Map ℕ F
  pub garble_rng : Map ℕ ℕ
  pub seq : Map ℕ ℕ

-- A `BusDown` to a listener, or a holder's call audio for the speakerphone sink.
pub data BusEvent (F : Type 0) : Type 0 where
  bus_down : ℕ → BusDown F → List ℕ → BusEvent F
  speaker : ℕ → ℕ → List F → BusEvent F

abbrev pub frame_samples : ℕ
frame_samples = 960

abbrev pub max_decode : ℕ
max_decode = 2880

abbrev pub fresh_ms : ℕ
fresh_ms = 60

-- (uint32_t(a) << 16) | b for 16-bit ids.
abbrev pub key2 : ℕ → ℕ → ℕ
key2 a b = a * 65536 + b

-- mask & (1u << (c & 31)).
unfoldable pub keyed : ℕ → ℕ → Bool
keyed mask c = nat_beq (mask / 2 ^ (c % 32) % 2) 1

unfoldable pub value_or {ℓ} : {A : Type ℓ} → A → Option A → A
value_or d none = d
value_or d (some a) = a

abbrev pub same_filter : Filter → Filter → Bool
same_filter a b = nat_beq (filter_byte a) (filter_byte b)

abbrev pub is_radio : Filter → Bool
is_radio f = nat_beq (filter_byte f) 1

abbrev pub is_clean : Filter → Bool
is_clean f = nat_beq (filter_byte f) 0

module _ {F : Type 0} ⦃fl : FloatOps F⦄ where
  unfoldable pub policy_gain : MixPolicy → ℕ → ℕ → F → F
  policy_gain MixPolicy.duck prio top level = if leb top prio then fl.lit 1 0 else level
  policy_gain MixPolicy.exclusive prio top level = if leb top prio then fl.lit 1 0 else fl.lit 0 0
  policy_gain MixPolicy.mix prio top level = fl.lit 1 0
  policy_gain (MixPolicy.unknown n) prio top level = fl.lit 1 0

  unfoldable pub new_stream : Stream F
  new_stream = record {
    band = record { hp = new_biquad; lp = new_biquad };
    filter = Filter.none;
    configured = false;
    pcm = [];
    last_ms = 0;
    rng = 0;
  }

  abbrev pub band_limits : RadioTuning F → Filter → F × F
  band_limits r Filter.phone = (r.phone_low_hz, r.phone_high_hz)
  band_limits r _ = (r.bandpass_low_hz, r.bandpass_high_hz)

  -- `stream`: the entry, configured anew if its filter is another.
  unfoldable pub tuned_stream : RadioTuning F → ℕ → ℕ → Filter → Stream F → Stream F
  tuned_stream r speaker_id channel_id f st =
      if not st.configured || not (same_filter st.filter f)
      then record st {
        filter = f;
        band =
            reset_chain
              (configure (fl.lit sample_rate 0) (band_limits r f).0 (band_limits r f).1 st.band);
        configured = true;
        rng =
            if nat_beq st.rng 0
            then bit_xor (bit_xor 0x2545F491 (speaker_id * 2654435761 % 2 ^ 32)) channel_id
            else st.rng;
      }
      else st

  -- The speaker's frame through the stream's filters.
  unfoldable pub filtered : RadioTuning F → Filter → List F → ℕ → Stream F → Stream F
  filtered r f pcm now st =
      let (band_pcm, band) = process_frame st.band pcm in
      let driven = drive r.drive band_pcm in
      let (noisy, rng) =
        if is_radio f then add_static r.static_level st.rng driven else (driven, st.rng) in
      record st { band = band; pcm = noisy; last_ms = now; rng = rng }

  unfoldable pub proximity_audible : ProximityTuning F → Registry F → ℕ → ℕ → Bool
  proximity_audible t reg speaker_id listener_id = elim (lookup speaker_id reg.players) [
    | none ↦ false
    | some s ↦ elim (lookup listener_id reg.players) [
      | none ↦ false
      | some l ↦ (evaluate s l t).audible
    ]
  ]

  -- m_scratch[i] += p[i].
  unfoldable pub add_frame : List F → List F → List F
  add_frame [] ys = []
  add_frame (x ∷ xs) [] = x ∷ xs
  add_frame (x ∷ xs) (y ∷ ys) = fl.add x y ∷ add_frame xs ys

  unfoldable pub silence : ℕ → List F
  silence zero = []
  silence (suc n) = fl.lit 0 0 ∷ silence n

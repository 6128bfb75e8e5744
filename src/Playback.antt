-- ===== src/Playback.antt =====
-- client/include/audio_playback.h and client/src/audio_playback.cpp: the streams of the client's
-- playback, their adaptive jitter buffers, and a turn of the mix loop. WASAPI is left out: a turn gives the
-- stereo samples that it would write. The calls of libopus are an interface.
pub mod Jitter
pub mod Output
use omp_voice.Base.Float.{FloatOps, clamp, ge}
use omp_voice.Base.{
  ℕ, zero, suc, ◌+◌, ◌-◌, ◌*◌, ◌/◌, ◌%◌, Bool, true, false, not, ◌&&◌, ◌||◌, List, [], ◌∷◌, ◌++◌,
  Option, none, some, Map, lookup, put, erase, contains, insert, remove, nat_beq, nat_eq, ltb, leb,
  length, take, drop, if◌then◌else◌,
}
use omp_voice.Protocol.{max_opus_bytes, voice_channels}
use omp_voice.Opus.{OpusDecoder, decode}

-- opus_decode_float without a packet: what it conceals is not mixed, but the decoder changes.
pub record Concealer (D : Type 0) : Type 0 where
  pub conceal : D → ℕ → D

pub record Frame (F : Type 0) : Type 0 where
  pub seq : ℕ
  pub opus : List ℕ
  pub volume : F
  pub pan : F
  pub occluded : Bool

pub record Stream (F D : Type 0) : Type 0 where
  pub decoder : Option D
  pub jitter : List (Frame F)
  pub lpf : F
  pub is_bus : Bool
  pub target : ℕ
  pub playing : Bool
  pub starve : ℕ
  pub stable : ℕ

pub record AudioPlayback (F D : Type 0) : Type 0 where
  pub streams : Map ℕ (Stream F D)
  pub spk_vol : Map ℕ F
  pub spk_mute : List ℕ
  pub master : F
  pub deafen : Bool
  pub proximity : F
  pub radio : F

abbrev pub pb_rate : ℕ
pb_rate = 24000

abbrev pub pb_frame : ℕ
pb_frame = 480

abbrev pub jitter_min : ℕ
jitter_min = 2

abbrev pub jitter_max : ℕ
jitter_max = 10

abbrev pub starve_reset : ℕ
starve_reset = 10

abbrev pub stable_shrink : ℕ
stable_shrink = 250

abbrev pub jitter_cap : ℕ
jitter_cap = 16

abbrev pub bus_id : ℕ → ℕ
bus_id channel = 65536 + channel

module _ {F D : Type 0} ⦃fl : FloatOps F⦄ where
  abbrev pub empty_stream : Stream F D
  empty_stream = record {
    decoder = none;
    jitter = [];
    lpf = fl.lit 0 0;
    is_bus = false;
    target = 3;
    playing = false;
    starve = 0;
    stable = 0;
  }

  -- The entry, and a decoder if it has none.
  unfoldable pub get : ⦃od : OpusDecoder F D⦄ → ℕ → Bool → AudioPlayback F D → Stream F D
  get ⦃od⦄ id is_bus p =
      let s : Stream F D = elim (lookup id p.streams) [ none ↦ empty_stream | some s ↦ s ] in
      elim s.decoder [
        | some d ↦ s
        | none ↦ record s { decoder = od.create pb_rate voice_channels; is_bus = is_bus }
      ]

module _ {F : Type 0} where
  -- Behind the frames with a lower number, at the front of the rest.
  unfoldable pub insert_frame : Frame F → List (Frame F) → List (Frame F)
  insert_frame f [] = f ∷ []
  insert_frame f (g ∷ gs) =
      let rest = insert_frame f gs in if ltb g.seq f.seq then g ∷ rest else f ∷ g ∷ gs

module _ {F D : Type 0} where
  unfoldable pub push : Frame F → Stream F D → Stream F D
  unfolding insert_frame
  push f s =
      let q = insert_frame f s.jitter in
      record s { jitter = if ltb jitter_cap (length q) then drop 1 q else q }

  -- A healthy tick: a frame was there, and `left` are.
  unfoldable pub settle : ℕ → Stream F D → Stream F D
  settle left s =
      if leb s.target (left + 1)
      then if leb stable_shrink (s.stable + 1) && ltb jitter_min s.target
        then record s { target = s.target - 1; stable = 0 }
        else record s { stable = s.stable + 1 }
      else record s { stable = 0 }

  -- A tick that finds none.
  unfoldable pub underrun : Stream F D → Stream F D
  underrun s =
      let grown = if ltb s.target jitter_max then s.target + 1 else s.target in
      if leb starve_reset (s.starve + 1)
      then record s { target = grown; stable = 0; playing = false; starve = 0 }
      else record s { target = grown; stable = 0; starve = s.starve + 1 }

  -- Once the buffer is as deep as the target, the stream plays.
  unfoldable pub prebuffer : Stream F D → Stream F D
  prebuffer s =
      if not s.playing && leb s.target (length s.jitter) then record s { playing = true } else s

  -- What a stream that plays takes out of its buffer.
  unfoldable pub pop_frame : List (Frame F) → Stream F D → Stream F D × Option (Frame F)
  unfolding settle underrun
  pop_frame [] s = (underrun s, none)
  pop_frame (f ∷ fs) s = (settle (length fs) (record s { jitter = fs; starve = 0 }), some f)

  unfoldable pub next_frame : Stream F D → Stream F D × Option (Frame F)
  unfolding prebuffer pop_frame
  next_frame s = let s' = prebuffer s in if s'.playing then pop_frame s'.jitter s' else (s', none)

module _ {F : Type 0} ⦃fl : FloatOps F⦄ where
  abbrev pub left_gain : F → F
  left_gain pan = if ge (fl.lit 0 0) pan then fl.lit 1 0 else fl.sub (fl.lit 1 0) pan

  abbrev pub right_gain : F → F
  right_gain pan = if ge pan (fl.lit 0 0) then fl.lit 1 0 else fl.add (fl.lit 1 0) pan

  -- The samples of a frame are added to the mix, behind a low pass if the speaker is occluded.
  unfoldable pub add_samples : Bool → F → F → F → List F → List (F × F) → F × List (F × F)
  add_samples occluded gl gr lpf [] mix = (lpf, mix)
  add_samples occluded gl gr lpf (x ∷ xs) [] = (lpf, [])
  add_samples occluded gl gr lpf (x ∷ xs) ((l, r) ∷ mix) =
      let lpf' = if occluded then fl.add lpf (fl.mul (fl.lit 25 2) (fl.sub x lpf)) else lpf in
      let y = if occluded then lpf' else x in
      let (last, rest) = add_samples occluded gl gr lpf' xs mix in
      (last, (fl.add l (fl.mul y gl), fl.add r (fl.mul y gr)) ∷ rest)

  -- A stream in a turn of the loop: a frame that was decoded is mixed, unless its speaker is muted.
  unfoldable pub mix_frame :
      {D : Type 0}
      → AudioPlayback F D
      → ℕ
      → Frame F
      → List F
      → Stream F D
      → List (F × F)
      → Stream F D × List (F × F)
  unfolding add_samples
  mix_frame p id f pcm s mix =
      let sid = id % 65536 in
      let spk =
        if s.is_bus
        then fl.lit 1 0
        else elim (lookup sid p.spk_vol) [ none ↦ fl.lit 1 0 | some v ↦ v ] in
      let cat = fl.mul (if s.is_bus then p.radio else p.proximity) p.master in
      let pan = clamp f.pan (fl.neg (fl.lit 1 0)) (fl.lit 1 0) in
      let v = fl.mul (fl.mul f.volume cat) spk in
      let (lpf, mix') =
        add_samples f.occluded (fl.mul v (left_gain pan)) (fl.mul v (right_gain pan)) s.lpf pcm
          mix in
      if nat_beq (length pcm) 0 || not s.is_bus && contains sid p.spk_mute
      then (s, mix)
      else (record s { lpf = lpf }, mix')

  unfoldable pub mix_stream :
      {D : Type 0} ⦃od : OpusDecoder F D⦄ ⦃pc : Concealer D⦄
      → AudioPlayback F D
      → ℕ
      → Stream F D
      → List (F × F)
      → Stream F D × List (F × F)
  unfolding next_frame mix_frame
  mix_stream ⦃od⦄ ⦃pc⦄ p id s mix =
      let (s', next) = next_frame s in
      elim s.decoder [
        | none ↦ (s, mix)
        | some d ↦ elim next [
          | none ↦ (record s' { decoder = some (pc.conceal d pb_frame) }, mix)
          | some f ↦
              let (pcm, d') = od.decode_float d f.opus 2880 in
              mix_frame p id f pcm (record s' { decoder = some d' }) mix
        ]
      ]

  unfoldable pub mix_streams :
      {D : Type 0} ⦃od : OpusDecoder F D⦄ ⦃pc : Concealer D⦄
      → AudioPlayback F D
      → Map ℕ (Stream F D)
      → List (F × F)
      → Map ℕ (Stream F D) × List (F × F)
  unfolding mix_stream
  mix_streams p [] mix = ([], mix)
  mix_streams p ((id, s) ∷ ss) mix =
      let (s', mix₁) = mix_stream p id s mix in
      let (rest, mix₂) = mix_streams p ss mix₁ in ((id, s') ∷ rest, mix₂)

  unfoldable pub silence : ℕ → List (F × F)
  silence zero = []
  silence (suc n) = (fl.lit 0 0, fl.lit 0 0) ∷ silence n

  abbrev pub clamp_sample : F → F
  clamp_sample x = clamp x (fl.neg (fl.lit 1 0)) (fl.lit 1 0)

  unfoldable pub clamp_all : List (F × F) → List (F × F)
  clamp_all [] = []
  clamp_all ((l, r) ∷ mix) = (clamp_sample l, clamp_sample r) ∷ clamp_all mix

  -- A turn of the loop in which the device has room for a frame.
  unfoldable pub render :
      {D : Type 0} ⦃od : OpusDecoder F D⦄ ⦃pc : Concealer D⦄
      → AudioPlayback F D
      → AudioPlayback F D × List (F × F)
  unfolding mix_streams silence clamp_all
  render p =
      let (streams, mix) = mix_streams p p.streams (silence pb_frame) in
      (record p { streams = streams }, if p.deafen then silence pb_frame else clamp_all mix)

module _ {F D : Type 0} ⦃fl : FloatOps F⦄ ⦃od : OpusDecoder F D⦄ where
  unfoldable pub push_proximity : ℕ → ℕ → ℕ → F → F → List ℕ → AudioPlayback F D → AudioPlayback F D
  unfolding get push
  push_proximity speaker seq flags volume pan opus p =
      let f : Frame F = record {
        seq = seq;
        opus = opus;
        volume = volume;
        pan = pan;
        occluded = nat_beq (flags / 4 % 2) 1;
      } in
      if ltb max_opus_bytes (length opus)
      then p
      else record p { streams = put speaker (push f (get speaker false p)) p.streams }

  unfoldable pub push_bus : ℕ → ℕ → F → List ℕ → AudioPlayback F D → AudioPlayback F D
  unfolding get push
  push_bus channel seq volume opus p =
      let f : Frame F = record {
        seq = seq;
        opus = opus;
        volume = volume;
        pan = fl.lit 0 0;
        occluded = false;
      } in
      if ltb max_opus_bytes (length opus) then p else record p {
        streams = put (bus_id channel) (push f (get (bus_id channel) true p)) p.streams;
      }

module _ {F D : Type 0} where
  unfoldable pub remove_speaker : ℕ → AudioPlayback F D → AudioPlayback F D
  remove_speaker speaker p = record p { streams = erase speaker p.streams }

  unfoldable pub set_speaker_mute : ℕ → Bool → AudioPlayback F D → AudioPlayback F D
  set_speaker_mute speaker muted p = record p {
    spk_mute = if muted then insert speaker p.spk_mute else remove speaker p.spk_mute;
  }

  unfoldable pub set_speaker_volume : ℕ → F → AudioPlayback F D → AudioPlayback F D
  set_speaker_volume speaker vol p = record p { spk_vol = put speaker vol p.spk_vol }

  unfoldable pub get_speaker_volume : ⦃fl : FloatOps F⦄ → ℕ → AudioPlayback F D → F
  get_speaker_volume ⦃fl⦄ speaker p = elim (lookup speaker p.spk_vol) [
    | none ↦ fl.lit 1 0
    | some v ↦ v
  ]

  -- The speakers with a stream, of `streams`.
  unfoldable pub active_speakers : Map ℕ (Stream F D) → List ℕ
  active_speakers [] = []
  active_speakers ((id, s) ∷ ss) =
      let rest = active_speakers ss in if not s.is_bus && ltb id 65536 then id ∷ rest else rest

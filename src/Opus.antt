-- ===== src/Opus.antt =====
-- core/src/opus_codec.cpp: the wrappers of libopus, which is an interface here. A coder that libopus
-- did not create yields nothing.
use omp_voice.Base.{ℕ, List, [], Option, none, some}

-- libopus: a decoder for a rate and a number of channels, and a call of it, which changes it and
-- returns at most as many samples as it is given room for; no sample stands for an error.
pub record OpusDecoder (F D : Type 0) : Type 0 where
  pub create : ℕ → ℕ → Option D
  pub decode_float : D → List ℕ → ℕ → List F × D

-- The same for an encoder, which has a bitrate, and room for so many bytes.
pub record OpusEncoder (F E : Type 0) : Type 0 where
  pub create : ℕ → ℕ → ℕ → Option E
  pub encode_float : E → List F → ℕ → List ℕ × E

unfoldable pub decode :
    {F D : Type 0} ⦃lib : OpusDecoder F D⦄ → Option D → List ℕ → ℕ → List F × Option D
decode none opus room = ([], none)
decode ⦃lib⦄ (some d) opus room = let (pcm, d') = lib.decode_float d opus room in (pcm, some d')

unfoldable pub encode :
    {F E : Type 0} ⦃lib : OpusEncoder F E⦄ → Option E → List F → ℕ → List ℕ × Option E
encode none pcm room = ([], none)
encode ⦃lib⦄ (some e) pcm room = let (bytes, e') = lib.encode_float e pcm room in (bytes, some e')

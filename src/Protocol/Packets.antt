-- ===== src/Protocol/Packets.antt =====
-- The byte layout of the packed structs of the audio plane of shared/protocol.h, after `type`.
use omp_voice.Base.Codec.{Codec, u8, ◌⊗◌, via}
use omp_voice.Base.Codec.Words.{u16, u32, f32, bytes}
use omp_voice.Base.Float.{FloatOps}
use omp_voice.Base.{ℕ, refl, List}
use omp_voice.Protocol.{
  token_bytes, max_name_len, HandshakeReq, HandshakeAck, AudioUp, ProximityDown, BusDown,
  PlayerNameDown, PingPong,
}

abbrev pub handshake_req_of : ℕ × (ℕ × (List ℕ × (List ℕ))) → HandshakeReq
handshake_req_of p = record {
  ver_major = p.0;
  ver_minor = p.1.0;
  token = p.1.1.0;
  client_pub_key = p.1.1.1;
}

abbrev pub handshake_req_parts : HandshakeReq → ℕ × (ℕ × (List ℕ × (List ℕ)))
handshake_req_parts b = (b.ver_major, (b.ver_minor, (b.token, b.client_pub_key)))

unfoldable pub handshake_req_codec : Codec HandshakeReq
unfolding ◌⊗◌ via u8 u16 u32 bytes
handshake_req_codec =
    via handshake_req_of handshake_req_parts (λ b. Unit {0}) (λ b h. refl)
      (u16 ⊗ u16 ⊗ bytes token_bytes ⊗ bytes 32)

abbrev pub handshake_ack_of :
    {F : Type 0} → ℕ × (List ℕ × (ℕ × (ℕ × (F × (ℕ × (ℕ)))))) → HandshakeAck F
handshake_ack_of p = record {
  player_id = p.0;
  relay_pub_key = p.1.0;
  vad_allowed = p.1.1.0;
  default_mode = p.1.1.1.0;
  max_range = p.1.1.1.1.0;
  opus_bitrate = p.1.1.1.1.1.0;
  max_concurrent_streams = p.1.1.1.1.1.1;
}

abbrev pub handshake_ack_parts :
    {F : Type 0} → HandshakeAck F → ℕ × (List ℕ × (ℕ × (ℕ × (F × (ℕ × (ℕ))))))
handshake_ack_parts b = (
  b.player_id,
  (
    b.relay_pub_key,
    (b.vad_allowed, (b.default_mode, (b.max_range, (b.opus_bitrate, b.max_concurrent_streams)))),
  ),
)

unfoldable pub handshake_ack_codec : {F : Type 0} ⦃fl : FloatOps F⦄ → Codec (HandshakeAck F)
unfolding ◌⊗◌ via u8 u16 u32 f32 bytes
handshake_ack_codec =
    via handshake_ack_of handshake_ack_parts (λ b. Unit {0}) (λ b h. refl)
      (u16 ⊗ bytes 32 ⊗ u8 ⊗ u8 ⊗ f32 ⊗ u16 ⊗ u8)

abbrev pub audio_up_of : ℕ × (ℕ × (ℕ)) → AudioUp
audio_up_of p = record { seq = p.0; flags = p.1.0; length = p.1.1 }

abbrev pub audio_up_parts : AudioUp → ℕ × (ℕ × (ℕ))
audio_up_parts b = (b.seq, (b.flags, b.length))

unfoldable pub audio_up_codec : Codec AudioUp
unfolding ◌⊗◌ via u8 u16 u32 bytes
audio_up_codec = via audio_up_of audio_up_parts (λ b. Unit {0}) (λ b h. refl) (u16 ⊗ u8 ⊗ u16)

abbrev pub proximity_down_of : {F : Type 0} → ℕ × (ℕ × (ℕ × (F × (F × (ℕ))))) → ProximityDown F
proximity_down_of p = record {
  speaker_id = p.0;
  seq = p.1.0;
  flags = p.1.1.0;
  volume = p.1.1.1.0;
  pan = p.1.1.1.1.0;
  length = p.1.1.1.1.1;
}

abbrev pub proximity_down_parts : {F : Type 0} → ProximityDown F → ℕ × (ℕ × (ℕ × (F × (F × (ℕ)))))
proximity_down_parts b = (b.speaker_id, (b.seq, (b.flags, (b.volume, (b.pan, b.length)))))

unfoldable pub proximity_down_codec : {F : Type 0} ⦃fl : FloatOps F⦄ → Codec (ProximityDown F)
unfolding ◌⊗◌ via u8 u16 u32 f32 bytes
proximity_down_codec =
    via proximity_down_of proximity_down_parts (λ b. Unit {0}) (λ b h. refl)
      (u16 ⊗ u16 ⊗ u8 ⊗ f32 ⊗ f32 ⊗ u16)

abbrev pub bus_down_of : {F : Type 0} → ℕ × (ℕ × (ℕ × (F × (ℕ)))) → BusDown F
bus_down_of p = record {
  channel_id = p.0;
  filter = p.1.0;
  seq = p.1.1.0;
  volume = p.1.1.1.0;
  length = p.1.1.1.1;
}

abbrev pub bus_down_parts : {F : Type 0} → BusDown F → ℕ × (ℕ × (ℕ × (F × (ℕ))))
bus_down_parts b = (b.channel_id, (b.filter, (b.seq, (b.volume, b.length))))

unfoldable pub bus_down_codec : {F : Type 0} ⦃fl : FloatOps F⦄ → Codec (BusDown F)
unfolding ◌⊗◌ via u8 u16 u32 f32 bytes
bus_down_codec =
    via bus_down_of bus_down_parts (λ b. Unit {0}) (λ b h. refl) (u16 ⊗ u8 ⊗ u16 ⊗ f32 ⊗ u16)

abbrev pub player_name_down_of : ℕ × (List ℕ) → PlayerNameDown
player_name_down_of p = record { player_id = p.0; name = p.1 }

abbrev pub player_name_down_parts : PlayerNameDown → ℕ × (List ℕ)
player_name_down_parts b = (b.player_id, b.name)

unfoldable pub player_name_down_codec : Codec PlayerNameDown
unfolding ◌⊗◌ via u8 u16 u32 bytes
player_name_down_codec =
    via player_name_down_of player_name_down_parts (λ b. Unit {0}) (λ b h. refl)
      (u16 ⊗ bytes max_name_len)

abbrev pub ping_pong_of : ℕ × (ℕ) → PingPong
ping_pong_of p = record { player_id = p.0; stamp = p.1 }

abbrev pub ping_pong_parts : PingPong → ℕ × (ℕ)
ping_pong_parts b = (b.player_id, b.stamp)

unfoldable pub ping_pong_codec : Codec PingPong
unfolding ◌⊗◌ via u8 u16 u32 bytes
ping_pong_codec = via ping_pong_of ping_pong_parts (λ b. Unit {0}) (λ b h. refl) (u16 ⊗ u32)

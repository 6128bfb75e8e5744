-- ===== src/Protocol/Commands.antt =====
-- The byte layout of the packed structs of the control plane of shared/protocol.h, after `type`.
use omp_voice.Base.Codec.{Codec, u8, ◌⊗◌, via}
use omp_voice.Base.Codec.Words.{u16, u32, f32, bytes}
use omp_voice.Base.Float.{FloatOps}
use omp_voice.Base.{ℕ, refl, List}
use omp_voice.Protocol.{
  token_bytes, max_name_len, CtrlBindToken, CtrlPlayerPos, CtrlPlayerMeta, CtrlChanCreate,
  CtrlChanOp, CtrlTransmit, CtrlMixPolicy, CtrlPairMute, CtrlSpeakerphone, CtrlPlayerName,
  StatusEvent, CtrlConfig,
}

abbrev pub ctrl_bind_token_of : ℕ × (List ℕ × (ℕ × (ℕ))) → CtrlBindToken
ctrl_bind_token_of p = record {
  player_id = p.0;
  token = p.1.0;
  expires_unix = p.1.1.0;
  ip = p.1.1.1;
}

abbrev pub ctrl_bind_token_parts : CtrlBindToken → ℕ × (List ℕ × (ℕ × (ℕ)))
ctrl_bind_token_parts b = (b.player_id, (b.token, (b.expires_unix, b.ip)))

unfoldable pub ctrl_bind_token_codec : Codec CtrlBindToken
unfolding ◌⊗◌ via u8 u16 u32 bytes
ctrl_bind_token_codec =
    via ctrl_bind_token_of ctrl_bind_token_parts (λ b. Unit {0}) (λ b h. refl)
      (u16 ⊗ bytes token_bytes ⊗ u32 ⊗ u32)

abbrev pub ctrl_player_pos_of :
    {F : Type 0} → ℕ × (F × (F × (F × (ℕ × (ℕ × (ℕ)))))) → CtrlPlayerPos F
ctrl_player_pos_of p = record {
  player_id = p.0;
  x = p.1.0;
  y = p.1.1.0;
  z = p.1.1.1.0;
  interior = p.1.1.1.1.0;
  virtual_world = p.1.1.1.1.1.0;
  vehicle_state = p.1.1.1.1.1.1;
}

abbrev pub ctrl_player_pos_parts :
    {F : Type 0} → CtrlPlayerPos F → ℕ × (F × (F × (F × (ℕ × (ℕ × (ℕ))))))
ctrl_player_pos_parts b =
    (b.player_id, (b.x, (b.y, (b.z, (b.interior, (b.virtual_world, b.vehicle_state))))))

unfoldable pub ctrl_player_pos_codec : {F : Type 0} ⦃fl : FloatOps F⦄ → Codec (CtrlPlayerPos F)
unfolding ◌⊗◌ via u8 u16 u32 f32 bytes
ctrl_player_pos_codec =
    via ctrl_player_pos_of ctrl_player_pos_parts (λ b. Unit {0}) (λ b h. refl)
      (u16 ⊗ f32 ⊗ f32 ⊗ f32 ⊗ u16 ⊗ u16 ⊗ u8)

abbrev pub ctrl_player_meta_of : {F : Type 0} → ℕ × (ℕ × (ℕ × (F))) → CtrlPlayerMeta F
ctrl_player_meta_of p = record {
  player_id = p.0;
  flags = p.1.0;
  range_preset = p.1.1.0;
  range_override = p.1.1.1;
}

abbrev pub ctrl_player_meta_parts : {F : Type 0} → CtrlPlayerMeta F → ℕ × (ℕ × (ℕ × (F)))
ctrl_player_meta_parts b = (b.player_id, (b.flags, (b.range_preset, b.range_override)))

unfoldable pub ctrl_player_meta_codec : {F : Type 0} ⦃fl : FloatOps F⦄ → Codec (CtrlPlayerMeta F)
unfolding ◌⊗◌ via u8 u16 u32 f32 bytes
ctrl_player_meta_codec =
    via ctrl_player_meta_of ctrl_player_meta_parts (λ b. Unit {0}) (λ b h. refl)
      (u16 ⊗ u8 ⊗ u8 ⊗ f32)

abbrev pub ctrl_chan_create_of : ℕ × (ℕ × (ℕ × (ℕ))) → CtrlChanCreate
ctrl_chan_create_of p = record {
  channel_id = p.0;
  filter = p.1.0;
  positional = p.1.1.0;
  priority = p.1.1.1;
}

abbrev pub ctrl_chan_create_parts : CtrlChanCreate → ℕ × (ℕ × (ℕ × (ℕ)))
ctrl_chan_create_parts b = (b.channel_id, (b.filter, (b.positional, b.priority)))

unfoldable pub ctrl_chan_create_codec : Codec CtrlChanCreate
unfolding ◌⊗◌ via u8 u16 u32 bytes
ctrl_chan_create_codec =
    via ctrl_chan_create_of ctrl_chan_create_parts (λ b. Unit {0}) (λ b h. refl)
      (u16 ⊗ u8 ⊗ u8 ⊗ u8)

abbrev pub ctrl_chan_op_of : ℕ × (ℕ × (ℕ)) → CtrlChanOp
ctrl_chan_op_of p = record { channel_id = p.0; player_id = p.1.0; arg = p.1.1 }

abbrev pub ctrl_chan_op_parts : CtrlChanOp → ℕ × (ℕ × (ℕ))
ctrl_chan_op_parts b = (b.channel_id, (b.player_id, b.arg))

unfoldable pub ctrl_chan_op_codec : Codec CtrlChanOp
unfolding ◌⊗◌ via u8 u16 u32 bytes
ctrl_chan_op_codec =
    via ctrl_chan_op_of ctrl_chan_op_parts (λ b. Unit {0}) (λ b h. refl) (u16 ⊗ u16 ⊗ u8)

abbrev pub ctrl_transmit_of : ℕ × (ℕ × (ℕ)) → CtrlTransmit
ctrl_transmit_of p = record { player_id = p.0; on = p.1.0; channel_mask = p.1.1 }

abbrev pub ctrl_transmit_parts : CtrlTransmit → ℕ × (ℕ × (ℕ))
ctrl_transmit_parts b = (b.player_id, (b.on, b.channel_mask))

unfoldable pub ctrl_transmit_codec : Codec CtrlTransmit
unfolding ◌⊗◌ via u8 u16 u32 bytes
ctrl_transmit_codec =
    via ctrl_transmit_of ctrl_transmit_parts (λ b. Unit {0}) (λ b h. refl) (u16 ⊗ u8 ⊗ u32)

abbrev pub ctrl_mix_policy_of : {F : Type 0} → ℕ × (ℕ × (F × (F))) → CtrlMixPolicy F
ctrl_mix_policy_of p = record {
  player_id = p.0;
  policy = p.1.0;
  duck_level = p.1.1.0;
  proximity_floor = p.1.1.1;
}

abbrev pub ctrl_mix_policy_parts : {F : Type 0} → CtrlMixPolicy F → ℕ × (ℕ × (F × (F)))
ctrl_mix_policy_parts b = (b.player_id, (b.policy, (b.duck_level, b.proximity_floor)))

unfoldable pub ctrl_mix_policy_codec : {F : Type 0} ⦃fl : FloatOps F⦄ → Codec (CtrlMixPolicy F)
unfolding ◌⊗◌ via u8 u16 u32 f32 bytes
ctrl_mix_policy_codec =
    via ctrl_mix_policy_of ctrl_mix_policy_parts (λ b. Unit {0}) (λ b h. refl)
      (u16 ⊗ u8 ⊗ f32 ⊗ f32)

abbrev pub ctrl_pair_mute_of : ℕ × (ℕ × (ℕ)) → CtrlPairMute
ctrl_pair_mute_of p = record { listener_id = p.0; target_id = p.1.0; on = p.1.1 }

abbrev pub ctrl_pair_mute_parts : CtrlPairMute → ℕ × (ℕ × (ℕ))
ctrl_pair_mute_parts b = (b.listener_id, (b.target_id, b.on))

unfoldable pub ctrl_pair_mute_codec : Codec CtrlPairMute
unfolding ◌⊗◌ via u8 u16 u32 bytes
ctrl_pair_mute_codec =
    via ctrl_pair_mute_of ctrl_pair_mute_parts (λ b. Unit {0}) (λ b h. refl) (u16 ⊗ u16 ⊗ u8)

abbrev pub ctrl_speakerphone_of : ℕ × (ℕ) → CtrlSpeakerphone
ctrl_speakerphone_of p = record { player_id = p.0; on = p.1 }

abbrev pub ctrl_speakerphone_parts : CtrlSpeakerphone → ℕ × (ℕ)
ctrl_speakerphone_parts b = (b.player_id, b.on)

unfoldable pub ctrl_speakerphone_codec : Codec CtrlSpeakerphone
unfolding ◌⊗◌ via u8 u16 u32 bytes
ctrl_speakerphone_codec =
    via ctrl_speakerphone_of ctrl_speakerphone_parts (λ b. Unit {0}) (λ b h. refl) (u16 ⊗ u8)

abbrev pub ctrl_player_name_of : ℕ × (List ℕ) → CtrlPlayerName
ctrl_player_name_of p = record { player_id = p.0; name = p.1 }

abbrev pub ctrl_player_name_parts : CtrlPlayerName → ℕ × (List ℕ)
ctrl_player_name_parts b = (b.player_id, b.name)

unfoldable pub ctrl_player_name_codec : Codec CtrlPlayerName
unfolding ◌⊗◌ via u8 u16 u32 bytes
ctrl_player_name_codec =
    via ctrl_player_name_of ctrl_player_name_parts (λ b. Unit {0}) (λ b h. refl)
      (u16 ⊗ bytes max_name_len)

abbrev pub status_event_of : ℕ × (ℕ × (ℕ × (ℕ))) → StatusEvent
status_event_of p = record { event = p.0; player_id = p.1.0; channel_id = p.1.1.0; flag = p.1.1.1 }

abbrev pub status_event_parts : StatusEvent → ℕ × (ℕ × (ℕ × (ℕ)))
status_event_parts b = (b.event, (b.player_id, (b.channel_id, b.flag)))

unfoldable pub status_event_codec : Codec StatusEvent
unfolding ◌⊗◌ via u8 u16 u32 bytes
status_event_codec =
    via status_event_of status_event_parts (λ b. Unit {0}) (λ b h. refl) (u8 ⊗ u16 ⊗ u16 ⊗ u8)

abbrev pub ctrl_config_of :
    {F : Type 0} → ℕ × (F × (F × (F × (F × (ℕ × (ℕ × (ℕ × (ℕ)))))))) → CtrlConfig F
ctrl_config_of p = record {
  opus_bitrate = p.0;
  prox_whisper = p.1.0;
  prox_normal = p.1.1.0;
  prox_shout = p.1.1.1.0;
  falloff_exp = p.1.1.1.1.0;
  occlusion_enabled = p.1.1.1.1.1.0;
  vad_allowed = p.1.1.1.1.1.1.0;
  default_mode = p.1.1.1.1.1.1.1.0;
  max_concurrent_streams = p.1.1.1.1.1.1.1.1;
}

abbrev pub ctrl_config_parts :
    {F : Type 0} → CtrlConfig F → ℕ × (F × (F × (F × (F × (ℕ × (ℕ × (ℕ × (ℕ))))))))
ctrl_config_parts b = (
  b.opus_bitrate,
  (
    b.prox_whisper,
    (
      b.prox_normal,
      (
        b.prox_shout,
        (
          b.falloff_exp,
          (b.occlusion_enabled, (b.vad_allowed, (b.default_mode, b.max_concurrent_streams))),
        ),
      ),
    ),
  ),
)

unfoldable pub ctrl_config_codec : {F : Type 0} ⦃fl : FloatOps F⦄ → Codec (CtrlConfig F)
unfolding ◌⊗◌ via u8 u16 u32 f32 bytes
ctrl_config_codec =
    via ctrl_config_of ctrl_config_parts (λ b. Unit {0}) (λ b h. refl)
      (u16 ⊗ f32 ⊗ f32 ⊗ f32 ⊗ f32 ⊗ u8 ⊗ u8 ⊗ u8 ⊗ u8)

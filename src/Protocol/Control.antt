-- ===== src/Protocol/Control.antt =====
-- The control plane of shared/protocol.h: a packet is its `PktType` byte and a struct.
use omp_voice.Base.Float.{FloatOps}
use omp_voice.Base.{ℕ, ◌≡◌, List, [], ◌∷◌, ◌++◌, Option, none, some, nat_beq, if◌then◌else◌}
use omp_voice.Protocol.Commands.{
  ctrl_bind_token_codec, ctrl_chan_create_codec, ctrl_chan_op_codec, ctrl_config_codec,
  ctrl_mix_policy_codec, ctrl_pair_mute_codec, ctrl_player_meta_codec, ctrl_player_name_codec,
  ctrl_player_pos_codec, ctrl_speakerphone_codec, ctrl_transmit_codec,
}
use omp_voice.Protocol.{
  CtrlBindToken, CtrlChanCreate, CtrlChanOp, CtrlConfig, CtrlMixPolicy, CtrlPairMute,
  CtrlPlayerMeta, CtrlPlayerName, CtrlPlayerPos, CtrlSpeakerphone, CtrlTransmit,
}

pub data CtrlMsg (F : Type 0) : Type 0 where
  bind_token : CtrlBindToken → CtrlMsg F
  config : CtrlConfig F → CtrlMsg F
  player_pos : CtrlPlayerPos F → CtrlMsg F
  player_meta : CtrlPlayerMeta F → CtrlMsg F
  chan_create : CtrlChanCreate → CtrlMsg F
  chan_destroy : CtrlChanOp → CtrlMsg F
  chan_join : CtrlChanOp → CtrlMsg F
  chan_leave : CtrlChanOp → CtrlMsg F
  chan_filter : CtrlChanOp → CtrlMsg F
  chan_prio : CtrlChanOp → CtrlMsg F
  transmit : CtrlTransmit → CtrlMsg F
  player_gone : CtrlChanOp → CtrlMsg F
  mix_policy : CtrlMixPolicy F → CtrlMsg F
  player_name : CtrlPlayerName → CtrlMsg F
  pair_mute : CtrlPairMute → CtrlMsg F
  speakerphone : CtrlSpeakerphone → CtrlMsg F

-- The `PktType` byte.
abbrev pub tag : {F : Type 0} → CtrlMsg F → ℕ
tag (bind_token p) = 0x80
tag (config p) = 0x81
tag (player_pos p) = 0x82
tag (player_meta p) = 0x83
tag (chan_create p) = 0x84
tag (chan_destroy p) = 0x85
tag (chan_join p) = 0x86
tag (chan_leave p) = 0x87
tag (chan_filter p) = 0x88
tag (chan_prio p) = 0x89
tag (transmit p) = 0x8A
tag (player_gone p) = 0x8B
tag (mix_policy p) = 0x8C
tag (player_name p) = 0x8D
tag (pair_mute p) = 0x8E
tag (speakerphone p) = 0x8F

module _ {F : Type 0} ⦃fl : FloatOps F⦄ where
  -- The bytes that `ControlLink::send` puts on the wire.
  unfoldable pub encode : CtrlMsg F → List ℕ
  encode (bind_token p) = 0x80 ∷ ctrl_bind_token_codec.put p
  encode (config p) = 0x81 ∷ ctrl_config_codec.put p
  encode (player_pos p) = 0x82 ∷ ctrl_player_pos_codec.put p
  encode (player_meta p) = 0x83 ∷ ctrl_player_meta_codec.put p
  encode (chan_create p) = 0x84 ∷ ctrl_chan_create_codec.put p
  encode (chan_destroy p) = 0x85 ∷ ctrl_chan_op_codec.put p
  encode (chan_join p) = 0x86 ∷ ctrl_chan_op_codec.put p
  encode (chan_leave p) = 0x87 ∷ ctrl_chan_op_codec.put p
  encode (chan_filter p) = 0x88 ∷ ctrl_chan_op_codec.put p
  encode (chan_prio p) = 0x89 ∷ ctrl_chan_op_codec.put p
  encode (transmit p) = 0x8A ∷ ctrl_transmit_codec.put p
  encode (player_gone p) = 0x8B ∷ ctrl_chan_op_codec.put p
  encode (mix_policy p) = 0x8C ∷ ctrl_mix_policy_codec.put p
  encode (player_name p) = 0x8D ∷ ctrl_player_name_codec.put p
  encode (pair_mute p) = 0x8E ∷ ctrl_pair_mute_codec.put p
  encode (speakerphone p) = 0x8F ∷ ctrl_speakerphone_codec.put p

  -- What was read, without what is left.
  abbrev pub parsed : {A : Type 0} → (A → CtrlMsg F) → Option (A × List ℕ) → Option (CtrlMsg F)
  parsed f none = none
  parsed f (some (p, rest)) = some (f p)

  -- `(PktType)data[0]`, the test `len < sizeof(...)` and the `memcpy`: `none` where the handler
  -- returns or falls to `default`.
  unfoldable pub decode : List ℕ → Option (CtrlMsg F)
  decode [] = none
  decode (t ∷ bs) =
      if nat_beq t 0x80
      then parsed bind_token (ctrl_bind_token_codec.get bs)
      else if nat_beq t 0x81
      then parsed config (ctrl_config_codec.get bs)
      else if nat_beq t 0x82
      then parsed player_pos (ctrl_player_pos_codec.get bs)
      else if nat_beq t 0x83
      then parsed player_meta (ctrl_player_meta_codec.get bs)
      else if nat_beq t 0x84
      then parsed chan_create (ctrl_chan_create_codec.get bs)
      else if nat_beq t 0x85
      then parsed chan_destroy (ctrl_chan_op_codec.get bs)
      else if nat_beq t 0x86
      then parsed chan_join (ctrl_chan_op_codec.get bs)
      else if nat_beq t 0x87
      then parsed chan_leave (ctrl_chan_op_codec.get bs)
      else if nat_beq t 0x88
      then parsed chan_filter (ctrl_chan_op_codec.get bs)
      else if nat_beq t 0x89
      then parsed chan_prio (ctrl_chan_op_codec.get bs)
      else if nat_beq t 0x8A
      then parsed transmit (ctrl_transmit_codec.get bs)
      else if nat_beq t 0x8B
      then parsed player_gone (ctrl_chan_op_codec.get bs)
      else if nat_beq t 0x8C
      then parsed mix_policy (ctrl_mix_policy_codec.get bs)
      else if nat_beq t 0x8D
      then parsed player_name (ctrl_player_name_codec.get bs)
      else if nat_beq t 0x8E
      then parsed pair_mute (ctrl_pair_mute_codec.get bs)
      else if nat_beq t 0x8F
      then parsed speakerphone (ctrl_speakerphone_codec.get bs)
      else none

  -- The numbers fit their fields, the arrays have their length, and the floats are kept as bits.
  abbrev pub Fits : CtrlMsg F → Type 0
  Fits (bind_token p) = ctrl_bind_token_codec.Fits p
  Fits (config p) = ctrl_config_codec.Fits p
  Fits (player_pos p) = ctrl_player_pos_codec.Fits p
  Fits (player_meta p) = ctrl_player_meta_codec.Fits p
  Fits (chan_create p) = ctrl_chan_create_codec.Fits p
  Fits (chan_destroy p) = ctrl_chan_op_codec.Fits p
  Fits (chan_join p) = ctrl_chan_op_codec.Fits p
  Fits (chan_leave p) = ctrl_chan_op_codec.Fits p
  Fits (chan_filter p) = ctrl_chan_op_codec.Fits p
  Fits (chan_prio p) = ctrl_chan_op_codec.Fits p
  Fits (transmit p) = ctrl_transmit_codec.Fits p
  Fits (player_gone p) = ctrl_chan_op_codec.Fits p
  Fits (mix_policy p) = ctrl_mix_policy_codec.Fits p
  Fits (player_name p) = ctrl_player_name_codec.Fits p
  Fits (pair_mute p) = ctrl_pair_mute_codec.Fits p
  Fits (speakerphone p) = ctrl_speakerphone_codec.Fits p

  -- Every control packet whose fields fit is read back as it was sent, whatever bytes follow it.
  pub decode-encode : (m : CtrlMsg F) (rest : List ℕ) → Fits m → decode (encode m ++ rest) ≡ some m
  unfolding decode encode
  decode-encode (bind_token p) rest h = rw (ctrl_bind_token_codec.get-put p rest h)
  decode-encode (config p) rest h = rw (ctrl_config_codec.get-put p rest h)
  decode-encode (player_pos p) rest h = rw (ctrl_player_pos_codec.get-put p rest h)
  decode-encode (player_meta p) rest h = rw (ctrl_player_meta_codec.get-put p rest h)
  decode-encode (chan_create p) rest h = rw (ctrl_chan_create_codec.get-put p rest h)
  decode-encode (chan_destroy p) rest h = rw (ctrl_chan_op_codec.get-put p rest h)
  decode-encode (chan_join p) rest h = rw (ctrl_chan_op_codec.get-put p rest h)
  decode-encode (chan_leave p) rest h = rw (ctrl_chan_op_codec.get-put p rest h)
  decode-encode (chan_filter p) rest h = rw (ctrl_chan_op_codec.get-put p rest h)
  decode-encode (chan_prio p) rest h = rw (ctrl_chan_op_codec.get-put p rest h)
  decode-encode (transmit p) rest h = rw (ctrl_transmit_codec.get-put p rest h)
  decode-encode (player_gone p) rest h = rw (ctrl_chan_op_codec.get-put p rest h)
  decode-encode (mix_policy p) rest h = rw (ctrl_mix_policy_codec.get-put p rest h)
  decode-encode (player_name p) rest h = rw (ctrl_player_name_codec.get-put p rest h)
  decode-encode (pair_mute p) rest h = rw (ctrl_pair_mute_codec.get-put p rest h)
  decode-encode (speakerphone p) rest h = rw (ctrl_speakerphone_codec.get-put p rest h)

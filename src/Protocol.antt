-- ===== src/Protocol.antt =====
-- shared/protocol.h: the constants, the enums and the packet structs. The leading `type` byte of a
-- struct is not a field here: the codecs of Protocol/Packets write it and look at it. An enum class
-- over `uint8_t` that is cast from a byte can hold any byte: `unknown` stands for the others.
pub mod Packets
pub mod Commands
pub mod Control
use omp_voice.Base.{ℕ, ◌≡◌, refl, List, Bool, nat_beq, arith, if◌then◌else◌}

abbrev pub protocol_version_major : ℕ
protocol_version_major = 2

abbrev pub protocol_version_minor : ℕ
protocol_version_minor = 0

abbrev pub max_players : ℕ
max_players = 1000

abbrev pub invalid_player : ℕ
invalid_player = 0xFFFF

abbrev pub invalid_channel : ℕ
invalid_channel = 0xFFFF

abbrev pub sample_rate : ℕ
sample_rate = 48000

abbrev pub voice_channels : ℕ
voice_channels = 1

abbrev pub frame_ms : ℕ
frame_ms = 20

abbrev pub max_opus_bytes : ℕ
max_opus_bytes = 1276

abbrev pub audio_mtu : ℕ
audio_mtu = 1400

abbrev pub token_bytes : ℕ
token_bytes = 32

abbrev pub max_name_len : ℕ
max_name_len = 24

abbrev pub speakerphone_id_bit : ℕ
speakerphone_id_bit = 0x8000

-- enum class StatusType.
pub data StatusType : Type 0 where
  speaker_start speaker_stop session_timeout radio_key : StatusType

abbrev pub status_byte : StatusType → ℕ
status_byte StatusType.speaker_start = 1
status_byte StatusType.speaker_stop = 2
status_byte StatusType.session_timeout = 3
status_byte StatusType.radio_key = 4

-- enum class Filter.
pub data Filter : Type 0 where
  none radio phone : Filter
  unknown : ℕ → Filter

abbrev pub filter_of : ℕ → Filter
filter_of n =
    if nat_beq n 0
    then Filter.none
    else if nat_beq n 1
    then Filter.radio
    else if nat_beq n 2
    then Filter.phone
    else Filter.unknown n

abbrev pub filter_byte : Filter → ℕ
filter_byte Filter.none = 0
filter_byte Filter.radio = 1
filter_byte Filter.phone = 2
filter_byte (Filter.unknown n) = n

-- enum class MixPolicy.
pub data MixPolicy : Type 0 where
  mix duck exclusive : MixPolicy
  unknown : ℕ → MixPolicy

abbrev pub mix_policy_of : ℕ → MixPolicy
mix_policy_of n =
    if nat_beq n 0
    then MixPolicy.mix
    else if nat_beq n 1
    then MixPolicy.duck
    else if nat_beq n 2
    then MixPolicy.exclusive
    else MixPolicy.unknown n

abbrev pub mix_policy_byte : MixPolicy → ℕ
mix_policy_byte MixPolicy.mix = 0
mix_policy_byte MixPolicy.duck = 1
mix_policy_byte MixPolicy.exclusive = 2
mix_policy_byte (MixPolicy.unknown n) = n

-- enum class RangePreset.
pub data RangePreset : Type 0 where
  whisper normal shout : RangePreset
  unknown : ℕ → RangePreset

abbrev pub range_preset_of : ℕ → RangePreset
range_preset_of n =
    if nat_beq n 0
    then RangePreset.whisper
    else if nat_beq n 1
    then RangePreset.normal
    else if nat_beq n 2
    then RangePreset.shout
    else RangePreset.unknown n

-- enum AudioFlags.
abbrev pub af_occluded : ℕ
af_occluded = 4

abbrev pub af_speakerph : ℕ
af_speakerph = 8

pub record HandshakeReq : Type 0 where
  pub ver_major : ℕ
  pub ver_minor : ℕ
  pub token : List ℕ
  pub client_pub_key : List ℕ

pub record HandshakeAck (F : Type 0) : Type 0 where
  pub player_id : ℕ
  pub relay_pub_key : List ℕ
  pub vad_allowed : ℕ
  pub default_mode : ℕ
  pub max_range : F
  pub opus_bitrate : ℕ
  pub max_concurrent_streams : ℕ

pub record HandshakeNak : Type 0 where
  pub reason : ℕ

pub record AudioUp : Type 0 where
  pub seq : ℕ
  pub flags : ℕ
  pub length : ℕ

pub record ProximityDown (F : Type 0) : Type 0 where
  pub speaker_id : ℕ
  pub seq : ℕ
  pub flags : ℕ
  pub volume : F
  pub pan : F
  pub length : ℕ

pub record BusDown (F : Type 0) : Type 0 where
  pub channel_id : ℕ
  pub filter : ℕ
  pub seq : ℕ
  pub volume : F
  pub length : ℕ

pub record PlayerGone : Type 0 where
  pub speaker_id : ℕ

pub record PlayerNameDown : Type 0 where
  pub player_id : ℕ
  pub name : List ℕ

pub record PingPong : Type 0 where
  pub player_id : ℕ
  pub stamp : ℕ

pub record CtrlBindToken : Type 0 where
  pub player_id : ℕ
  pub token : List ℕ
  pub expires_unix : ℕ
  pub ip : ℕ

pub record CtrlPlayerPos (F : Type 0) : Type 0 where
  pub player_id : ℕ
  pub x : F
  pub y : F
  pub z : F
  pub interior : ℕ
  pub virtual_world : ℕ
  pub vehicle_state : ℕ

pub record CtrlPlayerMeta (F : Type 0) : Type 0 where
  pub player_id : ℕ
  pub flags : ℕ
  pub range_preset : ℕ
  pub range_override : F

pub record CtrlChanCreate : Type 0 where
  pub channel_id : ℕ
  pub filter : ℕ
  pub positional : ℕ
  pub priority : ℕ

pub record CtrlChanOp : Type 0 where
  pub channel_id : ℕ
  pub player_id : ℕ
  pub arg : ℕ

pub record CtrlTransmit : Type 0 where
  pub player_id : ℕ
  pub on : ℕ
  pub channel_mask : ℕ

pub record CtrlMixPolicy (F : Type 0) : Type 0 where
  pub player_id : ℕ
  pub policy : ℕ
  pub duck_level : F
  pub proximity_floor : F

pub record CtrlPairMute : Type 0 where
  pub listener_id : ℕ
  pub target_id : ℕ
  pub on : ℕ

pub record CtrlSpeakerphone : Type 0 where
  pub player_id : ℕ
  pub on : ℕ

pub record CtrlPlayerName : Type 0 where
  pub player_id : ℕ
  pub name : List ℕ

pub record StatusEvent : Type 0 where
  pub event : ℕ
  pub player_id : ℕ
  pub channel_id : ℕ
  pub flag : ℕ

pub record CtrlConfig (F : Type 0) : Type 0 where
  pub opus_bitrate : ℕ
  pub prox_whisper : F
  pub prox_normal : F
  pub prox_shout : F
  pub falloff_exp : F
  pub occlusion_enabled : ℕ
  pub vad_allowed : ℕ
  pub default_mode : ℕ
  pub max_concurrent_streams : ℕ

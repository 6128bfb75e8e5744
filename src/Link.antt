-- ===== src/Link.antt =====
-- core/include/control_link.h and core/src/control_link.cpp: the bridge's side of the control plane. A
-- method writes its own registry and sends a packet; what it sends or delivers is a list, in order. The
-- time and the token that `mintToken` draws are arguments. `Status` is what comes back.
pub mod Call
pub mod Channels
pub mod Arrive
pub mod Mirror
pub mod Status
pub mod Fresh
use omp_voice.Base.Float.{FloatOps}
use omp_voice.Base.{
  ℕ, zero, suc, ◌+◌, ◌%◌, ◌^◌, Bool, true, false, List, [], ◌∷◌, ◌++◌, Option, none, some,
  if◌then◌else◌,
}
use omp_voice.Protocol.{
  Filter, MixPolicy, StatusEvent, CtrlBindToken, CtrlChanOp, invalid_player, invalid_channel,
  filter_byte, mix_policy_byte,
}
use omp_voice.Protocol.Control.{CtrlMsg}
use omp_voice.Registry.{
  Registry, player, create_channel, destroy_channel, join_channel, leave_channel, with_channel,
  remove_from_all_channels, remove_player,
}

pub record ControlLink (F : Type 0) : Type 0 where
  pub valid : Bool
  pub delivers : Bool
  pub reg : Registry F
  pub next : ℕ
  pub status_queue : List StatusEvent

-- A packet to the relay, or a token for a player's client.
pub data Out (F : Type 0) : Type 0 where
  packet : CtrlMsg F → Out F
  token : ℕ → List ℕ → Out F

abbrev pub bool_byte : Bool → ℕ
bool_byte b = if b then 1 else 0

-- `strncpy` of n bytes: the bytes before the terminator, and zeros.
unfoldable pub copy_name : ℕ → List ℕ → List ℕ
copy_name zero cs = []
copy_name (suc n) [] = 0 ∷ copy_name n []
copy_name (suc n) (c ∷ cs) = c ∷ copy_name n cs

-- `p.name`, where `none` is a null pointer.
unfoldable pub name_field : Option (List ℕ) → List ℕ
unfolding copy_name
name_field none = copy_name 24 []
name_field (some cs) = copy_name 23 cs ++ 0 ∷ []

abbrev pub chan_op : ℕ → ℕ → ℕ → CtrlChanOp
chan_op cid pid arg = record { channel_id = cid; player_id = pid; arg = arg }

module _ {F : Type 0} where
  abbrev pub with_reg : (Registry F → Registry F) → ControlLink F → ControlLink F
  with_reg f l = record l { reg = f l.reg }

  -- `ChannelAllocator::alloc`: the id, and `m_next++` on 16 bits.
  unfoldable pub alloc : ControlLink F → ℕ × ControlLink F
  alloc l = (l.next, record l { next = (l.next + 1) % 65536 })

module _ {F : Type 0} ⦃fl : FloatOps F⦄ where
  unfoldable pub send : CtrlMsg F → ControlLink F → List (Out F)
  send m l = if l.valid then packet m ∷ [] else []

  unfoldable pub on_player_connect :
      ℕ → List ℕ → ℕ → ℕ → ℕ → ControlLink F → ControlLink F × List (Out F)
  unfolding send
  on_player_connect now tok pid ip ttl l =
      let bind =
        CtrlMsg.bind_token
          (record { player_id = pid; token = tok; expires_unix = (now + ttl) % 2 ^ 32; ip = ip }) in
      (
        with_reg (player pid (λ p. p)) l,
        send bind l ++ (if l.delivers then token pid tok ∷ [] else []),
      )

  unfoldable pub push_position : ℕ → F → F → F → ℕ → ℕ → ℕ → ControlLink F → List (Out F)
  unfolding send
  push_position pid x y z interior vworld veh = send (
      CtrlMsg.player_pos (record {
        player_id = pid;
        x = x;
        y = y;
        z = z;
        interior = interior;
        virtual_world = vworld;
        vehicle_state = veh;
      }))

  unfoldable pub push_meta : ℕ → ℕ → ℕ → F → ControlLink F → List (Out F)
  unfolding send
  push_meta pid flags preset override = send (
      CtrlMsg.player_meta (record {
        player_id = pid;
        flags = flags;
        range_preset = preset;
        range_override = override;
      }))

  unfoldable pub set_transmit : ℕ → Bool → ℕ → ControlLink F → List (Out F)
  unfolding send
  set_transmit pid on mask =
      send (CtrlMsg.transmit (record { player_id = pid; on = bool_byte on; channel_mask = mask }))

  unfoldable pub set_mix_policy : ℕ → MixPolicy → F → F → ControlLink F → List (Out F)
  unfolding send
  set_mix_policy pid pol duck floor = send (
      CtrlMsg.mix_policy (record {
        player_id = pid;
        policy = mix_policy_byte pol;
        duck_level = duck;
        proximity_floor = floor;
      }))

  unfoldable pub mute_player : ℕ → ℕ → Bool → ControlLink F → List (Out F)
  unfolding send
  mute_player listener target on =
      send (
        CtrlMsg.pair_mute
          (record { listener_id = listener; target_id = target; on = bool_byte on }))

  unfoldable pub set_speakerphone : ℕ → Bool → ControlLink F → List (Out F)
  unfolding send
  set_speakerphone pid on =
      send (CtrlMsg.speakerphone (record { player_id = pid; on = bool_byte on }))

  unfoldable pub push_config :
      ℕ → F → F → F → F → Bool → Bool → ℕ → ℕ → ControlLink F → List (Out F)
  unfolding send
  push_config bitrate whisper normal shout falloff occlusion vad mode streams = send (
      CtrlMsg.config (record {
        opus_bitrate = bitrate;
        prox_whisper = whisper;
        prox_normal = normal;
        prox_shout = shout;
        falloff_exp = falloff;
        occlusion_enabled = bool_byte occlusion;
        vad_allowed = bool_byte vad;
        default_mode = mode;
        max_concurrent_streams = streams;
      }))

  unfoldable pub set_player_name : ℕ → Option (List ℕ) → ControlLink F → List (Out F)
  unfolding send name_field
  set_player_name pid name =
      send (CtrlMsg.player_name (record { player_id = pid; name = name_field name }))

  -- The id of the new channel comes back too.
  unfoldable pub create : Filter → Bool → ℕ → ControlLink F → ℕ × ControlLink F × List (Out F)
  unfolding send alloc
  create f positional prio l =
      let (id, l') = alloc l in
      let made = CtrlMsg.chan_create (record {
        channel_id = id;
        filter = filter_byte f;
        positional = bool_byte positional;
        priority = prio;
      }) in
      (id, with_reg (create_channel id f positional prio) l', send made l)

  unfoldable pub destroy : ℕ → ControlLink F → ControlLink F × List (Out F)
  unfolding send
  destroy cid l = (
    with_reg (destroy_channel cid) l,
    send (CtrlMsg.chan_destroy (chan_op cid invalid_player 0)) l,
  )

  unfoldable pub join : ℕ → ℕ → ControlLink F → ControlLink F × List (Out F)
  unfolding send
  join pid cid l =
      (with_reg (join_channel pid cid) l, send (CtrlMsg.chan_join (chan_op cid pid 0)) l)

  unfoldable pub leave : ℕ → ℕ → ControlLink F → ControlLink F × List (Out F)
  unfolding send
  leave pid cid l =
      (with_reg (leave_channel pid cid) l, send (CtrlMsg.chan_leave (chan_op cid pid 0)) l)

  unfoldable pub set_channel_filter : ℕ → Filter → ControlLink F → ControlLink F × List (Out F)
  unfolding send
  set_channel_filter cid f l = (
    with_reg (with_channel cid (λ c. record c { filter = f })) l,
    send (CtrlMsg.chan_filter (chan_op cid invalid_player (filter_byte f))) l,
  )

  unfoldable pub set_channel_priority : ℕ → ℕ → ControlLink F → ControlLink F × List (Out F)
  unfolding send
  set_channel_priority cid prio l = (
    with_reg (with_channel cid (λ c. record c { priority = prio })) l,
    send (CtrlMsg.chan_prio (chan_op cid invalid_player prio)) l,
  )

  unfoldable pub on_player_disconnect : ℕ → ControlLink F → ControlLink F × List (Out F)
  unfolding send
  on_player_disconnect pid l = (
    with_reg (λ r. remove_player pid (remove_from_all_channels pid r)) l,
    send (CtrlMsg.player_gone (chan_op invalid_channel pid 0)) l,
  )

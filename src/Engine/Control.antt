-- ===== src/Engine/Control.antt =====
-- core/src/engine.cpp, `Engine::onControl`: a packet of the control plane.
use omp_voice.Base.Float.{FloatOps}
use omp_voice.Base.{
  ℕ, ◌/◌, ◌%◌, ◌^◌, ◌++◌, Bool, false, not, ◌&&◌, ◌||◌, List, [], ◌∷◌, none, some, Map, lookup,
  erase, contains, insert, remove, nat_beq, nat_eq, if◌then◌else◌,
}
use omp_voice.Protocol.{
  StatusType, CtrlPlayerPos, CtrlPlayerMeta, CtrlTransmit, CtrlMixPolicy, CtrlConfig, CtrlPairMute,
  CtrlSpeakerphone, filter_of, mix_policy_of, range_preset_of,
}
use omp_voice.Protocol.Control.{CtrlMsg, decode}
use omp_voice.Registry.{
  Player, Channel, Registry, player, create_channel, destroy_channel, join_channel, leave_channel,
  with_channel, remove_player,
}
use omp_voice.Grid.{SpatialGrid, update}
use omp_voice.Grid as SpatialGridOps
use omp_voice.Opus.{OpusDecoder, OpusEncoder}
use omp_voice.Bus.{is_radio}
use omp_voice.Bus.Route.{on_radio_key}
use omp_voice.Bus.Prune.{prune_player, prune_channel}
use omp_voice.Engine.{Engine, Output, status}
use omp_voice.Engine.Audio.{sink_events}

-- byte & (1 << n).
abbrev pub bit : ℕ → ℕ → Bool
bit n byte = nat_beq (byte / 2 ^ n % 2) 1

-- byte != 0.
abbrev pub flag : ℕ → Bool
flag byte = not (nat_beq byte 0)

module _ {F : Type 0} where
  abbrev pub set_pos : CtrlPlayerPos F → Player F → Player F
  set_pos p pl = record pl {
    pos = record { x = p.x; y = p.y; z = p.z };
    interior = p.interior;
    vworld = p.virtual_world;
    vehicle = p.vehicle_state;
  }

  abbrev pub set_transmit : CtrlTransmit → Player F → Player F
  set_transmit t pl = record pl { transmitting = flag t.on; channel_mask = t.channel_mask }

  abbrev pub set_policy : CtrlMixPolicy F → Player F → Player F
  set_policy m pl = record pl {
    policy = mix_policy_of m.policy;
    duck_level = m.duck_level;
    proximity_floor = m.proximity_floor;
  }

  abbrev pub set_mute : CtrlPairMute → Player F → Player F
  set_mute m li = record li {
    muted_targets =
        if flag m.on
        then insert m.target_id li.muted_targets
        else remove m.target_id li.muted_targets;
  }

  abbrev pub set_speakerphone : CtrlSpeakerphone → Player F → Player F
  set_speakerphone m pl = record pl { speakerphone = flag m.on }

  abbrev pub unmute : ℕ → Player F → Player F
  unmute pid pl = record pl { muted_targets = remove pid pl.muted_targets }

  -- for (auto& [pid, pl] : m_reg.players()) pl.mutedTargets.erase(gone).
  unfoldable pub unmute_all : ℕ → Map ℕ (Player F) → Map ℕ (Player F)
  unmute_all gone [] = []
  unmute_all gone ((id, p) ∷ ps) = (id, unmute gone p) ∷ unmute_all gone ps

module _ {F : Type 0} ⦃fl : FloatOps F⦄ where
  -- The override is clamped to the longest range, `m_tune.shout`.
  unfoldable pub clamp_override : F → F → F
  clamp_override shout v =
      if fl.lt (fl.lit 0 0) v then if fl.lt v shout then v else shout else fl.neg (fl.lit 1 0)

  abbrev pub set_meta : F → CtrlPlayerMeta F → Player F → Player F
  set_meta shout m pl = record pl {
    muted = bit 0 m.flags;
    deafen = bit 1 m.flags;
    alive = bit 2 m.flags;
    spectator = bit 3 m.flags;
    range = range_preset_of m.range_preset;
    range_override = clamp_override shout m.range_override;
  }

  -- m_grid.update(pl), where `pl` is the entry of `id`.
  unfoldable pub update_at : ℕ → Registry F → SpatialGrid → SpatialGrid
  update_at id reg grid = elim (lookup id reg.players) [ none ↦ grid | some pl ↦ update pl grid ]

  -- `transmitting` of the entry; a new player's is false.
  abbrev pub was_transmitting : ℕ → Registry F → Bool
  was_transmitting id reg = elim (lookup id reg.players) [
    | none ↦ false
    | some pl ↦ pl.transmitting
  ]

module _ {F D E : Type 0} ⦃fl : FloatOps F⦄ ⦃od : OpusDecoder F D⦄ ⦃oe : OpusEncoder F E⦄ where
  -- The loop over the channels when a push-to-talk key changes: the radio channels of the player.
  unfoldable pub key_channels :
      ℕ → Bool → Map ℕ Channel → Engine F D E → Engine F D E × List (Output F)
  key_channels pid down [] e = (e, [])
  key_channels pid down ((cid, ch) ∷ chs) e =
      let (bus, evs) = on_radio_key e.reg pid cid down e.bus in
      let (e₁, beeps) = sink_events evs (record e { bus = bus }) in
      let keyed = is_radio ch.filter && contains pid ch.members in
      let (e₂, out) = key_channels pid down chs (if keyed then e₁ else e) in
      (
        e₂,
        if keyed
            then status StatusType.radio_key pid cid (if down then 1 else 0) ∷ (beeps ++ out)
            else out,
      )

  unfoldable pub on_transmit : CtrlTransmit → Engine F D E → Engine F D E × List (Output F)
  unfolding key_channels
  on_transmit t e =
      let was = was_transmitting t.player_id e.reg in
      let e' = record e { reg = player t.player_id (set_transmit t) e.reg } in
      let down = flag t.on in
      if was && down || not was && not down
      then (e', [])
      else key_channels t.player_id down e'.reg.channels e'

  unfoldable pub on_player_gone : ℕ → Engine F D E → Engine F D E
  unfolding unmute_all
  on_player_gone pid e =
      let reg = remove_player pid e.reg in
      record e {
        reg = record { players = unmute_all pid reg.players; channels = reg.channels };
        bus = prune_player pid e.bus;
        grid = SpatialGridOps.remove pid e.grid;
        near = erase pid e.near;
        spk_enc = erase pid e.spk_enc;
        spk_seq = erase pid e.spk_seq;
      }

  abbrev pub on_config : CtrlConfig F → Engine F D E → Engine F D E
  on_config c e = record e {
    tune = record e.tune {
      whisper = c.prox_whisper;
      normal = c.prox_normal;
      shout = c.prox_shout;
      falloff_exp = c.falloff_exp;
      occlusion = flag c.occlusion_enabled;
    };
    bus = record e.bus { behavior = record e.bus.behavior { bitrate = c.opus_bitrate } };
    policy = record {
      vad_allowed = c.vad_allowed;
      default_mode = c.default_mode;
      max_streams = c.max_concurrent_streams;
    };
  }

  abbrev pub with_reg : (Registry F → Registry F) → Engine F D E → Engine F D E
  with_reg f e = record e { reg = f e.reg }

  -- The cases of the switch. `CtrlBindToken` and `CtrlPlayerName` are the relay's.
  unfoldable pub handle : CtrlMsg F → Engine F D E → Engine F D E × List (Output F)
  unfolding on_transmit on_player_gone update_at
  handle (CtrlMsg.player_pos p) e =
      let reg = player p.player_id (set_pos p) e.reg in
      (record e { reg = reg; grid = update_at p.player_id reg e.grid }, [])
  handle (CtrlMsg.player_meta m) e = (with_reg (player m.player_id (set_meta e.tune.shout m)) e, [])
  handle (CtrlMsg.chan_create c) e = (
    with_reg (create_channel c.channel_id (filter_of c.filter) (flag c.positional) c.priority) e,
    [],
  )
  handle (CtrlMsg.chan_destroy c) e = (
    record e { reg = destroy_channel c.channel_id e.reg; bus = prune_channel c.channel_id e.bus },
    [],
  )
  handle (CtrlMsg.chan_join c) e = (with_reg (join_channel c.player_id c.channel_id) e, [])
  handle (CtrlMsg.chan_leave c) e = (with_reg (leave_channel c.player_id c.channel_id) e, [])
  handle (CtrlMsg.chan_filter c) e =
      (with_reg (with_channel c.channel_id (λ ch. record ch { filter = filter_of c.arg })) e, [])
  handle (CtrlMsg.chan_prio c) e =
      (with_reg (with_channel c.channel_id (λ ch. record ch { priority = c.arg })) e, [])
  handle (CtrlMsg.transmit t) e = on_transmit t e
  handle (CtrlMsg.mix_policy m) e = (with_reg (player m.player_id (set_policy m)) e, [])
  handle (CtrlMsg.config c) e = (on_config c e, [])
  handle (CtrlMsg.pair_mute m) e = (with_reg (player m.listener_id (set_mute m)) e, [])
  handle (CtrlMsg.speakerphone m) e = (with_reg (player m.player_id (set_speakerphone m)) e, [])
  handle (CtrlMsg.player_gone c) e = (on_player_gone c.player_id e, [])
  handle (CtrlMsg.bind_token b) e = (e, [])
  handle (CtrlMsg.player_name p) e = (e, [])

  unfoldable pub on_control : List ℕ → Engine F D E → Engine F D E × List (Output F)
  unfolding handle
  on_control data_bytes e = elim (decode data_bytes) [ none ↦ (e, []) | some m ↦ handle m e ]

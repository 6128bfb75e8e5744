-- ===== src/Relay/Planes.antt =====
-- relay/src/relay.cpp: `handleEncrypted`, and a round of `audioLoop`, `controlLoop` and `cleanupLoop`
-- under the lock. `now` is `time(nullptr)`, in seconds, and `ms` is the clock of the bus router.
use omp_voice.Base.Float.{FloatOps}
use omp_voice.Base.{
  ℕ, ◌+◌, ◌-◌, List, [], ◌∷◌, ◌++◌, none, some, Map, lookup, put, erase, nat_beq, nat_eq, ltb,
  length, set, take, if◌then◌else◌,
}
use omp_voice.Protocol.{audio_mtu, invalid_channel, StatusType}
use omp_voice.Protocol.Control.{CtrlMsg, decode}
use omp_voice.Protocol.Packets.{audio_up_codec, ping_pong_codec}
use omp_voice.Crypto.{Sodium, KeyPair, open_wire}
use omp_voice.Opus.{OpusDecoder, OpusEncoder}
use omp_voice.Engine.Audio.{on_audio_frame, tick}
use omp_voice.Engine.Control.{on_control}
use omp_voice.Relay.{
  Address, Session, Relay, Sent, pack_address, store_token, live_tokens, with_engine, with_session,
}
use omp_voice.Relay.Send.{Entropy, emit_to_player, announce, emit_status, deliver}
use omp_voice.Relay.Handshake.{handle_handshake}

-- sizeof(plain).
abbrev pub plain_room : ℕ
plain_room = audio_mtu + 64

module _ {F D E : Type 0} where
  unfoldable pub bye : Session → Relay F D E → Relay F D E
  unfolding pack_address
  bye s r = record r {
    addr_index = erase (pack_address s.address) r.addr_index;
    sessions = erase s.player_id r.sessions;
  }

-- The sessions that were silent for more than 15 seconds are dropped: their addresses leave the
-- index. The players are told of in order.
unfoldable pub drop_silent : ℕ → Map ℕ Session → Map ℕ ℕ → Map ℕ Session × Map ℕ ℕ × List ℕ
unfolding pack_address
drop_silent now [] index = ([], index, [])
drop_silent now ((pid, s) ∷ ss) index =
    let silent = ltb 15 (now - s.last_seen) in
    let index' = if silent then erase (pack_address s.address) index else index in
    let (kept, left, gone) = drop_silent now ss index' in
    if silent then (kept, left, pid ∷ gone) else ((pid, s) ∷ kept, left, gone)

module _ {F D E : Type 0} ⦃na : Sodium⦄ ⦃en : Entropy⦄ where
  unfoldable pub pong : Session → List ℕ → Relay F D E → Relay F D E × List Sent
  unfolding emit_to_player
  pong s bytes r = elim (ping_pong_codec.get bytes) [
    | none ↦ (r, [])
    | some (p, rest) ↦ emit_to_player s.player_id (0x1B ∷ ping_pong_codec.put p) r
  ]

  unfoldable pub emit_timeouts : List ℕ → Relay F D E → List Sent
  unfolding emit_status
  emit_timeouts [] r = []
  emit_timeouts (pid ∷ pids) r =
      emit_status StatusType.session_timeout pid invalid_channel 0 r ++ emit_timeouts pids r

module _ {F D E : Type 0} ⦃fl : FloatOps F⦄ ⦃od : OpusDecoder F D⦄ ⦃oe : OpusEncoder F E⦄
    ⦃na : Sodium⦄ ⦃en : Entropy⦄ where
  unfoldable pub audio_up : ℕ → Session → List ℕ → Relay F D E → Relay F D E × List Sent
  unfolding on_audio_frame deliver
  audio_up ms s bytes r = elim (audio_up_codec.get bytes) [
    | none ↦ (r, [])
    | some (a, rest) ↦
        if ltb (length rest) a.length
        then (r, [])
        else let (e, outs) =
            on_audio_frame ms s.player_id a.seq a.flags (take a.length rest) r.engine in
          deliver outs (with_engine e r)
  ]

  -- The switch on the first byte of the plaintext.
  unfoldable pub handle_plain : ℕ → Session → ℕ → List ℕ → Relay F D E → Relay F D E × List Sent
  unfolding audio_up pong bye
  handle_plain ms s t bytes r =
      if nat_beq t 0x10
      then audio_up ms s bytes r
      else if nat_beq t 0x1A
      then pong s bytes r
      else if nat_beq t 0x1F
      then (bye s r, [])
      else (r, [])

  -- `s` is the session of `pid`.
  unfoldable pub handle_encrypted :
      ℕ → ℕ → ℕ → Session → List ℕ → Relay F D E → Relay F D E × List Sent
  unfolding handle_plain
  handle_encrypted now ms pid s wire r =
      let (plain, mark) = open_wire s.keys s.rx_last_seen wire plain_room in
      let marked = record s { rx_last_seen = mark } in
      elim plain [
        | [] ↦ (with_session pid marked r, [])
        | t ∷ bytes ↦
            let seen = record marked { last_seen = now } in
            handle_plain ms seen t bytes (with_session pid seen r)
      ]

  -- A packet on the audio socket. `self` is the key pair that a new session draws.
  unfoldable pub audio_packet :
      ℕ → ℕ → KeyPair → Address → List ℕ → Relay F D E → Relay F D E × List Sent
  unfolding handle_encrypted handle_handshake pack_address
  audio_packet now ms self from wire r = elim (lookup (pack_address from) r.addr_index) [
    | none ↦ handle_handshake now from self wire r
    | some pid ↦ elim (lookup pid r.sessions) [
      | none ↦ handle_handshake now from self wire r
      | some s ↦ handle_encrypted now ms pid s wire r
    ]
  ]

  -- What the relay itself does with a packet on the control socket.
  unfoldable pub own_control : CtrlMsg F → Relay F D E → Relay F D E × List Sent
  unfolding store_token announce
  own_control (CtrlMsg.bind_token b) r = (store_token b r, [])
  own_control (CtrlMsg.player_name p) r =
      let name = set p.name 23 0 in
      announce p.player_id name r.sessions (record r { names = put p.player_id name r.names })
  own_control (CtrlMsg.player_gone o) r = (record r { names = erase o.player_id r.names }, [])
  own_control (CtrlMsg.config c) r = (r, [])
  own_control (CtrlMsg.player_pos c) r = (r, [])
  own_control (CtrlMsg.player_meta c) r = (r, [])
  own_control (CtrlMsg.chan_create c) r = (r, [])
  own_control (CtrlMsg.chan_destroy c) r = (r, [])
  own_control (CtrlMsg.chan_join c) r = (r, [])
  own_control (CtrlMsg.chan_leave c) r = (r, [])
  own_control (CtrlMsg.chan_filter c) r = (r, [])
  own_control (CtrlMsg.chan_prio c) r = (r, [])
  own_control (CtrlMsg.transmit c) r = (r, [])
  own_control (CtrlMsg.mix_policy c) r = (r, [])
  own_control (CtrlMsg.pair_mute c) r = (r, [])
  own_control (CtrlMsg.speakerphone c) r = (r, [])

  unfoldable pub own_packet : List ℕ → Relay F D E → Relay F D E × List Sent
  unfolding own_control
  own_packet packet r = elim (decode packet) [ none ↦ (r, []) | some m ↦ own_control m r ]

  unfoldable pub control_packet : Address → List ℕ → Relay F D E → Relay F D E × List Sent
  unfolding own_packet on_control deliver
  control_packet from packet r =
      let heard = record r { bridge = some from } in
      let (r₁, own) = own_packet packet heard in
      let (e, outs) = on_control packet r₁.engine in
      let (r₂, sent) = deliver outs (with_engine e r₁) in (r₂, own ++ sent)

  -- Every 200 ms.
  unfoldable pub cleanup : ℕ → Relay F D E → Relay F D E × List Sent
  unfolding tick deliver live_tokens drop_silent emit_timeouts
  cleanup now r =
      let (e, outs) = tick r.engine in
      let (r₁, sent) = deliver outs (with_engine e r) in
      let (sessions, index, gone) = drop_silent now r₁.sessions r₁.addr_index in
      let r₂ = record r₁ {
        pending = live_tokens now r₁.pending;
        sessions = sessions;
        addr_index = index;
      } in
      (r₂, sent ++ emit_timeouts gone r₂)

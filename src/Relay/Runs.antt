-- ===== src/Relay/Runs.antt =====
-- relay/src/relay.cpp: the index of addresses under packets of both planes and the cleanup, in any order.
use omp_voice.Base.Float.{FloatOps}
use omp_voice.Base.{
  ℕ, ◌≡◌, refl, List, [], ◌∷◌, some, lookup, nat_beq, nat_eq, ltb, length, take, arith,
  Option-cases, Bool-cases, inl, inr, List-cases, lookup-put, put, set,
}
use omp_voice.Protocol.Packets.{audio_up_codec}
use omp_voice.Protocol.Control.{CtrlMsg, decode}
use omp_voice.Crypto.{Sodium, KeyPair, open_wire}
use omp_voice.Opus.{OpusDecoder, OpusEncoder}
use omp_voice.Engine.Audio.{on_audio_frame, tick}
use omp_voice.Engine.Control.{on_control}
use omp_voice.Relay.{Address, Session, Relay, Sent, pack_address, with_engine, with_session}
use omp_voice.Relay.Send.{Entropy}
use omp_voice.Relay.Planes.{
  plain_room, bye, audio_up, handle_plain, handle_encrypted, audio_packet, own_control, own_packet,
  control_packet, cleanup,
}
use omp_voice.Relay.Keeps.{announce-Keeps, deliver-Keeps}
use omp_voice.Relay.Index.{Keeps-Indexed, put-Indexed, erase-Indexed}
use omp_voice.Relay.Silence.{drop_silent-Indexed}
use omp_voice.Relay.Steps.{IndexRight, handle_handshake-IndexRight, pong-IndexRight}

-- What a relay meets: a packet on the audio socket at a time with the key pair that a session would
-- draw, a packet on the control socket, or the end of 200 ms.
pub data Event : Type 0 where
  heard : ℕ → ℕ → KeyPair → Address → List ℕ → Event
  told : Address → List ℕ → Event
  woken : ℕ → Event

module _ {F D E : Type 0} ⦃fl : FloatOps F⦄ ⦃od : OpusDecoder F D⦄ ⦃oe : OpusEncoder F E⦄
    ⦃na : Sodium⦄ ⦃en : Entropy⦄ where
  unfoldable pub step : Event → Relay F D E → Relay F D E × List Sent
  unfolding audio_packet control_packet cleanup
  step (heard now ms self from wire) r = audio_packet now ms self from wire r
  step (told from packet) r = control_packet from packet r
  step (woken now) r = cleanup now r

  unfoldable pub run : List Event → Relay F D E → Relay F D E
  unfolding step
  run [] r = r
  run (ev ∷ evs) r = run evs (step ev r).0

  audio_up-IndexRight :
      (ms : ℕ) (s : Session) (bytes : List ℕ) (r : Relay F D E)
      → IndexRight r
      → IndexRight (audio_up ms s bytes r).0
  unfolding audio_up
  audio_up-IndexRight ms s bytes r h = elim (Option-cases (audio_up_codec.get bytes)) [
    | inl e ↦ rw (e, audio_up) h
    | inr ((a, rest), e) ↦ elim (Bool-cases (ltb (length rest) a.length)) [
      | inl short ↦ rw (e, audio_up) (rw short h)
      | inr whole ↦
          let out = on_audio_frame ms s.player_id a.seq a.flags (take a.length rest) r.engine in
          rw (e, audio_up)
            (rw whole (Keeps-Indexed _ _ (deliver-Keeps out.1 (with_engine out.0 r)) h))
    ]
  ]

  handle_plain-IndexRight :
      (ms pid t : ℕ) (s : Session) (bytes : List ℕ) (r : Relay F D E)
      → lookup pid r.sessions ≡ some s
      → IndexRight r
      → IndexRight (handle_plain ms s t bytes r).0
  unfolding handle_plain bye
  handle_plain-IndexRight ms pid t s bytes r found h = elim (Bool-cases (nat_beq t 0x10)) [
    | inl up ↦ rw up (audio_up-IndexRight ms s bytes r h)
    | inr e ↦ elim (Bool-cases (nat_beq t 0x1A)) [
      | inl ping ↦ rw (e, ping) (pong-IndexRight s bytes r h)
      | inr f ↦ elim (Bool-cases (nat_beq t 0x1F)) [
        | inl leave ↦
            let own = (h.listed pid s found).1 in
            rw (e, f) (rw leave (rw own (erase-Indexed r.sessions r.addr_index pid s h found)))
        | inr g ↦ rw (e, f) (rw g h)
      ]
    ]
  ]

  handle_encrypted-IndexRight :
      (now ms pid : ℕ) (s : Session) (wire : List ℕ) (r : Relay F D E)
      → lookup pid r.sessions ≡ some s
      → IndexRight r
      → IndexRight (handle_encrypted now ms pid s wire r).0
  unfolding handle_encrypted
  handle_encrypted-IndexRight now ms pid s wire r found h =
      let opened = open_wire s.keys s.rx_last_seen wire plain_room in
      let marked = record s { rx_last_seen = opened.1 } in
      let seen = record marked { last_seen = now } in
      elim (List-cases opened.0) [
        | inl e ↦
            rw (e, handle_encrypted)
              (put-Indexed r.sessions r.addr_index pid s marked h found refl refl)
        | inr (t, bytes, e) ↦
            let there : lookup pid (put pid seen r.sessions) ≡ some seen =
              ground (arith, lookup-put pid pid seen r.sessions) in
            rw (e, handle_encrypted)
              (handle_plain-IndexRight ms pid t seen bytes (with_session pid seen r) there
                (put-Indexed r.sessions r.addr_index pid s seen h found refl refl))
      ]

  audio_packet-IndexRight :
      (now ms : ℕ) (self : KeyPair) (from : Address) (wire : List ℕ) (r : Relay F D E)
      → IndexRight r
      → IndexRight (audio_packet now ms self from wire r).0
  unfolding audio_packet
  audio_packet-IndexRight now ms self from wire r h =
      elim (Option-cases (lookup (pack_address from) r.addr_index)) [
        | inl stranger ↦
            rw (stranger, audio_packet)
              (handle_handshake-IndexRight now from self wire r (λ j e. absurd (ground arith)) h)
        | inr (pid, known) ↦ elim (Option-cases (lookup pid r.sessions)) [
          | inl gone ↦
              rw (known, audio_packet)
                (rw gone (handle_handshake-IndexRight now from self wire r (λ j e. ground arith) h))
          | inr (s, found) ↦
              rw (known, audio_packet)
                (rw found (handle_encrypted-IndexRight now ms pid s wire r found h))
        ]
      ]

  own_control-IndexRight :
      (m : CtrlMsg F) (r : Relay F D E) → IndexRight r → IndexRight (own_control m r).0
  unfolding own_control
  own_control-IndexRight (CtrlMsg.bind_token b) r h = h
  own_control-IndexRight (CtrlMsg.player_name p) r h =
      let name = set p.name 23 0 in
      let named = record r { names = put p.player_id name r.names } in
      Keeps-Indexed _ _ (announce-Keeps p.player_id name r.sessions named) h
  own_control-IndexRight (CtrlMsg.player_gone o) r h = h
  own_control-IndexRight (CtrlMsg.config c) r h = h
  own_control-IndexRight (CtrlMsg.player_pos c) r h = h
  own_control-IndexRight (CtrlMsg.player_meta c) r h = h
  own_control-IndexRight (CtrlMsg.chan_create c) r h = h
  own_control-IndexRight (CtrlMsg.chan_destroy c) r h = h
  own_control-IndexRight (CtrlMsg.chan_join c) r h = h
  own_control-IndexRight (CtrlMsg.chan_leave c) r h = h
  own_control-IndexRight (CtrlMsg.chan_filter c) r h = h
  own_control-IndexRight (CtrlMsg.chan_prio c) r h = h
  own_control-IndexRight (CtrlMsg.transmit c) r h = h
  own_control-IndexRight (CtrlMsg.mix_policy c) r h = h
  own_control-IndexRight (CtrlMsg.pair_mute c) r h = h
  own_control-IndexRight (CtrlMsg.speakerphone c) r h = h

  own_packet-IndexRight :
      (packet : List ℕ) (r : Relay F D E) → IndexRight r → IndexRight (own_packet packet r).0
  unfolding own_packet
  own_packet-IndexRight packet r h = elim (Option-cases (decode ⦃fl = fl⦄ packet)) [
    | inl e ↦ rw (e, own_packet) h
    | inr (m, e) ↦ rw (e, own_packet) (own_control-IndexRight m r h)
  ]

  control_packet-IndexRight :
      (from : Address) (packet : List ℕ) (r : Relay F D E)
      → IndexRight r
      → IndexRight (control_packet from packet r).0
  unfolding control_packet
  control_packet-IndexRight from packet r h =
      let heard = record r { bridge = some from } in
      let own = (own_packet packet heard).0 in
      let out = on_control packet own.engine in
      Keeps-Indexed _ _ (deliver-Keeps out.1 (with_engine out.0 own))
        (own_packet-IndexRight packet heard h)

  cleanup-IndexRight : (now : ℕ) (r : Relay F D E) → IndexRight r → IndexRight (cleanup now r).0
  unfolding cleanup
  cleanup-IndexRight now r h =
      drop_silent-Indexed now _ _
        (Keeps-Indexed _ _ (deliver-Keeps (tick r.engine).1 (with_engine (tick r.engine).0 r)) h)

  step-IndexRight : (ev : Event) (r : Relay F D E) → IndexRight r → IndexRight (step ev r).0
  unfolding step
  step-IndexRight (heard now ms self from wire) r h =
      audio_packet-IndexRight now ms self from wire r h
  step-IndexRight (told from packet) r h = control_packet-IndexRight from packet r h
  step-IndexRight (woken now) r h = cleanup-IndexRight now r h

  -- Whatever packets arrive on the two sockets, from wherever, and whenever the cleanup runs, the
  -- address of each session leads to that session, if it did at the start, as in a relay without
  -- sessions.
  pub run-IndexRight : (evs : List Event) (r : Relay F D E) → IndexRight r → IndexRight (run evs r)
  unfolding run
  run-IndexRight [] r h = h
  run-IndexRight (ev ∷ evs) r h = run-IndexRight evs (step ev r).0 (step-IndexRight ev r h)

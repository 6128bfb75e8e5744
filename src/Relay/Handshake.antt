-- ===== src/Relay/Handshake.antt =====
-- relay/src/relay.cpp, `handleHandshake`. The fresh key pair of a session is an argument, and so is the
-- time.
use omp_voice.Base.Float.{FloatOps}
use omp_voice.Base.{
  ℕ, ◌%◌, Bool, not, ◌&&◌, false, List, [], ◌∷◌, none, some, put, nat_beq, nat_eq, leb, length,
  if◌then◌else◌,
}
use omp_voice.Protocol.{HandshakeReq, HandshakeAck, protocol_version_major}
use omp_voice.Protocol.Packets.{handshake_req_codec, handshake_ack_codec}
use omp_voice.Crypto.{Sodium, KeyPair, derive_session}
use omp_voice.Engine.{Engine}
use omp_voice.Relay.{
  Address, PendingToken, Relay, Sent, audio, pack_address, find_token, erase_token,
}
use omp_voice.Relay.Send.{Entropy, send_roster}

-- The secondary check: a token may be bound to an address, and loopback is exempt.
unfoldable pub is_foreign : Bool → Address → PendingToken → Bool
is_foreign check from p =
    check
    && not (nat_beq p.expected_ip 0)
    && not (nat_beq (from.s_addr % 256) 127)
    && not (nat_beq from.s_addr p.expected_ip)

-- A `HandshakeNak` with its reason.
unfoldable pub nak : Address → ℕ → List Sent
nak to reason = audio to (3 ∷ (reason % 256) ∷ []) ∷ []

-- The limits in an answer are the engine's.
unfoldable pub ack_of : {F D E : Type 0} → ℕ → List ℕ → Engine F D E → HandshakeAck F
ack_of pid key e = record {
  player_id = pid;
  relay_pub_key = key;
  vad_allowed = e.policy.vad_allowed;
  default_mode = e.policy.default_mode;
  max_range = e.tune.shout;
  opus_bitrate = e.bus.behavior.bitrate % 65536;
  max_concurrent_streams = e.policy.max_streams;
}

module _ {F D E : Type 0} ⦃fl : FloatOps F⦄ ⦃na : Sodium⦄ ⦃en : Entropy⦄ where
  -- The session of a token that has been taken, the answer, and the names of the others.
  unfoldable pub establish :
      ℕ → Address → ℕ → KeyPair → List ℕ → Relay F D E → Relay F D E × List Sent
  unfolding ack_of pack_address nak send_roster
  establish now from pid self client_key r = elim (derive_session self client_key false) [
    | none ↦ (r, nak from 0)
    | some keys ↦
        let (r', names) = send_roster pid r.names (record r {
          addr_index = put (pack_address from) pid r.addr_index;
          sessions =
              put pid
                (record {
                  player_id = pid;
                  address = from;
                  keys = keys;
                  self = self;
                  tx_counter = 1;
                  rx_last_seen = 0;
                  last_seen = now;
                })
                r.sessions;
        }) in
        (r', audio from (2 ∷ handshake_ack_codec.put (ack_of pid self.pk r.engine)) ∷ names)
  ]

  unfoldable pub handshake_req :
      ℕ → Address → KeyPair → HandshakeReq → Relay F D E → Relay F D E × List Sent
  unfolding establish find_token erase_token is_foreign nak
  handshake_req now from self req r =
      if not (nat_beq req.ver_major protocol_version_major)
      then (r, nak from 2)
      else if leb r.max_players (length r.sessions)
      then (r, nak from 3)
      else elim (find_token now req.token r.pending) [
        | none ↦ (r, nak from 0)
        | some p ↦
            if is_foreign r.ip_secondary_check from p
            then (r, nak from 0)
            else establish now from p.player_id self req.client_pub_key
                (record r { pending = erase_token now req.token r.pending })
      ]

  unfoldable pub handle_handshake :
      ℕ → Address → KeyPair → List ℕ → Relay F D E → Relay F D E × List Sent
  unfolding handshake_req
  handle_handshake now from self [] r = (r, [])
  handle_handshake now from self (t ∷ bytes) r = elim (handshake_req_codec.get bytes) [
    | none ↦ (r, [])
    | some (req, rest) ↦ if nat_beq t 1 then handshake_req now from self req r else (r, [])
  ]

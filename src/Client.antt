-- ===== src/Client.antt =====
-- client/include/net_session.h and client/src/net_session.cpp: the client's token inbox and its session
-- with the relay. What `recvLoop` hands to the playback hooks and what is sent are lists, in order. The
-- clock, the key pair and the nonces are arguments.
pub mod Recv
pub mod Downlink
pub mod Agreement
pub mod Loop
use omp_voice.Base.Float.{FloatOps}
use omp_voice.Base.Codec.Words.{u16}
use omp_voice.Base.{
  ℕ, ◌+◌, ◌-◌, ◌%◌, ◌^◌, Bool, true, false, not, ◌&&◌, ◌||◌, List, [], ◌∷◌, ◌++◌, Option, none,
  some, nat_beq, ltb, length, take, drop, if◌then◌else◌,
}
use omp_voice.Protocol.{
  HandshakeReq, ProximityDown, BusDown, protocol_version_major, protocol_version_minor,
  invalid_player, audio_mtu, max_opus_bytes,
}
use omp_voice.Protocol.Packets.{handshake_req_codec, audio_up_codec, ping_pong_codec}
use omp_voice.Crypto.{Sodium, SessionKeys, KeyPair, seal}
use omp_voice.Relay.Send.{Entropy}

-- TokenInbox.
pub record Inbox : Type 0 where
  pub have : Bool
  pub tok : List ℕ
  pub pid : ℕ

pub record EffectiveLimits (F : Type 0) : Type 0 where
  pub player_id : ℕ
  pub vad_allowed : Bool
  pub default_mode : ℕ
  pub max_range : F
  pub opus_bitrate : ℕ
  pub max_streams : ℕ

pub record ClientSession (F : Type 0) : Type 0 where
  pub self : KeyPair
  pub keys : SessionKeys
  pub tx : ℕ
  pub rx_last_seen : ℕ
  pub limits : EffectiveLimits F
  pub established : Bool
  pub nak : Bool
  pub last_ping : ℕ
  pub last_rx : ℕ

-- A packet of the token port: 'T', 'K', the player and the token.
unfoldable pub inbox_packet : List ℕ → Inbox → Inbox
inbox_packet [] i = i
inbox_packet (a ∷ []) i = i
inbox_packet (a ∷ b ∷ bytes) i =
    if ltb (length bytes) 34 || not (nat_beq a 84 && nat_beq b 75)
    then i
    else elim (u16.get bytes) [
      | none ↦ i
      | some (pid, rest) ↦ record { have = true; tok = take 32 rest; pid = pid }
    ]

unfoldable pub latest : Inbox → Option (List ℕ × ℕ)
latest i = if i.have then some (i.tok, i.pid) else none

-- sizeof(wire).
abbrev pub wire_room : ℕ
wire_room = audio_mtu + 128

module _ {F : Type 0} where
  -- `connect` up to its wait: the session it waits on, and the `HandshakeReq` that it sends.
  unfoldable pub begin_connect :
      KeyPair → List ℕ → ClientSession F → ClientSession F × List (List ℕ)
  begin_connect self token s = (
    record s { self = self; tx = 1; established = false; nak = false },
    (1
          ∷ handshake_req_codec.put (record {
            ver_major = protocol_version_major;
            ver_minor = protocol_version_minor;
            token = token;
            client_pub_key = self.pk;
          }))
        ∷ [],
  )

  module _ ⦃na : Sodium⦄ ⦃en : Entropy⦄ where
    unfoldable pub send_sealed : List ℕ → ClientSession F → ClientSession F × List (List ℕ)
    send_sealed plain s =
        let wire = seal s.keys s.tx (en.nonce_head s.keys s.tx) plain wire_room in
        if not s.established then (s, []) else (
          record s { tx = (s.tx + 1) % 2 ^ 64 },
          if nat_beq (length wire) 0 then [] else wire ∷ [],
        )

    unfoldable pub send_audio : ℕ → ℕ → List ℕ → ClientSession F → ClientSession F × List (List ℕ)
    unfolding send_sealed
    send_audio seq flags opus s =
        if not s.established || ltb max_opus_bytes (length opus)
        then (s, [])
        else send_sealed
            (0x10
              ∷ (audio_up_codec.put (record { seq = seq; flags = flags; length = length opus })
                  ++ opus))
            s

    unfoldable pub disconnect : ℕ → ClientSession F → ClientSession F × List (List ℕ)
    unfolding send_sealed
    disconnect now s =
        let (s', out) =
          send_sealed
            (0x1F ∷ ping_pong_codec.put (record { player_id = s.limits.player_id; stamp = now }))
            s in
        (record s' { established = false }, out)

    -- Differences of times are on 32 bits.
    unfoldable pub tick : ℕ → ClientSession F → ClientSession F × List (List ℕ)
    unfolding send_sealed
    tick t s =
        let due = ltb 3000 ((t + (2 ^ 32 - s.last_ping)) % 2 ^ 32) in
        let silent = not (nat_beq s.last_rx 0) && ltb 8000 ((t + (2 ^ 32 - s.last_rx)) % 2 ^ 32) in
        let (s', out) =
          (if due
            then send_sealed
                (0x1A ∷ ping_pong_codec.put (record { player_id = s.limits.player_id; stamp = t }))
                (record s { last_ping = t })
            else (s, [])) in
        if not s.established then (s, []) else (record s' { established = not silent }, out)

-- ===== src/Client/Recv.antt =====
-- client/src/net_session.cpp: a packet in `recvLoop`.
use omp_voice.Base.Float.{FloatOps}
use omp_voice.Base.{
  ℕ, ◌+◌, true, not, ◌&&◌, List, [], ◌∷◌, Option, none, some, nat_beq, ltb, length, set, take,
  if◌then◌else◌,
}
use omp_voice.Base.Codec.Words.{u16}
use omp_voice.Protocol.{HandshakeAck, ProximityDown, BusDown, PlayerNameDown, audio_mtu}
use omp_voice.Protocol.Packets.{
  handshake_ack_codec, proximity_down_codec, bus_down_codec, player_name_down_codec,
}
use omp_voice.Crypto.{Sodium, derive_session, open_wire}
use omp_voice.Client.{ClientSession, EffectiveLimits}

-- A call of one of `PlaybackHooks`.
pub data Hook (F : Type 0) : Type 0 where
  on_proximity : ProximityDown F → List ℕ → Hook F
  on_bus : BusDown F → List ℕ → Hook F
  on_gone : ℕ → Hook F
  on_name : ℕ → List ℕ → Hook F

-- sizeof(plain).
abbrev pub plain_room : ℕ
plain_room = audio_mtu + 64

abbrev pub limits_of : {F : Type 0} → HandshakeAck F → EffectiveLimits F
limits_of a = record {
  player_id = a.player_id;
  vad_allowed = not (nat_beq a.vad_allowed 0);
  default_mode = a.default_mode;
  max_range = a.max_range;
  opus_bitrate = a.opus_bitrate;
  max_streams = a.max_concurrent_streams;
}

module _ {F : Type 0} ⦃fl : FloatOps F⦄ where
  -- The Opus bytes behind a header, if they are all there.
  abbrev pub behind :
      {H : Type 0} → (H → ℕ) → (H → List ℕ → Hook F) → Option (H × List ℕ) → List (Hook F)
  behind size hook none = []
  behind size hook (some (h, rest)) =
      if ltb (length rest) (size h) then [] else hook h (take (size h) rest) ∷ []

  abbrev pub gone_hook : Option (ℕ × List ℕ) → List (Hook F)
  gone_hook none = []
  gone_hook (some (who, rest)) = on_gone who ∷ []

  abbrev pub name_hook : Option (PlayerNameDown × List ℕ) → List (Hook F)
  name_hook none = []
  name_hook (some (n, rest)) = on_name n.player_id (set n.name 23 0) ∷ []

  -- The switch on the first byte of the plaintext.
  unfoldable pub hooks_of : List ℕ → List (Hook F)
  hooks_of [] = []
  hooks_of (t ∷ bytes) =
      if nat_beq t 0x11
      then behind (λ h. h.length) on_proximity (proximity_down_codec.get bytes)
      else if nat_beq t 0x12
      then behind (λ h. h.length) on_bus (bus_down_codec.get bytes)
      else if nat_beq t 0x13
      then gone_hook (u16.get bytes)
      else if nat_beq t 0x14
      then name_hook (player_name_down_codec.get bytes)
      else []

  module _ ⦃na : Sodium⦄ where
    -- The answer to a handshake.
    unfoldable pub take_ack : HandshakeAck F → ClientSession F → ClientSession F
    take_ack a s = elim (derive_session s.self a.relay_pub_key true) [
      | none ↦ s
      | some keys ↦ record s {
        keys = keys;
        limits = limits_of a;
        rx_last_seen = 0;
        established = true;
      }
    ]

    unfoldable pub recv_answer : List ℕ → ClientSession F → ClientSession F
    unfolding take_ack
    recv_answer [] s = s
    recv_answer (t ∷ bytes) s =
        if nat_beq t 3 && not (nat_beq (length bytes) 0)
        then record s { nak = true }
        else elim ((handshake_ack_codec {F = F}).get bytes) [
          | none ↦ s
          | some (a, rest) ↦ if nat_beq t 2 then take_ack a s else s
        ]

    unfoldable pub recv : ℕ → List ℕ → ClientSession F → ClientSession F × List (Hook F)
    unfolding recv_answer hooks_of
    recv now wire s =
        let heard = record s { last_rx = now } in
        let (plain, mark) = open_wire s.keys s.rx_last_seen wire plain_room in
        if nat_beq (length wire) 0
        then (s, [])
        else if not s.established
        then (recv_answer wire heard, [])
        else (record heard { rx_last_seen = mark }, hooks_of plain)

-- ===== src/Relay/Send.antt =====
-- relay/src/relay.cpp: `emitToPlayer`, `emitStatus`, `sendName`, and what the engine hands to them. The
-- engine does not look at what was sent, so a call's outputs are sent when it has returned.
use omp_voice.Base.Float.{FloatOps}
use omp_voice.Base.{
  ℕ, ◌+◌, ◌%◌, ◌^◌, List, [], ◌∷◌, ◌++◌, none, some, Map, lookup, nat_beq, nat_eq, length, ◌≡◌,
  if◌then◌else◌,
}
use omp_voice.Protocol.{audio_mtu, StatusType, status_byte}
use omp_voice.Protocol.Commands.{status_event_codec}
use omp_voice.Protocol.Packets.{proximity_down_codec, bus_down_codec, player_name_down_codec}
use omp_voice.Crypto.{Sodium, SessionKeys, seal}
use omp_voice.Engine.{Output, proximity_down, bus_down, status}
use omp_voice.Relay.{Relay, Session, Sent, audio, control, with_session}

-- randombytes_buf(wire, 16): the bytes drawn for the packet of a counter, under keys.
pub record Entropy : Type 0 where
  pub nonce_head : SessionKeys → ℕ → List ℕ
  pub length-nonce_head : (keys : SessionKeys) (c : ℕ) → length (nonce_head keys c) ≡ 16

-- sizeof(wire).
abbrev pub wire_room : ℕ
wire_room = audio_mtu + 128

-- s.txCounter++.
abbrev pub count_up : Session → Session
count_up s = record s { tx_counter = (s.tx_counter + 1) % 2 ^ 64 }

module _ {F D E : Type 0} ⦃na : Sodium⦄ ⦃en : Entropy⦄ where
  unfoldable pub emit_to_player : ℕ → List ℕ → Relay F D E → Relay F D E × List Sent
  emit_to_player pid payload r = elim (lookup pid r.sessions) [
    | none ↦ (r, [])
    | some s ↦
        let wire = seal s.keys s.tx_counter (en.nonce_head s.keys s.tx_counter) payload wire_room in
        (
          with_session pid (count_up s) r,
          if nat_beq (length wire) 0 then [] else audio s.address wire ∷ [],
        )
  ]

  -- `name` is an array of MAX_NAME_LEN.
  unfoldable pub send_name : ℕ → ℕ → List ℕ → Relay F D E → Relay F D E × List Sent
  unfolding emit_to_player
  send_name to who name r =
      emit_to_player to
        (0x14 ∷ player_name_down_codec.put (record { player_id = who; name = name })) r

  -- for (auto& kv : m_sessions) sendName(kv.first, id, name).
  unfoldable pub announce : ℕ → List ℕ → Map ℕ Session → Relay F D E → Relay F D E × List Sent
  unfolding send_name
  announce who name [] r = (r, [])
  announce who name ((to, s) ∷ ss) r =
      let (r₁, out) = send_name to who name r in
      let (r₂, outs) = announce who name ss r₁ in (r₂, out ++ outs)

  -- for (auto& kv : m_names) sendName(pid, kv.first, kv.second.data()).
  unfoldable pub send_roster : ℕ → Map ℕ (List ℕ) → Relay F D E → Relay F D E × List Sent
  unfolding send_name
  send_roster to [] r = (r, [])
  send_roster to ((who, name) ∷ ns) r =
      let (r₁, out) = send_name to who name r in
      let (r₂, outs) = send_roster to ns r₁ in (r₂, out ++ outs)

  unfoldable pub emit_status : StatusType → ℕ → ℕ → ℕ → Relay F D E → List Sent
  emit_status ev pid cid f r = elim r.bridge [
    | none ↦ []
    | some to ↦
        control to (
          0x90
          ∷ status_event_codec.put
              (record { event = status_byte ev; player_id = pid; channel_id = cid; flag = f }))
        ∷ []
  ]

  -- A call of one of the engine's two sinks.
  unfoldable pub deliver_one : ⦃fl : FloatOps F⦄ → Output F → Relay F D E → Relay F D E × List Sent
  unfolding emit_to_player emit_status
  deliver_one (proximity_down to hdr opus) r =
      emit_to_player to (0x11 ∷ proximity_down_codec.put hdr ++ opus) r
  deliver_one (bus_down to hdr opus) r = emit_to_player to (0x12 ∷ bus_down_codec.put hdr ++ opus) r
  deliver_one (status ev pid cid f) r = (r, emit_status ev pid cid f r)

  unfoldable pub deliver :
      ⦃fl : FloatOps F⦄ → List (Output F) → Relay F D E → Relay F D E × List Sent
  unfolding deliver_one
  deliver [] r = (r, [])
  deliver (o ∷ os) r =
      let (r₁, out) = deliver_one o r in let (r₂, outs) = deliver os r₁ in (r₂, out ++ outs)

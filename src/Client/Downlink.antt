-- ===== src/Client/Downlink.antt =====
-- relay/src/relay.cpp and client/src/net_session.cpp: the way of a packet from the relay's sinks to the
-- hooks of the client.
use omp_voice.Base.Float.{FloatOps}
use omp_voice.Base.{
  ℕ, ◌+◌, ◌^◌, ◌≤◌, ◌<◌, ◌≡◌, refl, ◌∙◌, true, false, List, [], ◌∷◌, ◌++◌, some, lookup, nat_eq,
  nat_beq, ltb, length, length-append, take, arith,
}
use omp_voice.Protocol.{ProximityDown, BusDown}
use omp_voice.Protocol.Packets.{proximity_down_codec, bus_down_codec}
use omp_voice.Crypto.{Sodium, IsAead, SessionKeys, overhead, counter_bytes, seal, open_wire}
use omp_voice.Crypto.Channel.{seal_lem, open_wire-seal}
use omp_voice.Engine.{proximity_down, bus_down}
use omp_voice.Relay.{Session, Relay, audio}
use omp_voice.Relay.Send.{Entropy, wire_room, emit_to_player, deliver_one}
use omp_voice.Relay.Voice.{take-length}
use omp_voice.Client.{ClientSession}
use omp_voice.Client.Recv.{on_proximity, on_bus, plain_room, hooks_of, recv}

-- The relay's session and the client's speak with the same key, the relay's counter is ahead of the
-- client's mark, and the client is up.
pub record Linked {F : Type 0} (s : Session) (c : ClientSession F) : Type 0 where
  pub key : s.keys.tx ≡ c.keys.rx
  pub ahead : c.rx_last_seen < s.tx_counter
  pub below : s.tx_counter < 256 ^ 8
  pub up : c.established ≡ true

-- A payload that fits both buffers.
abbrev pub FitsRooms : List ℕ → Type 0
FitsRooms payload = (length payload + overhead ≤ wire_room) × (length payload ≤ plain_room)

seal-nonempty :
    ⦃na : Sodium⦄
    → (law : IsAead na) (keys : SessionKeys) (c room : ℕ) (head plain : List ℕ)
    → length plain + overhead ≤ room
    → nat_beq (length (seal keys c head plain room)) 0 ≡ false
seal-nonempty ⦃na⦄ law keys c room head plain fits =
    let nonce = head ++ counter_bytes 8 c in
    let (cipher, sealed) = law.encrypt_total nonce keys.tx plain in
    let size = law.length-encrypt nonce keys.tx plain cipher sealed in
    let long = length-append nonce cipher in
    rw (seal_lem keys c room head plain cipher fits sealed) (ground arith)

module _ {F : Type 0} ⦃fl : FloatOps F⦄ ⦃na : Sodium⦄ where
  pub recv_lem :
      (now mark : ℕ) (wire plain : List ℕ) (c : ClientSession F)
      → nat_beq (length wire) 0 ≡ false
      → c.established ≡ true
      → open_wire c.keys c.rx_last_seen wire plain_room ≡ (plain, mark)
      → (recv now wire c).1 ≡ hooks_of plain
  unfolding recv
  recv_lem now mark wire plain c some_bytes up opened = rw (some_bytes, recv) (rw (opened, up) refl)

module _ {F : Type 0} ⦃fl : FloatOps F⦄ where
  hooks_of-proximity :
      (hdr : ProximityDown F) (opus : List ℕ)
      → (proximity_down_codec {F = F}).Fits hdr
      → hdr.length ≡ length opus
      → hooks_of (0x11 ∷ (proximity_down_codec {F = F}).put hdr ++ opus)
        ≡ on_proximity hdr opus ∷ []
  unfolding hooks_of
  hooks_of-proximity hdr opus fits long =
      let whole : take hdr.length opus ≡ opus = rw long (take-length opus) in
      let there : ltb (length opus) hdr.length ≡ false = ground arith in
      rw ((proximity_down_codec {F = F}).get-put hdr opus fits, hooks_of) (rw there (rw whole refl))

  hooks_of-bus :
      (hdr : BusDown F) (opus : List ℕ)
      → (bus_down_codec {F = F}).Fits hdr
      → hdr.length ≡ length opus
      → hooks_of (0x12 ∷ (bus_down_codec {F = F}).put hdr ++ opus) ≡ on_bus hdr opus ∷ []
  unfolding hooks_of
  hooks_of-bus hdr opus fits long =
      let whole : take hdr.length opus ≡ opus = rw long (take-length opus) in
      let there : ltb (length opus) hdr.length ≡ false = ground arith in
      rw ((bus_down_codec {F = F}).get-put hdr opus fits, hooks_of) (rw there (rw whole refl))

module _ {F D E : Type 0} ⦃fl : FloatOps F⦄ ⦃na : Sodium⦄ ⦃en : Entropy⦄ where
  -- A payload that is sent to a session is what its client opens.
  emit_to_player-recv :
      (law : IsAead na) (now to : ℕ) (payload : List ℕ) (s : Session) (c : ClientSession F)
      (r : Relay F D E)
      → lookup to r.sessions ≡ some s
      → Linked s c
      → FitsRooms payload
      → (wire : List ℕ) × ((emit_to_player to payload r).1 ≡ audio s.address wire ∷ [])
        × ((recv now wire c).1 ≡ hooks_of payload)
  unfolding emit_to_player
  emit_to_player-recv law now to payload s c r found link fits =
      let head = en.nonce_head s.keys s.tx_counter in
      let wire = seal s.keys s.tx_counter head payload wire_room in
      let full = seal-nonempty law s.keys s.tx_counter wire_room head payload fits.0 in
      let opened =
        open_wire-seal law s.keys c.keys s.tx_counter c.rx_last_seen wire_room plain_room head
          payload link.key (en.length-nonce_head s.keys s.tx_counter) link.ahead link.below fits.0
          fits.1 in
      (
        wire,
        rw (found, emit_to_player) (rw full refl),
        recv_lem now s.tx_counter wire payload c full link.up opened,
      )

  -- What the engine hands to the relay for a player who has a session, a `ProximityDown` whose header
  -- fits and counts its Opus bytes and that fits the buffers, goes out as one packet to the player's
  -- address; the player's client, linked with the session, calls its hook once, with that header
  -- and those bytes.
  pub deliver_one-on_proximity :
      (law : IsAead na) (now to : ℕ) (hdr : ProximityDown F) (opus : List ℕ) (s : Session)
      (c : ClientSession F) (r : Relay F D E)
      → lookup to r.sessions ≡ some s
      → Linked s c
      → FitsRooms (0x11 ∷ (proximity_down_codec {F = F}).put hdr ++ opus)
      → (proximity_down_codec {F = F}).Fits hdr
      → hdr.length ≡ length opus
      → (wire : List ℕ) × ((deliver_one (proximity_down to hdr opus) r).1
          ≡ audio s.address wire ∷ [])
        × ((recv now wire c).1 ≡ on_proximity hdr opus ∷ [])
  unfolding deliver_one
  deliver_one-on_proximity law now to hdr opus s c r found link rooms fits long =
      let (wire, sent, heard) = emit_to_player-recv law now to _ s c r found link rooms in
      (wire, sent, heard ∙ hooks_of-proximity hdr opus fits long)

  -- The same of a `BusDown`, the mixed voice of a radio or phone channel.
  pub deliver_one-on_bus :
      (law : IsAead na) (now to : ℕ) (hdr : BusDown F) (opus : List ℕ) (s : Session)
      (c : ClientSession F) (r : Relay F D E)
      → lookup to r.sessions ≡ some s
      → Linked s c
      → FitsRooms (0x12 ∷ (bus_down_codec {F = F}).put hdr ++ opus)
      → (bus_down_codec {F = F}).Fits hdr
      → hdr.length ≡ length opus
      → (wire : List ℕ) × ((deliver_one (bus_down to hdr opus) r).1 ≡ audio s.address wire ∷ [])
        × ((recv now wire c).1 ≡ on_bus hdr opus ∷ [])
  unfolding deliver_one
  deliver_one-on_bus law now to hdr opus s c r found link rooms fits long =
      let (wire, sent, heard) = emit_to_player-recv law now to _ s c r found link rooms in
      (wire, sent, heard ∙ hooks_of-bus hdr opus fits long)

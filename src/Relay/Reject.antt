-- ===== src/Relay/Reject.antt =====
-- relay/src/relay.cpp: packets that the relay does not take.
use omp_voice.Base.Float.{FloatOps}
use omp_voice.Base.{
  ℕ, ◌≤◌, ◌≡◌, ap, false, List, [], ◌∷◌, some, Map, lookup, put, nat_beq, nat_eq, arith,
}
use omp_voice.Crypto.{Sodium, KeyPair, SessionKeys, wire_counter, accept, open_wire}
use omp_voice.Opus.{OpusDecoder, OpusEncoder}
use omp_voice.Relay.{Address, Session, Relay, pack_address}
use omp_voice.Relay.Send.{Entropy}
use omp_voice.Relay.Planes.{plain_room, handle_encrypted, audio_packet}

put_same : {V : Type 0} → (k : ℕ) (v : V) (m : Map ℕ V) → lookup k m ≡ some v → put k v m ≡ m
unfolding lookup put
put_same k v [] h = cc
put_same k v ((j, u) ∷ m) h = ground (arith, put_same k v m)

-- A packet whose counter is at or below the mark yields nothing.
open_wire-replay :
    ⦃na : Sodium⦄
    → (keys : SessionKeys) (last room : ℕ) (wire : List ℕ) → nat_beq (wire_counter wire) 0 ≡ false
    → wire_counter wire ≤ last
    → open_wire keys last wire room ≡ ([], last)
unfolding open_wire accept
open_wire-replay keys last room wire used old = ground arith

module _ {F D E : Type 0} ⦃fl : FloatOps F⦄ ⦃od : OpusDecoder F D⦄ ⦃oe : OpusEncoder F E⦄
    ⦃na : Sodium⦄ ⦃en : Entropy⦄ where
  -- A packet from the address of a session that does not open leaves the relay as it is, and nothing
  -- is sent: the session does not even count as heard of.
  pub audio_packet-unopened :
      (now ms pid : ℕ) (self : KeyPair) (from : Address) (wire : List ℕ) (s : Session)
      (r : Relay F D E)
      → lookup (pack_address from) r.addr_index ≡ some pid
      → lookup pid r.sessions ≡ some s
      → open_wire s.keys s.rx_last_seen wire plain_room ≡ ([], s.rx_last_seen)
      → audio_packet now ms self from wire r ≡ (r, [])
  unfolding audio_packet handle_encrypted
  audio_packet-unopened now ms pid self from wire s r known found shut =
      rw (known, audio_packet)
        (rw found (
          rw (shut, handle_encrypted)
            (rw shut
              (ap (λ ss. (record r { sessions = ss }, [])) (put_same pid s r.sessions found)))))

  -- A packet from the address of a session whose counter is not 0 and not above the mark of the
  -- session leaves the relay as it is, and nothing is sent.
  pub audio_packet-replayed :
      (now ms pid : ℕ) (self : KeyPair) (from : Address) (wire : List ℕ) (s : Session)
      (r : Relay F D E)
      → lookup (pack_address from) r.addr_index ≡ some pid
      → lookup pid r.sessions ≡ some s
      → nat_beq (wire_counter wire) 0 ≡ false
      → wire_counter wire ≤ s.rx_last_seen
      → audio_packet now ms self from wire r ≡ (r, [])
  audio_packet-replayed now ms pid self from wire s r known found used old =
      audio_packet-unopened now ms pid self from wire s r known found
        (open_wire-replay s.keys s.rx_last_seen plain_room wire used old)

-- ===== src/Tests/Network.antt =====
-- Runs of the envelope, the relay and the client at concrete inputs, in the build without libsodium.
use omp_voice.Base.Float.{milli}
use omp_voice.Base.{
  ℤ, pos, ℕ, ◌≡◌, ◌⊎◌, inl, inr, refl, ap, ◌∙◌, true, false, not, List, [], ◌∷◌, ◌++◌, none, some,
  lookup, nat_eq, nat_beq, ltb, length, arith, subst, Bool-cases,
}
use omp_voice.Protocol.{HandshakeReq, AudioUp, ProximityDown, BusDown}
use omp_voice.Protocol.Packets.{
  audio_up_codec, proximity_down_codec, bus_down_codec, handshake_ack_codec,
}
use omp_voice.Crypto.{
  Sodium, IsKeyExchange, KeyPair, SessionKeys, wire_counter, counter_of, seal, open_wire, receive,
}
use omp_voice.Crypto.PassThrough.{pass_through, pass_through-IsAead, xor_bytes}
use omp_voice.Crypto.Channel.{open_wire-seal, Ascends, receive-Ascends}
use omp_voice.Proximity.{default_prox_tuning}
use omp_voice.Engine.{new_engine, Engine, proximity_down, bus_down}
use omp_voice.Relay.{Address, Session, Relay, Sent, audio, pack_address, with_session}
use omp_voice.Relay.Send.{Entropy, deliver_one}
use omp_voice.Relay.Handshake.{handshake_req, establish, ack_of}
use omp_voice.Relay.Planes.{audio_packet, drop_silent}
use omp_voice.Relay.Tokens.{Authorized, handshake_req-Authorized}
use omp_voice.Relay.Reject.{audio_packet-replayed}
use omp_voice.Relay.Voice.{frame_bytes, routed, seen_at, audio_packet-frame}
use omp_voice.Relay.Silence.{heard, lookup-drop_silent}
use omp_voice.Relay.Index.{Listed}
use omp_voice.Relay.Steps.{IndexRight}
use omp_voice.Relay.Runs as RelayRuns
use omp_voice.Client.{ClientSession, tick}
use omp_voice.Client.Recv.{recv, on_proximity, on_bus}
use omp_voice.Client.Downlink.{Linked, deliver_one-on_proximity, deliver_one-on_bus}
use omp_voice.Client.Agreement.{Mated, establish-Mated}
use omp_voice.Client.Loop.{tick-established, tick-raced}
use omp_voice.Tests.{
  test_policy, test_radio, test_behavior, test_engine, test_decoder, test_encoder,
}

instance abbrev pub test_sodium : Sodium
test_sodium = pass_through

abbrev pub zero_head : List ℕ
zero_head = 0 ∷ 0 ∷ 0 ∷ 0 ∷ 0 ∷ 0 ∷ 0 ∷ 0 ∷ 0 ∷ 0 ∷ 0 ∷ 0 ∷ 0 ∷ 0 ∷ 0 ∷ 0 ∷ []

instance abbrev pub test_entropy : Entropy
test_entropy = record { nonce_head = λ keys c. zero_head; length-nonce_head = λ keys c. refl }

abbrev pub test_keys : SessionKeys
test_keys = record { rx = 3 ∷ []; tx = 3 ∷ [] }

abbrev pub fives : List ℕ
fives =
    5 ∷ 5 ∷ 5 ∷ 5 ∷ 5 ∷ 5 ∷ 5 ∷ 5 ∷ 5 ∷ 5 ∷ 5 ∷ 5 ∷ 5 ∷ 5 ∷ 5 ∷ 5 ∷ 5 ∷ 5 ∷ 5 ∷ 5 ∷ 5 ∷ 5 ∷ 5 ∷ 5
    ∷ 5 ∷ 5 ∷ 5 ∷ 5 ∷ 5 ∷ 5 ∷ 5 ∷ 5 ∷ []

abbrev pub eights : List ℕ
eights =
    8 ∷ 8 ∷ 8 ∷ 8 ∷ 8 ∷ 8 ∷ 8 ∷ 8 ∷ 8 ∷ 8 ∷ 8 ∷ 8 ∷ 8 ∷ 8 ∷ 8 ∷ 8 ∷ 8 ∷ 8 ∷ 8 ∷ 8 ∷ 8 ∷ 8 ∷ 8 ∷ 8
    ∷ 8 ∷ 8 ∷ 8 ∷ 8 ∷ 8 ∷ 8 ∷ 8 ∷ 8 ∷ []

abbrev thirteens : List ℕ
thirteens =
    13 ∷ 13 ∷ 13 ∷ 13 ∷ 13 ∷ 13 ∷ 13 ∷ 13 ∷ 13 ∷ 13 ∷ 13 ∷ 13 ∷ 13 ∷ 13 ∷ 13 ∷ 13 ∷ 13 ∷ 13 ∷ 13
    ∷ 13 ∷ 13 ∷ 13 ∷ 13 ∷ 13 ∷ 13 ∷ 13 ∷ 13 ∷ 13 ∷ 13 ∷ 13 ∷ 13 ∷ 13 ∷ []

abbrev pub test_pair : KeyPair
test_pair = record { pk = fives; sk = [] }

abbrev pub client_pair : KeyPair
client_pair = record { pk = eights; sk = [] }

open_wire-seal_example :
    open_wire test_keys 4 (seal test_keys 5 zero_head (1 ∷ 2 ∷ []) 64) 32 ≡ (1 ∷ 2 ∷ [], 5)
open_wire-seal_example =
    open_wire-seal pass_through-IsAead test_keys test_keys 5 4 64 32 zero_head (1 ∷ 2 ∷ []) refl
      refl (omega arith) (omega arith) (omega arith) (omega arith)

-- The same packet twice.
abbrev test_wires : List (List ℕ)
test_wires = seal test_keys 5 zero_head (1 ∷ []) 64 ∷ seal test_keys 5 zero_head (1 ∷ []) 64 ∷ []

receive-Ascends_example : Ascends 4 (receive test_keys 64 4 test_wires)
receive-Ascends_example = receive-Ascends test_keys 64 4 test_wires

abbrev test_address : Address
test_address = record { s_addr = 10; port = 7000 }

abbrev test_session : Session
test_session = record {
  player_id = 2;
  address = test_address;
  keys = test_keys;
  self = test_pair;
  tx_counter = 7;
  rx_last_seen = 4;
  last_seen = 700;
}

-- Player 1 has a token and player 2 a session.
abbrev test_relay : Relay ℤ Unit Unit
test_relay = record {
  max_players = 10;
  ip_secondary_check = true;
  engine = test_engine;
  bridge = none;
  sessions = (2, test_session) ∷ [];
  addr_index = (662360, 2) ∷ [];
  pending = record { token = 4 ∷ []; player_id = 1; expires_unix = 900; expected_ip = 10 } ∷ [];
  names = [];
}

abbrev test_request : HandshakeReq
test_request = record { ver_major = 2; ver_minor = 0; token = 4 ∷ []; client_pub_key = 8 ∷ [] }

handshake_req-Authorized_example :
    let r' = (handshake_req 800 test_address test_pair test_request test_relay).0 in
    (r'.sessions ≡ test_relay.sessions) ⊎ Authorized 800 test_address test_request test_relay r'
handshake_req-Authorized_example =
    handshake_req-Authorized 800 test_address test_pair test_request test_relay

known : lookup (pack_address test_address) test_relay.addr_index ≡ some 2
unfolding lookup pack_address
known = refl

found : lookup 2 test_relay.sessions ≡ some test_session
unfolding lookup
found = refl

abbrev test_frame : AudioUp
test_frame = record { seq = 1; flags = 0; length = 2 }

frame-Fits : audio_up_codec.Fits test_frame
unfolding audio_up_codec
frame-Fits = (tt, (omega arith, (omega arith, omega arith)))

frame-length : length (frame_bytes test_frame (6 ∷ 9 ∷ [])) ≡ 8
unfolding audio_up_codec
frame-length = refl

audio_packet-frame_example :
    audio_packet 705 100 test_pair test_address
      (seal test_keys 5 zero_head (frame_bytes test_frame (6 ∷ 9 ∷ [])) 1528)
      test_relay
    ≡ routed 100 2 test_frame (6 ∷ 9 ∷ []) (with_session 2 (seen_at 705 5 test_session) test_relay)
audio_packet-frame_example =
    audio_packet-frame pass_through-IsAead 705 100 2 5 1528 test_keys zero_head test_pair
      test_address test_frame (6 ∷ 9 ∷ []) test_session test_relay known found refl refl
      (omega arith) (omega arith) (omega (arith, frame-length)) (omega (arith, frame-length))
      frame-Fits refl

-- A packet that was sealed with the counter 3.
abbrev old_wire : List ℕ
old_wire =
    0 ∷ 0 ∷ 0 ∷ 0 ∷ 0 ∷ 0 ∷ 0 ∷ 0 ∷ 0 ∷ 0 ∷ 0 ∷ 0 ∷ 0 ∷ 0 ∷ 0 ∷ 0 ∷ 0 ∷ 0 ∷ 0 ∷ 0 ∷ 0 ∷ 0 ∷ 0 ∷ 3
    ∷ 16 ∷ []

old_counter : wire_counter old_wire ≡ 3
unfolding wire_counter counter_of
old_counter = refl

audio_packet-replayed_example :
    audio_packet 705 100 test_pair test_address old_wire test_relay ≡ (test_relay, [])
audio_packet-replayed_example =
    audio_packet-replayed 705 100 2 test_pair test_address old_wire test_session test_relay known
      found (ground (arith, old_counter)) (omega (arith, old_counter))

test_relay-IndexRight : IndexRight test_relay
unfolding lookup
test_relay-IndexRight = record {
  distinct = (refl, tt);
  listed = λ pid s e. elim (Bool-cases (nat_beq 2 pid)) [
    | inr other ↦ absurd (ground arith)
    | inl same ↦
        let the_one : test_session ≡ s = ground arith in
        let his : 2 ≡ pid = ground arith in
        subst (Listed test_relay.addr_index pid) the_one (known ∙ ap some his, his)
  ];
}

run-IndexRight_example : IndexRight (
    RelayRuns.run
      (RelayRuns.heard 705 100 test_pair test_address old_wire ∷ RelayRuns.woken 720 ∷ [])
      test_relay)
run-IndexRight_example =
    RelayRuns.run-IndexRight
      (RelayRuns.heard 705 100 test_pair test_address old_wire ∷ RelayRuns.woken 720 ∷ [])
      test_relay test_relay-IndexRight

lookup-drop_silent_example :
    lookup 2 (drop_silent 720 test_relay.sessions test_relay.addr_index).0
    ≡ heard 720 (lookup 2 test_relay.sessions)
lookup-drop_silent_example =
    lookup-drop_silent 720 test_relay.sessions test_relay.addr_index 2
      test_relay-IndexRight.distinct

abbrev pub test_client : ClientSession ℤ
test_client = record {
  self = client_pair;
  keys = test_keys;
  tx = 5;
  rx_last_seen = 6;
  limits = record {
    player_id = 2;
    vad_allowed = true;
    default_mode = 0;
    max_range = pos 40000;
    opus_bitrate = 24000;
    max_streams = 8;
  };
  established = true;
  nak = false;
  last_ping = 500;
  last_rx = 900;
}

test_link : Linked test_session test_client
test_link = record { key = refl; ahead = omega arith; below = omega arith; up = refl }

abbrev test_down : ProximityDown ℤ
test_down = record { speaker_id = 1; seq = 4; flags = 0; volume = pos 500; pan = pos 0; length = 2 }

down-Fits : (proximity_down_codec {F = ℤ}).Fits test_down
unfolding proximity_down_codec
down-Fits = ground arith

down-length : length (0x11 ∷ (proximity_down_codec {F = ℤ}).put test_down ++ (6 ∷ 9 ∷ [])) ≡ 18
unfolding proximity_down_codec
down-length = refl

deliver_one-on_proximity_example :
    (wire : List ℕ) × ((deliver_one (proximity_down 2 test_down (6 ∷ 9 ∷ [])) test_relay).1
      ≡ audio test_address wire ∷ [])
    × ((recv 950 wire test_client).1 ≡ on_proximity test_down (6 ∷ 9 ∷ []) ∷ [])
deliver_one-on_proximity_example =
    deliver_one-on_proximity pass_through-IsAead 950 2 test_down (6 ∷ 9 ∷ []) test_session
      test_client test_relay found test_link
      (omega (arith, down-length), omega (arith, down-length)) down-Fits refl

abbrev test_bus : BusDown ℤ
test_bus = record { channel_id = 5; filter = 1; seq = 4; volume = pos 500; length = 2 }

bus-Fits : (bus_down_codec {F = ℤ}).Fits test_bus
unfolding bus_down_codec
bus-Fits = ground arith

bus-length : length (0x12 ∷ (bus_down_codec {F = ℤ}).put test_bus ++ (6 ∷ 9 ∷ [])) ≡ 14
unfolding bus_down_codec
bus-length = refl

deliver_one-on_bus_example :
    (wire : List ℕ) × ((deliver_one (bus_down 2 test_bus (6 ∷ 9 ∷ [])) test_relay).1
      ≡ audio test_address wire ∷ [])
    × ((recv 950 wire test_client).1 ≡ on_bus test_bus (6 ∷ 9 ∷ []) ∷ [])
deliver_one-on_bus_example =
    deliver_one-on_bus pass_through-IsAead 950 2 test_bus (6 ∷ 9 ∷ []) test_session test_client
      test_relay found test_link (omega (arith, bus-length), omega (arith, bus-length)) bus-Fits
      refl

tick-established_example : (tick 1000 test_client).0.established ≡ not (ltb 8000 100)
tick-established_example =
    tick-established 1000 test_client refl (omega arith) (omega arith) (omega arith)

tick-raced_example : (tick 899 test_client).0.established ≡ false
tick-raced_example = tick-raced 899 test_client refl (omega arith)

-- The two pairs that the run exchanges.
abbrev Exchanged : KeyPair → Type 0
Exchanged k = (k.pk ≡ fives) ⊎ (k.pk ≡ eights)

same_either_way :
    (c r : KeyPair) → Exchanged c → Exchanged r → xor_bytes c.pk r.pk ≡ xor_bytes r.pk c.pk
unfolding xor_bytes
same_either_way c r (inl h) (inl k) = rw (h, k) refl
same_either_way c r (inl h) (inr k) = rw (h, k) refl
same_either_way c r (inr h) (inl k) = rw (h, k) refl
same_either_way c r (inr h) (inr k) = rw (h, k) refl

test_exchange : IsKeyExchange test_sodium
unfolding pass_through
test_exchange = record {
  IsPair = Exchanged;
  agree = λ client relay rx tx c r e. let both = same_either_way client relay c r in ground arith;
}

derives :
    test_sodium.kx_client client_pair.pk client_pair.sk test_pair.pk ≡ some (thirteens, thirteens)
unfolding pass_through xor_bytes
derives = refl

abbrev fresh_client : ClientSession ℤ
fresh_client = record test_client { established = false }

-- Before any control packet.
abbrev first_engine : Engine ℤ Unit Unit
first_engine = new_engine default_prox_tuning test_policy test_radio test_behavior 2

abbrev first_relay : Relay ℤ Unit Unit
first_relay = record test_relay { engine = first_engine }

answer-Fits : (handshake_ack_codec {F = ℤ}).Fits (ack_of 1 test_pair.pk first_engine)
unfolding handshake_ack_codec ack_of default_prox_tuning
answer-Fits = ground arith

establish-Mated_example :
    let r' = establish 705 test_address 1 test_pair client_pair.pk first_relay in
    (wire : List ℕ) × (names : List Sent) × (r'.1 ≡ audio test_address wire ∷ names)
    × (s : Session) × (lookup 1 r'.0.sessions ≡ some s)
    × Mated 1 s (recv 950 wire fresh_client).0
unfolding test_exchange
establish-Mated_example =
    establish-Mated test_exchange 705 950 1 test_address test_pair thirteens thirteens fresh_client
      first_relay (inr refl) (inl refl) derives refl answer-Fits

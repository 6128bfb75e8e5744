-- ===== src/Relay/Steps.antt =====
-- relay/src/relay.cpp: what each round of the loops does to the index, and any run of them.
use omp_voice.Base.Float.{FloatOps}
use omp_voice.Base.{
  ℕ, ◌≡◌, refl, false, List, [], ◌∷◌, none, some, lookup, nat_beq, nat_eq, leb, length,
  Option-cases, Bool-cases, inl, inr,
}
use omp_voice.Protocol.{HandshakeReq, protocol_version_major}
use omp_voice.Protocol.Packets.{handshake_req_codec, ping_pong_codec}
use omp_voice.Crypto.{Sodium, KeyPair, derive_session}
use omp_voice.Relay.{Address, Session, Relay, pack_address, find_token, erase_token}
use omp_voice.Relay.Send.{Entropy}
use omp_voice.Relay.Handshake.{is_foreign, establish, handshake_req, handle_handshake}
use omp_voice.Relay.Planes.{pong}
use omp_voice.Relay.Keeps.{send_roster-Keeps, emit_to_player-Keeps}
use omp_voice.Relay.Index.{Indexed, Keeps-Indexed, fresh-Indexed}

-- The index of a relay leads to its sessions.
abbrev pub IndexRight : {F D E : Type 0} → Relay F D E → Type 0
IndexRight r = Indexed r.sessions r.addr_index

-- No session stands behind an address.
abbrev pub Unknown : {F D E : Type 0} → Address → Relay F D E → Type 0
Unknown from r =
    (j : ℕ) → lookup (pack_address from) r.addr_index ≡ some j → lookup j r.sessions ≡ none

module _ {F D E : Type 0} ⦃fl : FloatOps F⦄ ⦃na : Sodium⦄ ⦃en : Entropy⦄ where
  establish-IndexRight :
      (now : ℕ) (from : Address) (pid : ℕ) (self : KeyPair) (key : List ℕ) (r : Relay F D E)
      → Unknown from r
      → IndexRight r
      → IndexRight (establish now from pid self key r).0
  unfolding establish
  establish-IndexRight now from pid self key r free h =
      elim (Option-cases (derive_session self key false)) [
        | inl failed ↦ rw (failed, establish) h
        | inr (keys, derived) ↦
            rw (derived, establish)
              (Keeps-Indexed _ _ (send_roster-Keeps pid r.names _)
                (fresh-Indexed r.sessions r.addr_index pid _ h refl free))
      ]

  handshake_req-IndexRight :
      (now : ℕ) (from : Address) (self : KeyPair) (req : HandshakeReq) (r : Relay F D E)
      → Unknown from r
      → IndexRight r
      → IndexRight (handshake_req now from self req r).0
  unfolding handshake_req
  handshake_req-IndexRight now from self req r free h =
      elim (Bool-cases (nat_beq req.ver_major protocol_version_major)) [
        | inr old ↦ rw old h
        | inl current ↦ elim (Bool-cases (leb r.max_players (length r.sessions))) [
          | inl full ↦ rw (current, full) h
          | inr room ↦ elim (Option-cases (find_token now req.token r.pending)) [
            | inl unknown ↦ rw (current, room) (rw unknown h)
            | inr (p, found) ↦ elim (Bool-cases (is_foreign r.ip_secondary_check from p)) [
              | inl foreign ↦ rw (current, room) (rw found (rw foreign h))
              | inr home ↦
                  rw (current, room)
                    (rw found (
                      rw home (
                        establish-IndexRight now from p.player_id self req.client_pub_key
                          (record r { pending = erase_token now req.token r.pending }) free h)))
            ]
          ]
        ]
      ]

  pub handle_handshake-IndexRight :
      (now : ℕ) (from : Address) (self : KeyPair) (wire : List ℕ) (r : Relay F D E)
      → Unknown from r
      → IndexRight r
      → IndexRight (handle_handshake now from self wire r).0
  unfolding handle_handshake
  handle_handshake-IndexRight now from self [] r free h = h
  handle_handshake-IndexRight now from self (t ∷ bytes) r free h =
      elim (Option-cases (handshake_req_codec.get bytes)) [
        | inl e ↦ rw (e, handle_handshake) h
        | inr (q, e) ↦ elim (Bool-cases (nat_beq t 1)) [
          | inl hello ↦
              rw (e, handle_handshake)
                (rw hello (handshake_req-IndexRight now from self q.0 r free h))
          | inr other ↦ rw (e, handle_handshake) (rw other h)
        ]
      ]

  pub pong-IndexRight :
      (s : Session) (bytes : List ℕ) (r : Relay F D E)
      → IndexRight r
      → IndexRight (pong s bytes r).0
  unfolding pong
  pong-IndexRight s bytes r h = elim (Option-cases (ping_pong_codec.get bytes)) [
    | inl e ↦ rw (e, pong) h
    | inr (q, e) ↦ rw (e, pong) (Keeps-Indexed _ _ (emit_to_player-Keeps s.player_id _ r) h)
  ]

-- ===== src/Client/Agreement.antt =====
-- relay/src/relay.cpp and client/src/net_session.cpp: the keys of the two sides of a handshake.
use omp_voice.Base.Float.{FloatOps}
use omp_voice.Base.{
  ℕ, ◌≡◌, refl, sym, ap, ◌∙◌, true, false, List, [], ◌∷◌, ◌++◌, some, lookup, lookup-put, put,
  nat_eq, nat_beq, length, arith, Option-cases, inl, inr,
}
use omp_voice.Protocol.{HandshakeAck}
use omp_voice.Protocol.Packets.{handshake_ack_codec}
use omp_voice.Crypto.{Sodium, IsKeyExchange, KeyPair, SessionKeys, derive_session}
use omp_voice.Relay.{Address, Session, Relay, Sent, audio, pack_address}
use omp_voice.Relay.Send.{Entropy, send_roster}
use omp_voice.Relay.Handshake.{ack_of, establish}
use omp_voice.Relay.Keeps.{uncounted, send_roster-Keeps}
use omp_voice.Client.{ClientSession}
use omp_voice.Client.Recv.{recv, recv_answer, take_ack, limits_of}

append_empty : (xs : List ℕ) → xs ++ [] ≡ xs
append_empty [] = refl
append_empty (x ∷ xs) = ap (λ l. x ∷ l) (append_empty xs)

-- The session that a relay has made and the client's own: each sends with the key that the other opens
-- with, the client is up as the session's player, and neither has heard of the other.
pub record Mated {F : Type 0} (pid : ℕ) (s : Session) (c : ClientSession F) : Type 0 where
  pub down : s.keys.tx ≡ c.keys.rx
  pub up : c.keys.tx ≡ s.keys.rx
  pub established : c.established ≡ true
  pub player : c.limits.player_id ≡ pid
  pub own : s.player_id ≡ pid
  pub client_mark : c.rx_last_seen ≡ 0
  pub relay_mark : s.rx_last_seen ≡ 0

module _ ⦃na : Sodium⦄ where
  derived :
      (kx : IsKeyExchange na) (client self : KeyPair) (rx tx : List ℕ)
      → kx.IsPair client
      → kx.IsPair self
      → na.kx_client client.pk client.sk self.pk ≡ some (rx, tx)
      → (derive_session client self.pk true ≡ some (record { rx = rx; tx = tx }))
        × (derive_session self client.pk false ≡ some (record { rx = tx; tx = rx }))
  unfolding derive_session
  derived kx client self rx tx good good' e =
      let other = kx.agree client self rx tx good good' e in (rw e refl, rw other refl)

module _ {F : Type 0} ⦃fl : FloatOps F⦄ ⦃na : Sodium⦄ where
  -- The client's side of an answer.
  recv-ack :
      (now : ℕ) (a : HandshakeAck F) (keys : SessionKeys) (c : ClientSession F)
      → c.established ≡ false
      → (handshake_ack_codec {F = F}).Fits a
      → derive_session c.self a.relay_pub_key true ≡ some keys
      → (recv now (2 ∷ (handshake_ack_codec {F = F}).put a) c).0 ≡ record c {
        last_rx = now;
        keys = keys;
        limits = limits_of a;
        rx_last_seen = 0;
        established = true;
      }
  unfolding recv recv_answer take_ack
  recv-ack now a keys c down fits made =
      let whole : (handshake_ack_codec {F = F}).get ((handshake_ack_codec {F = F}).put a)
          ≡ some (a, []) =
        ap (handshake_ack_codec {F = F}).get
          (sym (append_empty ((handshake_ack_codec {F = F}).put a)))
        ∙ (handshake_ack_codec {F = F}).get-put a [] fits in
      let full : nat_beq (length (2 ∷ (handshake_ack_codec {F = F}).put a)) 0 ≡ false =
        ground arith in
      rw (down, recv) (rw full (rw (whole, recv_answer) (rw (made, take_ack) refl)))

module _ {F D E : Type 0} ⦃fl : FloatOps F⦄ ⦃na : Sodium⦄ ⦃en : Entropy⦄ where
  -- The relay's side: the answer goes first, and the session stays but for its outbound counter.
  established-session :
      (now pid : ℕ) (from : Address) (self : KeyPair) (key : List ℕ) (keys : SessionKeys)
      (r : Relay F D E)
      → derive_session self key false ≡ some keys
      → (names : List Sent) × ((establish now from pid self key r).1
          ≡ audio from (2 ∷ (handshake_ack_codec {F = F}).put (ack_of pid self.pk r.engine))
            ∷ names)
        × (s : Session) × (lookup pid (establish now from pid self key r).0.sessions ≡ some s)
        × (s.keys ≡ keys)
        × (s.player_id ≡ pid)
        × (s.rx_last_seen ≡ 0)
  unfolding establish
  established-session now pid from self key keys r made =
      let s₀ : Session = record {
        player_id = pid;
        address = from;
        keys = keys;
        self = self;
        tx_counter = 1;
        rx_last_seen = 0;
        last_seen = now;
      } in
      let r₀ = record r {
        addr_index = put (pack_address from) pid r.addr_index;
        sessions = put pid s₀ r.sessions;
      } in
      let sent = send_roster pid r.names r₀ in
      let opened : establish now from pid self key r ≡ (
        sent.0,
        audio from (2 ∷ (handshake_ack_codec {F = F}).put (ack_of pid self.pk r.engine)) ∷ sent.1,
      ) =
        rw (made, establish) refl in
      let stays = (send_roster-Keeps pid r.names r₀).sessions pid in
      let first = lookup-put pid pid s₀ r.sessions in
      elim (Option-cases (lookup pid sent.0.sessions)) [
        | inl e ↦ absurd (ground arith)
        | inr (s, e) ↦
            let same : uncounted s ≡ uncounted s₀ = ground arith in
            (
              sent.1,
              ap (λ z. z.1) opened,
              s,
              ap (λ z. lookup pid z.0.sessions) opened ∙ e,
              ap (λ z. z.keys) same,
              ap (λ z. z.player_id) same,
              ap (λ z. z.rx_last_seen) same,
            )
      ]

  -- Of two key pairs that the key exchange takes, a handshake that the relay accepts for a player gives
  -- an answer, sent first, and a session; the client that reads the answer is up as that player, and
  -- each side sends with the key that the other opens with.
  pub establish-Mated :
      (kx : IsKeyExchange na) (now now' pid : ℕ) (from : Address) (self : KeyPair) (rx tx : List ℕ)
      (c : ClientSession F) (r : Relay F D E)
      → kx.IsPair c.self
      → kx.IsPair self
      → na.kx_client c.self.pk c.self.sk self.pk ≡ some (rx, tx)
      → c.established ≡ false
      → (handshake_ack_codec {F = F}).Fits (ack_of pid self.pk r.engine)
      → (wire : List ℕ) × (names : List Sent) × ((establish now from pid self c.self.pk r).1
          ≡ audio from wire ∷ names)
        × (s : Session) × (lookup pid (establish now from pid self c.self.pk r).0.sessions ≡ some s)
        × Mated pid s (recv now' wire c).0
  unfolding ack_of
  establish-Mated kx now now' pid from self rx tx c r good good' e down fits =
      let (mine, theirs) = derived kx c.self self rx tx good good' e in
      let (names, sent, s, found, keys, own, mark) =
        established-session now pid from self c.self.pk (record { rx = tx; tx = rx }) r theirs in
      let a = ack_of pid self.pk r.engine in
      let read = recv-ack now' a (record { rx = rx; tx = tx }) c down fits mine in
      (
        2 ∷ (handshake_ack_codec {F = F}).put a,
        names,
        sent,
        s,
        found,
        record {
          down = ap (λ k. k.tx) keys ∙ sym (ap (λ z. z.keys.rx) read);
          up = ap (λ z. z.keys.tx) read ∙ sym (ap (λ k. k.rx) keys);
          established = ap (λ z. z.established) read;
          player = ap (λ z. z.limits.player_id) read;
          own = own;
          client_mark = ap (λ z. z.rx_last_seen) read;
          relay_mark = mark;
        },
      )

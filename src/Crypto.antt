-- ===== src/Crypto.antt =====
-- shared/crypto.h and shared/crypto.cpp: the keys of a session, and the sealed envelope of a packet,
-- [nonce: 24][ciphertext][mac: 16]. libsodium is an interface. What it draws at random, the key pairs and
-- the head of a nonce, is an argument. `PassThrough` is the build without libsodium.
pub mod Counter
pub mod Channel
pub mod PassThrough
use omp_voice.Base.{
  ℕ, zero, suc, ◌+◌, ◌*◌, ◌/◌, ◌%◌, max, Bool, true, false, not, ◌&&◌, List, [], ◌∷◌, ◌++◌, Option,
  none, some, ◌≡◌, nat_beq, ltb, leb, length, take, drop, if◌then◌else◌,
}

-- libsodium: crypto_kx_*_session_keys from the own pair and the peer's key, which give (rx, tx), and
-- XChaCha20-Poly1305 with a nonce and a key. `none` is a result other than 0.
pub record Sodium : Type 0 where
  pub kx_client : List ℕ → List ℕ → List ℕ → Option (List ℕ × List ℕ)
  pub kx_server : List ℕ → List ℕ → List ℕ → Option (List ℕ × List ℕ)
  pub encrypt : List ℕ → List ℕ → List ℕ → Option (List ℕ)
  pub decrypt : List ℕ → List ℕ → List ℕ → Option (List ℕ)

-- What the envelope relies on: encryption gives a ciphertext, which is 16 bytes longer and is opened
-- under its nonce and key.
pub record IsAead (na : Sodium) : Type 0 where
  pub encrypt_total :
      (nonce key plain : List ℕ) → (cipher : List ℕ) × (na.encrypt nonce key plain ≡ some cipher)
  pub length-encrypt :
      (nonce key plain cipher : List ℕ)
      → na.encrypt nonce key plain ≡ some cipher
      → length cipher ≡ length plain + 16
  pub decrypt-encrypt :
      (nonce key plain cipher : List ℕ)
      → na.encrypt nonce key plain ≡ some cipher
      → na.decrypt nonce key cipher ≡ some plain

pub record SessionKeys : Type 0 where
  pub rx : List ℕ
  pub tx : List ℕ

pub record KeyPair : Type 0 where
  pub pk : List ℕ
  pub sk : List ℕ

abbrev pub nonce_bytes : ℕ
nonce_bytes = 24

abbrev pub mac_bytes : ℕ
mac_bytes = 16

abbrev pub overhead : ℕ
overhead = 40

-- The two sides of the key exchange name the same keys, the other way round.
pub record IsKeyExchange (na : Sodium) : Type 1 where
  pub IsPair : KeyPair → Type 0
  pub agree :
      (client relay : KeyPair) (rx tx : List ℕ)
      → IsPair client
      → IsPair relay
      → na.kx_client client.pk client.sk relay.pk ≡ some (rx, tx)
      → na.kx_server relay.pk relay.sk client.pk ≡ some (tx, rx)

abbrev pub keys_of : Option (List ℕ × List ℕ) → Option SessionKeys
keys_of none = none
keys_of (some (rx, tx)) = some (record { rx = rx; tx = tx })

-- The counter in the tail of a nonce, big-endian.
unfoldable pub counter_bytes : ℕ → ℕ → List ℕ
counter_bytes zero c = []
counter_bytes (suc n) c = counter_bytes n (c / 256) ++ (c % 256) ∷ []

unfoldable pub counter_of : ℕ → List ℕ → ℕ
counter_of acc [] = acc
counter_of acc (b ∷ bs) = counter_of (acc * 256 + b) bs

unfoldable pub wire_counter : List ℕ → ℕ
unfolding counter_of
wire_counter wire = counter_of 0 (drop 16 (take nonce_bytes wire))

-- The check against replays, once the packet is authentic.
unfoldable pub accept : ℕ → ℕ → List ℕ → List ℕ × ℕ
accept counter last plain =
    if not (nat_beq counter 0) && leb counter last then ([], last) else (plain, max counter last)

module _ ⦃na : Sodium⦄ where
  unfoldable pub derive_session : KeyPair → List ℕ → Bool → Option SessionKeys
  derive_session self peer is_client =
      keys_of
        (if is_client then na.kx_client self.pk self.sk peer else na.kx_server self.pk self.sk peer)

  -- The bytes written, none on failure. `head` is what is drawn for the nonce.
  unfoldable pub seal : SessionKeys → ℕ → List ℕ → List ℕ → ℕ → List ℕ
  seal keys counter head plain room =
      let nonce = head ++ counter_bytes 8 counter in
      if ltb room (length plain + overhead)
      then []
      else elim (na.encrypt nonce keys.tx plain) [ none ↦ [] | some cipher ↦ nonce ++ cipher ]

  -- The plaintext, empty on failure, and the new high-water mark.
  unfoldable pub open_wire : SessionKeys → ℕ → List ℕ → ℕ → List ℕ × ℕ
  open_wire keys last wire room =
      let cipher = drop nonce_bytes wire in
      if ltb (length wire) overhead
      then ([], last)
      else if ltb (room + mac_bytes) (length cipher)
      then ([], last)
      else elim (na.decrypt (take nonce_bytes wire) keys.rx cipher) [
        | none ↦ ([], last)
        | some plain ↦ accept (wire_counter wire) last plain
      ]

  -- The counters of the packets that are accepted, of all that arrive.
  unfoldable pub receive : SessionKeys → ℕ → ℕ → List (List ℕ) → List ℕ
  receive keys room last [] = []
  receive keys room last (wire ∷ wires) =
      let (plain, mark) = open_wire keys last wire room in
      let rest = receive keys room mark wires in
      if nat_beq (length plain) 0 then rest else wire_counter wire ∷ rest

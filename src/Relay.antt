-- ===== src/Relay.antt =====
-- relay/include/relay.h and relay/src/relay.cpp: the state of the relay and its token table. The relay
-- holds the engine. What it sends is a list, in order. `s_addr` is the number that a little-endian
-- machine reads.
pub mod Send
pub mod Handshake
pub mod Planes
pub mod Keeps
pub mod Tokens
pub mod Reject
pub mod Voice
pub mod Index
pub mod Silence
pub mod Steps
pub mod Runs
use omp_voice.Base.{
  ℕ, ◌+◌, ◌*◌, ◌%◌, ◌^◌, Bool, true, false, not, ◌&&◌, List, [], ◌∷◌, ◌++◌, Option, none, some, Map,
  put, nat_beq, nat_eq, ltb, if◌then◌else◌,
}
use omp_voice.Protocol.{CtrlBindToken}
use omp_voice.Crypto.{SessionKeys, KeyPair}
use omp_voice.Engine.{Engine}

pub record Address : Type 0 where
  pub s_addr : ℕ
  pub port : ℕ

pub record PendingToken : Type 0 where
  pub token : List ℕ
  pub player_id : ℕ
  pub expires_unix : ℕ
  pub expected_ip : ℕ

-- A session that is stored is established.
pub record Session : Type 0 where
  pub player_id : ℕ
  pub address : Address
  pub keys : SessionKeys
  pub self : KeyPair
  pub tx_counter : ℕ
  pub rx_last_seen : ℕ
  pub last_seen : ℕ

pub record Relay (F D E : Type 0) : Type 0 where
  pub max_players : ℕ
  pub ip_secondary_check : Bool
  pub engine : Engine F D E
  pub bridge : Option Address
  pub sessions : Map ℕ Session
  pub addr_index : Map ℕ ℕ
  pub pending : List PendingToken
  pub names : Map ℕ (List ℕ)

-- A call of `sendTo` on the audio or the control socket.
pub data Sent : Type 0 where
  audio control : Address → List ℕ → Sent

unfoldable pub pack_address : Address → ℕ
pack_address a = a.s_addr * 65536 + a.port

unfoldable pub bytes_beq : List ℕ → List ℕ → Bool
bytes_beq [] [] = true
bytes_beq [] (y ∷ ys) = false
bytes_beq (x ∷ xs) [] = false
bytes_beq (x ∷ xs) (y ∷ ys) = nat_beq x y && bytes_beq xs ys

-- p.expiresUnix < (uint32_t)now.
unfoldable pub is_expired : ℕ → PendingToken → Bool
is_expired now p = ltb p.expires_unix (now % 2 ^ 32)

-- The first token that is alive and the same.
unfoldable pub find_token : ℕ → List ℕ → List PendingToken → Option PendingToken
unfolding is_expired
find_token now token [] = none
find_token now token (p ∷ ps) =
    if not (is_expired now p) && bytes_beq p.token token then some p else find_token now token ps

-- m_pending.erase(m_pending.begin() + found).
unfoldable pub erase_token : ℕ → List ℕ → List PendingToken → List PendingToken
unfolding is_expired
erase_token now token [] = []
erase_token now token (p ∷ ps) =
    let rest = erase_token now token ps in
    if not (is_expired now p) && bytes_beq p.token token then ps else p ∷ rest

-- The player's token of a `CtrlBindToken`: it replaces any that the player has.
unfoldable pub without_player : ℕ → List PendingToken → List PendingToken
without_player pid [] = []
without_player pid (p ∷ ps) =
    let rest = without_player pid ps in if nat_beq p.player_id pid then rest else p ∷ rest

-- The tokens that `cleanupLoop` keeps.
unfoldable pub live_tokens : ℕ → List PendingToken → List PendingToken
unfolding is_expired
live_tokens now [] = []
live_tokens now (p ∷ ps) =
    let rest = live_tokens now ps in if is_expired now p then rest else p ∷ rest

module _ {F D E : Type 0} where
  unfoldable pub store_token : CtrlBindToken → Relay F D E → Relay F D E
  unfolding without_player
  store_token b r = record r {
    pending =
        without_player b.player_id r.pending
        ++ record {
          token = b.token;
          player_id = b.player_id;
          expires_unix = b.expires_unix;
          expected_ip = b.ip;
        }
          ∷ [];
  }

  abbrev pub with_engine : Engine F D E → Relay F D E → Relay F D E
  with_engine e r = record r { engine = e }

  abbrev pub with_session : ℕ → Session → Relay F D E → Relay F D E
  with_session pid s r = record r { sessions = put pid s r.sessions }

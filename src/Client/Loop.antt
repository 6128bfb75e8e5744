-- ===== src/Client/Loop.antt =====
-- client/src/voice_client.cpp: a turn of the connection loop, and client/src/net_session.cpp, `tick`, as
-- the loop calls it.
use omp_voice.Base.Float.{FloatOps}
use omp_voice.Base.{
  ℕ, zero, suc, ◌+◌, ◌-◌, ◌*◌, ◌%◌, ◌^◌, ◌≤◌, ◌<◌, min, ◌≡◌, refl, sym, ap, ◌∙◌, true, false, not,
  List, [], ◌∷◌, none, some, ltb, length, arith, ltb→lt, Bool-cases, inl, inr, if◌then◌else◌,
}
use native.Mathlib.Nat.{pow-suc}
use omp_voice.Crypto.{Sodium, KeyPair}
use omp_voice.Relay.Send.{Entropy}
use omp_voice.Client.{ClientSession, Inbox, latest, begin_connect, tick}
use omp_voice.Client.Recv.{recv}

pub record VoiceClient (F : Type 0) : Type 0 where
  pub session : ClientSession F
  pub inbox : Inbox
  pub backoff : ℕ

abbrev pub base_backoff : ℕ
base_backoff = 250

abbrev pub max_backoff : ℕ
max_backoff = 3000

-- What a turn finds: the time, the key pair that it would draw, and what arrives, and when, until
-- `connect` returns.
pub record Turn : Type 0 where
  pub now : ℕ
  pub self : KeyPair
  pub arrived : List (ℕ × List ℕ)

times_le : (a c q : ℕ) → a ≤ c → a * q ≤ c * q
times_le a c zero h = omega arith
times_le a c (suc q) h = omega (arith, times_le a c q h)

doubled_by : (b q : ℕ) → min (min (b * 2) 3000 * suc q) 3000 ≡ min (b * (suc q * 2)) 3000
doubled_by b q = elim (Bool-cases (ltb 3000 (b * 2))) [
  | inl big ↦
      let top : min (b * 2) 3000 ≡ 3000 = ground arith in
      let more = times_le 3000 (b * 2) q (ground arith) in
      rw top (omega (arith, ltb→lt 3000 (b * 2) big))
  | inr small ↦
      let low : min (b * 2) 3000 ≡ b * 2 = ground arith in
      rw low (ap (λ p. min p 3000) (omega arith))
]

pow_positive : (k : ℕ) → 1 ≤ 2 ^ k
pow_positive zero = omega arith
pow_positive (suc k) = omega (arith, pow-suc 2 k, pow_positive k)

doubled : (b k : ℕ) → min (min (b * 2) 3000 * 2 ^ k) 3000 ≡ min (b * 2 ^ suc k) 3000
doubled b k =
    let whole : suc (2 ^ k - 1) ≡ 2 ^ k = omega (arith, pow_positive k) in
    let next : suc (2 ^ k - 1) * 2 ≡ 2 ^ suc k = omega (arith, whole, pow-suc 2 k) in
    ap (λ p. min (min (b * 2) 3000 * p) 3000) (sym whole)
    ∙ doubled_by b (2 ^ k - 1)
    ∙ ap (λ p. min (b * p) 3000) next

module _ {F : Type 0} ⦃fl : FloatOps F⦄ ⦃na : Sodium⦄ where
  unfoldable pub recv_all : List (ℕ × List ℕ) → ClientSession F → ClientSession F
  unfolding recv
  recv_all [] s = s
  recv_all ((now, wire) ∷ ws) s = recv_all ws (recv now wire s).0

  -- After a failed handshake the loop sleeps for the old backoff.
  unfoldable pub attempt : Turn → List ℕ → VoiceClient F → VoiceClient F
  unfolding begin_connect recv_all
  attempt t tok v =
      let s = recv_all t.arrived (begin_connect t.self tok v.session).0 in
      if s.established
      then record v { session = s; backoff = base_backoff }
      else record v { session = s; backoff = min (v.backoff * 2) max_backoff }

  attempt-failed :
      (t : Turn) (tok : List ℕ) (v : VoiceClient F)
      → (attempt t tok v).session.established ≡ false
      → (attempt t tok v).backoff ≡ min (v.backoff * 2) max_backoff
  unfolding attempt
  attempt-failed t tok v fails =
      let s = recv_all t.arrived (begin_connect t.self tok v.session).0 in
      elim (Bool-cases s.established) [ inl up ↦ ground arith | inr down ↦ ground arith ]

  module _ ⦃en : Entropy⦄ where
    unfoldable pub turn : Turn → VoiceClient F → VoiceClient F
    turn t v =
        if v.session.established
        then record v { session = (tick t.now v.session).0; backoff = base_backoff }
        else elim (latest v.inbox) [ none ↦ v | some (tok, pid) ↦ attempt t tok v ]

    -- A token has come.
    abbrev pub HasToken : VoiceClient F → Type 0
    HasToken v = (tok : List ℕ) × (pid : ℕ) × (latest v.inbox ≡ some (tok, pid))

    -- The backoff and the session of each of these turns: a token is there, and the handshake fails.
    abbrev pub AllFail : List Turn → VoiceClient F → Type 0
    AllFail [] v = Unit
    AllFail (t ∷ ts) v =
        (v.session.established ≡ false)
        × HasToken v
        × ((turn t v).session.established ≡ false)
        × AllFail ts (turn t v)

    unfoldable pub turns : List Turn → VoiceClient F → VoiceClient F
    unfolding turn
    turns [] v = v
    turns (t ∷ ts) v = turns ts (turn t v)

    failed-backoff :
        (t : Turn) (v : VoiceClient F)
        → v.session.established ≡ false
        → HasToken v
        → (turn t v).session.established ≡ false
        → (turn t v).backoff ≡ min (v.backoff * 2) max_backoff
    unfolding turn attempt
    failed-backoff t v down (tok, pid, there) fails =
        let pause : (turn t v).backoff ≡ (attempt t tok v).backoff =
          rw (down, turn) (rw there refl) in
        let still : (turn t v).session.established ≡ (attempt t tok v).session.established =
          rw (down, turn) (rw there refl) in
        pause ∙ attempt-failed t tok v (sym still ∙ fails)

    -- While there is a token and the handshakes fail, the backoff doubles with each, up to 3 seconds.
    pub turns-backoff :
        (ts : List Turn) (v : VoiceClient F)
        → AllFail ts v
        → v.backoff ≤ max_backoff
        → (turns ts v).backoff ≡ min (v.backoff * 2 ^ length ts) max_backoff
    unfolding turns
    turns-backoff [] v h low = omega arith
    turns-backoff (t ∷ ts) v h low =
        let one = failed-backoff t v h.0 h.1 h.2 in
        turns-backoff ts (turn t v) h.3 (omega (arith, one))
        ∙ ap (λ b. min (b * 2 ^ length ts) max_backoff) one
        ∙ doubled v.backoff (length ts)

-- a - b on 32 bits, of times in order.
elapsed : (t u : ℕ) → u ≤ t → t < 2 ^ 32 → (t + (2 ^ 32 - u)) % 2 ^ 32 ≡ t - u
elapsed t u before fits = omega arith

module _ {F : Type 0} ⦃na : Sodium⦄ ⦃en : Entropy⦄ where
  -- A session that is up stays up at a tick, within the first 2 ^ 32 milliseconds of the clock, unless
  -- more than 8000 ms have passed since the last packet, and is down then.
  pub tick-established :
      (t : ℕ) (s : ClientSession F)
      → s.established ≡ true
      → 0 < s.last_rx
      → s.last_rx ≤ t
      → t < 2 ^ 32
      → (tick t s).0.established ≡ not (ltb 8000 (t - s.last_rx))
  unfolding tick
  tick-established t s up heard before fits =
      rw (up, tick) (ground (arith, elapsed t s.last_rx before fits))

  -- A packet that is heard in the millisecond after `tick` has read the clock takes a session down.
  pub tick-raced :
      (t : ℕ) (s : ClientSession F)
      → s.last_rx ≡ t + 1
      → t + 1 < 2 ^ 32
      → (tick t s).0.established ≡ false
  unfolding tick
  tick-raced t s later fits =
      let gap : (t + (2 ^ 32 - s.last_rx)) % 2 ^ 32 ≡ 2 ^ 32 - 1 = omega arith in
      elim (Bool-cases s.established) [
        | inr down ↦ rw (down, tick) refl
        | inl up ↦ rw (up, tick) (ground (arith, gap))
      ]

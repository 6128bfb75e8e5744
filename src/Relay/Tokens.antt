-- ===== src/Relay/Tokens.antt =====
-- relay/src/relay.cpp: tokens and the sessions that they open.
use omp_voice.Base.{
  ℕ, ◌≡◌, refl, ap, sym, subst, All, ◌++◌, Bool, ◌∙◌, inl, inr, ◌⊎◌, true, false, not, ◌&&◌, List,
  [], ◌∷◌, some, length, nat_beq, nat_eq, leb, arith, Option-cases, Bool-cases,
}
use omp_voice.Protocol.{HandshakeReq, protocol_version_major}
use omp_voice.Base.Float.{FloatOps}
use omp_voice.Crypto.{Sodium, KeyPair, derive_session}
use omp_voice.Relay.{Address, PendingToken, Relay, bytes_beq, is_expired, find_token, erase_token}
use omp_voice.Relay.Send.{Entropy}
use omp_voice.Relay.Handshake.{is_foreign, establish, handshake_req}
use omp_voice.Relay.Keeps.{send_roster-Keeps}

-- Whether the entry is alive and has the token.
abbrev pub serves : ℕ → List ℕ → PendingToken → Bool
serves now token p = not (is_expired now p) && bytes_beq p.token token

-- The list `left` is `listed` without the first entry that is alive and has the token, which is `p`.
pub record Taken (now : ℕ) (token : List ℕ) (p : PendingToken) (listed left : List PendingToken)
    : Type 0 where
  pub before : List PendingToken
  pub after : List PendingToken
  pub earlier : All (λ q. serves now token q ≡ false) before
  pub split : listed ≡ before ++ p ∷ after
  pub rest : left ≡ before ++ after

find_token_lem :
    (now : ℕ) (token : List ℕ) (ps : List PendingToken) (p : PendingToken)
    → find_token now token ps ≡ some p
    → (is_expired now p ≡ false)
      × (bytes_beq p.token token ≡ true)
      × Taken now token p ps (erase_token now token ps)
unfolding find_token erase_token
find_token_lem now token [] p h = ground arith
find_token_lem now token (q ∷ qs) p h = elim (Bool-cases (serves now token q)) [
  | inl here ↦
      let same : q ≡ p = ground (arith, here) in
      (
        ground arith,
        ground arith,
        record {
          before = [];
          after = qs;
          earlier = tt;
          split = ap (λ z. z ∷ qs) same;
          rest = rw here refl;
        },
      )
  | inr there ↦
      let (alive, matches, t) = find_token_lem now token qs p (ground arith) in
      (
        alive,
        matches,
        record {
          before = q ∷ t.before;
          after = t.after;
          earlier = (there, t.earlier);
          split = ap (λ z. q ∷ z) t.split;
          rest = rw there (ap (λ z. q ∷ z) t.rest);
        },
      )
]

-- What a handshake that changes the sessions has shown, and taken.
pub record Authorized {F D E : Type 0} (now : ℕ) (from : Address) (req : HandshakeReq)
    (r r' : Relay F D E) : Type 0 where
  pub token : PendingToken
  pub alive : is_expired now token ≡ false
  pub matches : bytes_beq token.token req.token ≡ true
  pub at_home : is_foreign r.ip_secondary_check from token ≡ false
  pub version : nat_beq req.ver_major protocol_version_major ≡ true
  pub room : leb r.max_players (length r.sessions) ≡ false
  pub taken : Taken now req.token token r.pending r'.pending

module _ {F D E : Type 0} ⦃fl : FloatOps F⦄ ⦃na : Sodium⦄ ⦃en : Entropy⦄ where
  establish-pending :
      (now : ℕ) (from : Address) (pid : ℕ) (self : KeyPair) (key : List ℕ) (r : Relay F D E)
      → (establish now from pid self key r).0.pending ≡ r.pending
  unfolding establish
  establish-pending now from pid self key r = elim (Option-cases (derive_session self key false)) [
    | inl failed ↦ rw (failed, establish) refl
    | inr (keys, derived) ↦ rw (derived, establish) ((send_roster-Keeps pid r.names _).pending)
  ]

  -- A handshake leaves the sessions as they are, or it has shown a token that is listed, alive, the
  -- same byte for byte, and not bound to another address, at the right version and with room for
  -- a session; the list is then the old one without that entry, which was the first in it that is
  -- alive and the same, and all else in its order.
  pub handshake_req-Authorized :
      (now : ℕ) (from : Address) (self : KeyPair) (req : HandshakeReq) (r : Relay F D E)
      → let r' = (handshake_req now from self req r).0 in
        (r'.sessions ≡ r.sessions) ⊎ Authorized now from req r r'
  unfolding handshake_req
  handshake_req-Authorized now from self req r =
      elim (Bool-cases (nat_beq req.ver_major protocol_version_major)) [
        | inr old ↦ rw old (inl refl)
        | inl current ↦ elim (Bool-cases (leb r.max_players (length r.sessions))) [
          | inl full ↦ rw (current, full) (inl refl)
          | inr free ↦ elim (Option-cases (find_token now req.token r.pending)) [
            | inl unknown ↦ rw (current, free) (rw unknown (inl refl))
            | inr (p, found) ↦ elim (Bool-cases (is_foreign r.ip_secondary_check from p)) [
              | inl foreign ↦ rw (current, free) (rw found (rw foreign (inl refl)))
              | inr home ↦
                  let (alive, matches, taken) = find_token_lem now req.token r.pending p found in
                  let next = record r { pending = erase_token now req.token r.pending } in
                  let opened : (handshake_req now from self req r).0
                      ≡ (establish now from p.player_id self req.client_pub_key next).0 =
                    rw (current, free) (rw found (rw home refl)) in
                  inr (record {
                    token = p;
                    alive = alive;
                    matches = matches;
                    at_home = home;
                    version = current;
                    room = free;
                    taken =
                        subst (Taken now req.token p r.pending)
                          (sym (
                            ap (λ z. z.pending) opened
                            ∙ establish-pending now from p.player_id self req.client_pub_key next))
                          taken;
                  })
            ]
          ]
        ]
      ]

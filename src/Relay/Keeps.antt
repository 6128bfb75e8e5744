-- ===== src/Relay/Keeps.antt =====
-- relay/src/relay.cpp: what sending does to a relay.
use omp_voice.Base.Float.{FloatOps}
use omp_voice.Base.{
  ℕ, ◌≡◌, refl, ◌∙◌, List, [], ◌∷◌, some, Map, lookup, lookup-put, over, Distinct, put-Distinct,
  nat_eq, arith, Option-cases, inl, inr,
}
use omp_voice.Engine.{Output, proximity_down, bus_down, status}
use omp_voice.Crypto.{Sodium}
use omp_voice.Relay.{Session, Relay, with_session}
use omp_voice.Relay.Send.{
  Entropy, emit_to_player, send_name, announce, send_roster, deliver_one, deliver, count_up,
}

-- A session without its outbound counter.
abbrev pub uncounted : Session → Session
uncounted s = record s { tx_counter = 0 }

pub record Keeps {F D E : Type 0} (r r' : Relay F D E) : Type 0 where
  pub engine : r'.engine ≡ r.engine
  pub bridge : r'.bridge ≡ r.bridge
  pub addr_index : r'.addr_index ≡ r.addr_index
  pub pending : r'.pending ≡ r.pending
  pub sessions :
      (pid : ℕ) → over uncounted (lookup pid r'.sessions) ≡ over uncounted (lookup pid r.sessions)
  pub distinct : Distinct r.sessions → Distinct r'.sessions

module _ {F D E : Type 0} where
  pub Keeps-refl : (r : Relay F D E) → Keeps r r
  Keeps-refl r = record {
    engine = refl;
    bridge = refl;
    addr_index = refl;
    pending = refl;
    sessions = λ pid. refl;
    distinct = λ d. d;
  }

  pub Keeps-trans : (r₁ r₂ r₃ : Relay F D E) → Keeps r₁ r₂ → Keeps r₂ r₃ → Keeps r₁ r₃
  Keeps-trans r₁ r₂ r₃ h k = record {
    engine = k.engine ∙ h.engine;
    bridge = k.bridge ∙ h.bridge;
    addr_index = k.addr_index ∙ h.addr_index;
    pending = k.pending ∙ h.pending;
    sessions = λ pid. k.sessions pid ∙ h.sessions pid;
    distinct = λ d. k.distinct (h.distinct d);
  }

  with_session-Keeps :
      (pid : ℕ) (s s' : Session) (r : Relay F D E)
      → lookup pid r.sessions ≡ some s
      → uncounted s' ≡ uncounted s
      → Keeps r (with_session pid s' r)
  with_session-Keeps pid s s' r found same = record {
    engine = refl;
    bridge = refl;
    addr_index = refl;
    pending = refl;
    sessions = λ j. ground (arith, lookup-put pid j s' r.sessions, same);
    distinct = put-Distinct pid s' r.sessions;
  }

module _ {F D E : Type 0} ⦃na : Sodium⦄ ⦃en : Entropy⦄ where
  pub emit_to_player-Keeps :
      (pid : ℕ) (payload : List ℕ) (r : Relay F D E) → Keeps r (emit_to_player pid payload r).0
  unfolding emit_to_player
  emit_to_player-Keeps pid payload r = elim (Option-cases (lookup pid r.sessions)) [
    | inl e ↦ rw (e, emit_to_player) (Keeps-refl r)
    | inr (s, e) ↦ rw (e, emit_to_player) (with_session-Keeps pid s (count_up s) r e refl)
  ]

  pub announce-Keeps :
      (who : ℕ) (name : List ℕ) (ss : Map ℕ Session) (r : Relay F D E)
      → Keeps r (announce who name ss r).0
  unfolding announce send_name
  announce-Keeps who name [] r = Keeps-refl r
  announce-Keeps who name ((to, s) ∷ ss) r =
      Keeps-trans r (send_name to who name r).0 (announce who name ((to, s) ∷ ss) r).0
        (emit_to_player-Keeps to _ r) (announce-Keeps who name ss (send_name to who name r).0)

  pub send_roster-Keeps :
      (to : ℕ) (ns : Map ℕ (List ℕ)) (r : Relay F D E) → Keeps r (send_roster to ns r).0
  unfolding send_roster send_name
  send_roster-Keeps to [] r = Keeps-refl r
  send_roster-Keeps to ((who, name) ∷ ns) r =
      Keeps-trans r (send_name to who name r).0 (send_roster to ((who, name) ∷ ns) r).0
        (emit_to_player-Keeps to _ r) (send_roster-Keeps to ns (send_name to who name r).0)

  deliver_one-Keeps :
      ⦃fl : FloatOps F⦄ → (o : Output F) (r : Relay F D E) → Keeps r (deliver_one o r).0
  unfolding deliver_one
  deliver_one-Keeps (proximity_down to hdr opus) r = emit_to_player-Keeps to _ r
  deliver_one-Keeps (bus_down to hdr opus) r = emit_to_player-Keeps to _ r
  deliver_one-Keeps (status ev pid cid f) r = Keeps-refl r

  pub deliver-Keeps :
      ⦃fl : FloatOps F⦄ → (os : List (Output F)) (r : Relay F D E) → Keeps r (deliver os r).0
  unfolding deliver
  deliver-Keeps [] r = Keeps-refl r
  deliver-Keeps (o ∷ os) r =
      Keeps-trans r (deliver_one o r).0 (deliver (o ∷ os) r).0 (deliver_one-Keeps o r)
        (deliver-Keeps os (deliver_one o r).0)

-- ===== src/Restart/Window.antt =====
-- When the watchdog gives up: the pruned list of crashes against the whole history.
use omp_voice.Base.{
  ℕ, ◌+◌, ◌-◌, ◌^◌, ◌≤◌, ◌<◌, ◌≡◌, refl, ap, ◌∙◌, ◌⊎◌, inl, inr, Bool, true, false, not, ◌&&◌, ◌||◌,
  List, [], ◌∷◌, ◌++◌, arith, ltb, leb, length, All, Bool-cases, if◌then◌else◌,
}
use mathlib.Core.Path.{ap₂}
use omp_voice.Restart.{
  RestartTuning, RestartPolicy, launch, prune, after_wait, decide, on_crash, sub64, reset_healthy,
  Watchdog, Round, round, rounds, after_decision,
}

-- How many of the times are at most `window` before `now`.
pub recent : ℕ → ℕ → List ℕ → ℕ
recent window now [] = 0
recent window now (c ∷ cs) = (if leb now (c + window) then 1 else 0) + recent window now cs

-- Whether some crash, in order, is one too many among those within the window before it.
pub overloaded : ℕ → ℕ → List ℕ → List ℕ → Bool
unfolding recent
overloaded window most past [] = false
overloaded window most past (c ∷ cs) =
    ltb most (recent window c (past ++ c ∷ [])) || overloaded window most (past ++ c ∷ []) cs

-- The times at which the loop finds the relay dead.
pub crash_times : List Round → List ℕ
crash_times [] = []
crash_times (r ∷ rs) =
    let rest = crash_times rs in if r.run && not r.alive then r.now ∷ rest else rest

-- The clock does not go back, and stays within 64 bits.
abbrev pub Ascends : ℕ → List Round → Type 0
Ascends t [] = Unit {0}
Ascends t (r ∷ rs) = (t ≤ r.now) × (r.now < 2 ^ 64) × Ascends r.now rs

sub64-eq : (a b : ℕ) → b ≤ a → a < 2 ^ 64 → sub64 a b ≡ a - b
unfolding sub64
sub64-eq a b h k = omega arith

length-prune :
    (window now : ℕ) (cs : List ℕ)
    → now < 2 ^ 64
    → All (λ c. c ≤ now) cs
    → length (prune window now cs) ≡ recent window now cs
unfolding prune recent
length-prune window now [] b h = refl
length-prune window now (c ∷ cs) b h =
    ground (arith, sub64-eq now c h.0 b, length-prune window now cs b h.1)

-- Pruning at an earlier time first makes no difference.
prune-prune :
    (window t now : ℕ) (cs ds : List ℕ)
    → t ≤ now
    → now < 2 ^ 64
    → All (λ c. c ≤ t) cs
    → prune window now (prune window t cs ++ ds) ≡ prune window now (cs ++ ds)
unfolding prune
prune-prune window t now [] ds h b a = refl
prune-prune window t now (c ∷ cs) ds h b a = ground (
  arith,
  sub64-eq t c a.0 (omega arith),
  sub64-eq now c (omega arith) b,
  prune-prune window t now cs ds h b a.1,
)

All-snoc :
    (t now : ℕ) (cs : List ℕ) → t ≤ now → All (λ c. c ≤ t) cs → All (λ c. c ≤ now) (cs ++ now ∷ [])
All-snoc t now [] h a = (omega arith, tt)
All-snoc t now (c ∷ cs) h a = (omega arith, All-snoc t now cs h a.1)

-- What a round leaves of the watchdog, if it finds the relay dead.
record Counts (most now : ℕ) (cs : List ℕ) (p : RestartPolicy) (w : Watchdog) : Type 0 where
  gave_up : w.gave_up ≡ ltb most (length cs)
  crashes : w.policy.crashes ≡ cs
  tuning : w.policy.tuning ≡ p.tuning

round-Counts :
    (r : Round) (w : Watchdog)
    → w.gave_up ≡ false
    → (r.run && not r.alive) ≡ true
    → Counts w.policy.max_in_window r.now
        (prune w.policy.window_ms r.now (w.policy.crashes ++ r.now ∷ []))
        w.policy
        (round r w).0
unfolding round decide after_wait on_crash after_decision reset_healthy
round-Counts r w g d = record {
  gave_up = ground arith;
  crashes = ground arith;
  tuning = ground arith;
}

round_idle :
    (r : Round) (w : Watchdog)
    → (w.gave_up ≡ true) ⊎ ((r.run && not r.alive) ≡ false)
    → (round r w).0 ≡ w
unfolding round
round_idle r w h = ground arith

rounds_given_up : (rs : List Round) (w : Watchdog) → w.gave_up ≡ true → rounds rs w ≡ w
unfolding rounds
rounds_given_up [] w h = refl
rounds_given_up (r ∷ rs) w h = rw (round_idle r w (inl h)) (rounds_given_up rs w h)

Ascends-weaken : (t t' : ℕ) (rs : List Round) → t ≤ t' → Ascends t' rs → Ascends t rs
Ascends-weaken t t' [] h m = tt
Ascends-weaken t t' (r ∷ rs) h m = (omega arith, m.1, m.2)

-- The list after a crash is that of the whole history.
window-history :
    (t : ℕ) (past : List ℕ) (tuning : RestartTuning) (r : Round) (p : RestartPolicy)
    → p.tuning ≡ tuning
    → p.crashes ≡ prune tuning.window_ms t past
    → All (λ c. c ≤ t) past
    → t ≤ r.now
    → r.now < 2 ^ 64
    → prune p.window_ms r.now (p.crashes ++ r.now ∷ [])
      ≡ prune tuning.window_ms r.now (past ++ r.now ∷ [])
window-history t past tuning r p u c a h k =
    rw (u, c) (prune-prune tuning.window_ms t r.now past (r.now ∷ []) h k a)

rounds-overloaded :
    (rs : List Round) (t : ℕ) (past : List ℕ) (tuning : RestartTuning) (w : Watchdog)
    → w.gave_up ≡ false
    → w.policy.tuning ≡ tuning
    → w.policy.crashes ≡ prune tuning.window_ms t past
    → All (λ c. c ≤ t) past
    → t < 2 ^ 64
    → Ascends t rs
    → (rounds rs w).gave_up ≡ overloaded tuning.window_ms tuning.max_in_window past (crash_times rs)
unfolding rounds overloaded crash_times
rounds-overloaded [] t past tuning w g u c a b m = g
rounds-overloaded (r ∷ rs) t past tuning w g u c a b m = elim (Bool-cases (r.run && not r.alive)) [
  | inr e ↦ rw e (
      ap (λ v. (rounds rs v).gave_up) (round_idle r w (inr e))
      ∙ rounds-overloaded rs t past tuning w g u c a b (Ascends-weaken t r.now rs m.0 m.2))
  | inl e ↦
      let n = round-Counts r w g e in
      let same = window-history t past tuning r w.policy u c a m.0 m.1 in
      let below = All-snoc t r.now past m.0 a in
      let size = length-prune tuning.window_ms r.now (past ++ r.now ∷ []) m.1 below in
      let most : w.policy.max_in_window ≡ tuning.max_in_window = ap (λ q. q.max_in_window) u in
      let test = n.gave_up ∙ ap₂ ltb most (ap length same ∙ size) in
      rw e
        (elim (Bool-cases
          (ltb tuning.max_in_window (recent tuning.window_ms r.now (past ++ r.now ∷ [])))) [
            | inl over ↦
                rw over (
                  ap (λ v. v.gave_up) (rounds_given_up rs (round r w).0 (test ∙ over))
                  ∙ test
                  ∙ over)
            | inr under ↦ rw under (
                rounds-overloaded rs r.now (past ++ r.now ∷ []) tuning (round r w).0 (test ∙ under)
                  (n.tuning ∙ u) (n.crashes ∙ same) below m.1 m.2)
          ])
]

-- Over rounds whose times ascend and fit 64 bits, the watchdog that `launch` starts gives up exactly if some crash is one
-- too many within the window before it, whatever else its rounds see.
pub rounds-gave_up :
    (started : ℕ) (tuning : RestartTuning) (rs : List Round)
    → Ascends 0 rs
    → (rounds rs (launch started tuning)).gave_up
      ≡ overloaded tuning.window_ms tuning.max_in_window [] (crash_times rs)
unfolding launch prune
rounds-gave_up started tuning rs m =
    rounds-overloaded rs 0 [] tuning (launch started tuning) refl refl refl tt (omega arith) m

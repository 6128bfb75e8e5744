-- ===== src/Restart/Delay.antt =====
-- shared/relay_launcher.h: how long the watchdog waits before it starts the relay again.
use omp_voice.Base.{
  ℕ, zero, suc, ◌+◌, ◌-◌, ◌*◌, ◌/◌, ◌%◌, ◌^◌, ◌≤◌, ◌<◌, min, ◌≡◌, refl, ap, sym, ◌∙◌, inl, inr,
  Bool, true, false, not, ◌&&◌, List, [], ◌∷◌, ◌++◌, arith, ltb, Bool-cases, if◌then◌else◌,
}
use omp_voice.Restart.Backoff.{backoff_ms-eq, backoff_ms-le}
use omp_voice.Restart.{
  RestartPolicy, RestartAction, Watchdog, Round, SystemCall, sleep_for, spawn, wait_out, after_wait,
  after_decision, decide, on_crash, reset_healthy, backoff_ms, round, give_up, wait, respawn,
}

-- The time slept before the first start.
pub slept : List SystemCall → ℕ
slept [] = 0
slept (sleep_for ms ∷ cs) = ms + slept cs
slept (spawn ∷ cs) = 0

pub starts : List SystemCall → ℕ
starts [] = 0
starts (sleep_for ms ∷ cs) = starts cs
starts (spawn ∷ cs) = 1 + starts cs

-- The wait is whole hundreds of milliseconds, the delay rounded up.
slept-wait_out :
    (awake : ℕ → Bool) (delay fuel i : ℕ) (cs : List SystemCall)
    → ((j : ℕ) → awake j ≡ true)
    → delay + 100 ≤ 2 ^ 32
    → delay ≤ (i + fuel) * 100
    → i * 100 < delay + 100
    → (slept (wait_out awake delay fuel i ++ cs) ≡ ((delay + 99) / 100 - i) * 100 + slept cs)
      × (starts (wait_out awake delay fuel i ++ cs) ≡ starts cs)
unfolding slept starts wait_out
slept-wait_out awake delay zero i cs on small enough here = (omega arith, refl)
slept-wait_out awake delay (suc fuel) i cs on small enough here =
    elim (Bool-cases (ltb (i * 100 % 2 ^ 32) delay)) [
      | inl more ↦
          let (time, count) =
            slept-wait_out awake delay fuel (i + 1) cs on small (omega arith) (ground arith) in
          rw (more, on i) (ground (arith, time), count)
      | inr over ↦ rw over (ground arith, refl)
    ]

after_wait_lem :
    (r : Round) (p : RestartPolicy)
    → ((j : ℕ) → r.awake j ≡ true)
    → backoff_ms p + 100 ≤ 2 ^ 32
    → (slept (after_wait r p).1 ≡ (backoff_ms p + 99) / 100 * 100)
      × (starts (after_wait r p).1 ≡ (if r.run_after && not r.alive_after then 1 else 0))
unfolding after_wait slept starts
after_wait_lem r p on small = elim (Bool-cases (r.run_after && not r.alive_after)) [
  | inl tries ↦
      let (time, count) =
        slept-wait_out r.awake (backoff_ms p) (backoff_ms p / 100 + 1) 0 (spawn ∷ []) on small
          (omega arith) (omega arith) in
      rw tries (omega (arith, time), count)
  | inr idle ↦
      let (time, count) =
        slept-wait_out r.awake (backoff_ms p) (backoff_ms p / 100 + 1) 0 [] on small (omega arith)
          (omega arith) in
      rw idle (omega (arith, time), count)
]

after_decision_lem :
    (r : Round) (act : RestartAction) (p : RestartPolicy)
    → (after_decision r (act, p)).0.gave_up ≡ false
    → after_decision r (act, p) ≡ after_wait r p
unfolding after_decision
after_decision_lem r give_up p goes = ground (arith, goes)
after_decision_lem r wait p goes = refl
after_decision_lem r respawn p goes = refl

decide-delay : (now : ℕ) (p : RestartPolicy) → backoff_ms (decide now p).1 ≡ backoff_ms p
unfolding decide backoff_ms
decide-delay now p = ground arith

round-dead :
    (r : Round) (w : Watchdog)
    → w.gave_up ≡ false
    → r.run ≡ true
    → r.alive ≡ false
    → let d = after_decision r (decide r.now (on_crash r.now w.policy)) in
      round r w ≡ (d.0, sleep_for 250 ∷ d.1)
unfolding round
round-dead r w going run dead = rw going (rw run (rw dead refl))

on_crash-tuning : (now : ℕ) (p : RestartPolicy) → (on_crash now p).tuning ≡ p.tuning
unfolding on_crash reset_healthy
on_crash-tuning now p = ground arith

-- A round that finds the relay dead, and does not give up, sleeps 250 ms and then the delay, rounded
-- up to whole hundreds of milliseconds, if the run flag stays on through the wait, and base and top
-- are small enough for 32 bits. The delay is base * 2 ^ (n - 1) after `n` crashes in a row, or the
-- top if that is less. Only after it does the round start the relay, once, exactly if the run flag
-- is still on and the relay still dead.
pub round-waits :
    (r : Round) (w : Watchdog)
    → w.gave_up ≡ false
    → r.run ≡ true
    → r.alive ≡ false
    → ((j : ℕ) → r.awake j ≡ true)
    → w.policy.base_delay_ms < 2 ^ 32
    → w.policy.max_delay_ms + 100 ≤ 2 ^ 32
    → (round r w).0.gave_up ≡ false
    → let q = on_crash r.now w.policy in
      let delay = min w.policy.max_delay_ms (w.policy.base_delay_ms * 2 ^ (q.consecutive - 1)) in
      (slept (round r w).1 ≡ 250 + (delay + 99) / 100 * 100)
      × (starts (round r w).1 ≡ (if r.run_after && not r.alive_after then 1 else 0))
unfolding slept starts
round-waits r w going run dead on base top goes =
    let q = on_crash r.now w.policy in
    let d = decide r.now q in
    let dead_round = round-dead r w going run dead in
    let waits = after_decision_lem r d.0 d.1 (ap (λ z. z.0.gave_up) (sym dead_round) ∙ goes) in
    let kept = on_crash-tuning r.now w.policy in
    let same_base : q.base_delay_ms ≡ w.policy.base_delay_ms = ap (λ u. u.base_delay_ms) kept in
    let same_top : q.max_delay_ms ≡ w.policy.max_delay_ms = ap (λ u. u.max_delay_ms) kept in
    let delay : backoff_ms q
        ≡ min w.policy.max_delay_ms (w.policy.base_delay_ms * 2 ^ (q.consecutive - 1)) =
      backoff_ms-eq q (omega arith) (omega arith)
      ∙ ap (λ u. min u.max_delay_ms (u.base_delay_ms * 2 ^ (q.consecutive - 1))) kept in
    let same = decide-delay r.now q in
    let (time, count) = after_wait_lem r d.1 on (omega (arith, same, backoff_ms-le q)) in
    (
      ap (λ z. slept z.1) dead_round
          ∙ ap (λ z. 250 + slept z.1) waits
          ∙ omega (arith, time, same, delay),
      ap (λ z. starts z.1) dead_round ∙ ap (λ z. starts z.1) waits ∙ count,
    )

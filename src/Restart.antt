-- ===== src/Restart.antt =====
-- shared/restart_policy.h and the watchdog of shared/relay_launcher.h. Times are uint64_t
-- milliseconds; a difference of times wraps as in the source.
pub mod Backoff
pub mod Window
pub mod Delay
use omp_voice.Base.{
  ℕ, zero, suc, ◌+◌, ◌-◌, ◌*◌, ◌/◌, ◌%◌, ◌^◌, Bool, true, false, not, ◌&&◌, ◌||◌, List, [], ◌∷◌,
  ◌++◌, ltb, leb, nat_beq, length, if◌then◌else◌,
}

pub record RestartTuning : Type 0 where
  pub base_delay_ms : ℕ
  pub max_delay_ms : ℕ
  pub window_ms : ℕ
  pub max_in_window : ℕ
  pub healthy_after_ms : ℕ

abbrev pub default_tuning : RestartTuning
default_tuning = record {
  base_delay_ms = 500;
  max_delay_ms = 30000;
  window_ms = 60000;
  max_in_window = 6;
  healthy_after_ms = 15000;
}

pub data RestartAction : Type 0 where
  respawn wait give_up : RestartAction

pub record RestartPolicy : Type 0 where
  pub tuning : RestartTuning
  pub open tuning use *
  pub crashes : List ℕ
  pub consecutive : ℕ
  pub last_spawn_ms : ℕ
  pub next_allowed_ms : ℕ

pub new_policy : RestartTuning → RestartPolicy
new_policy t = record {
  tuning = t;
  crashes = [];
  consecutive = 0;
  last_spawn_ms = 0;
  next_allowed_ms = 0;
}

-- uint64_t a - b and a + b.
unfoldable pub sub64 : ℕ → ℕ → ℕ
sub64 a b = (a + 2 ^ 64 - b) % 2 ^ 64

unfoldable pub add64 : ℕ → ℕ → ℕ
add64 a b = (a + b) % 2 ^ 64

-- for (i = 1; i < consecutive && d < max; ++i) d *= 2, with the rounds left.
double_up : ℕ → ℕ → ℕ → ℕ
double_up zero cap d = d
double_up (suc rounds) cap d =
    let rest = double_up rounds cap (d * 2 % 2 ^ 64) in if ltb d cap then rest else d

unfoldable pub backoff_ms : RestartPolicy → ℕ
unfolding double_up
backoff_ms p =
    let d = double_up (p.consecutive - 1) p.max_delay_ms p.base_delay_ms in
    if ltb p.max_delay_ms d then p.max_delay_ms else d

reset_healthy : ℕ → RestartPolicy → RestartPolicy
unfolding sub64
reset_healthy now p =
    if not (nat_beq p.last_spawn_ms 0) && leb p.healthy_after_ms (sub64 now p.last_spawn_ms)
    then record p { consecutive = 0 }
    else p

unfoldable pub on_crash : ℕ → RestartPolicy → RestartPolicy
unfolding reset_healthy add64
on_crash now p =
    let q = reset_healthy now p in
    let r = record q {
      crashes = q.crashes ++ now ∷ [];
      consecutive = (q.consecutive + 1) % 2 ^ 32;
    } in
    record r { next_allowed_ms = add64 now (backoff_ms r) }

pub on_spawn : ℕ → RestartPolicy → RestartPolicy
on_spawn now p = record p { last_spawn_ms = now }

-- The crashes at most `window` ms before `now`, in order.
pub prune : ℕ → ℕ → List ℕ → List ℕ
unfolding sub64
prune window now [] = []
prune window now (c ∷ cs) =
    let rest = prune window now cs in if leb (sub64 now c) window then c ∷ rest else rest

pub prune_window : ℕ → RestartPolicy → RestartPolicy
unfolding prune
prune_window now p = record p { crashes = prune p.window_ms now p.crashes }

pub decide : ℕ → RestartPolicy → RestartAction × RestartPolicy
unfolding prune_window
decide now p =
    let q = prune_window now p in
    if ltb q.max_in_window (length q.crashes)
    then (give_up, q)
    else if not (nat_beq q.next_allowed_ms 0) && ltb now q.next_allowed_ms
    then (wait, q)
    else (respawn, q)

-- The watchdog thread: the policy and `gaveUp`.
pub record Watchdog : Type 0 where
  pub policy : RestartPolicy
  pub gave_up : Bool

-- What one round of the loop sees: the run flag and `alive()` before the wait, the clock, the run flag
-- at each test of the wait, what they are after it, what `spawn()` returns, and the clock then.
pub record Round : Type 0 where
  pub run : Bool
  pub alive : Bool
  pub now : ℕ
  pub awake : ℕ → Bool
  pub run_after : Bool
  pub alive_after : Bool
  pub spawned : Bool
  pub now_after : ℕ

-- What the thread asks of the system.
pub data SystemCall : Type 0 where
  sleep_for : ℕ → SystemCall
  spawn : SystemCall

-- for (w = 0; w < wait && g_watchdogRun; w += 100) sleep_for(100), from turn `i`; `wait` is `delay`.
wait_out : (ℕ → Bool) → ℕ → ℕ → ℕ → List SystemCall
wait_out awake delay zero i = []
wait_out awake delay (suc fuel) i =
    let rest = wait_out awake delay fuel (i + 1) in
    if ltb (i * 100 % 2 ^ 32) delay && awake i then sleep_for 100 ∷ rest else []

after_wait : Round → RestartPolicy → Watchdog × List SystemCall
unfolding on_spawn wait_out
after_wait r p =
    let delay = backoff_ms p in
    let tries = r.run_after && not r.alive_after in
    (
      record { policy = if tries && r.spawned then on_spawn r.now_after p else p; gave_up = false },
      wait_out r.awake delay (delay / 100 + 1) 0 ++ (if tries then spawn ∷ [] else []),
    )

after_decision : Round → RestartAction × RestartPolicy → Watchdog × List SystemCall
unfolding after_wait
after_decision r (give_up, p) = (record { policy = p; gave_up = true }, [])
after_decision r (wait, p) = after_wait r p
after_decision r (respawn, p) = after_wait r p

unfoldable pub round : Round → Watchdog → Watchdog × List SystemCall
unfolding on_crash decide after_decision
round r w =
    let (w', calls) =
      if w.gave_up || not r.run
      then (w, [])
      else if r.alive
      then (w, [])
      else after_decision r (decide r.now (on_crash r.now w.policy)) in
    (w', sleep_for 250 ∷ calls)

pub rounds : List Round → Watchdog → Watchdog
unfolding round
rounds [] w = w
rounds (r ∷ rs) w = rounds rs (round r w).0

-- The watchdog that `launch` starts, at the time of the first start of the relay.
pub launch : ℕ → RestartTuning → Watchdog
unfolding new_policy on_spawn
launch started tuning = record { policy = on_spawn started (new_policy tuning); gave_up = false }

-- ===== src/Tests/Watchdog.antt =====
-- Runs of the watchdog at concrete inputs.
use omp_voice.Base.{◌-◌, ◌*◌, ◌^◌, min, ◌≡◌, refl, true, false, List, [], ◌∷◌, arith, nat_eq}
use omp_voice.Restart.{
  RestartPolicy, Round, default_tuning, backoff_ms, rounds, launch, Watchdog, round, on_crash,
}
use omp_voice.Restart.Backoff.{backoff_ms-eq}
use omp_voice.Restart.Window.{overloaded, crash_times, rounds-gave_up}
use omp_voice.Restart.Delay.{slept, starts, round-waits}

abbrev test_crashes : RestartPolicy
test_crashes = record {
  tuning = default_tuning;
  crashes = 100 ∷ 900 ∷ [];
  consecutive = 2;
  last_spawn_ms = 600;
  next_allowed_ms = 1900;
}

backoff_ms-eq_example : backoff_ms test_crashes ≡ min 30000 (500 * 2 ^ (2 - 1))
backoff_ms-eq_example = backoff_ms-eq test_crashes (omega arith) (omega arith)

abbrev test_rounds : List Round
test_rounds =
    record {
      run = true;
      alive = false;
      now = 1000;
      awake = λ i. true;
      run_after = true;
      alive_after = false;
      spawned = true;
      now_after = 1600;
    }
    ∷ record {
      run = true;
      alive = false;
      now = 2000;
      awake = λ i. true;
      run_after = true;
      alive_after = false;
      spawned = true;
      now_after = 3100;
    }
    ∷ []

rounds-gave_up_example :
    (rounds test_rounds (launch 10 default_tuning)).gave_up
    ≡ overloaded 60000 6 [] (crash_times test_rounds)
rounds-gave_up_example =
    rounds-gave_up 10 default_tuning test_rounds
      (omega arith, omega arith, (omega arith, omega arith, tt))

-- A watchdog that has seen two crashes in a row, and a round that sees the third.
abbrev test_watchdog : Watchdog
test_watchdog = record { policy = test_crashes; gave_up = false }

abbrev test_round : Round
test_round = record {
  run = true;
  alive = false;
  now = 2000;
  awake = λ i. true;
  run_after = true;
  alive_after = false;
  spawned = true;
  now_after = 4100;
}

round-waits_example :
    (slept (round test_round test_watchdog).1 ≡ 2250)
    × (starts (round test_round test_watchdog).1 ≡ 1)
unfolding round on_crash backoff_ms
round-waits_example =
    round-waits test_round test_watchdog refl refl refl (λ j. refl) (omega arith) (omega arith) refl

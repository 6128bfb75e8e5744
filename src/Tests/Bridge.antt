-- ===== src/Tests/Bridge.antt =====
-- Runs of the bridge's side and of the configuration at concrete inputs.
use native.Mathlib.Nat.{pow-suc, div-mul-le_self, le-div_iff_mul-le, le_of_mul-le-mul_right}
use omp_voice.Base.Float.{milli}
use omp_voice.Base.{
  ℤ, pos, ℕ, zero, ◌+◌, ◌*◌, ◌/◌, ◌^◌, ◌≤◌, ◌<◌, ◌≡◌, refl, true, false, List, [], ◌∷◌, Option,
  none, some, lookup, suc, length, nat_eq, arith, All,
}
use omp_voice.Protocol as ProtocolTypes
use omp_voice.Protocol.{StatusEvent}
use omp_voice.Protocol.Commands.{ctrl_chan_create_codec, ctrl_chan_op_codec, status_event_codec}
use omp_voice.Registry.{empty_registry}
use omp_voice.Engine.{Engine, new_engine}
use omp_voice.Proximity.{default_prox_tuning}
use omp_voice.Link.{ControlLink, send, create, alloc, join}
use omp_voice.Link.Call.{Call, create_channel, join_channel, perform, perform_all}
use omp_voice.Link.Channels.{Agrees}
use omp_voice.Link.Arrive.{arrive}
use omp_voice.Link.Mirror.{AllFit, perform_all-Agrees}
use omp_voice.Link.Status.{drain, receive_all, statuses, drain-receive_all, receive_all-bound}
use omp_voice.Link.Fresh.{creates, create-fresh}
use omp_voice.Ini.{FloatReader, codes}
use omp_voice.Config.{load}
use omp_voice.Config.Limits.{LiteralOrder, WithinLimits, load-WithinLimits}
use omp_voice.Tests.{test_policy, test_radio, test_behavior, test_decoder, test_encoder}

abbrev test_bridge : ControlLink ℤ
test_bridge = record {
  valid = true;
  delivers = true;
  reg = empty_registry;
  next = 1;
  status_queue = [];
}

-- A radio channel with player 2.
abbrev bridge_calls : List (Call ℤ)
bridge_calls = create_channel ProtocolTypes.Filter.radio false 100 ∷ join_channel 2 1 ∷ []

abbrev first_engine : Engine ℤ Unit Unit
first_engine = new_engine default_prox_tuning test_policy test_radio test_behavior 2

bridge_calls-AllFit : AllFit bridge_calls test_bridge
unfolding perform create alloc join send ctrl_chan_create_codec ctrl_chan_op_codec
bridge_calls-AllFit = ground arith

perform_all-Agrees_example :
    Agrees
      (perform_all bridge_calls test_bridge).0.reg
      (arrive (perform_all bridge_calls test_bridge).1 first_engine).reg
perform_all-Agrees_example =
    perform_all-Agrees bridge_calls test_bridge first_engine refl bridge_calls-AllFit
      (record { channels = refl; same = λ pid. refl })

create-fresh_example :
    let l' = (perform_all bridge_calls test_bridge).0 in
    ((create ProtocolTypes.Filter.none true 50 l').0 ≡ creates bridge_calls + 1)
    × (lookup (create ProtocolTypes.Filter.none true 50 l').0 l'.reg.channels ≡ none)
create-fresh_example =
    create-fresh bridge_calls ProtocolTypes.Filter.none true 50 test_bridge refl refl (omega arith)

abbrev test_events : List StatusEvent
test_events =
    record { event = 1; player_id = 2; channel_id = 65535; flag = 0 }
    ∷ record { event = 4; player_id = 2; channel_id = 1; flag = 1 }
    ∷ []

events-Fits : All (status_event_codec).Fits test_events
unfolding status_event_codec
events-Fits = ground arith

drain-receive_all_example :
    drain (suc (length test_events)) (receive_all (statuses test_events) test_bridge) ≡ test_events
drain-receive_all_example = drain-receive_all test_events test_bridge events-Fits refl (omega arith)

receive_all-bound_example :
    length (receive_all (statuses test_events) test_bridge).status_queue ≤ 4096
receive_all-bound_example = receive_all-bound (statuses test_events) test_bridge (omega arith)

instance abbrev test_reader : FloatReader ℤ
test_reader = record { stof = λ s. some (pos 700) }

times_le : (a c q : ℕ) → a ≤ c → a * q ≤ c * q
times_le a c zero h = omega arith
times_le a c (suc q) h = omega (arith, times_le a c q h)

power_positive : (k : ℕ) → 0 < 10 ^ k
power_positive zero = omega arith
power_positive (suc k) = omega (arith, pow-suc 10 k, power_positive k)

quotients_le : (n m p q : ℕ) → 0 < p → 0 < q → n * p ≤ m * q → n * 1000 / q ≤ m * 1000 / p
quotients_le n m p q hp hq h =
    let x = n * 1000 / q in
    let one = times_le (x * q) (n * 1000) p (div-mul-le_self (n * 1000) q) in
    let two = times_le (n * p) (m * q) 1000 h in
    let three : x * p * q ≤ m * 1000 * q = omega (arith, one, two) in
    (le-div_iff_mul-le hp).1 (le_of_mul-le-mul_right three hq)

milli-lit_mono :
    (n k m j : ℕ) → n * 10 ^ j ≤ m * 10 ^ k → milli.lt (milli.lit m j) (milli.lit n k) ≡ false
milli-lit_mono n k m j h =
    let up = quotients_le n m (10 ^ j) (10 ^ k) (power_positive j) (power_positive k) h in
    ground arith

test_literals : LiteralOrder ℤ
test_literals = record { lit_mono = milli-lit_mono }

abbrev test_file : Option (List (List ℕ))
test_file = some (codes "[network]" ∷ codes "max_players = 5000 ; too many" ∷ [])

load-WithinLimits_example : WithinLimits (load {F = ℤ} test_file)
load-WithinLimits_example = load-WithinLimits test_literals test_file

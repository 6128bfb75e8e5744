-- ===== src/Tests/Sound.antt =====
-- Runs of the client's playback and connection loop at concrete inputs.
use omp_voice.Base.Float.{milli, milli_order}
use omp_voice.Base.{
  ℤ, pos, ℕ, ◌*◌, ◌^◌, min, ◌≡◌, refl, true, false, List, [], ◌∷◌, some, arith, length, All, ltb,
}
use omp_voice.Playback.{Frame, Stream, AudioPlayback, Concealer, render}
use omp_voice.Playback.Output.{InScale, UnitOrder, render-InScale}
use omp_voice.Tests.{test_decoder}
use omp_voice.Playback.Jitter.{Act, Steady, arrive, played, acts, acts-Steady, play, play-stops}
use omp_voice.Client.{latest, begin_connect}
use omp_voice.Client.Loop.{
  VoiceClient, Turn, AllFail, turn, turns, attempt, recv_all, turns-backoff,
}
use omp_voice.Tests.Network.{test_client, test_sodium, test_entropy, test_pair}

abbrev test_stream : Stream ℤ Unit
test_stream = record {
  decoder = some tt;
  jitter = [];
  lpf = pos 0;
  is_bus = false;
  target = 3;
  playing = true;
  starve = 8;
  stable = 0;
}

abbrev frame_at : ℕ → Frame ℤ
frame_at n = record { seq = n; opus = 9 ∷ []; volume = pos 500; pan = pos 0; occluded = false }

abbrev test_acts : List (Act ℤ)
test_acts = arrive (frame_at 4) ∷ arrive (frame_at 2) ∷ played ∷ []

acts-Steady_example : Steady (acts test_acts test_stream)
acts-Steady_example = acts-Steady test_acts test_stream (record {
  bounded = omega arith;
  in_order = tt;
  floor = omega arith;
  ceiling = omega arith;
  starving = omega arith;
})

play-stops_example : (play 2 test_stream).playing ≡ ltb 10 10
play-stops_example = play-stops 2 test_stream refl refl (omega arith) (omega arith)

instance abbrev test_concealer : Concealer Unit
test_concealer = record { conceal = λ d samples. d }

-- A playback in which the stream plays a frame.
abbrev test_playback : AudioPlayback ℤ Unit
test_playback = record {
  streams = (4, acts test_acts test_stream) ∷ [];
  spk_vol = [];
  spk_mute = [];
  master = pos 1000;
  deafen = false;
  proximity = pos 1000;
  radio = pos 1000;
}

milli_units : UnitOrder ℤ
milli_units = record { zero_fits = (refl, refl); apart = refl }

render-InScale_example :
    (length (render test_playback).1 ≡ 480) × All InScale (render test_playback).1
render-InScale_example = render-InScale milli_order milli_units test_playback

-- A client with a token that nobody answers.
abbrev lonely : VoiceClient ℤ
lonely = record {
  session = record test_client { established = false };
  inbox = record { have = true; tok = 4 ∷ []; pid = 2 };
  backoff = 250;
}

abbrev silent_turn : Turn
silent_turn = record { now = 1000; self = test_pair; arrived = [] }

lonely-AllFail : AllFail (silent_turn ∷ []) lonely
unfolding turn attempt begin_connect recv_all latest
lonely-AllFail = (refl, (4 ∷ [], 2, refl), refl, tt)

turns-backoff_example : (turns (silent_turn ∷ []) lonely).backoff ≡ min (250 * 2 ^ 1) 3000
turns-backoff_example = turns-backoff (silent_turn ∷ []) lonely lonely-AllFail (omega arith)

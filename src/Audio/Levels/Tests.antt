-- ===== src/Audio/Levels/Tests.antt =====
-- Runs of src/sona/audio/levels.py, with the sum of the bytes for a level.
use voice_realtime.Prelude.{◌≡◌, refl, ℕ, ◌+◌, List, [], ◌∷◌, none, some, arith}
use voice_realtime.Audio.Frame.{AudioSourceKind, microphone, physical_output, pos}
use voice_realtime.Audio.Levels.{
  Meter, ok, init, pcm16_level, set_level, is_due, publish, measured, update, clear, snapshot,
  published, after, run,
}
use voice_realtime.Audio.Levels.Throttle.{Spaced, run-Spaced}

sum : List ℕ → ℕ
sum [] = 0
sum (x ∷ xs) = x + sum xs

program : Unit {0}
unfolding sum init pcm16_level set_level is_due publish measured update clear snapshot published
    after run
program = tt

abbrev meter : Meter ℕ
meter = record {
  publish_interval_ns = 50;
  levels = record { microphone_level = 0; physical_output_level = 0; mixed = 0; updated_at_ns = 0 };
  last_publish_ns = none;
}

made : init 0 sum (pos 50) ≡ ok meter
unfolding program
made = refl

cleared :
    (l : Meter ℕ) × (clear 0 sum microphone (pos 7) meter ≡ ok l)
    × ((snapshot 0 sum l).updated_at_ns ≡ 7)
unfolding program
cleared = (
  record meter { levels = record meter.levels { updated_at_ns = 7 }; last_publish_ns = some 7 },
  refl,
  refl,
)

abbrev updates : List (AudioSourceKind × List ℕ × ℕ)
updates =
    (microphone, 1 ∷ 2 ∷ [], 10)
    ∷ (physical_output, 3 ∷ 4 ∷ [], 40)
    ∷ (microphone, 5 ∷ [], 60)
    ∷ (microphone, [], 61)
    ∷ []

-- The second is too early, the third raises, the fourth is published.
publishes : run 0 sum meter updates ≡ 10 ∷ 61 ∷ []
unfolding program
publishes = refl

run-Spaced_example : Spaced 50 none (run 0 sum meter updates)
run-Spaced_example = run-Spaced 0 sum meter 0 updates tt (omega arith)

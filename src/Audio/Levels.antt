-- ===== src/Audio/Levels.antt =====
-- src/sona/audio/levels.py: the level of each source, and how often it is published. Levels are
-- floats: their type, its zero and the level of a block of samples are parameters. Times are the
-- readings of a clock, which the code takes in any order but refuses below zero.
mod Throttle
mod Tests
use voice_realtime.Prelude.{
  ℕ, ◌+◌, ◌-◌, ◌%◌, Bool, true, false, ◌||◌, Option, none, some, List, [], ◌∷◌, ltb, leb, ◌==◌,
  if◌then◌else◌, length,
}
use voice_realtime.Audio.Frame.{AudioSourceKind, microphone, physical_output, ℤ, pos, negsuc}

pub record AudioLevels (Level : Type 0) : Type 0 where
  pub microphone_level : Level
  pub physical_output_level : Level
  pub mixed : Level
  pub updated_at_ns : ℕ

pub record Meter (Level : Type 0) : Type 0 where
  pub publish_interval_ns : ℕ
  pub levels : AudioLevels Level
  pub last_publish_ns : Option ℕ

pub data LevelError : Type 0 where
  odd_payload negative_now negative_interval : LevelError

pub data Result {ℓ} (A : Type ℓ) : Type ℓ where
  ok : A → Result A
  raise : LevelError → Result A

module _ {Level : Type 0} (silence : Level) (level_of : List ℕ → Level) where
  pub init : ℤ → Result (Meter Level)
  init (negsuc n) = raise negative_interval
  init (pos interval) = ok (record {
    publish_interval_ns = interval;
    levels = record {
      microphone_level = silence;
      physical_output_level = silence;
      mixed = silence;
      updated_at_ns = 0;
    };
    last_publish_ns = none;
  })

  -- `pcm16_level`, up to the arithmetic on floats.
  pub pcm16_level : List ℕ → Result Level
  pcm16_level pcm =
      if length pcm % 2 == 1
      then raise odd_payload
      else ok (if length pcm == 0 then silence else level_of pcm)

  pub set_level : AudioSourceKind → Level → ℕ → AudioLevels Level → AudioLevels Level
  set_level microphone v now l = record l { microphone_level = v; mixed = v; updated_at_ns = now }
  set_level physical_output v now l = record l {
    physical_output_level = v;
    mixed = v;
    updated_at_ns = now;
  }

  -- The condition under which `update` publishes.
  pub is_due : ℕ → Option ℕ → ℕ → Bool
  is_due interval none now = true
  is_due interval (some last) now = ltb now last || leb interval (now - last)

  pub publish : Bool → ℕ → Meter Level → Bool × Meter Level
  publish true now m = (true, record m { last_publish_ns = some now })
  publish false now m = (false, m)

  pub measured : AudioSourceKind → ℕ → Meter Level → Result Level → Result (Bool × Meter Level)
  measured kind now m (raise e) = raise e
  measured kind now m (ok v) = ok (
      publish (is_due m.publish_interval_ns m.last_publish_ns now) now
        (record m { levels = set_level kind v now m.levels }))

  pub update : AudioSourceKind → List ℕ → ℤ → Meter Level → Result (Bool × Meter Level)
  update kind pcm (negsuc n) m = raise negative_now
  update kind pcm (pos now) m = measured kind now m (pcm16_level pcm)

  pub clear : AudioSourceKind → ℤ → Meter Level → Result (Meter Level)
  clear kind (negsuc n) m = raise negative_now
  clear kind (pos now) m =
      ok (record m { levels = set_level kind silence now m.levels; last_publish_ns = some now })

  pub snapshot : Meter Level → AudioLevels Level
  snapshot m = m.levels

  -- The times of a list of updates that publish; an update that raises changes nothing.
  pub published : Result (Bool × Meter Level) → ℕ → List ℕ → List ℕ
  published (ok (true, m)) now rest = now ∷ rest
  published (ok (false, m)) now rest = rest
  published (raise e) now rest = rest

  pub after : Meter Level → Result (Bool × Meter Level) → Meter Level
  after m (ok (b, n)) = n
  after m (raise e) = m

  pub run : Meter Level → List (AudioSourceKind × List ℕ × ℕ) → List ℕ
  run m [] = []
  run m ((kind, pcm, now) ∷ r) =
      published (update kind pcm (pos now) m) now (run (after m (update kind pcm (pos now) m)) r)

-- ===== src/Audio/Levels/Throttle.antt =====
-- src/sona/audio/levels.py: the times at which levels are published.
use voice_realtime.Prelude.{
  ℕ, ◌≡◌, refl, ◌+◌, ◌≤◌, Bool, true, false, Option, none, some, List, [], ◌∷◌, arith,
}
use voice_realtime.Audio.Frame.{AudioSourceKind}
use voice_realtime.Audio.Levels.{
  Meter, Result, ok, raise, pcm16_level, set_level, is_due, publish, measured, update, published,
  after, run,
}

-- The times do not fall, from the given one on.
abbrev pub Rises : ℕ → List (AudioSourceKind × List ℕ × ℕ) → Type 0
Rises t [] = Unit {0}
Rises t ((_, _, now) ∷ r) = (t ≤ now) × Rises now r

-- Each time is the interval or more after the one before it, the first after the given one.
abbrev pub Spaced : ℕ → Option ℕ → List ℕ → Type 0
Spaced n last [] = Unit {0}
Spaced n none (t ∷ ts) = Spaced n (some t) ts
Spaced n (some s) (t ∷ ts) = (s + n ≤ t) × Spaced n (some t) ts

abbrev pub Before : Option ℕ → ℕ → Type 0
Before none t = Unit {0}
Before (some s) t = s ≤ t

module _ {Level : Type 0} (silence : Level) (level_of : List ℕ → Level) where
  Before-mono : (last : Option ℕ) (s t : ℕ) → s ≤ t → Before last s → Before last t
  Before-mono none s t h b = tt
  Before-mono (some l) s t h b = omega arith

  due-Spaced :
      (n now : ℕ) (last : Option ℕ) (ts : List ℕ)
      → is_due silence level_of n last now ≡ true
      → Before last now
      → Spaced n (some now) ts
      → Spaced n last (now ∷ ts)
  unfolding is_due
  due-Spaced n now none ts e b s = s
  due-Spaced n now (some l) ts e b s = (ground arith, s)

  module _ (m : Meter Level) (now : ℕ) (r : List (AudioSourceKind × List ℕ × ℕ)) where
    -- What is published from a meter on, after the first update.
    Later : Meter Level → Type 0
    Later n = Spaced n.publish_interval_ns n.last_publish_ns (run silence level_of n r)

    Outcome : Result (Bool × Meter Level) → Type 0
    Outcome u =
        Spaced m.publish_interval_ns m.last_publish_ns
          (published silence level_of u now (run silence level_of (after silence level_of m u) r))

    measured-Spaced :
        Before m.last_publish_ns now
        → ((n : Meter Level) → Before n.last_publish_ns now → Later n)
        → (kind : AudioSourceKind) (v : Result Level)
        → Outcome (measured silence level_of kind now m v)
    unfolding Later Outcome measured published after publish
    measured-Spaced b ih kind (raise e) = ih m b
    measured-Spaced b ih kind (ok v) =
        due (is_due silence level_of m.publish_interval_ns m.last_publish_ns now) refl
      where
        n : Meter Level
        n = record m { levels = set_level silence level_of kind v now m.levels }

        due :
            (d : Bool)
            → is_due silence level_of m.publish_interval_ns m.last_publish_ns now ≡ d
            → Outcome (ok (publish silence level_of d now n))
        due true e =
            due-Spaced m.publish_interval_ns now m.last_publish_ns _ e b
              (ih (record n { last_publish_ns = some now }) (omega arith))
        due false e = ih n b

  -- While the clock does not run backwards, two levels that are published one after the other are
  -- at least the publish interval apart, whatever the sources and payloads.
  pub run-Spaced :
      (m : Meter Level) (t : ℕ) (r : List (AudioSourceKind × List ℕ × ℕ))
      → Before m.last_publish_ns t
      → Rises t r
      → Spaced m.publish_interval_ns m.last_publish_ns (run silence level_of m r)
  unfolding run update Outcome Later
  run-Spaced m t [] b h = tt
  run-Spaced m t ((kind, pcm, now) ∷ r) b h =
      measured-Spaced m now r (Before-mono m.last_publish_ns t now h.0 b)
        (λ n before. run-Spaced n now r before h.1) kind (pcm16_level silence level_of pcm)

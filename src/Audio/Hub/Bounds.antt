-- ===== src/Audio/Hub/Bounds.antt =====
-- src/sona/audio/hub.py: the queues of the sinks, and the muted hub.
use voice_realtime.Prelude.{
  ◌≡◌, ◌≢◌, refl, inl, inr, ℕ, ◌≤◌, ◌<◌, Bool, true, false, ◌||◌, Option, none, List, [], ◌∷◌,
  arith, if◌then◌else◌, length, Bool-cases, Option-cases, if_cases, All, ap, ◌∙◌,
}
use voice_realtime.Audio.Frames.{length-offer}
use voice_realtime.Audio.Hub.{
  Sink, Hub, init, empty_backlog, drain, on_sinks, set_muted, employ, dismiss, start_sink_workers,
  begun, stop_sink_workers, tear_down, finish_start, Result, open_start, start, stop, receive,
  on_chunk_received, find_sink, add_sink, remove_sink, consume, work, Call, chunks, works, adds,
  removes, mutes, starts, stops, kept, delivered, step, run,
}
use voice_realtime.Audio.Hub.Sinks.{
  AllSinks, IsKept, start_running, start_found, start_missing, step-AllSinks, find_sink-AllSinks,
}

module _ {A : Type 0} where
  abbrev pub Fits : ℕ → Sink A → Type 0
  Fits n s = length s.backlog.queue ≤ n

  abbrev pub Empty : Sink A → Type 0
  Empty s = s.backlog.queue ≡ []

  Fits-IsKept : (n : ℕ) (o : Type 0) → 0 < n → IsKept n o (Fits n)
  unfolding empty_backlog drain employ dismiss receive
  Fits-IsKept n o room = record {
    fresh = λ b. omega arith;
    drained = λ s p. omega arith;
    employed = λ s p. p;
    dismissed = λ s p. omega arith;
    received = λ x s _ p. length-offer n x s.backlog room p;
    consumed = λ x xs s e p. omega (arith, ap length e);
  }

  Empty-IsKept : (n : ℕ) (o : Type 0) → ¬ o → IsKept n o Empty
  unfolding empty_backlog drain employ dismiss
  Empty-IsKept n o shut = record {
    fresh = λ b. refl;
    drained = λ s p. refl;
    employed = λ s p. p;
    dismissed = λ s p. refl;
    received = λ x s h p. absurd (shut h);
    consumed = λ x xs s e p. absurd (cc);
  }

module _ {K A : Type 0} (dec : Discrete K) where
  pub record IsBounded (h : Hub K A) : Type 0 where
    pub room : 0 < h.queue_size
    pub fits : AllSinks (Fits h.queue_size) h.sinks

  -- A call leaves the bound alone, and only unmuting ends the muting.
  abbrev SameFields : Hub K A → Hub K A → Type 0
  SameFields h g = (g.queue_size ≡ h.queue_size) × (g.muted ≡ h.muted)

  open-fields :
      (h : Hub K A) (resolved opened : Bool) → SameFields h (open_start resolved opened h).1
  unfolding finish_start begun start_sink_workers tear_down stop_sink_workers
  open-fields h resolved opened = elim (Bool-cases h.running) [
    | inl r ↦ rw (start_running h resolved opened r) (refl, refl)
    | inr r ↦ idle resolved opened r
  ]
    where
      idle : (a b : Bool) → h.running ≡ false → SameFields h (open_start a b h).1
      idle false b r = rw (start_missing h b r) (refl, refl)
      idle true true r = rw (start_found h true r) (refl, refl)
      idle true false r = rw (start_found h false r) (refl, refl)

  start-fields :
      (h : Hub K A) (available resolved opened : Bool)
      → SameFields h (start available resolved opened h).1
  unfolding start
  start-fields h available resolved opened =
      if_cases (λ (u : Result (Unit {0}) × Hub K A). SameFields h u.1) (h.running || available)
        (λ _. open-fields h resolved opened) (λ _. (refl, refl))

  consume-fields :
      (k : K) (m : Bool) (s : Sink A) (q : List A) (h : Hub K A)
      → SameFields h (consume dec k m s q h).1
  unfolding consume
  consume-fields k m s [] h = (refl, refl)
  consume-fields k m s (x ∷ xs) h = (refl, refl)

  work-fields : (k : K) (h : Hub K A) → SameFields h (work dec k h).1
  unfolding work
  work-fields k h = elim (Option-cases (find_sink dec k h.sinks)) [
    | inl e ↦ rw (e, work) (refl, refl)
    | inr (s, e) ↦
        rw (e, work)
          (if_cases (λ (r : Option A × Hub K A). SameFields h r.1) s.working
            (λ _. consume-fields k h.muted s s.backlog.queue h) (λ _. (refl, refl)))
  ]

  step-fields :
      (h : Hub K A) (c : Call K A)
      → ((step dec h c).1.queue_size ≡ h.queue_size)
        × (c ≢ mutes false → h.muted ≡ true → (step dec h c).1.muted ≡ true)
  unfolding step on_chunk_received add_sink remove_sink kept set_muted tear_down stop_sink_workers
      stop
  step-fields h (chunks x) = (ground arith, λ n m. ground arith)
  step-fields h (works k) = ((work-fields k h).0, λ n m. (work-fields k h).1 ∙ m)
  step-fields h (adds k) = (ground arith, λ n m. ground arith)
  step-fields h (removes k) = (refl, λ n m. m)
  step-fields h (mutes true) = (refl, λ n m. refl)
  step-fields h (mutes false) = (refl, λ n m. absurd (n refl))
  step-fields h (starts a r o) = ((start-fields h a r o).0, λ n m. (start-fields h a r o).1 ∙ m)
  step-fields h stops = (ground arith, λ n m. ground arith)

  step-IsBounded : (h : Hub K A) (c : Call K A) → IsBounded h → IsBounded (step dec h c).1
  step-IsBounded h c b = record {
    room = rw (step-fields h c).0 b.room;
    fits = rw (step-fields h c).0 (
        step-AllSinks dec (Fits h.queue_size) h (Fits-IsKept h.queue_size (h.muted ≡ false) b.room)
          c b.fits);
  }

  run-IsBounded : (h : Hub K A) (cs : List (Call K A)) → IsBounded h → IsBounded (run dec h cs).1
  unfolding run
  run-IsBounded h [] b = b
  run-IsBounded h (c ∷ cs) b = run-IsBounded (step dec h c).1 cs (step-IsBounded h c b)

  -- From a new hub, no sequence of calls makes a queue longer than the bound.
  pub run-init-IsBounded :
      (queue_size : ℕ) (cs : List (Call K A)) → IsBounded (run dec (init queue_size) cs).1
  unfolding init
  run-init-IsBounded queue_size cs =
      run-IsBounded (init queue_size) cs (record { room = omega arith; fits = tt })

  pub record IsSilent (h : Hub K A) : Type 0 where
    pub muted : h.muted ≡ true
    pub empty : AllSinks Empty h.sinks

  step-IsSilent :
      (h : Hub K A) (c : Call K A) → c ≢ mutes false → IsSilent h → IsSilent (step dec h c).1
  step-IsSilent h c n s = record {
    muted = (step-fields h c).1 n s.muted;
    empty =
        step-AllSinks dec Empty h
          (Empty-IsKept h.queue_size (h.muted ≡ false) (λ e. ground (arith, s.muted))) c s.empty;
  }

  silent_step : (h : Hub K A) (c : Call K A) → IsSilent h → (step dec h c).0 ≡ []
  unfolding step work consume delivered
  silent_step h (chunks x) s = refl
  silent_step h (works k) s = elim (Option-cases (find_sink dec k h.sinks)) [
    | inl e ↦ rw (e, work) refl
    | inr (t, e) ↦ rw (e, work) (no_chunk k t (find_sink-AllSinks dec Empty k h.sinks s.empty e))
  ]
    where
      no_chunk :
          (k : K) (t : Sink A)
          → t.backlog.queue ≡ []
          → delivered (if t.working then consume dec k h.muted t t.backlog.queue h else (none, h)).0
            ≡ []
      no_chunk k t q =
          if_cases (λ (r : Option A × Hub K A). delivered r.0 ≡ []) t.working (λ _. rw q refl)
            (λ _. refl)
  silent_step h (adds k) s = refl
  silent_step h (removes k) s = refl
  silent_step h (mutes b) s = refl
  silent_step h (starts a r o) s = refl
  silent_step h stops s = refl

  abbrev pub StaysMuted : List (Call K A) → Type 0
  StaysMuted = All (λ c. c ≢ mutes false)

  run-silent :
      (h : Hub K A) (cs : List (Call K A)) → IsSilent h → StaysMuted cs → (run dec h cs).0 ≡ []
  unfolding run
  run-silent h [] s m = refl
  run-silent h (c ∷ cs) s m =
      rw (silent_step h c s) (run-silent (step dec h c).1 cs (step-IsSilent h c m.0 s) m.1)

  emptied : (r : List (K × Sink A)) → AllSinks Empty (on_sinks drain r)
  unfolding on_sinks drain
  emptied [] = tt
  emptied ((k, s) ∷ r) = (refl, emptied r)

  -- Once the hub is muted, no callback is given any audio, queued before or captured since, until
  -- it is unmuted.
  pub muted_delivers_nothing :
      (h : Hub K A) (cs : List (Call K A)) → StaysMuted cs → (run dec (set_muted h true) cs).0 ≡ []
  unfolding set_muted
  muted_delivers_nothing h cs m =
      run-silent (set_muted h true) cs (record { muted = refl; empty = emptied h.sinks }) m

-- ===== src/Audio/Hub/Sinks.antt =====
-- A rule for src/sona/audio/hub.py: a property of every sink that each change of a sink keeps is
-- kept by every call.
use mathlib.Core.Logic.{if_pos, if_neg}
use voice_realtime.Prelude.{
  ◌≡◌, refl, inl, inr, ℕ, ◌++◌, Bool, true, false, not, ◌&&◌, ◌||◌, Option, some, List, [], ◌∷◌,
  arith, Bool-cases, Option-cases, if_cases,
}
use voice_realtime.Audio.Hub.{
  capture_failed, Sink, Hub, Result, ok, raise, empty_backlog, drain, on_sinks, set_muted, employ,
  dismiss, start_sink_workers, begun, stop_sink_workers, tear_down, begin_start, finish_start,
  open_start, start, stop, receive, on_chunk_received, find_sink, drop_sink, replace_sink, add_sink,
  remove_sink, consume, work, Call, chunks, works, adds, removes, mutes, starts, stops, kept, step,
}

abbrev pub AllSinks : {K A : Type 0} → (Sink A → Type 0) → List (K × Sink A) → Type 0
AllSinks P [] = Unit {0}
AllSinks P ((k, s) ∷ r) = P s × AllSinks P r

-- A chunk counts only where the hub takes one: `open` says that it is not muted.
pub record IsKept {A : Type 0} (maxsize : ℕ) (open_hub : Type 0) (P : Sink A → Type 0)
    : Type 0 where
  pub fresh : (b : Bool) → P (record { backlog = empty_backlog; working = b })
  pub drained : (s : Sink A) → P s → P (drain s)
  pub employed : (s : Sink A) → P s → P (employ s)
  pub dismissed : (s : Sink A) → P s → P (dismiss s)
  pub received : (x : A) (s : Sink A) → open_hub → P s → P (receive maxsize x s)
  pub consumed :
      (x : A) (xs : List A) (s : Sink A)
      → s.backlog.queue ≡ x ∷ xs
      → P s
      → P (record s { backlog = record { queue = xs; dropped = s.backlog.dropped } })

-- `open_start` on its three ways: already running, the device found, the device missing.
module _ {K A : Type 0} (h : Hub K A) where
  pub start_running :
      (resolved opened : Bool) → h.running ≡ true → open_start resolved opened h ≡ (ok tt, h)
  unfolding open_start begin_start
  start_running resolved opened r = ground arith

  pub start_found :
      (opened : Bool) → h.running ≡ false → open_start true opened h ≡ finish_start opened (begun h)
  unfolding open_start begin_start
  start_found opened r = ground arith

  pub start_missing :
      (opened : Bool)
      → h.running ≡ false
      → open_start false opened h ≡ (raise capture_failed, tear_down h)
  unfolding open_start begin_start
  start_missing opened r = ground arith

module _ {K A : Type 0} (dec : Discrete K) (P : Sink A → Type 0) where
  on_sinks-AllSinks :
      (f : Sink A → Sink A)
      → ((s : Sink A) → P s → P (f s))
      → (r : List (K × Sink A)) → AllSinks P r
      → AllSinks P (on_sinks f r)
  unfolding on_sinks
  on_sinks-AllSinks f g [] a = tt
  on_sinks-AllSinks f g ((k, s) ∷ r) a = (g s a.0, on_sinks-AllSinks f g r a.1)

  snoc-AllSinks :
      (r : List (K × Sink A)) (k : K) (s : Sink A)
      → AllSinks P r
      → P s
      → AllSinks P (r ++ (k, s) ∷ [])
  snoc-AllSinks [] k s a p = (p, tt)
  snoc-AllSinks ((j, t) ∷ r) k s a p = (a.0, snoc-AllSinks r k s a.1 p)

  drop_sink-AllSinks :
      (k : K) (r : List (K × Sink A)) → AllSinks P r → AllSinks P (drop_sink dec k r)
  unfolding drop_sink
  drop_sink-AllSinks k [] a = tt
  drop_sink-AllSinks k ((j, s) ∷ r) a = elim (dec j k) [
    | yes e ↦ rw (if_pos _ e) a.1
    | no n ↦ rw (if_neg _ n) (a.0, drop_sink-AllSinks k r a.1)
  ]

  replace_sink-AllSinks :
      (k : K) (t : Sink A) (r : List (K × Sink A))
      → P t
      → AllSinks P r
      → AllSinks P (replace_sink dec k t r)
  unfolding replace_sink
  replace_sink-AllSinks k t [] p a = tt
  replace_sink-AllSinks k t ((j, s) ∷ r) p a = elim (dec j k) [
    | yes e ↦ rw (if_pos _ e) (p, a.1)
    | no n ↦ rw (if_neg _ n) (a.0, replace_sink-AllSinks k t r p a.1)
  ]

  pub find_sink-AllSinks :
      (k : K) (r : List (K × Sink A)) {s : Sink A} → AllSinks P r → find_sink dec k r ≡ some s → P s
  unfolding find_sink
  find_sink-AllSinks k [] a e = absurd (cc)
  find_sink-AllSinks k ((j, t) ∷ r) {s} a e = elim (dec j k) [
    | yes p ↦ rw (hit p) a.0
    | no n ↦ find_sink-AllSinks k r a.1 (ground arith)
  ]
    where
      hit : j ≡ k → s ≡ t
      hit p = ground arith

  module _ (h : Hub K A) (c : IsKept h.queue_size (h.muted ≡ false) P) where
    tear_down-AllSinks : AllSinks P h.sinks → AllSinks P (tear_down h).sinks
    unfolding tear_down stop_sink_workers
    tear_down-AllSinks a = on_sinks-AllSinks dismiss c.dismissed h.sinks a

    open-AllSinks :
        (resolved opened : Bool)
        → AllSinks P h.sinks
        → AllSinks P (open_start resolved opened h).1.sinks
    unfolding begun start_sink_workers finish_start tear_down stop_sink_workers
    open-AllSinks resolved opened a = elim (Bool-cases h.running) [
      | inl r ↦ rw (start_running h resolved opened r) a
      | inr r ↦ idle resolved r
    ]
      where
        employed : AllSinks P (on_sinks employ h.sinks)
        employed = on_sinks-AllSinks employ c.employed h.sinks a

        opens : (b : Bool) → AllSinks P (finish_start b (begun h)).1.sinks
        opens true = employed
        opens false = on_sinks-AllSinks dismiss c.dismissed (on_sinks employ h.sinks) employed

        idle : (b : Bool) → h.running ≡ false → AllSinks P (open_start b opened h).1.sinks
        idle true r = rw (start_found h opened r) (opens opened)
        idle false r = rw (start_missing h opened r) (tear_down-AllSinks a)

    start-AllSinks :
        (available resolved opened : Bool)
        → AllSinks P h.sinks
        → AllSinks P (start available resolved opened h).1.sinks
    unfolding start
    start-AllSinks available resolved opened a =
        if_cases (λ (u : Result (Unit {0}) × Hub K A). AllSinks P u.1.sinks)
          (h.running || available) (λ _. open-AllSinks resolved opened a) (λ _. a)

    work-AllSinks : (k : K) → AllSinks P h.sinks → AllSinks P (work dec k h).1.sinks
    unfolding work consume
    work-AllSinks k a = elim (Option-cases (find_sink dec k h.sinks)) [
      | inl e ↦ rw (e, work) a
      | inr (s, e) ↦
          rw (e, work)
            (if_cases (λ (r : Option A × Hub K A). AllSinks P r.1.sinks) s.working
              (λ _. eaten s e s.backlog.queue refl) (λ _. a))
    ]
      where
        eaten :
            (s : Sink A)
            → find_sink dec k h.sinks ≡ some s
            → (q : List A) → s.backlog.queue ≡ q
            → AllSinks P (consume dec k h.muted s q h).1.sinks
        eaten s e [] q = a
        eaten s e (x ∷ xs) q =
            replace_sink-AllSinks k _ h.sinks
              (c.consumed x xs s q (find_sink-AllSinks k h.sinks a e)) a

    -- Every call keeps the property.
    pub step-AllSinks : (d : Call K A) → AllSinks P h.sinks → AllSinks P (step dec h d).1.sinks
    unfolding step set_muted on_chunk_received remove_sink kept add_sink stop
    step-AllSinks (chunks x) a = elim (Bool-cases (not h.running || h.muted)) [
      | inl e ↦ rw (e, step, on_chunk_received) a
      | inr e ↦
          rw (e, step, on_chunk_received)
            (on_sinks-AllSinks (receive h.queue_size x) (λ s p. c.received x s (ground arith) p)
              h.sinks a)
    ]
    step-AllSinks (works k) a = work-AllSinks k a
    step-AllSinks (adds k) a = elim (Option-cases (find_sink dec k h.sinks)) [
      | inl e ↦
          rw (e, step, add_sink, kept) (snoc-AllSinks h.sinks k _ a (c.fresh (h.running && h.loop)))
      | inr (s, e) ↦ rw (e, step, add_sink, kept) a
    ]
    step-AllSinks (removes k) a = drop_sink-AllSinks k h.sinks a
    step-AllSinks (mutes true) a = on_sinks-AllSinks drain c.drained h.sinks a
    step-AllSinks (mutes false) a = a
    step-AllSinks (starts available resolved opened) a = start-AllSinks available resolved opened a
    step-AllSinks stops a =
        if_cases (λ (g : Hub K A). AllSinks P g.sinks)
          (not h.running && (not h.qaudio && not h.thread)) (λ _. a) (λ _. tear_down-AllSinks a)

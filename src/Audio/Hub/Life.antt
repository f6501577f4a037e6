-- ===== src/Audio/Hub/Life.antt =====
-- src/sona/audio/hub.py: starting and stopping the capture.
use voice_realtime.Prelude.{
  ◌≡◌, refl, ◌∙◌, ap, sym, subst, ℕ, Bool, true, false, ◌&&◌, ◌||◌, List, [], ◌∷◌, All, map, arith,
}
use voice_realtime.Audio.Hub.{
  Sink, Hub, raise, capture_failed, drain, on_sinks, employ, dismiss, start_sink_workers,
  stop_sink_workers, tear_down, begun, finish_start, open_start, start, stop,
}
use voice_realtime.Audio.Hub.Sinks.{start_found, start_missing}

-- A sink without a worker and without a chunk.
abbrev pub IsIdle : {K A : Type 0} → K × Sink A → Type 0
IsIdle e = (e.1.working ≡ false) × (e.1.backlog.queue ≡ [])

-- The sinks by their names, with the number of chunks that each has dropped.
abbrev pub losses : {K A : Type 0} → List (K × Sink A) → List (K × ℕ)
losses sinks = map (λ e. (e.0, e.1.backlog.dropped)) sinks

-- A hub without a thread, a loop and PyAudio, whose sinks are idle, are those of an earlier state,
-- and have dropped as much.
pub record IsTornDown {K A : Type 0} (before h : Hub K A) : Type 0 where
  pub not_running : h.running ≡ false
  pub no_thread : h.thread ≡ false
  pub no_loop : h.loop ≡ false
  pub no_qaudio : h.qaudio ≡ false
  pub not_opening : h.opening ≡ false
  pub same_muted : h.muted ≡ before.muted
  pub idle : All IsIdle h.sinks
  pub lost : losses h.sinks ≡ losses before.sinks

module _ {K A : Type 0} where
  dismiss-employ :
      (r : List (K × Sink A)) → on_sinks dismiss (on_sinks employ r) ≡ on_sinks dismiss r
  unfolding on_sinks dismiss employ drain
  dismiss-employ [] = refl
  dismiss-employ ((k, s) ∷ r) = ap (λ l. (k, dismiss s) ∷ l) (dismiss-employ r)

  tear_down-begun : (h : Hub K A) → tear_down (begun h) ≡ tear_down h
  unfolding tear_down stop_sink_workers begun start_sink_workers
  tear_down-begun h = rw (dismiss-employ h.sinks) refl

  dismissed_idle : (r : List (K × Sink A)) → All IsIdle (on_sinks dismiss r)
  unfolding on_sinks dismiss drain
  dismissed_idle [] = tt
  dismissed_idle ((k, s) ∷ r) = ((refl, refl), dismissed_idle r)

  dismissed_losses : (r : List (K × Sink A)) → losses (on_sinks dismiss r) ≡ losses r
  unfolding on_sinks dismiss drain
  dismissed_losses [] = refl
  dismissed_losses ((k, s) ∷ r) = ap (λ l. (k, s.backlog.dropped) ∷ l) (dismissed_losses r)

  tear_down-IsTornDown : (h : Hub K A) → IsTornDown h (tear_down h)
  unfolding tear_down stop_sink_workers
  tear_down-IsTornDown h = record {
    not_running = refl;
    no_thread = refl;
    no_loop = refl;
    no_qaudio = refl;
    not_opening = refl;
    same_muted = refl;
    idle = dismissed_idle h.sinks;
    lost = dismissed_losses h.sinks;
  }

  open-tear_down :
      (h : Hub K A) (resolved opened : Bool)
      → h.running ≡ false
      → (resolved && opened) ≡ false
      → open_start resolved opened h ≡ (raise capture_failed, tear_down h)
  unfolding finish_start
  open-tear_down h true true r e = absurd (cc)
  open-tear_down h true false r e = rw (start_found h false r, finish_start, tear_down-begun h) refl
  open-tear_down h false opened r e = start_missing h opened r

  available_start :
      (h : Hub K A) (resolved opened : Bool)
      → start true resolved opened h ≡ open_start resolved opened h
  unfolding start
  available_start h resolved opened = ground arith

  -- A start of a hub that is not running, whose device or stream fails once PyAudio is there, raises, and leaves no
  -- thread, no loop and no PyAudio: the sinks are the same, with their counts of dropped chunks,
  -- but no worker runs and every queue is empty.
  pub start-IsTornDown :
      (h : Hub K A) (resolved opened : Bool)
      → h.running ≡ false
      → (resolved && opened) ≡ false
      → (g : Hub K A) × (start true resolved opened h ≡ (raise capture_failed, g)) × IsTornDown h g
  start-IsTornDown h resolved opened r e = (
    tear_down h,
    available_start h resolved opened ∙ open-tear_down h resolved opened r e,
    tear_down-IsTornDown h,
  )

  stop_running : (h : Hub K A) → (h.running || (h.qaudio || h.thread)) ≡ true → stop h ≡ tear_down h
  unfolding stop
  stop_running h e = ground arith

  -- A stop of a hub that runs, or still has its thread or PyAudio, leaves no thread, no loop and no
  -- PyAudio: the sinks are the same, with their counts of dropped chunks, but no worker runs and
  -- every queue is empty.
  pub stop-IsTornDown :
      (h : Hub K A) → (h.running || (h.qaudio || h.thread)) ≡ true → IsTornDown h (stop h)
  stop-IsTornDown h e = subst (IsTornDown h) (sym (stop_running h e)) (tear_down-IsTornDown h)

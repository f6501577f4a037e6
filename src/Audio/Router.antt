-- ===== src/Audio/Router.antt =====
-- src/sona/audio/router.py: AudioSourceRouter, the two-phase route from one source to a bounded
-- queue of frames. The sources are other objects: each call of one is recorded, and whether it
-- raises is an argument. A call of the router is taken to be made when the one before has ended.
-- A frame is its capture and its content.
mod Open
mod Life
mod Tests
use voice_realtime.Prelude.{
  ℕ, ◌+◌, Bool, true, false, not, ◌&&◌, ◌||◌, Option, none, some, List, [], ◌∷◌, ◌++◌, max, ◌==◌,
  if◌then◌else◌, length,
}
use voice_realtime.Audio.Frame.{AudioSourceKind, AudioSourceRole}
use voice_realtime.Audio.Frames.{Backlog, offer}
use voice_realtime.Audio.Profile.{
  CaptureMode, single, dual, CaptureProfile, CaptureSourceSpec, same_kind, same_role,
}

-- `AudioSourceState`
pub data State : Type 0 where
  stopped preparing ready active degraded recovering failed : State

pub data SourceCall : Type 0 where
  prepares commits aborts stops : AudioSourceKind → SourceCall

pub record Frame (A : Type 0) : Type 0 where
  pub capture_id : ℕ
  pub content : A

pub record Router (A : Type 0) : Type 0 where
  pub sources : List CaptureSourceSpec
  pub maxsize : ℕ
  pub state : State
  pub active_source : Option AudioSourceKind
  pub capture_id : Option ℕ
  -- The source and the capture that the pump task reads, while it runs.
  pub pump : Option (AudioSourceKind × ℕ)
  pub backlog : Backlog (Frame A)
  pub calls : List SourceCall

pub record RouterHealth : Type 0 where
  pub state : State
  pub active_kind : Option AudioSourceKind
  pub queued_frames : ℕ
  pub dropped_frames : ℕ

pub data Error : Type 0 where
  duplicate_kind not_stopped unsupported_profile no_spec unavailable not_ready source_failed : Error

pub data Result {ℓ} (A : Type ℓ) : Type ℓ where
  ok : A → Result A
  raise : Error → Result A

pub is_stopped : State → Bool
is_stopped stopped = true
is_stopped preparing = false
is_stopped ready = false
is_stopped active = false
is_stopped degraded = false
is_stopped recovering = false
is_stopped failed = false

pub is_ready : State → Bool
is_ready ready = true
is_ready stopped = false
is_ready preparing = false
is_ready active = false
is_ready degraded = false
is_ready recovering = false
is_ready failed = false

pub has_kind : AudioSourceKind → List CaptureSourceSpec → Bool
has_kind k [] = false
has_kind k (s ∷ r) = same_kind s.kind k || has_kind k r

-- The loop of `__init__` over the sources: two of one kind are refused.
pub has_duplicate_kind : List CaptureSourceSpec → Bool
unfolding has_kind
has_duplicate_kind [] = false
has_duplicate_kind (s ∷ r) = has_kind s.kind r || has_duplicate_kind r

pub role_of : AudioSourceKind → List CaptureSourceSpec → Option AudioSourceRole
role_of k [] = none
role_of k (s ∷ r) = if same_kind s.kind k then some s.role else role_of k r

-- `source is None or source.role is not spec.role`
pub is_available : CaptureSourceSpec → Option AudioSourceRole → Bool
is_available spec none = false
is_available spec (some role) = same_role role spec.role

pub first_spec : List CaptureSourceSpec → Option CaptureSourceSpec
first_spec [] = none
first_spec (s ∷ r) = some s

pub outcome : Bool → Result (Unit {0})
outcome true = ok tt
outcome false = raise source_failed

module _ {A : Type 0} where
  pub new_router : List CaptureSourceSpec → ℕ → Router A
  new_router sources queue_size = record {
    sources = sources;
    maxsize = max 1 queue_size;
    state = stopped;
    active_source = none;
    capture_id = none;
    pump = none;
    backlog = record { queue = []; dropped = 0 };
    calls = [];
  }

  -- `__init__`
  pub init : List CaptureSourceSpec → ℕ → Result (Router A)
  init sources queue_size =
      if has_duplicate_kind sources
      then raise duplicate_kind
      else ok (new_router sources queue_size)

  pub note : SourceCall → Router A → Router A
  note c r = record r { calls = r.calls ++ c ∷ [] }

  -- `_reset`
  pub reset : Router A → Router A
  reset r = record r {
    backlog = record { queue = []; dropped = r.backlog.dropped };
    state = stopped;
    active_source = none;
    capture_id = none;
    pump = none;
  }

  -- `prepare` from the call of the source's `prepare` on.
  pub prepare_source : AudioSourceKind → ℕ → Bool → Router A → Result (Unit {0}) × Router A
  prepare_source kind capture prepared r =
      let p =
        note (prepares kind)
          (record r { backlog = record { queue = []; dropped = 0 }; state = preparing }) in
      if prepared
      then (ok tt, record p { active_source = some kind; capture_id = some capture; state = ready })
      else (raise source_failed, reset (note (aborts kind) p))

  pub prepare_spec : Option CaptureSourceSpec → ℕ → Bool → Router A → Result (Unit {0}) × Router A
  prepare_spec none capture prepared r = (raise no_spec, r)
  prepare_spec (some spec) capture prepared r =
      if is_available spec (role_of spec.kind r.sources)
      then prepare_source spec.kind capture prepared r
      else (raise unavailable, r)

  pub prepare_mode :
      CaptureMode → CaptureProfile → ℕ → Bool → Router A → Result (Unit {0}) × Router A
  prepare_mode dual profile capture prepared r = (raise unsupported_profile, r)
  prepare_mode single profile capture prepared r =
      prepare_spec (first_spec profile.sources) capture prepared r

  pub prepare : CaptureProfile → ℕ → Bool → Router A → Result (Unit {0}) × Router A
  prepare profile capture prepared r =
      if not (is_stopped r.state)
      then (raise not_stopped, r)
      else prepare_mode profile.mode profile capture prepared r

  pub commit_source :
      Option AudioSourceKind → Option ℕ → Bool → Router A → Result (Unit {0}) × Router A
  commit_source none c committed r = (raise not_ready, r)
  commit_source (some kind) none committed r = (raise not_ready, r)
  commit_source (some kind) (some capture) committed r =
      let p = note (commits kind) r in
      if committed
      then (ok tt, record p { state = active; pump = some (kind, capture) })
      else (raise source_failed, reset (note (aborts kind) p))

  pub commit : Bool → Router A → Result (Unit {0}) × Router A
  commit committed r =
      if is_ready r.state
      then commit_source r.active_source r.capture_id committed r
      else (raise not_ready, r)

  -- `abort` and `stop`: the pump is cancelled, the source is told, and the reset is in `finally`.
  pub finish :
      (AudioSourceKind → SourceCall)
      → Option AudioSourceKind
      → Bool
      → Router A
      → Result (Unit {0}) × Router A
  finish call none done r = (ok tt, reset r)
  finish call (some kind) done r =
      (outcome done, reset (note (call kind) (record r { pump = none })))

  pub abort : Bool → Router A → Result (Unit {0}) × Router A
  abort done r = finish aborts r.active_source done r

  pub stop : Bool → Router A → Result (Unit {0}) × Router A
  stop done r = finish stops r.active_source done r

  -- One frame of the pump's source: a frame of another capture is passed over.
  pub pump_frame : Frame A → Router A → Router A
  pump_frame f r = elim r.pump [
    | none ↦ r
    | some (kind, capture) ↦
        if f.capture_id == capture then record r { backlog = offer r.maxsize f r.backlog } else r
  ]

  -- The pump task ends with an exception.
  pub pump_fails : Router A → Router A
  pump_fails r = elim r.pump [ none ↦ r | some p ↦ record r { state = failed; pump = none } ]

  pub health : Router A → RouterHealth
  health r = record {
    state = r.state;
    active_kind = r.active_source;
    queued_frames = length r.backlog.queue;
    dropped_frames = r.backlog.dropped;
  }

pub data Event (A : Type 0) : Type 0 where
  prepared_event : CaptureProfile → ℕ → Bool → Event A
  committed_event aborted_event stopped_event : Bool → Event A
  frame_event : Frame A → Event A
  broken_event : Event A

module _ {A : Type 0} where
  pub step : Router A → Event A → Router A
  step r (prepared_event profile capture prepared) = (prepare profile capture prepared r).1
  step r (committed_event committed) = (commit committed r).1
  step r (aborted_event done) = (abort done r).1
  step r (stopped_event done) = (stop done r).1
  step r (frame_event f) = pump_frame f r
  step r broken_event = pump_fails r

  pub run : Router A → List (Event A) → Router A
  run r [] = r
  run r (e ∷ es) = run (step r e) es

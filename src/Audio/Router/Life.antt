-- ===== src/Audio/Router/Life.antt =====
-- src/sona/audio/router.py: the sources and the queue over the life of a router.
use mathlib.Core.Option
use voice_realtime.Prelude.{
  ◌≡◌, refl, ap, sym, subst, ◌∙◌, ℕ, ◌≤◌, ◌<◌, ◌++◌, Bool, true, false, Option, none, some, List,
  [], ◌∷◌, arith, if◌then◌else◌, length, All, Bool-cases, Option-cases, if_cases, ◌==◌, inl, inr,
}
use voice_realtime.Audio.Frame.{AudioSourceKind}
use voice_realtime.Audio.Frames.{offer, length-offer, offer-All}
use voice_realtime.Audio.Profile.{CaptureProfile, CaptureSourceSpec, CaptureMode, single, dual}
use voice_realtime.Audio.Router.{
  is_stopped, is_ready, SourceCall, prepares, commits, aborts, stops, Frame, Router, Result, ok,
  raise, init, has_duplicate_kind, note, reset, prepare_source, prepare_spec, first_spec, prepare,
  commit_source, commit, finish, abort, stop, pump_frame, pump_fails, Event, prepared_event,
  committed_event, aborted_event, stopped_event, frame_event, broken_event, step, run, is_available,
  role_of, prepare_mode, new_router, duplicate_kind,
}
use voice_realtime.Audio.Router.Open.{
  IsReleased, Closes, is_open, is_active, opened, committed_still, closed, aborts-Closes,
  stops-Closes,
}

module _ {A : Type 0} where
  abbrev pub Mine : Option ℕ → Frame A → Type 0
  Mine c f = some f.capture_id ≡ c

  pub record IsCoherent (r : Router A) : Type 0 where
    -- The active source is open, and no other one is.
    pub released : IsReleased r.calls r.active_source
    pub idle : is_stopped r.state ≡ true → (r.active_source ≡ none) × (r.pump ≡ none)
    pub pumped : (k : AudioSourceKind) (c : ℕ) → r.pump ≡ some (k, c) → r.capture_id ≡ some c
    pub mine : All (Mine r.capture_id) r.backlog.queue
    pub room : 0 < r.maxsize
    pub bounded : length r.backlog.queue ≤ r.maxsize

  reset-IsCoherent : (r : Router A) → 0 < r.maxsize → IsReleased r.calls none → IsCoherent (reset r)
  unfolding reset
  reset-IsCoherent r room o = record {
    released = o;
    idle = λ _. (refl, refl);
    pumped = λ k c e. absurd (cc);
    mine = tt;
    room = room;
    bounded = omega arith;
  }

  prepare_source-IsCoherent :
      (k : AudioSourceKind) (c : ℕ) (b : Bool) (r : Router A)
      → (r.active_source ≡ none) × (r.pump ≡ none)
      → IsCoherent r
      → IsCoherent (prepare_source k c b r).1
  unfolding prepare_source note is_stopped
  prepare_source-IsCoherent k c true r p v = record {
    released = opened r.calls k (subst (IsReleased r.calls) p.0 v.released);
    idle = λ e. absurd (ground arith);
    pumped = λ j d e. absurd (cc (p.1, e));
    mine = tt;
    room = v.room;
    bounded = omega arith;
  }
  prepare_source-IsCoherent k c false r p v = reset-IsCoherent _ v.room (
      closed aborts (r.calls ++ prepares k ∷ []) k aborts-Closes
        (opened r.calls k (subst (IsReleased r.calls) p.0 v.released)))

  prepare-IsCoherent :
      (p : CaptureProfile) (c : ℕ) (b : Bool) (r : Router A)
      → IsCoherent r
      → IsCoherent (prepare p c b r).1
  unfolding prepare prepare_spec prepare_mode
  prepare-IsCoherent p c b r v = elim (Bool-cases (is_stopped r.state)) [
    | inr e ↦ rw (e, prepare) v
    | inl e ↦ rw (e, prepare) (modes p.mode (v.idle e))
  ]
    where
      specs :
          (s : Option CaptureSourceSpec)
          → (r.active_source ≡ none) × (r.pump ≡ none)
          → IsCoherent (prepare_spec s c b r).1
      specs none n = v
      specs (some s) n =
          if_cases (λ (u : Result (Unit {0}) × Router A). IsCoherent u.1)
            (is_available s (role_of s.kind r.sources))
            (λ _. prepare_source-IsCoherent s.kind c b r n v) (λ _. v)

      modes :
          (m : CaptureMode)
          → (r.active_source ≡ none) × (r.pump ≡ none)
          → IsCoherent (prepare_mode m p c b r).1
      modes dual n = v
      modes single n = specs (first_spec p.sources) n

  commit_source-IsCoherent :
      (k : Option AudioSourceKind) (c : Option ℕ) (b : Bool) (r : Router A)
      → r.active_source ≡ k
      → r.capture_id ≡ c
      → IsCoherent r
      → IsCoherent (commit_source k c b r).1
  unfolding commit_source note is_stopped
  commit_source-IsCoherent none c b r a e v = v
  commit_source-IsCoherent (some k) none b r a e v = v
  commit_source-IsCoherent (some k) (some c) true r a e v = record {
    released =
        subst (IsReleased (r.calls ++ commits k ∷ [])) (sym a)
          (committed_still r.calls k (subst (IsReleased r.calls) a v.released));
    idle = λ h. absurd (ground arith);
    pumped = λ j d h. e ∙ ap (Option.map (λ (q : AudioSourceKind × ℕ). q.1)) h;
    mine = v.mine;
    room = v.room;
    bounded = v.bounded;
  }
  commit_source-IsCoherent (some k) (some c) false r a e v = reset-IsCoherent _ v.room (
      closed aborts (r.calls ++ commits k ∷ []) k aborts-Closes
        (committed_still r.calls k (subst (IsReleased r.calls) a v.released)))

  commit-IsCoherent : (b : Bool) (r : Router A) → IsCoherent r → IsCoherent (commit b r).1
  unfolding commit
  commit-IsCoherent b r v =
      if_cases (λ (u : Result (Unit {0}) × Router A). IsCoherent u.1) (is_ready r.state)
        (λ _. commit_source-IsCoherent r.active_source r.capture_id b r refl refl v) (λ _. v)

  finish-IsCoherent :
      (call : AudioSourceKind → SourceCall) (k : Option AudioSourceKind) (b : Bool) (r : Router A)
      → Closes call
      → r.active_source ≡ k
      → IsCoherent r
      → IsCoherent (finish call k b r).1
  unfolding finish note
  finish-IsCoherent call none b r o a v =
      reset-IsCoherent r v.room (subst (IsReleased r.calls) a v.released)
  finish-IsCoherent call (some k) b r o a v =
      reset-IsCoherent _ v.room (closed call r.calls k o (subst (IsReleased r.calls) a v.released))

  pump_frame-IsCoherent : (f : Frame A) (r : Router A) → IsCoherent r → IsCoherent (pump_frame f r)
  unfolding pump_frame
  pump_frame-IsCoherent f r v = elim (Option-cases r.pump) [
    | inl e ↦ rw (e, pump_frame) v
    | inr ((k, c), e) ↦
        rw (e, pump_frame)
          (if_cases IsCoherent (f.capture_id == c) (λ same. taken k c e (ground arith)) (λ _. v))
  ]
    where
      taken :
          (k : AudioSourceKind) (c : ℕ)
          → r.pump ≡ some (k, c)
          → f.capture_id ≡ c
          → IsCoherent (record r { backlog = offer r.maxsize f r.backlog })
      taken k c e same = record {
        released = v.released;
        idle = v.idle;
        pumped = v.pumped;
        mine =
            offer-All (Mine r.capture_id) r.maxsize f r.backlog
              (ap some same ∙ sym (v.pumped k c e)) v.mine;
        room = v.room;
        bounded = length-offer r.maxsize f r.backlog v.room v.bounded;
      }

  step-IsCoherent : (r : Router A) (e : Event A) → IsCoherent r → IsCoherent (step r e)
  unfolding step abort stop pump_fails is_stopped
  step-IsCoherent r (prepared_event p c b) v = prepare-IsCoherent p c b r v
  step-IsCoherent r (committed_event b) v = commit-IsCoherent b r v
  step-IsCoherent r (aborted_event b) v =
      finish-IsCoherent aborts r.active_source b r aborts-Closes refl v
  step-IsCoherent r (stopped_event b) v =
      finish-IsCoherent stops r.active_source b r stops-Closes refl v
  step-IsCoherent r (frame_event f) v = pump_frame-IsCoherent f r v
  step-IsCoherent r broken_event v = elim (Option-cases r.pump) [
    | inl e ↦ rw (e, pump_fails) v
    | inr (p, e) ↦
        rw (e, pump_fails)
          (record {
            released = v.released;
            idle = λ h. absurd (ground arith);
            pumped = λ k c h. absurd (cc);
            mine = v.mine;
            room = v.room;
            bounded = v.bounded;
          })
  ]

  run-IsCoherent : (r : Router A) (es : List (Event A)) → IsCoherent r → IsCoherent (run r es)
  unfolding run
  run-IsCoherent r [] v = v
  run-IsCoherent r (e ∷ es) v = run-IsCoherent (step r e) es (step-IsCoherent r e v)

  new-IsCoherent :
      (sources : List CaptureSourceSpec) (queue_size : ℕ)
      → IsCoherent (new_router sources queue_size)
  unfolding new_router is_open is_active
  new-IsCoherent sources queue_size = record {
    released = λ k. refl;
    idle = λ _. (refl, refl);
    pumped = λ k c h. absurd (cc);
    mine = tt;
    room = omega arith;
    bounded = omega arith;
  }

  -- After any calls, each of which is made when the one before has ended, with any frames of the
  -- pump between them, whichever calls of the sources raise: the active source is open, and every
  -- other source has been aborted or stopped since it was last prepared; none is active while the
  -- router is stopped; and the queue is within its bound and holds frames of the current capture
  -- only.
  pub run-init-IsCoherent :
      (sources : List CaptureSourceSpec) (queue_size : ℕ) (r : Router A) (es : List (Event A))
      → init sources queue_size ≡ ok r
      → IsCoherent (run r es)
  unfolding init
  run-init-IsCoherent sources queue_size r es e =
      run-IsCoherent r es
        (subst IsCoherent (made (has_duplicate_kind sources) e) (new-IsCoherent sources queue_size))
    where
      made :
          (d : Bool)
          → (if d then raise duplicate_kind else ok (new_router sources queue_size)) ≡ ok r
          → new_router sources queue_size ≡ r
      made true h = absurd (cc)
      made false h = cc

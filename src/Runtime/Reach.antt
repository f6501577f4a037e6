-- ===== src/Runtime/Reach.antt =====
-- src/sona/meeting/runtime_mode.py: what is reached from a new coordinator, `stop`, and the commands that
-- are refused.
use voice_realtime.Prelude.{
  ltb, ◌≡◌, refl, ℕ, Bool, true, false, ◌&&◌, none, Option, some, subst, sym, arith, inl, inr,
}
use voice_realtime.Runtime.State.{
  init, RuntimeMode, idle, PcmOwner, no_owner, owner_for_mode, Error, Result, ok, raise, cancelled,
  Workloads, Runtime, next,
}
use voice_realtime.Runtime.Steps.{force_commit_idle}
use voice_realtime.Runtime.Restoring.{stop_all_workloads}
use voice_realtime.Runtime.Commands.{is_no_owner, is_mode}
use voice_realtime.Runtime.Endings.{
  configure_meeting, stop, stop_once, await_transition, shut_down, keep_shutdown, Ending, quiet,
  raised, already_committed,
}
use voice_realtime.Runtime.Rules.{Post, branch-Post, weaken-Post, next-Post, IsGuarded, Near, Sits}
use voice_realtime.Runtime.Starts.{is_mode-≡}
use voice_realtime.Runtime.Recovery.{Any, Clear, IsGuarded-Near}
use voice_realtime.Runtime.Restored.{stop_all-Post, force_commit-Post}
use voice_realtime.Runtime.Serial.{Command, perform}
use voice_realtime.Runtime.Guarded.{Guards}
use voice_realtime.Runtime.Kept.{perform-Guards}

-- What a coordinator can become: commands, stops and a meeting service set late, each of which may raise or be cancelled, and the
-- workloads on their own between them.
pub data Reachable {W : Type 0} (env : Workloads W) : Runtime W → Type 0 where
  began :
      (active has_subtitles has_meeting : Bool) (w : W)
      → Reachable env (init active has_subtitles has_meeting w)
  performed : (c : Command W) (s : Runtime W) → Reachable env s → Reachable env (perform env c s).1
  stopped_by :
      (ending : Ending) (before : ℕ) (s : Runtime W)
      → Reachable env s
      → Reachable env (stop env ending before s).1
  configured : (s : Runtime W) → Reachable env s → Reachable env (configure_meeting env s).1
  elsewhere : (w : W) (s : Runtime W) → Reachable env s → Reachable env (record s { world = w })

-- A stopped coordinator.
pub record Down {W : Type 0} (s : Runtime W) : Type 0 where
  pub mode_is : s.mode ≡ idle
  pub owner_is : s.pcm_owner ≡ no_owner
  pub meeting_is : s.active_meeting_id ≡ none
  pub stopped_is : s.stopped ≡ true

module _ {W : Type 0} (env : Workloads W) where
  is_no_owner-≡ : (o : PcmOwner) → is_no_owner o ≡ true → o ≡ no_owner
  unfolding is_no_owner
  is_no_owner-≡ o e = ground arith

  committed_already :
      (before : ℕ) {h : Bool} {m : RuntimeMode} (s : Runtime W)
      → Near m h Clear s
      → already_committed env before s ≡ true
      → Sits idle h Clear s
  unfolding already_committed owner_for_mode
  committed_already before s n e = record {
    mode_is =
        is_mode-≡ s.mode idle
          (first (is_mode s.mode idle) (is_no_owner s.pcm_owner) (ltb before s.revision) e);
    owner_is =
        is_no_owner-≡ s.pcm_owner
          (second (is_mode s.mode idle) (is_no_owner s.pcm_owner) (ltb before s.revision) e);
    meeting_is = n.meeting_is;
    content = n.content;
  }
    where
      first : (a b c : Bool) → (a && b && c) ≡ true → a ≡ true
      first a b c x = ground arith

      second : (a b c : Bool) → (a && b && c) ≡ true → b ≡ true
      second a b c x = ground arith

  cleared-Near :
      {m : RuntimeMode} {h : Bool} (s : Runtime W)
      → Near m h Any s
      → Near m h Clear (record s { active_meeting_id = none })
  cleared-Near s n = record {
    mode_is = n.mode_is;
    guard = n.guard;
    meeting_is = n.meeting_is;
    content = refl;
  }

  down : {h : Bool} (s : Runtime W) → Sits idle h Clear s → Down (record s { stopped = true })
  unfolding owner_for_mode
  down s n = record {
    mode_is = n.mode_is;
    owner_is = n.owner_is;
    meeting_is = n.content;
    stopped_is = refl;
  }

  closed_Near :
      {m : RuntimeMode} {h : Bool} (s : Runtime W)
      → Near m h Any s
      → Near m h Any (record s { closing = true })
  closed_Near s n = record {
    mode_is = n.mode_is;
    guard = n.guard;
    meeting_is = n.meeting_is;
    content = tt;
  }

  stop_once-Down :
      {m : RuntimeMode} {h : Bool} (before : ℕ) (s : Runtime W)
      → Near m h Any s
      → Post (λ _. Down) (λ _. ⊥) IsGuarded (stop_once env quiet before s)
  unfolding stop_once next await_transition
  stop_once-Down before s n =
      next-Post (stop_all_workloads env (record s { closing = true })) _
        (stop_all-Post env (record s { closing = true }) (closed_Near s n))
        λ a t q.
          next-Post _ _
            (branch-Post (already_committed env before (record t { active_meeting_id = none })) _ _
              (λ e. record {
                after =
                    committed_already before (record t { active_meeting_id = none })
                      (cleared-Near t q) e;
              })
              (λ e.
                weaken-Post (force_commit_idle env (record t { active_meeting_id = none }))
                  (force_commit-Post env (record t { active_meeting_id = none }) (cleared-Near t q))
                  (λ b u r. r) (λ u r. r) (λ u r. absurd r)))
            (λ b u r. record { after = down u r })

  keep-Down :
      (p : Result (Unit {0}) × Runtime W)
      → Post (λ _. Down) (λ _. ⊥) IsGuarded p
      → Post (λ _. Down) (λ _. ⊥) IsGuarded (keep_shutdown env p)
  unfolding keep_shutdown IsGuarded
  keep-Down (ok u, s) h = record {
    after = record {
      mode_is = h.after.mode_is;
      owner_is = h.after.owner_is;
      meeting_is = h.after.meeting_is;
      stopped_is = h.after.stopped_is;
    };
  }
  keep-Down (raise e, s) h = absurd h.after
  keep-Down (cancelled, s) h = record { after = h.after }

  -- The first stop of a coordinator raises nothing, whatever the workloads do, when the command in
  -- flight, if there is one, returns or is cancelled, and the microphone is guarded. When it
  -- returns, the mode is idle, nobody has the microphone and no meeting is active, and the
  -- coordinator is stopped; when it is cancelled, the microphone is guarded.
  pub stop-Down :
      (before : ℕ) (s : Runtime W)
      → IsGuarded s
      → s.stopped ≡ false
      → s.shutdown ≡ none
      → Post (λ _. Down) (λ _. ⊥) IsGuarded (stop env quiet before s)
  unfolding stop shut_down
  stop-Down before s g e h =
      branch-Post s.stopped _ _ (λ f. absurd (cc (f, e)))
        (λ f.
          subst (λ u. Post (λ _. Down) (λ _. ⊥) IsGuarded (shut_down env quiet before u s)) (sym h)
            (keep-Down (stop_once env quiet before s)
              (stop_once-Down before s (IsGuarded-Near s g))))

  Guards-state : {A : Type 0} (p : Result A × Runtime W) → Guards p → IsGuarded p.1
  Guards-state (ok a, s) g = g.after
  Guards-state (raise e, s) g = g.after
  Guards-state (cancelled, s) g = g.after

  off : (s : Runtime W) → Down s → IsGuarded s
  unfolding IsGuarded
  off s d = inl d.owner_is

  keep-Guards : (p : Result (Unit {0}) × Runtime W) → Guards p → Guards (keep_shutdown env p)
  unfolding keep_shutdown IsGuarded
  keep-Guards (ok u, s) h = record { after = h.after }
  keep-Guards (raise e, s) h = record { after = h.after }
  keep-Guards (cancelled, s) h = record { after = h.after }

  raised_Guards :
      (e : Error) (before : ℕ) (s : Runtime W)
      → IsGuarded s
      → Guards (stop_once env (raised e) before s)
  unfolding stop_once await_transition next IsGuarded
  raised_Guards e before s g = record { after = g }

  stop_once-Guards :
      (ending : Ending) (before : ℕ) (s : Runtime W)
      → IsGuarded s
      → Guards (stop_once env ending before s)
  stop_once-Guards quiet before s g =
      weaken-Post (stop_once env quiet before s) (stop_once-Down before s (IsGuarded-Near s g))
        (λ a t q. off t q) (λ t q. absurd q) (λ t q. q)
  stop_once-Guards (raised e) before s g = raised_Guards e before s g

  shut_down-Guards :
      (ending : Ending) (before : ℕ) (u : Option (Result (Unit {0}))) (s : Runtime W)
      → IsGuarded s
      → Guards (shut_down env ending before u s)
  unfolding shut_down
  shut_down-Guards ending before none s g =
      keep-Guards (stop_once env ending before s) (stop_once-Guards ending before s g)
  shut_down-Guards ending before (some (ok u)) s g = record { after = g }
  shut_down-Guards ending before (some (raise e)) s g = record { after = g }
  shut_down-Guards ending before (some cancelled) s g = record { after = g }

  stop-Guards :
      (ending : Ending) (before : ℕ) (s : Runtime W)
      → IsGuarded s
      → Guards (stop env ending before s)
  unfolding stop
  stop-Guards ending before s g =
      branch-Post s.stopped _ _ (λ f. record { after = g })
        (λ f. shut_down-Guards ending before s.shutdown s g)

  configure-Guards : (s : Runtime W) → IsGuarded s → Guards (configure_meeting env s)
  unfolding configure_meeting IsGuarded
  configure-Guards s g =
      branch-Post s.has_meeting _ _ (λ e. record { after = g }) (λ e. record { after = g })

  -- In whatever state commands and stops bring a new coordinator, with exceptions and cancellations in
  -- any of their calls, the microphone is given to nobody or to the workload of the mode.
  pub Reachable-IsGuarded : (s : Runtime W) → Reachable env s → IsGuarded s
  unfolding IsGuarded init
  Reachable-IsGuarded s (began active has_subtitles has_meeting w) = inr refl
  Reachable-IsGuarded s (performed c t r) =
      Guards-state (perform env c t) (perform-Guards env c t (Reachable-IsGuarded t r))
  Reachable-IsGuarded s (stopped_by ending before t r) =
      Guards-state (stop env ending before t)
        (stop-Guards ending before t (Reachable-IsGuarded t r))
  Reachable-IsGuarded s (configured t r) =
      Guards-state (configure_meeting env t) (configure-Guards t (Reachable-IsGuarded t r))
  Reachable-IsGuarded s (elsewhere w t r) = Reachable-IsGuarded t r

-- ===== src/Runtime/Works.antt =====
-- src/sona/meeting/runtime_mode.py: the steps of a command when no call of a workload fails.
use voice_realtime.Prelude.{◌≡◌, sym, subst, ℕ, Bool, true, false, Option, if◌then◌else◌}
use voice_realtime.Runtime.State.{
  settle, returned, RuntimeMode, assistant, subtitles, meeting, idle, PcmOwner, no_owner,
  owner_for_mode, Error, Result, ok, Outcome, Workloads, MeetingRecord, Runtime, Method, pure,
  cancel, call, call_now, handle, next,
}
use voice_realtime.Runtime.Steps.{
  put_owner, prepared_is, is_idle, set_transition_barrier, commit_state,
}
use voice_realtime.Runtime.Restoring.{quiesce_source}
use voice_realtime.Runtime.Transition.{switch_body, switch_workload}
use voice_realtime.Runtime.Rules.{Post, handle-Post, branch-Post, next-Post}

-- No call raises or is cancelled.
pub record Works {W : Type 0} (env : Workloads W) : Type 0 where
  pub started : (w : W) → (env.start_interaction w).0 ≡ ok tt
  pub stopped : (w : W) → (env.stop_interaction w).0 ≡ ok tt
  pub prepared : (c : Option ℕ) (w : W) → (p : ℕ) × ((env.prepare_capture c w).0 ≡ ok p)
  pub committed : (p : ℕ) (w : W) → (env.commit_capture p w).0 ≡ ok tt
  pub deactivated : (w : W) → (env.deactivate_capture w).0 ≡ ok tt
  pub prepared_start : (w : W) → (p : ℕ) × ((env.prepare_start w).0 ≡ ok p)
  pub committed_start :
      (p : ℕ) (w : W) → (r : MeetingRecord) × ((env.commit_start p w).0 ≡ returned r)
  pub published : (p : ℕ) (w : W) → (env.publish_started p w).0 ≡ ok tt
  pub stopped_meeting : (w : W) → (r : MeetingRecord) × ((env.stop_meeting w).0 ≡ ok r)
  pub changed : (o : PcmOwner) (w : W) → (env.owner_changed o w).0 ≡ returned tt

-- The subtitles and the meeting are there.
pub record Full {W : Type 0} (s : Runtime W) : Type 0 where
  pub subtitles_is : s.has_subtitles ≡ true
  pub meeting_is : s.has_meeting ≡ true

abbrev pub Runs : {W A : Type 0} → Result A × Runtime W → Type 0
Runs = Post (λ _. Full) (λ _. ⊥) (λ _. ⊥)

module _ {W : Type 0} where
  pub call-Runs :
      {A : Type 0} (f : W → Result A × W) (s : Runtime W)
      → Full s
      → ((a : A) × ((f s.world).0 ≡ ok a))
      → Runs (call f s)
  unfolding call
  call-Runs {A} f s n (a, e) =
      subst (λ r. Runs {A = A} (r, record s { world = (f s.world).1 })) (sym e)
        (record { after = record { subtitles_is = n.subtitles_is; meeting_is = n.meeting_is } })

  pub call_now-Runs :
      {A : Type 0} (f : W → Outcome A × W) (s : Runtime W)
      → Full s
      → ((a : A) × ((f s.world).0 ≡ returned a))
      → Runs (call_now f s)
  unfolding call_now settle
  call_now-Runs {A} f s n (a, e) =
      subst (λ r. Runs {A = A} (settle r, record s { world = (f s.world).1 })) (sym e)
        (record { after = record { subtitles_is = n.subtitles_is; meeting_is = n.meeting_is } })

  pub attempt-Runs :
      {A : Type 0} (p : Result A × Runtime W) (f : Error → Method W A) (g : Method W A)
      → Runs p
      → Runs (handle p f g)
  attempt-Runs p f g n = handle-Post p f g n (λ e t q. absurd q) (λ t q. absurd q)

module _ {W : Type 0} (env : Workloads W) (works : Works env) where
  put-Full : (m : RuntimeMode) (o : PcmOwner) (s : Runtime W) → Full s → Full (put_owner m o s)
  unfolding put_owner
  put-Full m o s n = record { subtitles_is = n.subtitles_is; meeting_is = n.meeting_is }

  pub barrier-Runs : (s : Runtime W) → Full s → Runs (set_transition_barrier env s)
  unfolding set_transition_barrier
  barrier-Runs s n = attempt-Runs _ _ cancel (
      call_now-Runs (env.owner_changed no_owner) (put_owner s.mode no_owner s)
        (put-Full s.mode no_owner s n)
        (tt, works.changed no_owner (put_owner s.mode no_owner s).world))

  pub commit-Runs :
      (m : RuntimeMode) (o : PcmOwner) (s : Runtime W) → Full s → Runs (commit_state env m o s)
  unfolding commit_state next
  commit-Runs m o s n = attempt-Runs _ _ cancel (
      next-Post {P = λ _. Full} _ _
        (call_now-Runs (env.owner_changed o) (put_owner m o s) (put-Full m o s n)
          (tt, works.changed o (put_owner m o s).world))
        (λ a t q. record {
          after = record { subtitles_is = q.subtitles_is; meeting_is = q.meeting_is };
        }))

  pub quiesce-Runs :
      (source : RuntimeMode) (s : Runtime W) → Full s → Runs (quiesce_source env source s)
  unfolding quiesce_source
  quiesce-Runs assistant s n = call-Runs env.stop_interaction s n (tt, works.stopped s.world)
  quiesce-Runs subtitles s n =
      branch-Post s.has_subtitles _ _
        (λ e. call-Runs env.deactivate_capture s n (tt, works.deactivated s.world))
        (λ e. absurd (cc (n.subtitles_is, e)))
  quiesce-Runs meeting s n = record { after = n }
  quiesce-Runs idle s n = record { after = n }

  barred-Runs :
      (b : Bool) (s : Runtime W)
      → Full s
      → Runs ((if b then pure tt else set_transition_barrier env) s)
  barred-Runs true s n = record { after = n }
  barred-Runs false s n = barrier-Runs s n

  module _ {A : Type 0} (target source : RuntimeMode) (commit : ℕ → Method W A)
      (c : (p : ℕ) (s : Runtime W) → Full s → Runs (commit p s)) where
    prepared-Full : (p : ℕ) (b : Bool) (s : Runtime W) → Full s → Full (prepared_is target p b s)
    unfolding prepared_is
    prepared-Full p b s n = record { subtitles_is = n.subtitles_is; meeting_is = n.meeting_is }

    body-Runs : (p : ℕ) (s : Runtime W) → Full s → Runs (switch_body env target source commit p s)
    unfolding switch_body next
    body-Runs p s n =
        next-Post _ _
          (barred-Runs (is_idle source) (prepared_is target p false s) (prepared-Full p false s n))
          λ a t q. next-Post (quiesce_source env source t) _ (quiesce-Runs source t q) λ b u r.
            next-Post (commit p u) _ (c p u r) λ result v x.
              next-Post
                (commit_state env target (owner_for_mode target) (prepared_is target p true v)) _
                (commit-Runs target (owner_for_mode target) (prepared_is target p true v)
                  (prepared-Full p true v x))
                (λ d z y. record {
                  after = record { subtitles_is = y.subtitles_is; meeting_is = y.meeting_is };
                })

    pub switch-Runs :
        (prepare : Method W ℕ) (s : Runtime W)
        → Runs (prepare s)
        → Runs (switch_workload env target source commit prepare s)
    unfolding switch_workload
    switch-Runs prepare s n = next-Post (prepare s) _ n λ p t q.
        next-Post {P = λ _. Full} _ _ (attempt-Runs _ _ _ (body-Runs p t q))
          (λ a u r. record { after = r })

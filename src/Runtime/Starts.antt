-- ===== src/Runtime/Starts.antt =====
-- src/sona/meeting/runtime_mode.py: `_start_assistant_locked`, `_start_subtitles_locked` and
-- `_start_meeting_locked` from a settled coordinator.
use voice_realtime.Prelude.{
  ◌≡◌, refl, sym, ap, ◌∙◌, ℕ, Bool, true, false, not, ◌&&◌, Option, arith, inl,
}
use voice_realtime.Runtime.State.{
  RuntimeMode, assistant, subtitles, meeting, Error, Result, Workloads, Runtime, Method, pure, fail,
  cancel, call, call_now, attempt, next, choose, unavailable, mode_conflict,
}
use voice_realtime.Runtime.Steps.{is_set, interaction_active}
use voice_realtime.Runtime.Transition.{switch_workload}
use voice_realtime.Runtime.Commands.{
  is_mode, source_for, prepare_assistant, switch_to_assistant, start_assistant_locked,
  commit_subtitles, switch_to_subtitles, is_other_selection, start_subtitles_locked, note_record,
  commit_meeting, switch_to_meeting, start_meeting_locked,
}
use voice_realtime.Runtime.Rules.{
  Post, handle-Post, choose-Post, branch-Post, weaken-Post, next-Post, IsGuarded, Near, Sits,
  Sits-Near, Near-weaken, Near-world, call-Post, call_now-Post,
}
use voice_realtime.Runtime.Recovery.{Clear}
use voice_realtime.Runtime.Switch.{Opened, Owned}
use voice_realtime.Runtime.Switched.{switch-Post}
use voice_realtime.Runtime.Settled.{
  Lands, IsSettled, Back, Sits-Lands, Clear-Owned, settled-Sits, Recovered-Lands, call-Sits,
  source_for-clear, source_for-Back,
}

-- A command reached its mode, or the coordinator is as before or idle.
abbrev pub Reached : {W A : Type 0} → RuntimeMode → RuntimeMode → Result A × Runtime W → Type 0
Reached m target = Post (λ _. Lands (λ k. k ≡ target)) (Lands (Back m)) IsGuarded

pub is_mode-≡ : (m k : RuntimeMode) → is_mode m k ≡ true → m ≡ k
unfolding is_mode
is_mode-≡ m k e = ground arith

module _ {W : Type 0} where
  pub stands : (s : Runtime W) → IsSettled s → Lands (Back s.mode) s
  stands s l = record { owner_is = l.owner_is; active_is = l.active_is; landed = inl refl }

  pub fail-Reached :
      {A : Type 0} (target : RuntimeMode) (e : Error) (s : Runtime W)
      → IsSettled s
      → Reached {A = A} s.mode target (fail e s)
  fail-Reached target e s l = record { after = stands s l }

  pub pure-Reached :
      (target : RuntimeMode) (s : Runtime W)
      → IsSettled s
      → s.mode ≡ target
      → Reached s.mode target (pure tt s)
  pure-Reached target s l e = record {
    after = record { owner_is = l.owner_is; active_is = l.active_is; landed = e };
  }

pub and_left : (a b : Bool) → (a && b) ≡ true → a ≡ true
and_left a b h = ground arith

module _ {W : Type 0} (env : Workloads W) where
  -- A switch from a settled mode, from what it commits and prepares.
  switch-Reached :
      {A : Type 0} (target source : RuntimeMode) (commit : ℕ → Method W A) (prepare : Method W ℕ)
      (s : Runtime W)
      → (is_mode target meeting ≡ true → s.has_meeting ≡ true)
      → is_mode source meeting ≡ false
      → Back s.mode source
      → ((p : ℕ) (t : Runtime W)
          → Near s.mode s.has_meeting Opened t
          → Post
              (λ _. Near s.mode s.has_meeting (Owned target))
              (Near s.mode s.has_meeting Opened)
              IsGuarded
              (commit p t))
      → is_mode s.mode meeting ≡ false
      → Post
          (λ _. Sits s.mode s.has_meeting Clear)
          (Sits s.mode s.has_meeting Clear)
          IsGuarded
          (prepare s)
      → Reached s.mode target (switch_workload env target source commit prepare s)
  switch-Reached target source commit prepare s has f b c e pre =
      weaken-Post (switch_workload env target source commit prepare s)
        (switch-Post env target source commit s.mode s.has_meeting {E = Lands (Back s.mode)} prepare
          s has c (λ t q. Recovered-Lands s.mode source s.has_meeting t f b q)
          (weaken-Post (prepare s) pre (λ a t q. Sits-Near t q)
            (λ t q. Sits-Lands t (Clear-Owned t e q) (inl refl)) (λ t q. q)))
        (λ a t q. Sits-Lands t q refl) (λ t q. q) (λ t q. q)

  pub forget_result :
      {A : Type 0} (m target : RuntimeMode) (p : Result A × Runtime W)
      → Reached m target p
      → Reached m target (next p (λ _. pure tt))
  forget_result m target p r = next-Post p (λ _. pure tt) r (λ a t q. record { after = q })

  opened_owned :
      {m : RuntimeMode} {h : Bool} (target : RuntimeMode) (s : Runtime W)
      → is_mode target meeting ≡ false
      → Near m h Opened s
      → Near m h (Owned target) s
  unfolding is_set
  opened_owned target s e n = Near-weaken s (λ i p o. ap is_set o.1 ∙ sym e) n

  prepare_assistant-Sits :
      {m : RuntimeMode} {h : Bool} (s : Runtime W)
      → Sits m h Clear s
      → Post (λ _. Sits m h Clear) (Sits m h Clear) IsGuarded (prepare_assistant env s)
  unfolding prepare_assistant
  prepare_assistant-Sits {m} {h} s n =
      handle-Post _ _ cancel
        (next-Post (call env.start_interaction s) _ (call-Sits env.start_interaction s n)
          (λ a t q. record { after = q }))
        (λ e t q. next-Post (tidied t) (λ _. fail e) (stopped t q) (λ a u r. record { after = r }))
        (λ t q. record { after = q })
    where
      tidied : Method W (Unit {0})
      tidied =
          choose (interaction_active env)
            (attempt (call env.stop_interaction) (λ x. pure tt) cancel) (pure tt)

      stopped :
          (t : Runtime W)
          → Sits m h Clear t
          → Post (λ u. Sits m h Clear) (Sits m h Clear) IsGuarded (tidied t)
      stopped t q =
          choose-Post (interaction_active env)
            (attempt (call env.stop_interaction) (λ x. pure tt) cancel) (pure tt) t
            (λ f.
              handle-Post (call env.stop_interaction t) (λ x. pure tt) cancel
                (call-Sits env.stop_interaction t q) (λ x u r. record { after = r })
                (λ u r. record { after = r }))
            (λ f. record { after = q })

  pub start_assistant-Reached :
      (s : Runtime W) → IsSettled s → Reached s.mode assistant (start_assistant_locked env s)
  unfolding start_assistant_locked switch_to_assistant is_mode
  start_assistant-Reached s l =
      branch-Post (is_mode s.mode meeting) _ _ (λ e. fail-Reached assistant mode_conflict s l)
        (λ e.
          branch-Post _ _ _
            (λ f. pure-Reached assistant s l (
              is_mode-≡ s.mode assistant
                (and_left (is_mode s.mode assistant) (interaction_active env s) f)))
            (λ f.
              forget_result s.mode assistant
                (switch_workload env assistant (source_for assistant s) (λ p. pure tt)
                  (prepare_assistant env) s)
                (switch-Reached assistant (source_for assistant s) (λ p. pure tt)
                  (prepare_assistant env) s (λ x. absurd cc) (source_for-clear assistant s e)
                  (source_for-Back assistant s)
                  (λ p t n. record { after = opened_owned assistant t refl n }) e
                  (prepare_assistant-Sits s (settled-Sits s l e)))))

  commit_subtitles-Owned :
      {m : RuntimeMode} {h : Bool} (p : ℕ) (s : Runtime W)
      → Near m h Opened s
      → Post
          (λ _. Near m h (Owned subtitles))
          (Near m h Opened)
          IsGuarded
          (commit_subtitles env p s)
  unfolding commit_subtitles is_mode
  commit_subtitles-Owned p s n =
      weaken-Post (call (env.commit_capture p) s) (call-Post (env.commit_capture p) s n)
        (λ a t q. opened_owned subtitles t refl q) (λ t q. q) (λ t q. q)

  pub start_subtitles-Reached :
      (capture : Option ℕ) (s : Runtime W)
      → IsSettled s
      → Reached s.mode subtitles (start_subtitles_locked env capture s)
  unfolding start_subtitles_locked switch_to_subtitles is_mode
  start_subtitles-Reached capture s l =
      branch-Post (is_mode s.mode meeting) _ _ (λ e. fail-Reached subtitles mode_conflict s l)
        λ e.
          branch-Post (not s.has_subtitles) _ _ (λ f. fail-Reached subtitles unavailable s l)
            λ f.
              branch-Post (is_mode s.mode subtitles && env.capture_active s.world) _ _
                (λ g.
                  branch-Post (is_other_selection env capture s) _ _
                    (λ x. fail-Reached subtitles mode_conflict s l)
                    (λ x. pure-Reached subtitles s l (
                      is_mode-≡ s.mode subtitles
                        (and_left (is_mode s.mode subtitles) (env.capture_active s.world) g))))
                λ g.
                  forget_result s.mode subtitles
                    (switch_workload env subtitles (source_for subtitles s) (commit_subtitles env)
                      (call (env.prepare_capture capture)) s)
                    (switch-Reached subtitles (source_for subtitles s) (commit_subtitles env)
                      (call (env.prepare_capture capture)) s (λ x. absurd cc)
                      (source_for-clear subtitles s e) (source_for-Back subtitles s)
                      (λ p t n. commit_subtitles-Owned p t n) e
                      (call-Sits (env.prepare_capture capture) s (settled-Sits s l e)))

  commit_meeting-Owned :
      {m : RuntimeMode} {h : Bool} (p : ℕ) (s : Runtime W)
      → Near m h Opened s
      → Post (λ _. Near m h (Owned meeting)) (Near m h Opened) IsGuarded (commit_meeting env p s)
  unfolding commit_meeting note_record next is_set is_mode
  commit_meeting-Owned {m} {h} p s n =
      next-Post (call_now (env.commit_start p) s) _
        (weaken-Post (call_now (env.commit_start p) s)
          (call_now-Post {P = Near m h Opened} (env.commit_start p) s (λ w. Near-world s w n))
          (λ a t q. q) (λ t q. q) (λ t q. absurd q))
        (λ r t q. record {
          after = record {
            mode_is = q.mode_is;
            guard = q.guard;
            meeting_is = q.meeting_is;
            content = refl;
          };
        })

  pub start_meeting-Reached :
      (s : Runtime W) → IsSettled s → Reached s.mode meeting (start_meeting_locked env s)
  unfolding start_meeting_locked switch_to_meeting is_mode
  start_meeting-Reached s l =
      branch-Post (is_mode s.mode meeting) _ _ (λ e. fail-Reached meeting mode_conflict s l)
        λ e.
          branch-Post (not s.has_meeting) _ _ (λ f. fail-Reached meeting unavailable s l)
            λ f.
              switch-Reached meeting s.mode (commit_meeting env) (call env.prepare_start) s
                (λ x. not-false s.has_meeting f) e (inl refl) (λ p t n. commit_meeting-Owned p t n)
                e (call-Sits env.prepare_start s (settled-Sits s l e))
    where
      not-false : (b : Bool) → not b ≡ false → b ≡ true
      not-false b h = ground arith

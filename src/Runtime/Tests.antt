-- ===== src/Runtime/Tests.antt =====
-- src/sona/meeting/runtime_mode.py: workloads that follow a script, and some runs with them.
use voice_realtime.Prelude.{◌≡◌, refl, ℕ, true, false, some, List, [], ◌∷◌}
use voice_realtime.Meeting.Journal.{recording}
use voice_realtime.Runtime.State.{
  unavailable, other_error, Result, ok, raise, cancelled, Outcome, returned, raised, MeetingRecord,
  Workloads, Runtime, init,
}
use voice_realtime.Runtime.Rules.{Post, IsGuarded}
use voice_realtime.Runtime.Commands.{is_mode}
use voice_realtime.Runtime.Endings.{stop}
use voice_realtime.Runtime.Steps.{is_set, is_closing}
use voice_realtime.Runtime.Settled.{Lands, IsSettled, Back}
use voice_realtime.Runtime.Serial.{to_meeting, to_stop, perform, target_of, perform_lem}
use voice_realtime.Runtime.Endings.{quiet, raised}
use voice_realtime.Runtime.Reach.{began, performed, Reachable-IsGuarded, Down, stop-Down}
use voice_realtime.Runtime.Works.{Works, Full}
use voice_realtime.Runtime.Allowed.{is_allowed}
use voice_realtime.Runtime.Completes.{perform-Lands}
use voice_realtime.Runtime.Stuck.{Stuck, stop_failed-Stuck}

-- How the next calls end: as they should, with an exception, or cancelled.
data Step : Type 0 where
  fine broken dropped : Step

abbrev Script : Type 0
Script = List Step

unfoldable rest_of : Script → Script
rest_of [] = []
rest_of (x ∷ xs) = xs

unfoldable next_of : {A : Type 0} → A → Script → Result A
next_of a [] = ok a
next_of a (fine ∷ xs) = ok a
next_of a (broken ∷ xs) = raise (other_error 9)
next_of a (dropped ∷ xs) = cancelled

unfoldable now_of : {A : Type 0} → A → Script → Outcome A
now_of a [] = returned a
now_of a (fine ∷ xs) = returned a
now_of a (broken ∷ xs) = raised (other_error 9)
now_of a (dropped ∷ xs) = returned a

abbrev standup : MeetingRecord
standup = record { id = 7; status = recording }

abbrev scripted : Workloads Script
scripted = record {
  start_interaction = λ w. (next_of tt w, rest_of w);
  stop_interaction = λ w. (next_of tt w, rest_of w);
  interaction_active = λ w. true;
  prepare_capture = λ c w. (next_of 1 w, rest_of w);
  commit_capture = λ p w. (next_of tt w, rest_of w);
  abort_capture = λ p w. (next_of tt w, rest_of w);
  deactivate_capture = λ w. (next_of tt w, rest_of w);
  capture_active = λ w. true;
  is_selection = λ c w. true;
  prepare_start = λ w. (next_of 2 w, rest_of w);
  commit_start = λ p w. (now_of standup w, rest_of w);
  publish_started = λ p w. (next_of tt w, rest_of w);
  abort_start = λ p w. (next_of tt w, rest_of w);
  stop_meeting = λ w. (next_of standup w, rest_of w);
  interrupt = λ w. (next_of tt w, rest_of w);
  meeting_record = λ w. some standup;
  meeting_active = λ w. true;
  owner_changed = λ o w. (now_of tt w, rest_of w);
  stop_requested = λ w. false;
}

-- Workloads that never fail.
abbrev smooth : Workloads ℕ
smooth = record {
  start_interaction = λ w. (ok tt, w);
  stop_interaction = λ w. (ok tt, w);
  interaction_active = λ w. true;
  prepare_capture = λ c w. (ok 1, w);
  commit_capture = λ p w. (ok tt, w);
  abort_capture = λ p w. (ok tt, w);
  deactivate_capture = λ w. (ok tt, w);
  capture_active = λ w. true;
  is_selection = λ c w. true;
  prepare_start = λ w. (ok 2, w);
  commit_start = λ p w. (returned standup, w);
  publish_started = λ p w. (ok tt, w);
  abort_start = λ p w. (ok tt, w);
  stop_meeting = λ w. (ok standup, w);
  interrupt = λ w. (ok tt, w);
  meeting_record = λ w. some standup;
  meeting_active = λ w. true;
  owner_changed = λ o w. (returned tt, w);
  stop_requested = λ w. false;
}

smooth-Works : Works smooth
smooth-Works = record {
  started = λ w. refl;
  stopped = λ w. refl;
  prepared = λ c w. (1, refl);
  committed = λ p w. refl;
  deactivated = λ w. refl;
  prepared_start = λ w. (2, refl);
  committed_start = λ p w. (standup, refl);
  published = λ p w. refl;
  stopped_meeting = λ w. (standup, refl);
  changed = λ o w. refl;
}

-- The assistant talks, and the owner's callback fails when the meeting is committed.
abbrev broken_commit : Runtime Script
broken_commit = init true true true (fine ∷ fine ∷ fine ∷ fine ∷ broken ∷ fine ∷ [])

broken_commit-IsSettled : IsSettled broken_commit
unfolding init is_set is_mode
broken_commit-IsSettled = record { owner_is = refl; active_is = refl; landed = tt }

perform_lem_example :
    Post
      (λ _. Lands (λ k. k ≡ target_of {W = Script} to_meeting))
      (Lands (Back broken_commit.mode))
      IsGuarded
      (perform scripted to_meeting broken_commit)
perform_lem_example = perform_lem scripted to_meeting broken_commit broken_commit-IsSettled

-- The start of the meeting is cancelled while the assistant is stopped.
abbrev dropped_start : Runtime Script
dropped_start = init true true true (fine ∷ fine ∷ dropped ∷ fine ∷ broken ∷ [])

Reachable-IsGuarded_example :
    IsGuarded (perform scripted to_stop (perform scripted to_meeting dropped_start).1).1
Reachable-IsGuarded_example =
    Reachable-IsGuarded scripted
      (perform scripted to_stop (perform scripted to_meeting dropped_start).1).1
      (performed to_stop (perform scripted to_meeting dropped_start).1 (
        performed to_meeting dropped_start
          (began true true true (fine ∷ fine ∷ dropped ∷ fine ∷ broken ∷ []))))

stop-Down_example : Post (λ _. Down) (λ _. ⊥) IsGuarded (stop scripted quiet 0 broken_commit)
unfolding init
stop-Down_example =
    stop-Down scripted 0 broken_commit
      (Reachable-IsGuarded scripted broken_commit
        (began true true true (fine ∷ fine ∷ fine ∷ fine ∷ broken ∷ fine ∷ [])))
      refl refl

abbrev talking : Runtime ℕ
talking = init true true true 0

talking-IsSettled : IsSettled talking
unfolding init is_set is_mode
talking-IsSettled = record { owner_is = refl; active_is = refl; landed = tt }

talking-Full : Full talking
unfolding init
talking-Full = record { subtitles_is = refl; meeting_is = refl }

talking_open : is_closing smooth talking ≡ false
unfolding init is_closing
talking_open = refl

talking_allowed : is_allowed smooth to_meeting talking ≡ true
unfolding init is_allowed is_mode
talking_allowed = refl

perform-Lands_example :
    Post
      (λ _. Lands (λ k. k ≡ target_of {W = ℕ} to_meeting))
      (λ _. ⊥)
      (λ _. ⊥)
      (perform smooth to_meeting talking)
perform-Lands_example =
    perform-Lands smooth smooth-Works to_meeting talking talking-IsSettled talking-Full talking_open
      talking_allowed

abbrev leaving : Runtime ℕ
leaving = record talking { closing = true }

leaving_closing : is_closing smooth leaving ≡ true
unfolding init is_closing
leaving_closing = refl

stop_failed-Stuck_example :
    (q : Runtime ℕ) × (stop smooth (raised unavailable) 0 talking ≡ (raise unavailable, q))
    × Stuck smooth unavailable talking q
unfolding init
stop_failed-Stuck_example = stop_failed-Stuck smooth unavailable 0 talking refl refl

-- ===== src/Runtime/State.antt =====
-- src/sona/meeting/runtime_mode.py: the coordinator's state, the workloads that it calls, and a
-- method as a function of the state that returns, raises or is cancelled. The state comes back in
-- each of these cases. A workload is a parameter: each call of one gives any outcome, and what can
-- be read of it afterwards. A preparation is the workload's own object, here a number.
use voice_realtime.Prelude.{ℕ, Bool, false, Option, none, if◌then◌else◌}
use voice_realtime.Meeting.Journal.{Status}

pub data RuntimeMode : Type 0 where
  assistant subtitles meeting idle : RuntimeMode

-- `PCMOwner`
pub data PcmOwner : Type 0 where
  assistant_owner subtitles_owner meeting_owner no_owner : PcmOwner

unfoldable pub owner_for_mode : RuntimeMode → PcmOwner
owner_for_mode assistant = assistant_owner
owner_for_mode subtitles = subtitles_owner
owner_for_mode meeting = meeting_owner
owner_for_mode idle = no_owner

pub data Error : Type 0 where
  mode_conflict meeting_not_active unavailable : Error
  -- an exception of a workload, a callback or the coordinator itself
  other_error : ℕ → Error

pub data Result {ℓ} (A : Type ℓ) : Type ℓ where
  ok : A → Result A
  raise : Error → Result A
  cancelled : Result A

-- A call that does not wait cannot be cancelled.
pub data Outcome {ℓ} (A : Type ℓ) : Type ℓ where
  returned : A → Outcome A
  raised : Error → Outcome A

pub record MeetingRecord : Type 0 where
  pub id : ℕ
  pub status : Status

-- The workloads, over everything that they do: `W`.
pub record Workloads (W : Type 0) : Type 0 where
  pub start_interaction : W → Result (Unit {0}) × W
  pub stop_interaction : W → Result (Unit {0}) × W
  pub interaction_active : W → Bool
  pub prepare_capture : Option ℕ → W → Result ℕ × W
  pub commit_capture : ℕ → W → Result (Unit {0}) × W
  pub abort_capture : ℕ → W → Result (Unit {0}) × W
  pub deactivate_capture : W → Result (Unit {0}) × W
  pub capture_active : W → Bool
  pub is_selection : ℕ → W → Bool
  pub prepare_start : W → Result ℕ × W
  pub commit_start : ℕ → W → Outcome MeetingRecord × W
  pub publish_started : ℕ → W → Result (Unit {0}) × W
  pub abort_start : ℕ → W → Result (Unit {0}) × W
  pub stop_meeting : W → Result MeetingRecord × W
  pub interrupt : W → Result (Unit {0}) × W
  pub meeting_record : W → Option MeetingRecord
  pub meeting_active : W → Bool
  pub owner_changed : PcmOwner → W → Outcome (Unit {0}) × W
  -- `stop` was called by another task meanwhile.
  pub stop_requested : W → Bool

pub record Prepared : Type 0 where
  pub target : RuntimeMode
  pub preparation : ℕ
  pub committed : Bool

pub data Ending : Type 0 where
  success failed was_cancelled : Ending

pub record Transition : Type 0 where
  pub target : RuntimeMode
  pub result : Ending
  pub rollback_result : Option Bool

pub record Runtime (W : Type 0) : Type 0 where
  pub mode : RuntimeMode
  pub pcm_owner : PcmOwner
  pub active_meeting_id : Option ℕ
  pub meeting_record : Option MeetingRecord
  pub prepared_target : Option Prepared
  pub has_subtitles : Bool
  pub has_meeting : Bool
  pub closing : Bool
  pub stopped : Bool
  -- How the shutdown task ended, once there is one.
  pub shutdown : Option (Result (Unit {0}))
  pub revision : ℕ
  pub rollback_result : Option Bool
  pub last_transition : Option Transition
  pub world : W

unfoldable pub init : {W : Type 0} → Bool → Bool → Bool → W → Runtime W
init active has_subtitles has_meeting w =
    let m = if active then assistant else idle in
    record {
      mode = m;
      pcm_owner = owner_for_mode m;
      active_meeting_id = none;
      meeting_record = none;
      prepared_target = none;
      has_subtitles = has_subtitles;
      has_meeting = has_meeting;
      closing = false;
      stopped = false;
      shutdown = none;
      revision = 0;
      rollback_result = none;
      last_transition = none;
      world = w;
    }

abbrev pub Method : Type 0 → Type 0 → Type 0
Method W A = Runtime W → Result A × Runtime W

unfoldable pub settle : {A : Type 0} → Outcome A → Result A
settle (returned a) = ok a
settle (raised e) = raise e

module _ {W A : Type 0} where
  abbrev pub pure : A → Method W A
  pure a s = (ok a, s)

  abbrev pub fail : Error → Method W A
  fail e s = (raise e, s)

  abbrev pub cancel : Method W A
  cancel s = (cancelled, s)

  -- A call of a workload that may wait, and one that may not.
  unfoldable pub call : (W → Result A × W) → Method W A
  call f s = ((f s.world).0, record s { world = (f s.world).1 })

  unfoldable pub call_now : (W → Outcome A × W) → Method W A
  call_now f s = (settle (f s.world).0, record s { world = (f s.world).1 })

  -- `try`, with an `except Exception` and an `except asyncio.CancelledError`
  unfoldable pub handle :
      Result A × Runtime W → (Error → Method W A) → Method W A → Result A × Runtime W
  handle (ok a, s) on_error on_cancel = (ok a, s)
  handle (raise e, s) on_error on_cancel = on_error e s
  handle (cancelled, s) on_error on_cancel = on_cancel s

  abbrev pub attempt : Method W A → (Error → Method W A) → Method W A → Method W A
  attempt m on_error on_cancel s = handle (m s) on_error on_cancel

module _ {W A B : Type 0} where
  unfoldable pub next : Result A × Runtime W → (A → Method W B) → Result B × Runtime W
  next (ok a, s) f = f a s
  next (raise e, s) f = (raise e, s)
  next (cancelled, s) f = (cancelled, s)

infixl 5 ◌>>=◌ ◌>>◌
abbrev pub ◌>>=◌ : {W A B : Type 0} → Method W A → (A → Method W B) → Method W B
◌>>=◌ m f s = next (m s) f

abbrev pub ◌>>◌ : {W A B : Type 0} → Method W A → Method W B → Method W B
m >> k = m >>= λ _. k

abbrev pub modify : {W : Type 0} → (Runtime W → Runtime W) → Method W (Unit {0})
modify f s = (ok tt, f s)

-- A test on the state that chooses what runs.
abbrev pub choose : {W A : Type 0} → (Runtime W → Bool) → Method W A → Method W A → Method W A
choose test then_do else_do s = if test s then then_do s else else_do s

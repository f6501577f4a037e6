-- ===== src/Meeting/Persistence/Tests.antt =====
-- Witnesses for src/sona/meeting/recovery.py and src/sona/meeting/persistence.py.
use voice_realtime.Prelude.{
  ◌≡◌, refl, ap, ◌∙◌, ℕ, zero, suc, ◌+◌, ◌-◌, arith, Bool, true, false, List, [], ◌∷◌, ◌++◌, Option,
  none, some,
}
use voice_realtime.Prelude.Text.{Text, between, is_blank, is_space}
use voice_realtime.Meeting.Journal.{
  Status, recording, TranscriptWindow, Change, reconcile_window, finalize_transcript, Result, ok,
  raise, repository_failed, Files, append, Json, Envelope, envelope, whole, is_break, set_status,
  create_minutes, unsupported, Repository, replay_change, is_final, replay_meeting,
}
use voice_realtime.Meeting.Journal.Append.{Holds, Storable, Appended, append-Appended, none-Holds}
use voice_realtime.Meeting.Journal.Replay.{apply_all, and_then, IsDown, replay_meeting-Holds}
use voice_realtime.Meeting.Persistence.{Persistence, init, reconcile, is_last}
use voice_realtime.Meeting.Persistence.Outage.{IsFresh, windows, reconciles, outage-replayed}

-- A database that is up or down, and the changes that it took.
abbrev Database : Type 0
Database = Bool × List Change

abbrev take_change : Change → Database → Result Database
take_change c (true, log) = ok (true, log ++ c ∷ [])
take_change c (false, log) = raise repository_failed

abbrev status_of : Database → Result (Option Status)
status_of (true, log) = ok (some recording)
status_of (false, log) = raise repository_failed

abbrev database : Repository Database
database = record {
  get_meeting = λ m r. status_of r;
  apply = λ m c r. take_change c r;
  finalize = λ m s t r. take_change finalize_transcript r;
}

abbrev window_at : ℕ → TranscriptWindow
window_at n = record {
  source_epoch = n;
  partial = [];
  segments =
      record {
        id = n;
        order = 0;
        source_epoch = n;
        speaker_key = 65 ∷ [];
        start_ms = 0;
        end_ms = 900;
        text = 104 ∷ 105 ∷ [];
      }
      ∷ [];
  speaker_remap = [];
}

-- A JSON of the changes that are written here, by their numbers alone.
abbrev code : Change → ℕ
code (reconcile_window w) = suc w.source_epoch
code (set_status s t) = 0
code finalize_transcript = 0
code (create_minutes k) = 0
code unsupported = 0

abbrev coded : ℕ → Change
coded zero = finalize_transcript
coded (suc n) = reconcile_window (window_at n)

abbrev decoded : Text → Option Envelope
decoded (b ∷ n ∷ c ∷ []) = some (envelope 7 (n - 10000) (coded (c - 10000)))
decoded _ = none

abbrev json : Json
json = record {
  dumps = λ e. 123 ∷ (10000 + e.sequence) ∷ (10000 + code e.change) ∷ [];
  loads = decoded;
}

over_high : (n : ℕ) → 10000 + n - 10000 ≡ n
over_high n = omega arith

high_IsBreak : (n : ℕ) → is_break (10000 + n) ≡ false
unfolding is_break between
high_IsBreak n = ground arith

window_at-IsStorable : (k : ℕ) → Storable json 7 (reconcile_window (window_at k))
unfolding is_break between is_blank is_space
window_at-IsStorable k n = record {
  back =
      ap (λ x. some (envelope 7 x (coded (10000 + suc k - 10000)))) (over_high n)
      ∙ ap (λ x. some (envelope 7 n (coded x))) (over_high (suc k));
  solid = refl;
  plain = (refl, (high_IsBreak n, (high_IsBreak (suc k), tt)));
}

finalize_transcript-IsStorable : Storable json 7 finalize_transcript
unfolding is_break between is_blank is_space
finalize_transcript-IsStorable n = record {
  back = ap (λ x. some (envelope 7 x finalize_transcript)) (over_high n);
  solid = refl;
  plain = (refl, (high_IsBreak n, (high_IsBreak 0, tt)));
}

abbrev start : Persistence Database
start = init true (λ m. none) (false, [])

start-Holds : (m : ℕ) → Holds json m start.files []
unfolding init
start-Holds m = none-Holds json m start.files refl

start-IsDown : (m : ℕ) → IsDown database m start.repo
unfolding init
start-IsDown m = record { unread = refl; refused = λ c. refl }

append-Appended_example :
    (new : Files) × (append json 7 finalize_transcript whole start.files ≡ (ok tt, new))
    × Appended json 7 finalize_transcript [] start.files new
append-Appended_example =
    append-Appended json 7 finalize_transcript start.files [] finalize_transcript-IsStorable
      (start-Holds 7)

-- The journal after one window.
abbrev one_left : List Change
one_left = reconcile_window (window_at 1) ∷ []

replay_meeting-Holds_example :
    (n : ℕ) × (new : Files) × (replay_meeting json database 7 (append-Appended_example.0) (true, [])
      ≡ (ok n, new, (true, finalize_transcript ∷ [])))
    × Holds json 7 new []
unfolding apply_all and_then replay_change is_final
replay_meeting-Holds_example =
    replay_meeting-Holds json database 7 (append-Appended_example.0) (finalize_transcript ∷ [])
      (true, []) (true, finalize_transcript ∷ []) (some recording) (append-Appended_example.2.holds)
      refl refl refl

outage-replayed_example :
    (z : Persistence Database) × (reconcile json database 7
        (window_at 3)
        whole
        (record (reconciles json database 7 (window_at 1 ∷ window_at 2 ∷ []) start) {
          repo = (true, []);
        })
      ≡ (ok true, z))
    × (z.repo ≡ (true, windows (window_at 1 ∷ window_at 2 ∷ window_at 3 ∷ [])))
    × Holds json 7 z.files []
unfolding apply_all and_then replay_change is_last is_final init IsFresh
outage-replayed_example =
    outage-replayed json database 7 (window_at 1 ∷ window_at 2 ∷ []) (window_at 3) start (true, [])
      (true, windows (window_at 1 ∷ window_at 2 ∷ window_at 3 ∷ [])) (some recording) refl
      (start-Holds 7) (start-IsDown 7) (refl, (refl, (refl, tt)))
      (window_at-IsStorable 1, (window_at-IsStorable 2, tt)) refl refl refl

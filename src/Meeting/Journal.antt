-- ===== src/Meeting/Journal.antt =====
-- src/sona/meeting/recovery.py: the journal of changes that wait for the database, one file for
-- each meeting, as the text that is read of it. JSON and the repository are parameters; a call of
-- the repository that raises leaves it as it is. How far a line is written is an argument;
-- deleting a file is taken to succeed, and so is preparing its directory.
mod Splits
pub mod Append
pub mod Replay
use voice_realtime.Prelude.{
  ℕ, zero, suc, ◌+◌, Bool, true, false, ◌&&◌, List, [], ◌∷◌, ◌++◌, Option, none, some, ◌==◌,
  if◌then◌else◌, length, take, map, ◌||◌,
}
use voice_realtime.Prelude.Text.{Text, between, is_blank}

-- `MeetingStatus`
pub data Status : Type 0 where
  recording finalizing completed interrupted storage_error : Status

pub record Segment : Type 0 where
  pub id : ℕ
  pub order : ℕ
  pub source_epoch : ℕ
  pub speaker_key : Text
  pub start_ms : ℕ
  pub end_ms : ℕ
  pub text : Text

pub record TranscriptWindow : Type 0 where
  pub source_epoch : ℕ
  pub partial : Text
  pub segments : List Segment
  pub speaker_remap : List (Text × Text)

-- An operation with its payload, once it is parsed: `unsupported` stands for each of the payloads
-- and names that `_replay_one` refuses.
pub data Change : Type 0 where
  reconcile_window : TranscriptWindow → Change
  set_status : Status → Option Text → Change
  finalize_transcript : Change
  create_minutes : Option Text → Change
  unsupported : Change

pub record Envelope : Type 0 where
  pub meeting_id : ℕ
  pub sequence : ℕ
  pub change : Change

pub data Line : Type 0 where
  blank invalid : Line
  entry : Envelope → Line

pub data Error : Type 0 where
  journal_error repository_failed : Error

pub data Result {ℓ} (A : Type ℓ) : Type ℓ where
  ok : A → Result A
  raise : Error → Result A

-- `model_dump_json` of an envelope, and `model_validate_json`.
pub record Json : Type 0 where
  pub dumps : Envelope → Text
  pub loads : Text → Option Envelope

abbrev pub Files : Type 0
Files = ℕ → Option Text

-- The characters at which `str.splitlines` ends a line.
unfoldable pub is_break : ℕ → Bool
is_break c = between 10 13 c || (between 28 30 c || (c == 133 || (c == 8232 || c == 8233)))

-- The lines that have ended, the one that has not, and whether a carriage return came last.
pub record Split : Type 0 where
  pub done : List Text
  pub line : Text
  pub after_cr : Bool

unfoldable pub split_char : Split → ℕ → Split
split_char s c =
    if s.after_cr && c == 10
    then record s { after_cr = false }
    else if is_break c
    then record { done = s.done ++ s.line ∷ []; line = []; after_cr = c == 13 }
    else record { done = s.done; line = s.line ++ c ∷ []; after_cr = false }

unfoldable pub split_all : Split → Text → Split
split_all s [] = s
split_all s (c ∷ cs) = split_all (split_char s c) cs

abbrev pub unsplit : Split
unsplit = record { done = []; line = []; after_cr = false }

unfoldable pub with_line : List Text → Text → List Text
with_line ls [] = ls
with_line ls (c ∷ cs) = ls ++ (c ∷ cs) ∷ []

-- `str.splitlines`
unfoldable pub splitlines : Text → List Text
splitlines t = with_line (split_all unsplit t).done (split_all unsplit t).line

unfoldable pub parsed : Option Envelope → Line
parsed none = invalid
parsed (some e) = entry e

pub put {ℓ} : {A : Type ℓ} → ℕ → A → (ℕ → A) → ℕ → A
put m x f k = if k == m then x else f k

pub prepend : Envelope → Result (List Envelope) → Result (List Envelope)
prepend e (ok es) = ok (e ∷ es)
prepend e (raise x) = raise x

-- The loop of `_read`, which counts the sequence number that it expects.
unfoldable pub read_lines : ℕ → ℕ → List Line → Result (List Envelope)
read_lines m expected [] = ok []
read_lines m expected (blank ∷ r) = read_lines m expected r
read_lines m expected (invalid ∷ r) = raise journal_error
read_lines m expected (entry e ∷ r) =
    if e.meeting_id == m && e.sequence == expected
    then prepend e (read_lines m (suc expected) r)
    else raise journal_error

unfoldable pub following : ℕ → List Envelope → ℕ
following n [] = n
following n (e ∷ es) = following (suc e.sequence) es

pub after_last : Result (List Envelope) → Result ℕ
after_last (ok es) = ok (following 1 es)
after_last (raise x) = raise x

unfoldable pub text_of : Option Text → Text
text_of none = []
text_of (some t) = t

-- How an append to the file ends: `torn` is a failure that leaves some characters of the line, all
-- of them if only `fsync` fails, and `unopened` one that leaves the file as it was.
pub data Write : Type 0 where
  whole unopened : Write
  torn : ℕ → Write

unfoldable pub stored : ℕ → Text → Write → Files → Result (Unit {0}) × Files
stored m line whole files = (ok tt, put m (some (text_of (files m) ++ line)) files)
stored m line (torn n) files =
    (raise journal_error, put m (some (text_of (files m) ++ take n line)) files)
stored m line unopened files = (raise journal_error, files)

abbrev pub envelope : ℕ → ℕ → Change → Envelope
envelope m n c = record { meeting_id = m; sequence = n; change = c }

-- `discard`, and the `_unlink` that ends a replay
pub discard : ℕ → Files → Files
discard m files = put m none files

module _ (json : Json) where
  unfoldable pub parse_line : Text → Line
  parse_line l = if is_blank l then blank else parsed (json.loads l)

  -- `_read`
  unfoldable pub read : ℕ → Text → Result (List Envelope)
  read m t = read_lines m 1 (map parse_line (splitlines t))

  -- `_next_sequence`
  unfoldable pub next_sequence : ℕ → Option Text → Result ℕ
  next_sequence m none = ok 1
  next_sequence m (some t) = after_last (read m t)

  unfoldable pub write : ℕ → Change → Write → Files → Result ℕ → Result (Unit {0}) × Files
  write m c w files (raise x) = (raise x, files)
  write m c w files (ok n) = stored m (json.dumps (envelope m n c) ++ 10 ∷ []) w files

  unfoldable pub append : ℕ → Change → Write → Files → Result (Unit {0}) × Files
  append m c w files = write m c w files (next_sequence m (files m))

unfoldable pub is_final : Option Status → Bool
is_final none = false
is_final (some recording) = false
is_final (some finalizing) = false
is_final (some completed) = true
is_final (some interrupted) = true
is_final (some storage_error) = true

pub record Repository (R : Type 0) : Type 0 where
  pub get_meeting : ℕ → R → Result (Option Status)
  pub apply : ℕ → Change → R → Result R
  -- `finalize_transcript` with a final status and a reason
  pub finalize : ℕ → Status → Option Text → R → Result R

module _ {R : Type 0} (repository : Repository R) where
  unfoldable pub replay_change : ℕ → Change → R → Result R
  replay_change m unsupported r = raise journal_error
  replay_change m (reconcile_window w) r = repository.apply m (reconcile_window w) r
  replay_change m (set_status s t) r = repository.apply m (set_status s t) r
  replay_change m finalize_transcript r = repository.apply m finalize_transcript r
  replay_change m (create_minutes k) r = repository.apply m (create_minutes k) r

  -- `_replay_one`
  pub replay_one : Envelope → R → Result R
  replay_one e r = replay_change e.meeting_id e.change r

  -- The loop over the envelopes: what is replayed before one that raises stays.
  unfoldable pub replay_all : List Envelope → R → Result (Unit {0}) × R
  replay_all [] r = (ok tt, r)
  replay_all (e ∷ es) r = elim (replay_one e r) [ raise x ↦ (raise x, r) | ok q ↦ replay_all es q ]

  pub replayed : ℕ → Files → ℕ → Result (Unit {0}) × R → Result ℕ × Files × R
  replayed m files n (ok u, r) = (ok n, discard m files, r)
  replayed m files n (raise x, r) = (raise x, files, r)

  pub replay_record : ℕ → Files → List Envelope → R → Result (Option Status) → Result ℕ × Files × R
  replay_record m files es r (raise x) = (raise x, files, r)
  replay_record m files es r (ok status) =
      if is_final status
      then (ok (length es), discard m files, r)
      else replayed m files (length es) (replay_all es r)

  pub replay_read : ℕ → Files → R → Result (List Envelope) → Result ℕ × Files × R
  replay_read m files r (raise x) = (raise x, files, r)
  replay_read m files r (ok es) = replay_record m files es r (repository.get_meeting m r)

module _ {R : Type 0} (json : Json) (repository : Repository R) where
  pub replay_file : ℕ → Files → R → Option Text → Result ℕ × Files × R
  replay_file m files r none = (ok 0, files, r)
  replay_file m files r (some t) = replay_read repository m files r (read json m t)

  pub replay_meeting : ℕ → Files → R → Result ℕ × Files × R
  replay_meeting m files r = replay_file m files r (files m)

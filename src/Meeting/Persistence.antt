-- ===== src/Meeting/Persistence.antt =====
-- src/sona/meeting/persistence.py: TranscriptPersistence, which writes each window of the transcript
-- to the database, or to the journal while the database fails.
mod Outage
mod Tests
use voice_realtime.Prelude.{
  ℕ, zero, suc, Bool, true, false, ◌&&◌, not, ltb, List, [], ◌∷◌, Option, none, some, ◌==◌,
  if◌then◌else◌,
}
use voice_realtime.Prelude.Text.{Text}
use voice_realtime.Meeting.Journal.{
  Status, Segment, TranscriptWindow, Change, reconcile_window, set_status, finalize_transcript,
  Error, journal_error, Result, Json, Write, ok, raise, Files, put, append, discard, Repository,
  replay_meeting,
}

pub record SegmentSignature : Type 0 where
  pub id : ℕ
  pub start_ms : ℕ
  pub end_ms : ℕ
  pub speaker_key : Text
  pub text : Text

pub record Signature : Type 0 where
  pub source_epoch : ℕ
  pub segments : List SegmentSignature

pub sign_segment : Segment → SegmentSignature
sign_segment s = record {
  id = s.id;
  start_ms = s.start_ms;
  end_ms = s.end_ms;
  speaker_key = s.speaker_key;
  text = s.text;
}

pub sign_segments : List Segment → List SegmentSignature
sign_segments [] = []
sign_segments (s ∷ r) = sign_segment s ∷ sign_segments r

pub signature : TranscriptWindow → Signature
signature w = record { source_epoch = w.source_epoch; segments = sign_segments w.segments }

unfoldable pub same_text : Text → Text → Bool
same_text [] [] = true
same_text (x ∷ xs) (y ∷ ys) = x == y && same_text xs ys
same_text _ _ = false

pub same_segment : SegmentSignature → SegmentSignature → Bool
same_segment a b =
    a.id == b.id
    && a.start_ms == b.start_ms
    && a.end_ms == b.end_ms
    && same_text a.speaker_key b.speaker_key
    && same_text a.text b.text

unfoldable pub same_segments : List SegmentSignature → List SegmentSignature → Bool
same_segments [] [] = true
same_segments (a ∷ as_) (b ∷ bs) = same_segment a b && same_segments as_ bs
same_segments _ _ = false

pub is_last : Signature → Option Signature → Bool
is_last s none = false
is_last s (some t) = s.source_epoch == t.source_epoch && same_segments s.segments t.segments

-- `journal` says whether there is one; its files are `files`.
pub record Persistence (R : Type 0) : Type 0 where
  pub repo : R
  pub journal : Bool
  pub files : Files
  pub degraded : Bool
  pub signatures : ℕ → Option Signature

module _ {R : Type 0} where
  pub init : Bool → Files → R → Persistence R
  init journal files r = record {
    repo = r;
    journal = journal;
    files = files;
    degraded = false;
    signatures = λ m. none;
  }

  -- The `degraded` of `replay_pending`
  pub counted : Persistence R → Result ℕ × Files × R → Result ℕ × Persistence R
  counted p (raise x, files, r) = (raise x, record p { files = files; repo = r })
  counted p (ok n, files, r) =
      (ok n, record p { files = files; repo = r; degraded = if ltb 0 n then false else p.degraded })

  pub saved :
      TranscriptWindow → Persistence R → Result (Unit {0}) × Files → Result Bool × Persistence R
  saved w p (ok u, files) = (ok false, record p { files = files })
  saved w p (raise x, files) = (raise x, record p { files = files })

module _ {R : Type 0} (json : Json) where
  -- The `except` branch of `reconcile`: `written` says how far the journal's line is written.
  pub degrade : ℕ → TranscriptWindow → Write → Error → Persistence R → Result Bool × Persistence R
  degrade m w written x p =
      if p.journal
      then saved w (record p { degraded = true })
          (append json m (reconcile_window w) written p.files)
      else (raise x, record p { degraded = true })

  pub reconciled :
      ℕ → TranscriptWindow → Write → Persistence R → Result R → Result Bool × Persistence R
  reconciled m w written p (raise x) = degrade m w written x p
  reconciled m w written p (ok r) = (
    ok true,
    record p { repo = r; degraded = false; signatures = put m (some (signature w)) p.signatures },
  )

module _ {R : Type 0} (json : Json) (repository : Repository R) where
  pub replay_pending : ℕ → Persistence R → Result ℕ × Persistence R
  replay_pending m p =
      if p.journal then counted p (replay_meeting json repository m p.files p.repo) else (ok 0, p)

  pub reconcile_replayed :
      ℕ → TranscriptWindow → Write → Result ℕ × Persistence R → Result Bool × Persistence R
  reconcile_replayed m w written (raise x, p) = degrade json m w written x p
  reconcile_replayed m w written (ok n, p) =
      reconciled json m w written p (repository.apply m (reconcile_window w) p.repo)

  -- `reconcile`: true for a result of the database, and false where the source returns none.
  pub reconcile : ℕ → TranscriptWindow → Write → Persistence R → Result Bool × Persistence R
  reconcile m w written p =
      if is_last (signature w) (p.signatures m)
      then (ok false, p)
      else reconcile_replayed m w written (replay_pending m p)

  -- The two lines that `finalize` writes ahead, and how far each is written: the second is left
  -- out if the first one raises, and a failure is not raised on.
  pub write_status :
      ℕ → Status → Option Text → Write → Result (Unit {0}) × Files → Result (Unit {0}) × Files
  write_status m status reason written (raise x, files) = (raise x, files)
  write_status m status reason written (ok u, files) =
      append json m (set_status status reason) written files

  pub write_ahead : ℕ → Status → Option Text → Write → Write → Persistence R → Persistence R
  write_ahead m status reason first second p =
      if p.journal
      then record p {
        files =
            (write_status m status reason second
              (append json m finalize_transcript first p.files)).1;
      }
      else p

  pub sealed : ℕ → Persistence R → Result R → Result (Unit {0}) × Persistence R
  sealed m p (raise x) = (raise x, p)
  sealed m p (ok r) = (
    ok tt,
    if p.journal then record p { repo = r; files = discard m p.files } else record p { repo = r },
  )

  pub finalize_replayed :
      ℕ
      → Status
      → Option Text
      → Write
      → Write
      → Result ℕ × Persistence R
      → Result (Unit {0}) × Persistence R
  finalize_replayed m status reason first second (raise x, p) = (raise x, p)
  finalize_replayed m status reason first second (ok n, p) =
      let q = write_ahead m status reason first second p in
      sealed m q (repository.finalize m status reason q.repo)

  pub finalize :
      ℕ → Status → Option Text → Write → Write → Persistence R → Result (Unit {0}) × Persistence R
  finalize m status reason first second p =
      finalize_replayed m status reason first second (replay_pending m p)

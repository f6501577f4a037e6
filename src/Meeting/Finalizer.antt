-- ===== src/Meeting/Finalizer.antt =====
-- src/sona/meeting/finalization.py: MeetingFinalizer. The gateway, the stores and the persistence are
-- parameters: each call of one returns, raises or is cancelled. The calls that are made are recorded,
-- the latest first.
mod Steps
mod Order
mod Tests
use voice_realtime.Prelude.{
  ℕ, max, Bool, true, false, not, ◌&&◌, Option, none, some, List, [], ◌∷◌, map, if◌then◌else◌,
}
use voice_realtime.Prelude.Text.{Text}
use voice_realtime.Meeting.Journal.{Segment, Status, completed, interrupted, TranscriptWindow}
use voice_realtime.Meeting.Overlay.{Span, Timed, Mapping, text_eq, assign_speakers_by_overlap, find}

pub data Result {ℓ} (A : Type ℓ) : Type ℓ where
  ok : A → Result A
  raise : Result A
  cancelled : Result A

-- How `finish_capture` ends: `timed_out` is CaptureFinalizationTimeoutError.
pub data Finish : Type 0 where
  finished timed_out : Option TranscriptWindow → Finish
  failed dropped : Finish

pub data Call : Type 0 where
  finish_capture abort_capture reconcile_final finish_overlay get_transcript reconcile_corrected :
      Call
  apply_remapping create_minutes : Call
  finalize_with : Status → Call

pub record Ports (W : Type 0) : Type 0 where
  pub finish : W → Finish × W
  pub abort : W → Result (Unit {0}) × W
  pub reconcile : TranscriptWindow → W → Result Bool × W
  pub overlay : W → Result (List Span) × W
  pub transcript : W → Result (List Segment) × W
  pub remap : List (Text × Text) → W → Result (Unit {0}) × W
  pub seal : Status → W → Result ℕ × W
  pub minutes : W → Result ℕ × W

-- `MeetingFinalizer`; a record and the minutes are numbers.
pub record Finalizer (W : Type 0) : Type 0 where
  pub has_overlay : Bool
  pub capture_closed : Bool
  pub finalized_record : Option ℕ
  pub calls : List Call
  pub world : W

-- `MeetingFinalizationResult`
pub record Finalized : Type 0 where
  pub record_ : ℕ
  pub minutes : ℕ
  pub final_window : Option TranscriptWindow
  pub is_timed_out : Bool

abbrev pub Method : Type 0 → Type 0 → Type 0
Method W A = Finalizer W → Result A × Finalizer W

unfoldable pub next :
    {W A B : Type 0} → Result A × Finalizer W → (A → Method W B) → Result B × Finalizer W
next (ok a, s) f = f a s
next (raise, s) f = (raise, s)
next (cancelled, s) f = (cancelled, s)

infixl 5 ◌>>=◌ ◌>>◌
abbrev pub ◌>>=◌ : {W A B : Type 0} → Method W A → (A → Method W B) → Method W B
◌>>=◌ m f s = next (m s) f

abbrev pub ◌>>◌ : {W A B : Type 0} → Method W A → Method W B → Method W B
m >> k = m >>= λ _. k

abbrev pub pure : {W A : Type 0} → A → Method W A
pure a s = (ok a, s)

unfoldable pub noted : {W : Type 0} → Call → W → Finalizer W → Finalizer W
noted c w s = record s { calls = c ∷ s.calls; world = w }

unfoldable pub call : {W A : Type 0} → Call → (W → Result A × W) → Method W A
call c f s = ((f s.world).0, noted c (f s.world).1 s)

-- `except Exception`
unfoldable pub rescue : {W A : Type 0} → Result A × Finalizer W → A → Result A × Finalizer W
rescue (ok a, s) b = (ok a, s)
rescue (raise, s) b = (ok b, s)
rescue (cancelled, s) b = (cancelled, s)

abbrev pub or_else : {W A : Type 0} → Method W A → A → Method W A
or_else m b s = rescue (m s) b

unfoldable pub timed : Segment → Timed
timed s = record {
  id = s.id;
  speaker_key = s.speaker_key;
  start_ms = s.start_ms;
  end_ms = s.end_ms;
}

unfoldable pub key_or : Option Text → Text → Text
key_or none k = k
key_or (some k) l = k

-- `_with_speaker`, of the key that the mapping has for a segment
unfoldable pub with_speaker : Mapping → Segment → Segment
with_speaker m s = record s { speaker_key = key_or (find s.id m) s.speaker_key }

-- `corrected == segments`, where only keys can differ
unfoldable pub is_same : Mapping → List Segment → Bool
is_same m [] = true
is_same m (s ∷ r) = text_eq (key_or (find s.id m) s.speaker_key) s.speaker_key && is_same m r

unfoldable pub last_epoch : List Segment → ℕ
last_epoch [] = 0
last_epoch (s ∷ r) = max s.source_epoch (last_epoch r)

unfoldable pub corrected_window : Mapping → List Segment → TranscriptWindow
corrected_window m segments = record {
  source_epoch = last_epoch segments;
  partial = [];
  segments = map (with_speaker m) segments;
  speaker_remap = [];
}

unfoldable pub status_for : Bool → Status
status_for true = interrupted
status_for false = completed

module _ {W : Type 0} (ports : Ports W) where
  unfoldable pub write_corrected : TranscriptWindow → Method W (Unit {0})
  write_corrected window = do
    or_else (call reconcile_corrected (ports.reconcile window)) false
    pure tt

  -- The end of `_apply_diarization_overlay`, with its mapping.
  unfoldable pub correct : List Segment → Mapping → Method W (Unit {0})
  correct segments [] = pure tt
  correct segments (p ∷ m) =
      if is_same (p ∷ m) segments
      then pure tt
      else write_corrected (corrected_window (p ∷ m) segments)

  unfoldable pub with_segments : List Span → List Segment → Method W (Unit {0})
  with_segments spans segments =
      correct segments (assign_speakers_by_overlap (map timed segments) spans)

  -- Without segments, no mapping is found; a transcript that cannot be read counts as one without.
  unfoldable pub with_spans : List Span → Method W (Unit {0})
  with_spans [] = pure tt
  with_spans (p ∷ r) = do
    segments ← or_else (call get_transcript ports.transcript) []
    with_segments (p ∷ r) segments

  -- `_apply_diarization_overlay`
  unfoldable pub apply_diarization_overlay : Method W (Unit {0})
  apply_diarization_overlay s =
      if s.has_overlay
      then (do spans ← or_else (call finish_overlay ports.overlay) []; with_spans spans) s
      else (ok tt, s)

  unfoldable pub reconcile_window : Option TranscriptWindow → Method W (Unit {0})
  reconcile_window none = pure tt
  reconcile_window (some w) = do call reconcile_final (ports.reconcile w); pure tt

  unfoldable pub remap_keys : List (Text × Text) → Method W (Unit {0})
  remap_keys [] = pure tt
  remap_keys (p ∷ r) = call apply_remapping (ports.remap (p ∷ r))

  unfoldable pub remap_speakers : Option TranscriptWindow → Method W (Unit {0})
  remap_speakers none = pure tt
  remap_speakers (some w) = remap_keys w.speaker_remap

  unfoldable pub keep_record : ℕ → Method W (Unit {0})
  keep_record r s = (ok tt, record s { finalized_record = some r })

  unfoldable pub close_capture : Method W (Unit {0})
  close_capture s = (ok tt, record s { capture_closed = true })

  unfoldable pub conclude : Bool → Option TranscriptWindow → ℕ → Method W Finalized
  conclude late window r = do
    keep_record r
    m ← call create_minutes ports.minutes
    pure (record { record_ = r; minutes = m; final_window = window; is_timed_out = late })

  -- `finalize` once the capture is finished.
  unfoldable pub finalize_window : Bool → Option TranscriptWindow → Method W Finalized
  finalize_window late window = do
    close_capture
    reconcile_window window
    apply_diarization_overlay
    remap_speakers window
    r ← call (finalize_with (status_for late)) (ports.seal (status_for late))
    conclude late window r

  unfoldable pub clean_up : Result Finalized → Method W Finalized
  clean_up x = do or_else (call abort_capture ports.abort) tt; close_capture; λ s. (x, s)

  -- The `except BaseException` before the capture is finished, and what is raised after it.
  unfoldable pub clean_up_if_open : Result Finalized → Method W Finalized
  clean_up_if_open x s = if s.capture_closed then (x, s) else clean_up x s

  unfoldable pub finished_by : Finish → Method W Finalized
  finished_by (finished window) = finalize_window false window
  finished_by (timed_out window) = finalize_window true window
  finished_by failed = clean_up_if_open raise
  finished_by dropped = clean_up_if_open cancelled

  -- `finalize`
  unfoldable pub finalize : Method W Finalized
  finalize s =
      finished_by (ports.finish s.world).0 (noted finish_capture (ports.finish s.world).1 s)

-- ===== src/Meeting/Smoother.antt =====
-- src/sona/meeting/diarization_smoother.py: the smoothing of the speakers of a transcript. A speaker's
-- key is a number, since the code only tests whether two keys are equal, and which characters are
-- alphanumeric is a parameter. That a new segment is validated again is not modelled.
mod Separated
mod Covers
mod Speakers
mod Tests
use voice_realtime.Prelude.{
  ℕ, suc, ◌+◌, max, Bool, true, false, not, ◌&&◌, ◌||◌, Option, none, some, List, [], ◌∷◌, ◌++◌,
  ltb, leb, ◌==◌, if◌then◌else◌, filter,
}
use voice_realtime.Prelude.Text.{Text, strip, between}

-- `NormalizedSegment`
pub record Segment : Type 0 where
  pub id : ℕ
  pub order : ℕ
  pub source_epoch : ℕ
  pub speaker_key : ℕ
  pub start_ms : ℕ
  pub end_ms : ℕ
  pub text : Text
  pub translation : Option Text
  pub detected_language : Option Text

unfoldable pub is_meaningful : ℕ → Bool
is_meaningful c = between 19968 40869 c || between 97 122 c || between 65 90 c || between 48 57 c

-- `_has_meaningful_text`
unfoldable pub has_meaningful_text : Text → Bool
has_meaningful_text [] = false
has_meaningful_text (c ∷ cs) = is_meaningful c || has_meaningful_text cs

unfoldable pub last_char : ℕ → Text → ℕ
last_char c [] = c
last_char c (d ∷ ds) = last_char d ds

unfoldable pub text_or : Option Text → Text
text_or none = []
text_or (some t) = t

-- `... .strip() or None`
unfoldable pub none_if_empty : Text → Option Text
none_if_empty [] = none
none_if_empty (c ∷ cs) = some (c ∷ cs)

unfoldable pub or_else : Option Text → Option Text → Option Text
or_else none b = b
or_else (some a) b = some a

unfoldable pub with_speaker : ℕ → Segment → Segment
with_speaker k s = record s { speaker_key = k }

module _ (is_alnum : ℕ → Bool) where
  -- A letter or digit outside of Chinese
  unfoldable pub is_latin : ℕ → Bool
  is_latin c = is_alnum c && not (between 19968 40869 c)

  unfoldable pub join_stripped : Text → Text → Text
  join_stripped [] t = t
  join_stripped (c ∷ cs) [] = c ∷ cs
  join_stripped (c ∷ cs) (d ∷ ds) =
      if is_latin (last_char c cs) && is_latin d
      then (c ∷ cs) ++ (32 ∷ d ∷ ds)
      else (c ∷ cs) ++ (d ∷ ds)

  -- `_join_text`
  unfoldable pub join_text : Text → Text → Text
  join_text a b = join_stripped (strip a) (strip b)

  unfoldable pub joined : Segment → Segment → Segment
  joined l s = record l {
    end_ms = max l.end_ms s.end_ms;
    text = join_text l.text s.text;
    translation = none_if_empty (strip (text_or l.translation ++ (32 ∷ text_or s.translation)));
    detected_language = or_else l.detected_language s.detected_language;
  }

-- Step 1: a segment that is long enough or says something is kept.
unfoldable pub is_kept : ℕ → Segment → Bool
is_kept min_duration_ms s =
    not (ltb s.end_ms (s.start_ms + min_duration_ms) && not (has_meaningful_text s.text))

-- Step 2a, from the key of the segment before.
unfoldable pub is_flicker : ℕ → ℕ → Segment → Segment → Bool
is_flicker min_duration_ms before s after =
    before == after.speaker_key
    && not (s.speaker_key == before)
    && leb s.end_ms (s.start_ms + max min_duration_ms 500)

unfoldable pub correct_single : ℕ → ℕ → List Segment → List Segment
correct_single m before [] = []
correct_single m before (s ∷ []) = s ∷ []
correct_single m before (s ∷ t ∷ r) =
    let k = if is_flicker m before s t then before else s.speaker_key in
    with_speaker k s ∷ correct_single m k (t ∷ r)

-- Step 2b, with the key of the segment before and the key that the first segment has by now.
unfoldable pub is_double_flicker : ℕ → ℕ → ℕ → Segment → Segment → Segment → Bool
is_double_flicker min_duration_ms before key s t after =
    before == after.speaker_key
    && key == t.speaker_key
    && not (key == before)
    && leb t.end_ms (s.start_ms + max min_duration_ms 600)

unfoldable pub correct_double : ℕ → ℕ → ℕ → Segment → List Segment → List Segment
correct_double m before key s [] = with_speaker key s ∷ []
correct_double m before key s (t ∷ []) = with_speaker key s ∷ t ∷ []
correct_double m before key s (t ∷ u ∷ r) =
    let flickers = is_double_flicker m before key s t u in
    let k = if flickers then before else key in
    with_speaker k s ∷ correct_double m k (if flickers then before else t.speaker_key) t (u ∷ r)

unfoldable pub correct : ℕ → List Segment → List Segment
correct m [] = []
correct m (s ∷ r) = s ∷ correct_single m s.speaker_key r

unfoldable pub correct_pairs : ℕ → List Segment → List Segment
correct_pairs m [] = []
correct_pairs m (s ∷ []) = s ∷ []
correct_pairs m (s ∷ t ∷ r) = s ∷ correct_double m s.speaker_key t.speaker_key t r

-- Step 3, from the last segment of the result so far.
unfoldable pub is_near : ℕ → Segment → Segment → Bool
is_near hangover_gap_ms l s =
    l.speaker_key == s.speaker_key && leb s.start_ms (l.end_ms + hangover_gap_ms)

unfoldable pub merge_into : (ℕ → Bool) → ℕ → Segment → List Segment → List Segment
merge_into alnum gap l [] = l ∷ []
merge_into alnum gap l (s ∷ r) = elim (is_near gap l s) [
  | true ↦ merge_into alnum gap (joined alnum l s) r
  | false ↦ l ∷ merge_into alnum gap s r
]

unfoldable pub merge : (ℕ → Bool) → ℕ → List Segment → List Segment
merge alnum gap [] = []
merge alnum gap (s ∷ r) = merge_into alnum gap s r

-- Step 4
unfoldable pub renumber : ℕ → List Segment → List Segment
renumber i [] = []
renumber i (s ∷ r) = record s { order = i } ∷ renumber (suc i) r

-- `smooth_segments`
unfoldable pub smooth_segments : (ℕ → Bool) → ℕ → ℕ → List Segment → List Segment
smooth_segments alnum min_duration_ms hangover_gap_ms segments = renumber 0 (
    merge alnum hangover_gap_ms (
      correct_pairs min_duration_ms
        (correct min_duration_ms (filter (is_kept min_duration_ms) segments))))

-- `smooth_window`, of the window's segments
unfoldable pub smooth_window : (ℕ → Bool) → Bool → ℕ → ℕ → List Segment → List Segment
smooth_window alnum enabled min_duration_ms hangover_gap_ms segments =
    if enabled then smooth_segments alnum min_duration_ms hangover_gap_ms segments else segments

-- ===== src/Meeting/Overlay.antt =====
-- src/sona/meeting/diarization_overlay.py: the speakers of a recording, found at its end and assigned to
-- the segments of the transcript by their overlap in time, and the bounded buffer of its audio. What
-- the diarization of a buffer returns is an argument.
mod Best
mod Assigned
mod Buffer
mod Tests
use voice_realtime.Prelude.{
  ℕ, ◌+◌, ◌-◌, ◌*◌, max, min, Bool, true, false, not, ◌&&◌, ◌||◌, Option, none, some, List, [], ◌∷◌,
  ◌++◌, ltb, leb, ◌==◌, if◌then◌else◌, length, drop,
}
use voice_realtime.Prelude.Text.{Text, strip, is_blank}

unfoldable pub text_eq : Text → Text → Bool
text_eq [] [] = true
text_eq [] (d ∷ ds) = false
text_eq (c ∷ cs) [] = false
text_eq (c ∷ cs) (d ∷ ds) = c == d && text_eq cs ds

-- The order of Python's strings, by code points.
unfoldable pub text_ltb : Text → Text → Bool
text_ltb [] [] = false
text_ltb [] (d ∷ ds) = true
text_ltb (c ∷ cs) [] = false
text_ltb (c ∷ cs) (d ∷ ds) = ltb c d || (c == d && text_ltb cs ds)

-- `SpeakerLabelledSpan`
pub record Span : Type 0 where
  pub speaker_key : Text
  pub raw_speaker : Text
  pub start_ms : ℕ
  pub end_ms : ℕ

-- What `assign_speakers_by_overlap` reads of a segment.
pub record Timed : Type 0 where
  pub id : ℕ
  pub speaker_key : Text
  pub start_ms : ℕ
  pub end_ms : ℕ

abbrev pub Candidates : Type 0
Candidates = List (Text × ℕ)

-- `candidates[key] = candidates.get(key, 0) + overlap`
unfoldable pub add : Text → ℕ → Candidates → Candidates
add k v [] = (k, v) ∷ []
add k v ((j, w) ∷ r) = let rest = add k v r in if text_eq j k then (j, w + v) ∷ r else (j, w) ∷ rest

unfoldable pub overlaps : Timed → Span → Bool
overlaps s p = ltb (max s.start_ms p.start_ms) (min s.end_ms p.end_ms)

unfoldable pub overlap : Timed → Span → ℕ
overlap s p = min s.end_ms p.end_ms - max s.start_ms p.start_ms

unfoldable pub collect : Timed → Candidates → List Span → Candidates
collect s cs [] = cs
collect s cs (p ∷ r) = collect s (if overlaps s p then add p.speaker_key (overlap s p) cs else cs) r

-- `max` by the overlap and the key
unfoldable pub is_less : Text × ℕ → Text × ℕ → Bool
is_less (j, v) (k, w) = ltb v w || (v == w && text_ltb j k)

unfoldable pub best : Text × ℕ → Candidates → Text × ℕ
best b [] = b
best b (c ∷ r) = best (if is_less b c then c else b) r

unfoldable pub changed_key : Timed → Text × ℕ → Option Text
changed_key s (k, v) = if leb v 0 then none else (if text_eq k s.speaker_key then none else some k)

unfoldable pub choose_key : Timed → Candidates → Option Text
choose_key s [] = none
choose_key s (c ∷ r) = changed_key s (best c r)

-- The body of the loop over the segments.
unfoldable pub assigned_key : List Span → Timed → Option Text
assigned_key spans s = choose_key s (collect s [] spans)

abbrev pub Mapping : Type 0
Mapping = List (ℕ × Text)

unfoldable pub set_key : ℕ → Text → Mapping → Mapping
set_key i k [] = (i, k) ∷ []
set_key i k ((j, l) ∷ r) = let rest = set_key i k r in if j == i then (j, k) ∷ r else (j, l) ∷ rest

unfoldable pub note_key : ℕ → Option Text → Mapping → Mapping
note_key i none m = m
note_key i (some k) m = set_key i k m

unfoldable pub assign : List Span → Mapping → List Timed → Mapping
assign spans m [] = m
assign spans m (s ∷ r) = assign spans (note_key s.id (assigned_key spans s) m) r

-- `assign_speakers_by_overlap`
unfoldable pub assign_speakers_by_overlap : List Timed → List Span → Mapping
assign_speakers_by_overlap segments [] = []
assign_speakers_by_overlap segments (p ∷ r) = assign (p ∷ r) [] segments

unfoldable pub find : ℕ → Mapping → Option Text
find i [] = none
find i ((j, k) ∷ r) = if j == i then some k else find i r

-- `MeetingDiarizationOverlay`
pub record Overlay : Type 0 where
  pub has_transcriber : Bool
  pub group_id : Text
  pub max_bytes : ℕ
  pub buffer : List ℕ
  pub active : Bool

unfoldable pub init : Bool → Text → ℕ → Overlay
init has_transcriber group_id max_buffer_seconds = record {
  has_transcriber = has_transcriber;
  group_id = group_id;
  max_bytes = max 1 max_buffer_seconds * 32000;
  buffer = [];
  active = false;
}

unfoldable pub group_or : Text → Text → Text
group_or [] b = b
group_or (c ∷ cs) b = c ∷ cs

unfoldable pub start : Text → Overlay → Overlay
start group_id o = record o { group_id = group_or group_id o.group_id; buffer = []; active = true }

unfoldable pub stop : Overlay → Overlay
stop o = record o { active = false; buffer = [] }

-- The last `n` bytes
unfoldable pub last_bytes : ℕ → List ℕ → List ℕ
last_bytes n b = drop (length b - n) b

unfoldable pub bounded : ℕ → List ℕ → List ℕ
bounded n b = if ltb n (length b) then last_bytes n b else b

unfoldable pub push_pcm : List ℕ → Overlay → Overlay
push_pcm [] o = o
push_pcm (x ∷ xs) o =
    if o.active then record o { buffer = bounded o.max_bytes (o.buffer ++ (x ∷ xs)) } else o

unfoldable pub reset_buffer : Overlay → Overlay
reset_buffer o = record o { buffer = [] }

-- A segment of the diarization, in which `None` for a time counts as zero.
pub record Labelled : Type 0 where
  pub speaker : Option Text
  pub start_ms : ℕ
  pub end_ms : ℕ

-- "group:", ":speaker:"
abbrev pub group_colon : Text
group_colon = 103 ∷ 114 ∷ 111 ∷ 117 ∷ 112 ∷ 58 ∷ []

abbrev pub colon_speaker_colon : Text
colon_speaker_colon = 58 ∷ 115 ∷ 112 ∷ 101 ∷ 97 ∷ 107 ∷ 101 ∷ 114 ∷ 58 ∷ []

-- The label "0" stands for an empty one.
unfoldable pub label_or_zero : Text → Text
label_or_zero [] = 48 ∷ []
label_or_zero (c ∷ cs) = c ∷ cs

unfoldable pub meeting_speaker_key : Text → Text → Text
meeting_speaker_key group_id raw =
    group_colon ++ group_id ++ colon_speaker_colon ++ label_or_zero (strip raw)

unfoldable pub to_span : Text → Text → Labelled → List Span
to_span group_id raw l =
    if is_blank raw || leb l.end_ms l.start_ms
    then []
    else record {
      speaker_key = meeting_speaker_key group_id raw;
      raw_speaker = raw;
      start_ms = l.start_ms;
      end_ms = l.end_ms;
    }
      ∷ []

unfoldable pub span_of : Text → Labelled → Option Text → List Span
span_of group_id l none = []
span_of group_id l (some raw) = to_span group_id raw l

-- `_to_spans`
unfoldable pub to_spans : Text → List Labelled → List Span
to_spans group_id [] = []
to_spans group_id (l ∷ r) = span_of group_id l l.speaker ++ to_spans group_id r

-- `flush`, with what the diarization returns for the audio, or nothing if it raises.
unfoldable pub answered : Text → Option (List Labelled) → List Span
answered group_id none = []
answered group_id (some ls) = to_spans group_id ls

unfoldable pub flush : (List ℕ → Option (List Labelled)) → Overlay → List Span × Overlay
flush diarize o =
    if not o.active || not o.has_transcriber || ltb (length o.buffer) 25600
    then ([], o)
    else (answered o.group_id (diarize o.buffer), record o { buffer = [] })

unfoldable pub finish : (List ℕ → Option (List Labelled)) → Overlay → List Span × Overlay
finish diarize o = if o.active then ((flush diarize o).0, stop (flush diarize o).1) else ([], o)

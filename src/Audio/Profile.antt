-- ===== src/Audio/Profile.antt =====
-- src/sona/audio/profile.py: the capture layouts that are accepted.
mod Layouts
mod Tests
use voice_realtime.Prelude.{
  ℕ, Bool, true, false, not, ◌&&◌, ◌||◌, Option, none, some, List, [], ◌∷◌, ◌==◌, if◌then◌else◌,
  length,
}
use voice_realtime.Audio.Frame.{
  AudioSourceKind, microphone, physical_output, AudioSourceRole, near_end, far_end,
}

pub data CaptureMode : Type 0 where
  single dual : CaptureMode

pub record CaptureSourceSpec : Type 0 where
  pub kind : AudioSourceKind
  pub role : AudioSourceRole

pub record CaptureProfile : Type 0 where
  pub mode : CaptureMode
  pub follow_default_output : Bool
  pub exclude_own_audio : Bool
  pub sources : List CaptureSourceSpec

pub data LayoutError : Type 0 where
  duplicate_layout not_one_source mismatched_source not_dual : LayoutError

abbrev pub default_source : CaptureSourceSpec
default_source = record { kind = microphone; role = near_end }

abbrev pub output_source : CaptureSourceSpec
output_source = record { kind = physical_output; role = far_end }

unfoldable pub same_kind : AudioSourceKind → AudioSourceKind → Bool
same_kind microphone microphone = true
same_kind physical_output physical_output = true
same_kind _ _ = false

unfoldable pub same_role : AudioSourceRole → AudioSourceRole → Bool
same_role near_end near_end = true
same_role far_end far_end = true
same_role _ _ = false

pub same_spec : CaptureSourceSpec → CaptureSourceSpec → Bool
unfolding same_kind same_role
same_spec a b = same_kind a.kind b.kind && same_role a.role b.role

pub contains : CaptureSourceSpec → List CaptureSourceSpec → Bool
unfolding same_spec
contains a [] = false
contains a (b ∷ bs) = same_spec a b || contains a bs

-- `len(set(layout)) != len(layout)`
pub has_duplicates : List CaptureSourceSpec → Bool
unfolding contains
has_duplicates [] = false
has_duplicates (a ∷ as_) = contains a as_ || has_duplicates as_

pub matches_single : List CaptureSourceSpec → Bool
unfolding same_spec
matches_single [] = false
matches_single (a ∷ rest) = same_spec a default_source || same_spec a output_source

-- `set(layout) == expected_dual`
pub covers_dual : List CaptureSourceSpec → Bool
unfolding contains
covers_dual layout = contains default_source layout && contains output_source layout

-- `validate_layout`: the error, if there is one.
pub validate_layout : CaptureProfile → Option LayoutError
validate_layout p = if has_duplicates p.sources then some duplicate_layout else elim p.mode [
  | single ↦
      if not (length p.sources == 1)
      then some not_one_source
      else if matches_single p.sources
      then none
      else some mismatched_source
  | dual ↦
      if not (length p.sources == 2) || not (covers_dual p.sources) then some not_dual else none
]

abbrev pub default_profile : CaptureProfile
default_profile = record {
  mode = single;
  follow_default_output = true;
  exclude_own_audio = true;
  sources = default_source ∷ [];
}

pub data LegacySource : Type 0 where
  mixed : LegacySource
  one : AudioSourceKind → LegacySource

-- `legacy_audio_source`; `none` is the IndexError of a profile with no source.
pub legacy_audio_source : CaptureProfile → Option LegacySource
legacy_audio_source p = elim p.mode [
  | dual ↦ some mixed
  | single ↦ elim p.sources [ [] ↦ none | s ∷ rest ↦ some (one s.kind) ]
]

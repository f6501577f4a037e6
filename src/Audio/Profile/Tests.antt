-- ===== src/Audio/Profile/Tests.antt =====
-- Runs of src/sona/audio/profile.py, and the theorem at a concrete profile.
use voice_realtime.Prelude.{◌≡◌, refl, ◌↔◌, none, some}
use voice_realtime.Audio.Frame.{microphone}
use voice_realtime.Audio.Profile.{
  dual, default_profile, same_kind, same_role, same_spec, contains, has_duplicates, matches_single,
  covers_dual, validate_layout, legacy_audio_source, not_dual, one,
}
use voice_realtime.Audio.Profile.Layouts.{IsLayout, validate_layout_iff}

program : Unit {0}
unfolding same_kind same_role same_spec contains has_duplicates matches_single covers_dual
    validate_layout legacy_audio_source
program = tt

accepts_default : validate_layout default_profile ≡ none
unfolding program
accepts_default = refl

refuses_half : validate_layout (record default_profile { mode = dual }) ≡ some not_dual
unfolding program
refuses_half = refl

legacy_default : legacy_audio_source default_profile ≡ some (one microphone)
unfolding program
legacy_default = refl

validate_layout_iff_example : (validate_layout default_profile ≡ none) ↔ IsLayout default_profile
validate_layout_iff_example = validate_layout_iff default_profile

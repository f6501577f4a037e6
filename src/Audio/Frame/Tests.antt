-- ===== src/Audio/Frame/Tests.antt =====
-- Runs of src/sona/audio/frame.py, and the theorem at a concrete frame.
use voice_realtime.Prelude.{◌≡◌, refl, ◌↔◌, if◌then◌else◌, [], ◌∷◌}
use voice_realtime.Prelude.Text.{is_blank}
use voice_realtime.Audio.Frame.{
  AudioFrame, pos, microphone, near_end, ok, raise, wrong_payload, validate, is_empty, is_negative,
  is_end_of_stream, duration_ns,
}
use voice_realtime.Audio.Frame.Valid.{IsNormalized, validate_iff}

abbrev end_frame : AudioFrame
end_frame = record {
  capture_id = 1;
  source_id = b'm' ∷ [];
  source_kind = microphone;
  source_role = near_end;
  device_generation = pos 0;
  sequence = pos 3;
  host_time_ns = pos 9;
  pcm = [];
  sample_rate = 16_000;
  channels = 1;
  sample_width = 2;
  samples_per_channel = 512;
  flags = 4;
}

accepts_end : validate end_frame ≡ ok end_frame
unfolding validate is_empty is_negative is_end_of_stream is_blank
accepts_end = refl

refuses_empty : validate (record end_frame { flags = 2 }) ≡ raise wrong_payload
unfolding validate is_empty is_negative is_end_of_stream is_blank
refuses_empty = refl

validate_iff_example :
    ((validate end_frame ≡ ok end_frame) ↔ IsNormalized end_frame)
    × (validate end_frame ≡ ok end_frame
        → duration_ns end_frame ≡ (if is_empty end_frame.pcm then 0 else 32_000_000))
validate_iff_example = validate_iff end_frame

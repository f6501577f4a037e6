-- ===== src/Audio/Wire/Tests.antt =====
-- Tests and witnesses for src/sona/audio/ipc.py.
use voice_realtime.Prelude.{
  ◌≢◌, ◌≡◌, refl, ℕ, zero, suc, ◌<◌, ◌↔◌, List, [], ◌∷◌, ◌++◌, Option, some, length, drop,
}
use voice_realtime.Audio.Wire.Struct.{Bytes, pack, concat, fields, unpack_from}
use voice_realtime.Audio.Wire.Stream.{feed-append, prepend_all}
use voice_realtime.Audio.Wire.Accepts.{IsHeader, validate_common_header_iff}
use voice_realtime.Audio.Wire.RoundTrip.{
  AllSends, sends_none, sends_next, sends_pcm, sends_control, feed-AllSends, Sends, feed-Leaves,
}
use voice_realtime.Audio.Wire.{
  Message, pcm, ok, PcmMessage, Json, object, Item, text, control_message, pcm_message, Header,
  protocol_magic, validate_common_header, encode_pcm_message, drain, on_header, after_header,
  frame_step, delivered, decode, decode_control, loaded, controlled, validate_control_payload,
  is_label, get, same_bytes, is_optional_label, prepend, header_of, nth, message_type, check_type,
  check_length, check_body, minimum_header, encode_control_message, pack_validated, pack_control,
  post_init, fits, common_header, extension, feed, next, is_normalized,
}

abbrev samples : ℕ → Bytes
samples zero = []
samples (suc n) = 7 ∷ samples n

abbrev pcm_example : PcmMessage
pcm_example = record {
  capture_id = samples 16;
  source_id = samples 16;
  device_generation = 1;
  sequence = 70_000;
  host_time_ns = 5;
  sample_rate = 16_000;
  samples_per_channel = 512;
  channels = 1;
  sample_width = 2;
  flags = 1;
  payload = samples 1_024;
}

abbrev hello : List (List ℕ × Item ℕ)
hello = (116 ∷ 121 ∷ 112 ∷ 101 ∷ [], text (104 ∷ [])) ∷ []

abbrev dumps_example : Json ℕ → Option Bytes
dumps_example j = some (1 ∷ 2 ∷ [])

abbrev loads_example : Bytes → Option (Json ℕ)
loads_example b = some (object hello)

abbrev hello_bytes : Bytes
hello_bytes = 86 ∷ 82 ∷ 65 ∷ 67 ∷ 0 ∷ 16 ∷ 1 ∷ 0 ∷ 1 ∷ 0 ∷ 0 ∷ 0 ∷ 0 ∷ 0 ∷ 0 ∷ 2 ∷ 1 ∷ 2 ∷ []

abbrev pcm_bytes : Bytes
pcm_bytes = concat (common_header 84 2 1_024) ++ concat (extension pcm_example) ++ samples 1_024

both_example :
    AllSends loads_example dumps_example
      (control_message hello ∷ pcm_message pcm_example ∷ [])
      (hello_bytes ++ (pcm_bytes ++ []))
unfolding common_header concat pack encode_pcm_message post_init is_normalized
    encode_control_message pack_validated validate_control_payload is_label get same_bytes
    is_optional_label pack_control fits
both_example =
    sends_next (control_message hello) hello_bytes (pcm_message pcm_example ∷ []) (pcm_bytes ++ [])
      (sends_control hello hello_bytes (λ body e. refl) refl)
      (sends_next (pcm_message pcm_example) pcm_bytes [] []
        (sends_pcm pcm_example pcm_bytes refl refl refl refl) sends_none)

feed-AllSends_example :
    feed loads_example [] (hello_bytes ++ (pcm_bytes ++ []))
    ≡ (ok (control_message hello ∷ pcm_message pcm_example ∷ []), [])
feed-AllSends_example =
    feed-AllSends loads_example dumps_example (control_message hello ∷ pcm_message pcm_example ∷ [])
      (hello_bytes ++ (pcm_bytes ++ [])) both_example

abbrev leftover : Bytes
leftover = 86 ∷ 82 ∷ []

-- Two bytes of a second message wait for the rest of it.
first_chunk :
    feed loads_example [] (hello_bytes ++ leftover) ≡ (ok (control_message hello ∷ []), leftover)
unfolding feed drain next on_header after_header frame_step delivered decode decode_control loaded
    controlled validate_control_payload is_label get same_bytes is_optional_label prepend header_of
    nth fields unpack_from validate_common_header message_type check_type check_length check_body
    minimum_header
first_chunk = refl

feed-append_example :
    feed loads_example [] (hello_bytes ++ (leftover) ++ drop 2 hello_bytes)
    ≡ prepend_all loads_example
        (control_message hello ∷ [])
        (feed loads_example (leftover) (drop 2 hello_bytes))
feed-append_example =
    feed-append loads_example [] (hello_bytes ++ leftover) (drop 2 hello_bytes)
      (control_message hello ∷ []) (leftover) first_chunk

feed-Leaves_example :
    ((m : Message ℕ) (b tail : Bytes)
      → Sends loads_example dumps_example m b
      → leftover ≢ b ++ tail)
    × (length (leftover) < 1_048_576)
feed-Leaves_example =
    feed-Leaves loads_example dumps_example [] (hello_bytes ++ leftover)
      (control_message hello ∷ []) (leftover) first_chunk

abbrev header_example : Header
header_example = record {
  magic = protocol_magic;
  header_length = 84;
  major = 1;
  minor = 0;
  raw_message_type = 2;
  prefix_flags = 0;
  reserved = 0;
  body_length = 1_024;
}

validate_common_header_iff_example :
    (validate_common_header header_example ≡ ok pcm) ↔ IsHeader header_example pcm
validate_common_header_iff_example = validate_common_header_iff header_example pcm

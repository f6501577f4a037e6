-- ===== src/Audio/Frame.antt =====
-- src/sona/audio/frame.py: the checks of a normalized audio frame. Python's integers can be
-- negative here, so the numbers that are checked for their sign are integers.
mod Valid
mod Tests
use Prim.Native.Nat.{ℕ}
use voice_realtime.Prelude.{
  zero, suc, ◌+◌, ◌*◌, ◌/◌, ◌%◌, Bool, true, false, not, ◌&&◌, ◌||◌, List, [], ◌∷◌, ◌==◌,
  if◌then◌else◌, length,
}
use voice_realtime.Prelude.Text.{Text, is_blank}

pub data AudioSourceKind : Type 0 where
  microphone physical_output : AudioSourceKind

pub data AudioSourceRole : Type 0 where
  near_end far_end : AudioSourceRole

-- A Python integer: `negsuc n` is -(n + 1).
pub data ℤ : Type 0 where
  pos : ℕ → ℤ
  negsuc : ℕ → ℤ

pub is_negative : ℤ → Bool
is_negative (pos n) = false
is_negative (negsuc n) = true

pub record AudioFrame : Type 0 where
  pub capture_id : ℕ
  pub source_id : Text
  pub source_kind : AudioSourceKind
  pub source_role : AudioSourceRole
  pub device_generation : ℤ
  pub sequence : ℤ
  pub host_time_ns : ℤ
  pub pcm : List ℕ
  pub sample_rate : ℕ
  pub channels : ℕ
  pub sample_width : ℕ
  pub samples_per_channel : ℕ
  pub flags : ℕ

pub data FrameError : Type 0 where
  empty_source_id negative_generation negative_sequence negative_host_time : FrameError
  wrong_rate wrong_channels wrong_width wrong_samples wrong_payload : FrameError

pub data Result {ℓ} (A : Type ℓ) : Type ℓ where
  ok : A → Result A
  raise : FrameError → Result A

infixl 5 ◌>>◌
abbrev pub ◌>>◌ {ℓ} : {A : Type ℓ} → Result (Unit {0}) → Result A → Result A
ok u >> r = r
raise e >> r = raise e

abbrev pub reject_if : Bool → FrameError → Result (Unit {0})
reject_if true e = raise e
reject_if false e = ok tt

-- `flags & END_OF_STREAM`; the flag is the third bit.
pub is_end_of_stream : ℕ → Bool
is_end_of_stream flags = (flags / 4) % 2 == 1

pub is_empty {ℓ} : {A : Type ℓ} → List A → Bool
is_empty [] = true
is_empty (x ∷ xs) = false

-- `__post_init__`
pub validate : AudioFrame → Result AudioFrame
validate f = do
  reject_if (is_blank f.source_id) empty_source_id
  reject_if (is_negative f.device_generation) negative_generation
  reject_if (is_negative f.sequence) negative_sequence
  reject_if (is_negative f.host_time_ns) negative_host_time
  reject_if (not (f.sample_rate == 16_000)) wrong_rate
  reject_if (not (f.channels == 1)) wrong_channels
  reject_if (not (f.sample_width == 2)) wrong_width
  reject_if (not (f.samples_per_channel == 512)) wrong_samples
  reject_if
      (not (is_empty f.pcm && is_end_of_stream f.flags)
        && not (length f.pcm == f.samples_per_channel * f.channels * f.sample_width))
      wrong_payload
  ok f

pub duration_ns : AudioFrame → ℕ
duration_ns f = if is_empty f.pcm then 0 else f.samples_per_channel * 1_000_000_000 / f.sample_rate

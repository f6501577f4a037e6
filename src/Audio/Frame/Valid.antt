-- ===== src/Audio/Frame/Valid.antt =====
-- src/sona/audio/frame.py: which frames pass.
use voice_realtime.Prelude.{
  ◌≡◌, ◌⊎◌, refl, true, false, List, [], ◌∷◌, ◌↔◌, arith, length, ◌*◌, ◌/◌, if◌then◌else◌,
}
use voice_realtime.Prelude.Text.{is_blank}
use voice_realtime.Audio.Frame.{
  AudioFrame, ok, validate, is_negative, is_empty, is_end_of_stream, duration_ns,
}

-- A frame that passes the checks.
pub record IsNormalized (f : AudioFrame) : Type 0 where
  pub named : is_blank f.source_id ≡ false
  pub generation : is_negative f.device_generation ≡ false
  pub ordered : is_negative f.sequence ≡ false
  pub timed : is_negative f.host_time_ns ≡ false
  pub rate : f.sample_rate ≡ 16_000
  pub mono : f.channels ≡ 1
  pub width : f.sample_width ≡ 2
  pub samples : f.samples_per_channel ≡ 512
  pub payload : (length f.pcm ≡ 1_024) ⊎ ((f.pcm ≡ []) × (is_end_of_stream f.flags ≡ true))

nonempty {ℓ} : {A : Type ℓ} (xs : List A) → is_empty xs ≡ true → xs ≡ []
unfolding is_empty
nonempty [] e = refl
nonempty (x ∷ xs) e = absurd (cc)

-- A frame is accepted, unchanged, exactly when it is normalized; an accepted frame lasts 32 ms, or
-- no time if it is the empty end of the stream.
pub validate_iff :
    (f : AudioFrame)
    → ((validate f ≡ ok f) ↔ IsNormalized f)
      × (validate f ≡ ok f → duration_ns f ≡ (if is_empty f.pcm then 0 else 32_000_000))
unfolding validate is_empty duration_ns
validate_iff f = ((λ h. sound h, λ v. ground (arith, nonempty f.pcm)), λ h. lasts h)
  where
    lasts :
        validate f ≡ ok f
        → (if is_empty f.pcm then 0 else f.samples_per_channel * 1_000_000_000 / f.sample_rate)
          ≡ (if is_empty f.pcm then 0 else 32_000_000)
    lasts h = ground arith

    sound : validate f ≡ ok f → IsNormalized f
    sound h = record {
      named = ground arith;
      generation = ground arith;
      ordered = ground arith;
      timed = ground arith;
      rate = ground arith;
      mono = ground arith;
      width = ground arith;
      samples = ground arith;
      payload = ground (arith, nonempty f.pcm);
    }

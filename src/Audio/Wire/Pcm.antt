-- ===== src/Audio/Wire/Pcm.antt =====
-- src/sona/audio/ipc.py: `encode_pcm_message` and `_decode_pcm`.
use voice_realtime.Prelude.{
  ◌≡◌, refl, sym, ap, ap₂, ◌∙◌, ℕ, ◌+◌, ◌^◌, ◌<◌, true, false, [], ◌++◌, Option, arith, leb, length,
  length-append, take, drop, if_cases, append_assoc, append-nil,
}
use voice_realtime.Audio.Wire.Struct.{
  Bytes, pack, number, fields, concat, widths, sum, number-pack, fields-concat, length-concat,
}
use voice_realtime.Audio.Wire.{
  pcm, Result, ok, PcmMessage, Json, pcm_message, extension_widths, same_bytes, nth, message_type,
  minimum_header, check_body, check_length, check_type, validate_common_header, is_normalized,
  post_init, pcm_of, built, decode_extension, decode_pcm, common_header, extension, fits,
  encode_pcm_message, got, delivered, decode, next,
}
use voice_realtime.Audio.Wire.Accepts.{
  take_exact, drop_exact, packed_header, length-common, next_packed,
}

widths-extension :
    (m : PcmMessage)
    → length m.capture_id ≡ 16
    → length m.source_id ≡ 16
    → extension_widths ≡ widths (extension m)
unfolding extension pack
widths-extension m a b = rw (a, b) refl

-- What a message that was packed has.
record IsPacked (m : PcmMessage) : Type 0 where
  generation : m.device_generation < 256 ^ 4
  numbered : m.sequence < 256 ^ 8
  timed : m.host_time_ns < 256 ^ 8
  rated : m.sample_rate < 256 ^ 4
  counted : m.samples_per_channel < 256 ^ 2
  channelled : m.channels < 256 ^ 1
  wide : m.sample_width < 256 ^ 1
  flagged : m.flags < 256 ^ 4
  sized : length m.payload < 256 ^ 4

post_init-Fixed :
    (m : PcmMessage)
    → post_init m ≡ ok m
    → (is_normalized m ≡ true) × (length m.payload ≡ 1_024) × (m.flags < 8)
unfolding post_init
post_init-Fixed m e = (ground arith, ground arith, ground arith)

fits-IsPacked : (m : PcmMessage) → fits m ≡ true → IsPacked m
unfolding fits
fits-IsPacked m e = record {
  generation = ground arith;
  numbered = ground arith;
  timed = ground arith;
  rated = ground arith;
  counted = ground arith;
  channelled = ground arith;
  wide = ground arith;
  flagged = ground arith;
  sized = ground arith;
}

packed_back :
    (m : PcmMessage)
    → fits m ≡ true
    → post_init m ≡ ok m
    → (pcm_of (extension m) m.payload ≡ m)
      × (number (nth 10 (extension m)) ≡ 1_024)
      × (number (nth 9 (extension m)) ≡ m.flags)
unfolding pcm_of extension nth
packed_back m f e =
    let v = fits-IsPacked m f in
    (
      rw
          (
            number-pack 4 m.device_generation v.generation,
            number-pack 8 m.sequence v.numbered,
            number-pack 8 m.host_time_ns v.timed,
            number-pack 4 m.sample_rate v.rated,
            number-pack 2 m.samples_per_channel v.counted,
            number-pack 1 m.channels v.channelled,
            number-pack 1 m.sample_width v.wide,
            number-pack 4 m.flags v.flagged,
          )
          refl,
      number-pack 4 (length m.payload) v.sized ∙ (post_init-Fixed m e).1,
      number-pack 4 m.flags v.flagged,
    )

decode_extension-extension :
    {X : Type 0} (m : PcmMessage)
    → fits m ≡ true
    → post_init m ≡ ok m
    → decode_extension {X = X} (extension m) m.payload 1_024 ≡ ok (pcm_message m)
unfolding decode_extension built
decode_extension-extension m f e = rw (eqs.1, eqs.0, eqs.2, fixed.0, known, e) refl
  where
    eqs :
        (pcm_of (extension m) m.payload ≡ m)
        × (number (nth 10 (extension m)) ≡ 1_024)
        × (number (nth 9 (extension m)) ≡ m.flags)
    eqs = packed_back m f e

    fixed : (is_normalized m ≡ true) × (length m.payload ≡ 1_024) × (m.flags < 8)
    fixed = post_init-Fixed m e

    known : leb 8 m.flags ≡ false
    known = ground (arith, fixed.2)

record IsEncoded (m : PcmMessage) (b : Bytes) : Type 0 where
  fitting : fits m ≡ true
  at : b ≡ concat (common_header 84 2 1_024) ++ (concat (extension m) ++ m.payload)

encode-IsEncoded :
    (m : PcmMessage) (b : Bytes)
    → length m.payload ≡ 1_024
    → encode_pcm_message m ≡ ok b
    → IsEncoded m b
unfolding encode_pcm_message
encode-IsEncoded m b s =
    if_cases (λ (u : Result Bytes). u ≡ ok b → IsEncoded m b) (fits m)
      (λ f e. record {
        fitting = f;
        at =
            inject e
            ∙ append_assoc (concat (common_header 84 2 (length m.payload))) (concat (extension m))
                m.payload
            ∙ ap (λ n. concat (common_header 84 2 n) ++ (concat (extension m) ++ m.payload)) s;
      })
      (λ f e. absurd (cc))
  where
    inject : {c : Bytes} → ok c ≡ ok b → b ≡ c
    inject e = cc

header_accepted : validate_common_header (packed_header 84 2 1_024) ≡ ok pcm
unfolding validate_common_header message_type check_type check_length check_body minimum_header
    same_bytes
header_accepted = refl

pub take_all : (n : ℕ) (xs : Bytes) → length xs ≡ n → take n xs ≡ xs
take_all n xs e = ap (take n) (sym (append-nil xs)) ∙ take_exact n xs [] e

length-extension :
    (m : PcmMessage)
    → length m.capture_id ≡ 16
    → length m.source_id ≡ 16
    → length (concat (extension m)) ≡ 68
length-extension m i j = length-concat (extension m) ∙ ap sum (sym (widths-extension m i j))

decode_pcm-encoded :
    {X : Type 0} (m : PcmMessage)
    → length m.capture_id ≡ 16
    → length m.source_id ≡ 16
    → fits m ≡ true
    → post_init m ≡ ok m
    → decode_pcm {X = X}
        (concat (common_header 84 2 1_024) ++ (concat (extension m) ++ m.payload))
        84
        1_024
      ≡ ok (pcm_message m)
unfolding decode_pcm
decode_pcm-encoded m i j f p =
    ap₂ (λ fs body. decode_extension fs body 1_024)
      (ap (fields extension_widths)
          (drop_exact 16 common (packed ++ m.payload) (length-common 84 2 1_024))
        ∙ ap (λ ws. fields ws (packed ++ m.payload)) (widths-extension m i j)
        ∙ fields-concat (extension m) m.payload)
      (ap (λ l. take 1_024 (drop 84 l)) (sym (append_assoc common packed m.payload))
        ∙ ap (take 1_024) (
            drop_exact 84 (common ++ packed) m.payload (
              length-append {0} common packed
              ∙ ap₂ (λ a b. a + b) (length-common 84 2 1_024) (length-extension m i j)))
        ∙ take_all 1_024 m.payload (post_init-Fixed m p).1)
    ∙ decode_extension-extension m f p
  where
    common : Bytes
    common = concat (common_header 84 2 1_024)

    packed : Bytes
    packed = concat (extension m)

module _ {X : Type 0} (loads : Bytes → Option (Json X)) where
  pub next_pcm :
      (m : PcmMessage) (b rest : Bytes)
      → length m.capture_id ≡ 16
      → length m.source_id ≡ 16
      → post_init m ≡ ok m
      → encode_pcm_message m ≡ ok b
      → next loads (b ++ rest) ≡ got (pcm_message m) rest
  unfolding decode delivered
  next_pcm m b rest i j p e =
      let c = encode-IsEncoded m b (post_init-Fixed m p).1 e in
      ap (λ l. next loads (l ++ rest)) c.at
      ∙ next_packed loads pcm 84 2 1_024 (concat (extension m) ++ m.payload) rest (omega arith)
          (omega arith) (omega arith) header_accepted (omega arith)
          (omega (
            arith,
            length-append {0} (concat (extension m)) m.payload,
            length-extension m i j,
            (post_init-Fixed m p).1,
          ))
      ∙ ap (delivered rest) (decode_pcm-encoded m i j c.fitting p)

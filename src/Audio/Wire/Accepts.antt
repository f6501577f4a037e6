-- ===== src/Audio/Wire/Accepts.antt =====
-- src/sona/audio/ipc.py, `_validate_common_header`, and the headers that are packed.
use voice_realtime.Prelude.{
  ◌≡◌, subst, refl, sym, ap, ap₂, ◌∙◌, ℕ, ◌+◌, ◌^◌, ◌≤◌, ◌<◌, true, [], ◌∷◌, ◌++◌, Option, arith,
  length, length-append, take, drop, append_assoc, ◌↔◌,
}
use voice_realtime.Audio.Wire.Struct.{
  Bytes, pack, fields, concat, widths, sum, number-pack, fields-concat, length-concat, take-append,
  drop-append,
}
use voice_realtime.Audio.Wire.Round.{next_long, frame_step-delivered}
use voice_realtime.Audio.Wire.{
  MessageType, json, pcm, Result, ok, raise, Json, Header, protocol_magic, header_widths,
  same_bytes, nth, header_of, message_type, minimum_header, check_body, check_length, check_type,
  validate_common_header, common_header, delivered, decode, after_header, on_header, next,
}

-- What a header says of its type, its length and its body.
unfoldable pub IsTyped : Header → MessageType → Type 0
IsTyped h json =
    (h.raw_message_type ≡ 1)
    × (16 ≤ h.header_length)
    × (h.minor ≡ 0 → h.header_length ≡ 16)
    × (h.body_length ≤ 65_536)
IsTyped h pcm =
    (h.raw_message_type ≡ 2)
    × (84 ≤ h.header_length)
    × (h.minor ≡ 0 → h.header_length ≡ 84)
    × (h.body_length ≡ 1_024)

-- A header of the protocol, for a message of the given type.
pub record IsHeader (h : Header) (t : MessageType) : Type 0 where
  pub has_magic : h.magic ≡ 86 ∷ 82 ∷ 65 ∷ 67 ∷ []
  pub has_major : h.major ≡ 1
  pub no_flags : h.prefix_flags ≡ 0
  pub no_reserved : h.reserved ≡ 0
  pub at_most : h.header_length ≤ 256
  pub typed : IsTyped h t

same_bytes-same : (a b : Bytes) → same_bytes a b ≡ true → a ≡ b
unfolding same_bytes
same_bytes-same [] [] e = refl
same_bytes-same [] (y ∷ b) e = absurd (cc)
same_bytes-same (x ∷ a) [] e = absurd (cc)
same_bytes-same (x ∷ a) (y ∷ b) e =
    ap₂ (λ z r. z ∷ r) (ground arith) (same_bytes-same a b (ground arith))

typed-IsHeader :
    (h : Header) (t : MessageType) (r : Result MessageType)
    → message_type h.raw_message_type ≡ r
    → same_bytes h.magic protocol_magic ≡ true
    → h.major ≡ 1
    → check_type h r ≡ ok t
    → IsHeader h t
unfolding check_type check_length check_body minimum_header message_type IsTyped
typed-IsHeader h t (raise x) m a b c = absurd (cc)
typed-IsHeader h json (ok pcm) m a b c = absurd (ground arith)
typed-IsHeader h pcm (ok json) m a b c = absurd (ground arith)
typed-IsHeader h json (ok json) m a b c = record {
  has_magic = same_bytes-same h.magic protocol_magic a;
  has_major = b;
  no_flags = ground arith;
  no_reserved = ground arith;
  at_most = ground arith;
  typed = (ground arith, ground arith, (λ z. ground arith), ground arith);
}
typed-IsHeader h pcm (ok pcm) m a b c = record {
  has_magic = same_bytes-same h.magic protocol_magic a;
  has_major = b;
  no_flags = ground arith;
  no_reserved = ground arith;
  at_most = ground arith;
  typed = (ground arith, ground arith, (λ z. ground arith), ground arith);
}

validate-IsHeader : (h : Header) (t : MessageType) → validate_common_header h ≡ ok t → IsHeader h t
unfolding validate_common_header
validate-IsHeader h t e =
    typed-IsHeader h t (message_type h.raw_message_type) refl (ground arith) (ground arith)
      (ground arith)

magic_same : (m : Bytes) → m ≡ 86 ∷ 82 ∷ 65 ∷ 67 ∷ [] → same_bytes m protocol_magic ≡ true
unfolding same_bytes
magic_same m e = ap (λ x. same_bytes x protocol_magic) e

-- The checks after the type, of a header with the shortest length `n` of its type.
accepted :
    (h : Header) (t : MessageType) (n : ℕ)
    → IsHeader h t
    → message_type h.raw_message_type ≡ ok t
    → minimum_header t ≡ n
    → n ≤ h.header_length
    → (h.minor ≡ 0 → h.header_length ≡ n)
    → check_body t h.body_length ≡ ok t
    → validate_common_header h ≡ ok t
unfolding validate_common_header check_type check_length
accepted h t n v m l a b c =
    rw (magic_same h.magic v.has_magic, v.has_major, m, v.no_flags, v.no_reserved, l)
      (ground (arith, v.at_most, c))

pub IsHeader-accepted :
    (h : Header) (t : MessageType) → IsHeader h t → validate_common_header h ≡ ok t
unfolding IsTyped message_type check_body minimum_header
IsHeader-accepted h json v =
    let (r, a, b, c) = v.typed in accepted h json 16 v (ground arith) refl a b (ground arith)
IsHeader-accepted h pcm v =
    let (r, a, b, c) = v.typed in accepted h pcm 84 v (ground arith) refl a b (ground arith)

-- The decoder takes a header, as one of a type, exactly when it has the magic number, major version
-- 1, the code of the type, no reserved bits, a length from the shortest one of the type (16 for
-- control, 84 for PCM) up to 256, which in minor version 0 is the shortest, and a body of at most
-- 65,536 bytes for control and of 1,024 bytes for PCM.
pub validate_common_header_iff :
    (h : Header) (t : MessageType) → (validate_common_header h ≡ ok t) ↔ IsHeader h t
validate_common_header_iff h t = (validate-IsHeader h t, IsHeader-accepted h t)

widths_common : (hl ty bl : ℕ) → header_widths ≡ widths (common_header hl ty bl)
unfolding common_header pack
widths_common hl ty bl = refl

-- The header that is packed is read back.
read_back :
    (hl ty bl : ℕ) (rest : Bytes)
    → hl < 256 ^ 2
    → ty < 256 ^ 1
    → bl < 256 ^ 4
    → header_of (fields header_widths (concat (common_header hl ty bl) ++ rest)) ≡ record {
      magic = protocol_magic;
      header_length = hl;
      major = 1;
      minor = 0;
      raw_message_type = ty;
      prefix_flags = 0;
      reserved = 0;
      body_length = bl;
    }
unfolding header_of common_header nth
read_back hl ty bl rest a b c =
    ap (λ ws. header_of (fields ws (concat (common_header hl ty bl) ++ rest)))
      (widths_common hl ty bl)
    ∙ ap header_of (fields-concat (common_header hl ty bl) rest)
    ∙ rw
        (
          number-pack 2 hl a,
          number-pack 1 ty b,
          number-pack 4 bl c,
          number-pack 1 1 (omega arith),
          number-pack 1 0 (omega arith),
          number-pack 2 0 (omega arith),
        )
        refl

pub take_exact : (n : ℕ) (xs ys : Bytes) → length xs ≡ n → take n (xs ++ ys) ≡ xs
take_exact n xs ys e = subst (λ k. take k (xs ++ ys) ≡ xs) e (take-append xs ys)

pub drop_exact : (n : ℕ) (xs ys : Bytes) → length xs ≡ n → drop n (xs ++ ys) ≡ ys
drop_exact n xs ys e = subst (λ k. drop k (xs ++ ys) ≡ ys) e (drop-append xs ys)

abbrev pub packed_header : ℕ → ℕ → ℕ → Header
packed_header hl ty bl = record {
  magic = protocol_magic;
  header_length = hl;
  major = 1;
  minor = 0;
  raw_message_type = ty;
  prefix_flags = 0;
  reserved = 0;
  body_length = bl;
}

pub length-common : (hl ty bl : ℕ) → length (concat (common_header hl ty bl)) ≡ 16
length-common hl ty bl =
    length-concat (common_header hl ty bl) ∙ ap sum (sym (widths_common hl ty bl))

module _ {X : Type 0} (loads : Bytes → Option (Json X)) where
  -- A frame that is whole is decoded, and what is behind it stays.
  pub next_packed :
      (t : MessageType) (hl ty bl : ℕ) (tail rest : Bytes)
      → hl < 256 ^ 2
      → ty < 256 ^ 1
      → bl < 256 ^ 4
      → validate_common_header (packed_header hl ty bl) ≡ ok t
      → hl + bl ≤ 1_048_576
      → hl + bl ≡ 16 + length tail
      → next loads (concat (common_header hl ty bl) ++ tail ++ rest)
        ≡ delivered rest (decode loads t (concat (common_header hl ty bl) ++ tail) hl bl)
  unfolding on_header after_header
  next_packed t hl ty bl tail rest a b c v small whole =
      next_long loads buf (omega (arith, sized, size_tail))
      ∙ ap (λ l. on_header loads buf (header_of (fields header_widths l)))
          (append_assoc common tail rest)
      ∙ ap (on_header loads buf) (read_back hl ty bl (tail ++ rest) a b c)
      ∙ ap (after_header loads buf (packed_header hl ty bl)) v
      ∙ frame_step-delivered loads t hl bl (hl + bl) buf small (omega (arith, sized, size_tail))
      ∙ ap₂ (λ d f. delivered d (decode loads t f hl bl))
          (drop_exact (hl + bl) (common ++ tail) rest (size_tail ∙ sym whole))
          (take_exact (hl + bl) (common ++ tail) rest (size_tail ∙ sym whole))
    where
      common : Bytes
      common = concat (common_header hl ty bl)

      buf : Bytes
      buf = common ++ tail ++ rest

      size_tail : length (common ++ tail) ≡ 16 + length tail
      size_tail = omega (arith, length-append {0} common tail, length-common hl ty bl)

      sized : length buf ≡ length (common ++ tail) + length rest
      sized = length-append {0} (common ++ tail) rest

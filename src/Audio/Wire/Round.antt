-- ===== src/Audio/Wire/Round.antt =====
-- src/sona/audio/ipc.py, `WireDecoder.feed`: one round of its loop.
use voice_realtime.Prelude.{
  ◌≡◌, ◌≢◌, refl, sym, ap, ◌∙◌, ℕ, zero, suc, ◌+◌, ◌≤◌, ◌<◌, List, [], ◌++◌, Option, arith, ltb,
  length, length-append, take, drop, if_cases, ◌⊎◌, inl, inr,
}
use voice_realtime.Audio.Wire.Struct.{
  Bytes, fields, fields_within, take_within, drop_within, length-drop,
}
use voice_realtime.Audio.Wire.{
  MessageType, WireError, Result, ok, raise, Json, Message, Header, header_widths, header_of,
  validate_common_header, Step, wait, stop, got, delivered, decode, check_type, message_type,
  check_length, minimum_header, after_header, on_header, frame_step, next,
}

pub leb_or : (n k : ℕ) → (n ≤ k) ⊎ (k < n)
leb_or zero k = inl (omega arith)
leb_or (suc n) zero = inr (omega arith)
leb_or (suc n) (suc k) = elim (leb_or n k) [ inl h ↦ inl (omega arith) | inr h ↦ inr (omega arith) ]

module _ {X : Type 0} where
  delivered_more :
      (rest more q : Bytes) (r : Result (Message X)) (m : Message X)
      → delivered rest r ≡ got m q
      → delivered (rest ++ more) r ≡ got m (q ++ more)
  unfolding delivered
  delivered_more rest more q (ok x) m e = cc
  delivered_more rest more q (raise x) m e = absurd (cc)

  delivered_rest :
      (rest q : Bytes) (r : Result (Message X)) (m : Message X)
      → delivered rest r ≡ got m q
      → q ≡ rest
  unfolding delivered
  delivered_rest rest q (ok x) m e = cc
  delivered_rest rest q (raise x) m e = absurd (cc)

  abbrev pub idle : Bytes → Result (List (Message X)) × Bytes
  idle a = (ok [], a)

  pub delivered-answers : (rest : Bytes) (r : Result (Message X)) → delivered rest r ≢ wait
  unfolding delivered
  delivered-answers rest (ok m) e = cc e
  delivered-answers rest (raise x) e = cc e

module _ {X : Type 0} (loads : Bytes → Option (Json X)) where
  header_length_bound :
      (h : Header) (t : MessageType) → validate_common_header h ≡ ok t → 16 ≤ h.header_length
  unfolding validate_common_header check_type message_type check_length minimum_header
  header_length_bound h t e = ground arith

  pub record Whole (t : MessageType) (hl bl n : ℕ) (buf q : Bytes) (m : Message X) : Type 0 where
    pub bounded : n ≤ 1_048_576
    pub within : n ≤ length buf
    pub passes : delivered (drop n buf) (decode loads t (take n buf) hl bl) ≡ got m q

  frame_step-got :
      (t : MessageType) (hl bl n : ℕ) (buf q : Bytes) (m : Message X)
      → frame_step loads t hl bl n buf ≡ got m q
      → Whole t hl bl n buf q m
  unfolding frame_step
  frame_step-got t hl bl n buf q m g =
      if_cases (λ (u : Step X). u ≡ got m q → Whole t hl bl n buf q m) (ltb 1_048_576 n)
        (λ _ c. absurd (cc))
        (λ small.
          if_cases (λ (u : Step X). u ≡ got m q → Whole t hl bl n buf q m) (ltb (length buf) n)
            (λ _ c. absurd (cc))
            (λ enough c. record { bounded = ground arith; within = ground arith; passes = c }))
        g

  pub frame_step-delivered :
      (t : MessageType) (hl bl n : ℕ) (buf : Bytes)
      → n ≤ 1_048_576
      → n ≤ length buf
      → frame_step loads t hl bl n buf ≡ delivered (drop n buf) (decode loads t (take n buf) hl bl)
  unfolding frame_step
  frame_step-delivered t hl bl n buf a b = ground arith

  frame_step_more :
      (t : MessageType) (hl bl n : ℕ) (buf more q : Bytes) (m : Message X)
      → Whole t hl bl n buf q m
      → frame_step loads t hl bl n (buf ++ more) ≡ got m (q ++ more)
  frame_step_more t hl bl n buf more q m w =
      frame_step-delivered t hl bl n (buf ++ more) w.bounded
        (omega (arith, w.within, length-append {0} buf more))
      ∙ rw (drop_within n buf more w.within, take_within n buf more w.within)
          (delivered_more (drop n buf) more q (decode loads t (take n buf) hl bl) m w.passes)

  after_more :
      (buf more q : Bytes) (h : Header) (r : Result MessageType) (m : Message X)
      → after_header loads buf h r ≡ got m q
      → after_header loads (buf ++ more) h r ≡ got m (q ++ more)
  unfolding after_header
  after_more buf more q h (raise e) m g = absurd (cc)
  after_more buf more q h (ok t) m g =
      frame_step_more t h.header_length h.body_length (h.header_length + h.body_length) buf more q m
        (frame_step-got t h.header_length h.body_length (h.header_length + h.body_length) buf q m g)

  after_shorter :
      (buf q : Bytes) (h : Header) (r : Result MessageType) (m : Message X)
      → validate_common_header h ≡ r
      → after_header loads buf h r ≡ got m q
      → length q < length buf
  unfolding after_header
  after_shorter buf q h (raise e) m v g = absurd (cc)
  after_shorter buf q h (ok t) m v g =
      rw
        (delivered_rest (drop n buf) q (decode loads t (take n buf) h.header_length h.body_length) m
          w.passes)
        (omega (arith, length-drop n buf w.within, header_length_bound h t v))
    where
      n : ℕ
      n = h.header_length + h.body_length

      w : Whole t h.header_length h.body_length n buf q m
      w = frame_step-got t h.header_length h.body_length n buf q m g

  pub next_long :
      (buf : Bytes)
      → 16 ≤ length buf
      → next loads buf ≡ on_header loads buf (header_of (fields header_widths buf))
  unfolding next
  next_long buf h = ground arith

  pub next_short : (buf : Bytes) → length buf < 16 → next loads buf ≡ wait
  unfolding next
  next_short buf h = ground arith

  pub next_more :
      (buf more q : Bytes) (m : Message X)
      → next loads buf ≡ got m q
      → next loads (buf ++ more) ≡ got m (q ++ more)
  unfolding after_header on_header
  next_more buf more q m g = elim (leb_or 16 (length buf)) [
    | inr short ↦ absurd (cc (next_short buf short))
    | inl long ↦
        next_long (buf ++ more) (omega (arith, length-append {0} buf more))
        ∙ ap (λ fs. on_header loads (buf ++ more) (header_of fs))
            (fields_within header_widths buf more long)
        ∙ after_more buf more q (header_of (fields header_widths buf))
            (validate_common_header (header_of (fields header_widths buf))) m
            (sym (next_long buf long) ∙ g)
  ]

  pub next-got-shorter :
      (buf q : Bytes) (m : Message X) → next loads buf ≡ got m q → length q < length buf
  unfolding next on_header
  next-got-shorter buf q m g =
      if_cases (λ (u : Step X). u ≡ got m q → length q < length buf) (ltb (length buf) 16)
        (λ _ c. absurd (cc))
        (λ enough c.
          after_shorter buf q (header_of (fields header_widths buf))
            (validate_common_header (header_of (fields header_widths buf))) m refl c)
        g

  pub Step-cases :
      (s : Step X)
      → (s ≡ wait)
        ⊎ ((e : WireError) × (s ≡ stop e))
        ⊎ ((m : Message X) × (q : Bytes) × (s ≡ got m q))
  Step-cases wait = inl refl
  Step-cases (stop e) = inr (inl (e, refl))
  Step-cases (got m q) = inr (inr (m, q, refl))

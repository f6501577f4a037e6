-- ===== src/Audio/Wire/Stream.antt =====
-- src/sona/audio/ipc.py, `WireDecoder.feed`: its loop, and a stream that is cut into chunks.
use voice_realtime.Prelude.{
  ◌≡◌, subst, refl, sym, ap, ◌∙◌, ℕ, zero, suc, ◌+◌, ◌≤◌, ◌<◌, List, [], ◌∷◌, ◌++◌, Option, arith,
  ltb, length, length-append, take, drop, if_cases, inl, inr, append_assoc,
}
use voice_realtime.Audio.Wire.Struct.{Bytes, fields}
use voice_realtime.Audio.Wire.{
  MessageType, WireError, Result, ok, raise, Json, Message, Header, header_widths, header_of,
  validate_common_header, Step, wait, stop, got, decode, after_header, on_header, frame_step, next,
  prepend, drain, feed,
}
use voice_realtime.Audio.Wire.Round.{
  leb_or, idle, delivered-answers, next_more, next_long, next_short, next-got-shorter, Step-cases,
}

module _ {X : Type 0} (loads : Bytes → Option (Json X)) where
  pub drain-wait : (n : ℕ) (buf : Bytes) → next loads buf ≡ wait → drain loads n buf ≡ (ok [], buf)
  unfolding drain
  drain-wait zero buf e = refl
  drain-wait (suc n) buf e = rw (e, drain) refl

  drain-stop :
      (n : ℕ) (buf : Bytes) (x : WireError)
      → next loads buf ≡ stop x
      → drain loads (suc n) buf ≡ (raise x, buf)
  unfolding drain
  drain-stop n buf x e = rw (e, drain) refl

  pub drain-got :
      (n : ℕ) (buf q : Bytes) (m : Message X)
      → next loads buf ≡ got m q
      → drain loads (suc n) buf ≡ prepend m (drain loads n q)
  unfolding drain
  drain-got n buf q m e = rw (e, drain) refl

  -- Fuel for the bytes of the buffer is enough.
  pub drain_enough :
      (n k : ℕ) (buf : Bytes)
      → length buf ≤ n
      → length buf ≤ k
      → drain loads n buf ≡ drain loads k buf
  drain_enough zero k buf a b =
      drain-wait 0 buf (next_short loads buf (omega arith))
      ∙ sym (drain-wait k buf (next_short loads buf (omega arith)))
  drain_enough (suc n) zero buf a b =
      drain-wait (suc n) buf (next_short loads buf (omega arith))
      ∙ sym (drain-wait 0 buf (next_short loads buf (omega arith)))
  drain_enough (suc n) (suc k) buf a b = elim (Step-cases loads (next loads buf)) [
    | inl e ↦ drain-wait (suc n) buf e ∙ sym (drain-wait (suc k) buf e)
    | inr (inl (x, e)) ↦ drain-stop n buf x e ∙ sym (drain-stop k buf x e)
    | inr (inr (m, q, e)) ↦
        drain-got n buf q m e
        ∙ ap (prepend m) (
            drain_enough n k q (omega (arith, next-got-shorter loads buf q m e))
              (omega (arith, next-got-shorter loads buf q m e)))
        ∙ sym (drain-got k buf q m e)
  ]

  pub prepend_all :
      List (Message X) → Result (List (Message X)) × Bytes → Result (List (Message X)) × Bytes
  prepend_all [] p = p
  prepend_all (m ∷ ms) p = prepend m (prepend_all ms p)

  prepend-ok :
      (m : Message X) (p : Result (List (Message X)) × Bytes) (ms : List (Message X)) (r : Bytes)
      → prepend m p ≡ (ok ms, r)
      → (ns : List (Message X)) × (ms ≡ m ∷ ns) × (p ≡ (ok ns, r))
  unfolding prepend
  prepend-ok m (ok ns, b) ms r e = (ns, cc, cc)
  prepend-ok m (raise x, b) ms r e = absurd (cc)

  unchanged :
      (a b : Bytes) (ms : List (Message X)) (r : Bytes)
      → idle a ≡ (ok ms, r)
      → drain loads (length (a ++ b)) (a ++ b)
        ≡ prepend_all ms (drain loads (length (r ++ b)) (r ++ b))
  unfolding prepend_all
  unchanged a b [] r e = ap (λ x. drain loads (length (x ++ b)) (x ++ b)) (ap (λ p. p.1) e)
  unchanged a b (m ∷ ms) r e = absurd (cc)

  drain-append :
      (n : ℕ) (a b : Bytes) (ms : List (Message X)) (r : Bytes)
      → length a ≤ n
      → drain loads n a ≡ (ok ms, r)
      → drain loads (length (a ++ b)) (a ++ b)
        ≡ prepend_all ms (drain loads (length (r ++ b)) (r ++ b))
  unfolding prepend_all
  drain-append zero a b ms r h e =
      unchanged a b ms r (sym (drain-wait 0 a (next_short loads a (omega arith))) ∙ e)
  drain-append (suc n) a b ms r h e = elim (Step-cases loads (next loads a)) [
    | inl g ↦ unchanged a b ms r (sym (drain-wait (suc n) a g) ∙ e)
    | inr (inl (x, g)) ↦ absurd (cc (sym (drain-stop n a x g) ∙ e))
    | inr (inr (m, q, g)) ↦
        let (ns, at_ms, at_q) =
          prepend-ok m (drain loads n q) ms r (sym (drain-got n a q m g) ∙ e) in
        drain_enough (length (a ++ b)) (suc (length (a ++ b))) (a ++ b) (omega arith) (omega arith)
        ∙ drain-got (length (a ++ b)) (a ++ b) (q ++ b) m (next_more loads a b q m g)
        ∙ ap (prepend m) (
            drain_enough (length (a ++ b)) (length (q ++ b)) (q ++ b)
              (omega (
                arith,
                length-append {0} a b,
                length-append {0} q b,
                next-got-shorter loads a q m g,
              ))
              (omega arith)
            ∙ drain-append n q b ns r (omega (arith, next-got-shorter loads a q m g)) at_q)
        ∙ ap (λ l. prepend_all l (drain loads (length (r ++ b)) (r ++ b))) (sym at_ms)
  ]

  settled :
      (a : Bytes) (ms : List (Message X)) (r : Bytes)
      → next loads a ≡ wait
      → idle a ≡ (ok ms, r)
      → next loads r ≡ wait
  settled a ms r w e = subst (λ x. next loads x ≡ wait) (ap (λ p. p.1) e) w

  -- The loop stops with less than a frame in the buffer.
  waits :
      (n : ℕ) (a : Bytes) (ms : List (Message X)) (r : Bytes)
      → length a ≤ n
      → drain loads n a ≡ (ok ms, r)
      → next loads r ≡ wait
  waits zero a ms r h e =
      settled a ms r (next_short loads a (omega arith))
        (sym (drain-wait 0 a (next_short loads a (omega arith))) ∙ e)
  waits (suc n) a ms r h e = elim (Step-cases loads (next loads a)) [
    | inl g ↦ settled a ms r g (sym (drain-wait (suc n) a g) ∙ e)
    | inr (inl (x, g)) ↦ absurd (cc (sym (drain-stop n a x g) ∙ e))
    | inr (inr (m, q, g)) ↦
        let (ns, at_ms, at_q) =
          prepend-ok m (drain loads n q) ms r (sym (drain-got n a q m g) ∙ e) in
        waits n q ns r (omega (arith, next-got-shorter loads a q m g)) at_q
  ]

  frame_waits-bounded :
      (t : MessageType) (hl bl n : ℕ) (r : Bytes)
      → frame_step loads t hl bl n r ≡ wait
      → length r < 1_048_576
  unfolding frame_step
  frame_waits-bounded t hl bl n r e =
      if_cases (λ (u : Step X). u ≡ wait → length r < 1_048_576) (ltb 1_048_576 n)
        (λ _ c. absurd (cc))
        (λ small.
          if_cases (λ (u : Step X). u ≡ wait → length r < 1_048_576) (ltb (length r) n)
            (λ under _. ground arith)
            (λ _ c. absurd (delivered-answers (drop n r) (decode loads t (take n r) hl bl) c)))
        e

  after-bounded :
      (r : Bytes) (h : Header) (v : Result MessageType)
      → after_header loads r h v ≡ wait
      → length r < 1_048_576
  unfolding after_header
  after-bounded r h (raise e) w = absurd (cc)
  after-bounded r h (ok t) w =
      frame_waits-bounded t h.header_length h.body_length (h.header_length + h.body_length) r w

  wait-bounded : (r : Bytes) → next loads r ≡ wait → length r < 1_048_576
  unfolding on_header
  wait-bounded r e = elim (leb_or 16 (length r)) [
    | inr short ↦ omega arith
    | inl long ↦
        after-bounded r (header_of (fields header_widths r))
          (validate_common_header (header_of (fields header_widths r)))
          (sym (next_long loads r long) ∙ e)
  ]

  -- Feeding two chunks one after the other gives the messages, the buffer and the error that
  -- feeding them at once gives, if the first one raises none: a stream may be cut anywhere.
  pub feed-append :
      (buffer a b : Bytes) (ms : List (Message X)) (r : Bytes)
      → feed loads buffer a ≡ (ok ms, r)
      → feed loads buffer (a ++ b) ≡ prepend_all ms (feed loads r b)
  unfolding feed
  feed-append buffer a b ms r e =
      drain_enough (length buffer + length (a ++ b)) (length (buffer ++ (a ++ b)))
        (buffer ++ (a ++ b)) (omega (arith, length-append {0} buffer (a ++ b)))
        (omega (arith, length-append {0} buffer (a ++ b)))
      ∙ ap (λ l. drain loads (length l) l) (sym (append_assoc buffer a b))
      ∙ drain-append (length buffer + length a) (buffer ++ a) b ms r
          (omega (arith, length-append {0} buffer a)) e
      ∙ ap (prepend_all ms) (
          drain_enough (length (r ++ b)) (length r + length b) (r ++ b)
            (omega (arith, length-append {0} r b)) (omega (arith, length-append {0} r b)))

  pub feed-waits :
      (buffer a : Bytes) (ms : List (Message X)) (r : Bytes)
      → feed loads buffer a ≡ (ok ms, r)
      → (next loads r ≡ wait) × (length r < 1_048_576)
  unfolding feed
  feed-waits buffer a ms r e = (w, wait-bounded r w)
    where
      w : next loads r ≡ wait
      w =
          waits (length buffer + length a) (buffer ++ a) ms r
            (omega (arith, length-append {0} buffer a)) e

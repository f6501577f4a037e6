-- ===== src/Meeting/Smoother/Speakers.antt =====
-- src/sona/meeting/diarization_smoother.py: where the speakers of the result come from.
use voice_realtime.Prelude.{
  sym, subst, ℕ, suc, Bool, List, [], ◌∷◌, All, Bool-cases, inl, inr, filter, if◌then◌else◌,
  if_cases,
}
use voice_realtime.Meeting.Smoother.{
  Segment, is_near, joined, merge_into, merge, renumber, smooth_segments, correct_pairs, correct,
  is_kept, correct_single, correct_double, with_speaker, is_flicker, is_double_flicker,
}
use voice_realtime.Meeting.Smoother.Separated.{merge_into_near, merge_into_far}

-- Every segment's key has `P`.
abbrev pub Speaks : (ℕ → Type 0) → List Segment → Type 0
Speaks P = All (λ s. P s.speaker_key)

module _ (P : ℕ → Type 0) where
  either : (b : Bool) (x y : ℕ) → P x → P y → P (if b then x else y)
  either b x y p q = if_cases P b (λ e. p) (λ e. q)

  filter-Speaks : (p : Segment → Bool) (xs : List Segment) → Speaks P xs → Speaks P (filter p xs)
  filter-Speaks p [] h = tt
  filter-Speaks p (s ∷ r) h =
      if_cases (Speaks P) (p s) (λ e. (h.0, filter-Speaks p r h.1)) (λ e. filter-Speaks p r h.1)

  correct_single-Speaks :
      (m k : ℕ) (xs : List Segment) → P k → Speaks P xs → Speaks P (correct_single m k xs)
  unfolding correct_single with_speaker
  correct_single-Speaks m k [] p h = tt
  correct_single-Speaks m k (s ∷ []) p h = h
  correct_single-Speaks m k (s ∷ t ∷ r) p h =
      let q = either (is_flicker m k s t) k s.speaker_key p h.0 in
      (q, correct_single-Speaks m (if is_flicker m k s t then k else s.speaker_key) (t ∷ r) q h.1)

  correct_double-Speaks :
      (m before key : ℕ) (s : Segment) (xs : List Segment)
      → P before
      → P key
      → Speaks P xs
      → Speaks P (correct_double m before key s xs)
  unfolding correct_double with_speaker
  correct_double-Speaks m before key s [] p q h = (q, tt)
  correct_double-Speaks m before key s (t ∷ []) p q h = (q, h)
  correct_double-Speaks m before key s (t ∷ u ∷ r) p q h =
      let f = is_double_flicker m before key s t u in
      let x = either f before key p q in
      (
        x,
        correct_double-Speaks m (if f then before else key) (if f then before else t.speaker_key) t
            (u ∷ r) x (either f before t.speaker_key p h.0) h.1,
      )

  correct-Speaks : (m : ℕ) (xs : List Segment) → Speaks P xs → Speaks P (correct m xs)
  unfolding correct
  correct-Speaks m [] h = tt
  correct-Speaks m (s ∷ r) h = (h.0, correct_single-Speaks m s.speaker_key r h.0 h.1)

  correct_pairs-Speaks : (m : ℕ) (xs : List Segment) → Speaks P xs → Speaks P (correct_pairs m xs)
  unfolding correct_pairs
  correct_pairs-Speaks m [] h = tt
  correct_pairs-Speaks m (s ∷ []) h = h
  correct_pairs-Speaks m (s ∷ t ∷ r) h =
      (h.0, correct_double-Speaks m s.speaker_key t.speaker_key t r h.0 h.1.0 h.1.1)

  merge_into-Speaks :
      (alnum : ℕ → Bool) (gap : ℕ) (l : Segment) (r : List Segment)
      → P l.speaker_key
      → Speaks P r
      → Speaks P (merge_into alnum gap l r)
  unfolding merge_into joined
  merge_into-Speaks alnum gap l [] p h = (p, tt)
  merge_into-Speaks alnum gap l (s ∷ r) p h = elim (Bool-cases (is_near gap l s)) [
    | inl e ↦
        subst (Speaks P) (sym (merge_into_near alnum gap l s r e))
          (merge_into-Speaks alnum gap (joined alnum l s) r p h.1)
    | inr e ↦
        subst (Speaks P) (sym (merge_into_far alnum gap l s r e))
          (p, merge_into-Speaks alnum gap s r h.0 h.1)
  ]

  merge-Speaks :
      (alnum : ℕ → Bool) (gap : ℕ) (xs : List Segment) → Speaks P xs → Speaks P (merge alnum gap xs)
  unfolding merge
  merge-Speaks alnum gap [] h = tt
  merge-Speaks alnum gap (s ∷ r) h = merge_into-Speaks alnum gap s r h.0 h.1

  renumber-Speaks : (i : ℕ) (xs : List Segment) → Speaks P xs → Speaks P (renumber i xs)
  unfolding renumber
  renumber-Speaks i [] h = tt
  renumber-Speaks i (s ∷ r) h = (h.0, renumber-Speaks (suc i) r h.1)

-- Whatever holds of the key of each segment holds of the key of each segment of the result: no speaker is
-- invented.
pub smooth_segments-Speaks :
    (P : ℕ → Type 0) (alnum : ℕ → Bool) (min_duration_ms hangover_gap_ms : ℕ)
    (segments : List Segment)
    → Speaks P segments
    → Speaks P (smooth_segments alnum min_duration_ms hangover_gap_ms segments)
unfolding smooth_segments
smooth_segments-Speaks P alnum m gap segments h =
    let kept = filter (is_kept m) segments in
    renumber-Speaks P 0 (merge alnum gap (correct_pairs m (correct m kept))) (
      merge-Speaks P alnum gap (correct_pairs m (correct m kept)) (
        correct_pairs-Speaks P m (correct m kept)
          (correct-Speaks P m kept (filter-Speaks P (is_kept m) segments h))))

-- ===== src/Meeting/Smoother/Separated.antt =====
-- src/sona/meeting/diarization_smoother.py: what the segments of the result are to each other.
use voice_realtime.Prelude.{
  ◌≡◌, refl, sym, subst, ℕ, suc, Bool, true, false, List, [], ◌∷◌, Bool-cases, inl, inr, filter,
}
use voice_realtime.Meeting.Smoother.{
  Segment, is_near, joined, merge_into, merge, renumber, smooth_segments, correct_pairs, correct,
  is_kept,
}

-- Each segment has another speaker than the one before it, or begins later than the gap after it.
unfoldable pub IsSeparated : ℕ → List Segment → Type 0
IsSeparated gap [] = Unit
IsSeparated gap (s ∷ []) = Unit
IsSeparated gap (s ∷ t ∷ r) = (is_near gap s t ≡ false) × IsSeparated gap (t ∷ r)

-- The orders count from `i`.
unfoldable pub IsNumbered : ℕ → List Segment → Type 0
IsNumbered i [] = Unit
IsNumbered i (s ∷ r) = (s.order ≡ i) × IsNumbered (suc i) r

renumber-IsNumbered : (i : ℕ) (xs : List Segment) → IsNumbered i (renumber i xs)
unfolding IsNumbered renumber
renumber-IsNumbered i [] = tt
renumber-IsNumbered i (s ∷ r) = (refl, renumber-IsNumbered (suc i) r)

renumber-IsSeparated :
    (gap i : ℕ) (xs : List Segment) → IsSeparated gap xs → IsSeparated gap (renumber i xs)
unfolding IsSeparated renumber is_near
renumber-IsSeparated gap i [] h = tt
renumber-IsSeparated gap i (s ∷ []) h = tt
renumber-IsSeparated gap i (s ∷ t ∷ r) h = (h.0, renumber-IsSeparated gap (suc i) (t ∷ r) h.1)

module _ (alnum : ℕ → Bool) (gap : ℕ) where
  -- The two branches of a step.
  pub merge_into_near :
      (l s : Segment) (r : List Segment)
      → is_near gap l s ≡ true
      → merge_into alnum gap l (s ∷ r) ≡ merge_into alnum gap (joined alnum l s) r
  unfolding merge_into
  merge_into_near l s r e = rw (e, merge_into) refl

  pub merge_into_far :
      (l s : Segment) (r : List Segment)
      → is_near gap l s ≡ false
      → merge_into alnum gap l (s ∷ r) ≡ l ∷ merge_into alnum gap s r
  unfolding merge_into
  merge_into_far l s r e = rw (e, merge_into) refl

  joined_near :
      (x l s : Segment) → is_near gap x l ≡ false → is_near gap x (joined alnum l s) ≡ false
  unfolding is_near joined
  joined_near x l s h = h

  -- The result of a merge, with what a segment before it has to do with it.
  after-IsSeparated :
      (x l : Segment) (r : List Segment)
      → is_near gap x l ≡ false
      → IsSeparated gap (x ∷ merge_into alnum gap l r)
  unfolding IsSeparated merge_into
  after-IsSeparated x l [] h = (h, tt)
  after-IsSeparated x l (s ∷ r) h = elim (Bool-cases (is_near gap l s)) [
    | inl e ↦
        subst (λ ys. IsSeparated gap (x ∷ ys)) (sym (merge_into_near l s r e))
          (after-IsSeparated x (joined alnum l s) r (joined_near x l s h))
    | inr e ↦
        subst (λ ys. IsSeparated gap (x ∷ ys)) (sym (merge_into_far l s r e))
          (h, after-IsSeparated l s r e)
  ]

  merge_into-IsSeparated :
      (l : Segment) (r : List Segment) → IsSeparated gap (merge_into alnum gap l r)
  unfolding merge_into IsSeparated
  merge_into-IsSeparated l [] = tt
  merge_into-IsSeparated l (s ∷ r) = elim (Bool-cases (is_near gap l s)) [
    | inl e ↦
        subst (IsSeparated gap) (sym (merge_into_near l s r e))
          (merge_into-IsSeparated (joined alnum l s) r)
    | inr e ↦ subst (IsSeparated gap) (sym (merge_into_far l s r e)) (after-IsSeparated l s r e)
  ]

  merge-IsSeparated : (xs : List Segment) → IsSeparated gap (merge alnum gap xs)
  unfolding merge IsSeparated
  merge-IsSeparated [] = tt
  merge-IsSeparated (s ∷ r) = merge_into-IsSeparated s r

-- The result is numbered from zero, and no two neighbours in it have the same speaker with a gap of at
-- most `hangover_gap_ms` between them.
pub smooth_segments-IsSeparated :
    (alnum : ℕ → Bool) (min_duration_ms hangover_gap_ms : ℕ) (segments : List Segment)
    → IsNumbered 0 (smooth_segments alnum min_duration_ms hangover_gap_ms segments)
      × IsSeparated hangover_gap_ms (smooth_segments alnum min_duration_ms hangover_gap_ms segments)
unfolding smooth_segments
smooth_segments-IsSeparated alnum m gap segments = (
  renumber-IsNumbered 0
      (merge alnum gap (correct_pairs m (correct m (filter (is_kept m) segments)))),
  renumber-IsSeparated gap 0
      (merge alnum gap (correct_pairs m (correct m (filter (is_kept m) segments))))
      (merge-IsSeparated alnum gap (correct_pairs m (correct m (filter (is_kept m) segments)))),
)

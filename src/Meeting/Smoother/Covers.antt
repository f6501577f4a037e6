-- ===== src/Meeting/Smoother/Covers.antt =====
-- src/sona/meeting/diarization_smoother.py: the times and the speakers that the result keeps.
use voice_realtime.Prelude.{
  ◌≡◌, refl, sym, subst, ℕ, suc, Bool, true, List, [], ◌∷◌, Bool-cases, inl, inr, ◌⊎◌, ◌≤◌, filter,
  Member, arith, if◌then◌else◌,
}
use voice_realtime.Meeting.Smoother.{
  Segment, is_near, joined, merge_into, merge, renumber, smooth_segments, correct_pairs, correct,
  is_kept, correct_single, correct_double, with_speaker, is_flicker, is_double_flicker,
}
use voice_realtime.Meeting.Smoother.Separated.{merge_into_near, merge_into_far}

-- Some segment of a list covers the time from `a` to `b`.
unfoldable pub IsCovered : ℕ → ℕ → List Segment → Type 0
IsCovered a b [] = ⊥
IsCovered a b (s ∷ r) = ((s.start_ms ≤ a) × (b ≤ s.end_ms)) ⊎ IsCovered a b r

-- The segments begin in order, the first of them at `a` or later.
unfoldable pub BeginsAt : ℕ → List Segment → Type 0
BeginsAt a [] = Unit
BeginsAt a (s ∷ r) = (a ≤ s.start_ms) × BeginsAt s.start_ms r

-- Two lists of segments with the same times.
unfoldable pub SameTimes : List Segment → List Segment → Type 0
SameTimes [] [] = Unit
SameTimes [] (t ∷ r) = ⊥
SameTimes (s ∷ q) [] = ⊥
SameTimes (s ∷ q) (t ∷ r) = (s.start_ms ≡ t.start_ms) × (s.end_ms ≡ t.end_ms) × SameTimes q r

SameTimes-refl : (xs : List Segment) → SameTimes xs xs
unfolding SameTimes
SameTimes-refl [] = tt
SameTimes-refl (s ∷ r) = (refl, refl, SameTimes-refl r)

SameTimes-IsCovered :
    (xs ys : List Segment) (a b : ℕ) → SameTimes xs ys → IsCovered a b xs → IsCovered a b ys
unfolding SameTimes IsCovered
SameTimes-IsCovered [] [] a b h c = c
SameTimes-IsCovered [] (t ∷ r) a b h c = absurd h
SameTimes-IsCovered (s ∷ q) [] a b h c = absurd h
SameTimes-IsCovered (s ∷ q) (t ∷ r) a b h (inl c) =
    inl (omega (arith, h.0, h.1, c.0), omega (arith, h.1, c.1))
SameTimes-IsCovered (s ∷ q) (t ∷ r) a b h (inr c) = inr (SameTimes-IsCovered q r a b h.2 c)

SameTimes-BeginsAt :
    (xs ys : List Segment) (a : ℕ) → SameTimes xs ys → BeginsAt a xs → BeginsAt a ys
unfolding SameTimes BeginsAt
SameTimes-BeginsAt [] [] a h c = tt
SameTimes-BeginsAt [] (t ∷ r) a h c = absurd h
SameTimes-BeginsAt (s ∷ q) [] a h c = tt
SameTimes-BeginsAt (s ∷ q) (t ∷ r) a h c = (
  subst (λ x. a ≤ x) h.0 c.0,
  subst (λ x. BeginsAt x r) h.0 (SameTimes-BeginsAt q r s.start_ms h.2 c.1),
)

correct_single-SameTimes : (m k : ℕ) (xs : List Segment) → SameTimes xs (correct_single m k xs)
unfolding SameTimes correct_single with_speaker
correct_single-SameTimes m k [] = tt
correct_single-SameTimes m k (s ∷ []) = (refl, refl, tt)
correct_single-SameTimes m k (s ∷ t ∷ r) = (
  refl,
  refl,
  correct_single-SameTimes m (if is_flicker m k s t then k else s.speaker_key) (t ∷ r),
)

correct_double-SameTimes :
    (m before key : ℕ) (s : Segment) (xs : List Segment)
    → SameTimes (s ∷ xs) (correct_double m before key s xs)
unfolding SameTimes correct_double with_speaker
correct_double-SameTimes m before key s [] = (refl, refl, tt)
correct_double-SameTimes m before key s (t ∷ []) = (refl, refl, (refl, refl, tt))
correct_double-SameTimes m before key s (t ∷ u ∷ r) = (
  refl,
  refl,
  correct_double-SameTimes m (if is_double_flicker m before key s t u then before else key)
      (if is_double_flicker m before key s t u then before else t.speaker_key) t (u ∷ r),
)

correct-SameTimes : (m : ℕ) (xs : List Segment) → SameTimes xs (correct m xs)
unfolding SameTimes correct
correct-SameTimes m [] = tt
correct-SameTimes m (s ∷ r) = (refl, refl, correct_single-SameTimes m s.speaker_key r)

correct_pairs-SameTimes : (m : ℕ) (xs : List Segment) → SameTimes xs (correct_pairs m xs)
unfolding SameTimes correct_pairs
correct_pairs-SameTimes m [] = tt
correct_pairs-SameTimes m (s ∷ []) = (refl, refl, tt)
correct_pairs-SameTimes m (s ∷ t ∷ r) =
    (refl, refl, correct_double-SameTimes m s.speaker_key t.speaker_key t r)

renumber-SameTimes : (i : ℕ) (xs : List Segment) → SameTimes xs (renumber i xs)
unfolding SameTimes renumber
renumber-SameTimes i [] = tt
renumber-SameTimes i (s ∷ r) = (refl, refl, renumber-SameTimes (suc i) r)

BeginsAt-weaken : (a b : ℕ) (xs : List Segment) → b ≤ a → BeginsAt a xs → BeginsAt b xs
unfolding BeginsAt
BeginsAt-weaken a b [] h c = tt
BeginsAt-weaken a b (s ∷ r) h c = (omega (arith, h, c.0), c.1)

filter-BeginsAt :
    (p : Segment → Bool) (a : ℕ) (xs : List Segment) → BeginsAt a xs → BeginsAt a (filter p xs)
unfolding BeginsAt
filter-BeginsAt p a [] h = tt
filter-BeginsAt p a (s ∷ r) h = elim (Bool-cases (p s)) [
  | inl e ↦ rw e (h.0, filter-BeginsAt p s.start_ms r h.1)
  | inr e ↦ rw e (filter-BeginsAt p a r (BeginsAt-weaken s.start_ms a r h.0 h.1))
]

filter-IsCovered :
    (p : Segment → Bool) (s : Segment) (xs : List Segment)
    → Member s xs
    → p s ≡ true
    → IsCovered s.start_ms s.end_ms (filter p xs)
unfolding IsCovered
filter-IsCovered p s [] h e = absurd h
filter-IsCovered p s (x ∷ r) (inl h) e =
    subst (λ y. IsCovered s.start_ms s.end_ms (filter p (y ∷ r))) h
      (rw e (inl (omega arith, omega arith)))
filter-IsCovered p s (x ∷ r) (inr h) e = elim (Bool-cases (p x)) [
  | inl f ↦ rw f (inr (filter-IsCovered p s r h e))
  | inr f ↦ rw f (filter-IsCovered p s r h e)
]

apart-IsCovered :
    (a b : ℕ) (l : Segment) (xs ys : List Segment)
    → (IsCovered a b xs → IsCovered a b ys)
    → IsCovered a b (l ∷ xs)
    → IsCovered a b (l ∷ ys)
unfolding IsCovered
apart-IsCovered a b l xs ys f (inl c) = inl c
apart-IsCovered a b l xs ys f (inr c) = inr (f c)

module _ (alnum : ℕ → Bool) (gap : ℕ) where
  -- What either of two segments covers, the two joined cover.
  joined_covers :
      (a b : ℕ) (l s : Segment) (r : List Segment)
      → l.start_ms ≤ s.start_ms
      → IsCovered a b (l ∷ s ∷ r)
      → IsCovered a b (joined alnum l s ∷ r)
  unfolding IsCovered joined
  joined_covers a b l s r h (inl c) = inl (c.0, omega (arith, c.1))
  joined_covers a b l s r h (inr (inl c)) = inl (omega (arith, h, c.0), omega (arith, c.1))
  joined_covers a b l s r h (inr (inr c)) = inr c

  merge_into-IsCovered :
      (a b : ℕ) (l : Segment) (r : List Segment)
      → BeginsAt l.start_ms r
      → IsCovered a b (l ∷ r)
      → IsCovered a b (merge_into alnum gap l r)
  unfolding merge_into IsCovered BeginsAt joined
  merge_into-IsCovered a b l [] o c = c
  merge_into-IsCovered a b l (s ∷ r) o c = elim (Bool-cases (is_near gap l s)) [
    | inl e ↦ subst (IsCovered a b) (sym (merge_into_near alnum gap l s r e)) (
        merge_into-IsCovered a b (joined alnum l s) r
          (BeginsAt-weaken s.start_ms l.start_ms r o.0 o.1) (joined_covers a b l s r o.0 c))
    | inr e ↦ subst (IsCovered a b) (sym (merge_into_far alnum gap l s r e)) (
        apart-IsCovered a b l (s ∷ r) (merge_into alnum gap s r)
          (λ x. merge_into-IsCovered a b s r o.1 x) c)
  ]

  merge-IsCovered :
      (a b o : ℕ) (xs : List Segment)
      → BeginsAt o xs
      → IsCovered a b xs
      → IsCovered a b (merge alnum gap xs)
  unfolding merge BeginsAt
  merge-IsCovered a b o [] h c = c
  merge-IsCovered a b o (s ∷ r) h c = merge_into-IsCovered a b s r h.1 c

-- When the segments begin in order, each segment that is long enough or says something lies within one
-- segment of the result.
pub smooth_segments-IsCovered :
    (alnum : ℕ → Bool) (min_duration_ms hangover_gap_ms : ℕ) (segments : List Segment) (s : Segment)
    → BeginsAt 0 segments
    → Member s segments
    → is_kept min_duration_ms s ≡ true
    → IsCovered s.start_ms s.end_ms (smooth_segments alnum min_duration_ms hangover_gap_ms segments)
unfolding smooth_segments
smooth_segments-IsCovered alnum m gap segments s o h e =
    let kept = filter (is_kept m) segments in
    SameTimes-IsCovered _ _ s.start_ms s.end_ms
      (renumber-SameTimes 0 (merge alnum gap (correct_pairs m (correct m kept))))
      (merge-IsCovered alnum gap s.start_ms s.end_ms 0 (correct_pairs m (correct m kept))
        (SameTimes-BeginsAt _ _ 0 (correct_pairs-SameTimes m (correct m kept)) (
          SameTimes-BeginsAt _ _ 0 (correct-SameTimes m kept)
            (filter-BeginsAt (is_kept m) 0 segments o)))
        (SameTimes-IsCovered _ _ s.start_ms s.end_ms (correct_pairs-SameTimes m (correct m kept)) (
          SameTimes-IsCovered _ _ s.start_ms s.end_ms (correct-SameTimes m kept)
            (filter-IsCovered (is_kept m) s segments h e))))

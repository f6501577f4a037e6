-- ===== src/Meeting/Overlay/Assigned.antt =====
-- src/sona/meeting/diarization_overlay.py, `assign_speakers_by_overlap`: the speaker of each segment.
use voice_realtime.Prelude.{
  ◌≡◌, ◌≢◌, refl, sym, ap, ◌∙◌, subst, ℕ, ◌≤◌, ◌<◌, true, false, Option, none, some, List, [], ◌∷◌,
  All, Member, inl, inr, arith, if◌then◌else◌, if_cases, Bool-cases, leb, ◌==◌,
}
use voice_realtime.Prelude.Text.{Text}
use voice_realtime.Meeting.Overlay.{
  text_eq, Span, Timed, Candidates, collect, best, changed_key, choose_key, assigned_key, Mapping,
  set_key, note_key, assign, assign_speakers_by_overlap, find,
}
use voice_realtime.Meeting.Overlay.Best.{
  text_eq_refl, text_eq-≡, total, held, held-collect, IsDistinct, IsPositive, IsSound,
  collect-IsSound, best-IsAtMost, best-Member, held-IsAtMost, held-Member, positive-Member,
  IsAtMost,
}

-- A new speaker overlaps the segment, and no other overlaps it more; without one, no other speaker
-- overlaps it more than its own.
unfoldable pub IsAssigned : List Span → Timed → Option Text → Type 0
IsAssigned spans s none = (j : Text) → total s j spans ≤ total s s.speaker_key spans
IsAssigned spans s (some k) =
    (k ≢ s.speaker_key) × (0 < total s k spans) × ((j : Text) → total s j spans ≤ total s k spans)

module _ (spans : List Span) (s : Timed) where
  changed-IsAssigned :
      (b : Text × ℕ)
      → 0 < b.1
      → total s b.0 spans ≡ b.1
      → ((j : Text) → total s j spans ≤ b.1)
      → IsAssigned spans s (changed_key s b)
  unfolding changed_key IsAssigned
  changed-IsAssigned (k, v) p e h =
      if_cases (IsAssigned spans s) (leb v 0) (λ f. absurd (ground arith))
        (λ f. if_cases (IsAssigned spans s) (text_eq k s.speaker_key) (λ g. own g) (λ g. new g))
    where
      unlike : k ≡ s.speaker_key → text_eq k s.speaker_key ≡ false → ⊥
      unlike q g = cc (subst (λ x. text_eq k x ≡ true) q (text_eq_refl k), g)

      own : text_eq k s.speaker_key ≡ true → IsAssigned spans s none
      own g = λ j.
          subst (λ x. total s j spans ≤ total s x spans) (text_eq-≡ k s.speaker_key g)
            (subst (λ n. total s j spans ≤ n) (sym e) (h j))

      new : text_eq k s.speaker_key ≡ false → IsAssigned spans s (some k)
      new g = (
        λ q. unlike q g,
        subst (λ n. 0 < n) (sym e) p,
        λ j. subst (λ n. total s j spans ≤ n) (sym e) (h j),
      )

  chosen-IsAssigned :
      (cs : Candidates)
      → IsSound cs
      → ((j : Text) → held j cs ≡ total s j spans)
      → IsAssigned spans s (choose_key s cs)
  unfolding choose_key IsAssigned held IsAtMost
  chosen-IsAssigned [] h t = λ j. omega (arith, t j, t s.speaker_key)
  chosen-IsAssigned (c ∷ r) h t =
      changed-IsAssigned (best c r) (positive-Member (best c r) (c ∷ r) h.1 (best-Member c r))
        (sym (t (best c r).0) ∙ held-Member (best c r).0 (best c r).1 (c ∷ r) h.0 (best-Member c r))
        (λ j.
          subst (λ n. n ≤ (best c r).1) (t j)
            (held-IsAtMost j (best c r).1 (c ∷ r) h.0 (bounded c r (best-IsAtMost c r))))
    where
      bounded :
          (d : Text × ℕ) (q : Candidates)
          → (d.1 ≤ (best d q).1) × IsAtMost (best d q).1 q
          → IsAtMost (best d q).1 (d ∷ q)
      bounded (k, v) q x = (x.0, x.1)

  assigned_key-IsAssigned : IsAssigned spans s (assigned_key spans s)
  unfolding assigned_key IsDistinct IsPositive held
  assigned_key-IsAssigned =
      chosen-IsAssigned (collect s [] spans) (collect-IsSound s [] spans (tt, tt))
        (λ j. omega (arith, held-collect s j [] spans))

equal : (i : ℕ) → (i == i) ≡ true
equal i = ground arith

unequal : (i j : ℕ) → i ≢ j → (i == j) ≡ false
unequal i j h = elim (Bool-cases (i == j)) [ inl e ↦ absurd (h (ground arith)) | inr e ↦ e ]

find-set_other : (i j : ℕ) (k : Text) (m : Mapping) → i ≢ j → find j (set_key i k m) ≡ find j m
unfolding find set_key
find-set_other i j k [] h = rw (unequal i j h) refl
find-set_other i j k ((a, l) ∷ r) h =
    if_cases (λ m. find j m ≡ find j ((a, l) ∷ r)) (a == i) (λ e. far e)
      (λ e. ap (λ o. if a == j then some l else o) (find-set_other i j k r h))
  where
    far : (a == i) ≡ true → find j ((a, k) ∷ r) ≡ find j ((a, l) ∷ r)
    far e = rw (unequal a j (λ q. h (ground arith))) refl

find-set : (i : ℕ) (k : Text) (m : Mapping) → find i (set_key i k m) ≡ some k
unfolding find set_key
find-set i k [] = rw (equal i) refl
find-set i k ((a, l) ∷ r) =
    if_cases (λ m. find i m ≡ some k) (a == i) (λ e. rw e refl) (λ e. rw e (find-set i k r))

find-note : (i j : ℕ) (o : Option Text) (m : Mapping) → i ≢ j → find j (note_key i o m) ≡ find j m
unfolding note_key
find-note i j none m h = refl
find-note i j (some k) m h = find-set_other i j k m h

find-note_self :
    (i : ℕ) (o : Option Text) (m : Mapping) → find i m ≡ none → find i (note_key i o m) ≡ o
unfolding note_key
find-note_self i none m h = h
find-note_self i (some k) m h = find-set i k m

-- No two segments have the same identifier.
unfoldable pub HasDistinctIds : List Timed → Type 0
HasDistinctIds [] = Unit
HasDistinctIds (s ∷ r) = All (λ t. t.id ≢ s.id) r × HasDistinctIds r

module _ (spans : List Span) where
  find-assign_absent :
      (i : ℕ) (m : Mapping) (r : List Timed)
      → All (λ t. t.id ≢ i) r
      → find i (assign spans m r) ≡ find i m
  unfolding assign
  find-assign_absent i m [] h = refl
  find-assign_absent i m (t ∷ r) h =
      find-assign_absent i (note_key t.id (assigned_key spans t) m) r h.1
      ∙ find-note t.id i (assigned_key spans t) m h.0

  not_same : (s t : Timed) (r : List Timed) → All (λ u. u.id ≢ t.id) r → Member s r → s.id ≢ t.id
  not_same s t [] h m = absurd m
  not_same s t (u ∷ r) h (inl e) = subst (λ x. x.id ≢ t.id) (sym e) h.0
  not_same s t (u ∷ r) h (inr m) = not_same s t r h.1 m

  find-assign :
      (s : Timed) (m : Mapping) (r : List Timed)
      → HasDistinctIds r
      → Member s r
      → find s.id m ≡ none
      → find s.id (assign spans m r) ≡ assigned_key spans s
  unfolding assign HasDistinctIds
  find-assign s m [] d h e = absurd h
  find-assign s m (t ∷ r) d (inl q) e =
      subst (λ x. find x.id (assign spans m (t ∷ r)) ≡ assigned_key spans x) (sym q)
        (find-assign_absent t.id (note_key t.id (assigned_key spans t) m) r d.0
          ∙ find-note_self t.id (assigned_key spans t) m (subst (λ x. find x.id m ≡ none) q e))
  find-assign s m (t ∷ r) d (inr h) e =
      find-assign s (note_key t.id (assigned_key spans t) m) r d.1 h
        (find-note t.id s.id (assigned_key spans t) m (λ x. not_same s t r d.0 h (sym x)) ∙ e)

-- When no two segments have the same identifier: a segment that is given a new speaker overlaps that
-- speaker's spans, and no other speaker's more; for a segment that is not, no speaker's spans overlap
-- it more than those of the speaker that it has.
pub assign_speakers-IsAssigned :
    (segments : List Timed) (spans : List Span) (s : Timed)
    → HasDistinctIds segments
    → Member s segments
    → IsAssigned spans s (find s.id (assign_speakers_by_overlap segments spans))
unfolding assign_speakers_by_overlap find IsAssigned total
assign_speakers-IsAssigned segments [] s d h = λ j. omega arith
assign_speakers-IsAssigned segments (p ∷ r) s d h =
    subst (IsAssigned (p ∷ r) s) (sym (find-assign (p ∷ r) s [] segments d h refl))
      (assigned_key-IsAssigned (p ∷ r) s)

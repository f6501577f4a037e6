-- ===== src/Meeting/Overlay/Best.antt =====
-- src/sona/meeting/diarization_overlay.py: the overlap that the candidates hold for each speaker, and the
-- one with the most.
use voice_realtime.Prelude.{
  ◌≡◌, refl, sym, ap, ◌∙◌, subst, ℕ, ◌+◌, ◌≤◌, ◌<◌, Bool, true, false, ◌&&◌, List, [], ◌∷◌, Member,
  inl, inr, arith, if◌then◌else◌, if_cases, Bool-cases, ◌==◌,
}
use voice_realtime.Prelude.Text.{Text}
use voice_realtime.Meeting.Overlay.{
  text_eq, Span, Timed, Candidates, add, overlaps, overlap, collect, is_less, best,
}

eq_left : (c d : ℕ) (b : Bool) → (c == d && b) ≡ true → c ≡ d
eq_left c d b e = ground arith

eq_right : (a b : Bool) → (a && b) ≡ true → b ≡ true
eq_right a b e = ground arith

eq_self : (c : ℕ) (b : Bool) → b ≡ true → (c == c && b) ≡ true
eq_self c b e = ground arith

pub text_eq-≡ : (a b : Text) → text_eq a b ≡ true → a ≡ b
unfolding text_eq
text_eq-≡ [] [] e = refl
text_eq-≡ [] (d ∷ ds) e = absurd cc
text_eq-≡ (c ∷ cs) [] e = absurd cc
text_eq-≡ (c ∷ cs) (d ∷ ds) e =
    ap (λ x. x ∷ cs) (eq_left c d (text_eq cs ds) e)
    ∙ ap (λ x. d ∷ x) (text_eq-≡ cs ds (eq_right (c == d) (text_eq cs ds) e))

pub text_eq_refl : (a : Text) → text_eq a a ≡ true
unfolding text_eq
text_eq_refl [] = refl
text_eq_refl (c ∷ cs) = eq_self c (text_eq cs cs) (text_eq_refl cs)

-- The overlap of a segment with the spans of one speaker.
unfoldable pub total : Timed → Text → List Span → ℕ
total s k [] = 0
total s k (p ∷ r) = (if text_eq p.speaker_key k then overlap s p else 0) + total s k r

-- The overlap that the candidates hold for a key.
unfoldable pub held : Text → Candidates → ℕ
held k [] = 0
held k ((j, v) ∷ r) = (if text_eq j k then v else 0) + held k r

held-add :
    (j k : Text) (v : ℕ) (cs : Candidates)
    → held j (add k v cs) ≡ (if text_eq k j then v else 0) + held j cs
unfolding held add
held-add j k v [] = refl
held-add j k v ((i, w) ∷ r) = elim (Bool-cases (text_eq i k)) [
  | inl e ↦
      rw e
        (same (text_eq i j) (text_eq k j) (ap (λ x. text_eq x j) (text_eq-≡ i k e)) v w (held j r))
  | inr e ↦ rw e (
      other (if text_eq i j then w else 0) (if text_eq k j then v else 0) (held j r)
        (held j (add k v r)) (held-add j k v r))
]
  where
    same :
        (a b : Bool)
        → a ≡ b
        → (x y n : ℕ)
        → (if a then y + x else 0) + n ≡ (if b then x else 0) + ((if a then y else 0) + n)
    same a b e x y n = ground arith

    other : (x y n m : ℕ) → m ≡ y + n → x + m ≡ y + (x + n)
    other x y n m e = omega arith

overlap_none : (s : Timed) (p : Span) → overlaps s p ≡ false → overlap s p ≡ 0
unfolding overlaps overlap
overlap_none s p e = ground arith

pub held-collect :
    (s : Timed) (k : Text) (cs : Candidates) (ps : List Span)
    → held k (collect s cs ps) ≡ held k cs + total s k ps
unfolding collect total
held-collect s k cs [] = omega arith
held-collect s k cs (p ∷ r) = elim (Bool-cases (overlaps s p)) [
  | inl e ↦ rw e (
      omega (
        arith,
        held-collect s k (add p.speaker_key (overlap s p) cs) r,
        held-add k p.speaker_key (overlap s p) cs,
      ))
  | inr e ↦
      rw (e, overlap_none s p e)
        (omega (arith, held-collect s k cs r, nothing (text_eq p.speaker_key k)))
]
  where
    nothing : (b : Bool) → ◌≡◌ {A = ℕ} (if b then 0 else 0) 0
    nothing b = ground arith

-- The keys differ.
unfoldable pub IsFresh : Text → Candidates → Type 0
IsFresh k [] = Unit
IsFresh k ((j, v) ∷ r) = (text_eq j k ≡ false) × IsFresh k r

unfoldable pub IsDistinct : Candidates → Type 0
IsDistinct [] = Unit
IsDistinct ((j, v) ∷ r) = IsFresh j r × IsDistinct r

-- Every candidate has some overlap.
unfoldable pub IsPositive : Candidates → Type 0
IsPositive [] = Unit
IsPositive ((j, v) ∷ r) = (0 < v) × IsPositive r

add-IsFresh :
    (j k : Text) (v : ℕ) (cs : Candidates)
    → text_eq k j ≡ false
    → IsFresh j cs
    → IsFresh j (add k v cs)
unfolding IsFresh add
add-IsFresh j k v [] e h = (e, tt)
add-IsFresh j k v ((i, w) ∷ r) e h =
    if_cases (IsFresh j) (text_eq i k) (λ f. h) (λ f. (h.0, add-IsFresh j k v r e h.1))

text_eq_sym : (a b : Text) → text_eq a b ≡ false → text_eq b a ≡ false
text_eq_sym a b e = elim (Bool-cases (text_eq b a)) [
  | inl f ↦ absurd (cc (subst (λ x. text_eq x b ≡ true) (text_eq-≡ b a f) (text_eq_refl b), e))
  | inr f ↦ f
]

add-IsDistinct : (k : Text) (v : ℕ) (cs : Candidates) → IsDistinct cs → IsDistinct (add k v cs)
unfolding IsDistinct IsFresh add
add-IsDistinct k v [] h = (tt, tt)
add-IsDistinct k v ((j, w) ∷ r) h =
    if_cases IsDistinct (text_eq j k) (λ f. h)
      (λ f. (add-IsFresh j k v r (text_eq_sym j k f) h.0, add-IsDistinct k v r h.1))

add-IsPositive :
    (k : Text) (v : ℕ) (cs : Candidates) → 0 < v → IsPositive cs → IsPositive (add k v cs)
unfolding IsPositive add
add-IsPositive k v [] e h = (e, tt)
add-IsPositive k v ((j, w) ∷ r) e h =
    if_cases IsPositive (text_eq j k) (λ f. (omega (arith, h.0), h.1))
      (λ f. (h.0, add-IsPositive k v r e h.1))

overlap_some : (s : Timed) (p : Span) → overlaps s p ≡ true → 0 < overlap s p
unfolding overlaps overlap
overlap_some s p e = ground arith

-- What `collect` keeps of the candidates.
abbrev pub IsSound : Candidates → Type 0
IsSound cs = IsDistinct cs × IsPositive cs

pub collect-IsSound :
    (s : Timed) (cs : Candidates) (ps : List Span) → IsSound cs → IsSound (collect s cs ps)
unfolding collect
collect-IsSound s cs [] h = h
collect-IsSound s cs (p ∷ r) h =
    collect-IsSound s (if overlaps s p then add p.speaker_key (overlap s p) cs else cs) r (
      if_cases IsSound (overlaps s p)
        (λ e. (
          add-IsDistinct p.speaker_key (overlap s p) cs h.0,
          add-IsPositive p.speaker_key (overlap s p) cs (overlap_some s p e) h.1,
        ))
        (λ e. h))

-- No candidate has more than `n`.
unfoldable pub IsAtMost : ℕ → Candidates → Type 0
IsAtMost n [] = Unit
IsAtMost n ((j, v) ∷ r) = (v ≤ n) × IsAtMost n r

less_at_most : (b c : Text × ℕ) → is_less b c ≡ true → b.1 ≤ c.1
unfolding is_less
less_at_most (j, v) (k, w) e = ground arith

not_less_at_most : (b c : Text × ℕ) → is_less b c ≡ false → c.1 ≤ b.1
unfolding is_less
not_less_at_most (j, v) (k, w) e = ground arith

pub best-IsAtMost :
    (b : Text × ℕ) (cs : Candidates) → (b.1 ≤ (best b cs).1) × IsAtMost (best b cs).1 cs
unfolding best IsAtMost
best-IsAtMost b [] = (omega arith, tt)
best-IsAtMost b ((j, v) ∷ r) =
    if_cases (λ x. (b.1 ≤ (best x r).1) × IsAtMost (best x r).1 ((j, v) ∷ r)) (is_less b (j, v))
      (λ e.
        let h = best-IsAtMost (j, v) r in (omega (arith, h.0, less_at_most b (j, v) e), (h.0, h.1)))
      (λ e.
        let h = best-IsAtMost b r in (h.0, (omega (arith, h.0, not_less_at_most b (j, v) e), h.1)))

pub best-Member : (b : Text × ℕ) (cs : Candidates) → Member (best b cs) (b ∷ cs)
unfolding best
best-Member b [] = inl refl
best-Member b (c ∷ r) =
    if_cases (λ x. Member (best x r) (b ∷ c ∷ r)) (is_less b c) (λ e. inr (best-Member c r))
      (λ e. skip (best b r) (best-Member b r))
  where
    skip : (x : Text × ℕ) → Member x (b ∷ r) → Member x (b ∷ c ∷ r)
    skip x (inl e) = inl e
    skip x (inr h) = inr (inr h)

held_fresh : (k : Text) (cs : Candidates) → IsFresh k cs → held k cs ≡ 0
unfolding IsFresh held
held_fresh k [] h = refl
held_fresh k ((j, v) ∷ r) h = rw h.0 (omega (arith, held_fresh k r h.1))

pub held-IsAtMost :
    (k : Text) (n : ℕ) (cs : Candidates) → IsDistinct cs → IsAtMost n cs → held k cs ≤ n
unfolding IsDistinct IsAtMost held
held-IsAtMost k n [] d h = omega arith
held-IsAtMost k n ((j, v) ∷ r) d h = elim (Bool-cases (text_eq j k)) [
  | inl e ↦
      rw (e, held_fresh k r (subst (λ x. IsFresh x r) (text_eq-≡ j k e) d.0)) (omega (arith, h.0))
  | inr e ↦ rw e (omega (arith, held-IsAtMost k n r d.1 h.1))
]

fresh-Member :
    (j k : Text) (v : ℕ) (cs : Candidates) → IsFresh j cs → Member (k, v) cs → text_eq k j ≡ false
unfolding IsFresh
fresh-Member j k v [] h m = absurd m
fresh-Member j k v ((i, w) ∷ r) h (inl e) =
    subst (λ x. text_eq x j ≡ false) (sym (ap (λ x. x.0) e)) h.0
fresh-Member j k v ((i, w) ∷ r) h (inr m) = fresh-Member j k v r h.1 m

pub held-Member :
    (k : Text) (v : ℕ) (cs : Candidates) → IsDistinct cs → Member (k, v) cs → held k cs ≡ v
unfolding IsDistinct held
held-Member k v [] d h = absurd h
held-Member k v ((j, w) ∷ r) d (inl e) =
    rw
      (
        subst (λ x. text_eq j x ≡ true) (sym (ap (λ x. x.0) e)) (text_eq_refl j),
        held_fresh k r (subst (λ x. IsFresh x r) (sym (ap (λ x. x.0) e)) d.0),
      )
      (omega (arith, ap (λ x. x.1) e))
held-Member k v ((j, w) ∷ r) d (inr h) =
    rw (text_eq_sym k j (fresh-Member j k v r d.0 h)) (omega (arith, held-Member k v r d.1 h))

pub positive-Member : (b : Text × ℕ) (cs : Candidates) → IsPositive cs → Member b cs → 0 < b.1
unfolding IsPositive
positive-Member b [] p h = absurd h
positive-Member b ((j, v) ∷ r) p (inl e) = subst (λ x. 0 < x) (sym (ap (λ x. x.1) e)) p.0
positive-Member b ((j, v) ∷ r) p (inr h) = positive-Member b r p.1 h

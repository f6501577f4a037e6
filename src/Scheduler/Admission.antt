-- ===== src/Scheduler/Admission.antt =====
-- `_admit_next` of src/sona/inference/scheduler.py: who gets the free slot.
use voice_realtime.Prelude.{
  ◌≡◌, refl, sym, subst, inl, inr, true, false, ◌||◌, List, [], ◌∷◌, arith, filter, All, Bool-cases,
  Member, filter-All, Member-filter, All-filter,
}
use voice_realtime.Scheduler.{
  Scheduler, Waiter, is_eligible, precedes, least, admit, admit_least, admit_next,
}

precedes_trans :
    (a b c : Waiter) → precedes b a ≡ false → precedes c b ≡ false → precedes c a ≡ false
unfolding precedes
precedes_trans a b c h k = ground arith

precedes_asymm : (a b : Waiter) → precedes a b ≡ true → precedes b a ≡ false
unfolding precedes
precedes_asymm a b h = ground arith

precedes_irrefl : (a : Waiter) → precedes a a ≡ false
unfolding precedes
precedes_irrefl a = ground arith

least_lt : (w y : Waiter) (ys : List Waiter) → precedes y w ≡ true → least w (y ∷ ys) ≡ least y ys
unfolding least
least_lt w y ys e = rw e

least_ge : (w y : Waiter) (ys : List Waiter) → precedes y w ≡ false → least w (y ∷ ys) ≡ least w ys
unfolding least
least_ge w y ys e = rw e

-- Whatever does not precede the first candidate does not precede the least.
least-precedes :
    (w x : Waiter) (xs : List Waiter) → precedes x w ≡ false → precedes x (least w xs) ≡ false
unfolding least
least-precedes w x [] h = h
least-precedes w x (y ∷ ys) h = elim (Bool-cases (precedes y w)) [
  | inl e ↦
      rw (least_lt w y ys e) (least-precedes y x ys (precedes_trans y w x (precedes_asymm y w e) h))
  | inr e ↦ rw (least_ge w y ys e) (least-precedes w x ys h)
]

-- Nobody in the list precedes the least.
least_le : (w : Waiter) (xs : List Waiter) → All (λ x. precedes x (least w xs) ≡ false) (w ∷ xs)
unfolding least
least_le w [] = (precedes_irrefl w, tt)
least_le w (y ∷ ys) = elim (Bool-cases (precedes y w)) [
  | inl e ↦ both (least_lt w y ys e) (least-precedes y w ys (precedes_asymm y w e)) (least_le y ys)
  | inr e ↦ both (least_ge w y ys e) (least_le w ys).0 (least-precedes w y ys e, (least_le w ys).1)
]
  where
    both :
        {m : Waiter}
        → least w (y ∷ ys) ≡ m
        → precedes w m ≡ false
        → All (λ x. precedes x m ≡ false) (y ∷ ys)
        → All (λ x. precedes x (least w (y ∷ ys)) ≡ false) (w ∷ y ∷ ys)
    both e h hs = subst (λ v. All (λ x. precedes x v ≡ false) (w ∷ y ∷ ys)) (sym e) (h, hs)

least-Member : (w : Waiter) (xs : List Waiter) → Member (least w xs) (w ∷ xs)
unfolding least
least-Member w [] = inl refl
least-Member w (y ∷ ys) = elim (Bool-cases (precedes y w)) [
  | inl e ↦ into (least_lt w y ys e) (inr (least-Member y ys))
  | inr e ↦ into (least_ge w y ys e) (skip (least-Member w ys))
]
  where
    skip : {a : Waiter} → Member a (w ∷ ys) → Member a (w ∷ y ∷ ys)
    skip (inl here) = inl here
    skip (inr there) = inr (inr there)

    into :
        {m : Waiter}
        → least w (y ∷ ys) ≡ m
        → Member m (w ∷ y ∷ ys)
        → Member (least w (y ∷ ys)) (w ∷ y ∷ ys)
    into e h = subst (λ v. Member v (w ∷ y ∷ ys)) (sym e) h

-- What one call of `_admit_next` may do: nothing, or admit one eligible waiter that no eligible
-- waiter precedes.
pub data Admits (s : Scheduler) : Scheduler → Type 0 where
  busy : (s.active || s.closed) ≡ true → Admits s s
  idle : All (λ x. is_eligible s x ≡ false) s.waiters → Admits s s
  grants :
      (w : Waiter)
      → s.active ≡ false
      → s.closed ≡ false
      → Member w s.waiters
      → is_eligible s w ≡ true
      → All (λ x. is_eligible s x ≡ true → precedes x w ≡ false) s.waiters
      → Admits s (admit s w)

-- `_admit_next` leaves the state alone if the slot is taken, the scheduler is closed or nobody is
-- eligible; otherwise it admits an eligible waiter that no other eligible one precedes.
pub admit_next-Admits : (s : Scheduler) → Admits s (admit_next s)
unfolding admit_next admit_least
admit_next-Admits s = elim (Bool-cases (s.active || s.closed)) [
  | inl e ↦ rw (e, admit_next) (busy e)
  | inr e ↦ rw (e, admit_next) (chosen e (filter (is_eligible s) s.waiters) refl)
]
  where
    chosen :
        (s.active || s.closed) ≡ false
        → (ws : List Waiter) → filter (is_eligible s) s.waiters ≡ ws
        → Admits s (admit_least s ws)
    chosen free [] e = idle (filter-All (is_eligible s) s.waiters e)
    chosen free (w ∷ ws) e =
        let m : Member (least w ws) (filter (is_eligible s) s.waiters) = rw e (least-Member w ws) in
        let found = Member-filter (is_eligible s) s.waiters m in
        grants (least w ws) (ground arith) (ground arith) found.0 found.1 (
          All-filter (is_eligible s) (λ x. precedes x (least w ws) ≡ false) s.waiters
            (rw e (least_le w ws)))

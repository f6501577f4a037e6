-- ===== src/Meeting/Finalizer/Steps.antt =====
-- src/sona/meeting/finalization.py: the place of each call, and what a step leaves.
use voice_realtime.Prelude.{
  ◌≡◌, refl, ap, ◌++◌, ℕ, suc, ◌≤◌, ◌<◌, Bool, true, false, List, [], ◌∷◌, arith, if◌then◌else◌,
}
use voice_realtime.Meeting.Finalizer.{
  Result, ok, raise, cancelled, Call, finish_capture, abort_capture, reconcile_final,
  finish_overlay, get_transcript, reconcile_corrected, apply_remapping, create_minutes,
  finalize_with, Finalizer, Method, next, noted, call, rescue, or_else,
}

-- The place of a call in the order.
unfoldable pub rank : Call → ℕ
rank finish_capture = 0
rank abort_capture = 8
rank reconcile_final = 1
rank finish_overlay = 2
rank get_transcript = 3
rank reconcile_corrected = 4
rank apply_remapping = 5
rank (finalize_with s) = 6
rank create_minutes = 7

-- The calls, the latest first, each of a place before `n` and before that of the next one.
unfoldable pub IsOrdered : ℕ → List Call → Type 0
IsOrdered n [] = Unit
IsOrdered n (c ∷ r) = (rank c < n) × IsOrdered (rank c) r

-- The first of the calls finishes the capture.
abbrev pub IsStarted : List Call → Type 0
IsStarted cs = (later : List Call) × (cs ≡ later ++ finish_capture ∷ [])

IsOrdered-weaken : (n m : ℕ) (cs : List Call) → n ≤ m → IsOrdered n cs → IsOrdered m cs
unfolding IsOrdered
IsOrdered-weaken n m [] h o = tt
IsOrdered-weaken n m (c ∷ r) h o = (omega (arith, h, o.0), o.1)

module _ {W : Type 0} where
  -- The capture is closed, and the calls are in their order, the capture's end first, without
  -- an abort.
  pub record At (n : ℕ) (s : Finalizer W) : Type 0 where
    pub closed_is : s.capture_closed ≡ true
    pub ordered : IsOrdered n s.calls
    pub started : IsStarted s.calls

  abbrev pub After :
      {A : Type 0}
      → (A → Finalizer W → Type 0)
      → (Finalizer W → Type 0)
      → Result A × Finalizer W
      → Type 0
  After Q E (ok a, s) = Q a s
  After Q E (raise, s) = E s
  After Q E (cancelled, s) = E s

  -- What holds when a method returns, and when it raises or is cancelled.
  pub record Post {A : Type 0} (Q : A → Finalizer W → Type 0) (E : Finalizer W → Type 0)
      (p : Result A × Finalizer W) : Type 0 where
    pub after : After Q E p

  pub next-Post :
      {A B : Type 0} {P : A → Finalizer W → Type 0} {Q : B → Finalizer W → Type 0}
      {E : Finalizer W → Type 0} (p : Result A × Finalizer W) (f : A → Method W B)
      → Post P E p
      → ((a : A) (s : Finalizer W) → P a s → Post Q E (f a s))
      → Post Q E (next p f)
  unfolding next
  next-Post (ok a, s) f h k = k a s h.after
  next-Post (raise, s) f h k = record { after = h.after }
  next-Post (cancelled, s) f h k = record { after = h.after }

  rescue-Post :
      {A : Type 0} {E : Finalizer W → Type 0} (p : Result A × Finalizer W) (b : A)
      → Post (λ _. E) E p
      → Post (λ _. E) E (rescue p b)
  unfolding rescue
  rescue-Post (ok a, s) b h = record { after = h.after }
  rescue-Post (raise, s) b h = record { after = h.after }
  rescue-Post (cancelled, s) b h = record { after = h.after }

  pub branch-Post :
      {A : Type 0} {Q : A → Finalizer W → Type 0} {E : Finalizer W → Type 0} (b : Bool)
      (p q : Result A × Finalizer W)
      → (b ≡ true → Post Q E p)
      → (b ≡ false → Post Q E q)
      → Post Q E (if b then p else q)
  branch-Post true p q h k = h refl
  branch-Post false p q h k = k refl

  -- A call whose place is not before `n`.
  pub noted-At :
      (n : ℕ) (c : Call) (w : W) (s : Finalizer W)
      → n ≤ rank c
      → At n s
      → At (suc (rank c)) (noted c w s)
  unfolding noted IsOrdered
  noted-At n c w s h a = record {
    closed_is = a.closed_is;
    ordered = (omega arith, IsOrdered-weaken n (rank c) s.calls h a.ordered);
    started = (c ∷ a.started.0, ap (λ l. c ∷ l) a.started.1);
  }

  pub At-weaken : (n m : ℕ) (s : Finalizer W) → n ≤ m → At n s → At m s
  At-weaken n m s h a = record {
    closed_is = a.closed_is;
    ordered = IsOrdered-weaken n m s.calls h a.ordered;
    started = a.started;
  }

  result-Post :
      {A : Type 0} {E : Finalizer W → Type 0} (r : Result A) (s : Finalizer W)
      → E s
      → Post (λ _. E) E (r, s)
  result-Post (ok a) s e = record { after = e }
  result-Post raise s e = record { after = e }
  result-Post cancelled s e = record { after = e }

  pub weaken-Post :
      {A : Type 0} {Q Q' : A → Finalizer W → Type 0} {E E' : Finalizer W → Type 0}
      (p : Result A × Finalizer W)
      → Post Q E p
      → ((a : A) (s : Finalizer W) → Q a s → Q' a s)
      → ((s : Finalizer W) → E s → E' s)
      → Post Q' E' p
  weaken-Post (ok a, s) h f g = record { after = f a s h.after }
  weaken-Post (raise, s) h f g = record { after = g s h.after }
  weaken-Post (cancelled, s) h f g = record { after = g s h.after }

  pub call-Post :
      {A : Type 0} (n : ℕ) (c : Call) (f : W → Result A × W) (s : Finalizer W)
      → n ≤ rank c
      → At n s
      → Post (λ _. At (suc (rank c))) (At (suc (rank c))) (call c f s)
  unfolding call
  call-Post n c f s h a =
      result-Post (f s.world).0 (noted c (f s.world).1 s) (noted-At n c (f s.world).1 s h a)

  -- A call whose exception is dropped, and what follows it.
  pub tried-Post :
      {A B : Type 0} {Q : B → Finalizer W → Type 0} (n : ℕ) (c : Call) (f : W → Result A × W)
      (b : A) (k : A → Method W B) (s : Finalizer W)
      → n ≤ rank c
      → rank c < 8
      → At n s
      → ((a : A) (t : Finalizer W) → At (suc (rank c)) t → Post Q (At 8) (k a t))
      → Post Q (At 8) (next (or_else (call c f) b s) k)
  tried-Post n c f b k s h e a g =
      next-Post (or_else (call c f) b s) k
        (weaken-Post (or_else (call c f) b s) (rescue-Post (call c f s) b (call-Post n c f s h a))
          (λ x t q. q) (λ t q. At-weaken (suc (rank c)) 8 t (omega (arith, e)) q))
        g

  -- The same of a call whose exception is not.
  pub called-Post :
      {A B : Type 0} {Q : B → Finalizer W → Type 0} (n : ℕ) (c : Call) (f : W → Result A × W)
      (k : A → Method W B) (s : Finalizer W)
      → n ≤ rank c
      → rank c < 8
      → At n s
      → ((a : A) (t : Finalizer W) → At (suc (rank c)) t → Post Q (At 8) (k a t))
      → Post Q (At 8) (next (call c f s) k)
  called-Post n c f k s h e a g =
      next-Post (call c f s) k
        (weaken-Post (call c f s) (call-Post n c f s h a) (λ x t q. q)
          (λ t q. At-weaken (suc (rank c)) 8 t (omega (arith, e)) q))
        g

-- ===== src/Runtime/Rules.antt =====
-- src/sona/meeting/runtime_mode.py: what a method leaves when it returns, raises or is cancelled, and
-- the states of a coordinator between two steps.
use voice_realtime.Prelude.{
  ◌≡◌, refl, sym, ap, ◌∙◌, subst, ℕ, Bool, true, false, Option, if◌then◌else◌, ◌⊎◌, inl, inr,
  Bool-cases,
}
use voice_realtime.Runtime.State.{
  RuntimeMode, no_owner, owner_for_mode, Error, Result, ok, raise, cancelled, Outcome, returned,
  raised, Prepared, Runtime, Method, settle, call, call_now, handle, next, choose,
}

module _ {W A : Type 0} where
  abbrev pub After :
      (A → Runtime W → Type 0)
      → (Runtime W → Type 0)
      → (Runtime W → Type 0)
      → Result A × Runtime W
      → Type 0
  After Q E C (ok a, s) = Q a s
  After Q E C (raise e, s) = E s
  After Q E C (cancelled, s) = C s

  -- What holds when a method returns, raises or is cancelled.
  pub record Post (Q : A → Runtime W → Type 0) (E C : Runtime W → Type 0) (p : Result A × Runtime W)
      : Type 0 where
    pub after : After Q E C p

  pub handle-Post :
      {Q : A → Runtime W → Type 0} {E C E' C' : Runtime W → Type 0} (p : Result A × Runtime W)
      (f : Error → Method W A) (g : Method W A)
      → Post Q E C p
      → ((e : Error) (s : Runtime W) → E s → Post Q E' C' (f e s))
      → ((s : Runtime W) → C s → Post Q E' C' (g s))
      → Post Q E' C' (handle p f g)
  unfolding handle
  handle-Post (ok a, s) f g h k l = record { after = h.after }
  handle-Post (raise e, s) f g h k l = k e s h.after
  handle-Post (cancelled, s) f g h k l = l s h.after

  pub choose-Post :
      {Q : A → Runtime W → Type 0} {E C : Runtime W → Type 0} (test : Runtime W → Bool)
      (f g : Method W A) (s : Runtime W)
      → (test s ≡ true → Post Q E C (f s))
      → (test s ≡ false → Post Q E C (g s))
      → Post Q E C (choose test f g s)
  choose-Post test f g s h k = elim (Bool-cases (test s)) [
    | inl e ↦ rw e (h e)
    | inr e ↦ rw e (k e)
  ]

  -- The same, of the test and of the two results.
  pub branch-Post :
      {Q : A → Runtime W → Type 0} {E C : Runtime W → Type 0} (b : Bool)
      (p q : Result A × Runtime W)
      → (b ≡ true → Post Q E C p)
      → (b ≡ false → Post Q E C q)
      → Post Q E C (if b then p else q)
  branch-Post true p q h k = h refl
  branch-Post false p q h k = k refl

  pub weaken-Post :
      {Q Q' : A → Runtime W → Type 0} {E E' C C' : Runtime W → Type 0} (p : Result A × Runtime W)
      → Post Q E C p
      → ((a : A) (s : Runtime W) → Q a s → Q' a s)
      → ((s : Runtime W) → E s → E' s)
      → ((s : Runtime W) → C s → C' s)
      → Post Q' E' C' p
  weaken-Post (ok a, s) h f g k = record { after = f a s h.after }
  weaken-Post (raise e, s) h f g k = record { after = g s h.after }
  weaken-Post (cancelled, s) h f g k = record { after = k s h.after }

pub next-Post :
    {W A B : Type 0} {P : A → Runtime W → Type 0} {Q : B → Runtime W → Type 0}
    {E C : Runtime W → Type 0} (p : Result A × Runtime W) (f : A → Method W B)
    → Post P E C p
    → ((a : A) (s : Runtime W) → P a s → Post Q E C (f a s))
    → Post Q E C (next p f)
unfolding next
next-Post (ok a, s) f h k = k a s h.after
next-Post (raise e, s) f h k = record { after = h.after }
next-Post (cancelled, s) f h k = record { after = h.after }

abbrev pub Content : Type 1
Content = Option ℕ → Option Prepared → Type 0

-- Nobody has the microphone but the workload of the mode.
unfoldable pub IsGuarded : {W : Type 0} → Runtime W → Type 0
IsGuarded s = (s.pcm_owner ≡ no_owner) ⊎ (s.pcm_owner ≡ owner_for_mode s.mode)

module _ {W : Type 0} where
  -- A state in which the mode is `m`, and the meeting and what is prepared are as `J` says.
  pub record Near (m : RuntimeMode) (h : Bool) (J : Content) (s : Runtime W) : Type 0 where
    pub mode_is : s.mode ≡ m
    pub guard : (s.pcm_owner ≡ no_owner) ⊎ (s.pcm_owner ≡ owner_for_mode m)
    pub meeting_is : s.has_meeting ≡ h
    pub content : J s.active_meeting_id s.prepared_target

  -- The same, with the owner of the mode.
  pub record Sits (m : RuntimeMode) (h : Bool) (J : Content) (s : Runtime W) : Type 0 where
    pub mode_is : s.mode ≡ m
    pub owner_is : s.pcm_owner ≡ owner_for_mode m
    pub meeting_is : s.has_meeting ≡ h
    pub content : J s.active_meeting_id s.prepared_target

  pub Near-IsGuarded :
      {m : RuntimeMode} {h : Bool} {J : Content} (s : Runtime W) → Near m h J s → IsGuarded s
  unfolding IsGuarded
  Near-IsGuarded s n =
      subst (λ m. (s.pcm_owner ≡ no_owner) ⊎ (s.pcm_owner ≡ owner_for_mode m)) (sym n.mode_is)
        n.guard

  pub Sits-IsGuarded :
      {m : RuntimeMode} {h : Bool} {J : Content} (s : Runtime W) → Sits m h J s → IsGuarded s
  unfolding IsGuarded
  Sits-IsGuarded s n = inr (n.owner_is ∙ ap owner_for_mode (sym n.mode_is))

  pub Sits-Near :
      {m : RuntimeMode} {h : Bool} {J : Content} (s : Runtime W) → Sits m h J s → Near m h J s
  Sits-Near s n = record {
    mode_is = n.mode_is;
    guard = inr n.owner_is;
    meeting_is = n.meeting_is;
    content = n.content;
  }

  pub Near-weaken :
      {m : RuntimeMode} {h : Bool} {J K : Content} (s : Runtime W)
      → ((i : Option ℕ) (p : Option Prepared) → J i p → K i p)
      → Near m h J s
      → Near m h K s
  Near-weaken s f n = record {
    mode_is = n.mode_is;
    guard = n.guard;
    meeting_is = n.meeting_is;
    content = f s.active_meeting_id s.prepared_target n.content;
  }

  pub Near-world :
      {m : RuntimeMode} {h : Bool} {J : Content} (s : Runtime W) (w : W)
      → Near m h J s
      → Near m h J (record s { world = w })
  Near-world s w n = record {
    mode_is = n.mode_is;
    guard = n.guard;
    meeting_is = n.meeting_is;
    content = n.content;
  }

  result-Post :
      {A : Type 0} {m : RuntimeMode} {h : Bool} {J : Content} (r : Result A) (s : Runtime W)
      → Near m h J s
      → Post (λ _. Near m h J) (Near m h J) IsGuarded (r, s)
  result-Post (ok a) s n = record { after = n }
  result-Post (raise e) s n = record { after = n }
  result-Post cancelled s n = record { after = Near-IsGuarded s n }

  -- A call of a workload changes nothing of the coordinator.
  pub call-Post :
      {A : Type 0} {m : RuntimeMode} {h : Bool} {J : Content} (f : W → Result A × W) (s : Runtime W)
      → Near m h J s
      → Post (λ _. Near m h J) (Near m h J) IsGuarded (call f s)
  unfolding call
  call-Post f s n =
      result-Post (f s.world).0 (record s { world = (f s.world).1 }) (Near-world s (f s.world).1 n)

  outcome-Post :
      {A : Type 0} {P : Runtime W → Type 0} (r : Outcome A) (s : Runtime W)
      → P s
      → Post (λ _. P) P (λ _. ⊥) (settle r, s)
  unfolding settle
  outcome-Post (returned a) s n = record { after = n }
  outcome-Post (raised e) s n = record { after = n }

  -- The same for one that does not wait.
  pub call_now-Post :
      {A : Type 0} {P : Runtime W → Type 0} (f : W → Outcome A × W) (s : Runtime W)
      → ((w : W) → P (record s { world = w }))
      → Post (λ _. P) P (λ _. ⊥) (call_now f s)
  unfolding call_now
  call_now-Post {P = P} f s n =
      outcome-Post {P = P} (f s.world).0 (record s { world = (f s.world).1 }) (n (f s.world).1)

-- ===== src/Runtime/Settled.antt =====
-- src/sona/meeting/runtime_mode.py: the commands that start a workload, from a settled coordinator.
use voice_realtime.Prelude.{
  ◌≡◌, refl, sym, ap, ◌∙◌, subst, ℕ, Bool, false, Option, none, some, arith, if◌then◌else◌, ◌⊎◌,
  inl, inr, Bool-cases,
}
use voice_realtime.Runtime.State.{
  RuntimeMode, meeting, idle, owner_for_mode, Result, ok, raise, cancelled, Runtime, call,
}
use voice_realtime.Runtime.Steps.{is_set}
use voice_realtime.Runtime.Commands.{is_mode, source_for}
use voice_realtime.Runtime.Rules.{Post, Content, IsGuarded, Sits, Sits-IsGuarded}
use voice_realtime.Runtime.Recovery.{Clear, Recovered}
use voice_realtime.Runtime.Switch.{Owned}

-- The mode owns the microphone, a meeting is active if it is the mode, and the mode is as `P` says.
pub record Lands {W : Type 0} (P : RuntimeMode → Type 0) (s : Runtime W) : Type 0 where
  pub owner_is : s.pcm_owner ≡ owner_for_mode s.mode
  pub active_is : is_set s.active_meeting_id ≡ is_mode s.mode meeting
  pub landed : P s.mode

abbrev pub IsSettled : {W : Type 0} → Runtime W → Type 0
IsSettled = Lands (λ m. Unit {0})

-- The mode before the command, or idle.
abbrev pub Back : RuntimeMode → RuntimeMode → Type 0
Back m k = (k ≡ m) ⊎ (k ≡ idle)

not_set : (i : Option ℕ) → is_set i ≡ false → i ≡ none
unfolding is_set
not_set none e = refl
not_set (some n) e = cc

module _ {W : Type 0} where
  pub Lands-map :
      {P Q : RuntimeMode → Type 0} (s : Runtime W)
      → ((m : RuntimeMode) → P m → Q m)
      → Lands P s
      → Lands Q s
  Lands-map s f l = record {
    owner_is = l.owner_is;
    active_is = l.active_is;
    landed = f s.mode l.landed;
  }

  pub Sits-Lands :
      {P : RuntimeMode → Type 0} {m : RuntimeMode} {h : Bool} (s : Runtime W)
      → Sits m h (Owned m) s
      → P m
      → Lands P s
  Sits-Lands {P} {m} s n p = record {
    owner_is = n.owner_is ∙ ap owner_for_mode (sym n.mode_is);
    active_is = n.content ∙ ap (λ k. is_mode k meeting) (sym n.mode_is);
    landed = subst P (sym n.mode_is) p;
  }

  -- Outside a meeting, none is active.
  pub Clear-Owned :
      {m : RuntimeMode} {h : Bool} (s : Runtime W)
      → is_mode m meeting ≡ false
      → Sits m h Clear s
      → Sits m h (Owned m) s
  unfolding is_set
  Clear-Owned s e n = record {
    mode_is = n.mode_is;
    owner_is = n.owner_is;
    meeting_is = n.meeting_is;
    content = ap is_set n.content ∙ sym e;
  }

  pub settled-Sits :
      (s : Runtime W)
      → IsSettled s
      → is_mode s.mode meeting ≡ false
      → Sits s.mode s.has_meeting Clear s
  settled-Sits s l e = record {
    mode_is = refl;
    owner_is = l.owner_is;
    meeting_is = refl;
    content = not_set s.active_meeting_id (l.active_is ∙ e);
  }

  pub Lands-IsGuarded : {P : RuntimeMode → Type 0} (s : Runtime W) → Lands P s → IsGuarded s
  unfolding IsGuarded
  Lands-IsGuarded s l = inr l.owner_is

  pub Recovered-Lands :
      (m source : RuntimeMode) (h : Bool) (s : Runtime W)
      → is_mode source meeting ≡ false
      → Back m source
      → Recovered source h s
      → Lands (Back m) s
  unfolding Recovered is_mode
  Recovered-Lands m source h s e b (inl n) = Sits-Lands s (Clear-Owned s e n) b
  Recovered-Lands m source h s e b (inr n) = Sits-Lands s (Clear-Owned s refl n) (inr refl)

  result-Sits :
      {A : Type 0} {m : RuntimeMode} {h : Bool} {J : Content} (r : Result A) (s : Runtime W)
      → Sits m h J s
      → Post (λ _. Sits m h J) (Sits m h J) IsGuarded (r, s)
  result-Sits (ok a) s n = record { after = n }
  result-Sits (raise e) s n = record { after = n }
  result-Sits cancelled s n = record { after = Sits-IsGuarded s n }

  Sits-world :
      {m : RuntimeMode} {h : Bool} {J : Content} (s : Runtime W) (w : W)
      → Sits m h J s
      → Sits m h J (record s { world = w })
  Sits-world s w n = record {
    mode_is = n.mode_is;
    owner_is = n.owner_is;
    meeting_is = n.meeting_is;
    content = n.content;
  }

  pub call-Sits :
      {A : Type 0} {m : RuntimeMode} {h : Bool} {J : Content} (f : W → Result A × W) (s : Runtime W)
      → Sits m h J s
      → Post (λ _. Sits m h J) (Sits m h J) IsGuarded (call f s)
  unfolding call
  call-Sits f s n =
      result-Sits (f s.world).0 (record s { world = (f s.world).1 }) (Sits-world s (f s.world).1 n)

  pub source_for-clear :
      (target : RuntimeMode) (s : Runtime W)
      → is_mode s.mode meeting ≡ false
      → is_mode (source_for target s) meeting ≡ false
  unfolding source_for is_mode
  source_for-clear target s e = ground arith

  pub source_for-Back : (target : RuntimeMode) (s : Runtime W) → Back s.mode (source_for target s)
  unfolding source_for
  source_for-Back target s = elim (Bool-cases (is_mode s.mode target)) [
    | inl e ↦ inr (ap (λ b. if b then idle else s.mode) e)
    | inr e ↦ inl (ap (λ b. if b then idle else s.mode) e)
  ]

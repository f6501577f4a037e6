-- ===== src/Runtime/Moves.antt =====
-- src/sona/meeting/runtime_mode.py: the barrier, the commit of a state and the calls of the workloads.
use voice_realtime.Prelude.{◌≡◌, refl, sym, subst, ◌+◌, Bool, ◌⊎◌, inl}
use voice_realtime.Runtime.State.{
  RuntimeMode, PcmOwner, no_owner, owner_for_mode, Error, Workloads, Runtime, pure, fail, cancel,
  call_now, next, ◌>>◌, modify,
}
use voice_realtime.Runtime.Steps.{
  put_owner, owner_callback_safely, set_transition_barrier, commit_state,
}
use voice_realtime.Runtime.Rules.{
  Post, handle-Post, weaken-Post, next-Post, Content, IsGuarded, Near, Sits, Sits-Near, Near-world,
  call_now-Post,
}

module _ {W : Type 0} {h : Bool} {J : Content} where
  pub put-Near :
      (m k : RuntimeMode) (o : PcmOwner) (s : Runtime W)
      → Near k h J s
      → (o ≡ no_owner) ⊎ (o ≡ owner_for_mode m)
      → Near m h J (put_owner m o s)
  unfolding put_owner
  put-Near m k o s n g = record {
    mode_is = refl;
    guard = g;
    meeting_is = n.meeting_is;
    content = n.content;
  }

  put-Sits :
      (m k : RuntimeMode) (s : Runtime W)
      → Near k h J s
      → Sits m h J (put_owner m (owner_for_mode m) s)
  unfolding put_owner
  put-Sits m k s n = record {
    mode_is = refl;
    owner_is = refl;
    meeting_is = n.meeting_is;
    content = n.content;
  }

  -- The owner that a raise puts back.
  put_back :
      (m k : RuntimeMode) (s t : Runtime W)
      → Near m h J s
      → Near k h J t
      → Near m h J (put_owner s.mode s.pcm_owner t)
  put_back m k s t n q =
      subst (λ x. Near x h J (put_owner s.mode s.pcm_owner t)) n.mode_is
        (put-Near s.mode k s.pcm_owner t q (
          subst (λ x. (s.pcm_owner ≡ no_owner) ⊎ (s.pcm_owner ≡ owner_for_mode x)) (sym n.mode_is)
            n.guard))

module _ {W : Type 0} (env : Workloads W) {h : Bool} {J : Content} where
  pub callback_safely-Post :
      {m : RuntimeMode} (o : PcmOwner) (s : Runtime W)
      → Near m h J s
      → Post (λ _. Near m h J) (λ _. ⊥) (λ _. ⊥) (owner_callback_safely env o s)
  unfolding owner_callback_safely
  callback_safely-Post {m} o s n =
      handle-Post (call_now (env.owner_changed o) s) (λ e. pure tt) cancel
        (call_now-Post {P = Near m h J} (env.owner_changed o) s (λ w. Near-world s w n))
        (λ e t q. record { after = q }) (λ t q. absurd q)

  -- What both `except` branches of a failed callback do.
  put_back-Post :
      {m k : RuntimeMode} {Q : Unit {0} → Runtime W → Type 0} (e : Error) (s t : Runtime W)
      → Near m h J s
      → Near k h J t
      → Post Q (Near m h J) IsGuarded (
          (do modify (put_owner s.mode s.pcm_owner); owner_callback_safely env s.pcm_owner; fail e)
            t)
  unfolding next
  put_back-Post {m} {k} e s t n q =
      next-Post (owner_callback_safely env s.pcm_owner (put_owner s.mode s.pcm_owner t))
        (λ _. fail e)
        (weaken-Post (owner_callback_safely env s.pcm_owner (put_owner s.mode s.pcm_owner t))
          (callback_safely-Post s.pcm_owner (put_owner s.mode s.pcm_owner t) (put_back m k s t n q))
          (λ a u v. v) (λ u v. absurd v) (λ u v. absurd v))
        (λ a u v. record { after = v })

  pub barrier-Post :
      {m : RuntimeMode} (s : Runtime W)
      → Near m h J s
      → Post (λ _. Near m h J) (Near m h J) IsGuarded (set_transition_barrier env s)
  unfolding set_transition_barrier
  barrier-Post {m} s n =
      handle-Post (call_now (env.owner_changed no_owner) shut) _ cancel
        (call_now-Post {P = Near m h J} (env.owner_changed no_owner) shut
          (λ w. Near-world shut w stands))
        (λ e t q. put_back-Post e s t n q) (λ t q. absurd q)
    where
      shut : Runtime W
      shut = put_owner s.mode no_owner s

      stands : Near m h J shut
      stands = subst (λ x. Near x h J shut) n.mode_is (put-Near s.mode m no_owner s n (inl refl))

  Sits-world :
      {m : RuntimeMode} (s : Runtime W) (w : W) → Sits m h J s → Sits m h J (record s { world = w })
  Sits-world s w n = record {
    mode_is = n.mode_is;
    owner_is = n.owner_is;
    meeting_is = n.meeting_is;
    content = n.content;
  }

  Sits-revision :
      {m : RuntimeMode} (s : Runtime W)
      → Sits m h J s
      → Sits m h J (record s { revision = s.revision + 1 })
  Sits-revision s n = record {
    mode_is = n.mode_is;
    owner_is = n.owner_is;
    meeting_is = n.meeting_is;
    content = n.content;
  }

  pub commit-Post :
      {k : RuntimeMode} (m : RuntimeMode) (s : Runtime W)
      → Near k h J s
      → Post (λ _. Sits m h J) (Near k h J) IsGuarded (commit_state env m (owner_for_mode m) s)
  unfolding commit_state next
  commit-Post {k} m s n =
      handle-Post _ _ cancel
        (next-Post (call_now (env.owner_changed (owner_for_mode m)) set_) _
          (call_now-Post {P = Sits m h J} (env.owner_changed (owner_for_mode m)) set_
            (λ w. Sits-world set_ w (put-Sits m k s n)))
          (λ a t q. record { after = Sits-revision t q }))
        (λ e t q. put_back-Post e s t n (Sits-Near t q)) (λ t q. absurd q)
    where
      set_ : Runtime W
      set_ = put_owner m (owner_for_mode m) s

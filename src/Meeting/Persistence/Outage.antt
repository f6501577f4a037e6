-- ===== src/Meeting/Persistence/Outage.antt =====
-- src/sona/meeting/persistence.py, `reconcile`: an outage of the database, and its end.
use voice_realtime.Prelude.{
  ◌≡◌, refl, sym, ap, ◌∙◌, ℕ, true, false, List, [], ◌∷◌, ◌++◌, append_assoc, append-nil, Option,
  subst, if◌then◌else◌, inl, inr, ◌≢◌,
}
use voice_realtime.Meeting.Journal.{
  Status, TranscriptWindow, Change, reconcile_window, ok, raise, repository_failed, append,
  is_final, Json, Write, whole, Repository, replay_change, replay_meeting,
}
use voice_realtime.Meeting.Journal.Append.{Holds, Storable, append-Appended}
use voice_realtime.Meeting.Journal.Replay.{
  apply_all, and_then, and_then-ok, replay_meeting-Holds, IsDown, down_replays,
  replay_change-window,
}
use voice_realtime.Meeting.Persistence.{
  Persistence, Signature, signature, is_last, counted, saved, degrade, reconciled, replay_pending,
  reconcile_replayed, reconcile,
}

abbrev pub windows : List TranscriptWindow → List Change
windows [] = []
windows (w ∷ ws) = reconcile_window w ∷ windows ws

-- The window is not the last one that the database took.
unfoldable pub IsFresh : ℕ → (ℕ → Option Signature) → TranscriptWindow → Type 0
IsFresh m s w = is_last (signature w) (s m) ≡ false

abbrev pub AllFresh : ℕ → (ℕ → Option Signature) → List TranscriptWindow → Type 0
AllFresh m s [] = Unit {0}
AllFresh m s (w ∷ ws) = IsFresh m s w × AllFresh m s ws

abbrev pub AllStorable : Json → ℕ → List TranscriptWindow → Type 0
AllStorable json m [] = Unit {0}
AllStorable json m (w ∷ ws) = Storable json m (reconcile_window w) × AllStorable json m ws

module _ {R : Type 0} (json : Json) where
  -- A state with a journal, which holds some changes of a meeting, and a repository.
  pub record Stands (m : ℕ) (p : Persistence R) (r : R) (s : ℕ → Option Signature)
      (cs : List Change) : Type 0 where
    pub has_journal : p.journal ≡ true
    pub repo_is : p.repo ≡ r
    pub signed : p.signatures ≡ s
    pub holds : Holds json m p.files cs

module _ {R : Type 0} (json : Json) (repository : Repository R) where
  down_degrades :
      (m : ℕ) (w : TranscriptWindow) (p : Persistence R) (cs : List Change)
      → p.journal ≡ true
      → Holds json m p.files cs
      → IsDown repository m p.repo
      → IsFresh m p.signatures w
      → reconcile json repository m w whole p
        ≡ saved w (record p { degraded = true }) (append json m (reconcile_window w) whole p.files)
  unfolding reconcile IsFresh replay_pending reconcile_replayed counted reconciled degrade
  down_degrades m w p cs j h d f =
      ap
        (λ b.
          if b
          then (ok false, p)
          else reconcile_replayed json repository m w whole (replay_pending json repository m p))
        f
      ∙ ap (reconcile_replayed json repository m w whole) pending
      ∙ elim (down_replays json repository m p.files cs p.repo h d) [
        | inl e ↦
            ap (λ x. reconcile_replayed json repository m w whole (counted p x)) e
            ∙ ap (reconciled json m w whole p) (d.refused (reconcile_window w))
            ∙ journaled
        | inr e ↦ ap (λ x. reconcile_replayed json repository m w whole (counted p x)) e ∙ journaled
      ]
    where
      pending :
          replay_pending json repository m p
          ≡ counted p (replay_meeting json repository m p.files p.repo)
      pending =
          ap
            (λ b.
              if b then counted p (replay_meeting json repository m p.files p.repo) else (ok 0, p))
            j

      journaled :
          degrade json m w whole repository_failed p
          ≡ saved w
              (record p { degraded = true })
              (append json m (reconcile_window w) whole p.files)
      journaled =
          ap
            (λ b.
              if b
              then saved w (record p { degraded = true })
                  (append json m (reconcile_window w) whole p.files)
              else (raise repository_failed, record p { degraded = true }))
            j

  pub reconcile_down :
      (m : ℕ) (w : TranscriptWindow) (p : Persistence R) (cs : List Change)
      → p.journal ≡ true
      → Storable json m (reconcile_window w)
      → Holds json m p.files cs
      → IsDown repository m p.repo
      → IsFresh m p.signatures w
      → (q : Persistence R) × (reconcile json repository m w whole p ≡ (ok false, q))
        × Stands json m q p.repo p.signatures (cs ++ reconcile_window w ∷ [])
        × (q.degraded ≡ true)
        × ((k : ℕ) → k ≢ m → q.files k ≡ p.files k)
  unfolding saved
  reconcile_down m w p cs j t h d f =
      let (new, at, v) = append-Appended json m (reconcile_window w) p.files cs t h in
      (
        record p { degraded = true; files = new },
        down_degrades m w p cs j h d f ∙ ap (saved w (record p { degraded = true })) at,
        record { has_journal = j; repo_is = refl; signed = refl; holds = v.holds },
        refl,
        v.others,
      )

  apply_all-snoc :
      (m : ℕ) (cs : List Change) (c : Change) (r q : R)
      → apply_all repository m (cs ++ c ∷ []) r ≡ ok q
      → (p : R) × (apply_all repository m cs r ≡ ok p) × (replay_change repository m c p ≡ ok q)
  unfolding apply_all and_then
  apply_all-snoc m [] c r q e =
      let (p, at, rest) = and_then-ok repository ok (replay_change repository m c r) q e in
      (r, refl, at ∙ rest)
  apply_all-snoc m (x ∷ cs) c r q e =
      let (p, at, rest) =
        and_then-ok repository (λ p. apply_all repository m (cs ++ c ∷ []) p)
          (replay_change repository m x r) q e in
      let (z, first, last) = apply_all-snoc m cs c p q rest in
      (z, ap (and_then repository (λ p. apply_all repository m cs p)) at ∙ first, last)

  up_stores :
      (m : ℕ) (w : TranscriptWindow) (p : Persistence R) (cs : List Change) (q : R)
      (status : Option Status) (written : Write)
      → p.journal ≡ true
      → Holds json m p.files cs
      → IsFresh m p.signatures w
      → repository.get_meeting m p.repo ≡ ok status
      → is_final status ≡ false
      → apply_all repository m (cs ++ reconcile_window w ∷ []) p.repo ≡ ok q
      → (z : Persistence R) × (reconcile json repository m w written p ≡ (ok true, z))
        × (z.repo ≡ q)
        × Holds json m z.files []
  unfolding reconcile IsFresh replay_pending reconcile_replayed counted reconciled
  up_stores m w p cs q status written j h f g a e =
      let (r, first, last) = apply_all-snoc m cs (reconcile_window w) p.repo q e in
      let (n, new, at, empty) =
        replay_meeting-Holds json repository m p.files cs p.repo r status h g a first in
      (
        (reconciled json m w written (counted p (ok n, new, r)).1 (ok q)).1,
        ap
              (λ b.
                if b
                then (ok false, p)
                else reconcile_replayed json repository m w written
                    (replay_pending json repository m p))
              f
            ∙ ap
                (λ b. reconcile_replayed json repository m w written (
                  if b
                  then counted p (replay_meeting json repository m p.files p.repo)
                  else (ok 0, p)))
                j
            ∙ ap (λ x. reconcile_replayed json repository m w written (counted p x)) at
            ∙ ap (reconciled json m w written (counted p (ok n, new, r)).1)
                (sym (replay_change-window repository m w r) ∙ last),
        refl,
        empty,
      )

  -- Windows that are reconciled one after the other.
  pub reconciles : ℕ → List TranscriptWindow → Persistence R → Persistence R
  reconciles m [] p = p
  reconciles m (w ∷ ws) p = reconciles m ws (reconcile json repository m w whole p).1

  outage :
      (m : ℕ) (ws : List TranscriptWindow) (p : Persistence R) (r : R) (s : ℕ → Option Signature)
      (cs : List Change)
      → Stands json m p r s cs
      → IsDown repository m r
      → AllFresh m s ws
      → AllStorable json m ws
      → Stands json m (reconciles m ws p) r s (cs ++ windows ws)
  unfolding reconciles
  outage m [] p r s cs a d f t = subst (Stands json m p r s) (sym (append-nil cs)) a
  outage m (w ∷ ws) p r s cs a d f t =
      let (q, at, b, mark, rest) =
        reconcile_down m w p cs a.has_journal t.0 a.holds
          (subst (IsDown repository m) (sym a.repo_is) d)
          (subst (λ t. IsFresh m t w) (sym a.signed) f.0) in
      subst (λ x. Stands json m (reconciles m ws x) r s (cs ++ (reconcile_window w ∷ windows ws)))
        (sym (ap (λ x. x.1) at))
        (subst (Stands json m (reconciles m ws q) r s)
          (append_assoc cs (reconcile_window w ∷ []) (windows ws))
          (outage m ws q r s (cs ++ reconcile_window w ∷ [])
            (record {
              has_journal = b.has_journal;
              repo_is = b.repo_is ∙ a.repo_is;
              signed = b.signed ∙ a.signed;
              holds = b.holds;
            })
            d f.1 t.1))

  -- When the database is down while some windows are reconciled, and is up again at the next one,
  -- in a state that takes every change and where the meeting is not over, that reconcile leaves
  -- it with all of the windows, applied in their order, and the journal empty: none is lost. The
  -- windows differ from the last one that the database took, the journal's lines are written
  -- whole, and the JSON of the windows that are reconciled while the database is down is read
  -- back and has no character at which `splitlines` cuts.
  pub outage-replayed :
      (m : ℕ) (ws : List TranscriptWindow) (w : TranscriptWindow) (p : Persistence R) (r q : R)
      (status : Option Status)
      → p.journal ≡ true
      → Holds json m p.files []
      → IsDown repository m p.repo
      → AllFresh m p.signatures (w ∷ ws)
      → AllStorable json m ws
      → repository.get_meeting m r ≡ ok status
      → is_final status ≡ false
      → apply_all repository m (windows ws ++ reconcile_window w ∷ []) r ≡ ok q
      → (z : Persistence R) × (reconcile json repository m w whole
            (record (reconciles m ws p) { repo = r })
          ≡ (ok true, z))
        × (z.repo ≡ q)
        × Holds json m z.files []
  outage-replayed m ws w p r q status j h d f t g a e =
      let s =
        outage m ws p p.repo p.signatures []
          (record { has_journal = j; repo_is = refl; signed = refl; holds = h }) d f.1 t in
      up_stores m w (record (reconciles m ws p) { repo = r }) (windows ws) q status whole
        s.has_journal s.holds (subst (λ t. IsFresh m t w) (sym s.signed) f.0) g a e

-- ===== src/Meeting/Journal/Replay.antt =====
-- src/sona/meeting/recovery.py, `replay_meeting`: what a replay does to the repository.
use voice_realtime.Prelude.{
  ◌≡◌, refl, sym, ap, ◌∙◌, ℕ, false, List, [], ◌∷◌, Option, none, some, length, subst,
  if◌then◌else◌, ◌⊎◌, inl, inr,
}
use voice_realtime.Prelude.Text.{Text}
use voice_realtime.Meeting.Journal.{
  Status, TranscriptWindow, Change, reconcile_window, repository_failed, Envelope, Result, ok,
  raise, Files, Json, read, read_lines, text_of, splitlines, split_all, with_line, discard,
  is_final, Repository, replay_change, replay_one, replay_all, replayed, replay_record, replay_read,
  replay_file, replay_meeting,
}
use voice_realtime.Meeting.Journal.Splits.{IsEnded}
use voice_realtime.Meeting.Journal.Append.{changes, AllOf, Holds, put-same}

module _ {R : Type 0} (repository : Repository R) where
  unfoldable pub and_then : (R → Result R) → Result R → Result R
  and_then f (ok p) = f p
  and_then f (raise x) = raise x

  -- The changes one after the other, while none raises.
  unfoldable pub apply_all : ℕ → List Change → R → Result R
  apply_all m [] r = ok r
  apply_all m (c ∷ cs) r = and_then (λ p. apply_all m cs p) (replay_change repository m c r)

  pub and_then-ok :
      (f : R → Result R) (x : Result R) (q : R)
      → and_then f x ≡ ok q
      → (p : R) × (x ≡ ok p) × (f p ≡ ok q)
  unfolding and_then
  and_then-ok f (ok p) q e = (p, refl, e)
  and_then-ok f (raise x) q e = absurd (cc)

  same_ok : {r q : R} → ok r ≡ ok q → r ≡ q
  same_ok e = cc

  replay_all-next :
      (e : Envelope) (es : List Envelope) (r p : R)
      → replay_one repository e r ≡ ok p
      → replay_all repository (e ∷ es) r ≡ replay_all repository es p
  unfolding replay_all
  replay_all-next e es r p h = rw (h, replay_all) refl

  replay_one-change :
      (e : Envelope) (m : ℕ) (r : R)
      → e.meeting_id ≡ m
      → replay_one repository e r ≡ replay_change repository m e.change r
  unfolding replay_one
  replay_one-change e m r h = ap (λ k. replay_change repository k e.change r) h

  replay_all-apply_all :
      (m : ℕ) (es : List Envelope) (r q : R)
      → AllOf m es
      → apply_all m (changes es) r ≡ ok q
      → replay_all repository es r ≡ (ok tt, q)
  unfolding replay_all apply_all
  replay_all-apply_all m [] r q a e = ap (λ x. (ok tt, x)) (same_ok e)
  replay_all-apply_all m (x ∷ es) r q a e =
      let (p, at, rest) =
        and_then-ok (λ p. apply_all m (changes es) p) (replay_change repository m x.change r) q e in
      replay_all-next x es r p (replay_one-change x m r a.0 ∙ at)
      ∙ replay_all-apply_all m es p q a.1 rest

  -- The database is down: each call for the meeting raises.
  pub record IsDown (m : ℕ) (r : R) : Type 0 where
    pub unread : repository.get_meeting m r ≡ raise repository_failed
    pub refused : (c : Change) → repository.apply m c r ≡ raise repository_failed

  pub replay_change-window :
      (m : ℕ) (w : TranscriptWindow) (r : R)
      → replay_change repository m (reconcile_window w) r
        ≡ repository.apply m (reconcile_window w) r
  unfolding replay_change
  replay_change-window m w r = refl

module _ {R : Type 0} (json : Json) (repository : Repository R) where
  discarded-Holds : (m : ℕ) (files : Files) → Holds json m (discard m files) []
  unfolding discard read text_of read_lines splitlines split_all with_line
  discarded-Holds m files = record {
    envelopes = [];
    readable = ap (λ u. read json m (text_of u)) (put-same m none files);
    ordered = refl;
    own = tt;
    ended =
        subst (λ u. IsEnded (text_of u)) (sym (put-same m none files))
          (record { at_end = refl; no_cr = refl });
  }

  record Replayed (m : ℕ) (u : Option Text) (files : Files) (r q : R) : Type 0 where
    pub count : ℕ
    pub new : Files
    pub result : replay_file json repository m files r u ≡ (ok count, new, q)
    pub emptied : Holds json m new []

  none-Replayed :
      (m : ℕ) (files : Files) (cs : List Change) (r q : R) (es : List Envelope)
      → Holds json m files cs
      → read json m [] ≡ ok es
      → changes es ≡ cs
      → apply_all repository m cs r ≡ ok q
      → Replayed m none files r q
  unfolding replay_file read read_lines apply_all splitlines split_all with_line
  none-Replayed m files cs r q [] h t o e = record {
    count = 0;
    new = files;
    result =
        ap (λ x. (ok 0, files, x))
          (same_ok repository (ap (λ l. apply_all repository m l r) o ∙ e));
    emptied = subst (Holds json m files) (sym o) h;
  }
  none-Replayed m files cs r q (x ∷ es) h t o e = absurd (cc)

  some-Replayed :
      (m : ℕ) (files : Files) (text : Text) (es : List Envelope) (r q : R) (status : Option Status)
      → read json m text ≡ ok es
      → AllOf m es
      → repository.get_meeting m r ≡ ok status
      → is_final status ≡ false
      → apply_all repository m (changes es) r ≡ ok q
      → Replayed m (some text) files r q
  unfolding replay_file replay_read replay_record replayed
  some-Replayed m files text es r q status t a g f e = record {
    count = length es;
    new = discard m files;
    result =
        ap (replay_read repository m files r) t
        ∙ ap (replay_record repository m files es r) g
        ∙ ap
            (λ b.
              if b
              then (ok (length es), discard m files, r)
              else replayed repository m files (length es) (replay_all repository es r))
            f
        ∙ ap (replayed repository m files (length es))
            (replay_all-apply_all repository m es r q a e);
    emptied = discarded-Holds m files;
  }

  -- A replay by a repository that takes every change of the journal, for a meeting that is not
  -- over, applies them all in their order and leaves the meeting's journal empty.
  pub replay_meeting-Holds :
      (m : ℕ) (files : Files) (cs : List Change) (r q : R) (status : Option Status)
      → Holds json m files cs
      → repository.get_meeting m r ≡ ok status
      → is_final status ≡ false
      → apply_all repository m cs r ≡ ok q
      → (n : ℕ) × (new : Files) × (replay_meeting json repository m files r ≡ (ok n, new, q))
        × Holds json m new []
  unfolding replay_meeting text_of
  replay_meeting-Holds m files cs r q status h g f e =
      let v = by_file (files m) refl in (v.count, v.new, v.result, v.emptied)
    where
      by_file : (u : Option Text) → files m ≡ u → Replayed m u files r q
      by_file none at =
          none-Replayed m files cs r q h.envelopes h
            (sym (ap (λ l. read json m (text_of l)) at) ∙ h.readable) h.ordered e
      by_file (some t) at =
          some-Replayed m files t h.envelopes r q status
            (sym (ap (λ l. read json m (text_of l)) at) ∙ h.readable) h.own g f
            (ap (λ l. apply_all repository m l r) h.ordered ∙ e)

  pub down_replays :
      (m : ℕ) (files : Files) (cs : List Change) (r : R)
      → Holds json m files cs
      → IsDown repository m r
      → (replay_meeting json repository m files r ≡ (ok 0, files, r))
        ⊎ (replay_meeting json repository m files r ≡ (raise repository_failed, files, r))
  unfolding replay_meeting replay_file replay_read replay_record text_of
  down_replays m files cs r h d = by_file (files m) h.readable
    where
      by_file :
          (u : Option Text)
          → read json m (text_of u) ≡ ok h.envelopes
          → (replay_file json repository m files r u ≡ (ok 0, files, r))
            ⊎ (replay_file json repository m files r u ≡ (raise repository_failed, files, r))
      by_file none e = inl (ap (λ x. x) refl)
      by_file (some t) e = inr (
          ap (replay_read repository m files r) e
          ∙ ap (replay_record repository m files h.envelopes r) d.unread)

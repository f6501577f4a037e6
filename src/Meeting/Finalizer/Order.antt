-- ===== src/Meeting/Finalizer/Order.antt =====
-- src/sona/meeting/finalization.py: the calls that `finalize` makes, and their order.
use voice_realtime.Prelude.{
  ◌≢◌, if_cases, ◌≡◌, refl, sym, ap, subst, ℕ, ◌≤◌, Bool, true, false, Option, none, some, List, [],
  ◌∷◌, arith, if◌then◌else◌, map,
}
use voice_realtime.Prelude.Text.{Text}
use voice_realtime.Meeting.Journal.{Segment, Status, completed, interrupted, TranscriptWindow}
use voice_realtime.Meeting.Overlay.{Span, Mapping, assign_speakers_by_overlap}
use voice_realtime.Meeting.Finalizer.{
  Result, ok, raise, cancelled, Finish, finished, timed_out, failed, dropped, Call, finish_capture,
  abort_capture, reconcile_final, finish_overlay, get_transcript, reconcile_corrected,
  apply_remapping, create_minutes, finalize_with, Ports, Finalizer, Finalized, next, ◌>>◌, pure,
  noted, call, rescue, timed, is_same, corrected_window, status_for, write_corrected, correct,
  with_segments, with_spans, apply_diarization_overlay, reconcile_window, remap_keys,
  remap_speakers, keep_record, conclude, close_capture, finalize_window, clean_up, clean_up_if_open,
  finished_by, finalize,
}
use voice_realtime.Meeting.Finalizer.Steps.{
  At, Post, next-Post, branch-Post, noted-At, At-weaken, weaken-Post, call-Post, tried-Post,
  called-Post, rank, IsOrdered,
}

-- The capture was closed, the record is kept, and the calls, which end the capture first, were made in
-- their order, each at most once: the last ones sealed the transcript with a status and created
-- the minutes.
pub record Sealed {W : Type 0} (status : Status) (late : Bool) (window : Option TranscriptWindow)
    (r : Finalized) (s : Finalizer W) : Type 0 where
  pub at : At 8 s
  pub record_is : s.finalized_record ≡ some r.record_
  pub late_is : r.is_timed_out ≡ late
  pub window_is : r.final_window ≡ window
  pub earlier : List Call
  pub calls_are : s.calls ≡ create_minutes ∷ finalize_with status ∷ earlier

-- The capture was aborted after it could not be finished, nothing else was done, and there is no
-- result.
pub record GivenUp {W : Type 0} (p : Result Finalized × Finalizer W) : Type 0 where
  pub calls_are : p.1.calls ≡ abort_capture ∷ finish_capture ∷ []
  pub unreturned : (r : Finalized) → p.0 ≢ ok r

-- What `finalize` does, by how the capture ends.
unfoldable pub Ends : {W : Type 0} → Finish → Result Finalized × Finalizer W → Type 0
Ends (finished window) p = Post (Sealed completed false window) (At 8) p
Ends (timed_out window) p = Post (Sealed interrupted true window) (At 8) p
Ends failed p = GivenUp p
Ends dropped p = GivenUp p

module _ {W : Type 0} (ports : Ports W) where
  pure-At :
      {A : Type 0} (n m : ℕ) (a : A) (s : Finalizer W)
      → n ≤ m
      → At n s
      → Post (λ _. At m) (At 8) (pure a s)
  pure-At n m a s h x = record { after = At-weaken n m s h x }

  reconcile-Post :
      (window : Option TranscriptWindow) (s : Finalizer W)
      → At 1 s
      → Post (λ _. At 2) (At 8) (reconcile_window ports window s)
  unfolding reconcile_window rank
  reconcile-Post none s a = pure-At 1 2 tt s (omega arith) a
  reconcile-Post (some w) s a =
      called-Post 1 reconcile_final (ports.reconcile w) (λ _. pure tt) s (omega arith) (omega arith)
        a (λ b t q. record { after = q })

  write-Post :
      (b : Bool) (w : TranscriptWindow) (s : Finalizer W)
      → At 4 s
      → Post (λ _. At 5) (At 8) ((if b then pure tt else write_corrected ports w) s)
  unfolding write_corrected rank
  write-Post true w s a = pure-At 4 5 tt s (omega arith) a
  write-Post false w s a =
      tried-Post 4 reconcile_corrected (ports.reconcile w) false (λ _. pure tt) s (omega arith)
        (omega arith) a (λ b t q. record { after = q })

  correct-Post :
      (segments : List Segment) (m : Mapping) (s : Finalizer W)
      → At 4 s
      → Post (λ _. At 5) (At 8) (correct ports segments m s)
  unfolding correct write_corrected rank
  correct-Post segments [] s a = pure-At 4 5 tt s (omega arith) a
  correct-Post segments (p ∷ m) s a =
      write-Post (is_same (p ∷ m) segments) (corrected_window (p ∷ m) segments) s a

  spans-Post :
      (spans : List Span) (s : Finalizer W)
      → At 3 s
      → Post (λ _. At 5) (At 8) (with_spans ports spans s)
  unfolding with_spans with_segments rank
  spans-Post [] s a = pure-At 3 5 tt s (omega arith) a
  spans-Post (p ∷ r) s a =
      tried-Post 3 get_transcript ports.transcript [] _ s (omega arith) (omega arith) a
        (λ segments t q.
          correct-Post segments (assign_speakers_by_overlap (map timed segments) (p ∷ r)) t q)

  overlay-Post :
      (s : Finalizer W) → At 2 s → Post (λ _. At 5) (At 8) (apply_diarization_overlay ports s)
  unfolding apply_diarization_overlay rank
  overlay-Post s a =
      branch-Post s.has_overlay _ _
        (λ e.
          tried-Post 2 finish_overlay ports.overlay [] (with_spans ports) s (omega arith)
            (omega arith) a (λ spans t q. spans-Post spans t q))
        (λ e. pure-At 2 5 tt s (omega arith) a)

  remap_keys-Post :
      (keys : List (Text × Text)) (s : Finalizer W)
      → At 5 s
      → Post (λ _. At 6) (At 8) (remap_keys ports keys s)
  unfolding remap_keys rank
  remap_keys-Post [] s a = pure-At 5 6 tt s (omega arith) a
  remap_keys-Post (p ∷ r) s a =
      weaken-Post (call apply_remapping (ports.remap (p ∷ r)) s)
        (call-Post 5 apply_remapping (ports.remap (p ∷ r)) s (omega arith) a) (λ x t q. q)
        (λ t q. At-weaken 6 8 t (omega arith) q)

  remap-Post :
      (window : Option TranscriptWindow) (s : Finalizer W)
      → At 5 s
      → Post (λ _. At 6) (At 8) (remap_speakers ports window s)
  unfolding remap_speakers
  remap-Post none s a = pure-At 5 6 tt s (omega arith) a
  remap-Post (some w) s a = remap_keys-Post w.speaker_remap s a

  minutes-Sealed :
      (late : Bool) (window : Option TranscriptWindow) (r : ℕ) (x : Result ℕ) (t : Finalizer W)
      (q : List Call)
      → At 8 t
      → t.finalized_record ≡ some r
      → t.calls ≡ create_minutes ∷ finalize_with (status_for late) ∷ q
      → Post (Sealed (status_for late) late window) (At 8) (
          next
            (x, t)
            (λ m.
              pure
                (record { record_ = r; minutes = m; final_window = window; is_timed_out = late })))
  unfolding next
  minutes-Sealed late window r (ok m) t q a e f = record {
    after = record {
      at = a;
      record_is = e;
      late_is = refl;
      window_is = refl;
      earlier = q;
      calls_are = f;
    };
  }
  minutes-Sealed late window r raise t q a e f = record { after = a }
  minutes-Sealed late window r cancelled t q a e f = record { after = a }

  -- What is kept once the transcript is sealed.
  conclude-Sealed :
      (late : Bool) (window : Option TranscriptWindow) (r : ℕ) (s : Finalizer W) (q : List Call)
      → At 7 s
      → s.calls ≡ finalize_with (status_for late) ∷ q
      → Post (Sealed (status_for late) late window) (At 8) (conclude ports late window r s)
  unfolding conclude keep_record next call noted rank
  conclude-Sealed late window r s q a e =
      minutes-Sealed late window r (ports.minutes s.world).0
        (noted create_minutes (ports.minutes s.world).1 (record s { finalized_record = some r })) q
        (noted-At 7 create_minutes (ports.minutes s.world).1
          (record s { finalized_record = some r }) (omega arith)
          (record { closed_is = a.closed_is; ordered = a.ordered; started = a.started }))
        refl (ap (λ l. create_minutes ∷ l) e)

  seal-Sealed :
      (late : Bool) (window : Option TranscriptWindow) (x : Result ℕ) (t : Finalizer W)
      (q : List Call)
      → At 7 t
      → t.calls ≡ finalize_with (status_for late) ∷ q
      → Post
          (Sealed (status_for late) late window)
          (At 8)
          (next (x, t) (conclude ports late window))
  unfolding next
  seal-Sealed late window (ok r) t q a e = conclude-Sealed late window r t q a e
  seal-Sealed late window raise t q a e = record { after = At-weaken 7 8 t (omega arith) a }
  seal-Sealed late window cancelled t q a e = record { after = At-weaken 7 8 t (omega arith) a }

  window-Sealed :
      (late : Bool) (window : Option TranscriptWindow) (s : Finalizer W)
      → s.calls ≡ finish_capture ∷ []
      → Post (Sealed (status_for late) late window) (At 8) (finalize_window ports late window s)
  unfolding finalize_window close_capture next call noted rank IsOrdered
  window-Sealed late window s f =
      next-Post (reconcile_window ports window (record s { capture_closed = true })) _
        (reconcile-Post window (record s { capture_closed = true })
          (record {
            closed_is = refl;
            ordered = subst (IsOrdered 1) (sym f) (omega arith, tt);
            started = ([], f);
          }))
        λ a t q. next-Post (apply_diarization_overlay ports t) _ (overlay-Post t q) λ b u r.
          next-Post (remap_speakers ports window u) _ (remap-Post window u r) λ c v x.
            seal-Sealed late window (ports.seal (status_for late) v.world).0
              (noted (finalize_with (status_for late)) (ports.seal (status_for late) v.world).1 v)
              v.calls
              (noted-At 6 (finalize_with (status_for late)) (ports.seal (status_for late) v.world).1
                v (omega arith) x)
              refl

  ended-GivenUp :
      (x : Result Finalized) (y : Result (Unit {0})) (s : Finalizer W)
      → ((r : Finalized) → x ≢ ok r)
      → s.calls ≡ abort_capture ∷ finish_capture ∷ []
      → GivenUp (next (rescue (y, s) tt) (λ u. close_capture ports >> (λ t. (x, t))))
  unfolding next rescue close_capture
  ended-GivenUp x (ok u) s h f = record { calls_are = f; unreturned = h }
  ended-GivenUp x raise s h f = record { calls_are = f; unreturned = h }
  ended-GivenUp x cancelled s h f = record { calls_are = f; unreturned = λ r e. cc }

  -- However the cleanup ends, the capture was aborted once, and nothing else was done.
  clean_up-GivenUp :
      (x : Result Finalized) (s : Finalizer W)
      → ((r : Finalized) → x ≢ ok r)
      → s.capture_closed ≡ false
      → s.calls ≡ finish_capture ∷ []
      → GivenUp (clean_up_if_open ports x s)
  unfolding clean_up_if_open clean_up close_capture next call noted
  clean_up-GivenUp x s h e f =
      if_cases GivenUp s.capture_closed (λ g. absurd (cc (e, g)))
        (λ g.
          ended-GivenUp x (ports.abort s.world).0 (noted abort_capture (ports.abort s.world).1 s) h
            (ap (λ l. abort_capture ∷ l) f))

  finished-Ends :
      (x : Finish) (s : Finalizer W)
      → s.capture_closed ≡ false
      → s.calls ≡ finish_capture ∷ []
      → Ends x (finished_by ports x s)
  unfolding finished_by Ends status_for
  finished-Ends (finished window) s e f = window-Sealed false window s f
  finished-Ends (timed_out window) s e f = window-Sealed true window s f
  finished-Ends failed s e f = clean_up-GivenUp raise s (λ r h. cc) e f
  finished-Ends dropped s e f = clean_up-GivenUp cancelled s (λ r h. cc) e f

  -- A finalizer that has made no call finishes the capture first. When the capture ends, late or
  -- not, it makes its calls in their order, each at most once, with the capture closed; if it
  -- returns, the result has the capture's last window and says whether it was late, the record is
  -- kept, and the last calls sealed the transcript, as interrupted if the capture timed out and
  -- completed if not, and created the minutes. When the capture cannot be finished, it is aborted,
  -- no other call is made, and nothing is returned.
  pub finalize-Sealed :
      (s : Finalizer W)
      → s.capture_closed ≡ false
      → s.calls ≡ []
      → Ends (ports.finish s.world).0 (finalize ports s)
  unfolding finalize noted
  finalize-Sealed s e f =
      finished-Ends (ports.finish s.world).0 (noted finish_capture (ports.finish s.world).1 s) e
        (ap (λ l. finish_capture ∷ l) f)

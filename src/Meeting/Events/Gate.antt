-- ===== src/Meeting/Events/Gate.antt =====
-- src/sona/meeting/events.py, `_accept_revision_event`: which events pass the gate on revisions.
use voice_realtime.Prelude.{
  ◌≡◌, ◌≢◌, refl, sym, ap, ◌∙◌, ℕ, ◌+◌, ◌≤◌, false, Option, none, some, arith, subst, if◌then◌else◌,
  ◌↔◌,
}
use voice_realtime.Meeting.Events.{
  EventType, Payload, Event, Cursor, Cursors, incoming, Verdict, fine, stale, gap, judge, join,
  pass, decide, gate, accept_payload, is_snapshot, accept, seed,
}

-- A revision is at the last one seen or the one behind it, if both are known.
pub InStep : Option ℕ → Option ℕ → Type 0
InStep none previous = Unit {0}
InStep (some v) none = Unit {0}
InStep (some v) (some n) = (n ≤ v) × (v ≤ n + 1)

judge-InStep : (v n : Option ℕ) → (judge v n ≡ fine) ↔ InStep v n
unfolding judge InStep
judge-InStep none n = ((λ e. tt), (λ t. refl))
judge-InStep (some v) none = ((λ e. tt), (λ t. refl))
judge-InStep (some v) (some n) = ((λ e. (ground arith, ground arith)), (λ (a, b). ground arith))

join-fine : (v w : Verdict) → (join v w ≡ fine) ↔ ((v ≡ fine) × (w ≡ fine))
unfolding join
join-fine fine w = ((λ e. (refl, e)), (λ (a, b). b))
join-fine (gap n) w = ((λ e. absurd (cc)), (λ (a, b). absurd (cc)))
join-fine stale fine = ((λ e. absurd (cc)), (λ (a, b). absurd (cc)))
join-fine stale stale = ((λ e. absurd (cc)), (λ (a, b). absurd (cc)))
join-fine stale (gap n) = ((λ e. absurd (cc)), (λ (a, b). absurd (cc)))

decide-pass :
    (m : ℕ) (i : Cursor) (s : Cursors) (v : Verdict) → ((decide m i s v).0 ≡ pass) ↔ (v ≡ fine)
unfolding decide
decide-pass m i s fine = ((λ e. refl), (λ e. refl))
decide-pass m i s stale = ((λ e. absurd (cc)), (λ e. absurd (cc)))
decide-pass m i s (gap n) = ((λ e. absurd (cc)), (λ e. absurd (cc)))

decide-keeps :
    (m : ℕ) (i : Cursor) (s : Cursors) (v : Verdict)
    → (decide m i s v).0 ≢ pass
    → (decide m i s v).1 ≡ s
unfolding decide
decide-keeps m i s fine h = absurd (h refl)
decide-keeps m i s stale h = refl
decide-keeps m i s (gap n) h = refl

gated : (t : EventType) (p : Payload) (i : Cursor) → incoming t p ≡ some i → is_snapshot t ≡ false
unfolding incoming is_snapshot
gated t p i b = ground arith

-- A gated event is not a snapshot.
accept-decide :
    (e : Event) (p : Payload) (i : Cursor) (s : Cursors)
    → e.payload ≡ some p
    → incoming e.type_ p ≡ some i
    → accept e s
      ≡ decide e.meeting_id i s (
          join
            (judge i.transcript (s e.meeting_id).transcript)
            (judge i.content (s e.meeting_id).content))
unfolding accept accept_payload gate
accept-decide e p i s a b =
    ap (λ t. if t then (pass, seed e.meeting_id e.payload s) else accept_payload e e.payload s)
      (gated e.type_ p i b)
    ∙ ap (λ l. accept_payload e l s) a
    ∙ ap (λ l. gate e.meeting_id l s) b

-- An event that carries revisions passes the gate exactly when each of them is the last one that
-- was seen of its meeting or the next; one that does not pass leaves the cursors as they are.
pub accept-InStep :
    (e : Event) (p : Payload) (i : Cursor) (s : Cursors)
    → e.payload ≡ some p
    → incoming e.type_ p ≡ some i
    → (((accept e s).0 ≡ pass) ↔ (
        InStep i.transcript (s e.meeting_id).transcript
        × InStep i.content (s e.meeting_id).content))
      × ((accept e s).0 ≢ pass → (accept e s).1 ≡ s)
accept-InStep e p i s a b =
    subst
      (λ d.
        ((d.0 ≡ pass) ↔ (
          InStep i.transcript (s e.meeting_id).transcript
          × InStep i.content (s e.meeting_id).content))
        × (d.0 ≢ pass → d.1 ≡ s))
      (sym (accept-decide e p i s a b))
      (
        (
          (λ t.
              let (x, y) = (join-fine first second).0 ((decide-pass e.meeting_id i s both).0 t) in
              (
                (judge-InStep i.transcript (s e.meeting_id).transcript).0 x,
                (judge-InStep i.content (s e.meeting_id).content).0 y,
              )),
          (λ (x, y). (decide-pass e.meeting_id i s both).1 (
              (join-fine first second).1 (
                (judge-InStep i.transcript (s e.meeting_id).transcript).1 x,
                (judge-InStep i.content (s e.meeting_id).content).1 y,
              ))),
        ),
        decide-keeps e.meeting_id i s both,
      )
  where
    first : Verdict
    first = judge i.transcript (s e.meeting_id).transcript

    second : Verdict
    second = judge i.content (s e.meeting_id).content

    both : Verdict
    both = join first second

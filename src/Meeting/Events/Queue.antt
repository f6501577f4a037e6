-- ===== src/Meeting/Events/Queue.antt =====
-- src/sona/meeting/events.py, `_enqueue`: what a slow client is told.
use voice_realtime.Prelude.{
  ◌≡◌, refl, sym, ap, ◌∙◌, ◌≤◌, ◌<◌, true, not, List, [], ◌∷◌, ◌++◌, append_assoc, append-nil, ltb,
  arith, if_cases, subst, length, length-append, if◌then◌else◌, ◌⊎◌, inl, inr,
}
use voice_realtime.Meeting.Events.{
  EventType, resync_required, Event, is_durable, is_resync, resync, expected_of, Client, enqueue,
}

unfoldable pub enqueues : List Event → Client → Client
enqueues [] c = c
enqueues (e ∷ es) c = enqueues es (enqueue e c)

abbrev pub AllDurable : List Event → Type 0
AllDurable [] = Unit {0}
AllDurable (e ∷ es) = (is_durable e.type_ ≡ true) × AllDurable es

-- Everything is behind what was queued, or the queue is a recovery event and what came after it.
pub data Told (es q : List Event) : List Event → Type 0 where
  all_kept : Told es q (q ++ es)
  resynced :
      (lost kept : List Event) (r : Event)
      → es ≡ lost ++ kept
      → r.type_ ≡ resync_required
      → Told es q (r ∷ kept)

-- One durable event: room, or one recovery event in the place of the queue.
record Enqueued (e : Event) (c d : Client) : Type 0 where
  same_bound : d.maxsize ≡ c.maxsize
  fits : length d.queue ≤ d.maxsize
  told :
      (d.queue ≡ c.queue ++ e ∷ [])
      ⊎ ((r : Event) × (r.type_ ≡ resync_required) × (d.queue ≡ r ∷ []))

is_resync-required : (t : EventType) → is_resync t ≡ true → t ≡ resync_required
unfolding is_resync
is_resync-required t e = ground arith

enqueue-Enqueued :
    (e : Event) (c : Client)
    → is_durable e.type_ ≡ true
    → 0 < c.maxsize
    → Enqueued e c (enqueue e c)
unfolding enqueue resync
enqueue-Enqueued e c d b =
    if_cases (λ (u : Client). Enqueued e c u) (ltb (length c.queue) c.maxsize)
      (λ room. record {
        same_bound = refl;
        told = inl refl;
        fits = ground (arith, length-append {0} c.queue (e ∷ []));
      })
      (λ full.
        subst
          (λ t. Enqueued e c (
            if not t
            then c
            else if is_resync e.type_
            then record c { queue = e ∷ [] }
            else record c { queue = resync e.meeting_id (expected_of e.payload) ∷ [] }))
          (sym d)
          (if_cases (λ (u : Client). Enqueued e c u) (is_resync e.type_)
            (λ t. record {
              same_bound = refl;
              fits = omega arith;
              told = inr (e, is_resync-required e.type_ t, refl);
            })
            (λ t. record {
              same_bound = refl;
              fits = omega arith;
              told = inr (resync e.meeting_id (expected_of e.payload), refl, refl);
            })))

Told-room :
    (e : Event) (es q d final : List Event)
    → d ≡ q ++ e ∷ []
    → Told es d final
    → Told (e ∷ es) q final
Told-room e es q d final h all_kept =
    subst (Told (e ∷ es) q) (sym (append_assoc q (e ∷ []) es) ∙ ap (λ l. l ++ es) (sym h)) all_kept
Told-room e es q d final h (resynced lost kept r a b) =
    resynced (e ∷ lost) kept r (ap (λ l. e ∷ l) a) b

Told-full :
    (e r : Event) (es q d final : List Event)
    → r.type_ ≡ resync_required
    → d ≡ r ∷ []
    → Told es d final
    → Told (e ∷ es) q final
Told-full e r es q d final t h all_kept =
    subst (Told (e ∷ es) q) (ap (λ l. l ++ es) (sym h)) (resynced (e ∷ []) es r refl t)
Told-full e r es q d final t h (resynced lost kept s a b) =
    resynced (e ∷ lost) kept s (ap (λ l. e ∷ l) a) b

-- However slow a client is, durable events are queued for it in order, behind a recovery event if
-- any was lost: it never misses one without being told. Its queue keeps its bound.
pub enqueues-Told :
    (es : List Event) (c : Client)
    → AllDurable es
    → 0 < c.maxsize
    → length c.queue ≤ c.maxsize
    → Told es c.queue (enqueues es c).queue × (length (enqueues es c).queue ≤ c.maxsize)
unfolding enqueues
enqueues-Told [] c d b f = (subst (Told [] c.queue) (append-nil c.queue) all_kept, f)
enqueues-Told (e ∷ es) c d b f =
    let v = enqueue-Enqueued e c d.0 b in
    let (told, bound) =
      enqueues-Told es (enqueue e c) d.1 (subst (λ n. 0 < n) (sym v.same_bound) b) v.fits in
    (
      elim v.told [
        | inl h ↦
            Told-room e es c.queue (enqueue e c).queue (enqueues es (enqueue e c)).queue h told
        | inr (r, t, h) ↦
            Told-full e r es c.queue (enqueue e c).queue (enqueues es (enqueue e c)).queue t h told
      ],
      subst (λ n. length (enqueues es (enqueue e c)).queue ≤ n) v.same_bound bound,
    )

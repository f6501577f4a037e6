-- ===== src/Audio/Frames.antt =====
-- The bounded queue of src/sona/audio (hub.py, router.py and source.py): a full asyncio.Queue
-- gives up its oldest entry before the new one is put, and the loss is counted.
use voice_realtime.Prelude.{
  ◌≡◌, refl, sym, ap, ◌∙◌, ◌⊎◌, ℕ-cases, All, All-append, if_cases, inl, inr, ℕ, suc, ◌+◌, ◌≤◌, ◌<◌,
  List, [], ◌∷◌, ◌++◌, leb, arith, if◌then◌else◌, length, length-append, append_assoc, append-nil,
  Bool-cases,
}

pub record Backlog {ℓ} (A : Type ℓ) : Type ℓ where
  pub queue : List A
  pub dropped : ℕ

module _ {ℓ} {A : Type ℓ} where
  pub behead : List A → List A
  behead [] = []
  behead (x ∷ xs) = xs

  -- `if queue.full(): queue.get_nowait(); dropped += 1`, then `queue.put_nowait(x)`.
  unfoldable pub offer : ℕ → A → Backlog A → Backlog A
  unfolding behead
  offer maxsize x b =
      if leb maxsize (length b.queue)
      then record { queue = behead b.queue ++ x ∷ []; dropped = b.dropped + 1 }
      else record b { queue = b.queue ++ x ∷ [] }

  unfoldable pub offers : ℕ → List A → Backlog A → Backlog A
  offers maxsize [] b = b
  offers maxsize (x ∷ xs) b = offers maxsize xs (offer maxsize x b)

  -- Everything that was offered is lost, oldest first and counted, or still queued in order; and
  -- something is lost only from a full queue.
  pub record Keeps (maxsize : ℕ) (b c : Backlog A) (offered : List A) : Type ℓ where
    pub lost : List A
    pub split : b.queue ++ offered ≡ lost ++ c.queue
    pub counted : c.dropped ≡ b.dropped + length lost
    pub bounded : length c.queue ≤ maxsize
    pub needed : 0 < length lost → length c.queue ≡ maxsize

  offer_room :
      (maxsize : ℕ) (x : A) (b : Backlog A)
      → length b.queue < maxsize
      → offer maxsize x b ≡ record b { queue = b.queue ++ x ∷ [] }
  unfolding offer
  offer_room maxsize x b h = ground arith

  offer_full :
      (maxsize : ℕ) (x y : A) (ys : List A) (b : Backlog A)
      → b.queue ≡ y ∷ ys
      → maxsize ≤ length b.queue
      → offer maxsize x b ≡ record { queue = ys ++ x ∷ []; dropped = b.dropped + 1 }
  unfolding offer behead
  offer_full maxsize x y ys b e h = ground arith

  List-cases : (xs : List A) → (xs ≡ []) ⊎ ((y : A) × (ys : List A) × (xs ≡ y ∷ ys))
  List-cases [] = inl refl
  List-cases (y ∷ ys) = inr (y, ys, refl)

  -- One offer, on the state that it reaches: room, or one entry lost from a full queue.
  pub Offered : ℕ → A → Backlog A → Backlog A → Type ℓ
  Offered maxsize x b c =
      ((c.queue ≡ b.queue ++ x ∷ []) × (c.dropped ≡ b.dropped) × (length b.queue < maxsize))
      ⊎ ((y : A) × (ys : List A) × (b.queue ≡ y ∷ ys)
          × (c.queue ≡ ys ++ x ∷ [])
          × (c.dropped ≡ b.dropped + 1)
          × (length b.queue ≡ maxsize))

  pub offer-Offered :
      (maxsize : ℕ) (x : A) (b : Backlog A)
      → 0 < maxsize
      → length b.queue ≤ maxsize
      → Offered maxsize x b (offer maxsize x b)
  unfolding Offered
  offer-Offered maxsize x b room h = elim (Bool-cases (leb maxsize (length b.queue))) [
    | inr e ↦ inl (rw (offer_room maxsize x b (ground arith)) (refl, refl, ground arith))
    | inl e ↦ elim (List-cases b.queue) [
      | inl none_queued ↦ absurd (ground arith)
      | inr (y, ys, q) ↦ inr (
        y,
        ys,
        q,
        ap (λ (c : Backlog A). c.queue) (offer_full maxsize x y ys b q (ground arith)),
        ap (λ (c : Backlog A). c.dropped) (offer_full maxsize x y ys b q (ground arith)),
        ground arith,
      )
    ]
  ]

  pub length-offer :
      (maxsize : ℕ) (x : A) (b : Backlog A)
      → 0 < maxsize
      → length b.queue ≤ maxsize
      → length (offer maxsize x b).queue ≤ maxsize
  unfolding Offered
  length-offer maxsize x b room h = elim (offer-Offered maxsize x b room h) [
    | inl (q, _, r) ↦ rw q (omega (arith, length-append b.queue (x ∷ [])))
    | inr (y, ys, e, q, _, n) ↦ rw q (omega (arith, length-append ys (x ∷ []), ap length e))
  ]

  pub offers-Keeps :
      (maxsize : ℕ) (xs : List A) (b : Backlog A)
      → 0 < maxsize
      → length b.queue ≤ maxsize
      → Keeps maxsize b (offers maxsize xs b) xs
  unfolding offers Offered
  offers-Keeps maxsize [] b room h = record {
    lost = [];
    split = append-nil b.queue;
    counted = omega arith;
    bounded = h;
    needed = λ k. omega arith;
  }
  offers-Keeps maxsize (x ∷ xs) b room h =
      let ih = offers-Keeps maxsize xs (offer maxsize x b) room (length-offer maxsize x b room h) in
      elim (offer-Offered maxsize x b room h) [
        | inl (q, d, r) ↦ record {
          lost = ih.lost;
          split = sym (append_assoc b.queue (x ∷ []) xs) ∙ ap (λ l. l ++ xs) (sym q) ∙ ih.split;
          counted = omega (arith, ih.counted);
          bounded = ih.bounded;
          needed = ih.needed;
        }
        | inr (y, ys, e, q, d, n) ↦ record {
          lost = y ∷ ih.lost;
          split =
              ap (λ l. l ++ x ∷ xs) e
              ∙ ap (λ l. y ∷ l)
                  (sym (append_assoc ys (x ∷ []) xs) ∙ ap (λ l. l ++ xs) (sym q) ∙ ih.split);
          counted = omega (arith, ih.counted);
          bounded = ih.bounded;
          needed =
              λ k. still_full ih ys (length-append {ℓ} ys (x ∷ [])) (ap length q) (ap length e) n;
        }
      ]
    where
      still_full :
          Keeps maxsize (offer maxsize x b) (offers maxsize xs (offer maxsize x b)) xs
          → (ys : List A) → length (ys ++ x ∷ []) ≡ length ys + 1
          → length (offer maxsize x b).queue ≡ length (ys ++ x ∷ [])
          → length b.queue ≡ suc (length ys)
          → length b.queue ≡ maxsize
          → length (offers maxsize xs (offer maxsize x b)).queue ≡ maxsize
      still_full ih ys p q e n = elim (ℕ-cases (length ih.lost)) [
        | inr (m, some_lost) ↦ ih.needed (omega arith)
        | inl none_lost ↦ omega (
          arith,
          ih.bounded,
          ap length ih.split,
          length-append {ℓ} (offer maxsize x b).queue xs,
          length-append {ℓ} ih.lost (offers maxsize xs (offer maxsize x b)).queue,
        )
      ]

  behead-All : (P : A → Type 0) (xs : List A) → All P xs → All P (behead xs)
  unfolding behead
  behead-All P [] h = tt
  behead-All P (x ∷ xs) h = h.1

  pub offer-All :
      (P : A → Type 0) (maxsize : ℕ) (x : A) (b : Backlog A)
      → P x
      → All P b.queue
      → All P (offer maxsize x b).queue
  unfolding offer
  offer-All P maxsize x b p h =
      if_cases (λ (c : Backlog A). All P c.queue) (leb maxsize (length b.queue))
        (λ _. All-append P (behead b.queue) (x ∷ []) (behead-All P b.queue h) (p, tt))
        (λ _. All-append P b.queue (x ∷ []) h (p, tt))

-- ===== src/Cache/Order.antt =====
-- src/sona/meeting/inner_os/cache.py: which items `put` keeps, and in which order.
use mathlib.Core.Logic.{ite, if_pos, if_neg}
use voice_realtime.Prelude.{
  ◌≡◌, ◌≢◌, refl, sym, ap, ◌∙◌, subst, inl, inr, ℕ, ◌≤◌, true, some, List, [], ◌∷◌, ◌++◌, leb,
  if◌then◌else◌, All-suffix, Bool-cases, Option-cases, append_assoc,
}
use voice_realtime.Cache.{Item, Cache, find, remove, pop, sweep, remove_expired, put, new_item}
use voice_realtime.Cache.Valid.{Absent, Distinct, IsValid, find-Absent, remove-Distinct}
use voice_realtime.Cache.Bounds.{ready, remove_expired-IsValid, IsNeeded, put-Puts}

module _ {K V : Type 0} where
  -- The items that expire later than `now`.
  unfoldable pub alive : ℕ → List (Item K V) → List (Item K V)
  alive now [] = []
  alive now (x ∷ xs) = if leb x.expires_at now then alive now xs else x ∷ alive now xs

module _ {K V : Type 0} (dec : Discrete K) where
  -- The items of the other keys.
  unfoldable pub without : K → List (Item K V) → List (Item K V)
  without k [] = []
  without k (x ∷ xs) = ite (dec x.key k) (without k xs) (x ∷ without k xs)

  remove-Absent : (k : K) (xs : List (Item K V)) → Absent k xs → remove dec k xs ≡ xs
  unfolding remove
  remove-Absent k [] a = refl
  remove-Absent k (x ∷ xs) a =
      if_neg (dec x.key k) a.0 _ _ ∙ ap (λ l. x ∷ l) (remove-Absent k xs a.1)

  without-Absent : (k : K) (xs : List (Item K V)) → Absent k xs → without k xs ≡ xs
  unfolding without
  without-Absent k [] a = refl
  without-Absent k (x ∷ xs) a =
      if_neg (dec x.key k) a.0 _ _ ∙ ap (λ l. x ∷ l) (without-Absent k xs a.1)

  remove-without : (k : K) (xs : List (Item K V)) → Distinct xs → remove dec k xs ≡ without k xs
  unfolding remove without
  remove-without k [] d = refl
  remove-without k (x ∷ xs) d = elim (dec x.key k) [
    | yes p ↦
        if_pos (dec x.key k) p _ _
        ∙ sym (without-Absent k xs (subst (λ j. Absent j xs) p d.0))
        ∙ sym (if_pos (dec x.key k) p _ _)
    | no p ↦
        if_neg (dec x.key k) p _ _
        ∙ ap (λ l. x ∷ l) (remove-without k xs d.1)
        ∙ sym (if_neg (dec x.key k) p _ _)
  ]

  pop_items : (k : K) (c : Cache K V) → (pop dec k c).items ≡ remove dec k c.items
  unfolding pop
  pop_items k c = elim (Option-cases (find dec k c.items)) [
    | inl e ↦ rw (e, pop) (sym (remove-Absent k c.items (find-Absent dec k c.items e)))
    | inr (x, e) ↦ rw (e, pop) refl
  ]

  remove_at :
      (pre : List (Item K V)) (x : Item K V) (xs : List (Item K V))
      → Distinct (pre ++ x ∷ xs)
      → remove dec x.key (pre ++ x ∷ xs) ≡ pre ++ xs
  unfolding remove
  remove_at [] x xs d = if_pos (dec x.key x.key) refl _ _
  remove_at (y ∷ pre) x xs d =
      if_neg (dec y.key x.key) (λ e. (All-suffix (λ z. z.key ≢ y.key) pre (x ∷ xs) d.0).0 (sym e)) _
        _
      ∙ ap (λ l. y ∷ l) (remove_at pre x xs d.1)

  sweep_items :
      (now : ℕ) (pre xs : List (Item K V)) (c : Cache K V)
      → c.items ≡ pre ++ xs
      → Distinct (pre ++ xs)
      → (sweep dec now xs c).items ≡ pre ++ alive now xs
  unfolding sweep alive
  sweep_items now pre [] c e d = e
  sweep_items now pre (x ∷ xs) c e d = elim (Bool-cases (leb x.expires_at now)) [
    | inl t ↦
        rw (t, sweep, alive)
          (sweep_items now pre xs (pop dec x.key c)
            (pop_items x.key c ∙ ap (remove dec x.key) e ∙ remove_at pre x xs d)
            (subst Distinct (remove_at pre x xs d) (remove-Distinct dec x.key (pre ++ x ∷ xs) d)))
    | inr f ↦
        rw (f, sweep, alive)
          (sweep_items now (pre ++ x ∷ []) xs c (e ∙ sym (append_assoc pre (x ∷ []) xs))
              (subst Distinct (sym (append_assoc pre (x ∷ []) xs)) d)
            ∙ append_assoc pre (x ∷ []) (alive now xs))
  ]

  -- What `put` appends the new item to.
  ready_items :
      (now : ℕ) (k : K) (c : Cache K V)
      → IsValid c
      → (ready dec now k c).items ≡ without k (alive now c.items)
  unfolding ready remove_expired
  ready_items now k c v =
      pop_items k (remove_expired dec now c)
      ∙ ap (remove dec k) swept
      ∙ remove-without k (alive now c.items)
          (subst Distinct swept (remove_expired-IsValid dec now c v).exact.distinct)
    where
      swept : (sweep dec now c.items c).items ≡ alive now c.items
      swept = sweep_items now [] c.items c refl v.exact.distinct

  -- What `put` makes of the items of a cache: those that are not expired and of another key stay,
  -- in their order, but for the oldest of them, each dropped while a bound was exceeded; the new
  -- item comes last.
  pub record Stored (size : V → ℕ) (now later : ℕ) (k : K) (v : V) (c d : Cache K V) : Type 0 where
    pub dropped : List (Item K V)
    pub kept : List (Item K V)
    pub split : without k (alive now c.items) ≡ dropped ++ kept
    pub items : d.items ≡ kept ++ new_item size later c.ttl k v ∷ []
    pub needed :
        IsNeeded c.max_entries c.max_bytes dropped (kept ++ new_item size later c.ttl k v ∷ [])

  -- Putting a value within the byte bound into a valid cache returns true. Of the items that were
  -- there, those that are not expired and of another key stay in their order, except the oldest
  -- ones, each of which is dropped only while a bound is exceeded; the new item is last.
  pub put-Stored :
      (size : V → ℕ) (now later : ℕ) (k : K) (v : V) (c : Cache K V)
      → IsValid c
      → size v ≤ c.max_bytes
      → (d : Cache K V) × (put dec size now later k v c ≡ some (true, d))
        × Stored size now later k v c d
  put-Stored size now later k v c valid fits =
      let (d, stored, p) = put-Puts dec size now later k v c valid fits in
      (
        d,
        stored,
        record {
          dropped = p.dropped;
          kept = p.kept;
          split = sym (ready_items now k c valid) ∙ p.split;
          items = p.items;
          needed = p.needed;
        },
      )

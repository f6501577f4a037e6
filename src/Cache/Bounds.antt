-- ===== src/Cache/Bounds.antt =====
-- src/sona/meeting/inner_os/cache.py: the bounds of the cache under `put` and `get`.
use voice_realtime.Prelude.{
  ◌≡◌, ◌≢◌, refl, ap, subst, append_assoc, ◌⊎◌, ◌∙◌, inl, inr, ℕ, ◌+◌, ◌-◌, ◌≤◌, ◌<◌, Bool, true,
  false, ◌||◌, Option, some, List, [], ◌∷◌, ◌++◌, ltb, leb, arith, length, length-append,
  All-suffix, Bool-cases, Option-cases, if_cases,
}
use voice_realtime.Cache.{
  Item, Cache, trim, find, remove, pop, sweep, remove_expired, append_item, trimmed, put, touch,
  get, is_some, new_item,
}
use voice_realtime.Cache.Valid.{
  Absent, Distinct, total, IsExact, IsValid, total-append, Distinct-snoc, remove-Distinct,
  Absent-remove, remove_found, pop-IsExact, Absent-pop, Shrinks, pop-Shrinks,
}

module _ {K V : Type 0} where
  over : ℕ → ℕ → List (Item K V) → ℕ → Bool
  over me mb xs n = ltb me (length xs) || ltb mb n

  trim-over :
      (me mb : ℕ) (x : Item K V) (xs : List (Item K V)) (n : ℕ)
      → over me mb (x ∷ xs) n ≡ true
      → trim me mb (x ∷ xs) n ≡ trim me mb xs (n - x.size_bytes)
  unfolding trim over
  trim-over me mb x xs n e = rw e refl

  trim-within :
      (me mb : ℕ) (x : Item K V) (xs : List (Item K V)) (n : ℕ)
      → over me mb (x ∷ xs) n ≡ false
      → trim me mb (x ∷ xs) n ≡ some (x ∷ xs, n)
  unfolding trim over
  trim-within me mb x xs n e = rw e refl

  exceeds :
      (me mb : ℕ) (xs : List (Item K V)) (n : ℕ)
      → n ≡ total xs
      → over me mb xs n ≡ true
      → (me < length xs) ⊎ (mb < total xs)
  unfolding over
  exceeds me mb xs n e o = elim (Bool-cases (ltb me (length xs))) [
    | inl t ↦ inl (ground arith)
    | inr f ↦ inr (ground arith)
  ]

  -- Each of the items was dropped, the first one first, while a bound was exceeded.
  abbrev pub IsNeeded : ℕ → ℕ → List (Item K V) → List (Item K V) → Type 0
  IsNeeded me mb [] rest = Unit {0}
  IsNeeded me mb (y ∷ ys) rest =
      ((me < length (y ∷ (ys ++ rest))) ⊎ (mb < total (y ∷ (ys ++ rest)))) × IsNeeded me mb ys rest

  -- What `_trim` leaves of items that end in one that fits by itself: a suffix that still ends in
  -- it, within both bounds.
  pub record Trims (me mb : ℕ) (xs : List (Item K V)) (x : Item K V) (n : ℕ) : Type 0 where
    pub dropped : List (Item K V)
    pub kept : List (Item K V)
    pub split : xs ≡ dropped ++ kept
    pub result : trim me mb (xs ++ x ∷ []) n ≡ some (kept ++ x ∷ [], total (kept ++ x ∷ []))
    pub few : length (kept ++ x ∷ []) ≤ me
    pub small : total (kept ++ x ∷ []) ≤ mb
    pub needed : IsNeeded me mb dropped (kept ++ x ∷ [])

  pub trim-Trims :
      (me mb : ℕ) (xs : List (Item K V)) (x : Item K V) (n : ℕ)
      → n ≡ total (xs ++ x ∷ [])
      → 0 < me
      → x.size_bytes ≤ mb
      → Trims me mb xs x n
  unfolding over
  trim-Trims me mb [] x n e room fits = elim (Bool-cases (over me mb (x ∷ []) n)) [
    | inl o ↦ absurd (ground arith)
    | inr w ↦ record {
      dropped = [];
      kept = [];
      split = refl;
      result = rw (trim-within me mb x [] n w) (ground arith);
      few = omega arith;
      small = omega arith;
      needed = tt;
    }
  ]
  trim-Trims me mb (y ∷ ys) x n e room fits = elim (Bool-cases (over me mb (y ∷ ys ++ x ∷ []) n)) [
    | inl o ↦
        let t = trim-Trims me mb ys x (n - y.size_bytes) (omega arith) room fits in
        record {
          dropped = y ∷ t.dropped;
          kept = t.kept;
          split = cc (t.split);
          result = rw (trim-over me mb y (ys ++ x ∷ []) n o) t.result;
          few = t.few;
          small = t.small;
          needed = (
            subst (λ l. (me < length l) ⊎ (mb < total l))
                (ap (λ l. y ∷ (l ++ x ∷ [])) t.split
                  ∙ ap (λ l. y ∷ l) (append_assoc t.dropped t.kept (x ∷ [])))
                (exceeds me mb (y ∷ (ys ++ x ∷ [])) n e o),
            t.needed,
          );
        }
    | inr w ↦ record {
      dropped = [];
      kept = y ∷ ys;
      split = refl;
      result = rw (trim-within me mb y (ys ++ x ∷ []) n w) (ground arith);
      few = ground arith;
      small = ground arith;
      needed = tt;
    }
  ]

  Distinct-suffix : (xs ys : List (Item K V)) → Distinct (xs ++ ys) → Distinct ys
  Distinct-suffix [] ys d = d
  Distinct-suffix (x ∷ xs) ys d = Distinct-suffix xs ys d.1

module _ {K V : Type 0} (dec : Discrete K) where
  pub Shrinks-IsValid : (c d : Cache K V) → Shrinks dec c d → IsExact d → IsValid c → IsValid d
  Shrinks-IsValid c d h e v = record {
    exact = e;
    room = omega (arith, h.entries, v.room);
    few = omega (arith, h.entries, h.fewer, v.few);
    small = omega (arith, h.limit, h.smaller, v.small);
  }

  -- `_remove_expired` keeps the counts exact and only shrinks the cache.
  pub sweep_lem :
      (now : ℕ) (xs : List (Item K V)) (c : Cache K V)
      → IsExact c
      → IsExact (sweep dec now xs c) × Shrinks dec c (sweep dec now xs c)
  unfolding sweep
  sweep_lem now [] c e = (e, omega arith)
  sweep_lem now (x ∷ xs) c e = elim (Bool-cases (leb x.expires_at now)) [
    | inl t ↦
        rw (t, sweep)
          (let r = sweep_lem now xs (pop dec x.key c) (pop-IsExact dec x.key c e) in
            let p = pop-Shrinks dec x.key c in
            (
              r.0,
              record {
                entries = r.1.entries ∙ p.entries;
                limit = r.1.limit ∙ p.limit;
                lifetime = r.1.lifetime ∙ p.lifetime;
                fewer = omega (arith, r.1.fewer, p.fewer);
                smaller = omega (arith, r.1.smaller, p.smaller);
              },
            ))
    | inr f ↦ rw (f, sweep) (sweep_lem now xs c e)
  ]

  pub remove_expired-IsValid :
      (now : ℕ) (c : Cache K V) → IsValid c → IsValid (remove_expired dec now c)
  unfolding remove_expired
  remove_expired-IsValid now c v =
      let r = sweep_lem now c.items c v.exact in Shrinks-IsValid c _ r.1 r.0 v

  pub pop-IsValid : (k : K) (c : Cache K V) → IsValid c → IsValid (pop dec k c)
  pop-IsValid k c v =
      Shrinks-IsValid c (pop dec k c) (pop-Shrinks dec k c) (pop-IsExact dec k c v.exact) v

  -- The cache that `put` appends to.
  unfoldable pub ready : ℕ → K → Cache K V → Cache K V
  ready now k c = pop dec k (remove_expired dec now c)

  ready-IsValid : (now : ℕ) (k : K) (c : Cache K V) → IsValid c → IsValid (ready now k c)
  unfolding ready
  ready-IsValid now k c v = pop-IsValid k _ (remove_expired-IsValid now c v)

  pub ready-limits :
      (now : ℕ) (k : K) (c : Cache K V)
      → IsValid c
      → ((ready now k c).max_bytes ≡ c.max_bytes)
        × ((ready now k c).max_entries ≡ c.max_entries)
        × ((ready now k c).ttl ≡ c.ttl)
  unfolding ready remove_expired
  ready-limits now k c v =
      let r = (sweep_lem now c.items c v.exact).1 in
      let p = pop-Shrinks dec k (sweep dec now c.items c) in
      (p.limit ∙ r.limit, p.entries ∙ r.entries, p.lifetime ∙ r.lifetime)

  pub find_last :
      (k : K) (xs : List (Item K V)) (x : Item K V)
      → Absent k xs
      → x.key ≡ k
      → find dec k (xs ++ x ∷ []) ≡ some x
  unfolding find
  find_last k [] x a e = ground arith
  find_last k (y ∷ ys) x a e = ground (arith, find_last k ys x a.1 e)

  -- What `put` leaves of a value that fits by itself: some of the youngest items and the new one.
  pub record Puts (now later : ℕ) (size : V → ℕ) (k : K) (v : V) (c d : Cache K V) : Type 0 where
    pub dropped : List (Item K V)
    pub kept : List (Item K V)
    pub split : (ready now k c).items ≡ dropped ++ kept
    pub items : d.items ≡ kept ++ new_item size later c.ttl k v ∷ []
    pub needed :
        IsNeeded c.max_entries c.max_bytes dropped (kept ++ new_item size later c.ttl k v ∷ [])
    pub absent : Absent k kept
    pub valid : IsValid d

  -- Appending an item under a new key and trimming.
  store_lem :
      (c : Cache K V) (x : Item K V)
      → IsValid c
      → Absent x.key c.items
      → x.size_bytes ≤ c.max_bytes
      → (d : Cache K V) × (kept dropped : List (Item K V)) × (c.items ≡ dropped ++ kept)
        × (trimmed dec x.key
              (append_item dec x c)
              (trim c.max_entries c.max_bytes (c.items ++ x ∷ []) (c.bytes + x.size_bytes))
            ≡ some (true, d))
        × (d.items ≡ kept ++ x ∷ [])
        × IsNeeded c.max_entries c.max_bytes dropped (kept ++ x ∷ [])
        × Absent x.key kept
        × IsValid d
  unfolding append_item trimmed is_some
  store_lem c x v a fits = (
    d,
    t.kept,
    t.dropped,
    t.split,
    rw (t.result, trimmed) (rw (find_last x.key t.kept x gone refl)),
    refl,
    t.needed,
    gone,
    record {
      exact = record { distinct = Distinct-snoc t.kept x apart gone; counted = refl };
      room = v.room;
      few = t.few;
      small = t.small;
    },
  )
    where
      t : Trims c.max_entries c.max_bytes c.items x (c.bytes + x.size_bytes)
      t =
          trim-Trims c.max_entries c.max_bytes c.items x (c.bytes + x.size_bytes)
            (omega (arith, total-append c.items (x ∷ []), v.exact.counted)) v.room fits

      d : Cache K V
      d = record c { items = t.kept ++ x ∷ []; bytes = total (t.kept ++ x ∷ []) }

      gone : Absent x.key t.kept
      gone = All-suffix (λ y. y.key ≢ x.key) t.dropped t.kept (rw t.split at a)

      apart : Distinct t.kept
      apart = Distinct-suffix t.dropped t.kept (rw t.split at v.exact.distinct)

  -- A value above the byte bound is refused; its key is forgotten with the expired items.
  pub put-large :
      (size : V → ℕ) (now later : ℕ) (k : K) (v : V) (c : Cache K V)
      → c.max_bytes < size v
      → put dec size now later k v c ≡ some (false, ready now k c)
  unfolding put ready
  put-large size now later k v c h = ground arith

  pub put-Puts :
      (size : V → ℕ) (now later : ℕ) (k : K) (v : V) (c : Cache K V)
      → IsValid c
      → size v ≤ c.max_bytes
      → (d : Cache K V) × (put dec size now later k v c ≡ some (true, d))
        × Puts now later size k v c d
  unfolding put ready new_item append_item
  put-Puts size now later k v c valid fits =
      let (limit, entries, _) = ready-limits now k c valid in
      let (d, kept, dropped, split, e, items, needed, gone, ok) =
        store_lem (ready now k c) (new_item size later c.ttl k v) (ready-IsValid now k c valid)
          (Absent-pop dec k (remove_expired dec now c) (remove_expired-IsValid now c valid).exact)
          (omega (arith, limit, fits)) in
      (
        d,
        if_cases (λ r. r ≡ some (true, d)) (ltb c.max_bytes (size v)) (λ h. absurd (ground arith))
            (λ _. e),
        record {
          dropped = dropped;
          kept = kept;
          split = split;
          items = items;
          needed =
              subst
                (λ n. IsNeeded n c.max_bytes dropped (kept ++ new_item size later c.ttl k v ∷ []))
                entries
                (subst
                  (λ n.
                    IsNeeded (ready now k c).max_entries n dropped
                      (kept ++ new_item size later c.ttl k v ∷ []))
                  limit needed);
          absent = gone;
          valid = ok;
        },
      )

  -- Whatever is put, `put` does not fail and the cache stays valid; it says whether the value is
  -- within the byte bound.
  pub put-IsValid :
      (size : V → ℕ) (now later : ℕ) (k : K) (v : V) (c : Cache K V)
      → IsValid c
      → (d : Cache K V) × (put dec size now later k v c ≡ some (leb (size v) c.max_bytes, d))
        × IsValid d
  put-IsValid size now later k v c valid = elim (Bool-cases (leb (size v) c.max_bytes)) [
    | inl e ↦
        let (d, stored, p) = put-Puts size now later k v c valid (ground arith) in
        (d, rw e stored, p.valid)
    | inr e ↦ (
      ready now k c,
      rw e (put-large size now later k v c (ground arith)),
      ready-IsValid now k c valid,
    )
  ]

  pub get-IsValid : (now : ℕ) (k : K) (c : Cache K V) → IsValid c → IsValid (get dec now k c).1
  unfolding get touch
  get-IsValid now k c v = elim (Option-cases (find dec k c.items)) [
    | inl e ↦ rw (e, get) v
    | inr (x, e) ↦
        rw (e, get)
          (if_cases (λ (r : Option V × Cache K V). IsValid r.1) (leb x.expires_at now)
            (λ _. pop-IsValid k c v) (λ _. touched x e))
  ]
    where
      touched : (x : Item K V) → find dec k c.items ≡ some x → IsValid (touch dec k x c)
      touched x e =
          let (same, sum, count) = remove_found dec k c.items e in
          record {
            exact = record {
              distinct =
                  Distinct-snoc (remove dec k c.items) x
                    (remove-Distinct dec k c.items v.exact.distinct)
                    (rw same (Absent-remove dec k c.items v.exact.distinct));
              counted =
                  omega (arith, v.exact.counted, sum, total-append (remove dec k c.items) (x ∷ []));
            };
            room = v.room;
            few = omega (arith, count, v.few, length-append {0} (remove dec k c.items) (x ∷ []));
            small = v.small;
          }

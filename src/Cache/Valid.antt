-- ===== src/Cache/Valid.antt =====
-- src/sona/meeting/inner_os/cache.py: when a cache is valid.
use mathlib.Core.Logic.{if_pos, if_neg}
use voice_realtime.Prelude.{
  ◌≡◌, ◌≢◌, inl, inr, ℕ, ◌+◌, ◌≤◌, ◌<◌, none, some, List, [], ◌∷◌, ◌++◌, arith, length, All,
  All-append, Option-cases,
}
use voice_realtime.Cache.{Item, Cache, find, remove, pop}

module _ {K V : Type 0} where
  abbrev pub Absent : K → List (Item K V) → Type 0
  Absent k = All (λ x. x.key ≢ k)

  abbrev pub Distinct : List (Item K V) → Type 0
  Distinct [] = Unit {0}
  Distinct (x ∷ xs) = Absent x.key xs × Distinct xs

  abbrev pub total : List (Item K V) → ℕ
  total [] = 0
  total (x ∷ xs) = x.size_bytes + total xs

  -- What holds before the bounds are enforced again.
  pub record IsExact (c : Cache K V) : Type 0 where
    pub distinct : Distinct c.items
    pub counted : c.bytes ≡ total c.items

  pub record IsValid (c : Cache K V) : Type 0 where
    pub exact : IsExact c
    pub room : 0 < c.max_entries
    pub few : length c.items ≤ c.max_entries
    pub small : c.bytes ≤ c.max_bytes

  pub total-append : (xs ys : List (Item K V)) → total (xs ++ ys) ≡ total xs + total ys
  total-append [] ys = omega arith
  total-append (x ∷ xs) ys = omega (arith, total-append xs ys)

  pub Distinct-snoc :
      (xs : List (Item K V)) (x : Item K V)
      → Distinct xs
      → Absent x.key xs
      → Distinct (xs ++ x ∷ [])
  Distinct-snoc [] x d a = (tt, tt)
  Distinct-snoc (y ∷ ys) x d a = (
    All-append (λ z. z.key ≢ y.key) ys (x ∷ []) d.0 ((λ e. a.0 (cc), tt)),
    Distinct-snoc ys x d.1 a.1,
  )

module _ {K V : Type 0} (dec : Discrete K) where
  pub remove-All :
      (P : Item K V → Type 0) (k : K) (xs : List (Item K V)) → All P xs → All P (remove dec k xs)
  unfolding remove
  remove-All P k [] h = tt
  remove-All P k (x ∷ xs) h = elim (dec x.key k) [
    | yes p ↦ rw (if_pos _ p) h.1
    | no p ↦ rw (if_neg _ p) (h.0, remove-All P k xs h.1)
  ]

  pub remove-Distinct : (k : K) (xs : List (Item K V)) → Distinct xs → Distinct (remove dec k xs)
  unfolding remove
  remove-Distinct k [] d = tt
  remove-Distinct k (x ∷ xs) d = elim (dec x.key k) [
    | yes p ↦ rw (if_pos _ p) d.1
    | no p ↦ rw (if_neg _ p) (remove-All _ k xs d.0, remove-Distinct k xs d.1)
  ]

  pub Absent-remove : (k : K) (xs : List (Item K V)) → Distinct xs → Absent k (remove dec k xs)
  unfolding remove
  Absent-remove k [] d = tt
  Absent-remove k (x ∷ xs) d = elim (dec x.key k) [
    | yes p ↦ rw (if_pos _ p) (rw p at d.0)
    | no p ↦ rw (if_neg _ p) (p, Absent-remove k xs d.1)
  ]

  -- A hit: what `remove` takes off the items.
  pub remove_found :
      (k : K) (xs : List (Item K V)) {x : Item K V}
      → find dec k xs ≡ some x
      → (x.key ≡ k)
        × (total (remove dec k xs) + x.size_bytes ≡ total xs)
        × (length (remove dec k xs) + 1 ≡ length xs)
  unfolding remove find
  remove_found k [] e = absurd (cc)
  remove_found k (y ∷ xs) {x} e = ground (arith, remove_found k xs {x = x})

  pub find-Absent : (k : K) (xs : List (Item K V)) → find dec k xs ≡ none → Absent k xs
  unfolding find
  find-Absent k [] e = tt
  find-Absent k (x ∷ xs) e = elim (dec x.key k) [
    | yes p ↦ absurd (ground arith)
    | no p ↦ (p, find-Absent k xs (ground arith))
  ]

  pub pop-IsExact : (k : K) (c : Cache K V) → IsExact c → IsExact (pop dec k c)
  unfolding pop
  pop-IsExact k c v = elim (Option-cases (find dec k c.items)) [
    | inl e ↦ rw (e, pop) v
    | inr (x, e) ↦
        rw (e, pop)
          (record {
            distinct = remove-Distinct k c.items v.distinct;
            counted = omega (arith, v.counted, (remove_found k c.items e).1);
          })
  ]

  -- After `pop` the key is gone.
  pub Absent-pop : (k : K) (c : Cache K V) → IsExact c → Absent k (pop dec k c).items
  unfolding pop
  Absent-pop k c v = elim (Option-cases (find dec k c.items)) [
    | inl e ↦ rw (e, pop) (find-Absent k c.items e)
    | inr (x, e) ↦ rw (e, pop) (Absent-remove k c.items v.distinct)
  ]

  -- Limits stay, and nothing grows.
  pub record Shrinks (c d : Cache K V) : Type 0 where
    pub entries : d.max_entries ≡ c.max_entries
    pub limit : d.max_bytes ≡ c.max_bytes
    pub lifetime : d.ttl ≡ c.ttl
    pub fewer : length d.items ≤ length c.items
    pub smaller : d.bytes ≤ c.bytes

  pub pop-Shrinks : (k : K) (c : Cache K V) → Shrinks c (pop dec k c)
  unfolding pop
  pop-Shrinks k c = elim (Option-cases (find dec k c.items)) [
    | inl e ↦ rw (e, pop) (ground arith)
    | inr (x, e) ↦ rw (e, pop) (ground (arith, remove_found k c.items e))
  ]

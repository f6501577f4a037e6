-- ===== src/Cache/RoundTrip.antt =====
-- src/sona/meeting/inner_os/cache.py: what a `get` finds after a `put`, and what has expired.
use voice_realtime.Prelude.{
  ◌≡◌, ◌≢◌, refl, inl, inr, ◌⊎◌, ℕ, ◌+◌, ◌≤◌, ◌<◌, true, none, some, List, [], ◌∷◌, leb, arith,
  if◌then◌else◌, All, Bool-cases, Option-cases, Member, All-of_Member, All-mono, All-zip, ap,
}
use voice_realtime.Cache.{Item, Cache, find, pop, sweep, remove_expired, put, get, new_item}
use voice_realtime.Cache.Valid.{IsExact, IsValid, remove-All, pop-IsExact, Absent-pop}
use voice_realtime.Cache.Bounds.{put-Puts, find_last, get-IsValid}

module _ {K V : Type 0} (dec : Discrete K) where
  -- A stored value is found until it expires, and from then on it is gone; either way the cache
  -- stays valid.
  pub get-put :
      (size : V → ℕ) (now later again : ℕ) (k : K) (v : V) (c : Cache K V)
      → IsValid c
      → size v ≤ c.max_bytes
      → (d : Cache K V) × (put dec size now later k v c ≡ some (true, d))
        × ((get dec again k d).0 ≡ (if leb (later + c.ttl) again then none else some v))
        × IsValid (get dec again k d).1
  unfolding get new_item
  get-put size now later again k v c valid fits =
      let (d, stored, p) = put-Puts dec size now later k v c valid fits in
      let found : find dec k d.items ≡ some (new_item size later c.ttl k v) =
        rw p.items (find_last dec k p.kept (new_item size later c.ttl k v) p.absent refl) in
      (d, stored, rw (found, get) (ground arith), get-IsValid dec again k d p.valid)

  pop-All :
      (P : Item K V → Type 0) (k : K) (c : Cache K V) → All P c.items → All P (pop dec k c).items
  unfolding pop
  pop-All P k c h = elim (Option-cases (find dec k c.items)) [
    | inl e ↦ rw (e, pop) h
    | inr (x, e) ↦ rw (e, pop) (remove-All dec P k c.items h)
  ]

  -- Not looked at yet by the sweep, or fresh.
  Remains : ℕ → List (Item K V) → Item K V → Type 0
  Remains now xs x = (now < x.expires_at) ⊎ Member x xs

  sweep-fresh :
      (now : ℕ) (xs : List (Item K V)) (c : Cache K V)
      → IsExact c
      → All (Remains now xs) c.items
      → All (λ x. now < x.expires_at) (sweep dec now xs c).items
  unfolding sweep Remains
  sweep-fresh now [] c e h =
      All-mono (λ x. (now < x.expires_at) ⊎ ⊥) (λ x. now < x.expires_at) (λ x o. ground arith)
        c.items h
  sweep-fresh now (y ∷ ys) c e h = elim (Bool-cases (leb y.expires_at now)) [
    | inl t ↦
        rw (t, sweep)
          (sweep-fresh now ys (pop dec y.key c) (pop-IsExact dec y.key c e) (
            All-zip (Remains now (y ∷ ys)) (λ x. x.key ≢ y.key) (Remains now ys) skip
              (pop dec y.key c).items (pop-All (Remains now (y ∷ ys)) y.key c h)
              (Absent-pop dec y.key c e)))
    | inr f ↦
        rw (f, sweep)
          (sweep-fresh now ys c e
            (All-mono (Remains now (y ∷ ys)) (Remains now ys) (kept (ground arith)) c.items h))
  ]
    where
      skip : (x : Item K V) → Remains now (y ∷ ys) x → x.key ≢ y.key → Remains now ys x
      skip x (inl fresh) a = inl fresh
      skip x (inr (inl here)) a = absurd (a (ap (λ (i : Item K V). i.key) here))
      skip x (inr (inr there)) a = inr there

      kept : now < y.expires_at → (x : Item K V) → Remains now (y ∷ ys) x → Remains now ys x
      kept h x (inl fresh) = inl fresh
      kept h x (inr (inl here)) = inl (rw here h)
      kept h x (inr (inr there)) = inr there

  -- After the sweep every item that is left expires later than now.
  pub remove_expired-fresh :
      (now : ℕ) (c : Cache K V)
      → IsExact c
      → All (λ x. now < x.expires_at) (remove_expired dec now c).items
  unfolding remove_expired Remains
  remove_expired-fresh now c e =
      sweep-fresh now c.items c e (All-of_Member (Remains now c.items) c.items (λ a m. inr m))

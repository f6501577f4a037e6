-- ===== src/Cache.antt =====
-- src/sona/meeting/inner_os/cache.py: BoundedTTLCache, an in-memory cache with three bounds.
-- An OrderedDict is the list of its items in order, oldest first; the size of a value (the length
-- of its JSON text) is a parameter, and so is each reading of the clock.
pub mod Valid
pub mod Bounds
pub mod Order
pub mod RoundTrip
mod Tests
use mathlib.Core.Logic.{ite}
use voice_realtime.Prelude.{
  ℕ, zero, suc, ◌+◌, ◌-◌, Bool, true, false, ◌||◌, Option, none, some, List, [], ◌∷◌, ◌++◌, ltb,
  leb, if◌then◌else◌, length, ◌==◌,
}

pub record Item (K V : Type 0) : Type 0 where
  pub key : K
  pub value : V
  pub expires_at : ℕ
  pub size_bytes : ℕ

pub record Cache (K V : Type 0) : Type 0 where
  pub ttl : ℕ
  pub max_entries : ℕ
  pub max_bytes : ℕ
  pub items : List (Item K V)
  pub bytes : ℕ

-- `none` is the ValueError.
pub init : {K V : Type 0} → ℕ → ℕ → ℕ → Option (Cache K V)
init ttl max_entries max_bytes =
    if (ttl == 0) || ((max_entries == 0) || (max_bytes == 0))
    then none
    else some (record {
      ttl = ttl;
      max_entries = max_entries;
      max_bytes = max_bytes;
      items = [];
      bytes = 0;
    })

-- `_trim`, on the items and the byte count: drop the oldest item while a bound is exceeded. `none`
-- is the StopIteration of an empty dictionary.
pub trim : {K V : Type 0} → ℕ → ℕ → List (Item K V) → ℕ → Option (List (Item K V) × ℕ)
trim max_entries max_bytes [] bytes = if ltb max_bytes bytes then none else some ([], bytes)
trim max_entries max_bytes (x ∷ xs) bytes =
    let rest = trim max_entries max_bytes xs (bytes - x.size_bytes) in
    if ltb max_entries (length (x ∷ xs)) || ltb max_bytes bytes then rest else some (x ∷ xs, bytes)

pub is_some : {A : Type 0} → Option A → Bool
is_some none = false
is_some (some a) = true

pub new_item : {K V : Type 0} → (V → ℕ) → ℕ → ℕ → K → V → Item K V
new_item size later ttl k v = record {
  key = k;
  value = v;
  expires_at = later + ttl;
  size_bytes = size v;
}

module _ {K V : Type 0} (dec : Discrete K) where
  pub find : K → List (Item K V) → Option (Item K V)
  find k [] = none
  find k (x ∷ xs) = ite (dec x.key k) (some x) (find k xs)

  pub remove : K → List (Item K V) → List (Item K V)
  remove k [] = []
  remove k (x ∷ xs) = ite (dec x.key k) xs (x ∷ remove k xs)

  pub pop : K → Cache K V → Cache K V
  pop k c = elim (find k c.items) [
    | none ↦ c
    | some x ↦ record c { items = remove k c.items; bytes = c.bytes - x.size_bytes }
  ]

  -- The loop of `_remove_expired` over its snapshot of the items.
  pub sweep : ℕ → List (Item K V) → Cache K V → Cache K V
  sweep now [] c = c
  sweep now (x ∷ xs) c = sweep now xs (if leb x.expires_at now then pop x.key c else c)

  pub remove_expired : ℕ → Cache K V → Cache K V
  remove_expired now c = sweep now c.items c

  pub append_item : Item K V → Cache K V → Cache K V
  append_item x c = record c { items = c.items ++ x ∷ []; bytes = c.bytes + x.size_bytes }

  pub trimmed : K → Cache K V → Option (List (Item K V) × ℕ) → Option (Bool × Cache K V)
  unfolding is_some
  trimmed k c none = none
  trimmed k c (some (xs, n)) = some (is_some (find k xs), record c { items = xs; bytes = n })

  -- `put`: the clock reads `now` for the sweep and `later` for the expiry.
  pub put : (V → ℕ) → ℕ → ℕ → K → V → Cache K V → Option (Bool × Cache K V)
  put size now later k v c =
      if ltb c.max_bytes (size v)
      then some (false, pop k (remove_expired now c))
      else (let full = append_item (new_item size later c.ttl k v) (pop k (remove_expired now c)) in
          trimmed k full (trim full.max_entries full.max_bytes full.items full.bytes))

  pub touch : K → Item K V → Cache K V → Cache K V
  touch k x c = record c { items = remove k c.items ++ x ∷ [] }

  pub get : ℕ → K → Cache K V → Option V × Cache K V
  get now k c = elim (find k c.items) [
    | none ↦ (none, c)
    | some x ↦ if leb x.expires_at now then (none, pop k c) else (some x.value, touch k x c)
  ]

  -- `__len__`
  pub len : ℕ → Cache K V → ℕ × Cache K V
  len now c = (length (remove_expired now c).items, remove_expired now c)

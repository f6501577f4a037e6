-- ===== src/Cache/Tests.antt =====
-- Runs of src/sona/meeting/inner_os/cache.py, and the theorems at a concrete cache.
use native.Mathlib.Decide.{ℕ_discrete}
use voice_realtime.Prelude.{
  ◌≡◌, refl, ℕ, ◌+◌, ◌<◌, true, none, some, [], ◌∷◌, leb, arith, if◌then◌else◌, All,
}
use voice_realtime.Cache.{
  Item, Cache, init, trim, find, remove, pop, sweep, remove_expired, append_item, trimmed, put,
  touch, get, is_some, new_item, len,
}
use voice_realtime.Cache.Valid.{IsValid}
use voice_realtime.Cache.Bounds.{put-IsValid, get-IsValid}
use voice_realtime.Cache.Order.{Stored, put-Stored}
use voice_realtime.Cache.RoundTrip.{get-put, remove_expired-fresh}

program : Unit {0}
unfolding init trim find remove pop sweep remove_expired append_item trimmed put touch get is_some
    new_item len ℕ_discrete
program = tt

abbrev size : ℕ → ℕ
size v = v

abbrev item : ℕ → ℕ → ℕ → Item ℕ ℕ
item k v t = record { key = k; value = v; expires_at = t; size_bytes = v }

-- Two entries of three bytes each, against eight bytes and two entries.
abbrev full : Cache ℕ ℕ
full = record {
  ttl = 10;
  max_entries = 2;
  max_bytes = 8;
  items = item 1 3 20 ∷ item 2 3 12 ∷ [];
  bytes = 6;
}

full-IsValid : IsValid full
full-IsValid = record {
  exact = record { distinct = omega arith; counted = refl };
  room = omega arith;
  few = omega arith;
  small = omega arith;
}

-- The oldest entry makes room.
put_evicts :
    put ℕ_discrete size 5 5 3 4 full
    ≡ some (true, record full { items = item 2 3 12 ∷ item 3 4 15 ∷ []; bytes = 7 })
unfolding program
put_evicts = refl

get_expired : get ℕ_discrete 13 2 full ≡ (none, record full { items = item 1 3 20 ∷ []; bytes = 3 })
unfolding program
get_expired = refl

init_refuses : init {K = ℕ} {V = ℕ} 0 1 1 ≡ none
unfolding program
init_refuses = refl

put-IsValid_example :
    (d : Cache ℕ ℕ) × (put ℕ_discrete size 5 5 3 9 full ≡ some (leb 9 8, d)) × IsValid d
put-IsValid_example = put-IsValid ℕ_discrete size 5 5 3 9 full full-IsValid

put-Stored_example :
    (d : Cache ℕ ℕ) × (put ℕ_discrete size 5 5 3 4 full ≡ some (true, d))
    × Stored ℕ_discrete size 5 5 3 4 full d
put-Stored_example = put-Stored ℕ_discrete size 5 5 3 4 full full-IsValid (omega arith)

get-put_example :
    (d : Cache ℕ ℕ) × (put ℕ_discrete size 5 5 3 4 full ≡ some (true, d))
    × ((get ℕ_discrete 9 3 d).0 ≡ (if leb (5 + 10) 9 then none else some 4))
    × IsValid (get ℕ_discrete 9 3 d).1
get-put_example = get-put ℕ_discrete size 5 5 9 3 4 full full-IsValid (omega arith)

get-IsValid_example : IsValid (get ℕ_discrete 9 1 full).1
get-IsValid_example = get-IsValid ℕ_discrete 9 1 full full-IsValid

remove_expired-fresh_example :
    All (λ x. 15 < x.expires_at) (remove_expired ℕ_discrete 15 full).items
remove_expired-fresh_example = remove_expired-fresh ℕ_discrete 15 full full-IsValid.exact

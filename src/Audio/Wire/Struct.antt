-- ===== src/Audio/Wire/Struct.antt =====
-- Python's `struct` with a big-endian format, as src/sona/audio/ipc.py uses it: a format is the
-- list of its fields' widths in bytes, and a field is packed on its own.
use voice_realtime.Prelude.{
  ◌≡◌, refl, ap, ◌∙◌, ℕ, zero, suc, ◌+◌, ◌*◌, ◌/◌, ◌%◌, ◌^◌, ◌≤◌, ◌<◌, List, [], ◌∷◌, ◌++◌,
  append_assoc, arith, length, length-append, take, drop,
}

abbrev pub Bytes : Type 0
Bytes = List ℕ

unfoldable pub pack : ℕ → ℕ → Bytes
pack zero v = []
pack (suc w) v = pack w (v / 256) ++ (v % 256) ∷ []

unfoldable pub unpack_from : ℕ → Bytes → ℕ
unpack_from acc [] = acc
unpack_from acc (b ∷ bs) = unpack_from (acc * 256 + b) bs

abbrev pub number : Bytes → ℕ
number = unpack_from 0

-- `Struct.unpack_from`: the fields of the given widths, in order.
unfoldable pub fields : List ℕ → Bytes → List Bytes
fields [] bs = []
fields (w ∷ ws) bs = take w bs ∷ fields ws (drop w bs)

unfoldable pub concat : List Bytes → Bytes
concat [] = []
concat (f ∷ fs) = f ++ concat fs

abbrev pub widths : List Bytes → List ℕ
widths [] = []
widths (f ∷ fs) = length f ∷ widths fs

abbrev pub sum : List ℕ → ℕ
sum [] = 0
sum (w ∷ ws) = w + sum ws

pub length-pack : (w v : ℕ) → length (pack w v) ≡ w
unfolding pack
length-pack zero v = refl
length-pack (suc w) v =
    omega (arith, length-append {0} (pack w (v / 256)) ((v % 256) ∷ []), length-pack w (v / 256))

unpack_from-snoc :
    (acc b : ℕ) (bs : Bytes) → unpack_from acc (bs ++ b ∷ []) ≡ unpack_from acc bs * 256 + b
unfolding unpack_from
unpack_from-snoc acc b [] = refl
unpack_from-snoc acc b (c ∷ bs) = unpack_from-snoc (acc * 256 + c) b bs

pow_suc : (w : ℕ) → 256 ^ suc w ≡ 256 * 256 ^ w
pow_suc w = omega arith

-- A number that fits is read back.
pub number-pack : (w v : ℕ) → v < 256 ^ w → number (pack w v) ≡ v
unfolding pack unpack_from
number-pack zero v h = omega arith
number-pack (suc w) v h =
    unpack_from-snoc 0 (v % 256) (pack w (v / 256))
    ∙ omega (arith, number-pack w (v / 256) (omega (arith, pow_suc w)))

pub take-append : (xs ys : Bytes) → take (length xs) (xs ++ ys) ≡ xs
take-append [] ys = refl
take-append (x ∷ xs) ys = ap (λ l. x ∷ l) (take-append xs ys)

pub drop-append : (xs ys : Bytes) → drop (length xs) (xs ++ ys) ≡ ys
drop-append [] ys = refl
drop-append (x ∷ xs) ys = drop-append xs ys

-- Fields that were packed one after the other are found again.
pub fields-concat : (fs : List Bytes) (rest : Bytes) → fields (widths fs) (concat fs ++ rest) ≡ fs
unfolding fields concat
fields-concat [] rest = refl
fields-concat (f ∷ fs) rest = rw (
  append_assoc f (concat fs) rest,
  take-append f (concat fs ++ rest),
  drop-append f (concat fs ++ rest),
  fields-concat fs rest,
)

pub length-concat : (fs : List Bytes) → length (concat fs) ≡ sum (widths fs)
unfolding concat
length-concat [] = refl
length-concat (f ∷ fs) = omega (arith, length-append {0} f (concat fs), length-concat fs)

-- What lies behind the fields does not change them.
pub take_within : (n : ℕ) (bs more : Bytes) → n ≤ length bs → take n (bs ++ more) ≡ take n bs
take_within zero bs more h = refl
take_within (suc n) [] more h = absurd (omega arith)
take_within (suc n) (b ∷ bs) more h = ap (λ l. b ∷ l) (take_within n bs more (omega arith))

pub drop_within :
    (n : ℕ) (bs more : Bytes) → n ≤ length bs → drop n (bs ++ more) ≡ drop n bs ++ more
drop_within zero bs more h = refl
drop_within (suc n) [] more h = absurd (omega arith)
drop_within (suc n) (b ∷ bs) more h = drop_within n bs more (omega arith)

pub length-drop : (n : ℕ) (bs : Bytes) → n ≤ length bs → length (drop n bs) + n ≡ length bs
length-drop zero bs h = omega arith
length-drop (suc n) [] h = omega arith
length-drop (suc n) (b ∷ bs) h = omega (arith, length-drop n bs)

pub fields_within :
    (ws : List ℕ) (bs more : Bytes) → sum ws ≤ length bs → fields ws (bs ++ more) ≡ fields ws bs
unfolding fields
fields_within [] bs more h = refl
fields_within (w ∷ ws) bs more h = rw (
  take_within w bs more (omega arith),
  drop_within w bs more (omega arith),
  fields_within ws (drop w bs) more (omega (arith, length-drop w bs)),
)

-- ===== src/Prelude/Lists.antt =====
-- Lists measured by native numbers, under the library's names, with Boolean filters and predicates.
use Prim.Native.Nat.{ℕ, zero, suc, ◌+◌}
use mathlib.Core.Path.{◌≡◌, refl}
use mathlib.Core.Logic.{◌⊎◌, inl, inr}
use mathlib.Core.List.{List, [], ◌∷◌, ◌++◌}
use mathlib.Core.Bool.{Bool, true, false}
use native.Mathlib.Omega.{arith}
use voice_realtime.Prelude.Tests.{if◌then◌else◌, Bool-cases}

module _ {ℓ} {A : Type ℓ} where
  abbrev pub length : List A → ℕ
  length [] = 0
  length (x ∷ xs) = suc (length xs)

  abbrev pub take : ℕ → List A → List A
  take zero xs = []
  take (suc n) [] = []
  take (suc n) (x ∷ xs) = x ∷ take n xs

  abbrev pub drop : ℕ → List A → List A
  drop zero xs = xs
  drop (suc n) [] = []
  drop (suc n) (x ∷ xs) = drop n xs

  pub length-append : (xs ys : List A) → length (xs ++ ys) ≡ length xs + length ys
  length-append [] ys = omega arith
  length-append (x ∷ xs) ys = omega (arith, length-append xs ys)

-- The elements that pass a Boolean test.
abbrev pub filter {ℓ} : {A : Type ℓ} → (A → Bool) → List A → List A
filter p [] = []
filter p (x ∷ xs) = if p x then x ∷ filter p xs else filter p xs

-- A predicate of every element; it computes to a tuple.
abbrev pub All {ℓ κ} : {A : Type ℓ} → (A → Type κ) → List A → Type κ
All P [] = Unit
All P (x ∷ xs) = P x × All P xs

module _ {ℓ κ} {A : Type ℓ} (P : A → Type κ) where
  pub All-append : (xs ys : List A) → All P xs → All P ys → All P (xs ++ ys)
  All-append [] ys hx hy = hy
  All-append (x ∷ xs) ys hx hy = (hx.0, All-append xs ys hx.1 hy)

-- Membership by recursion, which the case splits of the tactics read.
abbrev pub Member : {A : Type 0} → A → List A → Type 0
Member a [] = ⊥
Member a (x ∷ xs) = (a ≡ x) ⊎ Member a xs

module _ {A : Type 0} (p : A → Bool) where
  pub filter-All : (xs : List A) → filter p xs ≡ [] → All (λ x. p x ≡ false) xs
  filter-All [] h = tt
  filter-All (x ∷ xs) h = elim (Bool-cases (p x)) [
    | inl e ↦ absurd (ground arith)
    | inr e ↦ (e, filter-All xs (ground arith))
  ]

  pub filter_of_All : (xs : List A) → All (λ x. p x ≡ false) xs → filter p xs ≡ []
  filter_of_All [] h = refl
  filter_of_All (x ∷ xs) h = rw h.0 (filter_of_All xs h.1)

  pub Member-filter : (xs : List A) {a : A} → Member a (filter p xs) → Member a xs × (p a ≡ true)
  Member-filter [] h = elim h [ ]
  Member-filter (x ∷ xs) {a} h = step (p x) refl h (Member-filter xs)
    where
      step :
          (b : Bool)
          → p x ≡ b
          → Member a (if b then x ∷ filter p xs else filter p xs)
          → (Member a (filter p xs) → Member a xs × (p a ≡ true))
          → Member a (x ∷ xs) × (p a ≡ true)
      step true e (inl here) ih = (inl here, rw here e)
      step true e (inr there) ih = (inr (ih there).0, (ih there).1)
      step false e there ih = (inr (ih there).0, (ih there).1)

  pub All-filter {κ} :
      (P : A → Type κ) (xs : List A) → All P (filter p xs) → All (λ x. p x ≡ true → P x) xs
  All-filter P [] h = tt
  All-filter P (x ∷ xs) h = step (p x) refl h (All-filter P xs)
    where
      step :
          (b : Bool)
          → p x ≡ b
          → All P (if b then x ∷ filter p xs else filter p xs)
          → (All P (filter p xs) → All (λ x. p x ≡ true → P x) xs)
          → (p x ≡ true → P x) × All (λ x. p x ≡ true → P x) xs
      step true e h ih = (λ _. h.0, ih h.1)
      step false e h ih = (λ e'. absurd (cc), ih h)

module _ {A : Type 0} (P : A → Type 0) where
  pub All-Member : (xs : List A) {a : A} → All P xs → Member a xs → P a
  All-Member [] h m = elim m [ ]
  All-Member (x ∷ xs) h (inl e) = rw e h.0
  All-Member (x ∷ xs) h (inr m) = All-Member xs h.1 m

module _ {A : Type 0} (P Q : A → Type 0) where
  pub All-mono : ((a : A) → P a → Q a) → (xs : List A) → All P xs → All Q xs
  All-mono f [] h = tt
  All-mono f (x ∷ xs) h = (f x h.0, All-mono f xs h.1)

module _ {A : Type 0} (P : A → Type 0) where
  pub All-suffix : (xs ys : List A) → All P (xs ++ ys) → All P ys
  All-suffix [] ys h = h
  All-suffix (x ∷ xs) ys h = All-suffix xs ys h.1

  -- `P` of every element, from a proof for each member.
  pub All-of_Member : (xs : List A) → ((a : A) → Member a xs → P a) → All P xs
  All-of_Member [] f = tt
  All-of_Member (x ∷ xs) f = (f x (inl refl), All-of_Member xs (λ a m. f a (inr m)))

module _ {A : Type 0} (P Q R : A → Type 0) where
  -- Two facts of every element, combined.
  pub All-zip : ((a : A) → P a → Q a → R a) → (xs : List A) → All P xs → All Q xs → All R xs
  All-zip f [] h k = tt
  All-zip f (x ∷ xs) h k = (f x h.0 k.0, All-zip f xs h.1 k.1)

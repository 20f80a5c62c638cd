-- ===== src/Prelude/Lists.antt =====
-- Lists measured by native numbers, under the library's names, and Boolean searches.
use Prim.Native.Nat.{ℕ, zero, suc, ◌+◌, ◌≤◌}
use mathlib.Core.Path.{◌≡◌}
use mathlib.Core.Bool.{Bool, true, false, ◌||◌, ◌&&◌}
use mathlib.Core.List.{List, [], ◌∷◌, ◌++◌}
use mathlib.Core.Option.{Option, none, some}
use native.Mathlib.Omega.{arith}
use mathlib.Core.Path.{subst, sym, refl}
use mathlib.Core.Logic.{◌⊎◌, inl, inr}
use loremaster.Prelude.Tests.{if◌then◌else◌, Bool-cases}

pub some_inj {ℓ} : {A : Type ℓ} {a b : A} → some a ≡ some b → a ≡ b
some_inj h = cc

module _ {ℓ} {A : Type ℓ} where
  abbrev pub length : List A → ℕ
  length [] = 0
  length (x ∷ xs) = suc (length xs)

  abbrev pub take : ℕ → List A → List A
  take zero xs = []
  take (suc n) [] = []
  take (suc n) (x ∷ xs) = x ∷ take n xs

  abbrev pub drop : ℕ → List A → List A
  drop zero xs = xs
  drop (suc n) [] = []
  drop (suc n) (x ∷ xs) = drop n xs

  -- `xs.filter(p)`
  abbrev pub filter : (A → Bool) → List A → List A
  filter p [] = []
  filter p (x ∷ xs) = let rest = filter p xs in if p x then x ∷ rest else rest

  -- `xs.toReversed()`
  abbrev pub reversed : List A → List A
  reversed [] = []
  reversed (x ∷ xs) = reversed xs ++ x ∷ []

  -- `xs.at(-1)`
  abbrev pub last : List A → Option A
  last [] = none
  last (x ∷ []) = some x
  last (x ∷ y ∷ ys) = last (y ∷ ys)

  -- `xs.some(p)`
  abbrev pub any : (A → Bool) → List A → Bool
  any p [] = false
  any p (x ∷ xs) = p x || any p xs

  -- `xs.every(p)`
  abbrev pub all : (A → Bool) → List A → Bool
  all p [] = true
  all p (x ∷ xs) = p x && all p xs

  -- `xs.find(p)`
  abbrev pub find : (A → Bool) → List A → Option A
  find p [] = none
  find p (x ∷ xs) = if p x then some x else find p xs

  -- How many elements pass the test.
  abbrev pub count : (A → Bool) → List A → ℕ
  count p [] = 0
  count p (x ∷ xs) = (if p x then 1 else 0) + count p xs

  -- A predicate holds at every place of a list.
  abbrev pub All {κ} : (Holds : A → Type κ) (items : List A) → Type κ
  All Holds (item ∷ rest) = Holds item × All Holds rest
  All Holds [] = Unit

  pub length-append : (xs ys : List A) → length (xs ++ ys) ≡ length xs + length ys
  length-append [] ys = omega arith
  length-append (x ∷ xs) ys = omega (arith, length-append xs ys)

  pub count-le-length : (p : A → Bool) (xs : List A) → count p xs ≤ length xs
  count-le-length p [] = omega arith
  count-le-length p (x ∷ xs) = ground (arith, count-le-length p xs)

  pub find-holds : (p : A → Bool) (xs : List A) {x : A} → find p xs ≡ some x → p x ≡ true
  find-holds p [] h = absurd (cc h)
  find-holds p (y ∷ ys) {x} h = ground (arith, find-holds p ys {x = x})

  pub find-All {κ} :
      (P : A → Type κ) (p : A → Bool) (xs : List A) {x : A} → All P xs → find p xs ≡ some x → P x
  find-All P p [] v h = absurd (cc h)
  find-All P p (y ∷ ys) v h = elim (Bool-cases (p y)) [
    | inl e ↦ subst P (some_inj (rw e at h)) v.0
    | inr e ↦ find-All P p ys v.1 (rw e at h)
  ]

-- An element stands in a list.
abbrev pub Mem : {A : Type 0} → A → List A → Type 0
Mem x [] = ⊥
Mem x (y ∷ ys) = (x ≡ y) ⊎ Mem x ys

pub All-Mem : {A : Type 0} (P : A → Type 0) (x : A) (xs : List A) → All P xs → Mem x xs → P x
All-Mem P x [] v m = absurd m
All-Mem P x (y ∷ ys) v (inl e) = subst P (sym e) v.0
All-Mem P x (y ∷ ys) v (inr m) = All-Mem P x ys v.1 m

-- What every element of a list satisfies.
pub All-of_Mem : {A : Type 0} (P : A → Type 0) (xs : List A) → ((x : A) → Mem x xs → P x) → All P xs
All-of_Mem P [] h = tt
All-of_Mem P (x ∷ xs) h = (h x (inl refl), All-of_Mem P xs (λ y m. h y (inr m)))

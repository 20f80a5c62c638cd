-- ===== src/Prelude/Sorting.antt =====
-- The stable sort of the language, as insertion: `is_ahead x y` says that x stays before y.
use Prim.Native.Nat.{suc}
use mathlib.Core.Path.{◌≡◌, refl, ap, ◌∙◌}
use mathlib.Core.Logic.{◌⊎◌, inl, inr}
use mathlib.Core.Bool.{Bool, true, false}
use mathlib.Core.List.{List, [], ◌∷◌}
use loremaster.Prelude.Tests.{if◌then◌else◌, Bool-cases}
use loremaster.Prelude.Lists.{All, All-Mem, All-of_Mem, Mem, length}

-- A relation that holds between every two places.
abbrev pub Pairwise : {A : Type 0} → (A → A → Type 0) → List A → Type 0
Pairwise R [] = Unit
Pairwise R (x ∷ xs) = All (R x) xs × Pairwise R xs

module _ {A : Type 0} (is_ahead : A → A → Bool) where
  unfoldable pub insert : A → List A → List A
  insert x [] = x ∷ []
  insert x (y ∷ ys) = let rest = insert x ys in if is_ahead x y then x ∷ y ∷ ys else y ∷ rest

  -- `xs.sort(...)`
  unfoldable pub sort_by : List A → List A
  unfolding insert
  sort_by [] = []
  sort_by (x ∷ xs) = insert x (sort_by xs)

  -- Every item stays before all that follow it.
  abbrev pub IsSorted : List A → Type 0
  IsSorted [] = Unit
  IsSorted (x ∷ xs) = All (λ y. is_ahead x y ≡ true) xs × IsSorted xs

  insert-All : (P : A → Type 0) (x : A) (xs : List A) → P x → All P xs → All P (insert x xs)
  unfolding insert
  insert-All P x [] p h = (p, tt)
  insert-All P x (y ∷ ys) p h = elim (Bool-cases (is_ahead x y)) [
    | inl e ↦ rw e (p, h)
    | inr e ↦ rw e (h.0, insert-All P x ys p h.1)
  ]

  pub sort_by-All : (P : A → Type 0) (xs : List A) → All P xs → All P (sort_by xs)
  unfolding sort_by
  sort_by-All P [] h = tt
  sort_by-All P (x ∷ xs) h = insert-All P x (sort_by xs) h.0 (sort_by-All P xs h.1)

  length-insert : (x : A) (xs : List A) → length (insert x xs) ≡ suc (length xs)
  unfolding insert
  length-insert x [] = refl
  length-insert x (y ∷ ys) = elim (Bool-cases (is_ahead x y)) [
    | inl e ↦ rw e refl
    | inr e ↦ rw e (ap suc (length-insert x ys))
  ]

  pub length-sort_by : (xs : List A) → length (sort_by xs) ≡ length xs
  unfolding sort_by
  length-sort_by [] = refl
  length-sort_by (x ∷ xs) = length-insert x (sort_by xs) ∙ ap suc (length-sort_by xs)

  insert-first : (x : A) (xs : List A) → All (λ y. is_ahead x y ≡ true) xs → insert x xs ≡ x ∷ xs
  unfolding insert
  insert-first x [] h = refl
  insert-first x (y ∷ ys) h = rw h.0 refl

  -- A sorted list stays as it is.
  pub sort_by-sorted : (xs : List A) → IsSorted xs → sort_by xs ≡ xs
  unfolding sort_by
  sort_by-sorted [] h = refl
  sort_by-sorted (x ∷ xs) h = ap (insert x) (sort_by-sorted xs h.1) ∙ insert-first x xs h.0

  insert-Mem : (e x : A) (ys : List A) → (e ≡ x) ⊎ Mem e ys → Mem e (insert x ys)
  unfolding insert
  insert-Mem e x [] h = h
  insert-Mem e x (y ∷ ys) h = elim (Bool-cases (is_ahead x y)) [
    | inl b ↦ rw b h
    | inr b ↦ rw b (elim h [
      | inl p ↦ inr (insert-Mem e x ys (inl p))
      | inr (inl q) ↦ inl q
      | inr (inr r) ↦ inr (insert-Mem e x ys (inr r))
    ])
  ]

  pub sort_by-Mem : (e : A) (xs : List A) → Mem e xs → Mem e (sort_by xs)
  unfolding sort_by
  sort_by-Mem e [] h = h
  sort_by-Mem e (x ∷ xs) (inl p) = insert-Mem e x (sort_by xs) (inl p)
  sort_by-Mem e (x ∷ xs) (inr r) = insert-Mem e x (sort_by xs) (inr (sort_by-Mem e xs r))

  pub sort_by-from : (e : A) (xs : List A) → Mem e (sort_by xs) → Mem e xs
  sort_by-from e xs m =
      All-Mem (λ x. Mem x xs) e (sort_by xs)
        (sort_by-All (λ x. Mem x xs) xs (All-of_Mem (λ x. Mem x xs) xs (λ x k. k))) m

  insert-Pairwise :
      (R : A → A → Type 0) (x : A) (xs : List A)
      → ((y z : A) → R y z → R z y)
      → All (R x) xs
      → Pairwise R xs
      → Pairwise R (insert x xs)
  unfolding insert
  insert-Pairwise R x [] s a h = (tt, tt)
  insert-Pairwise R x (y ∷ ys) s a h = elim (Bool-cases (is_ahead x y)) [
    | inl e ↦ rw e (a, h)
    | inr e ↦ rw e (insert-All (R y) x ys (s x y a.0) h.0, insert-Pairwise R x ys s a.1 h.1)
  ]

  -- A symmetric relation between every two places is kept.
  pub sort_by-Pairwise :
      (R : A → A → Type 0) (xs : List A)
      → ((y z : A) → R y z → R z y)
      → Pairwise R xs
      → Pairwise R (sort_by xs)
  unfolding sort_by
  sort_by-Pairwise R [] s h = tt
  sort_by-Pairwise R (x ∷ xs) s h =
      insert-Pairwise R x (sort_by xs) s (sort_by-All (R x) xs h.0) (sort_by-Pairwise R xs s h.1)

  module _ (total : (x y : A) → is_ahead x y ≡ false → is_ahead y x ≡ true)
      (trans : (x y z : A) → is_ahead x y ≡ true → is_ahead y z ≡ true → is_ahead x z ≡ true) where
    All-ahead :
        (x y : A) (zs : List A)
        → is_ahead x y ≡ true
        → All (λ z. is_ahead y z ≡ true) zs
        → All (λ z. is_ahead x z ≡ true) zs
    All-ahead x y [] h v = tt
    All-ahead x y (z ∷ zs) h v = (trans x y z h v.0, All-ahead x y zs h v.1)

    insert-IsSorted : (x : A) (ys : List A) → IsSorted ys → IsSorted (insert x ys)
    unfolding insert
    insert-IsSorted x [] v = (tt, tt)
    insert-IsSorted x (y ∷ ys) v = elim (Bool-cases (is_ahead x y)) [
      | inl e ↦ rw e ((e, All-ahead x y ys e v.0), v)
      | inr e ↦
          rw e
            (insert-All (λ z. is_ahead y z ≡ true) x ys (total x y e) v.0, insert-IsSorted x ys v.1)
    ]

    pub sort_by-IsSorted : (xs : List A) → IsSorted (sort_by xs)
    unfolding sort_by
    sort_by-IsSorted [] = tt
    sort_by-IsSorted (x ∷ xs) = insert-IsSorted x (sort_by xs) (sort_by-IsSorted xs)

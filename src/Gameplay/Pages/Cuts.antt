-- ===== src/Gameplay/Pages/Cuts.antt =====
-- Where an ordered list of rows is cut (packages/database/src/gameplay/leaderboard.ts).
use loremaster.Prelude.{
  ℕ, zero, suc, ◌<◌, ◌≡◌, refl, ap, Bool, true, false, List, [], ◌∷◌, ◌++◌, none, some, All, filter,
  any, last, take, length, ltb, arith,
}
use loremaster.Prelude.Js.{codes, compare_text-eq}
use loremaster.Gameplay.{LeaderboardRow}
use loremaster.Gameplay.Pages.{position_of, is_after, is_past, same_text, same_position}
use loremaster.Gameplay.Pages.Order.{After, IsOrdered, not_after, not_after_itself}

-- The rows after a row of an ordered list are those that follow it.
filter-whole :
    (l : LeaderboardRow) (zs : List LeaderboardRow)
    → All (After l) zs
    → filter (is_after (position_of l)) zs ≡ zs
filter-whole l [] h = refl
filter-whole l (z ∷ zs) h = rw h.0 (ap (λ r. z ∷ r) (filter-whole l zs h.1))

pub All-at :
    (P : LeaderboardRow → Type 0) (ys : List LeaderboardRow) (l : LeaderboardRow)
    (zs : List LeaderboardRow)
    → All P (ys ++ l ∷ zs)
    → P l
All-at P [] l zs h = h.0
All-at P (y ∷ ys) l zs h = All-at P ys l zs h.1

pub filter-split :
    (ys : List LeaderboardRow) (l : LeaderboardRow) (zs : List LeaderboardRow)
    → IsOrdered (ys ++ l ∷ zs)
    → filter (is_after (position_of l)) (ys ++ l ∷ zs) ≡ zs
filter-split [] l zs h = rw (not_after_itself l) (filter-whole l zs h.0)
filter-split (y ∷ ys) l zs h =
    rw (not_after y l (All-at (After y) ys l zs h.0)) (filter-split ys l zs h.1)

pub filter-none : (xs : List LeaderboardRow) → filter (is_past none) xs ≡ xs
unfolding is_past
filter-none [] = refl
filter-none (x ∷ xs) = ap (λ r. x ∷ r) (filter-none xs)

pub same-itself : (r : LeaderboardRow) → same_position (position_of r) r ≡ true
unfolding same_position position_of same_text
same-itself r = ground (arith, compare_text-eq (codes r.attempt_id) (codes r.attempt_id))

pub any-at :
    (p : LeaderboardRow → Bool) (ys : List LeaderboardRow) (l : LeaderboardRow)
    (zs : List LeaderboardRow)
    → p l ≡ true
    → any p (ys ++ l ∷ zs) ≡ true
any-at p [] l zs h = rw h refl
any-at p (y ∷ ys) l zs h = ground (arith, any-at p ys l zs h)

-- A list longer than `n` at its `n`-th item.
unfoldable pub Split : ℕ → List LeaderboardRow → Type 0
Split n xs =
    (ys : List LeaderboardRow) × (l : LeaderboardRow) × (zs : List LeaderboardRow) × (take (suc n)
        xs
      ≡ ys ++ l ∷ [])
    × (xs ≡ ys ++ l ∷ zs)
    × (last (take (suc n) xs) ≡ some l)
    × (length zs < length xs)

last-cons :
    (y : LeaderboardRow) (xs : List LeaderboardRow) (l : LeaderboardRow)
    → last xs ≡ some l
    → last (y ∷ xs) ≡ some l
last-cons y [] l h = absurd (cc h)
last-cons y (x ∷ xs) l h = h

pub cut_lem : (n : ℕ) (xs : List LeaderboardRow) → n < length xs → Split n xs
unfolding Split
cut_lem n [] h = absurd (omega (arith, h))
cut_lem zero (x ∷ xs) h = ([], x, xs, refl, refl, refl, omega arith)
cut_lem (suc n) (x ∷ xs) h =
    let (ys, l, zs, t, e, a, d) = cut_lem n xs (omega (arith, h)) in
    (
      x ∷ ys,
      l,
      zs,
      ap (λ r. x ∷ r) t,
      ap (λ r. x ∷ r) e,
      last-cons x (take (suc n) xs) l a,
      omega (arith, d),
    )

pub take-take : (n : ℕ) (xs : List LeaderboardRow) → take n (take (suc n) xs) ≡ take n xs
take-take zero xs = refl
take-take (suc n) [] = refl
take-take (suc n) (x ∷ xs) = ap (λ r. x ∷ r) (take-take n xs)

pub ltb-take :
    (n : ℕ) (xs : List LeaderboardRow) → ltb n (length (take (suc n) xs)) ≡ ltb n (length xs)
ltb-take zero [] = refl
ltb-take zero (x ∷ xs) = ground arith
ltb-take (suc n) [] = refl
ltb-take (suc n) (x ∷ xs) = ground (arith, ltb-take n xs)

pub take-all : (n : ℕ) (xs : List LeaderboardRow) → ltb n (length xs) ≡ false → take n xs ≡ xs
take-all zero [] h = refl
take-all (suc n) [] h = refl
take-all zero (x ∷ xs) h = ground arith
take-all (suc n) (x ∷ xs) h = ap (λ r. x ∷ r) (take-all n xs (ground arith))

-- ===== src/Gameplay/Pages/Order.antt =====
-- The order of the pages of packages/database/src/gameplay/leaderboard.ts is strict and total.
use loremaster.Prelude.{
  ◌≡◌, ◌≢◌, refl, ap, ◌∙◌, inl, inr, Bool, true, false, ◌||◌, List, [], ◌∷◌, Ordering, any, All,
  Bool-cases, arith,
}
use loremaster.Prelude.Js.{compare_text-swap, compare_text-eq, compare_text_trans}
use loremaster.Gameplay.{LeaderboardRow}
use loremaster.Gameplay.Pages.{
  Position, compare_positions, position_of, is_before, is_after, insert_row, sort_rows,
}

-- `q` comes after `r`.
abbrev pub After : LeaderboardRow → LeaderboardRow → Type 0
After r q = is_after (position_of r) q ≡ true

-- Two rows are not at one position.
abbrev pub Apart : LeaderboardRow → LeaderboardRow → Type 0
Apart r q = compare_positions (position_of r) (position_of q) ≢ Ordering.eq

abbrev pub Distinct : List LeaderboardRow → Type 0
Distinct [] = Unit
Distinct (r ∷ rs) = All (Apart r) rs × Distinct rs

abbrev pub IsOrdered : List LeaderboardRow → Type 0
IsOrdered [] = Unit
IsOrdered (r ∷ rs) = All (After r) rs × IsOrdered rs

lt_trans :
    (a b c : Position)
    → compare_positions a b ≡ Ordering.lt
    → compare_positions b c ≡ Ordering.lt
    → compare_positions a c ≡ Ordering.lt
unfolding compare_positions
lt_trans a b c h k = ground (
  arith,
  compare_text_trans a.attempt_id b.attempt_id c.attempt_id,
  compare_text_trans b.attempt_id c.attempt_id a.attempt_id,
  compare_text-swap a.attempt_id c.attempt_id,
  compare_text-swap a.attempt_id b.attempt_id,
  compare_text-swap b.attempt_id c.attempt_id,
  compare_text-eq a.attempt_id c.attempt_id,
)

flipped :
    (a b : Position)
    → compare_positions a b ≢ Ordering.lt
    → compare_positions a b ≢ Ordering.eq
    → compare_positions b a ≡ Ordering.lt
unfolding compare_positions
flipped a b h k = ground (arith, compare_text-swap a.attempt_id b.attempt_id)

not_before :
    (a b : Position) → compare_positions a b ≡ Ordering.lt → compare_positions b a ≢ Ordering.lt
unfolding compare_positions
not_before a b h = ground (arith, compare_text-swap a.attempt_id b.attempt_id)

itself : (a : Position) → compare_positions a a ≡ Ordering.eq
unfolding compare_positions
itself a = ground (arith, compare_text-eq a.attempt_id a.attempt_id)

After-lt :
    (r q : LeaderboardRow)
    → After r q
    → compare_positions (position_of r) (position_of q) ≡ Ordering.lt
unfolding is_after is_before
After-lt r q h = ground arith

lt-After :
    (r q : LeaderboardRow)
    → compare_positions (position_of r) (position_of q) ≡ Ordering.lt
    → After r q
unfolding is_after is_before
lt-After r q h = rw h refl

pub After-trans : (a b c : LeaderboardRow) → After a b → After b c → After a c
After-trans a b c h k =
    lt-After a c
      (lt_trans (position_of a) (position_of b) (position_of c) (After-lt a b h) (After-lt b c k))

not_lt :
    (r q : LeaderboardRow)
    → is_after (position_of r) q ≡ false
    → compare_positions (position_of r) (position_of q) ≢ Ordering.lt
unfolding is_after is_before
not_lt r q h = ground arith

After-of_not : (r q : LeaderboardRow) → Apart r q → is_after (position_of r) q ≡ false → After q r
After-of_not r q a h = lt-After q r (flipped (position_of r) (position_of q) (not_lt r q h) a)

pub not_after : (r q : LeaderboardRow) → After r q → is_after (position_of q) r ≡ false
unfolding is_after is_before
not_after r q h = ground (arith, not_before (position_of r) (position_of q), After-lt r q)

pub not_after_itself : (r : LeaderboardRow) → is_after (position_of r) r ≡ false
unfolding is_after is_before
not_after_itself r = rw (itself (position_of r)) refl

insert-All :
    (P : LeaderboardRow → Type 0) (r : LeaderboardRow) (xs : List LeaderboardRow)
    → P r
    → All P xs
    → All P (insert_row r xs)
unfolding insert_row
insert-All P r [] p h = (p, tt)
insert-All P r (q ∷ qs) p h = elim (Bool-cases (is_after (position_of r) q)) [
  | inl e ↦ rw e (p, h)
  | inr e ↦ rw e (h.0, insert-All P r qs p h.1)
]

pub sort-All :
    (P : LeaderboardRow → Type 0) (xs : List LeaderboardRow) → All P xs → All P (sort_rows xs)
unfolding sort_rows
sort-All P [] h = tt
sort-All P (x ∷ xs) h = insert-All P x (sort_rows xs) h.0 (sort-All P xs h.1)

All-After :
    (r q : LeaderboardRow) (xs : List LeaderboardRow)
    → After r q
    → All (After q) xs
    → All (After r) xs
All-After r q [] a h = tt
All-After r q (x ∷ xs) a h = (After-trans r q x a h.0, All-After r q xs a h.1)

insert-IsOrdered :
    (r : LeaderboardRow) (xs : List LeaderboardRow)
    → All (Apart r) xs
    → IsOrdered xs
    → IsOrdered (insert_row r xs)
unfolding insert_row
insert-IsOrdered r [] a h = (tt, tt)
insert-IsOrdered r (q ∷ qs) a h = elim (Bool-cases (is_after (position_of r) q)) [
  | inl e ↦ rw e ((e, All-After r q qs e h.0), h)
  | inr e ↦
      rw e (insert-All (After q) r qs (After-of_not r q a.0 e) h.0, insert-IsOrdered r qs a.1 h.1)
]

-- Rows at different positions are put in a strict order.
pub sort-IsOrdered : (xs : List LeaderboardRow) → Distinct xs → IsOrdered (sort_rows xs)
unfolding sort_rows
sort-IsOrdered [] h = tt
sort-IsOrdered (x ∷ xs) h =
    insert-IsOrdered x (sort_rows xs) (sort-All (Apart x) xs h.0) (sort-IsOrdered xs h.1)

any-insert :
    (p : LeaderboardRow → Bool) (r : LeaderboardRow) (xs : List LeaderboardRow)
    → any p (insert_row r xs) ≡ (p r || any p xs)
unfolding insert_row
any-insert p r [] = refl
any-insert p r (q ∷ qs) = ground (arith, any-insert p r qs)

-- Sorting keeps the rows.
pub any-sort :
    (p : LeaderboardRow → Bool) (xs : List LeaderboardRow) → any p (sort_rows xs) ≡ any p xs
unfolding sort_rows
any-sort p [] = refl
any-sort p (x ∷ xs) = any-insert p x (sort_rows xs) ∙ ap (λ b. p x || b) (any-sort p xs)

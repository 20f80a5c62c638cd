-- ===== src/Gameplay/Pages/Walk.antt =====
-- Reading the pages of packages/database/src/gameplay/leaderboard.ts one after the other, from the
-- cursor that each page gives.
use loremaster.Prelude.{
  ℕ, zero, suc, ◌+◌, ◌≤◌, ◌<◌, ◌≡◌, refl, sym, ap, ◌∙◌, inl, inr, true, false, List, [], ◌∷◌, ◌++◌,
  map, Option, none, some, String, Result, ok, ◌>>=◌, All, filter, any, last, take, length, ltb,
  Bool-cases, ltb→lt, arith,
}
use loremaster.Prelude.Int.{pos}
use loremaster.Prelude.Js.{int, codes, max_safe_integer}
use loremaster.Gameplay.{Store, LeaderboardRow}
use loremaster.Gameplay.Pages.{
  Cursor, Position, LeaderboardEntry, LeaderboardPage, PageError, is_uuid, lower, cursor_of,
  position_of, is_after, is_past, sort_rows, slot_rows, project_row, same_position, cursor_exists,
  valid_cursor, natural_at_most, position, valid_slot_id, read_daily_leaderboard_page,
  checked_cursor, checked_limit, valid_limit, read_checked, page_at, page_of, query_rows,
  next_after,
}
use loremaster.Gameplay.Pages.Cuts.{
  All-at, filter-split, filter-none, same-itself, any-at, Split, cut_lem, take-take, ltb-take,
  take-all,
}
use loremaster.Gameplay.Pages.Order.{Distinct, IsOrdered, sort-All, sort-IsOrdered, any-sort}
use mathlib.Core.List.{append_assoc}
use mathlib.Core.Path.{subst}

-- What the columns hold: a UUID in its usual text, and numbers in their ranges.
abbrev pub IsStored : LeaderboardRow → Type 0
IsStored r =
    (is_uuid (codes r.attempt_id) ≡ true)
    × (lower (codes r.attempt_id) ≡ codes r.attempt_id)
    × (r.evidence_level ≤ 4)
    × (r.total_wrong_guesses ≤ 15)
    × (r.elapsed_ms ≤ max_safe_integer)

follow :
    List LeaderboardEntry
    → (Cursor → Result PageError (List LeaderboardEntry))
    → Option Cursor
    → Result PageError (List LeaderboardEntry)
follow items next none = ok items
follow items next (some c) = next c >>= λ rest. ok (items ++ rest)

continue_from :
    (Cursor → Result PageError (List LeaderboardEntry))
    → LeaderboardPage
    → Result PageError (List LeaderboardEntry)
unfolding follow
continue_from next page = follow page.items next page.next_position

-- The entries of the pages from a cursor on, `fuel` pages at most.
unfoldable pub walk :
    ℕ → Store → String → ℕ → Option Cursor → Result PageError (List LeaderboardEntry)
unfolding continue_from
walk zero s slot_id limit cursor = ok []
walk (suc fuel) s slot_id limit cursor =
    read_daily_leaderboard_page s
      (record { slot_id = slot_id; limit = int (pos limit); cursor = cursor })
    >>= continue_from (λ c. walk fuel s slot_id limit (some c))

natural-of : (bound n : ℕ) → n ≤ bound → natural_at_most bound (int (pos n)) ≡ some n
unfolding natural_at_most
natural-of bound n h = ground arith

IsStored-cursor :
    (r : LeaderboardRow) → IsStored r → valid_cursor (cursor_of r) ≡ some (position_of r)
unfolding valid_cursor position cursor_of position_of
IsStored-cursor r (u, l, e, w, t) =
    rw
      (
        u,
        l,
        natural-of 4 r.evidence_level e,
        natural-of 15 r.total_wrong_guesses w,
        natural-of max_safe_integer r.elapsed_ms t,
      )
      refl

-- A cursor at which `rest` is what is left of the slot.
Leaves : List LeaderboardRow → Option Cursor → List LeaderboardRow → Type 0
Leaves slot cursor rest =
    (p : Option Position) × (checked_cursor cursor ≡ some p)
    × (cursor_exists slot p ≡ true)
    × (filter (is_past p) (sort_rows slot) ≡ rest)

start-Leaves : (slot : List LeaderboardRow) → Leaves slot none (sort_rows slot)
unfolding Leaves checked_cursor cursor_exists
start-Leaves slot = (none, refl, refl, filter-none (sort_rows slot))

checked_cursor-of :
    (r : LeaderboardRow)
    → IsStored r
    → checked_cursor (some (cursor_of r)) ≡ some (some (position_of r))
unfolding checked_cursor
checked_cursor-of r v = rw (checked_cursor, IsStored-cursor r v) refl

row-Leaves :
    (slot ys : List LeaderboardRow) (l : LeaderboardRow) (zs : List LeaderboardRow)
    → Distinct slot
    → All IsStored slot
    → sort_rows slot ≡ ys ++ l ∷ zs
    → Leaves slot (some (cursor_of l)) zs
unfolding Leaves cursor_exists is_past
row-Leaves slot ys l zs d v e = (
  some (position_of l),
  checked_cursor-of l (All-at IsStored ys l zs (subst (All IsStored) e (sort-All IsStored slot v))),
  sym (any-sort (same_position (position_of l)) slot)
      ∙ ap (any (same_position (position_of l))) e
      ∙ any-at (same_position (position_of l)) ys l zs (same-itself l),
  ap (filter (is_after (position_of l))) e
      ∙ filter-split ys l zs (subst IsOrdered e (sort-IsOrdered slot d)),
)

checked_limit-of :
    (limit : ℕ) → 1 ≤ limit → limit ≤ 100 → checked_limit (int (pos limit)) ≡ some limit
unfolding checked_limit valid_limit natural_at_most
checked_limit-of limit l u = ground arith

suc-of : (n : ℕ) → n + 1 ≡ suc n
suc-of n = omega arith

query_rows-of :
    (slot : List LeaderboardRow) (p : Option Position) (limit : ℕ) (rest : List LeaderboardRow)
    → filter (is_past p) (sort_rows slot) ≡ rest
    → query_rows slot p limit ≡ take (suc limit) rest
unfolding query_rows
query_rows-of slot p limit rest h = ap (take (limit + 1)) h ∙ ap (λ n. take n rest) (suc-of limit)

-- A page from such a cursor.
page-at :
    (s : Store) (slot_id : String) (limit : ℕ) (cursor : Option Cursor) (rest : List LeaderboardRow)
    → valid_slot_id slot_id ≡ true
    → 1 ≤ limit
    → limit ≤ 100
    → Leaves (slot_rows s slot_id) cursor rest
    → read_daily_leaderboard_page s
        (record { slot_id = slot_id; limit = int (pos limit); cursor = cursor })
      ≡ ok (page_of (slot_rows s slot_id) limit (take (suc limit) rest))
unfolding Leaves read_daily_leaderboard_page read_checked page_at
page-at s slot_id limit cursor rest v l u (p, c, e, f) =
    rw (v, checked_limit-of limit l u, c, e, query_rows-of (slot_rows s slot_id) p limit rest f)
      refl

next_after-none :
    (limit : ℕ) (rest : List LeaderboardRow) (r : Option LeaderboardRow)
    → ltb limit (length rest) ≡ false
    → next_after limit (take (suc limit) rest) r ≡ none
unfolding next_after
next_after-none limit rest none h = refl
next_after-none limit rest (some r) h = rw (ltb-take limit rest, h) refl

-- What a page shows, and where it continues.
page-last :
    (slot : List LeaderboardRow) (limit : ℕ) (rest : List LeaderboardRow)
    → ltb limit (length rest) ≡ false
    → page_of slot limit (take (suc limit) rest)
      ≡ (record { items = map (project_row slot) rest; next_position = none })
unfolding page_of
page-last slot limit rest h =
    rw (take-take limit rest, take-all limit rest h, next_after-none limit rest (last rest) h) refl

page-split :
    (slot : List LeaderboardRow) (limit : ℕ) (rest ys : List LeaderboardRow) (l : LeaderboardRow)
    → ltb limit (length rest) ≡ true
    → take limit rest ≡ ys ++ l ∷ []
    → last (take limit rest) ≡ some l
    → page_of slot limit (take (suc limit) rest) ≡ (record {
      items = map (project_row slot) (ys ++ l ∷ []);
      next_position = some (cursor_of l);
    })
unfolding page_of next_after
page-split slot limit rest ys l h t a = rw (take-take limit rest, a, ltb-take limit rest, h, t) refl

map-append :
    (f : LeaderboardRow → LeaderboardEntry) (xs ys : List LeaderboardRow)
    → map f (xs ++ ys) ≡ map f xs ++ map f ys
map-append f [] ys = refl
map-append f (x ∷ xs) ys = ap (λ r. f x ∷ r) (map-append f xs ys)

-- The pages that follow a page.
walk-split :
    (s : Store) (slot_id : String) (m fuel : ℕ) (cursor : Option Cursor)
    (rest ys : List LeaderboardRow) (l : LeaderboardRow) (zs : List LeaderboardRow)
    → valid_slot_id slot_id ≡ true
    → suc m ≤ 100
    → Leaves (slot_rows s slot_id) cursor rest
    → ltb (suc m) (length rest) ≡ true
    → take (suc m) rest ≡ ys ++ l ∷ []
    → last (take (suc m) rest) ≡ some l
    → rest ≡ ys ++ l ∷ zs
    → walk fuel s slot_id (suc m) (some (cursor_of l))
      ≡ ok (map (project_row (slot_rows s slot_id)) zs)
    → walk (suc fuel) s slot_id (suc m) cursor ≡ ok (map (project_row (slot_rows s slot_id)) rest)
unfolding walk continue_from follow
walk-split s slot_id m fuel cursor rest ys l zs v u at b t a x ih =
    rw
      (
        page-at s slot_id (suc m) cursor rest v (omega arith) u at,
        page-split (slot_rows s slot_id) (suc m) rest ys l b t a,
        ih,
      )
      (ap ok (
        sym (map-append (project_row (slot_rows s slot_id)) (ys ++ l ∷ []) zs)
        ∙ ap (map (project_row (slot_rows s slot_id))) (append_assoc ys (l ∷ []) zs ∙ sym x)))

-- With `fuel` pages, from a cursor on, the pages are the projected rest of the slot.
Walks : Store → String → ℕ → ℕ → Type 0
Walks s slot_id m fuel =
    (cursor : Option Cursor) (pre rest : List LeaderboardRow)
    → Leaves (slot_rows s slot_id) cursor rest
    → sort_rows (slot_rows s slot_id) ≡ pre ++ rest
    → length rest < fuel
    → walk fuel s slot_id (suc m) cursor ≡ ok (map (project_row (slot_rows s slot_id)) rest)

less-suc : (m n : ℕ) → suc m < n → m < n
less-suc m n h = omega (arith, h)

-- A page that is cut at a row.
walk-cut :
    (s : Store) (slot_id : String) (m fuel : ℕ) (cursor : Option Cursor)
    (pre rest : List LeaderboardRow)
    → valid_slot_id slot_id ≡ true
    → suc m ≤ 100
    → Distinct (slot_rows s slot_id)
    → All IsStored (slot_rows s slot_id)
    → Walks s slot_id m fuel
    → Leaves (slot_rows s slot_id) cursor rest
    → sort_rows (slot_rows s slot_id) ≡ pre ++ rest
    → length rest < suc fuel
    → ltb (suc m) (length rest) ≡ true
    → Split m rest
    → walk (suc fuel) s slot_id (suc m) cursor ≡ ok (map (project_row (slot_rows s slot_id)) rest)
unfolding Split Walks
walk-cut s slot_id m fuel cursor pre rest v u d st ih at e f b (ys, l, zs, t, x, a, n) =
    walk-split s slot_id m fuel cursor rest ys l zs v u at b t a x (
      ih (some (cursor_of l)) (pre ++ (ys ++ l ∷ [])) zs
        (row-Leaves (slot_rows s slot_id) (pre ++ ys) l zs d st
          (e ∙ ap (λ r. pre ++ r) x ∙ sym (append_assoc pre ys (l ∷ zs))))
        (e
          ∙ ap (λ r. pre ++ r) x
          ∙ ap (λ r. pre ++ r) (sym (append_assoc ys (l ∷ []) zs))
          ∙ sym (append_assoc pre (ys ++ l ∷ []) zs))
        (omega (arith, f, n)))

fuel-Walks :
    (s : Store) (slot_id : String) (m fuel : ℕ)
    → valid_slot_id slot_id ≡ true
    → suc m ≤ 100
    → Distinct (slot_rows s slot_id)
    → All IsStored (slot_rows s slot_id)
    → Walks s slot_id m fuel
unfolding walk continue_from follow Walks
fuel-Walks s slot_id m zero v u d st cursor pre rest at e f = absurd (omega (arith, f))
fuel-Walks s slot_id m (suc fuel) v u d st cursor pre rest at e f =
    elim (Bool-cases (ltb (suc m) (length rest))) [
      | inl b ↦
          walk-cut s slot_id m fuel cursor pre rest v u d st (fuel-Walks s slot_id m fuel v u d st)
            at e f b (cut_lem m rest (less-suc m (length rest) (ltb→lt (suc m) (length rest) b)))
      | inr b ↦
          rw
            (
              page-at s slot_id (suc m) cursor rest v (omega arith) u at,
              page-last (slot_rows s slot_id) (suc m) rest b,
            )
            refl
    ]

-- When the rows of a slot are as they are stored and no two of them are at the same position, then
-- for every page size from 1 to 100, reading the first page and then each page from the cursor that
-- the page before it gave ends after at most as many pages as there are rows and one, no read is
-- refused, and the pages put together are the rows of the slot in the order of the pages, each
-- with its rank among all of them: no row is missed and none is shown twice.
pub walk_lem :
    (s : Store) (slot_id : String) (limit : ℕ)
    → valid_slot_id slot_id ≡ true
    → 1 ≤ limit
    → limit ≤ 100
    → Distinct (slot_rows s slot_id)
    → All IsStored (slot_rows s slot_id)
    → walk (length (sort_rows (slot_rows s slot_id)) + 1) s slot_id limit none
      ≡ ok (map (project_row (slot_rows s slot_id)) (sort_rows (slot_rows s slot_id)))
unfolding Walks
walk_lem s slot_id zero v l u d st = absurd (omega (arith, l))
walk_lem s slot_id (suc m) v l u d st =
    fuel-Walks s slot_id m (length (sort_rows (slot_rows s slot_id)) + 1) v u d st none []
      (sort_rows (slot_rows s slot_id)) (start-Leaves (slot_rows s slot_id)) refl (omega arith)

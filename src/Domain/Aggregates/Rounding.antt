-- ===== src/Domain/Aggregates/Rounding.antt =====
-- `roundHalfUp` of packages/domain/src/aggregates.ts rounds to the nearest integer, halves up.
use native.Mathlib.Nat.{div-add-mod, mod-lt}
use loremaster.Prelude.{ℕ, ◌+◌, ◌*◌, ◌/◌, ◌≤◌, ◌<◌, ◌≡◌, ok, arith}
use loremaster.Domain.Aggregates.{round_half_up}

division : (x m q : ℕ) → 0 < m → q ≡ x / m → (q * m ≤ x) × (x < q * m + m)
division x m q h e = grind (arith, div-add-mod, mod-lt)

-- The result q is the integer with q - 1/2 <= n/d < q + 1/2.
pub round_half_up_lem :
    (n d q : ℕ)
    → round_half_up n d ≡ ok q
    → (0 < d) × (q * (d * 2) ≤ n * 2 + d) × (n * 2 + d < q * (d * 2) + d * 2)
unfolding round_half_up
round_half_up_lem n d q h =
    let pos : 0 < d = ground arith in
    let e : q ≡ (n * 2 + d) / (d * 2) = ground arith in
    let (lower, upper) = division (n * 2 + d) (d * 2) q (omega arith) e in (pos, lower, upper)

product_le : (a q m : ℕ) → a ≤ q → a * m ≤ q * m
product_le a q m h = grind arith

over_hundred :
    (part whole q : ℕ)
    → part ≤ whole
    → 0 < whole
    → q * (whole * 2) ≤ part * 100 * 2 + whole
    → 101 * (whole * 2) ≤ q * (whole * 2)
    → ⊥
over_hundred part whole q h p lower k = omega arith

le_of_not_over : (q : ℕ) → (101 ≤ q → ⊥) → q ≤ 100
le_of_not_over q f = omega arith

-- A share of a whole is at most a hundred percent.
pub percentage_bound :
    (part whole q : ℕ) → part ≤ whole → round_half_up (part * 100) whole ≡ ok q → q ≤ 100
percentage_bound part whole q h e =
    let (pos, lower, upper) = round_half_up_lem (part * 100) whole q e in
    le_of_not_over q
      (λ over. over_hundred part whole q h pos lower (product_le 101 q (whole * 2) over))

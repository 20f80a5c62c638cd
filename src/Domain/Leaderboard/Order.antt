-- ===== src/Domain/Leaderboard/Order.antt =====
-- The comparisons of packages/domain/src/leaderboard.ts are total orders.
use loremaster.Prelude.{Ordering, ◌≡◌, ◌≢◌, arith}
use loremaster.Prelude.Js.{compare_text-swap, compare_text_trans}
use loremaster.Domain.Leaderboard.{
  LeaderboardCandidate, compare_performance, compare_pagination_order,
}

-- `x` performs at least as well as `y`.
abbrev pub NotWorse : LeaderboardCandidate → LeaderboardCandidate → Type 0
NotWorse x y = compare_performance x y ≢ Ordering.gt

-- `x` may stand before `y` on a page.
abbrev pub Before : LeaderboardCandidate → LeaderboardCandidate → Type 0
Before x y = compare_pagination_order x y ≢ Ordering.gt

pub NotWorse-trans : (x y z : LeaderboardCandidate) → NotWorse x y → NotWorse y z → NotWorse x z
unfolding compare_performance
NotWorse-trans x y z p q = ground arith

pub Before-trans : (x y z : LeaderboardCandidate) → Before x y → Before y z → Before x z
unfolding compare_performance compare_pagination_order
Before-trans x y z p q = ground (arith, compare_text_trans x.attempt_id y.attempt_id z.attempt_id)

pub Before-of_gt :
    (x y : LeaderboardCandidate) → compare_pagination_order x y ≡ Ordering.gt → Before y x
unfolding compare_performance compare_pagination_order
Before-of_gt x y h = ground (arith, compare_text-swap x.attempt_id y.attempt_id)

pub NotWorse-of_Before : (x y : LeaderboardCandidate) → Before x y → NotWorse x y
unfolding compare_pagination_order
NotWorse-of_Before x y h = ground arith

-- Whoever is compared with two equals fares alike.
pub performance_congr :
    (c x y : LeaderboardCandidate)
    → compare_performance x y ≡ Ordering.eq
    → compare_performance c x ≡ compare_performance c y
unfolding compare_performance
performance_congr c x y h = ground arith

pub performance_flip :
    (x y : LeaderboardCandidate) → NotWorse x y → compare_performance y x ≢ Ordering.lt
unfolding compare_performance
performance_flip x y h = ground arith

pub better_trans :
    (c x y : LeaderboardCandidate)
    → NotWorse c x
    → NotWorse x y
    → compare_performance x y ≢ Ordering.eq
    → compare_performance c y ≡ Ordering.lt
unfolding compare_performance
better_trans c x y p q n = ground arith

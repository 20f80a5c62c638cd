-- ===== src/Domain/Attempt/Score/Bounds.antt =====
-- Bounds and monotonicity of the score (packages/domain/src/attempt-engine.ts).
use loremaster.Prelude.{ℕ, ◌≤◌, ◌<◌, ◌≡◌, ◌↔◌, refl, ap, true, false, ok, arith, >>=-eq-ok}
use loremaster.Prelude.Int.{pos}
use loremaster.Prelude.Js.{Number, int, is_finite, is_negative}
use loremaster.Domain.Attempt.{Snapshot, solved, ScoreBreakdown}
use loremaster.Domain.Attempt.Validity.{IsValid, IsValid-of_assert, assert_valid-to_candidate}
use loremaster.Domain.Attempt.Score.{
  level_tier_score, bonus_at, breakdown, time_bonus_for, score_solved_attempt,
}

bonus-le : (x : Number) → bonus_at x ≤ 150
bonus-le x = ground arith

-- The bonus never grows with the elapsed time.
bonus_antitone : (s t : ℕ) → s ≤ t → bonus_at (int (pos t)) ≤ bonus_at (int (pos s))
bonus_antitone s t h = ground arith

abbrev pub IsElapsed : Number → Type 0
IsElapsed x = (is_finite x ≡ true) × (is_negative x ≡ false)

time_bonus_returns : (x : Number) → IsElapsed x → time_bonus_for x ≡ ok (bonus_at x)
unfolding time_bonus_for
time_bonus_returns x (f, n) = rw (f, n) refl

time_bonus_input : (x : Number) {n : ℕ} → time_bonus_for x ≡ ok n → IsElapsed x
unfolding time_bonus_for
time_bonus_input x h = ground arith

score_returns :
    (a : Snapshot) (x : Number)
    → IsValid a
    → IsElapsed x
    → score_solved_attempt a x ≡ ok (breakdown a (bonus_at x))
unfolding score_solved_attempt
score_returns a x v e = rw (assert_valid-to_candidate a v, time_bonus_returns x e) refl

score_input :
    (a : Snapshot) (x : Number) (r : ScoreBreakdown)
    → score_solved_attempt a x ≡ ok r
    → IsValid a × IsElapsed x
unfolding score_solved_attempt
score_input a x r h =
    let (b, e, k) = >>=-eq-ok _ _ h in
    let (n, q, l) = >>=-eq-ok _ _ k in (IsValid-of_assert a b e, time_bonus_input x q)

-- The result is determined by the level, the wrong guesses and the bonus.
score_value :
    (a : Snapshot) (x : Number) (r : ScoreBreakdown)
    → score_solved_attempt a x ≡ ok r
    → r ≡ breakdown a (bonus_at x)
score_value a x r h = let (v, e) = score_input a x r h in cc (score_returns a x v e)

breakdown_floor :
    (a : Snapshot) (n : ℕ)
    → IsValid a
    → a.state ≡ solved
    → a.evidence_level < 4
    → 60 ≤ (breakdown a n).score
breakdown_floor a n v s l = ground arith

breakdown_ceiling : (a : Snapshot) (n : ℕ) → n ≤ 150 → (breakdown a n).score ≤ 1350
breakdown_ceiling a n h = ground arith

-- A score is computed exactly for a valid snapshot and a finite elapsed time that is not negative.
-- It never passes 1350 points, and a solve before the last level always keeps at least 60.
pub score_bounds :
    (a : Snapshot) (x : Number)
    → (((r : ScoreBreakdown) × (score_solved_attempt a x ≡ ok r)) ↔ (IsValid a × IsElapsed x))
      × ((r : ScoreBreakdown)
          → score_solved_attempt a x ≡ ok r
          → (r.score ≤ 1350) × (a.state ≡ solved → a.evidence_level < 4 → 60 ≤ r.score))
score_bounds a x = (
  (λ (r, h). score_input a x r h, λ (v, e). (breakdown a (bonus_at x), score_returns a x v e)),
  λ r h. rw (score_value a x r h) (
    breakdown_ceiling a (bonus_at x) (bonus-le x),
    breakdown_floor a (bonus_at x) (score_input a x r h).0,
  ),
)

-- At one level, neither more wrong guesses nor more elapsed time ever raises the score.
pub score_antitone :
    (a b : Snapshot) (s t : ℕ) (q r : ScoreBreakdown)
    → a.evidence_level ≡ b.evidence_level
    → a.total_wrong_guesses ≤ b.total_wrong_guesses
    → s ≤ t
    → score_solved_attempt a (int (pos s)) ≡ ok q
    → score_solved_attempt b (int (pos t)) ≡ ok r
    → r.score ≤ q.score
score_antitone a b s t q r e w h hq hr = omega (
  arith,
  bonus_antitone s t h,
  ap level_tier_score e,
  ap (λ (x : ScoreBreakdown). x.score) (score_value a (int (pos s)) q hq),
  ap (λ (x : ScoreBreakdown). x.score) (score_value b (int (pos t)) r hr),
)

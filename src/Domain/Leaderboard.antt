-- ===== src/Domain/Leaderboard.antt =====
-- packages/domain/src/leaderboard.ts: the candidates' check, the two comparisons and the ranking.
pub mod Order
pub mod Ranking
use loremaster.Prelude.{
  ℕ, ◌+◌, ◌*◌, compare, Ordering, Bool, true, false, ◌||◌, Option, none, some, List, [], ◌∷◌,
  Result, ok, err, ◌>>=◌, ◌>>◌, throw_if, str_eq, if◌then◌else◌, any,
}
use loremaster.Prelude.Js.{Field, string, natural_up_to, max_safe_integer, Text, compare_text}

-- A candidate that has passed the check.
pub record LeaderboardCandidate : Type 0 where
  pub attempt_id : Text
  pub evidence_level : ℕ
  pub total_wrong_guesses : ℕ
  pub elapsed_milliseconds : ℕ

pub record RankedLeaderboardEntry : Type 0 where
  pub candidate : LeaderboardCandidate
  pub open candidate use *
  pub rank : ℕ

-- An `unknown` candidate: no object, or an object with the fields that are read. `attempt_id` is
-- `none` where it is no string.
pub data Entry : Type 0 where
  not_an_object : Entry
  object :
      (attempt_id : Option Text)
      (state evidence_level total_wrong_guesses elapsed_milliseconds : Field)
      → Entry

pub data LeaderboardError : Type 0 where
  candidate_must_be_an_object : LeaderboardError
  accepts_solved_attempts_only : LeaderboardError
  evidence_level_out_of_range : LeaderboardError
  total_wrong_guesses_unreachable : LeaderboardError
  elapsed_milliseconds_not_natural : LeaderboardError
  attempt_id_empty : LeaderboardError
  attempt_ids_not_unique : LeaderboardError

require : {A : Type 0} → Option A → LeaderboardError → Result LeaderboardError A
require (some a) e = ok a
require none e = err e

is_solved : Field → Bool
is_solved (string s) = str_eq s "SOLVED"
is_solved _ = false

not_empty : Option Text → Option Text
not_empty none = none
not_empty (some []) = none
not_empty (some (c ∷ t)) = some (c ∷ t)

unfoldable pub assert_leaderboard_candidate : Entry → Result LeaderboardError LeaderboardCandidate
unfolding require is_solved not_empty natural_up_to
assert_leaderboard_candidate not_an_object = err candidate_must_be_an_object
assert_leaderboard_candidate (object attempt_id state level total elapsed) = do
  (if is_solved state then ok tt else err accepts_solved_attempts_only)
  evidence_level ← require (natural_up_to 4 level) evidence_level_out_of_range
  total_wrong_guesses ←
      require (natural_up_to (evidence_level * 3 + 2) total) total_wrong_guesses_unreachable
  elapsed_milliseconds ←
      require (natural_up_to max_safe_integer elapsed) elapsed_milliseconds_not_natural
  id ← require (not_empty attempt_id) attempt_id_empty
  ok (record {
    attempt_id = id;
    evidence_level = evidence_level;
    total_wrong_guesses = total_wrong_guesses;
    elapsed_milliseconds = elapsed_milliseconds;
  })

-- `a || b` of two signed differences: the second counts where the first is 0.
abbrev or_else : Ordering → Ordering → Ordering
or_else Ordering.eq o = o
or_else Ordering.lt o = Ordering.lt
or_else Ordering.gt o = Ordering.gt

-- The sign of the number that the source returns. The fields are safe integers, so no difference
-- rounds.
unfoldable pub compare_performance : LeaderboardCandidate → LeaderboardCandidate → Ordering
compare_performance left right = or_else (compare left.evidence_level right.evidence_level) (
    or_else (compare left.total_wrong_guesses right.total_wrong_guesses)
      (compare left.elapsed_milliseconds right.elapsed_milliseconds))

unfoldable pub compare_pagination_order : LeaderboardCandidate → LeaderboardCandidate → Ordering
compare_pagination_order left right =
    or_else (compare_performance left right) (compare_text left.attempt_id right.attempt_id)

unfoldable pub compare_leaderboard_performance : Entry → Entry → Result LeaderboardError Ordering
compare_leaderboard_performance left right = do
  l ← assert_leaderboard_candidate left
  r ← assert_leaderboard_candidate right
  ok (compare_performance l r)

unfoldable pub compare_leaderboard_pagination_order :
    Entry → Entry → Result LeaderboardError Ordering
compare_leaderboard_pagination_order left right = do
  l ← assert_leaderboard_candidate left
  r ← assert_leaderboard_candidate right
  ok (compare_pagination_order l r)

abbrev pub is_eq : Ordering → Bool
is_eq Ordering.eq = true
is_eq _ = false

abbrev pub is_gt : Ordering → Bool
is_gt Ordering.gt = true
is_gt _ = false

-- `attemptIds.has(id)`
abbrev pub has_id : Text → List Text → Bool
has_id id = any (λ other. is_eq (compare_text id other))

-- The loop of `assertUniqueCandidates`; `seen` is the set `attemptIds`.
unfoldable pub assert_unique_candidates :
    List Text → List Entry → Result LeaderboardError (List LeaderboardCandidate)
assert_unique_candidates seen [] = ok []
assert_unique_candidates seen (entry ∷ entries) =
    assert_leaderboard_candidate entry >>= λ candidate.
    throw_if (has_id candidate.attempt_id seen) attempt_ids_not_unique
    >> (assert_unique_candidates (candidate.attempt_id ∷ seen) entries >>= λ candidates.
        ok (candidate ∷ candidates))

-- `Array.prototype.sort`, which is stable, as insertion from the right.
unfoldable pub insert : LeaderboardCandidate → List LeaderboardCandidate → List LeaderboardCandidate
insert x [] = x ∷ []
insert x (y ∷ ys) =
    let rest = y ∷ insert x ys in if is_gt (compare_pagination_order x y) then rest else x ∷ y ∷ ys

unfoldable pub sort : List LeaderboardCandidate → List LeaderboardCandidate
unfolding insert
sort [] = []
sort (x ∷ xs) = insert x (sort xs)

-- The rank of one entry: `previous` and `previous_rank` are those of the entry before.
abbrev pub rank_of : Option LeaderboardCandidate → ℕ → ℕ → LeaderboardCandidate → ℕ
rank_of none previous_rank index candidate = index + 1
rank_of (some previous) previous_rank index candidate =
    if is_eq (compare_performance previous candidate) then previous_rank else index + 1

-- The callback of `orderedCandidates.map`.
unfoldable pub rank_all :
    Option LeaderboardCandidate → ℕ → ℕ → List LeaderboardCandidate → List RankedLeaderboardEntry
rank_all previous previous_rank index [] = []
rank_all previous previous_rank index (candidate ∷ rest) =
    let rank = rank_of previous previous_rank index candidate in
    record { candidate = candidate; rank = rank } ∷ rank_all (some candidate) rank (index + 1) rest

unfoldable pub rank_leaderboard : List Entry → Result LeaderboardError (List RankedLeaderboardEntry)
rank_leaderboard entries = do
  candidates ← assert_unique_candidates [] entries
  ok (rank_all none 0 0 (sort candidates))

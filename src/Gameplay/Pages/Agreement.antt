-- ===== src/Gameplay/Pages/Agreement.antt =====
-- The leaderboard that packages/database/src/gameplay/leaderboard.ts reads is that of
-- packages/domain/src/leaderboard.ts.
use loremaster.Prelude.{
  ℕ, suc, ◌≤◌, ◌≡◌, ◌≢◌, refl, ap, ◌∙◌, sym, true, false, not, Ordering, List, [], ◌∷◌, map, some,
  String, ok, All, count, take, arith, >>=-eq-ok, throw_if, throw_if-ok, ok_inj, none, zero,
}
use loremaster.Prelude.Int.{pos}
use loremaster.Prelude.Js.{Text, codes, int, number, string, natural_up_to, compare_text-swap}
use loremaster.Domain.Leaderboard as Domain
use loremaster.Domain.Leaderboard.{
  LeaderboardCandidate, RankedLeaderboardEntry, Entry, object, LeaderboardError,
  assert_leaderboard_candidate, assert_unique_candidates, compare_performance,
  compare_pagination_order, has_id, is_eq, is_gt, sort, rank_all, rank_leaderboard,
}
use loremaster.Domain.Leaderboard.Ranking as Ranking
use loremaster.Domain.Leaderboard.Ranking.{IsRankAmong}
use loremaster.Gameplay.{Store, LeaderboardRow}
use loremaster.Gameplay.Pages.{
  LeaderboardEntry, compare_positions, position_of, is_before, is_after, insert_row, sort_rows,
  is_better, project_row, slot_rows, valid_slot_id, checked_limit, read_first,
  read_daily_leaderboard,
}
use loremaster.Gameplay.Pages.Order.{Apart, Distinct, sort-All}

-- The candidate of a stored row, and the value that the domain would be given for it.
abbrev pub candidate_of : LeaderboardRow → LeaderboardCandidate
candidate_of r = record {
  attempt_id = codes r.attempt_id;
  evidence_level = r.evidence_level;
  total_wrong_guesses = r.total_wrong_guesses;
  elapsed_milliseconds = r.elapsed_ms;
}

abbrev pub solved_entry : LeaderboardRow → Entry
solved_entry r =
    object (some (codes r.attempt_id)) (string "SOLVED") (number (int (pos r.evidence_level)))
      (number (int (pos r.total_wrong_guesses))) (number (int (pos r.elapsed_ms)))

-- What a shown entry says of the ranking.
abbrev pub ranked_of : LeaderboardEntry → RankedLeaderboardEntry
ranked_of e = record {
  candidate = record {
    attempt_id = codes e.attempt_id;
    evidence_level = e.evidence_level;
    total_wrong_guesses = e.total_wrong_guesses;
    elapsed_milliseconds = e.elapsed_milliseconds;
  };
  rank = e.rank;
}

-- The pagination order of the domain is that of the query.
same_order :
    (r q : LeaderboardRow)
    → compare_pagination_order (candidate_of r) (candidate_of q)
      ≡ compare_positions (position_of r) (position_of q)
unfolding compare_pagination_order compare_performance compare_positions position_of
same_order r q = ground arith

not_gt : (o : Ordering) → o ≢ Ordering.eq → is_gt o ≡ not (is_before o)
unfolding is_before
not_gt Ordering.lt n = refl
not_gt Ordering.eq n = absurd (n refl)
not_gt Ordering.gt n = refl

orders_agree :
    (r q : LeaderboardRow)
    → Apart r q
    → is_gt (compare_pagination_order (candidate_of r) (candidate_of q))
      ≡ not (is_after (position_of r) q)
unfolding is_after
orders_agree r q a =
    rw (same_order r q) (not_gt (compare_positions (position_of r) (position_of q)) a)

insert-candidates :
    (r : LeaderboardRow) (qs : List LeaderboardRow)
    → All (Apart r) qs
    → map candidate_of (insert_row r qs) ≡ Domain.insert (candidate_of r) (map candidate_of qs)
unfolding insert_row Domain.insert
insert-candidates r [] a = refl
insert-candidates r (q ∷ qs) a = ground (arith, orders_agree r q a.0, insert-candidates r qs a.1)

sort-candidates :
    (rows : List LeaderboardRow)
    → Distinct rows
    → map candidate_of (sort_rows rows) ≡ sort (map candidate_of rows)
unfolding sort_rows sort
sort-candidates [] d = refl
sort-candidates (r ∷ rs) d =
    insert-candidates r (sort_rows rs) (sort-All (Apart r) rs d.0)
    ∙ ap (Domain.insert (candidate_of r)) (sort-candidates rs d.1)

is_better_lem :
    (q r : LeaderboardRow) → is_better q r ≡ Ranking.is_better (candidate_of r) (candidate_of q)
unfolding is_better compare_performance
is_better_lem q r = ground arith

count-candidates :
    (r : LeaderboardRow) (rows : List LeaderboardRow)
    → count (λ q. is_better q r) rows
      ≡ count (Ranking.is_better (candidate_of r)) (map candidate_of rows)
count-candidates r [] = refl
count-candidates r (q ∷ qs) = ground (arith, is_better_lem q r, count-candidates r qs)

-- An entry of a ranking is its candidate with the rank among all.
ranked_as : List LeaderboardCandidate → LeaderboardCandidate → RankedLeaderboardEntry
ranked_as all c = record { candidate = c; rank = suc (count (Ranking.is_better c) all) }

ranked-IsRankAmong :
    (all : List LeaderboardCandidate) (rs : List RankedLeaderboardEntry)
    → All (IsRankAmong all) rs
    → rs ≡ map (ranked_as all) (map (λ (r : RankedLeaderboardEntry). r.candidate) rs)
unfolding ranked_as
ranked-IsRankAmong all [] h = refl
ranked-IsRankAmong all (r ∷ rs) h =
    let head : r ≡ ranked_as all r.candidate =
      ap (λ n. record { candidate = r.candidate; rank = n }) h.0 in
    let tail = ranked-IsRankAmong all rs h.1 in cc

-- The ranks of the query are those of the domain.
project-ranked :
    (rows : List LeaderboardRow) (r : LeaderboardRow)
    → ranked_of (project_row rows r) ≡ ranked_as (map candidate_of rows) (candidate_of r)
unfolding project_row ranked_as
project-ranked rows r =
    ap (λ n. record { candidate = candidate_of r; rank = n })
      (omega (arith, count-candidates r rows))

candidate_lem :
    (id : Text) (e w t : ℕ) (c : LeaderboardCandidate)
    → assert_leaderboard_candidate (
        object
          (some id)
          (string "SOLVED")
          (number (int (pos e)))
          (number (int (pos w)))
          (number (int (pos t))))
      ≡ ok c
    → c ≡ record {
      attempt_id = id;
      evidence_level = e;
      total_wrong_guesses = w;
      elapsed_milliseconds = t;
    }
unfolding assert_leaderboard_candidate natural_up_to
candidate_lem [] e w t c h = absurd (ground arith)
candidate_lem (x ∷ xs) e w t c h = ground arith

-- Rows with different ids are at different positions.
not_seen :
    (r : LeaderboardRow) (seen : List Text) (q : LeaderboardRow)
    → has_id (codes q.attempt_id) (codes r.attempt_id ∷ seen) ≡ false
    → (has_id (codes q.attempt_id) seen ≡ false) × Apart r q
unfolding compare_positions position_of
not_seen r seen q h = ground (arith, compare_text-swap (codes q.attempt_id) (codes r.attempt_id))

-- The ids of the rows are not among those seen.
abbrev AreNew : List Text → List LeaderboardRow → Type 0
AreNew seen rows = All (λ r. has_id (codes r.attempt_id) seen ≡ false) rows

AreNew-Apart :
    (r : LeaderboardRow) (seen : List Text) (qs : List LeaderboardRow)
    → AreNew (codes r.attempt_id ∷ seen) qs
    → AreNew seen qs × All (Apart r) qs
AreNew-Apart r seen [] h = (tt, tt)
AreNew-Apart r seen (q ∷ qs) h =
    let (a, b) = not_seen r seen q h.0 in
    let (c, d) = AreNew-Apart r seen qs h.1 in ((a, c), (b, d))

assert_unique-Distinct :
    (seen : List Text) (rows : List LeaderboardRow) (cs : List LeaderboardCandidate)
    → assert_unique_candidates seen (map solved_entry rows) ≡ ok cs
    → (cs ≡ map candidate_of rows) × AreNew seen rows × Distinct rows
unfolding assert_unique_candidates
assert_unique-Distinct seen [] cs h = (ground arith, tt, tt)
assert_unique-Distinct seen (r ∷ rs) cs h =
    let (c, e, k) = >>=-eq-ok (assert_leaderboard_candidate (solved_entry r)) _ h in
    let same =
      candidate_lem (codes r.attempt_id) r.evidence_level r.total_wrong_guesses r.elapsed_ms c e in
    let k' = rw same at k in
    let (u, d, k2) = >>=-eq-ok (throw_if (has_id (codes r.attempt_id) seen) _) _ k' in
    let (cs', e2, k3) =
      >>=-eq-ok (assert_unique_candidates (codes r.attempt_id ∷ seen) (map solved_entry rs)) _ k2 in
    let (q, fresh, distinct) = assert_unique-Distinct (codes r.attempt_id ∷ seen) rs cs' e2 in
    let (fresh', apart) = AreNew-Apart r seen rs fresh in
    let whole : candidate_of r ∷ cs' ≡ cs = ok_inj k3 in
    (sym whole ∙ ap (λ x. candidate_of r ∷ x) q, (throw_if-ok _ _ d, fresh'), (apart, distinct))

rows-ranked :
    (rows xs : List LeaderboardRow)
    → map ranked_of (map (project_row rows) xs)
      ≡ map (ranked_as (map candidate_of rows)) (map candidate_of xs)
rows-ranked rows [] = refl
rows-ranked rows (x ∷ xs) = let head = project-ranked rows x in let tail = rows-ranked rows xs in cc

-- The whole board with its ranks is the ranking of the domain.
board-ranked :
    (rows : List LeaderboardRow)
    → Distinct rows
    → map ranked_of (map (project_row rows) (sort_rows rows))
      ≡ rank_all none 0 0 (sort (map candidate_of rows))
board-ranked rows d =
    let cs = map candidate_of rows in
    let out = rank_all none 0 0 (sort cs) in
    let right =
      Ranking.All-same_counts (sort cs) cs out (λ p. Ranking.count-sort p cs)
        (Ranking.rank_all-right (sort cs) (Ranking.sort-IsOrdered cs)) in
    rows-ranked rows (sort_rows rows)
    ∙ ap (map (ranked_as cs)) (sort-candidates rows d)
    ∙ ap (map (ranked_as cs)) (sym (Ranking.candidates-rank_all none 0 0 (sort cs)))
    ∙ sym (ranked-IsRankAmong cs out right)

map-take : {A B : Type 0} (f : A → B) (n : ℕ) (xs : List A) → map f (take n xs) ≡ take n (map f xs)
map-take f zero xs = refl
map-take f (suc n) [] = refl
map-take f (suc n) (x ∷ xs) = ap (λ ys. f x ∷ ys) (map-take f n xs)

checked_limit_lem : (n : ℕ) → 1 ≤ n → n ≤ 100 → checked_limit (int (pos n)) ≡ some n
unfolding checked_limit
checked_limit_lem n l u = ground arith

-- When the domain accepts the stored rows of a slot as solved attempts, then for every limit from 1
-- to 100 the leaderboard that is read from the tables has as its candidates and ranks the first
-- entries, as many as the limit, of the leaderboard that the domain makes of these rows.
pub read_daily_leaderboard-rank_leaderboard :
    (s : Store) (slot_id : String) (limit : ℕ) (out : List RankedLeaderboardEntry)
    → valid_slot_id slot_id ≡ true
    → 1 ≤ limit
    → limit ≤ 100
    → rank_leaderboard (map solved_entry (slot_rows s slot_id)) ≡ ok out
    → (shown : List LeaderboardEntry) × (read_daily_leaderboard s slot_id (int (pos limit))
        ≡ ok shown)
      × (map ranked_of shown ≡ take limit out)
unfolding read_daily_leaderboard read_first rank_leaderboard
read_daily_leaderboard-rank_leaderboard s slot_id limit out v l u h =
    let rows = slot_rows s slot_id in
    let (cs, e, k) = >>=-eq-ok (assert_unique_candidates [] (map solved_entry rows)) _ h in
    let (same, fresh, distinct) = assert_unique-Distinct [] rows cs e in
    let made : rank_all none 0 0 (sort (map candidate_of rows)) ≡ out = rw (← same) (ok_inj k) in
    (
      map (project_row rows) (take limit (sort_rows rows)),
      rw (v, checked_limit_lem limit l u) refl,
      ap (map ranked_of) (map-take (project_row rows) limit (sort_rows rows))
          ∙ map-take ranked_of limit (map (project_row rows) (sort_rows rows))
          ∙ ap (take limit) (board-ranked rows distinct ∙ made),
    )

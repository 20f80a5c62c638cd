-- ===== src/Examples/Pages.antt =====
-- Runs of packages/database/src/gameplay/leaderboard.ts.
use loremaster.Prelude.{
  ℕ, ◌≡◌, refl, List, take, [], ◌∷◌, none, some, map, String, ok, err, str_eq, arith,
}
use loremaster.Prelude.Int.{pos}
use loremaster.Prelude.Js.{int, compare_text, fits, natural_up_to}
use loremaster.Gameplay.{Store, LeaderboardRow}
use loremaster.Domain.Aggregates.Days.{iso_day}
use loremaster.Gameplay.Pages.{
  LeaderboardEntry, read_daily_leaderboard, checked_limit, page_at, query_rows, insert_row,
  is_after, valid_cursor, lower, invalid_cursor, invalid_query, compare_positions, cursor_of,
  position_of, is_uuid, valid_slot_id, slot_rows, sort_rows, project_row,
  read_daily_leaderboard_page,
}
use loremaster.Gameplay.Pages.Walk.{walk, walk_lem}
use loremaster.Domain.Leaderboard.{
  RankedLeaderboardEntry, assert_leaderboard_candidate, assert_unique_candidates, rank_leaderboard,
  rank_all, sort, compare_performance, compare_pagination_order,
}
use loremaster.Gameplay.Pages.Agreement.{
  candidate_of, solved_entry, ranked_of, read_daily_leaderboard-rank_leaderboard,
}

abbrev row : String → ℕ → ℕ → LeaderboardRow
row id level elapsed = record {
  attempt_id = id;
  guest_id = "g";
  slot_id = "2026-11-26";
  pseudonym = "Ranger";
  evidence_level = level;
  total_wrong_guesses = 2;
  elapsed_ms = elapsed;
  score = 700;
}

abbrev first_row : LeaderboardRow
first_row = row "00000000-0000-4000-8000-00000000000a" 0 5000

abbrev second_row : LeaderboardRow
second_row = row "00000000-0000-4000-8000-00000000000b" 0 5000

abbrev third_row : LeaderboardRow
third_row = row "00000000-0000-4000-8000-000000000001" 1 4000

abbrev board : Store
board = record {
  guests = [];
  sessions = [];
  revisions = [];
  entities = [];
  regions = [];
  attempts = [];
  guesses = [];
  participation_days = [];
  receipts = [];
  finalizations = [];
  contributions = [];
  knowledge = [];
  leaderboard = third_row ∷ second_row ∷ first_row ∷ [];
}

walk_two :
    walk 4 board "2026-11-26" 2 none
    ≡ ok
        (map (project_row (slot_rows board "2026-11-26")) (first_row ∷ second_row ∷ third_row ∷ []))
unfolding walk read_daily_leaderboard_page slot_rows valid_slot_id str_eq iso_day checked_limit
    page_at query_rows sort_rows insert_row is_after compare_positions position_of compare_text
    valid_cursor is_uuid fits cursor_of project_row lower
walk_two = refl

page_of_stranger :
    read_daily_leaderboard_page board (record {
      slot_id = "2026-11-26";
      limit = int (pos 2);
      cursor = some (cursor_of (row "00000000-0000-4000-8000-00000000000c" 0 5000));
    })
    ≡ err invalid_cursor
unfolding walk read_daily_leaderboard_page slot_rows valid_slot_id str_eq iso_day checked_limit
    page_at query_rows sort_rows insert_row is_after compare_positions position_of compare_text
    valid_cursor is_uuid fits cursor_of project_row lower
page_of_stranger = refl

page_of_none :
    read_daily_leaderboard_page board
      (record { slot_id = "2026-11-26"; limit = int (pos 101); cursor = none })
    ≡ err invalid_query
unfolding walk read_daily_leaderboard_page slot_rows valid_slot_id str_eq iso_day checked_limit
    page_at query_rows sort_rows insert_row is_after compare_positions position_of compare_text
    valid_cursor is_uuid fits cursor_of project_row lower
page_of_none = refl

walk_lem_example :
    walk 4 board "2026-11-26" 2 none
    ≡ ok (
        map (project_row (slot_rows board "2026-11-26")) (sort_rows (slot_rows board "2026-11-26")))
unfolding walk read_daily_leaderboard_page slot_rows valid_slot_id str_eq iso_day checked_limit
    page_at query_rows sort_rows insert_row is_after compare_positions position_of compare_text
    valid_cursor is_uuid fits cursor_of project_row lower
walk_lem_example =
    walk_lem board "2026-11-26" 2 refl (omega arith) (omega arith)
      (((λ h. cc), ((λ h. cc), tt)), (((λ h. cc), tt), (tt, tt)))
      (
        (refl, refl, omega arith, omega arith, omega arith),
        (
          (refl, refl, omega arith, omega arith, omega arith),
          ((refl, refl, omega arith, omega arith, omega arith), tt),
        ),
      )

abbrev ranking : List RankedLeaderboardEntry
ranking =
    record { candidate = candidate_of first_row; rank = 1 }
    ∷ record { candidate = candidate_of second_row; rank = 1 }
    ∷ record { candidate = candidate_of third_row; rank = 3 }
    ∷ []

board_ranked : rank_leaderboard (map solved_entry (slot_rows board "2026-11-26")) ≡ ok ranking
unfolding rank_leaderboard assert_unique_candidates assert_leaderboard_candidate natural_up_to
    rank_all sort compare_performance compare_pagination_order compare_text slot_rows str_eq
board_ranked = refl

read_daily_leaderboard-rank_leaderboard_example :
    (shown : List LeaderboardEntry) × (read_daily_leaderboard board "2026-11-26" (int (pos 2))
      ≡ ok shown)
    × (map ranked_of shown ≡ take 2 ranking)
unfolding valid_slot_id iso_day
read_daily_leaderboard-rank_leaderboard_example =
    read_daily_leaderboard-rank_leaderboard board "2026-11-26" 2 ranking refl (omega arith)
      (omega arith) board_ranked

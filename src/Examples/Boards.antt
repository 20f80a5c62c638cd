-- ===== src/Examples/Boards.antt =====
-- Runs of packages/domain/src/leaderboard.ts, aggregates.ts and projections.ts.
use mathlib.Core.List.{Perm}
use loremaster.Prelude.{
  ℕ, ◌+◌, ◌*◌, ◌≤◌, ◌<◌, ◌≡◌, refl, true, false, ◌⊎◌, List, [], ◌∷◌, map, String, str_eq, ok, All,
  length, count, some,
}
use loremaster.Prelude.Int.{ℤ, pos, suc_ℤ, pred_ℤ}
use loremaster.Prelude.Js.{int, number, string, natural_up_to, compare_text, Text}
use loremaster.Domain.Attempt.{
  Snapshot, active, solved, given_up, is_active, assert_valid_attempt_snapshot, to_candidate,
}
use loremaster.Domain.Attempt.Reach.{snap}
use loremaster.Domain.Leaderboard.{
  LeaderboardCandidate, RankedLeaderboardEntry, Entry, object, assert_leaderboard_candidate,
  assert_unique_candidates, rank_leaderboard, rank_all, sort, compare_performance,
  compare_pagination_order,
}
use loremaster.Domain.Leaderboard.Ranking.{IsOrdered, IsRankAmong, rank_leaderboard_lem}
use loremaster.Domain.Aggregates.{round_half_up, assert_terminal_attempt}
use loremaster.Domain.Aggregates.Rounding.{round_half_up_lem}
use loremaster.Domain.Aggregates.Days.{CalendarDay, iso_day, day_count, utc_day_number}
use loremaster.Domain.Aggregates.Days.Succession.{utc_day_number-next}
use loremaster.Domain.Aggregates.Streaks.{
  has, participation_days, count_back, calculate_current_streak, calculate_longest_streak,
}
use loremaster.Domain.Aggregates.Streaks.Current.{IsRun, current_streak-IsRun}
use loremaster.Domain.Aggregates.Profile.{
  ProfileStatistics, is_solved, calculate_profile_statistics,
}
use loremaster.Domain.Aggregates.Profile.Counts.{IsFinalized, IsAccuracy, profile_counts}
use loremaster.Domain.Aggregates.Knowledge.{
  FinalizedCaseOutcome, RegionalKnowledge, add_regions, add_cases, contribute_all, unique_ids,
  display, get, set, regional_performance_hundredths, calculate_regional_knowledge,
}
use loremaster.Domain.Aggregates.Knowledge.Conservation.{IsKnowledge, regional_knowledge_conserved}
use loremaster.Domain.Projections.{
  PrivateEvidence, PrivateCaseFile, PrivateAttemptRecord, PublicEntitySuggestion, PublicEvidence,
  AttemptProjection, active_projection, terminal_projection, project_attempt, project_attempt_base,
  project_checked, project_public_evidence, project_public_suggestion, project_terminal_evidence,
}
use loremaster.Domain.Projections.Disclosure.{
  LookAlike, IsEntitled, active_hides_secrets, projection_contract,
}

entry : ℕ → ℕ → ℕ → ℕ → Entry
entry id level total elapsed =
    object (some (id ∷ [])) (string "SOLVED") (number (int (pos level))) (number (int (pos total)))
      (number (int (pos elapsed)))

abbrev ranked : ℕ → ℕ → ℕ → ℕ → ℕ → RankedLeaderboardEntry
ranked id level total elapsed rank = record {
  candidate = record {
    attempt_id = id ∷ [];
    evidence_level = level;
    total_wrong_guesses = total;
    elapsed_milliseconds = elapsed;
  };
  rank = rank;
}

-- Two that tie share the second rank, and the next one is the fourth.
abbrev board : List Entry
unfolding entry
board = entry 9 1 0 50 ∷ entry 7 1 0 50 ∷ entry 5 2 0 10 ∷ entry 8 0 2 90 ∷ []

abbrev placed : List RankedLeaderboardEntry
placed = ranked 8 0 2 90 1 ∷ ranked 7 1 0 50 2 ∷ ranked 9 1 0 50 2 ∷ ranked 5 2 0 10 4 ∷ []

board-placed : rank_leaderboard board ≡ ok placed
unfolding entry rank_leaderboard assert_unique_candidates assert_leaderboard_candidate natural_up_to
    str_eq compare_text rank_all sort compare_performance compare_pagination_order
board-placed = refl

rank_leaderboard_lem_example :
    (cs : List LeaderboardCandidate) × (assert_unique_candidates [] board ≡ ok cs)
    × Perm (map (λ (r : RankedLeaderboardEntry). r.candidate) placed) cs
    × IsOrdered (map (λ (r : RankedLeaderboardEntry). r.candidate) placed)
    × All (IsRankAmong cs) placed
rank_leaderboard_lem_example = rank_leaderboard_lem board placed board-placed

two_thirds : round_half_up 200 3 ≡ ok 67
unfolding round_half_up
two_thirds = refl

round_half_up_lem_example :
    (0 < 3) × (67 * (3 * 2) ≤ 200 * 2 + 3) × (200 * 2 + 3 < 67 * (3 * 2) + 3 * 2)
round_half_up_lem_example = round_half_up_lem 200 3 67 two_thirds

-- 2024-02-29 and 2024-03-01
abbrev leap_day_text : Text
leap_day_text = b'2' ∷ b'0' ∷ b'2' ∷ b'4' ∷ b'-' ∷ b'0' ∷ b'2' ∷ b'-' ∷ b'2' ∷ b'9' ∷ []

abbrev march_text : Text
march_text = b'2' ∷ b'0' ∷ b'2' ∷ b'4' ∷ b'-' ∷ b'0' ∷ b'3' ∷ b'-' ∷ b'0' ∷ b'1' ∷ []

abbrev leap_date : CalendarDay
leap_date = record { year = 2024; month = 2; day = 29 }

leap_day_number : utc_day_number leap_day_text ≡ ok (pos 19782)
unfolding utc_day_number iso_day day_count
leap_day_number = refl

utc_day_number-next_example : utc_day_number march_text ≡ ok (suc_ℤ (pos 19782))
utc_day_number-next_example =
    utc_day_number-next leap_day_text march_text leap_date (pos 19782) (unfold iso_day in refl)
      (unfold iso_day in refl) leap_day_number

abbrev played_days : List ℤ
played_days = pos 10 ∷ pos 11 ∷ pos 12 ∷ pos 7 ∷ []

current_streak-IsRun_example :
    ((has played_days (pos 13) ≡ true)
      × IsRun played_days (pos 13) (calculate_current_streak played_days (pos 13)))
    ⊎ ((has played_days (pos 13) ≡ false)
        × IsRun played_days (pred_ℤ (pos 13)) (calculate_current_streak played_days (pos 13)))
current_streak-IsRun_example = current_streak-IsRun played_days (pos 13)

three_days : calculate_current_streak played_days (pos 13) ≡ 3
unfolding calculate_current_streak count_back
three_days = refl

abbrev finished : List Snapshot
finished = snap solved 1 0 2 ∷ snap given_up 0 1 1 ∷ snap solved 0 0 0 ∷ []

abbrev statistics : ProfileStatistics
statistics = record {
  current_streak = 2;
  longest_streak = 2;
  solved_count = 2;
  failed_count = 1;
  accuracy_percentage = 67;
}

statistics_computed :
    calculate_profile_statistics finished (march_text ∷ leap_day_text ∷ march_text ∷ []) march_text
    ≡ ok statistics
unfolding calculate_profile_statistics utc_day_number iso_day day_count participation_days
    count_back calculate_current_streak calculate_longest_streak assert_terminal_attempt
    assert_valid_attempt_snapshot to_candidate str_eq natural_up_to round_half_up
statistics_computed = refl

profile_counts_example :
    All IsFinalized finished
    × (statistics.solved_count ≡ count is_solved finished)
    × (statistics.solved_count + statistics.failed_count ≡ length finished)
    × IsAccuracy statistics.solved_count (length finished) statistics.accuracy_percentage
profile_counts_example =
    profile_counts finished (march_text ∷ leap_day_text ∷ march_text ∷ []) march_text statistics
      statistics_computed

abbrev outcomes : List FinalizedCaseOutcome
outcomes =
    record { attempt = snap solved 1 0 2; region_ids = "north" ∷ "south" ∷ "north" ∷ [] } ∷ []

abbrev knowledge : List RegionalKnowledge
knowledge =
    record {
      region_id = "north";
      tally = record { alpha_hundredths = 275; beta_hundredths = 225; sample_count = 1 };
      display_percentage = 55;
    }
    ∷ record {
      region_id = "south";
      tally = record { alpha_hundredths = 275; beta_hundredths = 225; sample_count = 1 };
      display_percentage = 55;
    }
    ∷ []

knowledge_computed : calculate_regional_knowledge ("north" ∷ []) outcomes ≡ ok knowledge
unfolding calculate_regional_knowledge add_regions add_cases contribute_all unique_ids display get
    set regional_performance_hundredths assert_terminal_attempt assert_valid_attempt_snapshot
    to_candidate str_eq natural_up_to round_half_up
knowledge_computed = refl

regional_knowledge_conserved_example : All IsKnowledge knowledge
regional_knowledge_conserved_example =
    regional_knowledge_conserved ("north" ∷ []) outcomes knowledge knowledge_computed

abbrev aster : PublicEntitySuggestion
aster = record {
  entity_id = "aster";
  canonical_name = "Aster";
  public_role = "Keeper";
  aliases = [];
}

abbrev birch : PublicEntitySuggestion
birch = record {
  entity_id = "birch";
  canonical_name = "Birch";
  public_role = "Pilot";
  aliases = [];
}

abbrev clue : ℕ → String → PrivateEvidence
clue n secret = record {
  level = n;
  text = "clue";
  explanation = secret;
  source_references = secret ∷ [];
}

abbrev case_with : String → String → PrivateCaseFile
case_with answer secret = record {
  slot_id = "slot";
  revision_id = "revision";
  opens_at = "open";
  closes_at = "close";
  briefing = "brief";
  suggestions = aster ∷ birch ∷ [];
  answer_entity_id = answer;
  evidence = clue 1 secret ∷ clue 2 secret ∷ clue 3 secret ∷ clue 4 secret ∷ [];
}

abbrev attempt_in : Snapshot → PrivateAttemptRecord
attempt_in a = record {
  attempt_id = "attempt";
  owner_guest_id = "guest";
  slot_id = "slot";
  revision_id = "revision";
  version = 3;
  started_at = "start";
  snapshot_at = "now";
  attempt = a;
  guesses =
      record { guess_id = "g"; guest_id = "guest"; entity_id = "birch"; guessed_at = "then" } ∷ [];
}

alike : LookAlike 1 (case_with "aster" "because") (case_with "birch" "otherwise")
unfolding project_public_evidence
alike = record {
  same_slot = refl;
  same_revision = refl;
  same_close = refl;
  same_briefing = refl;
  same_suggestions = refl;
  same_levels = refl;
  same_seen = refl;
}

active_hides_secrets_example :
    project_attempt (case_with "aster" "because") (attempt_in (snap active 1 0 1)) "guest"
    ≡ project_attempt (case_with "birch" "otherwise") (attempt_in (snap active 1 0 1)) "guest"
active_hides_secrets_example =
    active_hides_secrets (case_with "aster" "because") (case_with "birch" "otherwise")
      (attempt_in (snap active 1 0 1)) "guest" refl alike

abbrev ended : PrivateAttemptRecord
ended = attempt_in (snap given_up 1 0 1)

abbrev told : AttemptProjection
told =
    terminal_projection (project_attempt_base (case_with "aster" "because") ended) aster
      (map project_terminal_evidence (case_with "aster" "because").evidence)

told_to_owner : project_attempt (case_with "aster" "because") ended "guest" ≡ ok told
unfolding project_attempt project_checked project_attempt_base project_public_suggestion
    assert_valid_attempt_snapshot to_candidate str_eq natural_up_to
told_to_owner = refl

projection_contract_example :
    IsEntitled (case_with "aster" "because") ended "guest"
    × (given_up ≡ active
        → (seen : List PublicEvidence) × (told
            ≡ active_projection (project_attempt_base (case_with "aster" "because") ended) seen)
          × (length seen ≡ 1))
    × (is_active given_up ≡ false
        → (answer : PublicEntitySuggestion) × (told
            ≡ terminal_projection
                (project_attempt_base (case_with "aster" "because") ended)
                answer
                (map project_terminal_evidence (case_with "aster" "because").evidence))
          × (answer.entity_id ≡ "aster"))
projection_contract_example =
    projection_contract (case_with "aster" "because") ended "guest" told told_to_owner

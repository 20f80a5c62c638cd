-- ===== src/Examples/Suggestions.antt =====
-- Runs of packages/database/src/gameplay/suggestions.ts.
use loremaster.Prelude.{ℕ, ◌≡◌, refl, List, [], ◌∷◌, map, String, str_eq, ◌≤◌}
use loremaster.Prelude.Js.{Text, codes, compare_text, same_text, starts_with, includes}
use loremaster.Prelude.Sorting.{sort_by}
use loremaster.Gameplay.{transaction}
use loremaster.Gameplay.Rows.{lock_guest, attempt_row, current_revision}
use loremaster.Gameplay.Reconciliation.{expire_if_closed}
use loremaster.Gameplay.Suggestions.{
  SuggestionIndexRow, PublishedSuggestionIndex, IndexDatabaseRow, CacheAnswer, miss, hit, matches,
  is_ahead, project_row, authorize_attempt_suggestions, filter_suggestion_index, cached_or_read,
  read_attempt_suggestions,
}
use loremaster.Gameplay.Suggestions.Ranking.{AreBest, filter_suggestion_index-AreBest}
use loremaster.Gameplay.Suggestions.Authority.{Shown, read_attempt_suggestions-IsPlaying}
use loremaster.Gameplay.Suggestions.Caching.{SameButServed, read_attempt_suggestions-IsServed}
use loremaster.Examples.Gameplay.{tables, now}

abbrev in_ascii : Text → Text
in_ascii s = s

abbrev entity : String → String → ℕ → SuggestionIndexRow
entity id name n = record {
  entity_id = id;
  canonical_name = name;
  public_role = "king";
  aliases = [];
  search_name = codes name;
  search_role = codes "king";
  search_aliases = [];
  sort_rank = n;
}

abbrev chief : SuggestionIndexRow
chief = record {
  entity_id = "e3";
  canonical_name = "vol";
  public_role = "chief";
  aliases = "jin" ∷ [];
  search_name = codes "vol";
  search_role = codes "chief";
  search_aliases = codes "jin" ∷ [];
  sort_rank = 2;
}

abbrev index : PublishedSuggestionIndex
index = record {
  revision_id = "rev";
  entities = entity "e1" "anduin" 0 ∷ entity "e2" "arthas" 1 ∷ chief ∷ [];
}

filter_suggestion_index-AreBest_example :
    (shown : List SuggestionIndexRow) × (filter_suggestion_index in_ascii index (codes "i")
      ≡ map project_row shown)
    × AreBest (codes "i") index.entities shown
filter_suggestion_index-AreBest_example = filter_suggestion_index-AreBest in_ascii index (codes "i")

by_prefix :
    filter_suggestion_index in_ascii index (codes "ar") ≡ project_row (entity "e2" "arthas" 1) ∷ []
unfolding filter_suggestion_index matches is_ahead sort_by includes starts_with same_text
    compare_text
by_prefix = refl

by_alias : filter_suggestion_index in_ascii index (codes "ji") ≡ project_row chief ∷ []
unfolding filter_suggestion_index matches is_ahead sort_by includes starts_with same_text
    compare_text
by_alias = refl

abbrev published : String → List IndexDatabaseRow
published r =
    record {
      public_id = "e1";
      canonical_name = "anduin";
      role = "king";
      aliases = [];
      search_name = codes "anduin";
      search_role = codes "king";
      search_aliases = [];
    }
    ∷ []

abbrev small : PublishedSuggestionIndex
small = record { revision_id = "rev"; entities = entity "e1" "anduin" 0 ∷ [] }

-- A cache that has the index of the one revision.
abbrev stored : String → CacheAnswer
stored r = hit small

read_attempt_suggestions-IsPlaying_example :
    (1 ≤ 2)
    × (2 ≤ 80)
    × Shown in_ascii published stored now "g" "a"
        (codes "an")
        tables
        tables
        (project_row (entity "e1" "anduin" 0) ∷ [])
unfolding read_attempt_suggestions authorize_attempt_suggestions transaction lock_guest attempt_row
    current_revision expire_if_closed str_eq cached_or_read filter_suggestion_index matches is_ahead
    includes starts_with same_text compare_text sort_by
read_attempt_suggestions-IsPlaying_example =
    read_attempt_suggestions-IsPlaying in_ascii published stored now "g" "a" (codes "an") tables
      tables (project_row (entity "e1" "anduin" 0) ∷ []) refl

-- The cached index has a row that the tables do not have.
abbrev stale : String → CacheAnswer
stale r = hit index

read_attempt_suggestions-IsServed_example :
    SameButServed in_ascii published stale
      (codes "ar")
      (authorize_attempt_suggestions now "g" "a" tables).0
      (read_attempt_suggestions in_ascii published stale now "g" "a" (codes "ar") tables)
      (read_attempt_suggestions in_ascii published (λ r. miss) now "g" "a" (codes "ar") tables)
read_attempt_suggestions-IsServed_example =
    read_attempt_suggestions-IsServed in_ascii published stale (codes "ar") now "g" "a" tables

-- ===== src/Gameplay/Suggestions.antt =====
-- packages/database/src/gameplay/suggestions.ts: the suggestions for the guesses of an attempt. The
-- cache, the lower case of the language and the rows that PostgreSQL answers are parameters.
pub mod Query
pub mod Ranking
pub mod Authority
pub mod Caching
use loremaster.Prelude.{
  ℕ, ◌+◌, Bool, true, false, ◌&&◌, ◌||◌, not, List, [], ◌∷◌, map, Option, none, some, String,
  str_eq, ◌==◌, Result, ok, err, ◌>>=◌, any, filter, find, take, length, ltb, leb, if◌then◌else◌,
}
use loremaster.Prelude.Sorting.{sort_by}
use loremaster.Prelude.Js.{Text, same_text, starts_with, includes}
use loremaster.Domain.Attempt.{is_active}
use loremaster.Domain.Projections.{PublicEntitySuggestion}
use loremaster.Gameplay.{Store, Revision, AttemptRow, GameplayError, Instants, transaction}
use loremaster.Gameplay.Rows.{lock_guest, attempt_row, current_revision}
use loremaster.Gameplay.Reconciliation.{expire_if_closed}

-- The texts that are searched are code units.
pub record SuggestionIndexRow : Type 0 where
  pub entity_id : String
  pub canonical_name : String
  pub public_role : String
  pub aliases : List String
  pub search_name : Text
  pub search_role : Text
  pub search_aliases : List Text
  pub sort_rank : ℕ

pub record PublishedSuggestionIndex : Type 0 where
  pub revision_id : String
  pub entities : List SuggestionIndexRow

-- A row that the query of the index returns.
pub record IndexDatabaseRow : Type 0 where
  pub public_id : String
  pub canonical_name : String
  pub role : String
  pub aliases : List String
  pub search_name : Text
  pub search_role : Text
  pub search_aliases : List Text

pub data SuggestionError : Type 0 where
  invalid_query capacity_exceeded : SuggestionError
  play : GameplayError → SuggestionError

unfoldable pub matches : Text → SuggestionIndexRow → Bool
matches normalized entity =
    includes normalized entity.search_name
    || includes normalized entity.search_role
    || any (includes normalized) entity.search_aliases

unfoldable pub rank : Text → SuggestionIndexRow → ℕ
rank normalized entity =
    if same_text entity.search_name normalized
    then 0
    else if any (same_text normalized) entity.search_aliases
    then 1
    else if starts_with normalized entity.search_name
    then 2
    else if starts_with normalized entity.search_role
    then 3
    else 4

-- `rank(left) - rank(right) || left.sortRank - right.sortRank` is not above 0
unfoldable pub is_ahead : Text → SuggestionIndexRow → SuggestionIndexRow → Bool
unfolding rank
is_ahead normalized left right =
    ltb (rank normalized left) (rank normalized right)
    || rank normalized left == rank normalized right && leb left.sort_rank right.sort_rank

-- `projectPublicSuggestion`, which copies the public fields of a row.
unfoldable pub project_row : SuggestionIndexRow → PublicEntitySuggestion
project_row entity = record {
  entity_id = entity.entity_id;
  canonical_name = entity.canonical_name;
  public_role = entity.public_role;
  aliases = entity.aliases;
}

-- The rows by their place in the answer.
number_rows : ℕ → List IndexDatabaseRow → List SuggestionIndexRow
number_rows n [] = []
number_rows n (row ∷ rows) =
    record {
      entity_id = row.public_id;
      canonical_name = row.canonical_name;
      public_role = row.role;
      aliases = row.aliases;
      search_name = row.search_name;
      search_role = row.search_role;
      search_aliases = row.search_aliases;
      sort_rank = n;
    }
    ∷ number_rows (n + 1) rows

-- What `cache?.get` ends with; without a cache it is `miss`.
pub data CacheAnswer : Type 0 where
  hit : PublishedSuggestionIndex → CacheAnswer
  miss : CacheAnswer
  broken : CacheAnswer

revision_of : AttemptRow → Option Revision → Option String
revision_of attempt none = none
revision_of attempt (some current) =
    if is_active attempt.play.state && str_eq current.id attempt.revision_id
    then some attempt.revision_id
    else none

authorize_row : Instants → Option AttemptRow → Store → Result GameplayError (Option String × Store)
unfolding revision_of
authorize_row now none s = ok (none, s)
authorize_row now (some row) s = do
  (attempt, s1) ← expire_if_closed row now.sampled s
  ok (revision_of attempt (current_revision s1 now.sampled), s1)

authorize_body : Instants → String → String → Store → Result GameplayError (Option String × Store)
unfolding authorize_row
authorize_body now guest_id attempt_id s =
    if not (lock_guest s guest_id)
    then ok (none, s)
    else authorize_row now (attempt_row s attempt_id guest_id now.row_read) s

unfoldable pub authorize_attempt_suggestions :
    Instants → String → String → Store → Result GameplayError (Option String) × Store
unfolding authorize_body
authorize_attempt_suggestions now guest_id attempt_id =
    transaction (authorize_body now guest_id attempt_id)

module _ (to_lower : Text → Text) where
  unfoldable pub filter_suggestion_index :
      PublishedSuggestionIndex → Text → List PublicEntitySuggestion
  filter_suggestion_index index query = map project_row (
      take 20
        (sort_by (is_ahead (to_lower query)) (filter (matches (to_lower query)) index.entities)))

  suggest : Text → Option PublishedSuggestionIndex → Option (List PublicEntitySuggestion)
  suggest query none = none
  suggest query (some index) = some (filter_suggestion_index index query)

module _ (index_rows : String → List IndexDatabaseRow) where
  build_index :
      String → List IndexDatabaseRow → Result SuggestionError (Option PublishedSuggestionIndex)
  unfolding number_rows
  build_index revision_id rows =
      if ltb 1000 (length rows)
      then err capacity_exceeded
      else ok (some (record { revision_id = revision_id; entities = number_rows 0 rows }))

  index_of : String → Option Revision → Result SuggestionError (Option PublishedSuggestionIndex)
  unfolding build_index
  index_of revision_id none = ok none
  index_of revision_id (some revision) = build_index revision_id (index_rows revision_id)

  unfoldable pub read_published_suggestion_index :
      Store → String → Result SuggestionError (Option PublishedSuggestionIndex)
  unfolding index_of
  read_published_suggestion_index s revision_id =
      index_of revision_id (find (λ r. str_eq r.id revision_id && r.is_published) s.revisions)

  -- `cached ?? (await readPublishedSuggestionIndex(...))`
  unfoldable pub cached_or_read :
      CacheAnswer → Store → String → Result SuggestionError (Option PublishedSuggestionIndex)
  cached_or_read (hit index) s revision_id = ok (some index)
  cached_or_read miss s revision_id = read_published_suggestion_index s revision_id
  cached_or_read broken s revision_id = read_published_suggestion_index s revision_id

module _ (to_lower : Text → Text) (index_rows : String → List IndexDatabaseRow)
    (cache : String → CacheAnswer) where
  after_authority :
      Text
      → Store
      → Result GameplayError (Option String)
      → Result SuggestionError (Option (List PublicEntitySuggestion))
  unfolding suggest
  after_authority query s (err e) = err (play e)
  after_authority query s (ok none) = ok none
  after_authority query s (ok (some revision_id)) = do
    index ← cached_or_read index_rows (cache revision_id) s revision_id
    ok (suggest to_lower query index)

  with_tables :
      Text
      → Result GameplayError (Option String) × Store
      → Result SuggestionError (Option (List PublicEntitySuggestion)) × Store
  unfolding after_authority
  with_tables query (authority, s) = (after_authority query s authority, s)

  unfoldable pub read_attempt_suggestions :
      Instants
      → String
      → String
      → Text
      → Store
      → Result SuggestionError (Option (List PublicEntitySuggestion)) × Store
  unfolding with_tables
  read_attempt_suggestions now guest_id attempt_id query s =
      if ltb (length query) 1 || ltb 80 (length query)
      then (err invalid_query, s)
      else with_tables query (authorize_attempt_suggestions now guest_id attempt_id s)

-- ===== src/Gameplay/Pages.antt =====
-- packages/database/src/gameplay/leaderboard.ts: the pages of a day's leaderboard. The read-only
-- transactions return a result and leave the tables.
pub mod Order
pub mod Cuts
pub mod Walk
pub mod Agreement
use loremaster.Prelude.{
  ℕ, ◌+◌, Bool, true, false, ◌&&◌, not, List, [], ◌∷◌, ◌++◌, map, Option, none, some, String,
  str_eq, Result, ok, err, ◌>>=◌, ◌>>◌, throw_if, ◌||◌, Ordering, compare, length, take, filter,
  any, count, last, ltb, leb, ◌==◌, if◌then◌else◌,
}
use loremaster.Prelude.Int.{pos}
use loremaster.Prelude.Js.{Text, Number, int, codes, fits, compare_text, max_safe_integer}
use loremaster.Domain.Aggregates.Days.{CalendarDay, iso_day, is_calendar_day}
use loremaster.Gameplay.{Store, LeaderboardRow}

-- `LeaderboardPosition`, as a request gives it.
pub record Cursor : Type 0 where
  pub attempt_id : String
  pub evidence_level : Number
  pub total_wrong_guesses : Number
  pub elapsed_milliseconds : Number

pub record LeaderboardPageRequest : Type 0 where
  pub slot_id : String
  pub limit : Number
  pub cursor : Option Cursor

-- A position as the query compares it: a UUID is compared as its text in lower case.
pub record Position : Type 0 where
  pub attempt_id : Text
  pub evidence_level : ℕ
  pub total_wrong_guesses : ℕ
  pub elapsed_milliseconds : ℕ

pub record LeaderboardEntry : Type 0 where
  pub attempt_id : String
  pub pseudonym : String
  pub evidence_level : ℕ
  pub total_wrong_guesses : ℕ
  pub elapsed_milliseconds : ℕ
  pub score : ℕ
  pub rank : ℕ

pub record LeaderboardPage : Type 0 where
  pub items : List LeaderboardEntry
  pub next_position : Option Cursor

-- The `RangeError`s.
pub data PageError : Type 0 where
  invalid_query invalid_cursor : PageError

is_day : Option CalendarDay → Bool
is_day none = false
is_day (some d) = is_calendar_day d

unfoldable pub valid_slot_id : String → Bool
unfolding is_day
valid_slot_id slot_id = is_day (iso_day (codes slot_id))

is_hex : ℕ → Bool
is_hex c = leb b'0' c && leb c b'9' || leb b'a' c && leb c b'f' || leb b'A' c && leb c b'F'

is_version : ℕ → Bool
is_version c = leb b'1' c && leb c b'8'

is_variant : ℕ → Bool
is_variant c = c == b'8' || c == b'9' || c == b'a' || c == b'b' || c == b'A' || c == b'B'

is_dash : ℕ → Bool
is_dash c = c == b'-'

hex4 : List (ℕ → Bool)
unfolding is_hex
hex4 = is_hex ∷ is_hex ∷ is_hex ∷ is_hex ∷ []

hex3 : List (ℕ → Bool)
unfolding is_hex
hex3 = is_hex ∷ is_hex ∷ is_hex ∷ []

-- The pattern of a UUID, in either case.
unfoldable pub is_uuid : Text → Bool
unfolding hex4 hex3 is_dash is_version is_variant
is_uuid = fits (
    hex4
    ++ hex4
    ++ (is_dash ∷ hex4)
    ++ (is_dash ∷ is_version ∷ hex3)
    ++ (is_dash ∷ is_variant ∷ hex3)
    ++ (is_dash ∷ hex4)
    ++ hex4
    ++ hex4)

-- `Number.isSafeInteger(x) && x >= 0 && x <= bound`, for a bound that is safe
natural_at_most : ℕ → Number → Option ℕ
natural_at_most bound (int (pos n)) = if leb n bound then some n else none
natural_at_most bound _ = none

valid_limit : Option ℕ → Option ℕ
valid_limit none = none
valid_limit (some n) = if leb 1 n then some n else none

-- A UUID in either case names the same value.
unfoldable pub lower : Text → Text
lower [] = []
lower (c ∷ cs) = (if leb b'A' c && leb c b'Z' then c + 32 else c) ∷ lower cs

position : Text → Option ℕ → Option ℕ → Option ℕ → Option Position
position id (some e) (some w) (some t) = some (record {
  attempt_id = id;
  evidence_level = e;
  total_wrong_guesses = w;
  elapsed_milliseconds = t;
})
position id _ _ _ = none

-- The cursor as a position, when it is valid.
unfoldable pub valid_cursor : Cursor → Option Position
unfolding position natural_at_most lower
valid_cursor c =
    if is_uuid (codes c.attempt_id)
    then position (lower (codes c.attempt_id)) (natural_at_most 4 c.evidence_level)
        (natural_at_most 15 c.total_wrong_guesses)
        (natural_at_most max_safe_integer c.elapsed_milliseconds)
    else none

unfoldable pub checked_limit : Number → Option ℕ
unfolding valid_limit natural_at_most
checked_limit n = valid_limit (natural_at_most 100 n)

-- The order of the pages: three numbers, then the identifier.
unfoldable pub compare_positions : Position → Position → Ordering
compare_positions a b = elim (compare a.evidence_level b.evidence_level) [
  | Ordering.lt ↦ Ordering.lt
  | Ordering.gt ↦ Ordering.gt
  | Ordering.eq ↦ elim (compare a.total_wrong_guesses b.total_wrong_guesses) [
    | Ordering.lt ↦ Ordering.lt
    | Ordering.gt ↦ Ordering.gt
    | Ordering.eq ↦ elim (compare a.elapsed_milliseconds b.elapsed_milliseconds) [
      | Ordering.lt ↦ Ordering.lt
      | Ordering.gt ↦ Ordering.gt
      | Ordering.eq ↦ compare_text a.attempt_id b.attempt_id
    ]
  ]
]

unfoldable pub position_of : LeaderboardRow → Position
position_of r = record {
  attempt_id = codes r.attempt_id;
  evidence_level = r.evidence_level;
  total_wrong_guesses = r.total_wrong_guesses;
  elapsed_milliseconds = r.elapsed_ms;
}

-- The cursor of a row.
unfoldable pub cursor_of : LeaderboardRow → Cursor
cursor_of r = record {
  attempt_id = r.attempt_id;
  evidence_level = int (pos r.evidence_level);
  total_wrong_guesses = int (pos r.total_wrong_guesses);
  elapsed_milliseconds = int (pos r.elapsed_ms);
}

is_before : Ordering → Bool
is_before Ordering.lt = true
is_before _ = false

-- `(evidence_level, total_wrong_guesses, elapsed_ms, attempt_id) > ...`
unfoldable pub is_after : Position → LeaderboardRow → Bool
unfolding is_before
is_after p r = is_before (compare_positions p (position_of r))

pub is_past : Option Position → LeaderboardRow → Bool
is_past none r = true
is_past (some p) r = is_after p r

-- `ORDER BY evidence_level, total_wrong_guesses, elapsed_ms, attempt_id`
unfoldable pub insert_row : LeaderboardRow → List LeaderboardRow → List LeaderboardRow
insert_row r [] = r ∷ []
insert_row r (q ∷ qs) =
    let rest = insert_row r qs in if is_after (position_of r) q then r ∷ q ∷ qs else q ∷ rest

unfoldable pub sort_rows : List LeaderboardRow → List LeaderboardRow
sort_rows [] = []
sort_rows (r ∷ rs) = insert_row r (sort_rows rs)

-- The performance of a row comes strictly before that of another.
unfoldable pub is_better : LeaderboardRow → LeaderboardRow → Bool
is_better a b =
    ltb a.evidence_level b.evidence_level
    || a.evidence_level == b.evidence_level
      && (ltb a.total_wrong_guesses b.total_wrong_guesses
          || a.total_wrong_guesses == b.total_wrong_guesses && ltb a.elapsed_ms b.elapsed_ms)

in_slot : String → LeaderboardRow → Bool
in_slot slot_id r = str_eq r.slot_id slot_id

unfoldable pub slot_rows : Store → String → List LeaderboardRow
unfolding in_slot
slot_rows s slot_id = filter (in_slot slot_id) s.leaderboard

-- `rank() OVER (ORDER BY evidence_level, total_wrong_guesses, elapsed_ms)`, and `projectRow`
unfoldable pub project_row : List LeaderboardRow → LeaderboardRow → LeaderboardEntry
unfolding is_better
project_row slot r = record {
  attempt_id = r.attempt_id;
  pseudonym = r.pseudonym;
  evidence_level = r.evidence_level;
  total_wrong_guesses = r.total_wrong_guesses;
  elapsed_milliseconds = r.elapsed_ms;
  score = r.score;
  rank = count (λ q. is_better q r) slot + 1;
}

same_text : Text → Text → Bool
same_text s t = elim (compare_text s t) [ Ordering.eq ↦ true | _ ↦ false ]

pub same_position : Position → LeaderboardRow → Bool
unfolding same_text
same_position p r =
    same_text (codes r.attempt_id) p.attempt_id
    && r.evidence_level == p.evidence_level
    && r.total_wrong_guesses == p.total_wrong_guesses
    && r.elapsed_ms == p.elapsed_milliseconds

-- The cursor stands on a row of the slot.
cursor_exists : List LeaderboardRow → Option Position → Bool
unfolding same_position
cursor_exists slot none = true
cursor_exists slot (some p) = any (same_position p) slot

-- The position after a page: of its last item, when a further row was read.
next_after : ℕ → List LeaderboardRow → Option LeaderboardRow → Option Cursor
next_after limit rows none = none
next_after limit rows (some r) = if ltb limit (length rows) then some (cursor_of r) else none

page_of : List LeaderboardRow → ℕ → List LeaderboardRow → LeaderboardPage
unfolding next_after
page_of slot limit rows = record {
  items = map (project_row slot) (take limit rows);
  next_position = next_after limit rows (last (take limit rows));
}

-- The rows of a slot after a position, as the query returns them.
unfoldable pub query_rows : List LeaderboardRow → Option Position → ℕ → List LeaderboardRow
unfolding is_past
query_rows slot cursor limit = take (limit + 1) (filter (is_past cursor) (sort_rows slot))

unfoldable pub page_at :
    List LeaderboardRow → Option Position → ℕ → Result PageError LeaderboardPage
unfolding cursor_exists page_of
page_at slot cursor limit = do
  throw_if (not (cursor_exists slot cursor)) invalid_cursor
  ok (page_of slot limit (query_rows slot cursor limit))

read_checked :
    Store → String → Option ℕ → Option (Option Position) → Result PageError LeaderboardPage
read_checked s slot_id (some limit) (some cursor) = page_at (slot_rows s slot_id) cursor limit
read_checked s slot_id _ _ = err invalid_query

checked_cursor : Option Cursor → Option (Option Position)
checked_cursor none = some none
checked_cursor (some c) = elim (valid_cursor c) [ some p ↦ some (some p) | none ↦ none ]

unfoldable pub read_daily_leaderboard_page :
    Store → LeaderboardPageRequest → Result PageError LeaderboardPage
unfolding read_checked checked_cursor
read_daily_leaderboard_page s request =
    if valid_slot_id request.slot_id
    then read_checked s request.slot_id (checked_limit request.limit)
        (checked_cursor request.cursor)
    else err invalid_query

unfoldable pub read_first : Store → String → Option ℕ → Result PageError (List LeaderboardEntry)
read_first s slot_id none = err invalid_query
read_first s slot_id (some limit) =
    ok (map (project_row (slot_rows s slot_id)) (take limit (sort_rows (slot_rows s slot_id))))

unfoldable pub read_daily_leaderboard :
    Store → String → Number → Result PageError (List LeaderboardEntry)
unfolding read_first
read_daily_leaderboard s slot_id limit =
    if valid_slot_id slot_id then read_first s slot_id (checked_limit limit) else err invalid_query

-- ===== src/Gameplay/Receipts.antt =====
-- The keys, digests and receipts of packages/database/src/gameplay/attempts.ts.
pub mod Found
use loremaster.Prelude.{
  ℕ, Bool, true, false, ◌&&◌, List, [], ◌∷◌, Option, none, some, String, str_eq, Result, ok, err,
  length, all, Ordering, leb, if◌then◌else◌,
}
use loremaster.Prelude.Int.{pos}
use loremaster.Prelude.Js.{Text, Number, int, compare_text, max_safe_integer}
use loremaster.Gameplay.{
  Store, CommandKind, start_kind, guess_kind, reveal_kind, give_up_kind, unlisted_kind, OutcomeCode,
  started, correct, wrong, revealed, surrendered, Receipt, GameplayError, invalid_outcome_code,
  GameplayCommand, guess, reveal, give_up, malformed,
}

-- An element of the list that is digested.
pub data Part : Type 0 where
  text : String → Part
  version : ℕ → Part

-- `===` of two keys, and `equals` of two digests.
unfoldable pub same_text : Text → Text → Bool
same_text s t = elim (compare_text s t) [ Ordering.eq ↦ true | _ ↦ false ]

-- `key.length >= 1 && key.length <= 128 && /^[\x20-\x7e]+$/.test(key)`
unfoldable pub validate_key : Text → Bool
validate_key key =
    leb 1 (length key) && leb (length key) 128 && all (λ c. leb 32 c && leb c 126) key

-- `Number.isSafeInteger(x) && x >= 0`
unfoldable pub safe_version : Number → Option ℕ
safe_version (int (pos n)) = if leb n max_safe_integer then some n else none
safe_version _ = none

-- The canonical list of a command: `undefined` for a command that has none.
unfoldable pub command_parts : String → ℕ → GameplayCommand → Option (List Part)
command_parts attempt_id v (guess entity_id) =
    some (text "v1" ∷ text "GUESS" ∷ text attempt_id ∷ version v ∷ text entity_id ∷ [])
command_parts attempt_id v reveal =
    some (text "v1" ∷ text "REVEAL" ∷ text attempt_id ∷ version v ∷ [])
command_parts attempt_id v give_up =
    some (text "v1" ∷ text "GIVE_UP" ∷ text attempt_id ∷ version v ∷ [])
command_parts attempt_id v malformed = none

abbrev pub start_parts : List Part
start_parts = text "v1" ∷ text "START" ∷ []

unfoldable pub command_kind : GameplayCommand → CommandKind
command_kind (guess _) = guess_kind
command_kind reveal = reveal_kind
command_kind give_up = give_up_kind
command_kind malformed = unlisted_kind

unfoldable pub start_receipt_outcome : Receipt → Result GameplayError OutcomeCode
start_receipt_outcome r = elim r.command_kind [
  | start_kind ↦ elim r.outcome_code [ started ↦ ok started | _ ↦ err invalid_outcome_code ]
  | _ ↦ err invalid_outcome_code
]

-- The outcomes that the stored receipt of a kind may have.
unfoldable pub outcome_fits : CommandKind → OutcomeCode → Bool
outcome_fits guess_kind correct = true
outcome_fits guess_kind wrong = true
outcome_fits reveal_kind revealed = true
outcome_fits give_up_kind surrendered = true
outcome_fits _ _ = false

same_kind : CommandKind → CommandKind → Bool
same_kind start_kind start_kind = true
same_kind guess_kind guess_kind = true
same_kind reveal_kind reveal_kind = true
same_kind give_up_kind give_up_kind = true
same_kind _ _ = false

unfoldable pub command_receipt_outcome : Receipt → CommandKind → Result GameplayError OutcomeCode
unfolding outcome_fits same_kind
command_receipt_outcome r expected =
    if same_kind r.command_kind expected && outcome_fits expected r.outcome_code
    then ok r.outcome_code
    else err invalid_outcome_code

find_receipt : String → Text → List Receipt → Option Receipt
unfolding same_text
find_receipt guest_id key [] = none
find_receipt guest_id key (r ∷ rs) =
    let rest = find_receipt guest_id key rs in
    if str_eq r.guest_id guest_id && same_text r.idempotency_key key then some r else rest

unfoldable pub receipt : Store → String → Text → Option Receipt
unfolding find_receipt
receipt s guest_id key = find_receipt guest_id key s.receipts

unfoldable pub is_attempt : String → Option String → Bool
is_attempt id none = false
is_attempt id (some a) = str_eq a id

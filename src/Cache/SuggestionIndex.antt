-- ===== src/Cache/SuggestionIndex.antt =====
-- packages/cache/src/suggestions.ts: the check of a suggestion index, and its stored form. JSON and
-- the length of a text in UTF-8 are parameters.
pub mod Soundness
pub mod Storage
use loremaster.Prelude.{
  ℕ, zero, suc, ◌+◌, Bool, true, false, ◌&&◌, ◌||◌, not, List, [], ◌∷◌, ◌++◌, Option, none, some,
  String, str_eq, ◌==◌, Result, ok, err, ◌>>=◌, ◌>>◌, throw_if, any, all, length, ltb, leb,
  if◌then◌else◌,
}
use loremaster.Prelude.Int.{pos}
use loremaster.Prelude.Js.{Text, Number, int, codes, fits, same_text}
use loremaster.Prelude.Sorting.{sort_by}

-- A value as the checks see it: `object` is a plain object by its own enumerable data properties,
-- `array` a dense array of the language, and `other` any object that is neither.
mutual
  pub data Value : Type 0 where
    null : Value
    boolean : Bool → Value
    number : Number → Value
    text : Text → Value
    array : Values → Value
    object : Fields → Value
    other : Value

  pub data Values : Type 0 where
    nil : Values
    cons : Value → Values → Values

  pub data Fields : Type 0 where
    no_fields : Fields
    field : String → Value → Fields → Fields

pub record SuggestionIndexEntity : Type 0 where
  pub entity_id : Text
  pub canonical_name : Text
  pub public_role : Text
  pub aliases : List Text
  pub search_name : Text
  pub search_role : Text
  pub search_aliases : List Text
  pub sort_rank : ℕ

pub record SuggestionIndex : Type 0 where
  pub revision_id : Text
  pub entities : List SuggestionIndexEntity

-- `InvalidSuggestionIndexError`
pub data IndexError : Type 0 where
  invalid : IndexError

abbrev pub Checked : Type 0 → Type 0
Checked A = Result IndexError A

count_fields : Fields → ℕ
count_fields no_fields = 0
count_fields (field k v fs) = suc (count_fields fs)

unfoldable pub get : String → Fields → Option Value
get key no_fields = none
get key (field k v fs) = let rest = get key fs in if str_eq k key then some v else rest

is_there : Option Value → Bool
is_there none = false
is_there (some v) = true

-- `record(value, keys)`
unfoldable pub record_of : List String → Value → Checked Fields
unfolding count_fields is_there
record_of keys (object fs) =
    if count_fields fs == length keys && all (λ key. is_there (get key fs)) keys
    then ok fs
    else err invalid
record_of keys _ = err invalid

is_visible : ℕ → Bool
is_visible c = leb 32 c && not (c == 127)

-- The texts that `string` lets pass; it looks at each character by its first code unit, and a
-- second one is never a control character.
unfoldable pub is_string : ℕ → Text → Bool
unfolding is_visible
is_string max t = leb 1 (length t) && leb (length t) max && all is_visible t

-- `string(value, max)` of a property
unfoldable pub string_of : ℕ → Option Value → Checked Text
string_of max (some (text t)) = if is_string max t then ok t else err invalid
string_of max _ = err invalid

unfoldable pub count_values : Values → ℕ
count_values nil = 0
count_values (cons v vs) = suc (count_values vs)

-- `denseArray(value, maximumLength)` of a property
unfoldable pub dense_array : ℕ → Option Value → Checked Values
unfolding count_values
dense_array max (some (array vs)) = if leb (count_values vs) max then ok vs else err invalid
dense_array max _ = err invalid

strings : Values → Checked (List Text)
unfolding string_of
strings nil = ok []
strings (cons v vs) = do t ← string_of 512 (some v); ts ← strings vs; ok (t ∷ ts)

-- `aliases(value)`
alias_list : Option Value → Checked (List Text)
unfolding dense_array strings
alias_list o = do vs ← dense_array 32 o; strings vs

is_lower_hex : ℕ → Bool
is_lower_hex c = leb b'0' c && leb c b'9' || leb b'a' c && leb c b'f'

is_dash : ℕ → Bool
is_dash c = c == b'-'

four : List (ℕ → Bool)
unfolding is_lower_hex
four = is_lower_hex ∷ is_lower_hex ∷ is_lower_hex ∷ is_lower_hex ∷ []

-- The pattern of a revision.
unfoldable pub is_revision : Text → Bool
unfolding four is_dash
is_revision = fits (
    four
    ++ four
    ++ (is_dash ∷ four)
    ++ (is_dash ∷ four)
    ++ (is_dash ∷ four)
    ++ (is_dash ∷ four)
    ++ four
    ++ four)

-- `suggestionCacheKey`
unfoldable pub suggestion_cache_key : Text → Checked Text
suggestion_cache_key revision_id =
    if is_revision revision_id
    then ok (codes "loremaster:v1:revision:" ++ revision_id ++ codes ":suggestions")
    else err invalid

is_alphanumeric : ℕ → Bool
is_alphanumeric c = leb b'A' c && leb c b'Z' || leb b'a' c && leb c b'z' || leb b'0' c && leb c b'9'

is_id_character : ℕ → Bool
unfolding is_alphanumeric
is_id_character c = is_alphanumeric c || c == b'_' || c == b'-'

-- `/^[A-Za-z0-9][A-Za-z0-9_-]*$/`
unfoldable pub is_entity_id : Text → Bool
unfolding is_alphanumeric is_id_character
is_entity_id [] = false
is_entity_id (c ∷ cs) = is_alphanumeric c && all is_id_character cs

id_of : Option Value → Checked Text
unfolding string_of
id_of o = do t ← string_of 128 o; if is_entity_id t then ok t else err invalid

rank_of : Option Value → Checked ℕ
rank_of (some (number (int (pos n)))) = if ltb n 1000 then ok n else err invalid
rank_of _ = err invalid

entity_keys : List String
entity_keys =
    "entityId" ∷ "canonicalName" ∷ "publicRole" ∷ "aliases" ∷ "searchName" ∷ "searchRole"
    ∷ "searchAliases" ∷ "sortRank" ∷ []

entity_of : Fields → Checked SuggestionIndexEntity
unfolding id_of rank_of alias_list string_of
entity_of fs = do
  id ← id_of (get "entityId" fs)
  rank ← rank_of (get "sortRank" fs)
  names ← alias_list (get "aliases" fs)
  search_names ← alias_list (get "searchAliases" fs)
  throw_if (not (length names == length search_names)) invalid
  name ← string_of 512 (get "canonicalName" fs)
  role ← string_of 512 (get "publicRole" fs)
  search_name ← string_of 512 (get "searchName" fs)
  search_role ← string_of 512 (get "searchRole" fs)
  ok (record {
    entity_id = id;
    canonical_name = name;
    public_role = role;
    aliases = names;
    search_name = search_name;
    search_role = search_role;
    search_aliases = search_names;
    sort_rank = rank;
  })

unfoldable pub entity_value : Value → Checked SuggestionIndexEntity
unfolding entity_keys entity_of
entity_value v = do fs ← record_of entity_keys v; entity_of fs

-- The id or the rank was seen before.
clashes : SuggestionIndexEntity → List SuggestionIndexEntity → Bool
clashes e seen = any (λ s. same_text s.entity_id e.entity_id || s.sort_rank == e.sort_rank) seen

-- The entities, with those that were checked before.
unfoldable pub entities_of :
    List SuggestionIndexEntity → Values → Checked (List SuggestionIndexEntity)
unfolding entity_value clashes
entities_of seen nil = ok []
entities_of seen (cons v vs) = do
  e ← entity_value v
  throw_if (clashes e seen) invalid
  es ← entities_of (e ∷ seen) vs
  ok (e ∷ es)

unfoldable pub by_rank : SuggestionIndexEntity → SuggestionIndexEntity → Bool
by_rank a b = leb a.sort_rank b.sort_rank

is_one : Option Value → Bool
is_one (some (number (int (pos n)))) = n == 1
is_one _ = false

envelope_keys : List String
envelope_keys = "version" ∷ "revisionId" ∷ "entities" ∷ []

envelope_of : Fields → Checked SuggestionIndex
unfolding is_one string_of dense_array entities_of by_rank
envelope_of fs = do
  throw_if (not (is_one (get "version" fs))) invalid
  revision_id ← string_of 36 (get "revisionId" fs)
  suggestion_cache_key revision_id
  vs ← dense_array 1000 (get "entities" fs)
  es ← entities_of [] vs
  ok (record { revision_id = revision_id; entities = sort_by by_rank es })

unfoldable pub validate : Value → Checked SuggestionIndex
unfolding envelope_keys envelope_of
validate v = do fs ← record_of envelope_keys v; envelope_of fs

texts : List Text → Values
texts [] = nil
texts (t ∷ ts) = cons (text t) (texts ts)

unfoldable pub entity_object : SuggestionIndexEntity → Value
unfolding texts
entity_object e = object (
    field "entityId" (text e.entity_id) (
      field "canonicalName" (text e.canonical_name) (
        field "publicRole" (text e.public_role) (
          field "aliases" (array (texts e.aliases)) (
            field "searchName" (text e.search_name) (
              field "searchRole" (text e.search_role) (
                field "searchAliases" (array (texts e.search_aliases))
                  (field "sortRank" (number (int (pos e.sort_rank))) no_fields))))))))

unfoldable pub entity_objects : List SuggestionIndexEntity → Values
unfolding entity_object
entity_objects [] = nil
entity_objects (e ∷ es) = cons (entity_object e) (entity_objects es)

-- The frozen object that `validate` builds.
unfoldable pub to_value : SuggestionIndex → Value
unfolding entity_objects
to_value i = object (
    field "version" (number (int (pos 1))) (
      field "revisionId" (text i.revision_id)
        (field "entities" (array (entity_objects i.entities)) no_fields)))

abbrev pub suggestion_cache_max_bytes : ℕ
suggestion_cache_max_bytes = 524288

module _ (byte_length : Text → ℕ) (json_parse : Text → Option Value)
    (json_stringify : Value → Text) where
  validate_parsed : Option Value → Checked SuggestionIndex
  validate_parsed none = err invalid
  validate_parsed (some v) = validate v

  parse_text : Text → Checked SuggestionIndex
  unfolding validate_parsed
  parse_text raw =
      if ltb suggestion_cache_max_bytes (byte_length raw)
      then err invalid
      else validate_parsed (json_parse raw)

  unfoldable pub parse_suggestion_index : Value → Checked SuggestionIndex
  unfolding parse_text
  parse_suggestion_index (text raw) = parse_text raw
  parse_suggestion_index _ = err invalid

  unfoldable pub serialize_suggestion_index : Value → Checked Text
  serialize_suggestion_index index = do
    i ← validate index
    let raw = json_stringify (to_value i)
    throw_if (ltb suggestion_cache_max_bytes (byte_length raw)) invalid
    ok raw

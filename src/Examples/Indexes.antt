-- ===== src/Examples/Indexes.antt =====
-- Runs of packages/cache/src/suggestions.ts, with JSON for one index.
use loremaster.Prelude.{
  ℕ, true, ◌≤◌, ◌≡◌, refl, sym, ap, ◌∙◌, [], ◌∷◌, Option, some, String, str_eq, ok, err, length,
}
use loremaster.Prelude.Js.{Text, codes, fits, same_text}
use loremaster.Prelude.Sorting.{Pairwise, sort_by}
use loremaster.Cache.SuggestionIndex.{
  Value, text, SuggestionIndexEntity, SuggestionIndex, invalid, Checked, get, record_of, is_string,
  is_revision, is_entity_id, suggestion_cache_key, string_of, dense_array, count_values,
  entities_of, entity_value, by_rank, validate, to_value, parse_suggestion_index,
  serialize_suggestion_index,
}
use loremaster.Cache.SuggestionIndex.Storage.{Precedes, validate-Precedes, serialize-parse}

abbrev entity : String → ℕ → SuggestionIndexEntity
entity id n = record {
  entity_id = codes id;
  canonical_name = codes "Name";
  public_role = codes "king";
  aliases = codes "Alias" ∷ [];
  search_name = codes "name";
  search_role = codes "king";
  search_aliases = codes "alias" ∷ [];
  sort_rank = n;
}

-- An index whose entities do not stand in the order of their ranks.
abbrev given : SuggestionIndex
given = record {
  revision_id = codes "00000000-0000-4000-8000-00000000000a";
  entities = entity "e2" 1 ∷ entity "e1" 0 ∷ [];
}

abbrev kept : SuggestionIndex
kept = record given { entities = entity "e1" 0 ∷ entity "e2" 1 ∷ [] }

abbrev stringify : Value → Text
stringify v = codes "{}"

abbrev parse : Text → Option Value
parse raw = some (to_value kept)

validate-given : validate (to_value given) ≡ ok kept
unfolding validate to_value record_of get is_string string_of dense_array count_values entities_of
    entity_value by_rank suggestion_cache_key is_revision is_entity_id fits str_eq sort_by same_text
validate-given = refl

repeated_id :
    validate (to_value (record given { entities = entity "e1" 1 ∷ entity "e1" 0 ∷ [] }))
    ≡ err invalid
unfolding validate to_value record_of get is_string string_of dense_array count_values entities_of
    entity_value by_rank suggestion_cache_key is_revision is_entity_id fits str_eq sort_by same_text
repeated_id = refl

written : serialize_suggestion_index length parse stringify (to_value given) ≡ ok (codes "{}")
unfolding serialize_suggestion_index
written = rw validate-given refl

the_index : (i : SuggestionIndex) → validate (to_value given) ≡ ok i → kept ≡ i
the_index i h =
    let k : ◌≡◌ {A = Checked SuggestionIndex} (ok kept) (ok i) = sym validate-given ∙ h in cc

serialize-parse_example :
    (i : SuggestionIndex) × (validate (to_value given) ≡ ok i)
    × (parse_suggestion_index length parse stringify (text (codes "{}")) ≡ ok i)
serialize-parse_example =
    serialize-parse length parse stringify (to_value given) (codes "{}")
      (λ i h. ap (λ x. some (to_value x)) (the_index i h)) written

validate-Precedes_example :
    (is_revision kept.revision_id ≡ true)
    × (length kept.entities ≤ 1000)
    × Pairwise Precedes kept.entities
    × (validate (to_value kept) ≡ ok kept)
validate-Precedes_example = validate-Precedes (to_value given) kept validate-given

-- ===== src/Cache/SuggestionIndex/Storage.antt =====
-- A suggestion index that packages/cache/src/suggestions.ts writes is read back.
use mathlib.Core.Path.{subst}
use loremaster.Prelude.{
  throw_if-ok, ℕ, suc, ◌≡◌, ◌≤◌, ◌<◌, ◌≢◌, inl, inr, refl, sym, ap, ◌∙◌, true, false, not, List, [],
  ◌∷◌, ◌++◌, Option, some, str_eq, ◌==◌, ok, err, >>=-eq-ok, throw_if, Bool-cases, All, length, leb,
  ltb, arith,
}
use loremaster.Prelude.Js.{Text, codes, same_text, same_text_iff, compare_text-swap}
use loremaster.Prelude.Sorting.{
  Pairwise, IsSorted, sort_by, sort_by-All, sort_by-Pairwise, sort_by-IsSorted, sort_by-sorted,
  length-sort_by,
}
use loremaster.Cache.SuggestionIndex.{
  Fields, Value, text, Values, SuggestionIndexEntity, SuggestionIndex, invalid, Checked, get,
  record_of, string_of, dense_array, count_values, entities_of, by_rank, is_one, envelope_keys,
  envelope_of, validate, validate_parsed, parse_text, entity_objects, to_value,
  suggestion_cache_key, is_revision, suggestion_cache_max_bytes, parse_suggestion_index,
  serialize_suggestion_index,
}
use loremaster.Cache.SuggestionIndex.Soundness.{
  ok-inj, string_of-again, dense_array-cases, dense_array-again, IsKept, Apart, entities_of-Kept,
  Kept-entities_of, ||-false,
}

ranks_total : (a b : SuggestionIndexEntity) → by_rank a b ≡ false → by_rank b a ≡ true
unfolding by_rank
ranks_total a b h = ground arith

ranks_trans :
    (a b c : SuggestionIndexEntity) → by_rank a b ≡ true → by_rank b c ≡ true → by_rank a c ≡ true
unfolding by_rank
ranks_trans a b c h k = ground arith

same_sym : (s u : Text) → same_text s u ≡ false → same_text u s ≡ false
unfolding same_text
same_sym s u h = ground (arith, compare_text-swap s u)

num_sym : (m n : ℕ) → (m == n) ≡ false → (n == m) ≡ false
num_sym m n h = ground arith

Apart-sym : (a b : SuggestionIndexEntity) → Apart a b → Apart b a
Apart-sym a b h =
    let k = ||-false (same_text a.entity_id b.entity_id) (a.sort_rank == b.sort_rank) h in
    rw (same_sym a.entity_id b.entity_id k.0, num_sym a.sort_rank b.sort_rank k.1) refl

at_most : {m n : ℕ} → m ≡ n → leb n 1000 ≡ true → m ≤ 1000
at_most h l = ground (arith, h, l)

-- What the check ensures of the entities of an index.
abbrev pub IsIndexed : List SuggestionIndexEntity → Type 0
IsIndexed es = (length es ≤ 1000) × All IsKept es × Pairwise Apart es × IsSorted by_rank es

-- What it ensures of an index.
abbrev pub IsStored : SuggestionIndex → Type 0
IsStored i =
    (string_of 36 (some (text i.revision_id)) ≡ ok i.revision_id)
    × (is_revision i.revision_id ≡ true)
    × IsIndexed i.entities

sorted-IsIndexed :
    (vs : Values) (es : List SuggestionIndexEntity)
    → leb (count_values vs) 1000 ≡ true
    → entities_of [] vs ≡ ok es
    → IsIndexed (sort_by by_rank es)
sorted-IsIndexed vs es l h =
    let (kept, pairs, _, n) = entities_of-Kept [] vs es h in
    (
      at_most (length-sort_by by_rank es ∙ n) l,
      sort_by-All by_rank IsKept es kept,
      sort_by-Pairwise by_rank Apart es Apart-sym pairs,
      sort_by-IsSorted by_rank ranks_total ranks_trans es,
    )

key-cases : (r : Text) {k : Text} → suggestion_cache_key r ≡ ok k → is_revision r ≡ true
unfolding suggestion_cache_key
key-cases r {k} h = elim (Bool-cases (is_revision r)) [
  | inl e ↦ e
  | inr e ↦ let j : ◌≡◌ {A = Checked Text} (err invalid) (ok k) = rw e at h in absurd (cc j)
]

envelope-IsStored : (fs : Fields) (i : SuggestionIndex) → envelope_of fs ≡ ok i → IsStored i
unfolding envelope_of
envelope-IsStored fs i h =
    let (_, _, h1) = >>=-eq-ok (throw_if (not (is_one (get "version" fs))) invalid) _ h in
    let (r, a, h2) = >>=-eq-ok (string_of 36 (get "revisionId" fs)) _ h1 in
    let (_, b, h3) = >>=-eq-ok (suggestion_cache_key r) _ h2 in
    let (vs, c, h4) = >>=-eq-ok (dense_array 1000 (get "entities" fs)) _ h3 in
    let (es, d, h5) = >>=-eq-ok (entities_of [] vs) _ h4 in
    subst IsStored (ok-inj h5) (
      string_of-again 36 (get "revisionId" fs) r a,
      key-cases r b,
      sorted-IsIndexed vs es (dense_array-cases 1000 (get "entities" fs) vs c) d,
    )

pub validate-IsStored : (v : Value) (i : SuggestionIndex) → validate v ≡ ok i → IsStored i
unfolding validate
validate-IsStored v i h =
    let (fs, _, r) = >>=-eq-ok (record_of envelope_keys v) _ h in envelope-IsStored fs i r

key-of : (r : Text) → is_revision r ≡ true → (k : Text) × (suggestion_cache_key r ≡ ok k)
unfolding suggestion_cache_key
key-of r h = (codes "loremaster:v1:revision:" ++ r ++ codes ":suggestions", rw h refl)

count-objects : (es : List SuggestionIndexEntity) → count_values (entity_objects es) ≡ length es
unfolding count_values entity_objects
count-objects [] = refl
count-objects (e ∷ es) = ap suc (count-objects es)

fits_in : {m n : ℕ} → m ≡ n → n ≤ 1000 → leb m 1000 ≡ true
fits_in h l = ground (arith, h, l)

-- The value that the check built passes it again.
pub validate-to_value : (i : SuggestionIndex) → IsStored i → validate (to_value i) ≡ ok i
unfolding validate envelope_of to_value record_of envelope_keys get is_one str_eq
validate-to_value i (a, b, (l, kept, pairs, sorted)) =
    let (k, c) = key-of i.revision_id b in
    rw
      (
        a,
        c,
        dense_array-again 1000 (entity_objects i.entities) (fits_in (count-objects i.entities) l),
        Kept-entities_of [] i.entities kept pairs tt,
        sort_by-sorted by_rank i.entities sorted,
      )
      refl

-- An entity comes before another one: by its rank, and under another id.
abbrev pub Precedes : SuggestionIndexEntity → SuggestionIndexEntity → Type 0
Precedes a b = (a.entity_id ≢ b.entity_id) × (a.sort_rank < b.sort_rank)

below : (m n : ℕ) → (m == n) ≡ false → leb m n ≡ true → m < n
below m n h k = ground arith

Apart-Precedes : (a b : SuggestionIndexEntity) → Apart a b → by_rank a b ≡ true → Precedes a b
unfolding by_rank
Apart-Precedes a b h k =
    let d = ||-false (same_text a.entity_id b.entity_id) (a.sort_rank == b.sort_rank) h in
    (
      λ e. absurd (cc (sym d.0 ∙ (same_text_iff a.entity_id b.entity_id).1 e)),
      below a.sort_rank b.sort_rank d.1 k,
    )

All-Precedes :
    (a : SuggestionIndexEntity) (bs : List SuggestionIndexEntity)
    → All (Apart a) bs
    → All (λ b. by_rank a b ≡ true) bs
    → All (Precedes a) bs
All-Precedes a [] h k = tt
All-Precedes a (b ∷ bs) h k = (Apart-Precedes a b h.0 k.0, All-Precedes a bs h.1 k.1)

Pairwise-Precedes :
    (es : List SuggestionIndexEntity)
    → Pairwise Apart es
    → IsSorted by_rank es
    → Pairwise Precedes es
Pairwise-Precedes [] h k = tt
Pairwise-Precedes (e ∷ es) h k = (All-Precedes e es h.0 k.0, Pairwise-Precedes es h.1 k.1)

-- Every value that passes the check becomes an index of a revision in the form of a UUID, with at
-- most 1000 entities, which stand in strictly ascending order of their ranks and no two of which
-- have one id; and the check of that index gives the same index again.
pub validate-Precedes :
    (v : Value) (i : SuggestionIndex)
    → validate v ≡ ok i
    → (is_revision i.revision_id ≡ true)
      × (length i.entities ≤ 1000)
      × Pairwise Precedes i.entities
      × (validate (to_value i) ≡ ok i)
validate-Precedes v i h =
    let s = validate-IsStored v i h in
    let (_, r, (l, _, pairs, sorted)) = s in
    (r, l, Pairwise-Precedes i.entities pairs sorted, validate-to_value i s)

module _ (byte_length : Text → ℕ) (json_parse : Text → Option Value)
    (json_stringify : Value → Text) where
  -- When a value is written without an error, and JSON reads back what it wrote of the index that
  -- the check makes of the value, then the stored text is read back as that index.
  pub serialize-parse :
      (v : Value) (raw : Text)
      → ((i : SuggestionIndex)
          → validate v ≡ ok i
          → json_parse (json_stringify (to_value i)) ≡ some (to_value i))
      → serialize_suggestion_index byte_length json_parse json_stringify v ≡ ok raw
      → (i : SuggestionIndex) × (validate v ≡ ok i)
        × (parse_suggestion_index byte_length json_parse json_stringify (text raw) ≡ ok i)
  unfolding serialize_suggestion_index parse_suggestion_index parse_text validate_parsed
  serialize-parse v raw json h =
      let (i, a, h1) = >>=-eq-ok (validate v) _ h in
      let (_, b, h2) =
        >>=-eq-ok
          (throw_if (ltb suggestion_cache_max_bytes (byte_length (json_stringify (to_value i))))
            invalid)
          _ h1 in
      let k : json_stringify (to_value i) ≡ raw = ok-inj h2 in
      (
        i,
        a,
        rw (← k)
            (rw (throw_if-ok _ _ b, json i a, validate-to_value i (validate-IsStored v i a)) refl),
      )

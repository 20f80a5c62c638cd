-- ===== src/Cache/SuggestionIndex/Soundness.antt =====
-- What the check of packages/cache/src/suggestions.ts lets pass, it lets pass again.
use loremaster.Prelude.{
  throw_if-ok, ℕ, suc, ◌≡◌, inl, inr, refl, ap, ◌∙◌, Bool, true, false, ◌||◌, not, List, [], ◌∷◌,
  Option, none, some, str_eq, ◌==◌, ok, err, >>=-eq-ok, throw_if, Bool-cases, All, length, leb, ltb,
  arith,
}
use mathlib.Core.Path.{subst}
use loremaster.Prelude.Int.{pos, negsuc}
use loremaster.Prelude.Js.{Text, int, between, infinity, neg_infinity, nan, same_text}
use loremaster.Prelude.Sorting.{Pairwise}
use loremaster.Cache.SuggestionIndex.{
  Value, null, boolean, number, text, array, object, other, Values, nil, cons, Fields,
  SuggestionIndexEntity, invalid, Checked, get, record_of, is_string, string_of, dense_array,
  count_values, strings, alias_list, id_of, is_entity_id, rank_of, entity_keys, entity_of,
  entity_value, clashes, entities_of, texts, entity_object, entity_objects,
}

-- A text that was read is read again.
pub string_of-again :
    (max : ℕ) (o : Option Value) (t : Text)
    → string_of max o ≡ ok t
    → string_of max (some (text t)) ≡ ok t
unfolding string_of
string_of-again max none t h = absurd (cc h)
string_of-again max (some (text s)) t h = elim (Bool-cases (is_string max s)) [
  | inl e ↦ let k : s ≡ t = ground (arith, h, e) in rw (← k, e) refl
  | inr e ↦ let k : ◌≡◌ {A = Checked Text} (err invalid) (ok t) = rw e at h in absurd (cc k)
]
string_of-again max (some null) t h = absurd (cc h)
string_of-again max (some (boolean b)) t h = absurd (cc h)
string_of-again max (some (number n)) t h = absurd (cc h)
string_of-again max (some (array vs)) t h = absurd (cc h)
string_of-again max (some (object fs)) t h = absurd (cc h)
string_of-again max (some other) t h = absurd (cc h)

strings-again :
    (vs : Values) (ts : List Text)
    → strings vs ≡ ok ts
    → (strings (texts ts) ≡ ok ts) × (count_values (texts ts) ≡ count_values vs)
unfolding strings texts count_values
strings-again nil ts h = let k : [] ≡ ts = ground (arith, h) in rw (← k) (refl, refl)
strings-again (cons v vs) ts h =
    let (t, e, r) = >>=-eq-ok (string_of 512 (some v)) _ h in
    let (us, f, q) = >>=-eq-ok (strings vs) _ r in
    let (g, c) = strings-again vs us f in
    let k : t ∷ us ≡ ts = ground (arith, q) in
    rw (← k) (rw (string_of-again 512 (some v) t e, g) refl, ap suc c)

-- A list that was read is read again.
pub dense_array-cases :
    (max : ℕ) (o : Option Value) (vs : Values)
    → dense_array max o ≡ ok vs
    → leb (count_values vs) max ≡ true
unfolding dense_array
dense_array-cases max none vs h = absurd (cc h)
dense_array-cases max (some (array ws)) vs h = elim (Bool-cases (leb (count_values ws) max)) [
  | inl e ↦ let k : ws ≡ vs = ground (arith, h, e) in rw (← k) e
  | inr e ↦ let k : ◌≡◌ {A = Checked Values} (err invalid) (ok vs) = rw e at h in absurd (cc k)
]
dense_array-cases max (some null) vs h = absurd (cc h)
dense_array-cases max (some (boolean b)) vs h = absurd (cc h)
dense_array-cases max (some (number n)) vs h = absurd (cc h)
dense_array-cases max (some (text s)) vs h = absurd (cc h)
dense_array-cases max (some (object fs)) vs h = absurd (cc h)
dense_array-cases max (some other) vs h = absurd (cc h)

pub dense_array-again :
    (max : ℕ) (vs : Values)
    → leb (count_values vs) max ≡ true
    → dense_array max (some (array vs)) ≡ ok vs
unfolding dense_array
dense_array-again max vs h = rw h refl

alias_list-again :
    (o : Option Value) (ts : List Text)
    → alias_list o ≡ ok ts
    → alias_list (some (array (texts ts))) ≡ ok ts
unfolding alias_list
alias_list-again o ts h =
    let (vs, e, r) = >>=-eq-ok (dense_array 32 o) _ h in
    let (g, c) = strings-again vs ts r in
    rw (dense_array-again 32 (texts ts) (ap (λ n. leb n 32) c ∙ dense_array-cases 32 o vs e), g)
      refl

id_of-again : (o : Option Value) (t : Text) → id_of o ≡ ok t → id_of (some (text t)) ≡ ok t
unfolding id_of
id_of-again o t h =
    let (s, e, r) = >>=-eq-ok (string_of 128 o) _ h in
    elim (Bool-cases (is_entity_id s)) [
      | inl d ↦ let k : s ≡ t = ground (arith, r, d) in rw (← k, string_of-again 128 o s e, d) refl
      | inr d ↦ let k : ◌≡◌ {A = Checked Text} (err invalid) (ok t) = rw d at r in absurd (cc k)
    ]

rank_of-again :
    (o : Option Value) (n : ℕ) → rank_of o ≡ ok n → rank_of (some (number (int (pos n)))) ≡ ok n
unfolding rank_of
rank_of-again none n h = absurd (cc h)
rank_of-again (some (number (int (pos m)))) n h = elim (Bool-cases (ltb m 1000)) [
  | inl e ↦ let k : m ≡ n = ground (arith, h, e) in rw (← k, e) refl
  | inr e ↦ let k : ◌≡◌ {A = Checked ℕ} (err invalid) (ok n) = rw e at h in absurd (cc k)
]
rank_of-again (some (number (int (negsuc m)))) n h = absurd (cc h)
rank_of-again (some (number (between z))) n h = absurd (cc h)
rank_of-again (some (number infinity)) n h = absurd (cc h)
rank_of-again (some (number neg_infinity)) n h = absurd (cc h)
rank_of-again (some (number nan)) n h = absurd (cc h)
rank_of-again (some null) n h = absurd (cc h)
rank_of-again (some (boolean b)) n h = absurd (cc h)
rank_of-again (some (text s)) n h = absurd (cc h)
rank_of-again (some (array vs)) n h = absurd (cc h)
rank_of-again (some (object fs)) n h = absurd (cc h)
rank_of-again (some other) n h = absurd (cc h)

pub ok-inj : {A : Type 0} {a b : A} → ◌≡◌ {A = Checked A} (ok a) (ok b) → a ≡ b
ok-inj h = cc

pub ||-false : (b c : Bool) → (b || c) ≡ false → (b ≡ false) × (c ≡ false)
||-false true c h = absurd (cc h)
||-false false c h = (refl, h)

-- An entity that the check lets pass in the form in which it is stored.
abbrev pub IsKept : SuggestionIndexEntity → Type 0
IsKept e = entity_value (entity_object e) ≡ ok e

kept :
    (e : SuggestionIndexEntity)
    → id_of (some (text e.entity_id)) ≡ ok e.entity_id
    → rank_of (some (number (int (pos e.sort_rank)))) ≡ ok e.sort_rank
    → alias_list (some (array (texts e.aliases))) ≡ ok e.aliases
    → alias_list (some (array (texts e.search_aliases))) ≡ ok e.search_aliases
    → not (length e.aliases == length e.search_aliases) ≡ false
    → string_of 512 (some (text e.canonical_name)) ≡ ok e.canonical_name
    → string_of 512 (some (text e.public_role)) ≡ ok e.public_role
    → string_of 512 (some (text e.search_name)) ≡ ok e.search_name
    → string_of 512 (some (text e.search_role)) ≡ ok e.search_role
    → IsKept e
unfolding entity_of entity_value entity_object record_of entity_keys get str_eq
kept e a b c d f g i j k = rw (a, b, c, d, f, g, i, j, k) refl

entity_of-IsKept : (fs : Fields) (e : SuggestionIndexEntity) → entity_of fs ≡ ok e → IsKept e
unfolding entity_of
entity_of-IsKept fs e h =
    let (id, a, h1) = >>=-eq-ok (id_of (get "entityId" fs)) _ h in
    let (n, b, h2) = >>=-eq-ok (rank_of (get "sortRank" fs)) _ h1 in
    let (names, c, h3) = >>=-eq-ok (alias_list (get "aliases" fs)) _ h2 in
    let (searched, d, h4) = >>=-eq-ok (alias_list (get "searchAliases" fs)) _ h3 in
    let (_, f, h5) = >>=-eq-ok (throw_if (not (length names == length searched)) invalid) _ h4 in
    let (name, g, h6) = >>=-eq-ok (string_of 512 (get "canonicalName" fs)) _ h5 in
    let (role, i, h7) = >>=-eq-ok (string_of 512 (get "publicRole" fs)) _ h6 in
    let (sname, j, h8) = >>=-eq-ok (string_of 512 (get "searchName" fs)) _ h7 in
    let (srole, k, h9) = >>=-eq-ok (string_of 512 (get "searchRole" fs)) _ h8 in
    subst IsKept (ok-inj h9) (
      kept _ (id_of-again (get "entityId" fs) id a) (rank_of-again (get "sortRank" fs) n b)
        (alias_list-again (get "aliases" fs) names c)
        (alias_list-again (get "searchAliases" fs) searched d) (throw_if-ok _ _ f)
        (string_of-again 512 (get "canonicalName" fs) name g)
        (string_of-again 512 (get "publicRole" fs) role i)
        (string_of-again 512 (get "searchName" fs) sname j)
        (string_of-again 512 (get "searchRole" fs) srole k))

entity_value-IsKept : (v : Value) (e : SuggestionIndexEntity) → entity_value v ≡ ok e → IsKept e
unfolding entity_value
entity_value-IsKept v e h =
    let (fs, _, r) = >>=-eq-ok (record_of entity_keys v) _ h in entity_of-IsKept fs e r

-- Two entities with different ids and different ranks.
abbrev pub Apart : SuggestionIndexEntity → SuggestionIndexEntity → Type 0
Apart s e = (same_text s.entity_id e.entity_id || s.sort_rank == e.sort_rank) ≡ false

clashes-Apart :
    (e : SuggestionIndexEntity) (seen : List SuggestionIndexEntity)
    → clashes e seen ≡ false
    → All (λ s. Apart s e) seen
unfolding clashes
clashes-Apart e [] h = tt
clashes-Apart e (s ∷ seen) h =
    let k = ||-false (same_text s.entity_id e.entity_id || s.sort_rank == e.sort_rank) _ h in
    (k.0, clashes-Apart e seen k.1)

Apart-clashes :
    (e : SuggestionIndexEntity) (seen : List SuggestionIndexEntity)
    → All (λ s. Apart s e) seen
    → clashes e seen ≡ false
unfolding clashes
Apart-clashes e [] h = refl
Apart-clashes e (s ∷ seen) h = rw (h.0, Apart-clashes e seen h.1) refl

-- Those that were seen are apart from all that follow.
abbrev pub Fresh : List SuggestionIndexEntity → List SuggestionIndexEntity → Type 0
Fresh seen es = All (λ s. All (Apart s) es) seen

zip :
    (e : SuggestionIndexEntity) (es seen : List SuggestionIndexEntity)
    → All (λ s. Apart s e) seen
    → Fresh seen es
    → Fresh seen (e ∷ es)
zip e es [] h k = tt
zip e es (s ∷ seen) h k = ((h.0, k.0), zip e es seen h.1 k.1)

heads :
    (e : SuggestionIndexEntity) (es seen : List SuggestionIndexEntity)
    → Fresh seen (e ∷ es)
    → All (λ s. Apart s e) seen
heads e es [] h = tt
heads e es (s ∷ seen) h = (h.0.0, heads e es seen h.1)

tails :
    (e : SuggestionIndexEntity) (es seen : List SuggestionIndexEntity)
    → Fresh seen (e ∷ es)
    → Fresh seen es
tails e es [] h = tt
tails e es (s ∷ seen) h = (h.0.1, tails e es seen h.1)

pub all_trivial : (seen : List SuggestionIndexEntity) → Fresh seen []
all_trivial [] = tt
all_trivial (s ∷ seen) = (tt, all_trivial seen)

pub entities_of-Kept :
    (seen : List SuggestionIndexEntity) (vs : Values) (es : List SuggestionIndexEntity)
    → entities_of seen vs ≡ ok es
    → All IsKept es × Pairwise Apart es × Fresh seen es × (length es ≡ count_values vs)
unfolding entities_of count_values
entities_of-Kept seen nil es h =
    let k : [] ≡ es = ok-inj h in rw (← k) (tt, tt, all_trivial seen, refl)
entities_of-Kept seen (cons v vs) es h =
    let (e, a, h1) = >>=-eq-ok (entity_value v) _ h in
    let (_, b, h2) = >>=-eq-ok (throw_if (clashes e seen) invalid) _ h1 in
    let (fs, c, h3) = >>=-eq-ok (entities_of (e ∷ seen) vs) _ h2 in
    let (kept_fs, pairs, (first, fresh), n) = entities_of-Kept (e ∷ seen) vs fs c in
    let k : e ∷ fs ≡ es = ok-inj h3 in
    rw (← k) (
      (entity_value-IsKept v e a, kept_fs),
      (first, pairs),
      zip e fs seen (clashes-Apart e seen (throw_if-ok _ _ b)) fresh,
      ap suc n,
    )

pub Kept-entities_of :
    (seen es : List SuggestionIndexEntity)
    → All IsKept es
    → Pairwise Apart es
    → Fresh seen es
    → entities_of seen (entity_objects es) ≡ ok es
unfolding entities_of entity_objects
Kept-entities_of seen [] v p f = refl
Kept-entities_of seen (e ∷ es) v p f =
    rw
      (
        v.0,
        Apart-clashes e seen (heads e es seen f),
        Kept-entities_of (e ∷ seen) es v.1 p.1 (p.0, tails e es seen f),
      )
      refl

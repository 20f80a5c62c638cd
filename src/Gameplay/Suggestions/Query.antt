-- ===== src/Gameplay/Suggestions/Query.antt =====
-- What a query asks of packages/database/src/gameplay/suggestions.ts: which texts it occurs in, and
-- how a row answers it.
use loremaster.Prelude.{
  ℕ, ◌≤◌, ◌<◌, ◌≡◌, ◌≢◌, refl, sym, ap, ◌∙◌, ◌⊎◌, inl, inr, ◌↔◌, Bool, true, false, Bool-cases,
  List, [], ◌∷◌, ◌++◌, Mem, any, arith,
}
use loremaster.Prelude.Js.{Text, same_text, same_text_iff, starts_with, includes}
use loremaster.Gameplay.Suggestions.{SuggestionIndexRow, matches, rank, is_ahead}

-- The text t begins with n.
abbrev pub Begins : Text → Text → Type 0
Begins n t = (rest : Text) × (t ≡ n ++ rest)

-- The text n occurs somewhere in t.
abbrev pub Occurs : Text → Text → Type 0
Occurs n t = (before : Text) × (rest : Text) × (t ≡ before ++ (n ++ rest))

starts_with-Begins : (n t : Text) → starts_with n t ≡ true → Begins n t
unfolding starts_with
starts_with-Begins [] t h = (t, refl)
starts_with-Begins (p ∷ ps) [] h = absurd (cc h)
starts_with-Begins (p ∷ ps) (c ∷ cs) h =
    let same : (p ≡ c) × (starts_with ps cs ≡ true) = ground arith in
    let (rest, e) = starts_with-Begins ps cs same.1 in (rest, rw (same.0, e) refl)

Begins-starts_with : (n t : Text) → Begins n t → starts_with n t ≡ true
unfolding starts_with
Begins-starts_with [] t h = refl
Begins-starts_with (p ∷ ps) [] (rest, e) = absurd (cc e)
Begins-starts_with (p ∷ ps) (c ∷ cs) (rest, e) =
    let tails : cs ≡ ps ++ rest = cc e in
    let heads : p ≡ c = cc e in let deep = Begins-starts_with ps cs (rest, tails) in ground arith

includes-Occurs : (n t : Text) → includes n t ≡ true → Occurs n t
unfolding includes
includes-Occurs n [] h = let (rest, e) = starts_with-Begins n [] h in ([], rest, e)
includes-Occurs n (c ∷ cs) h = elim (Bool-cases (starts_with n (c ∷ cs))) [
  | inl q ↦ let (rest, e) = starts_with-Begins n (c ∷ cs) q in ([], rest, e)
  | inr q ↦
      let (before, rest, e) = includes-Occurs n cs (rw q at h) in
      (c ∷ before, rest, ap (λ x. c ∷ x) e)
]

Occurs-includes : (n t : Text) → Occurs n t → includes n t ≡ true
unfolding includes
Occurs-includes n [] ([], rest, e) = Begins-starts_with n [] (rest, e)
Occurs-includes n [] (b ∷ before, rest, e) = absurd (cc e)
Occurs-includes n (c ∷ cs) ([], rest, e) = rw (Begins-starts_with n (c ∷ cs) (rest, e)) refl
Occurs-includes n (c ∷ cs) (b ∷ before, rest, e) =
    let tails : cs ≡ before ++ (n ++ rest) = cc e in
    rw (Occurs-includes n cs (before, rest, tails)) (ground arith)

starts_with_iff : (n t : Text) → (starts_with n t ≡ true) ↔ Begins n t
starts_with_iff n t = (starts_with-Begins n t, Begins-starts_with n t)

includes_iff : (n t : Text) → (includes n t ≡ true) ↔ Occurs n t
includes_iff n t = (includes-Occurs n t, Occurs-includes n t)

-- One of the texts satisfies P.
abbrev pub Exists : (Text → Type 0) → List Text → Type 0
Exists P ts = (t : Text) × Mem t ts × P t

module _ (p : Text → Bool) (P : Text → Type 0) (decides : (t : Text) → (p t ≡ true) ↔ P t) where
  any-Exists : (ts : List Text) → any p ts ≡ true → Exists P ts
  any-Exists [] h = absurd (cc h)
  any-Exists (x ∷ xs) h = elim (Bool-cases (p x)) [
    | inl q ↦ (x, inl refl, (decides x).0 q)
    | inr q ↦ let (t, m, r) = any-Exists xs (rw q at h) in (t, inr m, r)
  ]

  Exists-any : (ts : List Text) → Exists P ts → any p ts ≡ true
  Exists-any [] (t, m, r) = absurd m
  Exists-any (x ∷ xs) (t, inl e, r) = rw ((decides x).1 (rw e at r)) refl
  Exists-any (x ∷ xs) (t, inr m, r) = let deep = Exists-any xs (t, m, r) in ground arith

  any_iff : (ts : List Text) → (any p ts ≡ true) ↔ Exists P ts
  any_iff ts = (any-Exists ts, Exists-any ts)

-- The query occurs in the name, the role or an alias of the row.
abbrev pub Answers : Text → SuggestionIndexRow → Type 0
Answers n e = Occurs n e.search_name ⊎ Occurs n e.search_role ⊎ Exists (Occurs n) e.search_aliases

pub matches_iff : (n : Text) (e : SuggestionIndexRow) → (matches n e ≡ true) ↔ Answers n e
unfolding matches
matches_iff n e = ground (
  arith,
  includes_iff n e.search_name,
  includes_iff n e.search_role,
  any_iff (includes n) (Occurs n) (includes_iff n) e.search_aliases,
)

-- `Place n e k`: how well the row e answers the query, from 0 for its very name to 4.
pub data Place (n : Text) (e : SuggestionIndexRow) : ℕ → Type 0 where
  very_name : e.search_name ≡ n → Place n e 0
  very_alias : e.search_name ≢ n → Mem n e.search_aliases → Place n e 1
  start_of_name :
      e.search_name ≢ n → ¬ Mem n e.search_aliases → Begins n e.search_name → Place n e 2
  start_of_role :
      e.search_name ≢ n
      → ¬ Mem n e.search_aliases
      → ¬ Begins n e.search_name
      → Begins n e.search_role
      → Place n e 3
  elsewhere :
      e.search_name ≢ n
      → ¬ Mem n e.search_aliases
      → ¬ Begins n e.search_name
      → ¬ Begins n e.search_role
      → Place n e 4

-- The row x answers better than y, or as well and does not come after it in the index.
abbrev pub Precedes : Text → SuggestionIndexRow → SuggestionIndexRow → Type 0
Precedes n x y =
    (i : ℕ) × (j : ℕ) × Place n x i
    × Place n y j
    × ((i < j) ⊎ ((i ≡ j) × (x.sort_rank ≤ y.sort_rank)))

is_alias_iff : (n : Text) (ts : List Text) → (any (same_text n) ts ≡ true) ↔ Mem n ts
is_alias_iff n [] = (λ h. absurd (cc h), λ m. absurd m)
is_alias_iff n (t ∷ ts) = ground (arith, same_text_iff n t, is_alias_iff n ts)

not_true : {P : Type 0} {b : Bool} → (b ≡ true) ↔ P → b ≡ false → ¬ P
not_true d f p = let t = d.1 p in absurd (cc (sym t ∙ f))

pub rank-Place : (n : Text) (e : SuggestionIndexRow) → Place n e (rank n e)
unfolding rank
rank-Place n e = elim (Bool-cases (same_text e.search_name n)) [
  | inl a ↦ rw a (very_name ((same_text_iff e.search_name n).0 a))
  | inr a ↦
      let na = not_true (same_text_iff e.search_name n) a in
      elim (Bool-cases (any (same_text n) e.search_aliases)) [
        | inl b ↦ rw (a, b) (very_alias na ((is_alias_iff n e.search_aliases).0 b))
        | inr b ↦
            let nb = not_true (is_alias_iff n e.search_aliases) b in
            elim (Bool-cases (starts_with n e.search_name)) [
              | inl c ↦ rw (a, b, c) (start_of_name na nb ((starts_with_iff n e.search_name).0 c))
              | inr c ↦
                  let nc = not_true (starts_with_iff n e.search_name) c in
                  elim (Bool-cases (starts_with n e.search_role)) [
                    | inl d ↦
                        rw (a, b, c, d)
                          (start_of_role na nb nc ((starts_with_iff n e.search_role).0 d))
                    | inr d ↦
                        rw (a, b, c, d)
                          (elsewhere na nb nc (not_true (starts_with_iff n e.search_role) d))
                  ]
            ]
      ]
]

pub is_ahead-Precedes :
    (n : Text) (x y : SuggestionIndexRow) → is_ahead n x y ≡ true → Precedes n x y
unfolding is_ahead
is_ahead-Precedes n x y h = (rank n x, rank n y, rank-Place n x, rank-Place n y, ground arith)

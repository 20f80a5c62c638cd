-- ===== src/Gameplay/Suggestions/Ranking.antt =====
-- Which suggestions filterSuggestionIndex of packages/database/src/gameplay/suggestions.ts shows.
use loremaster.Prelude.{
  ℕ, suc, zero, Bool, true, false, ◌≡◌, ◌≤◌, ◌⊎◌, inl, inr, refl, ap, ◌∙◌, List, [], ◌∷◌, map, All,
  All-Mem, All-of_Mem, Mem, Bool-cases, filter, take, length, arith,
}
use loremaster.Gameplay.Suggestions.Query.{Answers, Precedes, matches_iff, is_ahead-Precedes}
use loremaster.Prelude.Sorting.{
  sort_by, Pairwise, IsSorted, sort_by-IsSorted, sort_by-Mem, sort_by-from,
}
use loremaster.Prelude.Js.{Text}
use loremaster.Gameplay.Suggestions.{
  SuggestionIndexRow, PublishedSuggestionIndex, matches, is_ahead, project_row,
  filter_suggestion_index,
}

module _ (n : Text) where
  abbrev pub Ahead : SuggestionIndexRow → SuggestionIndexRow → Type 0
  Ahead x y = is_ahead n x y ≡ true

  abbrev pub IsRanked : List SuggestionIndexRow → Type 0
  IsRanked = IsSorted (is_ahead n)

  Ahead-total : (x y : SuggestionIndexRow) → is_ahead n x y ≡ false → Ahead y x
  unfolding is_ahead
  Ahead-total x y h = ground arith

  Ahead-trans : (x y z : SuggestionIndexRow) → Ahead x y → Ahead y z → Ahead x z
  unfolding is_ahead
  Ahead-trans x y z h k = ground arith

  filter-Mem :
      (p : SuggestionIndexRow → Bool) (e : SuggestionIndexRow) (xs : List SuggestionIndexRow)
      → Mem e xs
      → p e ≡ true
      → Mem e (filter p xs)
  filter-Mem p e [] h t = h
  filter-Mem p e (x ∷ xs) (inl q) t = let b : p x ≡ true = rw (← q) t in rw b (inl q)
  filter-Mem p e (x ∷ xs) (inr r) t = elim (Bool-cases (p x)) [
    | inl b ↦ rw b (inr (filter-Mem p e xs r t))
    | inr b ↦ rw b (filter-Mem p e xs r t)
  ]

  -- A row that the cut leaves out comes after all that it keeps, which are as many as it keeps.
  take-Mem :
      (k : ℕ) (e : SuggestionIndexRow) (xs : List SuggestionIndexRow)
      → IsRanked xs
      → Mem e xs
      → Mem e (take k xs) ⊎ ((length (take k xs) ≡ k) × All (λ s. Ahead s e) (take k xs))
  take-Mem zero e xs v h = inr (refl, tt)
  take-Mem (suc k) e [] v h = absurd h
  take-Mem (suc k) e (x ∷ xs) v (inl q) = inl (inl q)
  take-Mem (suc k) e (x ∷ xs) v (inr r) = elim (take-Mem k e xs v.1 r) [
    | inl m ↦ inl (inr m)
    | inr (l, a) ↦ inr (ap suc l, (All-Mem (Ahead x) e xs v.0 r, a))
  ]

  filter-from :
      (p : SuggestionIndexRow → Bool) (e : SuggestionIndexRow) (xs : List SuggestionIndexRow)
      → Mem e (filter p xs)
      → Mem e xs × (p e ≡ true)
  filter-from p e [] h = absurd h
  filter-from p e (x ∷ xs) h = elim (Bool-cases (p x)) [
    | inl b ↦
        let k : Mem e (x ∷ filter p xs) = rw b at h in
        elim k [
          | inl q ↦ (inl q, ap p q ∙ b)
          | inr m ↦ let r = filter-from p e xs m in (inr r.0, r.1)
        ]
    | inr b ↦ let r = filter-from p e xs (rw b at h) in (inr r.0, r.1)
  ]

  take-from :
      (k : ℕ) (e : SuggestionIndexRow) (xs : List SuggestionIndexRow) → Mem e (take k xs) → Mem e xs
  take-from zero e xs h = absurd h
  take-from (suc k) e [] h = h
  take-from (suc k) e (x ∷ xs) (inl q) = inl q
  take-from (suc k) e (x ∷ xs) (inr m) = inr (take-from k e xs m)

  take-All :
      (P : SuggestionIndexRow → Type 0) (k : ℕ) (xs : List SuggestionIndexRow)
      → All P xs
      → All P (take k xs)
  take-All P k xs v = All-of_Mem P (take k xs) (λ e m. All-Mem P e xs v (take-from k e xs m))

  take-IsRanked : (k : ℕ) (xs : List SuggestionIndexRow) → IsRanked xs → IsRanked (take k xs)
  take-IsRanked zero xs v = tt
  take-IsRanked (suc k) [] v = tt
  take-IsRanked (suc k) (x ∷ xs) v = (take-All (Ahead x) k xs v.0, take-IsRanked k xs v.1)

  length-take : (k : ℕ) (xs : List SuggestionIndexRow) → length (take k xs) ≤ k
  length-take zero xs = omega arith
  length-take (suc k) [] = omega arith
  length-take (suc k) (x ∷ xs) = omega (arith, length-take k xs)

  -- The rows `shown` are the best answers to the query among the rows of an index.
  abbrev pub AreBest : List SuggestionIndexRow → List SuggestionIndexRow → Type 0
  AreBest entities shown =
      (length shown ≤ 20)
      × Pairwise (Precedes n) shown
      × ((e : SuggestionIndexRow) → Mem e shown → Mem e entities × Answers n e)
      × ((e : SuggestionIndexRow)
          → Mem e entities
          → Answers n e
          → Mem e shown ⊎ ((length shown ≡ 20) × All (λ s. Precedes n s e) shown))

  All-map :
      (P Q : SuggestionIndexRow → Type 0) (xs : List SuggestionIndexRow)
      → ((x : SuggestionIndexRow) → P x → Q x)
      → All P xs
      → All Q xs
  All-map P Q xs f v = All-of_Mem Q xs (λ x m. f x (All-Mem P x xs v m))

  IsRanked-Pairwise : (xs : List SuggestionIndexRow) → IsRanked xs → Pairwise (Precedes n) xs
  IsRanked-Pairwise [] v = tt
  IsRanked-Pairwise (x ∷ xs) v =
      (All-map (Ahead x) (Precedes n x) xs (is_ahead-Precedes n x) v.0, IsRanked-Pairwise xs v.1)

  ordered : List SuggestionIndexRow → List SuggestionIndexRow
  ordered xs = sort_by (is_ahead n) (filter (matches n) xs)

  ordered-IsRanked : (xs : List SuggestionIndexRow) → IsRanked (ordered xs)
  unfolding ordered
  ordered-IsRanked xs =
      sort_by-IsSorted (is_ahead n) Ahead-total Ahead-trans (filter (matches n) xs)

  kept :
      (xs : List SuggestionIndexRow) (e : SuggestionIndexRow)
      → Mem e xs
      → Answers n e
      → Mem e (take 20 (ordered xs))
        ⊎ ((length (take 20 (ordered xs)) ≡ 20) × All (λ s. Precedes n s e) (take 20 (ordered xs)))
  unfolding ordered
  kept xs e m t =
      elim (take-Mem 20 e (ordered xs) (ordered-IsRanked xs) (
        sort_by-Mem (is_ahead n) e (filter (matches n) xs)
          (filter-Mem (matches n) e xs m ((matches_iff n e).1 t)))) [
            | inl h ↦ inl h
            | inr (l, h) ↦ inr (
              l,
              All-map (λ s. Ahead s e) (λ s. Precedes n s e) (take 20 (ordered xs))
                  (λ s. is_ahead-Precedes n s e) h,
            )
          ]

  found :
      (xs : List SuggestionIndexRow) (e : SuggestionIndexRow)
      → Mem e (take 20 (ordered xs))
      → Mem e xs × Answers n e
  unfolding ordered
  found xs e m =
      let (k, t) =
        filter-from (matches n) e xs
          (sort_by-from (is_ahead n) e (filter (matches n) xs) (take-from 20 e (ordered xs) m)) in
      (k, (matches_iff n e).0 t)

  cut-AreBest : (xs : List SuggestionIndexRow) → AreBest xs (take 20 (ordered xs))
  cut-AreBest xs = (
    length-take 20 (ordered xs),
    IsRanked-Pairwise (take 20 (ordered xs)) (take-IsRanked 20 (ordered xs) (ordered-IsRanked xs)),
    found xs,
    kept xs,
  )

-- For every index and query, the suggestions are the public fields of at most 20 rows of the index.
-- The query, in lower case, occurs in the name, the role or an alias of each of them. They are
-- ordered by how they answer it, which is its very name, an alias, the start of the name, the start
-- of the role or none of these, and then by their rank in the index. A row that the query occurs in
-- is among them, or they are 20 and each of them answers better than it, or as well with no greater
-- rank in the index.
pub filter_suggestion_index-AreBest :
    (to_lower : Text → Text) (index : PublishedSuggestionIndex) (query : Text)
    → (shown : List SuggestionIndexRow) × (filter_suggestion_index to_lower index query
        ≡ map project_row shown)
      × AreBest (to_lower query) index.entities shown
unfolding filter_suggestion_index ordered
filter_suggestion_index-AreBest to_lower index query = (
  take 20 (sort_by (is_ahead (to_lower query)) (filter (matches (to_lower query)) index.entities)),
  refl,
  cut-AreBest (to_lower query) index.entities,
)

-- ===== src/Gameplay/Suggestions/Caching.antt =====
-- What the cache of packages/database/src/gameplay/suggestions.ts can change.
use loremaster.Prelude.{
  ◌||◌, ◌≡◌, ◌≤◌, ◌⊎◌, inl, inr, refl, List, Option, none, some, String, Result, ok, err,
  Bool-cases, length, ltb, arith,
}
use loremaster.Prelude.Js.{Text}
use loremaster.Domain.Projections.{PublicEntitySuggestion}
use loremaster.Gameplay.{Store, GameplayError, Instants}
use loremaster.Gameplay.Suggestions.{
  PublishedSuggestionIndex, IndexDatabaseRow, CacheAnswer, hit, miss, broken, SuggestionError,
  authorize_attempt_suggestions, filter_suggestion_index, cached_or_read, after_authority,
  with_tables, read_attempt_suggestions,
}

abbrev pub Answer : Type 0
Answer = Result SuggestionError (Option (List PublicEntitySuggestion))

module _ (to_lower : Text → Text) (index_rows : String → List IndexDatabaseRow)
    (cache : String → CacheAnswer) (query : Text) where
  -- The answer is that of a cache without the index, or the query is in bounds, the check of the
  -- attempt permitted a revision whose index the cache has, and the answer is what the query finds
  -- in that index.
  abbrev pub IsServed : Result GameplayError (Option String) → Answer → Answer → Type 0
  IsServed permit answer uncached =
      (answer ≡ uncached)
      ⊎ ((1 ≤ length query)
          × (length query ≤ 80)
          × (revision_id : String) × (index : PublishedSuggestionIndex) × (permit
              ≡ ok (some revision_id))
          × (cache revision_id ≡ hit index)
          × (answer ≡ ok (some (filter_suggestion_index to_lower index query))))

  -- The tables are the same with the cache and without it, and the answer is as above.
  abbrev pub SameButServed :
      Result GameplayError (Option String) → Answer × Store → Answer × Store → Type 0
  SameButServed permit x uncached = (x.1 ≡ uncached.1) × IsServed permit x.0 uncached.0

  module _ (nonempty : 1 ≤ length query) (short : length query ≤ 80) (s : Store) where
    answered :
        (a : CacheAnswer) (r : String)
        → cache r ≡ a
        → IsServed
            (ok (some r))
            (after_authority to_lower index_rows cache query s (ok (some r)))
            (after_authority to_lower index_rows (λ r. miss) query s (ok (some r)))
    unfolding after_authority cached_or_read
    answered (hit index) r e = inr (nonempty, short, r, index, refl, e, rw e refl)
    answered miss r e = inl (rw e refl)
    answered broken r e = inl (rw e refl)

    after_authority-IsServed :
        (permit : Result GameplayError (Option String))
        → IsServed permit
            (after_authority to_lower index_rows cache query s permit)
            (after_authority to_lower index_rows (λ r. miss) query s permit)
    unfolding after_authority
    after_authority-IsServed (err e) = inl refl
    after_authority-IsServed (ok none) = inl refl
    after_authority-IsServed (ok (some r)) = answered (cache r) r refl

  -- Whatever the cache answers, and also when it fails, a request leaves the tables that it leaves
  -- without a cache. It is answered as it is without one, or the query has 1 to 80 code units, the
  -- check of the attempt permits a revision, the cache has an index for that revision, and the
  -- answer is what the query finds in that index.
  pub read_attempt_suggestions-IsServed :
      (now : Instants) (guest_id attempt_id : String) (s : Store)
      → SameButServed
          (authorize_attempt_suggestions now guest_id attempt_id s).0
          (read_attempt_suggestions to_lower index_rows cache now guest_id attempt_id query s)
          (read_attempt_suggestions to_lower index_rows (λ r. miss) now guest_id attempt_id query s)
  unfolding read_attempt_suggestions with_tables
  read_attempt_suggestions-IsServed now guest_id attempt_id s =
      elim (Bool-cases (ltb (length query) 1 || ltb 80 (length query))) [
        | inl e ↦ rw e (refl, inl refl)
        | inr e ↦ rw e (
          refl,
          after_authority-IsServed (ground arith) (ground arith)
              (authorize_attempt_suggestions now guest_id attempt_id s).1
              (authorize_attempt_suggestions now guest_id attempt_id s).0,
        )
      ]

-- ===== src/Gameplay/Suggestions/Authority.antt =====
-- Who is shown suggestions by packages/database/src/gameplay/suggestions.ts.
use loremaster.Prelude.{
  true, false, ◌||◌, ◌≡◌, ◌≤◌, inl, inr, refl, sym, ap, ◌∙◌, List, Option, none, some, String,
  str_eq, str_eq_iff, Result, ok, err, ◌>>=◌, >>=-eq-ok, ok-pair, some_inj, Bool-cases, length, ltb,
  arith,
}
use mathlib.Core.Path.{subst}
use loremaster.Prelude.Js.{Text}
use loremaster.Domain.Attempt.{is_active}
use loremaster.Domain.Projections.{PublicEntitySuggestion}
use loremaster.Gameplay.{Store, Revision, AttemptRow, GameplayError, Instants}
use loremaster.Gameplay.Rows.{lock_guest, attempt_row, current_revision}
use loremaster.Gameplay.Reconciliation.{expire_if_closed}
use loremaster.Gameplay.Reconciliation.Untouched.{expire-Untouched}
use loremaster.Gameplay.Transactions.{transaction-ok}
use loremaster.Gameplay.Suggestions.{
  PublishedSuggestionIndex, IndexDatabaseRow, SuggestionError, invalid_query, CacheAnswer,
  revision_of, authorize_row, authorize_body, authorize_attempt_suggestions,
  filter_suggestion_index, cached_or_read, suggest, after_authority, with_tables,
  read_attempt_suggestions,
}

-- The attempt is the guest's, active, and of the case that is open now.
abbrev pub IsPlaying : Instants → String → String → Store → String → Type 0
IsPlaying now guest_id attempt_id s revision_id =
    (lock_guest s guest_id ≡ true)
    × ((row : AttemptRow) × (attempt_row s attempt_id guest_id now.row_read ≡ some row)
        × (is_active row.play.state ≡ true)
        × (row.revision_id ≡ revision_id))
    × ((current : Revision) × (current_revision s now.sampled ≡ some current)
        × (current.id ≡ revision_id))

revision_of-cases :
    (row : AttemptRow) (o : Option Revision) (r : String)
    → revision_of row o ≡ some r
    → (current : Revision) × (o ≡ some current)
      × (is_active row.play.state ≡ true)
      × (current.id ≡ row.revision_id)
      × (row.revision_id ≡ r)
unfolding revision_of
revision_of-cases row none r h = absurd (cc h)
revision_of-cases row (some current) r h = elim (Bool-cases (is_active row.play.state)) [
  | inr e ↦ let k : none ≡ some r = rw e at h in absurd (cc k)
  | inl e ↦ elim (Bool-cases (str_eq current.id row.revision_id)) [
    | inr d ↦ let k : none ≡ some r = rw (e, d) at h in absurd (cc k)
    | inl d ↦
        let k : some row.revision_id ≡ some r = rw (e, d) at h in
        (current, refl, e, (str_eq_iff current.id row.revision_id).0 d, some_inj k)
  ]
]

row-IsPlaying :
    (now : Instants) (guest_id attempt_id : String) (o : Option AttemptRow) (s s' : Store)
    (r : String)
    → authorize_row now o s ≡ ok (some r, s')
    → (s' ≡ s)
      × ((row : AttemptRow) × (o ≡ some row)
          × (is_active row.play.state ≡ true)
          × (row.revision_id ≡ r))
      × ((current : Revision) × (current_revision s now.sampled ≡ some current) × (current.id ≡ r))
unfolding authorize_row
row-IsPlaying now guest_id attempt_id none s s' r h = absurd (cc (ok-pair h).0)
row-IsPlaying now guest_id attempt_id (some row) s s' r h =
    let ((row1, s1), e, k) = >>=-eq-ok (expire_if_closed row now.sampled s) _ h in
    let (current, c, act, i, j) =
      revision_of-cases row1 (current_revision s1 now.sampled) r (ok-pair k).0 in
    let (same_row, same_s) = expire-Untouched row now.sampled s row1 s1 e act in
    (
      sym (ok-pair k).1 ∙ same_s,
      (
        row,
        refl,
        subst (λ x. is_active x.play.state ≡ true) same_row act,
        sym (ap (λ x. x.revision_id) same_row) ∙ j,
      ),
      (current, subst (λ x. current_revision x now.sampled ≡ some current) same_s c, i ∙ j),
    )

body-IsPlaying :
    (now : Instants) (guest_id attempt_id : String) (s s' : Store) (r : String)
    → authorize_body now guest_id attempt_id s ≡ ok (some r, s')
    → (s' ≡ s) × IsPlaying now guest_id attempt_id s r
unfolding authorize_body
body-IsPlaying now guest_id attempt_id s s' r h = elim (Bool-cases (lock_guest s guest_id)) [
  | inr e ↦
      let k : ◌≡◌ {A = Result GameplayError (Option String × Store)} (ok (none, s))
          (ok (some r, s')) =
        rw e at h in
      absurd (cc (ok-pair k).0)
  | inl e ↦
      let (u, v, w) =
        row-IsPlaying now guest_id attempt_id (attempt_row s attempt_id guest_id now.row_read) s s'
          r (rw e at h) in
      (u, (e, v, w))
]

module _ (to_lower : Text → Text) (index_rows : String → List IndexDatabaseRow)
    (cache : String → CacheAnswer) where
  -- The suggestions of the index of a revision.
  abbrev pub FromIndex : Text → Store → String → List PublicEntitySuggestion → Type 0
  FromIndex query s r items =
      (index : PublishedSuggestionIndex) × (cached_or_read index_rows (cache r) s r
        ≡ ok (some index))
      × (items ≡ filter_suggestion_index to_lower index query)

  abbrev pub Shown :
      Instants → String → String → Text → Store → Store → List PublicEntitySuggestion → Type 0
  Shown now guest_id attempt_id query s s' items =
      (s' ≡ s) × ((r : String) × IsPlaying now guest_id attempt_id s r × FromIndex query s r items)

  suggested :
      (query : Text) (o : Option PublishedSuggestionIndex) (items : List PublicEntitySuggestion)
      → ◌≡◌ {A = Result SuggestionError (Option (List PublicEntitySuggestion))}
          (ok (suggest to_lower query o))
          (ok (some items))
      → (index : PublishedSuggestionIndex) × (o ≡ some index)
        × (items ≡ filter_suggestion_index to_lower index query)
  unfolding suggest
  suggested query none items h = absurd (cc h)
  suggested query (some index) items h = (index, refl, ground (arith, h))

  answer-index :
      (query : Text) (s s' : Store) (a : Result GameplayError (Option String))
      (items : List PublicEntitySuggestion)
      → with_tables to_lower index_rows cache query (a, s) ≡ (ok (some items), s')
      → (s' ≡ s) × ((r : String) × (a ≡ ok (some r)) × FromIndex query s r items)
  unfolding with_tables after_authority
  answer-index query s s' (err e) items h = absurd (cc (ap (λ x. x.0) h))
  answer-index query s s' (ok none) items h = absurd (cc (ap (λ x. x.0) h))
  answer-index query s s' (ok (some r)) items h =
      let k : (cached_or_read index_rows (cache r) s r >>= λ index.
      ok (suggest to_lower query index))
          ≡ ok (some items) =
        ap (λ x. x.0) h in
      let (o, e, q) = >>=-eq-ok (cached_or_read index_rows (cache r) s r) _ k in
      let (index, f, g) = suggested query o items q in
      (sym (ap (λ x. x.1) h), (r, refl, (index, e ∙ ap ok f, g)))

  pair-IsPlaying :
      (now : Instants) (guest_id attempt_id : String) (query : Text) (s s' : Store)
      (p : Result GameplayError (Option String) × Store) (items : List PublicEntitySuggestion)
      → authorize_attempt_suggestions now guest_id attempt_id s ≡ p
      → with_tables to_lower index_rows cache query p ≡ (ok (some items), s')
      → Shown now guest_id attempt_id query s s' items
  unfolding authorize_attempt_suggestions
  pair-IsPlaying now guest_id attempt_id query s s' (a, s1) items e h =
      let (u, (r, f, v)) = answer-index query s1 s' a items h in
      let (same, w) = body-IsPlaying now guest_id attempt_id s s1 r (
        transaction-ok (authorize_body now guest_id attempt_id) s s1 (some r)
          (e ∙ ap (λ x. (x, s1)) f)) in
      (u ∙ same, (r, w, subst (λ x. FromIndex query x r items) same v))

  in_bounds :
      (query : Text)
      → (ltb (length query) 1 || ltb 80 (length query)) ≡ false
      → (1 ≤ length query) × (length query ≤ 80)
  in_bounds query h = (ground arith, ground arith)

  -- When a request is answered with suggestions, the query has 1 to 80 code units, the guest is
  -- known, the attempt is that guest's and active, its case is the one that is open now, no table
  -- was changed, and the suggestions are those of the query in an index of that case, which is the
  -- one in the cache, or the published one when the cache has none or fails.
  pub read_attempt_suggestions-IsPlaying :
      (now : Instants) (guest_id attempt_id : String) (query : Text) (s s' : Store)
      (items : List PublicEntitySuggestion)
      → read_attempt_suggestions to_lower index_rows cache now guest_id attempt_id query s
        ≡ (ok (some items), s')
      → (1 ≤ length query) × (length query ≤ 80) × Shown now guest_id attempt_id query s s' items
  unfolding read_attempt_suggestions
  read_attempt_suggestions-IsPlaying now guest_id attempt_id query s s' items h =
      elim (Bool-cases (ltb (length query) 1 || ltb 80 (length query))) [
        | inl e ↦
            let k : ◌≡◌ {A = Result SuggestionError (Option (List PublicEntitySuggestion)) × Store}
                (err invalid_query, s) (ok (some items), s') =
              rw e at h in
            absurd (cc (ap (λ x. x.0) k))
        | inr e ↦
            let b = in_bounds query e in
            (
              b.0,
              b.1,
              pair-IsPlaying now guest_id attempt_id query s s'
                  (authorize_attempt_suggestions now guest_id attempt_id s) items refl (rw e at h),
            )
      ]

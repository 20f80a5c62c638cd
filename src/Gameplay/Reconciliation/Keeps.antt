-- ===== src/Gameplay/Reconciliation/Keeps.antt =====
-- What the end of an attempt leaves as it is
-- (packages/database/src/gameplay/reconciliation.ts).
use mathlib.Core.Path.{subst}
use loremaster.Prelude.{
  ℕ, false, ◌-◌, ◌≡◌, refl, sym, ap, ◌∙◌, not, ◌&&◌, ◌||◌, ltb, List, [], ◌∷◌, map, Option, some,
  String, str_eq, ok, inl, inr, >>=-eq-ok, All, Bool-cases, arith,
}
use loremaster.Prelude.Sorting.{Pairwise}
use loremaster.Domain.Attempt.{
  AttemptState, Snapshot, accepted, rejected, is_active, TransitionResult,
}
use loremaster.Domain.Attempt.Validity.{IsValid}
use loremaster.Domain.Attempt.Engine.{expire}
use loremaster.Domain.Attempt.Laws.{elapse, accepted_active, play-IsValid}
use loremaster.Domain.Aggregates.Knowledge.{regional_performance_hundredths}
use loremaster.Gameplay.{
  Store, Receipt, GuessRow, ParticipationDay, RevisionRegion, StoredAttempt, AttemptRow, lift,
  aggregate, domain,
}
use loremaster.Gameplay.Reconciliation.{
  set_play, updated_row, contribute, contribute_region, contribute_all, publish, add_finalization,
  credit_once, score_of, close, publish_solved, pseudonym_of, credit, finalize, expire_result,
  expire_if_closed,
}

-- The tables that only commands write.
abbrev pub Books : Type 0
Books = List GuessRow × List Receipt × List ParticipationDay

abbrev pub books : Store → Books
books s = (s.guesses, s.receipts, s.participation_days)

-- Those tables and the attempts.
abbrev pub played : Store → List StoredAttempt × Books
played s = (s.attempts, books s)

contribute-played :
    (row : AttemptRow) (o : AttemptState) (p : ℕ) (region : String) (s : Store)
    → played (contribute row o p region s) ≡ played s
unfolding contribute
contribute-played row o p region s = ground arith

contribute_region-played :
    (row : AttemptRow) (o : AttemptState) (p : ℕ) (r : RevisionRegion) (s : Store)
    → played (contribute_region row o p r s) ≡ played s
unfolding contribute_region
contribute_region-played row o p r s = ground (arith, contribute-played row o p r.region_id s)

contribute_all-played :
    (row : AttemptRow) (o : AttemptState) (p : ℕ) (rs : List RevisionRegion) (s : Store)
    → played (contribute_all row o p rs s) ≡ played s
unfolding contribute_all
contribute_all-played row o p [] s = refl
contribute_all-played row o p (r ∷ rs) s =
    contribute_all-played row o p rs (contribute_region row o p r s)
    ∙ contribute_region-played row o p r s

publish_solved-played :
    (row : AttemptRow) (a : Snapshot) (elapsed score : ℕ) (s s' : Store)
    → publish_solved row a elapsed score s ≡ ok s'
    → played s' ≡ played s
unfolding publish_solved pseudonym_of publish
publish_solved-played row a elapsed score s s' h = ground arith

credit-played :
    (row : AttemptRow) (a : Snapshot) (elapsed score at : ℕ) (s s' : Store)
    → credit row a elapsed score at s ≡ ok s'
    → played s' ≡ played s
unfolding credit add_finalization
credit-played row a elapsed score at s s' h =
    let (p, _, g) = >>=-eq-ok (lift aggregate (regional_performance_hundredths a)) _ h in
    publish_solved-played row a elapsed score
      (contribute_all row a.state p s.regions (add_finalization row a.state score at s)) s' g
    ∙ contribute_all-played row a.state p s.regions (add_finalization row a.state score at s)

credit_once-played :
    (row : AttemptRow) (a : Snapshot) (elapsed score at : ℕ) (s s' : Store)
    → credit_once row a elapsed score at s ≡ ok s'
    → played s' ≡ played s
unfolding credit_once
credit_once-played row a elapsed score at s s' h =
    ground (arith, credit-played row a elapsed score at s s')

-- An attempt that ends: its row is updated, and no other table that commands write.
pub finalize-played :
    (row : AttemptRow) (a : Snapshot) (at : ℕ) (s s' : Store) (row' : AttemptRow)
    → finalize row a at s ≡ ok (row', s')
    → (row' ≡ updated_row row a at)
      × (played s' ≡ (map (set_play row.id a at (some at)) s.attempts, books s))
unfolding finalize
finalize-played row a at s s' row' h =
    let s0 : Store = record s { attempts = map (set_play row.id a at (some at)) s.attempts } in
    let (score, _, g) = >>=-eq-ok (score_of a (at - row.started_at)) _ h in
    let (s1, e, k) = >>=-eq-ok (credit_once row a (at - row.started_at) score at s0) _ g in
    let kept = credit_once-played row a (at - row.started_at) score at s0 s1 e in
    let same : s1 ≡ s' = ground arith in (ground arith, ap played (sym same) ∙ kept)

-- Two attempts are not of one guest in one slot.
abbrev pub Elsewhere : StoredAttempt → StoredAttempt → Type 0
Elsewhere a b = (str_eq b.guest_id a.guest_id && str_eq b.slot_id a.slot_id) ≡ false

-- The attempts have valid snapshots, and a guest has at most one of them in a slot.
abbrev pub AreSound : List StoredAttempt → Type 0
AreSound xs = All (λ a. IsValid a.play) xs × Pairwise Elsewhere xs

abbrev pub Sound : Store → Type 0
Sound s = AreSound s.attempts

set_play-IsValid :
    (id : String) (a : Snapshot) (at : ℕ) (ended : Option ℕ) (x : StoredAttempt)
    → IsValid a
    → IsValid x.play
    → IsValid (set_play id a at ended x).play
unfolding set_play
set_play-IsValid id a at ended x v h = elim (Bool-cases (str_eq x.id id)) [
  | inl e ↦ rw e v
  | inr e ↦ rw e h
]

set_play-All :
    (id : String) (a : Snapshot) (at : ℕ) (ended : Option ℕ) (xs : List StoredAttempt)
    → IsValid a
    → All (λ x. IsValid x.play) xs
    → All (λ x. IsValid x.play) (map (set_play id a at ended) xs)
unfolding set_play
set_play-All id a at ended [] v h = tt
set_play-All id a at ended (x ∷ xs) v h =
    (set_play-IsValid id a at ended x v h.0, set_play-All id a at ended xs v h.1)

set_play-place :
    (id : String) (a : Snapshot) (at : ℕ) (ended : Option ℕ) (x : StoredAttempt)
    → ((set_play id a at ended x).guest_id ≡ x.guest_id)
      × ((set_play id a at ended x).slot_id ≡ x.slot_id)
unfolding set_play
set_play-place id a at ended x = elim (Bool-cases (str_eq x.id id)) [
  | inl e ↦ rw e (refl, refl)
  | inr e ↦ rw e (refl, refl)
]

set_play-Elsewhere :
    (id : String) (a : Snapshot) (at : ℕ) (ended : Option ℕ) (x : StoredAttempt)
    (xs : List StoredAttempt)
    → All (Elsewhere x) xs
    → All (Elsewhere (set_play id a at ended x)) (map (set_play id a at ended) xs)
set_play-Elsewhere id a at ended x [] h = tt
set_play-Elsewhere id a at ended x (y ∷ ys) h =
    let p = set_play-place id a at ended x in
    let q = set_play-place id a at ended y in
    (rw (p.0, p.1, q.0, q.1) h.0, set_play-Elsewhere id a at ended x ys h.1)

set_play-Pairwise :
    (id : String) (a : Snapshot) (at : ℕ) (ended : Option ℕ) (xs : List StoredAttempt)
    → Pairwise Elsewhere xs
    → Pairwise Elsewhere (map (set_play id a at ended) xs)
set_play-Pairwise id a at ended [] h = tt
set_play-Pairwise id a at ended (x ∷ xs) h =
    (set_play-Elsewhere id a at ended x xs h.0, set_play-Pairwise id a at ended xs h.1)

-- The `UPDATE` of an attempt with a valid snapshot.
pub set_play-AreSound :
    (id : String) (a : Snapshot) (at : ℕ) (ended : Option ℕ) (xs : List StoredAttempt)
    → IsValid a
    → AreSound xs
    → AreSound (map (set_play id a at ended) xs)
set_play-AreSound id a at ended xs v h =
    (set_play-All id a at ended xs v h.0, set_play-Pairwise id a at ended xs h.1)

-- What a reconciliation keeps: the identity of the row, the tables of the commands, validity.
pub record Keeps (row : AttemptRow) (s : Store) (row' : AttemptRow) (s' : Store) : Type 0 where
  pub same_id : row'.id ≡ row.id
  pub same_owner : row'.guest_id ≡ row.guest_id
  pub same_books : books s' ≡ books s
  pub still_valid : IsValid row.play → IsValid row'.play
  pub still_sound : Sound s → Sound s'

unchanged :
    (row : AttemptRow) (s : Store) (row' : AttemptRow) (s' : Store)
    → row ≡ row'
    → s ≡ s'
    → Keeps row s row' s'
unchanged row s row' s' p q =
    rw (sym p, sym q)
      (record {
        same_id = refl;
        same_owner = refl;
        same_books = refl;
        still_valid = λ v. v;
        still_sound = λ v. v;
      })

pub finalize-Keeps :
    (row : AttemptRow) (a : Snapshot) (at : ℕ) (s s' : Store) (row' : AttemptRow)
    → IsValid a
    → finalize row a at s ≡ ok (row', s')
    → Keeps row s row' s'
unfolding updated_row
finalize-Keeps row a at s s' row' v h =
    let (same, kept) = finalize-played row a at s s' row' h in
    record {
      same_id = ap (λ r. r.id) same;
      same_owner = ap (λ r. r.guest_id) same;
      same_books = ap (λ p. p.1) kept;
      still_valid = λ _. subst (λ p. IsValid p) (sym (ap (λ r. r.play) same)) v;
      still_sound = λ w.
          subst (λ xs. AreSound xs) (sym (ap (λ p. p.0) kept))
            (set_play-AreSound row.id a at (some at) s.attempts v w);
    }

expire_result-Keeps :
    (row : AttemptRow) (r : TransitionResult) (s s' : Store) (row' : AttemptRow)
    → lift domain (expire row.play) ≡ ok r
    → expire_result row r s ≡ ok (row', s')
    → Keeps row s row' s'
unfolding expire_result lift
expire_result-Keeps row (rejected reason a) s s' row' e h =
    unchanged row s row' s' (ground arith) (ground arith)
expire_result-Keeps row (accepted a p) s s' row' e h = elim (Bool-cases (is_active a.state)) [
  | inl q ↦ let k = rw q at h in unchanged row s row' s' (ground arith) (ground arith)
  | inr q ↦
      let run : expire row.play ≡ ok (accepted a p) = ground arith in
      let (v, act, played_a) = accepted_active elapse row.play run in
      finalize-Keeps row a row.closes_at s s' row' (play-IsValid elapse row.play v act played_a)
        (rw q at h)
]

pub expire_if_closed-Keeps :
    (row : AttemptRow) (t : ℕ) (s s' : Store) (row' : AttemptRow)
    → expire_if_closed row t s ≡ ok (row', s')
    → Keeps row s row' s'
unfolding expire_if_closed close
expire_if_closed-Keeps row t s s' row' h =
    elim (Bool-cases (not (is_active row.play.state) || ltb t row.closes_at)) [
      | inl q ↦ let k = rw q at h in unchanged row s row' s' (ground arith) (ground arith)
      | inr q ↦
          let (r, e, k) = >>=-eq-ok (lift domain (expire row.play)) _ (rw q at h) in
          expire_result-Keeps row r s s' row' e k
    ]

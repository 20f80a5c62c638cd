-- ===== src/Gameplay/Reconciliation/Untouched.antt =====
-- An attempt that is still active after expireIfClosed of
-- packages/database/src/gameplay/reconciliation.ts.
use loremaster.Prelude.{
  ℕ, true, not, ◌||◌, ◌≡◌, inl, inr, sym, ap, ◌∙◌, ok, Result, >>=-eq-ok, ok-pair, Bool-cases, ltb,
}
use loremaster.Domain.Attempt.{Snapshot, TransitionResult, accepted, rejected, is_active}
use loremaster.Domain.Attempt.Engine.{expire}
use loremaster.Gameplay.{Store, AttemptRow, GameplayError, domain, lift}
use loremaster.Gameplay.Reconciliation.{
  updated_row, finalize, expire_result, close, expire_if_closed,
}
use loremaster.Gameplay.Reconciliation.Keeps.{finalize-played}

-- An attempt that is active after the clock was looked at was not touched.
abbrev pub Untouched : AttemptRow → Store → AttemptRow → Store → Type 0
Untouched row s row' s' = is_active row'.play.state ≡ true → (row' ≡ row) × (s' ≡ s)

same-Untouched :
    (row row' : AttemptRow) (s s' : Store)
    → ◌≡◌ {A = Result GameplayError (AttemptRow × Store)} (ok (row, s)) (ok (row', s'))
    → Untouched row s row' s'
same-Untouched row row' s s' h a = let p = ok-pair h in (sym p.0, sym p.1)

finalize-row :
    (row : AttemptRow) (a : Snapshot) (at : ℕ) (s : Store) (row' : AttemptRow) (s' : Store)
    → finalize row a at s ≡ ok (row', s')
    → row'.play ≡ a
unfolding updated_row
finalize-row row a at s row' s' h = ap (λ r. r.play) (finalize-played row a at s s' row' h).0

result-Untouched :
    (row : AttemptRow) (t : TransitionResult) (s : Store) (row' : AttemptRow) (s' : Store)
    → expire_result row t s ≡ ok (row', s')
    → Untouched row s row' s'
unfolding expire_result
result-Untouched row (rejected r a) s row' s' h = same-Untouched row row' s s' h
result-Untouched row (accepted a p) s row' s' h = elim (Bool-cases (is_active a.state)) [
  | inl e ↦ same-Untouched row row' s s' (rw e at h)
  | inr e ↦ λ act.
      let q = finalize-row row a row.closes_at s row' s' (rw e at h) in
      let c : is_active a.state ≡ true = rw (← q) act in absurd (cc (sym e ∙ c))
]

pub expire-Untouched :
    (row : AttemptRow) (at : ℕ) (s : Store) (row' : AttemptRow) (s' : Store)
    → expire_if_closed row at s ≡ ok (row', s')
    → Untouched row s row' s'
unfolding expire_if_closed close
expire-Untouched row at s row' s' h =
    elim (Bool-cases (not (is_active row.play.state) || ltb at row.closes_at)) [
      | inl e ↦ same-Untouched row row' s s' (rw e at h)
      | inr e ↦
          let k : close row s ≡ ok (row', s') = rw e at h in
          let (t, _, r) = >>=-eq-ok (lift domain (expire row.play)) _ k in
          result-Untouched row t s row' s' r
    ]

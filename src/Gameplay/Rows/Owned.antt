-- ===== src/Gameplay/Rows/Owned.antt =====
-- The row that packages/database/src/gameplay/attempt-records.ts finds is the one asked for.
use loremaster.Prelude.{
  ℕ, ◌≡◌, refl, sym, Option, none, some, String, str_eq_iff, find, find-holds, find-All, arith,
  Option-cases, inl, inr,
}
use loremaster.Domain.Attempt.Validity.{IsValid}
use loremaster.Gameplay.{Store, StoredAttempt, Revision, AttemptRow}
use loremaster.Gameplay.Rows.{attempt_row, owned, join, joined, join_found, find_revision}
use loremaster.Gameplay.Reconciliation.Keeps.{Sound}

join_found-joined :
    (s : Store) (now : ℕ) (o : Option StoredAttempt) (row : AttemptRow)
    → join_found s now o ≡ some row
    → (a : StoredAttempt) × (r : Revision) × (o ≡ some a) × (joined now a r ≡ row)
unfolding join_found
join_found-joined s now (some a) row h = elim (Option-cases (find_revision s a.revision_id)) [
  | inl e ↦ unfold join in absurd (cc (rw e at h))
  | inr (r, e) ↦ let k = rw e at h in (a, r, refl, unfold join in ground arith)
]
join_found-joined s now none row h = absurd (cc h)

-- The row has the two identifiers, and its snapshot is one of the stored ones.
pub attempt_row-owned :
    (s : Store) (id guest_id : String) (now : ℕ) (row : AttemptRow)
    → attempt_row s id guest_id now ≡ some row
    → (row.id ≡ id) × (row.guest_id ≡ guest_id) × (Sound s → IsValid row.play)
unfolding attempt_row owned joined
attempt_row-owned s id guest_id now row h =
    let (a, r, f, e) = join_found-joined s now (find (owned id guest_id) s.attempts) row h in
    let q = find-holds (owned id guest_id) s.attempts f in
    let same_id : a.id ≡ id = ground (arith, str_eq_iff a.id id) in
    let same_owner : a.guest_id ≡ guest_id = ground (arith, str_eq_iff a.guest_id guest_id) in
    rw (sym e) (
      same_id,
      same_owner,
      λ v. find-All (λ x. IsValid x.play) (owned id guest_id) s.attempts v.0 f,
    )

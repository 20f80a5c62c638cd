-- ===== src/Domain/Projections/Disclosure.antt =====
-- What an attempt's projection discloses, and to whom (packages/domain/src/projections.ts).
use loremaster.Prelude.{
  ℕ, zero, suc, ◌≡◌, refl, ap, true, false, not, List, [], ◌∷◌, map, some, String, str_eq,
  str_eq_iff, ok, err, Result, any, find, length, ◌+◌, ◌≤◌, take, arith, All, inl, inr,
  Option-cases,
}
use loremaster.Domain.Attempt.{Snapshot, is_active, active}
use loremaster.Domain.Attempt.Validity.{IsValid, IsValid-of_assert}
use loremaster.Domain.Projections.{
  PublicEntitySuggestion, PrivateEvidence, PrivateCaseFile, PrivateGuessRecord,
  PrivateAttemptRecord, ProjectionError, AttemptProjection, active_projection, terminal_projection,
  PublicEvidence, project_public_evidence, project_public_suggestion, project_terminal_evidence,
  project_attempt_base, project_attempt, project_active, answer_of, project_checked, assert_attempt,
  levels, ordered_from,
}

-- Two case files agree on what a guest at this evidence level may see. Their answers, their later
-- evidence and all their explanations and sources may differ.
pub record LookAlike (level : ℕ) (c d : PrivateCaseFile) : Type 0 where
  pub same_slot : c.slot_id ≡ d.slot_id
  pub same_revision : c.revision_id ≡ d.revision_id
  pub same_close : c.closes_at ≡ d.closes_at
  pub same_briefing : c.briefing ≡ d.briefing
  pub same_suggestions : c.suggestions ≡ d.suggestions
  pub same_levels : levels c.evidence ≡ levels d.evidence
  pub same_seen :
      map project_public_evidence (take level c.evidence)
      ≡ map project_public_evidence (take level d.evidence)

base-LookAlike :
    {level : ℕ} (c d : PrivateCaseFile) (r : PrivateAttemptRecord)
    → LookAlike level c d
    → project_attempt_base c r ≡ project_attempt_base d r
unfolding project_attempt_base
base-LookAlike c d r h = cc (h.same_close, h.same_briefing, h.same_suggestions)

project_active-LookAlike :
    (c d : PrivateCaseFile) (r : PrivateAttemptRecord)
    → LookAlike r.attempt.evidence_level c d
    → project_active c r ≡ project_active d r
unfolding project_active
project_active-LookAlike c d r h = cc (base-LookAlike c d r h, h.same_seen)

project_checked-LookAlike :
    (c d : PrivateCaseFile) (r : PrivateAttemptRecord)
    → r.attempt.state ≡ active
    → LookAlike r.attempt.evidence_level c d
    → project_checked c r ≡ project_checked d r
unfolding project_checked
project_checked-LookAlike c d r a h =
    let act : is_active r.attempt.state ≡ true = rw a in
    rw act (ap ok (project_active-LookAlike c d r h))

-- While the attempt is active, nothing that a guest receives depends on the answer, on evidence that
-- is not revealed yet, or on an explanation or a source: case files that agree on the rest give the
-- same projection, or the same error.
pub active_hides_secrets :
    (c d : PrivateCaseFile) (r : PrivateAttemptRecord) (guest : String)
    → r.attempt.state ≡ active
    → LookAlike r.attempt.evidence_level c d
    → project_attempt c r guest ≡ project_attempt d r guest
unfolding project_attempt
active_hides_secrets c d r guest a h =
    rw (project_checked-LookAlike c d r a h, h.same_slot, h.same_revision, h.same_levels) refl

-- What a projection that is returned rests on: the requester owns the attempt and made every guess
-- shown, and the case file is the revision of the attempt.
pub record IsEntitled (c : PrivateCaseFile) (r : PrivateAttemptRecord) (guest : String)
    : Type 0 where
  pub owner : r.owner_guest_id ≡ guest
  pub guesses : All (λ (g : PrivateGuessRecord). g.guest_id ≡ guest) r.guesses
  pub slot : r.slot_id ≡ c.slot_id
  pub revision : r.revision_id ≡ c.revision_id

own_guesses :
    (owner guest : String) (gs : List PrivateGuessRecord)
    → owner ≡ guest
    → any (λ (g : PrivateGuessRecord). not (str_eq g.guest_id owner)) gs ≡ false
    → All (λ (g : PrivateGuessRecord). g.guest_id ≡ guest) gs
own_guesses owner guest [] e h = tt
own_guesses owner guest (g ∷ gs) e h =
    (ground (arith, str_eq_iff g.guest_id owner), own_guesses owner guest gs e (ground arith))

projection_parts :
    (c : PrivateCaseFile) (r : PrivateAttemptRecord) (guest : String) (p : AttemptProjection)
    → project_attempt c r guest ≡ ok p
    → (str_eq r.owner_guest_id guest ≡ true)
      × (any (λ (g : PrivateGuessRecord). not (str_eq g.guest_id r.owner_guest_id)) r.guesses
          ≡ false)
      × (str_eq r.slot_id c.slot_id ≡ true)
      × (str_eq r.revision_id c.revision_id ≡ true)
      × (project_checked c r ≡ ok p)
unfolding project_attempt
projection_parts c r guest p h = ground arith

entitled :
    (c : PrivateCaseFile) (r : PrivateAttemptRecord) (guest : String) (p : AttemptProjection)
    → project_attempt c r guest ≡ ok p
    → IsEntitled c r guest
entitled c r guest p h =
    let (o, g, s, v, _) = projection_parts c r guest p h in
    let own = (str_eq_iff r.owner_guest_id guest).0 o in
    record {
      owner = own;
      guesses = own_guesses r.owner_guest_id guest r.guesses own g;
      slot = (str_eq_iff r.slot_id c.slot_id).0 s;
      revision = (str_eq_iff r.revision_id c.revision_id).0 v;
    }

-- How many items an active projection shows, on the levels 1 to 4 that the check has passed.
length-seen :
    (n index : ℕ) (es : List PrivateEvidence)
    → ordered_from index (levels es) ≡ true
    → index + n ≤ 4
    → length (map project_public_evidence (take n es)) ≡ n
unfolding ordered_from
length-seen zero index es o h = refl
length-seen (suc n) index [] o h = ground arith
length-seen (suc n) index (e ∷ es) o h =
    ap suc (length-seen n (suc index) es (ground arith) (omega arith))

assert_attempt-IsValid : (a b : Snapshot) → assert_attempt a ≡ ok b → IsValid a
unfolding assert_attempt
assert_attempt-IsValid a b h = IsValid-of_assert a b (ground arith)

ordered_of :
    (c : PrivateCaseFile) (r : PrivateAttemptRecord) (guest : String) (p : AttemptProjection)
    → project_attempt c r guest ≡ ok p
    → (ordered_from 0 (levels c.evidence) ≡ true) × IsValid r.attempt
unfolding project_attempt
ordered_of c r guest p h = go (assert_attempt r.attempt) refl
  where
    go :
        (x : Result ProjectionError Snapshot)
        → assert_attempt r.attempt ≡ x
        → (ordered_from 0 (levels c.evidence) ≡ true) × IsValid r.attempt
    go (ok b) e = (ground arith, assert_attempt-IsValid r.attempt b e)
    go (err x) e = absurd (ground arith)

find_lem :
    (id : String) (xs : List PublicEntitySuggestion) (s : PublicEntitySuggestion)
    → find (λ (x : PublicEntitySuggestion). str_eq x.entity_id id) xs ≡ some s
    → s.entity_id ≡ id
find_lem id [] s h = cc
find_lem id (x ∷ xs) s h = ground (arith, str_eq_iff x.entity_id id, find_lem id xs s)

while_active :
    (c : PrivateCaseFile) (r : PrivateAttemptRecord) (p : AttemptProjection)
    → project_checked c r ≡ ok p
    → ordered_from 0 (levels c.evidence) ≡ true
    → IsValid r.attempt
    → r.attempt.state ≡ active
    → (seen : List PublicEvidence) × (p ≡ active_projection (project_attempt_base c r) seen)
      × (length seen ≡ r.attempt.evidence_level)
unfolding project_checked
while_active c r p k o v a =
    let act : is_active r.attempt.state ≡ true = rw a in
    (
      map project_public_evidence (take r.attempt.evidence_level c.evidence),
      ground arith,
      length-seen r.attempt.evidence_level 0 c.evidence o (omega (arith, v.level_capped)),
    )

once_ended :
    (c : PrivateCaseFile) (r : PrivateAttemptRecord) (p : AttemptProjection)
    → project_checked c r ≡ ok p
    → is_active r.attempt.state ≡ false
    → (answer : PublicEntitySuggestion) × (p
        ≡ terminal_projection
            (project_attempt_base c r)
            answer
            (map project_terminal_evidence c.evidence))
      × (answer.entity_id ≡ c.answer_entity_id)
unfolding project_checked project_public_suggestion
once_ended c r p k e = elim (Option-cases (answer_of c)) [
  | inl n ↦ absurd (cc (rw (e, n) at k))
  | inr (s, n) ↦
      (s, cc (rw (e, n) at k), unfold answer_of in find_lem c.answer_entity_id c.suggestions s n)
]

-- A projection is returned only to the guest who owns the attempt and its guesses. While the attempt
-- is active it shows as many items of evidence as the level says, and no answer; once the attempt
-- has ended it shows the answer that the case names, and all the evidence with its explanations.
pub projection_contract :
    (c : PrivateCaseFile) (r : PrivateAttemptRecord) (guest : String) (p : AttemptProjection)
    → project_attempt c r guest ≡ ok p
    → IsEntitled c r guest
      × (r.attempt.state ≡ active
          → (seen : List PublicEvidence) × (p ≡ active_projection (project_attempt_base c r) seen)
            × (length seen ≡ r.attempt.evidence_level))
      × (is_active r.attempt.state ≡ false
          → (answer : PublicEntitySuggestion) × (p
              ≡ terminal_projection
                  (project_attempt_base c r)
                  answer
                  (map project_terminal_evidence c.evidence))
            × (answer.entity_id ≡ c.answer_entity_id))
projection_contract c r guest p h =
    let (_, _, _, _, k) = projection_parts c r guest p h in
    let (o, v) = ordered_of c r guest p h in
    (entitled c r guest p h, while_active c r p k o v, once_ended c r p k)

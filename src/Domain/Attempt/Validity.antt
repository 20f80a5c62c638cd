-- ===== src/Domain/Attempt/Validity.antt =====
-- What the runtime check of packages/domain/src/attempt-engine.ts accepts.
use loremaster.Prelude.{
  ◌+◌, ◌*◌, ◌≤◌, ◌≡◌, ◌≢◌, refl, ap, ◌↔◌, inl, inr, ok, arith, str_eq_iff, str_eq, String, some,
  Option-cases,
}
use loremaster.Prelude.Int.{pos}
use loremaster.Prelude.Js.{int, number, string}
use loremaster.Domain.Attempt.{
  AttemptState, active, solved, given_up, exhausted, expired, Snapshot, Candidate, not_an_object,
  object, assert_valid_attempt_snapshot, to_candidate, state_name, state_named, check_counters,
}

-- The snapshots of the rules: the counters are in range, and at most three guesses are wrong at each
-- level that lies behind; an exhausted attempt has used up all five levels.
pub record IsValid (a : Snapshot) : Type 0 where
  pub level_capped : a.evidence_level ≤ 4
  pub wrong_capped : a.wrong_guesses_at_level ≤ 2
  pub at_least_here : a.wrong_guesses_at_level ≤ a.total_wrong_guesses
  pub at_most_behind :
      a.state ≢ exhausted → a.total_wrong_guesses ≤ a.evidence_level * 3 + a.wrong_guesses_at_level
  pub exhausted_final :
      a.state ≡ exhausted
      → (a.evidence_level ≡ 4) × (a.wrong_guesses_at_level ≡ 2) × (a.total_wrong_guesses ≡ 15)

state_named-name : (s : AttemptState) → state_named (state_name s) ≡ some s
unfolding state_named state_name str_eq
state_named-name active = refl
state_named-name solved = refl
state_named-name given_up = refl
state_named-name exhausted = refl
state_named-name expired = refl

check_counters_valid : (a : Snapshot) → IsValid a → check_counters a ≡ ok a
unfolding check_counters
check_counters_valid a v = ground arith

IsValid-check_counters :
    (a b : Snapshot)
    → a.evidence_level ≤ 4
    → a.wrong_guesses_at_level ≤ 2
    → check_counters a ≡ ok b
    → (a ≡ b) × IsValid b
unfolding check_counters
IsValid-check_counters a b h k e = ground arith

name_of_state_named : (s : String) (t : AttemptState) → state_named s ≡ some t → s ≡ state_name t
unfolding state_named state_name
name_of_state_named s t h = ground (
  arith,
  str_eq_iff s "ACTIVE",
  str_eq_iff s "SOLVED",
  str_eq_iff s "GIVEN_UP",
  str_eq_iff s "EXHAUSTED",
  str_eq_iff s "EXPIRED",
)

pub assert_valid-to_candidate :
    (a : Snapshot) → IsValid a → assert_valid_attempt_snapshot (to_candidate a) ≡ ok a
unfolding assert_valid_attempt_snapshot to_candidate
assert_valid-to_candidate a v =
    rw (state_named-name a.state) (ground (arith, check_counters_valid a v))

-- The check returns a typed snapshot as it is, and only if it is valid.
pub assert-IsValid_typed :
    (a b : Snapshot) → assert_valid_attempt_snapshot (to_candidate a) ≡ ok b → (a ≡ b) × IsValid b
unfolding assert_valid_attempt_snapshot to_candidate
assert-IsValid_typed a b h =
    let h' = rw (state_named-name a.state) at h in ground (arith, IsValid-check_counters a b)

pub IsValid-of_assert :
    (a b : Snapshot) → assert_valid_attempt_snapshot (to_candidate a) ≡ ok b → IsValid a
IsValid-of_assert a b h = let (same, valid) = assert-IsValid_typed a b h in rw same valid

accepted_candidate :
    (c : Candidate) (b : Snapshot)
    → assert_valid_attempt_snapshot c ≡ ok b
    → (c ≡ to_candidate b) × IsValid b
accepted_candidate not_an_object b h = unfold assert_valid_attempt_snapshot in cc h
accepted_candidate
      (object (string s) (number (int (pos e))) (number (int (pos w))) (number (int (pos t)))) b h =
    elim (Option-cases (state_named s)) [
      | inl p ↦ unfold assert_valid_attempt_snapshot in cc (rw p at h)
      | inr (st, p) ↦
          let a : Snapshot = record {
            state = st;
            evidence_level = e;
            wrong_guesses_at_level = w;
            total_wrong_guesses = t;
          } in
          let named = name_of_state_named s st p in
          let (same, valid) = assert-IsValid_typed a b (unfold to_candidate in rw named at h) in
          (unfold to_candidate in rw named (ap to_candidate same), valid)
    ]
accepted_candidate (object _ _ _ _) b h = unfold assert_valid_attempt_snapshot in ground arith

-- The runtime check of an `unknown` returns a snapshot exactly when the value is that snapshot's
-- object and the snapshot is valid.
pub assert-IsValid_iff :
    (c : Candidate) (b : Snapshot)
    → (assert_valid_attempt_snapshot c ≡ ok b) ↔ ((c ≡ to_candidate b) × IsValid b)
assert-IsValid_iff c b = (accepted_candidate c b, λ h. rw h.0 (assert_valid-to_candidate b h.1))

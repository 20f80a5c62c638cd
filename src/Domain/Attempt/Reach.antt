-- ===== src/Domain/Attempt/Reach.antt =====
-- Which snapshots play can reach, and how long an attempt lasts
-- (packages/domain/src/attempt-engine.ts).
use loremaster.Prelude.{
  ℕ, zero, suc, ◌+◌, ◌-◌, ◌*◌, ◌≤◌, min, ◌≡◌, ◌≢◌, refl, ◌↔◌, ◌⊎◌, inl, inr, Bool, true, false, ok,
  arith, if◌then◌else◌,
}
use loremaster.Domain.Attempt.{
  AttemptState, active, solved, given_up, exhausted, expired, Snapshot, Candidate, accepted,
  is_active, to_candidate, assert_valid_attempt_snapshot,
}
use loremaster.Domain.Attempt.Validity.{IsValid, assert-IsValid_iff}
use loremaster.Domain.Attempt.Engine.{guess_active, reveal_active}
use loremaster.Domain.Attempt.Laws.{
  Command, guess, reveal, surrender, elapse, run, play, run_active, accepted_active, play-IsValid,
}

-- The row that the database inserts for a new attempt.
abbrev pub start : Snapshot
start = record {
  state = active;
  evidence_level = 0;
  wrong_guesses_at_level = 0;
  total_wrong_guesses = 0;
}

abbrev pub snap : AttemptState → ℕ → ℕ → ℕ → Snapshot
snap s e w t = record {
  state = s;
  evidence_level = e;
  wrong_guesses_at_level = w;
  total_wrong_guesses = t;
}

-- `Plays n a b`: n accepted commands lead from a to b.
pub data Plays (a : Snapshot) : ℕ → Snapshot → Type 0 where
  here : Plays a 0 a
  next :
      {n : ℕ} {b d : Snapshot} {p : Bool} (c : Command)
      → Plays a n b
      → run c b ≡ ok (accepted d p)
      → Plays a (suc n) d

-- Some play leads from a new attempt to a.
abbrev pub Reachable : Snapshot → Type 0
Reachable a = (n : ℕ) × Plays start n a

pub Plays-IsValid : {a b : Snapshot} {n : ℕ} → IsValid a → Plays a n b → IsValid b
Plays-IsValid v here = v
Plays-IsValid v (next {b = b} c r e) =
    let (w, act, q) = accepted_active c b e in play-IsValid c b w act q

step :
    (c : Command) (a : Snapshot) {b : Snapshot} {p : Bool}
    → Reachable a
    → IsValid a
    → a.state ≡ active
    → play c a ≡ accepted b p
    → Reachable b
step c a {p = p} (n, r) v s e = (suc n, next {p = p} c r (rw (run_active c a v s) (rw e)))

active-IsValid : (e w t : ℕ) → e ≤ 4 → w ≤ 2 → w ≤ t → t ≤ e * 3 + w → IsValid (snap active e w t)
active-IsValid e w t he hw hl hu = record {
  level_capped = he;
  wrong_capped = hw;
  at_least_here = hl;
  at_most_behind = λ _. hu;
  exhausted_final = λ x. cc;
}

reach_active : (e w t : ℕ) → e ≤ 4 → w ≤ 2 → w ≤ t → t ≤ e * 3 + w → Reachable (snap active e w t)
unfolding guess_active reveal_active
reach_active e (suc w) (suc t) he hw hl hu =
    step (guess false) (snap active e w t) {p = true}
      (reach_active e w t he (omega arith) (omega arith) (omega arith))
      (active-IsValid e w t he (omega arith) (omega arith) (omega arith)) refl (ground arith)
reach_active e (suc w) zero he hw hl hu = absurd (omega arith)
reach_active zero zero zero he hw hl hu = (0, here)
reach_active zero zero (suc t) he hw hl hu = absurd (omega arith)
reach_active (suc e) zero t he hw hl hu = elim split [
  | inl full ↦
      step (guess false) (snap active e 2 (e * 3 + 2)) {p = true}
        (reach_active e 2 (e * 3 + 2) (omega arith) (omega arith) (omega arith) (omega arith))
        (active-IsValid e 2 (e * 3 + 2) (omega arith) (omega arith) (omega arith) (omega arith))
        refl (ground arith)
  | inr less ↦
      step reveal (snap active e (min t 2) t) {p = false}
        (reach_active e (min t 2) t (omega arith) (omega arith) (omega arith) (omega arith))
        (active-IsValid e (min t 2) t (omega arith) (omega arith) (omega arith) (omega arith)) refl
        (ground arith)
]
  where
    split : (t ≡ e * 3 + 3) ⊎ (t ≤ e * 3 + 2)
    split = omega arith

before :
    (e w t : ℕ)
    → e ≤ 4
    → w ≤ 2
    → w ≤ t
    → t ≤ e * 3 + w
    → Reachable (snap active e w t) × IsValid (snap active e w t)
before e w t he hw hl hu = (reach_active e w t he hw hl hu, active-IsValid e w t he hw hl hu)

reach_of_state : (s : AttemptState) (e w t : ℕ) → IsValid (snap s e w t) → Reachable (snap s e w t)
unfolding guess_active
reach_of_state active e w t v =
    reach_active e w t v.level_capped v.wrong_capped v.at_least_here (v.at_most_behind (λ x. cc))
reach_of_state solved e w t v =
    let (r, u) =
      before e w t v.level_capped v.wrong_capped v.at_least_here (v.at_most_behind (λ x. cc)) in
    step (guess true) (snap active e w t) {p = true} r u refl refl
reach_of_state given_up e w t v =
    let (r, u) =
      before e w t v.level_capped v.wrong_capped v.at_least_here (v.at_most_behind (λ x. cc)) in
    step surrender (snap active e w t) {p = false} r u refl refl
reach_of_state expired e w t v =
    let (r, u) =
      before e w t v.level_capped v.wrong_capped v.at_least_here (v.at_most_behind (λ x. cc)) in
    step elapse (snap active e w t) {p = false} r u refl refl
reach_of_state exhausted e w t v =
    let (p, q, r) = v.exhausted_final refl in
    step (guess false) (snap active 4 2 14) {p = true}
      (reach_active 4 2 14 (omega arith) (omega arith) (omega arith) (omega arith))
      (active-IsValid 4 2 14 (omega arith) (omega arith) (omega arith) (omega arith)) refl
      (ground arith)

pub start-IsValid : IsValid start
start-IsValid = active-IsValid 0 0 0 (omega arith) (omega arith) (omega arith) (omega arith)

Reachable-iff_IsValid : (a : Snapshot) → Reachable a ↔ IsValid a
Reachable-iff_IsValid a = (
  λ (n, r). Plays-IsValid start-IsValid r,
  reach_of_state a.state a.evidence_level a.wrong_guesses_at_level a.total_wrong_guesses,
)

-- The runtime check of an `unknown` is exact: it returns a snapshot if and only if the value is that
-- snapshot's object and some play leads from a new attempt to the snapshot.
pub assert-iff_Reachable :
    (c : Candidate) (a : Snapshot)
    → (assert_valid_attempt_snapshot c ≡ ok a) ↔ ((c ≡ to_candidate a) × Reachable a)
assert-iff_Reachable c a = (
  λ h.
      let (same, valid) = (assert-IsValid_iff c a).0 h in (same, (Reachable-iff_IsValid a).1 valid),
  λ (same, r). (assert-IsValid_iff c a).1 (same, (Reachable-iff_IsValid a).0 r),
)

-- How many commands an attempt can still accept.
abbrev moves_left : Snapshot → ℕ
moves_left a =
    if is_active a.state then (4 - a.evidence_level) * 3 + (2 - a.wrong_guesses_at_level) + 1 else 0

play_falls :
    (c : Command) (a : Snapshot) {b : Snapshot} {p : Bool}
    → IsValid a
    → a.state ≡ active
    → play c a ≡ accepted b p
    → suc (moves_left b) ≤ moves_left a
unfolding guess_active reveal_active
play_falls (guess true) a v h e = ground arith
play_falls (guess false) a v h e = ground arith
play_falls reveal a v h e = ground arith
play_falls surrender a v h e = ground arith
play_falls elapse a v h e = ground arith

pub Plays-bound :
    {a b : Snapshot} {n : ℕ} → IsValid a → Plays a n b → n + moves_left b ≤ moves_left a
Plays-bound v here = omega arith
Plays-bound v (next {b = b} c r e) =
    let (w, act, q) = accepted_active c b e in
    omega (arith, Plays-bound v r, play_falls c b w act q)

over : (b : Snapshot) {n : ℕ} → n + moves_left b ≤ 15 → n ≡ 15 → b.state ≢ active
over b h e s = ground arith

-- An attempt accepts at most fifteen commands, and after the fifteenth it has ended.
pub attempt_ends : {b : Snapshot} {n : ℕ} → Plays start n b → (n ≤ 15) × (n ≡ 15 → b.state ≢ active)
attempt_ends {b} r =
    let bound = Plays-bound start-IsValid r in (omega (arith, bound), λ e s. over b bound e s)

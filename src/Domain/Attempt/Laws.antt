-- ===== src/Domain/Attempt/Laws.antt =====
-- What the transitions of packages/domain/src/attempt-engine.ts do, each on every branch.
use loremaster.Prelude.{◌≡◌, ◌≢◌, refl, ◌↔◌, Bool, true, false, ok, arith, >>=-eq-ok}
use loremaster.Domain.Attempt.{
  AttemptState, active, solved, given_up, exhausted, expired, Snapshot, TransitionResult, accepted,
  rejected, terminal_attempt,
}
use loremaster.Domain.Attempt.Validity.{IsValid, IsValid-of_assert, assert_valid-to_candidate}
use loremaster.Domain.Attempt.Engine.{
  Transition, guess_active, reveal_active, apply_guess, reveal_evidence, give_up, expire,
}

-- The four transitions as one type of commands.
pub data Command : Type 0 where
  guess : (correct : Bool) → Command
  reveal surrender elapse : Command

abbrev pub run : Command → Snapshot → Transition
run (guess correct) a = apply_guess a correct
run reveal a = reveal_evidence a
run surrender a = give_up a
run elapse a = expire a

-- What the rules say of a command on an active attempt.
abbrev pub play : Command → Snapshot → TransitionResult
play (guess correct) a = guess_active a correct
play reveal a = reveal_active a
play surrender a = accepted (record a { state = given_up }) false
play elapse a = accepted (record a { state = expired }) false

pub run_active :
    (c : Command) (a : Snapshot) → IsValid a → a.state ≡ active → run c a ≡ ok (play c a)
unfolding apply_guess reveal_evidence give_up expire
run_active (guess correct) a v h = rw (assert_valid-to_candidate a v) (rw h)
run_active reveal a v h = rw (assert_valid-to_candidate a v) (rw h)
run_active surrender a v h = rw (assert_valid-to_candidate a v) (rw h)
run_active elapse a v h = rw (assert_valid-to_candidate a v) (rw h)

pub run_terminal :
    (c : Command) (a : Snapshot)
    → IsValid a
    → a.state ≢ active
    → run c a ≡ ok (rejected terminal_attempt a)
unfolding apply_guess reveal_evidence give_up expire
run_terminal (guess correct) a v h = rw (assert_valid-to_candidate a v) (ground arith)
run_terminal reveal a v h = rw (assert_valid-to_candidate a v) (ground arith)
run_terminal surrender a v h = rw (assert_valid-to_candidate a v) (ground arith)
run_terminal elapse a v h = rw (assert_valid-to_candidate a v) (ground arith)

pub run-IsValid : (c : Command) (a : Snapshot) {r : TransitionResult} → run c a ≡ ok r → IsValid a
unfolding apply_guess reveal_evidence give_up expire
run-IsValid (guess correct) a h = let (b, e, _) = >>=-eq-ok _ _ h in IsValid-of_assert a b e
run-IsValid reveal a h = let (b, e, _) = >>=-eq-ok _ _ h in IsValid-of_assert a b e
run-IsValid surrender a h = let (b, e, _) = >>=-eq-ok _ _ h in IsValid-of_assert a b e
run-IsValid elapse a h = let (b, e, _) = >>=-eq-ok _ _ h in IsValid-of_assert a b e

pub play-IsValid :
    (c : Command) (a : Snapshot) {b : Snapshot} {p : Bool}
    → IsValid a
    → a.state ≡ active
    → play c a ≡ accepted b p
    → IsValid b
unfolding guess_active reveal_active
play-IsValid (guess true) a v h e = ground arith
play-IsValid (guess false) a v h e = ground arith
play-IsValid reveal a v h e = ground arith
play-IsValid surrender a v h e = ground arith
play-IsValid elapse a v h e = ground arith

-- A command that is accepted was given to a valid active attempt.
pub accepted_active :
    (c : Command) (a : Snapshot) {b : Snapshot} {p : Bool}
    → run c a ≡ ok (accepted b p)
    → IsValid a × (a.state ≡ active) × (play c a ≡ accepted b p)
accepted_active c a {b} {p} h = go a.state refl
  where
    v : IsValid a
    v = run-IsValid c a h

    ended : a.state ≢ active → IsValid a × (a.state ≡ active) × (play c a ≡ accepted b p)
    ended n = absurd (cc (run_terminal c a v n))

    go :
        (s : AttemptState)
        → a.state ≡ s
        → IsValid a × (a.state ≡ active) × (play c a ≡ accepted b p)
    go active e = (v, e, cc (run_active c a v e))
    go solved e = ended (λ n. cc)
    go given_up e = ended (λ n. cc)
    go exhausted e = ended (λ n. cc)
    go expired e = ended (λ n. cc)

-- A transition throws on an invalid snapshot and on no other; on an ended attempt each of the four
-- is rejected with the snapshot unchanged; and whatever is accepted leaves a valid snapshot.
pub run_contract :
    (c : Command) (a : Snapshot)
    → (IsValid a ↔ ((r : TransitionResult) × (run c a ≡ ok r)))
      × (IsValid a → a.state ≢ active → run c a ≡ ok (rejected terminal_attempt a))
      × ((b : Snapshot) (p : Bool) → run c a ≡ ok (accepted b p) → IsValid b)
run_contract c a = (
  (λ v. returns v a.state refl, λ (r, h). run-IsValid c a h),
  run_terminal c a,
  λ b p h. let (v, act, e) = accepted_active c a h in play-IsValid c a v act e,
)
  where
    returns :
        IsValid a → (s : AttemptState) → a.state ≡ s → (r : TransitionResult) × (run c a ≡ ok r)
    returns v active e = (play c a, run_active c a v e)
    returns v solved e = (rejected terminal_attempt a, run_terminal c a v (λ n. cc))
    returns v given_up e = (rejected terminal_attempt a, run_terminal c a v (λ n. cc))
    returns v exhausted e = (rejected terminal_attempt a, run_terminal c a v (λ n. cc))
    returns v expired e = (rejected terminal_attempt a, run_terminal c a v (λ n. cc))

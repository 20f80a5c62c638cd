-- ===== src/Gameplay/Plans/Accepts.antt =====
-- What an accepted plan of packages/database/src/gameplay/attempts.ts leads to.
use loremaster.Prelude.{
  ℕ, ◌≡◌, refl, ap, Bool, Bool-cases, true, not, Option, none, some, String, Result, ok, inl, inr,
  arith, >>=-eq-ok, sym, map,
}
use loremaster.Domain.Attempt.{Snapshot, accepted, is_active}
use loremaster.Domain.Attempt.Validity.{IsValid}
use loremaster.Domain.Attempt.Engine.{Transition, apply_guess, reveal_evidence}
use loremaster.Domain.Attempt.Engine as Engine
use loremaster.Domain.Attempt.Laws as Laws
use loremaster.Domain.Attempt.Laws.{run, accepted_active, play-IsValid}
use loremaster.Gameplay.{
  Store, CaseEntity, Revision, AttemptRow, GameplayCommand, guess, reveal, give_up, malformed,
  domain, lift,
}
use loremaster.Gameplay.Receipts.{command_kind, outcome_fits}
use loremaster.Gameplay.Plans.{planned, Planned, plan, plan_guess, is_answer, advance}
use loremaster.Gameplay.Reconciliation.{set_play, updated_row}
use loremaster.Gameplay.Reconciliation.Keeps.{
  Sound, books, finalize-played, finalize-Keeps, set_play-AreSound,
}

-- The transition of a plan is one of the four of the engine, and its outcome fits the command.
pub record Fits (row : AttemptRow) (c : GameplayCommand) (p : Planned) : Type 0 where
  pub engine : (d : Laws.Command) × (run d row.play ≡ ok p.transition)
  pub fits : outcome_fits (command_kind c) p.outcome_code ≡ true

lifted : {A : Type 0} (r : Result _ A) (a : A) → lift domain r ≡ ok a → r ≡ ok a
unfolding lift
lifted r a h = ground arith

plan_guess-Fits :
    (row : AttemptRow) (o : Option CaseEntity) (r : Option Revision) (named : String) (p : Planned)
    → plan_guess row o r ≡ ok (planned p)
    → Fits row (guess named) p
unfolding plan_guess outcome_fits command_kind
plan_guess-Fits row none r named p h = absurd (cc h)
plan_guess-Fits row (some e) none named p h = absurd (cc h)
plan_guess-Fits row (some e) (some r) named p h =
    let c = is_answer e r in
    let (t, q, k) = >>=-eq-ok (lift domain (apply_guess row.play c)) _ h in
    let same : p.transition ≡ t = ground arith in
    record { engine = (Laws.guess c, rw same (lifted _ t q)); fits = ground arith }

pub plan-Fits :
    (s : Store) (row : AttemptRow) (c : GameplayCommand) (p : Planned)
    → plan s row c ≡ ok (planned p)
    → Fits row c p
unfolding plan outcome_fits command_kind
plan-Fits s row (guess named) p h = plan_guess-Fits row _ _ named p h
plan-Fits s row reveal p h =
    let (t, q, k) = >>=-eq-ok (lift domain (reveal_evidence row.play)) _ h in
    let same : p.transition ≡ t = ground arith in
    record { engine = (Laws.reveal, rw same (lifted _ t q)); fits = ground arith }
plan-Fits s row give_up p h =
    let (t, q, k) = >>=-eq-ok (lift domain (Engine.give_up row.play)) _ h in
    let same : p.transition ≡ t = ground arith in
    record { engine = (Laws.surrender, rw same (lifted _ t q)); fits = ground arith }
plan-Fits s row malformed p h = absurd (cc h)

pub accepted-IsValid :
    (row : AttemptRow) (c : GameplayCommand) (p : Planned) (next : Snapshot) (b : Bool)
    → Fits row c p
    → p.transition ≡ accepted next b
    → IsValid next
accepted-IsValid row c p next b f e =
    let (d, q) = f.engine in
    let (v, act, k) = accepted_active d row.play (rw e at q) in play-IsValid d row.play v act k

-- The row of an accepted transition is the updated one; the books are untouched.
pub advance-updated :
    (row : AttemptRow) (next : Snapshot) (at : ℕ) (s s' : Store) (row' : AttemptRow)
    → advance row next at s ≡ ok (row', s')
    → (row' ≡ updated_row row next at) × (books s' ≡ books s) × (IsValid next → Sound s → Sound s')
unfolding advance
advance-updated row next at s s' row' h = elim (Bool-cases (not (is_active next.state))) [
  | inl e ↦
      let k = rw e at h in
      let (same, kept) = finalize-played row next at s s' row' k in
      (same, ap (λ x. x.1) kept, λ v w. (finalize-Keeps row next at s s' row' v k).still_sound w)
  | inr e ↦
      let k = rw e at h in
      let s1 : Store = record s { attempts = map (set_play row.id next at none) s.attempts } in
      let same : s1 ≡ s' = ground arith in
      rw (sym same)
        (ground arith, refl, λ v w. set_play-AreSound row.id next at none s.attempts v w)
]

-- ===== src/Gameplay/Commands/Soundness.antt =====
-- The commands of packages/database/src/gameplay/attempts.ts keep the attempts valid.
use loremaster.Prelude.{
  ℕ, ◌≡◌, refl, sym, ◌∙◌, not, ◌||◌, ◌==◌, Bool-cases, Option, none, some, List, ◌∷◌, String,
  Result, ok, >>=-eq-ok, ok-pair, inl, inr,
}
use mathlib.Core.Path.{subst}
use loremaster.Prelude.Js.{Text}
use loremaster.Domain.Attempt.{Snapshot, TransitionResult, accepted, rejected, is_active}
use loremaster.Domain.Projections.{PrivateCaseFile}
use loremaster.Gameplay.{
  Store, Receipt, AttemptRow, GameplayError, GameplayCommandRequest, CommandResult, RejectionCode,
  Instants, FreshIds,
}
use loremaster.Gameplay.Transactions.{transaction-cases}
use loremaster.Gameplay.Receipts.{
  Part, same_text, is_attempt, command_receipt_outcome, command_kind,
}
use loremaster.Gameplay.Plans.{Plan, refuse, planned, Planned, plan, record_guess, advance}
use loremaster.Gameplay.Plans.Accepts.{plan-Fits, accepted-IsValid, advance-updated}
use loremaster.Gameplay.Reconciliation.{expire_if_closed}
use loremaster.Gameplay.Reconciliation.Keeps.{Sound, expire_if_closed-Keeps}
use loremaster.Gameplay.Commands.{
  hydrate, show, replay, command_receipt, commit, commit_transition, commit_plan, play, play_row,
  replay_row, execute_keyed, execute_body, execute_gameplay_command,
}
use loremaster.Gameplay.Commands.Idempotence.{is_signed_out, checked, well_formed-execute}

keeps : {s t : Store} → s ≡ t → Sound s → Sound t
keeps e v = subst (λ x. Sound x) e v

record_guess-Sound :
    (ids : FreshIds) (row : AttemptRow) (next : Snapshot) (at : ℕ) (o : Option String) (s : Store)
    → Sound s
    → Sound (record_guess ids row next at o s)
unfolding record_guess
record_guess-Sound ids row next at none s v = v
record_guess-Sound ids row next at (some e) s v = v

module _ (clock : ℕ → String) (digest : List Part → Text)
    (hydrate_case : String → Result GameplayError PrivateCaseFile) where
  show-Sound :
      (row : AttemptRow) (g : String) (code : RejectionCode) (s s' : Store) (r : CommandResult)
      → Sound s
      → show clock digest hydrate_case s row g code ≡ ok (r, s')
      → Sound s'
  unfolding show
  show-Sound row g code s s' r v h =
      let (shown, _, k) = >>=-eq-ok (hydrate clock digest hydrate_case s row g) _ h in
      keeps (ok-pair k).1 v

  transition-Sound :
      (ids : FreshIds) (request : GameplayCommandRequest) (parts : List Part) (row : AttemptRow)
      (at : ℕ) (p : Planned) (t : TransitionResult) (s s' : Store) (r : CommandResult)
      → Sound s
      → plan s row request.command ≡ ok (planned p)
      → p.transition ≡ t
      → commit_transition clock digest hydrate_case ids request parts row at p t s ≡ ok (r, s')
      → Sound s'
  unfolding commit_transition commit
  transition-Sound ids request parts row at p (rejected reason a) s s' r v f q h =
      show-Sound row request.guest_id _ s s' r v h
  transition-Sound ids request parts row at p (accepted next b) s s' r v f q h =
      let start = record_guess ids row next at p.guessed s in
      let ((row', s1), e, g) = >>=-eq-ok (advance row next at start) _ h in
      let new = command_receipt clock digest hydrate_case ids request parts p.outcome_code row' in
      let s2 : Store = record s1 { receipts = new ∷ s1.receipts } in
      let (shown, _, k) =
        >>=-eq-ok (hydrate clock digest hydrate_case s2 row' request.guest_id) _ g in
      let valid =
        accepted-IsValid row request.command p next b (plan-Fits s row request.command p f) q in
      let (_, _, sound) = advance-updated row next at start s1 row' e in
      keeps (ok-pair k).1 (sound valid (record_guess-Sound ids row next at p.guessed s v))

  plan-Sound :
      (ids : FreshIds) (request : GameplayCommandRequest) (parts : List Part) (row : AttemptRow)
      (at : ℕ) (p : Plan) (s s' : Store) (r : CommandResult)
      → Sound s
      → plan s row request.command ≡ ok p
      → commit_plan clock digest hydrate_case ids request parts row at p s ≡ ok (r, s')
      → Sound s'
  unfolding commit_plan
  plan-Sound ids request parts row at (refuse code) s s' r v f h = keeps (ok-pair h).1 v
  plan-Sound ids request parts row at (planned p) s s' r v f h =
      transition-Sound ids request parts row at p p.transition s s' r v f refl h

  play-Sound :
      (ids : FreshIds) (request : GameplayCommandRequest) (n : ℕ) (parts : List Part)
      (row : AttemptRow) (at : ℕ) (s s' : Store) (r : CommandResult)
      → Sound s
      → play clock digest hydrate_case ids request n parts row at s ≡ ok (r, s')
      → Sound s'
  unfolding play
  play-Sound ids request n parts row at s s' r v h =
      elim (Bool-cases (not (is_active row.play.state))) [
        | inl e ↦ show-Sound row request.guest_id _ s s' r v (rw e at h)
        | inr e ↦ elim (Bool-cases (not (row.version == n))) [
          | inl d ↦ show-Sound row request.guest_id _ s s' r v (rw (e, d) at h)
          | inr d ↦
              let (p, f, k) = >>=-eq-ok (plan s row request.command) _ (rw (e, d) at h) in
              plan-Sound ids request parts row at p s s' r v f k
        ]
      ]

  play_row-Sound :
      (ids : FreshIds) (now : Instants) (request : GameplayCommandRequest) (n : ℕ)
      (parts : List Part) (o : Option AttemptRow) (s s' : Store) (r : CommandResult)
      → Sound s
      → play_row clock digest hydrate_case ids now request n parts o s ≡ ok (r, s')
      → Sound s'
  unfolding play_row
  play_row-Sound ids now request n parts none s s' r v h = keeps (ok-pair h).1 v
  play_row-Sound ids now request n parts (some row) s s' r v h =
      let ((current, s1), e, k) = >>=-eq-ok (expire_if_closed row now.sampled s) _ h in
      let sound = (expire_if_closed-Keeps row now.sampled s s1 current e).still_sound v in
      play-Sound ids request n parts current now.sampled s1 s' r sound k

  replay_row-Sound :
      (now : Instants) (request : GameplayCommandRequest) (prior : Receipt) (o : Option AttemptRow)
      (s s' : Store) (r : CommandResult)
      → Sound s
      → replay_row clock digest hydrate_case now request prior o s ≡ ok (r, s')
      → Sound s'
  unfolding replay_row replay
  replay_row-Sound now request prior none s s' r v h = keeps (ok-pair h).1 v
  replay_row-Sound now request prior (some row) s s' r v h =
      let (outcome, _, g) =
        >>=-eq-ok (command_receipt_outcome prior (command_kind request.command)) _ h in
      let ((current, s1), e, k) = >>=-eq-ok (expire_if_closed row now.sampled s) _ g in
      let (shown, _, l) =
        >>=-eq-ok (hydrate clock digest hydrate_case s1 current request.guest_id) _ k in
      keeps (ok-pair l).1 ((expire_if_closed-Keeps row now.sampled s s1 current e).still_sound v)

  keyed-Sound :
      (ids : FreshIds) (now : Instants) (request : GameplayCommandRequest) (n : ℕ)
      (parts : List Part) (o : Option Receipt) (s s' : Store) (r : CommandResult)
      → Sound s
      → execute_keyed clock digest hydrate_case ids now request n parts o s ≡ ok (r, s')
      → Sound s'
  unfolding execute_keyed
  keyed-Sound ids now request n parts none s s' r v h =
      play_row-Sound ids now request n parts _ s s' r v h
  keyed-Sound ids now request n parts (some prior) s s' r v h =
      elim (Bool-cases (
        not (same_text prior.command_fingerprint (digest parts))
        || not (is_attempt request.attempt_id prior.attempt_id))) [
          | inl e ↦ keeps (ok-pair (rw e at h)).1 v
          | inr e ↦ replay_row-Sound now request prior _ s s' r v (rw e at h)
        ]

  body-Sound :
      (ids : FreshIds) (now : Instants) (request : GameplayCommandRequest) (s s' : Store)
      (r : CommandResult)
      → Sound s
      → execute_body clock digest hydrate_case ids now request s ≡ ok (r, s')
      → Sound s'
  body-Sound ids now request s s' r v h =
      elim (checked clock digest hydrate_case ids now request s s' r h) [
        | inl (_, same) ↦ keeps same v
        | inr (n, parts, w) ↦
            let k =
              sym (well_formed-execute clock digest hydrate_case ids now request n parts s w) ∙ h in
            elim (Bool-cases (is_signed_out s request now)) [
              | inl l ↦ keeps (ok-pair (rw l at k)).1 v
              | inr l ↦ keyed-Sound ids now request n parts _ s s' r v (rw l at k)
            ]
      ]

  -- A command, however it ends, leaves a table of attempts in which every snapshot is valid and a
  -- guest has at most one attempt in a slot, if it finds such a table.
  pub execute-Sound :
      (ids : FreshIds) (now : Instants) (request : GameplayCommandRequest) (s : Store)
      → Sound s
      → Sound (execute_gameplay_command clock digest hydrate_case ids now request s).1
  unfolding execute_gameplay_command
  execute-Sound ids now request s v =
      elim (transaction-cases (execute_body clock digest hydrate_case ids now request) s _ _ refl) [
        | inl (_, _, same) ↦ keeps (sym same) v
        | inr (r, _, w) ↦ body-Sound ids now request s _ r v w
      ]

-- ===== src/Gameplay/Commands/Ledger.antt =====
-- What a command of packages/database/src/gameplay/attempts.ts writes to the tables of the play.
use loremaster.Prelude.{
  ℕ, ◌+◌, ◌≡◌, refl, sym, ap, ◌∙◌, ◌⊎◌, Bool, true, false, not, ◌==◌, ==_iff, List, ◌∷◌, Option,
  none, some, String, Result, ok, >>=-eq-ok, ok-pair, inl, inr, Bool-cases, arith,
}
use loremaster.Prelude.Js.{Text}
use loremaster.Domain.Attempt.{Snapshot, TransitionResult, accepted, rejected, is_active}
use loremaster.Domain.Projections.{PrivateCaseFile, AttemptProjection}
use loremaster.Gameplay.{
  Store, Receipt, AttemptRow, OutcomeCode, GameplayError, GameplayCommandRequest, RejectionCode,
  unknown_attempt, CommandResult, done, refused, Instants, FreshIds,
}
use loremaster.Gameplay.Rows.{attempt_row}
use loremaster.Gameplay.Rows.Owned.{attempt_row-owned}
use loremaster.Gameplay.Receipts.{Part, command_kind, command_receipt_outcome, outcome_fits}
use loremaster.Gameplay.Plans.{Plan, refuse, planned, Planned, plan, record_guess, advance}
use loremaster.Gameplay.Plans.Accepts.{Fits, plan-Fits, advance-updated}
use loremaster.Gameplay.Reconciliation.{expire_if_closed, updated_row}
use loremaster.Gameplay.Reconciliation.Keeps.{books, expire_if_closed-Keeps}
use loremaster.Gameplay.Commands.{
  hydrate, show, replay, command_receipt, commit, commit_transition, commit_plan, play, play_row,
  replay_row,
}

-- The result reports a command that was carried out now.
abbrev pub is_fresh : CommandResult → Bool
is_fresh (done _ false _) = true
is_fresh _ = false

-- The receipt that a request leaves for its key.
pub record IsReceiptOf (digest : List Part → Text) (request : GameplayCommandRequest)
    (parts : List Part) (v : ℕ) (o : OutcomeCode) (r : Receipt) : Type 0 where
  pub owner : r.guest_id ≡ request.guest_id
  pub key : r.idempotency_key ≡ request.idempotency_key
  pub fingerprint : r.command_fingerprint ≡ digest parts
  pub kind : r.command_kind ≡ command_kind request.command
  pub attempt : r.attempt_id ≡ some request.attempt_id
  pub outcome : r.outcome_code ≡ o
  pub outcome_fit : outcome_fits (command_kind request.command) o ≡ true
  pub next_version : r.committed_version ≡ v + 1

record_guess-receipts :
    (ids : FreshIds) (row : AttemptRow) (next : Snapshot) (at : ℕ) (o : Option String) (s : Store)
    → (record_guess ids row next at o s).receipts ≡ s.receipts
unfolding record_guess
record_guess-receipts ids row next at none s = refl
record_guess-receipts ids row next at (some e) s = refl

module _ (clock : ℕ → String) (digest : List Part → Text)
    (hydrate_case : String → Result GameplayError PrivateCaseFile) where
  -- One more receipt of the request, for an outcome that is reported as new.
  abbrev pub Writes :
      GameplayCommandRequest → List Part → ℕ → Store → CommandResult → Store → Type 0
  Writes request parts v s r s' =
      (o : OutcomeCode) × (shown : AttemptProjection) × (r ≡ done o false shown)
      × (new : Receipt) × (s'.receipts ≡ new ∷ s.receipts)
      × IsReceiptOf digest request parts v o new

  abbrev pub Settles :
      GameplayCommandRequest → List Part → ℕ → Store → CommandResult → Store → Type 0
  Settles request parts v s r s' =
      ((is_fresh r ≡ false) × (books s' ≡ books s)) ⊎ Writes request parts v s r s'

  show-Settles :
      (request : GameplayCommandRequest) (parts : List Part) (v : ℕ) (row : AttemptRow) (g : String)
      (code : RejectionCode) (s s' : Store) (r : CommandResult)
      → show clock digest hydrate_case s row g code ≡ ok (r, s')
      → Settles request parts v s r s'
  unfolding show
  show-Settles request parts v row g code s s' r h =
      let (shown, _, k) = >>=-eq-ok (hydrate clock digest hydrate_case s row g) _ h in
      let (e, same) = ok-pair k in inl (rw (sym e) refl, ap books (sym same))

  commit-Writes :
      (ids : FreshIds) (request : GameplayCommandRequest) (parts : List Part) (v : ℕ)
      (row : AttemptRow) (at : ℕ) (p : Planned) (next : Snapshot) (s s' : Store) (r : CommandResult)
      → row.id ≡ request.attempt_id
      → row.version ≡ v
      → Fits row request.command p
      → commit clock digest hydrate_case ids request parts row at p next s ≡ ok (r, s')
      → Writes request parts v s r s'
  unfolding commit command_receipt updated_row
  commit-Writes ids request parts v row at p next s s' r id version f h =
      let start = record_guess ids row next at p.guessed s in
      let ((row', s1), e, g) = >>=-eq-ok (advance row next at start) _ h in
      let new = command_receipt clock digest hydrate_case ids request parts p.outcome_code row' in
      let s2 : Store = record s1 { receipts = new ∷ s1.receipts } in
      let (shown, _, k) =
        >>=-eq-ok (hydrate clock digest hydrate_case s2 row' request.guest_id) _ g in
      let (result, same) = ok-pair k in
      let (updated, kept, _) = advance-updated row next at start s1 row' e in
      (
        p.outcome_code,
        shown,
        sym result,
        new,
        ap (λ x. x.receipts) (sym same)
            ∙ ap (λ x. new ∷ x.1) kept
            ∙ ap (λ x. new ∷ x) (record_guess-receipts ids row next at p.guessed s),
        record {
          owner = refl;
          key = refl;
          fingerprint = refl;
          kind = refl;
          attempt = ap some (ap (λ x. x.id) updated ∙ id);
          outcome = refl;
          outcome_fit = f.fits;
          next_version = ap (λ x. x.version) updated ∙ ap (λ n. n + 1) version;
        },
      )

  commit_plan-Settles :
      (ids : FreshIds) (request : GameplayCommandRequest) (parts : List Part) (v : ℕ)
      (row : AttemptRow) (at : ℕ) (p : Plan) (s s' : Store) (r : CommandResult)
      → row.id ≡ request.attempt_id
      → row.version ≡ v
      → plan s row request.command ≡ ok p
      → commit_plan clock digest hydrate_case ids request parts row at p s ≡ ok (r, s')
      → Settles request parts v s r s'
  unfolding commit_plan commit_transition
  commit_plan-Settles ids request parts v row at (refuse code) s s' r id version f h =
      let (e, same) = ok-pair h in inl (rw (sym e) refl, ap books (sym same))
  commit_plan-Settles ids request parts v row at (planned p) s s' r id version f h =
      go p.transition h
    where
      go :
          (t : TransitionResult)
          → commit_transition clock digest hydrate_case ids request parts row at p t s ≡ ok (r, s')
          → Settles request parts v s r s'
      go (accepted next b) k = inr (
          commit-Writes ids request parts v row at p next s s' r id version
            (plan-Fits s row request.command p f) k)
      go (rejected reason a) k = show-Settles request parts v row request.guest_id _ s s' r k

  play-Settles :
      (ids : FreshIds) (request : GameplayCommandRequest) (v : ℕ) (parts : List Part)
      (row : AttemptRow) (at : ℕ) (s s' : Store) (r : CommandResult)
      → row.id ≡ request.attempt_id
      → play clock digest hydrate_case ids request v parts row at s ≡ ok (r, s')
      → Settles request parts v s r s'
  unfolding play
  play-Settles ids request v parts row at s s' r id h =
      elim (Bool-cases (not (is_active row.play.state))) [
        | inl e ↦ show-Settles request parts v row request.guest_id _ s s' r (rw e at h)
        | inr e ↦ elim (Bool-cases (row.version == v)) [
          | inr d ↦ show-Settles request parts v row request.guest_id _ s s' r (rw (e, d) at h)
          | inl d ↦
              let (p, f, k) = >>=-eq-ok (plan s row request.command) _ (rw (e, d) at h) in
              commit_plan-Settles ids request parts v row at p s s' r id
                ((==_iff row.version v).0 d) f k
        ]
      ]

  after :
      (request : GameplayCommandRequest) (parts : List Part) (v : ℕ) (s s1 s' : Store)
      (r : CommandResult)
      → books s1 ≡ books s
      → Settles request parts v s1 r s'
      → Settles request parts v s r s'
  after request parts v s s1 s' r kept (inl (e, same)) = inl (e, same ∙ kept)
  after request parts v s s1 s' r kept (inr (o, shown, e, new, added, w)) =
      inr (o, shown, e, new, added ∙ ap (λ x. new ∷ x.1) kept, w)

  pub play_row-Settles :
      (ids : FreshIds) (now : Instants) (request : GameplayCommandRequest) (v : ℕ)
      (parts : List Part) (o : Option AttemptRow) (s s' : Store) (r : CommandResult)
      → attempt_row s request.attempt_id request.guest_id now.row_read ≡ o
      → play_row clock digest hydrate_case ids now request v parts o s ≡ ok (r, s')
      → Settles request parts v s r s'
  unfolding play_row
  play_row-Settles ids now request v parts none s s' r q h =
      let (e, same) = ok-pair h in inl (rw (sym e) refl, ap books (sym same))
  play_row-Settles ids now request v parts (some row) s s' r q h =
      let ((current, s1), e, k) = >>=-eq-ok (expire_if_closed row now.sampled s) _ h in
      let kept = expire_if_closed-Keeps row now.sampled s s1 current e in
      let (id, _, _) = attempt_row-owned s request.attempt_id request.guest_id now.row_read row q in
      after request parts v s s1 s' r kept.same_books
        (play-Settles ids request v parts current now.sampled s1 s' r (kept.same_id ∙ id) k)

  -- A receipt is there: the answer is its outcome or a refusal, and the books stay.
  abbrev pub Repeats : Receipt → Store → CommandResult → Store → Type 0
  Repeats prior s r s' =
      (books s' ≡ books s)
      × ((r ≡ refused unknown_attempt)
          ⊎ ((shown : AttemptProjection) × (r ≡ done prior.outcome_code true shown)))

  pub replay_row-Repeats :
      (now : Instants) (request : GameplayCommandRequest) (prior : Receipt) (o : Option AttemptRow)
      (s s' : Store) (r : CommandResult)
      → replay_row clock digest hydrate_case now request prior o s ≡ ok (r, s')
      → Repeats prior s r s'
  unfolding replay_row replay command_receipt_outcome
  replay_row-Repeats now request prior none s s' r h =
      let (e, same) = ok-pair h in (ap books (sym same), inl (sym e))
  replay_row-Repeats now request prior (some row) s s' r h =
      let (outcome, stored, g) =
        >>=-eq-ok (command_receipt_outcome prior (command_kind request.command)) _ h in
      let ((current, s1), e, k) = >>=-eq-ok (expire_if_closed row now.sampled s) _ g in
      let (shown, _, l) =
        >>=-eq-ok (hydrate clock digest hydrate_case s1 current request.guest_id) _ k in
      let (result, same) = ok-pair l in
      let as_stored : prior.outcome_code ≡ outcome = ground arith in
      let kept = expire_if_closed-Keeps row now.sampled s s1 current e in
      (ap books (sym same) ∙ kept.same_books, inr (shown, rw as_stored (sym result)))

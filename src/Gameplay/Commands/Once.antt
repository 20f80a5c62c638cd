-- ===== src/Gameplay/Commands/Once.antt =====
-- The commands of packages/database/src/gameplay/attempts.ts are carried out at most once per key.
use loremaster.Prelude.{
  ℕ, ◌≡◌, ◌≢◌, refl, ap, ◌⊎◌, true, false, Bool-cases, not, ◌||◌, List, some, String, Result, ok,
  err, inl, inr, arith,
}
use loremaster.Prelude.Js.{Text}
use loremaster.Domain.Projections.{PrivateCaseFile, AttemptProjection}
use loremaster.Gameplay.{
  Store, Receipt, OutcomeCode, GameplayError, GameplayCommandRequest, session_expired,
  idempotency_conflict, unknown_attempt, CommandResult, done, refused, Instants, FreshIds,
  transaction,
}
use loremaster.Gameplay.Transactions.{transaction-cases, transaction-ok}
use loremaster.Gameplay.Receipts.{Part, receipt, same_text, is_attempt}
use loremaster.Gameplay.Receipts.Found.{same_text-eq, is_attempt-eq, receipt-front}
use loremaster.Gameplay.Reconciliation.Keeps.{books}
use loremaster.Gameplay.Commands.{execute_keyed, execute_body, execute_gameplay_command}
use loremaster.Gameplay.Commands.Idempotence.{
  IsWellFormed, is_signed_out, Ledgered, well_formed-execute, body-Ledgered, body-Repeats,
}

differs :
    (digest : List Part → Text) (prior : Receipt) (id : String) (parts : List Part)
    → (prior.command_fingerprint ≢ digest parts) ⊎ (prior.attempt_id ≢ some id)
    → (not (same_text prior.command_fingerprint (digest parts))
        || not (is_attempt id prior.attempt_id))
      ≡ true
differs digest prior id parts (inl d) =
    elim (Bool-cases (same_text prior.command_fingerprint (digest parts))) [
      | inl e ↦ absurd (d (same_text-eq _ _ e))
      | inr e ↦ rw e refl
    ]
differs digest prior id parts (inr d) = elim (Bool-cases (is_attempt id prior.attempt_id)) [
  | inl e ↦ absurd (d (is_attempt-eq id prior.attempt_id e))
  | inr e ↦ rw e (ground arith)
]

module _ (clock : ℕ → String) (digest : List Part → Text)
    (hydrate_case : String → Result GameplayError PrivateCaseFile) where
  -- However a command ends, the tables of guesses, receipts and participation days are unchanged,
  -- unless its result reports a new outcome. Then the key of the request had no receipt and has
  -- exactly one now: of its owner, digest, kind and attempt, with the outcome that is reported, which
  -- fits the kind, and the expected version plus one. A command that throws changes no table at all.
  pub execute-Ledgered :
      (ids : FreshIds) (now : Instants) (request : GameplayCommandRequest) (s s' : Store)
      (res : Result GameplayError CommandResult)
      → execute_gameplay_command clock digest hydrate_case ids now request s ≡ (res, s')
      → ((e : GameplayError) × (res ≡ err e) × (s' ≡ s))
        ⊎ ((r : CommandResult) × (res ≡ ok r) × Ledgered clock digest hydrate_case request s r s')
  unfolding execute_gameplay_command
  execute-Ledgered ids now request s s' res h =
      elim (transaction-cases (execute_body clock digest hydrate_case ids now request) s s' res h) [
        | inl q ↦ inl q
        | inr (r, q, w) ↦
            inr (r, q, body-Ledgered clock digest hydrate_case ids now request s s' r w)
      ]

  -- A request that reported a new outcome, sent again on the tables it left (with any clock and any
  -- fresh identifiers), writes no guess, no receipt and no participation day; when it does not throw,
  -- it answers with the same outcome as a replay, or refuses for a session or an attempt that is gone.
  pub execute-replays :
      (ids ids' : FreshIds) (now now' : Instants) (request : GameplayCommandRequest)
      (s s1 s2 : Store) (o : OutcomeCode) (shown : AttemptProjection)
      (res : Result GameplayError CommandResult)
      → execute_gameplay_command clock digest hydrate_case ids now request s
        ≡ (ok (done o false shown), s1)
      → execute_gameplay_command clock digest hydrate_case ids' now' request s1 ≡ (res, s2)
      → (books s2 ≡ books s1)
        × (((e : GameplayError) × (res ≡ err e))
            ⊎ (res ≡ ok (refused session_expired))
            ⊎ (res ≡ ok (refused unknown_attempt))
            ⊎ ((again : AttemptProjection) × (res ≡ ok (done o true again))))
  unfolding execute_gameplay_command
  execute-replays ids ids' now now' request s s1 s2 o shown res h k =
      elim (transaction-cases (execute_body clock digest hydrate_case ids' now' request) s1 s2 res
        k) [
          | inl (e, q, same) ↦ (ap books same, inl (e, q))
          | inr (r, q, w) ↦
              elim (body-Ledgered clock digest hydrate_case ids now request s s1
                (done o false shown)
                (transaction-ok (execute_body clock digest hydrate_case ids now request) s s1 _
                  h)) [
                    | inl (f, _) ↦ absurd (cc f)
                    | inr (v, parts, well, _, (o', shown', e, new, added, x)) ↦
                        let same_outcome : o ≡ o' = ground arith in
                        let (kept, answer) =
                          body-Repeats clock digest hydrate_case ids' now' request v parts new s1 s2
                            r well
                            (receipt-front s1 request.guest_id request.idempotency_key new _ added
                              x.owner x.key)
                            x.fingerprint x.attempt w in
                        (
                          kept,
                          elim answer [
                            | inl a ↦ inr (inl (rw q (ap ok a)))
                            | inr (inl a) ↦ inr (inr (inl (rw q (ap ok a))))
                            | inr (inr (again, a)) ↦
                                inr (inr (inr (again, rw (q, a, x.outcome, same_outcome) refl)))
                          ],
                        )
                  ]
        ]

  -- A key whose receipt has another digest, or belongs to another attempt, refuses a well-formed
  -- request of a live session and changes no table.
  pub execute-conflict :
      (ids : FreshIds) (now : Instants) (request : GameplayCommandRequest) (v : ℕ)
      (parts : List Part) (prior : Receipt) (s : Store)
      → IsWellFormed request v parts
      → is_signed_out s request now ≡ false
      → receipt s request.guest_id request.idempotency_key ≡ some prior
      → (prior.command_fingerprint ≢ digest parts) ⊎ (prior.attempt_id ≢ some request.attempt_id)
      → execute_gameplay_command clock digest hydrate_case ids now request s
        ≡ (ok (refused idempotency_conflict), s)
  unfolding execute_gameplay_command execute_keyed transaction
  execute-conflict ids now request v parts prior s w live found different =
      rw (well_formed-execute clock digest hydrate_case ids now request v parts s w)
        (rw (live, found, differs digest prior request.attempt_id parts different) refl)

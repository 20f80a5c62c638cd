-- ===== src/Gameplay/Commands/Idempotence.antt =====
-- A key names one command of packages/database/src/gameplay/attempts.ts.
use loremaster.Prelude.{
  ℕ, ◌≡◌, refl, sym, ap, ◌∙◌, ◌⊎◌, Bool, true, false, not, ◌||◌, List, Option, none, some, String,
  Result, ok, ok-pair, inl, inr, Bool-cases, Option-cases, if◌then◌else◌, arith,
}
use loremaster.Prelude.Js.{Text}
use loremaster.Domain.Projections.{PrivateCaseFile, AttemptProjection}
use loremaster.Gameplay.{
  Store, Receipt, GameplayError, GameplayCommandRequest, session_expired, unknown_attempt,
  CommandResult, done, refused, Instants, FreshIds,
}
use loremaster.Gameplay.Rows.{lock_guest, session_is_live}
use loremaster.Gameplay.Receipts.{
  Part, receipt, safe_version, validate_key, command_parts, same_text, is_attempt,
}
use loremaster.Gameplay.Receipts.Found.{same_text_refl, is_attempt_refl}
use loremaster.Gameplay.Reconciliation.Keeps.{books}
use loremaster.Gameplay.Commands.{execute_keyed, execute_parts, execute_version, execute_body}
use loremaster.Gameplay.Commands.Ledger.{is_fresh, Writes, play_row-Settles, replay_row-Repeats}

-- What a request is when it passes the checks that need no table.
pub record IsWellFormed (request : GameplayCommandRequest) (v : ℕ) (parts : List Part)
    : Type 0 where
  pub key : validate_key request.idempotency_key ≡ true
  pub version : safe_version request.expected_version ≡ some v
  pub canonical : command_parts request.attempt_id v request.command ≡ some parts

-- The guest or the session is gone.
abbrev pub is_signed_out : Store → GameplayCommandRequest → Instants → Bool
is_signed_out s request now =
    not (lock_guest s request.guest_id)
    || not (session_is_live s request.guest_id request.session_id now.session_checked)

module _ (clock : ℕ → String) (digest : List Part → Text)
    (hydrate_case : String → Result GameplayError PrivateCaseFile) where
  pub well_formed-execute :
      (ids : FreshIds) (now : Instants) (request : GameplayCommandRequest) (v : ℕ)
      (parts : List Part) (s : Store)
      → IsWellFormed request v parts
      → execute_body clock digest hydrate_case ids now request s ≡ (
          if is_signed_out s request now
          then ok (refused session_expired, s)
          else execute_keyed clock digest hydrate_case ids now request v parts
              (receipt s request.guest_id request.idempotency_key)
              s)
  unfolding execute_body execute_version execute_parts
  well_formed-execute ids now request v parts s w =
      rw w.version (rw w.key (rw w.canonical (ground arith)))

  -- A request fails one of those checks and is refused, or passes them all.
  pub checked :
      (ids : FreshIds) (now : Instants) (request : GameplayCommandRequest) (s s' : Store)
      (r : CommandResult)
      → execute_body clock digest hydrate_case ids now request s ≡ ok (r, s')
      → ((is_fresh r ≡ false) × (s ≡ s'))
        ⊎ ((v : ℕ) × (parts : List Part) × IsWellFormed request v parts)
  unfolding execute_body execute_version execute_parts
  checked ids now request s s' r h = elim (Option-cases (safe_version request.expected_version)) [
    | inl e ↦ let (p, same) = ok-pair (rw e at h) in inl (rw (sym p) refl, same)
    | inr (v, e) ↦ elim (Bool-cases (validate_key request.idempotency_key)) [
      | inr k ↦ let (p, same) = ok-pair (rw (e, k) at h) in inl (rw (sym p) refl, same)
      | inl k ↦ elim (Option-cases (command_parts request.attempt_id v request.command)) [
        | inr (parts, c) ↦ inr (v, parts, record { key = k; version = e; canonical = c })
        | inl c ↦ elim (Bool-cases (is_signed_out s request now)) [
          | inl l ↦ let (p, same) = ok-pair (rw (e, k, l) at h) in inl (rw (sym p) refl, same)
          | inr l ↦ let (p, same) = ok-pair (rw (e, k, l, c) at h) in inl (rw (sym p) refl, same)
        ]
      ]
    ]
  ]

  execute_keyed-Settles :
      (ids : FreshIds) (now : Instants) (request : GameplayCommandRequest) (v : ℕ)
      (parts : List Part) (o : Option Receipt) (s s' : Store) (r : CommandResult)
      → execute_keyed clock digest hydrate_case ids now request v parts o s ≡ ok (r, s')
      → ((is_fresh r ≡ false) × (books s' ≡ books s))
        ⊎ ((o ≡ none) × Writes clock digest hydrate_case request parts v s r s')
  unfolding execute_keyed
  execute_keyed-Settles ids now request v parts none s s' r h =
      elim (play_row-Settles clock digest hydrate_case ids now request v parts _ s s' r refl h) [
        | inl q ↦ inl q
        | inr w ↦ inr (refl, w)
      ]
  execute_keyed-Settles ids now request v parts (some prior) s s' r h =
      elim (Bool-cases (
        not (same_text prior.command_fingerprint (digest parts))
        || not (is_attempt request.attempt_id prior.attempt_id))) [
          | inl e ↦
              let (p, same) = ok-pair (rw e at h) in inl (rw (sym p) refl, ap books (sym same))
          | inr e ↦
              let (kept, answer) =
                replay_row-Repeats clock digest hydrate_case now request prior _ s s' r
                  (rw e at h) in
              elim answer [ inl q ↦ inl (rw q refl, kept) | inr (shown, q) ↦ inl (rw q refl, kept) ]
        ]

  -- What a command wrote, once: nothing, or with a new outcome exactly one receipt under a key that
  -- had none.
  abbrev pub Ledgered : GameplayCommandRequest → Store → CommandResult → Store → Type 0
  Ledgered request s r s' =
      ((is_fresh r ≡ false) × (books s' ≡ books s))
      ⊎ ((v : ℕ) × (parts : List Part) × IsWellFormed request v parts
          × (receipt s request.guest_id request.idempotency_key ≡ none)
          × Writes clock digest hydrate_case request parts v s r s')

  pub body-Ledgered :
      (ids : FreshIds) (now : Instants) (request : GameplayCommandRequest) (s s' : Store)
      (r : CommandResult)
      → execute_body clock digest hydrate_case ids now request s ≡ ok (r, s')
      → Ledgered request s r s'
  body-Ledgered ids now request s s' r h = elim (checked ids now request s s' r h) [
    | inl (e, same) ↦ inl (e, ap books (sym same))
    | inr (v, parts, w) ↦
        let k = sym (well_formed-execute ids now request v parts s w) ∙ h in
        elim (Bool-cases (is_signed_out s request now)) [
          | inl l ↦
              let (p, same) = ok-pair (rw l at k) in inl (rw (sym p) refl, ap books (sym same))
          | inr l ↦ elim (execute_keyed-Settles ids now request v parts _ s s' r (rw l at k)) [
            | inl q ↦ inl q
            | inr (q, x) ↦ inr (v, parts, w, q, x)
          ]
        ]
  ]

  -- A request whose receipt is stored is answered from it, or refused for its session or attempt.
  pub body-Repeats :
      (ids : FreshIds) (now : Instants) (request : GameplayCommandRequest) (v : ℕ)
      (parts : List Part) (prior : Receipt) (s s' : Store) (r : CommandResult)
      → IsWellFormed request v parts
      → receipt s request.guest_id request.idempotency_key ≡ some prior
      → prior.command_fingerprint ≡ digest parts
      → prior.attempt_id ≡ some request.attempt_id
      → execute_body clock digest hydrate_case ids now request s ≡ ok (r, s')
      → (books s' ≡ books s)
        × ((r ≡ refused session_expired)
            ⊎ (r ≡ refused unknown_attempt)
            ⊎ ((shown : AttemptProjection) × (r ≡ done prior.outcome_code true shown)))
  unfolding execute_keyed
  body-Repeats ids now request v parts prior s s' r w found f a h =
      let k = sym (well_formed-execute ids now request v parts s w) ∙ h in
      elim (Bool-cases (is_signed_out s request now)) [
        | inl l ↦ let (p, same) = ok-pair (rw l at k) in (ap books (sym same), inl (sym p))
        | inr l ↦
            let (kept, answer) =
              replay_row-Repeats clock digest hydrate_case now request prior _ s s' r (
                rw
                  (
                    l,
                    found,
                    f,
                    a,
                    same_text_refl (digest parts),
                    is_attempt_refl request.attempt_id,
                  )
                  at k) in
            (kept, inr answer)
      ]

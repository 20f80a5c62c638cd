-- ===== src/Gameplay/Start/Validity.antt =====
-- Starting and reading attempts keeps them valid (packages/database/src/gameplay/attempts.ts).
use loremaster.Prelude.{
  ℕ, [], ◌≡◌, refl, sym, not, ◌&&◌, ◌||◌, str_eq, find, All, Bool-cases, Option, none, some, List,
  ◌∷◌, String, Result, ok, >>=-eq-ok, ok-pair, inl, inr, arith,
}
use mathlib.Core.Path.{subst}
use loremaster.Prelude.Js.{Text}
use loremaster.Domain.Attempt.Validity.{IsValid}
use loremaster.Domain.Projections.{PrivateCaseFile, AttemptProjection}
use loremaster.Gameplay.{
  Store, Receipt, Revision, StoredAttempt, AttemptRow, GameplayError, StartAttemptRequest,
  CommandResult, Instants, FreshIds,
}
use loremaster.Gameplay.Transactions.{transaction-cases}
use loremaster.Gameplay.Rows.{attempt_in_slot, lock_guest, session_is_live}
use loremaster.Gameplay.Receipts.{validate_key, Part, start_receipt_outcome, same_text, start_parts}
use loremaster.Gameplay.Reconciliation.{expire_if_closed}
use loremaster.Gameplay.Reconciliation.Keeps.{Elsewhere, Sound, expire_if_closed-Keeps}
use loremaster.Gameplay.Start.{
  new_attempt, insert_attempt, insert_unless, hydrate, refresh, start_receipt, start_row, start_in,
  restart_row, restart, is_start_kind, start_keyed, start_body, start_current_attempt, read_row,
  read_body, read_owned_attempt,
}

keeps : {s t : Store} → s ≡ t → Sound s → Sound t
keeps e v = subst (λ x. Sound x) e v

new-IsValid :
    (ids : FreshIds) (g : String) (r : Revision) (at : ℕ) → IsValid (new_attempt ids g r at).play
unfolding new_attempt
new-IsValid ids g r at = record {
  level_capped = omega arith;
  wrong_capped = omega arith;
  at_least_here = omega arith;
  at_most_behind = λ _. omega arith;
  exhausted_final = λ x. cc;
}

-- A slot in which no attempt of the guest was found has none.
none-Elsewhere :
    (a : StoredAttempt) (xs : List StoredAttempt)
    → find (λ x. str_eq x.guest_id a.guest_id && str_eq x.slot_id a.slot_id) xs ≡ none
    → All (Elsewhere a) xs
none-Elsewhere a [] h = tt
none-Elsewhere a (x ∷ xs) h =
    elim (Bool-cases (str_eq x.guest_id a.guest_id && str_eq x.slot_id a.slot_id)) [
      | inl e ↦ let k : some x ≡ none = rw e at h in absurd (cc k)
      | inr e ↦ (e, none-Elsewhere a xs (rw e at h))
    ]

insert_unless-Sound :
    (o : Option StoredAttempt) (a : StoredAttempt) (s : Store)
    → IsValid a.play
    → (o ≡ none → All (Elsewhere a) s.attempts)
    → Sound s
    → Sound (insert_unless o a s).1
unfolding insert_unless
insert_unless-Sound none a s w f v = ((w, v.0), (f refl, v.1))
insert_unless-Sound (some x) a s w f v = v

insert-Sound :
    (a : StoredAttempt) (s : Store) → IsValid a.play → Sound s → Sound (insert_attempt a s).1
unfolding insert_attempt attempt_in_slot
insert-Sound a s w v =
    insert_unless-Sound (attempt_in_slot s a.guest_id a.slot_id) a s w (none-Elsewhere a s.attempts)
      v

module _ (clock : ℕ → String) (digest : List Part → Text)
    (hydrate_case : String → Result GameplayError PrivateCaseFile) where
  refresh-Sound :
      (g : String) (row : AttemptRow) (t : ℕ) (s s' : Store) (shown : AttemptProjection)
      → Sound s
      → refresh clock digest hydrate_case g row t s ≡ ok (shown, s')
      → Sound s'
  unfolding refresh
  refresh-Sound g row t s s' shown v h =
      let ((current, s1), e, k) = >>=-eq-ok (expire_if_closed row t s) _ h in
      let (_, _, l) = >>=-eq-ok (hydrate clock digest hydrate_case s1 current g) _ k in
      keeps (ok-pair l).1 ((expire_if_closed-Keeps row t s s1 current e).still_sound v)

  start_row-Sound :
      (ids : FreshIds) (request : StartAttemptRequest) (o : Option AttemptRow) (s s' : Store)
      (r : CommandResult)
      → Sound s
      → start_row clock digest hydrate_case ids request o s ≡ ok (r, s')
      → Sound s'
  unfolding start_row
  start_row-Sound ids request none s s' r v h = absurd (cc h)
  start_row-Sound ids request (some row) s s' r v h =
      let s1 : Store = record s {
        receipts = start_receipt clock digest hydrate_case ids request row ∷ s.receipts;
      } in
      let (_, _, l) = >>=-eq-ok (hydrate clock digest hydrate_case s1 row request.guest_id) _ h in
      keeps (ok-pair l).1 v

  start_in-Sound :
      (ids : FreshIds) (now : Instants) (request : StartAttemptRequest) (o : Option Revision)
      (s s' : Store) (r : CommandResult)
      → Sound s
      → start_in clock digest hydrate_case ids now request o s ≡ ok (r, s')
      → Sound s'
  unfolding start_in
  start_in-Sound ids now request none s s' r v h = keeps (ok-pair h).1 v
  start_in-Sound ids now request (some revision) s s' r v h =
      let a = new_attempt ids request.guest_id revision now.sampled in
      start_row-Sound ids request _ (insert_attempt a s).1 s' r
        (insert-Sound a s (new-IsValid ids request.guest_id revision now.sampled) v) h

  restart_row-Sound :
      (now : Instants) (request : StartAttemptRequest) (o : Option AttemptRow) (s s' : Store)
      (r : CommandResult)
      → Sound s
      → restart_row clock digest hydrate_case now request o s ≡ ok (r, s')
      → Sound s'
  unfolding restart_row
  restart_row-Sound now request none s s' r v h = keeps (ok-pair h).1 v
  restart_row-Sound now request (some row) s s' r v h =
      let ((shown, s1), e, k) =
        >>=-eq-ok (refresh clock digest hydrate_case request.guest_id row now.sampled s) _ h in
      keeps (ok-pair k).1 (refresh-Sound request.guest_id row now.sampled s s1 shown v e)

  restart-Sound :
      (now : Instants) (request : StartAttemptRequest) (prior : Receipt) (o : Option String)
      (s s' : Store) (r : CommandResult)
      → Sound s
      → restart clock digest hydrate_case now request prior o s ≡ ok (r, s')
      → Sound s'
  unfolding restart
  restart-Sound now request prior none s s' r v h = keeps (ok-pair h).1 v
  restart-Sound now request prior (some id) s s' r v h =
      elim (Bool-cases (
        not (same_text prior.command_fingerprint (digest start_parts))
        || not (is_start_kind prior.command_kind))) [
          | inl e ↦ keeps (ok-pair (rw e at h)).1 v
          | inr e ↦
              let (_, _, k) = >>=-eq-ok (start_receipt_outcome prior) _ (rw e at h) in
              restart_row-Sound now request _ s s' r v k
        ]

  start_keyed-Sound :
      (ids : FreshIds) (now : Instants) (request : StartAttemptRequest) (o : Option Receipt)
      (s s' : Store) (r : CommandResult)
      → Sound s
      → start_keyed clock digest hydrate_case ids now request o s ≡ ok (r, s')
      → Sound s'
  unfolding start_keyed
  start_keyed-Sound ids now request (some prior) s s' r v h =
      restart-Sound now request prior prior.attempt_id s s' r v h
  start_keyed-Sound ids now request none s s' r v h = start_in-Sound ids now request _ s s' r v h

  body-Sound :
      (ids : FreshIds) (now : Instants) (request : StartAttemptRequest) (s s' : Store)
      (r : CommandResult)
      → Sound s
      → start_body clock digest hydrate_case ids now request s ≡ ok (r, s')
      → Sound s'
  unfolding start_body
  body-Sound ids now request s s' r v h =
      elim (Bool-cases (not (validate_key request.idempotency_key))) [
        | inl e ↦ keeps (ok-pair (rw e at h)).1 v
        | inr e ↦
            elim (Bool-cases (
              not (lock_guest s request.guest_id)
              || not (session_is_live s request.guest_id request.session_id now.session_checked))) [
                | inl d ↦ keeps (ok-pair (rw (e, d) at h)).1 v
                | inr d ↦ start_keyed-Sound ids now request _ s s' r v (rw (e, d) at h)
              ]
      ]

  read_row-Sound :
      (g : String) (now : Instants) (o : Option AttemptRow) (s s' : Store)
      (r : Option AttemptProjection)
      → Sound s
      → read_row clock digest hydrate_case g now o s ≡ ok (r, s')
      → Sound s'
  unfolding read_row
  read_row-Sound g now none s s' r v h = keeps (ok-pair h).1 v
  read_row-Sound g now (some row) s s' r v h =
      let ((shown, s1), e, k) =
        >>=-eq-ok (refresh clock digest hydrate_case g row now.sampled s) _ h in
      keeps (ok-pair k).1 (refresh-Sound g row now.sampled s s1 shown v e)

  read_body-Sound :
      (now : Instants) (guest_id attempt_id : String) (s s' : Store) (r : Option AttemptProjection)
      → Sound s
      → read_body clock digest hydrate_case now guest_id attempt_id s ≡ ok (r, s')
      → Sound s'
  unfolding read_body
  read_body-Sound now guest_id attempt_id s s' r v h =
      elim (Bool-cases (not (lock_guest s guest_id))) [
        | inl e ↦ keeps (ok-pair (rw e at h)).1 v
        | inr e ↦ read_row-Sound guest_id now _ s s' r v (rw e at h)
      ]

  -- Starting an attempt, however it ends, and reading one, which may expire it, leave a
  -- table of attempts in which every snapshot is valid and a guest has at most one attempt in a
  -- slot, if they find such a table.
  pub start-Sound :
      (ids : FreshIds) (now : Instants) (request : StartAttemptRequest)
      (guest_id attempt_id : String) (s : Store)
      → Sound s
      → Sound (start_current_attempt clock digest hydrate_case ids now request s).1
        × Sound (read_owned_attempt clock digest hydrate_case now guest_id attempt_id s).1
  unfolding start_current_attempt read_owned_attempt
  start-Sound ids now request guest_id attempt_id s v = (
    elim (transaction-cases (start_body clock digest hydrate_case ids now request) s _ _ refl) [
      | inl (_, _, same) ↦ keeps (sym same) v
      | inr (r, _, w) ↦ body-Sound ids now request s _ r v w
    ],
    elim (transaction-cases (read_body clock digest hydrate_case now guest_id attempt_id) s _ _
        refl) [
          | inl (_, _, same) ↦ keeps (sym same) v
          | inr (r, _, w) ↦ read_body-Sound now guest_id attempt_id s _ r v w
        ],
  )

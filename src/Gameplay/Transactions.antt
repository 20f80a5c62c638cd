-- ===== src/Gameplay/Transactions.antt =====
-- A transaction of packages/database/src/gameplay/runtime.ts commits or changes nothing.
use loremaster.Prelude.{◌≡◌, sym, ap, ◌⊎◌, inl, inr, Result, ok, err, arith}
use loremaster.Gameplay.{Store, GameplayError, finish, transaction}

finish-cases :
    {A : Type 0} (r : Result GameplayError (A × Store)) (s s' : Store)
    (res : Result GameplayError A)
    → finish s r ≡ (res, s')
    → ((e : GameplayError) × (res ≡ err e) × (s' ≡ s)) ⊎ ((a : A) × (res ≡ ok a) × (r ≡ ok (a, s')))
unfolding finish
finish-cases (err e) s s' res h = inl (e, sym (ap (λ x. x.0) h), sym (ap (λ x. x.1) h))
finish-cases (ok (a, s1)) s s' res h =
    inr (a, sym (ap (λ x. x.0) h), ap (λ x. ok (a, x)) (ap (λ x. x.1) h))

pub transaction-cases :
    {A : Type 0} (work : Store → Result GameplayError (A × Store)) (s s' : Store)
    (res : Result GameplayError A)
    → transaction work s ≡ (res, s')
    → ((e : GameplayError) × (res ≡ err e) × (s' ≡ s))
      ⊎ ((a : A) × (res ≡ ok a) × (work s ≡ ok (a, s')))
unfolding transaction
transaction-cases work s s' res h = finish-cases (work s) s s' res h

pub transaction-ok :
    {A : Type 0} (work : Store → Result GameplayError (A × Store)) (s s' : Store) (a : A)
    → transaction work s ≡ (ok a, s')
    → work s ≡ ok (a, s')
transaction-ok work s s' a h = elim (transaction-cases work s s' (ok a) h) [
  | inl (e, q, _) ↦ absurd (cc q)
  | inr (b, q, w) ↦ let same : a ≡ b = ground arith in rw same w
]

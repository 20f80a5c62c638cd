-- ===== src/Identity/Retries.antt =====
-- The tries of createGuestSession in packages/database/src/identity/session-repository.ts.
use loremaster.Prelude.{
  ℕ, suc, zero, ◌≤◌, ◌≡◌, inl, inr, refl, sym, ap, ◌∙◌, true, false, Option, none, some, Result, ok,
  err, some_inj, Bool-cases, ℕ_discrete, arith,
}
use loremaster.Prelude.Js.{Text}
use loremaster.Identity.{
  Tables, CreatedGuestSession, Draw, Trouble, timeout, failure, unique_violation, IdentityError,
  collides, inserted, created, insert_or_refuse, create_once, after_try, create_with,
  create_guest_session,
}

module _ (hash_secret : Text → Text) (draw : ℕ → Draw) (now : ℕ → ℕ)
    (trouble : ℕ → Option Trouble) where
  abbrev pub Succeeds : Result IdentityError CreatedGuestSession × Tables → Type 0
  Succeeds r = (c : CreatedGuestSession) × (r.0 ≡ ok c)

  -- The tries that are left meet no trouble.
  abbrev Calm : ℕ → Type 0
  Calm left = (k : ℕ) → k ≤ left → trouble k ≡ none

  try_free :
      (k : ℕ) (rest : Option (Result IdentityError CreatedGuestSession × Tables)) (s : Tables)
      → trouble k ≡ none
      → collides hash_secret (draw k) s ≡ false
      → Succeeds (
          after_try hash_secret draw now trouble
            (create_once hash_secret (draw k) (now k) (trouble k) s)
            rest
            s)
  unfolding after_try create_once insert_or_refuse
  try_free k rest s h f = (created hash_secret (draw k) (now k), rw (h, f) refl)

  try_taken :
      (k : ℕ) (rest : Result IdentityError CreatedGuestSession × Tables) (s : Tables)
      → trouble k ≡ none
      → collides hash_secret (draw k) s ≡ true
      → after_try hash_secret draw now trouble
          (create_once hash_secret (draw k) (now k) (trouble k) s)
          (some rest)
          s
        ≡ rest
  unfolding after_try create_once insert_or_refuse
  try_taken k rest s h f = rw (h, f) refl

  create_with-Succeeds :
      (left k : ℕ) (s : Tables)
      → k ≤ left
      → Calm left
      → collides hash_secret (draw k) s ≡ false
      → Succeeds (create_with hash_secret draw now trouble left s)
  unfolding create_with
  create_with-Succeeds zero k s l calm f =
      let z : k ≡ zero = omega (arith, l) in
      try_free zero none s (calm zero (omega arith))
        (ap (λ i. collides hash_secret (draw i) s) (sym z) ∙ f)
  create_with-Succeeds (suc left) k s l calm f =
      elim (Bool-cases (collides hash_secret (draw (suc left)) s)) [
        | inr e ↦
            try_free (suc left) (some (create_with hash_secret draw now trouble left s)) s
              (calm (suc left) (omega arith)) e
        | inl e ↦ elim (ℕ_discrete k (suc left)) [
          | yes q ↦ absurd (cc (sym e ∙ ap (λ i. collides hash_secret (draw i) s) (sym q) ∙ f))
          | no q ↦
              rw
                (try_taken (suc left) (create_with hash_secret draw now trouble left s) s
                  (calm (suc left) (omega arith)) e)
                (create_with-Succeeds left k s (omega (arith, l, q))
                  (λ i h. calm i (omega (arith, h))) f)
        ]
      ]

  taken :
      (rest : Option (Result IdentityError CreatedGuestSession × Tables)) (s s' : Tables)
      (x : IdentityError)
      → ((r : Result IdentityError CreatedGuestSession × Tables)
          → rest ≡ some r
          → r ≡ (err x, s')
          → s' ≡ s)
      → after_try hash_secret draw now trouble (err unique_violation) rest s ≡ (err x, s')
      → s' ≡ s
  unfolding after_try
  taken none s s' x ih h = sym (ap (λ z. z.1) h)
  taken (some r) s s' x ih h = ih r refl h

  try_fails :
      (k : ℕ) (t : Option Trouble)
      (rest : Option (Result IdentityError CreatedGuestSession × Tables)) (s s' : Tables)
      (x : IdentityError)
      → ((r : Result IdentityError CreatedGuestSession × Tables)
          → rest ≡ some r
          → r ≡ (err x, s')
          → s' ≡ s)
      → after_try hash_secret draw now trouble (create_once hash_secret (draw k) (now k) t s) rest s
        ≡ (err x, s')
      → s' ≡ s
  unfolding after_try create_once insert_or_refuse
  try_fails k (some timeout) rest s s' x ih h = sym (ap (λ z. z.1) h)
  try_fails k (some failure) rest s s' x ih h = sym (ap (λ z. z.1) h)
  try_fails k none rest s s' x ih h = elim (Bool-cases (collides hash_secret (draw k) s)) [
    | inr e ↦
        let j : ◌≡◌ {A = Result IdentityError CreatedGuestSession × Tables}
            (ok (created hash_secret (draw k) (now k)), inserted hash_secret (draw k) (now k) s)
            (err x, s') =
          rw e at h in
        absurd (cc (ap (λ z. z.0) j))
    | inl e ↦ taken rest s s' x ih (rw e at h)
  ]

  create_with-fails :
      (left : ℕ) (s s' : Tables) (x : IdentityError)
      → create_with hash_secret draw now trouble left s ≡ (err x, s')
      → s' ≡ s
  unfolding create_with
  create_with-fails zero s s' x h =
      try_fails zero (trouble zero) none s s' x (λ r e j. absurd (cc e)) h
  create_with-fails (suc left) s s' x h =
      try_fails (suc left) (trouble (suc left))
        (some (create_with hash_secret draw now trouble left s)) s s' x
        (λ r e j. create_with-fails left s s' x (some_inj e ∙ j)) h

  -- A creation is over after three tries. When the database has no trouble in them and the keys of
  -- one of the three draws are free, a session is created; and a creation that fails, for whatever
  -- reason, leaves the tables as they were.
  pub create_guest_session-Succeeds :
      (s : Tables)
      → ((k : ℕ)
          → k ≤ 2
          → ((i : ℕ) → i ≤ 2 → trouble i ≡ none)
          → collides hash_secret (draw k) s ≡ false
          → Succeeds (create_guest_session hash_secret draw now trouble s))
        × ((x : IdentityError) (s' : Tables)
            → create_guest_session hash_secret draw now trouble s ≡ (err x, s')
            → s' ≡ s)
  unfolding create_guest_session
  create_guest_session-Succeeds s =
      (λ k l calm f. create_with-Succeeds 2 k s l calm f, λ x s' h. create_with-fails 2 s s' x h)

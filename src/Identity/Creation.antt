-- ===== src/Identity/Creation.antt =====
-- What the creation of a session by packages/database/src/identity/session-repository.ts brings.
use loremaster.Prelude.{
  ℕ, suc, zero, ◌+◌, ◌<◌, ◌≡◌, inl, inr, refl, sym, ap, ◌∙◌, Bool, true, false, ◌&&◌, ◌||◌, List,
  [], ◌∷◌, Option, none, some, String, str_eq, str_eq_iff, Result, ok, err, some_inj, Bool-cases,
  any, find, find-holds, ltb, lt→ltb,
}
use loremaster.Prelude.Js.{Text, same_text, same_text_iff}
use loremaster.Api.Cookies.{is_token}
use loremaster.Identity.{
  GuestRow, SessionRow, Tables, AuthenticatedSession, CreatedGuestSession, Draw, Trouble, timeout,
  failure, IdentityError, session_persistence_failed, thirty_days, collides, inserted, created,
  insert_or_refuse, create_once, after_try, create_with, create_guest_session, session_of, joined,
  is_live, find_session, read_session, authenticate_session, verify_session_csrf_token,
}

ok-inj : {E A : Type 0} {a b : A} → ◌≡◌ {A = Result E A} (ok a) (ok b) → a ≡ b
ok-inj h = cc

||-false : (b c : Bool) → (b || c) ≡ false → (b ≡ false) × (c ≡ false)
||-false true c h = absurd (cc h)
||-false false c h = (refl, h)

&&-true : (b c : Bool) → (b && c) ≡ true → (b ≡ true) × (c ≡ true)
&&-true true c h = (refl, h)
&&-true false c h = absurd (cc h)

-- An item that a search finds passes its test, and fails one that every item fails.
find-fails :
    {A : Type 0} (p q : A → Bool) (xs : List A) {x : A}
    → any p xs ≡ false
    → find q xs ≡ some x
    → p x ≡ false
find-fails p q [] h k = absurd (cc k)
find-fails p q (y ∷ ys) {x} h k =
    let n = ||-false (p y) (any p ys) h in
    elim (Bool-cases (q y)) [
      | inl e ↦ let j : y ≡ x = some_inj (rw e at k) in ap p (sym j) ∙ n.0
      | inr e ↦ find-fails p q ys n.1 (rw e at k)
    ]

apart_of : (a h k : Text) → same_text a h ≡ true → same_text a k ≡ false → same_text k h ≡ false
apart_of a h k x y = elim (Bool-cases (same_text k h)) [
  | inl e ↦
      let p : a ≡ k = (same_text_iff a h).0 x ∙ sym ((same_text_iff k h).0 e) in
      absurd (cc (sym y ∙ (same_text_iff a k).1 p))
  | inr e ↦ e
]

other_of : (a b c : String) → str_eq a b ≡ true → str_eq a c ≡ false → str_eq c b ≡ false
other_of a b c x y = elim (Bool-cases (str_eq c b)) [
  | inl e ↦
      let p : a ≡ c = (str_eq_iff a b).0 x ∙ sym ((str_eq_iff c b).0 e) in
      absurd (cc (sym y ∙ (str_eq_iff a c).1 p))
  | inr e ↦ e
]

module _ (hash_secret : Text → Text) where
  -- One of the draws made the session: its keys were free, and it was inserted.
  abbrev pub FromDraw : (ℕ → Draw) → (ℕ → ℕ) → Tables → CreatedGuestSession → Tables → Type 0
  FromDraw draw now s c s' =
      (k : ℕ) × (collides hash_secret (draw k) s ≡ false)
      × (c ≡ created hash_secret (draw k) (now k))
      × (s' ≡ inserted hash_secret (draw k) (now k) s)

  try-FromDraw :
      (draw : ℕ → Draw) (now : ℕ → ℕ) (trouble : ℕ → Option Trouble) (k : ℕ) (t : Option Trouble)
      (rest : Option (Result IdentityError CreatedGuestSession × Tables)) (s s' : Tables)
      (c : CreatedGuestSession)
      → ((r : Result IdentityError CreatedGuestSession × Tables)
          → rest ≡ some r
          → r ≡ (ok c, s')
          → FromDraw draw now s c s')
      → after_try hash_secret draw now trouble (create_once hash_secret (draw k) (now k) t s) rest s
        ≡ (ok c, s')
      → FromDraw draw now s c s'
  unfolding after_try create_once insert_or_refuse
  try-FromDraw draw now trouble k (some timeout) rest s s' c ih h = absurd (cc (ap (λ x. x.0) h))
  try-FromDraw draw now trouble k (some failure) rest s s' c ih h = absurd (cc (ap (λ x. x.0) h))
  try-FromDraw draw now trouble k none none s s' c ih h =
      elim (Bool-cases (collides hash_secret (draw k) s)) [
        | inl e ↦
            let j : ◌≡◌ {A = Result IdentityError CreatedGuestSession × Tables}
                (err session_persistence_failed, s) (ok c, s') =
              rw e at h in
            absurd (cc (ap (λ x. x.0) j))
        | inr e ↦
            let j : ◌≡◌ {A = Result IdentityError CreatedGuestSession × Tables}
                (ok (created hash_secret (draw k) (now k)), inserted hash_secret (draw k) (now k) s)
                (ok c, s') =
              rw e at h in
            (k, e, ok-inj (ap (λ x. x.0) (sym j)), ap (λ x. x.1) (sym j))
      ]
  try-FromDraw draw now trouble k none (some r) s s' c ih h =
      elim (Bool-cases (collides hash_secret (draw k) s)) [
        | inl e ↦ ih r refl (rw e at h)
        | inr e ↦
            let j : ◌≡◌ {A = Result IdentityError CreatedGuestSession × Tables}
                (ok (created hash_secret (draw k) (now k)), inserted hash_secret (draw k) (now k) s)
                (ok c, s') =
              rw e at h in
            (k, e, ok-inj (ap (λ x. x.0) (sym j)), ap (λ x. x.1) (sym j))
      ]

  create_with-FromDraw :
      (draw : ℕ → Draw) (now : ℕ → ℕ) (trouble : ℕ → Option Trouble) (left : ℕ) (s s' : Tables)
      (c : CreatedGuestSession)
      → create_with hash_secret draw now trouble left s ≡ (ok c, s')
      → FromDraw draw now s c s'
  unfolding create_with
  create_with-FromDraw draw now trouble zero s s' c h =
      try-FromDraw draw now trouble zero (trouble zero) none s s' c (λ r e j. absurd (cc e)) h
  create_with-FromDraw draw now trouble (suc left) s s' c h =
      try-FromDraw draw now trouble (suc left) (trouble (suc left))
        (some (create_with hash_secret draw now trouble left s)) s s' c
        (λ r e j. create_with-FromDraw draw now trouble left s s' c (some_inj e ∙ j)) h

  found :
      (o : Option GuestRow) (row : SessionRow) (x : AuthenticatedSession)
      → session_of hash_secret row o ≡ some x
      → (g : GuestRow) × (o ≡ some g) × (session_of hash_secret row (some g) ≡ some x)
  unfolding session_of
  found none row x h = absurd (cc h)
  found (some g) row x h = (g, refl, h)

  joined-some :
      (guests : List GuestRow) (o : Option SessionRow) (x : AuthenticatedSession)
      → joined hash_secret guests o ≡ some x
      → (row : SessionRow) × (o ≡ some row)
        × ((g : GuestRow) × (find (λ g. str_eq g.id row.guest_id) guests ≡ some g)
            × (session_of hash_secret row (some g) ≡ some x))
  unfolding joined
  joined-some guests none x h = absurd (cc h)
  joined-some guests (some row) x h =
      (row, refl, found (find (λ g. str_eq g.id row.guest_id) guests) row x h)

  -- The new session is found by its token until it expires.
  inserted-found :
      (d : Draw) (now t : ℕ) (s : Tables)
      → t < now + thirty_days
      → find_session hash_secret
          (hash_secret d.authentication_token)
          t
          (inserted hash_secret d now s)
        ≡ some (created hash_secret d now).session
  unfolding find_session inserted created joined session_of is_live
  inserted-found d now t s h =
      rw
        (
          (same_text_iff (hash_secret d.authentication_token)
                (hash_secret d.authentication_token)).1
              refl,
          lt→ltb t (now + thirty_days) h,
          (str_eq_iff d.guest_id d.guest_id).1 refl,
        )
        refl

  -- A session that was found before is still found.
  row-keeps :
      (d : Draw) (now t : ℕ) (hash : Text) (s : Tables) (x : AuthenticatedSession)
      (row : SessionRow) (g : GuestRow)
      → collides hash_secret d s ≡ false
      → find (is_live hash_secret hash t) s.sessions ≡ some row
      → find (λ g. str_eq g.id row.guest_id) s.guests ≡ some g
      → session_of hash_secret row (some g) ≡ some x
      → find_session hash_secret hash t (inserted hash_secret d now s) ≡ some x
  unfolding find_session inserted collides joined is_live
  row-keeps d now t hash s x row g free e f j =
      let n = ||-false (any (λ g. str_eq g.id d.guest_id) s.guests) _ free in
      let other = ||-false (str_eq row.id d.session_id) _ (
        find-fails
          (λ x.
            str_eq x.id d.session_id || same_text x.token_hash (hash_secret d.authentication_token))
          (is_live hash_secret hash t) s.sessions n.1 e) in
      let live =
        &&-true (same_text row.token_hash hash) (ltb t row.expires_at)
          (find-holds (is_live hash_secret hash t) s.sessions e) in
      let apart : same_text (hash_secret d.authentication_token) hash ≡ false =
        apart_of row.token_hash hash (hash_secret d.authentication_token) live.0 other.1 in
      let guest : str_eq d.guest_id row.guest_id ≡ false =
        other_of g.id row.guest_id d.guest_id
          (find-holds (λ g. str_eq g.id row.guest_id) s.guests f)
          (find-fails (λ g. str_eq g.id d.guest_id) (λ g. str_eq g.id row.guest_id) s.guests n.0
            f) in
      rw (apart, e, guest, f) j

  inserted-keeps :
      (d : Draw) (now t : ℕ) (hash : Text) (s : Tables) (x : AuthenticatedSession)
      → collides hash_secret d s ≡ false
      → find_session hash_secret hash t s ≡ some x
      → find_session hash_secret hash t (inserted hash_secret d now s) ≡ some x
  unfolding find_session
  inserted-keeps d now t hash s x free h =
      let (row, e, (g, f, j)) =
        joined-some s.guests (find (is_live hash_secret hash t) s.sessions) x h in
      row-keeps d now t hash s x row g free e f j

  authenticate-found :
      (token : Text) (t : ℕ) (s : Tables) (x : AuthenticatedSession)
      → is_token token ≡ true
      → find_session hash_secret (hash_secret token) t s ≡ some x
      → authenticate_session hash_secret token t none s ≡ ok (some x)
  unfolding authenticate_session read_session
  authenticate-found token t s x h k = rw (h, k) refl

  found-authenticate :
      (token : Text) (t : ℕ) (s : Tables) (x : AuthenticatedSession)
      → authenticate_session hash_secret token t none s ≡ ok (some x)
      → (is_token token ≡ true) × (find_session hash_secret (hash_secret token) t s ≡ some x)
  unfolding authenticate_session read_session
  found-authenticate token t s x h = elim (Bool-cases (is_token token)) [
    | inl e ↦
        let k : ◌≡◌ {A = Result IdentityError (Option AuthenticatedSession)}
            (ok (find_session hash_secret (hash_secret token) t s)) (ok (some x)) =
          rw e at h in
        (e, ok-inj k)
    | inr e ↦
        let k : ◌≡◌ {A = Result IdentityError (Option AuthenticatedSession)} (ok none)
            (ok (some x)) =
          rw e at h in
        absurd (cc k)
  ]

  -- The session is authenticated by its token until it expires, it verifies its csrf token, and
  -- every session that was authenticated before still is.
  abbrev pub IsUsable : Tables → CreatedGuestSession → Tables → Type 0
  IsUsable s c s' =
      ((t : ℕ)
        → t < c.session.expires_at
        → authenticate_session hash_secret c.authentication_token t none s' ≡ ok (some c.session))
      × (verify_session_csrf_token hash_secret c.session c.csrf_token ≡ true)
      × ((token : Text) (t : ℕ) (x : AuthenticatedSession)
          → authenticate_session hash_secret token t none s ≡ ok (some x)
          → authenticate_session hash_secret token t none s' ≡ ok (some x))

  draw-IsUsable :
      (d : Draw) (now : ℕ) (s : Tables)
      → is_token d.authentication_token ≡ true
      → is_token d.csrf_token ≡ true
      → collides hash_secret d s ≡ false
      → IsUsable s (created hash_secret d now) (inserted hash_secret d now s)
  unfolding created verify_session_csrf_token
  draw-IsUsable d now s a b free = (
    λ t h.
        authenticate-found d.authentication_token t (inserted hash_secret d now s)
          (created hash_secret d now).session a (inserted-found d now t s h),
    rw (b, (same_text_iff (hash_secret d.csrf_token) (hash_secret d.csrf_token)).1 refl) refl,
    λ token t x h.
        let k = found-authenticate token t s x h in
        authenticate-found token t (inserted hash_secret d now s) x k.0
          (inserted-keeps d now t (hash_secret token) s x free k.1),
  )

  -- When the drawn secrets have the form of a token, a session that is created is authenticated by
  -- its authentication token at every time before it expires, and found as it was returned; its
  -- csrf token is verified; and every session that a token authenticated before the creation is
  -- still the one that this token authenticates. So it is whatever try succeeded.
  pub create_guest_session-IsUsable :
      (draw : ℕ → Draw) (now : ℕ → ℕ) (trouble : ℕ → Option Trouble) (s s' : Tables)
      (c : CreatedGuestSession)
      → ((k : ℕ)
          → (is_token (draw k).authentication_token ≡ true) × (is_token (draw k).csrf_token ≡ true))
      → create_guest_session hash_secret draw now trouble s ≡ (ok c, s')
      → IsUsable s c s'
  unfolding create_guest_session
  create_guest_session-IsUsable draw now trouble s s' c tokens h =
      let (k, free, e, f) = create_with-FromDraw draw now trouble 2 s s' c h in
      rw (e, f) (draw-IsUsable (draw k) (now k) s (tokens k).0 (tokens k).1 free)

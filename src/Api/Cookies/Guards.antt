-- ===== src/Api/Cookies/Guards.antt =====
-- What a request carries when the controls of apps/api/src/security let it pass.
use loremaster.Prelude.{
  ℕ, Bool, true, false, ◌&&◌, ◌≡◌, ◌<◌, ◌↔◌, inl, inr, refl, sym, ap, ◌∙◌, List, [], ◌∷◌, Option,
  none, some, Bool-cases, leb, arith,
}
use mathlib.Core.Path.{subst}
use loremaster.Prelude.Js.{Text, split, same_text, same_text_iff}
use loremaster.Api.RateLimit.{Operation, gameplay_mutation, auth}
use loremaster.Api.Cookies.{
  CookieRead, missing, repeated, value, named_value, found, repeat, visit, scan, read_header,
  SecurityRequest, read_unique_cookie, is_token, proceed, fail, request_forbidden, tokens_agree,
  csrf_passes, csrf_under, csrf_control, Authentication, authenticated, unauthenticated, timed_out,
  failed, Outcome, sign_out, admit, authenticate_cookie, checked, authenticate_under,
  authentication_control,
}

-- A value that a part of the header has, in front of those of the parts after it.
abbrev pub add_value : Option Text → List Text → List Text
add_value none values = values
add_value (some v) values = v ∷ values

-- All values of the cookie in the parts of a header.
abbrev pub named_values : Text → List Text → List Text
named_values name [] = []
named_values name (part ∷ parts) = add_value (named_value name part) (named_values name parts)

-- None is missing, one is read, and more are refused.
abbrev classify : List Text → CookieRead
classify [] = missing
classify (v ∷ []) = value v
classify (v ∷ w ∷ values) = repeated

visit-after :
    (o : Option Text) (v : Text) (next : Option Text → CookieRead) (values : List Text)
    → next (some v) ≡ classify (v ∷ values)
    → visit o (some v) next ≡ classify (v ∷ add_value o values)
unfolding visit repeat
visit-after none v next values h = h
visit-after (some w) v next values h = refl

scan-after :
    (name : Text) (parts : List Text) (v : Text)
    → scan name parts (some v) ≡ classify (v ∷ named_values name parts)
unfolding scan found
scan-after name [] v = refl
scan-after name (part ∷ parts) v =
    visit-after (named_value name part) v (scan name parts) (named_values name parts)
      (scan-after name parts v)

visit-first :
    (o : Option Text) (next : Option Text → CookieRead) (values : List Text)
    → next none ≡ classify values
    → ((w : Text) → next (some w) ≡ classify (w ∷ values))
    → visit o none next ≡ classify (add_value o values)
unfolding visit repeat
visit-first none next values h k = h
visit-first (some w) next values h k = k w

scan-classify :
    (name : Text) (parts : List Text) → scan name parts none ≡ classify (named_values name parts)
unfolding scan found
scan-classify name [] = refl
scan-classify name (part ∷ parts) =
    visit-first (named_value name part) (scan name parts) (named_values name parts)
      (scan-classify name parts) (scan-after name parts)

-- The cookie stands in the header once, with this value.
abbrev pub IsSole : SecurityRequest → Text → Text → Type 0
IsSole request name v =
    (header : Text) × (request.cookie_header ≡ some header)
    × (named_values name (split b';' header) ≡ v ∷ [])

classify-value : (values : List Text) (v : Text) → classify values ≡ value v → values ≡ v ∷ []
classify-value [] v h = absurd (cc h)
classify-value (w ∷ []) v h = ground (arith, h)
classify-value (w ∷ x ∷ values) v h = absurd (cc h)

header-value :
    (name : Text) (o : Option Text) (v : Text)
    → read_header name o ≡ value v
    → (header : Text) × (o ≡ some header) × (named_values name (split b';' header) ≡ v ∷ [])
unfolding read_header
header-value name none v h = absurd (cc h)
header-value name (some header) v h = (
  header,
  refl,
  classify-value (named_values name (split b';' header)) v
      (sym (scan-classify name (split b';' header)) ∙ h),
)

read-IsSole :
    (request : SecurityRequest) (name v : Text)
    → read_unique_cookie request name ≡ value v
    → IsSole request name v
unfolding read_unique_cookie
read-IsSole request name v h = header-value name request.cookie_header v h

IsSole-read :
    (request : SecurityRequest) (name v : Text)
    → IsSole request name v
    → read_unique_cookie request name ≡ value v
unfolding read_unique_cookie read_header
IsSole-read request name v (header, e, h) =
    rw e (scan-classify name (split b';' header) ∙ ap classify h)

&&-true : (b c : Bool) → (b && c) ≡ true → (b ≡ true) × (c ≡ true)
&&-true true c h = (refl, h)
&&-true false c h = absurd (cc h)

some-inj : {A : Type 0} {a b : A} → some a ≡ some b → a ≡ b
some-inj h = cc

leb-false : (e now : ℕ) → leb e now ≡ false → now < e
leb-false e now h = ground arith

module _ {Session : Type 0} (authenticate : Text → Authentication Session)
    (verify_csrf_token : Session → Text → Bool) where
  -- The request belongs to the session: its cookie is a token that the store knows and that has
  -- not expired.
  abbrev pub IsSignedIn : Text → ℕ → SecurityRequest → Session → Type 0
  IsSignedIn session_name now request s =
      (token : Text) × (expires_at : ℕ) × IsSole request session_name token
      × (is_token token ≡ true)
      × (authenticate token ≡ authenticated s expires_at)
      × (now < expires_at)

  -- The page that sent the request could read the cookie of the session's token.
  abbrev pub IsSameSite : Text → SecurityRequest → Session → Type 0
  IsSameSite csrf_name request s =
      (token : Text) × IsSole request csrf_name token
      × (request.csrf_header ≡ some token)
      × (is_token token ≡ true)
      × (verify_csrf_token s token ≡ true)

  -- The outcome lets the request pass in this session.
  abbrev Admits : Outcome Session → Session → Type 0
  Admits o s = (o.next ≡ proceed) × (o.session ≡ some s)

  sign_out-Admits : (s : Session) → Admits (sign_out authenticate) s → ⊥
  unfolding sign_out
  sign_out-Admits s (h, _) = cc

  admit-Admits :
      (now : ℕ) (a : Authentication Session) (s : Session)
      → Admits (admit authenticate now a) s
      → (e : ℕ) × (a ≡ authenticated s e) × (now < e)
  unfolding admit
  admit-Admits now (authenticated s' e) s h = elim (Bool-cases (leb e now)) [
    | inl x ↦ absurd (sign_out-Admits s (rw x at h))
    | inr x ↦ (
      e,
      let k : Admits (record { session = some s'; cleared = false; next = proceed }) s =
            rw x at h in
          ap (λ z. authenticated z e) (some-inj k.1),
      leb-false e now x,
    )
  ]
  admit-Admits now unauthenticated s h = absurd (sign_out-Admits s h)
  admit-Admits now timed_out s (h, _) = absurd (cc h)
  admit-Admits now failed s (h, _) = absurd (cc h)

  Admits-cookie :
      (now : ℕ) (c : CookieRead) (s : Session)
      → Admits (authenticate_cookie authenticate now c) s
      → (token : Text) × (e : ℕ) × (c ≡ value token)
        × (is_token token ≡ true)
        × (authenticate token ≡ authenticated s e)
        × (now < e)
  unfolding authenticate_cookie
  Admits-cookie now missing s h = absurd (sign_out-Admits s h)
  Admits-cookie now repeated s h = absurd (sign_out-Admits s h)
  Admits-cookie now (value token) s h = elim (Bool-cases (is_token token)) [
    | inl x ↦
        let (e, a, l) = admit-Admits now (authenticate token) s (rw x at h) in
        (token, e, refl, x, a, l)
    | inr x ↦ absurd (sign_out-Admits s (rw x at h))
  ]

  checked-IsSignedIn :
      (session_name : Text) (now : ℕ) (request : SecurityRequest) (s : Session)
      → Admits (checked authenticate session_name now request) s
      → IsSignedIn session_name now request s
  unfolding checked
  checked-IsSignedIn session_name now request s h =
      let (token, e, r, t, a, l) =
        Admits-cookie now (read_unique_cookie request session_name) s h in
      (token, e, read-IsSole request session_name token r, t, a, l)

  leb-later : (e now : ℕ) → now < e → leb e now ≡ false
  leb-later e now h = ground arith

  IsSignedIn-checked :
      (session_name : Text) (now : ℕ) (request : SecurityRequest) (s : Session)
      → IsSignedIn session_name now request s
      → Admits (checked authenticate session_name now request) s
  unfolding checked authenticate_cookie admit
  IsSignedIn-checked session_name now request s (token, e, r, t, a, l) =
      rw (IsSole-read request session_name token r, t, a, leb-later e now l) (refl, refl)

  agree-cases :
      (s : Session) (header cookie : Text)
      → tokens_agree verify_csrf_token s header cookie ≡ true
      → (header ≡ cookie) × (is_token header ≡ true) × (verify_csrf_token s header ≡ true)
  unfolding tokens_agree
  agree-cases s header cookie h =
      let a =
        &&-true (is_token header && is_token cookie && same_text header cookie)
          (verify_csrf_token s header) h in
      let b = &&-true (is_token header && is_token cookie) (same_text header cookie) a.0 in
      let c = &&-true (is_token header) (is_token cookie) b.0 in
      ((same_text_iff header cookie).0 b.1, c.0, a.1)

  passes-IsSameSite :
      (o : Option Text) (c : CookieRead) (s : Session)
      → csrf_passes verify_csrf_token (some s) o c ≡ true
      → (token : Text) × (c ≡ value token)
        × (o ≡ some token)
        × (is_token token ≡ true)
        × (verify_csrf_token s token ≡ true)
  unfolding csrf_passes
  passes-IsSameSite none c s h = absurd (cc h)
  passes-IsSameSite (some header) missing s h = absurd (cc h)
  passes-IsSameSite (some header) repeated s h = absurd (cc h)
  passes-IsSameSite (some header) (value cookie) s h =
      let (e, t, v) = agree-cases s header cookie h in (header, ap value (sym e), refl, t, v)

  csrf-IsSameSite :
      (csrf_name : Text) (request : SecurityRequest) (s : Session)
      → csrf_under verify_csrf_token gameplay_mutation csrf_name (some s) request ≡ proceed
      → IsSameSite csrf_name request s
  unfolding csrf_under
  csrf-IsSameSite csrf_name request s h =
      elim (Bool-cases (
        csrf_passes verify_csrf_token (some s) request.csrf_header
          (read_unique_cookie request csrf_name))) [
            | inl x ↦
                let (token, r, e, t, v) =
                  passes-IsSameSite request.csrf_header (read_unique_cookie request csrf_name) s
                    x in
                (token, read-IsSole request csrf_name token r, e, t, v)
            | inr x ↦ let k : fail request_forbidden ≡ proceed = rw x at h in absurd (cc k)
          ]

  IsSameSite-csrf :
      (csrf_name : Text) (request : SecurityRequest) (s : Session)
      → IsSameSite csrf_name request s
      → csrf_under verify_csrf_token gameplay_mutation csrf_name (some s) request ≡ proceed
  unfolding csrf_under csrf_passes tokens_agree
  IsSameSite-csrf csrf_name request s (token, r, e, t, v) =
      rw (IsSole-read request csrf_name token r, e, t, v, (same_text_iff token token).1 refl) refl

  -- For an operation that changes the play, the two controls in their order let a request pass in a
  -- session exactly when the header has the session cookie once, its value is a well-formed token
  -- that the store gives the session for and that has not expired, and the header has the csrf
  -- cookie once, with a well-formed token that the request repeats in its own header and that the
  -- store verifies for that session.
  pub controls_iff :
      (operation : Operation) (session_name csrf_name : Text) (now : ℕ) (request : SecurityRequest)
      (s : Session)
      → auth operation ≡ gameplay_mutation
      → (((authentication_control authenticate operation session_name now request).next ≡ proceed)
          × ((authentication_control authenticate operation session_name now request).session
              ≡ some s)
          × (csrf_control verify_csrf_token operation csrf_name
                (authentication_control authenticate operation session_name now request).session
                request
              ≡ proceed))
        ↔ (IsSignedIn session_name now request s × IsSameSite csrf_name request s)
  unfolding authentication_control authenticate_under csrf_control
  controls_iff operation session_name csrf_name now request s h = rw h (
    λ (p, q, c). (
      checked-IsSignedIn session_name now request s (p, q),
      csrf-IsSameSite csrf_name request s (
          subst (λ o. csrf_under verify_csrf_token gameplay_mutation csrf_name o request ≡ proceed)
            q c),
    ),
    λ (v, w).
        let k = IsSignedIn-checked session_name now request s v in
        (
          k.0,
          k.1,
          subst (λ o. csrf_under verify_csrf_token gameplay_mutation csrf_name o request ≡ proceed)
              (sym k.1) (IsSameSite-csrf csrf_name request s w),
        ),
  )

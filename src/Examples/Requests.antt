-- ===== src/Examples/Requests.antt =====
-- Runs of apps/api/src/security: source addresses, cookies and the controls of a request.
use loremaster.Prelude.{
  ℕ, Bool, true, false, ◌≡◌, refl, inl, [], ◌∷◌, Option, none, some, String, ok, err, ltb, arith,
}
use loremaster.Prelude.Js.{Text, codes, split, trim, compare_text, same_text}
use loremaster.Api.RateLimit.{start_current_attempt, auth}
use loremaster.Api.Sources.{
  SourceRequest, request_forbidden, text, source_ip_for, addresses_of, or_empty,
}
use loremaster.Api.Sources.Forwarding.{source_ip_for-iff_IsSource}
use loremaster.Api.Cookies.{
  SecurityRequest, Authentication, authenticated, proceed, repeated, read_unique_cookie,
  csrf_control, authentication_control, halves, named_value, is_token,
}
use loremaster.Api.Cookies.Guards.{controls_iff}

-- Addresses of one letter, of which p and q are the proxies.
abbrev canonical : Text → Option Text
canonical [] = none
canonical (c ∷ cs) = some (c ∷ cs)

abbrev trusted : Text → Bool
trusted [] = false
trusted (c ∷ cs) = ltb 111 c

-- A client c that claims to be v, behind the proxy q and the peer p.
abbrev forged : SourceRequest
forged = record {
  remote_address = some (codes "p");
  forwarded = text (codes "v, c, q");
  raw_header_count = 1;
}

source_ip_for-iff_IsSource_example : source_ip_for canonical trusted forged ≡ ok (codes "c")
unfolding split trim addresses_of or_empty
source_ip_for-iff_IsSource_example =
    (source_ip_for-iff_IsSource canonical trusted forged (codes "c")).1 (
      codes "p",
      refl,
      (
        refl,
        refl,
        omega arith,
        (
          codes "v" ∷ codes "c" ∷ codes "q" ∷ [],
          refl,
          (codes "p" ∷ codes "q" ∷ [], codes "v" ∷ [], refl, (refl, (refl, tt)), inl refl),
        ),
      ),
    )

twice_sent :
    source_ip_for canonical trusted (record forged { raw_header_count = 2 }) ≡ err request_forbidden
unfolding source_ip_for
twice_sent = refl

abbrev token : String
token = "abcdefghijklmnopqrstuvwxyzABCDEFGHIJKLMNOP-"

abbrev signed_in : SecurityRequest
signed_in = record {
  cookie_header = some (
      codes
        "s=abcdefghijklmnopqrstuvwxyzABCDEFGHIJKLMNOP-; c=abcdefghijklmnopqrstuvwxyzABCDEFGHIJKLMNOP-");
  csrf_header = some (codes token);
}

abbrev known : Text → Authentication ℕ
known t = authenticated 7 900

abbrev verify : ℕ → Text → Bool
verify s t = true

read_repeated :
    read_unique_cookie
      (record { cookie_header = some (codes "s=a; s=b"); csrf_header = none })
      (codes "s")
    ≡ repeated
unfolding read_unique_cookie split trim named_value same_text compare_text halves
read_repeated = refl

controls_iff_example :
    csrf_control verify start_current_attempt
      (codes "c")
      (authentication_control known start_current_attempt (codes "s") 500 signed_in).session
      signed_in
    ≡ proceed
unfolding split trim named_value same_text compare_text halves is_token auth
controls_iff_example =
    ((controls_iff known verify start_current_attempt (codes "s") (codes "c") 500 signed_in 7
        refl).1
      (
        (
          codes token,
          900,
          (
            codes
                "s=abcdefghijklmnopqrstuvwxyzABCDEFGHIJKLMNOP-; c=abcdefghijklmnopqrstuvwxyzABCDEFGHIJKLMNOP-",
            refl,
            refl,
          ),
          refl,
          refl,
          omega arith,
        ),
        (
          codes token,
          (
            codes
                "s=abcdefghijklmnopqrstuvwxyzABCDEFGHIJKLMNOP-; c=abcdefghijklmnopqrstuvwxyzABCDEFGHIJKLMNOP-",
            refl,
            refl,
          ),
          refl,
          refl,
          refl,
        ),
      )).2

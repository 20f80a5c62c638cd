-- ===== src/Api/RateLimit/Handling.antt =====
-- What the limiter of apps/api/src/security/rate-limit.ts does with a request.
use loremaster.Prelude.{
  ℕ, ◌<◌, ◌≡◌, refl, ◌⊎◌, inl, inr, Bool, true, false, ◌||◌, Bool-cases, Option, none, some, String,
  arith,
}
use loremaster.Api.RateLimit.{
  Counter, Limiter, LimiterConfig, Verdict, passed, rate_limited, authentication_required,
  request_forbidden, exceeds, ip_limit, guest_limit, is_session, retry_after, limit_ip, limit_both,
  limit_from, limit_locally,
}
use loremaster.Api.RateLimit.Bounds.{below_limit}
use loremaster.Api.RateLimit.Contract.{rolled, neither}
use loremaster.Api.RateLimit.Counts.{used, CountsOne, admit-CountsOne}

-- What the local limiter did with a request, on the stores l of its window.
pub data Handled (config : LimiterConfig) (now : ℕ) (c : Counter) (source guest : Option String)
    (l : Limiter) : Verdict × Limiter → Type 0 where
  admitted :
      {l' : Limiter}
      → (ip : String) × (source ≡ some ip)
        × (used c ip l.ip_store < ip_limit config c)
        × CountsOne c ip l.ip_store l'.ip_store
      → ((is_session c ≡ true) × (l'.guest_store ≡ l.guest_store))
        ⊎ ((is_session c ≡ false)
            × (g : String) × (guest ≡ some g)
            × (used c g l.guest_store < guest_limit config c)
            × CountsOne c g l.guest_store l'.guest_store)
      → Handled config now c source guest l (passed, l')
  turned_away :
      (ip : String) × (source ≡ some ip)
        × ((exceeds c ip (ip_limit config c) l.ip_store ≡ true)
            ⊎ ((is_session c ≡ false)
                × (g : String) × (guest ≡ some g)
                × (exceeds c g (guest_limit config c) l.guest_store ≡ true)))
      → Handled config now c source guest l (rate_limited (retry_after config now), l)
  not_signed_in :
      (ip : String) × (source ≡ some ip)
      → is_session c ≡ false
      → guest ≡ none
      → Handled config now c source guest l (authentication_required, l)
  no_address : source ≡ none → Handled config now c source guest l (request_forbidden, l)

limit_ip-Handled :
    (config : LimiterConfig) (now : ℕ) (c : Counter) (ip : String) (guest : Option String)
    (l : Limiter)
    → is_session c ≡ true
    → Handled config now c (some ip) guest l (limit_ip config now c ip l)
unfolding limit_ip
limit_ip-Handled config now c ip guest l s =
    elim (Bool-cases (exceeds c ip (ip_limit config c) l.ip_store)) [
      | inl q ↦ rw q (turned_away (ip, refl, inl q))
      | inr q ↦ rw q (
          admitted
            (
              ip,
              refl,
              below_limit c ip (ip_limit config c) l.ip_store q,
              admit-CountsOne c ip l.ip_store,
            )
            (inl (s, refl)))
    ]

either : (a b : Bool) → (a || b) ≡ true → (a ≡ true) ⊎ (b ≡ true)
either a b h = ground arith

limit_both-Handled :
    (config : LimiterConfig) (now : ℕ) (c : Counter) (ip : String) (guest : Option String)
    (l : Limiter)
    → is_session c ≡ false
    → Handled config now c (some ip) guest l (limit_both config now c ip guest l)
unfolding limit_both
limit_both-Handled config now c ip none l s = not_signed_in (ip, refl) s refl
limit_both-Handled config now c ip (some g) l s =
    elim (Bool-cases (
      exceeds c ip (ip_limit config c) l.ip_store
      || exceeds c g (guest_limit config c) l.guest_store)) [
        | inl q ↦ rw q (elim (either _ _ q) [
          | inl full ↦ turned_away (ip, refl, inl full)
          | inr full ↦ turned_away (ip, refl, inr (s, g, refl, full))
        ])
        | inr q ↦
            let (p, r) = neither _ _ q in
            rw q (
              admitted
                (
                  ip,
                  refl,
                  below_limit c ip (ip_limit config c) l.ip_store p,
                  admit-CountsOne c ip l.ip_store,
                )
                (inr (
                  s,
                  g,
                  refl,
                  below_limit c g (guest_limit config c) l.guest_store r,
                  admit-CountsOne c g l.guest_store,
                )))
      ]

limit_from-Handled :
    (config : LimiterConfig) (now : ℕ) (c : Counter) (source guest : Option String) (l : Limiter)
    → Handled config now c source guest l (limit_from config now c source guest l)
unfolding limit_from
limit_from-Handled config now c none guest l = no_address refl
limit_from-Handled config now c (some ip) guest l = elim (Bool-cases (is_session c)) [
  | inl q ↦ rw q (limit_ip-Handled config now c ip guest l q)
  | inr q ↦ rw q (limit_both-Handled config now c ip guest l q)
]

-- On the stores of the request's window, the local limiter admits a request only from an address
-- that is below its limit, and then it counts one request of the kind for the address. It does the
-- same for the guest, who must be there, except for the creation of a session: that leaves the
-- store of guests as it is, whether the request has a guest or not. No other count of either store
-- changes. A request that is denied because a store is full or a limit reached, that must be signed
-- in and is not, or that has no valid address, is not counted at all.
pub limit_locally-Handled :
    (config : LimiterConfig) (now : ℕ) (c : Counter) (source guest : Option String) (l : Limiter)
    → Handled config now c source guest
        (rolled config now l)
        (limit_locally config now c source guest l)
unfolding limit_locally
limit_locally-Handled config now c source guest l =
    limit_from-Handled config now c source guest (rolled config now l)

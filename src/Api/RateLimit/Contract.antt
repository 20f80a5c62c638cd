-- ===== src/Api/RateLimit/Contract.antt =====
-- What a request of apps/api/src/security/rate-limit.ts does to the counters.
use loremaster.Prelude.{
  ℕ, ◌+◌, ◌*◌, ◌/◌, ◌≤◌, ◌≡◌, refl, inl, inr, Bool, false, ◌||◌, Bool-cases, Option, none, some,
  String, arith,
}
use loremaster.Api.RateLimit.{
  Counter, Operation, LimiterConfig, Limiter, Verdict, passed, rate_limited,
  authentication_required, request_forbidden, limit_from, roll, exceeds, ip_limit, guest_limit,
  is_session, category, retry_after, limit_ip, limit_both, limit_locally, SharedDecision,
  after_local, limit_category, for_operation,
}
use loremaster.Api.RateLimit.Bounds.{Within, admit-Within, roll-Within}

-- Both stores are within the limits of the configuration.
pub record IsWithin (config : LimiterConfig) (l : Limiter) : Type 0 where
  pub ip : Within (ip_limit config) l.ip_store
  pub guest : Within (guest_limit config) l.guest_store

-- The stores of a request's window: emptied when the last request was in another one.
abbrev pub rolled : LimiterConfig → ℕ → Limiter → Limiter
rolled config now l = record {
  ip_store = roll (now / config.window_ms) l.ip_store;
  guest_store = roll (now / config.window_ms) l.guest_store;
}

rolled-IsWithin :
    (config : LimiterConfig) (now : ℕ) (l : Limiter)
    → IsWithin config l
    → IsWithin config (rolled config now l)
rolled-IsWithin config now l w = record {
  ip = roll-Within (ip_limit config) (now / config.window_ms) l.ip_store w.ip;
  guest = roll-Within (guest_limit config) (now / config.window_ms) l.guest_store w.guest;
}

limit_ip-IsWithin :
    (config : LimiterConfig) (now : ℕ) (c : Counter) (ip : String) (l : Limiter)
    → IsWithin config l
    → IsWithin config (limit_ip config now c ip l).1
unfolding limit_ip
limit_ip-IsWithin config now c ip l w =
    elim (Bool-cases (exceeds c ip (ip_limit config c) l.ip_store)) [
      | inl q ↦ rw q w
      | inr q ↦
          rw q
            (record { ip = admit-Within (ip_limit config) c ip l.ip_store w.ip q; guest = w.guest })
    ]

pub neither : (a b : Bool) → (a || b) ≡ false → (a ≡ false) × (b ≡ false)
neither a b h = ground arith

limit_both-IsWithin :
    (config : LimiterConfig) (now : ℕ) (c : Counter) (ip : String) (guest : Option String)
    (l : Limiter)
    → IsWithin config l
    → IsWithin config (limit_both config now c ip guest l).1
unfolding limit_both
limit_both-IsWithin config now c ip none l w = w
limit_both-IsWithin config now c ip (some guest) l w =
    elim (Bool-cases (
      exceeds c ip (ip_limit config c) l.ip_store
      || exceeds c guest (guest_limit config c) l.guest_store)) [
        | inl q ↦ rw q w
        | inr q ↦
            let (p, g) = neither _ _ q in
            rw q (record {
              ip = admit-Within (ip_limit config) c ip l.ip_store w.ip p;
              guest = admit-Within (guest_limit config) c guest l.guest_store w.guest g;
            })
      ]

limit_from-IsWithin :
    (config : LimiterConfig) (now : ℕ) (c : Counter) (source guest : Option String) (l : Limiter)
    → IsWithin config l
    → IsWithin config (limit_from config now c source guest l).1
unfolding limit_from
limit_from-IsWithin config now c none guest l w = w
limit_from-IsWithin config now c (some ip) guest l w = elim (Bool-cases (is_session c)) [
  | inl q ↦ rw q (limit_ip-IsWithin config now c ip l w)
  | inr q ↦ rw q (limit_both-IsWithin config now c ip guest l w)
]

limit_locally-IsWithin :
    (config : LimiterConfig) (now : ℕ) (c : Counter) (source guest : Option String) (l : Limiter)
    → IsWithin config l
    → IsWithin config (limit_locally config now c source guest l).1
unfolding limit_locally
limit_locally-IsWithin config now c source guest l w =
    limit_from-IsWithin config now c source guest (rolled config now l)
      (rolled-IsWithin config now l w)

after_local-state :
    (shared : Option SharedDecision) (x : Verdict × Limiter) → (after_local shared x).1 ≡ x.1
unfolding after_local
after_local-state shared (passed, l) = refl
after_local-state shared (rate_limited n, l) = refl
after_local-state shared (authentication_required, l) = refl
after_local-state shared (request_forbidden, l) = refl

category-IsWithin :
    (config : LimiterConfig) (now : ℕ) (o : Option Counter) (source guest : Option String)
    (shared : Option SharedDecision) (l : Limiter)
    → IsWithin config l
    → IsWithin config (limit_category config now o source guest shared l).1
unfolding limit_category
category-IsWithin config now none source guest shared l w = w
category-IsWithin config now (some c) source guest shared l w =
    rw (after_local-state shared (limit_locally config now c source guest l))
      (limit_locally-IsWithin config now c source guest l w)

-- Whatever a request asks for and however it ends, if no identity of either store had more requests
-- of a kind than the limit, and neither store more identities than its capacity, so it is after.
pub for_operation-IsWithin :
    (config : LimiterConfig) (o : Operation) (now : ℕ) (source guest : Option String)
    (shared : Option SharedDecision) (l : Limiter)
    → IsWithin config l
    → IsWithin config (for_operation o config now source guest shared l).1
unfolding for_operation
for_operation-IsWithin config o now source guest shared l w =
    category-IsWithin config now (category o) source guest shared l w

-- The time that a denied client is told to wait, for the window of a minute.
pub retry_after_lem :
    (config : LimiterConfig) (now : ℕ)
    → config.window_ms ≡ 60000
    → (1 ≤ retry_after config now)
      × (retry_after config now ≤ 60)
      × ((now / 60000 + 1) * 60000 ≤ now + retry_after config now * 1000)
unfolding retry_after
retry_after_lem config now h = rw h (omega arith, omega arith, omega arith)

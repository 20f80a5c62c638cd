-- ===== src/Api/RateLimit.antt =====
-- apps/api/src/security/rate-limit.ts: the limiter of one replica, and its call of the shared one.
pub mod Bounds
pub mod Counts
pub mod Contract
pub mod Handling
use loremaster.Prelude.{
  ℕ, ◌+◌, ◌-◌, ◌*◌, ◌/◌, max, Bool, true, false, ◌&&◌, ◌||◌, not, List, [], ◌∷◌, Option, none, some,
  String, str_eq, leb, ◌==◌, if◌then◌else◌, length,
}

pub data Counter : Type 0 where
  autocomplete mutation session : Counter

pub data Operation : Type 0 where
  create_session get_session get_current_case start_current_attempt get_owned_attempt
        run_gameplay_command get_suggestions get_profile get_leaderboard health_live health_ready :
      Operation

pub data AuthenticationPolicy : Type 0 where
  no_auth bootstrap session_auth gameplay_mutation : AuthenticationPolicy

-- `API_OPERATIONS[operationId].auth`
unfoldable pub auth : Operation → AuthenticationPolicy
auth create_session = bootstrap
auth start_current_attempt = gameplay_mutation
auth run_gameplay_command = gameplay_mutation
auth health_live = no_auth
auth health_ready = no_auth
auth _ = session_auth

pub record Entry : Type 0 where
  pub autocomplete_count : ℕ
  pub mutation_count : ℕ
  pub session_count : ℕ

-- The bucket is none until the first request, where the source has -1. The map is an association
-- list with one entry for a key.
pub record WindowStore : Type 0 where
  pub bucket : Option ℕ
  pub capacity : ℕ
  pub entries : List (String × Entry)

pub record LimiterConfig : Type 0 where
  pub window_ms : ℕ
  pub mutations_per_guest : ℕ
  pub mutations_per_ip : ℕ
  pub autocomplete_per_guest : ℕ
  pub autocomplete_per_ip : ℕ
  pub session_creations_per_ip : ℕ

-- The state of the control: `ipStore` and `guestStore`.
pub record Limiter : Type 0 where
  pub ip_store : WindowStore
  pub guest_store : WindowStore

-- What a request ends with: `next()`, an error with the value of `Retry-After`, or an error.
pub data Verdict : Type 0 where
  passed : Verdict
  rate_limited : (retry_after : ℕ) → Verdict
  authentication_required : Verdict
  request_forbidden : Verdict

abbrev pub empty_entry : Entry
empty_entry = record { autocomplete_count = 0; mutation_count = 0; session_count = 0 }

-- `entry[key]`
abbrev pub counted : Counter → Entry → ℕ
counted autocomplete e = e.autocomplete_count
counted mutation e = e.mutation_count
counted session e = e.session_count

-- `entry[key] += 1`
abbrev pub bump : Counter → Entry → Entry
bump autocomplete e = record e { autocomplete_count = e.autocomplete_count + 1 }
bump mutation e = record e { mutation_count = e.mutation_count + 1 }
bump session e = record e { session_count = e.session_count + 1 }

-- `entries.get(identity)`
abbrev pub lookup : String → List (String × Entry) → Option Entry
lookup key [] = none
lookup key ((k, e) ∷ rest) = let found = lookup key rest in if str_eq k key then some e else found

-- `entries.set(identity, entry)`
abbrev pub put : String → Entry → List (String × Entry) → List (String × Entry)
put key e [] = (key, e) ∷ []
put key e ((k, old) ∷ rest) =
    let others = put key e rest in if str_eq k key then (k, e) ∷ rest else (k, old) ∷ others

pub count_of : Counter → Option Entry → ℕ
count_of c none = 0
count_of c (some e) = counted c e

is_missing : Option Entry → Bool
is_missing none = true
is_missing (some e) = false

pub entry_or_empty : Option Entry → Entry
entry_or_empty none = empty_entry
entry_or_empty (some e) = e

same_bucket : Option ℕ → ℕ → Bool
same_bucket none b = false
same_bucket (some a) b = a == b

-- `store.entries.clear()` when the window has changed.
unfoldable pub roll : ℕ → WindowStore → WindowStore
unfolding same_bucket
roll now_bucket store =
    if same_bucket store.bucket now_bucket
    then store
    else record store { bucket = some now_bucket; entries = [] }

-- One of the `checks`: the store is full for a new identity, or the identity has used its limit.
unfoldable pub exceeds : Counter → String → ℕ → WindowStore → Bool
unfolding count_of is_missing
exceeds c identity limit store =
    is_missing (lookup identity store.entries) && leb store.capacity (length store.entries)
    || leb limit (count_of c (lookup identity store.entries))

unfoldable pub admit : Counter → String → WindowStore → WindowStore
unfolding entry_or_empty
admit c identity store = record store {
  entries = put identity (bump c (entry_or_empty (lookup identity store.entries))) store.entries;
}

abbrev pub ip_limit : LimiterConfig → Counter → ℕ
ip_limit config session = config.session_creations_per_ip
ip_limit config autocomplete = config.autocomplete_per_ip
ip_limit config mutation = config.mutations_per_ip

abbrev pub guest_limit : LimiterConfig → Counter → ℕ
guest_limit config autocomplete = config.autocomplete_per_guest
guest_limit config _ = config.mutations_per_guest

abbrev pub is_session : Counter → Bool
is_session session = true
is_session _ = false

unfoldable pub category : Operation → Option Counter
unfolding auth
category create_session = some session
category get_suggestions = some autocomplete
category o = elim (auth o) [ gameplay_mutation ↦ some mutation | _ ↦ none ]

-- `Math.max(1, Math.ceil((resetAt - now) / 1_000))`
unfoldable pub retry_after : LimiterConfig → ℕ → ℕ
retry_after config now =
    max 1 ((((now / config.window_ms) + 1) * config.window_ms - now + 999) / 1000)

-- The check and the increment on the store of addresses alone.
pub limit_ip : LimiterConfig → ℕ → Counter → String → Limiter → Verdict × Limiter
limit_ip config now c ip l =
    if exceeds c ip (ip_limit config c) l.ip_store
    then (rate_limited (retry_after config now), l)
    else (passed, record l { ip_store = admit c ip l.ip_store })

-- Both stores are checked before either is incremented.
pub limit_both : LimiterConfig → ℕ → Counter → String → Option String → Limiter → Verdict × Limiter
limit_both config now c ip none l = (authentication_required, l)
limit_both config now c ip (some guest) l =
    if exceeds c ip (ip_limit config c) l.ip_store
      || exceeds c guest (guest_limit config c) l.guest_store
    then (rate_limited (retry_after config now), l)
    else (
      passed,
      record { ip_store = admit c ip l.ip_store; guest_store = admit c guest l.guest_store },
    )

-- The checks, once `sourceIpFor` has returned an address or, where there is none, thrown.
pub limit_from :
    LimiterConfig → ℕ → Counter → Option String → Option String → Limiter → Verdict × Limiter
unfolding limit_ip limit_both
limit_from config now c none guest l = (request_forbidden, l)
limit_from config now c (some ip) guest l =
    if is_session c then limit_ip config now c ip l else limit_both config now c ip guest l

-- The local part of the middleware, for an operation that is counted: `source` is what `sourceIpFor`
-- ends with, and `guest` the guest of a request that is signed in.
unfoldable pub limit_locally :
    LimiterConfig → ℕ → Counter → Option String → Option String → Limiter → Verdict × Limiter
unfolding limit_from
limit_locally config now c source guest l =
    let rolled : Limiter = record {
      ip_store = roll (now / config.window_ms) l.ip_store;
      guest_store = roll (now / config.window_ms) l.guest_store;
    } in
    limit_from config now c source guest rolled

-- `decision` of the shared limiter: a call that throws counts as degraded.
pub data SharedDecision : Type 0 where
  allowed degraded : SharedDecision
  denied : (retry_after_seconds : ℕ) → SharedDecision

apply_shared : Option SharedDecision → Verdict
apply_shared (some (denied seconds)) = rate_limited seconds
apply_shared _ = passed

-- `shared` answers a call of `consume`; there is none when no shared limiter is configured.
after_local : Option SharedDecision → Verdict × Limiter → Verdict × Limiter
unfolding apply_shared
after_local shared (passed, l) = (apply_shared shared, l)
after_local shared (v, l) = (v, l)

limit_category :
    LimiterConfig
    → ℕ
    → Option Counter
    → Option String
    → Option String
    → Option SharedDecision
    → Limiter
    → Verdict × Limiter
unfolding after_local
limit_category config now none source guest shared l = (passed, l)
limit_category config now (some c) source guest shared l =
    after_local shared (limit_locally config now c source guest l)

unfoldable pub for_operation :
    Operation
    → LimiterConfig
    → ℕ
    → Option String
    → Option String
    → Option SharedDecision
    → Limiter
    → Verdict × Limiter
unfolding limit_category
for_operation o config now source guest shared l =
    limit_category config now (category o) source guest shared l

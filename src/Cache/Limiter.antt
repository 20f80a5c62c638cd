-- ===== src/Cache/Limiter.antt =====
-- packages/cache/src/limiter/redis.ts and limiter-contract.ts: the limiter that the servers share. Its
-- script runs as one step of Redis; the state is the keys that the script writes.
pub mod Bounds
use loremaster.Prelude.{
  ℕ, suc, ◌+◌, ◌-◌, ◌*◌, ◌/◌, ◌%◌, min, max, Bool, true, false, ◌&&◌, ◌||◌, not, List, [], ◌∷◌,
  ◌++◌, Option, none, some, ◌==◌, Result, ok, err, ◌>>=◌, ◌>>◌, throw_if, all, filter, find, length,
  ltb, leb, if◌then◌else◌,
}
use loremaster.Prelude.Js.{Text, same_text}

pub data LimitCounter : Type 0 where
  session autocomplete mutation : LimitCounter

pub data LimitScope : Type 0 where
  ip guest : LimitScope

-- `sharedLimitKey`: the parts of a key, none of which has the colon that joins them.
pub record Key : Type 0 where
  pub version : Text
  pub bucket : ℕ
  pub counter : LimitCounter
  pub scope : LimitScope
  pub digest : Text

pub record Count : Type 0 where
  pub key : Key
  pub count : ℕ
  pub expires_at : ℕ

-- A member of the sorted set of keys, with its score.
pub record Member : Type 0 where
  pub key : Key
  pub score : ℕ

pub record Redis : Type 0 where
  pub counts : List Count
  pub capacity : List Member

-- `TIME`: seconds, and microseconds of the second.
pub record Time : Type 0 where
  pub second : ℕ
  pub microsecond : ℕ

pub record SharedLimitRequest : Type 0 where
  pub counter : LimitCounter
  pub ip_digest : Text
  pub guest_digest : Option Text

pub data SharedLimitDecision : Type 0 where
  allowed degraded : SharedLimitDecision
  denied : (retry_after_seconds : ℕ) → SharedLimitDecision

pub data LimiterError : Type 0 where
  invalid_request : LimiterError

-- `SHARED_LIMIT_POLICY`
unfoldable pub limit_of : LimitCounter → LimitScope → ℕ
limit_of session ip = 10
limit_of session guest = 0
limit_of autocomplete ip = 300
limit_of autocomplete guest = 120
limit_of mutation ip = 120
limit_of mutation guest = 30

abbrev pub maximum_keys : ℕ
maximum_keys = 20000

same_counter : LimitCounter → LimitCounter → Bool
same_counter session session = true
same_counter autocomplete autocomplete = true
same_counter mutation mutation = true
same_counter _ _ = false

same_scope : LimitScope → LimitScope → Bool
same_scope ip ip = true
same_scope guest guest = true
same_scope _ _ = false

same_key : Key → Key → Bool
unfolding same_counter same_scope
same_key a b =
    same_text a.version b.version
    && a.bucket == b.bucket
    && same_counter a.counter b.counter
    && same_scope a.scope b.scope
    && same_text a.digest b.digest

live : ℕ → Option Count → ℕ
live now none = 0
live now (some c) = if ltb now c.expires_at then c.count else 0

-- `GET`, with 0 for a key that is missing or expired
unfoldable pub get : Key → ℕ → Redis → ℕ
unfolding live same_key
get k now r = live now (find (λ c. same_key c.key k) r.counts)

put : Count → List Count → List Count
unfolding same_key
put c [] = c ∷ []
put c (d ∷ ds) = let rest = put c ds in if same_key d.key c.key then c ∷ ds else d ∷ rest

put_member : Member → List Member → List Member
unfolding same_key
put_member m [] = m ∷ []
put_member m (n ∷ ns) =
    let rest = put_member m ns in if same_key n.key m.key then m ∷ ns else n ∷ rest

-- `INCR`, `PEXPIRE` and `ZADD` of a key
bump : Key → ℕ → Redis → Redis
unfolding put put_member
bump k now r = record {
  counts = put (record { key = k; count = get k now r + 1; expires_at = now + 61000 }) r.counts;
  capacity = put_member (record { key = k; score = now + 61000 }) r.capacity;
}

bump_guest : Option Key → ℕ → Redis → Redis
unfolding bump
bump_guest none now r = r
bump_guest (some k) now r = bump k now r

guest_full : Option Key → LimitCounter → ℕ → Redis → Bool
guest_full none counter now r = false
guest_full (some k) counter now r = leb (limit_of counter guest) (get k now r)

needed_for : Option Key → ℕ → Redis → ℕ
needed_for none now r = 0
needed_for (some k) now r = if get k now r == 0 then 1 else 0

-- `ZREMRANGEBYSCORE capacity -inf now`
forget : ℕ → Redis → Redis
forget now r = record r { capacity = filter (λ m. ltb now m.score) r.capacity }

write : Key → Option Key → ℕ → Redis → Redis
unfolding bump bump_guest
write ip_key guest_key now r = bump_guest guest_key now (bump ip_key now r)

-- What the script returns: 1 or 0, and the seconds to wait.
allocate : Key → Option Key → ℕ → ℕ → ℕ → Redis → (ℕ × ℕ) × Redis
unfolding write
allocate ip_key guest_key now reset needed r =
    if ltb (maximum_keys - 2) (length r.capacity + needed)
    then ((0, reset), r)
    else ((1, 0), write ip_key guest_key now r)

unfoldable pub run_script : Key → Option Key → LimitCounter → ℕ → ℕ → Redis → (ℕ × ℕ) × Redis
unfolding allocate guest_full needed_for forget
run_script ip_key guest_key counter now reset r =
    if leb (limit_of counter ip) (get ip_key now r) || guest_full guest_key counter now r
    then ((0, reset), r)
    else allocate ip_key guest_key now reset
        (needed_for (some ip_key) now r + needed_for guest_key now r) (forget now r)

-- `math.floor(second / 60)`, `nowMs` and `reset`
unfoldable pub bucket_of : Time → ℕ
bucket_of t = t.second / 60

unfoldable pub milliseconds : Time → ℕ
milliseconds t = t.second * 1000 + t.microsecond / 1000

unfoldable pub reset_of : Time → ℕ
reset_of t = 60 - t.second % 60

is_hex : ℕ → Bool
is_hex c = leb b'0' c && leb c b'9' || leb b'a' c && leb c b'f'

-- `/^[0-9a-f]{64}$/`
is_digest : Text → Bool
unfolding is_hex
is_digest t = length t == 64 && all is_hex t

guest_fits : LimitCounter → Option Text → Bool
unfolding is_digest
guest_fits session none = true
guest_fits session (some d) = false
guest_fits _ none = false
guest_fits _ (some d) = is_digest d

unfoldable pub valid_request : SharedLimitRequest → Bool
unfolding guest_fits is_digest
valid_request q = is_digest q.ip_digest && guest_fits q.counter q.guest_digest

-- The reply of the script as a decision.
unfoldable pub decision_of : ℕ × ℕ → SharedLimitDecision
decision_of (flag, wait) =
    if flag == 0 then denied (max 1 (min 60 wait)) else if flag == 1 then allowed else degraded

-- What became of the call: it was answered, it never reached Redis, or its answer was lost.
pub data Call : Type 0 where
  answered unsent lost : Call

answer : Call → (ℕ × ℕ) × Redis → Redis → SharedLimitDecision × Redis
answer answered (reply, r') r = (decision_of reply, r')
answer unsent (reply, r') r = (degraded, r)
answer lost (reply, r') r = (degraded, r')

unfoldable pub key_for : Text → Time → LimitCounter → LimitScope → Text → Key
unfolding bucket_of
key_for version t counter scope digest = record {
  version = version;
  bucket = bucket_of t;
  counter = counter;
  scope = scope;
  digest = digest;
}

guest_key_for : Text → Time → LimitCounter → Option Text → Option Key
unfolding key_for
guest_key_for version t counter none = none
guest_key_for version t counter (some d) = some (key_for version t counter guest d)

-- `consume` at a time, for the version of the keys.
unfoldable pub consume :
    Text
    → Call
    → Time
    → SharedLimitRequest
    → Redis
    → Result LimiterError (SharedLimitDecision × Redis)
unfolding answer key_for guest_key_for
consume version call t q r = do
  throw_if (not (valid_request q)) invalid_request
  ok (
      answer call
        (run_script (key_for version t q.counter ip q.ip_digest)
          (guest_key_for version t q.counter q.guest_digest) q.counter (milliseconds t) (reset_of t)
          r)
        r)

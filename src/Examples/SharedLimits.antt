-- ===== src/Examples/SharedLimits.antt =====
-- Runs of packages/cache/src/limiter/redis.ts.
use loremaster.Prelude.{◌≡◌, refl, true, [], ◌∷◌, none, ok}
use loremaster.Prelude.Js.{Text, codes, same_text, compare_text}
use loremaster.Cache.Limiter.{
  session, ip, Redis, Time, SharedLimitRequest, denied, answered, limit_of, get, valid_request,
  run_script, bucket_of, milliseconds, reset_of, decision_of, key_for, consume,
}
use loremaster.Cache.Limiter.Bounds.{IsWithin, IsDecided, consume-IsDecided}

abbrev digest : Text
digest = codes "0123456789abcdef0123456789abcdef0123456789abcdef0123456789abcdef"

abbrev request : SharedLimitRequest
request = record { counter = session; ip_digest = digest; guest_digest = none }

abbrev at : Time
at = record { second = 125; microsecond = 5000 }

-- An address that has created ten sessions in this minute.
abbrev full : Redis
full = record {
  counts =
      record {
        key = record {
          version = codes "a";
          bucket = 2;
          counter = session;
          scope = ip;
          digest = digest;
        };
        count = 10;
        expires_at = 180000;
      }
      ∷ [];
  capacity = [];
}

full_denied : consume (codes "a") answered at request full ≡ ok (denied 55, full)
unfolding consume valid_request run_script limit_of get key_for bucket_of milliseconds reset_of
    decision_of same_text compare_text
full_denied = refl

consume-IsDecided_example :
    (valid_request request ≡ true)
    × (IsWithin full → IsWithin full)
    × IsDecided (codes "a") at request full (denied 55) full
consume-IsDecided_example =
    consume-IsDecided (codes "a") answered at request full full (denied 55) full_denied

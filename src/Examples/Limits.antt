-- ===== src/Examples/Limits.antt =====
-- Runs of apps/api/src/security/rate-limit.ts.
use loremaster.Prelude.{◌+◌, ◌*◌, ◌/◌, ◌≤◌, ◌≡◌, refl, [], ◌∷◌, some, str_eq, arith}
use loremaster.Api.RateLimit.{
  mutation, get_suggestions, LimiterConfig, Limiter, allowed, retry_after, limit_locally,
  for_operation, rate_limited, roll, exceeds,
}
use loremaster.Api.RateLimit.Contract.{IsWithin, rolled, for_operation-IsWithin, retry_after_lem}
use loremaster.Api.RateLimit.Handling.{Handled, limit_locally-Handled}

abbrev limits : LimiterConfig
limits = record {
  window_ms = 60000;
  mutations_per_guest = 30;
  mutations_per_ip = 120;
  autocomplete_per_guest = 120;
  autocomplete_per_ip = 300;
  session_creations_per_ip = 10;
}

abbrev busy : Limiter
busy = record {
  ip_store = record {
    bucket = some 2;
    capacity = 10;
    entries =
        ("10.0.0.1", record { autocomplete_count = 7; mutation_count = 40; session_count = 1 })
        ∷ [];
  };
  guest_store = record {
    bucket = some 2;
    capacity = 10;
    entries = ("g", record { autocomplete_count = 7; mutation_count = 30; session_count = 0 }) ∷ [];
  };
}

busy-IsWithin : IsWithin limits busy
busy-IsWithin = record {
  ip = record { fits = omega arith; counts = ((λ c. ground arith), tt) };
  guest = record { fits = omega arith; counts = ((λ c. ground arith), tt) };
}

-- The guest has used the thirty commands of the window.
denied_command :
    limit_locally limits 130000 mutation (some "10.0.0.1") (some "g") busy ≡ (rate_limited 50, busy)
unfolding limit_locally roll exceeds retry_after str_eq
denied_command = refl

for_operation-IsWithin_example :
    IsWithin limits
      (for_operation get_suggestions limits 130000
        (some "10.0.0.1")
        (some "g")
        (some allowed)
        busy).1
for_operation-IsWithin_example =
    for_operation-IsWithin limits get_suggestions 130000 (some "10.0.0.1") (some "g") (some allowed)
      busy busy-IsWithin

limit_locally-Handled_example :
    Handled limits 130000 mutation
      (some "10.0.0.1")
      (some "g")
      (rolled limits 130000 busy)
      (limit_locally limits 130000 mutation (some "10.0.0.1") (some "g") busy)
limit_locally-Handled_example =
    limit_locally-Handled limits 130000 mutation (some "10.0.0.1") (some "g") busy

retry_after_lem_example :
    (1 ≤ retry_after limits 130000)
    × (retry_after limits 130000 ≤ 60)
    × ((130000 / 60000 + 1) * 60000 ≤ 130000 + retry_after limits 130000 * 1000)
retry_after_lem_example = retry_after_lem limits 130000 refl

-- ===== src/RateLimit/Examples.antt =====
-- Runs of the failure ladder: a failed attempt and a success at a new ladder.
use power_manage.Shared.{
  ℕ, ◌*◌, ◌+◌, ◌<◌, length, All, ◌≡◌, ◌≢◌, ◌↔◌, inr, refl, Bool, true, false, List, [], ◌∷◌, none,
  some, ok,
}
use power_manage.Shared.Int.{ℤ, pos}
use power_manage.Shared.Bytes.{Bytes, codes}
use power_manage.RateLimit.{
  FailureLimit, RateLimitPolicy, AuthenticationAttempt, FailureLadder, new_failure_ladder,
  check_policies, valid_failure_limit, allow, find_policy, valid_authentication_attempt,
}
use power_manage.RateLimit.Within.{IsBounded}
use power_manage.RateLimit.Bounded.{
  IsRegistered, new_failure_ladder_iff, new_failure_ladder-IsBounded, allow-IsBounded,
  allow-unrecorded,
}

abbrev limit : ℕ → FailureLimit
limit n = record { attempts = pos n; window = pos 60000000000 }

abbrev login : Bytes
login = codes "/auth/Login"

abbrev policies : List (Bytes × RateLimitPolicy)
policies = (login, record { per_ip = limit 3; per_account = limit 2 }) ∷ []

abbrev fresh : FailureLadder
fresh = record { policies = policies; buckets = []; next_sweep = pos 0 }

abbrev attempt : Bool → AuthenticationAttempt
attempt succeeded = record {
  procedure = login;
  client_ip = some (codes "192.0.2.7");
  account_key = codes "alice";
  succeeded = succeeded;
}

abbrev at_second : ℕ → ℤ
at_second s = pos (64000000000000000000 + s * 1000000000)

made : new_failure_ladder policies ≡ ok fresh
unfolding new_failure_ladder check_policies valid_failure_limit
made = refl

new_failure_ladder_iff_example : (new_failure_ladder policies ≡ ok fresh) ↔ (
    (0 < length policies)
    × All IsRegistered policies
    × (fresh.policies ≡ policies)
    × (fresh.buckets ≡ [])
    × (fresh.next_sweep ≡ pos 0))
new_failure_ladder_iff_example = new_failure_ladder_iff policies fresh

allow-IsBounded_example : IsBounded (allow fresh (attempt false) (at_second 0)).0
allow-IsBounded_example =
    allow-IsBounded fresh (attempt false) (at_second 0)
      (new_failure_ladder-IsBounded policies {l = fresh} made)

allow-unrecorded_example :
    ((allow fresh (attempt true) (at_second 0)).0 ≡ fresh)
    × (((allow fresh (attempt true) (at_second 0)).1 ≡ true) ↔ (
        (find_policy policies login ≢ none) × (valid_authentication_attempt (attempt true) ≡ true)))
allow-unrecorded_example = allow-unrecorded fresh (attempt true) (at_second 0) (inr (inr refl))

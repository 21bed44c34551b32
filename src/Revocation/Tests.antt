-- ===== src/Revocation/Tests.antt =====
-- Runs of the revocation service, and its theorems at concrete inputs.
use stellar_portfolio_rebala.Prelude.{
  ◌≡◌, refl, Bool, true, false, ◌||◌, List, [], ◌∷◌, any, if◌then◌else◌,
}
use stellar_portfolio_rebala.Redis.{Redis, answer, failure}
use stellar_portfolio_rebala.Revocation.{
  RevocationService, init, add_revoked_token, is_revoked, is_user_revoked, revoke_all_for_user,
  add_member,
}
use stellar_portfolio_rebala.Revocation.Runs.{
  Call, revoke_token, revoke_user, query_token, run, revokes_token, run-is_revoked,
}
use stellar_portfolio_rebala.Revocation.Rejections.{IsReadOnly, run-rejected}

-- A server that holds no key and stores none; in the state false it fails every query.
instance abbrev read_only : Redis Bool
read_only = record {
  is_available = λ r. true;
  set_nx = λ now key ttl r. (failure, r);
  set_ex = λ now key ttl r. (failure, r);
  del = λ now key r. (failure, r);
  exists = λ now key r. (if r then answer false else failure, r);
}

read_only-IsReadOnly : IsReadOnly read_only
read_only-IsReadOnly = record {
  set_ex_rejects = λ now key ttl r. refl;
  exists_keeps = λ now key r. refl;
}

abbrev in_memory : RevocationService
in_memory = record {
  connected = false;
  fallback_set = [];
  fallback_user_set = [];
  use_redis = false;
  initialized = true;
}

abbrev on_redis : RevocationService
on_redis = record in_memory { connected = true; use_redis = true }

abbrev calls : List Call
calls = revoke_token 1 "a" 60 ∷ query_token 2 "b" ∷ revoke_user 3 "GABC" ∷ []

first_revoked : (is_revoked 9 "a" (run calls in_memory true).0 true).0 ≡ true
unfolding run is_revoked add_revoked_token revoke_all_for_user add_member init
first_revoked = refl

run-is_revoked_example :
    (is_revoked 9 "a" (run calls in_memory true).0 (run calls in_memory true).1).0
    ≡ any (revokes_token "a") calls || (is_revoked 9 "a" in_memory true).0
run-is_revoked_example =
    run-is_revoked calls in_memory true 9 "a"
      (record { is_initialized = refl; without_redis = refl })

run-rejected_example :
    let s' = (run calls on_redis true).0 in
    ((is_revoked 9 "a" s' false).0 ≡ (is_revoked 9 "a" on_redis false).0)
    × ((is_user_revoked 9 "GABC" s' false).0 ≡ (is_user_revoked 9 "GABC" on_redis false).0)
    × ((run calls on_redis true).1 ≡ true)
run-rejected_example =
    run-rejected read_only-IsReadOnly calls on_redis true false 9 "a" "GABC"
      (record { is_initialized = refl; with_redis = refl; is_connected = refl })

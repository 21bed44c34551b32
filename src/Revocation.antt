-- ===== src/Revocation.antt =====
-- backend/src/services/tokenRevocation.ts: the revoked refresh tokens and users, in Redis or, without
-- it, in the memory of the process.
pub mod Runs
pub mod Rejections
mod Tests
use stellar_portfolio_rebala.Prelude.{
  ℕ, max, String, Bool, true, false, ◌&&◌, List, [], ◌∷◌, ◌++◌, template, if◌then◌else◌,
}
use stellar_portfolio_rebala.Prelude.Sort.{includes}
use stellar_portfolio_rebala.Redis.{Redis, answer, failure}

-- `connected` says whether `redis` is not null.
pub record RevocationService : Type 0 where
  pub connected : Bool
  pub fallback_set : List String
  pub fallback_user_set : List String
  pub use_redis : Bool
  pub initialized : Bool

abbrev pub new_revocation_service : RevocationService
new_revocation_service = record {
  connected = false;
  fallback_set = [];
  fallback_user_set = [];
  use_redis = false;
  initialized = false;
}

-- `set.add(x)`
unfoldable pub add_member : String → List String → List String
add_member x xs = if includes x xs then xs else xs ++ x ∷ []

unfoldable pub token_key : String → String
token_key token_hash = template ("revoked_token:" ∷ token_hash ∷ [])

unfoldable pub user_key : String → String
user_key user_address = template ("revoked_user:" ∷ user_address ∷ [])

-- Seven days, in seconds.
abbrev pub revoked_user_ttl_sec : ℕ
revoked_user_ttl_sec = 604_800

unfoldable pub deinit : RevocationService → RevocationService
deinit s = record s { connected = false; initialized = false }

unfoldable pub reset_for_test : RevocationService → RevocationService
reset_for_test s = new_revocation_service

module _ {R : Type 0} ⦃redis : Redis R⦄ where
  open redis use {is_available, set_ex, exists}

  unfoldable pub init : RevocationService → R → RevocationService
  init s r = if s.initialized then s else record s {
    connected = if is_available r then true else s.connected;
    use_redis = is_available r;
    initialized = true;
  }

  -- A command that fails is logged, and nothing else. The time to live is a whole number of seconds.
  unfoldable pub add_revoked_token : ℕ → String → ℕ → RevocationService → R → RevocationService × R
  add_revoked_token now token_hash ttl s r =
      let s' = init s r in
      let (reply, r') = set_ex now (token_key token_hash) (max 1 ttl) r in
      if s'.use_redis && s'.connected
      then (s', r')
      else (record s' { fallback_set = add_member token_hash s'.fallback_set }, r)

  unfoldable pub is_revoked : ℕ → String → RevocationService → R → Bool × RevocationService × R
  is_revoked now token_hash s r =
      let s' = init s r in
      let (reply, r') = exists now (token_key token_hash) r in
      if s'.use_redis && s'.connected
      then elim reply [
        | answer found ↦ (found, s', r')
        | failure ↦ (includes token_hash s'.fallback_set, s', r')
      ]
      else (includes token_hash s'.fallback_set, s', r)

  unfoldable pub revoke_all_for_user : ℕ → String → RevocationService → R → RevocationService × R
  revoke_all_for_user now user_address s r =
      let s' = init s r in
      let (reply, r') = set_ex now (user_key user_address) revoked_user_ttl_sec r in
      if s'.use_redis && s'.connected
      then (s', r')
      else (record s' { fallback_user_set = add_member user_address s'.fallback_user_set }, r)

  unfoldable pub is_user_revoked : ℕ → String → RevocationService → R → Bool × RevocationService × R
  is_user_revoked now user_address s r =
      let s' = init s r in
      let (reply, r') = exists now (user_key user_address) r in
      if s'.use_redis && s'.connected
      then elim reply [
        | answer found ↦ (found, s', r')
        | failure ↦ (includes user_address s'.fallback_user_set, s', r')
      ]
      else (includes user_address s'.fallback_user_set, s', r)

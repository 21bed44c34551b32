-- ===== src/Revocation/Rejections.antt =====
-- What revocations do while the Redis server rejects every write.
use stellar_portfolio_rebala.Prelude.{ℕ, max, String, ◌≡◌, refl, true, List, [], ◌∷◌, arith}
use stellar_portfolio_rebala.Redis.{Redis, failure}
use stellar_portfolio_rebala.Revocation.{
  RevocationService, token_key, user_key, revoked_user_ttl_sec, init, add_revoked_token, is_revoked,
  revoke_all_for_user, is_user_revoked,
}
use stellar_portfolio_rebala.Revocation.Runs.{
  Call, revoke_token, revoke_user, query_token, query_user, run,
}

-- The service is initialized, and uses Redis.
pub record OnRedis (s : RevocationService) : Type 0 where
  pub is_initialized : s.initialized ≡ true
  pub with_redis : s.use_redis ≡ true
  pub is_connected : s.connected ≡ true

-- A server that rejects every write, such as one that has become a replica or is out of memory. Its
-- replies to a query of a key are any, failures included, and leave it as it is.
pub record IsReadOnly {R : Type 0} (redis : Redis R) : Type 0 where
  pub set_ex_rejects :
      (now : ℕ) (key : String) (ttl : ℕ) (r : R) → redis.set_ex now key ttl r ≡ (failure, r)
  pub exists_keeps : (now : ℕ) (key : String) (r : R) → (redis.exists now key r).1 ≡ r

module _ {R : Type 0} ⦃redis : Redis R⦄ (read_only : IsReadOnly redis) where
  add_revoked_token_lem :
      (now : ℕ) (hash : String) (ttl : ℕ) (s : RevocationService) (r : R)
      → OnRedis s
      → add_revoked_token now hash ttl s r ≡ (s, r)
  unfolding add_revoked_token init
  add_revoked_token_lem now hash ttl s r h =
      rw (read_only.set_ex_rejects now (token_key hash) (max 1 ttl) r)
        (ground (arith, h.is_initialized))

  revoke_all_for_user_lem :
      (now : ℕ) (address : String) (s : RevocationService) (r : R)
      → OnRedis s
      → revoke_all_for_user now address s r ≡ (s, r)
  unfolding revoke_all_for_user init
  revoke_all_for_user_lem now address s r h =
      rw (read_only.set_ex_rejects now (user_key address) revoked_user_ttl_sec r) (ground arith)

  is_revoked_lem :
      (now : ℕ) (hash : String) (s : RevocationService) (r : R)
      → OnRedis s
      → (is_revoked now hash s r).1 ≡ s × (is_revoked now hash s r).2 ≡ r
  unfolding is_revoked init
  is_revoked_lem now hash s r h = ground (arith, read_only.exists_keeps now (token_key hash) r)

  is_user_revoked_lem :
      (now : ℕ) (address : String) (s : RevocationService) (r : R)
      → OnRedis s
      → (is_user_revoked now address s r).1 ≡ s × (is_user_revoked now address s r).2 ≡ r
  unfolding is_user_revoked init
  is_user_revoked_lem now address s r h =
      ground (arith, read_only.exists_keeps now (user_key address) r)

  run_lem : (calls : List Call) (s : RevocationService) (r : R) → OnRedis s → run calls s r ≡ (s, r)
  unfolding run
  run_lem [] s r h = refl
  run_lem (revoke_token now hash ttl ∷ calls) s r h =
      rw (add_revoked_token_lem now hash ttl s r h, run) (run_lem calls s r h)
  run_lem (revoke_user now address ∷ calls) s r h =
      rw (revoke_all_for_user_lem now address s r h, run) (run_lem calls s r h)
  run_lem (query_token now hash ∷ calls) s r h =
      let same = is_revoked_lem now hash s r h in rw (same.0, same.1) (run_lem calls s r h)
  run_lem (query_user now address ∷ calls) s r h =
      let same = is_user_revoked_lem now address s r h in rw (same.0, same.1) (run_lem calls s r h)

  -- With Redis, while the server rejects every write and a query leaves it as it is, revocations are
  -- lost: after any run of calls the server is as it was, and for each token and each user a query
  -- gives the same answer as it would without the run, in any later state of the server, also in one
  -- that fails the query.
  pub run-rejected :
      (calls : List Call) (s : RevocationService) (r later : R) (now : ℕ) (token user : String)
      → OnRedis s
      → let s' = (run calls s r).0 in
        ((is_revoked now token s' later).0 ≡ (is_revoked now token s later).0)
        × ((is_user_revoked now user s' later).0 ≡ (is_user_revoked now user s later).0)
        × ((run calls s r).1 ≡ r)
  run-rejected calls s r later now token user h = rw (run_lem calls s r h) (refl, refl, refl)

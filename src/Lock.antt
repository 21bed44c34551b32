-- ===== src/Lock.antt =====
-- backend/src/services/rebalanceLock.ts: a lock for each portfolio, in Redis or, without it, in the
-- memory of the process. A method takes the time of its call and the state of the Redis server.
pub mod Exclusion
pub mod Outage
mod Tests
use stellar_portfolio_rebala.Prelude.{
  ℕ, ◌+◌, String, Bool, true, false, ◌&&◌, none, some, List, [], ◌∷◌, ltb, template, if◌then◌else◌,
}
use stellar_portfolio_rebala.Prelude.Table.{Table, lookup, insert, erase}
use stellar_portfolio_rebala.Redis.{Redis, Reply, answer, failure}

-- `connected` says whether `redis` is not null.
pub record LockService : Type 0 where
  pub connected : Bool
  pub fallback_locks : Table ℕ
  pub is_initialized : Bool
  pub use_redis : Bool

abbrev pub new_lock_service : LockService
new_lock_service = record {
  connected = false;
  fallback_locks = [];
  is_initialized = false;
  use_redis = false;
}

-- The default of `ttlMs`, five minutes.
abbrev pub default_ttl : ℕ
default_ttl = 300_000

unfoldable pub get_lock_key : String → String
get_lock_key portfolio_id = template ("lock:rebalance:" ∷ portfolio_id ∷ [])

unfoldable pub is_memory_locked : ℕ → String → LockService → Bool
is_memory_locked now key s = elim (lookup key s.fallback_locks) [
  | none ↦ false
  | some expiry ↦ ltb now expiry
]

unfoldable pub acquire_memory_lock : ℕ → String → ℕ → LockService → Bool × LockService
unfolding is_memory_locked
acquire_memory_lock now key ttl s =
    if is_memory_locked now key s
    then (false, s)
    else (true, record s { fallback_locks = insert key (now + ttl) s.fallback_locks })

unfoldable pub stop : LockService → LockService
stop s = record s { connected = false; is_initialized = false }

module _ {R : Type 0} ⦃redis : Redis R⦄ where
  open redis use {is_available, set_nx, del, exists}

  unfoldable pub init : LockService → R → LockService
  init s r = if s.is_initialized then s else record s {
    connected = if is_available r then true else s.connected;
    is_initialized = true;
    use_redis = is_available r;
  }

  -- The `catch` falls back to the lock in memory.
  unfoldable pub acquire_lock : ℕ → String → ℕ → LockService → R → Bool × LockService × R
  acquire_lock now portfolio_id ttl s r =
      let s' = init s r in
      let key = get_lock_key portfolio_id in
      let (reply, r') = set_nx now key ttl r in
      let (done, s'') = acquire_memory_lock now key ttl s' in
      if s'.use_redis && s'.connected
      then elim reply [ answer ok ↦ (ok, s', r') | failure ↦ (done, s'', r') ]
      else (done, s'', r)

  -- The lock in memory is dropped in any case.
  unfoldable pub release_lock : ℕ → String → LockService → R → LockService × R
  release_lock now portfolio_id s r =
      let key = get_lock_key portfolio_id in
      let s' = record s { fallback_locks = erase key s.fallback_locks } in
      let (reply, r') = del now key r in
      if s.is_initialized then if s.use_redis && s.connected then (s', r') else (s', r) else (s, r)

  unfoldable pub is_locked : ℕ → String → LockService → R → Bool × LockService × R
  is_locked now portfolio_id s r =
      let s' = init s r in
      let key = get_lock_key portfolio_id in
      let (reply, r') = exists now key r in
      if s'.use_redis && s'.connected
      then elim reply [
        | answer found ↦ (found, s', r')
        | failure ↦ (is_memory_locked now key s', s', r')
      ]
      else (is_memory_locked now key s', s', r)

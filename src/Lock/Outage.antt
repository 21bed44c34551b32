-- ===== src/Lock/Outage.antt =====
-- What the lock answers while every Redis command fails.
use stellar_portfolio_rebala.Prelude.{
  ℕ, ◌≡◌, refl, String, Bool, true, false, List, [], ◌∷◌, ◌++◌, arith,
}
use stellar_portfolio_rebala.Redis.{Redis, failure}
use stellar_portfolio_rebala.Lock.{
  LockService, get_lock_key, is_memory_locked, acquire_memory_lock, init, acquire_lock,
  release_lock, is_locked,
}
use stellar_portfolio_rebala.Lock.Exclusion.{Call, acquire, release, query}

-- A server that fails the commands whose replies the lock reads, in every state.
pub record IsDown {R : Type 0} (redis : Redis R) : Type 0 where
  pub set_nx_fails :
      (now : ℕ) (key : String) (ttl : ℕ) (r : R) → (redis.set_nx now key ttl r).0 ≡ failure
  pub exists_fails : (now : ℕ) (key : String) (r : R) → (redis.exists now key r).0 ≡ failure

-- The service as it would be without Redis, with the same locks in its memory.
abbrev pub in_memory : LockService → LockService
in_memory s = record s { use_redis = false }

module _ {R : Type 0} ⦃redis : Redis R⦄ where
  -- A call, with the answer of an acquisition or of a query.
  unfoldable pub step : Call → LockService → R → List Bool × LockService × R
  step (acquire now id ttl) s r =
      let (done, s', r') = acquire_lock now id ttl s r in (done ∷ [], s', r')
  step (release now id) s r = let (s', r') = release_lock now id s r in ([], s', r')
  step (query now id) s r = let (locked, s', r') = is_locked now id s r in (locked ∷ [], s', r')

  -- The answers of a run, in order.
  unfoldable pub answers : List Call → LockService → R → List Bool
  answers [] s r = []
  answers (call ∷ calls) s r = let (given, s', r') = step call s r in given ++ answers calls s' r'

  step_lem :
      (call : Call) (s : LockService) (r r' : R)
      → IsDown redis
      → s.is_initialized ≡ true
      → ((step call s r).0 ≡ (step call (in_memory s) r').0)
        × (in_memory (step call s r).1 ≡ (step call (in_memory s) r').1)
        × ((step call s r).1.is_initialized ≡ true)
  unfolding step acquire_lock release_lock is_locked init acquire_memory_lock is_memory_locked
  step_lem (acquire now id ttl) s r r' down h =
      ground (arith, h, down.set_nx_fails now (get_lock_key id) ttl r)
  step_lem (release now id) s r r' down h = ground (arith, h)
  step_lem (query now id) s r r' down h =
      ground (arith, h, down.exists_fails now (get_lock_key id) r)

  -- While Redis fails every command, an initialized service answers each call of any run as it would
  -- without Redis, from the locks in its memory alone, whatever the state of the server is there.
  pub answers-in_memory :
      (calls : List Call) (s : LockService) (r r' : R)
      → IsDown redis
      → s.is_initialized ≡ true
      → answers calls s r ≡ answers calls (in_memory s) r'
  unfolding answers
  answers-in_memory [] s r r' down h = refl
  answers-in_memory (call ∷ calls) s r r' down h =
      let (same, left, ready) = step_lem call s r r' down h in
      let rest =
        answers-in_memory calls (step call s r).1 (step call s r).2 (step call (in_memory s) r').2
          down ready in
      rw (same, rest, left) refl

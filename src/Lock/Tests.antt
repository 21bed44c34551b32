-- ===== src/Lock/Tests.antt =====
-- Runs of the rebalance lock, and its theorems at concrete inputs.
use stellar_portfolio_rebala.Prelude.{◌≡◌, refl, true, false, List, [], ◌∷◌, arith, template}
use stellar_portfolio_rebala.Prelude.Table.{lookup, insert, erase}
use stellar_portfolio_rebala.Redis.{Redis, failure}
use stellar_portfolio_rebala.Lock.{
  LockService, get_lock_key, is_memory_locked, acquire_memory_lock, init, acquire_lock,
  release_lock, is_locked,
}
use stellar_portfolio_rebala.Lock.Exclusion.{
  InMemory, Call, acquire, release, query, run, acquire_lock_exclusive, release_lock-acquire_lock,
}
use stellar_portfolio_rebala.Lock.Outage.{IsDown, in_memory, step, answers, answers-in_memory}

-- A server that answers no command.
instance abbrev down : Redis (Unit {0})
down = record {
  is_available = λ r. false;
  set_nx = λ now key ttl r. (failure, r);
  set_ex = λ now key ttl r. (failure, r);
  del = λ now key r. (failure, r);
  exists = λ now key r. (failure, r);
}

abbrev idle : LockService
idle = record { connected = false; fallback_locks = []; is_initialized = true; use_redis = false }

idle-InMemory : InMemory idle
idle-InMemory = record { initialized = refl; without_redis = refl }

idle_acquires : (acquire_lock 1000 "p1" 500 idle tt).0 ≡ true
unfolding acquire_lock init acquire_memory_lock lookup
idle_acquires = refl

acquire_lock_exclusive_example :
    let calls = acquire 1100 "p2" 500 ∷ release 1200 "p2" ∷ query 1300 "p1" ∷ [] in
    let (done, s', r') = acquire_lock 1000 "p1" 500 idle tt in
    let (s'', r'') = run calls s' r' in (acquire_lock 1400 "p1" 300_000 s'' r'').0 ≡ false
acquire_lock_exclusive_example =
    acquire_lock_exclusive 1000 1400 "p1" 500 300_000
      (acquire 1100 "p2" 500 ∷ release 1200 "p2" ∷ query 1300 "p1" ∷ []) idle tt idle-InMemory
      idle_acquires (omega arith, (refl, (tt, tt))) (omega arith)

-- The first holder's time ends at 1500; a second one acquires until 2100 and is undone at 1700.
abbrev second : LockService
second = (acquire_lock 1600 "p1" 500 (acquire_lock 1000 "p1" 500 idle tt).1 tt).1

second-InMemory : InMemory second
unfolding acquire_lock init acquire_memory_lock lookup insert get_lock_key template
second-InMemory = record { initialized = refl; without_redis = refl }

release_lock-acquire_lock_example :
    let (s', r') = release_lock 1700 "p1" second tt in (acquire_lock 1800 "p1" 500 s' r').0 ≡ true
release_lock-acquire_lock_example =
    release_lock-acquire_lock 1700 1800 "p1" 500 second tt second-InMemory

abbrev on_redis : LockService
on_redis = record idle { connected = true; use_redis = true }

down-IsDown : IsDown down
down-IsDown = record { set_nx_fails = λ now key ttl r. refl; exists_fails = λ now key r. refl }

abbrev outage : List Call
outage = acquire 1000 "p1" 500 ∷ acquire 1100 "p1" 500 ∷ release 1200 "p1" ∷ query 1300 "p1" ∷ []

-- The second acquisition is refused, and the release frees the lock.
outage-answers : answers outage on_redis tt ≡ true ∷ false ∷ false ∷ []
unfolding answers step acquire_lock release_lock is_locked init acquire_memory_lock is_memory_locked
    lookup insert erase get_lock_key template
outage-answers = refl

answers-in_memory_example : answers outage on_redis tt ≡ answers outage (in_memory on_redis) tt
answers-in_memory_example = answers-in_memory outage on_redis tt tt down-IsDown refl

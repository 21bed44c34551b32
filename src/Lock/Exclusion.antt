-- ===== src/Lock/Exclusion.antt =====
-- Mutual exclusion of the lock in memory, and what a release frees.
use text.Mathlib.TextLemmas.{append_cancel_left, append_cancel_right}
use stellar_portfolio_rebala.Prelude.{
  ℕ, ◌+◌, ◌<◌, ◌≡◌, String, Bool, true, false, not, none, some, Option, List, [], ◌∷◌, arith, inl,
  inr, Bool-cases, str_eq, eq_iff, eq_refl, leb, All, template,
}
use stellar_portfolio_rebala.Prelude.Table.{lookup, erase, lookup-insert, lookup-erase}
use stellar_portfolio_rebala.Lock.{
  LockService, get_lock_key, is_memory_locked, acquire_memory_lock, init, acquire_lock,
  release_lock, is_locked,
}
use stellar_portfolio_rebala.Redis.{Redis}

-- The service runs on the lock in memory.
pub record InMemory (s : LockService) : Type 0 where
  pub initialized : s.is_initialized ≡ true
  pub without_redis : s.use_redis ≡ false

-- The lock in memory for a key lasts until `until` at least.
abbrev lasts : ℕ → Option ℕ → Bool
lasts until none = false
lasts until (some expiry) = leb until expiry

abbrev pub HeldUntil : String → ℕ → LockService → Type 0
HeldUntil id until s = lasts until (lookup (get_lock_key id) s.fallback_locks) ≡ true

-- The calls of other parts of the process.
pub data Call : Type 0 where
  acquire : ℕ → String → ℕ → Call
  release : ℕ → String → Call
  query : ℕ → String → Call

-- A call before `until` that does not release the lock of `id`.
abbrev pub Leaves : String → ℕ → Call → Type 0
Leaves id until (acquire now other ttl) = now < until
Leaves id until (release now other) = str_eq other id ≡ false
Leaves id until (query now other) = Unit

get_lock_key_ne :
    (a b : String) → str_eq a b ≡ false → str_eq (get_lock_key a) (get_lock_key b) ≡ false
unfolding get_lock_key template
get_lock_key_ne a b h = elim (Bool-cases (str_eq (get_lock_key a) (get_lock_key b))) [
  | inr other ↦ other
  | inl same ↦
      let whole = (eq_iff (get_lock_key a) (get_lock_key b)).0 same in
      let ids : a ≡ b =
        append_cancel_right a b "" (append_cancel_left "lock:rebalance:" _ _ whole) in
      absurd (ground (arith, eq_iff a b, ids))
]

-- The functions on the memory, on any key.
acquire_memory_lock-HeldUntil :
    (now : ℕ) (key id : String) (ttl until : ℕ) (s : LockService)
    → HeldUntil id until s
    → now < until
    → HeldUntil id until (acquire_memory_lock now key ttl s).1
unfolding acquire_memory_lock
acquire_memory_lock-HeldUntil now key id ttl until s h soon = ground (
  arith,
  eq_iff key (get_lock_key id),
  lookup-insert key (get_lock_key id) (now + ttl) s.fallback_locks,
)

acquire_memory_lock_busy :
    (now : ℕ) (id : String) (ttl until : ℕ) (s : LockService)
    → HeldUntil id until s
    → now < until
    → (acquire_memory_lock now (get_lock_key id) ttl s).0 ≡ false
unfolding acquire_memory_lock
acquire_memory_lock_busy now id ttl until s h soon = ground arith

acquire_memory_lock_done :
    (now : ℕ) (id : String) (ttl : ℕ) (s : LockService)
    → (acquire_memory_lock now (get_lock_key id) ttl s).0 ≡ true
    → HeldUntil id (now + ttl) (acquire_memory_lock now (get_lock_key id) ttl s).1
unfolding acquire_memory_lock
acquire_memory_lock_done now id ttl s h = ground (
  arith,
  eq_refl (get_lock_key id),
  lookup-insert (get_lock_key id) (get_lock_key id) (now + ttl) s.fallback_locks,
)

acquire_memory_lock-InMemory :
    (now : ℕ) (key : String) (ttl : ℕ) (s : LockService)
    → InMemory s
    → InMemory (acquire_memory_lock now key ttl s).1
unfolding acquire_memory_lock
acquire_memory_lock-InMemory now key ttl s h = ground arith

-- The service after a release in memory.
abbrev dropped : String → LockService → LockService
dropped id s = record s { fallback_locks = erase (get_lock_key id) s.fallback_locks }

dropped-HeldUntil :
    (other id : String) (until : ℕ) (s : LockService)
    → str_eq other id ≡ false
    → HeldUntil id until s
    → HeldUntil id until (dropped other s)
dropped-HeldUntil other id until s ne h = ground (
  arith,
  get_lock_key_ne other id ne,
  lookup-erase (get_lock_key other) (get_lock_key id) s.fallback_locks,
)

module _ {R : Type 0} ⦃redis : Redis R⦄ where
  unfoldable pub run : List Call → LockService → R → LockService × R
  run [] s r = (s, r)
  run (acquire now id ttl ∷ calls) s r =
      let (done, s', r') = acquire_lock now id ttl s r in run calls s' r'
  run (release now id ∷ calls) s r = let (s', r') = release_lock now id s r in run calls s' r'
  run (query now id ∷ calls) s r = let (locked, s', r') = is_locked now id s r in run calls s' r'

  -- In memory, a call is a call of the memory's function and leaves Redis alone.
  acquire_lock_lem :
      (now : ℕ) (id : String) (ttl : ℕ) (s : LockService) (r : R)
      → InMemory s
      → let (done, s') = acquire_memory_lock now (get_lock_key id) ttl s in
        acquire_lock now id ttl s r ≡ (done, s', r)
  unfolding acquire_lock init
  acquire_lock_lem now id ttl s r h = rw (h.initialized, h.without_redis)

  release_lock_lem :
      (now : ℕ) (id : String) (s : LockService) (r : R)
      → InMemory s
      → release_lock now id s r ≡ (dropped id s, r)
  unfolding release_lock
  release_lock_lem now id s r h = rw (h.initialized, h.without_redis)

  is_locked_lem :
      (now : ℕ) (id : String) (s : LockService) (r : R)
      → InMemory s
      → is_locked now id s r ≡ (is_memory_locked now (get_lock_key id) s, s, r)
  unfolding is_locked init
  is_locked_lem now id s r h = rw (h.initialized, h.without_redis)

  run-HeldUntil :
      (id : String) (until : ℕ) (calls : List Call) (s : LockService) (r : R)
      → InMemory s
      → HeldUntil id until s
      → All (Leaves id until) calls
      → InMemory (run calls s r).0 × HeldUntil id until (run calls s r).0
  unfolding run
  run-HeldUntil id until [] s r m h l = (m, h)
  run-HeldUntil id until (acquire now other ttl ∷ calls) s r m h l =
      rw (acquire_lock_lem now other ttl s r m, run)
        (run-HeldUntil id until calls (acquire_memory_lock now (get_lock_key other) ttl s).1 r
          (acquire_memory_lock-InMemory now _ ttl s m)
          (acquire_memory_lock-HeldUntil now _ id ttl until s h l.0) l.1)
  run-HeldUntil id until (release now other ∷ calls) s r m h l =
      rw (release_lock_lem now other s r m, run)
        (run-HeldUntil id until calls (dropped other s) r
          (record { initialized = m.initialized; without_redis = m.without_redis })
          (dropped-HeldUntil other id until s l.0 h) l.1)
  run-HeldUntil id until (query now other ∷ calls) s r m h l =
      rw (is_locked_lem now other s r m, run) (run-HeldUntil id until calls s r m h l.1)

  -- Mutual exclusion without Redis: once a lock is acquired for `ttl` milliseconds, it cannot be
  -- acquired again before they have passed, whatever other calls come before, as long as none
  -- of them releases it.
  pub acquire_lock_exclusive :
      (t0 t : ℕ) (id : String) (ttl ttl' : ℕ) (calls : List Call) (s : LockService) (r : R)
      → InMemory s
      → (acquire_lock t0 id ttl s r).0 ≡ true
      → All (Leaves id (t0 + ttl)) calls
      → t < t0 + ttl
      → let (done, s', r') = acquire_lock t0 id ttl s r in
        let (s'', r'') = run calls s' r' in (acquire_lock t id ttl' s'' r'').0 ≡ false
  acquire_lock_exclusive t0 t id ttl ttl' calls s r m done l soon =
      let e = acquire_lock_lem t0 id ttl s r m in
      let s' = (acquire_memory_lock t0 (get_lock_key id) ttl s).1 in
      let first : (acquire_memory_lock t0 (get_lock_key id) ttl s).0 ≡ true = rw e at done in
      let (m', held) =
        run-HeldUntil id (t0 + ttl) calls s' r (acquire_memory_lock-InMemory t0 _ ttl s m)
          (acquire_memory_lock_done t0 id ttl s first) l in
      rw (e, acquire_lock_lem t id ttl' (run calls s' r).0 (run calls s' r).1 m')
        (acquire_memory_lock_busy t id ttl' (t0 + ttl) (run calls s' r).0 held soon)

  -- Without Redis, `isLocked` tells exactly when an acquisition would fail.
  pub is_locked-acquire_lock :
      (now : ℕ) (id : String) (ttl : ℕ) (s : LockService) (r : R)
      → InMemory s
      → (is_locked now id s r).0 ≡ not (acquire_lock now id ttl s r).0
  unfolding acquire_memory_lock
  is_locked-acquire_lock now id ttl s r m =
      rw (is_locked_lem now id s r m, acquire_lock_lem now id ttl s r m) (ground arith)

  -- Without Redis, a release frees the lock whoever holds it: also the release of a holder whose
  -- time had run out, while another one holds the lock.
  pub release_lock-acquire_lock :
      (now t : ℕ) (id : String) (ttl : ℕ) (s : LockService) (r : R)
      → InMemory s
      → let (s', r') = release_lock now id s r in (acquire_lock t id ttl s' r').0 ≡ true
  unfolding acquire_memory_lock is_memory_locked
  release_lock-acquire_lock now t id ttl s r m =
      rw
        (
          release_lock_lem now id s r m,
          acquire_lock_lem t id ttl (dropped id s) r
              (record { initialized = m.initialized; without_redis = m.without_redis }),
        )
        (ground (
          arith,
          eq_refl (get_lock_key id),
          lookup-erase (get_lock_key id) (get_lock_key id) s.fallback_locks,
        ))

-- ===== src/Redis.antt =====
-- The Redis server as the services use it: a parameter, of any type of server states. A command
-- carries the time at which the server runs it; a reply can be a failure (a rejected promise).
use stellar_portfolio_rebala.Prelude.{ℕ, String, Bool, List}

pub data Reply (A : Type 0) : Type 0 where
  answer : A → Reply A
  failure : Reply A

pub record Redis (R : Type 0) : Type 0 where
  -- What `isRedisAvailable` finds.
  pub is_available : R → Bool
  -- `SET key value PX ttl NX`: whether the reply is OK.
  pub set_nx : ℕ → String → ℕ → R → Reply Bool × R
  -- `SET key value EX ttl`.
  pub set_ex : ℕ → String → ℕ → R → Reply (Unit {0}) × R
  pub del : ℕ → String → R → Reply (Unit {0}) × R
  -- `EXISTS key`: whether the reply is 1.
  pub exists : ℕ → String → R → Reply Bool × R

-- The commands on lists, of texts.
pub record RedisList (R : Type 0) : Type 0 where
  pub is_available : R → Bool
  pub rpush : String → String → R → Reply (Unit {0}) × R
  -- `LRANGE key 0 -1`
  pub lrange : String → R → Reply (List String) × R
  -- `LREM key 1 text`
  pub lrem : String → String → R → Reply (Unit {0}) × R

-- ===== src/Idempotency.antt =====
-- backend/src/middleware/idempotency.ts, services/idempotencyRedisStore.ts and db/idempotencyDb.ts: a
-- request that is repeated with its key is meant to get the response of the first.
-- The SQL statements are what they do to the rows of the table idempotency_keys; they do not fail.
pub mod Replays
pub mod Cleanup
mod Tests
use stellar_portfolio_rebala.Prelude.{
  ℕ, suc, ◌+◌, ◌-◌, ◌*◌, ◌/◌, String, Bool, true, false, not, ◌||◌, Option, none, some, List, [],
  ◌∷◌, ◌++◌, filter, any, length, ltb, str_eq, template, text_length, if◌then◌else◌,
}
use stellar_portfolio_rebala.Async.{
  Outcome, returned, Run, ◌>>=◌, ◌>>◌, pure, catching, lift, reading, modifying, outside,
}

pub record IdempotencyRecord : Type 0 where
  pub key : String
  pub request_hash : String
  pub method : String
  pub path : String
  pub status_code : ℕ
  pub response_body : String
  pub created_at : ℕ
  pub expires_at : ℕ

-- The table, and `redisAvailable`, none where it is null.
pub record Stores : Type 0 where
  pub rows : List IdempotencyRecord
  pub redis_available : Option Bool

-- `body` is the text that `stableStringify(req.body ?? {})` gives.
pub record Request : Type 0 where
  pub key_header : Option String
  pub user_address : Option String
  pub public_key_header : Option String
  pub method : String
  pub path : String
  pub body : String

-- `refused` has the status, the code and the message; `passed` is the response of a request without a
-- key, and `answered` one with the header Idempotency-Key.
pub data Response (B : Type 0) : Type 0 where
  refused : ℕ → String → String → Response B
  replayed passed answered : ℕ → B → Response B

-- SHA-256, and the JSON of stored results, of which the fields but for the two times are kept.
pub record Encoding : Type 0 where
  pub sha256 : String → String
  pub encode : IdempotencyRecord → String
  pub decode : String → Outcome IdempotencyRecord

-- `JSON.stringify` and `JSON.parse` of response bodies.
pub record Bodies (B : Type 0) : Type 0 where
  pub stringify : B → String
  pub parse : String → Outcome B

-- The clock and Redis.
pub record Server (W : Type 0) : Type 0 where
  pub clock : W → ℕ
  pub redis_probe : Run W Bool
  pub redis_get : String → Run W (Option String)
  pub redis_setex : String → ℕ → String → Run W (Unit {0})

abbrev pub ttl_seconds : ℕ
ttl_seconds = 24 * 60 * 60

abbrev pub or_key : Option String → String → String
or_key none d = d
or_key (some s) d = s

-- `existingRedis ?? dbGetIdempotencyResult(key)`
abbrev pub first_of : Option IdempotencyRecord → Option IdempotencyRecord → Option IdempotencyRecord
first_of none d = d
first_of (some r) d = some r

-- `datetime(expires_at) > datetime('now')`, which compares whole seconds.
abbrev pub is_current : ℕ → IdempotencyRecord → Bool
is_current now row = ltb (now / 1000) (row.expires_at / 1000)

abbrev pub has_key : String → IdempotencyRecord → Bool
has_key key row = str_eq row.key key

-- `SELECT * ... WHERE key = ? AND datetime(expires_at) > datetime('now')`
unfoldable pub find_current : ℕ → String → List IdempotencyRecord → Option IdempotencyRecord
find_current now key [] = none
find_current now key (row ∷ rows) =
    let rest = find_current now key rows in
    if has_key key row then (if is_current now row then some row else rest) else rest

unfoldable pub db_get_idempotency_result : ℕ → String → Stores → Option IdempotencyRecord
db_get_idempotency_result now key s = find_current now key s.rows

-- `INSERT OR IGNORE`, where the key is the primary key.
unfoldable pub db_store_idempotency_result : IdempotencyRecord → Stores → Stores
db_store_idempotency_result row s =
    if any (has_key row.key) s.rows then s else record s { rows = s.rows ++ row ∷ [] }

-- The number of deleted rows, and the rows that are left.
unfoldable pub db_cleanup_expired_idempotency_keys : ℕ → Stores → ℕ × Stores
db_cleanup_expired_idempotency_keys now s =
    let kept = filter (is_current now) s.rows in
    (length s.rows - length kept, record s { rows = kept })

-- The event `error` of the connection.
unfoldable pub connection_error : Stores → Stores
connection_error s = record s { redis_available = some false }

abbrev pub redis_key : String → String
redis_key key = template ("idempotency:" ∷ key ∷ [])

abbrev with_times : ℕ → IdempotencyRecord → IdempotencyRecord
with_times now parsed = record parsed {
  created_at = now - ttl_seconds * 1000;
  expires_at = now + ttl_seconds * 1000;
}

-- A header that is missing is as good as an empty one.
abbrev pub key_of : Request → String
key_of req = or_key req.key_header ""

abbrev pub request_user : Request → String
request_user req = or_key req.user_address (or_key req.public_key_header "anonymous")

-- The hash of the four updates, which have nothing between them.
unfoldable pub request_hash_of : ⦃encoding : Encoding⦄ → Request → String
request_hash_of ⦃encoding⦄ req =
    encoding.sha256 (template (req.method ∷ req.path ∷ req.body ∷ request_user req ∷ []))

abbrev pub result_of :
    {B : Type 0} ⦃encoding : Encoding⦄ ⦃bodies : Bodies B⦄
    → ℕ
    → String
    → Request
    → ℕ
    → B
    → IdempotencyRecord
result_of ⦃bodies = bodies⦄ now key req status body = record {
  key = key;
  request_hash = request_hash_of req;
  method = req.method;
  path = req.path;
  status_code = status;
  response_body = bodies.stringify body;
  created_at = now;
  expires_at = now + ttl_seconds * 1000;
}

module _ {W : Type 0} ⦃server : Server W⦄ where
  open server use {clock, redis_probe, redis_get, redis_setex}

  abbrev pub now_of : Run (Stores × W) ℕ
  now_of h = (returned (clock h.1), h)

  -- Whether Redis may be used; the first call asks for it.
  unfoldable pub get_redis : Run (Stores × W) Bool
  get_redis = do
    known ← reading (λ s. s.redis_available)
    elim known [
      | some available ↦ pure available
      | none ↦ do
        available ← catching (λ message. false) (outside redis_probe)
        modifying (λ s. (available, record s { redis_available = some available }))
    ]

  unfoldable pub redis_store_idempotency_result :
      ⦃encoding : Encoding⦄ → IdempotencyRecord → Run (Stores × W) (Unit {0})
  redis_store_idempotency_result ⦃encoding⦄ row =
      catching (λ message. tt)
        (do
          available ← get_redis
          if available
              then outside (redis_setex (redis_key row.key) ttl_seconds (encoding.encode row))
              else pure tt)

  unfoldable pub redis_get_idempotency_result :
      ⦃encoding : Encoding⦄ → String → Run (Stores × W) (Option IdempotencyRecord)
  redis_get_idempotency_result ⦃encoding⦄ key =
      catching (λ message. none)
        (do
          available ← get_redis
          if available
              then (do
                raw ← outside (redis_get (redis_key key))
                elim raw [
                  | none ↦ pure none
                  | some text ↦ if str_eq text "" then pure none else (do
                    parsed ← lift (encoding.decode text)
                    now ← now_of
                    pure (some (with_times now parsed)))
                ])
              else pure none)

module _ {B W : Type 0} ⦃server : Server W⦄ ⦃encoding : Encoding⦄ ⦃bodies : Bodies B⦄ where
  -- The function that takes the place of `res.json`. The call of Redis is not awaited.
  unfoldable pub store_and_answer : String → Request → ℕ → B → Run (Stores × W) (Response B)
  store_and_answer key req status body = do
    now ← now_of
    modifying (λ s. (tt, db_store_idempotency_result (result_of now key req status body) s))
    redis_store_idempotency_result (result_of now key req status body)
    pure (answered status body)

  -- The answer of a request whose key has a result.
  unfoldable pub replay : Request → IdempotencyRecord → Run (Stores × W) (Response B)
  replay req existing =
      if not (str_eq existing.request_hash (request_hash_of req))
      then pure
          (refused 409 "CONFLICT" "Idempotency-Key already used with a different request payload")
      else (do
        body ← lift (bodies.parse existing.response_body)
        pure (replayed existing.status_code body))

  -- `next` is the rest of the route, which gives the arguments of its one call of `res.json`, that of
  -- the error handler included.
  abbrev pub carry_out : (W → (ℕ × B) × W) → Run (Stores × W) (ℕ × B)
  carry_out next = outside λ w. (returned (next w).0, (next w).1)

  -- What follows the look for an earlier result.
  unfoldable pub replay_or_next :
      Request → (W → (ℕ × B) × W) → Option IdempotencyRecord → Run (Stores × W) (Response B)
  replay_or_next req next (some existing) = replay req existing
  replay_or_next req next none = carry_out next >>= λ a. store_and_answer (key_of req) req a.0 a.1

  unfoldable pub idempotency_middleware :
      Request → (W → (ℕ × B) × W) → Run (Stores × W) (Response B)
  idempotency_middleware req next =
      let key = key_of req in
      if str_eq key ""
      then (carry_out next >>= λ a. pure (passed a.0 a.1))
      else if ltb (text_length key) 1 || ltb 255 (text_length key)
      then pure
          (refused 400 "VALIDATION_ERROR" "Idempotency-Key must be between 1 and 255 characters")
      else (do
        from_redis ← redis_get_idempotency_result key
        now ← now_of
        from_db ← reading (db_get_idempotency_result now key)
        replay_or_next req next (first_of from_redis from_db))

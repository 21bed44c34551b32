-- ===== src/Idempotency/Tests.antt =====
-- Requests with and without a key, and the theorems at concrete inputs.
use stellar_portfolio_rebala.Prelude.{
  ℕ, suc, ◌+◌, ◌≡◌, refl, String, true, false, none, some, [], ◌∷◌, all, length, str_eq,
  text_length, if◌then◌else◌, arith,
}
use stellar_portfolio_rebala.Async.{returned}
use stellar_portfolio_rebala.Idempotency.{
  IdempotencyRecord, Request, refused, replayed, answered, Encoding, Bodies, Server, is_current,
  find_current, request_hash_of, db_get_idempotency_result, db_cleanup_expired_idempotency_keys,
  idempotency_middleware,
}
use stellar_portfolio_rebala.Idempotency.Replays.{
  IsUsable, without_redis, idempotency_middleware_once, idempotency_middleware_expired,
}
use stellar_portfolio_rebala.Idempotency.Cleanup.{db_cleanup_expired_idempotency_keys-find}

-- A result of this key, of the first second.
abbrev old_row : IdempotencyRecord
old_row = record {
  key = "k1";
  request_hash = "h";
  method = "POST";
  path = "/rebalance";
  status_code = 200;
  response_body = "{}";
  created_at = 0;
  expires_at = 1000;
}

-- The text itself serves as its hash and as its JSON.
instance abbrev test_encoding : Encoding
test_encoding = record { sha256 = λ s. s; encode = λ row. ""; decode = λ text. returned old_row }

instance abbrev test_bodies : Bodies String
test_bodies = record { stringify = λ body. body; parse = λ text. returned text }

-- The clock and the number of requests that were carried out.
abbrev World : Type 0
World = ℕ × ℕ

instance abbrev test_server : Server World
test_server = record {
  clock = λ w. w.0;
  redis_probe = λ w. (returned false, w);
  redis_get = λ key w. (returned none, w);
  redis_setex = λ key seconds value w. (returned tt, w);
}

abbrev request : String → Request
request body = record {
  key_header = some "k1";
  user_address = none;
  public_key_header = none;
  method = "POST";
  path = "/rebalance";
  body = body;
}

abbrev route : World → (ℕ × String) × World
route w = ((201, "done"), (w.0, suc w.1))

-- A route that fails, as for want of its services.
abbrev failing_route : World → (ℕ × String) × World
failing_route w = ((503, "unavailable"), (w.0, suc w.1))

k1-IsUsable : IsUsable "k1"
unfolding text_length
k1-IsUsable = (refl, refl)

old_row_gone : find_current 5000 "k1" (old_row ∷ []) ≡ none
unfolding find_current
old_row_gone = refl

-- The failure is kept, and is the answer of the same request where the route would now succeed.
idempotency_middleware_once_example :
    let first = idempotency_middleware (request "a") failing_route (without_redis [], (5000, 0)) in
    (first.0 ≡ returned (answered 503 "unavailable"))
    × (idempotency_middleware (request "a") route (first.1.0, (9000, 1)) ≡ (
      returned (
          if str_eq (request_hash_of (request "a")) (request_hash_of (request "a"))
          then replayed 503 "unavailable"
          else refused 409 "CONFLICT"
              "Idempotency-Key already used with a different request payload"),
      (first.1.0, (9000, 1)),
    ))
idempotency_middleware_once_example =
    idempotency_middleware_once [] (5000, 0) (9000, 1) (request "a") (request "a") failing_route
      route k1-IsUsable refl refl refl (omega arith)

idempotency_middleware_expired_example :
    let first =
      idempotency_middleware (request "a") route (without_redis (old_row ∷ []), (5000, 0)) in
    (first.1 ≡ (without_redis (old_row ∷ []), (5000, 1)))
    × (idempotency_middleware (request "a") route (first.1.0, (9000, 1))
        ≡ (returned (answered 201 "done"), (without_redis (old_row ∷ []), (9000, 2))))
idempotency_middleware_expired_example =
    idempotency_middleware_expired (old_row ∷ []) (5000, 0) (9000, 1) (request "a") (request "a")
      route route k1-IsUsable refl old_row_gone refl (omega arith)

db_cleanup_expired_idempotency_keys-find_example :
    let s = without_redis (old_row ∷ []) in
    let (removed, after) = db_cleanup_expired_idempotency_keys 5000 s in
    (db_get_idempotency_result 6000 "k1" after ≡ db_get_idempotency_result 6000 "k1" s)
    × ((all (is_current 5000) after.rows ≡ true) × (removed + length after.rows ≡ 1))
db_cleanup_expired_idempotency_keys-find_example =
    db_cleanup_expired_idempotency_keys-find 5000 6000 "k1" (without_redis (old_row ∷ []))
      (omega arith)

-- ===== src/Idempotency/Replays.antt =====
-- What a second request with the same key gets, without Redis.
use stellar_portfolio_rebala.Prelude.{
  ℕ, ◌+◌, ◌*◌, ◌/◌, ◌<◌, ◌≤◌, ◌≡◌, refl, sym, ap, subst, ◌∙◌, inl, inr, String, true, false, ◌||◌,
  none, some, List, [], ◌∷◌, ◌++◌, any, ltb, str_eq, eq_refl, text_length, if◌then◌else◌, arith,
  Bool-cases, lt→ltb,
}
use stellar_portfolio_rebala.Async.{returned, ◌>>=◌, ◌>>◌, pure, catching, outside}
use stellar_portfolio_rebala.Idempotency.{
  IdempotencyRecord, Stores, Request, refused, replayed, answered, Encoding, Bodies, Server,
  ttl_seconds, key_of, is_current, has_key, find_current, db_get_idempotency_result,
  db_store_idempotency_result, get_redis, redis_store_idempotency_result,
  redis_get_idempotency_result, request_hash_of, result_of, store_and_answer, replay,
  replay_or_next, idempotency_middleware,
}

-- A key that the middleware takes.
abbrev pub IsUsable : String → Type 0
IsUsable key =
    (str_eq key "" ≡ false) × ((ltb (text_length key) 1 || ltb 255 (text_length key)) ≡ false)

-- Stores whose Redis is not available.
abbrev pub without_redis : List IdempotencyRecord → Stores
without_redis rows = record { rows = rows; redis_available = some false }

module _ {B W : Type 0} ⦃server : Server W⦄ ⦃encoding : Encoding⦄ ⦃bodies : Bodies B⦄ where
  middleware_lem :
      (rows : List IdempotencyRecord) (w : W) (req : Request) (next : W → (ℕ × B) × W)
      → IsUsable (key_of req)
      → idempotency_middleware req next (without_redis rows, w)
        ≡ replay_or_next req next
            (find_current (server.clock w) (key_of req) rows)
            (without_redis rows, w)
  unfolding idempotency_middleware ◌>>=◌ db_get_idempotency_result redis_get_idempotency_result
      get_redis catching
  middleware_lem rows w req next (given, fits) = rw (given, fits) refl

  -- Redis has no part in what follows the change of the table.
  end_lem :
      (rows : List IdempotencyRecord) (w : W) (row : IdempotencyRecord) (status : ℕ) (body : B)
      → (redis_store_idempotency_result row >> pure (answered status body)) (without_redis rows, w)
        ≡ (returned (answered status body), (without_redis rows, w))
  unfolding ◌>>=◌ redis_store_idempotency_result get_redis catching
  end_lem rows w row status body = refl

  store_lem :
      (rows after : List IdempotencyRecord) (w : W) (req : Request) (next : W → (ℕ × B) × W)
      → let ((status, body), w') = next w in
        let row = result_of (server.clock w') (key_of req) req status body in
        db_store_idempotency_result row (without_redis rows) ≡ without_redis after
        → replay_or_next req next none (without_redis rows, w)
          ≡ (returned (answered status body), (without_redis after, w'))
  unfolding replay_or_next store_and_answer ◌>>=◌ outside
  store_lem rows after w req next e =
      let ((status, body), w') = next w in
      let row = result_of (server.clock w') (key_of req) req status body in
      ap (λ s. (redis_store_idempotency_result row >> pure (answered status body)) (s, w')) e
      ∙ end_lem after w' row status body

find_current-append :
    (now : ℕ) (key : String) (rows : List IdempotencyRecord) (row : IdempotencyRecord)
    → any (has_key key) rows ≡ false
    → find_current now key (rows ++ row ∷ [])
      ≡ (if has_key key row then (if is_current now row then some row else none) else none)
unfolding find_current
find_current-append now key [] row h = refl
find_current-append now key (other ∷ rows) row h =
    ground (arith, h, find_current-append now key rows row)

find_current-absent :
    (now : ℕ) (key : String) (rows : List IdempotencyRecord)
    → any (has_key key) rows ≡ false
    → find_current now key rows ≡ none
unfolding find_current
find_current-absent now key [] h = refl
find_current-absent now key (other ∷ rows) h = ground (arith, h, find_current-absent now key rows)

-- A result that has expired stays so.
find_current-later :
    (now later : ℕ) (key : String) (rows : List IdempotencyRecord)
    → now ≤ later
    → find_current now key rows ≡ none
    → find_current later key rows ≡ none
unfolding find_current
find_current-later now later key [] h e = refl
find_current-later now later key (other ∷ rows) h e =
    ground (arith, h, e, find_current-later now later key rows h)

module _ {B W : Type 0} ⦃server : Server W⦄ ⦃encoding : Encoding⦄ ⦃bodies : Bodies B⦄ where
  replay_lem :
      (row : IdempotencyRecord) (req : Request) (body : B) (h : Stores × W)
      → bodies.parse row.response_body ≡ returned body
      → replay req row h ≡ (
        returned (
            if str_eq row.request_hash (request_hash_of req)
            then replayed row.status_code body
            else refused 409 "CONFLICT"
                "Idempotency-Key already used with a different request payload"),
        h,
      )
  unfolding replay ◌>>=◌
  replay_lem row req body h parsed =
      elim (Bool-cases (str_eq row.request_hash (request_hash_of req))) [
        | inl same ↦ rw (same, parsed) refl
        | inr other ↦ rw other refl
      ]

  -- Without Redis, a request whose key has no result in the table is answered by the route, and the
  -- answer is kept whatever its status is, that of an error too: in the next 24 hours, by the second,
  -- a request with the same key does nothing. It gets the status and the body of the first if it has
  -- the same hash, and the refusal 409 if it has not. The body survives its own JSON text.
  pub idempotency_middleware_once :
      (rows : List IdempotencyRecord) (w later : W) (req again : Request)
      (next next_again : W → (ℕ × B) × W)
      → IsUsable (key_of req)
      → any (has_key (key_of req)) rows ≡ false
      → bodies.parse (bodies.stringify (next w).0.1) ≡ returned (next w).0.1
      → key_of again ≡ key_of req
      → server.clock later / 1000 < (server.clock (next w).1 + ttl_seconds * 1000) / 1000
      → let first = idempotency_middleware req next (without_redis rows, w) in
        let (status, body) = (next w).0 in
        (first.0 ≡ returned (answered status body))
        × (idempotency_middleware again next_again (first.1.0, later) ≡ (
          returned (
              if str_eq (request_hash_of req) (request_hash_of again)
              then replayed status body
              else refused 409 "CONFLICT"
                  "Idempotency-Key already used with a different request payload"),
          (first.1.0, later),
        ))
  unfolding db_store_idempotency_result replay_or_next
  idempotency_middleware_once rows w later req again next next_again usable new parsed same time =
      let ((status, body), w') = next w in
      let row = result_of (server.clock w') (key_of req) req status body in
      let after = rows ++ row ∷ [] in
      let first =
        middleware_lem rows w req next usable
        ∙ ap (λ found. replay_or_next req next found (without_redis rows, w))
            (find_current-absent (server.clock w) (key_of req) rows new)
        ∙ store_lem rows after w req next (rw new refl) in
      let second = middleware_lem after later again next_again (subst IsUsable (sym same) usable) in
      let hit : (if has_key (key_of req) row
            then (if is_current (server.clock later) row then some row else none)
            else none)
          ≡ some row =
        rw (eq_refl (key_of req), lt→ltb _ _ time) refl in
      let found =
        ap (λ k. find_current (server.clock later) k after) same
        ∙ find_current-append (server.clock later) (key_of req) rows row new
        ∙ hit in
      rw first (
        refl,
        second
            ∙ ap (λ f. replay_or_next again next_again f (without_redis after, later)) found
            ∙ replay_lem row again body (without_redis after, later) parsed,
      )

  -- Without Redis, a key whose result in the table has expired but has not been cleaned up protects
  -- nothing: the table stays as it is, so that of two requests with the key each is carried out by the
  -- route, the second at any later time and whatever its hash is.
  pub idempotency_middleware_expired :
      (rows : List IdempotencyRecord) (w later : W) (req again : Request)
      (next next_again : W → (ℕ × B) × W)
      → IsUsable (key_of req)
      → any (has_key (key_of req)) rows ≡ true
      → find_current (server.clock w) (key_of req) rows ≡ none
      → key_of again ≡ key_of req
      → server.clock w ≤ server.clock later
      → let first = idempotency_middleware req next (without_redis rows, w) in
        let (status, body) = (next_again later).0 in
        (first.1 ≡ (without_redis rows, (next w).1))
        × (idempotency_middleware again next_again (first.1.0, later)
            ≡ (returned (answered status body), (without_redis rows, (next_again later).1)))
  unfolding db_store_idempotency_result
  idempotency_middleware_expired rows w later req again next next_again usable old expired same
        time =
      let carried : (v : W) (r : Request) (route : W → (ℕ × B) × W)
          → key_of r ≡ key_of req
          → find_current (server.clock v) (key_of req) rows ≡ none
          → idempotency_middleware r route (without_redis rows, v)
            ≡ (returned (answered (route v).0.0 (route v).0.1), (without_redis rows, (route v).1)) =
        λ v r route key gone.
          middleware_lem rows v r route (subst IsUsable (sym key) usable)
          ∙ ap (λ found. replay_or_next r route found (without_redis rows, v))
              (ap (λ k. find_current (server.clock v) k rows) key ∙ gone)
          ∙ store_lem rows rows v r route
              (rw (subst (λ k. any (has_key k) rows ≡ true) (sym key) old) refl) in
      let first = carried w req next refl expired in
      rw first (
        refl,
        carried later again next_again same (
            find_current-later (server.clock w) (server.clock later) (key_of req) rows time
              expired),
      )

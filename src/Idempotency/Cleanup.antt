-- ===== src/Idempotency/Cleanup.antt =====
-- The cleanup of the expired results.
use stellar_portfolio_rebala.Prelude.{
  ℕ, ◌+◌, ◌≤◌, ◌≡◌, refl, inl, inr, String, true, List, [], ◌∷◌, all, filter, length, arith,
  Bool-cases,
}
use stellar_portfolio_rebala.Idempotency.{
  IdempotencyRecord, Stores, is_current, find_current, db_get_idempotency_result,
  db_cleanup_expired_idempotency_keys,
}

length-kept :
    (now : ℕ) (rows : List IdempotencyRecord) → length (filter (is_current now) rows) ≤ length rows
length-kept now [] = omega arith
length-kept now (row ∷ rows) =
    let rest = length-kept now rows in
    elim (Bool-cases (is_current now row)) [
      | inl young ↦ rw young (omega arith)
      | inr old ↦ rw old (omega arith)
    ]

all-kept :
    (now : ℕ) (rows : List IdempotencyRecord)
    → all (is_current now) (filter (is_current now) rows) ≡ true
all-kept now [] = refl
all-kept now (row ∷ rows) =
    let rest = all-kept now rows in
    elim (Bool-cases (is_current now row)) [
      | inl young ↦ rw (young, young, rest) refl
      | inr old ↦ rw old rest
    ]

kept-current :
    (now later : ℕ) (key : String) (rows : List IdempotencyRecord)
    → now ≤ later
    → find_current later key (filter (is_current now) rows) ≡ find_current later key rows
unfolding find_current
kept-current now later key [] h = refl
kept-current now later key (row ∷ rows) h =
    let rest = kept-current now later key rows h in
    elim (Bool-cases (is_current now row)) [
      | inl young ↦ rw young (ground (arith, rest))
      | inr old ↦ rw old (ground (arith, rest, old, h))
    ]

-- A cleanup of the expired results changes what no later look for a key finds, leaves no expired
-- result, and counts the rows that it takes away.
pub db_cleanup_expired_idempotency_keys-find :
    (now later : ℕ) (key : String) (s : Stores)
    → now ≤ later
    → let (removed, after) = db_cleanup_expired_idempotency_keys now s in
      (db_get_idempotency_result later key after ≡ db_get_idempotency_result later key s)
      × ((all (is_current now) after.rows ≡ true) × (removed + length after.rows ≡ length s.rows))
unfolding db_cleanup_expired_idempotency_keys db_get_idempotency_result
db_cleanup_expired_idempotency_keys-find now later key s h =
    let fewer = length-kept now s.rows in
    (kept-current now later key s.rows h, (all-kept now s.rows, omega arith))

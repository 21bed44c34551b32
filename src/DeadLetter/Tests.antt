-- ===== src/DeadLetter/Tests.antt =====
-- Runs of the dead-letter queue, and its theorems at concrete inputs.
use stellar_portfolio_rebala.Prelude.{
  String, ◌≡◌, refl, Bool, true, false, none, some, [], ◌∷◌, if◌then◌else◌,
}
use stellar_portfolio_rebala.Redis.{RedisList, answer, failure}
use stellar_portfolio_rebala.DeadLetter.{
  DeadLetterItem, Json, DeadLetterQueue, parse_all, deinit, push, list, replay, delete_item,
}
use stellar_portfolio_rebala.DeadLetter.Queue.{deleted, delete_item-replay, replay-push}
use stellar_portfolio_rebala.DeadLetter.Hidden.{push-list-replay}

abbrev item : String → DeadLetterItem (Unit {0})
item id = record {
  id = id;
  payload = tt;
  error_message = "timeout";
  attempts_exhausted = 5;
  timestamp = "2025-01-01T00:00:00.000Z";
  webhook_url = "https://example.org";
  user_id = "u";
  event_type = "rebalance";
}

-- Only the id is kept.
instance abbrev by_id : Json (DeadLetterItem (Unit {0}))
by_id = record { stringify = λ i. i.id; parse = λ text. some (item text) }

-- A server with one item, that accepts no other; in the state false it does not answer.
instance abbrev full : RedisList Bool
full = record {
  is_available = λ r. r;
  rpush = λ key text r. (failure, r);
  lrange = λ key r. (if r then answer ("stored" ∷ []) else failure, r);
  lrem = λ key text r. (answer tt, r);
}

abbrev in_memory : DeadLetterQueue (Unit {0})
in_memory = record {
  connected = false;
  fallback_list = item "a" ∷ [];
  use_redis = false;
  initialized = true;
}

abbrev on_redis : DeadLetterQueue (Unit {0})
on_redis = record in_memory { connected = true; use_redis = true }

stored : parse_all ("stored" ∷ []) ≡ some (item "stored" ∷ [])
unfolding parse_all
stored = refl

delete_item-replay_example : delete_item "a" in_memory true ≡ (
  deleted (replay "a" in_memory true).0,
  (replay "a" in_memory true).1,
  (replay "a" in_memory true).2,
)
delete_item-replay_example = delete_item-replay "a" in_memory true

replay-push_example :
    let (s', r') = push (item "b") in_memory true in
    replay "b" s' r' ≡ (answer (some (item "b")), in_memory, true)
replay-push_example =
    replay-push (item "b") in_memory true (record { is_initialized = refl; without_redis = refl })
      refl

push-list-replay_example :
    let s' = (push (item "b") on_redis true).0 in
    ((list s' true).0 ≡ item "stored" ∷ [])
    × ((replay "b" s' true).0 ≡ answer none)
    × ((delete_item "b" s' true).0 ≡ answer false)
    × ((list s' false).0 ≡ item "a" ∷ item "b" ∷ [])
    × ((replay "b" (deinit s') false).0 ≡ answer (some (item "b")))
push-list-replay_example =
    push-list-replay (item "b") on_redis true true false false ("stored" ∷ []) (item "stored" ∷ [])
      (record { is_initialized = refl; with_redis = refl; is_connected = refl }) refl refl stored
      refl refl refl refl

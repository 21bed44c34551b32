-- ===== src/DeadLetter/Queue.antt =====
-- What the queue gives back.
use stellar_portfolio_rebala.Prelude.{
  String, ◌≡◌, refl, Bool, true, false, Option, none, some, List, [], ◌∷◌, ◌++◌, any, arith, str_eq,
  eq_refl, if◌then◌else◌,
}
use stellar_portfolio_rebala.Redis.{RedisList, Reply, answer, failure}
use stellar_portfolio_rebala.DeadLetter.{
  DeadLetterItem, Json, DeadLetterQueue, take_item, init, keep, push, replay, delete_item,
}

abbrev pub is_some : {A : Type 0} → Option A → Bool
is_some none = false
is_some (some a) = true

-- The reply of a deletion that corresponds to that of a replay.
abbrev pub deleted : {A : Type 0} → Reply (Option A) → Reply Bool
deleted failure = failure
deleted (answer o) = answer (is_some o)

-- The queue is initialized, and runs on its list in memory.
pub record InMemory {P : Type 0} (s : DeadLetterQueue P) : Type 0 where
  pub is_initialized : s.initialized ≡ true
  pub without_redis : s.use_redis ≡ false

if_true : {A : Type 0} (b : Bool) (x y : A) → b ≡ true → (if b then x else y) ≡ x
if_true true x y h = refl
if_true false x y h = cc h

module _ {P : Type 0} where
  pub take_item-append :
      (item : DeadLetterItem P) (items : List (DeadLetterItem P))
      → any (λ i. str_eq i.id item.id) items ≡ false
      → take_item item.id (items ++ item ∷ []) ≡ some (item, items)
  unfolding take_item
  take_item-append item [] h = ground (arith, eq_refl item.id)
  take_item-append item (i ∷ items) h =
      let rest = take_item-append item items (ground (arith, h)) in ground (arith, h, rest)

module _ {P R : Type 0} ⦃json : Json (DeadLetterItem P)⦄ ⦃redis : RedisList R⦄ where
  -- In every mode and on every reply, a deletion does to the queue and the server what a replay does,
  -- and fails, finds or misses the item exactly as it does.
  pub delete_item-replay :
      (id : String) (s : DeadLetterQueue P) (r : R)
      → delete_item id s r ≡ (deleted (replay id s r).0, (replay id s r).1, (replay id s r).2)
  unfolding delete_item replay
  delete_item-replay id s r = ground arith

  pub init_lem : (s : DeadLetterQueue P) (r : R) → s.initialized ≡ true → init s r ≡ s
  unfolding init
  init_lem s r h = if_true s.initialized s _ h

  push_lem :
      (item : DeadLetterItem P) (s : DeadLetterQueue P) (r : R)
      → InMemory s
      → push item s r ≡ (keep item s, r)
  unfolding push
  push_lem item s r h = rw (init_lem s r h.is_initialized, h.without_redis)

  replay_lem :
      (item : DeadLetterItem P) (items : List (DeadLetterItem P)) (s : DeadLetterQueue P) (r : R)
      → InMemory s
      → take_item item.id s.fallback_list ≡ some (item, items)
      → replay item.id s r ≡ (answer (some item), record s { fallback_list = items }, r)
  unfolding replay
  replay_lem item items s r h taken =
      rw (init_lem s r h.is_initialized, h.without_redis, taken)
        (cc (init_lem s r h.is_initialized, h.without_redis))

  -- Without Redis, an item that is pushed is given back by a replay of its id, if no other item in
  -- the list has that id, and the list is then as it was.
  pub replay-push :
      (item : DeadLetterItem P) (s : DeadLetterQueue P) (r : R)
      → InMemory s
      → any (λ i. str_eq i.id item.id) s.fallback_list ≡ false
      → let (s', r') = push item s r in replay item.id s' r' ≡ (answer (some item), s, r)
  replay-push item s r h fresh = rw (push_lem item s r h) (
      replay_lem item s.fallback_list (keep item s) r
        (record { is_initialized = h.is_initialized; without_redis = h.without_redis })
        (take_item-append item s.fallback_list fresh))

-- ===== src/DeadLetter/Hidden.antt =====
-- Where an item is whose push to Redis fails.
use stellar_portfolio_rebala.Prelude.{
  String, ◌≡◌, refl, ap, ◌∙◌, inl, inr, Bool, true, false, none, some, List, [], ◌∷◌, ◌++◌, any,
  arith, str_eq, Option-cases,
}
use stellar_portfolio_rebala.Redis.{RedisList, answer, failure}
use stellar_portfolio_rebala.DeadLetter.{
  DeadLetterItem, Json, DeadLetterQueue, dlq_key, absent, take_item, parse_all, find_text, init,
  keep, deinit, push, list, replay, delete_item,
}
use stellar_portfolio_rebala.DeadLetter.Queue.{
  deleted, delete_item-replay, take_item-append, init_lem,
}

-- The queue is initialized, and uses Redis.
pub record OnRedis {P : Type 0} (s : DeadLetterQueue P) : Type 0 where
  pub is_initialized : s.initialized ≡ true
  pub with_redis : s.use_redis ≡ true
  pub is_connected : s.connected ≡ true

-- An item of this id is in the list.
abbrev pub has_id : {P : Type 0} → String → List (DeadLetterItem P) → Bool
has_id id items = any (λ i. str_eq i.id id) items

module _ {P : Type 0} ⦃json : Json (DeadLetterItem P)⦄ where
  find_text-absent :
      (id : String) (texts : List String) (items : List (DeadLetterItem P))
      → parse_all texts ≡ some items
      → has_id id items ≡ false
      → find_text {P = P} id texts ≡ absent
  unfolding find_text parse_all
  find_text-absent id [] items parsed other = refl
  find_text-absent id (text ∷ texts) items parsed other = elim (Option-cases (json.parse text)) [
    | inl e ↦ absurd (ground (arith, e, parsed))
    | inr (item, e) ↦ elim (Option-cases (parse_all {P = P} texts)) [
      | inl f ↦ absurd (ground (arith, e, f, parsed))
      | inr (rest, f) ↦
          let whole : has_id id (item ∷ rest) ≡ false = ground (arith, e, f, parsed, other) in
          ground (arith, e, whole, find_text-absent id texts rest f)
    ]
  ]

module _ {P R : Type 0} ⦃json : Json (DeadLetterItem P)⦄ ⦃redis : RedisList R⦄ where
  open redis use {is_available, rpush, lrange}

  push_lem :
      (item : DeadLetterItem P) (s : DeadLetterQueue P) (r : R)
      → OnRedis s
      → (rpush dlq_key (json.stringify item) r).0 ≡ failure
      → (push item s r).0 ≡ keep item s
  unfolding push
  push_lem item s r on fails = ground (arith, init_lem s r on.is_initialized, fails)

  list_answered :
      (s : DeadLetterQueue P) (r : R) (texts : List String) (items : List (DeadLetterItem P))
      → OnRedis s
      → (lrange dlq_key r).0 ≡ answer texts
      → parse_all texts ≡ some items
      → (list s r).0 ≡ items
  unfolding list
  list_answered s r texts items on answers parsed =
      rw (init_lem s r on.is_initialized, on.with_redis, on.is_connected, answers, parsed) refl

  list_unread :
      (s : DeadLetterQueue P) (r : R)
      → OnRedis s
      → (lrange dlq_key r).0 ≡ failure
      → (list s r).0 ≡ s.fallback_list
  unfolding list
  list_unread s r on fails =
      rw (init_lem s r on.is_initialized, on.with_redis, on.is_connected, fails)
        (ap (λ q. q.fallback_list) (init_lem s r on.is_initialized))

  replay_absent :
      (id : String) (s : DeadLetterQueue P) (r : R) (texts : List String)
      → OnRedis s
      → (lrange dlq_key r).0 ≡ answer texts
      → find_text {P = P} id texts ≡ absent
      → (replay id s r).0 ≡ answer none
  unfolding replay
  replay_absent id s r texts on answers missed =
      rw (init_lem s r on.is_initialized, on.with_redis, on.is_connected, answers, missed) refl

  -- Taken down and set up again without Redis, the queue reads the items in memory.
  replay_offline :
      (item : DeadLetterItem P) (items : List (DeadLetterItem P)) (s : DeadLetterQueue P) (r : R)
      → is_available r ≡ false
      → take_item item.id s.fallback_list ≡ some (item, items)
      → (replay item.id (deinit s) r).0 ≡ answer (some item)
  unfolding replay init deinit
  replay_offline item items s r offline taken = rw (offline, taken) refl

  -- With Redis, an item whose push fails is kept in memory, out of sight while the server answers:
  -- where the texts of the server's list parse and no item there has its id, the list is that of
  -- the server's items, and neither a replay nor a deletion finds the item. Where the reading of
  -- the list fails, it is listed after the items in memory. If no item there has its id, a replay
  -- gives it back once the queue has been taken down and finds no Redis.
  pub push-list-replay :
      (item : DeadLetterItem P) (s : DeadLetterQueue P) (r answering failing offline : R)
      (texts : List String) (items : List (DeadLetterItem P))
      → OnRedis s
      → (rpush dlq_key (json.stringify item) r).0 ≡ failure
      → (lrange dlq_key answering).0 ≡ answer texts
      → parse_all texts ≡ some items
      → has_id item.id items ≡ false
      → (lrange dlq_key failing).0 ≡ failure
      → is_available offline ≡ false
      → has_id item.id s.fallback_list ≡ false
      → let s' = (push item s r).0 in
        ((list s' answering).0 ≡ items)
        × ((replay item.id s' answering).0 ≡ answer none)
        × ((delete_item item.id s' answering).0 ≡ answer false)
        × ((list s' failing).0 ≡ s.fallback_list ++ item ∷ [])
        × ((replay item.id (deinit s') offline).0 ≡ answer (some item))
  push-list-replay item s r answering failing offline texts items on fails answers parsed other
        unread down new =
      let on' : OnRedis (keep item s) = record {
        is_initialized = on.is_initialized;
        with_redis = on.with_redis;
        is_connected = on.is_connected;
      } in
      let missed =
        replay_absent item.id (keep item s) answering texts on' answers
          (find_text-absent item.id texts items parsed other) in
      rw (push_lem item s r on fails) (
        list_answered (keep item s) answering texts items on' answers parsed,
        missed,
        ap (λ t. t.0) (delete_item-replay item.id (keep item s) answering) ∙ ap deleted missed,
        list_unread (keep item s) failing on' unread,
        replay_offline item s.fallback_list (keep item s) offline down
            (take_item-append item s.fallback_list new),
      )

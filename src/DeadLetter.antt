-- ===== src/DeadLetter.antt =====
-- backend/src/services/webhookDeadLetter.ts: the webhook deliveries that have failed, in a list in
-- Redis or, without it, in the memory of the process.
pub mod Queue
pub mod Hidden
mod Tests
use stellar_portfolio_rebala.Prelude.{
  ℕ, String, Bool, true, false, ◌&&◌, Option, none, some, List, [], ◌∷◌, ◌++◌, str_eq,
  if◌then◌else◌,
}
use stellar_portfolio_rebala.Redis.{RedisList, Reply, answer, failure}

pub record DeadLetterItem (P : Type 0) : Type 0 where
  pub id : String
  pub payload : P
  pub error_message : String
  pub attempts_exhausted : ℕ
  pub timestamp : String
  pub webhook_url : String
  pub user_id : String
  pub event_type : String

-- `JSON.stringify` and `JSON.parse`, which throws on a text that is not JSON.
pub record Json (A : Type 0) : Type 0 where
  pub stringify : A → String
  pub parse : String → Option A

-- `connected` says whether `redis` is not null.
pub record DeadLetterQueue (P : Type 0) : Type 0 where
  pub connected : Bool
  pub fallback_list : List (DeadLetterItem P)
  pub use_redis : Bool
  pub initialized : Bool

abbrev pub dlq_key : String
dlq_key = "dead_letter:webhook"

-- What the loops over the texts find.
pub data Search (P : Type 0) : Type 0 where
  malformed : Search P
  absent : Search P
  found : String → DeadLetterItem P → Search P

module _ {P : Type 0} where
  abbrev pub new_queue : DeadLetterQueue P
  new_queue = record {
    connected = false;
    fallback_list = [];
    use_redis = false;
    initialized = false;
  }

  -- `findIndex` and `splice`: the first item with the id, and the list without it.
  unfoldable pub take_item :
      String → List (DeadLetterItem P) → Option (DeadLetterItem P × List (DeadLetterItem P))
  take_item id [] = none
  take_item id (item ∷ items) =
      if str_eq item.id id
      then some (item, items)
      else elim (take_item id items) [ none ↦ none | some taken ↦ some (taken.0, item ∷ taken.1) ]

  abbrev pub keep : DeadLetterItem P → DeadLetterQueue P → DeadLetterQueue P
  keep item s = record s { fallback_list = s.fallback_list ++ item ∷ [] }

  unfoldable pub deinit : DeadLetterQueue P → DeadLetterQueue P
  deinit s = record s { connected = false; initialized = false }

  unfoldable pub reset_for_test : DeadLetterQueue P → DeadLetterQueue P
  reset_for_test s = new_queue

module _ {P : Type 0} ⦃json : Json (DeadLetterItem P)⦄ where
  unfoldable pub parse_all : List String → Option (List (DeadLetterItem P))
  parse_all [] = some []
  parse_all (text ∷ texts) = elim (json.parse text) [
    | none ↦ none
    | some item ↦ elim (parse_all texts) [ none ↦ none | some items ↦ some (item ∷ items) ]
  ]

  unfoldable pub find_text : String → List String → Search P
  find_text id [] = absent
  find_text id (text ∷ texts) = elim (json.parse text) [
    | none ↦ malformed
    | some item ↦ if str_eq item.id id then found text item else find_text id texts
  ]

module _ {P R : Type 0} ⦃json : Json (DeadLetterItem P)⦄ ⦃redis : RedisList R⦄ where
  open redis use {is_available, rpush, lrange, lrem}

  unfoldable pub init : DeadLetterQueue P → R → DeadLetterQueue P
  init s r = if s.initialized then s else record s {
    connected = if is_available r then true else s.connected;
    use_redis = is_available r;
    initialized = true;
  }

  unfoldable pub push : DeadLetterItem P → DeadLetterQueue P → R → DeadLetterQueue P × R
  push item s r =
      let s' = init s r in
      let (reply, r') = rpush dlq_key (json.stringify item) r in
      if s'.use_redis && s'.connected
      then elim reply [ answer done ↦ (s', r') | failure ↦ (keep item s', r') ]
      else (keep item s', r)

  -- The `catch` takes a failing command and a text that does not parse.
  unfoldable pub list : DeadLetterQueue P → R → List (DeadLetterItem P) × DeadLetterQueue P × R
  list s r =
      let s' = init s r in
      let (reply, r') = lrange dlq_key r in
      if s'.use_redis && s'.connected
      then elim reply [
        | answer texts ↦ elim (parse_all texts) [
          | some items ↦ (items, s', r')
          | none ↦ (s'.fallback_list, s', r')
        ]
        | failure ↦ (s'.fallback_list, s', r')
      ]
      else (s'.fallback_list, s', r)

  -- A failure is a rejected promise.
  unfoldable pub replay :
      String → DeadLetterQueue P → R → Reply (Option (DeadLetterItem P)) × DeadLetterQueue P × R
  replay id s r =
      let s' = init s r in
      let (reply, r') = lrange dlq_key r in
      if s'.use_redis && s'.connected
      then elim reply [
        | failure ↦ (failure, s', r')
        | answer texts ↦ elim (find_text id texts) [
          | malformed ↦ (failure, s', r')
          | absent ↦ (answer none, s', r')
          | found text item ↦
              let (removed, r'') = lrem dlq_key text r' in
              elim removed [
                | failure ↦ (failure, s', r'')
                | answer done ↦ (answer (some item), s', r'')
              ]
        ]
      ]
      else elim (take_item id s'.fallback_list) [
        | none ↦ (answer none, s', r)
        | some taken ↦ (answer (some taken.0), record s' { fallback_list = taken.1 }, r)
      ]

  unfoldable pub delete_item : String → DeadLetterQueue P → R → Reply Bool × DeadLetterQueue P × R
  delete_item id s r =
      let s' = init s r in
      let (reply, r') = lrange dlq_key r in
      if s'.use_redis && s'.connected
      then elim reply [
        | failure ↦ (failure, s', r')
        | answer texts ↦ elim (find_text {P = P} id texts) [
          | malformed ↦ (failure, s', r')
          | absent ↦ (answer false, s', r')
          | found text item ↦
              let (removed, r'') = lrem dlq_key text r' in
              elim removed [ failure ↦ (failure, s', r'') | answer done ↦ (answer true, s', r'') ]
        ]
      ]
      else elim (take_item id s'.fallback_list) [
        | none ↦ (answer false, s', r)
        | some taken ↦ (answer true, record s' { fallback_list = taken.1 }, r)
      ]

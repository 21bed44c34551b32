-- ===== src/Sessions.antt =====
-- backend/src/db/refreshTokenDb.ts without a database: the refresh tokens of a process, keyed by hash.
pub mod Laws
use stellar_portfolio_rebala.Prelude.{
  ℕ, suc, String, Bool, true, false, Option, none, some, List, [], ◌∷◌, leb, str_eq, if◌then◌else◌,
}
use stellar_portfolio_rebala.Prelude.Table.{Table, lookup, insert, erase, has}

pub record RefreshTokenMetadata : Type 0 where
  pub device : Option String
  pub platform : Option String
  pub user_agent : Option String
  pub ip_address : Option String
  pub last_used_at : Option ℕ

pub record InMemoryEntry : Type 0 where
  pub id : String
  pub user_address : String
  pub expires_at : ℕ
  pub metadata : Option RefreshTokenMetadata

-- `created_at` is the time of the read, and nothing uses it.
pub record RefreshTokenRow : Type 0 where
  pub id : String
  pub user_address : String
  pub token_hash : String
  pub expires_at : ℕ
  pub metadata : Option RefreshTokenMetadata

abbrev pub Sessions : Type 0
Sessions = Table InMemoryEntry

-- SHA-256 of a text, in hexadecimal.
pub record Hash : Type 0 where
  pub sha256 : String → String

abbrev pub row_of : String → InMemoryEntry → RefreshTokenRow
row_of hash entry = record {
  id = entry.id;
  user_address = entry.user_address;
  token_hash = hash;
  expires_at = entry.expires_at;
  metadata = entry.metadata;
}

unfoldable pub find_refresh_token_by_id : String → Sessions → Option RefreshTokenRow
find_refresh_token_by_id id [] = none
find_refresh_token_by_id id ((hash, entry) ∷ store) =
    if str_eq entry.id id then some (row_of hash entry) else find_refresh_token_by_id id store

-- The key that the loop of `deleteRefreshTokenById` stops at.
unfoldable pub hash_of_id : String → Sessions → Option String
hash_of_id id [] = none
hash_of_id id ((hash, entry) ∷ store) =
    if str_eq entry.id id then some hash else hash_of_id id store

unfoldable pub delete_refresh_token_by_id : String → Sessions → Bool × Sessions
delete_refresh_token_by_id id store = elim (hash_of_id id store) [
  | none ↦ (false, store)
  | some hash ↦ (true, erase hash store)
]

unfoldable pub delete_refresh_token_by_hash : String → Sessions → Bool × Sessions
delete_refresh_token_by_hash hash store = (has hash store, erase hash store)

-- The entries of the user leave the map one by one, and are counted.
unfoldable pub delete_all_refresh_tokens_for_user : String → Sessions → ℕ × Sessions
delete_all_refresh_tokens_for_user user [] = (0, [])
delete_all_refresh_tokens_for_user user ((hash, entry) ∷ store) =
    let (count, rest) = delete_all_refresh_tokens_for_user user store in
    if str_eq entry.user_address user then (suc count, rest) else (count, (hash, entry) ∷ rest)

abbrev pub no_metadata : RefreshTokenMetadata
no_metadata = record {
  device = none;
  platform = none;
  user_agent = none;
  ip_address = none;
  last_used_at = none;
}

-- `{ ...metadata, lastUsedAt: now }`
abbrev pub touched : ℕ → Option RefreshTokenMetadata → RefreshTokenMetadata
touched now none = record no_metadata { last_used_at = some now }
touched now (some m) = record m { last_used_at = some now }

unfoldable pub touch_refresh_token : ℕ → String → Sessions → Sessions
touch_refresh_token now id [] = []
touch_refresh_token now id ((hash, entry) ∷ store) =
    if str_eq entry.id id
    then (hash, record entry { metadata = some (touched now entry.metadata) }) ∷ store
    else (hash, entry) ∷ touch_refresh_token now id store

module _ ⦃crypto : Hash⦄ where
  unfoldable pub create_refresh_token :
      String → String → String → ℕ → Option RefreshTokenMetadata → Sessions → Sessions
  create_refresh_token id user token expires_at metadata store =
      insert (crypto.sha256 token)
        (record { id = id; user_address = user; expires_at = expires_at; metadata = metadata })
        store

  unfoldable pub find_refresh_token : ℕ → String → Sessions → Option RefreshTokenRow
  find_refresh_token now token store = elim (lookup (crypto.sha256 token) store) [
    | none ↦ none
    | some entry ↦
        if leb entry.expires_at now then none else some (row_of (crypto.sha256 token) entry)
  ]

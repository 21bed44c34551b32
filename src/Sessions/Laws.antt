-- ===== src/Sessions/Laws.antt =====
-- What the deletions leave in the store.
use stellar_portfolio_rebala.Prelude.{
  ◌+◌, String, ◌≡◌, refl, Bool, false, none, [], ◌∷◌, arith, any, length, str_eq,
}
use stellar_portfolio_rebala.Prelude.Table.{lookup, values}
use stellar_portfolio_rebala.Sessions.{Sessions, delete_all_refresh_tokens_for_user}

-- Whether the user has a session.
abbrev pub has_session : String → Sessions → Bool
has_session user store = any (λ e. str_eq e.user_address user) (values store)

-- Deleting a user's tokens leaves none of them.
pub delete_all-has_session :
    (user : String) (store : Sessions)
    → has_session user (delete_all_refresh_tokens_for_user user store).1 ≡ false
unfolding delete_all_refresh_tokens_for_user
delete_all-has_session user [] = refl
delete_all-has_session user ((hash, entry) ∷ store) =
    ground (arith, delete_all-has_session user store)

-- The number returned is that of the entries removed.
pub delete_all_count :
    (user : String) (store : Sessions)
    → (delete_all_refresh_tokens_for_user user store).0
        + length (delete_all_refresh_tokens_for_user user store).1
      ≡ length store
unfolding delete_all_refresh_tokens_for_user
delete_all_count user [] = refl
delete_all_count user ((hash, entry) ∷ store) = ground (arith, delete_all_count user store)

-- A key that is not stored stays so.
pub delete_all-lookup :
    (user : String) (store : Sessions) (key : String)
    → lookup key store ≡ none
    → lookup key (delete_all_refresh_tokens_for_user user store).1 ≡ none
unfolding delete_all_refresh_tokens_for_user lookup
delete_all-lookup user [] key h = refl
delete_all-lookup user ((hash, entry) ∷ store) key h =
    ground (arith, delete_all-lookup user store key, h)

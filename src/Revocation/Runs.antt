-- ===== src/Revocation/Runs.antt =====
-- Which tokens and users are revoked after a run of calls.
use stellar_portfolio_rebala.Prelude.{
  ℕ, String, ◌≡◌, refl, sym, ap, ◌∙◌, Bool, true, false, ◌||◌, List, [], ◌∷◌, ◌++◌, arith, str_eq,
  eq_iff, any,
}
use stellar_portfolio_rebala.Prelude.Sort.{includes}
use stellar_portfolio_rebala.Redis.{Redis}
use stellar_portfolio_rebala.Revocation.{
  RevocationService, add_member, init, add_revoked_token, is_revoked, revoke_all_for_user,
  is_user_revoked,
}

-- The service is initialized, and runs on its sets in memory.
pub record InMemory (s : RevocationService) : Type 0 where
  pub is_initialized : s.initialized ≡ true
  pub without_redis : s.use_redis ≡ false

pub data Call : Type 0 where
  revoke_token : ℕ → String → ℕ → Call
  revoke_user : ℕ → String → Call
  query_token : ℕ → String → Call
  query_user : ℕ → String → Call

abbrev pub revokes_token : String → Call → Bool
revokes_token token (revoke_token now hash ttl) = str_eq hash token
revokes_token token _ = false

abbrev pub revokes_user : String → Call → Bool
revokes_user user (revoke_user now address) = str_eq address user
revokes_user user _ = false

any-snoc :
    (p : String → Bool) (xs : List String) (x : String) → any p (xs ++ x ∷ []) ≡ p x || any p xs
any-snoc p [] x = refl
any-snoc p (y ∷ ys) x = ground (arith, any-snoc p ys x)

includes-found : (x y : String) (xs : List String) → x ≡ y → includes y xs ≡ includes x xs
includes-found x y xs e = ap (λ z. includes z xs) (sym e)

pub includes-add_member :
    (x y : String) (xs : List String) → includes y (add_member x xs) ≡ str_eq x y || includes y xs
unfolding add_member
includes-add_member x y xs =
    ground (arith, any-snoc (λ z. str_eq y z) xs x, eq_iff x y, eq_iff y x, includes-found x y xs)

-- The service in memory after one more revocation.
abbrev pub with_token : String → RevocationService → RevocationService
with_token hash s = record s { fallback_set = add_member hash s.fallback_set }

abbrev pub with_user : String → RevocationService → RevocationService
with_user address s = record s { fallback_user_set = add_member address s.fallback_user_set }

pub with_token-InMemory :
    (hash : String) (s : RevocationService) → InMemory s → InMemory (with_token hash s)
with_token-InMemory hash s h = record {
  is_initialized = h.is_initialized;
  without_redis = h.without_redis;
}

with_user-InMemory :
    (address : String) (s : RevocationService) → InMemory s → InMemory (with_user address s)
with_user-InMemory address s h = record {
  is_initialized = h.is_initialized;
  without_redis = h.without_redis;
}

module _ {R : Type 0} ⦃redis : Redis R⦄ where
  unfoldable pub run : List Call → RevocationService → R → RevocationService × R
  run [] s r = (s, r)
  run (revoke_token now hash ttl ∷ calls) s r =
      let (s', r') = add_revoked_token now hash ttl s r in run calls s' r'
  run (revoke_user now address ∷ calls) s r =
      let (s', r') = revoke_all_for_user now address s r in run calls s' r'
  run (query_token now hash ∷ calls) s r =
      let (found, s', r') = is_revoked now hash s r in run calls s' r'
  run (query_user now address ∷ calls) s r =
      let (found, s', r') = is_user_revoked now address s r in run calls s' r'

  -- In memory, a call is a call of the sets, and leaves the server alone.
  pub add_revoked_token_lem :
      (now : ℕ) (hash : String) (ttl : ℕ) (s : RevocationService) (r : R)
      → InMemory s
      → add_revoked_token now hash ttl s r ≡ (with_token hash s, r)
  unfolding add_revoked_token init
  add_revoked_token_lem now hash ttl s r h = rw (h.is_initialized, h.without_redis)

  pub revoke_all_for_user_lem :
      (now : ℕ) (address : String) (s : RevocationService) (r : R)
      → InMemory s
      → revoke_all_for_user now address s r ≡ (with_user address s, r)
  unfolding revoke_all_for_user init
  revoke_all_for_user_lem now address s r h = rw (h.is_initialized, h.without_redis)

  pub is_revoked_lem :
      (now : ℕ) (hash : String) (s : RevocationService) (r : R)
      → InMemory s
      → is_revoked now hash s r ≡ (includes hash s.fallback_set, s, r)
  unfolding is_revoked init
  is_revoked_lem now hash s r h = rw (h.is_initialized, h.without_redis)

  is_user_revoked_lem :
      (now : ℕ) (address : String) (s : RevocationService) (r : R)
      → InMemory s
      → is_user_revoked now address s r ≡ (includes address s.fallback_user_set, s, r)
  unfolding is_user_revoked init
  is_user_revoked_lem now address s r h = rw (h.is_initialized, h.without_redis)

  -- The sets after a run.
  run-sets :
      (calls : List Call) (s : RevocationService) (r : R) (token user : String)
      → InMemory s
      → InMemory (run calls s r).0
        × (includes token (run calls s r).0.fallback_set
            ≡ any (revokes_token token) calls || includes token s.fallback_set)
        × (includes user (run calls s r).0.fallback_user_set
            ≡ any (revokes_user user) calls || includes user s.fallback_user_set)
  unfolding run
  run-sets [] s r token user h = (h, refl, refl)
  run-sets (revoke_token now hash ttl ∷ calls) s r token user h =
      let rest = run-sets calls (with_token hash s) r token user (with_token-InMemory hash s h) in
      let grown = includes-add_member hash token s.fallback_set in
      rw (add_revoked_token_lem now hash ttl s r h, run)
        (rest.0, rest.1 ∙ ground (arith, grown), rest.2)
  run-sets (revoke_user now address ∷ calls) s r token user h =
      let rest =
        run-sets calls (with_user address s) r token user (with_user-InMemory address s h) in
      let grown = includes-add_member address user s.fallback_user_set in
      rw (revoke_all_for_user_lem now address s r h, run)
        (rest.0, rest.1, rest.2 ∙ ground (arith, grown))
  run-sets (query_token now hash ∷ calls) s r token user h =
      rw (is_revoked_lem now hash s r h, run) (run-sets calls s r token user h)
  run-sets (query_user now address ∷ calls) s r token user h =
      rw (is_user_revoked_lem now address s r h, run) (run-sets calls s r token user h)

  -- Without Redis, a token is revoked after a run exactly if it was before, or a call of the run
  -- revokes it; the calls on users make no difference to it.
  pub run-is_revoked :
      (calls : List Call) (s : RevocationService) (r : R) (now : ℕ) (token : String)
      → InMemory s
      → (is_revoked now token (run calls s r).0 (run calls s r).1).0
        ≡ any (revokes_token token) calls || (is_revoked now token s r).0
  run-is_revoked calls s r now token h =
      let (memory, tokens, users) = run-sets calls s r token "" h in
      ap (λ t. t.0) (is_revoked_lem now token (run calls s r).0 (run calls s r).1 memory)
      ∙ tokens
      ∙ ap (λ b. any (revokes_token token) calls || b)
          (sym (ap (λ t. t.0) (is_revoked_lem now token s r h)))

  -- Without Redis, a user is revoked after a run exactly if it was before, or a call of the run
  -- revokes it; the calls on tokens make no difference to it.
  pub run-is_user_revoked :
      (calls : List Call) (s : RevocationService) (r : R) (now : ℕ) (user : String)
      → InMemory s
      → (is_user_revoked now user (run calls s r).0 (run calls s r).1).0
        ≡ any (revokes_user user) calls || (is_user_revoked now user s r).0
  run-is_user_revoked calls s r now user h =
      let (memory, tokens, users) = run-sets calls s r "" user h in
      ap (λ t. t.0) (is_user_revoked_lem now user (run calls s r).0 (run calls s r).1 memory)
      ∙ users
      ∙ ap (λ b. any (revokes_user user) calls || b)
          (sym (ap (λ t. t.0) (is_user_revoked_lem now user s r h)))

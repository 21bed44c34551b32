-- ===== src/Auth/Rotation.antt =====
-- A refresh token is exchanged once, and a second use ends the sessions of its user.
use stellar_portfolio_rebala.Prelude.{
  ℕ, ◌+◌, ◌*◌, String, ◌≡◌, refl, sym, ap, subst, ◌∙◌, true, false, none, some, arith, str_eq,
  eq_refl,
}
use stellar_portfolio_rebala.Prelude.Sort.{includes}
use stellar_portfolio_rebala.Prelude.Table.{lookup, erase, lookup-insert, lookup-erase}
use stellar_portfolio_rebala.Redis.{Redis, answer}
use stellar_portfolio_rebala.Revocation.Runs.{
  InMemory, with_token, with_token-InMemory, add_revoked_token_lem, is_revoked_lem,
  includes-add_member,
}
use stellar_portfolio_rebala.Sessions.{
  Hash, Sessions, RefreshTokenRow, touched, hash_of_id, create_refresh_token, find_refresh_token,
  delete_refresh_token_by_id,
}
use stellar_portfolio_rebala.Sessions.Laws.{has_session, delete_all-has_session}
use stellar_portfolio_rebala.Auth.{
  AuthState, AuthConfig, AuthTokens, TokenPayload, Jwt, record_auth_audit_event, refresh_payload,
  issue_tokens, user_of_token, remaining_ttl_sec, refuse_unknown, rotate, refresh_tokens,
}

-- The configuration of a process whose secret is set.
abbrev pub configured : String → ℕ → ℕ → AuthConfig
configured secret access refresh = record {
  secret = some secret;
  access_expiry_sec = access;
  refresh_expiry_sec = refresh;
}

-- The refresh token that a rotation issues.
abbrev pub next_token :
    ⦃crypto : Hash⦄ → ⦃jwt : Jwt⦄ → AuthConfig → ℕ → String → String → RefreshTokenRow → String
next_token ⦃crypto⦄ ⦃jwt⦄ cfg now id secret row =
    jwt.sign secret (refresh_payload row.user_address id) cfg.refresh_expiry_sec now

module _ {R : Type 0} ⦃crypto : Hash⦄ ⦃jwt : Jwt⦄ ⦃redis : Redis R⦄ where
  open crypto use {sha256}

  -- A token that is revoked and not stored is refused, and its user has no session left.
  refresh_tokens-reused :
      (cfg : AuthConfig) (now : ℕ) (id token : String) (s : AuthState) (r : R)
      → InMemory s.revocation
      → lookup (sha256 token) s.sessions ≡ none
      → includes (sha256 token) s.revocation.fallback_set ≡ true
      → ((refresh_tokens cfg now id token s r).0 ≡ answer none)
        × (has_session (user_of_token token) (refresh_tokens cfg now id token s r).1.sessions
            ≡ false)
  unfolding refresh_tokens refuse_unknown find_refresh_token record_auth_audit_event
  refresh_tokens-reused cfg now id token s r memory absent revoked =
      rw
        (
          absent,
          find_refresh_token,
          refresh_tokens,
          is_revoked_lem now (sha256 token) s.revocation r memory,
          refuse_unknown,
          revoked,
        )
        (refl, delete_all-has_session (user_of_token token) s.sessions)

  module _ (secret : String) (access expiry now : ℕ) (id token : String) (row : RefreshTokenRow)
      (payload : TokenPayload) (s : AuthState) (r : R) where
    -- The tokens after a rotation.
    abbrev rotated : Sessions
    rotated =
        create_refresh_token id row.user_address
          (next_token (configured secret access expiry) now id secret row) (now + expiry * 1000)
          (some (touched now row.metadata)) (erase (sha256 token) s.sessions)

    -- What a rotation without Redis answers and leaves.
    rotate_lem :
        InMemory s.revocation
        → hash_of_id row.id s.sessions ≡ some (sha256 token)
        → let first = rotate (configured secret access expiry) now id token row payload s r in
          ((tokens : AuthTokens) × (first.0 ≡ answer (some tokens)))
          × (first.1.sessions ≡ rotated)
          × (first.1.revocation ≡ with_token (sha256 token) s.revocation)
          × (first.2 ≡ r)
    unfolding rotate issue_tokens delete_refresh_token_by_id record_auth_audit_event
    rotate_lem memory own =
        let cfg = configured secret access expiry in
        let ttl = remaining_ttl_sec cfg now payload.exp in
        rw
          (
            add_revoked_token_lem now (sha256 token) ttl s.revocation r memory,
            rotate,
            own,
            delete_refresh_token_by_id,
          )
          ((_, refl), refl, refl, refl)

    -- The answer to a valid refresh token is that of its rotation.
    refresh_tokens_lem :
        find_refresh_token now token s.sessions ≡ some row
        → jwt.verify secret now token ≡ some payload
        → str_eq payload.type "refresh" ≡ true
        → refresh_tokens (configured secret access expiry) now id token s r
          ≡ rotate (configured secret access expiry) now id token row payload s r
    unfolding refresh_tokens
    refresh_tokens_lem found verified typed = rw (found, refresh_tokens, verified, typed)

    -- The rotated token is not stored, unless the new token has the same hash.
    rotated-lookup :
        str_eq
            (sha256 (next_token (configured secret access expiry) now id secret row))
            (sha256 token)
          ≡ false
        → lookup (sha256 token) rotated ≡ none
    unfolding create_refresh_token
    rotated-lookup distinct = ground (
      arith,
      lookup-insert (sha256 (next_token (configured secret access expiry) now id secret row))
          (sha256 token)
          (record {
            id = id;
            user_address = row.user_address;
            expires_at = now + expiry * 1000;
            metadata = some (touched now row.metadata);
          })
          (erase (sha256 token) s.sessions),
      lookup-erase (sha256 token) (sha256 token) s.sessions,
      eq_refl (sha256 token),
    )

    -- Without Redis, with the secret set: a stored refresh token whose record is found by its id, which
    -- the library verifies as a refresh token, is answered with tokens. If the new refresh token has
    -- another hash, then using the old one again, at any time and with any configuration, is
    -- answered with null, and leaves no stored session to the user that the old token names.
    pub refresh_tokens_once :
        (cfg : AuthConfig) (later : ℕ) (other : String)
        → InMemory s.revocation
        → find_refresh_token now token s.sessions ≡ some row
        → hash_of_id row.id s.sessions ≡ some (sha256 token)
        → jwt.verify secret now token ≡ some payload
        → str_eq payload.type "refresh" ≡ true
        → str_eq
            (sha256 (next_token (configured secret access expiry) now id secret row))
            (sha256 token)
          ≡ false
        → let first = refresh_tokens (configured secret access expiry) now id token s r in
          let second = refresh_tokens cfg later other token first.1 first.2 in
          ((tokens : AuthTokens) × (first.0 ≡ answer (some tokens)))
          × (second.0 ≡ answer none)
          × (has_session (user_of_token token) second.1.sessions ≡ false)
    refresh_tokens_once cfg later other memory found own verified typed distinct =
        let first = rotate (configured secret access expiry) now id token row payload s r in
        let (answered, sessions, revocation, server) = rotate_lem memory own in
        let refused =
          refresh_tokens-reused cfg later other token first.1 first.2
            (subst InMemory (sym revocation)
              (with_token-InMemory (sha256 token) s.revocation memory))
            (ap (lookup (sha256 token)) sessions ∙ rotated-lookup distinct)
            (ap (λ v. includes (sha256 token) v.fallback_set) revocation
              ∙ ground (
                arith,
                includes-add_member (sha256 token) (sha256 token) s.revocation.fallback_set,
                eq_refl (sha256 token),
              )) in
        rw (refresh_tokens_lem found verified typed) (answered, refused.0, refused.1)

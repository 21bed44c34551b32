-- ===== src/Auth.antt =====
-- backend/src/services/authService.ts: tokens, their rotation and revocation, and the challenges that
-- a wallet signs.
pub mod Rotation
pub mod Challenges
pub mod Audit
mod Tests
use mathlib.Core.List.{reverse}
use stellar_portfolio_rebala.Prelude.{
  ℕ, suc, ◌+◌, ◌-◌, ◌*◌, ◌/◌, String, Bool, true, false, not, Option, none, some, List, [], ◌∷◌,
  ◌++◌, length, ltb, leb, ◌==◌, slice_last, str_eq, template, if◌then◌else◌,
}
use stellar_portfolio_rebala.Prelude.Table.{Table, lookup, insert, erase}
use stellar_portfolio_rebala.Redis.{Redis, Reply, answer, failure}
use stellar_portfolio_rebala.Revocation.{
  RevocationService, add_revoked_token, is_revoked, revoke_all_for_user,
}
use stellar_portfolio_rebala.Sessions.{
  Hash, Sessions, RefreshTokenMetadata, RefreshTokenRow, touched, create_refresh_token,
  find_refresh_token, find_refresh_token_by_id, delete_refresh_token_by_id,
  delete_all_refresh_tokens_for_user,
}

pub record TokenPayload : Type 0 where
  pub sub : String
  pub type : String
  pub jti : Option String
  pub exp : Option ℕ

-- jsonwebtoken: `sign` takes the secret, the payload, the time to live in seconds and the time;
-- `verify` and `decode` throw, and a decoded token may be null.
pub record Jwt : Type 0 where
  pub sign : String → TokenPayload → ℕ → ℕ → String
  pub verify : String → ℕ → String → Option TokenPayload
  pub decode : String → Option (Option TokenPayload)

-- The check of an address's signature of a message, which throws on malformed input.
pub record Wallet : Type 0 where
  pub verify_signature : String → String → String → Option Bool

-- `secret` is what `getJwtSecret` gives: none where it throws.
pub record AuthConfig : Type 0 where
  pub secret : Option String
  pub access_expiry_sec : ℕ
  pub refresh_expiry_sec : ℕ

pub record AuthTokens : Type 0 where
  pub access_token : String
  pub refresh_token : String
  pub expires_in : ℕ
  pub refresh_expires_in : ℕ

pub data AuthAuditAction : Type 0 where
  login refresh revocation : AuthAuditAction

-- `reason` is that of `details`.
pub record AuthAuditEvent : Type 0 where
  pub action : AuthAuditAction
  pub user_address : String
  pub timestamp : ℕ
  pub session_id : Option String
  pub previous_session_id : Option String
  pub count : Option ℕ
  pub reason : Option String

pub record ChallengeEntry : Type 0 where
  pub nonce : String
  pub expires_at : ℕ

pub record FailedAttemptRecord : Type 0 where
  pub count : ℕ
  pub window_start : ℕ

-- The module's variables, with the refresh tokens and the revocation service that it uses.
pub record AuthState : Type 0 where
  pub sessions : Sessions
  pub revocation : RevocationService
  pub auth_audit_events : List AuthAuditEvent
  pub challenge_store : Table ChallengeEntry
  pub failed_sig_attempts : Table FailedAttemptRecord

abbrev pub max_auth_audit_events : ℕ
max_auth_audit_events = 100

-- The loop that shifts until at most 100 events are left.
unfoldable pub trim_events : List AuthAuditEvent → List AuthAuditEvent
trim_events [] = []
trim_events (e ∷ events) =
    let rest = trim_events events in
    if ltb max_auth_audit_events (length (e ∷ events)) then rest else e ∷ events

unfoldable pub record_auth_audit_event : AuthAuditEvent → AuthState → AuthState
record_auth_audit_event event s = record s {
  auth_audit_events = trim_events (s.auth_audit_events ++ event ∷ []);
}

unfoldable pub get_recent_auth_audit_events : ℕ → AuthState → List AuthAuditEvent
get_recent_auth_audit_events limit s = reverse (slice_last limit s.auth_audit_events)

abbrev pub event_of : AuthAuditAction → String → ℕ → AuthAuditEvent
event_of action user now = record {
  action = action;
  user_address = user;
  timestamp = now;
  session_id = none;
  previous_session_id = none;
  count = none;
  reason = none;
}

-- A text that is neither undefined nor empty.
abbrev pub present : Option String → Option String
present none = none
present (some s) = if str_eq s "" then none else some s

module _ ⦃crypto : Hash⦄ ⦃jwt : Jwt⦄ where
  abbrev pub refresh_payload : String → String → TokenPayload
  refresh_payload address id = record { sub = address; type = "refresh"; jti = some id; exp = none }

  abbrev pub access_payload : String → TokenPayload
  access_payload address = record { sub = address; type = "access"; jti = none; exp = none }

  -- `refresh_id` is the random id. None where `getJwtSecret` throws.
  unfoldable pub issue_tokens :
      AuthConfig
      → ℕ
      → String
      → String
      → Option RefreshTokenMetadata
      → AuthState
      → Option (AuthTokens × AuthState)
  issue_tokens cfg now refresh_id address metadata s = elim cfg.secret [
    | none ↦ none
    | some secret ↦
        let token =
          jwt.sign secret (refresh_payload address refresh_id) cfg.refresh_expiry_sec now in
        let expires_at = now + cfg.refresh_expiry_sec * 1000 in
        let stored : AuthState = record s {
          sessions = create_refresh_token refresh_id address token expires_at metadata s.sessions;
        } in
        some (
          record {
            access_token = jwt.sign secret (access_payload address) cfg.access_expiry_sec now;
            refresh_token = token;
            expires_in = cfg.access_expiry_sec;
            refresh_expires_in = cfg.refresh_expiry_sec;
          },
          record_auth_audit_event
              (record (event_of login address now) { session_id = some refresh_id }) stored,
        )
  ]

  -- A failure where `getJwtSecret` throws.
  unfoldable pub verify_access_token : AuthConfig → ℕ → String → Reply (Option TokenPayload)
  verify_access_token cfg now token = elim cfg.secret [
    | none ↦ failure
    | some secret ↦ elim (jwt.verify secret now token) [
      | none ↦ answer none
      | some payload ↦ answer (if str_eq payload.type "access" then some payload else none)
    ]
  ]

  -- The user named by a token that is used again.
  unfoldable pub user_of_token : String → String
  user_of_token token = elim (jwt.decode token) [
    | none ↦ ""
    | some none ↦ "unknown"
    | some (some payload) ↦ if str_eq payload.sub "" then "unknown" else payload.sub
  ]

  -- The seconds that a token has left, its whole life where it has no time of expiry.
  abbrev pub remaining_ttl_sec : AuthConfig → ℕ → Option ℕ → ℕ
  remaining_ttl_sec cfg now none = cfg.refresh_expiry_sec
  remaining_ttl_sec cfg now (some exp) =
      if exp == 0 then cfg.refresh_expiry_sec else exp - now / 1000

  module _ {R : Type 0} ⦃redis : Redis R⦄ where
    -- A token that is not found: if it has been rotated, all sessions of its user end.
    unfoldable pub refuse_unknown :
        ℕ → String → AuthState → R → Reply (Option AuthTokens) × AuthState × R
    refuse_unknown now token s r =
        let (revoked, service, r') = is_revoked now (crypto.sha256 token) s.revocation r in
        let user = user_of_token token in
        let (service', r'') = revoke_all_for_user now user service r' in
        let (count, sessions) = delete_all_refresh_tokens_for_user user s.sessions in
        if revoked
        then (
          answer none,
          record_auth_audit_event
              (record (event_of revocation user now) { reason = some "reused_rotated_token" })
              (record s { sessions = sessions; revocation = service' }),
          r'',
        )
        else (answer none, record s { revocation = service }, r')

    -- A verified refresh token gives way to a new one.
    unfoldable pub rotate :
        AuthConfig
        → ℕ
        → String
        → String
        → RefreshTokenRow
        → TokenPayload
        → AuthState
        → R
        → Reply (Option AuthTokens) × AuthState × R
    rotate cfg now refresh_id token row payload s r =
        let ttl = remaining_ttl_sec cfg now payload.exp in
        let (service, r') = add_revoked_token now (crypto.sha256 token) ttl s.revocation r in
        let revoked : AuthState = record s {
          revocation = service;
          sessions = (delete_refresh_token_by_id row.id s.sessions).1;
        } in
        elim (issue_tokens cfg now refresh_id row.user_address (some (touched now row.metadata))
          revoked) [
            | none ↦ (failure, revoked, r')
            | some issued ↦ (
              answer (some issued.0),
              record_auth_audit_event
                  (record (event_of refresh row.user_address now) {
                    previous_session_id = some row.id;
                  })
                  issued.1,
              r',
            )
          ]

    unfoldable pub refresh_tokens :
        AuthConfig → ℕ → String → String → AuthState → R → Reply (Option AuthTokens) × AuthState × R
    refresh_tokens cfg now refresh_id token s r = elim (find_refresh_token now token s.sessions) [
      | none ↦ refuse_unknown now token s r
      | some row ↦ elim cfg.secret [
        | none ↦ (failure, s, r)
        | some secret ↦ elim (jwt.verify secret now token) [
          | none ↦ (
            answer none,
            record s { sessions = (delete_refresh_token_by_id row.id s.sessions).1 },
            r,
          )
          | some payload ↦
              if str_eq payload.type "refresh"
              then rotate cfg now refresh_id token row payload s r
              else (answer none, s, r)
        ]
      ]
    ]

-- `CHALLENGE_TTL_MS`, `FAILED_SIG_WINDOW_MS` and `FAILED_SIG_THRESHOLD`.
abbrev pub challenge_ttl_ms : ℕ
challenge_ttl_ms = 300_000

abbrev pub failed_sig_window_ms : ℕ
failed_sig_window_ms = 600_000

abbrev pub failed_sig_threshold : ℕ
failed_sig_threshold = 5

abbrev pub has_lapsed : ℕ → FailedAttemptRecord → Bool
has_lapsed now attempts = ltb failed_sig_window_ms (now - attempts.window_start)

-- Whether the login is reported as suspicious, and the new state.
unfoldable pub record_failed_signature : ℕ → String → AuthState → Bool × AuthState
record_failed_signature now address s =
    let fresh : AuthState = record s {
      failed_sig_attempts =
          insert address (record { count = 1; window_start = now }) s.failed_sig_attempts;
    } in
    elim (lookup address s.failed_sig_attempts) [
      | none ↦ (false, fresh)
      | some attempts ↦
          let counted : AuthState = record s {
            failed_sig_attempts =
                insert address (record attempts { count = suc attempts.count })
                  s.failed_sig_attempts;
          } in
          if has_lapsed now attempts
          then (false, fresh)
          else (leb failed_sig_threshold (suc attempts.count), counted)
    ]

unfoldable pub get_failed_sig_attempts : ℕ → String → AuthState → ℕ
get_failed_sig_attempts now address s = elim (lookup address s.failed_sig_attempts) [
  | none ↦ 0
  | some attempts ↦ if has_lapsed now attempts then 0 else attempts.count
]

-- `nonce` is the random text; the challenge is the message to be signed.
unfoldable pub issue_challenge : ℕ → String → String → AuthState → String × AuthState
issue_challenge now nonce address s =
    let message = template ("stellar-rebalancer:auth:" ∷ nonce ∷ []) in
    let entry : ChallengeEntry = record { nonce = message; expires_at = now + challenge_ttl_ms } in
    (message, record s { challenge_store = insert address entry (erase address s.challenge_store) })

module _ ⦃wallet : Wallet⦄ where
  unfoldable pub verify_wallet_signature : ℕ → String → String → AuthState → Bool × AuthState
  verify_wallet_signature now address signature s = elim (lookup address s.challenge_store) [
    | none ↦ (false, s)
    | some entry ↦
        let used : AuthState = record s { challenge_store = erase address s.challenge_store } in
        let refused = (record_failed_signature now address used).1 in
        if ltb entry.expires_at now
        then (false, used)
        else elim (wallet.verify_signature address entry.nonce signature) [
          | none ↦ (false, refused)
          | some valid ↦ if valid then (true, used) else (false, refused)
        ]
  ]

pub data RevokeResult : Type 0 where
  revoked not_found forbidden : RevokeResult

unfoldable pub revoke_device_session : String → String → AuthState → RevokeResult × AuthState
revoke_device_session user_id token_id s = elim (find_refresh_token_by_id token_id s.sessions) [
  | none ↦ (not_found, s)
  | some row ↦
      if str_eq row.user_address user_id
      then (revoked, record s { sessions = (delete_refresh_token_by_id token_id s.sessions).1 })
      else (forbidden, s)
]

-- The second half of `logout`, for an address.
unfoldable pub logout_all : ℕ → Option String → AuthState → Bool × AuthState
logout_all now address s = elim (present address) [
  | none ↦ (false, s)
  | some user ↦
      let (count, sessions) = delete_all_refresh_tokens_for_user user s.sessions in
      let left : AuthState = record s { sessions = sessions } in
      if ltb 0 count
      then (
        true,
        record_auth_audit_event
            (record (event_of revocation user now) {
              count = some count;
              reason = some "all_sessions";
            })
            left,
      )
      else (false, left)
]

module _ ⦃crypto : Hash⦄ where
  unfoldable pub logout : ℕ → Option String → Option String → AuthState → Bool × AuthState
  logout now token address s = elim (present token) [
    | none ↦ logout_all now address s
    | some t ↦ elim (find_refresh_token now t s.sessions) [
      | none ↦ logout_all now address s
      | some row ↦ (
        true,
        record_auth_audit_event
            (record (event_of revocation row.user_address now) {
              session_id = some row.id;
              reason = some "single_session";
            })
            (record s { sessions = (delete_refresh_token_by_id row.id s.sessions).1 }),
      )
    ]
  ]

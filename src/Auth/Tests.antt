-- ===== src/Auth/Tests.antt =====
-- Runs of the authentication service, and its theorems at concrete inputs.
use stellar_portfolio_rebala.Prelude.{
  ◌+◌, ◌≡◌, refl, true, false, ◌&&◌, none, some, List, [], ◌∷◌, leb, str_eq, if◌then◌else◌,
  template,
}
use stellar_portfolio_rebala.Redis.{Redis, answer, failure}
use stellar_portfolio_rebala.Prelude.Table.{lookup, insert, erase}
use stellar_portfolio_rebala.Sessions.{
  Hash, Sessions, RefreshTokenRow, find_refresh_token, find_refresh_token_by_id, hash_of_id,
}
use stellar_portfolio_rebala.Sessions.Laws.{has_session}
use stellar_portfolio_rebala.Auth.{
  AuthAuditEvent, AuthConfig, AuthState, AuthTokens, Jwt, TokenPayload, Wallet, challenge_ttl_ms,
  event_of, issue_challenge, login, refresh_tokens, user_of_token, verify_wallet_signature,
  revoke_device_session, forbidden, revocation, record_failed_signature,
}
use stellar_portfolio_rebala.Auth.Rotation.{configured, refresh_tokens_once}
use stellar_portfolio_rebala.Auth.Challenges.{
  Call, issue, verify, run, signed, verify_wallet_signature_once, verify_wallet_signature-issue,
}

instance abbrev absent_server : Redis (Unit {0})
absent_server = record {
  is_available = λ r. false;
  set_nx = λ now key ttl r. (failure, r);
  set_ex = λ now key ttl r. (failure, r);
  del = λ now key r. (failure, r);
  exists = λ now key r. (failure, r);
}

instance abbrev test_hash : Hash
test_hash = record { sha256 = λ text. template ("sha:" ∷ text ∷ []) }

abbrev old_payload : TokenPayload
old_payload = record { sub = "GABC"; type = "refresh"; jti = some "id1"; exp = some 5000 }

-- A token is its type and its subject.
instance abbrev test_jwt : Jwt
test_jwt = record {
  sign = λ secret payload ttl now. template (payload.type ∷ "/" ∷ payload.sub ∷ []);
  verify = λ secret now token. if str_eq token "old" then some old_payload else none;
  decode = λ token. some (some old_payload);
}

-- A signature of a message is the message.
instance abbrev test_wallet : Wallet
test_wallet = record {
  verify_signature = λ address message signature. some (str_eq message signature);
}

abbrev old_row : RefreshTokenRow
old_row = record {
  id = "id1";
  user_address = "GABC";
  token_hash = "sha:old";
  expires_at = 5_000_000;
  metadata = none;
}

abbrev stored : Sessions
stored =
    (
      "sha:old",
      record { id = "id1"; user_address = "GABC"; expires_at = 5_000_000; metadata = none },
    )
    ∷ []

abbrev start : AuthState
start = record {
  sessions = stored;
  revocation = record {
    connected = false;
    fallback_set = [];
    fallback_user_set = [];
    use_redis = false;
    initialized = true;
  };
  auth_audit_events = [];
  challenge_store = [];
  failed_sig_attempts = [];
}

abbrev settings : AuthConfig
settings = configured "s" 900 604_800

refresh_tokens_once_example :
    let first = refresh_tokens settings 1000 "id2" "old" start tt in
    let second = refresh_tokens settings 2000 "id3" "old" first.1 first.2 in
    ((tokens : AuthTokens) × (first.0 ≡ answer (some tokens)))
    × (second.0 ≡ answer none)
    × (has_session (user_of_token "old") second.1.sessions ≡ false)
unfolding find_refresh_token lookup hash_of_id template
refresh_tokens_once_example =
    refresh_tokens_once "s" 900 604_800 1000 "id2" "old" old_row old_payload start tt settings 2000
      "id3" (record { is_initialized = refl; without_redis = refl }) refl refl refl refl refl

stolen_refused : (revoke_device_session "GEVE" "id1" start).0 ≡ forbidden
unfolding revoke_device_session find_refresh_token_by_id
stolen_refused = refl

abbrev other_calls : List Call
other_calls = issue 1500 "n2" "GDEF" ∷ verify 1600 "GDEF" "bad" ∷ []

abbrev challenged : AuthState
challenged = (issue_challenge 1000 "n1" "GABC" start).1

verify_wallet_signature_once_example :
    let s' = run other_calls (verify_wallet_signature 2000 "GABC" "bad" challenged).1 in
    (verify_wallet_signature 3000 "GABC" "stellar-rebalancer:auth:n1" s').0 ≡ false
verify_wallet_signature_once_example =
    verify_wallet_signature_once 2000 3000 "GABC" "bad" "stellar-rebalancer:auth:n1" other_calls
      challenged (refl, (refl, tt))

verify_wallet_signature-issue_example :
    let (message, s') = issue_challenge 1000 "n1" "GABC" start in
    (verify_wallet_signature 301_000 "GABC" "stellar-rebalancer:auth:n1" (run other_calls s')).0
    ≡ (leb 301_000 (1000 + challenge_ttl_ms) && signed "GABC" message "stellar-rebalancer:auth:n1")
verify_wallet_signature-issue_example =
    verify_wallet_signature-issue 1000 301_000 "n1" "GABC" "stellar-rebalancer:auth:n1" other_calls
      start (refl, (refl, tt))

signed_in_time :
    (verify_wallet_signature 301_000 "GABC" "stellar-rebalancer:auth:n1"
      (run other_calls challenged)).0
    ≡ true
unfolding verify_wallet_signature issue_challenge run lookup insert erase record_failed_signature
    template
signed_in_time = refl

abbrev events : List AuthAuditEvent
events = event_of login "GABC" 1 ∷ event_of revocation "GABC" 2 ∷ []

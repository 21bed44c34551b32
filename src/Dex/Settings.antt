-- ===== src/Dex/Settings.antt =====
-- The settings that the execution reads from the environment, the signer and the assets.
use stellar_portfolio_rebala.Prelude.{
  String, Bool, true, false, not, ◌&&◌, Option, none, some, List, [], ◌∷◌, foldl, str_eq, template,
  trim, to_upper_case, to_lower_case, if◌then◌else◌,
}
use stellar_portfolio_rebala.Prelude.Table.{Table, lookup, insert}
use stellar_portfolio_rebala.Number.{Number, int, gt, truthy}
use stellar_portfolio_rebala.Async.{Outcome, returned, thrown}
use stellar_portfolio_rebala.Dex.Types.{
  RebalanceExecutionConfig, RequestedConfig, Asset, native, Sdk, Keypair,
}

-- A variable that is set and not empty.
abbrev pub env_text : Table String → String → Option String
env_text env name = elim (lookup name env) [
  | none ↦ none
  | some raw ↦ if str_eq raw "" then none else some raw
]

abbrev pub or_else {ℓ} : {A : Type ℓ} → Option A → A → A
or_else none d = d
or_else (some a) d = a

unfoldable pub read_boolean_env : Table String → String → Bool → Bool
read_boolean_env env name fallback = elim (env_text env name) [
  | none ↦ fallback
  | some raw ↦ str_eq (to_lower_case raw) "true"
]

abbrev pub default_issuers : Table String
default_issuers =
    ("USDC", "GBBD47IF6LWK7P7MDEVSCWR7DPUWV3NY3DTQEVFL4NAT4AQH3ZLLFLA5")
    ∷ ("BTC", "GAUTUYY2THLF7SGITDFMXJVYH3LHDSMGEAKSBU267M2K7A3W543CKUEF")
    ∷ []

-- `JSON.parse`: the entries of the object, none for a value that is not a text; none where the text
-- has no entries to list.
pub record IssuerJson : Type 0 where
  pub parse : String → Option (List (String × Option String))

abbrev pub add_issuer : Table String → String × Option String → Table String
add_issuer merged (code, none) = merged
add_issuer merged (code, some issuer) =
    if not (str_eq code "") && not (str_eq issuer "")
    then insert (to_upper_case code) issuer merged
    else merged

unfoldable pub load_asset_issuers : ⦃json : IssuerJson⦄ → Table String → Table String
load_asset_issuers ⦃json⦄ env = elim (env_text env "STELLAR_ASSET_ISSUERS") [
  | none ↦ default_issuers
  | some raw ↦ elim (json.parse raw) [
    | none ↦ default_issuers
    | some entries ↦ foldl add_issuer default_issuers entries
  ]
]

module _ {F : Type 0} ⦃n : Number F⦄ where
  unfoldable pub read_number_env : Table String → String → F → F → F → F
  read_number_env env name fallback low high = elim (env_text env name) [
    | none ↦ fallback
    | some raw ↦
        let parsed = n.parse raw in
        if not (n.is_finite parsed) then fallback else n.min high (n.max low parsed)
  ]

  unfoldable pub get_default_execution_config : Table String → RebalanceExecutionConfig F
  get_default_execution_config env = record {
    max_slippage_bps_per_trade =
        read_number_env env "REBALANCE_MAX_TRADE_SLIPPAGE_BPS" (int 100) (int 1) (int 5000);
    max_slippage_bps_per_rebalance =
        read_number_env env "REBALANCE_MAX_TOTAL_SLIPPAGE_BPS" (int 250) (int 1) (int 10_000);
    max_spread_bps = read_number_env env "REBALANCE_MAX_SPREAD_BPS" (int 120) (int 1) (int 10_000);
    min_liquidity_coverage =
        read_number_env env "REBALANCE_MIN_LIQUIDITY_COVERAGE" (int 1) (n.decimal 1 1) (int 100);
    allow_partial_fill = read_boolean_env env "REBALANCE_ALLOW_PARTIAL_FILL" true;
    rollback_on_failure = read_boolean_env env "REBALANCE_ROLLBACK_ON_FAILURE" true;
    signer_secret = none;
  }

  -- `{ ...this.getDefaultExecutionConfig(), ...requestedConfig }`
  unfoldable pub execution_config : Table String → RequestedConfig F → RebalanceExecutionConfig F
  execution_config env requested =
      let default = get_default_execution_config env in
      record {
        max_slippage_bps_per_trade =
            or_else requested.trade_slippage default.max_slippage_bps_per_trade;
        max_slippage_bps_per_rebalance =
            or_else requested.rebalance_slippage default.max_slippage_bps_per_rebalance;
        max_spread_bps = or_else requested.spread default.max_spread_bps;
        min_liquidity_coverage = or_else requested.coverage default.min_liquidity_coverage;
        allow_partial_fill = or_else requested.partial_fill default.allow_partial_fill;
        rollback_on_failure = or_else requested.rollback default.rollback_on_failure;
        signer_secret = requested.secret;
      }

  unfoldable pub get_effective_trade_slippage : RebalanceExecutionConfig F → Option F → F
  get_effective_trade_slippage config override =
      let from_override : F = elim override [
        | none ↦ config.max_slippage_bps_per_trade
        | some bps ↦ if truthy bps && gt bps (int 0) then bps else config.max_slippage_bps_per_trade
      ] in
      n.min from_override config.max_slippage_bps_per_rebalance

module _ ⦃sdk : Sdk⦄ where
  open sdk use {from_secret, new_asset}

  unfoldable pub get_asset_object : Table String → String → Outcome Asset
  get_asset_object issuers asset_code =
      let normalized = to_upper_case asset_code in
      if str_eq normalized "XLM" then returned native else elim (env_text issuers normalized) [
        | none ↦ thrown (
            template (
              "Unsupported asset '" ∷ normalized ∷ "'. Add its issuer to STELLAR_ASSET_ISSUERS."
              ∷ []))
        | some issuer ↦ new_asset normalized issuer
      ]

  -- `overrideSecret || process.env.A || process.env.B || ''`
  abbrev pub secret_of : Table String → Option String → String
  secret_of env override =
      let fallback =
        or_else (env_text env "STELLAR_REBALANCE_SECRET")
          (or_else (env_text env "STELLAR_SECRET_KEY") "") in
      elim override [ none ↦ fallback | some s ↦ if str_eq s "" then fallback else s ]

  unfoldable pub resolve_signer : Table String → String → Option String → Outcome Keypair
  resolve_signer env user_address override =
      let secret = trim (secret_of env override) in
      if str_eq secret ""
      then thrown
          "Missing signer secret. Set STELLAR_REBALANCE_SECRET or STELLAR_SECRET_KEY, or pass signerSecret in request."
      else elim (from_secret secret) [
        | thrown message ↦ thrown message
        | returned signer ↦
            if not (read_boolean_env env "REBALANCE_ALLOW_SIGNER_MISMATCH" false)
              && not (str_eq signer.public_key user_address)
            then thrown (
                template (
                  "Signer account " ∷ signer.public_key ∷ " does not match portfolio account "
                  ∷ user_address ∷ []))
            else returned signer
      ]

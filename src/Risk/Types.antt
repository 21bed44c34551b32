-- ===== src/Risk/Types.antt =====
-- The types of backend/src/services/riskManagements.ts.
use stellar_portfolio_rebala.Prelude.{ℕ, String, Bool, Option, List}
use stellar_portfolio_rebala.Prelude.Table.{Table}

pub data DrawdownBand : Type 0 where
  normal elevated critical : DrawdownBand

pub data RiskLevel : Type 0 where
  low medium high critical : RiskLevel

-- `correlations`: for each asset its correlation with each asset.
abbrev pub Matrix : Type 0 → Type 0
Matrix F = Table (Table F)

pub record StatisticalRiskMetrics (F : Type 0) : Type 0 where
  pub ewma_volatility : F
  pub var95 : F
  pub cvar95 : F
  pub max_drawdown : F
  pub drawdown_band : DrawdownBand
  pub correlations : Matrix F
  pub sample_size : ℕ

pub record RiskMetrics (F : Type 0) : Type 0 where
  pub statistics : StatisticalRiskMetrics F
  pub open statistics use *
  pub volatility : F
  pub concentration_risk : F
  pub liquidity_risk : F
  pub correlation_risk : F
  pub overall_risk_level : RiskLevel

pub data AlertType : Type 0 where
  volatility concentration liquidity correlation circuit_breaker : AlertType

pub data Severity : Type 0 where
  warning critical : Severity

pub record RiskAlert : Type 0 where
  pub type : AlertType
  pub severity : Severity
  pub message : String
  pub asset : Option String
  pub recommended_action : String
  pub timestamp : ℕ

pub record CircuitBreakerStatus : Type 0 where
  pub is_triggered : Bool
  pub trigger_reason : Option String
  pub cooldown_until : Option ℕ
  pub triggered_assets : List String

pub data ReasonCode : Type 0 where
  ok : ReasonCode
  circuit_breaker_active : ReasonCode
  concentration_breach : ReasonCode
  ewma_vol_breach : ReasonCode
  var_breach : ReasonCode
  cvar_breach : ReasonCode
  drawdown_breach : ReasonCode

pub record ReturnPoint (F : Type 0) : Type 0 where
  pub value : F
  pub timestamp : ℕ

pub record PricePoint (F : Type 0) : Type 0 where
  pub price : F
  pub timestamp : ℕ

-- The fields of `RiskManagementService`.
pub record RiskService (F : Type 0) : Type 0 where
  pub price_history : Table (List (PricePoint F))
  pub return_series : Table (List (ReturnPoint F))
  pub circuit_breakers : Table CircuitBreakerStatus

-- ===== src/Risk/Config.antt =====
-- core/risk/risk_config.py: `RiskConfig` and its checks at construction. A timeout is a float that
-- is only compared, so it stands as its exact decimal value.
use kospi200_project.Base.{String, ◌≡◌, Bool, true, false, ◌&&◌, arith, if◌then◌else◌}
use kospi200_project.Base.Int.{ℤ, pos, ◌<ℤ◌, leb_ℤ}
use kospi200_project.Base.Text.{append}
use kospi200_project.Base.Decimal.{Decimal, of_ℕ, scaled, led, is_positive, is_negative, of_int}
use kospi200_project.Base.Exn.{Result, ok, raise, bind, value_error}

-- What a caller may pass for a number. `number` is an int, a float, a Decimal or a text that
-- denotes a finite number; `not_finite` one that denotes NaN or an infinity; `invalid` any value
-- that the conversion refuses.
pub data RawNumber : Type 0 where
  absent not_finite invalid : RawNumber
  boolean : Bool → RawNumber
  integer : ℤ → RawNumber
  number : Decimal → RawNumber

pub record RawConfig : Type 0 where
  pub max_order_qty : RawNumber
  pub max_daily_loss_krw : RawNumber
  pub max_margin_utilization_ratio : RawNumber
  pub max_position_per_instrument : RawNumber
  pub vol_spike_threshold_multiplier : RawNumber
  pub margin_diet_active : RawNumber
  pub account_stale_timeout_sec : RawNumber
  pub position_stale_timeout_sec : RawNumber

pub record RiskConfig : Type 0 where
  pub max_order_qty : ℤ
  pub max_daily_loss_krw : Decimal
  pub max_margin_utilization_ratio : Decimal
  pub max_position_per_instrument : ℤ
  pub vol_spike_threshold_multiplier : Decimal
  pub margin_diet_active : Bool
  pub account_stale_timeout_sec : Decimal
  pub position_stale_timeout_sec : Decimal

-- `RiskConfig._decimal`
unfoldable pub config_decimal : RawNumber → Result Decimal
config_decimal absent = raise value_error "RISK_CONFIG_DECIMAL_VALUE_REQUIRED"
config_decimal (boolean _) = raise value_error "RISK_CONFIG_DECIMAL_VALUE_REQUIRED"
config_decimal not_finite = raise value_error "RISK_CONFIG_DECIMAL_VALUE_FINITE_REQUIRED"
config_decimal invalid = raise value_error "RISK_CONFIG_DECIMAL_VALUE_INVALID"
config_decimal (integer n) = ok (of_int n)
config_decimal (number d) = ok d

-- `RiskConfig._positive_int`
unfoldable pub positive_int : RawNumber → String → Result ℤ
positive_int (integer n) field =
    if leb_ℤ n (pos 0) then raise value_error (append field "_POSITIVE_INT_REQUIRED") else ok n
positive_int _ field = raise value_error (append field "_POSITIVE_INT_REQUIRED")

nonnegative : Decimal → String → Result Decimal
nonnegative d field =
    if is_negative d then raise value_error (append field "_NONNEGATIVE_FINITE_REQUIRED") else ok d

-- `RiskConfig._nonnegative_timeout`
unfoldable pub nonnegative_timeout : RawNumber → String → Result Decimal
unfolding nonnegative
nonnegative_timeout (integer n) field = nonnegative (of_int n) field
nonnegative_timeout (number d) field = nonnegative d field
nonnegative_timeout _ field = raise value_error (append field "_NONNEGATIVE_FINITE_REQUIRED")

-- `isinstance(margin_diet_active, bool)`
boolean_flag : RawNumber → Result Bool
boolean_flag (boolean b) = ok b
boolean_flag _ = raise value_error "MARGIN_DIET_ACTIVE_BOOL_REQUIRED"

require : Bool → String → Result (Unit {0})
require b m = if b then ok tt else raise value_error m

infixl 5 ◌>>=◌ ◌>>◌
abbrev ◌>>=◌ : {A B : Type 0} → Result A → (A → Result B) → Result B
m >>= f = bind m f

abbrev ◌>>◌ : {B : Type 0} → Result (Unit {0}) → Result B → Result B
m >> k = bind m (λ _. k)

-- `RiskConfig.__post_init__`
unfoldable pub checked_config : RawConfig → Result RiskConfig
unfolding require boolean_flag
checked_config raw = do
  order_qty ← positive_int raw.max_order_qty "MAX_ORDER_QTY"
  position_qty ← positive_int raw.max_position_per_instrument "MAX_POSITION_PER_INSTRUMENT"
  daily_loss ← config_decimal raw.max_daily_loss_krw
  margin_ratio ← config_decimal raw.max_margin_utilization_ratio
  vol_multiplier ← config_decimal raw.vol_spike_threshold_multiplier
  require (is_positive daily_loss) "MAX_DAILY_LOSS_KRW_POSITIVE_REQUIRED"
  require (is_positive margin_ratio && led margin_ratio (of_ℕ 1))
      "MAX_MARGIN_UTILIZATION_RATIO_RANGE_REQUIRED"
  require (is_positive vol_multiplier) "VOL_SPIKE_THRESHOLD_MULTIPLIER_POSITIVE_REQUIRED"
  diet ← boolean_flag raw.margin_diet_active
  account_timeout ← nonnegative_timeout raw.account_stale_timeout_sec "ACCOUNT_STALE_TIMEOUT_SEC"
  position_timeout ← nonnegative_timeout raw.position_stale_timeout_sec "POSITION_STALE_TIMEOUT_SEC"
  ok (record {
    max_order_qty = order_qty;
    max_daily_loss_krw = daily_loss;
    max_margin_utilization_ratio = margin_ratio;
    max_position_per_instrument = position_qty;
    vol_spike_threshold_multiplier = vol_multiplier;
    margin_diet_active = diet;
    account_stale_timeout_sec = account_timeout;
    position_stale_timeout_sec = position_timeout;
  })

-- The field defaults.
abbrev pub default_config : RawConfig
default_config = record {
  max_order_qty = integer (pos 50);
  max_daily_loss_krw = number (of_ℕ 10000000);
  max_margin_utilization_ratio = number (scaled 85 2);
  max_position_per_instrument = integer (pos 100);
  vol_spike_threshold_multiplier = number (scaled 130 2);
  margin_diet_active = boolean false;
  account_stale_timeout_sec = number (of_ℕ 30);
  position_stale_timeout_sec = number (of_ℕ 30);
}

-- The thresholds that the risk decisions may rely on.
pub record IsSound (c : RiskConfig) : Type 0 where
  pub order_qty : pos 0 <ℤ c.max_order_qty
  pub position_qty : pos 0 <ℤ c.max_position_per_instrument
  pub daily_loss : is_positive c.max_daily_loss_krw ≡ true
  pub margin_ratio_low : is_positive c.max_margin_utilization_ratio ≡ true
  pub margin_ratio_high : led c.max_margin_utilization_ratio (of_ℕ 1) ≡ true
  pub vol_multiplier : is_positive c.vol_spike_threshold_multiplier ≡ true
  pub account_timeout : is_negative c.account_stale_timeout_sec ≡ false
  pub position_timeout : is_negative c.position_stale_timeout_sec ≡ false

-- The values of a configuration, as a caller passes them.
abbrev pub raw_of : RiskConfig → RawConfig
raw_of c = record {
  max_order_qty = integer c.max_order_qty;
  max_daily_loss_krw = number c.max_daily_loss_krw;
  max_margin_utilization_ratio = number c.max_margin_utilization_ratio;
  max_position_per_instrument = integer c.max_position_per_instrument;
  vol_spike_threshold_multiplier = number c.vol_spike_threshold_multiplier;
  margin_diet_active = boolean c.margin_diet_active;
  account_stale_timeout_sec = number c.account_stale_timeout_sec;
  position_stale_timeout_sec = number c.position_stale_timeout_sec;
}

positive_int_pos :
    (raw : RawNumber) (field : String) (n : ℤ) → positive_int raw field ≡ ok n → pos 0 <ℤ n
unfolding positive_int
positive_int_pos (integer m) field n h = ground arith
positive_int_pos _ field n h = cc

timeout_nonneg :
    (raw : RawNumber) (field : String) (d : Decimal)
    → nonnegative_timeout raw field ≡ ok d
    → is_negative d ≡ false
unfolding nonnegative_timeout
timeout_nonneg (integer m) field d h = ground arith
timeout_nonneg (number e) field d h = ground arith
timeout_nonneg _ field d h = cc

-- A configuration that is constructed has sound thresholds, whatever was passed.
pub checked_config-IsSound :
    (raw : RawConfig) (c : RiskConfig) → checked_config raw ≡ ok c → IsSound c
unfolding checked_config
checked_config-IsSound raw c h = ground (
  arith,
  positive_int_pos raw.max_order_qty "MAX_ORDER_QTY" c.max_order_qty,
  positive_int_pos raw.max_position_per_instrument "MAX_POSITION_PER_INSTRUMENT"
      c.max_position_per_instrument,
  timeout_nonneg raw.account_stale_timeout_sec "ACCOUNT_STALE_TIMEOUT_SEC"
      c.account_stale_timeout_sec,
  timeout_nonneg raw.position_stale_timeout_sec "POSITION_STALE_TIMEOUT_SEC"
      c.position_stale_timeout_sec,
)

-- The values of a sound configuration are accepted and kept as they are.
pub checked_config_accepts : (c : RiskConfig) → IsSound c → checked_config (raw_of c) ≡ ok c
unfolding checked_config positive_int config_decimal nonnegative_timeout
checked_config_accepts c s = ground arith

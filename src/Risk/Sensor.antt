-- ===== src/Risk/Sensor.antt =====
-- core/risk/risk_sensor.py: `RiskSensor.scan_risk`. A reading that is absent or NaN is `none`.
use kospi200_project.Base.{
  String, ◌≡◌, refl, Bool, true, false, not, ◌||◌, Option, none, some, if◌then◌else◌,
}
use kospi200_project.Base.Text.{◌==◌}
use kospi200_project.Base.Decimal.{Decimal, of_ℕ, div, ltd, led, is_positive}
use kospi200_project.Risk.Config.{RiskConfig}

pub record RiskSensorSnapshot : Type 0 where
  pub is_vol_spike : Bool
  pub is_crisis_regime : Bool
  pub is_margin_diet_required : Bool
  pub is_account_stale : Bool
  pub is_position_stale : Bool
  pub active_vol_ratio : Decimal
  pub reason : String

-- `current_regime in {...}`
unfoldable pub is_crisis : String → Bool
is_crisis regime = regime == "CRISIS" || regime == "HIGH_VOLATILITY" || regime == "EXTREME_MOVE"

unfoldable pub vol_ratio : Decimal → Decimal → Decimal
vol_ratio active base = if is_positive base then div active base else of_ℕ 1

-- The code's reasons, without the numbers that it formats into them.
unfoldable pub sensor_reason : Bool → Bool → Bool → Bool → String
sensor_reason diet spike crisis stale =
    if diet
    then "MARGIN_DIET_TRIGGERED"
    else if spike
    then "VOLATILITY_SPIKE_DETECTED"
    else if crisis
    then "CRISIS_REGIME_ACTIVE"
    else if stale
    then "STALE_STATE_DETECTED"
    else "NORMAL"

abbrev invalid_input : RiskSensorSnapshot
invalid_input = record {
  is_vol_spike = false;
  is_crisis_regime = false;
  is_margin_diet_required = false;
  is_account_stale = false;
  is_position_stale = false;
  active_vol_ratio = of_ℕ 1;
  reason = "INVALID_OR_NAN_SENSOR_INPUT";
}

abbrev scanned :
    RiskConfig → Decimal → Decimal → String → Decimal → Bool → Bool → RiskSensorSnapshot
scanned config active base regime margin account_stale position_stale =
    let ratio = vol_ratio active base in
    let spike = led config.vol_spike_threshold_multiplier ratio in
    let diet = ltd config.max_margin_utilization_ratio margin in
    record {
      is_vol_spike = spike;
      is_crisis_regime = is_crisis regime;
      is_margin_diet_required = diet;
      is_account_stale = account_stale;
      is_position_stale = position_stale;
      active_vol_ratio = ratio;
      reason = sensor_reason diet spike (is_crisis regime) (account_stale || position_stale);
    }

unfoldable pub scan_risk :
    RiskConfig
    → Option Decimal
    → Option Decimal
    → String
    → Decimal
    → Bool
    → Bool
    → RiskSensorSnapshot
scan_risk config none _ _ _ _ _ = invalid_input
scan_risk config (some active) none _ _ _ _ = invalid_input
scan_risk config (some active) (some base) regime margin account_stale position_stale =
    scanned config active base regime margin account_stale position_stale

-- The reason names a flag that is up.
reason_normal :
    (diet spike crisis account position : Bool)
    → sensor_reason diet spike crisis (account || position) == "NORMAL"
      ≡ not (diet || spike || crisis || account || position)
unfolding sensor_reason
reason_normal true spike crisis account position = refl
reason_normal false true crisis account position = refl
reason_normal false false true account position = refl
reason_normal false false false true position = refl
reason_normal false false false false true = refl
reason_normal false false false false false = refl

no_base :
    (config : RiskConfig) (margin : Decimal) (regime : String) (account position : Bool)
    (reading : Option Decimal)
    → scan_risk config reading none regime margin account position ≡ invalid_input
unfolding scan_risk
no_base config margin regime account position none = refl
no_base config margin regime account position (some r) = refl

-- With both readings the reason is "NORMAL" exactly if no flag is up, and the flags for the account
-- and the position are passed through. Without one of them no flag is up at all, a stale account or
-- position included.
pub scan_risk_reason :
    (config : RiskConfig) (active base margin : Decimal) (regime : String)
    (reading : Option Decimal) (account_stale position_stale : Bool)
    → let s =
        scan_risk config (some active) (some base) regime margin account_stale position_stale in
      let t = scan_risk config none reading regime margin account_stale position_stale in
      (s.reason == "NORMAL"
        ≡ not (
            s.is_margin_diet_required || s.is_vol_spike || s.is_crisis_regime || s.is_account_stale
            || s.is_position_stale))
      × (s.is_account_stale ≡ account_stale)
      × (s.is_position_stale ≡ position_stale)
      × (t.is_margin_diet_required || t.is_vol_spike || t.is_crisis_regime || t.is_account_stale
            || t.is_position_stale
          ≡ false)
      × (scan_risk config reading none regime margin account_stale position_stale ≡ t)
unfolding scan_risk
scan_risk_reason config active base margin regime reading account_stale position_stale = (
  reason_normal (ltd config.max_margin_utilization_ratio margin)
      (led config.vol_spike_threshold_multiplier (vol_ratio active base)) (is_crisis regime)
      account_stale position_stale,
  refl,
  refl,
  refl,
  no_base config margin regime account_stale position_stale reading,
)

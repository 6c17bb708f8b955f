-- ===== src/Strategy/Track3.antt =====
-- core/strategy/track3_statistical_arbitrage.py: `Track3StatisticalArbitrage`. Floating-point numbers
-- are any type with the operations that the strategy uses, `mean` and `pstdev` of Python's library
-- among them. A signal's reason leaves out the printed payload; the values are fields.
pub mod Measures
pub mod Evaluation
pub mod Groups
pub mod Entries
mod Tests
use Prim.Native.String.{compare}
use text.Mathlib.Text.{is_lt}
use kospi200_project.Base.{
  ℕ, zero, suc, ◌+◌, ◌-◌, String, Bool, true, false, not, ◌&&◌, ◌||◌, Option, none, some, is_none,
  List, [], ◌∷◌, map, if◌then◌else◌, ltb, leb, eqb,
}
use kospi200_project.Base.Int.{ℤ, pos, leb_ℤ}
use kospi200_project.Base.Text.{◌==◌, append, truthy}
use kospi200_project.Base.Print.{print_ℤ}
use kospi200_project.Base.Lists.{length, all, elem}
use kospi200_project.Base.Decimal.{Decimal, of_ℕ, scaled}

pub record Reals (F : Type 0) : Type 0 where
  pub literal : Decimal → F
  pub of_int : ℤ → F
  pub add : F → F → F
  pub sub : F → F → F
  pub mul : F → F → F
  pub div : F → F → F
  pub neg : F → F
  pub absolute : F → F
  pub maximum : F → F → F
  pub le : F → F → Bool
  pub lt : F → F → Bool
  pub eq : F → F → Bool
  pub is_finite : F → Bool
  pub mean : List F → F
  pub pstdev : List F → F

-- An option leg of the input, with the defaults of `get` filled in.
pub record InputLeg (F : Type 0) : Type 0 where
  pub strike : F
  pub price : F
  pub qty : ℤ
  pub side : String
  pub option_type : String
  pub current_market_price : Option F

pub record Track3MarketInput (F : Type 0) : Type 0 where
  pub spread_history : List F
  pub active_vol : F
  pub base_vol : F
  pub price_change_rate : F
  pub bid_ask_spread : F
  pub gap_pct : F
  pub is_gap : Bool
  pub time_str : String
  pub market_stable : Bool
  pub spread_normalizing : Bool
  pub allow_size_up : Bool
  pub current_pnl : F
  pub total_fees : F
  pub premium_spent : F
  pub current_price : F
  pub options_legs : List (InputLeg F)
  pub regime : Option String
  pub date_str : String

pub record Track3Signal (F : Type 0) : Type 0 where
  pub action : String
  pub direction : String
  pub reason : String
  pub group_id : Option String
  pub qty : ℕ
  pub expected_net_pnl : Option F

pub record Track3Result (F : Type 0) : Type 0 where
  pub status : String
  pub regime : String
  pub z_score : F
  pub signals : List (Track3Signal F)

pub record GroupLeg : Type 0 where
  pub group_id : String
  pub leg_type : String
  pub qty : ℕ

pub record Track3Config (F : Type 0) : Type 0 where
  pub z_entry_threshold : F
  pub z_exit_threshold : F
  pub z_stop_loss_threshold : F
  pub max_holding_ticks : ℤ
  pub min_required_profit : F
  pub base_round_trip_cost : F

pub record Track3State (F : Type 0) : Type 0 where
  pub active_position : Option String
  pub active_group_id : Option String
  pub group_sequence : ℕ
  pub cooldown_ticks : ℕ
  pub holding_ticks : ℕ
  pub last_exit_z_score : Option F
  pub group_integrity : Bool
  pub position_group_legs : List GroupLeg
  pub arb_high_pnl : F
  pub current_date : String

-- The floating-point literals `n` and `n / 10 ^ k`.
abbrev pub num : {F : Type 0} → Reals F → ℕ → F
num reals n = reals.literal (of_ℕ n)

abbrev pub dec : {F : Type 0} → Reals F → ℕ → ℕ → F
dec reals n k = reals.literal (scaled n k)

-- `a < b` and `a >= b` of texts.
abbrev pub before : String → String → Bool
before a b = is_lt (compare a b)

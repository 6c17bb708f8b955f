-- ===== src/Position/Tests.antt =====
-- Fills on live and virtual positions. Whole numbers stand for the floats.
use kospi200_project.Base.{◌≡◌, refl, false, none, some, ◌⊎◌, arith}
use kospi200_project.Base.Int.{ℤ, pos, ◌+ℤ◌, ◌-ℤ◌, ◌*ℤ◌}
use kospi200_project.Base.Decimal.{Decimal, of_ℕ}
use kospi200_project.Base.Exn.{ok, is_ok}
use kospi200_project.Contracts.{BrokerOrderCommand, ExecutionReport}
use kospi200_project.Position.Net.{net, signed}
use kospi200_project.Position.Live
use kospi200_project.Position.Live.{
  LivePositionAggregate, weighted_average, apply_fill-net, apply_fill_price,
}
use kospi200_project.Position.Virtual.{Floats, VirtualPositionAggregate}
use kospi200_project.Position.Fills.{Matches, apply_live, apply_live_cases}

abbrev sell : BrokerOrderCommand
sell = record {
  client_order_id = "A";
  instrument_id = "201W01";
  side = "SELL";
  quantity = pos 5;
  order_type = "LIMIT";
  broker_symbol = none;
  session_id = none;
  instrument_identity = none;
  asset_type = none;
  requested_price = none;
  strategy_id = none;
  order_purpose = none;
  track_id = none;
  tag_id = none;
  group_id = none;
  leg_id = none;
}

abbrev filled : ExecutionReport
filled = record {
  client_order_id = "A";
  broker_order_id = some "B2";
  execution_id = some "E1";
  status = "FILLED";
  filled_quantity = pos 5;
  remaining_quantity = pos 0;
  execution_price = some (of_ℕ 2);
  execution_timestamp = none;
  source_freshness = none;
  rejected_reason = none;
  group_id = none;
  leg_id = none;
}

abbrev long : LivePositionAggregate
long = record {
  instrument_id = "201W01";
  side = some "BUY";
  qty = pos 3;
  avg_price = some (of_ℕ 10);
}

abbrev integers : Floats
integers = record {
  Float = ℤ;
  add = ◌+ℤ◌;
  mul = ◌*ℤ◌;
  div = λ a b. a;
  of_int = λ n. n;
  of_decimal = λ d. d.coef;
}

abbrev virtual_long : VirtualPositionAggregate ℤ
virtual_long = record {
  instrument_id = "201W01";
  side = some "BUY";
  qty = pos 3;
  avg_price = some (pos 10);
}

-- Selling five of three flips the position.
flips : Live.apply_fill "SELL" (pos 5) (of_ℕ 2) long ≡ (
  ok tt,
  record { instrument_id = "201W01"; side = some "SELL"; qty = pos 2; avg_price = some (of_ℕ 2) },
)
unfolding Live.apply_fill ◌-ℤ◌
flips = refl

apply_fill-net_example :
    let (r, p') = Live.apply_fill "SELL" (pos 5) (of_ℕ 2) long in
    (r ≡ ok tt)
    × Live.IsValid p'
    × (p'.instrument_id ≡ long.instrument_id)
    × (net p'.side p'.qty ≡ net long.side long.qty +ℤ signed "SELL" (pos 5))
apply_fill-net_example =
    apply_fill-net "SELL" (pos 5) (of_ℕ 2) long (ground arith) refl (ground arith) refl

apply_live_cases_example :
    let (r, p') = apply_live sell filled long in
    ((price : Decimal) × Matches sell filled long price
      × (r ≡ ok tt)
      × Live.IsValid p'
      × (net p'.side p'.qty ≡ net long.side long.qty +ℤ signed sell.side filled.filled_quantity))
    ⊎ ((is_ok r ≡ false) × (p' ≡ long) × ((price : Decimal) → ¬ Matches sell filled long price))
apply_live_cases_example = apply_live_cases sell filled long (ground arith)

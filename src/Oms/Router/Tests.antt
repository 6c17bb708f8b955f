-- ===== src/Oms/Router/Tests.antt =====
-- A run of the router of core/oms/order_router.py with a broker that counts its orders.
use kospi200_project.Base.{ℕ, suc, ◌≡◌, false, true, some, none, ◌⊎◌}
use kospi200_project.Base.Int.{pos}
use kospi200_project.Base.Exn.{ok, is_ok}
use kospi200_project.Contracts.{BrokerOrderCommand}
use kospi200_project.Oms.Fsm.{new_machine}
use kospi200_project.Oms.Router.{Submit, register, register_and_route}
use kospi200_project.Oms.Router.Routing.{register_and_route_raises}

abbrev order : BrokerOrderCommand
order = record {
  client_order_id = "A";
  instrument_id = "201W01";
  side = "BUY";
  quantity = pos 3;
  order_type = "LIMIT";
  broker_symbol = none;
  session_id = none;
  instrument_identity = none;
  asset_type = none;
  requested_price = none;
  strategy_id = none;
  order_purpose = none;
  track_id = none;
  tag_id = none;
  group_id = none;
  leg_id = none;
}

-- It accepts every order under the id B1.
abbrev counting : Submit ℕ
counting command n = (
  ok (
      some (record {
        client_order_id = command.client_order_id;
        accepted = true;
        broker_order_id = some "B1";
        broker_code = none;
        message = none;
      })),
  suc n,
)

abbrev token : ℕ
token = 5

register_and_route_raises_example :
    let (r, m', w') =
      register_and_route (some order) (some token) (some (some counting)) new_machine 0 in
    (is_ok r ≡ false)
    × ((w' ≡ 0)
        ⊎ (((register order new_machine).0 ≡ ok tt)
            × (m'.states ≡ (register order new_machine).1.states)
            × (w' ≡ (counting order 0).1)))
register_and_route_raises_example =
    register_and_route_raises counting order (some token) new_machine 0

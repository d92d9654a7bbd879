-- ===== src/Examples/Parts.antt =====
-- The theorems on the repositories, the worker and the release of the stop at a concrete input.
use newhbot.Base.{
  List, eq_iff, arith, ◌≢◌, ◌≡◌, refl, ◌⊎◌, String, true, false, none, some, [], ◌∷◌,
}
use newhbot.Decimal.{whole}
use newhbot.Enums.{is_inflight, OrderStatus, OrderSide, SystemState}
use newhbot.Repositories.Orders
use newhbot.Repositories.Reservation
use newhbot.Controllers.Submit.{request_of}
use newhbot.Worker.Mock
use newhbot.Worker.Mock.{MockExchange, new_exchange}
use newhbot.Worker.Mock.Idempotence.{place_order_twice}
use newhbot.Worker.Runtime.{new_runtime, Runtime, WorkerConfig, Adapter, place_order as gate_order}
use newhbot.Worker.Runtime
use newhbot.Worker.Runtime.Gate.{IsRefused}
use newhbot.Worker.Runtime.Heartbeat.{Operation, after, IsFresh, passed_order-IsFresh}
use newhbot.Protocol.{PlaceOrderRequest}
use newhbot.Repositories.Trades
use newhbot.Repositories.Exclusive.{OneInflight, add-OneInflight, slot-exclusive}
use newhbot.Repositories.FillOnce.{add_fill_once}
use newhbot.Models.{Fill}
use newhbot.World.{World}
use newhbot.Action.{ok, pure, gets, when, attempt, ◌>>=◌, on_result, try_except}
use newhbot.World.{ask, commit, publish, modify_db}
use newhbot.Recovery.{set_state}
use newhbot.Models.{default_settings}
use newhbot.Repositories.Settings
use newhbot.Repositories.Journal
use newhbot.Controllers.Mirror.{Reply, no_reply, emit}
use newhbot.Controllers.Open.{has_foreign}
use newhbot.Controllers.Estop.{
  clear_estop, clear_by_exchange, query_all, judge_exchange, release_estop,
}
use newhbot.Controllers.Estop.Released.{IsReleased, clear_estop-IsReleased}
use newhbot.Examples.{calm_env, running_db, running, lost_order}

abbrev entry : PlaceOrderRequest
entry = request_of lost_order

abbrev connected : MockExchange
connected = record new_exchange { connected = true }

place_order_twice_example :
    (Mock.place_order entry (Mock.place_order entry connected).1).1
    ≡ (Mock.place_order entry connected).1
place_order_twice_example = place_order_twice entry connected

abbrev mock_adapter : Adapter MockExchange
mock_adapter = record {
  connected = λ s. s.connected;
  worker_state = none;
  set_config = none;
  mark_network_down = none;
  resync_network = none;
  connect = Mock.connect;
  disconnect = Mock.disconnect;
  place_order = Mock.place_order;
  set_leverage = Mock.set_leverage;
  cancel_order = λ cloid request_id. Mock.cancel_order cloid;
}

abbrev gate_config : WorkerConfig
gate_config = record {
  execution_enabled = true;
  trading_pair = "BTC-USD";
  slippage = whole 0;
  expected_leverage = 1;
  heartbeat_timeout = 30;
}

abbrev calls : List Operation
calls = Operation.connecting ∷ Operation.beating 100 ∷ []

abbrev worker : Runtime MockExchange
worker = after mock_adapter calls (new_runtime new_exchange gate_config)

-- The order does pass.
passes : (gate_order mock_adapter 120 entry worker).0 ≡ (Mock.place_order entry worker.inner).0
unfolding gate_order after Mock.place_order ◌>>=◌ Runtime.heartbeat newhbot.Action.on_option
    Runtime.connect Runtime.reject_symbol Runtime.on_inner Mock.connect Runtime.refresh_state
    Mock.accept Runtime.refreshed Mock.settle Runtime.backend_heartbeat_ok
passes = refl

passed_order-IsFresh_example :
    (IsFresh mock_adapter 120 entry calls worker
      × ((gate_order mock_adapter 120 entry worker).0 ≡ (Mock.place_order entry worker.inner).0)
      × ((gate_order mock_adapter 120 entry worker).1.inner
          ≡ (Mock.place_order entry worker.inner).1))
    ⊎ (IsRefused (gate_order mock_adapter 120 entry worker).0
        × ((gate_order mock_adapter 120 entry worker).1.inner ≡ worker.inner))
passed_order-IsFresh_example =
    passed_order-IsFresh mock_adapter new_exchange gate_config calls 120 entry

no_orders : OneInflight []
no_orders symbol = omega arith

add-OneInflight_example :
    OneInflight (Orders.add lost_order running).1.db.orders
    × ((t : OrderStatus) → is_inflight t ≡ Orders.is_indexed t)
add-OneInflight_example = add-OneInflight lost_order running no_orders

free_slot : (Reservation.try_acquire "o1" "open" running).0 ≡ ok true
unfolding Reservation.try_acquire
free_slot = refl

abbrev first_intent : String
first_intent = "o1"

unequal : false ≡ true → ⊥
unequal e = cc

two_intents : first_intent ≢ "o2"
two_intents e = unequal ((eq_iff first_intent "o2").1 e)

slot-exclusive_example :
    ((Reservation.try_acquire "o2" "open" (Reservation.try_acquire "o1" "open" running).1).0
      ≡ ok false)
    × ((Reservation.try_acquire "o2" "open" (Reservation.try_acquire "o1" "open" running).1).1
        ≡ (Reservation.try_acquire "o1" "open" running).1)
    × ((Reservation.release (some "o2") (Reservation.try_acquire "o1" "open" running).1).1
        ≡ (Reservation.try_acquire "o1" "open" running).1)
slot-exclusive_example = slot-exclusive "o1" "o2" "open" "open" running free_slot two_intents

abbrev first_fill : Fill
first_fill = record {
  id = "f1";
  order_id = "o1";
  cloid = "0x1";
  symbol = "BTC-USD";
  side = OrderSide.buy;
  price = whole 50;
  quantity = whole 2;
  exchange_fill_id = some "e9";
}

abbrev second_fill : Fill
second_fill = record first_fill { id = "f2" }

abbrev with_order : World
with_order = record running { db = record running_db { orders = lost_order ∷ [] } }

first_created : (Trades.add_fill first_fill with_order).0 ≡ ok true
unfolding Trades.add_fill
first_created = refl

add_fill_once_example :
    ((Trades.add_fill second_fill (Trades.add_fill first_fill with_order).1).0 ≡ ok false)
    × ((Trades.add_fill second_fill (Trades.add_fill first_fill with_order).1).1
        ≡ (Trades.add_fill first_fill with_order).1)
add_fill_once_example = add_fill_once first_fill second_fill with_order true refl refl first_created

abbrev latched : World
latched = record running {
  db = record running_db {
    settings = record default_settings { estop = true; system_state = SystemState.running };
  };
}

abbrev released : Reply
released = record no_reply {
  ok = some true;
  estop = some false;
  state = some SystemState.stopped;
  reason = some "estop_cleared_still_stopped";
}

calm_release : (clear_estop calm_env latched).0 ≡ ok released
unfolding clear_estop clear_by_exchange query_all judge_exchange release_estop has_foreign emit
    set_state Settings.get Settings.set_estop Settings.set_trading_enabled Settings.set_system_state
    Orders.has_unresolved Orders.list_open Journal.add_audit Journal.add_event ask commit publish
    modify_db pure gets when attempt ◌>>=◌ on_result try_except
calm_release = refl

clear_estop-IsReleased_example : IsReleased (clear_estop calm_env latched).1
clear_estop-IsReleased_example = clear_estop-IsReleased calm_env latched released calm_release refl

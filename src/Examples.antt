-- ===== src/Examples.antt =====
-- A concrete worker and database, and the controller's theorems at them.
pub mod Parts
pub mod Connection
pub mod Strategy
pub mod Loops
pub mod Progress
pub mod Store
pub mod Precheck
use newhbot.Base.{
  arith, ◌≢◌, ◌≡◌, refl, ◌↔◌, ◌⊎◌, ◌+◌, ◌≤◌, String, true, false, none, some, [], ◌∷◌, All,
}
use newhbot.Decimal.{whole}
use newhbot.Enums.{SignalType, OrderSide, OrderType, OrderStatus, PositionSide, SystemState}
use newhbot.Action.{
  ok, pure, raise, gets, attempt, ◌>>=◌, on_result, on_option, try_except, when, for_each,
}
use newhbot.Repositories.Settings
use newhbot.Repositories.Orders
use newhbot.Repositories.Positions
use newhbot.Repositories.Reservation
use newhbot.Repositories.Journal
use newhbot.Controllers.Mirror.{
  Reply, no_reply, emit, sync_exchange_mirror, query_snapshot, maybe_leave_recovery,
}
use newhbot.Controllers.Cancel.{terminalize_stale_openings_after_flat}
use newhbot.Controllers.Open.{has_foreign}
use newhbot.Controllers.Submit.{request_of}
use newhbot.Controllers.Guard.{GuardInput, can_open_position}
use newhbot.Controllers.Guard.Conditions.{IsOpenable, can_open_position-IsOpenable}
use newhbot.Controllers.Reconcile.Evidence.{IsRefuted, reconcile_unknown-IsRefuted}
use newhbot.Controllers.Start.Enabled.{IsStarted, start-IsStarted}
use newhbot.Recovery.Decision.{IsDecided, IsResumable, bootstrap-IsResumable}
use newhbot.Safety.Latch.{only_estop_commands_latch}
use newhbot.Worker.Mock
use newhbot.Worker.Mock.{MockExchange, new_exchange}
use newhbot.Worker.Mock.Idempotence.{place_order_twice}
use newhbot.Worker.Runtime.{Runtime, Adapter, WorkerState, place_order as gate_order}
use newhbot.Worker.Runtime.Gate.{IsPassable, IsRefused, place_order-IsPassable}
use newhbot.Protocol.{PlaceOrderRequest, PlaceOrderResponse, PositionView}
use newhbot.Repositories.Trades
use newhbot.Repositories.Exclusive.{OneInflight, add-OneInflight, slot-exclusive}
use newhbot.Repositories.FillOnce.{add_fill_once}
use newhbot.Models.{Fill, Db, Order, empty_db, default_settings}
use newhbot.World.{World, Env, ask, commit, publish, modify_db}
use newhbot.Recovery.{set_state, bootstrap}
use newhbot.Controllers.Reconcile.{
  reconcile_after_restart, reconcile_unknown, reconcile_answered, reconcile_absent, reject_absent,
  all_answered,
}
use newhbot.Controllers.Start.{
  start, start_resolved, start_connected, connect_worker, start_sync, start_positions,
  start_open_orders, start_clean, start_running,
}
use newhbot.Controllers.Stop.{stop, close_and_stop, close_and_continue, emergency_stop}
use newhbot.Controllers.Estop.{clear_estop}
use newhbot.Controllers.Signal.{handle_signal}
use newhbot.Safety.Places.{places, recovery_sends_nothing}
use newhbot.Safety.Once.{at_most_one_order}
use newhbot.Safety.Backed.{Backed}
use newhbot.Safety.Allowed.{IsAllowed}
use newhbot.Safety.Guarded.{opens_are_guarded}
use newhbot.Safety.Durable.{HasIntent, intents_are_durable}

abbrev pub flat_position : String → PositionView
flat_position symbol = record {
  symbol = symbol;
  side = PositionSide.flat;
  size = whole 0;
  entry_price = none;
  unrealized_pnl = whole 0;
}

abbrev pub accepting : PlaceOrderRequest → PlaceOrderResponse
accepting request = record {
  request_id = request.request_id;
  cloid = request.cloid;
  exchange_oid = some "77";
  status = OrderStatus.opened;
  filled_quantity = whole 0;
  avg_price = none;
  error = none;
}

-- A worker that is READY, whose exchange is flat and takes every order.
abbrev pub calm_env : Env
calm_env = record {
  health = λ h. ok true;
  is_ready = λ h. ok true;
  connect = λ h. ok tt;
  configure = none;
  get_balance =
      λ h. ok (record { equity = whole 1000; available = whole 1000; margin_used = whole 0 });
  get_positions = λ h. ok [];
  get_position = λ h symbol. ok (flat_position symbol);
  get_open_orders = λ h. ok [];
  get_order = λ h cloid. ok none;
  get_fills = λ h. ok [];
  get_market_data = λ h symbol. ok (record { key = "mid"; value = whole 50 } ∷ []);
  place_order = λ h request. ok (accepting request);
  cancel_order = λ h cloid request_id. ok none;
  uuid4 = λ n. "id";
  uuid4_hex = λ n. "hex";
  now = λ n. n;
}

abbrev pub running_db : Db
running_db = record empty_db {
  settings = record default_settings { trading_enabled = true; system_state = SystemState.running };
}

abbrev pub running : World
running = record { db = running_db; committed = running_db; sent = []; published = []; draws = 0 }

recovery_sends_nothing_example :
    (places (reconcile_after_restart calm_env running).1.sent ≡ places running.sent)
    × (places (bootstrap calm_env running).1.sent ≡ places running.sent)
    × (places (start calm_env running).1.sent ≡ places running.sent)
    × (places (stop calm_env running).1.sent ≡ places running.sent)
    × (places (clear_estop calm_env running).1.sent ≡ places running.sent)
recovery_sends_nothing_example = recovery_sends_nothing calm_env running

at_most_one_order_example :
    (places (handle_signal calm_env SignalType.long "strategy" running).1.sent
      ≤ places running.sent + 1)
    × (places (close_and_stop calm_env running).1.sent ≤ places running.sent + 1)
    × (places (close_and_continue calm_env running).1.sent ≤ places running.sent + 1)
    × (places (emergency_stop calm_env running).1.sent ≤ places running.sent + 1)
at_most_one_order_example = at_most_one_order calm_env running SignalType.long "strategy"

intents_are_durable_example :
    All (Backed HasIntent) (handle_signal calm_env SignalType.long "strategy" running).1.sent
    × All (Backed HasIntent) (close_and_stop calm_env running).1.sent
    × All (Backed HasIntent) (close_and_continue calm_env running).1.sent
    × All (Backed HasIntent) (emergency_stop calm_env running).1.sent
intents_are_durable_example = intents_are_durable calm_env running SignalType.long "strategy" tt

opens_are_guarded_example :
    All (Backed IsAllowed) (handle_signal calm_env SignalType.long "strategy" running).1.sent
    × All (Backed IsAllowed) (close_and_stop calm_env running).1.sent
    × All (Backed IsAllowed) (close_and_continue calm_env running).1.sent
    × All (Backed IsAllowed) (emergency_stop calm_env running).1.sent
opens_are_guarded_example = opens_are_guarded calm_env running SignalType.long "strategy" tt

abbrev started : Reply
started = record no_reply { ok = some true; state = some SystemState.running }

calm_start : (start calm_env running).0 ≡ ok started
unfolding start start_resolved start_connected connect_worker start_sync start_positions
    start_open_orders start_clean start_running sync_exchange_mirror query_snapshot
    reconcile_after_restart terminalize_stale_openings_after_flat has_foreign emit set_state
    Settings.get Settings.set_trading_enabled Settings.set_system_state Orders.has_unresolved
    Orders.list_unresolved Orders.list_reconcilable_opening Positions.get_or_none
    Positions.upsert_mirror Reservation.current_order_id Journal.add_event Journal.add_audit
    Journal.add_snapshot ask commit publish modify_db pure raise gets attempt ◌>>=◌ on_result
    on_option try_except when for_each
calm_start = refl

start-IsStarted_example : IsStarted (start calm_env running).1
start-IsStarted_example = start-IsStarted calm_env running started calm_start refl

bootstrap-IsResumable_example :
    (x : SystemState) × (IsDecided x (bootstrap calm_env running)
      × ((x ≡ SystemState.running) ↔ IsResumable calm_env running))
bootstrap-IsResumable_example = bootstrap-IsResumable calm_env running

abbrev pub lost_order : Order
lost_order = record {
  id = "o1";
  intent_id = "i1";
  request_id = "r1";
  cloid = "0x1";
  exchange_oid = none;
  symbol = "BTC-USD";
  side = OrderSide.buy;
  order_type = OrderType.market;
  quantity = whole 2;
  reduce_only = false;
  status = OrderStatus.unknown;
  signal_id = none;
  error_message = none;
}

abbrev absent_order : Order
absent_order = record lost_order {
  status = OrderStatus.rejected;
  error_message = some "confirmed absent: no order, no fill, position compatible with unsubmitted";
}

calm_reconcile : (reconcile_unknown calm_env lost_order running).0 ≡ ok absent_order
unfolding reconcile_unknown reconcile_answered reconcile_absent reject_absent all_answered
    maybe_leave_recovery emit Orders.save Orders.has_unresolved Reservation.release Settings.get
    Journal.add_event ask commit publish modify_db pure gets attempt ◌>>=◌ on_result on_option when
calm_reconcile = refl

reconcile_unknown-IsRefuted_example :
    IsRefuted lost_order (ok none) (ok []) (ok (flat_position "BTC-USD"))
reconcile_unknown-IsRefuted_example =
    reconcile_unknown-IsRefuted calm_env lost_order running absent_order calm_reconcile refl

only_estop_commands_latch_example :
    ((emergency_stop calm_env running).1.db.settings.estop ≡ true)
    × ((handle_signal calm_env SignalType.long "strategy" running).1.db.settings.estop
        ≡ running.db.settings.estop)
    × ((start calm_env running).1.db.settings.estop ≡ running.db.settings.estop)
    × ((stop calm_env running).1.db.settings.estop ≡ running.db.settings.estop)
    × ((close_and_stop calm_env running).1.db.settings.estop ≡ running.db.settings.estop)
    × ((close_and_continue calm_env running).1.db.settings.estop ≡ running.db.settings.estop)
    × ((reconcile_after_restart calm_env running).1.db.settings.estop ≡ running.db.settings.estop)
    × ((bootstrap calm_env running).1.db.settings.estop ≡ running.db.settings.estop)
only_estop_commands_latch_example =
    only_estop_commands_latch calm_env running SignalType.long "strategy"

abbrev openable : GuardInput
openable = record {
  local_side = PositionSide.flat;
  exchange_side = PositionSide.flat;
  has_unknown_orders = false;
  system_state = SystemState.running;
  configured_pair = "BTC-USD";
  target_pair = "BTC-USD";
  exchange_connected = true;
  has_foreign_positions = false;
  has_open_reservation = false;
}

can_open_position-IsOpenable_example :
    (can_open_position openable).allowed ≡ true ↔ IsOpenable openable
can_open_position-IsOpenable_example = can_open_position-IsOpenable openable

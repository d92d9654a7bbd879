-- ===== src/Worker/Hyperliquid.antt =====
-- execution-worker/app/hyperliquid_adapter.py: the adapter in front of Hummingbot's connector. The
-- connector is a parameter over its own state, with what connector_bridge.py's ConnectorBridge
-- declares; the attributes that the adapter asks for by `getattr` are tests of that state. Candles
-- and the event stream are left out.
pub mod Network
pub mod Reading
pub mod Trading
pub mod Logged
pub mod Quiet
pub mod Placing
pub mod Health
pub mod Limits
use newhbot.Base.{
  ℕ, String, append, str_eq, Bool, true, false, not, ◌&&◌, ◌||◌, any, keep, if◌then◌else◌, Option,
  none, some, is_some, List, [], ◌∷◌, ◌++◌, map, ◌==◌,
}
use newhbot.Base.Int.{ℤ, pos, negsuc}
use newhbot.Decimal.{Decimal, whole, fraction, add, sub, mul, lt, le, positive}
use newhbot.Enums.{
  OrderStatus, OrderSide, OrderType, PositionSide, is_flat, is_open, is_market, is_buy,
}
use newhbot.Protocol.{
  PlaceOrderRequest, PlaceOrderResponse, OrderView, PositionView, BalanceView, FillView,
}
use newhbot.Action.{
  Exn, Result, ok, err, Action, pure, raise, gets, modify, attempt, ◌>>=◌, ◌>>◌, on_result,
  on_option, try_except, when,
}
use newhbot.World.{MarketItem}
use newhbot.Worker.Raw.{
  Json, text, number, Fields, empty, get, get_or, has_key, ◌or◌, truthy, str_of, decimal_of,
  show_decimal, lift, map_result, as_dict,
}
use newhbot.Text.{contains}
use newhbot.Worker.Raw
use newhbot.Worker.Mapping.{
  ExchangePosition, ExchangeOrder, ExchangeFill, InstrumentMeta, map_clearinghouse_positions,
  map_hummingbot_order, map_hummingbot_fill,
}
use newhbot.Worker.IocPrice.{value_error, ioc_raw_price}
use newhbot.Worker.Runtime.{WorkerConfig, WorkerState}

pub data SyncStatus : Type 0 where
  nothing snapshot live resync conflict : SyncStatus

-- What the adapter hands to the connector.
pub record Wire : Type 0 where
  pub cloid : String
  pub symbol : String
  pub is_buy : Bool
  pub sz : String
  pub limit_px : String
  pub reduce_only : Bool
  pub tif : String
  pub order_type : OrderType

-- The keys that the adapter reads of a snapshot: a missing list is empty, other keys are as `get`
-- gives them.
pub record Snapshot : Type 0 where
  pub mid : Option Json
  pub asset_positions : List Fields
  pub open_orders : List Fields
  pub account : Fields
  pub account_read : Json

pub record Connector (S : Type 0) : Type 0 where
  pub read_only : S → Bool
  pub authenticated : S → Bool
  pub has_user_stream : S → Bool
  pub ws_connected : S → Bool
  pub execution_enabled : S → Bool
  pub account_read : S → Json
  pub ws_down : S → S
  pub start_network : Action S Unit
  pub stop_network : Action S Unit
  pub rest_snapshot : Action S Snapshot
  pub place : Wire → Action S Fields
  pub cancel : String → Action S Unit
  pub get_order : String → Action S (Option Fields)
  pub get_fills : Action S (List Fields)
  pub set_leverage : String → ℕ → Action S Unit
  pub quantize_order_price : String → Decimal → Action S Decimal
  pub quantize_order_amount : String → Decimal → Action S Decimal
  pub trading_rule : String → Action S InstrumentMeta

pub record HyperliquidAdapter (S : Type 0) : Type 0 where
  pub config : WorkerConfig
  pub inner : S
  pub connected : Bool
  pub recovery_reason : Option String
  pub foreign_symbols : List String
  pub one_way_ok : Bool
  pub last_normalized : Option PlaceOrderRequest
  pub last_wire : Option Wire
  pub submitted_cloids : List String
  pub mid : Decimal
  pub leverage_mismatch : Bool
  pub observed_leverage : Option ℤ

-- __init__
abbrev pub new_adapter : {S : Type 0} → WorkerConfig → S → HyperliquidAdapter S
new_adapter config connector = record {
  config = config;
  inner = connector;
  connected = false;
  recovery_reason = none;
  foreign_symbols = [];
  one_way_ok = true;
  last_normalized = none;
  last_wire = none;
  submitted_cloids = [];
  mid = whole 100;
  leverage_mismatch = false;
  observed_leverage = none;
}

-- The account could not be read.
unfoldable pub is_failed_read : String → Bool
unfolding contains
is_failed_read account_read =
    contains "failed" account_read
    || (str_eq account_read "position_query_unavailable"
        || str_eq account_read "balance_query_unavailable")

module _ {S : Type 0} where
  -- An operation of the connector.
  unfoldable pub on_connector : {A : Type 0} → Action S A → Action (HyperliquidAdapter S) A
  on_connector m s = let (result, inner) = m s.inner in (result, record s { inner = inner })

module _ {S : Type 0} (c : Connector S) where
  unfoldable pub account_positions_trusted : S → Bool
  unfolding is_failed_read str_of
  account_positions_trusted s =
      if c.read_only s && not (c.authenticated s)
      then false
      else not (is_failed_read (str_of (c.account_read s or text "")))

  unfoldable pub mark_network_down : HyperliquidAdapter S → HyperliquidAdapter S
  mark_network_down s = record s { inner = c.ws_down s.inner }

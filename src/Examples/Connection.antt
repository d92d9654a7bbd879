-- ===== src/Examples/Connection.antt =====
-- A concrete connector, and the adapter's theorems at it.
use newhbot.Base.{◌≡◌, ◌≢◌, refl, ◌⊎◌, inl, ◌≤◌, String, true, false, none, some, List, [], ◌∷◌}
use newhbot.Decimal.{Decimal, whole, fraction}
use newhbot.Enums.{OrderSide, OrderType, OrderStatus}
use newhbot.Action.{ok, pure, raise, gets, modify, attempt, ◌>>=◌, on_result, on_option, try_except}
use newhbot.Protocol.{PlaceOrderRequest}
use newhbot.Worker.Raw.{Json, text, object, Fields, empty, field}
use newhbot.Text
use newhbot.Worker.Raw
use newhbot.Worker.Mapping
use newhbot.Worker.Mapping.{InstrumentMeta, map_clearinghouse_positions, ExchangePosition}
use newhbot.Worker.Mapping.OneWay.{OneWay, Shown, map_clearinghouse_positions-OneWay}
use newhbot.Worker.Runtime.{WorkerConfig, WorkerState, Runtime, place_order as gate_order}
use newhbot.Worker.Runtime.Gate.{IsRefused}
use newhbot.Worker.Hyperliquid.{
  Snapshot, Connector, HyperliquidAdapter, new_adapter, account_positions_trusted, is_failed_read,
  on_connector,
}
use newhbot.Worker.Hyperliquid.Network
use newhbot.Worker.Hyperliquid.Reading
use newhbot.Worker.Hyperliquid.Network.{worker_state}
use newhbot.Worker.Hyperliquid.Trading
use newhbot.Worker.Hyperliquid.Logged
use newhbot.Worker.Hyperliquid.Reading.{get_position, flat_position}
use newhbot.Worker.Hyperliquid.Trading.{normalize}
use newhbot.Worker.Hyperliquid.Logged.{Operation}
use newhbot.Worker.Hyperliquid.Placing.{
  times_placed, used, placed_at_most_once, unarmed_places_nothing,
}
use newhbot.Worker.Hyperliquid.Health.{
  hyperliquid, IsHealthy, unhealthy_worker_is_turned_away, IsReadable, unreadable_is_never_flat,
  hedged_account_reads_flat,
}
use newhbot.Worker.Hyperliquid.Limits.{IsInLimits, normalize-IsInLimits}

abbrev position_row : String → Fields
position_row szi = field "type" (text "oneWay") (
    field "position"
      (object (
        field "coin" (text "BTC")
          (field "szi" (text szi) (field "entryPx" (text "60000.5") empty))))
      empty)

abbrev long_row : Fields
long_row = position_row "0.5"

abbrev short_row : Fields
short_row = position_row "-0.25"

abbrev long_position : ExchangePosition
long_position = record {
  symbol = "BTC-USD";
  side = newhbot.Enums.PositionSide.long;
  size = fraction 5 1;
  entry_price = some (fraction 600005 1);
  mark_price = none;
  unrealized_pnl = whole 0;
  leverage = none;
}

-- A LONG row alone is accepted, and a flat row is left out.
one_row :
    map_clearinghouse_positions (long_row ∷ position_row "0" ∷ []) "BTC-USD"
    ≡ ok (long_position ∷ [])
unfolding map_clearinghouse_positions Mapping.map_rows Mapping.by_symbol Mapping.check_sides
    Mapping.put_row Mapping.map_hummingbot_position Mapping.leverage_of Mapping.price_of
    Mapping.to_pair_symbol Mapping.map_szi_to_side Raw.get Raw.get_or Raw.decimal_of
    Raw.parse_decimal Raw.str_of Text.contains Text.ends_with newhbot.Decimal.magnitude
    newhbot.Decimal.le
one_row = refl

map_clearinghouse_positions-OneWay_example :
    OneWay (long_position ∷ []) × Shown (long_position ∷ [])
map_clearinghouse_positions-OneWay_example =
    map_clearinghouse_positions-OneWay (long_row ∷ position_row "0" ∷ []) "BTC-USD"
      (long_position ∷ []) one_row

abbrev btc_rule : InstrumentMeta
btc_rule = record {
  symbol = "BTC-USD";
  sz_decimals = 5;
  step_size = fraction 1 5;
  tick_size = fraction 1 1;
  min_order_size = fraction 1 5;
  min_notional = whole 10;
  max_leverage = none;
}

-- A connector that answers every query with the rows, quantizes nothing, and takes every order.
abbrev steady : List Fields → Connector Unit
steady rows = record {
  read_only = λ u. false;
  authenticated = λ u. true;
  has_user_stream = λ u. true;
  ws_connected = λ u. true;
  execution_enabled = λ u. true;
  account_read = λ u. text "ok";
  ws_down = λ u. u;
  start_network = pure tt;
  stop_network = pure tt;
  rest_snapshot = pure (record {
    mid = some (text "60000");
    asset_positions = rows;
    open_orders = [];
    account = empty;
    account_read = text "ok";
  });
  place = λ wire. pure (field "order" (object (field "oid" (text "7") empty)) empty);
  cancel = λ cloid. pure tt;
  get_order = λ cloid. pure none;
  get_fills = pure [];
  set_leverage = λ symbol leverage. pure tt;
  quantize_order_price = λ symbol price. pure price;
  quantize_order_amount = λ symbol amount. pure amount;
  trading_rule = λ symbol. pure btc_rule;
}

abbrev armed : WorkerConfig
armed = record {
  execution_enabled = true;
  trading_pair = "BTC-USD";
  slippage = fraction 1 2;
  expected_leverage = 5;
  heartbeat_timeout = 30;
}

abbrev pub small_order : PlaceOrderRequest
small_order = record {
  request_id = "r1";
  cloid = "0x1";
  symbol = "BTC-USD";
  side = OrderSide.buy;
  order_type = OrderType.market;
  quantity = fraction 1 3;
  reduce_only = true;
  price = some (whole 60000);
}

abbrev two_placings : List Operation
two_placings =
    Operation.connecting ∷ Operation.placing small_order ∷ Operation.placing small_order ∷ []

placed_at_most_once_example :
    times_placed "0x1" (used (steady []) armed tt two_placings).inner.placed ≤ 1
placed_at_most_once_example = placed_at_most_once (steady []) armed tt two_placings "0x1"

-- The first of the two placings does hand the order over.
placed_once : (used (steady []) armed tt two_placings).inner.placed ≡ "0x1" ∷ []
unfolding Logged.after Logged.perform Logged.unlogged Logged.note_cloid Trading.place_order
    Trading.ioc_price normalize Trading.send Trading.submit Trading.answered
    Trading.resolve_duplicate Network.connect Network.refresh_from_connector Network.noted
    Network.judged Trading.wire_of Reading.get_order account_positions_trusted is_failed_read
    on_connector Raw.lift Raw.decimal_of Raw.parse_decimal Text.contains Raw.str_of Raw.get
    Raw.get_or map_clearinghouse_positions Mapping.map_rows Mapping.by_symbol Mapping.check_sides
    newhbot.Decimal.le try_except attempt on_result on_option pure gets modify raise ◌>>=◌
    Mapping.map_hummingbot_order
placed_once = refl

abbrev dry : WorkerConfig
dry = record armed { execution_enabled = false }

unarmed_places_nothing_example : (used (steady []) dry tt two_placings).inner.placed ≡ []
unarmed_places_nothing_example = unarmed_places_nothing (steady []) dry tt two_placings (inl refl)

-- A runtime whose adapter was never connected.
abbrev unconnected : Runtime (HyperliquidAdapter Unit)
unconnected = record {
  inner = new_adapter armed tt;
  config = armed;
  state = WorkerState.not_ready;
  force_degraded = false;
  last_heartbeat = none;
}

unhealthy_worker_is_turned_away_example :
    IsHealthy (steady []) unconnected.inner
    ⊎ (IsRefused (gate_order (hyperliquid (steady [])) 0 small_order unconnected).0
        × ((gate_order (hyperliquid (steady [])) 0 small_order unconnected).1.inner
            ≡ unconnected.inner))
unhealthy_worker_is_turned_away_example =
    unhealthy_worker_is_turned_away (steady []) 0 small_order unconnected

read_flat :
    (get_position (steady []) "BTC-USD" (new_adapter armed tt)).0 ≡ ok (flat_position "BTC-USD")
unfolding get_position Reading.get_positions Reading.position_in Network.refresh_from_connector
    on_connector Raw.lift Raw.decimal_of map_clearinghouse_positions account_positions_trusted ◌>>=◌
read_flat = refl

unreadable_is_never_flat_example :
    IsReadable (steady []) (get_position (steady []) "BTC-USD" (new_adapter armed tt)).1.inner
unreadable_is_never_flat_example =
    unreadable_is_never_flat (steady []) "BTC-USD" (new_adapter armed tt) (flat_position "BTC-USD")
      read_flat

rule_read : ((steady []).trading_rule "BTC-USD" tt).0 ≡ ok btc_rule
unfolding pure
rule_read = refl

normalized :
    (normalize (steady []) small_order (whole 60000) (new_adapter armed tt)).0 ≡ ok small_order
unfolding normalize on_connector newhbot.Decimal.le pure ◌>>=◌
normalized = refl

normalize-IsInLimits_example : IsInLimits btc_rule small_order small_order
normalize-IsInLimits_example =
    normalize-IsInLimits (steady []) btc_rule small_order (whole 60000) (new_adapter armed tt)
      small_order (λ u. rule_read) normalized

abbrev hedged_rows : List Fields
hedged_rows = long_row ∷ short_row ∷ []

abbrev hedged_snapshot : Snapshot
hedged_snapshot = record {
  mid = some (text "60000");
  asset_positions = hedged_rows;
  open_orders = [];
  account = empty;
  account_read = text "ok";
}

abbrev hedged_connector : Connector Unit
hedged_connector = steady hedged_rows

abbrev new : HyperliquidAdapter Unit
new = new_adapter armed tt

snapped : hedged_connector.rest_snapshot tt ≡ (ok hedged_snapshot, tt)
unfolding pure
snapped = refl

mid_read : Raw.decimal_of (text "60000") ≡ ok (whole 60000)
unfolding Raw.decimal_of
mid_read = refl

abbrev short_position : ExchangePosition
short_position = record long_position {
  side = newhbot.Enums.PositionSide.short;
  size = fraction 25 2;
}

rows_mapped : Mapping.map_rows hedged_rows "BTC-USD" ≡ ok (long_position ∷ short_position ∷ [])
unfolding Mapping.map_rows Mapping.map_hummingbot_position Mapping.leverage_of Mapping.price_of
    newhbot.Decimal.magnitude Mapping.map_szi_to_side newhbot.Decimal.le Mapping.to_pair_symbol
    Raw.get Raw.get_or Raw.decimal_of Raw.parse_decimal Raw.str_of Text.contains Text.ends_with
rows_mapped = refl

account_trusted : account_positions_trusted hedged_connector tt ≡ true
unfolding account_positions_trusted
account_trusted = refl

hedged_account_reads_flat_example :
    ((get_position hedged_connector "BTC-USD" new).0 ≡ ok (flat_position "BTC-USD"))
    × (worker_state hedged_connector (get_position hedged_connector "BTC-USD" new).1
        ≢ WorkerState.ready)
hedged_account_reads_flat_example =
    hedged_account_reads_flat hedged_connector "BTC-USD" new hedged_snapshot tt (whole 60000)
      (long_position ∷ short_position ∷ []) "BTC-USD" snapped mid_read rows_mapped refl refl
      account_trusted

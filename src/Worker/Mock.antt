-- ===== src/Worker/Mock.antt =====
-- execution-worker/app/mock_adapter.py: the exchange in memory. A dict is a list of its values, each
-- of which holds its key, in the order of the keys' first insertion.

pub mod Idempotence
use newhbot.Base.{
  ℕ, suc, ◌+◌, ◌==◌, String, str_eq, Bool, true, false, not, ◌&&◌, any, keep, find?, map_if,
  if◌then◌else◌, Option, none, some, List, [], ◌∷◌, ◌++◌,
}
use newhbot.Decimal.{Decimal, whole, fraction, add, sub, div, positive}
use newhbot.Enums.{OrderStatus, OrderSide, PositionSide, is_flat, is_open, is_buy, same_side}
use newhbot.Protocol.{
  PlaceOrderRequest, PlaceOrderResponse, OrderView, PositionView, BalanceView, FillView,
}
use newhbot.Action.{Exn, Action, pure, raise, gets, modify, ◌>>=◌, ◌>>◌, when, on_option}
use newhbot.World.{MarketItem}
use newhbot.Worker.Show.{show}

pub data PlaceBehavior : Type 0 where
  fill partial reject opened timeout_after_accept network_before_accept : PlaceBehavior

pub record Leverage : Type 0 where
  pub symbol : String
  pub value : ℕ

pub record MockExchange : Type 0 where
  pub connected : Bool
  pub equity : Decimal
  pub available : Decimal
  pub margin_used : Decimal
  pub mid : Decimal
  pub leverage : List Leverage
  pub positions : List PositionView
  pub orders : List OrderView
  pub fills : List FillView
  pub behavior : PlaceBehavior
  pub query_fail : Bool
  pub oid : ℕ

-- __init__
abbrev pub new_exchange : MockExchange
new_exchange = record {
  connected = false;
  equity = whole 10000;
  available = whole 10000;
  margin_used = whole 0;
  mid = whole 100;
  leverage = [];
  positions = [];
  orders = [];
  fills = [];
  behavior = PlaceBehavior.fill;
  query_fail = false;
  oid = 1;
}

-- d[key] = item, for the test that an item has the key.
abbrev pub put : {A : Type 0} → (A → Bool) → A → List A → List A
put has_key item items =
    if any has_key items then map_if has_key (λ _. item) items else items ++ item ∷ []

abbrev pub has_cloid : String → OrderView → Bool
has_cloid cloid o = str_eq o.cloid cloid

abbrev pub has_symbol : String → PositionView → Bool
has_symbol symbol p = str_eq p.symbol symbol

abbrev pub put_order : OrderView → MockExchange → MockExchange
put_order o s = record s { orders = put (has_cloid o.cloid) o s.orders }

abbrev put_position : PositionView → MockExchange → MockExchange
put_position p s = record s { positions = put (has_symbol p.symbol) p s.positions }

abbrev pub timeout_error : String → Exn
timeout_error message = record { type_name = "TimeoutError"; message = message }

-- x or y, for a decimal.
abbrev or_mid : Option Decimal → Decimal → Decimal
or_mid none mid = mid
or_mid (some p) mid = if p.coefficient == 0 then mid else p

unfoldable pub set_behavior : PlaceBehavior → Action MockExchange Unit
set_behavior behavior = modify (λ s. record s { behavior = behavior })

unfoldable pub set_query_fail : Bool → Action MockExchange Unit
set_query_fail enabled = modify (λ s. record s { query_fail = enabled })

unfoldable pub raise_if_query_fail : Action MockExchange Unit
raise_if_query_fail = do
  failing ← gets (λ s. s.query_fail)
  if failing then raise (timeout_error "mock query fail") else pure tt

unfoldable pub force_position :
    String → PositionSide → Decimal → Option Decimal → Action MockExchange Unit
force_position symbol side size entry = modify (λ s.
    put_position
      (record {
        symbol = symbol;
        side = side;
        size = size;
        entry_price = some (or_mid entry s.mid);
        unrealized_pnl = whole 0;
      })
      s)

unfoldable pub connect : Action MockExchange Unit
connect = modify (λ s. record s { connected = true })

unfoldable pub disconnect : Action MockExchange Unit
disconnect = modify (λ s. record s { connected = false })

unfoldable pub get_balance : Action MockExchange BalanceView
get_balance =
    gets (λ s. record { equity = s.equity; available = s.available; margin_used = s.margin_used })

unfoldable pub get_positions : Action MockExchange (List PositionView)
get_positions = gets (λ s. keep (λ (p : PositionView). not (is_flat p.side)) s.positions)

abbrev flat_at : String → PositionView
flat_at symbol = record {
  symbol = symbol;
  side = PositionSide.flat;
  size = whole 0;
  entry_price = none;
  unrealized_pnl = whole 0;
}

-- positions.get(symbol, a FLAT one)
abbrev pub position_at : String → MockExchange → PositionView
position_at symbol s = elim (find? (has_symbol symbol) s.positions) [
  | none ↦ flat_at symbol
  | some p ↦ p
]

unfoldable pub get_position : String → Action MockExchange PositionView
get_position symbol = gets (position_at symbol)

unfoldable pub get_open_orders : Option String → Action MockExchange (List OrderView)
get_open_orders symbol = gets (λ s.
    let rows = keep (λ (o : OrderView). is_open o.status) s.orders in
    elim symbol [
      | none ↦ rows
      | some t ↦ if str_eq t "" then rows else keep (λ (o : OrderView). str_eq o.symbol t) rows
    ])

unfoldable pub get_order : String → Action MockExchange (Option OrderView)
get_order cloid = do raise_if_query_fail; gets (λ s. find? (has_cloid cloid) s.orders)

unfoldable pub get_fills : Action MockExchange (List FillView)
get_fills = do raise_if_query_fail; gets (λ s. s.fills)

unfoldable pub set_leverage : String → ℕ → Action MockExchange Unit
set_leverage symbol value = modify (λ s. record s {
  leverage =
      put (λ (l : Leverage). str_eq l.symbol symbol) (record { symbol = symbol; value = value })
        s.leverage;
})

unfoldable pub get_market_data : String → Action MockExchange (List MarketItem)
get_market_data symbol = gets (λ s.
    record { key = "mid"; value = s.mid }
    ∷ record { key = "bid"; value = sub s.mid (fraction 1 1) }
    ∷ record { key = "ask"; value = add s.mid (fraction 1 1) }
    ∷ [])

-- The position that is left after a fill.
unfoldable pub filled_position : PositionView → PlaceOrderRequest → Decimal → Decimal → PositionView
filled_position current request mid quantity =
    if request.reduce_only
    then if is_flat current.side
      then current
      else if positive (sub current.size quantity)
      then record current { size = sub current.size quantity }
      else flat_at request.symbol
    else let side = if is_buy request.side then PositionSide.long else PositionSide.short in
      record {
        symbol = request.symbol;
        side = side;
        size = if same_side current.side side then add current.size quantity else quantity;
        entry_price = some mid;
        unrealized_pnl = whole 0;
      }

-- A reduce-only fill of a FLAT position writes nothing.
unfoldable pub apply_fill : PlaceOrderRequest → Decimal → Action MockExchange Unit
apply_fill request quantity = modify (λ s.
    let current = position_at request.symbol s in
    if request.reduce_only && is_flat current.side
    then s
    else put_position (filled_position current request s.mid quantity) s)

-- What place_order answers for a cloid that it knows.
abbrev duplicate : PlaceOrderRequest → OrderView → PlaceOrderResponse
duplicate request existing = record {
  request_id = request.request_id;
  cloid = request.cloid;
  exchange_oid = existing.exchange_oid;
  status = existing.status;
  filled_quantity = existing.filled_quantity;
  avg_price = existing.price;
  error = some "duplicate cloid ignored";
}

abbrev unfilled : PlaceOrderRequest → String → OrderStatus → Option String → PlaceOrderResponse
unfilled request oid status error = record {
  request_id = request.request_id;
  cloid = request.cloid;
  exchange_oid = some oid;
  status = status;
  filled_quantity = whole 0;
  avg_price = none;
  error = error;
}

-- The fill of a new order, in full or by half.
unfoldable pub fill_order :
    PlaceOrderRequest
    → OrderView
    → String
    → OrderStatus
    → Decimal
    → Action MockExchange PlaceOrderResponse
fill_order request order oid status quantity = do
  modify (put_order (record order { status = status; filled_quantity = quantity }))
  mid ← gets (λ s. s.mid)
  modify (λ s. record s {
    fills =
        s.fills
        ++ record {
          cloid = request.cloid;
          symbol = request.symbol;
          side = request.side;
          price = s.mid;
          quantity = quantity;
          fee = whole 0;
          fill_id = none;
        }
          ∷ [];
  })
  apply_fill request quantity
  pure (record {
    request_id = request.request_id;
    cloid = request.cloid;
    exchange_oid = some oid;
    status = status;
    filled_quantity = quantity;
    avg_price = some mid;
    error = none;
  })

-- What becomes of an order that the exchange has accepted.
unfoldable pub settle :
    PlaceBehavior → PlaceOrderRequest → OrderView → String → Action MockExchange PlaceOrderResponse
settle PlaceBehavior.timeout_after_accept request order oid =
    raise (timeout_error "mock timeout after exchange accepted order")
settle PlaceBehavior.reject request order oid = do
  modify (put_order (record order { status = OrderStatus.rejected }))
  pure (unfilled request oid OrderStatus.rejected (some "mock reject"))
settle PlaceBehavior.opened request order oid = pure (unfilled request oid OrderStatus.opened none)
settle PlaceBehavior.partial request order oid =
    fill_order request order oid OrderStatus.partial (div request.quantity (whole 2))
settle _ request order oid = fill_order request order oid OrderStatus.filled request.quantity

-- A new order: accepted as OPEN, then settled.
unfoldable pub accept : PlaceOrderRequest → Action MockExchange PlaceOrderResponse
accept request = do
  exchange ← gets (λ s. s)
  let oid = show exchange.oid
  let order : OrderView = record {
    cloid = request.cloid;
    exchange_oid = some oid;
    symbol = request.symbol;
    side = request.side;
    order_type = request.order_type;
    quantity = request.quantity;
    filled_quantity = whole 0;
    reduce_only = request.reduce_only;
    status = OrderStatus.opened;
    price = some (or_mid request.price exchange.mid);
  }
  modify (λ s. put_order order (record s { oid = s.oid + 1 }))
  settle exchange.behavior request order oid

abbrev pub is_network : PlaceBehavior → Bool
is_network PlaceBehavior.network_before_accept = true
is_network _ = false

unfoldable pub place_order : PlaceOrderRequest → Action MockExchange PlaceOrderResponse
place_order request = do
  exchange ← gets (λ s. s)
  if not exchange.connected
      then raise (record { type_name = "RuntimeError"; message = "mock exchange is not connected" })
      else if is_network exchange.behavior
      then raise (timeout_error "mock network error before accept")
      else on_option (find? (has_cloid request.cloid) exchange.orders) (accept request)
          (λ existing. pure (duplicate request existing))

unfoldable pub open_long : PlaceOrderRequest → Action MockExchange PlaceOrderResponse
open_long request = place_order (record request { side = OrderSide.buy; reduce_only = false })

unfoldable pub open_short : PlaceOrderRequest → Action MockExchange PlaceOrderResponse
open_short request = place_order (record request { side = OrderSide.sell; reduce_only = false })

unfoldable pub close_position : PlaceOrderRequest → Action MockExchange PlaceOrderResponse
close_position request = place_order (record request { reduce_only = true })

unfoldable pub cancel_order : String → Action MockExchange (Option OrderView)
cancel_order cloid = do
  found ← gets (λ s. find? (has_cloid cloid) s.orders)
  on_option found (pure none) (λ order.
      let canceled : OrderView = record order { status = OrderStatus.canceled } in
      if is_open order.status
      then (do modify (put_order canceled); pure (some canceled))
      else pure (some order))

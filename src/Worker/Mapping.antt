-- ===== src/Worker/Mapping.antt =====
-- execution-worker/app/mapping.py and the types of exchange_models.py: what the exchange's rows mean.
-- Time stamps are left out.
pub mod OneWay
use newhbot.Base.{
  ℕ, String, append, str_eq, Bool, true, false, not, ◌&&◌, ◌||◌, any, if◌then◌else◌, Option, none,
  some, List, [], ◌∷◌, ◌++◌, map, ◌==◌,
}
use newhbot.Base.Int.{ℤ}
use newhbot.Decimal.{Decimal, whole, sub, lt, le, positive, magnitude, truncated}
use newhbot.Enums.{OrderStatus, OrderSide, OrderType, PositionSide, is_flat}
use newhbot.Action.{Exn, Result, ok, err}
use newhbot.Worker.Raw.{
  Json, null, flag, number, text, object, Fields, get, get_or, has_key, truthy, ◌or◌, is_null,
  is_blank, decimal_of, str_of, as_dict, ◌>>=◌, unless_null,
}
use newhbot.Text.{contains, ends_with, lower_is}

pub record ExchangePosition : Type 0 where
  pub symbol : String
  pub side : PositionSide
  pub size : Decimal
  pub entry_price : Option Decimal
  pub mark_price : Option Decimal
  pub unrealized_pnl : Decimal
  pub leverage : Option ℤ

pub record ExchangeOrder : Type 0 where
  pub exchange_order_id : Option String
  pub cloid : String
  pub symbol : String
  pub side : OrderSide
  pub order_type : OrderType
  pub price : Option Decimal
  pub quantity : Decimal
  pub filled_quantity : Decimal
  pub remaining_quantity : Decimal
  pub reduce_only : Bool
  pub status : OrderStatus

pub record ExchangeFill : Type 0 where
  pub fill_id : String
  pub order_id : Option String
  pub cloid : String
  pub symbol : String
  pub side : OrderSide
  pub price : Decimal
  pub quantity : Decimal
  pub fee : Decimal

pub record InstrumentMeta : Type 0 where
  pub symbol : String
  pub sz_decimals : ℕ
  pub step_size : Decimal
  pub tick_size : Decimal
  pub min_order_size : Decimal
  pub min_notional : Decimal
  pub max_leverage : Option ℤ

record StateName : Type 0 where
  name : String
  status : OrderStatus

abbrev named : String → OrderStatus → StateName
named name status = record { name = name; status = status }

-- HB_ORDER_STATE
abbrev order_states : List StateName
order_states =
    named "open" OrderStatus.opened
    ∷ named "resting" OrderStatus.opened
    ∷ named "filled" OrderStatus.filled
    ∷ named "canceled" OrderStatus.canceled
    ∷ named "cancelled" OrderStatus.canceled
    ∷ named "rejected" OrderStatus.rejected
    ∷ named "failed" OrderStatus.unknown
    ∷ named "failure" OrderStatus.unknown
    ∷ named "badAloPxRejected" OrderStatus.rejected
    ∷ named "minTradeNtlRejected" OrderStatus.rejected
    ∷ named "reduceOnlyCanceled" OrderStatus.canceled
    ∷ named "reduceOnlyRejected" OrderStatus.rejected
    ∷ named "perpMarginRejected" OrderStatus.rejected
    ∷ named "selfTradeCanceled" OrderStatus.canceled
    ∷ named "siblingFilledCanceled" OrderStatus.canceled
    ∷ named "delistedCanceled" OrderStatus.canceled
    ∷ named "liquidatedCanceled" OrderStatus.canceled
    ∷ []

status_in : List StateName → String → OrderStatus
status_in [] name = OrderStatus.unknown
status_in (s ∷ states) name =
    let rest = status_in states name in if str_eq s.name name then s.status else rest

-- HB_ORDER_STATE.get(name, OrderStatus.UNKNOWN)
unfoldable pub order_state : String → OrderStatus
unfolding status_in
order_state name = status_in order_states name

-- Through HB_MARKET_EVENT_TO_KIND.
unfoldable pub map_market_event_kind : String → String
map_market_event_kind name =
    if str_eq name "OrderFilled"
    then "fill"
    else if str_eq name "BuyOrderCompleted"
    then "order_completed"
    else if str_eq name "SellOrderCompleted"
    then "order_completed"
    else if str_eq name "OrderCancelled"
    then "order_canceled"
    else if str_eq name "OrderFailure"
    then "order_failure"
    else if str_eq name "OrderUpdate"
    then "order_update"
    else if str_eq name "TradeUpdate"
    then "trade_update"
    else "unknown_event"

unfoldable pub to_pair_symbol : String → String → String
unfolding contains ends_with
to_pair_symbol symbol configured_pair =
    if str_eq symbol ""
    then symbol
    else if contains "-" symbol
    then symbol
    else if ends_with "-USD" configured_pair
    then append symbol "-USD"
    else symbol

unfoldable pub map_szi_to_side : Decimal → PositionSide
map_szi_to_side szi =
    if positive szi
    then PositionSide.long
    else if lt szi (whole 0)
    then PositionSide.short
    else PositionSide.flat

-- int(Decimal(str(v))), of a number or of a dict's value.
unfoldable pub leverage_of : Json → Result (Option ℤ)
unfolding get_or decimal_of truncated
leverage_of (object d) = do n ← decimal_of (get_or "value" (text "0") d); ok (some (truncated n))
leverage_of v = unless_null v (λ w. do n ← decimal_of w; ok (truncated n))

-- A price that may be absent or blank.
unfoldable pub price_of : Json → Result (Option Decimal)
unfolding decimal_of
price_of v = if is_blank v then ok none else do d ← decimal_of v; ok (some d)

unfoldable pub map_hummingbot_position : Fields → String → Result ExchangePosition
unfolding get get_or decimal_of str_of
map_hummingbot_position raw configured_pair = do
  szi ← decimal_of (get_or "szi" (text "0") raw)
  leverage ← leverage_of (get "leverage" raw)
  entry ← price_of (get "entryPx" raw)
  mark ← price_of (get "markPx" raw)
  pnl ← decimal_of (get_or "unrealizedPnl" (text "0") raw)
  ok (record {
    symbol = to_pair_symbol (str_of (get "coin" raw or get "symbol" raw)) configured_pair;
    side = map_szi_to_side szi;
    size = magnitude szi;
    entry_price = entry;
    mark_price = mark;
    unrealized_pnl = pnl;
    leverage = leverage;
  })

-- The size is 0 or the side is FLAT.
abbrev pub is_empty : ExchangePosition → Bool
is_empty p = p.size.coefficient == 0 || is_flat p.side

-- The positions that the rows show, those that are empty left out. The reasons for an unsupported
-- position type, which every caller drops, are not collected.
unfoldable pub map_rows : List Fields → String → Result (List ExchangePosition)
unfolding get_or map_hummingbot_position
map_rows [] configured_pair = ok []
map_rows (item ∷ items) configured_pair = do
  pos ← as_dict (get_or "position" (object item) item)
  p ← map_hummingbot_position pos configured_pair
  rest ← map_rows items configured_pair
  ok (if is_empty p then rest else p ∷ rest)

-- The positions of one symbol.
pub record Group : Type 0 where
  pub symbol : String
  pub rows : List ExchangePosition

-- by_symbol.setdefault(p.symbol, []).append(p)
unfoldable pub put_row : ExchangePosition → List Group → List Group
put_row p [] = record { symbol = p.symbol; rows = p ∷ [] } ∷ []
put_row p (g ∷ gs) =
    if str_eq g.symbol p.symbol then record g { rows = g.rows ++ p ∷ [] } ∷ gs else g ∷ put_row p gs

unfoldable pub by_symbol : List ExchangePosition → List Group → List Group
unfolding put_row
by_symbol [] gs = gs
by_symbol (p ∷ ps) gs = by_symbol ps (put_row p gs)

abbrev pub is_long : ExchangePosition → Bool
is_long p = elim p.side [ PositionSide.long ↦ true | _ ↦ false ]

abbrev pub is_short : ExchangePosition → Bool
is_short p = elim p.side [ PositionSide.short ↦ true | _ ↦ false ]

abbrev pub one_way_error : String → Exn
one_way_error symbol = record {
  type_name = "OneWayError";
  message = append "LONG and SHORT both present for " symbol;
}

-- The first symbol with both sides is an error.
unfoldable pub check_sides : List Group → Result Unit
check_sides [] = ok tt
check_sides (g ∷ gs) =
    if any is_long g.rows && any is_short g.rows
    then err (one_way_error g.symbol)
    else check_sides gs

unfoldable pub map_clearinghouse_positions : List Fields → String → Result (List ExchangePosition)
unfolding map_rows by_symbol check_sides
map_clearinghouse_positions asset_positions configured_pair = do
  mapped ← map_rows asset_positions configured_pair
  _ ← check_sides (by_symbol mapped [])
  ok mapped

-- side_raw in (True, "B", "BUY", "buy"), where 1 equals True.
abbrev means_buy : Json → Bool
means_buy (flag b) = b
means_buy (number d) = le (whole 1) d && le d (whole 1)
means_buy (text t) = str_eq t "B" || (str_eq t "BUY" || str_eq t "buy")
means_buy _ = false

-- side_raw in (False, "A", "SELL", "sell"), where 0 equals False.
abbrev means_sell : Json → Bool
means_sell (flag b) = not b
means_sell (number d) = d.coefficient == 0
means_sell (text t) = str_eq t "A" || (str_eq t "SELL" || str_eq t "sell")
means_sell _ = false

unfoldable pub order_side : Fields → OrderSide
unfolding get
order_side inner =
    let side = get "side" inner or get "b" inner in
    if means_buy side
    then OrderSide.buy
    else if means_sell side
    then OrderSide.sell
    else if truthy (get "isBuy" inner)
    then OrderSide.buy
    else OrderSide.sell

abbrev is_ioc : Json → Bool
is_ioc (text t) = str_eq t "Ioc"
is_ioc _ = false

type_of_limit : Json → Result OrderType
unfolding get
type_of_limit v = do
  limit ← as_dict v
  ok (if is_ioc (get "tif" limit) then OrderType.market else OrderType.limit)

unfoldable pub order_type_of : Json → Result OrderType
unfolding get has_key type_of_limit
order_type_of (object d) =
    if has_key "limit" d then type_of_limit (get "limit" d) else ok OrderType.limit
order_type_of _ = ok OrderType.limit

-- The quantity, what of it is filled, and what remains.
pub record Amounts : Type 0 where
  pub quantity : Decimal
  pub filled : Decimal
  pub remaining : Decimal

from_original : Fields → Result Amounts
unfolding get get_or decimal_of
from_original inner = do
  orig ← decimal_of (get "origSz" inner)
  remaining ← decimal_of (get_or "sz" (text "0") inner)
  ok (record { quantity = orig; filled = sub orig remaining; remaining = remaining })

unfoldable pub order_amounts : Fields → Result Amounts
unfolding get get_or has_key decimal_of from_original
order_amounts inner = do
  qty ← decimal_of (get_or "sz" (get_or "quantity" (text "0") inner) inner)
  filled ← decimal_of (
      get_or "filled_quantity"
        (if truthy (get "origSz" inner) then get_or "origSz" (number qty) inner else text "0")
        inner)
  if has_key "origSz" inner
      then from_original inner
      else ok (record { quantity = qty; filled = filled; remaining = sub qty filled })

-- str(v), where v is not None.
abbrev pub text_of : Json → Option String
text_of null = none
text_of v = some (str_of v)

-- str(v), where v is neither None nor "".
abbrev cloid_of : Json → String
cloid_of v = if is_blank v then "" else str_of v

unfoldable pub map_hummingbot_order : Fields → String → Result ExchangeOrder
unfolding get get_or decimal_of str_of order_type_of order_amounts
map_hummingbot_order raw configured_pair = do
  inner ← as_dict (get_or "order" (object raw) raw)
  amounts ← order_amounts inner
  order_type ← order_type_of (get "orderType" inner or get "order_type" inner)
  price ← unless_null (get "limitPx" inner) decimal_of
  ok (record {
    exchange_order_id = text_of (get "oid" inner);
    cloid = cloid_of (if is_blank (get "cloid" inner) then get "cloid" raw else get "cloid" inner);
    symbol =
        to_pair_symbol (str_of (get "coin" inner or (get "symbol" inner or text "")))
          configured_pair;
    side = order_side inner;
    order_type = order_type;
    price = price;
    quantity = amounts.quantity;
    filled_quantity = amounts.filled;
    remaining_quantity = amounts.remaining;
    reduce_only = truthy (get "reduceOnly" inner or get "reduce_only" inner);
    status = order_state (str_of (get "status" raw or (get "status" inner or text "open")));
  })

unfoldable pub map_hummingbot_fill : Fields → String → Result ExchangeFill
unfolding get get_or decimal_of str_of lower_is
map_hummingbot_fill raw configured_pair = do
  price ← decimal_of (get "px" raw or (get "price" raw or text "0"))
  quantity ← decimal_of (get "sz" raw or (get "quantity" raw or text "0"))
  fee ← decimal_of (get "fee" raw or text "0")
  let side = str_of (get_or "side" (text "") raw)
  ok (record {
    fill_id = str_of (get "tid" raw or (get "fill_id" raw or (get "hash" raw or text "0")));
    order_id = text_of (get "oid" raw);
    cloid = cloid_of (get "cloid" raw);
    symbol =
        to_pair_symbol (str_of (get "coin" raw or (get "symbol" raw or text ""))) configured_pair;
    side = if lower_is "b" side || lower_is "buy" side then OrderSide.buy else OrderSide.sell;
    price = price;
    quantity = quantity;
    fee = fee;
  })

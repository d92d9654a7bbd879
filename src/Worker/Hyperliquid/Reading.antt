-- ===== src/Worker/Hyperliquid/Reading.antt =====
-- hyperliquid_adapter.py: what the adapter answers of the account, its orders and the market.
use newhbot.Base.{
  String, str_eq, Bool, not, ◌||◌, keep, if◌then◌else◌, Option, none, some, List, [], ◌∷◌, map,
}
use newhbot.Decimal.{Decimal, whole, fraction, add, sub, positive}
use newhbot.Enums.{PositionSide, is_open}
use newhbot.Protocol.{OrderView, PositionView, BalanceView, FillView}
use newhbot.Action.{
  Exn, Result, ok, err, Action, pure, raise, gets, attempt, ◌>>=◌, ◌>>◌, on_option, when,
}
use newhbot.World.{MarketItem}
use newhbot.Worker.Raw.{
  Json, text, number, Fields, empty, get, get_or, has_key, ◌or◌, truthy, str_of, decimal_of,
  show_decimal, lift, map_result, as_dict,
}
use newhbot.Worker.Raw
use newhbot.Worker.Mapping.{ExchangeOrder, ExchangeFill, map_hummingbot_order, map_hummingbot_fill}
use newhbot.Worker.Hyperliquid.{
  Connector, HyperliquidAdapter, on_connector, account_positions_trusted,
}
use newhbot.Worker.Hyperliquid.Network.{refresh_from_connector}

abbrev fill_view : ExchangeFill → FillView
fill_view f = record {
  cloid = f.cloid;
  symbol = f.symbol;
  side = f.side;
  price = f.price;
  quantity = f.quantity;
  fee = f.fee;
  fill_id = some f.fill_id;
}

abbrev pub lookup_error : String → Exn
lookup_error message = record { type_name = "LookupError"; message = message }

abbrev pub order_view : ExchangeOrder → OrderView
order_view o = record {
  cloid = o.cloid;
  exchange_oid = o.exchange_order_id;
  symbol = o.symbol;
  side = o.side;
  order_type = o.order_type;
  quantity = o.quantity;
  filled_quantity = o.filled_quantity;
  reduce_only = o.reduce_only;
  status = o.status;
  price = o.price;
}

abbrev pub flat_position : String → PositionView
flat_position symbol = record {
  symbol = symbol;
  side = PositionSide.flat;
  size = whole 0;
  entry_price = none;
  unrealized_pnl = whole 0;
}

module _ {S : Type 0} (c : Connector S) where
  abbrev pub trusted : HyperliquidAdapter S → Bool
  trusted s = account_positions_trusted c s.inner

  abbrev balance_of : Fields → Result BalanceView
  balance_of account = Raw.◌>>=◌ (decimal_of (get "equity" account)) λ equity.
      Raw.◌>>=◌ (decimal_of (get "available" account)) λ available.
        Raw.◌>>=◌ (decimal_of (get_or "margin_used" (text "0") account)) λ margin_used.
          ok (record { equity = equity; available = available; margin_used = margin_used })

  unfoldable pub get_balance : Action (HyperliquidAdapter S) BalanceView
  get_balance = do
    readable ← gets trusted
    if not readable then raise (lookup_error "authenticated account balances unavailable") else do
      snap ← on_connector c.rest_snapshot
      if not (has_key "equity" snap.account) || not (has_key "available" snap.account)
          then raise (lookup_error "authenticated account balances unavailable")
          else lift (balance_of snap.account)

  unfoldable pub get_positions : Action (HyperliquidAdapter S) (List PositionView)
  get_positions = do
    rows ← refresh_from_connector c
    readable ← gets trusted
    if not readable
        then raise (lookup_error "authenticated account read unavailable")
        else pure rows

  -- The row of the symbol, or a FLAT one.
  unfoldable pub position_in : String → List PositionView → PositionView
  position_in symbol [] = flat_position symbol
  position_in symbol (p ∷ ps) =
      let rest = position_in symbol ps in if str_eq p.symbol symbol then p else rest

  unfoldable pub get_position : String → Action (HyperliquidAdapter S) PositionView
  get_position symbol = do rows ← get_positions; pure (position_in symbol rows)

  -- The rows of one symbol; no symbol and the empty one ask for all of them.
  abbrev of_symbol : Option String → List OrderView → List OrderView
  of_symbol none rows = rows
  of_symbol (some t) rows =
      if str_eq t "" then rows else keep (λ (o : OrderView). str_eq o.symbol t) rows

  unfoldable pub get_open_orders : Option String → Action (HyperliquidAdapter S) (List OrderView)
  get_open_orders symbol = do
    snap ← on_connector c.rest_snapshot
    config ← gets (λ s. s.config)
    mapped ← lift (
        map_result (λ (item : Fields). map_hummingbot_order item config.trading_pair)
          snap.open_orders)
    pure (of_symbol symbol (keep (λ (o : OrderView). is_open o.status) (map order_view mapped)))

  unfoldable pub get_order : String → Action (HyperliquidAdapter S) (Option OrderView)
  get_order cloid = do
    raw ← on_connector (c.get_order cloid)
    config ← gets (λ s. s.config)
    on_option raw (pure none) (λ found. do
      mapped ← lift (map_hummingbot_order found config.trading_pair)
      pure (some (order_view mapped)))

  unfoldable pub get_fills : Action (HyperliquidAdapter S) (List FillView)
  get_fills = do
    raw ← on_connector c.get_fills
    config ← gets (λ s. s.config)
    mapped ← lift (map_result (λ (row : Fields). map_hummingbot_fill row config.trading_pair) raw)
    pure (map fill_view mapped)

  abbrev around : Decimal → Decimal → List MarketItem
  around mid tick =
      record { key = "mid"; value = mid }
      ∷ record { key = "bid"; value = sub mid tick }
      ∷ record { key = "ask"; value = add mid tick }
      ∷ []

  unfoldable pub get_market_data : String → Action (HyperliquidAdapter S) (List MarketItem)
  get_market_data symbol = do
    cached ← gets (λ s. s.mid)
    when (not (positive cached)) (do _ ← refresh_from_connector c; pure tt)
    rule ← attempt (on_connector (c.trading_rule symbol))
    let tick = elim rule as (λ _. Decimal) [ ok r ↦ r.tick_size | err e ↦ fraction 1 1 ]
    gets (λ s. around s.mid tick)

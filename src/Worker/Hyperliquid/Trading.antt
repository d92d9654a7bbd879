-- ===== src/Worker/Hyperliquid/Trading.antt =====
-- hyperliquid_adapter.py: placing, canceling and the leverage.
use newhbot.Base.{
  ℕ, String, append, str_eq, Bool, true, false, not, ◌&&◌, ◌||◌, any, if◌then◌else◌, Option, none,
  some, ◌∷◌,
}
use newhbot.Decimal.{Decimal, whole, mul, lt, positive}
use newhbot.Enums.{OrderStatus, OrderSide, is_market, is_buy}
use newhbot.Protocol.{PlaceOrderRequest, PlaceOrderResponse, OrderView}
use newhbot.Action.{Exn, Action, pure, raise, gets, modify, ◌>>=◌, ◌>>◌, on_option, try_except}
use newhbot.Worker.Raw.{Json, Fields, empty, get, ◌or◌, show_decimal, lift, as_dict}
use newhbot.Worker.Mapping.{map_hummingbot_order}
use newhbot.Worker.IocPrice.{value_error, ioc_raw_price}
use newhbot.Worker.Hyperliquid.{Wire, Connector, HyperliquidAdapter, on_connector}
use newhbot.Worker.Hyperliquid.Reading.{get_order}

abbrev pub execution_disabled : String → Exn
execution_disabled message = record { type_name = "ExecutionDisabled"; message = message }

-- except ReadOnlyViolation
abbrev pub is_read_only_violation : Exn → Bool
is_read_only_violation e = str_eq e.type_name "ReadOnlyViolation"

-- except ValueError, with the subclasses that the worker declares.
abbrev pub is_value_error : Exn → Bool
is_value_error e =
    str_eq e.type_name "ValueError"
    || (str_eq e.type_name "QuantizeReject" || str_eq e.type_name "OneWayError")

abbrev pub rejected : PlaceOrderRequest → String → PlaceOrderResponse
rejected request error = record {
  request_id = request.request_id;
  cloid = request.cloid;
  exchange_oid = none;
  status = OrderStatus.rejected;
  filled_quantity = whole 0;
  avg_price = none;
  error = some error;
}

-- What a known cloid is answered.
abbrev pub duplicate : PlaceOrderRequest → Option OrderView → PlaceOrderResponse
duplicate request none = record {
  request_id = request.request_id;
  cloid = request.cloid;
  exchange_oid = none;
  status = OrderStatus.unknown;
  filled_quantity = whole 0;
  avg_price = none;
  error = some "duplicate cloid; previous result unconfirmed; will not resubmit";
}
duplicate request (some existing) = record {
  request_id = request.request_id;
  cloid = request.cloid;
  exchange_oid = existing.exchange_oid;
  status = existing.status;
  filled_quantity = existing.filled_quantity;
  avg_price = existing.price;
  error = some "duplicate cloid not resubmitted";
}

abbrev show_price : Option Decimal → String
show_price none = "None"
show_price (some p) = show_decimal p

unfoldable pub wire_of : PlaceOrderRequest → Wire
wire_of r = record {
  cloid = r.cloid;
  symbol = r.symbol;
  is_buy = is_buy r.side;
  sz = show_decimal r.quantity;
  limit_px = show_price r.price;
  reduce_only = r.reduce_only;
  tif = if is_market r.order_type then "Ioc" else "Gtc";
  order_type = r.order_type;
}

module _ {S : Type 0} where
  abbrev pub is_submitted : String → HyperliquidAdapter S → Bool
  is_submitted cloid s = any (λ t. str_eq t cloid) s.submitted_cloids

module _ {S : Type 0} (c : Connector S) where
  -- Placing, canceling and changing the leverage are forbidden.
  abbrev pub is_unarmed : S → Bool
  is_unarmed s = c.read_only s && not (c.execution_enabled s)

  abbrev pub is_blocked : HyperliquidAdapter S → Bool
  is_blocked s = is_unarmed s.inner || not s.config.execution_enabled

  abbrev reraised : {A : Type 0} → Exn → Action (HyperliquidAdapter S) A
  reraised e = raise (if is_read_only_violation e then execution_disabled e.message else e)

  unfoldable pub set_leverage : String → ℕ → Action (HyperliquidAdapter S) Unit
  set_leverage symbol leverage = do
    blocked ← gets is_blocked
    if blocked
        then raise (execution_disabled "set_leverage blocked: execution disabled or read-only")
        else try_except (on_connector (c.set_leverage symbol leverage)) reraised pure

  unfoldable pub ioc_price : PlaceOrderRequest → Action (HyperliquidAdapter S) Decimal
  ioc_price request =
      on_option request.price
        (do
          s ← gets (λ s. s)
          raw ← lift (ioc_raw_price request.side s.mid s.config.slippage)
          on_connector (c.quantize_order_price request.symbol raw))
        pure

  unfoldable pub normalize :
      PlaceOrderRequest → Decimal → Action (HyperliquidAdapter S) PlaceOrderRequest
  normalize request price = do
    qty ← on_connector (c.quantize_order_amount request.symbol request.quantity)
    px ← on_connector (c.quantize_order_price request.symbol price)
    rule ← on_connector (c.trading_rule request.symbol)
    if not (positive qty)
        then raise (value_error "quantity quantized to zero")
        else if lt qty rule.min_order_size
        then raise (value_error "quantity below exchange minimum")
        else if not request.reduce_only && lt (mul qty px) rule.min_notional
        then raise (
            value_error (
              append "notional " (
                append (show_decimal (mul qty px))
                  (append " below minimum " (show_decimal rule.min_notional)))))
        else pure (record request { quantity = qty; price = some px })

  -- The connector's answer to an order that it took.
  unfoldable pub answered :
      PlaceOrderRequest → Fields → Action (HyperliquidAdapter S) PlaceOrderResponse
  answered request result = do
    config ← gets (λ s. s.config)
    raw ← lift (as_dict (get "order" result or Json.object empty))
    mapped ← lift (map_hummingbot_order raw config.trading_pair)
    pure (record {
      request_id = request.request_id;
      cloid = request.cloid;
      exchange_oid = mapped.exchange_order_id;
      status = mapped.status;
      filled_quantity = mapped.filled_quantity;
      avg_price = mapped.price;
      error = none;
    })

  -- The cloid is noted as submitted before the connector is called.
  unfoldable pub submit :
      PlaceOrderRequest → Wire → Action (HyperliquidAdapter S) PlaceOrderResponse
  submit request wire = do
    modify (λ s. record s { submitted_cloids = request.cloid ∷ s.submitted_cloids })
    try_except (on_connector (c.place wire))
        (λ e. if is_read_only_violation e then pure (rejected request e.message) else raise e)
        (answered request)

  -- What follows the normalization.
  unfoldable pub send :
      PlaceOrderRequest → PlaceOrderRequest → Action (HyperliquidAdapter S) PlaceOrderResponse
  send request normalized = do
    modify
        (λ s. record s { last_normalized = some normalized; last_wire = some (wire_of normalized) })
    s ← gets (λ s. s)
    if not s.config.execution_enabled
        then pure (rejected request "execution disabled (DRY_RUN); connector was not called")
        else if is_unarmed s.inner
        then pure (rejected request "read-only connector; place/cancel/leverage forbidden")
        else submit request (wire_of normalized)

  unfoldable pub resolve_duplicate :
      PlaceOrderRequest → Action (HyperliquidAdapter S) PlaceOrderResponse
  resolve_duplicate request = do
    existing ← get_order c request.cloid
    pure (duplicate request existing)

  unfoldable pub place_order : PlaceOrderRequest → Action (HyperliquidAdapter S) PlaceOrderResponse
  place_order request = do
    known ← gets (is_submitted request.cloid)
    if known
        then resolve_duplicate request
        else try_except (do price ← ioc_price request; normalize request price)
            (λ e. if is_value_error e then pure (rejected request e.message) else raise e)
            (send request)

  unfoldable pub open_long : PlaceOrderRequest → Action (HyperliquidAdapter S) PlaceOrderResponse
  open_long request = place_order (record request { side = OrderSide.buy; reduce_only = false })

  unfoldable pub open_short : PlaceOrderRequest → Action (HyperliquidAdapter S) PlaceOrderResponse
  open_short request = place_order (record request { side = OrderSide.sell; reduce_only = false })

  unfoldable pub close_position :
      PlaceOrderRequest → Action (HyperliquidAdapter S) PlaceOrderResponse
  close_position request = place_order (record request { reduce_only = true })

  unfoldable pub cancel_order : String → String → Action (HyperliquidAdapter S) (Option OrderView)
  cancel_order cloid request_id = do
    blocked ← gets is_blocked
    if blocked
        then raise (execution_disabled "cancel_order blocked: execution disabled or read-only")
        else do try_except (on_connector (c.cancel cloid)) reraised pure; get_order c cloid

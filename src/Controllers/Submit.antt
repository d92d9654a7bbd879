-- ===== src/Controllers/Submit.antt =====
-- trading_controller.py: `_submit`. The intent is committed before the worker is called, once.
use newhbot.Base.{ℕ, String, Bool, not, ◌&&◌, if◌then◌else◌, Option, none, some}
use newhbot.Decimal.{Decimal, positive}
use newhbot.Enums.{OrderStatus, OrderSide, is_market, is_rejected, has_fills}
use newhbot.Action.{Action, pure, ◌>>=◌, ◌>>◌, try_except, on_option, when}
use newhbot.Protocol.{PlaceOrderRequest, PlaceOrderResponse}
use newhbot.Models.{Order}
use newhbot.World.{World, Env, Call, ask, commit, new_id, new_cloid}
use newhbot.Recovery.{enter_recovery}
use newhbot.Repositories.Settings
use newhbot.Repositories.Orders
use newhbot.Repositories.Reservation
use newhbot.Controllers.Mirror.{sync_exchange_mirror}
use newhbot.Controllers.Fills.{record_fill}
use newhbot.Controllers.Reconcile.{reconcile_unknown, unknown_because, emit_order}
use newhbot.Controllers.Cancel.{with_status}
use newhbot.Controllers.Finalize.{
  or_zero, finalize_confirmed_market_open, finalize_confirmed_market_close,
}

-- The arguments of `_submit`.
pub record Intent : Type 0 where
  pub symbol : String
  pub side : OrderSide
  pub quantity : Decimal
  pub reduce_only : Bool
  pub signal_id : Option String
  pub order_id : Option String

abbrev pub request_of : Order → PlaceOrderRequest
request_of order = record {
  request_id = order.request_id;
  cloid = order.cloid;
  symbol = order.symbol;
  side = order.side;
  order_type = order.order_type;
  quantity = order.quantity;
  reduce_only = order.reduce_only;
  price = none;
}

-- The request as a row gives it back, whose quantity went through the column.
abbrev pub stored_request : (ℕ → Decimal → Decimal) → PlaceOrderRequest → PlaceOrderRequest
stored_request numeric q = record q { quantity = numeric 12 q.quantity }

abbrev pub answered : Order → PlaceOrderResponse → Order
answered order response = record order {
  exchange_oid = response.exchange_oid;
  status = response.status;
  error_message = response.error;
}

-- The intent is committed as PENDING_SUBMISSION, then as SUBMITTING.
unfoldable pub persist_intent : Order → Action World Order
persist_intent order = do
  Orders.add order
  commit
  Orders.save (with_status order OrderStatus.submitting)
  commit
  pure (with_status order OrderStatus.submitting)

module _ (env : Env) where
  -- The new row, PENDING_SUBMISSION, with fresh ids.
  unfoldable pub draw_order : Intent → Action World Order
  draw_order intent = do
    settings ← Settings.get
    request_id ← new_id env
    intent_id ← new_id env
    cloid ← new_cloid env
    id ← on_option intent.order_id (new_id env) pure
    pure (record {
      id = id;
      intent_id = intent_id;
      request_id = request_id;
      cloid = cloid;
      exchange_oid = none;
      symbol = intent.symbol;
      side = intent.side;
      order_type = settings.order_type;
      quantity = intent.quantity;
      reduce_only = intent.reduce_only;
      status = OrderStatus.pending_submission;
      signal_id = intent.signal_id;
      error_message = none;
    })

  unfoldable pub place : Order → Action World PlaceOrderResponse
  place order =
      ask (Call.place_order (request_of order)) (λ h. env.place_order h (request_of order))

  -- place_order raised: UNKNOWN, and only queries from here on.
  unfoldable pub submit_failed : Order → String → Action World Order
  submit_failed order message = do
    let unknown_order = unknown_because order message
    Orders.save unknown_order
    commit
    reconcile_unknown env unknown_order

  -- After the exchange mirror was read again, or could not be.
  unfoldable pub finalize : Order → Bool → Action World Order
  finalize order synced =
      if not synced
      then (do enter_recovery "post_order_sync_failed"; commit; pure order)
      else if is_market order.order_type
      then if order.reduce_only
        then finalize_confirmed_market_close env order
        else finalize_confirmed_market_open env order
      else pure order

  -- place_order returned.
  unfoldable pub submit_answered : Order → PlaceOrderResponse → Action World Order
  submit_answered order response = do
    let current = answered order response
    Orders.save current
    commit
    when (has_fills response.status && positive response.filled_quantity)
        (record_fill env current (or_zero response.avg_price) response.filled_quantity none)
    when (is_rejected current.status && not current.reduce_only)
        (Reservation.release (some current.id))
    synced ← sync_exchange_mirror env current.symbol
    final ← finalize current synced
    emit_order final
    pure final

  unfoldable pub submit : Intent → Action World Order
  submit intent = do
    order ← draw_order intent
    submitting ← persist_intent order
    try_except (place submitting) (λ e. submit_failed submitting e.message)
        (submit_answered submitting)

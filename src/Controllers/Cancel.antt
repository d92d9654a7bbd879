-- ===== src/Controllers/Cancel.antt =====
-- trading_controller.py: `_cancel_opening_orders`, `_cancel_all_orders` and
-- `_terminalize_stale_openings_after_flat`.
use newhbot.Base.{ℕ, String, Bool, true, false, not, if◌then◌else◌, some, [], ◌∷◌, length}
use newhbot.Enums.{OrderStatus}
use newhbot.Action.{Action, pure, ◌>>=◌, ◌>>◌, try_except, on_option, when, for_each, all_succeed}
use newhbot.Protocol.{OrderView}
use newhbot.Models.{Order, text}
use newhbot.World.{World, Env, Call, ask, commit, new_id}
use newhbot.Repositories.Orders
use newhbot.Repositories.Journal
use newhbot.Controllers.Reconcile.{noted, is_empty}

abbrev pub with_status : Order → OrderStatus → Order
with_status order status = record order { status = status }

abbrev pub terminalized : Order → Order
terminalized order = record order {
  status = OrderStatus.canceled;
  error_message = some (
      noted order.error_message
        "terminalized during exchange-flat reconciliation; no exchange open order");
}

-- One row of `_terminalize_stale_openings_after_flat`.
unfoldable pub terminalize_one : String → Order → Action World Unit
terminalize_one symbol order = do
  Orders.save (terminalized order)
  Journal.add_audit "stale_opening_terminalized"
      (record { key = "order_id"; value = text order.id }
        ∷ record { key = "cloid"; value = text order.cloid }
        ∷ record { key = "symbol"; value = text symbol }
        ∷ [])
      "recovery"

-- Close local ACK/OPEN/PARTIAL opening rows; called only after exchange FLAT.
unfoldable pub terminalize_stale_openings_after_flat : String → Action World ℕ
terminalize_stale_openings_after_flat symbol = do
  stale ← Orders.list_reconcilable_opening symbol
  for_each stale (terminalize_one symbol)
  when (not (is_empty stale)) commit
  pure (length stale)

module _ (env : Env) where
  -- Ask the worker to cancel the order; false if the call raised, and the order is UNKNOWN then.
  unfoldable pub cancel_one : Order → Action World Bool
  cancel_one order = do
    request_id ← new_id env
    try_except
        (ask (Call.cancel_order order.cloid request_id)
          (λ h. env.cancel_order h order.cloid request_id))
        (λ _. do Orders.save (with_status order OrderStatus.unknown); pure false)
        (λ viewed.
          on_option viewed (pure true)
            (λ (view : OrderView). do Orders.save (with_status order view.status); pure true))

  unfoldable pub cancel_opening_orders : Action World Bool
  cancel_opening_orders = do
    orders ← Orders.list_open
    canceled ←
        all_succeed orders (λ order. if order.reduce_only then pure true else cancel_one order)
    commit
    pure canceled

  unfoldable pub cancel_all_orders : Action World Bool
  cancel_all_orders = do
    orders ← Orders.list_open
    canceled ← all_succeed orders cancel_one
    commit
    pure canceled

-- ===== src/Controllers/Finalize.antt =====
-- trading_controller.py: `_finalize_confirmed_market_open` and `_finalize_confirmed_market_close`.
use newhbot.Base.{
  String, Bool, not, ◌||◌, ◌&&◌, if◌then◌else◌, Option, none, some, List, [], ◌∷◌, map,
}
use newhbot.Decimal.{Decimal, whole, fraction, le, mul, total, positive}
use newhbot.Enums.{
  OrderStatus, PositionSide, OrderSide, is_market, is_opened, is_flat, is_buy, same_side,
}
use newhbot.Action.{Action, pure, raise, ◌>>=◌, ◌>>◌, try_except, on_option, for_each}
use newhbot.Protocol.{FillView, PositionView}
use newhbot.Models.{Order}
use newhbot.World.{World, Env, Call, ask, commit}
use newhbot.Repositories.Orders
use newhbot.Repositories.Orders.{is_flush_error, pending_rollback}
use newhbot.Controllers.Fills.{record_fill}
use newhbot.Controllers.Reconcile.{is_empty, matching}

-- A fill to be recorded.
pub record Evidence : Type 0 where
  pub price : Decimal
  pub quantity : Decimal
  pub fill_id : Option String

abbrev of_fill : FillView → Evidence
of_fill f = record { price = f.price; quantity = f.quantity; fill_id = f.fill_id }

-- value or Decimal("0")
abbrev pub or_zero : Option Decimal → Decimal
or_zero none = whole 0
or_zero (some d) = d

abbrev quantities : List FillView → Decimal
quantities fills = total (map (λ (f : FillView). f.quantity) fills)

-- The side that a filled opening order leaves the position on.
abbrev pub expected_side : OrderSide → PositionSide
expected_side side = if is_buy side then PositionSide.long else PositionSide.short

-- What confirms that the opening order is filled: its fills, or else a position of 90 % of it.
unfoldable pub open_evidence : Order → PositionView → List FillView → Option (List Evidence)
open_evidence order live found =
    if is_empty found
    then if le (mul order.quantity (fraction 90 2)) live.size
      then some
          (record { price = or_zero live.entry_price; quantity = live.size; fill_id = none } ∷ [])
      else none
    else if le (mul order.quantity (fraction 99 2)) (quantities found)
    then some (map of_fill found)
    else none

-- What confirms that the closing order is filled.
unfoldable pub close_evidence : Order → List FillView → Option (List Evidence)
close_evidence order found =
    if not (le (mul order.quantity (fraction 99 2)) (quantities found))
    then none
    else some (map of_fill found)

abbrev pub is_pending_market : Order → Bool
is_pending_market order = is_market order.order_type && is_opened order.status

module _ (env : Env) where
  unfoldable pub query_open_evidence : Order → Action World (Option (List Evidence))
  query_open_evidence order = do
    live ← ask (Call.get_position order.symbol) (λ h. env.get_position h order.symbol)
    if not (same_side live.side PositionSide.long || same_side live.side PositionSide.short)
          || not (positive live.size)
          || not (same_side live.side (expected_side order.side))
        then pure none
        else do
          fills ← ask Call.get_fills env.get_fills
          pure (open_evidence order live (matching order fills))

  unfoldable pub query_close_evidence : Order → Action World (Option (List Evidence))
  query_close_evidence order = do
    live ← ask (Call.get_position order.symbol) (λ h. env.get_position h order.symbol)
    if not (is_flat live.side) || positive live.size then pure none else do
      fills ← ask Call.get_fills env.get_fills
      pure (close_evidence order (matching order fills))

  -- The order is FILLED; an exception in recording the fills is only logged. After a failed flush the
  -- session raises on its next use, and that is the first thing that follows.
  unfoldable pub mark_filled : Order → List Evidence → Action World Order
  mark_filled order evidence = do
    let filled : Order = record order { status = OrderStatus.filled }
    Orders.save filled
    try_except
        (do for_each evidence (λ e. record_fill env filled e.price e.quantity e.fill_id); commit)
        (λ exc. if is_flush_error exc then raise pending_rollback else pure filled)
        (λ _. pure filled)

  -- The `try` of both methods: a query that fails, or no evidence, leaves the order OPEN.
  unfoldable pub finalize_by : Action World (Option (List Evidence)) → Order → Action World Order
  finalize_by query order =
      if not (is_pending_market order)
      then pure order
      else try_except query (λ _. pure order)
          (λ evidence. on_option evidence (pure order) (mark_filled order))

  unfoldable pub finalize_confirmed_market_open : Order → Action World Order
  finalize_confirmed_market_open order = finalize_by (query_open_evidence order) order

  unfoldable pub finalize_confirmed_market_close : Order → Action World Order
  finalize_confirmed_market_close order = finalize_by (query_close_evidence order) order

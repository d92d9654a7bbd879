-- ===== src/Controllers/Reconcile.antt =====
-- trading_controller.py: `_reconcile_unknown` and `reconcile_after_restart`. A method that assigns to
-- the fields of an order's row returns the order as it leaves it.
pub mod Evidence
pub mod Progress
use newhbot.Base.{
  ℕ, String, append, str_eq, Bool, true, false, not, if◌then◌else◌, is_some, Option, none, some,
  List, [], ◌∷◌, keep, length,
}
use newhbot.Enums.{OrderStatus, has_fills, is_submitting, is_flat, status_value}
use newhbot.Action.{
  Exn, Result, ok, err, Action, pure, ◌>>=◌, ◌>>◌, attempt, on_result, on_option, when, for_each,
}
use newhbot.Protocol.{OrderView, FillView, PositionView}
use newhbot.Models.{Order, text}
use newhbot.World.{World, Env, Call, ask, commit}
use newhbot.Recovery.{enter_recovery}
use newhbot.Repositories.Orders
use newhbot.Repositories.Reservation
use newhbot.Controllers.Mirror.{emit, sync_exchange_mirror, maybe_leave_recovery}
use newhbot.Controllers.Fills.{record_fill}

abbrev pub is_empty : {A : Type 0} → List A → Bool
is_empty [] = true
is_empty (x ∷ xs) = false

-- (prior + "; " if prior else "") + message
unfoldable pub noted : Option String → String → String
noted none message = message
noted (some prior) message = if str_eq prior "" then message else append prior (append "; " message)

abbrev pub emit_order : Order → Action World Unit
emit_order o = emit "order" (
    record { key = "cloid"; value = text o.cloid }
    ∷ record { key = "status"; value = text (status_value o.status) }
    ∷ [])

-- The answers to the three queries.
pub record Answers : Type 0 where
  pub viewed : Option OrderView
  pub fills : List FillView
  pub position : PositionView

abbrev failed : {A : Type 0} → String → Exn → Result A
failed query e = err (record e { message = append query (append " failed: " e.message) })

-- All three, or the message of the last query that failed.
unfoldable pub all_answered :
    Result (Option OrderView) → Result (List FillView) → Result PositionView → Result Answers
all_answered v f (err e) = failed "get_position" e
all_answered v (err e) (ok p) = failed "get_fills" e
all_answered (err e) (ok f) (ok p) = failed "get_order" e
all_answered (ok v) (ok f) (ok p) = ok (record { viewed = v; fills = f; position = p })

abbrev pub matching : Order → List FillView → List FillView
matching order fills = keep (λ (f : FillView). str_eq f.cloid order.cloid) fills

abbrev pub unknown_because : Order → String → Order
unknown_because order message = record order {
  status = OrderStatus.unknown;
  error_message = some message;
}

-- The order stays UNKNOWN, and the system goes to RECOVERY.
unfoldable pub keep_unknown : Order → String → String → Action World Order
keep_unknown order message reason = do
  let unknown_order = unknown_because order message
  Orders.save unknown_order
  enter_recovery reason
  commit
  pure unknown_order

-- No order, no fill, and a position that fits: the order was never submitted.
unfoldable pub reject_absent : Order → Action World Order
reject_absent order = do
  let rejected : Order = record order {
    status = OrderStatus.rejected;
    error_message =
        some "confirmed absent: no order, no fill, position compatible with unsubmitted";
  }
  Orders.save rejected
  when (not order.reduce_only) (Reservation.release (some order.id))
  commit
  maybe_leave_recovery
  emit_order rejected
  pure rejected

unfoldable pub reconcile_absent : Order → List FillView → PositionView → Action World Order
reconcile_absent order fills position =
    if not (is_empty fills)
    then keep_unknown order "fills exist without get_order hit; cannot treat as unsubmitted"
        "fill_without_order"
    else if not (is_flat position.side)
    then if order.reduce_only
      then keep_unknown order "close unconfirmed: no order/fill and position still open"
          "unconfirmed_close"
      else keep_unknown order
          "position is not FLAT without a matching order; cannot treat as unsubmitted"
          "position_without_order"
    else reject_absent order

-- What `reconcile_after_restart` returns.
pub record Reconciled : Type 0 where
  pub reconciled : ℕ
  pub still_unresolved : Bool
  pub reservation_held : Bool

module _ (env : Env) where
  unfoldable pub record_fills : Order → List FillView → Action World Unit
  record_fills order fills =
      for_each fills (λ f. record_fill env order f.price f.quantity f.fill_id)

  -- The worker knows the order: take its status over.
  unfoldable pub reconcile_viewed : Order → List FillView → OrderView → Action World Order
  reconcile_viewed order fills view = do
    let seen : Order = record order { status = view.status; exchange_oid = view.exchange_oid }
    Orders.save seen
    when (has_fills seen.status) (record_fills seen fills)
    commit
    synced ← sync_exchange_mirror env order.symbol
    if synced
        then (do maybe_leave_recovery; emit_order seen; pure seen)
        else do enter_recovery "unknown_reconciliation_sync_failed"; commit; pure seen

  unfoldable pub reconcile_answered : Order → Answers → Action World Order
  reconcile_answered order a =
      on_option a.viewed (reconcile_absent order (matching order a.fills) a.position)
        (reconcile_viewed order (matching order a.fills))

  -- Query-only. Never calls place_order. Absence of an open order is not enough.
  unfoldable pub reconcile_unknown : Order → Action World Order
  reconcile_unknown order = do
    viewed ← attempt (ask (Call.get_order order.cloid) (λ h. env.get_order h order.cloid))
    fills ← attempt (ask Call.get_fills env.get_fills)
    position ← attempt (ask (Call.get_position order.symbol) (λ h. env.get_position h order.symbol))
    on_result (all_answered viewed fills position)
        (λ e. do
          unknown_order ← keep_unknown order e.message "unconfirmed_place"
          emit_order unknown_order
          pure unknown_order)
        (reconcile_answered order)

  -- One order of `reconcile_after_restart`: SUBMITTING is promoted to UNKNOWN first.
  unfoldable pub reconcile_one : Order → Action World Unit
  reconcile_one order =
      if is_submitting order.status
      then (do
        let promoted =
            unknown_because order
              (noted order.error_message "crash while SUBMITTING; will not resubmit")
        Orders.save promoted
        commit
        reconcile_unknown promoted
        pure tt)
      else do reconcile_unknown order; pure tt

  -- Crash recovery. Query-only. Never calls place_order.
  unfoldable pub reconcile_after_restart : Action World Reconciled
  reconcile_after_restart = do
    orders ← Orders.list_unresolved
    for_each orders reconcile_one
    remaining ← Orders.has_unresolved
    reserved ← Reservation.current_order_id
    pure (record {
      reconciled = length orders;
      still_unresolved = remaining;
      reservation_held = is_some reserved;
    })

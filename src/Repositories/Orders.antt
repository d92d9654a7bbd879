-- ===== src/Repositories/Orders.antt =====
-- OrderRepository and the table `orders`. A method that holds an order's row object threads the
-- order's value; `save` writes the row of its id.
use newhbot.Base.{
  String, str_eq, Bool, true, false, ◌&&◌, ◌||◌, not, if◌then◌else◌, List, [], ◌∷◌, ◌++◌, any, keep,
  map_if,
}
use newhbot.Enums.{OrderStatus, is_unresolved, is_open}
use newhbot.Action.{Exn, Action, gets, ok, err}
use newhbot.Models.{Order}
use newhbot.World.{World, modify_db}

abbrev pub integrity_error : Exn
integrity_error = record { type_name = "IntegrityError"; message = "UNIQUE constraint failed" }

-- A flush that failed.
abbrev pub is_flush_error : Exn → Bool
is_flush_error e = str_eq e.type_name "IntegrityError"

-- What a session raises on each use after a failed flush, until it is closed.
abbrev pub pending_rollback : Exn
pending_rollback = record { type_name = "PendingRollbackError"; message = "" }

-- status IN (…) of the partial index `uq_orders_inflight_open_per_symbol`, which the table's
-- definition lists on its own.
unfoldable pub is_indexed : OrderStatus → Bool
is_indexed OrderStatus.pending_submission = true
is_indexed OrderStatus.submitting = true
is_indexed OrderStatus.ack = true
is_indexed OrderStatus.opened = true
is_indexed OrderStatus.partial = true
is_indexed OrderStatus.unknown = true
is_indexed _ = false

-- The row counts for the partial index.
unfoldable pub is_inflight_open : Order → Bool
unfolding is_indexed
is_inflight_open o = not o.reduce_only && is_indexed o.status

-- Some unique column or index of the table refuses `o` beside the row `r`.
unfoldable pub clashes : Order → Order → Bool
unfolding is_inflight_open
clashes o r =
    str_eq r.id o.id
    || str_eq r.intent_id o.intent_id
    || str_eq r.request_id o.request_id
    || str_eq r.cloid o.cloid
    || (is_inflight_open o && is_inflight_open r && str_eq r.symbol o.symbol)

-- A refusal ends the session: what it has not committed is lost with it, and every caller lets the
-- exception through.
unfoldable pub add : Order → Action World Unit
unfolding clashes
add o s =
    if any (clashes o) s.db.orders
    then (err integrity_error, s)
    else (ok tt, record s { db = record s.db { orders = s.db.orders ++ o ∷ [] } })

-- The fields of a row object are assigned, and the next flush writes them.
unfoldable pub save : Order → Action World Unit
save o =
    modify_db
      (λ d. record d { orders = map_if (λ (r : Order). str_eq r.id o.id) (λ _. o) d.orders })

unfoldable pub has_unresolved : Action World Bool
has_unresolved = gets (λ s. any (λ (o : Order). is_unresolved o.status) s.db.orders)

unfoldable pub list_unresolved : Action World (List Order)
list_unresolved = gets (λ s. keep (λ (o : Order). is_unresolved o.status) s.db.orders)

unfoldable pub list_open : Action World (List Order)
list_open = gets (λ s. keep (λ (o : Order). is_open o.status) s.db.orders)

-- The statuses that `list_reconcilable_opening` asks for.
abbrev pub is_reconcilable : OrderStatus → Bool
is_reconcilable OrderStatus.ack = true
is_reconcilable OrderStatus.opened = true
is_reconcilable OrderStatus.partial = true
is_reconcilable _ = false

unfoldable pub list_reconcilable_opening : String → Action World (List Order)
list_reconcilable_opening symbol = gets (λ s.
    keep (λ (o : Order). str_eq o.symbol symbol && not o.reduce_only && is_reconcilable o.status)
      s.db.orders)

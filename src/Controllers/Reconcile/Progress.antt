-- ===== src/Controllers/Reconcile/Progress.antt =====
-- trading_controller.py, `_reconcile_unknown`: an order that never reached the exchange is resolved.
use newhbot.Base.{
  ◌≡◌, refl, ap, String, str_eq, eq_iff, arith, Bool, true, false, not, ◌||◌, any, map_if, Option,
  none, some, List, [], ◌∷◌, Bool-cases, inl, inr,
}
use newhbot.Enums.{OrderStatus, is_flat, is_unresolved, is_recovery}
use newhbot.Protocol.{FillView, PositionView}
use newhbot.Action.{
  Action, Result, ok, pure, gets, attempt, on_result, on_option, when, ◌>>=◌, ◌>>◌,
}
use newhbot.World.{World, Env, Call, ask, commit, publish, modify_db}
use newhbot.Models.{stored, Db, Order, OpenReservation}
use newhbot.Recovery.{set_state}
use newhbot.Repositories.Settings
use newhbot.Repositories.Orders
use newhbot.Repositories.Reservation
use newhbot.Repositories.Reservation.{held_by}
use newhbot.Repositories.Journal
use newhbot.Controllers.Mirror.{maybe_leave_recovery, emit}
use newhbot.Controllers.Reconcile.{
  emit_order, all_answered, matching, reject_absent, reconcile_absent, reconcile_answered,
  reconcile_unknown,
}
use newhbot.Controllers.Reconcile.Evidence.{after_order, after_fills}

-- The order as it is called REJECTED.
abbrev pub absent : Order → Order
absent order = record order {
  status = OrderStatus.rejected;
  error_message = some "confirmed absent: no order, no fill, position compatible with unsubmitted";
}

-- The row of the order's id is the order.
abbrev pub with_row : Order → List Order → List Order
with_row o orders = map_if (λ (r : Order). str_eq r.id o.id) (λ _. o) orders

-- It returns, and leaves the orders and the slot alone.
record Leaves (s : World) (out : Result Unit × World) : Type 0 where
  returned : out.0 ≡ ok tt
  same_orders : out.1.db.orders ≡ s.db.orders
  same_slot : out.1.db.slot ≡ s.db.slot

maybe_leave_recovery_lem : (s : World) → Leaves s (maybe_leave_recovery s)
unfolding maybe_leave_recovery set_state Orders.has_unresolved Settings.get
    Settings.set_system_state Journal.add_event commit publish modify_db gets pure ◌>>=◌
maybe_leave_recovery_lem s =
    elim (Bool-cases (any (λ (o : Order). is_unresolved o.status) s.db.orders)) [
      | inl unresolved ↦
          rw unresolved (record { returned = refl; same_orders = refl; same_slot = refl })
      | inr clear ↦
          elim (Bool-cases (not (is_recovery s.db.settings.system_state) || s.db.settings.estop)) [
            | inl stays ↦
                rw (clear, stays) (record { returned = refl; same_orders = refl; same_slot = refl })
            | inr leaves ↦
                rw (clear, leaves)
                  (record { returned = refl; same_orders = refl; same_slot = refl })
          ]
    ]

-- What is left of a resolution once the row is saved.
abbrev tail : Order → Action World Order
tail r = do maybe_leave_recovery; emit_order r; pure r

record Returned (r : Order) (s : World) (out : Result Order × World) : Type 0 where
  returned : out.0 ≡ ok r
  same_orders : out.1.db.orders ≡ s.db.orders
  same_slot : out.1.db.slot ≡ s.db.slot

tail_lem : (r : Order) (s : World) → Returned r s (tail r s)
unfolding emit Journal.add_event commit publish pure ◌>>=◌
tail_lem r s =
    let left = maybe_leave_recovery_lem s in
    rw left.returned
      (record { returned = refl; same_orders = left.same_orders; same_slot = left.same_slot })

-- The order is REJECTED in its row, and an opening order that held the slot has freed it.
pub record IsResolved (order : Order) (s : World) (out : Result Order × World) : Type 0 where
  pub returned : out.0 ≡ ok (absent order)
  pub saved : out.1.db.orders ≡ with_row (absent order) s.db.orders
  pub freed :
      order.reduce_only ≡ false → s.db.slot.order_id ≡ some order.id → out.1.db.slot.order_id ≡ none

-- What follows the saving, with whether the slot is to be freed.
abbrev rest : Bool → Order → Action World Order
rest opening order = do
  when opening (Reservation.release (some order.id))
  commit
  tail (absent order)

not_held :
    (id : String) (holder : Option String) → holder ≡ some id → held_by (some id) holder ≡ false → ⊥
not_held id none e f = cc
not_held id (some t) e f = ground (arith, e, eq_iff t id)

record Freed (opening : Bool) (order : Order) (s : World) (out : Result Order × World)
    : Type 0 where
  returned : out.0 ≡ ok (absent order)
  same_orders : out.1.db.orders ≡ s.db.orders
  freed : opening ≡ true → s.db.slot.order_id ≡ some order.id → out.1.db.slot.order_id ≡ none

rest_lem :
    (opening : Bool) (order : Order) (s : World) → Freed opening order s (rest opening order s)
unfolding when Reservation.release commit pure ◌>>=◌
rest_lem false order s =
    let left = tail_lem (absent order) (record s { committed = stored s.db }) in
    record { returned = left.returned; same_orders = left.same_orders; freed = λ e q. cc }
rest_lem true order s = elim (Bool-cases (held_by (some order.id) s.db.slot.order_id)) [
  | inl held ↦
      let freed_db : Db = record s.db { slot = record { order_id = none; held_reason = none } } in
      let left =
        tail_lem (absent order) (record s { db = freed_db; committed = stored freed_db }) in
      rw held (record {
        returned = left.returned;
        same_orders = left.same_orders;
        freed = λ e q. ap (λ (x : OpenReservation). x.order_id) left.same_slot;
      })
  | inr other ↦
      let left = tail_lem (absent order) (record s { committed = stored s.db }) in
      rw other (record {
        returned = left.returned;
        same_orders = left.same_orders;
        freed = λ e q. absurd (not_held order.id _ q other);
      })
]

reject_absent_lem : (order : Order) (s : World) → IsResolved order s (reject_absent order s)
unfolding reject_absent Orders.save modify_db ◌>>=◌
reject_absent_lem order s =
    let left =
      rest_lem (not order.reduce_only) order
        (record s { db = record s.db { orders = with_row (absent order) s.db.orders } }) in
    record {
      returned = left.returned;
      saved = left.same_orders;
      freed = λ e q. left.freed (ap not e) q;
    }

module _ (env : Env) (order : Order) (s : World) where
  -- The worker knows no such order, has no fill for it and shows a FLAT position: the answers to the
  -- three queries, asked from the state `s`.
  pub record IsAbsent (fills : List FillView) (p : PositionView) : Type 0 where
    pub no_order : env.get_order s.sent order.cloid ≡ ok none
    pub fills_read : env.get_fills (after_order order s) ≡ ok fills
    pub position_read : env.get_position (after_fills order s) order.symbol ≡ ok p
    pub no_fill : matching order fills ≡ []
    pub flat : is_flat p.side ≡ true

  -- An order that the worker answers to have no trace of does not stay unknown: its row is REJECTED,
  -- and an opening order that held the slot has freed it.
  pub absent_order-IsResolved :
      (fills : List FillView) (p : PositionView)
      → IsAbsent fills p
      → IsResolved order s (reconcile_unknown env order s)
  unfolding reconcile_unknown reconcile_answered reconcile_absent all_answered attempt ask on_result
      on_option ◌>>=◌
  absent_order-IsResolved fills p a =
      let asked : World = record s {
        sent =
            record { call = Call.get_position order.symbol; durable = s.committed }
            ∷ after_fills order s;
      } in
      let left = reject_absent_lem order asked in
      rw (a.no_order, a.fills_read, a.position_read, a.no_fill, a.flat)
        (record { returned = left.returned; saved = left.saved; freed = left.freed })

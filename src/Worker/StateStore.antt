-- ===== src/Worker/StateStore.antt =====
-- execution-worker/app/state_store.py: the exchange's state kept from snapshots and events. A dict is
-- a list of its values, in the order of the keys' first insertion, and a set a list of its members.
-- The calls are data, so that a life of the store is a list of them.

pub mod Conflicts
pub mod FillIds
pub mod Resync
use newhbot.Base.{
  String, append, str_eq, Bool, true, false, not, ◌&&◌, ◌||◌, any, keep, find?, is_some,
  if◌then◌else◌, Option, none, some, List, [], ◌∷◌, ◌++◌,
}
use newhbot.Decimal.{Decimal, whole, add, sub, le}
use newhbot.Enums.{OrderStatus, PositionSide, is_flat, same_side, side_value, is_opened}
use newhbot.Worker.Mapping.{ExchangePosition, ExchangeOrder, ExchangeFill}
use newhbot.Worker.Mock.{put}

pub data SyncStatus : Type 0 where
  never snapshot live resync conflict : SyncStatus

pub record ExchangeStateStore : Type 0 where
  pub positions : List ExchangePosition
  pub orders : List ExchangeOrder
  pub fills : List ExchangeFill
  pub fill_ids : List String
  pub sync_status : SyncStatus
  pub ws_connected : Bool
  pub needs_reconciliation : Bool
  pub conflict_reason : Option String

-- __init__
abbrev pub new_store : ExchangeStateStore
new_store = record {
  positions = [];
  orders = [];
  fills = [];
  fill_ids = [];
  sync_status = SyncStatus.never;
  ws_connected = false;
  needs_reconciliation = false;
  conflict_reason = none;
}

abbrev for_symbol : String → ExchangePosition → Bool
for_symbol symbol p = str_eq p.symbol symbol

abbrev for_cloid : String → ExchangeOrder → Bool
for_cloid cloid o = str_eq o.cloid cloid

abbrev put_order : ExchangeOrder → List ExchangeOrder → List ExchangeOrder
put_order o os = put (for_cloid o.cloid) o os

abbrev put_position : ExchangePosition → List ExchangePosition → List ExchangePosition
put_position p ps = put (for_symbol p.symbol) p ps

-- {item.symbol: item for item in positions if item.side != FLAT}, from the pairs there are already.
index_positions : List ExchangePosition → List ExchangePosition → List ExchangePosition
index_positions acc [] = acc
index_positions acc (p ∷ ps) =
    index_positions (if is_flat p.side then acc else put_position p acc) ps

-- {item.cloid: item for item in orders}
index_orders : List ExchangeOrder → List ExchangeOrder → List ExchangeOrder
index_orders acc [] = acc
index_orders acc (o ∷ os) = index_orders (put_order o acc) os

-- A fill without an id is remembered each time.
unfoldable pub is_remembered : ExchangeFill → ExchangeStateStore → Bool
is_remembered fill s = not (str_eq fill.fill_id "") && any (λ t. str_eq t fill.fill_id) s.fill_ids

unfoldable pub remember_fill : ExchangeFill → ExchangeStateStore → ExchangeStateStore
unfolding is_remembered
remember_fill fill s = if is_remembered fill s then s else record s {
  fill_ids = if str_eq fill.fill_id "" then s.fill_ids else fill.fill_id ∷ s.fill_ids;
  fills = s.fills ++ fill ∷ [];
}

unfoldable pub remember_fills : List ExchangeFill → ExchangeStateStore → ExchangeStateStore
unfolding remember_fill
remember_fills [] s = s
remember_fills (f ∷ fs) s = remember_fills fs (remember_fill f s)

unfoldable pub with_fills : Option (List ExchangeFill) → ExchangeStateStore → ExchangeStateStore
unfolding remember_fills
with_fills none s = s
with_fills (some fills) s = remember_fills fills (record s { fills = []; fill_ids = [] })

unfoldable pub apply_rest_snapshot :
    List ExchangePosition
    → List ExchangeOrder
    → Option (List ExchangeFill)
    → ExchangeStateStore
    → ExchangeStateStore
unfolding with_fills index_positions index_orders
apply_rest_snapshot positions orders fills s = record (with_fills fills s) {
  positions = index_positions [] positions;
  orders = index_orders [] orders;
  sync_status = SyncStatus.snapshot;
  needs_reconciliation = false;
  conflict_reason = none;
}

unfoldable pub mark_conflict : String → ExchangeStateStore → ExchangeStateStore
mark_conflict reason s = record s {
  needs_reconciliation = true;
  conflict_reason = some reason;
  sync_status = SyncStatus.conflict;
}

abbrev is_canceled_or_rejected : OrderStatus → Bool
is_canceled_or_rejected OrderStatus.canceled = true
is_canceled_or_rejected OrderStatus.rejected = true
is_canceled_or_rejected _ = false

abbrev is_filled : OrderStatus → Bool
is_filled OrderStatus.filled = true
is_filled _ = false

-- An order that ended without a fill leaves the dict; a filled one stays.
orders_after : ExchangeOrder → List ExchangeOrder → List ExchangeOrder
orders_after order orders =
    if is_canceled_or_rejected order.status
    then keep (λ o. not (for_cloid order.cloid o)) (put_order order orders)
    else put_order order orders

was_filled : Option ExchangeOrder → Bool
was_filled none = false
was_filled (some existing) = is_filled existing.status

unfoldable pub go_live : ExchangeStateStore → ExchangeStateStore
go_live s = if s.ws_connected then record s { sync_status = SyncStatus.live } else s

unfoldable pub apply_ws_order : ExchangeOrder → ExchangeStateStore → ExchangeStateStore
unfolding orders_after was_filled go_live mark_conflict
apply_ws_order order s =
    let existing = find? (for_cloid order.cloid) s.orders in
    let t : ExchangeStateStore = record s { orders = orders_after order s.orders } in
    if was_filled existing && is_opened order.status
    then mark_conflict "ws OPEN after REST/WS FILLED" t
    else go_live t

filled_by : ExchangeFill → ExchangeOrder → ExchangeOrder
filled_by fill order =
    let filled = add order.filled_quantity fill.quantity in
    let remaining = sub order.quantity filled in
    record order {
      filled_quantity = filled;
      remaining_quantity = if le (whole 0) remaining then remaining else whole 0;
      status = if le remaining (whole 0) then OrderStatus.filled else OrderStatus.partial;
    }

fill_orders : ExchangeFill → List ExchangeOrder → List ExchangeOrder
unfolding filled_by
fill_orders fill orders = elim (find? (for_cloid fill.cloid) orders) [
  | none ↦ orders
  | some order ↦ put (for_cloid fill.cloid) (filled_by fill order) orders
]

-- size == 0
is_zero : Decimal → Bool
is_zero d = le d (whole 0) && le (whole 0) d

-- A position that is FLAT, or of size 0, is none.
move_position : ExchangePosition → List ExchangePosition → List ExchangePosition
unfolding is_zero
move_position p positions =
    if is_flat p.side || is_zero p.size
    then keep (λ q. not (for_symbol p.symbol q)) positions
    else put_position p positions

unfoldable pub apply_ws_fill :
    ExchangeFill → Option ExchangePosition → ExchangeStateStore → ExchangeStateStore
unfolding is_remembered remember_fill fill_orders move_position go_live
apply_ws_fill fill position s =
    let t = remember_fill fill s in
    let u : ExchangeStateStore = record t {
      orders = fill_orders fill t.orders;
      positions = elim position [ none ↦ t.positions | some p ↦ move_position p t.positions ];
    } in
    if is_remembered fill s then s else go_live u

-- The position that is held has another side than the one in the event.
opposes : ExchangePosition → Option ExchangePosition → Bool
opposes p none = false
opposes p (some rest) =
    not (is_flat rest.side) && not (is_flat p.side) && not (same_side rest.side p.side)

side_of : Option ExchangePosition → String
side_of none = ""
side_of (some rest) = side_value rest.side

unfoldable pub apply_ws_position : ExchangePosition → ExchangeStateStore → ExchangeStateStore
unfolding opposes side_of mark_conflict move_position go_live
apply_ws_position p s =
    let rest = find? (for_symbol p.symbol) s.positions in
    let t : ExchangeStateStore = record s { positions = move_position p s.positions } in
    if opposes p rest
    then mark_conflict
        (append "REST " (
          append (side_of rest)
            (append " vs WS " (append (side_value p.side) (append " on " p.symbol)))))
        s
    else if t.needs_reconciliation
    then t
    else go_live t

unfoldable pub mark_ws : Bool → ExchangeStateStore → ExchangeStateStore
mark_ws true s = record s { ws_connected = true }
mark_ws false s = record s { ws_connected = false; sync_status = SyncStatus.resync }

-- resync_from_rest: the snapshot, whose status is SNAPSHOT already.
unfoldable pub resync_from_rest :
    List ExchangePosition
    → List ExchangeOrder
    → Option (List ExchangeFill)
    → ExchangeStateStore
    → ExchangeStateStore
unfolding apply_rest_snapshot
resync_from_rest positions orders fills s = record (apply_rest_snapshot positions orders fills s) {
  sync_status = SyncStatus.snapshot;
}

-- What the store is told between two snapshots.
pub data Event : Type 0 where
  ws_order : ExchangeOrder → Event
  ws_fill : ExchangeFill → Option ExchangePosition → Event
  ws_position : ExchangePosition → Event
  conflicted : String → Event
  ws : Bool → Event

pub data Update : Type 0 where
  event : Event → Update
  rest resynced : List ExchangePosition → List ExchangeOrder → Option (List ExchangeFill) → Update

unfoldable pub on_event : Event → ExchangeStateStore → ExchangeStateStore
on_event (Event.ws_order order) s = apply_ws_order order s
on_event (Event.ws_fill fill position) s = apply_ws_fill fill position s
on_event (Event.ws_position position) s = apply_ws_position position s
on_event (Event.conflicted reason) s = mark_conflict reason s
on_event (Event.ws connected) s = mark_ws connected s

unfoldable pub on_events : List Event → ExchangeStateStore → ExchangeStateStore
unfolding on_event
on_events [] s = s
on_events (e ∷ es) s = on_events es (on_event e s)

unfoldable pub on_updates : List Update → ExchangeStateStore → ExchangeStateStore
unfolding on_event
on_updates [] s = s
on_updates (Update.event e ∷ us) s = on_updates us (on_event e s)
on_updates (Update.rest ps os fs ∷ us) s = on_updates us (apply_rest_snapshot ps os fs s)
on_updates (Update.resynced ps os fs ∷ us) s = on_updates us (resync_from_rest ps os fs s)

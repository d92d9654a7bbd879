-- ===== src/Examples/Store.antt =====
-- A store's life with a conflict, and the store's theorems at it.
use newhbot.Base.{◌≡◌, refl, ◌≤◌, true, false, none, some, List, [], ◌∷◌}
use newhbot.Decimal.{whole}
use newhbot.Enums.{OrderSide, OrderType, OrderStatus, PositionSide}
use newhbot.Worker.Mapping.{ExchangePosition, ExchangeOrder, ExchangeFill}
use newhbot.Worker.StateStore
use newhbot.Worker.StateStore.{
  ExchangeStateStore, Event, Update, new_store, on_events, on_updates, apply_ws_position,
  resync_from_rest,
}
use newhbot.Worker.StateStore.Conflicts.{NeedsReconciliation, on_events-NeedsReconciliation}
use newhbot.Worker.StateStore.FillIds.{times_remembered, fill_remembered_once}
use newhbot.Worker.StateStore.Resync.{resync_forgets}

abbrev position : PositionSide → ExchangePosition
position side = record {
  symbol = "BTC-USD";
  side = side;
  size = whole 2;
  entry_price = none;
  mark_price = none;
  unrealized_pnl = whole 0;
  leverage = none;
}

abbrev order : OrderStatus → ExchangeOrder
order status = record {
  exchange_order_id = none;
  cloid = "0x1";
  symbol = "BTC-USD";
  side = OrderSide.buy;
  order_type = OrderType.market;
  price = none;
  quantity = whole 2;
  filled_quantity = whole 0;
  remaining_quantity = whole 2;
  reduce_only = false;
  status = status;
}

abbrev fill : ExchangeFill
fill = record {
  fill_id = "7";
  order_id = none;
  cloid = "0x1";
  symbol = "BTC-USD";
  side = OrderSide.buy;
  price = whole 100;
  quantity = whole 2;
  fee = whole 0;
}

-- LONG in the snapshot, SHORT in the event.
abbrev conflicting : ExchangeStateStore
conflicting =
    on_updates
      (Update.rest (position PositionSide.long ∷ []) (order OrderStatus.opened ∷ []) none
        ∷ Update.event (Event.ws_position (position PositionSide.short))
        ∷ [])
      new_store

conflicting-NeedsReconciliation : NeedsReconciliation conflicting
unfolding on_updates StateStore.on_event StateStore.apply_rest_snapshot apply_ws_position
    StateStore.mark_conflict StateStore.with_fills
conflicting-NeedsReconciliation = record { marked = refl; reasoned = refl }

abbrev events : List Event
events = Event.ws true ∷ Event.ws_fill fill none ∷ Event.ws_order (order OrderStatus.filled) ∷ []

on_events-NeedsReconciliation_example : NeedsReconciliation (on_events events conflicting)
on_events-NeedsReconciliation_example =
    on_events-NeedsReconciliation events conflicting conflicting-NeedsReconciliation

-- The order's event has made the store look LIVE.
live_in_conflict : (on_events events conflicting).sync_status ≡ StateStore.SyncStatus.live
unfolding on_updates on_events StateStore.on_event StateStore.apply_rest_snapshot apply_ws_position
    StateStore.mark_conflict StateStore.with_fills StateStore.apply_ws_fill
    StateStore.apply_ws_order StateStore.go_live StateStore.mark_ws StateStore.remember_fill
    StateStore.is_remembered newhbot.Decimal.le newhbot.Decimal.sub
live_in_conflict = refl

abbrev updates : List Update
updates =
    Update.event (Event.ws_fill fill none)
    ∷ Update.event (Event.ws_fill fill none)
    ∷ Update.rest [] [] (some (fill ∷ fill ∷ []))
    ∷ Update.event (Event.ws_fill fill none)
    ∷ []

fill_remembered_once_example : times_remembered "7" (on_updates updates new_store) ≤ 1
fill_remembered_once_example = fill_remembered_once "7" refl updates

-- It is remembered.
remembered : times_remembered "7" (on_updates updates new_store) ≡ 1
unfolding on_updates StateStore.on_event StateStore.apply_rest_snapshot StateStore.apply_ws_fill
    StateStore.with_fills StateStore.remember_fills StateStore.remember_fill
    StateStore.is_remembered StateStore.go_live
remembered = refl

resync_forgets_example :
    resync_from_rest [] [] (some (fill ∷ [])) conflicting
    ≡ record (resync_from_rest [] [] (some (fill ∷ [])) new_store) {
      ws_connected = conflicting.ws_connected;
    }
resync_forgets_example = resync_forgets [] [] (fill ∷ []) conflicting

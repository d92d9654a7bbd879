-- ===== src/Worker/StateStore/Conflicts.antt =====
-- state_store.py: how long the need of a reconciliation lasts.
use newhbot.Base.{◌≡◌, refl, true, false, is_some, List, [], ◌∷◌, arith}
use newhbot.Worker.StateStore.{
  ExchangeStateStore, Event, on_event, on_events, apply_ws_order, apply_ws_fill, apply_ws_position,
  mark_conflict, mark_ws, go_live, remember_fill,
}

-- The store needs a reconciliation, and says why.
pub record NeedsReconciliation (s : ExchangeStateStore) : Type 0 where
  pub marked : s.needs_reconciliation ≡ true
  pub reasoned : is_some s.conflict_reason ≡ true

-- Events change the flag and the reason only to mark a conflict.
on_event-NeedsReconciliation :
    (e : Event) (s : ExchangeStateStore)
    → NeedsReconciliation s
    → NeedsReconciliation (on_event e s)
unfolding on_event apply_ws_order apply_ws_fill apply_ws_position mark_conflict mark_ws go_live
    remember_fill
on_event-NeedsReconciliation (Event.ws_order o) s h = record {
  marked = ground (arith, h.marked);
  reasoned = ground (arith, h.reasoned);
}
on_event-NeedsReconciliation (Event.ws_fill f p) s h = record {
  marked = ground (arith, h.marked);
  reasoned = ground (arith, h.reasoned);
}
on_event-NeedsReconciliation (Event.ws_position p) s h = record {
  marked = ground (arith, h.marked);
  reasoned = ground (arith, h.reasoned);
}
on_event-NeedsReconciliation (Event.conflicted r) s h = record { marked = refl; reasoned = refl }
on_event-NeedsReconciliation (Event.ws true) s h = record {
  marked = h.marked;
  reasoned = h.reasoned;
}
on_event-NeedsReconciliation (Event.ws false) s h = record {
  marked = h.marked;
  reasoned = h.reasoned;
}

-- A store that needs a reconciliation still needs one, and still gives a reason, after any sequence
-- of the socket's events. Nothing is said of `sync_status`, which events change meanwhile.
pub on_events-NeedsReconciliation :
    (es : List Event) (s : ExchangeStateStore)
    → NeedsReconciliation s
    → NeedsReconciliation (on_events es s)
unfolding on_events
on_events-NeedsReconciliation [] s h = h
on_events-NeedsReconciliation (e ∷ es) s h =
    on_events-NeedsReconciliation es (on_event e s) (on_event-NeedsReconciliation e s h)

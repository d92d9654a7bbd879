-- ===== src/Safety/Tolerant/Methods.antt =====
-- The methods that neither send nor insert an order nor write the latch.
use newhbot.Base.{String, Option, List}
use newhbot.Decimal.{Decimal}
use newhbot.Enums.{SystemState}
use newhbot.Action.Moves.{Preorder, Moves}
use newhbot.World.{World, Env}
use newhbot.Models.{Payload, Order, Trade}
use newhbot.Protocol.{FillView, OrderView, PositionView}
use newhbot.Recovery.{set_state, enter_recovery, bootstrap}
use newhbot.Controllers.Mirror.{
  emit, local_side, maybe_leave_recovery, query_snapshot, sync_exchange_mirror,
}
use newhbot.Controllers.Fills.{record_fill, book_trade, close_trade}
use newhbot.Controllers.Reconcile.{
  Answers, keep_unknown, record_fills, reconcile_viewed, reject_absent, reconcile_absent,
  reconcile_answered, reconcile_unknown, reconcile_one, reconcile_after_restart,
}
use newhbot.Controllers.Cancel.{
  terminalize_one, terminalize_stale_openings_after_flat, cancel_one, cancel_opening_orders,
  cancel_all_orders,
}
use newhbot.Controllers.Stop.{stop}
use newhbot.Safety.Tolerant.{Tolerant, tolerant_rules}

module _ {P : Preorder World} (T : Tolerant P) where
  pub emit-Moves : (t : String) (p : Payload) → Moves P (emit t p)
  unfolding emit
  emit-Moves t p = search tolerant_rules depth 20

  pub set_state-Moves : (x : SystemState) (t : String) → Moves P (set_state x t)
  unfolding set_state
  set_state-Moves x t = search tolerant_rules depth 20

  pub enter_recovery-Moves : (t : String) → Moves P (enter_recovery t)
  unfolding enter_recovery
  enter_recovery-Moves t = set_state-Moves SystemState.recovery t

  pub local_side-Moves : (t : String) → Moves P (local_side t)
  unfolding local_side
  local_side-Moves t = search tolerant_rules depth 20

  pub maybe_leave_recovery-Moves : Moves P maybe_leave_recovery
  unfolding maybe_leave_recovery
  maybe_leave_recovery-Moves = search (tolerant_rules, set_state-Moves) depth 20

pub ruleset state_rules = (
  tolerant_rules, emit-Moves, local_side-Moves, set_state-Moves, enter_recovery-Moves,
  maybe_leave_recovery-Moves,
)

module _ {P : Preorder World} (T : Tolerant P) (env : Env) where
  pub bootstrap-Moves : Moves P (bootstrap env)
  unfolding bootstrap
  bootstrap-Moves = search (state_rules) depth 40

  pub query_snapshot-Moves : (t : String) → Moves P (query_snapshot env t)
  unfolding query_snapshot
  query_snapshot-Moves t = search (state_rules) depth 40

  pub sync_exchange_mirror-Moves : (t : String) → Moves P (sync_exchange_mirror env t)
  unfolding sync_exchange_mirror
  sync_exchange_mirror-Moves t = search (state_rules, query_snapshot-Moves) depth 40

  pub close_trade-Moves : (d : Decimal) (t : Trade) → Moves P (close_trade env d t)
  unfolding close_trade
  close_trade-Moves d t = search (state_rules) depth 40

  pub book_trade-Moves : (o : Order) (d e : Decimal) → Moves P (book_trade env o d e)
  unfolding book_trade
  book_trade-Moves o d e = search (state_rules, close_trade-Moves) depth 40

  pub record_fill-Moves :
      (o : Order) (d e : Decimal) (f : Option String) → Moves P (record_fill env o d e f)
  unfolding record_fill
  record_fill-Moves o d e f = search (state_rules, book_trade-Moves) depth 40

  pub record_fills-Moves : (o : Order) (fs : List FillView) → Moves P (record_fills env o fs)
  unfolding record_fills
  record_fills-Moves o fs = search (state_rules, record_fill-Moves) depth 40

pub ruleset fill_rules = (
  state_rules, query_snapshot-Moves, sync_exchange_mirror-Moves, record_fill-Moves,
  record_fills-Moves,
)

-- Restarts and reconciliation.
module _ {P : Preorder World} (T : Tolerant P) where
  pub keep_unknown-Moves : (o : Order) (m r : String) → Moves P (keep_unknown o m r)
  unfolding keep_unknown
  keep_unknown-Moves o m r = search fill_rules depth 40

  pub terminalize_one-Moves : (t : String) (o : Order) → Moves P (terminalize_one t o)
  unfolding terminalize_one
  terminalize_one-Moves t o = search fill_rules depth 40

  pub terminalize_stale-Moves : (t : String) → Moves P (terminalize_stale_openings_after_flat t)
  unfolding terminalize_stale_openings_after_flat
  terminalize_stale-Moves t = search (fill_rules, terminalize_one-Moves) depth 40

module _ {P : Preorder World} (T : Tolerant P) (env : Env) where
  pub reconcile_viewed-Moves :
      (o : Order) (fs : List FillView) (v : OrderView) → Moves P (reconcile_viewed env o fs v)
  unfolding reconcile_viewed
  reconcile_viewed-Moves o fs v = search (fill_rules) depth 40

  pub reject_absent-Moves : (o : Order) → Moves P (reject_absent o)
  unfolding reject_absent
  reject_absent-Moves o = search (fill_rules) depth 40

  pub reconcile_absent-Moves :
      (o : Order) (fs : List FillView) (p : PositionView) → Moves P (reconcile_absent o fs p)
  unfolding reconcile_absent
  reconcile_absent-Moves o fs p =
      search (fill_rules, keep_unknown-Moves, reject_absent-Moves) depth 40

  pub reconcile_answered-Moves : (o : Order) (a : Answers) → Moves P (reconcile_answered env o a)
  unfolding reconcile_answered
  reconcile_answered-Moves o a =
      search (fill_rules, reconcile_viewed-Moves, reconcile_absent-Moves) depth 40

  pub reconcile_unknown-Moves : (o : Order) → Moves P (reconcile_unknown env o)
  unfolding reconcile_unknown
  reconcile_unknown-Moves o =
      search (fill_rules, keep_unknown-Moves, reconcile_answered-Moves) depth 40

  pub reconcile_one-Moves : (o : Order) → Moves P (reconcile_one env o)
  unfolding reconcile_one
  reconcile_one-Moves o = search (fill_rules, reconcile_unknown-Moves) depth 40

  pub reconcile_after_restart-Moves : Moves P (reconcile_after_restart env)
  unfolding reconcile_after_restart
  reconcile_after_restart-Moves = search (fill_rules, reconcile_one-Moves) depth 40

  pub cancel_one-Moves : (o : Order) → Moves P (cancel_one env o)
  unfolding cancel_one
  cancel_one-Moves o = search (fill_rules) depth 40

  pub cancel_opening_orders-Moves : Moves P (cancel_opening_orders env)
  unfolding cancel_opening_orders
  cancel_opening_orders-Moves = search (fill_rules, cancel_one-Moves) depth 40

  pub cancel_all_orders-Moves : Moves P (cancel_all_orders env)
  unfolding cancel_all_orders
  cancel_all_orders-Moves = search (fill_rules, cancel_one-Moves) depth 40

  pub stop-Moves : Moves P (stop env)
  unfolding stop
  stop-Moves = search (fill_rules, cancel_opening_orders-Moves) depth 40

pub ruleset method_rules = (
  fill_rules, keep_unknown-Moves, terminalize_stale-Moves, reconcile_unknown-Moves,
  reconcile_after_restart-Moves, cancel_opening_orders-Moves, cancel_all_orders-Moves, stop-Moves,
)

-- ===== src/Safety/Tolerant/Starting.antt =====
-- `start`, which neither sends nor inserts an order.
use newhbot.Base.{String}
use newhbot.Enums.{PositionSide}
use newhbot.Action.Moves.{Preorder, Moves}
use newhbot.World.{World, Env}
use newhbot.Controllers.Start.{
  start_failed, start_running, start_clean, start_open_orders, start_positions, start_sync,
  connect_worker, start_connected, start_resolved, start,
}
use newhbot.Safety.Tolerant.{Tolerant}
use newhbot.Safety.Tolerant.Methods.{method_rules}

module _ {P : Preorder World} (T : Tolerant P) where
  pub start_failed-Moves : (r t : String) → Moves P (start_failed r t)
  unfolding start_failed
  start_failed-Moves r t = search (method_rules) depth 40

  pub start_running-Moves : Moves P start_running
  unfolding start_running
  start_running-Moves = search (method_rules) depth 40

  pub start_clean-Moves : (x : PositionSide) → Moves P (start_clean x)
  unfolding start_clean
  start_clean-Moves x = search (method_rules, start_failed-Moves, start_running-Moves) depth 40

module _ {P : Preorder World} (T : Tolerant P) (env : Env) where
  pub start_open_orders-Moves : (x : PositionSide) → Moves P (start_open_orders env x)
  unfolding start_open_orders
  start_open_orders-Moves x = search (method_rules, start_failed-Moves, start_clean-Moves) depth 40

  pub start_positions-Moves : (x : PositionSide) → Moves P (start_positions env x)
  unfolding start_positions
  start_positions-Moves x =
      search (method_rules, start_failed-Moves, start_open_orders-Moves) depth 40

  pub start_sync-Moves : Moves P (start_sync env)
  unfolding start_sync
  start_sync-Moves = search (method_rules, start_failed-Moves, start_positions-Moves) depth 40

  pub connect_worker-Moves : Moves P (connect_worker env)
  unfolding connect_worker
  connect_worker-Moves = search (method_rules) depth 40

  pub start_connected-Moves : Moves P (start_connected env)
  unfolding start_connected
  start_connected-Moves =
      search (method_rules, start_failed-Moves, connect_worker-Moves, start_sync-Moves) depth 40

  pub start_resolved-Moves : Moves P (start_resolved env)
  unfolding start_resolved
  start_resolved-Moves = search (method_rules, start_failed-Moves, start_connected-Moves) depth 40

  pub start-Moves : Moves P (start env)
  unfolding start
  start-Moves = search (method_rules, start_failed-Moves, start_resolved-Moves) depth 40

-- ===== src/Safety/Tolerant/Clearing.antt =====
-- The methods that write the emergency latch, for a preorder that those writes follow.
use newhbot.Base.{String, Bool}
use newhbot.Action.Moves.{Preorder, Moves}
use newhbot.World.{World, Env}
use newhbot.Repositories.Settings
use newhbot.Controllers.Estop.{
  Exchange, reject, release_estop, judge_exchange, query_all, clear_by_exchange, clear_estop,
}
use newhbot.Safety.Tolerant.{Tolerant}
use newhbot.Safety.Tolerant.Methods.{method_rules}

module _ {P : Preorder World} (T : Tolerant P) where
  pub reject-Moves : (t : String) (b : Bool) → Moves P (reject t b)
  unfolding reject
  reject-Moves t b = search method_rules depth 40

module _ {P : Preorder World} (T : Tolerant P)
    (latches : (b : Bool) → Moves P (Settings.set_estop b)) where
  pub release_estop-Moves : Moves P release_estop
  unfolding release_estop
  release_estop-Moves = search method_rules depth 40

  pub judge_exchange-Moves : (x : Exchange) → Moves P (judge_exchange x)
  unfolding judge_exchange
  judge_exchange-Moves x = search (method_rules, reject-Moves, release_estop-Moves) depth 40

  pub query_all-Moves : (env : Env) → Moves P (query_all env)
  unfolding query_all
  query_all-Moves env = search method_rules depth 40

  pub clear_by_exchange-Moves : (env : Env) → Moves P (clear_by_exchange env)
  unfolding clear_by_exchange
  clear_by_exchange-Moves env =
      search (method_rules, reject-Moves, judge_exchange-Moves, query_all-Moves) depth 40

  pub clear_estop-Moves : (env : Env) → Moves P (clear_estop env)
  unfolding clear_estop
  clear_estop-Moves env = search (method_rules, reject-Moves, clear_by_exchange-Moves) depth 40

-- ===== src/Controllers/Estop.antt =====
-- trading_controller.py: `clear_estop`, the query-only release of the emergency stop.
pub mod Released
use newhbot.Base.{String, append, Bool, true, false, not, ◌||◌, if◌then◌else◌, some, List, [], ◌∷◌}
use newhbot.Enums.{SystemState, is_flat, is_unknown, is_stopped, is_recovery, state_value}
use newhbot.Action.{Action, pure, ◌>>=◌, ◌>>◌, try_except, when}
use newhbot.Protocol.{PositionView, OrderView}
use newhbot.Models.{text, flag}
use newhbot.World.{World, Env, Call, ask, commit}
use newhbot.Recovery.{set_state, enter_recovery}
use newhbot.Repositories.Settings
use newhbot.Repositories.Orders
use newhbot.Repositories.Journal
use newhbot.Controllers.Mirror.{Reply, no_reply, emit}
use newhbot.Controllers.Reconcile.{is_empty}
use newhbot.Controllers.Open.{has_foreign}

-- The inner function `reject`, with its keyword argument `recovery`.
unfoldable pub reject : String → Bool → Action World Reply
reject reason recovery = do
  when recovery (do enter_recovery (append "clear_estop:" reason); pure tt)
  fresh ← Settings.get
  Journal.add_audit "clear_estop_rejected" (record { key = "reason"; value = text reason } ∷ [])
      "user"
  commit
  emit "estop" (
      record { key = "estop"; value = flag true }
      ∷ record { key = "cleared"; value = flag false }
      ∷ record { key = "reason"; value = text reason }
      ∷ [])
  pure (record no_reply {
    ok = some false;
    reason = some reason;
    estop = some true;
    state = some fresh.system_state;
  })

-- Every check has passed: the latch is released, and trading stays off.
unfoldable pub release_estop : Action World Reply
release_estop = do
  Settings.set_estop false
  Settings.set_trading_enabled false
  settings ← Settings.get
  when (not (is_stopped settings.system_state || is_recovery settings.system_state))
      (do set_state SystemState.stopped "clear_estop"; pure tt)
  current ← Settings.get
  Journal.add_audit "clear_estop"
      (record { key = "state"; value = text (state_value current.system_state) }
        ∷ record { key = "trading_enabled"; value = flag false }
        ∷ [])
      "user"
  commit
  emit "estop" (
      record { key = "estop"; value = flag false }
      ∷ record { key = "cleared"; value = flag true }
      ∷ record { key = "trading_enabled"; value = flag false }
      ∷ record { key = "state"; value = text (state_value current.system_state) }
      ∷ [])
  pure (record no_reply {
    ok = some true;
    estop = some false;
    state = some current.system_state;
    reason = some "estop_cleared_still_stopped";
  })

-- The exchange's answers to the three queries.
pub record Exchange : Type 0 where
  pub position : PositionView
  pub positions : List PositionView
  pub open_orders : List OrderView

unfoldable pub judge_exchange : Exchange → Action World Reply
judge_exchange x = do
  settings ← Settings.get
  if is_unknown x.position.side
      then reject "position side is UNKNOWN" true
      else if not (is_flat x.position.side)
      then reject "position is not FLAT" false
      else if has_foreign settings.trading_pair x.positions
      then reject "foreign position present" false
      else if not (is_empty x.open_orders)
      then reject "open orders present" false
      else release_estop

module _ (env : Env) where
  unfoldable pub query_all : Action World Exchange
  query_all = do
    settings ← Settings.get
    position ←
        ask (Call.get_position settings.trading_pair)
          (λ h. env.get_position h settings.trading_pair)
    positions ← ask Call.get_positions env.get_positions
    open_orders ← ask Call.get_open_orders env.get_open_orders
    pure (record { position = position; positions = positions; open_orders = open_orders })

  -- The local checks have passed: ask the worker.
  unfoldable pub clear_by_exchange : Action World Reply
  clear_by_exchange =
      try_except (ask Call.health env.health)
        (λ exc. reject (append "worker health query failed: " exc.type_name) true)
        (λ connected.
          if not connected
          then reject "execution worker unreachable" true
          else try_except query_all
              (λ exc. reject (append "exchange query failed: " exc.type_name) true) judge_exchange)

  unfoldable pub clear_estop : Action World Reply
  clear_estop = do
    settings ← Settings.get
    unresolved ← Orders.has_unresolved
    open_orders ← Orders.list_open
    if not settings.estop
        then reject "emergency stop is not latched" false
        else if unresolved
        then reject "unresolved or UNKNOWN orders present" false
        else if not (is_empty open_orders)
        then reject "open orders present" false
        else clear_by_exchange

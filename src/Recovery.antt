-- ===== src/Recovery.antt =====
-- backend/app/recovery/manager.py: the system's state and the decision at boot.
pub mod Decision
use newhbot.Base.{String, append, if◌then◌else◌, [], ◌∷◌}
use newhbot.Enums.{SystemState, is_recovery, state_value}
use newhbot.Action.{Action, pure, ◌>>=◌, ◌>>◌, try_except}
use newhbot.Models.{text}
use newhbot.World.{World, Env, Call, ask, commit, publish}
use newhbot.Repositories.Settings
use newhbot.Repositories.Orders
use newhbot.Repositories.Journal

unfoldable pub set_state : SystemState → String → Action World SystemState
set_state state reason = do
  settings ← Settings.get
  Settings.set_system_state state
  event_id ← Journal.add_event "system_status" (
      record { key = "from"; value = text (state_value settings.system_state) }
      ∷ record { key = "to"; value = text (state_value state) }
      ∷ record { key = "reason"; value = text reason }
      ∷ [])
  commit
  publish "system_status"
      (record { key = "state"; value = text (state_value state) }
        ∷ record { key = "reason"; value = text reason }
        ∷ [])
      event_id
  pure state

unfoldable pub enter_recovery : String → Action World SystemState
enter_recovery reason = set_state SystemState.recovery reason

module _ (env : Env) where
  unfoldable pub bootstrap : Action World SystemState
  bootstrap = do
    settings ← Settings.get
    unresolved ← Orders.has_unresolved
    if unresolved
        then set_state SystemState.recovery "unresolved_orders_on_boot"
        else if settings.estop
        then set_state SystemState.stopped "estop_latched"
        else if is_recovery settings.system_state
        then set_state SystemState.recovery "recovery_persisted"
        else try_except (ask Call.health env.health)
            (λ exc.
              set_state SystemState.recovery (append "worker_health_query_failed:" exc.type_name))
            (λ connected.
              if connected
              then if settings.trading_enabled
                then set_state SystemState.running "persisted_running"
                else set_state SystemState.stopped "bootstrap"
              else set_state SystemState.recovery "worker_unreachable")

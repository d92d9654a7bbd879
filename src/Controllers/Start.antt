-- ===== src/Controllers/Start.antt =====
-- trading_controller.py: `start`.
pub mod Enabled
use newhbot.Base.{String, append, Bool, true, not, ◌||◌, if◌then◌else◌, Option, none, some, [], ◌∷◌}
use newhbot.Enums.{SystemState, PositionSide, is_flat, is_unknown}
use newhbot.Action.{Action, pure, ◌>>=◌, ◌>>◌, try_except, on_option, when}
use newhbot.Models.{Position, Json, null, text, flag}
use newhbot.World.{World, Env, Call, ask, commit}
use newhbot.Recovery.{set_state, enter_recovery}
use newhbot.Repositories.Settings
use newhbot.Repositories.Orders
use newhbot.Repositories.Positions
use newhbot.Repositories.Journal
use newhbot.Controllers.Mirror.{Reply, no_reply, not_ok, emit, sync_exchange_mirror}
use newhbot.Controllers.Reconcile.{reconcile_after_restart, is_empty}
use newhbot.Controllers.Cancel.{terminalize_stale_openings_after_flat}
use newhbot.Controllers.Open.{has_foreign}

-- Go to RECOVERY with a reason, and reply with another.
unfoldable pub start_failed : String → String → Action World Reply
start_failed recovery_reason reason = do enter_recovery recovery_reason; pure (not_ok reason)

abbrev text_json : Option String → Json
text_json none = null
text_json (some t) = text t

-- The local mirror's row is there, and its side is known.
abbrev pub mirror_side : Option Position → PositionSide
mirror_side none = PositionSide.unknown
mirror_side (some row) = row.side

-- Every preflight has succeeded: the trading switch goes on.
unfoldable pub start_running : Action World Reply
start_running = do
  Settings.set_trading_enabled true
  set_state SystemState.running "user_start"
  Journal.add_audit "start" [] "user"
  commit
  settings ← Settings.get
  emit "strategy_status" (
      record { key = "active_strategy"; value = text_json settings.active_strategy }
      ∷ record {
        key = "active_strategy_version";
        value = text_json settings.active_strategy_version;
      }
      ∷ record { key = "trading_enabled"; value = flag true }
      ∷ [])
  pure (record no_reply { ok = some true; state = some SystemState.running })

-- The exchange has no foreign position and no open order.
unfoldable pub start_clean : PositionSide → Action World Reply
start_clean side = do
  settings ← Settings.get
  when (is_flat side) (do terminalize_stale_openings_after_flat settings.trading_pair; pure tt)
  unresolved ← Orders.has_unresolved
  if unresolved
      then start_failed "unresolved_orders" "unresolved orders present; new opens forbidden"
      else start_running

module _ (env : Env) where
  -- The open orders of the exchange, once its positions are known.
  unfoldable pub start_open_orders : PositionSide → Action World Reply
  start_open_orders side =
      try_except (ask Call.get_open_orders env.get_open_orders)
        (λ exc.
          start_failed (append "exchange_open_orders_query_failed:" exc.type_name)
            "exchange open orders query failed")
        (λ open_orders.
          if not (is_empty open_orders)
          then start_failed "exchange_open_orders_present"
              "exchange open orders present; recovery required"
          else start_clean side)

  unfoldable pub start_positions : PositionSide → Action World Reply
  start_positions side = do
    settings ← Settings.get
    try_except (ask Call.get_positions env.get_positions)
        (λ exc.
          start_failed (append "exchange_positions_query_failed:" exc.type_name)
            "exchange positions query failed")
        (λ positions.
          if has_foreign settings.trading_pair positions
          then start_failed "foreign_position_present"
              "foreign exchange position present; recovery required"
          else start_open_orders side)

  -- The worker is READY: read the exchange's mirror.
  unfoldable pub start_sync : Action World Reply
  start_sync = do
    set_state SystemState.syncing "user_start"
    settings ← Settings.get
    synced ← sync_exchange_mirror env settings.trading_pair
    mirror ← Positions.get_or_none settings.trading_pair
    if not synced || is_unknown (mirror_side mirror)
        then start_failed "exchange_mirror_unavailable" "exchange position query failed"
        else start_positions (mirror_side mirror)

  -- connect, configure where the client has it, and ask whether the worker is READY.
  unfoldable pub connect_worker : Action World Bool
  connect_worker = do
    ask Call.connect env.connect
    settings ← Settings.get
    on_option env.configure (pure tt) (λ configure.
        ask (Call.configure settings.trading_pair settings.slippage settings.leverage) configure)
    ask Call.is_ready env.is_ready

  unfoldable pub start_connected : Action World Reply
  start_connected =
      try_except connect_worker
        (λ exc.
          start_failed (append "worker_start_failed:" exc.type_name)
            "execution worker startup failed; recovery required")
        (λ ready.
          if not ready
          then start_failed "worker_not_ready" "execution worker not READY"
          else start_sync)

  -- No order is unresolved: STARTING, and the worker's health.
  unfoldable pub start_resolved : Action World Reply
  start_resolved = do
    set_state SystemState.starting "user_start"
    try_except (ask Call.health env.health)
        (λ exc.
          start_failed (append "worker_health_query_failed:" exc.type_name)
            "execution worker health query failed; recovery required")
        (λ connected.
          if not connected
          then start_failed "worker_unreachable" "execution worker unreachable; recovery required"
          else start_connected)

  unfoldable pub start : Action World Reply
  start = do
    settings ← Settings.get
    if settings.estop
        then pure (not_ok "emergency stop is latched; clear estop before start")
        else do
          reconcile_after_restart env
          unresolved ← Orders.has_unresolved
          if unresolved
              then start_failed "unresolved_orders" "unresolved orders present; new opens forbidden"
              else start_resolved

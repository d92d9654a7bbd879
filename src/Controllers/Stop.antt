-- ===== src/Controllers/Stop.antt =====
-- trading_controller.py: `stop`, `close_and_stop`, `close_and_continue`, `emergency_stop`.
use newhbot.Base.{String, Bool, true, false, not, if◌then◌else◌, Option, none, some, [], ◌∷◌}
use newhbot.Enums.{SystemState, OrderStatus, status_value}
use newhbot.Action.{Action, pure, ◌>>=◌, ◌>>◌}
use newhbot.Models.{Payload, Json, null, text, flag}
use newhbot.World.{World, Env, commit}
use newhbot.Recovery.{set_state, enter_recovery}
use newhbot.Repositories.Settings
use newhbot.Repositories.Journal
use newhbot.Controllers.Mirror.{Reply, no_reply, not_ok}
use newhbot.Controllers.Cancel.{cancel_opening_orders, cancel_all_orders}
use newhbot.Controllers.Close.{close_position}

abbrev flag_json : Option Bool → Json
flag_json none = null
flag_json (some b) = flag b

abbrev text_json : Option String → Json
text_json none = null
text_json (some t) = text t

abbrev status_json : Option OrderStatus → Json
status_json none = null
status_json (some x) = text (status_value x)

-- The close result in the audit row; a key that the result lacks is null here.
abbrev reply_payload : Reply → Payload
reply_payload reply =
    record { key = "ok"; value = flag_json reply.ok }
    ∷ record { key = "reason"; value = text_json reply.reason }
    ∷ record { key = "cloid"; value = text_json reply.cloid }
    ∷ record { key = "status"; value = status_json reply.status }
    ∷ []

module _ (env : Env) where
  unfoldable pub stop : Action World Reply
  stop = do
    Settings.set_trading_enabled false
    canceled ← cancel_opening_orders env
    if not canceled
        then (do
          enter_recovery "stop_cancel_unconfirmed"
          commit
          pure (not_ok "open order cancellation unconfirmed; recovery required"))
        else do
          set_state SystemState.stopped "user_stop"
          Journal.add_audit "stop" [] "user"
          commit
          pure (record no_reply { ok = some true; state = some SystemState.stopped })

  unfoldable pub close_and_stop : Action World Reply
  close_and_stop = do
    Journal.add_audit "close_and_stop" [] "user"
    close_position env (record { signal_id = none; stop_after = true; emergency = false })

  unfoldable pub close_and_continue : Action World Reply
  close_and_continue = do
    Journal.add_audit "close_and_continue" [] "user"
    close_position env (record { signal_id = none; stop_after = false; emergency = false })

  unfoldable pub emergency_close : Bool → Action World Reply
  emergency_close canceled =
      if not canceled
      then (do
        enter_recovery "emergency_cancel_unconfirmed"
        pure (not_ok "order cancellation unconfirmed; recovery required"))
      else close_position env (record { signal_id = none; stop_after = true; emergency = true })

  unfoldable pub emergency_stop : Action World Reply
  emergency_stop = do
    Settings.set_estop true
    Settings.set_trading_enabled false
    canceled ← cancel_all_orders env
    close_result ← emergency_close canceled
    Journal.add_audit "emergency_stop" (reply_payload close_result) "user"
    commit
    pure close_result

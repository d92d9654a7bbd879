-- ===== src/Controllers/Close.antt =====
-- trading_controller.py: `_close_position`.
use newhbot.Base.{String, append, str_eq, Bool, true, false, not, if◌then◌else◌, Option, none, some}
use newhbot.Enums.{
  PositionSide, OrderSide, SystemState, is_flat, is_unknown, is_unknown_status, is_rejected,
  side_value,
}
use newhbot.Action.{Action, pure, ◌>>=◌, ◌>>◌, try_except, on_option, when}
use newhbot.Protocol.{PositionView}
use newhbot.Models.{Order}
use newhbot.World.{World, Env, Call, ask, commit}
use newhbot.Recovery.{set_state, enter_recovery}
use newhbot.Repositories.Settings
use newhbot.Repositories.Reservation
use newhbot.Repositories.Journal
use newhbot.Controllers.Mirror.{Reply, no_reply, not_ok, sync_exchange_mirror}
use newhbot.Controllers.Cancel.{cancel_opening_orders, terminalize_stale_openings_after_flat}
use newhbot.Controllers.Submit.{submit}

-- The signal's row, for a close that a signal asked for; and the two keyword arguments.
pub record CloseRequest : Type 0 where
  pub signal_id : Option String
  pub stop_after : Bool
  pub emergency : Bool

-- if record: record.accepted = …; record.reason = …
unfoldable pub answer_if : Option String → Bool → String → Action World Unit
answer_if signal_id accepted reason =
    on_option signal_id (pure tt) (λ id. Journal.answer_signal id accepted reason)

-- The side that closes a position.
abbrev pub close_side : PositionSide → OrderSide
close_side PositionSide.long = OrderSide.sell
close_side _ = OrderSide.buy

-- message or default
abbrev pub text_or : Option String → String → String
text_or none default = default
text_or (some message) default = if str_eq message "" then default else message

abbrev pub confirmation_required : Order → Reply
confirmation_required order = record (not_ok "close confirmation required") {
  cloid = some order.cloid;
}

-- Go to RECOVERY, commit, and ask for a confirmation of the close.
unfoldable pub unconfirmed : Order → String → Action World Reply
unconfirmed order reason = do enter_recovery reason; commit; pure (confirmation_required order)

-- The position was FLAT already.
unfoldable pub close_already_flat : CloseRequest → Action World Reply
close_already_flat request = do
  Settings.set_close_intent none
  Reservation.release none
  when request.stop_after (do
    Settings.set_trading_enabled false
    set_state SystemState.stopped "close_already_flat"
    pure tt)
  answer_if request.signal_id true "already_flat"
  commit
  pure (record no_reply { ok = some true; reason = some "already_flat" })

-- The exchange shows FLAT after the closing order.
unfoldable pub close_confirmed : CloseRequest → Order → Action World Reply
close_confirmed request order = do
  settings ← Settings.get
  terminalize_stale_openings_after_flat settings.trading_pair
  Settings.set_close_intent none
  Reservation.release none
  when request.stop_after (do
    Settings.set_trading_enabled false
    set_state SystemState.stopped
        (if not request.emergency then "close_and_stop" else "emergency_stop")
    pure tt)
  answer_if request.signal_id true "closed"
  commit
  pure (record no_reply { ok = some true; cloid = some order.cloid; status = some order.status })

-- The reason is written for a signal's row, and committed only for it.
unfoldable pub close_refused : CloseRequest → String → Action World Reply
close_refused request reason = do
  answer_if request.signal_id false reason
  on_option request.signal_id (pure tt) (λ _. commit)
  pure (not_ok reason)

module _ (env : Env) where
  unfoldable pub live_position : Action World PositionView
  live_position = do
    settings ← Settings.get
    ask (Call.get_position settings.trading_pair) (λ h. env.get_position h settings.trading_pair)

  -- The closing order is neither UNKNOWN nor REJECTED: look at the position again.
  unfoldable pub confirm_close : CloseRequest → Order → Action World Reply
  confirm_close request order = do
    settings ← Settings.get
    synced ← sync_exchange_mirror env settings.trading_pair
    if not synced
        then unconfirmed order "post_order_sync_failed"
        else try_except live_position
            (λ exc. unconfirmed order (append "close_confirmation_query_failed:" exc.type_name))
            (λ live.
              if is_unknown live.side
              then unconfirmed order "close_confirmation_position_unknown"
              else if not (is_flat live.side)
              then unconfirmed order (append "close_confirmation_not_flat:" (side_value live.side))
              else close_confirmed request order)

  -- The closing order was submitted.
  unfoldable pub after_close_order : CloseRequest → Order → Action World Reply
  after_close_order request order =
      if is_unknown_status order.status
      then (do
        enter_recovery "unknown_close"
        pure (record (not_ok "close order UNKNOWN") { cloid = some order.cloid }))
      else if is_rejected order.status
      then (do
        Settings.set_close_intent none
        enter_recovery (
            append "close_rejected:"
              (text_or order.error_message "execution worker rejected order"))
        commit
        pure (record (not_ok (text_or order.error_message "close order rejected")) {
          cloid = some order.cloid;
        }))
      else confirm_close request order

  -- There is a position: cancel the opening orders, and submit the closing order.
  unfoldable pub close_live : CloseRequest → PositionView → Action World Reply
  close_live request exchange = do
    canceled ← cancel_opening_orders env
    if not canceled
        then (do
          enter_recovery "close_cancel_unconfirmed"
          commit
          pure (not_ok "open order cancellation unconfirmed; recovery required"))
        else do
          settings ← Settings.get
          order ← submit env (record {
            symbol = settings.trading_pair;
            side = close_side exchange.side;
            quantity = exchange.size;
            reduce_only = true;
            signal_id = request.signal_id;
            order_id = none;
          })
          after_close_order request order

  unfoldable pub close_queried : CloseRequest → PositionView → Action World Reply
  close_queried request exchange =
      if is_unknown exchange.side
      then (do
        enter_recovery "close_position_unknown"
        close_refused request "exchange position unknown; recovery required")
      else if is_flat exchange.side
      then close_already_flat request
      else close_live request exchange

  unfoldable pub close_position : CloseRequest → Action World Reply
  close_position request = do
    Settings.set_close_intent (some "in_progress")
    commit
    try_except live_position
        (λ exc. do
          enter_recovery (append "close_query_failed:" exc.message)
          close_refused request "exchange query failed")
        (close_queried request)

-- ===== src/Controllers/Signal.antt =====
-- trading_controller.py: `handle_signal`.
use newhbot.Base.{
  String, str_eq, Bool, true, false, ◌&&◌, if◌then◌else◌, Option, none, some, [], ◌∷◌,
}
use newhbot.Enums.{SignalType, is_recovery, side_value, signal_value}
use newhbot.Action.{Action, pure, ◌>>=◌, ◌>>◌}
use newhbot.Models.{Payload, text, flag}
use newhbot.World.{World, Env, commit, new_id}
use newhbot.Repositories.Settings
use newhbot.Repositories.Journal
use newhbot.Controllers.Guard.{reverse_is_forbidden}
use newhbot.Controllers.Mirror.{Reply, no_reply, local_side, emit}
use newhbot.Controllers.Open.{refuse, open_position}
use newhbot.Controllers.Close.{close_position}

abbrev pub is_opening : SignalType → Bool
is_opening SignalType.long = true
is_opening SignalType.short = true
is_opening _ = false

abbrev pub is_close : SignalType → Bool
is_close SignalType.close = true
is_close _ = false

abbrev pub is_hold : SignalType → Bool
is_hold SignalType.hold = true
is_hold _ = false

-- settings.close_intent == "in_progress"
abbrev pub is_in_progress : Option String → Bool
is_in_progress none = false
is_in_progress (some t) = str_eq t "in_progress"

-- The signal is refused, and an audit row says why it was ignored.
unfoldable pub ignore : String → String → String → Payload → String → Action World Reply
ignore signal_id reason action details actor = do
  reply ← refuse signal_id reason
  Journal.add_audit action details actor
  commit
  pure reply

unfoldable pub hold : String → Action World Reply
hold signal_id = do
  Journal.answer_signal signal_id true "hold"
  commit
  emit "signal" (
      record { key = "signal"; value = text "HOLD" }
      ∷ record { key = "accepted"; value = flag true }
      ∷ [])
  pure (record no_reply { accepted = some true; reason = some "hold"; signal_id = some signal_id })

abbrev signal_details : SignalType → Payload
signal_details signal = record { key = "signal"; value = text (signal_value signal) } ∷ []

module _ (env : Env) (signal : SignalType) (actor : String) where
  -- The signal's row is added, not accepted yet.
  unfoldable pub record_signal : Action World String
  record_signal = do
    settings ← Settings.get
    id ← new_id env
    Journal.add_signal (record {
      id = id;
      strategy_version = settings.active_strategy_version;
      signal = signal;
      accepted = false;
      reason = none;
    })
    commit
    pure id

  -- The local mirror's side is known: refuse a reversal, open, or close.
  unfoldable pub act_on_signal : String → Action World Reply
  act_on_signal signal_id = do
    settings ← Settings.get
    local ← local_side settings.trading_pair
    if is_opening signal && reverse_is_forbidden local signal
        then ignore signal_id "automatic reverse is forbidden" "ignored_reverse"
            (record { key = "signal"; value = text (signal_value signal) }
              ∷ record { key = "local"; value = text (side_value local) }
              ∷ [])
            actor
        else if is_opening signal
        then open_position env signal signal_id
        else close_position env
            (record { signal_id = some signal_id; stop_after = false; emergency = false })

  unfoldable pub handle_signal : Action World Reply
  handle_signal = do
    signal_id ← record_signal
    settings ← Settings.get
    if is_hold signal
        then hold signal_id
        else if is_close signal && is_recovery settings.system_state
        then ignore signal_id "recovery forbids strategy close; explicit close required"
            "ignored_strategy_close_in_recovery" (signal_details signal) actor
        else if is_in_progress settings.close_intent
        then ignore signal_id "close in progress" "ignored_during_close" (signal_details signal)
            actor
        else act_on_signal signal_id

-- ===== src/Safety/Tolerant/Trading.antt =====
-- Opening and closing, for a preorder that `_submit` follows too.
use newhbot.Base.{◌≡◌, true, refl, String, Bool, Option}
use newhbot.Decimal.{Decimal}
use newhbot.Enums.{SignalType}
use newhbot.Action.Moves.{Preorder, Moves}
use newhbot.World.{World, Env}
use newhbot.Models.{Order, Payload}
use newhbot.Protocol.{PositionView}
use newhbot.Controllers.Open.{
  Shown, refuse, refuse_in_recovery, size_from_settings, query_status, open_reserved, open_allowed,
  open_guarded, query_exchange, open_reachable, open_position,
}
use newhbot.Controllers.Close.{
  CloseRequest, answer_if, unconfirmed, close_already_flat, close_confirmed, close_refused,
  live_position, confirm_close, after_close_order, close_live, close_queried, close_position,
}
use newhbot.Controllers.Signal.{ignore, hold, record_signal, act_on_signal, handle_signal}
use newhbot.Controllers.Stop.{close_and_stop, close_and_continue}
use newhbot.Controllers.Submit.{Intent, submit}
use newhbot.Safety.Tolerant.{Tolerant}
use newhbot.Safety.Tolerant.Methods.{method_rules}

module _ {P : Preorder World} (T : Tolerant P) where
  pub refuse-Moves : (t u : String) → Moves P (refuse t u)
  unfolding refuse
  refuse-Moves t u = search (method_rules) depth 40

  pub refuse_in_recovery-Moves : (t u v : String) → Moves P (refuse_in_recovery t u v)
  unfolding refuse_in_recovery
  refuse_in_recovery-Moves t u v = search (method_rules, refuse-Moves) depth 40

  pub answer_if-Moves : (t : Option String) (b : Bool) (u : String) → Moves P (answer_if t b u)
  unfolding answer_if
  answer_if-Moves t b u = search (method_rules) depth 40

  pub unconfirmed-Moves : (o : Order) (t : String) → Moves P (unconfirmed o t)
  unfolding unconfirmed
  unconfirmed-Moves o t = search (method_rules) depth 40

  pub close_already_flat-Moves : (r : CloseRequest) → Moves P (close_already_flat r)
  unfolding close_already_flat
  close_already_flat-Moves r = search (method_rules, answer_if-Moves) depth 40

  pub close_confirmed-Moves : (r : CloseRequest) (o : Order) → Moves P (close_confirmed r o)
  unfolding close_confirmed
  close_confirmed-Moves r o = search (method_rules, answer_if-Moves) depth 40

  pub close_refused-Moves : (r : CloseRequest) (t : String) → Moves P (close_refused r t)
  unfolding close_refused
  close_refused-Moves r t = search (method_rules, answer_if-Moves) depth 40

  pub ignore-Moves : (t u v : String) (p : Payload) (w : String) → Moves P (ignore t u v p w)
  unfolding ignore
  ignore-Moves t u v p w = search (method_rules, refuse-Moves) depth 40

  pub hold-Moves : (t : String) → Moves P (hold t)
  unfolding hold
  hold-Moves t = search (method_rules) depth 40

pub ruleset reply_rules = (
  method_rules, refuse-Moves, refuse_in_recovery-Moves, answer_if-Moves, unconfirmed-Moves,
  close_already_flat-Moves, close_confirmed-Moves, close_refused-Moves, ignore-Moves, hold-Moves,
)

module _ {P : Preorder World} (T : Tolerant P) (env : Env) where
  pub size_from_settings-Moves : Moves P (size_from_settings env)
  unfolding size_from_settings
  size_from_settings-Moves = search (reply_rules) depth 40

  pub query_status-Moves : Moves P (query_status env)
  unfolding query_status
  query_status-Moves = search (reply_rules) depth 40

  pub query_exchange-Moves :
      (signal : SignalType) (id : String) → Moves P (query_exchange env signal id)
  unfolding query_exchange
  query_exchange-Moves signal id = search (reply_rules) depth 40

  pub live_position-Moves : Moves P (live_position env)
  unfolding live_position
  live_position-Moves = search (reply_rules) depth 40

  pub confirm_close-Moves : (r : CloseRequest) (o : Order) → Moves P (confirm_close env r o)
  unfolding confirm_close
  confirm_close-Moves r o = search (reply_rules, live_position-Moves) depth 40

  pub after_close_order-Moves : (r : CloseRequest) (o : Order) → Moves P (after_close_order env r o)
  unfolding after_close_order
  after_close_order-Moves r o = search (reply_rules, confirm_close-Moves) depth 40

  pub record_signal-Moves : (x : SignalType) (a : String) → Moves P (record_signal env x a)
  unfolding record_signal
  record_signal-Moves x a = search (reply_rules) depth 40

-- The opening path up to `_submit`.
module _ {P : Preorder World} (T : Tolerant P) (env : Env)
    (submits : (i : Intent) → Moves P (submit env i)) where
  pub open_reserved-Moves :
      (signal : SignalType) (id : String) (d : Decimal) → Moves P (open_reserved env signal id d)
  unfolding open_reserved
  open_reserved-Moves signal id d = search (reply_rules) depth 40

  pub open_allowed-Moves :
      (signal : SignalType) (id : String) → Moves P (open_allowed env signal id)
  unfolding open_allowed
  open_allowed-Moves signal id =
      search (reply_rules, size_from_settings-Moves, open_reserved-Moves) depth 40

  pub open_guarded-Moves :
      (signal : SignalType) (id : String) (b : Bool) (x : Shown)
      → Moves P (open_guarded env signal id b x)
  unfolding open_guarded
  open_guarded-Moves signal id b x = search (reply_rules, open_allowed-Moves) depth 40

-- All the rest, for a preorder that the guarded opening and a reduce-only `_submit` follow.
module _ {P : Preorder World} (T : Tolerant P) (env : Env)
    (guards : (signal : SignalType) (id : String) (b : Bool) (x : Shown)
      → Moves P (open_guarded env signal id b x))
    (reduces : (i : Intent) → i.reduce_only ≡ true → Moves P (submit env i)) where
  pub open_reachable-Moves :
      (signal : SignalType) (id : String) (b : Bool) → Moves P (open_reachable env signal id b)
  unfolding open_reachable
  open_reachable-Moves signal id b = search (reply_rules, query_exchange-Moves) depth 40

  pub open_position-Moves :
      (signal : SignalType) (id : String) → Moves P (open_position env signal id)
  unfolding open_position
  open_position-Moves signal id =
      search (reply_rules, query_status-Moves, open_reachable-Moves) depth 40

  pub close_live-Moves : (r : CloseRequest) (p : PositionView) → Moves P (close_live env r p)
  unfolding close_live
  close_live-Moves r p = search (reply_rules, refl, reduces, after_close_order-Moves) depth 40

  pub close_queried-Moves : (r : CloseRequest) (p : PositionView) → Moves P (close_queried env r p)
  unfolding close_queried
  close_queried-Moves r p = search (reply_rules, close_live-Moves) depth 40

  pub close_position-Moves : (r : CloseRequest) → Moves P (close_position env r)
  unfolding close_position
  close_position-Moves r = search (reply_rules, live_position-Moves, close_queried-Moves) depth 40

  pub close_and_stop-Moves : Moves P (close_and_stop env)
  unfolding close_and_stop
  close_and_stop-Moves = search (reply_rules, close_position-Moves) depth 40

  pub close_and_continue-Moves : Moves P (close_and_continue env)
  unfolding close_and_continue
  close_and_continue-Moves = search (reply_rules, close_position-Moves) depth 40

  pub act_on_signal-Moves : (x : SignalType) (a t : String) → Moves P (act_on_signal env x a t)
  unfolding act_on_signal
  act_on_signal-Moves x a t =
      search (reply_rules, open_position-Moves, close_position-Moves) depth 40

  pub handle_signal-Moves : (x : SignalType) (a : String) → Moves P (handle_signal env x a)
  unfolding handle_signal
  handle_signal-Moves x a = search (reply_rules, record_signal-Moves, act_on_signal-Moves) depth 40

-- ===== src/Strategy/Loop.antt =====
-- backend/app/strategy/loop.py: one poll of the strategy loop, and the loop of polls. A poll is cut
-- where the signal is known: `observe` is what stands before. The subprocess that evaluates a
-- strategy is a parameter, like the worker's two queries that only the loop makes. Logging and the
-- pause between polls are left out.
pub mod Polls
pub mod Candles
use newhbot.Base.{
  ℕ, zero, suc, ◌==◌, String, append, str_eq, Bool, true, false, not, ◌&&◌, ◌||◌, find?, map,
  if◌then◌else◌, Option, none, some, List, [], ◌∷◌,
}
use newhbot.Base.Int.{ℤ, pos, eq_ℤ}
use newhbot.Decimal.{Decimal, whole, truncated}
use newhbot.Enums.{
  SignalType, SystemState, is_unknown, is_running, state_value, signal_value, side_value,
}
use newhbot.Action.{
  Exn, Result, ok, err, Action, pure, raise, gets, modify, ◌>>=◌, ◌>>◌, on_option, try_except,
}
use newhbot.Protocol.{PositionView}
use newhbot.Models.{SettingsRow, StrategyVersion, StrategyParameter, text, flag, integer}
use newhbot.World.{World, Env, Call, History, ask, commit}
use newhbot.Recovery.{enter_recovery}
use newhbot.Repositories.Settings
use newhbot.Repositories.Strategies
use newhbot.Repositories.Journal
use newhbot.Controllers.Mirror.{Reply}
use newhbot.Controllers.Signal.{handle_signal}
use newhbot.Worker.Raw.{
  Json, number, Fields, get, get_or, truthy, str_of, lift, parse_decimal, python_error,
}
use newhbot.Worker.Raw

pub record Setting : Type 0 where
  pub name : String
  pub value : String

-- What a strategy is shown.
pub record StrategyInput : Type 0 where
  pub symbol : String
  pub interval : String
  pub bars : List Fields
  pub position_side : String
  pub entry_price : Option Decimal
  pub parameters : List Setting

pub record LoopEnv : Type 0 where
  pub env : Env
  pub worker_status : History → Result Fields
  pub get_candles : History → String → String → ℕ → Result (List Fields)
  -- The signal's word, by the path of the strategy.
  pub evaluate : History → String → StrategyInput → Result String

pub record StrategyLoop : Type 0 where
  pub world : World
  pub last_error : Option String
  pub last_candle_timestamp : Option ℤ
  pub await_new_candle : Bool

-- How a poll goes on: it returns, or a signal is to be handled.
pub record Decision : Type 0 where
  pub version : StrategyVersion
  pub timestamp : ℤ
  pub signal : SignalType

pub data Step : Type 0 where
  return : Bool → Step
  go : Decision → Step

unfoldable pub on_world : {A : Type 0} → Action World A → Action StrategyLoop A
on_world m s = let (result, world) = m s.world in (result, record s { world = world })

-- A new session reads what is committed.
unfoldable pub new_session : Action StrategyLoop Unit
new_session = modify (λ s. record s { world = record s.world { db = s.world.committed } })

unfoldable pub stop_in_recovery : String → Action StrategyLoop Step
stop_in_recovery reason = do
  modify (λ s. record s { last_error = some reason })
  on_world (enter_recovery reason)
  pure (Step.return false)

-- name == settings.active_strategy
abbrev is_active : Option String → String → Bool
is_active none name = false
is_active (some t) name = str_eq name t

abbrev or_5m : Option String → String
or_5m none = "5m"
or_5m (some t) = t

-- bool(worker.get("ready")) and worker.get("worker_state") == "READY"
unfoldable pub is_ready : Fields → Bool
unfolding get
is_ready worker = truthy (get "ready" worker) && (elim (get "worker_state" worker) as (λ _. Bool) [
  | Json.text t ↦ str_eq t "READY"
  | _ ↦ false
])

-- int(v)
unfoldable pub int_of : Json → Result ℤ
unfolding truncated
int_of (Json.number d) = ok (truncated d)
int_of (Json.flag true) = ok (pos 1)
int_of (Json.flag false) = ok (pos 0)
int_of (Json.text t) = elim (parse_decimal t) [
  | none ↦ err (python_error "ValueError")
  | some d ↦ if d.places == 0 then ok (truncated d) else err (python_error "ValueError")
]
int_of _ = err (python_error "TypeError")

abbrev is_zero : ℤ → Bool
is_zero n = eq_ℤ n (pos 0)

-- timestamp or None
abbrev pub or_none : ℤ → Option ℤ
or_none n = if is_zero n then none else some n

-- timestamp and timestamp == self.last_candle_timestamp
abbrev pub is_same_candle : ℤ → Option ℤ → Bool
is_same_candle n none = false
is_same_candle n (some last) = not (is_zero n) && eq_ℤ n last

-- bars[-1]
abbrev last_bar : List Fields → Option Fields
last_bar [] = none
last_bar (b ∷ []) = some b
last_bar (b ∷ c ∷ bars) = last_bar (c ∷ bars)

-- SignalType(word)
unfoldable pub signal_of : String → Result SignalType
signal_of word =
    if str_eq word "LONG"
    then ok SignalType.long
    else if str_eq word "SHORT"
    then ok SignalType.short
    else if str_eq word "CLOSE"
    then ok SignalType.close
    else if str_eq word "HOLD"
    then ok SignalType.hold
    else err (python_error "ValueError")

abbrev setting : StrategyParameter → Setting
setting p = record { name = p.name; value = Strategies.effective_parameter_value p }

module _ (loop : LoopEnv) where
  unfoldable pub observe_signal :
      SettingsRow → StrategyVersion → List Fields → ℤ → PositionView → Action StrategyLoop Step
  observe_signal settings version bars timestamp position = do
    params ← on_world (Strategies.parameters_for version.id)
    sent ← gets (λ s. s.world.sent)
    let input : StrategyInput = record {
      symbol = settings.trading_pair;
      interval = or_5m version.interval;
      bars = bars;
      position_side = side_value position.side;
      entry_price = position.entry_price;
      parameters = map setting params;
    }
    try_except (lift (Raw.◌>>=◌ (loop.evaluate sent version.path input) signal_of))
        (λ e. stop_in_recovery (append "strategy_evaluation_failed:" e.type_name))
        (λ signal.
          pure (Step.go (record { version = version; timestamp = timestamp; signal = signal })))

  unfoldable pub observe_position :
      SettingsRow → StrategyVersion → List Fields → ℤ → Action StrategyLoop Step
  observe_position settings version bars timestamp =
      try_except
        (on_world (
          ask (Call.get_position settings.trading_pair)
            (λ h. loop.env.get_position h settings.trading_pair)))
        (λ e. stop_in_recovery (append "position_query_failed:" e.type_name))
        (λ position.
          if is_unknown position.side
          then stop_in_recovery "position_unknown"
          else observe_signal settings version bars timestamp position)

  abbrev pub warm_up : ℤ → Action StrategyLoop Step
  warm_up timestamp = do
    modify (λ s. record s { last_candle_timestamp = or_none timestamp; await_new_candle = false })
    pure (Step.return true)

  -- The last bar is judged by its time: the first one after a start, and one seen before, are passed
  -- over.
  unfoldable pub observe_bar :
      SettingsRow → StrategyVersion → List Fields → Fields → Action StrategyLoop Step
  observe_bar settings version bars bar = do
    timestamp ← lift (int_of (get_or "timestamp" (get_or "t" (number (whole 0)) bar) bar))
    s ← gets (λ s. s)
    if s.await_new_candle
        then warm_up timestamp
        else if is_same_candle timestamp s.last_candle_timestamp
        then pure (Step.return true)
        else do
          modify (λ s. record s { last_candle_timestamp = or_none timestamp })
          observe_position settings version bars timestamp

  unfoldable pub observe_candles : SettingsRow → StrategyVersion → Action StrategyLoop Step
  observe_candles settings version =
      try_except
        (on_world (
          ask (Call.get_candles settings.trading_pair (or_5m version.interval) 200)
            (λ h. loop.get_candles h settings.trading_pair (or_5m version.interval) 200)))
        (λ e. stop_in_recovery (append "candle_query_failed:" e.type_name))
        (λ bars.
          on_option (last_bar bars) (pure (Step.return true)) (observe_bar settings version bars))

  unfoldable pub ask_status : Action StrategyLoop Fields
  ask_status = on_world (ask Call.worker_status loop.worker_status)

  abbrev pub status_failed : Exn → Action StrategyLoop Step
  status_failed e = stop_in_recovery (append "worker_status_query_failed:" e.type_name)

  unfoldable pub observe_ready : SettingsRow → StrategyVersion → Fields → Action StrategyLoop Step
  observe_ready settings version worker =
      if not (is_ready worker)
      then stop_in_recovery (
          append "worker_not_ready:"
            (str_of (get_or "worker_state" (Json.text "NOT_READY") worker)))
      else observe_candles settings version

  -- A worker that is not ready is connected once more.
  unfoldable pub observe_worker : SettingsRow → StrategyVersion → Action StrategyLoop Step
  observe_worker settings version = try_except ask_status status_failed (λ worker.
      if not (is_ready worker)
      then try_except (on_world (ask Call.connect loop.env.connect))
          (λ e. stop_in_recovery (append "worker_recovery_attempt_failed:" e.type_name))
          (λ _. try_except ask_status status_failed (observe_ready settings version))
      else observe_ready settings version worker)

  unfoldable pub observe_version : SettingsRow → Action StrategyLoop Step
  observe_version settings = do
    versions ← on_world Strategies.list_versions
    on_option
        (find?
          (λ (v : StrategyVersion).
            is_active settings.active_strategy v.name
            && is_active settings.active_strategy_version v.version)
          versions)
        (raise
          (record { type_name = "ValueError"; message = "active strategy version is unavailable" }))
        (observe_worker settings)

  abbrev pub not_running : SystemState → Action StrategyLoop Step
  not_running state = do
    modify (λ s. record s { last_error = some (append "system_not_running:" (state_value state)) })
    pure (Step.return false)

  unfoldable pub observe : Action StrategyLoop Step
  observe = do
    settings ← on_world Settings.get
    if not settings.trading_enabled || not (is_running settings.system_state)
        then if not (is_running settings.system_state)
          then not_running settings.system_state
          else pure (Step.return true)
        else observe_version settings

  abbrev accepted_of : Reply → Bool
  accepted_of reply = elim reply.accepted as (λ _. Bool) [ none ↦ false | some b ↦ b ]

  unfoldable pub act : Decision → Action StrategyLoop Bool
  act d = do
    reply ← on_world (handle_signal loop.env d.signal "strategy_loop")
    on_world (
        Journal.add_audit "strategy_loop_tick"
          (record { key = "strategy"; value = text d.version.name }
            ∷ record { key = "version"; value = text d.version.version }
            ∷ record { key = "timestamp"; value = integer d.timestamp }
            ∷ record { key = "signal"; value = text (signal_value d.signal) }
            ∷ record { key = "accepted"; value = flag (accepted_of reply) }
            ∷ [])
          "strategy_loop")
    on_world commit
    pure true

  abbrev proceed : Step → Action StrategyLoop Bool
  proceed (Step.return b) = pure b
  proceed (Step.go d) = act d

  unfoldable pub tick : Action StrategyLoop Bool
  tick = do new_session; step ← observe; proceed step

  -- A poll that raised: a session of its own enters recovery, and the loop ends in any case.
  unfoldable pub fail : Exn → Action StrategyLoop Bool
  fail e =
      try_except (do new_session; stop_in_recovery (append "strategy_loop_failed:" e.type_name))
        (λ x. do
          modify (λ s. record s {
            last_error = some (append "strategy_loop_recovery_failed:" x.type_name);
          })
          pure false)
        (λ _. pure false)

  -- So many polls, unless one of them ends the loop: whether it still runs.
  unfoldable pub run : ℕ → Action StrategyLoop Bool
  unfolding tick fail
  run zero = pure true
  run (suc n) = try_except tick fail (λ keep_running.
      let rest = run n in
      if keep_running then modify (λ s. record s { last_error = none }) >> rest else pure false)

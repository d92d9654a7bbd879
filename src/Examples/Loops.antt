-- ===== src/Examples/Loops.antt =====
-- The strategy loop and the activation of a version, with a concrete worker.
use newhbot.Base.{◌≡◌, ◌≢◌, refl, inl, ◌+◌, ◌≤◌, true, false, none, some, [], ◌∷◌, All}
use newhbot.Base.Int.{pos}
use newhbot.Decimal.{whole}
use newhbot.Enums.{SignalType, SystemState}
use newhbot.Action.{
  ok, pure, raise, gets, modify, attempt, ◌>>=◌, on_result, on_option, try_except, when,
}
use newhbot.Models.{stored, Db, StrategyVersion, empty_db}
use newhbot.World.{World, ask, commit, publish, modify_db}
use newhbot.Repositories.Settings
use newhbot.Repositories.Strategies
use newhbot.Repositories.Orders
use newhbot.Repositories.Journal
use newhbot.Safety.Backed.{Backed}
use newhbot.Safety.Allowed.{IsAllowed}
use newhbot.Safety.Places.{places}
use newhbot.Worker.Raw.{Json, Fields, empty, field, text, number, flag}
use newhbot.Worker.Raw
use newhbot.Strategy.Loop
use newhbot.Strategy.Loop.{LoopEnv, StrategyLoop, Decision, Step, run, tick, observe}
use newhbot.Strategy.Loop.Polls.{polls_are_guarded, one_order_each_poll, halted_poll_is_silent}
use newhbot.Strategy.Loop.Candles.{each_candle_once}
use newhbot.Strategy.Service
use newhbot.Strategy.Service.{Activation, activate}
use newhbot.Strategy.Service.Activated.{IsActive, Refuses, activate-IsActive, activate-Refuses}
use newhbot.Examples.{calm_env, running_db, running}

abbrev ema5 : StrategyVersion
ema5 = record {
  id = 1;
  name = "ema5break";
  version = "1.0";
  file_hash = "abc";
  path = "versions/abc";
  interval = none;
}

abbrev traded_db : Db
traded_db = record running_db {
  settings = record running_db.settings {
    active_strategy = some "ema5break";
    active_strategy_version = some "1.0";
  };
  versions = ema5 ∷ [];
}

abbrev ready_worker : Fields
ready_worker = field "ready" (flag true) (field "worker_state" (text "READY") empty)

-- A worker with one bar, and a strategy that wants to be LONG.
abbrev eager : LoopEnv
eager = record {
  env = calm_env;
  worker_status = λ h. ok ready_worker;
  get_candles = λ h t i n. ok (field "timestamp" (number (whole 300)) empty ∷ []);
  evaluate = λ h p x. ok "LONG";
}

abbrev polling : StrategyLoop
polling = record {
  world = record running { db = traded_db; committed = traded_db };
  last_error = none;
  last_candle_timestamp = some (pos 200);
  await_new_candle = false;
}

polls_are_guarded_example : All (Backed IsAllowed) (run eager 2 polling).1.world.sent
polls_are_guarded_example = polls_are_guarded eager 2 polling tt

one_order_each_poll_example :
    places (tick eager polling).1.world.sent ≤ places polling.world.sent + 1
one_order_each_poll_example = one_order_each_poll eager polling

abbrev halted : StrategyLoop
halted = record polling { world = record running { db = traded_db; committed = empty_db } }

halted_poll_is_silent_example :
    (tick eager halted).1.world ≡ record halted.world { db = halted.world.committed }
halted_poll_is_silent_example = halted_poll_is_silent eager halted (inl refl)

abbrev wanted : Decision
wanted = record { version = ema5; timestamp = pos 300; signal = SignalType.long }

goes_on : (observe eager polling).0 ≡ ok (Step.go wanted)
unfolding observe Loop.on_world Loop.observe_version Loop.observe_worker Loop.ask_status
    Loop.is_ready Loop.observe_ready Loop.observe_candles Loop.observe_bar Loop.int_of
    Loop.observe_position Loop.observe_signal Loop.signal_of Raw.lift Settings.get
    Strategies.list_versions Strategies.parameters_for newhbot.Decimal.truncated ask on_option
    on_result attempt try_except gets modify pure raise ◌>>=◌
goes_on = refl

each_candle_once_example :
    (polling.await_new_candle ≡ false)
    × (pos 300 ≢ pos 0
        → (polling.last_candle_timestamp ≢ some (pos 300))
          × ((observe eager polling).1.last_candle_timestamp ≡ some (pos 300)))
each_candle_once_example = each_candle_once eager polling wanted goes_on

abbrev stopped_world : World
stopped_world = record running {
  db = record empty_db { versions = ema5 ∷ [] };
  committed = record empty_db { versions = ema5 ∷ [] };
}

abbrev activated : Activation
activated = record {
  ok = true;
  reason = none;
  name = some "ema5break";
  version = some "1.0";
  file_hash = some "abc";
  state = some SystemState.stopped;
  trading_enabled = some false;
}

becomes_active : (activate calm_env "abc" stopped_world).0 ≡ ok activated
unfolding activate Service.activate_registered Service.activate_position Service.activate_queried
    Service.activate_clean Service.make_active Service.set_active Strategies.get_by_hash
    Settings.get Settings.set_trading_enabled Orders.has_unresolved Journal.add_audit
    Journal.add_event ask commit publish modify_db on_option on_result attempt try_except when gets
    pure ◌>>=◌
becomes_active = refl

activate-IsActive_example :
    IsActive activated (activate calm_env "abc" stopped_world).1.committed
    × (stored (activate calm_env "abc" stopped_world).1.db
        ≡ (activate calm_env "abc" stopped_world).1.committed)
activate-IsActive_example =
    activate-IsActive calm_env "abc" stopped_world activated becomes_active refl

activate-Refuses_example :
    Refuses calm_env "abc" polling.world (activate calm_env "abc" polling.world)
activate-Refuses_example = activate-Refuses calm_env "abc" polling.world (inl refl)

-- ===== src/Strategy/Service.antt =====
-- backend/app/strategy/service.py: the activation of an uploaded version.
pub mod Activated
use newhbot.Base.{
  String, append, Bool, true, false, not, ◌||◌, any, if◌then◌else◌, Option, none, some, List, [],
  ◌∷◌,
}
use newhbot.Enums.{SystemState, is_stopped, is_flat, is_unknown, state_value}
use newhbot.Action.{Action, pure, ◌>>=◌, ◌>>◌, on_option, try_except, when}
use newhbot.Protocol.{PositionView, OrderView}
use newhbot.Models.{StrategyVersion, text, flag}
use newhbot.World.{World, Env, Call, ask, commit, publish, modify_db}
use newhbot.Recovery.{enter_recovery}
use newhbot.Repositories.Settings
use newhbot.Repositories.Strategies
use newhbot.Repositories.Orders
use newhbot.Repositories.Journal

pub record Activation : Type 0 where
  pub ok : Bool
  pub reason : Option String
  pub name : Option String
  pub version : Option String
  pub file_hash : Option String
  pub state : Option SystemState
  pub trading_enabled : Option Bool

unfoldable pub activate_reject : String → Action World Activation
activate_reject reason = do
  Journal.add_audit "strategy_activate_rejected"
      (record { key = "reason"; value = text reason } ∷ []) "user"
  commit
  pure (record {
    ok = false;
    reason = some reason;
    name = none;
    version = none;
    file_hash = none;
    state = none;
    trading_enabled = none;
  })

unfoldable pub reject_in_recovery : String → String → Action World Activation
reject_in_recovery cause reason = do _ ← enter_recovery cause; activate_reject reason

-- settings.active_strategy = …; settings.active_strategy_version = …
unfoldable pub set_active : StrategyVersion → Action World Unit
set_active v = modify_db (λ d. record d {
  settings = record d.settings {
    active_strategy = some v.name;
    active_strategy_version = some v.version;
  };
})

abbrev is_empty_orders : List OrderView → Bool
is_empty_orders [] = true
is_empty_orders (o ∷ os) = false

module _ (env : Env) (file_hash : String) (version : StrategyVersion) where
  -- Nothing speaks against the version.
  unfoldable pub make_active : Action World Activation
  make_active = do
    set_active version
    Settings.set_trading_enabled false
    settings ← Settings.get
    when (not (is_stopped settings.system_state)) (Settings.set_system_state SystemState.stopped)
    Journal.add_audit "strategy_activate"
        (record { key = "file_hash"; value = text file_hash }
          ∷ record { key = "name"; value = text version.name }
          ∷ record { key = "version"; value = text version.version }
          ∷ [])
        "user"
    let status =
        record { key = "active_strategy"; value = text version.name }
        ∷ record { key = "active_strategy_version"; value = text version.version }
        ∷ record { key = "trading_enabled"; value = flag false }
        ∷ []
    event_id ← Journal.add_event "strategy_status" status
    commit
    publish "strategy_status" status event_id
    pure (record {
      ok = true;
      reason = none;
      name = some version.name;
      version = some version.version;
      file_hash = some file_hash;
      state = some SystemState.stopped;
      trading_enabled = some false;
    })

  unfoldable pub activate_clean : List PositionView → List OrderView → Action World Activation
  activate_clean positions open_orders =
      if any (λ (p : PositionView). is_unknown p.side) positions
      then reject_in_recovery "strategy_activate_position_unknown"
          "cannot activate while position is UNKNOWN"
      else if any (λ (p : PositionView). not (is_flat p.side)) positions
      then reject_in_recovery "strategy_activate_foreign_position"
          "cannot activate while an exchange position is open"
      else if not (is_empty_orders open_orders)
      then reject_in_recovery "strategy_activate_open_orders"
          "cannot activate while exchange open orders are present"
      else make_active

  -- The account's positions and open orders, asked for in one `try`.
  unfoldable pub activate_queried : Action World Activation
  activate_queried =
      try_except {A = List PositionView × List OrderView}
        (do
          positions ← ask Call.get_positions env.get_positions
          open_orders ← ask Call.get_open_orders env.get_open_orders
          pure (positions, open_orders))
        (λ e.
          reject_in_recovery (append "strategy_activate_exchange_query_failed:" e.type_name)
            (append "exchange query failed: " e.type_name))
        (λ answers. activate_clean answers.0 answers.1)

  unfoldable pub activate_position : PositionView → Action World Activation
  activate_position position =
      if is_unknown position.side
      then reject_in_recovery "strategy_activate_position_unknown"
          "cannot activate while position is UNKNOWN"
      else if not (is_flat position.side)
      then activate_reject "cannot activate while a position is open"
      else activate_queried

  unfoldable pub activate_registered : Action World Activation
  activate_registered = do
    settings ← Settings.get
    unresolved ← Orders.has_unresolved
    if unresolved
        then activate_reject "unresolved or UNKNOWN orders present"
        else if not (is_stopped settings.system_state)
        then activate_reject (append "cannot activate while " (state_value settings.system_state))
        else try_except
            (ask (Call.get_position settings.trading_pair)
              (λ h. env.get_position h settings.trading_pair))
            (λ e.
              reject_in_recovery (append "strategy_activate_position_query_failed:" e.type_name)
                (append "position query failed: " e.type_name))
            activate_position

unfoldable pub activate : Env → String → Action World Activation
activate env file_hash = do
  found ← Strategies.get_by_hash file_hash
  on_option found (activate_reject "strategy version is not registered")
      (activate_registered env file_hash)

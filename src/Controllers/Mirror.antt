-- ===== src/Controllers/Mirror.antt =====
-- trading_controller.py: `_emit`, `_sync_exchange_mirror`, `_local_side`, `_maybe_leave_recovery`,
-- and the replies of the controller's methods.
use newhbot.Base.{String, Bool, true, false, ◌||◌, not, if◌then◌else◌, Option, none, some, [], ◌∷◌}
use newhbot.Enums.{PositionSide, OrderStatus, SystemState, is_recovery, side_value}
use newhbot.Action.{Action, pure, ◌>>=◌, ◌>>◌, try_except}
use newhbot.Protocol.{PositionView, BalanceView}
use newhbot.Models.{Payload, Position, text, text_of}
use newhbot.World.{World, Env, Call, ask, commit, publish}
use newhbot.Recovery.{set_state}
use newhbot.Repositories.Settings
use newhbot.Repositories.Orders
use newhbot.Repositories.Positions
use newhbot.Repositories.Journal

-- The dictionaries that the methods return; `none` where the key is missing.
pub record Reply : Type 0 where
  pub ok : Option Bool
  pub accepted : Option Bool
  pub reason : Option String
  pub signal_id : Option String
  pub cloid : Option String
  pub status : Option OrderStatus
  pub state : Option SystemState
  pub estop : Option Bool

abbrev pub no_reply : Reply
no_reply = record {
  ok = none;
  accepted = none;
  reason = none;
  signal_id = none;
  cloid = none;
  status = none;
  state = none;
  estop = none;
}

-- {"ok": False, "reason": reason}
abbrev pub not_ok : String → Reply
not_ok reason = record no_reply { ok = some false; reason = some reason }

unfoldable pub emit : String → Payload → Action World Unit
emit event_type payload = do
  event_id ← Journal.add_event event_type payload
  commit
  publish event_type payload event_id

abbrev side_of : Option Position → PositionSide
side_of none = PositionSide.unknown
side_of (some row) = row.side

unfoldable pub local_side : String → Action World PositionSide
local_side symbol = do row ← Positions.get_or_none symbol; pure (side_of row)

abbrev after_recovery : Bool → SystemState
after_recovery trading_enabled =
    if trading_enabled then SystemState.running else SystemState.stopped

unfoldable pub maybe_leave_recovery : Action World Unit
maybe_leave_recovery = do
  unresolved ← Orders.has_unresolved
  if unresolved then pure tt else do
    settings ← Settings.get
    if not (is_recovery settings.system_state) || settings.estop then pure tt else do
      set_state (after_recovery settings.trading_enabled) "unresolved_orders_cleared"
      pure tt

pub record Snapshot : Type 0 where
  pub view : PositionView
  pub balance : BalanceView

module _ (env : Env) where
  unfoldable pub query_snapshot : String → Action World Snapshot
  query_snapshot symbol = do
    view ← ask (Call.get_position symbol) (λ h. env.get_position h symbol)
    balance ← ask Call.get_balance env.get_balance
    pure (record { view = view; balance = balance })

  -- Exchange State > Local DB
  unfoldable pub sync_exchange_mirror : String → Action World Bool
  sync_exchange_mirror symbol =
      try_except (query_snapshot symbol) (λ _. pure false)
        λ snapshot. do
          let view = snapshot.view
          let balance = snapshot.balance
          Positions.upsert_mirror symbol view.side view.size view.entry_price view.unrealized_pnl
          Journal.add_snapshot balance.equity balance.available balance.margin_used
          commit
          emit "position" (
              record { key = "symbol"; value = text symbol }
              ∷ record { key = "side"; value = text (side_value view.side) }
              ∷ record { key = "size"; value = text_of view.size }
              ∷ [])
          pure true

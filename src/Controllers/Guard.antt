-- ===== src/Controllers/Guard.antt =====
-- backend/app/controllers/position_guard.py: the single-position lock.
pub mod Conditions
use newhbot.Base.{String, append, str_eq, Bool, true, false, not, ◌||◌, if◌then◌else◌}
use newhbot.Enums.{
  SignalType, PositionSide, SystemState, is_flat, is_unknown, is_recovery, is_running, state_value,
  side_value,
}

pub record GuardInput : Type 0 where
  pub local_side : PositionSide
  pub exchange_side : PositionSide
  pub has_unknown_orders : Bool
  pub system_state : SystemState
  pub configured_pair : String
  pub target_pair : String
  pub exchange_connected : Bool
  pub has_foreign_positions : Bool
  pub has_open_reservation : Bool

pub record GuardResult : Type 0 where
  pub allowed : Bool
  pub reason : String

abbrev forbid : String → GuardResult
forbid reason = record { allowed = false; reason = reason }

unfoldable pub can_open_position : GuardInput → GuardResult
can_open_position inp =
    if not (str_eq inp.target_pair inp.configured_pair)
    then forbid "target pair is not the configured trading pair"
    else if not inp.exchange_connected
    then forbid "exchange connection unavailable"
    else if inp.has_foreign_positions
    then forbid "FOREIGN_SYMBOL_POSITION"
    else if inp.has_unknown_orders
    then forbid "unknown order exists; new opens are forbidden"
    else if inp.has_open_reservation
    then forbid "open reservation held; new opens are forbidden"
    else if is_recovery inp.system_state
    then forbid "recovery forbids new opens"
    else if not (is_running inp.system_state)
    then forbid (append "system is " (append (state_value inp.system_state) ", not RUNNING"))
    else if is_unknown inp.exchange_side || is_unknown inp.local_side
    then forbid "position side is UNKNOWN"
    else if not (is_flat inp.local_side)
    then forbid (append "local position is " (append (side_value inp.local_side) ", not FLAT"))
    else if not (is_flat inp.exchange_side)
    then forbid
        (append "exchange position is " (append (side_value inp.exchange_side) ", not FLAT"))
    else record { allowed = true; reason = "ok" }

unfoldable pub reverse_is_forbidden : PositionSide → SignalType → Bool
reverse_is_forbidden PositionSide.long SignalType.short = true
reverse_is_forbidden PositionSide.short SignalType.long = true
reverse_is_forbidden _ _ = false

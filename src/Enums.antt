-- ===== src/Enums.antt =====
-- backend/app/core/enums.py. OPEN is `opened`, since `open` is a reserved word.
use newhbot.Base.{String, Bool, true, false}

pub data SignalType : Type 0 where
  long short close hold : SignalType

pub data PositionSide : Type 0 where
  flat long short unknown : PositionSide

pub data OrderStatus : Type 0 where
  pending_submission submitting ack opened partial filled rejected canceled unknown : OrderStatus

pub data OrderType : Type 0 where
  market limit : OrderType

pub data OrderSide : Type 0 where
  buy sell : OrderSide

pub data SystemState : Type 0 where
  stopped starting connecting syncing reconciling recovery ready running error : SystemState

-- UNRESOLVED_ORDER_STATUSES
abbrev pub is_unresolved : OrderStatus → Bool
is_unresolved OrderStatus.pending_submission = true
is_unresolved OrderStatus.submitting = true
is_unresolved OrderStatus.unknown = true
is_unresolved _ = false

-- INFLIGHT_OPEN_STATUSES
abbrev pub is_inflight : OrderStatus → Bool
is_inflight OrderStatus.pending_submission = true
is_inflight OrderStatus.submitting = true
is_inflight OrderStatus.ack = true
is_inflight OrderStatus.opened = true
is_inflight OrderStatus.partial = true
is_inflight OrderStatus.unknown = true
is_inflight _ = false

-- CONFIRMED_LIVE_STATUSES
abbrev pub is_confirmed_live : OrderStatus → Bool
is_confirmed_live OrderStatus.ack = true
is_confirmed_live OrderStatus.opened = true
is_confirmed_live OrderStatus.partial = true
is_confirmed_live OrderStatus.filled = true
is_confirmed_live _ = false

-- Membership in {OPEN, PARTIAL}.
abbrev pub is_open : OrderStatus → Bool
is_open OrderStatus.opened = true
is_open OrderStatus.partial = true
is_open _ = false

-- Membership in {FILLED, PARTIAL}.
abbrev pub has_fills : OrderStatus → Bool
has_fills OrderStatus.filled = true
has_fills OrderStatus.partial = true
has_fills _ = false

-- Tests for one status, one side, one state, one type.
abbrev pub is_opened : OrderStatus → Bool
is_opened OrderStatus.opened = true
is_opened _ = false

abbrev pub is_rejected : OrderStatus → Bool
is_rejected OrderStatus.rejected = true
is_rejected _ = false

abbrev pub is_submitting : OrderStatus → Bool
is_submitting OrderStatus.submitting = true
is_submitting _ = false

abbrev pub is_unknown_status : OrderStatus → Bool
is_unknown_status OrderStatus.unknown = true
is_unknown_status _ = false

abbrev pub is_flat : PositionSide → Bool
is_flat PositionSide.flat = true
is_flat _ = false

abbrev pub is_unknown : PositionSide → Bool
is_unknown PositionSide.unknown = true
is_unknown _ = false

abbrev pub same_side : PositionSide → PositionSide → Bool
same_side PositionSide.flat PositionSide.flat = true
same_side PositionSide.long PositionSide.long = true
same_side PositionSide.short PositionSide.short = true
same_side PositionSide.unknown PositionSide.unknown = true
same_side _ _ = false

abbrev pub is_recovery : SystemState → Bool
is_recovery SystemState.recovery = true
is_recovery _ = false

abbrev pub is_running : SystemState → Bool
is_running SystemState.running = true
is_running _ = false

abbrev pub is_stopped : SystemState → Bool
is_stopped SystemState.stopped = true
is_stopped _ = false

abbrev pub is_market : OrderType → Bool
is_market OrderType.market = true
is_market OrderType.limit = false

abbrev pub is_buy : OrderSide → Bool
is_buy OrderSide.buy = true
is_buy OrderSide.sell = false

-- SystemState(…).value
abbrev pub state_value : SystemState → String
state_value SystemState.stopped = "STOPPED"
state_value SystemState.starting = "STARTING"
state_value SystemState.connecting = "CONNECTING"
state_value SystemState.syncing = "SYNCING"
state_value SystemState.reconciling = "RECONCILING"
state_value SystemState.recovery = "RECOVERY"
state_value SystemState.ready = "READY"
state_value SystemState.running = "RUNNING"
state_value SystemState.error = "ERROR"

-- PositionSide(…).value, OrderStatus(…).value, SignalType(…).value
abbrev pub side_value : PositionSide → String
side_value PositionSide.flat = "FLAT"
side_value PositionSide.long = "LONG"
side_value PositionSide.short = "SHORT"
side_value PositionSide.unknown = "UNKNOWN"

abbrev pub status_value : OrderStatus → String
status_value OrderStatus.pending_submission = "PENDING_SUBMISSION"
status_value OrderStatus.submitting = "SUBMITTING"
status_value OrderStatus.ack = "ACK"
status_value OrderStatus.opened = "OPEN"
status_value OrderStatus.partial = "PARTIAL"
status_value OrderStatus.filled = "FILLED"
status_value OrderStatus.rejected = "REJECTED"
status_value OrderStatus.canceled = "CANCELED"
status_value OrderStatus.unknown = "UNKNOWN"

abbrev pub signal_value : SignalType → String
signal_value SignalType.long = "LONG"
signal_value SignalType.short = "SHORT"
signal_value SignalType.close = "CLOSE"
signal_value SignalType.hold = "HOLD"

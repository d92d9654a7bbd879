-- ===== src/Worker/Runtime.antt =====
-- execution-worker/app/runtime.py: the gate in front of an adapter. The adapter is a parameter: its
-- state, and the operations that the gate calls or asks for by `getattr`. Readings of
-- `time.monotonic` are arguments, in the unit of the heartbeat's timeout.
pub mod Gate
pub mod Heartbeat
use newhbot.Base.{
  ℕ, ◌+◌, ◌≤◌, leb, String, append, str_eq, Bool, true, false, not, ◌&&◌, if◌then◌else◌, Option,
  none, some,
}
use newhbot.Decimal.{Decimal, whole}
use newhbot.Enums.{OrderStatus}
use newhbot.Protocol.{PlaceOrderRequest, PlaceOrderResponse, OrderView}
use newhbot.Action.{Exn, Result, Action, pure, raise, gets, modify, ◌>>=◌, ◌>>◌, when, on_option}

pub data WorkerState : Type 0 where
  not_ready recovering ready degraded : WorkerState

abbrev pub worker_state_value : WorkerState → String
worker_state_value WorkerState.not_ready = "NOT_READY"
worker_state_value WorkerState.recovering = "RECOVERING"
worker_state_value WorkerState.ready = "READY"
worker_state_value WorkerState.degraded = "DEGRADED"

abbrev pub is_ready : WorkerState → Bool
is_ready WorkerState.ready = true
is_ready _ = false

-- The fields that the gate reads or writes.
pub record WorkerConfig : Type 0 where
  pub execution_enabled : Bool
  pub trading_pair : String
  pub slippage : Decimal
  pub expected_leverage : ℕ
  pub heartbeat_timeout : ℕ

-- An adapter over its own state `S`. The optional ones are asked for by `getattr`.
pub record Adapter (S : Type 0) : Type 0 where
  pub connected : S → Bool
  pub worker_state : Option (S → WorkerState)
  pub set_config : Option (WorkerConfig → S → S)
  pub mark_network_down : Option (S → S)
  pub resync_network : Option (Action S Unit)
  pub connect : Action S Unit
  pub disconnect : Action S Unit
  pub place_order : PlaceOrderRequest → Action S PlaceOrderResponse
  pub set_leverage : String → ℕ → Action S Unit
  pub cancel_order : String → String → Action S (Option OrderView)

pub record Runtime (S : Type 0) : Type 0 where
  pub inner : S
  pub config : WorkerConfig
  pub state : WorkerState
  pub force_degraded : Bool
  pub last_heartbeat : Option ℕ

-- __init__
abbrev pub new_runtime : {S : Type 0} → S → WorkerConfig → Runtime S
new_runtime inner config = record {
  inner = inner;
  config = config;
  state = WorkerState.not_ready;
  force_degraded = false;
  last_heartbeat = none;
}

abbrev refused : PlaceOrderRequest → String → PlaceOrderResponse
refused request error = record {
  request_id = request.request_id;
  cloid = request.cloid;
  exchange_oid = none;
  status = OrderStatus.rejected;
  filled_quantity = whole 0;
  avg_price = none;
  error = some error;
}

abbrev execution_disabled : String → Exn
execution_disabled message = record { type_name = "ExecutionDisabled"; message = message }

module _ {S : Type 0} where
  -- An operation of the adapter, on the runtime's adapter.
  unfoldable pub on_inner : {A : Type 0} → Action S A → Action (Runtime S) A
  on_inner m r = let (result, inner) = m r.inner in (result, record r { inner = inner })

  unfoldable pub backend_heartbeat_ok : ℕ → Runtime S → Bool
  backend_heartbeat_ok now r =
      if not r.config.execution_enabled then true else elim r.last_heartbeat [
        | none ↦ false
        | some last ↦ leb now (last + r.config.heartbeat_timeout)
      ]

  unfoldable pub heartbeat : ℕ → Action (Runtime S) Unit
  heartbeat now = modify (λ r. record r { last_heartbeat = some now })

  -- The response that rejects a foreign symbol.
  unfoldable pub reject_symbol : PlaceOrderRequest → Runtime S → Option PlaceOrderResponse
  reject_symbol request r =
      if not (str_eq request.symbol r.config.trading_pair)
      then some (refused request "symbol is not the configured trading pair")
      else none

module _ {S : Type 0} (adapter : Adapter S) where
  -- The state that `_refresh_state` computes.
  unfoldable pub refreshed : Runtime S → WorkerState
  refreshed r = if r.force_degraded then WorkerState.degraded else elim adapter.worker_state [
    | none ↦ if adapter.connected r.inner then WorkerState.ready else WorkerState.not_ready
    | some worker_state ↦ worker_state r.inner
  ]

  unfoldable pub refresh_state : Action (Runtime S) Unit
  refresh_state = modify (λ r. record r { state = refreshed r })

  unfoldable pub configure : String → Option Decimal → Option ℕ → Action (Runtime S) Unit
  configure trading_pair slippage leverage = modify (λ r.
      let config : WorkerConfig = record r.config {
        trading_pair = trading_pair;
        slippage = elim slippage [ none ↦ r.config.slippage | some d ↦ d ];
        expected_leverage = elim leverage [ none ↦ r.config.expected_leverage | some n ↦ n ];
      } in
      record r {
        config = config;
        inner = elim adapter.set_config [ none ↦ r.inner | some set ↦ set config r.inner ];
      })

  unfoldable pub connect : Action (Runtime S) Unit
  connect = do on_inner adapter.connect; refresh_state

  unfoldable pub disconnect : Action (Runtime S) Unit
  disconnect = do on_inner adapter.disconnect; refresh_state

  unfoldable pub place_order : ℕ → PlaceOrderRequest → Action (Runtime S) PlaceOrderResponse
  place_order now request = do
    bad ← gets (reject_symbol request)
    on_option bad
        (do
          refresh_state
          r ← gets (λ r. r)
          if not (is_ready r.state)
              then pure (
                  refused request (
                    append "worker is "
                      (append (worker_state_value r.state) "; new opens forbidden")))
              else if not request.reduce_only && not (backend_heartbeat_ok now r)
              then pure (refused request "backend heartbeat expired; new opens forbidden")
              else on_inner (adapter.place_order request))
        pure

  unfoldable pub set_leverage : ℕ → String → ℕ → Action (Runtime S) Unit
  set_leverage now symbol leverage = do
    r ← gets (λ r. r)
    if not (str_eq symbol r.config.trading_pair)
        then raise (record {
          type_name = "ValueError";
          message = "symbol is not the configured trading pair";
        })
        else do
          when r.config.execution_enabled (do
            refresh_state
            fresh ← gets (λ x. x)
            if not (is_ready fresh.state)
                then raise (
                    execution_disabled (
                      append "worker is "
                        (append (worker_state_value fresh.state) "; leverage update forbidden")))
                else if not (backend_heartbeat_ok now fresh)
                then raise
                    (execution_disabled "backend heartbeat expired; leverage update forbidden")
                else pure tt)
          on_inner (adapter.set_leverage symbol leverage)

  unfoldable pub cancel_order : String → String → Action (Runtime S) (Option OrderView)
  cancel_order cloid request_id = on_inner (adapter.cancel_order cloid request_id)

  unfoldable pub mark_ws_down : Action (Runtime S) Unit
  mark_ws_down = do
    modify (λ r. record r {
      force_degraded = true;
      inner = elim adapter.mark_network_down [ none ↦ r.inner | some mark ↦ mark r.inner ];
    })
    refresh_state

  unfoldable pub rest_resync : Action (Runtime S) Unit
  rest_resync = do
    modify (λ r. record r { force_degraded = false })
    on_option adapter.resync_network
        (modify
          (λ r. if adapter.connected r.inner then record r { state = WorkerState.ready } else r))
        on_inner
    refresh_state

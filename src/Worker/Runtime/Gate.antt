-- ===== src/Worker/Runtime/Gate.antt =====
-- runtime.py: what passes the gate in front of the adapter.
use newhbot.Base.{◌≡◌, refl, ◌⊎◌, inl, inr, ℕ, str_eq, eq_iff, true, Bool-cases}
use newhbot.Enums.{OrderStatus}
use newhbot.Protocol.{PlaceOrderRequest, PlaceOrderResponse}
use newhbot.Action.{Result, ok, err, gets, pure, modify, on_option, ◌>>=◌}
use newhbot.Worker.Runtime.{
  Adapter, Runtime, WorkerState, is_ready, place_order, refresh_state, refreshed, reject_symbol,
  backend_heartbeat_ok, on_inner,
}

is_ready_lem : (x : WorkerState) → is_ready x ≡ true → x ≡ WorkerState.ready
is_ready_lem WorkerState.ready e = refl
is_ready_lem _ e = cc

-- The request may pass: its symbol is the configured pair, the adapter is READY, and the request
-- only reduces or the backend's heartbeat is fresh.
pub record IsPassable {S : Type 0} (adapter : Adapter S) (now : ℕ) (request : PlaceOrderRequest)
    (r : Runtime S) : Type 0 where
  pub configured : request.symbol ≡ r.config.trading_pair
  pub ready : refreshed adapter r ≡ WorkerState.ready
  pub alive : (request.reduce_only ≡ true) ⊎ (backend_heartbeat_ok now r ≡ true)

passable :
    {S : Type 0} (adapter : Adapter S) (now : ℕ) (request : PlaceOrderRequest) (r : Runtime S)
    → str_eq request.symbol r.config.trading_pair ≡ true
    → is_ready (refreshed adapter r) ≡ true
    → (request.reduce_only ≡ true) ⊎ (backend_heartbeat_ok now r ≡ true)
    → IsPassable adapter now request r
passable adapter now request r configured ready alive = record {
  configured = (eq_iff request.symbol r.config.trading_pair).0 configured;
  ready = is_ready_lem (refreshed adapter r) ready;
  alive = alive;
}

same_heartbeat :
    {S : Type 0} (now : ℕ) (r : Runtime S) (x : WorkerState)
    → backend_heartbeat_ok now (record r { state = x }) ≡ backend_heartbeat_ok now r
unfolding backend_heartbeat_ok
same_heartbeat now r x = refl

-- The request was answered REJECTED.
abbrev pub IsRefused : Result PlaceOrderResponse → Type 0
IsRefused (ok response) = response.status ≡ OrderStatus.rejected
IsRefused (err e) = ⊥

-- A request either may pass, and the answer and the adapter's state are the adapter's own; or it is
-- answered REJECTED, and the adapter is left as it was.
pub place_order-IsPassable :
    {S : Type 0} (adapter : Adapter S) (now : ℕ) (request : PlaceOrderRequest) (r : Runtime S)
    → (IsPassable adapter now request r
        × ((place_order adapter now request r).0 ≡ (adapter.place_order request r.inner).0)
        × ((place_order adapter now request r).1.inner ≡ (adapter.place_order request r.inner).1))
      ⊎ (IsRefused (place_order adapter now request r).0
          × ((place_order adapter now request r).1.inner ≡ r.inner))
unfolding place_order reject_symbol refresh_state on_inner gets modify pure on_option ◌>>=◌
place_order-IsPassable adapter now request r =
    elim (Bool-cases (str_eq request.symbol r.config.trading_pair)) [
      | inr foreign ↦ inr (rw foreign (refl, refl))
      | inl configured ↦ elim (Bool-cases (is_ready (refreshed adapter r))) [
        | inr waiting ↦ inr (rw (configured, waiting) (refl, refl))
        | inl ready ↦ elim (Bool-cases request.reduce_only) [
          | inl reduces ↦ inl (
            passable adapter now request r configured ready (inl reduces),
            rw (configured, ready, reduces) refl,
            rw (configured, ready, reduces) refl,
          )
          | inr opens ↦ elim (Bool-cases (backend_heartbeat_ok now r)) [
            | inl alive ↦ inl (
              passable adapter now request r configured ready (inr alive),
              rw (configured, ready, opens, same_heartbeat now r (refreshed adapter r), alive) refl,
              rw (configured, ready, opens, same_heartbeat now r (refreshed adapter r), alive) refl,
            )
            | inr silent ↦ inr (
                rw (configured, ready, opens, same_heartbeat now r (refreshed adapter r), silent)
                  (refl, refl))
          ]
        ]
      ]
    ]

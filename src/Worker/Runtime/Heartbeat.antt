-- ===== src/Worker/Runtime/Heartbeat.antt =====
-- runtime.py: the backend's heartbeats over the life of the worker, and the orders that pass.
use newhbot.Base.{
  ◌≡◌, refl, sym, ◌∙◌, ℕ, ◌+◌, ◌≤◌, leb, String, Bool, true, false, Option, none, some, List, [],
  ◌∷◌, Some, ◌⊎◌, inl, inr, Bool-cases, Option-cases, arith, if◌then◌else◌,
}
use newhbot.Decimal.{Decimal}
use newhbot.Action.{Action, modify}
use newhbot.Action.Moves.{Moves, Moves-bind, Same, moves_rules}
use newhbot.Protocol.{PlaceOrderRequest}
use newhbot.Worker.Runtime
use newhbot.Worker.Runtime.{
  Adapter, Runtime, WorkerConfig, WorkerState, new_runtime, on_inner, heartbeat,
  backend_heartbeat_ok, refreshed, refresh_state, place_order, set_leverage, mark_ws_down,
  rest_resync, configure, reject_symbol,
}
use newhbot.Worker.Runtime.Gate.{IsRefused, place_order-IsPassable}

-- The calls of the runtime, with the reading of the clock where one is taken.
pub data Operation : Type 0 where
  beating : ℕ → Operation
  placing : ℕ → PlaceOrderRequest → Operation
  leveraging : ℕ → String → ℕ → Operation
  canceling : String → String → Operation
  configuring : String → Option Decimal → Option ℕ → Operation
  connecting disconnecting losing_ws resyncing : Operation

differ : false ≡ true → ⊥
differ e = cc

degraded_lem : WorkerState.degraded ≡ WorkerState.ready → ⊥
degraded_lem e = cc

missing : {t : ℕ} → none ≡ some t → ⊥
missing e = cc

some_same : {a b : ℕ} → some a ≡ some b → a ≡ b
some_same e = cc

within : (a b : ℕ) → leb a b ≡ true → a ≤ b
within a b e = ground (arith, e)

module _ {S : Type 0} (adapter : Adapter S) where
  unfoldable pub perform : Operation → Runtime S → Runtime S
  perform (Operation.beating now) r = (heartbeat now r).1
  perform (Operation.placing now request) r = (place_order adapter now request r).1
  perform (Operation.leveraging now symbol leverage) r =
      (set_leverage adapter now symbol leverage r).1
  perform (Operation.canceling cloid request_id) r =
      (Runtime.cancel_order adapter cloid request_id r).1
  perform (Operation.configuring pair slippage leverage) r =
      (configure adapter pair slippage leverage r).1
  perform Operation.connecting r = (Runtime.connect adapter r).1
  perform Operation.disconnecting r = (Runtime.disconnect adapter r).1
  perform Operation.losing_ws r = (mark_ws_down adapter r).1
  perform Operation.resyncing r = (rest_resync adapter r).1

  -- The runtime after the calls, one after the other.
  unfoldable pub after : List Operation → Runtime S → Runtime S
  unfolding perform
  after [] r = r
  after (op ∷ ops) r = after ops (perform op r)

  abbrev Kept : {A : Type 0} → Action (Runtime S) A → Type 0
  Kept m = Moves (Same (λ (r : Runtime S). r.last_heartbeat)) m

  on_inner-Kept : {A : Type 0} (m : Action S A) → Kept (on_inner m)
  unfolding on_inner
  on_inner-Kept m = record { at = λ r. refl }

  refresh-Kept : Kept (refresh_state adapter)
  unfolding refresh_state modify
  refresh-Kept = record { at = λ r. refl }

  modify-Kept :
      (f : Runtime S → Runtime S)
      → ((r : Runtime S) → (f r).last_heartbeat ≡ r.last_heartbeat)
      → Kept (modify f)
  unfolding modify
  modify-Kept f h = record { at = h }

  ruleset kept_rules = (moves_rules, on_inner-Kept, refresh-Kept)

  place-Kept : (now : ℕ) (request : PlaceOrderRequest) → Kept (place_order adapter now request)
  unfolding place_order
  place-Kept now request = search (kept_rules) depth 30

  leverage-Kept : (now : ℕ) (t : String) (n : ℕ) → Kept (set_leverage adapter now t n)
  unfolding set_leverage
  leverage-Kept now t n = search (kept_rules) depth 30

  connect-Kept : Kept (Runtime.connect adapter)
  unfolding Runtime.connect
  connect-Kept = search (kept_rules) depth 30

  disconnect-Kept : Kept (Runtime.disconnect adapter)
  unfolding Runtime.disconnect
  disconnect-Kept = search (kept_rules) depth 30

  configure-Kept : (p : String) (d : Option Decimal) (n : Option ℕ) → Kept (configure adapter p d n)
  unfolding configure modify
  configure-Kept p d n = record { at = λ r. refl }

  losing-Kept : Kept (mark_ws_down adapter)
  unfolding mark_ws_down
  losing-Kept = search (kept_rules, modify-Kept) depth 30

  ready_if-Kept : Kept (
      modify (λ r. if adapter.connected r.inner then record r { state = WorkerState.ready } else r))
  unfolding modify
  ready_if-Kept = record { at = λ r. ground arith }

  resync-Kept : Kept (rest_resync adapter)
  unfolding rest_resync
  resync-Kept =
      Moves-bind _ _ (modify-Kept _ (λ r. refl))
        λ _. search (kept_rules, ready_if-Kept, on_inner-Kept) depth 30

  -- A heartbeat at `t` was among the calls.
  abbrev pub Beaten : ℕ → List Operation → Type 0
  Beaten t ops = Some (λ op. op ≡ Operation.beating t) ops

  -- The last heartbeat that is noted was there before or is among the calls.
  abbrev Noted : List Operation → Option ℕ → Option ℕ → Type 0
  Noted ops before last = (last ≡ before) ⊎ ((t : ℕ) × (Beaten t ops × (last ≡ some t)))

  Noted-later :
      (op : Operation) (ops : List Operation) (r : Runtime S)
      → (perform op r).last_heartbeat ≡ r.last_heartbeat
      → Noted ops (perform op r).last_heartbeat (after ops (perform op r)).last_heartbeat
      → Noted (op ∷ ops) r.last_heartbeat (after ops (perform op r)).last_heartbeat
  Noted-later op ops r e (inl same) = inl (same ∙ e)
  Noted-later op ops r e (inr (t, (b, n))) = inr (t, (inr b, n))

  Noted-first :
      (now : ℕ) (ops : List Operation) (before last : Option ℕ)
      → Noted ops (some now) last
      → Noted (Operation.beating now ∷ ops) before last
  Noted-first now ops before last (inl same) = inr (now, (inl refl, same))
  Noted-first now ops before last (inr (t, (b, n))) = inr (t, (inr b, n))

  after-Noted :
      (ops : List Operation) (r : Runtime S)
      → Noted ops r.last_heartbeat (after ops r).last_heartbeat
  unfolding after perform heartbeat configure Runtime.connect Runtime.disconnect
      Runtime.cancel_order modify
  after-Noted [] r = inl refl
  after-Noted (Operation.beating now ∷ ops) r =
      Noted-first now ops r.last_heartbeat _ (after-Noted ops (perform (Operation.beating now) r))
  after-Noted (Operation.placing now q ∷ ops) r =
      Noted-later _ ops r ((place-Kept now q).at r) (after-Noted ops _)
  after-Noted (Operation.leveraging now t n ∷ ops) r =
      Noted-later _ ops r ((leverage-Kept now t n).at r) (after-Noted ops _)
  after-Noted (Operation.canceling c q ∷ ops) r =
      Noted-later _ ops r ((on_inner-Kept (adapter.cancel_order c q)).at r) (after-Noted ops _)
  after-Noted (Operation.configuring p d n ∷ ops) r =
      Noted-later _ ops r ((configure-Kept p d n).at r) (after-Noted ops _)
  after-Noted (Operation.connecting ∷ ops) r =
      Noted-later _ ops r (connect-Kept.at r) (after-Noted ops _)
  after-Noted (Operation.disconnecting ∷ ops) r =
      Noted-later _ ops r (disconnect-Kept.at r) (after-Noted ops _)
  after-Noted (Operation.losing_ws ∷ ops) r =
      Noted-later _ ops r (losing-Kept.at r) (after-Noted ops _)
  after-Noted (Operation.resyncing ∷ ops) r =
      Noted-later _ ops r (resync-Kept.at r) (after-Noted ops _)

  -- The adapter says that it is READY or, if it tells no state, that it is connected.
  abbrev pub SaysReady : Option (S → WorkerState) → S → Type 0
  SaysReady none s = adapter.connected s ≡ true
  SaysReady (some worker_state) s = worker_state s ≡ WorkerState.ready

  -- The request may pass at `now` in the life `ops` of the worker: its symbol is the configured pair,
  -- the runtime is not forced to be DEGRADED, the adapter says that it is READY or, if it
  -- tells no state, that it is connected, and if the request opens and execution is enabled, then the
  -- backend gave a heartbeat that is not older than the timeout.
  pub record IsFresh (now : ℕ) (request : PlaceOrderRequest) (ops : List Operation) (r : Runtime S)
      : Type 0 where
    pub configured : request.symbol ≡ r.config.trading_pair
    pub up : r.force_degraded ≡ false
    pub ready : SaysReady adapter.worker_state r.inner
    pub alive :
        (request.reduce_only ≡ true)
        ⊎ ((r.config.execution_enabled ≡ false)
            ⊎ ((t : ℕ) × (Beaten t ops × (now ≤ t + r.config.heartbeat_timeout))))

  fresh_of :
      (now : ℕ) (ops : List Operation) (r : Runtime S)
      → ((t : ℕ) → r.last_heartbeat ≡ some t → Beaten t ops)
      → backend_heartbeat_ok now r ≡ true
      → (r.config.execution_enabled ≡ false)
        ⊎ ((t : ℕ) × (Beaten t ops × (now ≤ t + r.config.heartbeat_timeout)))
  unfolding backend_heartbeat_ok
  fresh_of now ops r beaten e = elim (Bool-cases r.config.execution_enabled) [
    | inr disabled ↦ inl disabled
    | inl enabled ↦ elim (Option-cases r.last_heartbeat) [
      | inl never ↦ absurd (differ (rw (enabled, never) at e))
      | inr (t, last) ↦ inr (t, (beaten t last, within now _ (rw (enabled, last) at e)))
    ]
  ]

  up_of : (r : Runtime S) → refreshed adapter r ≡ WorkerState.ready → r.force_degraded ≡ false
  unfolding refreshed
  up_of r e = elim (Bool-cases r.force_degraded) [
    | inr up ↦ up
    | inl forced ↦ absurd (degraded_lem (rw forced at e))
  ]

  connected_of :
      (b : Bool)
      → (if b then WorkerState.ready else WorkerState.not_ready) ≡ WorkerState.ready
      → b ≡ true
  connected_of true e = refl
  connected_of false e = cc

  ready_of :
      (r : Runtime S)
      → refreshed adapter r ≡ WorkerState.ready
      → SaysReady adapter.worker_state r.inner
  unfolding refreshed
  ready_of r e = elim (Option-cases adapter.worker_state) [
    | inl none_told ↦
        rw none_told (connected_of (adapter.connected r.inner) (rw (up_of r e, none_told) at e))
    | inr (f, told) ↦ rw told (rw (up_of r e, told) at e)
  ]

  Beaten-of :
      (ops : List Operation) (last : Option ℕ) (t : ℕ)
      → Noted ops none last
      → last ≡ some t
      → Beaten t ops
  Beaten-of ops last t (inl never) e = absurd (missing (sym never ∙ e))
  Beaten-of ops last t (inr (u, (b, n))) e = rw (some_same (sym n ∙ e)) at b

  alive_of :
      (now : ℕ) (request : PlaceOrderRequest) (ops : List Operation) (r : Runtime S)
      → Noted ops none r.last_heartbeat
      → (request.reduce_only ≡ true) ⊎ (backend_heartbeat_ok now r ≡ true)
      → (request.reduce_only ≡ true)
        ⊎ ((r.config.execution_enabled ≡ false)
            ⊎ ((t : ℕ) × (Beaten t ops × (now ≤ t + r.config.heartbeat_timeout))))
  alive_of now request ops r n (inl reduces) = inl reduces
  alive_of now request ops r n (inr ok_now) =
      inr (fresh_of now ops r (λ t e. Beaten-of ops r.last_heartbeat t n e) ok_now)

  -- After any calls of a new runtime, a request reaches the adapter only if its symbol is the
  -- configured pair, the runtime is not forced to be DEGRADED, the adapter says that it is READY, or
  -- connected where it tells no state, and the request only reduces a position, or execution is
  -- disabled, or a heartbeat among the calls is not older than the timeout. The answer and the
  -- adapter's state are then the adapter's own. Every other request is answered REJECTED, and the
  -- adapter is left as it was.
  pub passed_order-IsFresh :
      (inner : S) (config : WorkerConfig) (ops : List Operation) (now : ℕ)
      (request : PlaceOrderRequest)
      → (IsFresh now request ops (after ops (new_runtime inner config))
          × ((place_order adapter now request (after ops (new_runtime inner config))).0
              ≡ (adapter.place_order request (after ops (new_runtime inner config)).inner).0)
          × ((place_order adapter now request (after ops (new_runtime inner config))).1.inner
              ≡ (adapter.place_order request (after ops (new_runtime inner config)).inner).1))
        ⊎ (IsRefused (place_order adapter now request (after ops (new_runtime inner config))).0
            × ((place_order adapter now request (after ops (new_runtime inner config))).1.inner
                ≡ (after ops (new_runtime inner config)).inner))
  passed_order-IsFresh inner config ops now request =
      let r = after ops (new_runtime inner config) in
      elim (place_order-IsPassable adapter now request r) [
        | inl (p, same_answer, same_adapter) ↦ inl (
          record {
            configured = p.configured;
            up = up_of r p.ready;
            ready = ready_of r p.ready;
            alive = alive_of now request ops r (after-Noted ops (new_runtime inner config)) p.alive;
          },
          same_answer,
          same_adapter,
        )
        | inr refused ↦ inr refused
      ]

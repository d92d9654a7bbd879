-- ===== src/Worker/Hyperliquid/Health.antt =====
-- hyperliquid_adapter.py behind runtime.py's gate, and what a reading of the account is worth.
use newhbot.Base.{
  ◌≡◌, ◌≢◌, any, refl, sym, ◌∙◌, ◌⊎◌, inl, inr, ℕ, String, str_eq, Bool, true, false, not, ◌&&◌,
  ◌||◌, eq_iff, if◌then◌else◌, none, some, List, [], ◌∷◌, Bool-cases, arith,
}
use newhbot.Text.{contains}
use newhbot.Worker.Raw.{decimal_of, number, lift, text, str_of, ◌or◌}
use newhbot.Worker.Mapping.{
  ExchangePosition, map_rows, map_clearinghouse_positions, is_long, is_short, one_way_error,
}
use newhbot.Worker.Mapping.OneWay.{hedged_is_refused}
use newhbot.Action.{Exn, ok, err, pure, raise, gets, modify, ◌>>=◌}
use newhbot.Action.Triple.{Triple, Triple-gets, Triple-if, Triple-bind}
use newhbot.Action.Ends.{Ends, Ends-bind, Post-use}
use newhbot.Decimal.{Decimal}
use newhbot.Protocol.{PlaceOrderRequest, PositionView}
use newhbot.Worker.Runtime.{Adapter, Runtime, WorkerState, place_order as gate_order, refreshed}
use newhbot.Worker.Runtime.Gate.{IsRefused, place_order-IsPassable}
use newhbot.Worker.Hyperliquid.{
  Snapshot, on_connector, Connector, HyperliquidAdapter, account_positions_trusted, is_failed_read,
  mark_network_down,
}
use newhbot.Worker.Hyperliquid.Network.{
  resync_network, connect, disconnect, refresh_from_connector, judged, worker_state,
  nothing_foreign,
}
use newhbot.Worker.Hyperliquid.Reading.{
  get_positions, get_position, position_in, flat_position, lookup_error, trusted,
}
use newhbot.Worker.Hyperliquid.Trading.{set_leverage, cancel_order, place_order}

not_lem : (b : Bool) → not b ≡ false → b ≡ true
not_lem true e = refl
not_lem false e = cc

degraded_lem : WorkerState.degraded ≡ WorkerState.ready → ⊥
degraded_lem e = cc

differ : {b : Bool} → b ≡ true → b ≡ false → ⊥
differ e f = cc

user_cases : (a b d : Bool) → (if a && not b then false else d) ≡ true → (a ≡ false) ⊎ (b ≡ true)
user_cases false b d e = inl refl
user_cases true true d e = inr refl
user_cases true false d e = cc

no_text : contains "failed" "" ≡ false
unfolding contains
no_text = refl

left_false : (a b : Bool) → (a || b) ≡ false → a ≡ false
left_false false b h = refl
left_false true b h = h

trusted_lem : (a b : Bool) → (if a then false else not b) ≡ true → b ≡ false
trusted_lem true b e = cc
trusted_lem false true e = cc
trusted_lem false false e = refl

no_failure_lem :
    (t : String) → is_failed_read (str_of (text t or text "")) ≡ false → contains "failed" t ≡ false
unfolding is_failed_read str_of
no_failure_lem t e = elim (Bool-cases (str_eq t "")) [
  | inl blank ↦ rw ((eq_iff t "").0 blank) no_text
  | inr there ↦ left_false _ _ (rw there at e)
]

position_lem : is_failed_read (str_of (text "position_query_unavailable" or text "")) ≡ false → ⊥
unfolding is_failed_read str_of
position_lem e = cc

balance_lem : is_failed_read (str_of (text "balance_query_unavailable" or text "")) ≡ false → ⊥
unfolding is_failed_read str_of
balance_lem e = cc

module _ {S : Type 0} (c : Connector S) where
  -- The adapter as the runtime takes it.
  abbrev pub hyperliquid : Adapter (HyperliquidAdapter S)
  hyperliquid = record {
    connected = λ s. s.connected;
    worker_state = some (worker_state c);
    set_config = some (λ config s. record s { config = config });
    mark_network_down = some (mark_network_down c);
    resync_network = some (resync_network c);
    connect = connect c;
    disconnect = disconnect c;
    place_order = place_order c;
    set_leverage = set_leverage c;
    cancel_order = cancel_order c;
  }

  -- The connection is up, each symbol has one side, no other symbol has a position, the account's
  -- reading is trusted, and an authenticated account has its stream of events.
  pub record IsHealthy (s : HyperliquidAdapter S) : Type 0 where
    pub connected : s.connected ≡ true
    pub ws_connected : c.ws_connected s.inner ≡ true
    pub one_way : s.one_way_ok ≡ true
    pub no_foreign : s.foreign_symbols ≡ []
    pub readable : account_positions_trusted c s.inner ≡ true
    pub streaming : (c.authenticated s.inner ≡ false) ⊎ (c.has_user_stream s.inner ≡ true)

  nothing_foreign_lem : (ts : List String) → nothing_foreign c ts ≡ true → ts ≡ []
  nothing_foreign_lem [] e = refl
  nothing_foreign_lem (t ∷ ts) e = cc

  streaming_lem : (a b : Bool) → (a && not b) ≡ false → (a ≡ false) ⊎ (b ≡ true)
  streaming_lem true true e = inr refl
  streaming_lem true false e = cc
  streaming_lem false b e = inl refl

  worker_state-IsHealthy :
      (s : HyperliquidAdapter S) → worker_state c s ≡ WorkerState.ready → IsHealthy s
  unfolding worker_state
  worker_state-IsHealthy s e = record {
    connected = ground arith;
    ws_connected = ground arith;
    one_way = ground arith;
    no_foreign = nothing_foreign_lem s.foreign_symbols (ground arith);
    readable = ground arith;
    streaming = streaming_lem (c.authenticated s.inner) (c.has_user_stream s.inner) (ground arith);
  }

  refreshed_lem :
      (r : Runtime (HyperliquidAdapter S))
      → refreshed hyperliquid r ≡ WorkerState.ready
      → worker_state c r.inner ≡ WorkerState.ready
  unfolding refreshed
  refreshed_lem r e = elim (Bool-cases r.force_degraded) [
    | inl forced ↦ absurd (degraded_lem (rw forced at e))
    | inr free ↦ rw free at e
  ]

  -- Behind the gate, an order reaches the adapter only if the worker is healthy. In any other state
  -- the order is answered REJECTED, and the adapter with its connector is left as it was.
  pub unhealthy_worker_is_turned_away :
      (now : ℕ) (request : PlaceOrderRequest) (r : Runtime (HyperliquidAdapter S))
      → IsHealthy r.inner
        ⊎ (IsRefused (gate_order hyperliquid now request r).0
            × ((gate_order hyperliquid now request r).1.inner ≡ r.inner))
  unhealthy_worker_is_turned_away now request r =
      elim (place_order-IsPassable hyperliquid now request r) [
        | inl (passable, _, _) ↦
            inl (worker_state-IsHealthy r.inner (refreshed_lem r passable.ready))
        | inr refused ↦ inr refused
      ]

  abbrev Trusted : HyperliquidAdapter S → Type 0
  Trusted s = account_positions_trusted c s.inner ≡ true

  only_trusted :
      {A : Type 0} (a : A)
      → Triple
          (λ s. Unit)
          (gets (trusted c) >>= λ readable.
            if not readable
            then raise (lookup_error "authenticated account read unavailable")
            else pure a)
          (λ _. Trusted)
          (λ s. Unit)
  unfolding raise pure
  only_trusted a = Triple-bind _ _ (Triple-gets _) (λ readable.
      Triple-if _ _ _ (λ e. record { at = λ s h. tt })
        (λ e. record { at = λ s h. sym h.0 ∙ not_lem readable e }))

  get_positions-Trusted : Ends (λ _. Trusted) (get_positions c)
  unfolding get_positions
  get_positions-Trusted = Ends-bind _ _ only_trusted

  get_position-Trusted : (symbol : String) → Ends (λ _. Trusted) (get_position c symbol)
  unfolding get_position pure
  get_position-Trusted symbol =
      Triple-bind _ _ get_positions-Trusted (λ rows. record { at = λ s h. h })

  -- The account can be read: a read-only connector has a user, and what the connector says of its
  -- last reading is no failure.
  pub record IsReadable (u : S) : Type 0 where
    pub user : (c.read_only u ≡ false) ⊎ (c.authenticated u ≡ true)
    pub no_failure : (t : String) → c.account_read u ≡ text t → contains "failed" t ≡ false
    pub positions_read : c.account_read u ≢ text "position_query_unavailable"
    pub balance_read : c.account_read u ≢ text "balance_query_unavailable"

  user_lem :
      (u : S)
      → account_positions_trusted c u ≡ true
      → (c.read_only u ≡ false) ⊎ (c.authenticated u ≡ true)
  unfolding account_positions_trusted
  user_lem u e = user_cases (c.read_only u) (c.authenticated u) _ e

  read_lem :
      (u : S) (t : String)
      → account_positions_trusted c u ≡ true
      → c.account_read u ≡ text t
      → is_failed_read (str_of (text t or text "")) ≡ false
  unfolding account_positions_trusted
  read_lem u t e h = trusted_lem _ _ (rw h at e)

  account_positions_trusted-IsReadable :
      (u : S) → account_positions_trusted c u ≡ true → IsReadable u
  account_positions_trusted-IsReadable u e = record {
    user = user_lem u e;
    no_failure = λ t h. no_failure_lem t (read_lem u t e h);
    positions_read = λ h. position_lem (read_lem u "position_query_unavailable" e h);
    balance_read = λ h. balance_lem (read_lem u "balance_query_unavailable" e h);
  }

  -- A position that is answered, FLAT or not, was read while the account could be read: a read-only
  -- connector without a user, or one that says that its last reading failed, answers none. What the
  -- snapshot itself says of the reading does not count here.
  pub unreadable_is_never_flat :
      (symbol : String) (s : HyperliquidAdapter S) (p : PositionView)
      → (get_position c symbol s).0 ≡ ok p
      → IsReadable (get_position c symbol s).1.inner
  unreadable_is_never_flat symbol s p e =
      account_positions_trusted-IsReadable (get_position c symbol s).1.inner (
        Post-use (λ _. Trusted) (get_position c symbol s).0 (get_position c symbol s).1 p
          ((get_position-Trusted symbol).at s tt) e)

  refused_reads_flat :
      (symbol : String) (s : HyperliquidAdapter S) (snap : Snapshot) (u : S) (mid : Decimal)
      (e : Exn)
      → c.rest_snapshot s.inner ≡ (ok snap, u)
      → decimal_of (elim snap.mid [ none ↦ number s.mid | some v ↦ v ]) ≡ ok mid
      → map_clearinghouse_positions snap.asset_positions s.config.trading_pair ≡ err e
      → str_eq e.type_name "OneWayError" ≡ true
      → account_positions_trusted c u ≡ true
      → ((get_position c symbol s).0 ≡ ok (flat_position symbol))
        × ((get_position c symbol s).1.one_way_ok ≡ false)
  unfolding get_position position_in get_positions refresh_from_connector on_connector lift judged
      gets modify pure raise ◌>>=◌
  refused_reads_flat symbol s snap u mid e snapped decoded hedged one_way readable =
      rw (snapped, decoded, hedged, one_way, readable) (refl, refl)

  not_one_way :
      (s : HyperliquidAdapter S) → s.one_way_ok ≡ false → worker_state c s ≢ WorkerState.ready
  not_one_way s e ready = differ ((worker_state-IsHealthy s ready).one_way) e

  -- An account whose rows show a LONG and a SHORT position in one symbol, and whose reading is
  -- trusted, is answered as FLAT in every symbol; the worker is then not READY.
  pub hedged_account_reads_flat :
      (symbol : String) (s : HyperliquidAdapter S) (snap : Snapshot) (u : S) (mid : Decimal)
      (ps : List ExchangePosition) (hedged : String)
      → c.rest_snapshot s.inner ≡ (ok snap, u)
      → decimal_of (elim snap.mid [ none ↦ number s.mid | some v ↦ v ]) ≡ ok mid
      → map_rows snap.asset_positions s.config.trading_pair ≡ ok ps
      → any (λ (p : ExchangePosition). str_eq p.symbol hedged && is_long p) ps ≡ true
      → any (λ (p : ExchangePosition). str_eq p.symbol hedged && is_short p) ps ≡ true
      → account_positions_trusted c u ≡ true
      → ((get_position c symbol s).0 ≡ ok (flat_position symbol))
        × (worker_state c (get_position c symbol s).1 ≢ WorkerState.ready)
  hedged_account_reads_flat symbol s snap u mid ps hedged snapped decoded rows long short readable =
      let (t, refused) =
        hedged_is_refused snap.asset_positions s.config.trading_pair ps hedged rows long short in
      let (flat, noted) =
        refused_reads_flat symbol s snap u mid (one_way_error t) snapped decoded refused refl
          readable in
      (flat, not_one_way (get_position c symbol s).1 noted)

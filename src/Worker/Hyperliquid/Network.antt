-- ===== src/Worker/Hyperliquid/Network.antt =====
-- hyperliquid_adapter.py: the connection, the refresh from a snapshot, and the state of the worker.
use newhbot.Base.{
  ℕ, String, append, str_eq, Bool, true, false, not, ◌&&◌, ◌||◌, keep, if◌then◌else◌, Option, none,
  some, is_some, List, [], ◌∷◌, map, ◌==◌,
}
use newhbot.Base.Int.{ℤ, pos, negsuc}
use newhbot.Enums.{is_flat}
use newhbot.Protocol.{PositionView}
use newhbot.Action.{Exn, Result, ok, err, Action, pure, raise, gets, modify, attempt, ◌>>=◌, ◌>>◌}
use newhbot.Worker.Raw.{text, number, ◌or◌, str_of, decimal_of, lift}
use newhbot.Worker.Mapping.{ExchangePosition, map_clearinghouse_positions}
use newhbot.Worker.Runtime.{WorkerState}
use newhbot.Worker.Hyperliquid.{
  SyncStatus, Snapshot, Connector, HyperliquidAdapter, is_failed_read, on_connector,
  account_positions_trusted,
}

-- reason or text
abbrev or_reason : Option String → String → Option String
or_reason none reason = some reason
or_reason (some r) reason = if str_eq r "" then some reason else some r

abbrev differs : Option ℤ → ℕ → Bool
differs none expected = false
differs (some (pos n)) expected = not (n == expected)
differs (some (negsuc n)) expected = true

-- The last leverage that a position shows.
abbrev last_leverage : Option ℤ → List ExchangePosition → Option ℤ
last_leverage observed [] = observed
last_leverage observed (p ∷ ps) =
    last_leverage (if is_some p.leverage then p.leverage else observed) ps

abbrev position_view : ExchangePosition → PositionView
position_view p = record {
  symbol = p.symbol;
  side = p.side;
  size = p.size;
  entry_price = p.entry_price;
  unrealized_pnl = p.unrealized_pnl;
}

module _ {S : Type 0} (c : Connector S) where
  -- What a snapshot's positions and the account's reading make of the state.
  unfoldable pub judged :
      Snapshot → Result (List ExchangePosition) → HyperliquidAdapter S → HyperliquidAdapter S
  unfolding is_failed_read str_of
  judged snap mapped s =
      let positions : List ExchangePosition = elim mapped [ ok ps ↦ ps | err e ↦ [] ] in
      let reason1 : Option String = elim mapped [ ok ps ↦ none | err e ↦ some e.message ] in
      let foreign =
        keep (λ t. not (str_eq t s.config.trading_pair))
          (map (λ (p : ExchangePosition). p.symbol) positions) in
      let reason2 : Option String = elim foreign [
        | [] ↦ reason1
        | t ∷ ts ↦ or_reason reason1 "FOREIGN_SYMBOL_POSITION"
      ] in
      let account_read = str_of (snap.account_read or (c.account_read s.inner or text "")) in
      let reason3 =
        if is_failed_read account_read
        then or_reason reason2 "account_state_unknown"
        else reason2 in
      let reason4 =
        if account_positions_trusted c s.inner
        then reason3
        else or_reason reason3 "authenticated account read unavailable" in
      let observed = last_leverage s.observed_leverage positions in
      record s {
        recovery_reason = reason4;
        foreign_symbols = foreign;
        one_way_ok = elim mapped [ ok ps ↦ true | err e ↦ false ];
        observed_leverage = observed;
        leverage_mismatch = differs observed s.config.expected_leverage;
      }

  -- The positions with a side, as the callers see them.
  abbrev pub views : Result (List ExchangePosition) → List PositionView
  views (err e) = []
  views (ok ps) = map position_view (keep (λ (p : ExchangePosition). not (is_flat p.side)) ps)

  -- The part of the refresh that a failure other than OneWayError ends.
  abbrev pub cleared : HyperliquidAdapter S → HyperliquidAdapter S
  cleared s = record s { foreign_symbols = []; one_way_ok = true; recovery_reason = none }

  abbrev pub is_one_way_error : Exn → Bool
  is_one_way_error e = str_eq e.type_name "OneWayError"

  abbrev pub mapped_or_raise :
      Result (List ExchangePosition)
      → Action (HyperliquidAdapter S) (Result (List ExchangePosition))
  mapped_or_raise (ok ps) = pure (ok ps)
  mapped_or_raise (err e) = if is_one_way_error e then pure (err e) else raise e

  unfoldable pub refresh_from_connector : Action (HyperliquidAdapter S) (List PositionView)
  refresh_from_connector = do
    snap ← on_connector c.rest_snapshot
    before ← gets (λ s. s)
    mid ← lift (decimal_of (elim snap.mid [ none ↦ number before.mid | some v ↦ v ]))
    modify (λ s. cleared (record s { mid = mid }))
    mapped ←
        mapped_or_raise
          (map_clearinghouse_positions snap.asset_positions before.config.trading_pair)
    modify (judged snap mapped)
    pure (views mapped)

  unfoldable pub resync_network : Action (HyperliquidAdapter S) Unit
  resync_network = do on_connector c.start_network; _ ← refresh_from_connector; pure tt

  abbrev with_reason : String → HyperliquidAdapter S → HyperliquidAdapter S
  with_reason reason s = record s { recovery_reason = or_reason s.recovery_reason reason }

  -- What connect notes down after the refresh.
  unfoldable pub noted : Bool → String → HyperliquidAdapter S → HyperliquidAdapter S
  unfolding is_failed_read str_of
  noted live_readonly start_error s =
      let s1 =
        if str_eq start_error ""
        then record s { connected = true }
        else with_reason (append "connector start_network failed: " start_error)
            (record s { connected = true }) in
      let s2 =
        if is_failed_read (str_of (c.account_read s.inner or text ""))
        then with_reason "account_state_unknown" s1
        else s1 in
      if live_readonly && not (c.authenticated s.inner)
      then with_reason "read-only: no user address; authenticated positions/fills NOT VERIFIED" s2
      else s2

  unfoldable pub connect : Action (HyperliquidAdapter S) Unit
  connect = do
    live_readonly ← gets (λ s. c.read_only s.inner)
    started ← attempt (on_connector c.start_network)
    _ ← refresh_from_connector
    modify (noted live_readonly (elim started [ ok _ ↦ "" | err e ↦ e.message ]))

  unfoldable pub disconnect : Action (HyperliquidAdapter S) Unit
  disconnect = do on_connector c.stop_network; modify (λ s. record s { connected = false })

  abbrev pub nothing_foreign : List String → Bool
  nothing_foreign [] = true
  nothing_foreign (t ∷ ts) = false

  abbrev pub is_account_unknown : Option String → Bool
  is_account_unknown none = false
  is_account_unknown (some reason) = str_eq reason "account_state_unknown"

  unfoldable pub worker_state : HyperliquidAdapter S → WorkerState
  worker_state s =
      if not s.connected
      then WorkerState.not_ready
      else if not (c.ws_connected s.inner)
      then WorkerState.degraded
      else if not s.one_way_ok || not (nothing_foreign s.foreign_symbols)
      then WorkerState.recovering
      else if not (account_positions_trusted c s.inner)
      then WorkerState.recovering
      else if is_account_unknown s.recovery_reason
      then WorkerState.recovering
      else if c.authenticated s.inner && not (c.has_user_stream s.inner)
      then WorkerState.recovering
      else WorkerState.ready

  unfoldable pub sync_status : HyperliquidAdapter S → SyncStatus
  sync_status s = elim (worker_state s) [
    | WorkerState.ready ↦ SyncStatus.live
    | WorkerState.degraded ↦ SyncStatus.resync
    | WorkerState.recovering ↦ SyncStatus.conflict
    | WorkerState.not_ready ↦ SyncStatus.nothing
  ]

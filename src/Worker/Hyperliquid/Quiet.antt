-- ===== src/Worker/Hyperliquid/Quiet.antt =====
-- hyperliquid_adapter.py: the operations that hand no order to the connector and note no cloid.
use newhbot.Base.{◌≡◌, refl, ℕ, String, Bool, Option, List, arith}
use newhbot.Action.{Result, ok, err, Action, modify}
use newhbot.Action.Moves.{Preorder, Same, Moves, Moves-pure, Moves-raise, Moves-gets, moves_rules}
use newhbot.Decimal.{Decimal}
use newhbot.Protocol.{PlaceOrderRequest}
use newhbot.Worker.Raw.{lift, Fields}
use newhbot.Worker.Mapping.{ExchangePosition}
use newhbot.Worker.Hyperliquid.{
  Connector, HyperliquidAdapter, Snapshot, on_connector, mark_network_down,
}
use newhbot.Worker.Hyperliquid.Network.{
  resync_network, connect, disconnect, refresh_from_connector, mapped_or_raise, judged, noted,
}
use newhbot.Worker.Hyperliquid.Reading.{
  get_balance, get_positions, get_position, get_open_orders, get_order, get_fills, get_market_data,
}
use newhbot.Worker.Hyperliquid.Trading.{
  set_leverage, cancel_order, ioc_price, normalize, answered, resolve_duplicate,
}
use newhbot.Worker.Hyperliquid.Logged.{Logged, unlogged, logged}

-- What of the adapter matters to placing: the orders handed to the connector, the cloids noted as
-- submitted, and whether execution is enabled.
pub record View : Type 0 where
  pub placed : List String
  pub submitted : List String
  pub enabled : Bool

module _ {S : Type 0} where
  abbrev pub view : HyperliquidAdapter (Logged S) → View
  view s = record {
    placed = s.inner.placed;
    submitted = s.submitted_cloids;
    enabled = s.config.execution_enabled;
  }

  abbrev pub Quiet : {A : Type 0} → Action (HyperliquidAdapter (Logged S)) A → Type 0
  Quiet m = Moves (Same view) m

module _ {S A : Type 0} where
  pub lift-Quiet : (r : Result A) → Quiet {S = S} (lift r)
  unfolding lift
  lift-Quiet (ok a) = Moves-pure a
  lift-Quiet (err e) = Moves-raise e

  pub unlogged-Quiet : (m : Action S A) → Quiet {S = S} (on_connector (unlogged m))
  unfolding on_connector unlogged
  unlogged-Quiet m = record { at = λ s. refl }

module _ {S : Type 0} where
  pub modify-Quiet :
      (f : HyperliquidAdapter (Logged S) → HyperliquidAdapter (Logged S))
      → ((s : HyperliquidAdapter (Logged S)) → view (f s) ≡ view s)
      → Quiet (modify f)
  unfolding modify
  modify-Quiet f h = record { at = h }

abbrev pub same : {A : Type 0} (a : A) → a ≡ a
same a = refl

pub ruleset quiet_rules = (moves_rules, lift-Quiet, unlogged-Quiet, modify-Quiet, same)

module _ {S : Type 0} (c : Connector S) where
  pub get_order-Quiet : (cloid : String) → Quiet (get_order (logged c) cloid)
  unfolding get_order
  get_order-Quiet cloid = search (quiet_rules) depth 20

  judged-view :
      (snap : Snapshot) (mapped : Result (List ExchangePosition))
      (s : HyperliquidAdapter (Logged S))
      → view (judged (logged c) snap mapped s) ≡ view s
  unfolding judged
  judged-view snap mapped s = refl

  pub mapped-Quiet :
      (mapped : Result (List ExchangePosition)) → Quiet {S = S} (mapped_or_raise (logged c) mapped)
  mapped-Quiet (ok ps) = Moves-pure _
  mapped-Quiet (err e) = search (quiet_rules)

  pub refresh-Quiet : Quiet (refresh_from_connector (logged c))
  unfolding refresh_from_connector
  refresh-Quiet = search (quiet_rules, judged-view, mapped-Quiet) depth 20

  noted-view :
      (b : Bool) (t : String) (s : HyperliquidAdapter (Logged S))
      → view (noted (logged c) b t s) ≡ view s
  unfolding noted
  noted-view b t s = ground arith

  pub connect-Quiet : Quiet (connect (logged c))
  unfolding connect
  connect-Quiet = search (quiet_rules, noted-view, refresh-Quiet) depth 20

  pub disconnect-Quiet : Quiet (disconnect (logged c))
  unfolding disconnect
  disconnect-Quiet = search (quiet_rules) depth 20

  pub resync_network-Quiet : Quiet (resync_network (logged c))
  unfolding resync_network
  resync_network-Quiet = search (quiet_rules, refresh-Quiet) depth 20

  pub get_balance-Quiet : Quiet (get_balance (logged c))
  unfolding get_balance
  get_balance-Quiet = search (quiet_rules) depth 20

  pub get_positions-Quiet : Quiet (get_positions (logged c))
  unfolding get_positions
  get_positions-Quiet = search (quiet_rules, refresh-Quiet) depth 20

  pub get_position-Quiet : (symbol : String) → Quiet (get_position (logged c) symbol)
  unfolding get_position
  get_position-Quiet symbol = search (quiet_rules, get_positions-Quiet) depth 20

  pub get_open_orders-Quiet : (symbol : Option String) → Quiet (get_open_orders (logged c) symbol)
  unfolding get_open_orders
  get_open_orders-Quiet symbol = search (quiet_rules) depth 20

  pub get_fills-Quiet : Quiet (get_fills (logged c))
  unfolding get_fills
  get_fills-Quiet = search (quiet_rules) depth 20

  pub get_market_data-Quiet : (symbol : String) → Quiet (get_market_data (logged c) symbol)
  unfolding get_market_data
  get_market_data-Quiet symbol = search (quiet_rules, refresh-Quiet) depth 20

  pub set_leverage-Quiet : (symbol : String) (n : ℕ) → Quiet (set_leverage (logged c) symbol n)
  unfolding set_leverage
  set_leverage-Quiet symbol n = search (quiet_rules) depth 20

  pub cancel_order-Quiet : (cloid t : String) → Quiet (cancel_order (logged c) cloid t)
  unfolding cancel_order
  cancel_order-Quiet cloid t = search (quiet_rules, get_order-Quiet) depth 20

  pub ioc_price-Quiet : (r : PlaceOrderRequest) → Quiet (ioc_price (logged c) r)
  unfolding ioc_price
  ioc_price-Quiet r = search (quiet_rules) depth 20

  pub normalize-Quiet : (r : PlaceOrderRequest) (d : Decimal) → Quiet (normalize (logged c) r d)
  unfolding normalize
  normalize-Quiet r d = search (quiet_rules) depth 20

  pub answered-Quiet :
      (r : PlaceOrderRequest) (f : Fields) → Quiet {S = S} (answered (logged c) r f)
  unfolding answered
  answered-Quiet r f = search (quiet_rules) depth 20

  pub resolve_duplicate-Quiet : (r : PlaceOrderRequest) → Quiet (resolve_duplicate (logged c) r)
  unfolding resolve_duplicate
  resolve_duplicate-Quiet r = search (quiet_rules, get_order-Quiet) depth 20

  pub losing_network-Quiet : Quiet (modify (mark_network_down (logged c)))
  unfolding mark_network_down
  losing_network-Quiet = search (quiet_rules)

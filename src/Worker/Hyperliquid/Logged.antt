-- ===== src/Worker/Hyperliquid/Logged.antt =====
-- A connector that notes the cloid of each order that is handed to it, and the life of an adapter as
-- a sequence of requests. A request that fails leaves the adapter as it stands, and the worker goes
-- on.
use newhbot.Base.{ℕ, String, Option, List, [], ◌∷◌}
use newhbot.Decimal.{Decimal}
use newhbot.Protocol.{PlaceOrderRequest}
use newhbot.Action.{Action, modify, pure, ◌>>=◌, ◌>>◌}
use newhbot.Worker.Hyperliquid.{Connector, HyperliquidAdapter, mark_network_down}
use newhbot.Worker.Hyperliquid.Network.{resync_network, connect, disconnect, refresh_from_connector}
use newhbot.Worker.Hyperliquid.Reading.{
  get_balance, get_position, get_open_orders, get_order, get_fills, get_market_data,
}
use newhbot.Worker.Hyperliquid.Trading.{
  set_leverage, place_order, open_long, open_short, close_position, cancel_order,
}

-- A connector's state, and the cloids of the calls of `place`, the last one first.
pub record Logged (S : Type 0) : Type 0 where
  pub connector : S
  pub placed : List String

module _ {S A : Type 0} where
  unfoldable pub unlogged : Action S A → Action (Logged S) A
  unlogged m l = let (r, s) = m l.connector in (r, record l { connector = s })

module _ {S : Type 0} where
  unfoldable pub note_cloid : String → Action (Logged S) Unit
  note_cloid cloid = modify (λ l. record l { placed = cloid ∷ l.placed })

  abbrev pub logged : Connector S → Connector (Logged S)
  logged c = record {
    read_only = λ l. c.read_only l.connector;
    authenticated = λ l. c.authenticated l.connector;
    has_user_stream = λ l. c.has_user_stream l.connector;
    ws_connected = λ l. c.ws_connected l.connector;
    execution_enabled = λ l. c.execution_enabled l.connector;
    account_read = λ l. c.account_read l.connector;
    ws_down = λ l. record l { connector = c.ws_down l.connector };
    start_network = unlogged c.start_network;
    stop_network = unlogged c.stop_network;
    rest_snapshot = unlogged c.rest_snapshot;
    place = λ wire. note_cloid wire.cloid >> unlogged (c.place wire);
    cancel = λ cloid. unlogged (c.cancel cloid);
    get_order = λ cloid. unlogged (c.get_order cloid);
    get_fills = unlogged c.get_fills;
    set_leverage = λ symbol leverage. unlogged (c.set_leverage symbol leverage);
    quantize_order_price = λ symbol price. unlogged (c.quantize_order_price symbol price);
    quantize_order_amount = λ symbol amount. unlogged (c.quantize_order_amount symbol amount);
    trading_rule = λ symbol. unlogged (c.trading_rule symbol);
  }

-- The requests to an adapter. `configured` is what the runtime's configure sets.
pub data Operation : Type 0 where
  placing opening_long opening_short closing : PlaceOrderRequest → Operation
  canceling : String → String → Operation
  leveraging : String → ℕ → Operation
  connecting disconnecting resyncing refreshing losing_network asking_balance asking_fills :
      Operation
  asking_position asking_order asking_market : String → Operation
  asking_orders : Option String → Operation
  configured : String → Decimal → ℕ → Operation

module _ {A B : Type 0} where
  abbrev pub ignored : Action A B → Action A Unit
  ignored m = do _ ← m; pure tt

module _ {S : Type 0} (c : Connector S) where
  unfoldable pub perform : Operation → Action (HyperliquidAdapter S) Unit
  perform (Operation.placing r) = ignored (place_order c r)
  perform (Operation.opening_long r) = ignored (open_long c r)
  perform (Operation.opening_short r) = ignored (open_short c r)
  perform (Operation.closing r) = ignored (close_position c r)
  perform (Operation.canceling cloid request_id) = ignored (cancel_order c cloid request_id)
  perform (Operation.leveraging symbol leverage) = set_leverage c symbol leverage
  perform Operation.connecting = connect c
  perform Operation.disconnecting = disconnect c
  perform Operation.resyncing = resync_network c
  perform Operation.refreshing = ignored (refresh_from_connector c)
  perform Operation.losing_network = modify (mark_network_down c)
  perform Operation.asking_balance = ignored (get_balance c)
  perform Operation.asking_fills = ignored (get_fills c)
  perform (Operation.asking_position symbol) = ignored (get_position c symbol)
  perform (Operation.asking_order cloid) = ignored (get_order c cloid)
  perform (Operation.asking_market symbol) = ignored (get_market_data c symbol)
  perform (Operation.asking_orders symbol) = ignored (get_open_orders c symbol)
  perform (Operation.configured pair slippage leverage) = modify (λ s. record s {
    config = record s.config {
      trading_pair = pair;
      slippage = slippage;
      expected_leverage = leverage;
    };
  })

  -- The adapter after the requests, one after the other.
  unfoldable pub after : List Operation → HyperliquidAdapter S → HyperliquidAdapter S
  unfolding perform
  after [] s = s
  after (op ∷ ops) s = after ops (perform op s).1

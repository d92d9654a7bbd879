-- ===== src/Worker/Hyperliquid/Placing.antt =====
-- hyperliquid_adapter.py: which orders reach the connector over the life of an adapter.
use newhbot.Base.{
  ◌≡◌, refl, sym, ap, ◌∙◌, ℕ, ◌≤◌, String, str_eq, eq_iff, true, false, not, any, count_if, List,
  [], ◌∷◌, if◌then◌else◌, arith, inl, inr, ◌⊎◌,
}
use newhbot.Action.{Result, ok, err, Action, pure, modify, ◌>>=◌}
use newhbot.Action.Moves.{Keeping, Moves, moves_rules}
use newhbot.Action.Triple.{
  Triple, Triple-bind, Triple-gets, Triple-if, Triple-try_except, Triple-weaken, Triple-always,
  Triple-modify, Triple-given, Triple-after, Post,
}
use newhbot.Action.Returns.{Returns, OfReturned, returns_rules}
use newhbot.Decimal.{Decimal}
use newhbot.Protocol.{PlaceOrderRequest}
use newhbot.Worker.Runtime.{WorkerConfig}
use newhbot.Worker.Hyperliquid.{Connector, HyperliquidAdapter, Wire, on_connector, new_adapter}
use newhbot.Worker.Hyperliquid.Trading.{
  place_order, open_long, open_short, close_position, ioc_price, normalize, submit, send,
  is_unarmed, rejected, wire_of,
}
use newhbot.Worker.Hyperliquid.Logged.{
  Logged, unlogged, note_cloid, logged, Operation, perform, after, ignored,
}
use newhbot.Worker.Hyperliquid.Quiet.{
  View, view, Quiet, quiet_rules, losing_network-Quiet, get_order-Quiet, refresh-Quiet,
  connect-Quiet, disconnect-Quiet, resync_network-Quiet, get_balance-Quiet, get_position-Quiet,
  get_open_orders-Quiet, get_fills-Quiet, get_market_data-Quiet, set_leverage-Quiet,
  cancel_order-Quiet, ioc_price-Quiet, normalize-Quiet, answered-Quiet, resolve_duplicate-Quiet,
}

-- The view after the order of that cloid is handed to the connector.
abbrev with_placed : String → View → View
with_placed cloid v = record v { placed = cloid ∷ v.placed }

abbrev with_submitted : String → View → View
with_submitted cloid v = record v { submitted = cloid ∷ v.submitted }

-- No order of that cloid was submitted.
abbrev Fresh : String → View → Type 0
Fresh cloid v = any (λ t. str_eq t cloid) v.submitted ≡ false

module _ {S A : Type 0} (Q : View → Type 0) where
  quiet_keeps :
      (m : Action (HyperliquidAdapter (Logged S)) A)
      → Quiet m
      → Triple (λ s. Q (view s)) m (λ _ s. Q (view s)) (λ s. Q (view s))
  quiet_keeps m h = Triple-always m (λ s q. rw (h.at s) q)

  -- With what is known of the returned value.
  quiet_returns :
      (R : A → Type 0) (m : Action (HyperliquidAdapter (Logged S)) A)
      → Quiet m
      → Returns R m
      → Triple (λ s. Q (view s)) m (λ a s. R a × Q (view s)) (λ s. Q (view s))
  quiet_returns R m h k = record { at = λ s q. both_hold (m s).0 (m s).1 (k.at s) (rw (h.at s) q) }
    where
      both_hold :
          (r : Result A) (s : HyperliquidAdapter (Logged S))
          → OfReturned R r
          → Q (view s)
          → Post (λ a u. R a × Q (view u)) (λ u. Q (view u)) r s
      both_hold (ok a) s x q = (x, q)
      both_hold (err e) s x q = q

enabled_there :
    {S : Type 0} (a s : HyperliquidAdapter (Logged S))
    → not a.config.execution_enabled ≡ false
    → a ≡ s
    → s.config.execution_enabled ≡ true
enabled_there {S} a s e p =
    ground (arith, ap (λ (x : HyperliquidAdapter (Logged S)). x.config.execution_enabled) p)

same_cloid : (a b : PlaceOrderRequest) → a.cloid ≡ b.cloid → (wire_of a).cloid ≡ b.cloid
unfolding wire_of
same_cloid a b e = e

module _ {S : Type 0} (c : Connector S) (r : PlaceOrderRequest) where
  abbrev SameCloid : PlaceOrderRequest → Type 0
  SameCloid a = a.cloid ≡ r.cloid

  normalize-Returns : (d : Decimal) → Returns SameCloid (normalize c r d)
  unfolding normalize
  normalize-Returns d = search (returns_rules) depth 20

  priced-Returns : Returns SameCloid (ioc_price c r >>= normalize c r)
  priced-Returns = search (returns_rules, normalize-Returns)

  priced-Quiet : Quiet (ioc_price (logged c) r >>= normalize (logged c) r)
  priced-Quiet = search (quiet_rules, ioc_price-Quiet, normalize-Quiet)

module _ {S : Type 0} (c : Connector S) (P : View → Type 0)
    (step : (cloid : String) (s : HyperliquidAdapter (Logged S))
      → P (view s)
      → Fresh cloid (view s)
      → s.config.execution_enabled ≡ true
      → is_unarmed c s.inner.connector ≡ false
      → P (with_placed cloid (with_submitted cloid (view s)))) where
  abbrev Holds : HyperliquidAdapter (Logged S) → Type 0
  Holds s = P (view s)

  abbrev Kept : {A : Type 0} → Action (HyperliquidAdapter (Logged S)) A → Type 0
  Kept m = Triple Holds m (λ _. Holds) Holds

  -- Before an order of that cloid may be handed over.
  abbrev Ready : String → HyperliquidAdapter (Logged S) → Type 0
  Ready cloid s = P (view s) × Fresh cloid (view s)

  place_keeps :
      (r : PlaceOrderRequest) (w : Wire)
      → w.cloid ≡ r.cloid
      → Triple
          (λ s. P (with_placed r.cloid (view s)))
          (on_connector ((logged c).place w))
          (λ _. Holds)
          Holds
  unfolding on_connector note_cloid unlogged modify ◌>>=◌
  place_keeps r w e = Triple-always _ (λ s p. rw e p)

  submit_keeps :
      (r : PlaceOrderRequest) (w : Wire)
      → w.cloid ≡ r.cloid
      → Triple
          (λ s. P (with_placed r.cloid (with_submitted r.cloid (view s))))
          (submit (logged c) r w)
          (λ _. Holds)
          Holds
  unfolding submit
  submit_keeps r w e =
      Triple-bind _ _ (Triple-modify (λ s. P (with_placed r.cloid (view s))) _) (λ _.
        Triple-try_except _ _ _ (place_keeps r w e) (λ x. quiet_keeps P _ (search (quiet_rules)))
          (λ a. quiet_keeps P _ (answered-Quiet c r a)))

  send_keeps :
      (r normalized : PlaceOrderRequest)
      → normalized.cloid ≡ r.cloid
      → Triple (Ready r.cloid) (send (logged c) r normalized) (λ _. Holds) Holds
  unfolding send
  send_keeps r normalized e = Triple-bind _ _ (Triple-modify (Ready r.cloid) _) (λ _.
      Triple-bind _ _ (Triple-gets _) (λ a.
        Triple-if _ _ _
          (λ off. Triple-weaken _ (λ s h. h.1.0) (quiet_keeps P _ (search (quiet_rules))))
          (λ on.
            Triple-if (is_unarmed (logged c) a.inner)
              (pure (rejected r "read-only connector; place/cancel/leverage forbidden")) _
              (λ unarmed. Triple-weaken _ (λ s h. h.1.0) (quiet_keeps P _ (search (quiet_rules))))
              (λ armed.
                Triple-weaken _
                  (λ s h. step r.cloid s h.1.0 h.1.1 (enabled_there a s on h.0) (rw h.0 at armed))
                  (submit_keeps r (wire_of normalized) (same_cloid normalized r e))))))

  place_order_keeps : (r : PlaceOrderRequest) → Kept (place_order (logged c) r)
  unfolding place_order
  place_order_keeps r = Triple-bind _ _ (Triple-gets _) (λ known.
      Triple-if known _ _
        (λ e. Triple-weaken _ (λ s h. h.1) (quiet_keeps P _ (resolve_duplicate-Quiet c r)))
        (λ e.
          Triple-weaken _ (λ s h. (h.1, sym h.0 ∙ e))
            (Triple-try_except _ _ _
              (quiet_returns (λ v. P v × Fresh r.cloid v) (SameCloid c r) _ (priced-Quiet c r)
                (priced-Returns (logged c) r))
              (λ x. Triple-weaken _ (λ s h. h.0) (quiet_keeps P _ (search (quiet_rules))))
              (λ normalized. Triple-given _ (send_keeps r normalized)))))

  abbrev Keeps : {A : Type 0} → Action (HyperliquidAdapter (Logged S)) A → Type 0
  Keeps m = Moves (Keeping Holds) m

  quiet : {A : Type 0} (m : Action (HyperliquidAdapter (Logged S)) A) → Quiet m → Keeps m
  quiet m h = record { at = λ s p. rw (h.at s) p }

  placing : (r : PlaceOrderRequest) → Keeps (place_order (logged c) r)
  placing r = record { at = Triple-after _ (place_order_keeps r) }

  opening_long : (r : PlaceOrderRequest) → Keeps (open_long (logged c) r)
  unfolding open_long
  opening_long r = placing _

  opening_short : (r : PlaceOrderRequest) → Keeps (open_short (logged c) r)
  unfolding open_short
  opening_short r = placing _

  closing : (r : PlaceOrderRequest) → Keeps (close_position (logged c) r)
  unfolding close_position
  closing r = placing _

  ignoring :
      {A : Type 0} (m : Action (HyperliquidAdapter (Logged S)) A) → Keeps m → Keeps (ignored m)
  ignoring m h = search (moves_rules, h)

  performing : (op : Operation) → Keeps (perform (logged c) op)
  unfolding perform
  performing (Operation.placing r) = ignoring _ (placing r)
  performing (Operation.opening_long r) = ignoring _ (opening_long r)
  performing (Operation.opening_short r) = ignoring _ (opening_short r)
  performing (Operation.closing r) = ignoring _ (closing r)
  performing (Operation.canceling t u) = ignoring _ (quiet _ (cancel_order-Quiet c t u))
  performing (Operation.leveraging t n) = quiet _ (set_leverage-Quiet c t n)
  performing Operation.connecting = quiet _ (connect-Quiet c)
  performing Operation.disconnecting = quiet _ (disconnect-Quiet c)
  performing Operation.resyncing = quiet _ (resync_network-Quiet c)
  performing Operation.refreshing = ignoring _ (quiet _ (refresh-Quiet c))
  performing Operation.losing_network = quiet _ (losing_network-Quiet c)
  performing Operation.asking_balance = ignoring _ (quiet _ (get_balance-Quiet c))
  performing Operation.asking_fills = ignoring _ (quiet _ (get_fills-Quiet c))
  performing (Operation.asking_position t) = ignoring _ (quiet _ (get_position-Quiet c t))
  performing (Operation.asking_order t) = ignoring _ (quiet _ (get_order-Quiet c t))
  performing (Operation.asking_market t) = ignoring _ (quiet _ (get_market_data-Quiet c t))
  performing (Operation.asking_orders t) = ignoring _ (quiet _ (get_open_orders-Quiet c t))
  performing (Operation.configured t d n) = quiet _ (search (quiet_rules))

  after_keeps :
      (ops : List Operation) (s : HyperliquidAdapter (Logged S))
      → Holds s
      → Holds (after (logged c) ops s)
  unfolding after
  after_keeps [] s p = p
  after_keeps (op ∷ ops) s p = after_keeps ops _ ((performing op).at s p)

-- How many orders of the cloid were handed to the connector.
abbrev pub times_placed : String → List String → ℕ
times_placed cloid placed = count_if (λ t. str_eq t cloid) placed

-- No cloid was handed over twice, and none that is not noted as submitted.
abbrev PlacedOnce : View → Type 0
PlacedOnce v =
    (t : String) → times_placed t v.placed ≤ (if any (λ u. str_eq u t) v.submitted then 1 else 0)

placed_again :
    (cloid : String) (v : View)
    → PlacedOnce v
    → Fresh cloid v
    → PlacedOnce (with_placed cloid (with_submitted cloid v))
placed_again cloid v h f t = ground (arith, h t, f, eq_iff cloid t)

module _ {S : Type 0} (c : Connector S) (config : WorkerConfig) (s : S) (ops : List Operation) where
  -- An adapter with a connector that was not called yet, after the requests.
  abbrev pub used : HyperliquidAdapter (Logged S)
  used = after (logged c) ops (new_adapter config (record { connector = s; placed = [] }))

  -- For any connector and any sequence of requests to a new adapter, failed ones included, each
  -- cloid is handed to the connector's `place` at most once.
  pub placed_at_most_once : (cloid : String) → times_placed cloid used.inner.placed ≤ 1
  placed_at_most_once cloid =
      let new : HyperliquidAdapter (Logged S) =
        new_adapter config (record { connector = s; placed = [] }) in
      let once : PlacedOnce (view used) =
        after_keeps c PlacedOnce (λ t u p f e h. placed_again t (view u) p f) ops new
          (λ t. omega arith) in
      ground (arith, once cloid)

  -- With execution disabled, or with a connector that is always read-only and never armed, no
  -- sequence of requests hands any order to the connector.
  pub unarmed_places_nothing :
      (config.execution_enabled ≡ false) ⊎ ((u : S) → is_unarmed c u ≡ true)
      → used.inner.placed ≡ []
  unarmed_places_nothing (inl off) =
      (after_keeps c (λ v. (v.placed ≡ []) × (v.enabled ≡ false))
        (λ t u p f e h. absurd (cc (p.1, e))) ops _ (refl, off)).0
  unarmed_places_nothing (inr unarmed) =
      after_keeps c (λ v. v.placed ≡ []) (λ t u p f e h. absurd (cc (unarmed u.inner.connector, h)))
        ops _ refl

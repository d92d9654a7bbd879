-- ===== src/Worker/Hyperliquid/Limits.antt =====
-- hyperliquid_adapter.py: the sizes of the orders that pass the normalization.
use newhbot.Base.{◌≡◌, refl, ◌⊎◌, inl, inr, ◌&&◌, not, Bool, true, false, some}
use newhbot.Decimal.{Decimal, lt, mul, positive}
use newhbot.Action.{ok}
use newhbot.Action.Returns.{
  Returns, OfReturned-use, Returns-bind, Returns-bind_with, Returns-if_with, Returns-pure,
  Returns-raise,
}
use newhbot.Protocol.{PlaceOrderRequest}
use newhbot.Worker.Mapping.{InstrumentMeta}
use newhbot.Worker.Hyperliquid.{Connector, HyperliquidAdapter, on_connector}
use newhbot.Worker.Hyperliquid.Trading.{normalize}

-- The order `q` that is sent for a request: its quantity is positive and not below the least size,
-- and unless it only reduces a position, the notional at its price is not below the least one.
pub record IsInLimits (rule : InstrumentMeta) (request q : PlaceOrderRequest) : Type 0 where
  pub price : Decimal
  pub priced : q.price ≡ some price
  pub positive_quantity : positive q.quantity ≡ true
  pub least_size : lt q.quantity rule.min_order_size ≡ false
  pub least_notional :
      (request.reduce_only ≡ true) ⊎ (lt (mul q.quantity price) rule.min_notional ≡ false)
  pub same_cloid : q.cloid ≡ request.cloid
  pub same_side : q.side ≡ request.side
  pub same_direction : q.reduce_only ≡ request.reduce_only

either : (b n : Bool) → (not b && n) ≡ false → (b ≡ true) ⊎ (n ≡ false)
either true n e = inl refl
either false n e = inr e

positive_of : (b : Bool) → not b ≡ false → b ≡ true
positive_of true e = refl
positive_of false e = cc

sized_by :
    (r rule : InstrumentMeta) (qty : Decimal)
    → r ≡ rule
    → lt qty r.min_order_size ≡ false
    → lt qty rule.min_order_size ≡ false
sized_by r rule qty same e = rw same at e

valued_by :
    (r rule : InstrumentMeta) (d : Decimal) (b : Bool)
    → r ≡ rule
    → (not b && lt d r.min_notional) ≡ false
    → (b ≡ true) ⊎ (lt d rule.min_notional ≡ false)
valued_by r rule d b same e = either b (lt d rule.min_notional) (rw same at e)

module _ {S : Type 0} (c : Connector S) (rule : InstrumentMeta) (request : PlaceOrderRequest) where
  rule_read :
      ((u : S) → (c.trading_rule request.symbol u).0 ≡ ok rule)
      → Returns (λ r. r ≡ rule) (on_connector (c.trading_rule request.symbol))
  unfolding on_connector
  rule_read h = record { at = λ s. rw (h s.inner) refl }

  normalize-Returns :
      (price : Decimal)
      → ((u : S) → (c.trading_rule request.symbol u).0 ≡ ok rule)
      → Returns (IsInLimits rule request) (normalize c request price)
  unfolding normalize
  normalize-Returns price h = Returns-bind _ _ (λ qty. Returns-bind _ _ (λ px.
      Returns-bind_with (λ r. r ≡ rule) _ _ _ (rule_read h)
        (λ r same.
          Returns-if_with _ _ _ (λ _. Returns-raise _)
            (λ sized.
              Returns-if_with _ _ _ (λ _. Returns-raise _)
                (λ large.
                  Returns-if_with (not request.reduce_only && lt (mul qty px) r.min_notional) _ _
                    (λ _. Returns-raise _)
                    (λ valued. Returns-pure _ (record {
                      price = px;
                      priced = refl;
                      positive_quantity = positive_of (positive qty) sized;
                      least_size = sized_by r rule qty same large;
                      least_notional =
                          valued_by r rule (mul qty px) request.reduce_only same valued;
                      same_cloid = refl;
                      same_side = refl;
                      same_direction = refl;
                    })))))))

  -- Under the exchange's rule for the symbol, the normalization returns only orders within the
  -- limits, for the same cloid, side and direction; every other request raises.
  pub normalize-IsInLimits :
      (price : Decimal) (s : HyperliquidAdapter S) (q : PlaceOrderRequest)
      → ((u : S) → (c.trading_rule request.symbol u).0 ≡ ok rule)
      → (normalize c request price s).0 ≡ ok q
      → IsInLimits rule request q
  normalize-IsInLimits price s q h e =
      OfReturned-use (IsInLimits rule request) (normalize c request price s).0 q
        ((normalize-Returns price h).at s) e

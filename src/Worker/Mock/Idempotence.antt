-- ===== src/Worker/Mock/Idempotence.antt =====
-- mock_adapter.py: an order is known by its cloid from its acceptance on, so that it is placed once.
use newhbot.Base.{
  ◌≡◌, refl, ap, ◌⊎◌, String, eq_refl, Bool, true, false, any, map_if, find?, is_some, none, List,
  [], ◌∷◌, Bool-cases, any-append_last, arith, inl, inr,
}
use newhbot.Action.{pure, raise, gets, modify, ◌>>=◌, on_option}
use newhbot.Action.Moves.{Moves, Moves-bind, Moves-gets, Moves-pure, Keeping, moves_rules}
use newhbot.Protocol.{PlaceOrderRequest, OrderView}
use newhbot.Decimal.{Decimal}
use newhbot.Enums.{OrderStatus}
use newhbot.Worker.Mock.{
  MockExchange, PlaceBehavior, put, has_cloid, place_order, accept, settle, fill_order, is_network,
  apply_fill,
}

-- The exchange has an order of that cloid.
abbrev Known : String → MockExchange → Type 0
Known cloid s = any (has_cloid cloid) s.orders ≡ true

module _ {A : Type 0} (p : A → Bool) (x : A) where
  any-map_if : (xs : List A) → p x ≡ true → any p xs ≡ true → any p (map_if p (λ _. x) xs) ≡ true
  any-map_if [] h e = cc
  any-map_if (y ∷ ys) h e = elim (Bool-cases (p y)) [
    | inl yes_y ↦ rw (yes_y, h) refl
    | inr no_y ↦ rw (no_y, no_y) (any-map_if ys h (rw no_y at e))
  ]

  any-put : (xs : List A) → p x ≡ true → any p (put p x xs) ≡ true
  any-put xs h = elim (Bool-cases (any p xs)) [
    | inl there ↦ rw (there, any-map_if xs h there) refl
    | inr absent ↦ rw absent (any-append_last p xs x h)
  ]

module _ {A : Type 0} (p : A → Bool) where
  find?-any : (xs : List A) → any p xs ≡ true → is_some (find? p xs) ≡ true
  find?-any [] e = e
  find?-any (y ∷ ys) e = elim (Bool-cases (p y)) [
    | inl yes_y ↦ rw yes_y refl
    | inr no_y ↦ rw no_y (find?-any ys (rw no_y at e))
  ]

  find?-none : (xs : List A) → any p xs ≡ false → find? p xs ≡ none
  find?-none [] e = refl
  find?-none (y ∷ ys) e = elim (Bool-cases (p y)) [
    | inl yes_y ↦ ground (arith, yes_y)
    | inr no_y ↦ rw no_y (find?-none ys (rw no_y at e))
  ]

module _ (cloid : String) where
  modify-Known :
      (f : MockExchange → MockExchange)
      → ((s : MockExchange) → Known cloid s → Known cloid (f s))
      → Moves (Keeping (Known cloid)) (modify f)
  unfolding modify
  modify-Known f h = record { at = h }

  apply_fill-Known :
      (r : PlaceOrderRequest) (d : Decimal) → Moves (Keeping (Known cloid)) (apply_fill r d)
  unfolding apply_fill
  apply_fill-Known r d = modify-Known _ (λ s h. ground (arith, h))

  -- Nothing is done for a cloid that the exchange knows.
  place_order-Known :
      (r : PlaceOrderRequest) (s : MockExchange)
      → r.cloid ≡ cloid
      → Known cloid s
      → (place_order r s).1 ≡ s
  unfolding place_order gets raise pure on_option ◌>>=◌
  place_order-Known r s e h = ground (arith, find?-any (has_cloid r.cloid) s.orders)

module _ (o : OrderView) where
  fill_order-Known :
      (r : PlaceOrderRequest) (t : String) (x : OrderStatus) (d : Decimal)
      → Moves (Keeping (Known o.cloid)) (fill_order r o t x d)
  unfolding fill_order
  fill_order-Known r t x d =
      Moves-bind _ _
        (modify-Known o.cloid _ (λ s h. any-put (has_cloid o.cloid) _ s.orders (eq_refl o.cloid)))
        λ _. Moves-bind _ _ (Moves-gets _) λ mid.
          Moves-bind _ _ (modify-Known o.cloid _ (λ s h. h))
            λ _. Moves-bind _ _ (apply_fill-Known o.cloid r d) λ _. Moves-pure _

  settle-Known :
      (b : PlaceBehavior) (r : PlaceOrderRequest) (t : String)
      → Moves (Keeping (Known o.cloid)) (settle b r o t)
  unfolding settle
  settle-Known PlaceBehavior.timeout_after_accept r t = search (moves_rules) depth 20
  settle-Known PlaceBehavior.reject r t =
      Moves-bind _ _
        (modify-Known o.cloid _ (λ s h. any-put (has_cloid o.cloid) _ s.orders (eq_refl o.cloid)))
        λ _. search (moves_rules) depth 20
  settle-Known PlaceBehavior.opened r t = search (moves_rules) depth 20
  settle-Known PlaceBehavior.partial r t = fill_order-Known r t _ _
  settle-Known _ r t = fill_order-Known r t _ _

-- However it ends, `accept` leaves the order known.
accept_lem : (r : PlaceOrderRequest) (s : MockExchange) → Known r.cloid (accept r s).1
unfolding accept gets modify ◌>>=◌
accept_lem r s =
    (settle-Known _ s.behavior r _).at _ (any-put (has_cloid r.cloid) _ s.orders (eq_refl r.cloid))

-- Placing leaves the exchange as it was, or with the order known.
place_order_lem :
    (r : PlaceOrderRequest) (s : MockExchange)
    → ((place_order r s).1 ≡ s) ⊎ Known r.cloid (place_order r s).1
unfolding place_order gets raise pure on_option ◌>>=◌
place_order_lem r s = elim (Bool-cases (any (has_cloid r.cloid) s.orders)) [
  | inl known ↦ inl (place_order-Known r.cloid r s refl known)
  | inr absent ↦ elim (Bool-cases s.connected) [
    | inr down ↦ inl (rw down refl)
    | inl up ↦ elim (Bool-cases (is_network s.behavior)) [
      | inl network ↦ inl (rw (up, network) refl)
      | inr reached ↦ inr (
          rw (up, reached, find?-none (has_cloid r.cloid) s.orders absent)
            (accept_lem r (record s { connected = true })))
    ]
  ]
]

-- Sending a request again changes nothing, whatever became of it the first time: a filled or
-- rejected order is not placed twice, nor one whose first answer was a timeout after acceptance.
pub place_order_twice :
    (r : PlaceOrderRequest) (s : MockExchange)
    → (place_order r (place_order r s).1).1 ≡ (place_order r s).1
place_order_twice r s = elim (place_order_lem r s) [
  | inl same ↦ ap (λ u. (place_order r u).1) same
  | inr known ↦ place_order-Known r.cloid r (place_order r s).1 refl known
]

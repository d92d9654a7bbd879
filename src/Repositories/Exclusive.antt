-- ===== src/Repositories/Exclusive.antt =====
-- ReservationRepository and the table `orders`: one opening intent at a time.
use newhbot.Base.{
  ◌≡◌, ◌≢◌, refl, sym, ap, ◌∙◌, not, ◌+◌, ◌≤◌, String, str_eq, eq_iff, Bool, true, false, ◌&&◌,
  ◌||◌, any, count_if, List, [], ◌∷◌, ◌++◌, Bool-cases, arith, inl, inr, some, is_some,
}
use newhbot.Enums.{OrderStatus, is_inflight}
use newhbot.Action.{ok}
use newhbot.Models.{Order}
use newhbot.World.{World}
use newhbot.Repositories.Orders
use newhbot.Repositories.Reservation

-- Nothing more becomes of an order of that status.
abbrev is_over : OrderStatus → Bool
is_over OrderStatus.filled = true
is_over OrderStatus.rejected = true
is_over OrderStatus.canceled = true
is_over _ = false

-- The opening orders of one symbol that are not over.
abbrev pub inflight_at : String → Order → Bool
inflight_at symbol o = (not o.reduce_only && not (is_over o.status)) && str_eq o.symbol symbol

is_indexed_lem : (t : OrderStatus) → Orders.is_indexed t ≡ not (is_over t)
unfolding Orders.is_indexed
is_indexed_lem OrderStatus.pending_submission = refl
is_indexed_lem OrderStatus.submitting = refl
is_indexed_lem OrderStatus.ack = refl
is_indexed_lem OrderStatus.opened = refl
is_indexed_lem OrderStatus.partial = refl
is_indexed_lem OrderStatus.filled = refl
is_indexed_lem OrderStatus.rejected = refl
is_indexed_lem OrderStatus.canceled = refl
is_indexed_lem OrderStatus.unknown = refl

is_inflight_lem : (t : OrderStatus) → is_inflight t ≡ not (is_over t)
is_inflight_lem OrderStatus.pending_submission = refl
is_inflight_lem OrderStatus.submitting = refl
is_inflight_lem OrderStatus.ack = refl
is_inflight_lem OrderStatus.opened = refl
is_inflight_lem OrderStatus.partial = refl
is_inflight_lem OrderStatus.filled = refl
is_inflight_lem OrderStatus.rejected = refl
is_inflight_lem OrderStatus.canceled = refl
is_inflight_lem OrderStatus.unknown = refl

-- The index counts the opening orders that are not over.
is_inflight_open_lem :
    (o : Order) → Orders.is_inflight_open o ≡ (not o.reduce_only && not (is_over o.status))
unfolding Orders.is_inflight_open
is_inflight_open_lem o = rw (is_indexed_lem o.status) refl

-- For each symbol, at most one opening order is not over.
abbrev pub OneInflight : List Order → Type 0
OneInflight orders = (symbol : String) → count_if (inflight_at symbol) orders ≤ 1

module _ {A : Type 0} (p : A → Bool) where
  count_if-none : (xs : List A) → any p xs ≡ false → count_if p xs ≡ 0
  count_if-none [] e = refl
  count_if-none (x ∷ xs) e = ground (arith, count_if-none xs)

  count_if-append : (xs ys : List A) → count_if p (xs ++ ys) ≡ count_if p xs + count_if p ys
  count_if-append [] ys = omega arith
  count_if-append (x ∷ xs) ys = ground (arith, count_if-append xs ys)

last_false :
    (a b c d i j k : Bool)
    → i ≡ true
    → (a || b || c || d || (i && j && k)) ≡ false
    → (j && k) ≡ false
last_false a b c d i j k h e = ground arith

or_false : (a b : Bool) → (a || b) ≡ false → (a ≡ false) × (b ≡ false)
or_false false b e = (refl, e)
or_false true b e = cc

no_or : (a b : Bool) → a ≡ false → b ≡ false → (a || b) ≡ false
no_or a b h k = rw (h, k) refl

-- An order in flight that clashes with no row has no other in flight at its symbol.
alone :
    (o : Order) (rows : List Order)
    → Orders.is_inflight_open o ≡ true
    → any (Orders.clashes o) rows ≡ false
    → any (inflight_at o.symbol) rows ≡ false
unfolding Orders.clashes
alone o [] h e = refl
alone o (r ∷ rows) h e =
    let (first, rest) = or_false (Orders.clashes o r) (any (Orders.clashes o) rows) e in
    no_or (inflight_at o.symbol r) (any (inflight_at o.symbol) rows)
      (ap (λ b. b && str_eq r.symbol o.symbol) (sym (is_inflight_open_lem r))
        ∙ last_false (str_eq r.id o.id) (str_eq r.intent_id o.intent_id)
            (str_eq r.request_id o.request_id) (str_eq r.cloid o.cloid) (Orders.is_inflight_open o)
            (Orders.is_inflight_open r) (str_eq r.symbol o.symbol) h first)
      (alone o rows h rest)

and_true : (a b : Bool) → (a && b) ≡ true → (a ≡ true) × (b ≡ true)
and_true true b e = (refl, e)
and_true false b e = cc

-- The new order leaves one in flight at most.
appended :
    (o : Order) (rows : List Order) (symbol : String)
    → any (Orders.clashes o) rows ≡ false
    → count_if (inflight_at symbol) rows ≤ 1
    → count_if (inflight_at symbol) (rows ++ o ∷ []) ≤ 1
appended o rows symbol fresh h = elim (Bool-cases (inflight_at symbol o)) [
  | inr other ↦ rw (count_if-append (inflight_at symbol) rows (o ∷ []), other) (omega (arith, h))
  | inl same ↦
      let (going, here) = and_true _ (str_eq o.symbol symbol) same in
      let flying = is_inflight_open_lem o ∙ going in
      let eq = (eq_iff o.symbol symbol).0 here in
      rw
        (
          count_if-append (inflight_at symbol) rows (o ∷ []),
          same,
          count_if-none (inflight_at symbol) rows (rw eq at (alone o rows flying fresh)),
        )
        (omega arith)
]

refused : ok false ≡ ok true → ⊥
refused e = cc

differ : (a b : String) → a ≢ b → str_eq a b ≡ false
differ a b h = elim (Bool-cases (str_eq a b)) [
  | inl same ↦ absurd (h ((eq_iff a b).0 same))
  | inr other ↦ other
]

-- Inserting an order keeps it so that for each symbol at most one opening order is not FILLED,
-- REJECTED or CANCELED, whether the insertion is accepted or refused. The statuses that the index
-- lists are those that the enum calls in flight.
pub add-OneInflight :
    (o : Order) (s : World)
    → OneInflight s.db.orders
    → OneInflight (Orders.add o s).1.db.orders
      × ((t : OrderStatus) → is_inflight t ≡ Orders.is_indexed t)
unfolding Orders.add
add-OneInflight o s h = elim (Bool-cases (any (Orders.clashes o) s.db.orders)) [
  | inl clash ↦ rw clash (h, same_list)
  | inr fresh ↦ rw fresh (λ symbol. appended o s.db.orders symbol fresh (h symbol), same_list)
]
  where
    same_list : (t : OrderStatus) → is_inflight t ≡ Orders.is_indexed t
    same_list t = is_inflight_lem t ∙ sym (is_indexed_lem t)

-- Once an intent has taken the slot, every other intent is refused and changes nothing, and a release
-- in another order's name leaves the slot with its holder.
pub slot-exclusive :
    (a b : String) (t u : String) (s : World)
    → (Reservation.try_acquire a t s).0 ≡ ok true
    → a ≢ b
    → ((Reservation.try_acquire b u (Reservation.try_acquire a t s).1).0 ≡ ok false)
      × ((Reservation.try_acquire b u (Reservation.try_acquire a t s).1).1
          ≡ (Reservation.try_acquire a t s).1)
      × ((Reservation.release (some b) (Reservation.try_acquire a t s).1).1
          ≡ (Reservation.try_acquire a t s).1)
unfolding Reservation.try_acquire Reservation.release
slot-exclusive a b t u s e other = elim (Bool-cases (is_some s.db.slot.order_id)) [
  | inl held ↦ absurd (refused (rw held at e))
  | inr free ↦ rw free (refl, refl, rw (differ a b other) refl)
]

-- ===== src/Controllers/Reconcile/Evidence.antt =====
-- trading_controller.py, `_reconcile_unknown`: what it takes to call an order REJECTED.
use newhbot.Base.{◌≡◌, refl, String, true, Bool-cases, Option, none, some, List, [], ◌∷◌, inl, inr}
use newhbot.Enums.{OrderStatus, PositionSide, is_flat}
use newhbot.Protocol.{OrderView, FillView, PositionView}
use newhbot.Action.{Result, ok, err, pure, attempt, on_result, on_option, ◌>>=◌, ◌>>◌}
use newhbot.Action.Returns.{
  OfReturned, Returns, Returns-if, Returns-bind, Returns-pure, OfReturned-use, Returns-bind_with,
  OfReturned-all, returns_rules,
}
use newhbot.World.{World, Env, Call, History, ask}
use newhbot.Models.{Order}
use newhbot.Controllers.Reconcile.{
  all_answered, matching, keep_unknown, reject_absent, reconcile_absent, reconcile_viewed,
  reconcile_answered, reconcile_unknown, is_empty, unknown_because, emit_order,
}

-- The answers of the three queries that let an order be REJECTED: the worker knows the order as
-- REJECTED, or it knows no such order, has no fill for it, and shows a FLAT position.
abbrev pub IsRefuted :
    Order → Result (Option OrderView) → Result (List FillView) → Result PositionView → Type 0
IsRefuted o (ok (some v)) (ok fills) (ok p) = v.status ≡ OrderStatus.rejected
IsRefuted o (ok none) (ok fills) (ok p) = (matching o fills ≡ []) × (p.side ≡ PositionSide.flat)
IsRefuted o _ _ _ = ⊥

-- The calls that the worker has had when it is asked for the fills, and for the position.
abbrev pub after_order : Order → World → History
after_order o s = record { call = Call.get_order o.cloid; durable = s.committed } ∷ s.sent

abbrev pub after_fills : Order → World → History
after_fills o s = record { call = Call.get_fills; durable = s.committed } ∷ after_order o s

is_flat_lem : (x : PositionSide) → is_flat x ≡ true → x ≡ PositionSide.flat
is_flat_lem PositionSide.flat e = refl
is_flat_lem _ e = cc

is_empty_lem : (xs : List FillView) → is_empty xs ≡ true → xs ≡ []
is_empty_lem [] e = refl
is_empty_lem (x ∷ xs) e = cc

module _ (Q : Order → Type 0) (o : Order) (h : (m : String) → Q (unknown_because o m)) where
  keep_unknown-Returns : (m r : String) → Returns Q (keep_unknown o m r)
  unfolding keep_unknown
  keep_unknown-Returns m r = search (returns_rules, h m) depth 20

absent-Returns :
    (o : Order) (fills : List FillView) (p : PositionView)
    → Returns
        (λ x. x.status ≡ OrderStatus.rejected → (fills ≡ []) × (p.side ≡ PositionSide.flat))
        (reconcile_absent o fills p)
unfolding reconcile_absent
absent-Returns o fills p = elim (Bool-cases (is_empty fills)) [
  | inr some_fill ↦ rw some_fill (keep_unknown-Returns _ o (λ m e. cc) _ _)
  | inl no_fill ↦ elim (Bool-cases (is_flat p.side)) [
    | inr in_position ↦
        rw (no_fill, in_position)
          (Returns-if _ _ _ (keep_unknown-Returns _ o (λ m e. cc) _ _)
            (keep_unknown-Returns _ o (λ m e. cc) _ _))
    | inl flat ↦
        rw (no_fill, flat)
          (record {
            at = λ s.
                OfReturned-all _ (reject_absent o s).0
                  (λ x e. (is_empty_lem fills no_fill, is_flat_lem p.side flat));
          })
  ]
]

viewed-Returns :
    (env : Env) (o : Order) (fills : List FillView) (v : OrderView)
    → Returns
        (λ x. x.status ≡ OrderStatus.rejected → v.status ≡ OrderStatus.rejected)
        (reconcile_viewed env o fills v)
unfolding reconcile_viewed
viewed-Returns env o fills v = search (returns_rules) depth 30

unanswered :
    (Q : Type 0) (o : Order) (m : String)
    → Returns
        (λ x. x.status ≡ OrderStatus.rejected → Q)
        (do
          unknown_order ← keep_unknown o m "unconfirmed_place"
          emit_order unknown_order
          pure unknown_order)
unanswered Q o m =
    Returns-bind_with (λ x. x.status ≡ OrderStatus.unknown) _ _ _
      (keep_unknown-Returns _ o (λ m. refl) m "unconfirmed_place")
      λ x e. Returns-bind _ _ λ r. Returns-pure x (λ f. cc)

module _ (env : Env) (o : Order) where
  judged :
      (v : Result (Option OrderView)) (f : Result (List FillView)) (p : Result PositionView)
      (s : World)
      → OfReturned
          (λ x. x.status ≡ OrderStatus.rejected → IsRefuted o v f p)
          (on_result
            (all_answered v f p)
            (λ e. do
              unknown_order ← keep_unknown o e.message "unconfirmed_place"
              emit_order unknown_order
              pure unknown_order)
            (reconcile_answered env o)
            s).0
  unfolding on_result all_answered reconcile_answered on_option
  judged v f (err e) s = (unanswered _ o _).at s
  judged v (err e) (ok p) s = (unanswered _ o _).at s
  judged (err e) (ok f) (ok p) s = (unanswered _ o _).at s
  judged (ok none) (ok f) (ok p) s = (absent-Returns o (matching o f) p).at s
  judged (ok (some v)) (ok f) (ok p) s = (viewed-Returns env o (matching o f) v).at s

-- An order whose fate was unknown is called REJECTED only if all three queries were answered, and
-- the worker either knows it as REJECTED, or knows no such order, has no fill for it and shows a FLAT
-- position; the answers are those given one after another from the state `s`.
pub reconcile_unknown-IsRefuted :
    (env : Env) (o : Order) (s : World) (p : Order)
    → (reconcile_unknown env o s).0 ≡ ok p
    → p.status ≡ OrderStatus.rejected
    → IsRefuted o
        (env.get_order s.sent o.cloid)
        (env.get_fills (after_order o s))
        (env.get_position (after_fills o s) o.symbol)
unfolding reconcile_unknown attempt ask ◌>>=◌
reconcile_unknown-IsRefuted env o s p e rejected =
    OfReturned-use
      (λ x.
        x.status ≡ OrderStatus.rejected
        → IsRefuted o (env.get_order s.sent o.cloid) (env.get_fills (after_order o s))
            (env.get_position (after_fills o s) o.symbol))
      _ p
      (judged env o (env.get_order s.sent o.cloid) (env.get_fills (after_order o s))
        (env.get_position (after_fills o s) o.symbol) _)
      e rejected

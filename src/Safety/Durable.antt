-- ===== src/Safety/Durable.antt =====
-- The intent is durable before the order is sent.
use newhbot.Base.{
  String, ◌≡◌, refl, Bool, true, [], ◌∷◌, ◌++◌, any, All, Some, Some-map, ap, Some-map_if,
  any-append_last, Bool-cases, eq_refl, str_eq, inl, inr,
}
use newhbot.Enums.{OrderStatus, SignalType}
use newhbot.Action.{◌>>=◌}
use newhbot.Action.Moves.{Moves, Moves-bind}
use newhbot.World.{World, Env, commit, modify_db}
use newhbot.Protocol.{PlaceOrderRequest}
use newhbot.Models.{Db, Order, stored_order}
use newhbot.Repositories.Orders
use newhbot.Controllers.Cancel.{with_status}
use newhbot.Controllers.Submit.{
  Intent, submit, draw_order, persist_intent, request_of, stored_request,
}
use newhbot.Safety.Tolerant.Submitting.{draw_order-Moves}
use newhbot.Repositories.Settings
use newhbot.Controllers.Open.{Shown, open_guarded}
use newhbot.Controllers.Close.{CloseRequest, close_position}
use newhbot.Controllers.Signal.{handle_signal}
use newhbot.Controllers.Stop.{close_and_stop, close_and_continue, emergency_stop, emergency_close}
use newhbot.Safety.Tolerant.Trading.{
  reply_rules, open_guarded-Moves, close_position-Moves, handle_signal-Moves, close_and_stop-Moves,
  close_and_continue-Moves,
}
use newhbot.Safety.Backed.{send, OnOk, Backed, Backing, backing, persist_and_send}

-- The row `o` holds the request `q`, and is SUBMITTING.
abbrev pub IsIntent : PlaceOrderRequest → Order → Type 0
IsIntent q o = (request_of o ≡ q) × (o.status ≡ OrderStatus.submitting)

-- Some row holds the request, its quantity in the form that the column gives back.
abbrev pub HasIntent : PlaceOrderRequest → Db → Type 0
HasIntent q d = Some (IsIntent (stored_request d.numeric q)) d.orders

-- Persisting an intent sends nothing, and leaves the intent committed unless it raises.
persist_intent_lem :
    (o : Order) (s : World)
    → ((persist_intent o s).1.sent ≡ s.sent)
      × OnOk (persist_intent o s).0 (λ p. HasIntent (request_of p) (persist_intent o s).1.committed)
unfolding persist_intent Orders.add Orders.save commit modify_db ◌>>=◌
persist_intent_lem o s = elim (Bool-cases (any (Orders.clashes o) s.db.orders)) [
  | inl clash ↦ rw clash (refl, tt)
  | inr fresh ↦ rw fresh (
    refl,
    Some-map (IsIntent (request_of o)) (IsIntent (stored_request s.db.numeric (request_of o)))
        (stored_order s.db.numeric) _
        (λ r (same, status). (ap (stored_request s.db.numeric) same, status))
        (Some-map_if (IsIntent (request_of o)) (λ r. str_eq r.id o.id)
          (λ _. with_status o OrderStatus.submitting) (s.db.orders ++ o ∷ []) (λ _. (refl, refl))
          (any-append_last (λ (r : Order). str_eq r.id o.id) s.db.orders o (eq_refl o.id))),
  )
]

module _ (env : Env) where
  submit-Backing : (i : Intent) → Moves (Backing HasIntent) (submit env i)
  unfolding submit send
  submit-Backing i =
      Moves-bind (draw_order env i) _ (draw_order-Moves (backing HasIntent) env i) λ o. record {
        at = λ s a.
            persist_and_send HasIntent env o s (persist_intent_lem o s).1
              (λ b. rw (persist_intent_lem o s).0 b) a;
      }

  guarded :
      (x : SignalType) (t : String) (b : Bool) (y : Shown)
      → Moves (Backing HasIntent) (open_guarded env x t b y)
  guarded = open_guarded-Moves (backing HasIntent) env submit-Backing

  reducing : (i : Intent) → i.reduce_only ≡ true → Moves (Backing HasIntent) (submit env i)
  reducing i e = submit-Backing i

  closing : (r : CloseRequest) → Moves (Backing HasIntent) (close_position env r)
  closing = close_position-Moves (backing HasIntent) env guarded reducing

  set_estop-Backing : (b : Bool) → Moves (Backing HasIntent) (Settings.set_estop b)
  unfolding Settings.set_estop modify_db
  set_estop-Backing b = record { at = λ s a. a }

  emergency_close-Backing : (b : Bool) → Moves (Backing HasIntent) (emergency_close env b)
  unfolding emergency_close
  emergency_close-Backing b = search (reply_rules, backing, closing) depth 40

  emergency_stop-Backing : Moves (Backing HasIntent) (emergency_stop env)
  unfolding emergency_stop
  emergency_stop-Backing =
      search (reply_rules, backing, set_estop-Backing, emergency_close-Backing) depth 40

-- Every order that was sent had its intent committed before: the database that was durable when
-- `place_order` was called holds a SUBMITTING row with the very request, its quantity as the column
-- gives it back. A signal, a close by command and the emergency stop keep this of all that was ever
-- sent.
pub intents_are_durable :
    (env : Env) (s : World) (signal : SignalType) (actor : String)
    → All (Backed HasIntent) s.sent
    → All (Backed HasIntent) (handle_signal env signal actor s).1.sent
      × All (Backed HasIntent) (close_and_stop env s).1.sent
      × All (Backed HasIntent) (close_and_continue env s).1.sent
      × All (Backed HasIntent) (emergency_stop env s).1.sent
intents_are_durable env s signal actor a = (
  (handle_signal-Moves (backing HasIntent) env (guarded env) (reducing env) signal actor).at s a,
  (close_and_stop-Moves (backing HasIntent) env (guarded env) (reducing env)).at s a,
  (close_and_continue-Moves (backing HasIntent) env (guarded env) (reducing env)).at s a,
  (emergency_stop-Backing env).at s a,
)

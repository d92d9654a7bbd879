-- ===== src/Safety/Once.antt =====
-- A signal or a control command sends at most one order.
use newhbot.Base.{
  String, ℕ, suc, ◌+◌, ◌≤◌, ◌≡◌, refl, Bool, true, false, if◌then◌else◌, arith, Option, none, some,
}
use newhbot.Enums.{SignalType}
use newhbot.Decimal.{Decimal}
use newhbot.Protocol.{PositionView}
use newhbot.Action.{
  Exn, Result, ok, err, Action, ◌>>=◌, continue, on_result, on_option, try_except, attempt,
}
use newhbot.Action.Moves.{Moves-attempt, Moves-on_result}
use newhbot.World.{World, Env, ask}
use newhbot.Models.{Order}
use newhbot.Repositories.Orders
use newhbot.Controllers.Submit.{Intent, submit, persist_intent, place}
use newhbot.Controllers.Open.{
  Shown, open_reserved, open_allowed, open_guarded, open_reachable, open_position,
}
use newhbot.Controllers.Close.{CloseRequest, close_live, close_queried, close_position}
use newhbot.Controllers.Signal.{handle_signal, act_on_signal}
use newhbot.Controllers.Stop.{close_and_stop, close_and_continue, emergency_stop, emergency_close}
use newhbot.Safety.Tolerant.{tolerant_rules}
use newhbot.Safety.Tolerant.Submitting.{
  draw_order-Moves, submit_failed-Moves, submit_answered-Moves,
}
use newhbot.Safety.Tolerant.Trading.{
  reply_rules, size_from_settings-Moves, query_status-Moves, query_exchange-Moves,
  live_position-Moves, after_close_order-Moves, record_signal-Moves,
}
use newhbot.Safety.BySent.{add_order-BySent}
use newhbot.Safety.Places.{places, Quiet, quiet, SamePlaces, set_estop-Quiet}

-- `m` sends one order at most.
pub record Once {A : Type 0} (m : Action World A) : Type 0 where
  pub at : (s : World) → places (m s).1.sent ≤ suc (places s.sent)

module _ {A : Type 0} where
  pub Quiet-Once : (m : Action World A) → Quiet m → Once m
  Quiet-Once m h = record { at = λ s. omega (arith, h.at s) }

  Once-if : (b : Bool) (m n : Action World A) → Once m → Once n → Once (if b then m else n)
  Once-if true m n hm hn = hm
  Once-if false m n hm hn = hn

module _ {A B : Type 0} where
  continue-Once :
      (k : ℕ) (r : Result A) (f : A → Action World B)
      → ((a : A) → Once (f a))
      → (s : World) → places s.sent ≡ k
      → places (continue r f s).1.sent ≤ suc k
  continue-Once k (ok a) f h s e = omega (arith, (h a).at s)
  continue-Once k (err x) f h s e = omega arith

  continue-Quiet :
      (r : Result A) (f : A → Action World B) (s : World)
      → ((a : A) → Quiet (f a))
      → places (continue r f s).1.sent ≡ places s.sent
  continue-Quiet (ok a) f s h = (h a).at s
  continue-Quiet (err x) f s h = refl

  -- The order may be sent behind the first step, or in it.
  pub Once-bind_then :
      (m : Action World A) (f : A → Action World B)
      → Quiet m
      → ((a : A) → Once (f a))
      → Once (m >>= f)
  unfolding ◌>>=◌
  Once-bind_then m f hm hf = record {
    at = λ s. continue-Once (places s.sent) (m s).0 f hf (m s).1 (hm.at s);
  }

  pub Once-bind_first :
      (m : Action World A) (f : A → Action World B)
      → Once m
      → ((a : A) → Quiet (f a))
      → Once (m >>= f)
  unfolding ◌>>=◌
  Once-bind_first m f hm hf = record {
    at = λ s. omega (arith, hm.at s, continue-Quiet (m s).0 f (m s).1 hf);
  }

  Once-on_option :
      (o : Option A) (missing : Action World B) (found : A → Action World B)
      → Once missing
      → ((a : A) → Once (found a))
      → Once (on_option o missing found)
  unfolding on_option
  Once-on_option none missing found h g = h
  Once-on_option (some a) missing found h g = g a

  Once-on_result :
      (r : Result A) (handler : Exn → Action World B) (body : A → Action World B)
      → ((e : Exn) → Once (handler e))
      → ((a : A) → Once (body a))
      → Once (on_result r handler body)
  unfolding on_result
  Once-on_result (ok a) handler body h g = g a
  Once-on_result (err e) handler body h g = h e

module _ {A : Type 0} where
  attempt-Once : (m : Action World A) → Once m → Once (attempt m)
  unfolding attempt
  attempt-Once m h = record { at = h.at }

module _ {A B : Type 0} where
  pub Once-try_then :
      (m : Action World A) (handler : Exn → Action World B) (body : A → Action World B)
      → Quiet m
      → ((e : Exn) → Once (handler e))
      → ((a : A) → Once (body a))
      → Once (try_except m handler body)
  unfolding try_except
  Once-try_then m handler body hm h g =
      Once-bind_then (attempt m) (λ r. on_result r handler body) (Moves-attempt m hm)
        (λ r. Once-on_result r handler body h g)

  Once-try_first :
      (m : Action World A) (handler : Exn → Action World B) (body : A → Action World B)
      → Once m
      → ((e : Exn) → Quiet (handler e))
      → ((a : A) → Quiet (body a))
      → Once (try_except m handler body)
  unfolding try_except
  Once-try_first m handler body hm h g =
      Once-bind_first (attempt m) (λ r. on_result r handler body) (attempt-Once m hm)
        (λ r. Moves-on_result r handler body h g)

ruleset once_rules = (
  Quiet-Once, Once-if, Once-bind_then, Once-bind_first, Once-on_option, Once-try_then, quiet,
  reply_rules,
)

module _ (env : Env) where
  place-Once : (o : Order) → Once (place env o)
  unfolding place ask
  place-Once o = record { at = λ s. omega arith }

  add-Quiet : (o : Order) → Quiet (Orders.add o)
  add-Quiet = add_order-BySent SamePlaces

  persist_intent-Quiet : (o : Order) → Quiet (persist_intent o)
  unfolding persist_intent
  persist_intent-Quiet o = search (tolerant_rules, quiet, add-Quiet) depth 20

  pub submit-Once : (i : Intent) → Once (submit env i)
  unfolding submit
  submit-Once i = Once-bind_then _ _ (draw_order-Moves quiet env i) λ o.
      Once-bind_then _ _ (persist_intent-Quiet o) λ p.
        Once-try_first _ _ _ (place-Once p) (λ e. submit_failed-Moves quiet env p e.message)
          (submit_answered-Moves quiet env p)

  open_reserved-Once : (x : SignalType) (t : String) (d : Decimal) → Once (open_reserved env x t d)
  unfolding open_reserved
  open_reserved-Once x t d = search (once_rules, submit-Once) depth 40

  open_allowed-Once : (x : SignalType) (t : String) → Once (open_allowed env x t)
  unfolding open_allowed
  open_allowed-Once x t = search (once_rules, size_from_settings-Moves, open_reserved-Once) depth 40

  open_guarded-Once :
      (x : SignalType) (t : String) (b : Bool) (y : Shown) → Once (open_guarded env x t b y)
  unfolding open_guarded
  open_guarded-Once x t b y = search (once_rules, open_allowed-Once) depth 40

  open_reachable-Once : (x : SignalType) (t : String) (b : Bool) → Once (open_reachable env x t b)
  unfolding open_reachable
  open_reachable-Once x t b = search (once_rules, query_exchange-Moves, open_guarded-Once) depth 40

  open_position-Once : (x : SignalType) (t : String) → Once (open_position env x t)
  unfolding open_position
  open_position-Once x t = search (once_rules, query_status-Moves, open_reachable-Once) depth 40

  close_live-Once : (r : CloseRequest) (p : PositionView) → Once (close_live env r p)
  unfolding close_live
  close_live-Once r p = search (once_rules, submit-Once, after_close_order-Moves) depth 40

  close_queried-Once : (r : CloseRequest) (p : PositionView) → Once (close_queried env r p)
  unfolding close_queried
  close_queried-Once r p = search (once_rules, close_live-Once) depth 40

  close_position-Once : (r : CloseRequest) → Once (close_position env r)
  unfolding close_position
  close_position-Once r = search (once_rules, live_position-Moves, close_queried-Once) depth 40

  act_on_signal-Once : (x : SignalType) (a t : String) → Once (act_on_signal env x a t)
  unfolding act_on_signal
  act_on_signal-Once x a t = search (once_rules, open_position-Once, close_position-Once) depth 40

  pub handle_signal-Once : (x : SignalType) (a : String) → Once (handle_signal env x a)
  unfolding handle_signal
  handle_signal-Once x a = search (once_rules, record_signal-Moves, act_on_signal-Once) depth 40

  close_and_stop-Once : Once (close_and_stop env)
  unfolding close_and_stop
  close_and_stop-Once = search (once_rules, close_position-Once) depth 40

  close_and_continue-Once : Once (close_and_continue env)
  unfolding close_and_continue
  close_and_continue-Once = search (once_rules, close_position-Once) depth 40

  emergency_close-Once : (b : Bool) → Once (emergency_close env b)
  unfolding emergency_close
  emergency_close-Once b = search (once_rules, close_position-Once) depth 40

  emergency_stop-Once : Once (emergency_stop env)
  unfolding emergency_stop
  emergency_stop-Once = search (once_rules, set_estop-Quiet, emergency_close-Once) depth 40

-- Handling one signal, closing by command and the emergency stop send at most one order each: no
-- path sends an order again, also where `place_order` raised.
pub at_most_one_order :
    (env : Env) (s : World) (signal : SignalType) (actor : String)
    → (places (handle_signal env signal actor s).1.sent ≤ places s.sent + 1)
      × (places (close_and_stop env s).1.sent ≤ places s.sent + 1)
      × (places (close_and_continue env s).1.sent ≤ places s.sent + 1)
      × (places (emergency_stop env s).1.sent ≤ places s.sent + 1)
at_most_one_order env s signal actor = (
  omega (arith, (handle_signal-Once env signal actor).at s),
  omega (arith, (close_and_stop-Once env).at s),
  omega (arith, (close_and_continue-Once env).at s),
  omega (arith, (emergency_stop-Once env).at s),
)

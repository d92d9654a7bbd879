-- ===== src/Controllers/Start/Enabled.antt =====
-- trading_controller.py, `start`: what a successful start leaves behind.
use newhbot.Base.{◌≡◌, refl, sym, ◌∙◌, String, Bool, true, false, any, some}
use newhbot.Enums.{SystemState, PositionSide, is_unresolved}
use newhbot.Action.{ok, Action, pure, gets, ◌>>=◌}
use newhbot.Action.Triple.{Triple, Triple-bind, Triple-gets, Triple-if, Triple-weaken}
use newhbot.Action.Ends.{Ends, Ends-bind, Post-use, ends_rules}
use newhbot.Models.{stored, Order}
use newhbot.World.{World, Env, commit, publish, modify_db}
use newhbot.Recovery.{set_state}
use newhbot.Repositories.Settings
use newhbot.Repositories.Orders
use newhbot.Repositories.Journal
use newhbot.Controllers.Mirror.{Reply, not_ok, emit}
use newhbot.Controllers.Start.{
  start, start_resolved, start_connected, start_sync, start_positions, start_open_orders,
  start_clean, start_running, start_failed,
}

abbrev has_unresolved_in : World → Bool
has_unresolved_in s = any (λ (o : Order). is_unresolved o.status) s.db.orders

-- Trading is enabled, the system RUNNING, no order unresolved, and all of it is committed.
pub record IsStarted (t : World) : Type 0 where
  pub enabled : t.db.settings.trading_enabled ≡ true
  pub running : t.db.settings.system_state ≡ SystemState.running
  pub resolved : any (λ (o : Order). is_unresolved o.status) t.db.orders ≡ false
  pub durable : t.committed ≡ stored t.db

abbrev Kept : Reply → World → Type 0
Kept r t = r.ok ≡ some true → IsStarted t

-- A reply that says ok leaves a started system.
abbrev Starts : Action World Reply → Type 0
Starts m = Ends Kept m

Starts-not_ok : (t : String) → Starts (pure (not_ok t))
unfolding pure
Starts-not_ok t = record { at = λ s p e. cc }

Starts-failed : (t u : String) → Starts (start_failed t u)
unfolding start_failed
Starts-failed t u = Ends-bind _ _ (λ x. Starts-not_ok u)

ruleset starts_rules = (ends_rules, Starts-not_ok, Starts-failed)

running_lem : Triple (λ s. has_unresolved_in s ≡ false) start_running Kept (λ s. Unit)
unfolding start_running Settings.set_trading_enabled Settings.get Settings.set_system_state
    set_state Journal.add_audit Journal.add_event commit emit publish modify_db gets pure ◌>>=◌
running_lem = record {
  at = λ s h e. record { enabled = refl; running = refl; resolved = h; durable = refl };
}

Starts-clean : (x : PositionSide) → Starts (start_clean x)
unfolding start_clean Orders.has_unresolved
Starts-clean x = Ends-bind _ _ λ settings. Ends-bind _ _ λ cleaned.
    Triple-bind _ _ (Triple-gets has_unresolved_in) λ unresolved.
      Triple-if unresolved _ _ (λ e. Triple-weaken _ (λ s p. tt) (Starts-failed _ _))
        (λ e. Triple-weaken _ (λ s p. sym p.0 ∙ e) running_lem)

module _ (env : Env) where
  Starts-open_orders : (x : PositionSide) → Starts (start_open_orders env x)
  unfolding start_open_orders
  Starts-open_orders x = search (starts_rules, Starts-clean) depth 30

  Starts-positions : (x : PositionSide) → Starts (start_positions env x)
  unfolding start_positions
  Starts-positions x = search (starts_rules, Starts-open_orders) depth 30

  Starts-sync : Starts (start_sync env)
  unfolding start_sync
  Starts-sync = search (starts_rules, Starts-positions) depth 30

  Starts-connected : Starts (start_connected env)
  unfolding start_connected
  Starts-connected = search (starts_rules, Starts-sync) depth 30

  Starts-resolved : Starts (start_resolved env)
  unfolding start_resolved
  Starts-resolved = search (starts_rules, Starts-connected) depth 30

  Starts-start : Starts (start env)
  unfolding start
  Starts-start = search (starts_rules, Starts-resolved) depth 30

-- A start that replies ok leaves trading enabled, the system RUNNING and no order unresolved, all of
-- it committed.
pub start-IsStarted :
    (env : Env) (s : World) (reply : Reply)
    → (start env s).0 ≡ ok reply
    → reply.ok ≡ some true
    → IsStarted (start env s).1
start-IsStarted env s reply =
    Post-use Kept (start env s).0 (start env s).1 reply ((Starts-start env).at s tt)

-- ===== src/Controllers/Estop/Released.antt =====
-- trading_controller.py, `clear_estop`: what a successful release leaves behind.
use newhbot.Base.{◌≡◌, refl, ◌⊎◌, inl, inr, String, Bool, true, false, ◌||◌, Bool-cases, some}
use newhbot.Enums.{SystemState, is_stopped, is_recovery}
use newhbot.Action.{ok, pure, gets, when, ◌>>=◌}
use newhbot.Action.Ends.{Ends, Ends-bind, Post-use, ends_rules}
use newhbot.Models.{stored}
use newhbot.World.{World, Env, commit, publish, modify_db}
use newhbot.Recovery.{set_state}
use newhbot.Repositories.Settings
use newhbot.Repositories.Journal
use newhbot.Controllers.Mirror.{Reply, emit}
use newhbot.Controllers.Estop.{
  Exchange, reject, release_estop, judge_exchange, clear_by_exchange, clear_estop,
}

-- The latch is off, trading is off, the system is STOPPED or in RECOVERY, and all of it is committed.
pub record IsReleased (t : World) : Type 0 where
  pub unlatched : t.db.settings.estop ≡ false
  pub disabled : t.db.settings.trading_enabled ≡ false
  pub halted :
      (t.db.settings.system_state ≡ SystemState.stopped)
      ⊎ (t.db.settings.system_state ≡ SystemState.recovery)
  pub durable : t.committed ≡ stored t.db

abbrev Kept : Reply → World → Type 0
Kept r t = r.ok ≡ some true → IsReleased t

halted_lem :
    (x : SystemState)
    → (is_stopped x || is_recovery x) ≡ true
    → (x ≡ SystemState.stopped) ⊎ (x ≡ SystemState.recovery)
halted_lem SystemState.stopped e = inl refl
halted_lem SystemState.recovery e = inr refl
halted_lem _ e = absurd (unequal e)
  where
    unequal : false ≡ true → ⊥
    unequal f = cc

release-Kept : Ends Kept release_estop
unfolding release_estop Settings.set_estop Settings.set_trading_enabled Settings.get
    Settings.set_system_state set_state Journal.add_audit Journal.add_event commit emit publish
    modify_db gets pure when ◌>>=◌
release-Kept = record {
  at = λ s p.
      elim (Bool-cases
        (is_stopped s.db.settings.system_state || is_recovery s.db.settings.system_state)) [
          | inl halted ↦ rw halted (λ e. record {
            unlatched = refl;
            disabled = refl;
            halted = halted_lem s.db.settings.system_state halted;
            durable = refl;
          })
          | inr going ↦
              rw going (λ e. record {
                unlatched = refl;
                disabled = refl;
                halted = inl refl;
                durable = refl;
              })
        ];
}

reject-Kept : (t : String) (b : Bool) → Ends Kept (reject t b)
unfolding reject pure
reject-Kept t b = Ends-bind _ _ λ x.
    Ends-bind _ _
      λ y. Ends-bind _ _ λ z. Ends-bind _ _ λ u. Ends-bind _ _ λ v. record { at = λ s p e. cc }

judge-Kept : (x : Exchange) → Ends Kept (judge_exchange x)
unfolding judge_exchange
judge-Kept x = search (ends_rules, reject-Kept, release-Kept) depth 30

module _ (env : Env) where
  by_exchange-Kept : Ends Kept (clear_by_exchange env)
  unfolding clear_by_exchange
  by_exchange-Kept = search (ends_rules, reject-Kept, judge-Kept) depth 30

  clear_estop-Kept : Ends Kept (clear_estop env)
  unfolding clear_estop
  clear_estop-Kept = search (ends_rules, reject-Kept, by_exchange-Kept) depth 30

-- A release of the emergency stop that replies ok leaves the latch off, trading off, and the system
-- STOPPED or in RECOVERY, all of it committed.
pub clear_estop-IsReleased :
    (env : Env) (s : World) (reply : Reply)
    → (clear_estop env s).0 ≡ ok reply
    → reply.ok ≡ some true
    → IsReleased (clear_estop env s).1
clear_estop-IsReleased env s reply =
    Post-use Kept (clear_estop env s).0 (clear_estop env s).1 reply ((clear_estop-Kept env).at s tt)

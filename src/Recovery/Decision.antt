-- ===== src/Recovery/Decision.antt =====
-- recovery/manager.py: the system state that is decided at boot.
use newhbot.Base.{◌≡◌, refl, ◌↔◌, String, Bool, true, false, any, if◌then◌else◌}
use newhbot.Enums.{SystemState, is_unresolved, is_recovery}
use newhbot.Action.{Exn, Result, ok, err, Action, gets, attempt, on_result, try_except, ◌>>=◌, pure}
use newhbot.Models.{Order}
use newhbot.World.{World, Env, ask, commit, publish, modify_db}
use newhbot.Repositories.Settings
use newhbot.Repositories.Orders
use newhbot.Repositories.Journal
use newhbot.Recovery.{set_state, bootstrap}

-- The state `x` is returned, written and committed.
abbrev pub IsDecided : SystemState → Result SystemState × World → Type 0
IsDecided x (r, t) =
    (r ≡ ok x) × (t.db.settings.system_state ≡ x) × (t.committed.settings.system_state ≡ x)

set_state_lem : (x : SystemState) (t : String) (s : World) → IsDecided x (set_state x t s)
unfolding set_state Settings.get Settings.set_system_state Journal.add_event commit publish
    modify_db gets pure ◌>>=◌
set_state_lem x t s = (refl, refl, refl)

-- Trading may go on after a restart.
pub record IsResumable (env : Env) (s : World) : Type 0 where
  pub resolved : any (λ (o : Order). is_unresolved o.status) s.db.orders ≡ false
  pub unlatched : s.db.settings.estop ≡ false
  pub recovered : is_recovery s.db.settings.system_state ≡ false
  pub healthy : env.health s.sent ≡ ok true
  pub enabled : s.db.settings.trading_enabled ≡ true

abbrev Decision : Env → World → Result SystemState × World → Type 0
Decision env s r =
    (x : SystemState) × (IsDecided x r × ((x ≡ SystemState.running) ↔ IsResumable env s))

-- A property of a step's outcome, by the test that picks the step.
module _ {A : Type 0} (D : Result A × World → Type 0) (s : World) where
  by_if :
      (b : Bool) (m n : Action World A)
      → (b ≡ true → D (m s))
      → (b ≡ false → D (n s))
      → D ((if b then m else n) s)
  by_if true m n h k = h refl
  by_if false m n h k = k refl

  by_result :
      {B : Type 0} (r : Result B) (handler : Exn → Action World A) (body : B → Action World A)
      → ((e : Exn) → r ≡ err e → D (handler e s))
      → ((b : B) → r ≡ ok b → D (body b s))
      → D (on_result r handler body s)
  unfolding on_result
  by_result (ok b) handler body h k = k b refl
  by_result (err e) handler body h k = h e refl

module _ (env : Env) (s : World) where
  -- A decision for another state than RUNNING, which something forbids.
  halted :
      (x : SystemState) (t : String) (u : World)
      → (x ≡ SystemState.running → ⊥)
      → (IsResumable env s → ⊥)
      → Decision env s (set_state x t u)
  halted x t u h k = (x, (set_state_lem x t u, (λ e. absurd (h e), λ r. absurd (k r))))

-- The decision at boot never raises, and what it returns is written and committed. It is RUNNING
-- exactly if no order is unresolved, the emergency stop is not latched, the state was not RECOVERY,
-- the worker answers that it is healthy, and trading is enabled. Nothing else is asked for: local and
-- exchange positions are not compared, and foreign positions are not looked for.
pub bootstrap-IsResumable :
    (env : Env) (s : World)
    → (x : SystemState) × (IsDecided x (bootstrap env s)
        × ((x ≡ SystemState.running) ↔ IsResumable env s))
unfolding bootstrap Settings.get Orders.has_unresolved gets ask try_except attempt ◌>>=◌
bootstrap-IsResumable env s =
    by_if (Decision env s) s _ _ _ (λ e. halted env s _ _ s (λ f. cc) (λ h. cc (h.resolved, e)))
      (λ resolved.
        by_if (Decision env s) s _ _ _
          (λ e. halted env s _ _ s (λ f. cc) (λ h. cc (h.unlatched, e)))
          (λ unlatched.
            by_if (Decision env s) s _ _ _
              (λ e. halted env s _ _ s (λ f. cc) (λ h. cc (h.recovered, e)))
              (λ recovered.
                by_result (Decision env s) _ (env.health s.sent) _ _
                  (λ x e. halted env s _ _ _ (λ f. cc) (λ h. cc (h.healthy, e)))
                  (λ healthy answer.
                    by_if (Decision env s) _ healthy _ _
                      (λ up.
                        by_if (Decision env s) _ _ _ _
                          (λ enabled. (
                            SystemState.running,
                            (
                              set_state_lem SystemState.running _ _,
                              (
                                λ e. record {
                                  resolved = resolved;
                                  unlatched = unlatched;
                                  recovered = recovered;
                                  healthy = cc (answer, up);
                                  enabled = enabled;
                                },
                                λ h. refl,
                              ),
                            ),
                          ))
                          (λ e. halted env s _ _ _ (λ f. cc) (λ h. cc (h.enabled, e))))
                      (λ e. halted env s _ _ _ (λ f. cc) (λ h. cc (h.healthy, answer, e)))))))

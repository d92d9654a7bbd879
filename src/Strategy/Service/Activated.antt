-- ===== src/Strategy/Service/Activated.antt =====
-- service.py: what an activation leaves behind, and what stops it.
use newhbot.Base.{
  ◌≡◌, refl, ◌⊎◌, inl, inr, String, str_eq, true, false, Option, none, some, List, Bool-cases,
  Option-cases, any, find?,
}
use newhbot.Enums.{is_stopped, is_unresolved}
use newhbot.Action.{Result, ok, Action, pure, gets, ◌>>=◌, on_option, when}
use newhbot.Action.Triple.{Post}
use newhbot.Action.Returns.{OfReturned}
use newhbot.Action.Ends.{Ends, Ends-bind, ends_rules, Post-use}
use newhbot.Protocol.{PositionView, OrderView}
use newhbot.Models.{stored, Db, StrategyVersion, Order}
use newhbot.World.{World, Env, commit, publish, modify_db}
use newhbot.Repositories.Settings
use newhbot.Repositories.Strategies
use newhbot.Repositories.Orders
use newhbot.Repositories.Journal
use newhbot.Strategy.Service.{
  Activation, activate_reject, reject_in_recovery, set_active, make_active, activate_clean,
  activate_queried, activate_position, activate_registered, activate,
}

-- The version of the reply is the active one, trading is off and the system STOPPED, and all of it
-- is committed.
pub record IsActive (reply : Activation) (d : Db) : Type 0 where
  pub named : d.settings.active_strategy ≡ reply.name
  pub versioned : d.settings.active_strategy_version ≡ reply.version
  pub disabled : d.settings.trading_enabled ≡ false
  pub stopped : is_stopped d.settings.system_state ≡ true

abbrev Activated : Activation → World → Type 0
Activated reply s = reply.ok ≡ true → IsActive reply s.committed × (stored s.db ≡ s.committed)

activate_reject-Ends : (t : String) → Ends Activated (activate_reject t)
unfolding activate_reject Journal.add_audit commit modify_db pure ◌>>=◌
activate_reject-Ends t = record { at = λ s p e. absurd (cc e) }

reject_in_recovery-Ends : (c t : String) → Ends Activated (reject_in_recovery c t)
unfolding reject_in_recovery
reject_in_recovery-Ends c t = Ends-bind _ _ (λ _. activate_reject-Ends t)

module _ (env : Env) (h : String) (v : StrategyVersion) where
  make_active_lem :
      (s : World) → Post Activated (λ u. Unit) (make_active env h v s).0 (make_active env h v s).1
  unfolding make_active set_active Settings.set_trading_enabled Settings.set_system_state
      Settings.get Journal.add_audit Journal.add_event commit publish modify_db when pure gets ◌>>=◌
  make_active_lem s = elim (Bool-cases (is_stopped s.db.settings.system_state)) [
    | inl stopped ↦
        rw stopped (λ e.
          (record { named = refl; versioned = refl; disabled = refl; stopped = stopped }, refl))
    | inr going ↦
        rw going
          (λ e. (record { named = refl; versioned = refl; disabled = refl; stopped = refl }, refl))
  ]

  make_active-Ends : Ends Activated (make_active env h v)
  make_active-Ends = record { at = λ s p. make_active_lem s }

  ruleset activation_rules =
      (ends_rules, activate_reject-Ends, reject_in_recovery-Ends, make_active-Ends)

  activate_clean-Ends :
      (p : List PositionView) (o : List OrderView) → Ends Activated (activate_clean env h v p o)
  unfolding activate_clean
  activate_clean-Ends p o = search (activation_rules) depth 20

  activate_queried-Ends : Ends Activated (activate_queried env h v)
  unfolding activate_queried
  activate_queried-Ends = search (activation_rules, activate_clean-Ends) depth 20

  activate_position-Ends : (p : PositionView) → Ends Activated (activate_position env h v p)
  unfolding activate_position
  activate_position-Ends p = search (activation_rules, activate_queried-Ends) depth 20

  activate_registered-Ends : Ends Activated (activate_registered env h v)
  unfolding activate_registered
  activate_registered-Ends = search (activation_rules, activate_position-Ends) depth 20

Ends-on_option :
    (o : Option StrategyVersion) (missing : Action World Activation)
    (found : StrategyVersion → Action World Activation)
    → Ends Activated missing
    → ((v : StrategyVersion) → Ends Activated (found v))
    → Ends Activated (on_option o missing found)
unfolding on_option
Ends-on_option none missing found m f = m
Ends-on_option (some v) missing found m f = f v

module _ (env : Env) (h : String) where
  activate-Ends : Ends Activated (activate env h)
  unfolding activate
  activate-Ends =
      Ends-bind _ _ (λ found.
        Ends-on_option found _ _ (activate_reject-Ends _) (activate_registered-Ends env h))

  -- An activation that replies ok leaves its version the active one, trading off and the system
  -- STOPPED, all of it committed.
  pub activate-IsActive :
      (s : World) (reply : Activation)
      → (activate env h s).0 ≡ ok reply
      → reply.ok ≡ true
      → IsActive reply (activate env h s).1.committed
        × (stored (activate env h s).1.db ≡ (activate env h s).1.committed)
  activate-IsActive s reply e q =
      Post-use Activated (activate env h s).0 (activate env h s).1 reply ((activate-Ends).at s tt) e
        q

  -- The reply is no, the worker was asked nothing, and the settings are as they were.
  pub record Refuses (s : World) (out : Result Activation × World) : Type 0 where
    pub refused : OfReturned (λ (a : Activation). a.ok ≡ false) out.0
    pub silent : out.1.sent ≡ s.sent
    pub unchanged : out.1.db.settings ≡ s.db.settings

  -- While the system is not STOPPED, or with an order unresolved, an activation is refused before the
  -- worker is asked anything, and the settings stay as they are.
  pub activate-Refuses :
      (s : World)
      → (is_stopped s.db.settings.system_state ≡ false)
        ⊎ (any (λ (o : Order). is_unresolved o.status) s.db.orders ≡ true)
      → Refuses s (activate env h s)
  unfolding activate activate_registered activate_reject Settings.get Strategies.get_by_hash
      Orders.has_unresolved Journal.add_audit commit modify_db on_option gets pure ◌>>=◌
  activate-Refuses s d =
      elim (Option-cases (
        find? (λ (v : StrategyVersion). str_eq v.file_hash h)
          (Strategies.latest_first s.db.versions))) [
            | inl missing ↦ rw missing (record { refused = refl; silent = refl; unchanged = refl })
            | inr (v, found) ↦
                elim (Bool-cases (any (λ (o : Order). is_unresolved o.status) s.db.orders)) [
                  | inl unresolved ↦
                      rw (found, unresolved)
                        (record { refused = refl; silent = refl; unchanged = refl })
                  | inr clear ↦ elim d [
                    | inl going ↦
                        rw (found, clear, going)
                          (record { refused = refl; silent = refl; unchanged = refl })
                    | inr unresolved ↦ cc
                  ]
                ]
          ]

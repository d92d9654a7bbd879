-- ===== src/Safety/Latch.antt =====
-- The emergency latch.
use newhbot.Base.{◌≡◌, refl, ◌∙◌, Bool, true, arith, String}
use newhbot.Enums.{SignalType}
use newhbot.Action.Triple.{Triple, Triple-bind, Triple-always, Triple-after}
use newhbot.Action.{Action}
use newhbot.Action.Moves.{Preorder, Moves, Moves-bind, Moves-try_except, Same}
use newhbot.World.{World, Env, ask, commit, modify_db, publish, new_id, new_cloid, clock}
use newhbot.Models.{Order}
use newhbot.Recovery.{bootstrap}
use newhbot.Repositories.Settings
use newhbot.Repositories.Orders
use newhbot.Repositories.Positions
use newhbot.Repositories.Trades
use newhbot.Repositories.Reservation
use newhbot.Repositories.Journal
use newhbot.Controllers.Submit.{Intent, submit, place, persist_intent}
use newhbot.Controllers.Open.{Shown, open_guarded}
use newhbot.Controllers.Close.{CloseRequest, close_position}
use newhbot.Controllers.Signal.{handle_signal}
use newhbot.Controllers.Start.{start}
use newhbot.Controllers.Stop.{
  stop, close_and_stop, close_and_continue, emergency_stop, emergency_close,
}
use newhbot.Controllers.Reconcile.{reconcile_after_restart}
use newhbot.Safety.Tolerant.{Tolerant, tolerant_rules}
use newhbot.Safety.Tolerant.Methods.{bootstrap-Moves, reconcile_after_restart-Moves, stop-Moves}
use newhbot.Safety.Tolerant.Starting.{start-Moves}
use newhbot.Safety.Tolerant.Submitting.{
  draw_order-Moves, submit_failed-Moves, submit_answered-Moves,
}
use newhbot.Safety.Tolerant.Trading.{
  reply_rules, open_guarded-Moves, close_position-Moves, handle_signal-Moves, close_and_stop-Moves,
  close_and_continue-Moves,
}

-- The latch stays as it is.
abbrev SameLatch : Preorder World
SameLatch = Same (λ s. s.db.settings.estop)

add_order-SameLatch : (o : _) → Moves SameLatch (Orders.add o)
unfolding Orders.add
add_order-SameLatch o = record { at = λ s. ground arith }

add_fill-SameLatch : (f : _) → Moves SameLatch (Trades.add_fill f)
unfolding Trades.add_fill
add_fill-SameLatch f = record { at = λ s. ground arith }

acquire-SameLatch : (t u : _) → Moves SameLatch (Reservation.try_acquire t u)
unfolding Reservation.try_acquire
acquire-SameLatch t u = record { at = λ s. ground arith }

release-SameLatch : (t : _) → Moves SameLatch (Reservation.release t)
unfolding Reservation.release
release-SameLatch t = record { at = λ s. ground arith }

latching : Tolerant SameLatch
unfolding ask commit publish new_id new_cloid clock modify_db Settings.set_trading_enabled
    Settings.set_close_intent Settings.set_system_state Orders.save Positions.upsert_mirror
    Trades.add_trade Trades.save_trade Journal.add_signal Journal.answer_signal Journal.add_event
    Journal.add_audit Journal.add_snapshot
latching = record {
  asks = λ c f e. record { at = λ s. refl };
  commits = record { at = λ s. refl };
  publishes = λ t p n. record { at = λ s. refl };
  draws = λ env. record { at = λ s. refl };
  draws_cloid = λ env. record { at = λ s. refl };
  reads_clock = λ env. record { at = λ s. refl };
  switches = λ b. record { at = λ s. refl };
  intends = λ c. record { at = λ s. refl };
  enters = λ x. record { at = λ s. refl };
  saves = λ o. record { at = λ s. refl };
  mirrors = λ t x d e u. record { at = λ s. refl };
  fills = add_fill-SameLatch;
  trades = λ t. record { at = λ s. refl };
  closes = λ t. record { at = λ s. refl };
  acquires = acquire-SameLatch;
  releases = release-SameLatch;
  signals = λ r. record { at = λ s. refl };
  answers = λ t b u. record { at = λ s. refl };
  events = λ t p. record { at = λ s. refl };
  audits = λ t p u. record { at = λ s. refl };
  snapshots = λ d e m. record { at = λ s. refl };
}

module _ (env : Env) where
  persist_intent-SameLatch : (o : Order) → Moves SameLatch (persist_intent o)
  unfolding persist_intent
  persist_intent-SameLatch o = search (tolerant_rules, latching, add_order-SameLatch) depth 20

  place-SameLatch : (o : Order) → Moves SameLatch (place env o)
  unfolding place ask
  place-SameLatch o = record { at = λ s. refl }

  submit-SameLatch : (i : Intent) → Moves SameLatch (submit env i)
  unfolding submit
  submit-SameLatch i = Moves-bind _ _ (draw_order-Moves latching env i) λ o.
      Moves-bind _ _ (persist_intent-SameLatch o) λ p.
        Moves-try_except _ _ _ (place-SameLatch p)
          (λ e. submit_failed-Moves latching env p e.message) (submit_answered-Moves latching env p)

  guarded :
      (x : SignalType) (t : String) (b : Bool) (y : Shown)
      → Moves SameLatch (open_guarded env x t b y)
  guarded = open_guarded-Moves latching env submit-SameLatch

  reducing : (i : Intent) → i.reduce_only ≡ true → Moves SameLatch (submit env i)
  reducing i e = submit-SameLatch i

  closing : (r : CloseRequest) → Moves SameLatch (close_position env r)
  closing = close_position-Moves latching env guarded reducing

  emergency_close-SameLatch : (b : Bool) → Moves SameLatch (emergency_close env b)
  unfolding emergency_close
  emergency_close-SameLatch b = search (reply_rules, latching, closing) depth 40

  abbrev Latched : World → Type 0
  Latched s = s.db.settings.estop ≡ true

  set_estop_lem : Triple (λ s. Unit) (Settings.set_estop true) (λ r. Latched) Latched
  unfolding Settings.set_estop modify_db
  set_estop_lem = record { at = λ s p. refl }

  stays :
      {A : Type 0} (m : Action World A)
      → Moves SameLatch m
      → Triple Latched m (λ r. Latched) Latched
  stays m h = Triple-always m (λ s p. h.at s ∙ p)

  emergency_stop_latches : (s : World) → (emergency_stop env s).1.db.settings.estop ≡ true
  unfolding emergency_stop
  emergency_stop_latches s =
      Triple-after _
        (Triple-bind _ _ set_estop_lem
          (λ r. stays _ (search (reply_rules, latching, emergency_close-SameLatch) depth 40)))
        s tt

-- The emergency stop latches, however its calls to the worker end; and no signal, start, stop,
-- close, crash recovery or decision at boot sets or releases the latch.
pub only_estop_commands_latch :
    (env : Env) (s : World) (signal : SignalType) (actor : String)
    → ((emergency_stop env s).1.db.settings.estop ≡ true)
      × ((handle_signal env signal actor s).1.db.settings.estop ≡ s.db.settings.estop)
      × ((start env s).1.db.settings.estop ≡ s.db.settings.estop)
      × ((stop env s).1.db.settings.estop ≡ s.db.settings.estop)
      × ((close_and_stop env s).1.db.settings.estop ≡ s.db.settings.estop)
      × ((close_and_continue env s).1.db.settings.estop ≡ s.db.settings.estop)
      × ((reconcile_after_restart env s).1.db.settings.estop ≡ s.db.settings.estop)
      × ((bootstrap env s).1.db.settings.estop ≡ s.db.settings.estop)
only_estop_commands_latch env s signal actor = (
  emergency_stop_latches env s,
  (handle_signal-Moves latching env (guarded env) (reducing env) signal actor).at s,
  (start-Moves latching env).at s,
  (stop-Moves latching env).at s,
  (close_and_stop-Moves latching env (guarded env) (reducing env)).at s,
  (close_and_continue-Moves latching env (guarded env) (reducing env)).at s,
  (reconcile_after_restart-Moves latching env).at s,
  (bootstrap-Moves latching env).at s,
)

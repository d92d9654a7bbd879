-- ===== src/Safety/Places.antt =====
-- How many orders a method sends to the worker.
use newhbot.Base.{ℕ, ◌≡◌, refl, ◌∙◌, Bool, false, ◌∷◌, count_if}
use newhbot.Action.{Action}
use newhbot.Action.Moves.{Moves}
use newhbot.World.{World, Env, Call, Sent, History}
use newhbot.Models.{Db}
use newhbot.Recovery.{bootstrap}
use newhbot.Repositories.Settings
use newhbot.World.{modify_db}
use newhbot.Controllers.Reconcile.{reconcile_after_restart}
use newhbot.Controllers.Start.{start}
use newhbot.Controllers.Stop.{stop}
use newhbot.Controllers.Estop.{clear_estop}
use newhbot.Safety.Tolerant.{Tolerant, is_place_order}
use newhbot.Safety.Tolerant.Methods.{bootstrap-Moves, reconcile_after_restart-Moves, stop-Moves}
use newhbot.Safety.Tolerant.Starting.{start-Moves}
use newhbot.Safety.Tolerant.Clearing.{clear_estop-Moves}
use newhbot.Safety.BySent.{Extends, BySent, BySent-Tolerant}

abbrev pub is_place : Sent → Bool
is_place sent = is_place_order sent.call

-- The `place_order` calls of a history.
abbrev pub places : History → ℕ
places h = count_if is_place h

pub query_adds_none :
    (c : Call) (d : Db) (h : History)
    → is_place_order c ≡ false
    → places (record { call = c; durable = d } ∷ h) ≡ places h
query_adds_none c d h e = rw e

abbrev pub SamePlaces : Extends (λ h k. places k ≡ places h)
SamePlaces = record { same = λ h. refl; chain = λ h k l p q. q ∙ p; query = query_adds_none }

-- `m` sends no order.
abbrev pub Quiet : {A : Type 0} → Action World A → Type 0
Quiet m = Moves (BySent SamePlaces) m

pub quiet : Tolerant (BySent SamePlaces)
quiet = BySent-Tolerant SamePlaces

pub set_estop-Quiet : (b : Bool) → Quiet (Settings.set_estop b)
unfolding Settings.set_estop modify_db
set_estop-Quiet b = record { at = λ s. refl }

-- Crash recovery, the decision at boot, starting, stopping and releasing the emergency stop send no
-- order to the worker, whatever it answers and wherever an exception ends them.
pub recovery_sends_nothing :
    (env : Env) (s : World)
    → (places (reconcile_after_restart env s).1.sent ≡ places s.sent)
      × (places (bootstrap env s).1.sent ≡ places s.sent)
      × (places (start env s).1.sent ≡ places s.sent)
      × (places (stop env s).1.sent ≡ places s.sent)
      × (places (clear_estop env s).1.sent ≡ places s.sent)
recovery_sends_nothing env s = (
  (reconcile_after_restart-Moves quiet env).at s,
  (bootstrap-Moves quiet env).at s,
  (start-Moves quiet env).at s,
  (stop-Moves quiet env).at s,
  (clear_estop-Moves quiet set_estop-Quiet env).at s,
)

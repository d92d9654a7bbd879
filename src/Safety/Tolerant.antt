-- ===== src/Safety/Tolerant.antt =====
-- A preorder on the worlds that every primitive step but three follows: `place_order`, the insertion
-- of an order and the writing of the emergency latch. Each method that is built without those three
-- follows it too, whatever the worker answers and wherever an exception leaves it.
pub mod Methods
pub mod Starting
pub mod Submitting
pub mod Trading
pub mod Clearing
use newhbot.Base.{◌≡◌, refl, [], ◌∷◌, keep, ℕ, String, Bool, true, false, Option, List}
use newhbot.Decimal.{Decimal}
use newhbot.Enums.{PositionSide, SystemState}
use newhbot.Action.{Result, ok, err}
use newhbot.Action.Moves.{Preorder, Moves, Moves-gets, moves_rules}
use newhbot.World.{World, Env, Call, History, ask, commit, publish, new_id, new_cloid, clock}
use newhbot.Models.{Payload, Order, Fill, Trade, Signal}
use newhbot.Repositories.Settings
use newhbot.Repositories.Orders
use newhbot.Repositories.Positions
use newhbot.Repositories.Trades
use newhbot.Repositories.Reservation
use newhbot.Repositories.Journal

abbrev pub is_place_order : Call → Bool
is_place_order (Call.place_order _) = true
is_place_order _ = false

pub record Tolerant (P : Preorder World) : Type 1 where
  pub asks :
      {A : Type 0} (c : Call) (f : History → Result A)
      → is_place_order c ≡ false
      → Moves P (ask c f)
  pub commits : Moves P commit
  pub publishes : (t : String) (p : Payload) (n : ℕ) → Moves P (publish t p n)
  pub draws : (env : Env) → Moves P (new_id env)
  pub draws_cloid : (env : Env) → Moves P (new_cloid env)
  pub reads_clock : (env : Env) → Moves P (clock env)
  pub switches : (b : Bool) → Moves P (Settings.set_trading_enabled b)
  pub intends : (c : Option String) → Moves P (Settings.set_close_intent c)
  pub enters : (x : SystemState) → Moves P (Settings.set_system_state x)
  pub saves : (o : Order) → Moves P (Orders.save o)
  pub mirrors :
      (t : String) (x : PositionSide) (d : Decimal) (e : Option Decimal) (u : Decimal)
      → Moves P (Positions.upsert_mirror t x d e u)
  pub fills : (f : Fill) → Moves P (Trades.add_fill f)
  pub trades : (t : Trade) → Moves P (Trades.add_trade t)
  pub closes : (t : Trade) → Moves P (Trades.save_trade t)
  pub acquires : (t u : String) → Moves P (Reservation.try_acquire t u)
  pub releases : (t : Option String) → Moves P (Reservation.release t)
  pub signals : (r : Signal) → Moves P (Journal.add_signal r)
  pub answers : (t : String) (b : Bool) (u : String) → Moves P (Journal.answer_signal t b u)
  pub events : (t : String) (p : Payload) → Moves P (Journal.add_event t p)
  pub audits : (t : String) (p : Payload) (u : String) → Moves P (Journal.add_audit t p u)
  pub snapshots : (d e m : Decimal) → Moves P (Journal.add_snapshot d e m)

-- The fields, as rules.
module _ {P : Preorder World} (T : Tolerant P) where
  pub ask-Moves :
      {A : Type 0} (c : Call) (f : History → Result A)
      → is_place_order c ≡ false
      → Moves P (ask c f)
  ask-Moves = T.asks

  pub commit-Moves : Moves P commit
  commit-Moves = T.commits

  pub publish-Moves : (t : String) (p : Payload) (n : ℕ) → Moves P (publish t p n)
  publish-Moves = T.publishes

  pub new_id-Moves : (env : Env) → Moves P (new_id env)
  new_id-Moves = T.draws

  pub new_cloid-Moves : (env : Env) → Moves P (new_cloid env)
  new_cloid-Moves = T.draws_cloid

  pub clock-Moves : (env : Env) → Moves P (clock env)
  clock-Moves = T.reads_clock

  pub set_trading_enabled-Moves : (b : Bool) → Moves P (Settings.set_trading_enabled b)
  set_trading_enabled-Moves = T.switches

  pub set_close_intent-Moves : (c : Option String) → Moves P (Settings.set_close_intent c)
  set_close_intent-Moves = T.intends

  pub set_system_state-Moves : (x : SystemState) → Moves P (Settings.set_system_state x)
  set_system_state-Moves = T.enters

  pub save-Moves : (o : Order) → Moves P (Orders.save o)
  save-Moves = T.saves

  pub upsert_mirror-Moves :
      (t : String) (x : PositionSide) (d : Decimal) (e : Option Decimal) (u : Decimal)
      → Moves P (Positions.upsert_mirror t x d e u)
  upsert_mirror-Moves = T.mirrors

  pub add_fill-Moves : (f : Fill) → Moves P (Trades.add_fill f)
  add_fill-Moves = T.fills

  pub add_trade-Moves : (t : Trade) → Moves P (Trades.add_trade t)
  add_trade-Moves = T.trades

  pub save_trade-Moves : (t : Trade) → Moves P (Trades.save_trade t)
  save_trade-Moves = T.closes

  pub try_acquire-Moves : (t u : String) → Moves P (Reservation.try_acquire t u)
  try_acquire-Moves = T.acquires

  pub release-Moves : (t : Option String) → Moves P (Reservation.release t)
  release-Moves = T.releases

  pub add_signal-Moves : (r : Signal) → Moves P (Journal.add_signal r)
  add_signal-Moves = T.signals

  pub answer_signal-Moves :
      (t : String) (b : Bool) (u : String) → Moves P (Journal.answer_signal t b u)
  answer_signal-Moves = T.answers

  pub add_event-Moves : (t : String) (p : Payload) → Moves P (Journal.add_event t p)
  add_event-Moves = T.events

  pub add_audit-Moves : (t : String) (p : Payload) (u : String) → Moves P (Journal.add_audit t p u)
  add_audit-Moves = T.audits

  pub add_snapshot-Moves : (d e m : Decimal) → Moves P (Journal.add_snapshot d e m)
  add_snapshot-Moves = T.snapshots

one_or_none-unchanged : (rows : List Trade) (s : World) → (Trades.one_or_none rows s).1 ≡ s
one_or_none-unchanged [] s = refl
one_or_none-unchanged (x ∷ []) s = refl
one_or_none-unchanged (x ∷ y ∷ rows) s = refl

-- The reads change nothing.
module _ {P : Preorder World} where
  pub get-Moves : Moves P Settings.get
  unfolding Settings.get
  get-Moves = Moves-gets _

  pub has_unresolved-Moves : Moves P Orders.has_unresolved
  unfolding Orders.has_unresolved
  has_unresolved-Moves = Moves-gets _

  pub list_unresolved-Moves : Moves P Orders.list_unresolved
  unfolding Orders.list_unresolved
  list_unresolved-Moves = Moves-gets _

  pub list_open-Moves : Moves P Orders.list_open
  unfolding Orders.list_open
  list_open-Moves = Moves-gets _

  pub list_reconcilable_opening-Moves : (t : String) → Moves P (Orders.list_reconcilable_opening t)
  unfolding Orders.list_reconcilable_opening
  list_reconcilable_opening-Moves t = Moves-gets _

  pub get_or_none-Moves : (t : String) → Moves P (Positions.get_or_none t)
  unfolding Positions.get_or_none
  get_or_none-Moves t = Moves-gets _

  pub current_order_id-Moves : Moves P Reservation.current_order_id
  unfolding Reservation.current_order_id
  current_order_id-Moves = Moves-gets _

  pub open_trade-Moves : (t : String) → Moves P (Trades.open_trade t)
  unfolding Trades.open_trade
  open_trade-Moves t = record {
    at = λ s.
        rw (one_or_none-unchanged (keep (Trades.is_open_trade t) s.db.trades) s) (P.rel_refl s);
  }

pub ruleset tolerant_rules = (
  moves_rules, refl, ask-Moves, commit-Moves, publish-Moves, new_id-Moves, new_cloid-Moves,
  clock-Moves, set_trading_enabled-Moves, set_close_intent-Moves, set_system_state-Moves,
  save-Moves, upsert_mirror-Moves, add_fill-Moves, add_trade-Moves, save_trade-Moves,
  try_acquire-Moves, release-Moves, add_signal-Moves, answer_signal-Moves, add_event-Moves,
  add_audit-Moves, add_snapshot-Moves, get-Moves, has_unresolved-Moves, list_unresolved-Moves,
  list_open-Moves, list_reconcilable_opening-Moves, get_or_none-Moves, current_order_id-Moves,
  open_trade-Moves,
)

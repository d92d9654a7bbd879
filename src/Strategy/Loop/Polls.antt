-- ===== src/Strategy/Loop/Polls.antt =====
-- loop.py: what the polls send to the worker.
use newhbot.Base.{
  ◌≡◌, refl, ◌⊎◌, inl, inr, Bool-cases, ℕ, zero, suc, ◌+◌, ◌≤◌, true, false, String, List, All,
  arith,
}
use newhbot.Enums.{SignalType, is_running}
use newhbot.Action.{continue, Exn, Result, ok, err, Action, pure, gets, modify, ◌>>=◌}
use newhbot.Action.Moves.{
  Preorder, Moves, Moves-pure, Moves-raise, Moves-bind, Moves-try_except, Moves-if, Moves-gets,
}
use newhbot.Models.{SettingsRow, StrategyVersion}
use newhbot.Protocol.{PositionView}
use newhbot.World.{World}
use newhbot.Worker.Raw.{Fields, lift}
use newhbot.Base.Int.{ℤ}
use newhbot.Repositories.Strategies
use newhbot.Repositories.Settings
use newhbot.Controllers.Signal.{handle_signal}
use newhbot.Safety.Tolerant.{Tolerant}
use newhbot.Safety.Tolerant.Methods.{state_rules}
use newhbot.Safety.Tolerant.Trading.{handle_signal-Moves}
use newhbot.Safety.Backed.{Backed, Backing, backing}
use newhbot.Safety.Allowed.{IsAllowed}
use newhbot.Safety.Guarded.{guarded, reducing}
use newhbot.Safety.Once.{handle_signal-Once}
use newhbot.Safety.Places.{places, quiet, SamePlaces}
use newhbot.Safety.BySent.{BySent}
use newhbot.Strategy.Loop.{
  LoopEnv, StrategyLoop, Step, Decision, on_world, new_session, stop_in_recovery, observe,
  observe_version, observe_worker, observe_ready, observe_candles, observe_bar, observe_position,
  observe_signal, ask_status, act, proceed, tick, fail, run,
}

-- A change of the world, seen from the loop.
abbrev pub Polling : Preorder World → Preorder StrategyLoop
Polling P = record {
  rel = λ s t. P.rel s.world t.world;
  rel_refl = λ s. P.rel_refl s.world;
  rel_trans = λ s t u. P.rel_trans s.world t.world u.world;
}

module _ (P : Preorder World) (T : Tolerant P)
    (reopens : (s : World) → P.rel s (record s { db = s.committed })) where
  abbrev Follows : {A : Type 0} → Action StrategyLoop A → Type 0
  Follows m = Moves (Polling P) m

  on_world-Moves : {A : Type 0} (m : Action World A) → Moves P m → Follows (on_world m)
  unfolding on_world
  on_world-Moves m h = record { at = λ s. h.at s.world }

  lift-Moves : {A : Type 0} (r : Result A) → Follows (lift r)
  unfolding lift
  lift-Moves (ok a) = Moves-pure a
  lift-Moves (err e) = Moves-raise e

  modify-Moves :
      (f : StrategyLoop → StrategyLoop)
      → ((s : StrategyLoop) → P.rel s.world (f s).world)
      → Follows (modify f)
  unfolding modify
  modify-Moves f h = record { at = h }

  world-same : (s : World) → P.rel s s
  world-same s = P.rel_refl s

  ruleset poll_rules = (state_rules, on_world-Moves, lift-Moves, modify-Moves, world-same)

  new_session-Moves : Follows new_session
  unfolding new_session
  new_session-Moves = modify-Moves _ (λ s. reopens s.world)

  stop_in_recovery-Moves : (t : String) → Follows (stop_in_recovery t)
  unfolding stop_in_recovery
  stop_in_recovery-Moves t = search (poll_rules, T) depth 20

  parameters-Moves : (n : ℕ) → Moves P (Strategies.parameters_for n)
  unfolding Strategies.parameters_for
  parameters-Moves n = Moves-gets _

  versions-Moves : Moves P Strategies.list_versions
  unfolding Strategies.list_versions
  versions-Moves = Moves-gets _

  module _ (loop : LoopEnv) where
    observe_signal-Moves :
        (x : SettingsRow) (v : StrategyVersion) (b : List Fields) (n : ℤ) (p : PositionView)
        → Follows (observe_signal loop x v b n p)
    unfolding observe_signal
    observe_signal-Moves x v b n p =
        search (poll_rules, stop_in_recovery-Moves, parameters-Moves) depth 20

    observe_position-Moves :
        (x : SettingsRow) (v : StrategyVersion) (b : List Fields) (n : ℤ)
        → Follows (observe_position loop x v b n)
    unfolding observe_position
    observe_position-Moves x v b n =
        search (poll_rules, T, stop_in_recovery-Moves, observe_signal-Moves) depth 20

    observe_bar-Moves :
        (x : SettingsRow) (v : StrategyVersion) (b : List Fields) (c : Fields)
        → Follows (observe_bar loop x v b c)
    unfolding observe_bar
    observe_bar-Moves x v b c = search (poll_rules, observe_position-Moves) depth 20

    observe_candles-Moves :
        (x : SettingsRow) (v : StrategyVersion) → Follows (observe_candles loop x v)
    unfolding observe_candles
    observe_candles-Moves x v =
        search (poll_rules, T, stop_in_recovery-Moves, observe_bar-Moves) depth 20

    ask_status-Moves : Follows (ask_status loop)
    unfolding ask_status
    ask_status-Moves = search (poll_rules, T) depth 20

    observe_ready-Moves :
        (x : SettingsRow) (v : StrategyVersion) (w : Fields) → Follows (observe_ready loop x v w)
    unfolding observe_ready
    observe_ready-Moves x v w =
        search (poll_rules, stop_in_recovery-Moves, observe_candles-Moves) depth 20

    observe_worker-Moves :
        (x : SettingsRow) (v : StrategyVersion) → Follows (observe_worker loop x v)
    unfolding observe_worker
    observe_worker-Moves x v =
        search (poll_rules, T, stop_in_recovery-Moves, ask_status-Moves, observe_ready-Moves) depth
          20

    observe_version-Moves : (x : SettingsRow) → Follows (observe_version loop x)
    unfolding observe_version
    observe_version-Moves x = search (poll_rules, versions-Moves, observe_worker-Moves) depth 20

    pub observe-Moves : Follows (observe loop)
    unfolding observe
    observe-Moves = search (poll_rules, observe_version-Moves) depth 20

    module _ (handles : (x : SignalType) (a : String) → Moves P (handle_signal loop.env x a)) where
      act-Moves : (d : Decision) → Follows (act loop d)
      unfolding act
      act-Moves d = search (poll_rules, T, handles) depth 20

      proceed-Moves : (x : Step) → Follows (proceed loop x)
      proceed-Moves (Step.return b) = Moves-pure b
      proceed-Moves (Step.go d) = act-Moves d

      tick-Moves : Follows (tick loop)
      unfolding tick
      tick-Moves = search (poll_rules, new_session-Moves, observe-Moves, proceed-Moves) depth 20

      fail-Moves : (e : Exn) → Follows (fail loop e)
      unfolding fail
      fail-Moves e = search (poll_rules, new_session-Moves, stop_in_recovery-Moves) depth 20

      pub run-Moves : (n : ℕ) → Follows (run loop n)
      unfolding run
      run-Moves zero = Moves-pure true
      run-Moves (suc n) = Moves-try_except _ _ _ tick-Moves fail-Moves (λ keep_running.
          Moves-if keep_running _ _
            (Moves-bind _ _ (modify-Moves _ (λ s. world-same s.world)) (λ _. run-Moves n))
            (Moves-pure false))

-- For any number of polls, and whatever the worker, the strategy and the candles are: every order
-- that was sent only reduces a position, or was sent while the committed system state was RUNNING
-- and the committed slot was held for the very row of the request.
pub polls_are_guarded :
    (loop : LoopEnv) (n : ℕ) (s : StrategyLoop)
    → All (Backed IsAllowed) s.world.sent
    → All (Backed IsAllowed) (run loop n s).1.world.sent
polls_are_guarded loop n s a =
    (run-Moves (Backing IsAllowed) (backing IsAllowed) (λ w h. h) loop
        (handle_signal-Moves (backing IsAllowed) loop.env (guarded loop.env) (reducing loop.env))
        n).at
      s a

abbrev sent_by : StrategyLoop → ℕ
sent_by s = places s.world.sent

reopens_quietly : (w : World) → places w.sent ≡ places w.sent
reopens_quietly w = refl

module _ {A : Type 0} where
  -- `m` sends no order.
  abbrev Silent : Action StrategyLoop A → Type 0
  Silent m = Moves (Polling (BySent SamePlaces)) m

  -- `m` sends one order at most.
  record SendsOne (m : Action StrategyLoop A) : Type 0 where
    at : (s : StrategyLoop) → sent_by (m s).1 ≤ suc (sent_by s)

  at_most_none : (m : Action StrategyLoop A) → Silent m → SendsOne m
  at_most_none m h = record { at = λ s. omega (arith, h.at s) }

module _ {A B : Type 0} where
  continue_one :
      (k : ℕ) (r : Result A) (f : A → Action StrategyLoop B) (s : StrategyLoop)
      → ((a : A) → SendsOne (f a))
      → sent_by s ≡ k
      → sent_by (continue r f s).1 ≤ suc k
  continue_one k (ok a) f s h e = omega (arith, (h a).at s)
  continue_one k (err x) f s h e = omega arith

  continue_unsent :
      (r : Result A) (f : A → Action StrategyLoop B) (s : StrategyLoop)
      → ((a : A) → Silent (f a))
      → sent_by (continue r f s).1 ≡ sent_by s
  continue_unsent (ok a) f s h = (h a).at s
  continue_unsent (err x) f s h = refl

  unsent_then :
      (m : Action StrategyLoop A) (f : A → Action StrategyLoop B)
      → Silent m
      → ((a : A) → SendsOne (f a))
      → SendsOne (m >>= f)
  unfolding ◌>>=◌
  unsent_then m f hm hf = record {
    at = λ s. continue_one (sent_by s) (m s).0 f (m s).1 hf (hm.at s);
  }

  one_then :
      (m : Action StrategyLoop A) (f : A → Action StrategyLoop B)
      → SendsOne m
      → ((a : A) → Silent (f a))
      → SendsOne (m >>= f)
  unfolding ◌>>=◌
  one_then m f hm hf = record {
    at = λ s. omega (arith, hm.at s, continue_unsent (m s).0 f (m s).1 hf);
  }

module _ (loop : LoopEnv) where
  handling : (x : SignalType) (a : String) → SendsOne (on_world (handle_signal loop.env x a))
  unfolding on_world
  handling x a = record { at = λ s. (handle_signal-Once loop.env x a).at s.world }

  act_one : (d : Decision) → SendsOne (act loop d)
  unfolding act
  act_one d =
      one_then _ _ (handling d.signal "strategy_loop") λ reply. search (poll_rules, quiet) depth 20

  proceed_one : (x : Step) → SendsOne (proceed loop x)
  proceed_one (Step.return b) = at_most_none _ (Moves-pure b)
  proceed_one (Step.go d) = act_one d

  tick_one : SendsOne (tick loop)
  unfolding tick
  tick_one =
      unsent_then _ _ (new_session-Moves _ quiet reopens_quietly)
        λ _. unsent_then _ _ (observe-Moves _ quiet reopens_quietly loop) proceed_one

-- One poll sends at most one order, wherever an exception ends it.
pub one_order_each_poll :
    (loop : LoopEnv) (s : StrategyLoop)
    → places (tick loop s).1.world.sent ≤ places s.world.sent + 1
one_order_each_poll loop s = omega (arith, (tick_one loop).at s)

-- A poll while trading is disabled, or while the committed system state is not RUNNING, only reads
-- the database anew: it asks the worker nothing and sends it nothing.
pub halted_poll_is_silent :
    (loop : LoopEnv) (s : StrategyLoop)
    → (s.world.committed.settings.trading_enabled ≡ false)
      ⊎ (is_running s.world.committed.settings.system_state ≡ false)
    → (tick loop s).1.world ≡ record s.world { db = s.world.committed }
unfolding tick new_session observe on_world Settings.get gets modify pure ◌>>=◌
halted_poll_is_silent loop s (inl off) =
    elim (Bool-cases (is_running s.world.committed.settings.system_state)) [
      | inl running ↦ rw (off, running) refl
      | inr halted ↦ rw (off, halted) refl
    ]
halted_poll_is_silent loop s (inr halted) =
    elim (Bool-cases s.world.committed.settings.trading_enabled) [
      | inl on ↦ rw (on, halted) refl
      | inr off ↦ rw (off, halted) refl
    ]

-- ===== src/Strategy/Loop/Candles.antt =====
-- loop.py: a poll and its candle.
use newhbot.Base.{
  ◌≡◌, ◌≢◌, zero, suc, arith, refl, sym, ap, ◌∙◌, String, Bool, true, false, Option, none, some,
  List, if◌then◌else◌,
}
use newhbot.Base.Int.{ℤ, pos, negsuc}
use newhbot.Enums.{SystemState}
use newhbot.Action.{
  continue, Exn, Result, ok, err, Action, pure, raise, gets, modify, ◌>>=◌, ◌>>◌, on_option,
  try_except,
}
use newhbot.Action.Moves.{Moves, Same}
use newhbot.Action.Triple.{
  Post, Triple, Triple-bind, Triple-gets, Triple-if, Triple-try_except, Triple-weaken,
  Triple-always,
}
use newhbot.Action.Ends.{Post-use}
use newhbot.Models.{SettingsRow, StrategyVersion}
use newhbot.Protocol.{PositionView}
use newhbot.World.{World}
use newhbot.Worker.Raw.{Fields, lift}
use newhbot.Strategy.Loop.{
  LoopEnv, StrategyLoop, Step, Decision, on_world, stop_in_recovery, observe, observe_version,
  observe_worker, observe_ready, observe_candles, observe_bar, observe_position, observe_signal,
  ask_status, or_none, is_same_candle, warm_up, not_running,
}

-- What the loop remembers of candles.
record Memory : Type 0 where
  waiting : Bool
  last : Option ℤ

abbrev memory : StrategyLoop → Memory
memory s = record { waiting = s.await_new_candle; last = s.last_candle_timestamp }

abbrev Remembers : {A : Type 0} → Action StrategyLoop A → Type 0
Remembers m = Moves (Same memory) m

module _ {A : Type 0} where
  on_world-Remembers : (m : Action World A) → Remembers (on_world m)
  unfolding on_world
  on_world-Remembers m = record { at = λ s. refl }

  lift-Remembers : (r : Result A) → Remembers (lift r)
  unfolding lift pure raise
  lift-Remembers (ok a) = record { at = λ s. refl }
  lift-Remembers (err e) = record { at = λ s. refl }

  gets-Remembers : (f : StrategyLoop → A) → Remembers (gets f)
  unfolding gets
  gets-Remembers f = record { at = λ s. refl }

ask_status-Remembers : (loop : LoopEnv) → Remembers (ask_status loop)
unfolding ask_status
ask_status-Remembers loop = on_world-Remembers _

-- Nothing is asked of a poll that returns, and `Q` of one that goes on to a signal.
abbrev OnGo : (Decision → StrategyLoop → Type 0) → Step → StrategyLoop → Type 0
OnGo Q (Step.return b) s = Unit
OnGo Q (Step.go d) s = Q d s

module _ (v : Memory) (Q : Decision → StrategyLoop → Type 0) where
  abbrev Good : Action StrategyLoop Step → Type 0
  Good m = Triple (λ s. memory s ≡ v) m (OnGo Q) (λ s. Unit)

  Good-bind :
      {A : Type 0} (m : Action StrategyLoop A) (f : A → Action StrategyLoop Step)
      → Remembers m
      → ((a : A) → Good (f a))
      → Good (m >>= f)
  Good-bind m f h k =
      Triple-bind {R = λ a s. memory s ≡ v} m f
        (record { at = λ s p. kept (m s).0 (m s).1 (h.at s ∙ p) }) k
    where
      kept :
          {A : Type 0} (r : Result A) (s : StrategyLoop)
          → memory s ≡ v
          → Post (λ a u. memory u ≡ v) (λ u. Unit) r s
      kept (ok a) s p = p
      kept (err e) s p = tt

  Good-try :
      {A : Type 0} (m : Action StrategyLoop A) (handler : Exn → Action StrategyLoop Step)
      (body : A → Action StrategyLoop Step)
      → Remembers m
      → ((e : Exn) → Good (handler e))
      → ((a : A) → Good (body a))
      → Good (try_except m handler body)
  Good-try m handler body h g k =
      Triple-try_except {R = λ a s. memory s ≡ v} m handler body
        (Triple-always m (λ s p. h.at s ∙ p)) g k

  Good-if :
      (b : Bool) (m n : Action StrategyLoop Step) → Good m → Good n → Good (if b then m else n)
  Good-if b m n h k = Triple-if b m n (λ e. h) (λ e. k)

  Good-option :
      {A : Type 0} (o : Option A) (missing : Action StrategyLoop Step)
      (found : A → Action StrategyLoop Step)
      → Good missing
      → ((a : A) → Good (found a))
      → Good (on_option o missing found)
  unfolding on_option
  Good-option none missing found h k = h
  Good-option (some a) missing found h k = k a

  Good-return : (b : Bool) → Good (pure (Step.return b))
  unfolding pure
  Good-return b = record { at = λ s p. tt }

  Good-raise : (e : Exn) → Good (raise e)
  unfolding raise
  Good-raise e = record { at = λ s p. tt }

  stop_Post :
      (r : Result SystemState) (s : StrategyLoop)
      → Post
          (OnGo Q)
          (λ u. Unit)
          (continue r (λ _. pure (Step.return false)) s).0
          (continue r (λ _. pure (Step.return false)) s).1
  unfolding pure
  stop_Post (ok a) s = tt
  stop_Post (err e) s = tt

  Good-stop : (t : String) → Good (stop_in_recovery t)
  unfolding stop_in_recovery modify ◌>>=◌
  Good-stop t = record { at = λ s p. stop_Post _ _ }

ruleset good_rules = (
  Good-bind, Good-try, Good-if, Good-option, Good-return, Good-raise, Good-stop, on_world-Remembers,
  lift-Remembers, gets-Remembers, ask_status-Remembers,
)

-- The signal is for the bar of that time.
abbrev ForTime : Memory → ℤ → Decision → StrategyLoop → Type 0
ForTime v n d s = (d.timestamp ≡ n) × (memory s ≡ v)

-- The signal is for a bar other than the last one seen, and not for the first one after a start; the
-- bar's time is noted.
abbrev ForNewBar : Memory → Decision → StrategyLoop → Type 0
ForNewBar v d s =
    (v.waiting ≡ false)
    × (is_same_candle d.timestamp v.last ≡ false)
    × (s.last_candle_timestamp ≡ or_none d.timestamp)

waiting_of :
    {v : Memory} (a s : StrategyLoop)
    → a ≡ s
    → memory s ≡ v
    → a.await_new_candle ≡ false
    → v.waiting ≡ false
waiting_of a s q m e =
    ap (λ (u : Memory). u.waiting) (sym m)
    ∙ (ap (λ (u : StrategyLoop). u.await_new_candle) (sym q) ∙ e)

last_of :
    {v : Memory} (a s : StrategyLoop) (n : ℤ)
    → a ≡ s
    → memory s ≡ v
    → is_same_candle n a.last_candle_timestamp ≡ false
    → is_same_candle n v.last ≡ false
last_of a s n q m e =
    ap (λ (u : Memory). is_same_candle n u.last) (sym m)
    ∙ (ap (λ (u : StrategyLoop). is_same_candle n u.last_candle_timestamp) (sym q) ∙ e)

module _ (loop : LoopEnv) (x : SettingsRow) (w : StrategyVersion) where
  observe_signal-Good :
      (v : Memory) (b : List Fields) (n : ℤ) (p : PositionView)
      → Good v (ForTime v n) (observe_signal loop x w b n p)
  unfolding observe_signal pure
  observe_signal-Good v b n p = Good-bind v (ForTime v n) _ _ (on_world-Remembers _) λ params.
      Good-bind v (ForTime v n) _ _ (gets-Remembers _) λ sent.
        Good-try v (ForTime v n) _ _ _ (lift-Remembers _) (λ e. Good-stop v (ForTime v n) _)
          (λ signal. going signal)
    where
      going :
          (signal : _)
          → Good v
              (ForTime v n)
              (pure (Step.go (record { version = w; timestamp = n; signal = signal })))
      going signal = record { at = λ s p. (refl, p) }

  observe_position-Good :
      (v : Memory) (b : List Fields) (n : ℤ) → Good v (ForTime v n) (observe_position loop x w b n)
  unfolding observe_position
  observe_position-Good v b n = search (good_rules, observe_signal-Good) depth 20

  -- What is known of a bar that is not the last one seen.
  from_time :
      (v : Memory) (n : ℤ) (d : Decision) (s : StrategyLoop)
      → v.waiting ≡ false
      → is_same_candle n v.last ≡ false
      → ForTime (record { waiting = false; last = or_none n }) n d s
      → ForNewBar v d s
  from_time v n d s e f (t, m) = (e, rw t f, rw t (ap (λ (u : Memory). u.last) m))

  new_bar :
      (v : Memory) (n : ℤ) (r : Result Step) (s : StrategyLoop)
      → v.waiting ≡ false
      → is_same_candle n v.last ≡ false
      → Post (OnGo (ForTime (record { waiting = false; last = or_none n }) n)) (λ u. Unit) r s
      → Post (OnGo (ForNewBar v)) (λ u. Unit) r s
  new_bar v n (ok (Step.return b)) s e f p = tt
  new_bar v n (ok (Step.go d)) s e f p = from_time v n d s e f p
  new_bar v n (err x) s e f p = tt

  judge_bar :
      (v : Memory) (b : List Fields) (n : ℤ)
      → v.waiting ≡ false
      → is_same_candle n v.last ≡ false
      → Good v (ForNewBar v) (
          modify (λ s. record s { last_candle_timestamp = or_none n })
          >> observe_position loop x w b n)
  unfolding modify ◌>>=◌
  judge_bar v b n e f = record {
    at = λ s p. new_bar v n _ _ e f (
        (observe_position-Good (record { waiting = false; last = or_none n }) b n).at
          (record s { last_candle_timestamp = or_none n })
          (λ i. record { waiting = (ap (λ (u : Memory). u.waiting) p ∙ e) i; last = or_none n }));
  }

  observe_bar-Good :
      (v : Memory) (b : List Fields) (bar : Fields)
      → Good v (ForNewBar v) (observe_bar loop x w b bar)
  unfolding observe_bar modify pure ◌>>=◌
  observe_bar-Good v b bar = Good-bind v (ForNewBar v) _ _ (lift-Remembers _) λ n.
      Triple-bind _ _ (Triple-gets _) λ a.
        Triple-if a.await_new_candle _ _ (λ waiting. warming n)
          (λ e.
            Triple-if (is_same_candle n a.last_candle_timestamp) _ _
              (λ seen. Triple-weaken _ (λ s h. h.1) (Good-return v (ForNewBar v) true))
              (λ f. looked_at a n e f))
    where
      warming :
          {P : StrategyLoop → Type 0} (n : ℤ)
          → Triple P (warm_up loop n) (OnGo (ForNewBar v)) (λ s. Unit)
      warming n = record { at = λ s p. tt }

      looked_at :
          (a : StrategyLoop) (n : ℤ)
          → a.await_new_candle ≡ false
          → is_same_candle n a.last_candle_timestamp ≡ false
          → Triple
              (λ s. (a ≡ s) × (memory s ≡ v))
              (modify (λ s. record s { last_candle_timestamp = or_none n })
                >> observe_position loop x w b n)
              (OnGo (ForNewBar v))
              (λ s. Unit)
      looked_at a n e f = record {
        at = λ s (q, m). (judge_bar v b n (waiting_of a s q m e) (last_of a s n q m f)).at s m;
      }

module _ (loop : LoopEnv) (v : Memory) where
  abbrev GoodTick : Action StrategyLoop Step → Type 0
  GoodTick m = Good v (ForNewBar v) m

  observe_candles-Good :
      (x : SettingsRow) (w : StrategyVersion) → GoodTick (observe_candles loop x w)
  unfolding observe_candles
  observe_candles-Good x w = search (good_rules, observe_bar-Good) depth 20

  observe_ready-Good :
      (x : SettingsRow) (w : StrategyVersion) (f : Fields) → GoodTick (observe_ready loop x w f)
  unfolding observe_ready
  observe_ready-Good x w f = search (good_rules, observe_candles-Good) depth 20

  observe_worker-Good : (x : SettingsRow) (w : StrategyVersion) → GoodTick (observe_worker loop x w)
  unfolding observe_worker
  observe_worker-Good x w = search (good_rules, observe_ready-Good) depth 20

  observe_version-Good : (x : SettingsRow) → GoodTick (observe_version loop x)
  unfolding observe_version
  observe_version-Good x = search (good_rules, observe_worker-Good) depth 20

  not_running-Good : (t : SystemState) → GoodTick (not_running loop t)
  unfolding modify pure ◌>>=◌
  not_running-Good t = record { at = λ s p. tt }

  observe-Good : GoodTick (observe loop)
  unfolding observe
  observe-Good = search (good_rules, observe_version-Good, not_running-Good) depth 20

same_as_itself : (n : ℤ) → n ≢ pos 0 → is_same_candle n (some n) ≡ true
same_as_itself (pos zero) h = absurd (h refl)
same_as_itself (pos (suc k)) h = ground arith
same_as_itself (negsuc k) h = ground arith

differ : true ≡ false → ⊥
differ e = cc

new_time : (n : ℤ) (last : Option ℤ) → is_same_candle n last ≡ false → n ≢ pos 0 → last ≢ some n
new_time n last e h p = differ (sym (same_as_itself n h) ∙ (rw p at e))

noted_time : (n : ℤ) → n ≢ pos 0 → or_none n ≡ some n
noted_time (pos zero) h = absurd (h refl)
noted_time (pos (suc k)) h = ground arith
noted_time (negsuc k) h = refl

-- A poll goes on to a signal never for the first candle after the loop's start; and for a candle that
-- has a time, only if this is not the time of the last candle it saw, and has noted that time by
-- then.
pub each_candle_once :
    (loop : LoopEnv) (s : StrategyLoop) (d : Decision)
    → (observe loop s).0 ≡ ok (Step.go d)
    → (s.await_new_candle ≡ false)
      × (d.timestamp ≢ pos 0
          → (s.last_candle_timestamp ≢ some d.timestamp)
            × ((observe loop s).1.last_candle_timestamp ≡ some d.timestamp))
each_candle_once loop s d e =
    let (waited, other, noted) =
      Post-use (OnGo (ForNewBar (memory s))) (observe loop s).0 (observe loop s).1 (Step.go d)
        ((observe-Good loop (memory s)).at s refl) e in
    (
      waited,
      λ h. (new_time d.timestamp s.last_candle_timestamp other h, noted ∙ noted_time d.timestamp h),
    )

-- ===== src/Strategies/Ema5break.antt =====
-- strategies/ema5break/strategy.py: a signal from the last bars. The floating-point numbers are a
-- parameter with the operations that the source uses, of which no law is assumed. A snapshot's
-- values are taken after the conversions by `int` and `float`; a period below 0 stands as 0, since
-- both are refused.
pub mod Rules
pub mod Increment
use newhbot.Base.{
  ℕ, zero, suc, ◌+◌, ◌-◌, ltb, String, Bool, true, false, not, ◌&&◌, ◌||◌, if◌then◌else◌, Option,
  none, some, List, [], ◌∷◌, map, length,
}
use newhbot.Text.{lower_is}
use newhbot.Enums.{SignalType}

-- Python's float.
pub record Floats : Type 1 where
  pub F : Type 0
  pub of_int : ℕ → F
  -- Of a decimal literal: 15 and 1 stand for 1.5.
  pub literal : ℕ → ℕ → F
  pub add : F → F → F
  pub sub : F → F → F
  pub mul : F → F → F
  pub div : F → F → F
  pub lt : F → F → Bool
  pub le : F → F → Bool
  pub abs : F → F
  pub max : F → F → F
  pub min : F → F → F
  pub sum : List F → F

module _ {A : Type 0} where
  -- xs[:n]
  abbrev pub take : ℕ → List A → List A
  take zero xs = []
  take (suc n) [] = []
  take (suc n) (x ∷ xs) = x ∷ take n xs

  -- xs[n:]
  abbrev pub drop : ℕ → List A → List A
  drop zero xs = xs
  drop (suc n) [] = []
  drop (suc n) (x ∷ xs) = drop n xs

  -- xs[-n:], for n at least 1
  abbrev pub last_items : ℕ → List A → List A
  last_items n xs = drop (length xs - n) xs

module _ (fl : Floats) where
  pub record Bar : Type 0 where
    pub open_px : fl.F
    pub high : fl.F
    pub low : fl.F
    pub close : fl.F

  -- The parameters that are given.
  pub record Parameters : Type 0 where
    pub ema_period : Option ℕ
    pub atr_period : Option ℕ
    pub atr_stop_mult : Option fl.F
    pub tp_rr : Option fl.F

  pub record Params : Type 0 where
    pub ema_period : ℕ
    pub atr_period : ℕ
    pub atr_stop_mult : fl.F
    pub tp_rr : fl.F

  pub record Snapshot : Type 0 where
    pub parameters : Parameters
    pub bars : List Bar
    pub position_side : Option String
    pub entry_price : Option fl.F

  abbrev or_default : {A : Type 0} → Option A → A → A
  or_default none a = a
  or_default (some a) b = a

  -- _params; the interval and the symbol are not used below.
  unfoldable pub params_of : Parameters → Params
  params_of raw = record {
    ema_period = or_default raw.ema_period 5;
    atr_period = or_default raw.atr_period 14;
    atr_stop_mult = or_default raw.atr_stop_mult (fl.literal 20 1);
    tp_rr = or_default raw.tp_rr (fl.literal 15 1);
  }

  -- The smoothing factor 2.0 / (period + 1).
  abbrev pub smoothing : ℕ → fl.F
  smoothing period = fl.div (fl.literal 20 1) (fl.of_int (period + 1))

  -- One round of the loop.
  abbrev pub smoothed : fl.F → fl.F → fl.F → fl.F
  smoothed k value price = fl.add (fl.mul price k) (fl.mul value (fl.sub (fl.literal 10 1) k))

  unfoldable pub smooth : fl.F → fl.F → List fl.F → fl.F
  smooth k value [] = value
  smooth k value (price ∷ prices) = smooth k (smoothed k value price) prices

  unfoldable pub ema : List fl.F → ℕ → Option fl.F
  unfolding smooth
  ema closes period =
      if ltb period 1 || ltb (length closes) period
      then none
      else some (
          smooth (smoothing period) (fl.div (fl.sum (take period closes)) (fl.of_int period))
            (drop period closes))

  unfoldable pub true_range : fl.F → Bar → fl.F
  true_range prev_close bar =
      fl.max (fl.max (fl.sub bar.high bar.low) (fl.abs (fl.sub bar.high prev_close)))
        (fl.abs (fl.sub bar.low prev_close))

  -- The true ranges of the bars after the first.
  unfoldable pub true_ranges : List Bar → List fl.F
  unfolding true_range
  true_ranges [] = []
  true_ranges (a ∷ []) = []
  true_ranges (a ∷ b ∷ bars) = true_range a.close b ∷ true_ranges (b ∷ bars)

  unfoldable pub atr : List Bar → ℕ → Option fl.F
  unfolding true_ranges
  atr bars period =
      let window = last_items period (true_ranges bars) in
      if ltb period 1 || ltb (length bars) (period + 1)
      then none
      else if ltb (length window) period
      then none
      else some (fl.div (fl.sum window) (fl.of_int period))

  abbrev body_high : Bar → fl.F
  body_high bar = fl.max bar.open_px bar.close

  abbrev body_low : Bar → fl.F
  body_low bar = fl.min bar.open_px bar.close

  abbrev pub is_bull : Bar → Bool
  is_bull bar = fl.lt bar.open_px bar.close

  abbrev pub is_bear : Bar → Bool
  is_bear bar = fl.lt bar.close bar.open_px

  -- The body of `curr` covers that of `prev`.
  abbrev engulfs : Bar → Bar → Bool
  engulfs prev curr =
      fl.le (body_low curr) (body_low prev) && fl.le (body_high prev) (body_high curr)

  unfoldable pub bullish_engulfing : Bar → Bar → Bool
  bullish_engulfing prev curr =
      if not (is_bear prev && is_bull curr) then false else engulfs prev curr

  unfoldable pub bearish_engulfing : Bar → Bar → Bool
  bearish_engulfing prev curr =
      if not (is_bull prev && is_bear curr) then false else engulfs prev curr

  -- The last two bars.
  pub record LastBars : Type 0 where
    pub prev : Bar
    pub curr : Bar

  unfoldable pub last_bars : List Bar → Option LastBars
  last_bars [] = none
  last_bars (a ∷ []) = none
  last_bars (a ∷ b ∷ []) = some (record { prev = a; curr = b })
  last_bars (a ∷ b ∷ c ∷ bars) = last_bars (b ∷ c ∷ bars)

  abbrev pub side_is : String → Option String → Bool
  side_is word none = false
  side_is word (some side) = lower_is word side

  -- In a LONG position entered at `entry`.
  unfoldable pub exit_long : Option fl.F → fl.F → fl.F → fl.F → SignalType
  exit_long none close stop_dist tp_dist = SignalType.hold
  exit_long (some entry) close stop_dist tp_dist =
      if fl.le close (fl.sub entry stop_dist)
      then SignalType.close
      else if fl.le (fl.add entry tp_dist) close
      then SignalType.close
      else SignalType.hold

  unfoldable pub exit_short : Option fl.F → fl.F → fl.F → fl.F → SignalType
  exit_short none close stop_dist tp_dist = SignalType.hold
  exit_short (some entry) close stop_dist tp_dist =
      if fl.le (fl.add entry stop_dist) close
      then SignalType.close
      else if fl.le close (fl.sub entry tp_dist)
      then SignalType.close
      else SignalType.hold

  unfoldable pub enter : LastBars → fl.F → SignalType
  unfolding bullish_engulfing bearish_engulfing
  enter last ema_value =
      let want_long = bullish_engulfing last.prev last.curr && fl.lt ema_value last.curr.close in
      let want_short = bearish_engulfing last.prev last.curr && fl.lt last.curr.close ema_value in
      if want_long && not want_short
      then SignalType.long
      else if want_short && not want_long
      then SignalType.short
      else SignalType.hold

  -- The decision, once there are two bars and both indicators.
  unfoldable pub decide : Snapshot → Params → LastBars → fl.F → fl.F → SignalType
  unfolding exit_long exit_short enter
  decide snapshot params last ema_value atr_value =
      let stop_dist = fl.mul params.atr_stop_mult atr_value in
      let tp_dist = fl.mul params.tp_rr stop_dist in
      if side_is "long" snapshot.position_side
      then exit_long snapshot.entry_price last.curr.close stop_dist tp_dist
      else if side_is "short" snapshot.position_side
      then exit_short snapshot.entry_price last.curr.close stop_dist tp_dist
      else enter last ema_value

  abbrev with_atr : Snapshot → Params → LastBars → fl.F → Option fl.F → SignalType
  with_atr snapshot params last ema_value none = SignalType.hold
  with_atr snapshot params last ema_value (some atr_value) =
      if fl.le atr_value (fl.of_int 0)
      then SignalType.hold
      else decide snapshot params last ema_value atr_value

  abbrev with_ema : Snapshot → Params → LastBars → Option fl.F → SignalType
  with_ema snapshot params last none = SignalType.hold
  with_ema snapshot params last (some ema_value) =
      with_atr snapshot params last ema_value (atr snapshot.bars params.atr_period)

  abbrev with_bars : Snapshot → Params → Option LastBars → SignalType
  with_bars snapshot params none = SignalType.hold
  with_bars snapshot params (some last) =
      with_ema snapshot params last
        (ema (map (λ (b : Bar). b.close) snapshot.bars) params.ema_period)

  unfoldable pub on_bar : Snapshot → SignalType
  unfolding last_bars ema atr decide params_of
  on_bar snapshot = with_bars snapshot (params_of snapshot.parameters) (last_bars snapshot.bars)

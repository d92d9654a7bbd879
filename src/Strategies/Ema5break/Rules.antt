-- ===== src/Strategies/Ema5break/Rules.antt =====
-- strategies/ema5break/strategy.py: the rules that its header states.
use newhbot.Base.{
  ◌≡◌, refl, ◌⊎◌, inl, inr, Bool, true, false, ◌&&◌, Option, none, some, map, Bool-cases,
}
use newhbot.Enums.{SignalType}
use newhbot.Strategies.Ema5break.{
  Floats, Bar, Snapshot, Params, LastBars, params_of, ema, atr, last_bars, bullish_engulfing,
  bearish_engulfing, side_is, exit_long, exit_short, enter, decide, with_atr, with_ema, with_bars,
  on_bar,
}

both_left : (a b : Bool) → (a && b) ≡ true → a ≡ true
both_left true b e = refl
both_left false b e = cc

both_right : (a b : Bool) → (a && b) ≡ true → b ≡ true
both_right true b e = e
both_right false b e = cc

module _ (fl : Floats) (s : Snapshot fl) where
  abbrev params : Params fl
  params = params_of fl s.parameters

  -- Half of the way to the other parameters: the stop's distance for an ATR.
  abbrev pub stop_distance : fl.F → fl.F
  stop_distance a = fl.mul params.atr_stop_mult a

  -- What both an entry and an exit rest on: the last two bars, the EMA and the ATR.
  pub record HasIndicators (last : LastBars fl) (e a : fl.F) : Type 0 where
    pub two_bars : last_bars fl s.bars ≡ some last
    pub has_ema : ema fl (map (λ (b : Bar fl). b.close) s.bars) params.ema_period ≡ some e
    pub has_atr : atr fl s.bars params.atr_period ≡ some a
    pub moving : fl.le a (fl.of_int 0) ≡ false

  -- LONG: no position, the last bar's body engulfs a bearish one upwards and closes above the EMA.
  pub record IsLongEntry : Type 0 where
    pub last : LastBars fl
    pub e : fl.F
    pub a : fl.F
    pub indicators : HasIndicators last e a
    pub not_long : side_is fl "long" s.position_side ≡ false
    pub not_short : side_is fl "short" s.position_side ≡ false
    pub engulfing : bullish_engulfing fl last.prev last.curr ≡ true
    pub above : fl.lt e last.curr.close ≡ true

  pub record IsShortEntry : Type 0 where
    pub last : LastBars fl
    pub e : fl.F
    pub a : fl.F
    pub indicators : HasIndicators last e a
    pub not_long : side_is fl "long" s.position_side ≡ false
    pub not_short : side_is fl "short" s.position_side ≡ false
    pub engulfing : bearish_engulfing fl last.prev last.curr ≡ true
    pub below : fl.lt last.curr.close e ≡ true

  -- CLOSE: a position with a known entry, and a close beyond the stop or the take-profit.
  pub record IsExit : Type 0 where
    pub last : LastBars fl
    pub e : fl.F
    pub a : fl.F
    pub entry : fl.F
    pub indicators : HasIndicators last e a
    pub entered : s.entry_price ≡ some entry
    pub reached :
        ((side_is fl "long" s.position_side ≡ true)
          × ((fl.le last.curr.close (fl.sub entry (stop_distance a)) ≡ true)
              ⊎ (fl.le (fl.add entry (fl.mul params.tp_rr (stop_distance a))) last.curr.close
                  ≡ true)))
        ⊎ ((side_is fl "short" s.position_side ≡ true)
            × ((fl.le (fl.add entry (stop_distance a)) last.curr.close ≡ true)
                ⊎ (fl.le last.curr.close (fl.sub entry (fl.mul params.tp_rr (stop_distance a)))
                    ≡ true)))

  abbrev pub Justified : SignalType → Type 0
  Justified SignalType.hold = Unit
  Justified SignalType.close = IsExit
  Justified SignalType.long = IsLongEntry
  Justified SignalType.short = IsShortEntry

  module _ (last : LastBars fl) (e a : fl.F) (h : HasIndicators last e a) where
    abbrev sd : fl.F
    sd = stop_distance a

    abbrev td : fl.F
    td = fl.mul params.tp_rr sd

    exit_long_lem :
        (entry : Option fl.F)
        → s.entry_price ≡ entry
        → side_is fl "long" s.position_side ≡ true
        → Justified (exit_long fl entry last.curr.close sd td)
    unfolding exit_long
    exit_long_lem none q l = tt
    exit_long_lem (some x) q l = elim (Bool-cases (fl.le last.curr.close (fl.sub x sd))) [
      | inl stop ↦ rw stop (record {
        last = last;
        e = e;
        a = a;
        entry = x;
        indicators = h;
        entered = q;
        reached = inl (l, inl stop);
      })
      | inr above ↦ elim (Bool-cases (fl.le (fl.add x td) last.curr.close)) [
        | inl profit ↦
            rw (above, profit)
              (record {
                last = last;
                e = e;
                a = a;
                entry = x;
                indicators = h;
                entered = q;
                reached = inl (l, inr profit);
              })
        | inr below ↦ rw (above, below) tt
      ]
    ]

    exit_short_lem :
        (entry : Option fl.F)
        → s.entry_price ≡ entry
        → side_is fl "short" s.position_side ≡ true
        → Justified (exit_short fl entry last.curr.close sd td)
    unfolding exit_short
    exit_short_lem none q l = tt
    exit_short_lem (some x) q l = elim (Bool-cases (fl.le (fl.add x sd) last.curr.close)) [
      | inl stop ↦ rw stop (record {
        last = last;
        e = e;
        a = a;
        entry = x;
        indicators = h;
        entered = q;
        reached = inr (l, inl stop);
      })
      | inr below ↦ elim (Bool-cases (fl.le last.curr.close (fl.sub x td))) [
        | inl profit ↦
            rw (below, profit)
              (record {
                last = last;
                e = e;
                a = a;
                entry = x;
                indicators = h;
                entered = q;
                reached = inr (l, inr profit);
              })
        | inr above ↦ rw (below, above) tt
      ]
    ]

    enter_lem :
        side_is fl "long" s.position_side ≡ false
        → side_is fl "short" s.position_side ≡ false
        → Justified (enter fl last e)
    unfolding enter
    enter_lem l t =
        elim (Bool-cases (bullish_engulfing fl last.prev last.curr && fl.lt e last.curr.close)) [
          | inl up ↦
              elim (Bool-cases
                (bearish_engulfing fl last.prev last.curr && fl.lt last.curr.close e)) [
                  | inl down ↦ rw (up, down) tt
                  | inr not_down ↦
                      rw (up, not_down)
                        (record {
                          last = last;
                          e = e;
                          a = a;
                          indicators = h;
                          not_long = l;
                          not_short = t;
                          engulfing = both_left _ _ up;
                          above = both_right _ _ up;
                        })
                ]
          | inr not_up ↦
              elim (Bool-cases
                (bearish_engulfing fl last.prev last.curr && fl.lt last.curr.close e)) [
                  | inl down ↦
                      rw (not_up, down)
                        (record {
                          last = last;
                          e = e;
                          a = a;
                          indicators = h;
                          not_long = l;
                          not_short = t;
                          engulfing = both_left _ _ down;
                          below = both_right _ _ down;
                        })
                  | inr not_down ↦ rw (not_up, not_down) tt
                ]
        ]

    decide_lem : Justified (decide fl s params last e a)
    unfolding decide
    decide_lem = elim (Bool-cases (side_is fl "long" s.position_side)) [
      | inl l ↦ rw l (exit_long_lem s.entry_price refl l)
      | inr not_l ↦ elim (Bool-cases (side_is fl "short" s.position_side)) [
        | inl t ↦ rw (not_l, t) (exit_short_lem s.entry_price refl t)
        | inr not_t ↦ rw (not_l, not_t) (enter_lem not_l not_t)
      ]
    ]

  module _ (last : LastBars fl) (two_bars : last_bars fl s.bars ≡ some last) where
    with_atr_lem :
        (e : fl.F) (o : Option fl.F)
        → ema fl (map (λ (b : Bar fl). b.close) s.bars) params.ema_period ≡ some e
        → atr fl s.bars params.atr_period ≡ o
        → Justified (with_atr fl s params last e o)
    with_atr_lem e none he ha = tt
    with_atr_lem e (some a) he ha = elim (Bool-cases (fl.le a (fl.of_int 0))) [
      | inl still ↦ rw still tt
      | inr moving ↦ rw moving (
          decide_lem last e a
            (record { two_bars = two_bars; has_ema = he; has_atr = ha; moving = moving }))
    ]

    with_ema_lem :
        (o : Option fl.F)
        → ema fl (map (λ (b : Bar fl). b.close) s.bars) params.ema_period ≡ o
        → Justified (with_ema fl s params last o)
    with_ema_lem none he = tt
    with_ema_lem (some e) he = with_atr_lem e (atr fl s.bars params.atr_period) he refl

  with_bars_lem :
      (o : Option (LastBars fl)) → last_bars fl s.bars ≡ o → Justified (with_bars fl s params o)
  with_bars_lem none h = tt
  with_bars_lem (some last) h = with_ema_lem last h _ refl

  -- Whatever the floating-point operations are: a LONG or SHORT signal comes only without a position
  -- and on its engulfing pattern on its side of the EMA, and a CLOSE only in a position with a known
  -- entry, once the stop or the take-profit is reached. So a position is never reversed.
  pub on_bar-Justified : Justified (on_bar fl s)
  unfolding on_bar
  on_bar-Justified = with_bars_lem (last_bars fl s.bars) refl

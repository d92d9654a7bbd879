-- ===== src/Examples/Strategy.antt =====
-- The EMA strategy on whole numbers.
use newhbot.Base.{
  ◌≡◌, refl, ℕ, ◌+◌, ◌-◌, ◌*◌, ◌/◌, ◌^◌, ltb, leb, if◌then◌else◌, some, none, List, [], ◌∷◌, ◌++◌,
}
use newhbot.Enums.{SignalType}
use newhbot.Strategies.Ema5break.{Floats, Bar, Snapshot, on_bar, ema, smoothed, smoothing}
use newhbot.Strategies.Ema5break.Rules.{Justified, on_bar-Justified}
use newhbot.Strategies.Ema5break.Increment.{ema-append}

abbrev total : List ℕ → ℕ
total [] = 0
total (n ∷ ns) = n + total ns

abbrev wholes : Floats
wholes = record {
  F = ℕ;
  of_int = λ n. n;
  literal = λ n k. n / 10 ^ k;
  add = λ a b. a + b;
  sub = λ a b. a - b;
  mul = λ a b. a * b;
  div = λ a b. a / b;
  lt = ltb;
  le = leb;
  abs = λ a. a;
  max = λ a b. if leb a b then b else a;
  min = λ a b. if leb a b then a else b;
  sum = total;
}

abbrev falling : Bar wholes
falling = record { open_px = 110; high = 112; low = 98; close = 100 }

abbrev rising : Bar wholes
rising = record { open_px = 99; high = 125; low = 97; close = 120 }

abbrev engulfed : Snapshot wholes
engulfed = record {
  parameters = record {
    ema_period = some 2;
    atr_period = some 1;
    atr_stop_mult = none;
    tp_rr = none;
  };
  bars = falling ∷ rising ∷ [];
  position_side = some "Flat";
  entry_price = none;
}

goes_long : on_bar wholes engulfed ≡ SignalType.long
unfolding on_bar newhbot.Text.lower_is
goes_long = refl

on_bar-Justified_example : Justified wholes engulfed (on_bar wholes engulfed)
on_bar-Justified_example = on_bar-Justified wholes engulfed

two_closes : ema wholes (100 ∷ 120 ∷ []) 2 ≡ some 110
unfolding ema
two_closes = refl

ema-append_example :
    ema wholes ((100 ∷ 120 ∷ []) ++ 130 ∷ []) 2
    ≡ some (smoothed wholes (smoothing wholes 2) 110 130)
ema-append_example = ema-append wholes (100 ∷ 120 ∷ []) 2 110 130 two_closes

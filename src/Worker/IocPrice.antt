-- ===== src/Worker/IocPrice.antt =====
-- execution-worker/app/ioc_price.py: the limit that stands for a market order.
use newhbot.Base.{String, str_eq, not, if◌then◌else◌}
use newhbot.Decimal.{Decimal, whole, add, sub, mul, lt, positive}
use newhbot.Enums.{OrderSide, is_buy}
use newhbot.Action.{Exn, Result, ok, err}

abbrev pub value_error : String → Exn
value_error message = record { type_name = "ValueError"; message = message }

unfoldable pub ioc_raw_price : OrderSide → Decimal → Decimal → Result Decimal
ioc_raw_price side mid slippage =
    let raw =
      if is_buy side then mul mid (add (whole 1) slippage) else mul mid (sub (whole 1) slippage) in
    if not (positive mid)
    then err (value_error "mid price must be positive")
    else if lt slippage (whole 0)
    then err (value_error "slippage must be >= 0")
    else if not (positive raw)
    then err (value_error "IOC price collapsed to non-positive; slippage too large")
    else ok raw

unfoldable pub close_side_for_position : String → Result OrderSide
close_side_for_position position_side =
    if str_eq position_side "LONG"
    then ok OrderSide.sell
    else if str_eq position_side "SHORT"
    then ok OrderSide.buy
    else err (value_error "FLAT has no close side")

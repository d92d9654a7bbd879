-- ===== src/Examples/Progress.antt =====
-- An order that the worker has no trace of, and an order that is asked for after it was sent.
use newhbot.Base.{refl, true, []}
use newhbot.Controllers.Reconcile.{reconcile_unknown}
use newhbot.Controllers.Reconcile.Progress.{IsAbsent, IsResolved, absent_order-IsResolved}
use newhbot.Worker.Mock
use newhbot.Worker.Mock.{MockExchange, new_exchange}
use newhbot.Examples.{calm_env, running, lost_order, flat_position}

no_trace : IsAbsent calm_env lost_order running [] (flat_position lost_order.symbol)
no_trace = record {
  no_order = refl;
  fills_read = refl;
  position_read = refl;
  no_fill = refl;
  flat = refl;
}

absent_order-IsResolved_example :
    IsResolved lost_order running (reconcile_unknown calm_env lost_order running)
absent_order-IsResolved_example =
    absent_order-IsResolved calm_env lost_order running [] (flat_position lost_order.symbol)
      no_trace

abbrev slow : MockExchange
slow = record new_exchange { connected = true; behavior = Mock.PlaceBehavior.timeout_after_accept }

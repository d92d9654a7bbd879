-- ===== src/Controllers/Open.antt =====
-- trading_controller.py: `_open` and `_size_from_settings`.
use newhbot.Base.{
  String, append, str_eq, Bool, false, not, ◌&&◌, if◌then◌else◌, is_some, Option, none, some, List,
  any, find?,
}
use newhbot.Decimal.{Decimal, whole, div, mul, positive}
use newhbot.Enums.{SignalType, PositionSide, OrderSide, is_flat, is_confirmed_live, status_value}
use newhbot.Action.{Exn, Action, pure, raise, ◌>>=◌, ◌>>◌, try_except, on_option}
use newhbot.Protocol.{PositionView}
use newhbot.World.{World, Env, Call, ask, commit, new_id, MarketItem}
use newhbot.Recovery.{enter_recovery}
use newhbot.Repositories.Settings
use newhbot.Repositories.Orders
use newhbot.Repositories.Reservation
use newhbot.Repositories.Journal
use newhbot.Controllers.Guard.{can_open_position}
use newhbot.Controllers.Mirror.{Reply, no_reply, local_side, sync_exchange_mirror}
use newhbot.Controllers.Reconcile.{is_empty}
use newhbot.Controllers.Submit.{submit}

-- record.reason = reason; {"accepted": False, "reason": reason, "signal_id": record.id}
unfoldable pub refuse : String → String → Action World Reply
refuse signal_id reason = do
  Journal.answer_signal signal_id false reason
  commit
  pure (record no_reply { accepted = some false; reason = some reason; signal_id = some signal_id })

-- Go to RECOVERY, then refuse the signal.
unfoldable pub refuse_in_recovery : String → String → String → Action World Reply
refuse_in_recovery signal_id recovery_reason reason = do
  enter_recovery recovery_reason
  refuse signal_id reason

-- Some position that is not FLAT is in another symbol than the configured pair.
unfoldable pub has_foreign : String → List PositionView → Bool
has_foreign pair positions =
    any (λ (p : PositionView). not (is_flat p.side) && not (str_eq p.symbol pair)) positions

abbrev pub value_error : String → Exn
value_error message = record { type_name = "ValueError"; message = message }

-- market.get("mid", "0")
abbrev pub mid_of : List MarketItem → Decimal
mid_of market = elim (find? (λ (m : MarketItem). str_eq m.key "mid") market) [
  | none ↦ whole 0
  | some item ↦ item.value
]

-- What the exchange showed before an open: the position's side and whether a foreign position is
-- there, or the reply that already refused the signal.
pub record Shown : Type 0 where
  pub side : PositionSide
  pub foreign : Bool
  pub refused : Option Reply

abbrev pub order_side : SignalType → OrderSide
order_side SignalType.long = OrderSide.buy
order_side _ = OrderSide.sell

pub record Status : Type 0 where
  pub reachable : Bool
  pub ready : Bool

module _ (env : Env) where
  unfoldable pub size_from_settings : Action World Decimal
  size_from_settings = do
    settings ← Settings.get
    market ←
        ask (Call.get_market_data settings.trading_pair)
          (λ h. env.get_market_data h settings.trading_pair)
    let mid = mid_of market
    if not (positive mid) then raise (value_error "mid price unavailable") else do
      balance ← ask Call.get_balance env.get_balance
      let notional = mul balance.equity (div settings.position_percentage (whole 100))
      if not (positive notional)
          then raise (value_error "notional from settings is not positive")
          else pure (div notional mid)

  unfoldable pub query_status : Action World Status
  query_status = do
    reachable ← ask Call.health env.health
    ready ← if reachable then ask Call.is_ready env.is_ready else pure false
    pure (record { reachable = reachable; ready = ready })

  module _ (signal : SignalType) (signal_id : String) where
    -- The slot is taken, and the order submitted.
    unfoldable pub open_reserved : Decimal → Action World Reply
    open_reserved quantity = do
      order_id ← new_id env
      reserved ← Reservation.try_acquire order_id "open"
      if not reserved
          then refuse signal_id "open reservation held; concurrent or in-flight open exists"
          else do
            settings ← Settings.get
            order ← submit env (record {
              symbol = settings.trading_pair;
              side = order_side signal;
              quantity = quantity;
              reduce_only = false;
              signal_id = some signal_id;
              order_id = some order_id;
            })
            Journal.answer_signal signal_id (is_confirmed_live order.status)
                (status_value order.status)
            commit
            pure (record no_reply {
              accepted = some (is_confirmed_live order.status);
              reason = some (status_value order.status);
              signal_id = some signal_id;
              cloid = some order.cloid;
              status = some order.status;
            })

    -- The guard allows the open: size it.
    unfoldable pub open_allowed : Action World Reply
    open_allowed =
        try_except (size_from_settings)
          (λ exc.
            refuse_in_recovery signal_id (append "open_size_query_failed:" exc.type_name)
              (append "size unavailable: " exc.type_name))
          open_reserved

    -- Ask the guard.
    unfoldable pub open_guarded : Bool → Shown → Action World Reply
    open_guarded ready shown = do
      settings ← Settings.get
      local ← local_side settings.trading_pair
      unresolved ← Orders.has_unresolved
      holder ← Reservation.current_order_id
      let guard = can_open_position (record {
        local_side = local;
        exchange_side = shown.side;
        has_unknown_orders = unresolved;
        system_state = settings.system_state;
        configured_pair = settings.trading_pair;
        target_pair = settings.trading_pair;
        exchange_connected = ready;
        has_foreign_positions = shown.foreign;
        has_open_reservation = is_some holder;
      })
      if not guard.allowed then refuse signal_id guard.reason else open_allowed

    -- The exchange is asked, and its mirror is read again.
    unfoldable pub query_exchange : Action World Shown
    query_exchange = do
      settings ← Settings.get
      position ←
          ask (Call.get_position settings.trading_pair)
            (λ h. env.get_position h settings.trading_pair)
      positions ← ask Call.get_positions env.get_positions
      let shown : Shown = record {
        side = position.side;
        foreign = has_foreign settings.trading_pair positions;
        refused = none;
      }
      open_orders ← ask Call.get_open_orders env.get_open_orders
      if not (is_empty open_orders)
          then (do
            reply ←
                refuse_in_recovery signal_id "exchange_open_orders_present"
                  "exchange open orders present"
            pure (record shown { refused = some reply }))
          else do
            synced ← sync_exchange_mirror env settings.trading_pair
            if synced then pure shown else do
              reply ←
                  refuse_in_recovery signal_id "exchange_mirror_unavailable"
                    "exchange position query failed"
              pure (record shown { refused = some reply })

    -- The worker is reachable.
    unfoldable pub open_reachable : Bool → Action World Reply
    open_reachable ready =
        try_except query_exchange
          (λ exc.
            refuse_in_recovery signal_id (append "open_exchange_query_failed:" exc.type_name)
              "exchange query failed")
          (λ shown.
            on_option shown.refused
              (if not ready
                then refuse_in_recovery signal_id "worker_not_ready_during_open"
                    "execution worker not READY; recovery required"
                else open_guarded ready shown)
              pure)

    unfoldable pub open_position : Action World Reply
    open_position =
        try_except query_status
          (λ exc.
            refuse_in_recovery signal_id (append "worker_status_query_failed:" exc.type_name)
              "execution worker status query failed; recovery required")
          (λ status.
            if not status.reachable
            then refuse_in_recovery signal_id "worker_unreachable_during_open"
                "execution worker unreachable; recovery required"
            else open_reachable status.ready)

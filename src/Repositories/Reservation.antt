-- ===== src/Repositories/Reservation.antt =====
-- ReservationRepository: the singleton slot that an opening intent holds. A missing row is a free
-- slot, which `ensure_slot` would insert.
use newhbot.Base.{String, str_eq, Bool, true, false, is_some, if◌then◌else◌, Option, none, some}
use newhbot.Action.{Action, gets, ok}
use newhbot.World.{World}

-- UPDATE … SET order_id = ? WHERE id = 1 AND order_id IS NULL; whether a row was updated.
unfoldable pub try_acquire : String → String → Action World Bool
try_acquire order_id reason s = if is_some s.db.slot.order_id then (ok false, s) else (
  ok true,
  record s {
    db = record s.db { slot = record { order_id = some order_id; held_reason = some reason } };
  },
)

-- The `WHERE` clause of `release`: any holder, or that one.
abbrev pub held_by : Option String → Option String → Bool
held_by none holder = true
held_by (some order_id) none = false
held_by (some order_id) (some holder) = str_eq holder order_id

unfoldable pub release : Option String → Action World Unit
release who s = (
  ok tt,
  if held_by who s.db.slot.order_id
      then record s { db = record s.db { slot = record { order_id = none; held_reason = none } } }
      else s,
)

unfoldable pub current_order_id : Action World (Option String)
current_order_id = gets (λ s. s.db.slot.order_id)

-- ===== src/Controllers/Guard/Conditions.antt =====
-- position_guard.py: when the guard lets an open through.
use newhbot.Base.{◌≡◌, refl, ◌↔◌, true, false, str_eq, eq_iff, arith}
use newhbot.Enums.{PositionSide, SystemState, is_flat, is_running}
use newhbot.Controllers.Guard.{GuardInput, can_open_position}

-- What the guard asks for.
pub record IsOpenable (inp : GuardInput) : Type 0 where
  pub configured : inp.target_pair ≡ inp.configured_pair
  pub connected : inp.exchange_connected ≡ true
  pub no_foreign : inp.has_foreign_positions ≡ false
  pub no_unknown : inp.has_unknown_orders ≡ false
  pub slot_free : inp.has_open_reservation ≡ false
  pub running : inp.system_state ≡ SystemState.running
  pub local_flat : inp.local_side ≡ PositionSide.flat
  pub exchange_flat : inp.exchange_side ≡ PositionSide.flat

is_running_lem : (x : SystemState) → is_running x ≡ true → x ≡ SystemState.running
is_running_lem SystemState.running e = refl
is_running_lem _ e = cc

is_flat_lem : (x : PositionSide) → is_flat x ≡ true → x ≡ PositionSide.flat
is_flat_lem PositionSide.flat e = refl
is_flat_lem _ e = cc

allowed_of :
    (inp : GuardInput)
    → (can_open_position inp).allowed ≡ true
    → (str_eq inp.target_pair inp.configured_pair ≡ true)
      × (inp.exchange_connected ≡ true)
      × (inp.has_foreign_positions ≡ false)
      × (inp.has_unknown_orders ≡ false)
      × (inp.has_open_reservation ≡ false)
      × (is_running inp.system_state ≡ true)
      × (is_flat inp.local_side ≡ true)
      × (is_flat inp.exchange_side ≡ true)
unfolding can_open_position
allowed_of inp e = ground arith

pub sound : (inp : GuardInput) → (can_open_position inp).allowed ≡ true → IsOpenable inp
sound inp e =
    let (pair, connected, foreign, unknown, slot, running, local, exchange) = allowed_of inp e in
    record {
      configured = (eq_iff inp.target_pair inp.configured_pair).0 pair;
      connected = connected;
      no_foreign = foreign;
      no_unknown = unknown;
      slot_free = slot;
      running = is_running_lem inp.system_state running;
      local_flat = is_flat_lem inp.local_side local;
      exchange_flat = is_flat_lem inp.exchange_side exchange;
    }

complete : (inp : GuardInput) → IsOpenable inp → (can_open_position inp).allowed ≡ true
unfolding can_open_position
complete inp h =
    let pair = (eq_iff inp.target_pair inp.configured_pair).1 h.configured in
    rw
      (
        pair, h.connected, h.no_foreign, h.no_unknown, h.slot_free, h.running, h.local_flat,
        h.exchange_flat,
      )
      refl

-- The guard allows an open exactly when the target is the configured pair, the exchange is
-- connected, no foreign position, no unresolved order and no held slot is there, the system is
-- RUNNING, and both the local and the exchange's position are FLAT.
pub can_open_position-IsOpenable :
    (inp : GuardInput) → (can_open_position inp).allowed ≡ true ↔ IsOpenable inp
can_open_position-IsOpenable inp = (sound inp, complete inp)

-- ===== src/Repositories/Journal.antt =====
-- The tables that are only appended to: SignalRepository, EventRepository, AuditRepository and
-- SnapshotRepository; and the assignments to a signal's row.
use newhbot.Base.{ℕ, String, str_eq, Bool, some, [], ◌∷◌, ◌++◌, length, map_if}
use newhbot.Decimal.{Decimal}
use newhbot.Action.{Action, ok}
use newhbot.Models.{Signal, Payload}
use newhbot.World.{World, modify_db}

unfoldable pub add_signal : Signal → Action World Unit
add_signal r = modify_db (λ d. record d { signals = d.signals ++ r ∷ [] })

-- record.accepted = …; record.reason = … for the signal row of that id
unfoldable pub answer_signal : String → Bool → String → Action World Unit
answer_signal id accepted reason = modify_db (λ d. record d {
  signals =
      map_if (λ (r : Signal). str_eq r.id id)
        (λ r. record r { accepted = accepted; reason = some reason }) d.signals;
})

-- The new event's id: the ids count up from 1.
unfoldable pub add_event : String → Payload → Action World ℕ
add_event event_type payload s =
    let events = s.db.events ++ record { event_type = event_type; payload = payload } ∷ [] in
    (ok (length events), record s { db = record s.db { events = events } })

unfoldable pub add_audit : String → Payload → String → Action World Unit
add_audit action details actor = modify_db (λ d. record d {
  audits = d.audits ++ record { action = action; actor = actor; details = details } ∷ [];
})

unfoldable pub add_snapshot : Decimal → Decimal → Decimal → Action World Unit
add_snapshot equity available margin_used = modify_db (λ d. record d {
  snapshots =
      d.snapshots
      ++ record { equity = equity; available = available; margin_used = margin_used } ∷ [];
})

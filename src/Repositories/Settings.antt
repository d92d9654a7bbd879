-- ===== src/Repositories/Settings.antt =====
-- SettingsRepository, and the assignments to the fields of its row. The session hands out one row
-- object, so a field that may have changed is read again where the source reads it.
use newhbot.Base.{String, Bool, Option}
use newhbot.Enums.{SystemState}
use newhbot.Action.{Action, gets}
use newhbot.Models.{SettingsRow}
use newhbot.World.{World, modify_db}

unfoldable pub get : Action World SettingsRow
get = gets (λ s. s.db.settings)

-- row.field = value
abbrev assign : (SettingsRow → SettingsRow) → Action World Unit
assign f = modify_db (λ d. record d { settings = f d.settings })

unfoldable pub set_trading_enabled : Bool → Action World Unit
set_trading_enabled b = assign (λ r. record r { trading_enabled = b })

unfoldable pub set_estop : Bool → Action World Unit
set_estop b = assign (λ r. record r { estop = b })

unfoldable pub set_close_intent : Option String → Action World Unit
set_close_intent c = assign (λ r. record r { close_intent = c })

unfoldable pub set_system_state : SystemState → Action World Unit
set_system_state x = assign (λ r. record r { system_state = x })

-- ===== src/Repositories/Positions.antt =====
-- PositionRepository: the local mirror of the exchange's positions.
use newhbot.Base.{String, str_eq, Bool, Option, none, some, List, [], ◌∷◌, ◌++◌, find?, map_if}
use newhbot.Decimal.{Decimal}
use newhbot.Enums.{PositionSide}
use newhbot.Action.{Action, gets}
use newhbot.Models.{Position}
use newhbot.World.{World, modify_db}

abbrev pub at_symbol : String → Position → Bool
at_symbol symbol p = str_eq p.symbol symbol

unfoldable pub get_or_none : String → Action World (Option Position)
get_or_none symbol = gets (λ s. find? (at_symbol symbol) s.db.positions)

abbrev upserted : String → Position → Option Position → List Position → List Position
upserted symbol row none rows = rows ++ row ∷ []
upserted symbol row (some old) rows = map_if (at_symbol symbol) (λ _. row) rows

unfoldable pub upsert_mirror :
    String → PositionSide → Decimal → Option Decimal → Decimal → Action World Unit
upsert_mirror symbol side size entry_price unrealized_pnl =
    let row : Position = record {
      symbol = symbol;
      side = side;
      size = size;
      entry_price = entry_price;
      unrealized_pnl = unrealized_pnl;
      source = "exchange_mirror";
    } in
    modify_db (λ d. record d {
      positions = upserted symbol row (find? (at_symbol symbol) d.positions) d.positions;
    })

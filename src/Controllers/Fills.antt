-- ===== src/Controllers/Fills.antt =====
-- trading_controller.py: `_record_fill`.
use newhbot.Base.{String, not, if◌then◌else◌, Option, none, some, [], ◌∷◌}
use newhbot.Decimal.{Decimal, neg, sub, mul}
use newhbot.Enums.{is_buy}
use newhbot.Action.{Action, pure, ◌>>=◌, ◌>>◌, on_option}
use newhbot.Models.{Order, Trade, Payload, Json, null, text, text_of}
use newhbot.World.{World, Env, commit, new_id, clock}
use newhbot.Repositories.Trades
use newhbot.Controllers.Mirror.{emit}

-- open_trade.pnl
unfoldable pub trade_pnl : Trade → Decimal → Decimal
trade_pnl t price =
    let pnl = mul (sub price t.entry_price) t.quantity in if is_buy t.side then pnl else neg pnl

abbrev fill_id_json : Option String → Json
fill_id_json none = null
fill_id_json (some id) = text id

abbrev fill_payload : Order → Decimal → Decimal → Option String → Payload
fill_payload order price quantity fill_id =
    record { key = "cloid"; value = text order.cloid }
    ∷ record { key = "price"; value = text_of price }
    ∷ record { key = "quantity"; value = text_of quantity }
    ∷ record { key = "fill_id"; value = fill_id_json fill_id }
    ∷ []

abbrev pnl_json : Option Decimal → Json
pnl_json none = null
pnl_json (some pnl) = text_of pnl

module _ (env : Env) where
  -- The open trade is closed at the price of the fill.
  unfoldable pub close_trade : Decimal → Trade → Action World Unit
  close_trade price open_trade = do
    closed_at ← clock env
    let closed : Trade = record open_trade {
      exit_price = some price;
      pnl = some (trade_pnl open_trade price);
      closed_at = some closed_at;
    }
    Trades.save_trade closed
    commit
    emit "trade" (
        record { key = "id"; value = text closed.id }
        ∷ record { key = "pnl"; value = pnl_json closed.pnl }
        ∷ [])

  -- What follows a fill that was stored: the open trade is closed, or a trade is opened.
  unfoldable pub book_trade : Order → Decimal → Decimal → Action World Unit
  book_trade order price quantity =
      if order.reduce_only
      then (do
        open_trade ← Trades.open_trade order.symbol
        on_option open_trade (pure tt) (close_trade price))
      else do
        id ← new_id env
        Trades.add_trade (record {
          id = id;
          symbol = order.symbol;
          side = order.side;
          entry_price = price;
          exit_price = none;
          quantity = quantity;
          pnl = none;
          closed_at = none;
        })
        commit

  unfoldable pub record_fill : Order → Decimal → Decimal → Option String → Action World Unit
  record_fill order price quantity fill_id = do
    id ← new_id env
    created ← Trades.add_fill (record {
      id = id;
      order_id = order.id;
      cloid = order.cloid;
      symbol = order.symbol;
      side = order.side;
      price = price;
      quantity = quantity;
      exchange_fill_id = fill_id;
    })
    if not created then pure tt else do
      commit
      emit "fill" (fill_payload order price quantity fill_id)
      book_trade order price quantity

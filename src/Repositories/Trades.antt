-- ===== src/Repositories/Trades.antt =====
-- FillRepository and TradeRepository.
use newhbot.Base.{
  String, str_eq, Bool, true, false, ◌&&◌, ◌||◌, not, if◌then◌else◌, is_some, Option, none, some,
  List, [], ◌∷◌, ◌++◌, any, keep, map_if,
}
use newhbot.Action.{Exn, Action, ok, err}
use newhbot.Models.{Fill, Trade, Order}
use newhbot.World.{World, modify_db}
use newhbot.Repositories.Orders.{integrity_error}

-- Python's truth of an optional text.
abbrev pub is_text : Option String → Bool
is_text none = false
is_text (some t) = not (str_eq t "")

-- Both ids are there and equal.
abbrev pub same_text : Option String → Option String → Bool
same_text (some t) (some u) = str_eq t u
same_text _ _ = false

-- A unique column, or the reference to `orders`, refuses the row.
abbrev pub refuses : Fill → List Fill → List Order → Bool
refuses f fills orders =
    any (λ (r : Fill). str_eq r.id f.id || same_text r.exchange_fill_id f.exchange_fill_id) fills
    || not (any (λ (o : Order). str_eq o.id f.order_id) orders)

-- The result tells whether a row was created.
unfoldable pub add_fill : Fill → Action World Bool
add_fill f s =
    if is_text f.exchange_fill_id
      && any (λ (r : Fill). same_text r.exchange_fill_id f.exchange_fill_id) s.db.fills
    then (ok false, s)
    else if refuses f s.db.fills s.db.orders
    then (err integrity_error, s)
    else (ok true, record s { db = record s.db { fills = s.db.fills ++ f ∷ [] } })

unfoldable pub add_trade : Trade → Action World Unit
add_trade t = modify_db (λ d. record d { trades = d.trades ++ t ∷ [] })

unfoldable pub save_trade : Trade → Action World Unit
save_trade t =
    modify_db
      (λ d. record d { trades = map_if (λ (r : Trade). str_eq r.id t.id) (λ _. t) d.trades })

abbrev pub multiple_results : Exn
multiple_results = record {
  type_name = "MultipleResultsFound";
  message = "Multiple rows were found when one or none was required";
}

-- scalar_one_or_none(): more than one row is an exception.
abbrev pub one_or_none : {A : Type 0} → List A → Action World (Option A)
one_or_none [] s = (ok none, s)
one_or_none (x ∷ []) s = (ok (some x), s)
one_or_none (x ∷ y ∷ xs) s = (err multiple_results, s)

abbrev pub is_open_trade : String → Trade → Bool
is_open_trade symbol t = str_eq t.symbol symbol && not (is_some t.closed_at)

unfoldable pub open_trade : String → Action World (Option Trade)
open_trade symbol s = one_or_none (keep (is_open_trade symbol) s.db.trades) s

-- ===== src/Examples/Precheck.antt =====
-- An account with an order for another coin, and the precheck's theorem at it.
use newhbot.Base.{◌≡◌, refl, String, false, some, List, [], ◌∷◌}
use newhbot.Action.{ok}
use newhbot.Text
use newhbot.Worker.Raw
use newhbot.Worker.Raw.{Json, text, object, empty, field}
use newhbot.Worker.Mapping
use newhbot.Worker.Precheck
use newhbot.Worker.Precheck.{Inner, snapshot_open_orders}
use newhbot.Worker.Precheck.Clear.{IsClear, snapshot_open_orders-IsClear}

abbrev coin_row : String → Json
coin_row coin = object (field "coin" (text coin) empty)

abbrev inner : List Json → Inner
inner rows = record { post = some (λ address. ok (some rows)); address = "0xab" }

abbrev other_rows : List Json
other_rows = coin_row "ETH" ∷ coin_row "ETH" ∷ []

clear : (snapshot_open_orders (inner other_rows) "BTC-USD").blocking ≡ false
unfolding snapshot_open_orders Precheck.report_answer Precheck.verified_report Precheck.count_rows
    Precheck.count_row Precheck.is_configured Precheck.coin_of Mapping.to_pair_symbol Raw.get
    Raw.get_or Raw.str_of Text.contains Text.ends_with
clear = refl

snapshot_open_orders-IsClear_example :
    IsClear (inner other_rows) "BTC-USD" (snapshot_open_orders (inner other_rows) "BTC-USD")
snapshot_open_orders-IsClear_example =
    snapshot_open_orders-IsClear (inner other_rows) "BTC-USD" clear

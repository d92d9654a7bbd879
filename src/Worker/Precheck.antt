-- ===== src/Worker/Precheck.antt =====
-- execution-worker/app/open_order_precheck.py: is the configured pair free of open orders? The
-- connector's `_api_post` is a parameter, with its path and the query's type fixed.
pub mod Clear
use newhbot.Base.{
  ℕ, suc, String, str_eq, Bool, true, false, not, ltb, any, if◌then◌else◌, Option, none, some, List,
  [], ◌∷◌, ◌++◌,
}
use newhbot.Action.{Exn, Result, ok, err}
use newhbot.Worker.Raw.{Json, null, flag, number, text, object, get, str_of, ◌or◌}
use newhbot.Worker.Mapping.{to_pair_symbol}

-- What is asked of the connector: its `_api_post`, where that is callable, which is given the user's
-- address and answers a list of rows or something else; and the address as a stripped text.
pub record Inner : Type 0 where
  pub post : Option (String → Result (Option (List Json)))
  pub address : String

pub data PrecheckStatus : Type 0 where
  not_available failed verified : PrecheckStatus

-- The fields of the report that vary.
pub record Report : Type 0 where
  pub status : PrecheckStatus
  pub configured_open_count : Option ℕ
  pub other_open_count : Option ℕ
  pub other_coins : List String
  pub blocking : Bool
  pub error_type : Option String

unfoldable pub coin_of : Json → String
coin_of (object row) = str_of (get "coin" row or text "")
coin_of _ = ""

unfoldable pub is_configured : String → Json → Bool
is_configured pair row = str_eq (to_pair_symbol (coin_of row) pair) pair

pub record Tally : Type 0 where
  pub configured : ℕ
  pub other : ℕ
  pub coins : List String

add_coin : String → List String → List String
add_coin coin coins =
    if str_eq coin ""
    then coins
    else if any (λ c. str_eq c coin) coins
    then coins
    else coins ++ coin ∷ []

unfoldable pub count_row : String → Json → Tally → Tally
unfolding add_coin
count_row pair row t =
    if is_configured pair row
    then record t { configured = suc t.configured }
    else record t { other = suc t.other; coins = add_coin (coin_of row) t.coins }

unfoldable pub count_rows : String → List Json → Tally → Tally
count_rows pair [] t = t
count_rows pair (row ∷ rows) t = count_rows pair rows (count_row pair row t)

abbrev unverified : PrecheckStatus → String → Report
unverified status error_type = record {
  status = status;
  configured_open_count = none;
  other_open_count = none;
  other_coins = [];
  blocking = true;
  error_type = some error_type;
}

abbrev pub no_rows : Tally
no_rows = record { configured = 0; other = 0; coins = [] }

unfoldable pub verified_report : Tally → Report
verified_report t = record {
  status = PrecheckStatus.verified;
  configured_open_count = some t.configured;
  other_open_count = some t.other;
  other_coins = t.coins;
  blocking = ltb 0 t.configured;
  error_type = none;
}

unfoldable pub report_answer : String → Result (Option (List Json)) → Report
report_answer pair (err e) = unverified PrecheckStatus.failed e.type_name
report_answer pair (ok none) = unverified PrecheckStatus.failed "unexpected_payload"
report_answer pair (ok (some raw)) = verified_report (count_rows pair raw no_rows)

unfoldable pub snapshot_open_orders : Inner → String → Report
snapshot_open_orders inner pair = elim inner.post [
  | none ↦ unverified PrecheckStatus.not_available "api_post_missing"
  | some post ↦
      if str_eq inner.address ""
      then unverified PrecheckStatus.not_available "address_missing"
      else report_answer pair (post inner.address)
]

-- ===== src/Models.antt =====
-- backend/app/models/__init__.py: the rows of the database. The columns `created_at` and
-- `updated_at`, which the server fills, are left out: a table lists its rows in the order of their
-- insertion. The enum columns hold the enum's values.
use newhbot.Base.{
  ℕ, ◌-◌, ◌/◌, ◌^◌, leb, String, Bool, false, Option, none, some, List, [], map, if◌then◌else◌,
}
use newhbot.Base.Int.{ℤ}
use newhbot.Decimal.{Decimal, whole, fraction}
use newhbot.Enums.{SignalType, OrderStatus, OrderType, OrderSide, PositionSide, SystemState}

pub record SettingsRow : Type 0 where
  pub trading_pair : String
  pub leverage : ℕ
  pub position_percentage : Decimal
  pub order_type : OrderType
  pub limit_timeout : ℕ
  pub slippage : Decimal
  pub active_strategy : Option String
  pub active_strategy_version : Option String
  pub trading_enabled : Bool
  pub estop : Bool
  pub close_intent : Option String
  pub system_state : SystemState

-- The columns' defaults.
abbrev pub default_settings : SettingsRow
default_settings = record {
  trading_pair = "BTC-USD";
  leverage = 1;
  position_percentage = whole 10;
  order_type = OrderType.market;
  limit_timeout = 30;
  slippage = fraction 5 2;
  active_strategy = none;
  active_strategy_version = none;
  trading_enabled = false;
  estop = false;
  close_intent = none;
  system_state = SystemState.stopped;
}

pub record Signal : Type 0 where
  pub id : String
  pub strategy_version : Option String
  pub signal : SignalType
  pub accepted : Bool
  pub reason : Option String

pub record Order : Type 0 where
  pub id : String
  pub intent_id : String
  pub request_id : String
  pub cloid : String
  pub exchange_oid : Option String
  pub symbol : String
  pub side : OrderSide
  pub order_type : OrderType
  pub quantity : Decimal
  pub reduce_only : Bool
  pub status : OrderStatus
  pub signal_id : Option String
  pub error_message : Option String

pub record Fill : Type 0 where
  pub id : String
  pub order_id : String
  pub cloid : String
  pub symbol : String
  pub side : OrderSide
  pub price : Decimal
  pub quantity : Decimal
  pub exchange_fill_id : Option String

-- `closed_at` is a reading of the clock.
pub record Trade : Type 0 where
  pub id : String
  pub symbol : String
  pub side : OrderSide
  pub entry_price : Decimal
  pub exit_price : Option Decimal
  pub quantity : Decimal
  pub pnl : Option Decimal
  pub closed_at : Option ℕ

pub record Position : Type 0 where
  pub symbol : String
  pub side : PositionSide
  pub size : Decimal
  pub entry_price : Option Decimal
  pub unrealized_pnl : Decimal
  pub source : String

pub record AccountSnapshot : Type 0 where
  pub equity : Decimal
  pub available : Decimal
  pub margin_used : Decimal

-- A value of a JSON object; `text_of` is `str(d)` of a decimal.
pub data Json : Type 0 where
  null : Json
  text : String → Json
  flag : Bool → Json
  text_of : Decimal → Json
  integer : ℤ → Json

abbrev pub Payload : Type 0
Payload = List (record { key : String; value : Json })

pub record SystemEvent : Type 0 where
  pub event_type : String
  pub payload : Payload

-- The singleton slot of id 1; a missing row is a free slot.
pub record OpenReservation : Type 0 where
  pub order_id : Option String
  pub held_reason : Option String

pub record AuditLog : Type 0 where
  pub action : String
  pub actor : String
  pub details : Payload

-- Of the manifest, which is a JSON text, the interval is what the backend reads again.
pub record StrategyVersion : Type 0 where
  pub id : ℕ
  pub name : String
  pub version : String
  pub file_hash : String
  pub path : String
  pub interval : Option String

pub record StrategyParameter : Type 0 where
  pub id : ℕ
  pub strategy_version_id : ℕ
  pub name : String
  pub kind : String
  pub default_value : String
  pub current_value : String
  pub enabled : Bool
  pub min_value : Option String
  pub max_value : Option String
  pub description : Option String

-- The database, or a session's view of it. A missing settings row has the defaults. `numeric k` is
-- what a Numeric column of k places gives back of a value, which is up to SQLAlchemy and SQLite.
pub record Db : Type 0 where
  pub numeric : ℕ → Decimal → Decimal
  pub settings : SettingsRow
  pub orders : List Order
  pub signals : List Signal
  pub fills : List Fill
  pub trades : List Trade
  pub positions : List Position
  pub snapshots : List AccountSnapshot
  pub events : List SystemEvent
  pub audits : List AuditLog
  pub slot : OpenReservation
  pub versions : List StrategyVersion
  pub parameters : List StrategyParameter

-- What a commit keeps of a session's view: each Numeric column in the form that the database gives
-- back. The session's own row objects keep their values, as `expire_on_commit` is off.
module _ (numeric : ℕ → Decimal → Decimal) where
  abbrev numeric_or_none : Option Decimal → Option Decimal
  numeric_or_none none = none
  numeric_or_none (some d) = some (numeric 12 d)

  abbrev stored_settings : SettingsRow → SettingsRow
  stored_settings x = record x {
    position_percentage = numeric 8 x.position_percentage;
    slippage = numeric 8 x.slippage;
  }

  abbrev pub stored_order : Order → Order
  stored_order o = record o { quantity = numeric 12 o.quantity }

  abbrev stored_fill : Fill → Fill
  stored_fill f = record f { price = numeric 12 f.price; quantity = numeric 12 f.quantity }

  abbrev stored_trade : Trade → Trade
  stored_trade t = record t {
    entry_price = numeric 12 t.entry_price;
    exit_price = numeric_or_none t.exit_price;
    quantity = numeric 12 t.quantity;
    pnl = numeric_or_none t.pnl;
  }

  abbrev stored_position : Position → Position
  stored_position p = record p {
    size = numeric 12 p.size;
    entry_price = numeric_or_none p.entry_price;
    unrealized_pnl = numeric 12 p.unrealized_pnl;
  }

  abbrev stored_snapshot : AccountSnapshot → AccountSnapshot
  stored_snapshot a = record {
    equity = numeric 12 a.equity;
    available = numeric 12 a.available;
    margin_used = numeric 12 a.margin_used;
  }

abbrev pub stored : Db → Db
stored d = record d {
  settings = stored_settings d.numeric d.settings;
  orders = map (stored_order d.numeric) d.orders;
  fills = map (stored_fill d.numeric) d.fills;
  trades = map (stored_trade d.numeric) d.trades;
  positions = map (stored_position d.numeric) d.positions;
  snapshots = map (stored_snapshot d.numeric) d.snapshots;
}

-- A database whose columns cut a value off after their places.
abbrev cut : ℕ → Decimal → Decimal
cut k d =
    if leb d.places k
    then d
    else record d { coefficient = d.coefficient / 10 ^ (d.places - k); places = k }

abbrev pub empty_db : Db
empty_db = record {
  numeric = cut;
  settings = default_settings;
  orders = [];
  signals = [];
  fills = [];
  trades = [];
  positions = [];
  snapshots = [];
  events = [];
  audits = [];
  slot = record { order_id = none; held_reason = none };
  versions = [];
  parameters = [];
}

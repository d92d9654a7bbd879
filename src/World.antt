-- ===== src/World.antt =====
-- What a coroutine of the backend acts on: the session's view of the database, the committed
-- database, the calls to the execution worker, the messages to the hub.
--
-- The worker, the source of ids (`uuid`) and the clock are parameters, in `Env`: a worker answers
-- each call by its arguments and by all that was sent before, or raises. Each call is recorded with
-- the database that was committed when it was made.
use newhbot.Base.{ℕ, suc, String, append, Bool, Option, List, ◌∷◌}
use newhbot.Decimal.{Decimal}
use newhbot.Action.{Result, ok, Action}
use newhbot.Protocol.{
  PlaceOrderRequest, PlaceOrderResponse, OrderView, PositionView, BalanceView, FillView,
}
use newhbot.Models.{Db, stored, Payload}

pub data Call : Type 0 where
  worker_status : Call
  get_candles : String → String → ℕ → Call
  health is_ready connect get_balance get_positions get_fills : Call
  configure : String → Decimal → ℕ → Call
  get_position get_market_data get_order : String → Call
  get_open_orders : Call
  place_order : PlaceOrderRequest → Call
  cancel_order : String → String → Call

pub record Sent : Type 0 where
  pub call : Call
  pub durable : Db

pub record Message : Type 0 where
  pub event_type : String
  pub payload : Payload
  pub event_id : ℕ

pub record World : Type 0 where
  pub db : Db
  pub committed : Db
  pub sent : List Sent  -- the latest first
  pub published : List Message  -- the latest first
  pub draws : ℕ  -- ids and clock readings drawn so far

abbrev pub History : Type 0
History = List Sent

pub record MarketItem : Type 0 where
  pub key : String
  pub value : Decimal

-- `configure` may be missing: the controller asks for it by `getattr`.
pub record Env : Type 0 where
  pub health : History → Result Bool
  pub is_ready : History → Result Bool
  pub connect : History → Result Unit
  pub configure : Option (History → Result Unit)
  pub get_balance : History → Result BalanceView
  pub get_positions : History → Result (List PositionView)
  pub get_position : History → String → Result PositionView
  pub get_open_orders : History → Result (List OrderView)
  pub get_order : History → String → Result (Option OrderView)
  pub get_fills : History → Result (List FillView)
  pub get_market_data : History → String → Result (List MarketItem)
  pub place_order : History → PlaceOrderRequest → Result PlaceOrderResponse
  pub cancel_order : History → String → String → Result (Option OrderView)
  pub uuid4 : ℕ → String  -- str(uuid.uuid4()) of the n-th draw
  pub uuid4_hex : ℕ → String  -- uuid.uuid4().hex of the n-th draw
  pub now : ℕ → ℕ

-- Ask the worker.
unfoldable pub ask : {A : Type 0} → Call → (History → Result A) → Action World A
ask c answer s =
    (answer s.sent, record s { sent = record { call = c; durable = s.committed } ∷ s.sent })

-- What is committed is in the form that the columns give back.
unfoldable pub commit : Action World Unit
commit s = (ok tt, record s { committed = stored s.db })

unfoldable pub modify_db : (Db → Db) → Action World Unit
modify_db f s = (ok tt, record s { db = f s.db })

unfoldable pub publish : String → Payload → ℕ → Action World Unit
publish event_type payload event_id s = (
  ok tt,
  record s {
    published =
        record { event_type = event_type; payload = payload; event_id = event_id } ∷ s.published;
  },
)

module _ (env : Env) where
  unfoldable pub new_id : Action World String
  new_id s = (ok (env.uuid4 s.draws), record s { draws = suc s.draws })

  unfoldable pub new_cloid : Action World String
  new_cloid s = (ok (append "0x" (env.uuid4_hex s.draws)), record s { draws = suc s.draws })

  unfoldable pub clock : Action World ℕ
  clock s = (ok (env.now s.draws), record s { draws = suc s.draws })

-- ===== src/Protocol.antt =====
-- backend/app/execution/protocol.py: the messages between the backend and the execution worker.
-- A request's time stamp and command word are left out: the backend never reads them back.
use newhbot.Base.{String, Bool, Option}
use newhbot.Decimal.{Decimal}
use newhbot.Enums.{OrderStatus, OrderType, OrderSide, PositionSide}

pub record PlaceOrderRequest : Type 0 where
  pub request_id : String
  pub cloid : String
  pub symbol : String
  pub side : OrderSide
  pub order_type : OrderType
  pub quantity : Decimal
  pub reduce_only : Bool
  pub price : Option Decimal

pub record PlaceOrderResponse : Type 0 where
  pub request_id : String
  pub cloid : String
  pub exchange_oid : Option String
  pub status : OrderStatus
  pub filled_quantity : Decimal
  pub avg_price : Option Decimal
  pub error : Option String

pub record OrderView : Type 0 where
  pub cloid : String
  pub exchange_oid : Option String
  pub symbol : String
  pub side : OrderSide
  pub order_type : OrderType
  pub quantity : Decimal
  pub filled_quantity : Decimal
  pub reduce_only : Bool
  pub status : OrderStatus
  pub price : Option Decimal

pub record PositionView : Type 0 where
  pub symbol : String
  pub side : PositionSide
  pub size : Decimal
  pub entry_price : Option Decimal
  pub unrealized_pnl : Decimal

pub record BalanceView : Type 0 where
  pub equity : Decimal
  pub available : Decimal
  pub margin_used : Decimal

pub record FillView : Type 0 where
  pub cloid : String
  pub symbol : String
  pub side : OrderSide
  pub price : Decimal
  pub quantity : Decimal
  pub fee : Decimal
  pub fill_id : Option String

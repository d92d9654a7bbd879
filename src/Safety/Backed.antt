-- ===== src/Safety/Backed.antt =====
-- What the committed database holds whenever an order is sent: a preorder for each such demand, and
-- the rule for `_submit`.
use newhbot.Base.{◌≡◌, false, All}
use newhbot.Action.{Result, ok, err, Action, ◌>>=◌, continue, try_except, attempt}
use newhbot.Action.Moves.{Preorder, Moves-on_result}
use newhbot.World.{World, Env, Call, Sent, ask}
use newhbot.Protocol.{PlaceOrderRequest}
use newhbot.Models.{Db, Order}
use newhbot.Controllers.Submit.{persist_intent, place, submit_failed, submit_answered, request_of}
use newhbot.Safety.Tolerant.{Tolerant, is_place_order}
use newhbot.Safety.Tolerant.Submitting.{submit_failed-Moves, submit_answered-Moves}
use newhbot.Safety.BySent.{Extends, BySent, BySent-Tolerant}

-- What holds of the value that was returned, if one was.
abbrev pub OnOk : {A : Type 0} → Result A → (A → Type 0) → Type 0
OnOk (ok a) Q = Q a
OnOk (err e) Q = Unit

module _ (B : PlaceOrderRequest → Db → Type 0) where
  -- An order that is sent is backed by the committed database.
  abbrev pub BackedCall : Call → Db → Type 0
  BackedCall (Call.place_order q) d = B q d
  BackedCall _ d = Unit

  abbrev pub Backed : Sent → Type 0
  Backed sent = BackedCall sent.call sent.durable

  pub query-BackedCall : (c : Call) (d : Db) → is_place_order c ≡ false → BackedCall c d
  query-BackedCall (Call.place_order q) d e = cc
  query-BackedCall _ d e = tt

  abbrev pub AllBacked : Extends (λ h k. All Backed h → All Backed k)
  AllBacked = record {
    same = λ h a. a;
    chain = λ h k l f g a. g (f a);
    query = λ c d h e a. (query-BackedCall c d e, a);
  }

  abbrev pub Backing : Preorder World
  Backing = BySent AllBacked

  pub backing : Tolerant Backing
  backing = BySent-Tolerant AllBacked

  module _ (env : Env) where
    -- Sending an order that is backed.
    place-Backing :
        (o : Order) (s : World)
        → B (request_of o) s.committed
        → All Backed s.sent
        → All Backed (place env o s).1.sent
    unfolding place ask
    place-Backing o s b a = (b, a)

    unfoldable pub send : Order → Action World Order
    send o = try_except (place env o) (λ e. submit_failed env o e.message) (submit_answered env o)

    send-Backing :
        (o : Order) (s : World)
        → B (request_of o) s.committed
        → All Backed s.sent
        → All Backed (send o s).1.sent
    unfolding send try_except attempt ◌>>=◌
    send-Backing o s b a =
        (Moves-on_result (place env o s).0 _ _ (λ e. submit_failed-Moves backing env o e.message)
            (submit_answered-Moves backing env o)).at
          (place env o s).1 (place-Backing o s b a)

    continue-send :
        (r : Result Order) (s : World)
        → OnOk r (λ p. B (request_of p) s.committed)
        → All Backed s.sent
        → All Backed (continue r send s).1.sent
    continue-send (ok p) s b a = send-Backing p s b a
    continue-send (err e) s b a = a

    -- `_submit` from the drawn row on, if persisting the intent backs it.
    pub persist_and_send :
        (o : Order) (s : World)
        → OnOk (persist_intent o s).0 (λ p. B (request_of p) (persist_intent o s).1.committed)
        → (All Backed s.sent → All Backed (persist_intent o s).1.sent)
        → All Backed s.sent
        → All Backed ((persist_intent o >>= send) s).1.sent
    unfolding ◌>>=◌
    persist_and_send o s b k a = continue-send (persist_intent o s).0 (persist_intent o s).1 b (k a)

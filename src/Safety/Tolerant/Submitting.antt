-- ===== src/Safety/Tolerant/Submitting.antt =====
-- What `_submit` does after the worker was called.
use newhbot.Base.{String, Bool, Option, List}
use newhbot.Action.{Action}
use newhbot.Action.Moves.{Preorder, Moves}
use newhbot.World.{World, Env}
use newhbot.Models.{Order}
use newhbot.Protocol.{PlaceOrderResponse}
use newhbot.Controllers.Finalize.{
  Evidence, query_open_evidence, query_close_evidence, mark_filled, finalize_by,
  finalize_confirmed_market_open, finalize_confirmed_market_close,
}
use newhbot.Controllers.Submit.{Intent, draw_order, submit_failed, finalize, submit_answered}
use newhbot.Safety.Tolerant.{Tolerant}
use newhbot.Safety.Tolerant.Methods.{method_rules}

module _ {P : Preorder World} (T : Tolerant P) (env : Env) where
  pub query_open_evidence-Moves : (o : Order) → Moves P (query_open_evidence env o)
  unfolding query_open_evidence
  query_open_evidence-Moves o = search (method_rules) depth 40

  pub query_close_evidence-Moves : (o : Order) → Moves P (query_close_evidence env o)
  unfolding query_close_evidence
  query_close_evidence-Moves o = search (method_rules) depth 40

  pub mark_filled-Moves : (o : Order) (es : List Evidence) → Moves P (mark_filled env o es)
  unfolding mark_filled
  mark_filled-Moves o es = search (method_rules) depth 40

  pub finalize_by-Moves :
      (q : Action World (Option (List Evidence))) (o : Order)
      → Moves P q
      → Moves P (finalize_by env q o)
  unfolding finalize_by
  finalize_by-Moves q o h = search (method_rules, mark_filled-Moves) depth 40

  pub finalize_open-Moves : (o : Order) → Moves P (finalize_confirmed_market_open env o)
  unfolding finalize_confirmed_market_open
  finalize_open-Moves o =
      finalize_by-Moves (query_open_evidence env o) o (query_open_evidence-Moves o)

  pub finalize_close-Moves : (o : Order) → Moves P (finalize_confirmed_market_close env o)
  unfolding finalize_confirmed_market_close
  finalize_close-Moves o =
      finalize_by-Moves (query_close_evidence env o) o (query_close_evidence-Moves o)

  pub draw_order-Moves : (i : Intent) → Moves P (draw_order env i)
  unfolding draw_order
  draw_order-Moves i = search (method_rules) depth 40

  pub submit_failed-Moves : (o : Order) (m : String) → Moves P (submit_failed env o m)
  unfolding submit_failed
  submit_failed-Moves o m = search (method_rules) depth 40

  pub finalize-Moves : (o : Order) (b : Bool) → Moves P (finalize env o b)
  unfolding finalize
  finalize-Moves o b = search (method_rules, finalize_open-Moves, finalize_close-Moves) depth 40

  pub submit_answered-Moves :
      (o : Order) (r : PlaceOrderResponse) → Moves P (submit_answered env o r)
  unfolding submit_answered
  submit_answered-Moves o r = search (method_rules, finalize-Moves) depth 40

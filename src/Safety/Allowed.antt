-- ===== src/Safety/Allowed.antt =====
-- What is committed when an opening order is sent, and that `_submit` keeps it.
use newhbot.Base.{
  String, ◌≡◌, refl, ◌∙◌, true, [], ◌∷◌, ◌++◌, any, All, Some, Some-map, ap, Some-map_if,
  any-append_last, Bool-cases, Option-cases, eq_refl, str_eq, ◌⊎◌, inl, inr, is_some, Option, some,
}
use newhbot.Enums.{OrderStatus, SystemState}
use newhbot.Action.{Result, ok, err, Action, ◌>>=◌, gets, on_option, pure}
use newhbot.Action.Moves.{Moves}
use newhbot.Action.Triple.{Post, Triple, Triple-bind, Triple-always}
use newhbot.World.{World, Env, commit, modify_db, new_id, new_cloid}
use newhbot.Protocol.{PlaceOrderRequest}
use newhbot.Models.{Db, Order, stored_order}
use newhbot.Repositories.Orders
use newhbot.Repositories.Settings
use newhbot.Repositories.Reservation
use newhbot.Controllers.Cancel.{with_status}
use newhbot.Controllers.Submit.{
  Intent, submit, draw_order, persist_intent, request_of, stored_request,
}
use newhbot.Safety.Backed.{OnOk, Backed, Backing, send, persist_and_send}

-- The row `o` has the request `q`, and is the slot's holder.
abbrev pub IsHolder : PlaceOrderRequest → Option String → Order → Type 0
IsHolder q holder o = (request_of o ≡ q) × (holder ≡ some o.id)

-- The request only reduces a position, or the system is RUNNING and the slot is held for its row.
abbrev pub IsAllowed : PlaceOrderRequest → Db → Type 0
IsAllowed q d =
    (q.reduce_only ≡ true)
    ⊎ ((d.settings.system_state ≡ SystemState.running)
        × Some (IsHolder (stored_request d.numeric q) d.slot.order_id) d.orders)

abbrev pub AllAllowed : World → Type 0
AllAllowed s = All (Backed IsAllowed) s.sent

-- The same of a row that is about to be persisted.
abbrev IsReady : Order → Db → Type 0
IsReady o d =
    (o.reduce_only ≡ true)
    ⊎ ((d.settings.system_state ≡ SystemState.running) × (d.slot.order_id ≡ some o.id))

persist_intent_lem :
    (o : Order) (s : World)
    → IsReady o s.db
    → ((persist_intent o s).1.sent ≡ s.sent)
      × OnOk (persist_intent o s).0 (λ p. IsAllowed (request_of p) (persist_intent o s).1.committed)
unfolding persist_intent Orders.add Orders.save commit modify_db ◌>>=◌
persist_intent_lem o s h = elim (Bool-cases (any (Orders.clashes o) s.db.orders)) [
  | inl clash ↦ rw clash (refl, tt)
  | inr fresh ↦ rw fresh (
    refl,
    elim h [
      | inl reduces ↦ inl reduces
      | inr (running, held) ↦ inr (
        running,
        Some-map (IsHolder (request_of o) s.db.slot.order_id)
            (IsHolder (stored_request s.db.numeric (request_of o)) s.db.slot.order_id)
            (stored_order s.db.numeric) _
            (λ r (same, holds). (ap (stored_request s.db.numeric) same, holds))
            (Some-map_if (IsHolder (request_of o) s.db.slot.order_id) (λ r. str_eq r.id o.id)
              (λ _. with_status o OrderStatus.submitting) (s.db.orders ++ o ∷ [])
              (λ _. (refl, held))
              (any-append_last (λ (r : Order). str_eq r.id o.id) s.db.orders o (eq_refl o.id))),
      )
    ],
  )
]

module _ (env : Env) where
  -- A row that was drawn for an intent, in the world `s`.
  record Drawn (i : Intent) (s : World) (o : Order) (t : World) : Type 0 where
    pub reduces : o.reduce_only ≡ i.reduce_only
    pub named : (id : String) → i.order_id ≡ some id → o.id ≡ id
    pub same_db : t.db ≡ s.db
    pub same_sent : t.sent ≡ s.sent

  draw_order_lem :
      (i : Intent) (s : World)
      → Post (Drawn i s) (λ t. t.sent ≡ s.sent) (draw_order env i s).0 (draw_order env i s).1
  unfolding draw_order Settings.get gets new_id new_cloid on_option pure ◌>>=◌
  draw_order_lem i s = elim (Option-cases i.order_id) [
    | inl e ↦ rw e (record { reduces = refl; named = λ id f. cc; same_db = refl; same_sent = refl })
    | inr (id, e) ↦
        rw e (record { reduces = refl; named = λ id' f. cc; same_db = refl; same_sent = refl })
  ]

  -- What an intent needs before it is submitted.
  abbrev pub IsSound : Intent → World → Type 0
  IsSound i s =
      (i.reduce_only ≡ true)
      ⊎ ((s.db.settings.system_state ≡ SystemState.running)
          × ((id : String) × ((i.order_id ≡ some id) × (s.db.slot.order_id ≡ some id))))

  Drawn-IsReady :
      (i : Intent) (s : World) (o : Order) (t : World)
      → Drawn i s o t
      → IsSound i s
      → IsReady o t.db
  Drawn-IsReady i s o t d h = elim h [
    | inl reduces ↦ inl (d.reduces ∙ reduces)
    | inr (running, (id, (named, held))) ↦ rw d.same_db (inr (running, rw (d.named id named) held))
  ]

  Drawn-Post :
      (i : Intent) (s : World) (r : Result Order) (t : World)
      → AllAllowed s
      → IsSound i s
      → Post (Drawn i s) (λ u. u.sent ≡ s.sent) r t
      → Post (λ o u. AllAllowed u × IsReady o u.db) AllAllowed r t
  Drawn-Post i s (ok o) t a h d = (rw d.same_sent a, Drawn-IsReady i s o t d h)
  Drawn-Post i s (err e) t a h d = rw d a

  -- `_submit` keeps every order that was sent allowed.
  pub submit-Allowed :
      (i : Intent)
      → Triple (λ s. AllAllowed s × IsSound i s) (submit env i) (λ o. AllAllowed) AllAllowed
  unfolding submit send
  submit-Allowed i =
      Triple-bind {R = λ o u. AllAllowed u × IsReady o u.db} (draw_order env i) _
        (record { at = λ s (a, h). Drawn-Post i s _ _ a h (draw_order_lem i s) })
        (λ o. Triple-always _ (λ s (a, h).
          persist_and_send IsAllowed env o s (persist_intent_lem o s h).1
            (λ b. rw (persist_intent_lem o s h).0 b) a))

  pub any_state :
      {A : Type 0} (m : Action World A)
      → Moves (Backing IsAllowed) m
      → {P : World → Type 0} → ((s : World) → P s → AllAllowed s)
      → Triple P m (λ a. AllAllowed) AllAllowed
  any_state m h k = Triple-always m (λ s p. h.at s (k s p))

  -- The slot was free, and is taken for this intent's row.
  pub acquire_lem :
      (id : String)
      → Triple
          (λ s. AllAllowed s × (s.db.settings.system_state ≡ SystemState.running))
          (Reservation.try_acquire id "open")
          (λ b s.
            AllAllowed s
            × ((b ≡ true)
                → (s.db.settings.system_state ≡ SystemState.running)
                  × (s.db.slot.order_id ≡ some id)))
          AllAllowed
  unfolding Reservation.try_acquire
  acquire_lem id = record {
    at = λ s (a, r). elim (Bool-cases (is_some s.db.slot.order_id)) [
      | inl held ↦ rw held (a, λ e. cc)
      | inr free ↦ rw free (a, λ e. (r, refl))
    ];
  }

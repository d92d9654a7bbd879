-- ===== src/Safety/Guarded.antt =====
-- What the guard, the slot and `_submit` give together.
use newhbot.Base.{
  String, ◌≡◌, refl, sym, ap, ◌∙◌, Bool, true, false, All, inl, inr, if◌then◌else◌, is_some, not,
}
use newhbot.Decimal.{Decimal}
use newhbot.Enums.{SignalType, SystemState}
use newhbot.Action.{Result, ok, err}
use newhbot.Action.Moves.{Preorder, Moves, moves_rules, Same}
use newhbot.Action.Triple.{
  Post, Triple, Triple-bind, Triple-gets, Triple-try_except, Triple-after, Triple-if, Triple-weaken,
  Triple-unchanged,
}
use newhbot.World.{World, Env, Call, History, ask, modify_db, new_id}
use newhbot.Models.{SettingsRow}
use newhbot.Repositories.Settings
use newhbot.Repositories.Reservation
use newhbot.Controllers.Guard.{GuardInput, can_open_position}
use newhbot.Controllers.Guard.Conditions.{sound}
use newhbot.Controllers.Mirror.{local_side}
use newhbot.Controllers.Submit.{Intent, submit}
use newhbot.Controllers.Open.{
  Shown, refuse, size_from_settings, open_reserved, open_allowed, open_guarded,
}
use newhbot.Controllers.Close.{CloseRequest, close_position}
use newhbot.Controllers.Signal.{handle_signal}
use newhbot.Controllers.Stop.{close_and_stop, close_and_continue, emergency_stop, emergency_close}
use newhbot.Safety.Tolerant.{
  is_place_order, get-Moves, get_or_none-Moves, has_unresolved-Moves, current_order_id-Moves,
}
use newhbot.Safety.Tolerant.Trading.{
  reply_rules, close_position-Moves, handle_signal-Moves, close_and_stop-Moves,
  close_and_continue-Moves, refuse-Moves, refuse_in_recovery-Moves,
}
use newhbot.Safety.Backed.{Backed, Backing, backing, query-BackedCall}
use newhbot.Safety.Allowed.{IsAllowed, AllAllowed, submit-Allowed, any_state, acquire_lem}

module _ (env : Env) where
  by_not : (b : Bool) → not b ≡ false → b ≡ true
  by_not true e = refl
  by_not false e = cc

  -- RUNNING, and every order that was sent allowed.
  abbrev IsRunning : World → Type 0
  IsRunning s = AllAllowed s × (s.db.settings.system_state ≡ SystemState.running)

  new_id_lem : Triple IsRunning (new_id env) (λ id. IsRunning) AllAllowed
  unfolding new_id
  new_id_lem = record { at = λ s p. p }

  open_reserved-Allowed :
      (x : SignalType) (t : String) (d : Decimal)
      → Triple IsRunning (open_reserved env x t d) (λ r. AllAllowed) AllAllowed
  unfolding open_reserved Settings.get
  open_reserved-Allowed x t d = Triple-bind (new_id env) _ (new_id_lem) λ id.
      Triple-bind (Reservation.try_acquire id "open") _ (acquire_lem env id) λ b.
        Triple-if (not b) _ _
          (λ e. any_state env _ (refuse-Moves (backing IsAllowed) t _) (λ s p. p.0))
          (λ e. Triple-bind _ _ (Triple-gets _) λ settings.
            Triple-bind _ _
              (Triple-weaken _
                (λ s (eq, (a, h)). (a, inr ((h (by_not b e)).0, (id, (refl, (h (by_not b e)).1)))))
                (submit-Allowed env _))
              (λ o. any_state env _ (search (reply_rules, backing) depth 40) (λ s p. p)))

  -- The worker is asked for the size, and the database stays as it is.
  abbrev Asking : Preorder World
  Asking = record {
    rel = λ s t. (t.db ≡ s.db) × (AllAllowed s → AllAllowed t);
    rel_refl = λ s. (refl, λ a. a);
    rel_trans = λ s t u (p, f) (q, g). (q ∙ p, λ a. g (f a));
  }

  ask-Asking :
      {A : Type 0} (c : Call) (f : History → Result A)
      → is_place_order c ≡ false
      → Moves Asking (ask c f)
  unfolding ask
  ask-Asking c f e = record {
    at = λ s. (refl, λ a. (query-BackedCall IsAllowed c s.committed e, a));
  }

  size-Asking : Moves Asking (size_from_settings env)
  unfolding size_from_settings
  size-Asking = search (moves_rules, ask-Asking, get-Moves) depth 40

  asking_Post :
      {A : Type 0} (r : Result A) (s t : World)
      → Asking.rel s t
      → IsRunning s
      → Post (λ a. IsRunning) AllAllowed r t
  asking_Post (ok a) s t (d, k) (h, r) = (k h, rw d r)
  asking_Post (err e) s t (d, k) (h, r) = k h

  open_allowed-Allowed :
      (x : SignalType) (t : String)
      → Triple IsRunning (open_allowed env x t) (λ r. AllAllowed) AllAllowed
  unfolding open_allowed
  open_allowed-Allowed x t =
      Triple-try_except (size_from_settings env) _ _
        (record { at = λ s p. asking_Post (size_from_settings env s).0 s _ (size-Asking.at s) p })
        (λ e. any_state env _ (refuse_in_recovery-Moves (backing IsAllowed) t _ _) (λ s p. p))
        (λ d. open_reserved-Allowed x t d)

  -- The settings that the guard judges are the session's.
  abbrev Judged : SettingsRow → World → Type 0
  Judged x s = (x ≡ s.db.settings) × AllAllowed s

  local_side-unchanged : (t : String) → Moves (Same (λ (s : World). s)) (local_side t)
  unfolding local_side
  local_side-unchanged t = search (moves_rules, get_or_none-Moves) depth 20

  guarded_branch :
      (x : SignalType) (t : String) (inp : GuardInput) (settings : SettingsRow)
      → inp.system_state ≡ settings.system_state
      → Triple
          (Judged settings)
          (if not (can_open_position inp).allowed
            then refuse t (can_open_position inp).reason
            else open_allowed env x t)
          (λ r. AllAllowed)
          AllAllowed
  guarded_branch x t inp settings q =
      Triple-if (not (can_open_position inp).allowed) _ _
        (λ e. any_state env _ (refuse-Moves (backing IsAllowed) t _) (λ s p. p.1))
        (λ e.
          Triple-weaken _
            (λ s (same, a). (
              a,
              ap (λ (z : SettingsRow). z.system_state) (sym same)
                  ∙ (sym q ∙ (sound inp (by_not _ e)).running),
            ))
            (open_allowed-Allowed x t))

  open_guarded-Allowed :
      (x : SignalType) (t : String) (b : Bool) (y : Shown)
      → Triple AllAllowed (open_guarded env x t b y) (λ r. AllAllowed) AllAllowed
  unfolding open_guarded Settings.get
  open_guarded-Allowed x t b y = Triple-bind {R = Judged} _ _ (Triple-gets _) λ settings.
      Triple-bind {R = λ local. Judged settings} _ _
        (Triple-unchanged _ (local_side-unchanged settings.trading_pair) (λ s p. p.1))
        λ local.
          Triple-bind {R = λ unresolved. Judged settings} _ _
            (Triple-unchanged _ has_unresolved-Moves (λ s p. p.1))
            λ unresolved.
              Triple-bind {R = λ holder. Judged settings} _ _
                (Triple-unchanged _ current_order_id-Moves (λ s p. p.1))
                λ holder.
                  guarded_branch x t
                    (record {
                      local_side = local;
                      exchange_side = y.side;
                      has_unknown_orders = unresolved;
                      system_state = settings.system_state;
                      configured_pair = settings.trading_pair;
                      target_pair = settings.trading_pair;
                      exchange_connected = b;
                      has_foreign_positions = y.foreign;
                      has_open_reservation = is_some holder;
                    })
                    settings refl

  pub reducing : (i : Intent) → i.reduce_only ≡ true → Moves (Backing IsAllowed) (submit env i)
  reducing i e = record {
    at = λ s a. Triple-after (submit env i) (submit-Allowed env i) s (a, inl e);
  }

  pub guarded :
      (x : SignalType) (t : String) (b : Bool) (y : Shown)
      → Moves (Backing IsAllowed) (open_guarded env x t b y)
  guarded x t b y = record {
    at = λ s a. Triple-after (open_guarded env x t b y) (open_guarded-Allowed x t b y) s a;
  }

  closing : (r : CloseRequest) → Moves (Backing IsAllowed) (close_position env r)
  closing = close_position-Moves (backing IsAllowed) env guarded reducing

  set_estop-Backing : (b : Bool) → Moves (Backing IsAllowed) (Settings.set_estop b)
  unfolding Settings.set_estop modify_db
  set_estop-Backing b = record { at = λ s a. a }

  emergency_close-Backing : (b : Bool) → Moves (Backing IsAllowed) (emergency_close env b)
  unfolding emergency_close
  emergency_close-Backing b = search (reply_rules, backing, closing) depth 40

  emergency_stop-Backing : Moves (Backing IsAllowed) (emergency_stop env)
  unfolding emergency_stop
  emergency_stop-Backing =
      search (reply_rules, backing, set_estop-Backing, emergency_close-Backing) depth 40

-- Every order that was sent either only reduces a position, or was sent while the committed system
-- state was RUNNING and the committed slot was held for the very row of the request. A signal, a
-- close by command and the emergency stop keep this of all that was ever sent.
pub opens_are_guarded :
    (env : Env) (s : World) (signal : SignalType) (actor : String)
    → All (Backed IsAllowed) s.sent
    → All (Backed IsAllowed) (handle_signal env signal actor s).1.sent
      × All (Backed IsAllowed) (close_and_stop env s).1.sent
      × All (Backed IsAllowed) (close_and_continue env s).1.sent
      × All (Backed IsAllowed) (emergency_stop env s).1.sent
opens_are_guarded env s signal actor a = (
  (handle_signal-Moves (backing IsAllowed) env (guarded env) (reducing env) signal actor).at s a,
  (close_and_stop-Moves (backing IsAllowed) env (guarded env) (reducing env)).at s a,
  (close_and_continue-Moves (backing IsAllowed) env (guarded env) (reducing env)).at s a,
  (emergency_stop-Backing env).at s a,
)

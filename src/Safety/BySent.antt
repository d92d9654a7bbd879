-- ===== src/Safety/BySent.antt =====
-- Preorders that look only at what was sent to the worker.
use newhbot.Base.{◌≡◌, false, ◌∷◌, arith}
use newhbot.Action.Moves.{Preorder, Moves}
use newhbot.World.{World, Call, History, ask, commit, modify_db, publish, new_id, new_cloid, clock}
use newhbot.Models.{Db}
use newhbot.Repositories.Settings
use newhbot.Repositories.Orders
use newhbot.Repositories.Positions
use newhbot.Repositories.Trades
use newhbot.Repositories.Reservation
use newhbot.Repositories.Journal
use newhbot.Safety.Tolerant.{Tolerant, is_place_order}

-- A relation on histories that adding a call other than `place_order` respects.
pub record Extends (R : History → History → Type 0) : Type 0 where
  pub same : (h : History) → R h h
  pub chain : (h k l : History) → R h k → R k l → R h l
  pub query :
      (c : Call) (d : Db) (h : History)
      → is_place_order c ≡ false
      → R h (record { call = c; durable = d } ∷ h)

module _ {R : History → History → Type 0} (X : Extends R) where
  abbrev pub BySent : Preorder World
  BySent = record {
    rel = λ s t. R s.sent t.sent;
    rel_refl = λ s. X.same s.sent;
    rel_trans = λ s t u. X.chain s.sent t.sent u.sent;
  }

  db_step : (f : Db → Db) → Moves BySent (modify_db f)
  unfolding modify_db
  db_step f = record { at = λ s. X.same s.sent }

  pub add_order-BySent : (o : _) → Moves BySent (Orders.add o)
  unfolding Orders.add
  add_order-BySent o = record { at = λ s. ground (arith, X.same s.sent) }

  add_fill-BySent : (f : _) → Moves BySent (Trades.add_fill f)
  unfolding Trades.add_fill
  add_fill-BySent f = record { at = λ s. ground (arith, X.same s.sent) }

  acquire-BySent : (t u : _) → Moves BySent (Reservation.try_acquire t u)
  unfolding Reservation.try_acquire
  acquire-BySent t u = record { at = λ s. ground (arith, X.same s.sent) }

  release-BySent : (t : _) → Moves BySent (Reservation.release t)
  unfolding Reservation.release
  release-BySent t = record { at = λ s. ground (arith, X.same s.sent) }

  pub BySent-Tolerant : Tolerant BySent
  unfolding ask commit publish new_id new_cloid clock Settings.set_trading_enabled
      Settings.set_close_intent Settings.set_system_state Orders.save Positions.upsert_mirror
      Trades.add_trade Trades.save_trade Journal.add_signal Journal.answer_signal Journal.add_event
      Journal.add_audit Journal.add_snapshot
  BySent-Tolerant = record {
    asks = λ c f e. record { at = λ s. X.query c s.committed s.sent e };
    commits = record { at = λ s. X.same s.sent };
    publishes = λ t p n. record { at = λ s. X.same s.sent };
    draws = λ env. record { at = λ s. X.same s.sent };
    draws_cloid = λ env. record { at = λ s. X.same s.sent };
    reads_clock = λ env. record { at = λ s. X.same s.sent };
    switches = λ b. db_step _;
    intends = λ c. db_step _;
    enters = λ x. db_step _;
    saves = λ o. db_step _;
    mirrors = λ t x d e u. db_step _;
    fills = add_fill-BySent;
    trades = λ t. db_step _;
    closes = λ t. db_step _;
    acquires = acquire-BySent;
    releases = release-BySent;
    signals = λ r. db_step _;
    answers = λ t b u. db_step _;
    events = λ t p. record { at = λ s. X.same s.sent };
    audits = λ t p u. db_step _;
    snapshots = λ d e m. db_step _;
  }

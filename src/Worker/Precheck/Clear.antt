-- ===== src/Worker/Precheck/Clear.antt =====
-- open_order_precheck.py: what a report that does not block says of the account.
use newhbot.Base.{
  ◌≡◌, refl, ap, suc, ◌+◌, String, true, false, All, length, Bool-cases, inl, inr, Option, none,
  some, List, [], ◌∷◌, arith, Option-cases, str_eq,
}
use newhbot.Action.{Result, ok, err}
use newhbot.Worker.Raw.{Json}
use newhbot.Worker.Precheck.{
  Inner, Report, Tally, is_configured, count_row, count_rows, no_rows, verified_report,
  report_answer, snapshot_open_orders,
}

-- The connector answered with rows, none of which is for the pair, and all of which are counted.
pub record IsClear (inner : Inner) (pair : String) (report : Report) : Type 0 where
  pub post : String → Result (Option (List Json))
  pub rows : List Json
  pub has_post : inner.post ≡ some post
  pub answered : post inner.address ≡ ok (some rows)
  pub none_configured : All (λ row. is_configured pair row ≡ false) rows
  pub counted : report.other_open_count ≡ some (length rows)

module _ (pair : String) where
  -- Without a row of the pair in the sum there was none, before and among the rows.
  record Untouched (rows : List Json) (t : Tally) : Type 0 where
    before : t.configured ≡ 0
    none_configured : All (λ row. is_configured pair row ≡ false) rows
    counted : (count_rows pair rows t).other ≡ t.other + length rows

  configured_before :
      (row : Json) (t : Tally)
      → is_configured pair row ≡ false
      → (count_row pair row t).configured ≡ 0
      → t.configured ≡ 0
  unfolding count_row
  configured_before row t e h = rw e at h

  other_after :
      (row : Json) (t : Tally)
      → is_configured pair row ≡ false
      → (count_row pair row t).other ≡ suc t.other
  unfolding count_row
  other_after row t e = rw e refl

  no_count :
      (row : Json) (t : Tally)
      → is_configured pair row ≡ true
      → (count_row pair row t).configured ≡ 0
      → ⊥
  unfolding count_row
  no_count row t e h = ground (arith, e, h)

  count_rows-Untouched :
      (rows : List Json) (t : Tally) → (count_rows pair rows t).configured ≡ 0 → Untouched rows t
  unfolding count_rows
  count_rows-Untouched [] t e = record { before = e; none_configured = tt; counted = omega arith }
  count_rows-Untouched (row ∷ rows) t e =
      let rest = count_rows-Untouched rows (count_row pair row t) e in
      elim (Bool-cases (is_configured pair row)) [
        | inl yes_row ↦ absurd (no_count row t yes_row rest.before)
        | inr no_row ↦ record {
          before = configured_before row t no_row rest.before;
          none_configured = (no_row, rest.none_configured);
          counted = omega (arith, other_after row t no_row, rest.counted);
        }
      ]

  report-IsClear :
      (inner : Inner) (post : String → Result (Option (List Json)))
      (r : Result (Option (List Json)))
      → inner.post ≡ some post
      → post inner.address ≡ r
      → (report_answer pair r).blocking ≡ false
      → IsClear inner pair (report_answer pair r)
  unfolding report_answer verified_report
  report-IsClear inner post (err e) h k b = cc
  report-IsClear inner post (ok none) h k b = cc
  report-IsClear inner post (ok (some rows)) h k b =
      let clear = count_rows-Untouched rows no_rows (ground (arith, b)) in
      record {
        post = post;
        rows = rows;
        has_post = h;
        answered = k;
        none_configured = clear.none_configured;
        counted = ap some (ground (arith, clear.counted));
      }

asked_post :
    (inner : Inner) (pair : String) (post : String → Result (Option (List Json)))
    → inner.post ≡ some post
    → str_eq inner.address "" ≡ false
    → snapshot_open_orders inner pair ≡ report_answer pair (post inner.address)
unfolding snapshot_open_orders
asked_post inner pair post h address = rw (h, address) refl

not_clear : true ≡ false → ⊥
not_clear e = cc

-- A report that does not block was made from an answer of the connector: a list of rows of which
-- none is for the configured pair, and each of which is counted as another's.
pub snapshot_open_orders-IsClear :
    (inner : Inner) (pair : String)
    → (snapshot_open_orders inner pair).blocking ≡ false
    → IsClear inner pair (snapshot_open_orders inner pair)
unfolding snapshot_open_orders
snapshot_open_orders-IsClear inner pair b = elim (Option-cases inner.post) [
  | inl no_post ↦ absurd (not_clear (rw no_post at b))
  | inr (post, h) ↦ elim (Bool-cases (str_eq inner.address "")) [
    | inl no_address ↦ absurd (not_clear (rw (h, no_address) at b))
    | inr address ↦
        let asked = asked_post inner pair post h address in
        rw asked (report-IsClear pair inner post (post inner.address) h refl (rw asked at b))
  ]
]

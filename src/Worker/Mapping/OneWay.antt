-- ===== src/Worker/Mapping/OneWay.antt =====
-- mapping.py: what map_clearinghouse_positions promises of the positions that it returns.
use mathlib.Core.List.{append_assoc, append-nil}
use newhbot.Base.{
  ◌≡◌, refl, sym, String, str_eq, eq_iff, Bool, true, false, ◌⊎◌, ◌&&◌, any, keep, All, List, [],
  ◌∷◌, ◌++◌, if◌then◌else◌, arith, Bool-cases, inl, inr,
}
use newhbot.Action.{ok, err}
use newhbot.Action.Returns.{OfReturned-use}
use newhbot.Worker.Raw.{bind-ok, Fields, as_dict, object, get_or}
use newhbot.Worker.Mapping.{
  ExchangePosition, Group, put_row, by_symbol, check_sides, is_long, is_short, is_empty, map_rows,
  map_clearinghouse_positions, one_way_error, map_hummingbot_position,
}

-- No symbol has a LONG and a SHORT row at once.
abbrev pub OneWay : List ExchangePosition → Type 0
OneWay ps =
    (t : String)
    → (any (λ (p : ExchangePosition). str_eq p.symbol t && is_long p) ps
        && any (λ (p : ExchangePosition). str_eq p.symbol t && is_short p) ps)
      ≡ false

abbrev rows_of : String → List Group → List ExchangePosition
rows_of t [] = []
rows_of t (g ∷ gs) = if str_eq g.symbol t then g.rows else rows_of t gs

abbrev at : String → List ExchangePosition → List ExchangePosition
at t ps = keep (λ (p : ExchangePosition). str_eq p.symbol t) ps

rows_of-put_row :
    (t : String) (p : ExchangePosition) (gs : List Group)
    → rows_of t (put_row p gs)
      ≡ (if str_eq p.symbol t then rows_of t gs ++ p ∷ [] else rows_of t gs)
unfolding put_row
rows_of-put_row t p [] = ground arith
rows_of-put_row t p (g ∷ gs) =
    ground (
      arith,
      eq_iff g.symbol p.symbol,
      eq_iff g.symbol t,
      eq_iff p.symbol t,
      rows_of-put_row t p gs,
    )

rows_of-by_symbol :
    (t : String) (ps : List ExchangePosition) (gs : List Group)
    → rows_of t (by_symbol ps gs) ≡ rows_of t gs ++ at t ps
unfolding by_symbol
rows_of-by_symbol t [] gs = sym (append-nil (rows_of t gs))
rows_of-by_symbol t (p ∷ ps) gs = elim (Bool-cases (str_eq p.symbol t)) [
  | inl here ↦
      rw (rows_of-by_symbol t ps (put_row p gs), rows_of-put_row t p gs, here)
        (append_assoc (rows_of t gs) (p ∷ []) (at t ps))
  | inr away ↦ rw (rows_of-by_symbol t ps (put_row p gs), rows_of-put_row t p gs, away) refl
]

check_sides_lem :
    (t : String) (gs : List Group)
    → check_sides gs ≡ ok tt
    → (any is_long (rows_of t gs) && any is_short (rows_of t gs)) ≡ false
unfolding check_sides
check_sides_lem t [] e = refl
check_sides_lem t (g ∷ gs) e = ground (arith, check_sides_lem t gs)

module _ (f : ExchangePosition → Bool) (t : String) where
  any-at :
      (ps : List ExchangePosition)
      → any f (at t ps) ≡ any (λ (p : ExchangePosition). str_eq p.symbol t && f p) ps
  any-at [] = refl
  any-at (p ∷ ps) = ground (arith, any-at ps)

by_symbol-OneWay : (ps : List ExchangePosition) → check_sides (by_symbol ps []) ≡ ok tt → OneWay ps
by_symbol-OneWay ps e t =
    rw (sym (any-at is_long t ps), sym (any-at is_short t ps), sym (rows_of-by_symbol t ps []))
      (check_sides_lem t (by_symbol ps []) e)

-- Every row has a side, and a size that is not 0.
abbrev pub Shown : List ExchangePosition → Type 0
Shown ps = All (λ p. is_empty p ≡ false) ps

keep_row :
    (p : ExchangePosition) (rest : List ExchangePosition)
    → Shown rest
    → Shown (if is_empty p then rest else p ∷ rest)
keep_row p rest h = elim (Bool-cases (is_empty p)) [
  | inl empty_p ↦ rw empty_p h
  | inr shown ↦ rw shown (shown, h)
]

map_rows_lem :
    (rows : List Fields) (pair : String) (ps : List ExchangePosition)
    → map_rows rows pair ≡ ok ps
    → Shown ps
unfolding map_rows
map_rows_lem [] pair ps e = OfReturned-use Shown (ok []) ps tt e
map_rows_lem (item ∷ items) pair ps e =
    let (pos, _, e1) = bind-ok (as_dict (get_or "position" (object item) item)) _ ps e in
    let (p, _, e2) = bind-ok (map_hummingbot_position pos pair) _ ps e1 in
    let (rest, e3, e4) = bind-ok (map_rows items pair) _ ps e2 in
    OfReturned-use Shown (ok _) ps (keep_row p rest (map_rows_lem items pair rest e3)) e4

-- If the account's rows are accepted, no symbol has both a LONG and a SHORT position among those
-- returned, and each of them has a side and a size that is not 0.
pub map_clearinghouse_positions-OneWay :
    (rows : List Fields) (pair : String) (ps : List ExchangePosition)
    → map_clearinghouse_positions rows pair ≡ ok ps
    → OneWay ps × Shown ps
unfolding map_clearinghouse_positions
map_clearinghouse_positions-OneWay rows pair ps e =
    let (mapped, e1, e2) = bind-ok (map_rows rows pair) _ ps e in
    let (_, e3, e4) = bind-ok (check_sides (by_symbol mapped [])) _ ps e2 in
    OfReturned-use (λ l. OneWay l × Shown l) (ok mapped) ps
      (by_symbol-OneWay mapped e3, map_rows_lem rows pair mapped e1) e4

check_sides-cases :
    (gs : List Group)
    → (check_sides gs ≡ ok tt) ⊎ ((t : String) × (check_sides gs ≡ err (one_way_error t)))
unfolding check_sides
check_sides-cases [] = inl refl
check_sides-cases (g ∷ gs) = elim (Bool-cases (any is_long g.rows && any is_short g.rows)) [
  | inl both ↦ inr (g.symbol, rw both refl)
  | inr one ↦ rw one (check_sides-cases gs)
]

both_true : (a b : Bool) → a ≡ true → b ≡ true → (a && b) ≡ false → ⊥
both_true a b h k e = ground (arith, h, k, e)

-- Rows that show a LONG and a SHORT position in one symbol are refused.
pub hedged_is_refused :
    (rows : List Fields) (pair : String) (ps : List ExchangePosition) (hedged : String)
    → map_rows rows pair ≡ ok ps
    → any (λ (p : ExchangePosition). str_eq p.symbol hedged && is_long p) ps ≡ true
    → any (λ (p : ExchangePosition). str_eq p.symbol hedged && is_short p) ps ≡ true
    → (t : String) × (map_clearinghouse_positions rows pair ≡ err (one_way_error t))
unfolding map_clearinghouse_positions
hedged_is_refused rows pair ps hedged mapped long short =
    elim (check_sides-cases (by_symbol ps [])) [
      | inl accepted ↦ absurd (both_true _ _ long short (by_symbol-OneWay ps accepted hedged))
      | inr (t, refused) ↦ (t, rw (mapped, refused) refl)
    ]

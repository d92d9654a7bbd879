-- ===== src/Worker/Raw.antt =====
-- Values of Python that come from JSON, as the worker reads them: dicts by `get`, `or` chains,
-- `str` and `Decimal`. A number is the decimal that it prints as. The text of an error that Python
-- raises by itself is left empty; NaN and the infinities are not decimals here.
use newhbot.Base.{
  ◌≡◌, refl, ℕ, zero, suc, ◌+◌, ◌-◌, ◌*◌, ◌/◌, ◌%◌, ◌^◌, ◌==◌, leb, ltb, String, append, str_eq,
  Bool, true, false, not, ◌&&◌, ◌||◌, if◌then◌else◌, Option, none, some, List, [], ◌∷◌,
}
use newhbot.Text.{codes, lower}
use newhbot.Decimal.{Decimal}
use newhbot.Action.{Exn, Result, ok, err, Action, raise, pure}
use newhbot.Worker.Show.{show}

mutual
  pub data Json : Type 0 where
    null : Json
    flag : Bool → Json
    number : Decimal → Json
    text : String → Json
    object : Fields → Json

  -- The keys of a dict with their values.
  pub data Fields : Type 0 where
    empty : Fields
    field : String → Json → Fields → Fields

-- d.get(key, default)
unfoldable pub get_or : String → Json → Fields → Json
get_or key default empty = default
get_or key default (field k v d) =
    let rest = get_or key default d in if str_eq k key then v else rest

-- d.get(key)
unfoldable pub get : String → Fields → Json
unfolding get_or
get key d = get_or key null d

-- key in d
unfoldable pub has_key : String → Fields → Bool
has_key key empty = false
has_key key (field k v d) = str_eq k key || has_key key d

-- bool(v)
abbrev pub truthy : Json → Bool
truthy null = false
truthy (flag b) = b
truthy (number d) = not (d.coefficient == 0)
truthy (text t) = not (str_eq t "")
truthy (object empty) = false
truthy (object (field k v d)) = true

-- v or w
infixr 5 ◌or◌
abbrev pub ◌or◌ : Json → Json → Json
v or w = if truthy v then v else w

-- v is None
abbrev pub is_null : Json → Bool
is_null null = true
is_null _ = false

-- v in (None, "")
abbrev pub is_blank : Json → Bool
is_blank null = true
is_blank (text t) = str_eq t ""
is_blank _ = false

-- An error that Python raises by itself.
abbrev pub python_error : String → Exn
python_error name = record { type_name = name; message = "" }

-- The number that the digits before a point or an exponent spell behind `n`, how many there were,
-- and what follows them.
record Digits : Type 0 where
  total : ℕ
  count : ℕ
  left : List ℕ

abbrev is_digit : ℕ → Bool
is_digit c = leb b'0' c && leb c b'9'

digits_of : List ℕ → ℕ → ℕ → Digits
digits_of [] n k = record { total = n; count = k; left = [] }
digits_of (c ∷ s) n k =
    let rest = digits_of s (n * 10 + (c - b'0')) (k + 1) in
    if is_digit c then rest else record { total = n; count = k; left = c ∷ s }

-- coefficient * 10 ^ exponent, the exponent written as `up - down`.
abbrev with_exponent : Bool → ℕ → ℕ → ℕ → Decimal
with_exponent negative n up down = record {
  negative = negative;
  coefficient = n * 10 ^ (up - down);
  places = down - up;
}

abbrev exponent_end : Bool → Digits → ℕ → Bool → Digits → Option Decimal
exponent_end negative all places below e = if e.count == 0 then none else elim e.left [
  | [] ↦ some (
      if below
      then with_exponent negative all.total 0 (places + e.total)
      else with_exponent negative all.total e.total places)
  | c ∷ s ↦ none
]

-- What may follow the digits: nothing, or an exponent.
exponent : Bool → Digits → ℕ → List ℕ → Option Decimal
unfolding digits_of
exponent negative all places [] = some (with_exponent negative all.total 0 places)
exponent negative all places (c ∷ []) = none
exponent negative all places (c ∷ s ∷ t) =
    if not (lower c == b'e')
    then none
    else if s == b'-'
    then exponent_end negative all places true (digits_of t 0 0)
    else if s == b'+'
    then exponent_end negative all places false (digits_of t 0 0)
    else exponent_end negative all places false (digits_of (s ∷ t) 0 0)

after_digits : Bool → Digits → List ℕ → Option Decimal
unfolding digits_of exponent
after_digits negative front [] = if front.count == 0 then none else exponent negative front 0 []
after_digits negative front (c ∷ s) =
    let all = digits_of s front.total 0 in
    if c == b'.'
    then if front.count + all.count == 0 then none else exponent negative all all.count all.left
    else if front.count == 0
    then none
    else exponent negative front 0 (c ∷ s)

unsigned : Bool → List ℕ → Option Decimal
unfolding digits_of after_digits
unsigned negative s = let front = digits_of s 0 0 in after_digits negative front front.left

signed_codes : List ℕ → Option Decimal
unfolding unsigned
signed_codes [] = none
signed_codes (c ∷ s) =
    if c == b'-'
    then unsigned true s
    else if c == b'+'
    then unsigned false s
    else unsigned false (c ∷ s)

-- Decimal(t), if the text is a numeral.
unfoldable pub parse_decimal : String → Option Decimal
unfolding signed_codes
parse_decimal t = signed_codes (codes t)

abbrev pub numeral : Option Decimal → Result Decimal
numeral none = err (python_error "InvalidOperation")
numeral (some d) = ok d

-- Decimal(str(v))
unfoldable pub decimal_of : Json → Result Decimal
unfolding parse_decimal
decimal_of (number d) = ok d
decimal_of (text t) = numeral (parse_decimal t)
decimal_of _ = err (python_error "InvalidOperation")

zeros : ℕ → String
zeros zero = ""
zeros (suc n) = append "0" (zeros n)

-- The last `k` digits of `n`, the zeros in front included.
last_digits : ℕ → ℕ → String
unfolding show
last_digits zero n = ""
last_digits (suc k) n = append (last_digits k (n / 10)) (show (n % 10))

count_digits : ℕ → ℕ → ℕ
count_digits zero n = 0
count_digits (suc f) n = let rest = count_digits f (n / 10) in if n == 0 then 0 else suc rest

abbrev exponent_part : ℕ → String
exponent_part k = append "E-" (show k)

-- In scientific form, `k` being the number of digits.
scientific : ℕ → ℕ → ℕ → String
unfolding last_digits
scientific n k places =
    if leb k 1
    then append (show n) (exponent_part places)
    else append (show (n / 10 ^ (k - 1)))
        (append "." (append (last_digits (k - 1) n) (exponent_part (places + 1 - k))))

-- str(d): in scientific form where more than five zeros would follow the point. 400 digits are more
-- than a result of arithmetic has.
unfoldable pub show_decimal : Decimal → String
unfolding show last_digits scientific count_digits
show_decimal d =
    let k = if d.coefficient == 0 then 1 else count_digits 400 d.coefficient in
    let sign = if d.negative then "-" else "" in
    append sign (
      if d.places == 0
      then show d.coefficient
      else if ltb (k + 5) d.places
      then scientific d.coefficient k d.places
      else append (show (d.coefficient / 10 ^ d.places))
          (append "." (last_digits d.places d.coefficient)))

mutual
  unfolding show_decimal

  repr : Json → String
  repr null = "None"
  repr (flag true) = "True"
  repr (flag false) = "False"
  repr (number d) = show_decimal d
  repr (text t) = append "'" (append t "'")
  repr (object d) = append "{" (append (repr_fields d) "}")

  -- Without the escapes of Python, which a name or a number has no use for.
  repr_fields : Fields → String
  repr_fields empty = ""
  repr_fields (field k v empty) = append "'" (append k (append "': " (repr v)))
  repr_fields (field k v (field l w d)) =
      append "'"
        (append k (append "': " (append (repr v) (append ", " (repr_fields (field l w d))))))

-- str(v)
unfoldable pub str_of : Json → String
unfolding repr
str_of (text t) = t
str_of v = repr v

-- A value whose method `get` is called.
abbrev pub as_dict : Json → Result Fields
as_dict (object d) = ok d
as_dict _ = err (python_error "AttributeError")

module _ {A B : Type 0} where
  infixl 10 ◌>>=◌
  -- What goes on after a value and stops at an exception.
  abbrev pub ◌>>=◌ : Result A → (A → Result B) → Result B
  (ok a) >>= f = f a
  (err e) >>= f = err e

module _ {A B : Type 0} where
  -- [f(x) for x in xs]
  unfoldable pub map_result : (A → Result B) → List A → Result (List B)
  map_result f [] = ok []
  map_result f (x ∷ xs) = do y ← f x; ys ← map_result f xs; ok (y ∷ ys)

module _ {S A : Type 0} where
  -- A computation that does not touch the state.
  unfoldable pub lift : Result A → Action S A
  unfolding pure raise
  lift (ok a) = pure a
  lift (err e) = raise e

-- A value that may be missing, through code that may raise.
abbrev pub unless_null : {A : Type 0} → Json → (Json → Result A) → Result (Option A)
unless_null null f = ok none
unless_null v f = do a ← f v; ok (some a)

module _ {A B : Type 0} where
  -- A sequence that returns is two steps that return.
  pub bind-ok :
      (m : Result A) (f : A → Result B) (b : B)
      → (m >>= f) ≡ ok b
      → (a : A) × (m ≡ ok a) × (f a ≡ ok b)
  bind-ok (ok a) f b e = (a, refl, e)
  bind-ok (err x) f b e = cc

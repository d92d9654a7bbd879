-- ===== src/Decimal.antt =====
-- Python's `decimal` numbers under the default context, as the source uses them: 28 significant
-- digits, rounding half to even. A value is ±coefficient / 10 ^ places; a positive exponent is
-- written out in the coefficient, so equal values with another exponent print alike here.
use Prim.Native.Nat.{max}
use newhbot.Base.{
  ℕ, zero, suc, ◌+◌, ◌-◌, ◌*◌, ◌/◌, ◌%◌, ◌^◌, Bool, true, false, ◌||◌, ◌&&◌, not, xor, ltb, leb,
  ◌==◌, if◌then◌else◌, List, [], ◌∷◌,
}
use newhbot.Base.Int.{ℤ, pos, negsuc, ◌+ℤ◌, leb_ℤ}

pub record Decimal : Type 0 where
  pub negative : Bool
  pub coefficient : ℕ
  pub places : ℕ

-- Decimal("n")
abbrev pub whole : ℕ → Decimal
whole n = record { negative = false; coefficient = n; places = 0 }

-- Decimal("0.99") is `fraction 99 2`.
abbrev pub fraction : ℕ → ℕ → Decimal
fraction n k = record { negative = false; coefficient = n; places = k }

abbrev signed : Bool → ℕ → ℤ
signed true zero = pos 0
signed true (suc n) = negsuc n
signed false n = pos n

-- The integer that a decimal is with `k` places, for `k` at least its own places.
abbrev pub scaled : Decimal → ℕ → ℤ
scaled d k = signed d.negative (d.coefficient * 10 ^ (k - d.places))

abbrev of_ℤ : ℤ → ℕ → Decimal
of_ℤ (pos n) k = record { negative = false; coefficient = n; places = k }
of_ℤ (negsuc n) k = record { negative = true; coefficient = suc n; places = k }

-- The decimal digits of `n`, on fuel: `n` itself is more than enough, and 400 is what is given.
digits_fuel : ℕ → ℕ → ℕ
digits_fuel zero n = 0
digits_fuel (suc f) n = let rest = digits_fuel f (n / 10) in if n == 0 then 0 else suc rest

digits : ℕ → ℕ
unfolding digits_fuel
digits n = digits_fuel 400 n

-- n / 10 ^ k, half to even.
half_even : ℕ → ℕ → ℕ
half_even n k =
    let q = n / 10 ^ k in
    let twice = 2 * (n % 10 ^ k) in
    if ltb (10 ^ k) twice || (twice == 10 ^ k && q % 2 == 1) then q + 1 else q

abbrev drop_places : Decimal → ℕ → ℕ → Decimal
drop_places d q k =
    if leb k d.places
    then record d { coefficient = q; places = d.places - k }
    else record d { coefficient = q * 10 ^ (k - d.places); places = 0 }

-- The context's rounding to 28 digits.
pub rounded : Decimal → Decimal
unfolding digits half_even
rounded d =
    let k = digits d.coefficient - 28 in
    if k == 0 then d else drop_places d (half_even d.coefficient k) k

unfoldable pub le : Decimal → Decimal → Bool
le a b = let k = max a.places b.places in leb_ℤ (scaled a k) (scaled b k)

abbrev pub lt : Decimal → Decimal → Bool
lt a b = not (le b a)

abbrev pub positive : Decimal → Bool
positive d = lt (whole 0) d

-- The quantity without its sign: abs(d), which rounds like any operation.
unfoldable pub magnitude : Decimal → Decimal
unfolding rounded
magnitude d = rounded (record d { negative = false })

-- int(d)
unfoldable pub truncated : Decimal → ℤ
truncated d = signed d.negative (d.coefficient / 10 ^ d.places)

unfoldable pub neg : Decimal → Decimal
neg d = record d { negative = not d.negative }

unfoldable pub add : Decimal → Decimal → Decimal
unfolding rounded
add a b = let k = max a.places b.places in rounded (of_ℤ (scaled a k +ℤ scaled b k) k)

unfoldable pub sub : Decimal → Decimal → Decimal
unfolding add neg
sub a b = add a (neg b)

unfoldable pub mul : Decimal → Decimal → Decimal
unfolding rounded
mul a b = rounded (record {
  negative = xor a.negative b.negative;
  coefficient = a.coefficient * b.coefficient;
  places = a.places + b.places;
})

-- a / b for a divisor other than 0: the quotient with 40 more digits than needed and a last digit
-- that tells an inexact quotient from a half, rounded once.
unfoldable pub div : Decimal → Decimal → Decimal
unfolding rounded
div a b =
    let k = digits b.coefficient + 40 in
    let n = a.coefficient * 10 ^ (k + b.places) in
    let q = n / b.coefficient in
    let sticky : ℕ = if n % b.coefficient == 0 then 0 else 1 in
    rounded (record {
      negative = xor a.negative b.negative;
      coefficient = q * 10 + sticky;
      places = a.places + k + 1;
    })

sum_from : Decimal → List Decimal → Decimal
sum_from acc [] = acc
sum_from acc (d ∷ ds) = sum_from (add acc d) ds

-- sum(items, Decimal("0"))
unfoldable pub total : List Decimal → Decimal
unfolding add sum_from
total items = sum_from (whole 0) items

-- ===== src/Strategies/Ema5break/Increment.antt =====
-- strategies/ema5break/strategy.py: the EMA of a history that grows by one bar.
use newhbot.Base.{
  ◌≡◌, refl, ap, ℕ, zero, suc, ◌≤◌, ltb, ◌||◌, false, Option, none, some, List, [], ◌∷◌, ◌++◌,
  length, Bool-cases, inl, inr, arith, length-append,
}
use newhbot.Strategies.Ema5break.{Floats, ema, smooth, smoothed, smoothing, take, drop}

module _ {A : Type 0} where
  take-append : (n : ℕ) (xs ys : List A) → n ≤ length xs → take n (xs ++ ys) ≡ take n xs
  take-append zero xs ys h = refl
  take-append (suc n) [] ys h = absurd (omega (arith, h))
  take-append (suc n) (x ∷ xs) ys h = rw (take-append n xs ys (omega (arith, h))) refl

  drop-append : (n : ℕ) (xs ys : List A) → n ≤ length xs → drop n (xs ++ ys) ≡ drop n xs ++ ys
  drop-append zero xs ys h = refl
  drop-append (suc n) [] ys h = absurd (omega (arith, h))
  drop-append (suc n) (x ∷ xs) ys h = drop-append n xs ys (omega (arith, h))

module _ {A : Type 0} where
  length-append_last : (xs : List A) (x : A) → length (xs ++ x ∷ []) ≡ suc (length xs)
  length-append_last xs x = omega (arith, length-append {0} xs (x ∷ []))

module _ (fl : Floats) (k : fl.F) where
  smooth-append :
      (v : fl.F) (xs : List fl.F) (x : fl.F)
      → smooth fl k v (xs ++ x ∷ []) ≡ smoothed fl k (smooth fl k v xs) x
  unfolding smooth
  smooth-append v [] x = refl
  smooth-append v (y ∷ xs) x = smooth-append (smoothed fl k v y) xs x

enough : (n p : ℕ) → (ltb p 1 || ltb n p) ≡ false → (p ≤ n) × ((ltb p 1 || ltb (suc n) p) ≡ false)
enough n p h = (ground (arith, h), ground (arith, h))

module _ (fl : Floats) where
  abbrev moved : fl.F → fl.F → Option fl.F → Option fl.F
  moved k x none = none
  moved k x (some v) = some (smoothed fl k v x)

  -- Once there are closes enough for an EMA, each further close moves it by one smoothing step.
  pub ema-append :
      (closes : List fl.F) (period : ℕ) (v x : fl.F)
      → ema fl closes period ≡ some v
      → ema fl (closes ++ x ∷ []) period ≡ some (smoothed fl (smoothing fl period) v x)
  unfolding ema
  ema-append closes period v x h = elim (Bool-cases (ltb period 1 || ltb (length closes) period)) [
    | inl few ↦ absurd (cc (rw few at h))
    | inr many ↦
        let (fits, still) = enough (length closes) period many in
        rw
          (
            length-append_last closes x,
            still,
            take-append period closes (x ∷ []) fits,
            drop-append period closes (x ∷ []) fits,
            smooth-append fl (smoothing fl period)
                (fl.div (fl.sum (take period closes)) (fl.of_int period)) (drop period closes) x,
          )
          (ap (moved (smoothing fl period) x) (rw many at h))
  ]

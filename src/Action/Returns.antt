-- ===== src/Action/Returns.antt =====
-- What holds of the value that a coroutine returns, if it returns: one rule for each way to build one.
use newhbot.Base.{◌≡◌, refl, Bool, true, false, if◌then◌else◌}
use newhbot.Action.{Exn, Result, ok, err, Action, pure, raise, ◌>>=◌, continue}

abbrev pub OfReturned : {A : Type 0} → (A → Type 0) → Result A → Type 0
OfReturned Q (ok a) = Q a
OfReturned Q (err e) = Unit

pub record Returns {S A : Type 0} (Q : A → Type 0) (m : Action S A) : Type 0 where
  pub at : (s : S) → OfReturned Q (m s).0

pub OfReturned-use :
    {A : Type 0} (Q : A → Type 0) (r : Result A) (a : A) → OfReturned Q r → r ≡ ok a → Q a
OfReturned-use Q r a h e = rw e at h

module _ {S A : Type 0} {Q : A → Type 0} where
  pub Returns-pure : (a : A) → Q a → Returns {S = S} Q (pure a)
  unfolding pure
  Returns-pure a q = record { at = λ s. q }

  pub Returns-raise : (e : Exn) → Returns {S = S} Q (raise e)
  unfolding raise
  Returns-raise e = record { at = λ s. tt }

  pub Returns-if :
      (b : Bool) (m n : Action S A) → Returns Q m → Returns Q n → Returns Q (if b then m else n)
  Returns-if true m n h k = h
  Returns-if false m n h k = k

  -- With what the test says.
  pub Returns-if_with :
      (b : Bool) (m n : Action S A)
      → (b ≡ true → Returns Q m)
      → (b ≡ false → Returns Q n)
      → Returns Q (if b then m else n)
  Returns-if_with true m n h k = h refl
  Returns-if_with false m n h k = k refl

module _ {S A B : Type 0} (Q : B → Type 0) where
  continue_Returned :
      (r : Result A) (f : A → Action S B) (s : S)
      → ((a : A) → Returns Q (f a))
      → OfReturned Q (continue r f s).0
  continue_Returned (ok a) f s h = (h a).at s
  continue_Returned (err e) f s h = tt

module _ {S A B : Type 0} {Q : B → Type 0} where
  pub Returns-bind :
      (m : Action S A) (f : A → Action S B) → ((a : A) → Returns Q (f a)) → Returns Q (m >>= f)
  unfolding ◌>>=◌
  Returns-bind m f h = record { at = λ s. continue_Returned Q (m s).0 f (m s).1 h }

module _ {S A B : Type 0} (R : A → Type 0) (Q : B → Type 0) where
  continue_with :
      (r : Result A) (f : A → Action S B) (s : S)
      → OfReturned R r
      → ((a : A) → R a → Returns Q (f a))
      → OfReturned Q (continue r f s).0
  continue_with (ok a) f s x h = (h a x).at s
  continue_with (err e) f s x h = tt

  -- With what is known of the value that the first step returns.
  pub Returns-bind_with :
      (m : Action S A) (f : A → Action S B)
      → Returns R m
      → ((a : A) → R a → Returns Q (f a))
      → Returns Q (m >>= f)
  unfolding ◌>>=◌
  Returns-bind_with m f h k = record { at = λ s. continue_with (m s).0 f (m s).1 (h.at s) k }

pub ruleset returns_rules = (Returns-pure, Returns-raise, Returns-if, Returns-bind)

pub OfReturned-all : {A : Type 0} (Q : A → Type 0) (r : Result A) → ((a : A) → Q a) → OfReturned Q r
OfReturned-all Q (ok a) h = h a
OfReturned-all Q (err e) h = tt

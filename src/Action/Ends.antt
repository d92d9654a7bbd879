-- ===== src/Action/Ends.antt =====
-- What holds of the value and the state that a coroutine returns with, from any state.
use newhbot.Base.{◌≡◌, Bool, true, false, if◌then◌else◌}
use newhbot.Action.{Exn, Result, ok, err, Action, attempt, on_result, try_except, ◌>>=◌}
use newhbot.Action.Triple.{Post, Triple, Triple-bind}

-- `K` holds whenever the coroutine returns.
abbrev pub Ends : {S A : Type 0} → (A → S → Type 0) → Action S A → Type 0
Ends K m = Triple (λ s. Unit) m K (λ s. Unit)

any_Post : {S A : Type 0} (r : Result A) (s : S) → Post (λ a u. Unit) (λ u. Unit) r s
any_Post (ok a) s = tt
any_Post (err e) s = tt

module _ {S A B : Type 0} {K : B → S → Type 0} where
  pub Ends-bind :
      (m : Action S A) (f : A → Action S B) → ((a : A) → Ends K (f a)) → Ends K (m >>= f)
  Ends-bind m f h =
      Triple-bind {R = λ a s. Unit} m f (record { at = λ s p. any_Post (m s).0 (m s).1 }) h

  Ends-on_result :
      (r : Result A) (handler : Exn → Action S B) (body : A → Action S B)
      → ((e : Exn) → Ends K (handler e))
      → ((a : A) → Ends K (body a))
      → Ends K (on_result r handler body)
  unfolding on_result
  Ends-on_result (ok a) handler body h k = k a
  Ends-on_result (err e) handler body h k = h e

module _ {S B : Type 0} {K : B → S → Type 0} where
  pub Ends-if : (b : Bool) (m n : Action S B) → Ends K m → Ends K n → Ends K (if b then m else n)
  Ends-if true m n h k = h
  Ends-if false m n h k = k

module _ {S A B : Type 0} {K : B → S → Type 0} where
  pub Ends-try_except :
      (m : Action S A) (handler : Exn → Action S B) (body : A → Action S B)
      → ((e : Exn) → Ends K (handler e))
      → ((a : A) → Ends K (body a))
      → Ends K (try_except m handler body)
  unfolding try_except
  Ends-try_except m handler body h k =
      Ends-bind (attempt m) _ (λ r. Ends-on_result r handler body h k)

-- What a returned value and its state have, for a value that is known.
pub Post-use :
    {S A : Type 0} (K : A → S → Type 0) (r : Result A) (s : S) (a : A)
    → Post K (λ u. Unit) r s
    → r ≡ ok a
    → K a s
Post-use K r s a p e = rw e at p

pub ruleset ends_rules = (Ends-bind, Ends-if, Ends-try_except)

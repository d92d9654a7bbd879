-- ===== src/Action.antt =====
-- Coroutines that change a state and may raise. What was written before a raise stays written, so
-- the state comes back beside the exception too.
pub mod Moves
pub mod Triple
pub mod Returns
pub mod Ends
use newhbot.Base.{String, Bool, true, false, ◌&&◌, List, [], ◌∷◌, Option, none, some}

-- An exception: its class's name, `type(exc).__name__`, and `str(exc)`.
pub record Exn : Type 0 where
  pub type_name : String
  pub message : String

pub data Result (A : Type 0) : Type 0 where
  ok : A → Result A
  err : Exn → Result A

abbrev pub Action : Type 0 → Type 0 → Type 0
Action S A = S → Result A × S

module _ {S A : Type 0} where
  unfoldable pub pure : A → Action S A
  pure a s = (ok a, s)

  unfoldable pub raise : Exn → Action S A
  raise e s = (err e, s)

  unfoldable pub gets : (S → A) → Action S A
  gets f s = (ok (f s), s)

  -- The body of a `try`: an exception becomes a value.
  unfoldable pub attempt : Action S A → Action S (Result A)
  attempt m s = let (r, s') = m s in (ok r, s')

module _ {S : Type 0} where
  unfoldable pub modify : (S → S) → Action S Unit
  modify f s = (ok tt, f s)

module _ {S A B : Type 0} where
  abbrev pub continue : Result A → (A → Action S B) → Action S B
  continue (ok a) f s = f a s
  continue (err e) f s = (err e, s)

  infixl 10 ◌>>=◌ ◌>>◌
  unfoldable pub ◌>>=◌ : Action S A → (A → Action S B) → Action S B
  unfolding pure raise gets attempt modify
  ◌>>=◌ m f s = let (r, s') = m s in continue r f s'

  abbrev pub ◌>>◌ : Action S A → Action S B → Action S B
  m >> n = m >>= λ _. n

  -- What follows a `try`: its handler, or the code behind it.
  unfoldable pub on_result : Result A → (Exn → Action S B) → (A → Action S B) → Action S B
  on_result (ok a) handler body = body a
  on_result (err e) handler body = handler e

  unfoldable pub on_option : Option A → Action S B → (A → Action S B) → Action S B
  on_option none missing found = missing
  on_option (some a) missing found = found a

module _ {S A B : Type 0} where
  -- try: m; except Exception as e: handler e; else: body
  unfoldable pub try_except : Action S A → (Exn → Action S B) → (A → Action S B) → Action S B
  unfolding ◌>>=◌ on_result on_option
  try_except m handler body = do r ← attempt m; on_result r handler body

module _ {S : Type 0} where
  unfoldable pub when : Bool → Action S Unit → Action S Unit
  when true m = m
  when false m = pure tt

module _ {S A : Type 0} where
  unfoldable pub for_each : List A → (A → Action S Unit) → Action S Unit
  for_each [] body = pure tt
  for_each (x ∷ xs) body = body x >> for_each xs body

  -- A loop that goes on after a failure and tells whether no round failed.
  unfoldable pub all_succeed : List A → (A → Action S Bool) → Action S Bool
  all_succeed [] body = pure true
  all_succeed (x ∷ xs) body = do this ← body x; rest ← all_succeed xs body; pure (this && rest)

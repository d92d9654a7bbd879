-- ===== src/Action/Triple.antt =====
-- What a coroutine leaves behind, from what it started with: a triple with a condition on the
-- states after a return, and one on those after a raise.
use newhbot.Base.{◌≡◌, refl, Bool, true, false, if◌then◌else◌}
use newhbot.Action.Moves.{Moves, Same}
use newhbot.Action.{
  Exn, Result, ok, err, Action, gets, modify, ◌>>=◌, continue, attempt, on_result, try_except,
}

-- `Q` of the returned value and the state, or `E` of the state that a raise leaves.
abbrev pub Post : {S A : Type 0} → (A → S → Type 0) → (S → Type 0) → Result A → S → Type 0
Post Q E (ok a) s = Q a s
Post Q E (err e) s = E s

pub record Triple {S A : Type 0} (P : S → Type 0) (m : Action S A) (Q : A → S → Type 0)
    (E : S → Type 0) : Type 0 where
  pub at : (s : S) → P s → Post Q E (m s).0 (m s).1

module _ {S A B : Type 0} {E : S → Type 0} {R : A → S → Type 0} {Q : B → S → Type 0} where
  continue-Post :
      (r : Result A) (f : A → Action S B) (s : S)
      → ((a : A) → Triple (R a) (f a) Q E)
      → Post R E r s
      → Post Q E (continue r f s).0 (continue r f s).1
  continue-Post (ok a) f s h p = (h a).at s p
  continue-Post (err e) f s h p = p

  pub Triple-bind :
      {P : S → Type 0} (m : Action S A) (f : A → Action S B)
      → Triple P m R E
      → ((a : A) → Triple (R a) (f a) Q E)
      → Triple P (m >>= f) Q E
  unfolding ◌>>=◌
  Triple-bind m f h k = record { at = λ s p. continue-Post (m s).0 f (m s).1 k (h.at s p) }

module _ {S A : Type 0} {P E : S → Type 0} where
  pub Triple-gets : (f : S → A) → Triple P (gets f) (λ a s. (a ≡ f s) × P s) E
  unfolding gets
  Triple-gets f = record { at = λ s p. (refl, p) }

module _ {S A B : Type 0} {E H : S → Type 0} {R : A → S → Type 0} {Q : B → S → Type 0} where
  attempt-Post :
      (r : Result A) (handler : Exn → Action S B) (body : A → Action S B) (s : S)
      → ((e : Exn) → Triple H (handler e) Q E)
      → ((a : A) → Triple (R a) (body a) Q E)
      → Post R H r s
      → Post Q E (on_result r handler body s).0 (on_result r handler body s).1
  unfolding on_result
  attempt-Post (ok a) handler body s h k p = (k a).at s p
  attempt-Post (err e) handler body s h k p = (h e).at s p

  pub Triple-try_except :
      {P : S → Type 0} (m : Action S A) (handler : Exn → Action S B) (body : A → Action S B)
      → Triple P m R H
      → ((e : Exn) → Triple H (handler e) Q E)
      → ((a : A) → Triple (R a) (body a) Q E)
      → Triple P (try_except m handler body) Q E
  unfolding try_except attempt ◌>>=◌
  Triple-try_except m handler body h g k = record {
    at = λ s p. attempt-Post (m s).0 handler body (m s).1 g k (h.at s p);
  }

module _ {S A : Type 0} (E : S → Type 0) where
  always-Post : (r : Result A) (s : S) → E s → Post (λ a. E) E r s
  always-Post (ok a) s e = e
  always-Post (err x) s e = e

  always_of-Post : (r : Result A) (s : S) → Post (λ a. E) E r s → E s
  always_of-Post (ok a) s e = e
  always_of-Post (err x) s e = e

module _ {S A : Type 0} {P E : S → Type 0} where
  -- The same condition however `m` ends.
  pub Triple-always : (m : Action S A) → ((s : S) → P s → E (m s).1) → Triple P m (λ a. E) E
  Triple-always m h = record { at = λ s p. always-Post E (m s).0 (m s).1 (h s p) }

  pub Triple-after : (m : Action S A) → Triple P m (λ a. E) E → (s : S) → P s → E (m s).1
  Triple-after m h s p = always_of-Post E (m s).0 (m s).1 (h.at s p)

module _ {S A : Type 0} {P E : S → Type 0} {Q : A → S → Type 0} where
  pub Triple-if :
      (b : Bool) (m n : Action S A)
      → (b ≡ true → Triple P m Q E)
      → (b ≡ false → Triple P n Q E)
      → Triple P (if b then m else n) Q E
  Triple-if true m n h k = h refl
  Triple-if false m n h k = k refl

  -- A fact that the condition holds may be used as a hypothesis.
  pub Triple-given :
      {F : Type 0} (m : Action S A) → (F → Triple P m Q E) → Triple (λ s. F × P s) m Q E
  Triple-given m h = record { at = λ s (f, p). (h f).at s p }

  pub Triple-weaken :
      {P' : S → Type 0} (m : Action S A) → ((s : S) → P' s → P s) → Triple P m Q E → Triple P' m Q E
  Triple-weaken m k h = record { at = λ s p. h.at s (k s p) }

module _ {S A : Type 0} {P E : S → Type 0} where
  unchanged_Post : (r : Result A) (s : S) → P s → ((u : S) → P u → E u) → Post (λ a. P) E r s
  unchanged_Post (ok a) s p k = p
  unchanged_Post (err x) s p k = k s p

  -- A coroutine that leaves the state as it is.
  pub Triple-unchanged :
      (m : Action S A) → Moves (Same (λ s. s)) m → ((s : S) → P s → E s) → Triple P m (λ a. P) E
  Triple-unchanged m h k = record { at = λ s p. rw (h.at s) (unchanged_Post (m s).0 s p k) }

module _ {S : Type 0} {E : S → Type 0} where
  pub Triple-modify : (Q : S → Type 0) (f : S → S) → Triple (λ s. Q (f s)) (modify f) (λ _. Q) E
  unfolding modify
  Triple-modify Q f = record { at = λ s q. q }

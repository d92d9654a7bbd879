-- ===== src/Action/Moves.antt =====
-- How an action may change the state, as a preorder on states: one rule for each way to build an
-- action.
use newhbot.Base.{
  ◌≡◌, refl, ◌∙◌, Bool, true, false, ◌&&◌, if◌then◌else◌, List, [], ◌∷◌, Option, none, some,
}
use newhbot.Action.{
  Exn, Result, ok, err, Action, pure, raise, gets, attempt, ◌>>=◌, on_result, on_option, try_except,
  when, for_each, all_succeed, continue,
}

pub record Preorder (S : Type 0) : Type 1 where
  pub rel : S → S → Type 0
  pub rel_refl : (s : S) → rel s s
  pub rel_trans : (s t u : S) → rel s t → rel t u → rel s u

-- What `f` reads of the state stays the same.
abbrev pub Same : {S V : Type 0} → (S → V) → Preorder S
Same f = record { rel = λ s t. f t ≡ f s; rel_refl = λ s. refl; rel_trans = λ s t u p q. q ∙ p }

-- A predicate that held keeps holding.
abbrev pub Keeping : {S : Type 0} → (S → Type 0) → Preorder S
Keeping P = record {
  rel = λ s t. P s → P t;
  rel_refl = λ s h. h;
  rel_trans = λ s t u f g h. g (f h);
}

-- Whether it returns or raises, `m` moves the state along the preorder.
pub record Moves {S A : Type 0} (P : Preorder S) (m : Action S A) : Type 0 where
  pub at : (s : S) → P.rel s (m s).1

module _ {S A : Type 0} {P : Preorder S} where
  pub Moves-pure : (a : A) → Moves P (pure a)
  unfolding pure
  Moves-pure a = record { at = P.rel_refl }

  pub Moves-raise : (e : Exn) → Moves P (raise {A = A} e)
  unfolding raise
  Moves-raise e = record { at = P.rel_refl }

  pub Moves-gets : (f : S → A) → Moves P (gets f)
  unfolding gets
  Moves-gets f = record { at = P.rel_refl }

  pub Moves-attempt : (m : Action S A) → Moves P m → Moves P (attempt m)
  unfolding attempt
  Moves-attempt m h = record { at = h.at }

  pub Moves-if :
      (b : Bool) (m n : Action S A) → Moves P m → Moves P n → Moves P (if b then m else n)
  Moves-if true m n hm hn = hm
  Moves-if false m n hm hn = hn

module _ {S A B : Type 0} {P : Preorder S} where
  Moves-continue :
      (r : Result A) (f : A → Action S B) → ((a : A) → Moves P (f a)) → Moves P (continue r f)
  Moves-continue (ok a) f h = h a
  Moves-continue (err e) f h = record { at = P.rel_refl }

  pub Moves-bind :
      (m : Action S A) (f : A → Action S B)
      → Moves P m
      → ((a : A) → Moves P (f a))
      → Moves P (m >>= f)
  unfolding ◌>>=◌
  Moves-bind m f hm hf = record {
    at = λ s. let (r, s') = m s in P.rel_trans s s' _ (hm.at s) ((Moves-continue r f hf).at s');
  }

  pub Moves-on_result :
      (r : Result A) (handler : Exn → Action S B) (body : A → Action S B)
      → ((e : Exn) → Moves P (handler e))
      → ((a : A) → Moves P (body a))
      → Moves P (on_result r handler body)
  unfolding on_result
  Moves-on_result (ok a) handler body h g = g a
  Moves-on_result (err e) handler body h g = h e

  pub Moves-on_option :
      (o : Option A) (missing : Action S B) (found : A → Action S B)
      → Moves P missing
      → ((a : A) → Moves P (found a))
      → Moves P (on_option o missing found)
  unfolding on_option
  Moves-on_option none missing found h g = h
  Moves-on_option (some a) missing found h g = g a

module _ {S A B : Type 0} {P : Preorder S} where
  pub Moves-try_except :
      (m : Action S A) (handler : Exn → Action S B) (body : A → Action S B)
      → Moves P m
      → ((e : Exn) → Moves P (handler e))
      → ((a : A) → Moves P (body a))
      → Moves P (try_except m handler body)
  unfolding try_except
  Moves-try_except m handler body hm h g =
      Moves-bind (attempt m) (λ r. on_result r handler body) (Moves-attempt m hm)
        (λ r. Moves-on_result r handler body h g)

module _ {S : Type 0} {P : Preorder S} where
  pub Moves-when : (b : Bool) (m : Action S Unit) → Moves P m → Moves P (when b m)
  unfolding when
  Moves-when true m h = h
  Moves-when false m h = Moves-pure tt

module _ {S A : Type 0} {P : Preorder S} where
  pub Moves-for_each :
      (xs : List A) (body : A → Action S Unit)
      → ((a : A) → Moves P (body a))
      → Moves P (for_each xs body)
  unfolding for_each
  Moves-for_each [] body h = Moves-pure tt
  Moves-for_each (x ∷ xs) body h =
      Moves-bind (body x) (λ _. for_each xs body) (h x) (λ _. Moves-for_each xs body h)

  pub Moves-all_succeed :
      (xs : List A) (body : A → Action S Bool)
      → ((a : A) → Moves P (body a))
      → Moves P (all_succeed xs body)
  unfolding all_succeed
  Moves-all_succeed [] body h = Moves-pure true
  Moves-all_succeed (x ∷ xs) body h = Moves-bind (body x) _ (h x) (λ this.
      Moves-bind (all_succeed xs body) _ (Moves-all_succeed xs body h)
        (λ rest. Moves-pure (this && rest)))

pub ruleset moves_rules = (
  Moves-pure, Moves-raise, Moves-gets, Moves-attempt, Moves-if, Moves-bind, Moves-on_result,
  Moves-on_option, Moves-try_except, Moves-when, Moves-for_each, Moves-all_succeed,
)

-- ===== src/Repositories/FillOnce.antt =====
-- FillRepository: a fill of the exchange is recorded once.
use newhbot.Base.{
  ◌≡◌, refl, String, eq_refl, Bool, true, false, any, Bool-cases, any-append_last, inl, inr, Option,
  none, some,
}
use newhbot.Action.{Exn, ok, err}
use newhbot.Models.{Fill}
use newhbot.World.{World}
use newhbot.Repositories.Trades.{is_text, same_text, refuses, add_fill}

same_text_refl : (t : Option String) → is_text t ≡ true → same_text t t ≡ true
same_text_refl none e = cc
same_text_refl (some t) e = eq_refl t

abbrev Recorded : Fill → World → Type 0
Recorded f s = any (λ (r : Fill). same_text r.exchange_fill_id f.exchange_fill_id) s.db.fills ≡ true

raised : {e : Exn} (b : Bool) → err e ≡ ok b → ⊥
raised b e = cc

known :
    (g : Fill) (s : World)
    → is_text g.exchange_fill_id ≡ true
    → Recorded g s
    → ((add_fill g s).0 ≡ ok false) × ((add_fill g s).1 ≡ s)
unfolding add_fill
known g s t h = rw (t, h) (refl, refl)

-- Whatever `add` answered, if it did not raise then a fill of that exchange id is there.
recorded :
    (f : Fill) (s : World) (b : Bool)
    → is_text f.exchange_fill_id ≡ true
    → (add_fill f s).0 ≡ ok b
    → Recorded f (add_fill f s).1
unfolding add_fill
recorded f s b t e =
    elim (Bool-cases
      (any (λ (r : Fill). same_text r.exchange_fill_id f.exchange_fill_id) s.db.fills)) [
        | inl there ↦ rw (t, there) there
        | inr absent ↦ elim (Bool-cases (refuses f s.db.fills s.db.orders)) [
          | inl bad ↦ absurd (raised b (rw (t, absent, bad) at e))
          | inr good ↦
              rw (t, absent, good)
                (any-append_last (λ (r : Fill). same_text r.exchange_fill_id f.exchange_fill_id)
                  s.db.fills f (same_text_refl f.exchange_fill_id t))
        ]
      ]

-- A fill with an exchange id that was recorded without an exception, and any later fill of the same
-- id: the later one is answered as not created, and changes nothing.
pub add_fill_once :
    (f g : Fill) (s : World) (b : Bool)
    → is_text f.exchange_fill_id ≡ true
    → g.exchange_fill_id ≡ f.exchange_fill_id
    → (add_fill f s).0 ≡ ok b
    → ((add_fill g (add_fill f s).1).0 ≡ ok false)
      × ((add_fill g (add_fill f s).1).1 ≡ (add_fill f s).1)
add_fill_once f g s b t same e = known g (add_fill f s).1 (rw same t) (rw same (recorded f s b t e))

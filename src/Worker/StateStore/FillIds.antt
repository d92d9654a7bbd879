-- ===== src/Worker/StateStore/FillIds.antt =====
-- state_store.py: the ids of the fills.
use newhbot.Base.{
  ◌≡◌, refl, sym, ℕ, ◌≤◌, String, str_eq, eq_iff, eq_refl, Bool, true, false, any, count_if,
  Bool-cases, ◌⊎◌, inl, inr, Option, none, some, List, [], ◌∷◌, ◌++◌, arith,
}
use newhbot.Worker.Mapping.{ExchangeFill}
use newhbot.Worker.StateStore.{
  ExchangeStateStore, Event, Update, new_store, on_event, on_updates, apply_ws_order, apply_ws_fill,
  apply_ws_position, apply_rest_snapshot, resync_from_rest, mark_conflict, mark_ws, go_live,
  is_remembered, remember_fill, remember_fills, with_fills,
}

-- How many of the remembered fills have the id.
abbrev pub times_remembered : String → ExchangeStateStore → ℕ
times_remembered id s = count_if (λ (f : ExchangeFill). str_eq f.fill_id id) s.fills

abbrev noted : String → ExchangeStateStore → Bool
noted id s = any (λ t. str_eq t id) s.fill_ids

-- The id is noted before a fill of it is remembered.
record Once (id : String) (s : ExchangeStateStore) : Type 0 where
  noted_or_absent :
      ((noted id s ≡ true) × (times_remembered id s ≤ 1))
      ⊎ ((noted id s ≡ false) × (times_remembered id s ≡ 0))

module _ {A : Type 0} (p : A → Bool) where
  count_if-last_other :
      (xs : List A) (x : A) → p x ≡ false → count_if p (xs ++ x ∷ []) ≡ count_if p xs
  count_if-last_other [] x e = ground arith
  count_if-last_other (y ∷ ys) x e = ground (arith, count_if-last_other ys x e)

  count_if-last_same :
      (xs : List A) (x : A) → p x ≡ true → count_if p xs ≡ 0 → count_if p (xs ++ x ∷ []) ≤ 1
  count_if-last_same [] x e h = ground arith
  count_if-last_same (y ∷ ys) x e h = elim (Bool-cases (p y)) [
    | inl yes_y ↦ ground (arith, h)
    | inr no_y ↦ rw no_y (count_if-last_same ys x e (rw no_y at h))
  ]

named_same : (a b : String) → str_eq a b ≡ true → a ≡ b
named_same a b e = ground (arith, e, eq_iff a b)

module _ (id : String) (named : str_eq id "" ≡ false) where
  remember_same :
      (f : ExchangeFill) (s : ExchangeStateStore)
      → f.fill_id ≡ id
      → Once id s
      → Once id (remember_fill f s)
  unfolding remember_fill is_remembered
  remember_same f s e h = elim h.noted_or_absent [
    | inl there ↦ record { noted_or_absent = inl (rw (e, named, there.0) there) }
    | inr absent ↦ record {
      noted_or_absent = inl (
          rw (e, named, absent.0, eq_refl id)
            (
              refl,
              count_if-last_same (λ (g : ExchangeFill). str_eq g.fill_id id) s.fills
                  (record f { fill_id = id }) (eq_refl id) absent.1,
            ));
    }
  ]

  noted_as_before :
      (f : ExchangeFill) (s : ExchangeStateStore)
      → str_eq f.fill_id id ≡ false
      → noted id (remember_fill f s) ≡ noted id s
  unfolding remember_fill
  noted_as_before f s e = ground (arith, e)

  times_as_before :
      (f : ExchangeFill) (s : ExchangeStateStore)
      → str_eq f.fill_id id ≡ false
      → times_remembered id (remember_fill f s) ≡ times_remembered id s
  unfolding remember_fill
  times_as_before f s e =
      ground (arith, count_if-last_other (λ (g : ExchangeFill). str_eq g.fill_id id) s.fills f e)

  remember_other :
      (f : ExchangeFill) (s : ExchangeStateStore)
      → str_eq f.fill_id id ≡ false
      → Once id s
      → Once id (remember_fill f s)
  remember_other f s e h = record {
    noted_or_absent = rw (noted_as_before f s e, times_as_before f s e) h.noted_or_absent;
  }

  remember_fill-Once :
      (f : ExchangeFill) (s : ExchangeStateStore) → Once id s → Once id (remember_fill f s)
  remember_fill-Once f s h = elim (Bool-cases (str_eq f.fill_id id)) [
    | inl same ↦ remember_same f s (named_same f.fill_id id same) h
    | inr other ↦ remember_other f s other h
  ]

  remember_fills-Once :
      (fs : List ExchangeFill) (s : ExchangeStateStore) → Once id s → Once id (remember_fills fs s)
  unfolding remember_fills
  remember_fills-Once [] s h = h
  remember_fills-Once (f ∷ fs) s h =
      remember_fills-Once fs (remember_fill f s) (remember_fill-Once f s h)

  with_fills-Once :
      (fs : Option (List ExchangeFill)) (s : ExchangeStateStore)
      → Once id s
      → Once id (with_fills fs s)
  unfolding with_fills
  with_fills-Once none s h = h
  with_fills-Once (some fs) s h =
      remember_fills-Once fs _ (record { noted_or_absent = inr (refl, refl) })

  -- Only the fills and their ids count.
  SameFills : ExchangeStateStore → ExchangeStateStore → Type 0
  SameFills s t = (s.fills ≡ t.fills) × (s.fill_ids ≡ t.fill_ids)

  same_fills : (s t : ExchangeStateStore) → SameFills s t → Once id s → Once id t
  unfolding SameFills
  same_fills s t (e, k) h = record { noted_or_absent = rw (sym e, sym k) h.noted_or_absent }

  on_event-Once : (e : Event) (s : ExchangeStateStore) → Once id s → Once id (on_event e s)
  unfolding on_event SameFills apply_ws_order apply_ws_fill apply_ws_position mark_conflict mark_ws
      go_live
  on_event-Once (Event.ws_order o) s h = same_fills s _ (ground arith, ground arith) h
  on_event-Once (Event.ws_fill f p) s h = elim (Bool-cases (is_remembered f s)) [
    | inl known ↦ rw known h
    | inr new ↦
        rw new
          (same_fills (remember_fill f s) _ (ground arith, ground arith) (remember_fill-Once f s h))
  ]
  on_event-Once (Event.ws_position p) s h = same_fills s _ (ground arith, ground arith) h
  on_event-Once (Event.conflicted r) s h = same_fills s _ (refl, refl) h
  on_event-Once (Event.ws true) s h = same_fills s _ (refl, refl) h
  on_event-Once (Event.ws false) s h = same_fills s _ (refl, refl) h

  on_updates-Once :
      (us : List Update) (s : ExchangeStateStore) → Once id s → Once id (on_updates us s)
  unfolding on_updates apply_rest_snapshot resync_from_rest
  on_updates-Once [] s h = h
  on_updates-Once (Update.event e ∷ us) s h =
      on_updates-Once us (on_event e s) (on_event-Once e s h)
  on_updates-Once (Update.rest ps os fs ∷ us) s h =
      on_updates-Once us _ (record { noted_or_absent = (with_fills-Once fs s h).noted_or_absent })
  on_updates-Once (Update.resynced ps os fs ∷ us) s h =
      on_updates-Once us _ (record { noted_or_absent = (with_fills-Once fs s h).noted_or_absent })

  -- Whatever sequence of snapshots and events a new store is told, it remembers at most one fill of
  -- an id, unless the id is empty.
  pub fill_remembered_once : (us : List Update) → times_remembered id (on_updates us new_store) ≤ 1
  fill_remembered_once us =
      elim (on_updates-Once us new_store
        (record { noted_or_absent = inr (refl, refl) })).noted_or_absent [
          | inl there ↦ there.1
          | inr absent ↦ ground (arith, absent.1)
        ]

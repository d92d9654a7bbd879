-- ===== src/Worker/StateStore/Resync.antt =====
-- state_store.py: what a snapshot leaves of the time before it.
use newhbot.Base.{◌≡◌, refl, some, List, [], ◌∷◌, arith}
use newhbot.Worker.Mapping.{ExchangePosition, ExchangeOrder, ExchangeFill}
use newhbot.Worker.StateStore.{
  ExchangeStateStore, new_store, apply_rest_snapshot, resync_from_rest, is_remembered,
  remember_fill, remember_fills, with_fills,
}

SameFills : ExchangeStateStore → ExchangeStateStore → Type 0
SameFills s t = (s.fills ≡ t.fills) × (s.fill_ids ≡ t.fill_ids)

remember_fill-SameFills :
    (f : ExchangeFill) (s t : ExchangeStateStore)
    → SameFills s t
    → SameFills (remember_fill f s) (remember_fill f t)
unfolding SameFills remember_fill is_remembered
remember_fill-SameFills f s t (e, k) = (ground (arith, e, k), ground (arith, e, k))

remember_fills-SameFills :
    (fs : List ExchangeFill) (s t : ExchangeStateStore)
    → SameFills s t
    → SameFills (remember_fills fs s) (remember_fills fs t)
unfolding remember_fills
remember_fills-SameFills [] s t h = h
remember_fills-SameFills (f ∷ fs) s t h =
    remember_fills-SameFills fs (remember_fill f s) (remember_fill f t)
      (remember_fill-SameFills f s t h)

remember_fill-ws :
    (f : ExchangeFill) (s : ExchangeStateStore) → (remember_fill f s).ws_connected ≡ s.ws_connected
unfolding remember_fill
remember_fill-ws f s = ground arith

remember_fills-ws :
    (fs : List ExchangeFill) (s : ExchangeStateStore)
    → (remember_fills fs s).ws_connected ≡ s.ws_connected
unfolding remember_fills
remember_fills-ws [] s = refl
remember_fills-ws (f ∷ fs) s = rw (remember_fills-ws fs (remember_fill f s)) (remember_fill-ws f s)

abbrev forgotten : ExchangeStateStore → ExchangeStateStore
forgotten s = record s { fills = []; fill_ids = [] }

-- A full snapshot makes of any store what it makes of a new one: nothing of the time before is left
-- but whether the socket is connected.
pub resync_forgets :
    (ps : List ExchangePosition) (os : List ExchangeOrder) (fs : List ExchangeFill)
    (s : ExchangeStateStore)
    → resync_from_rest ps os (some fs) s
      ≡ record (resync_from_rest ps os (some fs) new_store) { ws_connected = s.ws_connected }
unfolding resync_from_rest apply_rest_snapshot with_fills SameFills
resync_forgets ps os fs s =
    let same = remember_fills-SameFills fs (forgotten s) new_store (refl, refl) in
    rw (remember_fills-ws fs (forgotten s), same.0, same.1) refl

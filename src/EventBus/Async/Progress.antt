-- ===== src/EventBus/Async/Progress.antt =====
-- The bus of common/eventbus/event_bus.go never gets stuck.
use dapr_components_contrib.Prelude.{
  List, [], ◌∷◌, ◌≡◌, ◌≢◌, ◌⊎◌, refl, ap, none, some, Bool-cases, Option-cases, arith, length, inl,
  inr,
}
use dapr_components_contrib.EventBus.{Handler}
use dapr_components_contrib.EventBus.Async.{
  Waiter, World, idle, Step, begin, call_sync, spawn_free, hand_on, lock_handler, go_on, end,
  finish, Reach,
}
use dapr_components_contrib.EventBus.Async.Serial.{
  serial_runs, at_mutex, IsOrdered, Reach-IsOrdered,
}

-- The bus is not idle.
abbrev pub IsBusy : World → Type 0
IsBusy s = (s.current ≢ none) ⊎ (s.wg ≢ 0)

abbrev pub IsWork : {s t : World} → Step s t → Type 0
IsWork (begin hs c e) = ⊥
IsWork (call_sync h hs c a e) = Unit
IsWork (spawn_free h hs c a x e) = Unit
IsWork (hand_on h hs c a x e) = Unit
IsWork (lock_handler front back w p l e) = Unit
IsWork (go_on front back w p c e) = Unit
IsWork (end c e) = Unit
IsWork (finish front back h p e) = Unit

-- A step other than the arrival of a new message
abbrev pub Progress : World → Type 0
Progress s = (t : World) × (st : Step s t) × IsWork st

publisher_goes_on : (s : World) (hs : List Handler) → s.current ≡ some hs → Progress s
publisher_goes_on s [] c = (record s { current = none }, end c refl, tt)
publisher_goes_on s (h ∷ hs) c = elim (Bool-cases h.async) [
  | inr a ↦ (_, call_sync h hs c a refl, tt)
  | inl a ↦ elim (Bool-cases h.transactional) [
    | inl x ↦ (_, hand_on h hs c a x refl, tt)
    | inr x ↦ (_, spawn_free h hs c a x refl, tt)
  ]
]

-- With no callback to finish and nobody past a mutex, every mutex is free.
waiter_goes_on :
    (s : World) (ws : List Waiter)
    → IsOrdered s
    → s.waiting ≡ ws
    → s.running ≡ []
    → s.admitted ≡ []
    → s.wg ≢ 0
    → Progress s
unfolding serial_runs at_mutex
waiter_goes_on s [] v p q r n =
    absurd (omega (arith, v.counted, ap length p, ap length q, ap length r, n))
waiter_goes_on s (w ∷ ws) v p q r n = (
  _,
  lock_handler [] ws w p
      (ground (
        arith,
        v.exclusive w.handler.mutex,
        ap (serial_runs w.handler.mutex) q,
        ap (at_mutex w.handler.mutex) r,
      ))
      refl,
  tt,
)

admitted_goes_on :
    (s : World) (ws : List Waiter)
    → IsOrdered s
    → s.admitted ≡ ws
    → s.current ≡ none
    → s.running ≡ []
    → s.wg ≢ 0
    → Progress s
admitted_goes_on s [] v p c q n = waiter_goes_on s s.waiting v refl q p n
admitted_goes_on s (w ∷ ws) v p c q n = (_, go_on [] ws w p c refl, tt)

callback_goes_on :
    (s : World) (hs : List Handler)
    → IsOrdered s
    → s.running ≡ hs
    → s.current ≡ none
    → s.wg ≢ 0
    → Progress s
callback_goes_on s [] v p c n = admitted_goes_on s s.admitted v refl c p n
callback_goes_on s (h ∷ hs) v p c n = (_, finish [] hs h p refl, tt)

-- Whenever the bus has something to do, a step of it is possible: no interleaving of the two kinds of
-- locks is a deadlock, as long as the callbacks return.
pub progress : {s : World} → Reach idle s → IsBusy s → Progress s
progress {s} r b = elim (Option-cases s.current) [
  | inr (hs, c) ↦ publisher_goes_on s hs c
  | inl c ↦ callback_goes_on s s.running (Reach-IsOrdered r) refl c (ground (arith, b))
]

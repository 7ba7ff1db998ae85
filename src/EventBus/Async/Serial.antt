-- ===== src/EventBus/Async/Serial.antt =====
-- One goroutine at a time for a transactional handler, and what the counter of `wg` counts
-- (common/eventbus/event_bus.go).
use dapr_components_contrib.Prelude.{
  ℕ, suc, ◌+◌, ◌≤◌, List, [], ◌∷◌, ◌++◌, ◌≡◌, refl, ap, sym, subst, Bool, true, false, Bool-cases,
  arith, length, ◌==◌, if◌then◌else◌, inl, inr, All,
}
use dapr_components_contrib.EventBus.{Handler}
use dapr_components_contrib.EventBus.Async.{
  Waiter, World, idle, set_lock, Step, begin, call_sync, spawn_free, hand_on, lock_handler, go_on,
  end, finish, Reach, here, next,
}

-- 1 for a transactional handler with the mutex i, 0 for another
abbrev pub serial_run : ℕ → Handler → ℕ
serial_run i h = if h.transactional then (if h.mutex == i then 1 else 0) else 0

-- how many of the handlers are transactional and have the mutex i
unfoldable pub serial_runs : ℕ → List Handler → ℕ
serial_runs i [] = 0
serial_runs i (h ∷ hs) = serial_run i h + serial_runs i hs

-- how many of the waiters are at the mutex i
unfoldable pub at_mutex : ℕ → List Waiter → ℕ
at_mutex i [] = 0
at_mutex i (w ∷ ws) = (if w.handler.mutex == i then 1 else 0) + at_mutex i ws

serial_runs-append :
    (i : ℕ) (front back : List Handler) (h : Handler)
    → serial_runs i (front ++ h ∷ back) ≡ serial_run i h + serial_runs i (front ++ back)
unfolding serial_runs
serial_runs-append i [] back h = refl
serial_runs-append i (g ∷ front) back h = omega (arith, serial_runs-append i front back h)

at_mutex-append :
    (i : ℕ) (front back : List Waiter) (w : Waiter)
    → at_mutex i (front ++ w ∷ back)
      ≡ (if w.handler.mutex == i then 1 else 0) + at_mutex i (front ++ back)
unfolding at_mutex
at_mutex-append i [] back w = refl
at_mutex-append i (v ∷ front) back w = omega (arith, at_mutex-append i front back w)

length_middle :
    {A : Type 0} (front back : List A) (x : A)
    → length (front ++ x ∷ back) ≡ suc (length (front ++ back))
length_middle [] back x = refl
length_middle (y ∷ front) back x = ap suc (length_middle front back x)

abbrev pub IsSerial : Waiter → Type 0
IsSerial w = w.handler.transactional ≡ true

All-middle :
    (front back : List Waiter) (w : Waiter)
    → All IsSerial (front ++ w ∷ back)
    → IsSerial w × All IsSerial (front ++ back)
All-middle [] back w a = a
All-middle (v ∷ front) back w a = let (x, y) = All-middle front back w a.1 in (x, (a.0, y))

pub record IsOrdered (s : World) : Type 0 where
  pub counted : s.wg ≡ length s.running + length s.waiting + length s.admitted
  pub serial_waiting : All IsSerial s.waiting
  pub serial_admitted : All IsSerial s.admitted
  pub exclusive :
      (i : ℕ) → serial_runs i s.running + at_mutex i s.admitted ≡ (if s.locked i then 1 else 0)

-- The moment a mutex that is free is locked, or the one holder gives it back.
locked_once :
    (locked : ℕ → Bool) (m i n : ℕ)
    → n ≡ (if locked i then 1 else 0)
    → locked m ≡ false
    → (if m == i then 1 else 0) + n ≡ (if set_lock m true locked i then 1 else 0)
locked_once locked m i n e l = grind arith

unlocked_once :
    (locked : ℕ → Bool) (m i n : ℕ)
    → (if m == i then 1 else 0) + n ≡ (if locked i then 1 else 0)
    → n ≡ (if set_lock m false locked i then 1 else 0)
unlocked_once locked m i n e = grind arith

unlocked_after :
    (locked : ℕ → Bool) (h : Handler) (i n : ℕ)
    → serial_run i h + n ≡ (if locked i then 1 else 0)
    → n ≡ (if (if h.transactional then set_lock h.mutex false locked else locked) i then 1 else 0)
unlocked_after locked h i n e = elim (Bool-cases h.transactional) [
  | inl x ↦ rw x (unlocked_once locked h.mutex i n (rw x at e))
  | inr x ↦ let k : n ≡ (if locked i then 1 else 0) = ground (arith, e) in rw x k
]

Step-IsOrdered : {s t : World} → Step s t → IsOrdered s → IsOrdered t
unfolding serial_runs at_mutex
Step-IsOrdered (begin hs c e) v = subst IsOrdered (sym e) (record {
  counted = v.counted;
  serial_waiting = v.serial_waiting;
  serial_admitted = v.serial_admitted;
  exclusive = v.exclusive;
})
Step-IsOrdered (call_sync h hs c a e) v = subst IsOrdered (sym e) (record {
  counted = v.counted;
  serial_waiting = v.serial_waiting;
  serial_admitted = v.serial_admitted;
  exclusive = v.exclusive;
})
Step-IsOrdered (spawn_free h hs c a x e) v = subst IsOrdered (sym e) (record {
  counted = omega (arith, v.counted);
  serial_waiting = v.serial_waiting;
  serial_admitted = v.serial_admitted;
  exclusive = λ i. ground (arith, v.exclusive i);
})
Step-IsOrdered (hand_on h hs c a x e) v = subst IsOrdered (sym e) (record {
  counted = omega (arith, v.counted);
  serial_waiting = (x, v.serial_waiting);
  serial_admitted = v.serial_admitted;
  exclusive = v.exclusive;
})
Step-IsOrdered {s = s} (lock_handler front back w p l e) v =
    let (x, rest) = All-middle front back w (subst (λ ws. All IsSerial ws) p v.serial_waiting) in
    subst IsOrdered (sym e) (record {
      counted = omega (arith, v.counted, ap length p, length_middle front back w);
      serial_waiting = rest;
      serial_admitted = (x, v.serial_admitted);
      exclusive = λ i. omega (
        arith,
        locked_once s.locked w.handler.mutex i (serial_runs i s.running + at_mutex i s.admitted)
            (v.exclusive i) l,
      );
    })
Step-IsOrdered {s = s} (go_on front back w p c e) v =
    let (x, rest) = All-middle front back w (subst (λ ws. All IsSerial ws) p v.serial_admitted) in
    subst IsOrdered (sym e) (record {
      counted = omega (arith, v.counted, ap length p, length_middle front back w);
      serial_waiting = v.serial_waiting;
      serial_admitted = rest;
      exclusive =
          λ i. ground (arith, x, v.exclusive i, ap (at_mutex i) p, at_mutex-append i front back w);
    })
Step-IsOrdered (end c e) v = subst IsOrdered (sym e) (record {
  counted = v.counted;
  serial_waiting = v.serial_waiting;
  serial_admitted = v.serial_admitted;
  exclusive = v.exclusive;
})
Step-IsOrdered {s = s} (finish front back h p e) v = subst IsOrdered (sym e) (record {
  counted = omega (arith, v.counted, ap length p, length_middle front back h);
  serial_waiting = v.serial_waiting;
  serial_admitted = v.serial_admitted;
  exclusive = λ i.
      unlocked_after s.locked h i (serial_runs i (front ++ back) + at_mutex i s.admitted)
        (omega (arith, v.exclusive i, ap (serial_runs i) p, serial_runs-append i front back h));
})

pub Reach-IsOrdered : {s : World} → Reach idle s → IsOrdered s
unfolding serial_runs at_mutex
Reach-IsOrdered here = record {
  counted = refl;
  serial_waiting = tt;
  serial_admitted = tt;
  exclusive = λ i. refl;
}
Reach-IsOrdered (next r st) = Step-IsOrdered st (Reach-IsOrdered r)

-- However the publishers and the callbacks interleave, at most one goroutine runs the callback of a
-- transactional handler at a time.
pub one_at_a_time : {s : World} → Reach idle s → (i : ℕ) → serial_runs i s.running ≤ 1
one_at_a_time {s} r i = ground (arith, (Reach-IsOrdered r).exclusive i)

nil_of_length : {A : Type 0} (xs : List A) → length xs ≡ 0 → xs ≡ []
nil_of_length [] e = refl
nil_of_length (x ∷ xs) e = absurd (omega (arith, e))

-- When the counter that WaitAsync waits for is 0, no goroutine that Publish has started is left: none runs a
-- callback, waits for the lock of its handler, or is about to be started by a publisher that has counted it.
-- A publisher that has not counted its next handler yet, and a callback that is no goroutine, are not covered.
pub wait_async_lem :
    {s : World} → Reach idle s → s.wg ≡ 0 → (s.running ≡ []) × (s.waiting ≡ []) × (s.admitted ≡ [])
wait_async_lem {s} r e = (
  nil_of_length s.running (omega (arith, (Reach-IsOrdered r).counted, e)),
  nil_of_length s.waiting (omega (arith, (Reach-IsOrdered r).counted, e)),
  nil_of_length s.admitted (omega (arith, (Reach-IsOrdered r).counted, e)),
)

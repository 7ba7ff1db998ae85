-- ===== src/EventBus/Async.antt =====
-- Publish and `doPublishAsync` of common/eventbus/event_bus.go as interleaved steps: the publishers,
-- which hand `bus.lock` on while they wait for the mutex of a transactional handler, the
-- goroutines that run the callbacks, and the counter `wg` of WaitAsync.
pub mod Serial
pub mod Progress
use dapr_components_contrib.Prelude.{
  ℕ, suc, ◌+◌, ◌-◌, ◌≤◌, List, [], ◌∷◌, ◌++◌, ◌≡◌, refl, ap, Option, none, some, Bool, true, false,
  Bool-cases, arith, length, length-append, ◌==◌, if◌then◌else◌, inl, inr,
}
use dapr_components_contrib.EventBus.{Handler}

-- A publisher past `wg.Add`, at a transactional handler, with the handlers it still has to serve
pub record Waiter : Type 0 where
  pub handler : Handler
  pub todo : List Handler

pub record World : Type 0 where
  -- the handlers that the publisher with `bus.lock` still has to serve; none when nobody has it
  pub current : Option (List Handler)
  -- the publishers at `handler.Lock()`, and those past it that wait for `bus.lock`
  pub waiting : List Waiter
  pub admitted : List Waiter
  -- the handlers whose goroutines run
  pub running : List Handler
  -- the mutexes that are locked, and the counter of `wg`
  pub locked : ℕ → Bool
  pub wg : ℕ

abbrev pub idle : World
idle = record {
  current = none;
  waiting = [];
  admitted = [];
  running = [];
  locked = λ i. false;
  wg = 0;
}

-- locked, after `Lock` or `Unlock` of the mutex i
abbrev pub set_lock : ℕ → Bool → (ℕ → Bool) → ℕ → Bool
set_lock i b locked j = if i == j then b else locked j

pub data Step (s t : World) : Type 0 where
  -- Publish takes `bus.lock`; `hs` is what getCallbacks copies.
  begin : (hs : List Handler) → s.current ≡ none → t ≡ record s { current = some hs } → Step s t
  -- a handler that is not asynchronous is called while `bus.lock` is held
  call_sync :
      (h : Handler) (hs : List Handler)
      → s.current ≡ some (h ∷ hs)
      → h.async ≡ false
      → t ≡ record s { current = some hs }
      → Step s t
  spawn_free :
      (h : Handler) (hs : List Handler)
      → s.current ≡ some (h ∷ hs)
      → h.async ≡ true
      → h.transactional ≡ false
      → t ≡ record s { current = some hs; running = h ∷ s.running; wg = s.wg + 1 }
      → Step s t
  -- `wg.Add(1)`, and `bus.lock.Unlock()` before the wait
  hand_on :
      (h : Handler) (hs : List Handler)
      → s.current ≡ some (h ∷ hs)
      → h.async ≡ true
      → h.transactional ≡ true
      → t ≡ record s {
        current = none;
        waiting = record { handler = h; todo = hs } ∷ s.waiting;
        wg = s.wg + 1;
      }
      → Step s t
  -- `handler.Lock()`
  lock_handler :
      (front back : List Waiter) (w : Waiter)
      → s.waiting ≡ front ++ w ∷ back
      → s.locked w.handler.mutex ≡ false
      → t ≡ record s {
        waiting = front ++ back;
        admitted = w ∷ s.admitted;
        locked = set_lock w.handler.mutex true s.locked;
      }
      → Step s t
  -- `bus.lock.Lock()`, and the goroutine
  go_on :
      (front back : List Waiter) (w : Waiter)
      → s.admitted ≡ front ++ w ∷ back
      → s.current ≡ none
      → t ≡ record s {
        current = some w.todo;
        admitted = front ++ back;
        running = w.handler ∷ s.running;
      }
      → Step s t
  -- Publish returns.
  end : s.current ≡ some [] → t ≡ record s { current = none } → Step s t
  -- doPublishAsync ends: `handler.Unlock()` if it is transactional, and `wg.Done()`
  finish :
      (front back : List Handler) (h : Handler)
      → s.running ≡ front ++ h ∷ back
      → t ≡ record s {
        running = front ++ back;
        locked = if h.transactional then set_lock h.mutex false s.locked else s.locked;
        wg = s.wg - 1;
      }
      → Step s t

pub data Reach (s : World) : World → Type 0 where
  here : Reach s s
  next : {t u : World} → Reach s t → Step t u → Reach s u

-- ===== src/PubSub/InMemory.antt =====
-- pubsub/in-memory/in-memory.go: a message bus inside the process, over the event bus.
-- Each subscription has a goroutine that waits for its context or for `Close` and then
-- unsubscribes; `subscriptions` are those that still wait, which is what `wg` counts.
pub mod Subscribers
mod Tests
use dapr_components_contrib.Prelude.{
  ℕ, Text, codes, Option, none, some, List, [], ◌∷◌, ◌++◌, Bool, true, false, if◌then◌else◌, ◌≡◌,
}
use dapr_components_contrib.EventBus.{
  Callback, func, EventBus, BusError, new_event_bus, subscribe_async, unsubscribe, Action, publish,
}

pub record Subscription : Type 0 where
  pub topic : Text
  pub log_handler : Callback

pub record Bus : Type 0 where
  pub bus : EventBus
  pub closed : Bool
  pub subscriptions : List Subscription

-- New and Init: wildcards are on.
abbrev pub init : Bus
init = record { bus = new_event_bus true; closed = false; subscriptions = [] }

pub data PubSubError : Type 0 where
  component_is_closed : PubSubError
  bus_error : BusError → PubSubError

-- The closures that Subscribe makes come from one function literal: they have its type and the
-- address of its code, and `closure` tells them apart.
abbrev pub log_handler : ℕ → ℕ → Callback
log_handler address closure = record {
  type_ = codes "func([]uint8, map[string]string)";
  params = codes "[]uint8" ∷ codes "map[string]string" ∷ [];
  pointer = address;
  closure = closure;
}

-- Publish: the data and the metadata become the two arguments of the callback.
unfoldable pub publish_message {ℓ} :
    {A : Type ℓ} → Text → A → A → Bus → Option PubSubError × List (Action A)
publish_message topic message metadata b =
    if b.closed
    then (some component_is_closed, [])
    else (none, publish topic (some message ∷ some metadata ∷ []) b.bus)

-- Subscribe: the event bus makes a handler with the mutex, and a goroutine starts.
unfoldable pub subscribe : Text → Callback → ℕ → Bus → Bus × Option PubSubError
subscribe topic handler mutex b =
    if b.closed
    then (b, some component_is_closed)
    else (let (bus, e) = subscribe_async topic (func handler) true mutex b.bus in
        elim e [
          | some x ↦ (record b { bus = bus }, some (bus_error x))
          | none ↦ (
            record b {
              bus = bus;
              subscriptions = record { topic = topic; log_handler = handler } ∷ b.subscriptions;
            },
            none,
          )
        ])

-- What the goroutine of a subscription does once its context is done or the component is closed. An
-- error of Unsubscribe is only logged.
unfoldable pub unsubscribe_when_done : Subscription → EventBus → EventBus
unsubscribe_when_done s bus = (unsubscribe s.topic s.log_handler bus).0

-- The goroutines that end between the swap of `closed` and the end of `wg.Wait`, in any order
unfoldable pub drain : List Subscription → EventBus → EventBus
unfolding unsubscribe_when_done
drain [] bus = bus
drain (s ∷ ss) bus = drain ss (unsubscribe_when_done s bus)

-- Close, when nothing else happens before it is back
unfoldable pub close : Bus → Bus
unfolding drain
close b = record { bus = drain b.subscriptions b.bus; closed = true; subscriptions = [] }

pub data Step (address : ℕ) (s t : Bus) : Type 0 where
  subscribing :
      (topic : Text) (closure mutex : ℕ)
      → t ≡ (subscribe topic (log_handler address closure) mutex s).0
      → Step address s t
  -- a context is done, or the component is closed
  ending :
      (front back : List Subscription) (x : Subscription)
      → s.subscriptions ≡ front ++ x ∷ back
      → t ≡ record s { bus = unsubscribe_when_done x s.bus; subscriptions = front ++ back }
      → Step address s t
  -- the compare-and-swap of Close
  closing : t ≡ record s { closed = true } → Step address s t

pub data Reach (address : ℕ) (s : Bus) : Bus → Type 0 where
  here : Reach address s s
  next : {t u : Bus} → Reach address s t → Step address t u → Reach address s u

-- ===== src/EventBus/Tests.antt =====
-- Concrete buses, messages and runs of common/eventbus/event_bus.go.
use mathlib.Core.List.{Memᴰ}
use dapr_components_contrib.Prelude.{
  ℕ, ◌≤◌, Text, codes, text_eq, Option, none, some, List, [], ◌∷◌, ◌≡◌, refl, ◌≢◌, ◌↔◌, inr, true,
  false, if◌then◌else◌, length, arith, All,
}
use dapr_components_contrib.Dict.{lookup}
use dapr_components_contrib.EventBus.{
  Callback, Handler, EventBus, at_topic, matches, get_callbacks, same_callback, unsubscribe, Passed,
  zero_of, value_of,
}
use dapr_components_contrib.EventBus.Subscriptions.{unsubscribed, unsubscribe_first}
use dapr_components_contrib.EventBus.Publishing.{Hears, get_callbacks_iff}
use dapr_components_contrib.EventBus.Async.{
  World, Waiter, idle, set_lock, Reach, here, next, begin, hand_on, lock_handler, go_on, finish,
}
use dapr_components_contrib.EventBus.Async.Serial.{serial_runs, one_at_a_time, wait_async_lem}
use dapr_components_contrib.EventBus.Async.Progress.{Progress, progress}

abbrev on_message : Callback
on_message = record {
  type_ = codes "func(string)";
  params = codes "string" ∷ [];
  pointer = 7;
  closure = 1;
}

abbrev on_other : Callback
on_other = record {
  type_ = codes "func(string)";
  params = codes "string" ∷ [];
  pointer = 8;
  closure = 2;
}

abbrev serial : Handler
serial = record { call_back = on_message; async = true; transactional = true; mutex = 1 }

abbrev direct : Handler
direct = record { call_back = on_other; async = false; transactional = false; mutex = 2 }

-- a bus with a subscription to "orders/*" and one to "orders/eu"
abbrev two_topics : EventBus
two_topics = record {
  enable_wildcards = true;
  handlers = (codes "orders/*", serial ∷ []) ∷ (codes "orders/eu", direct ∷ []) ∷ [];
}

stem_not_heard : matches (codes "orders/*") (codes "orders/") ≡ false
unfolding matches
stem_not_heard = refl

both_hear : get_callbacks (codes "orders/eu") two_topics ≡ serial ∷ direct ∷ []
unfolding get_callbacks
both_hear = refl

get_callbacks_iff_example :
    Memᴰ serial (get_callbacks (codes "orders/eu") two_topics)
    ↔ Hears (codes "orders/eu") two_topics.handlers serial
get_callbacks_iff_example = get_callbacks_iff (codes "orders/eu") two_topics refl serial

abbrev one_arg : List (Option ℕ)
one_arg = some 5 ∷ []

abbrev with_nil : List (Option ℕ)
with_nil = some 5 ∷ none ∷ []

abbrev typed : List (Passed ℕ)
typed = value_of 5 ∷ zero_of (codes "int") ∷ []

one_parameter :
    All (λ h. 1 ≤ length h.call_back.params) (get_callbacks (codes "orders/eu") two_topics)
unfolding get_callbacks
one_parameter = (omega arith, (omega arith, tt))

unsubscribe_first_example :
    ((unsubscribe (codes "orders/eu") on_other two_topics).1 ≡ none)
    × ((other : Text)
        → at_topic other (unsubscribed (codes "orders/eu") on_other two_topics)
          ≡ (if text_eq (codes "orders/eu") other then [] else at_topic other two_topics))
unfolding at_topic same_callback lookup
unsubscribe_first_example =
    unsubscribe_first (codes "orders/eu") on_other two_topics [] [] direct refl tt refl

-- one message for a transactional handler, up to the start of its goroutine
abbrev under_way : World
under_way = record {
  current = some [];
  waiting = [];
  admitted = [];
  running = serial ∷ [];
  locked = set_lock 1 true (λ i. false);
  wg = 1;
}

abbrev waiter : Waiter
waiter = record { handler = serial; todo = [] }

abbrev to_started : Reach idle under_way
to_started =
    next
      (next
        (next (next here (begin (serial ∷ []) refl refl)) (hand_on serial [] refl refl refl refl))
        (lock_handler [] [] waiter refl refl refl))
      (go_on [] [] waiter refl refl refl)

one_at_a_time_example : serial_runs 1 under_way.running ≤ 1
one_at_a_time_example = one_at_a_time to_started 1

one_counted : under_way.wg ≢ 0
one_counted e = absurd (omega (arith, e))

progress_example : Progress under_way
progress_example = progress to_started (inr one_counted)

abbrev served : World
served = record under_way { running = []; locked = set_lock 1 false under_way.locked; wg = 0 }

wait_async_example : (served.running ≡ []) × (served.waiting ≡ []) × (served.admitted ≡ [])
wait_async_example = wait_async_lem (next to_started (finish [] [] serial refl refl)) refl

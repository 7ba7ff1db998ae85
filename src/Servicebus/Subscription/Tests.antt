-- ===== src/Servicebus/Subscription/Tests.antt =====
-- Runs and witnesses for the subscription.
use dapr_components_contrib.Prelude.{
  ◌≤◌, codes, none, some, List, [], ◌∷◌, true, ◌≡◌, refl, arith, All,
}
use dapr_components_contrib.Strconv.{pos}
use dapr_components_contrib.Servicebus.Subscription.{
  SubscriptionOptions, Limits, bulk_count, new_subscription, Message, put_entry, complete, abandon,
  HandlerResponseItem, settle,
}
use dapr_components_contrib.Servicebus.Subscription.Settling.{Calls}
use dapr_components_contrib.Servicebus.Subscription.System.{
  handling, selecting, operating, Goroutine, System, receive_blocking, take_token, receive, add,
  handle, take_handler, Reach, here, next,
}
use dapr_components_contrib.Servicebus.Subscription.Counting.{in_progress}
use dapr_components_contrib.Servicebus.Subscription.Bounds.{in_progress-bounded}
use dapr_components_contrib.Servicebus.Subscription.Active.{Held, active-Held}

abbrev opts : SubscriptionOptions
opts = record {
  max_active_messages = 5;
  max_bulk_sub_count = some (pos 2);
  max_concurrent_handlers = pos 1;
  require_sessions = true;
}

abbrev limits : Limits
limits = record { max_bulk = 2; capacity = 2; max_handlers = 1; require_sessions = true }

opts-limits : new_subscription opts ≡ some limits
unfolding new_subscription bulk_count
opts-limits = refl

abbrev m1 : Message
m1 = record { message_id = codes "a"; sequence_number = some 1 }

abbrev m2 : Message
m2 = record { message_id = codes "b"; sequence_number = some 2 }

abbrev batch : List Message
batch = m1 ∷ m2 ∷ []

abbrev held_by_one : List Goroutine
held_by_one = operating true batch (handling true) ∷ selecting ∷ []

-- the entries while a first call of ReceiveBlocking handles its batch and a second one has started
abbrev in_handler : System
in_handler = record {
  goroutines = held_by_one;
  tokens = 1;
  handlers = 1;
  active = (1, m1) ∷ (2, m2) ∷ [];
  skipped = [];
}

run : Reach limits in_handler
unfolding put_entry
run =
    next
      (next
        (next
          (next
            (next
              (next (next (next here (receive_blocking refl)) (receive_blocking refl))
                (take_token [] (selecting ∷ []) refl (omega arith) refl))
              (receive [] (selecting ∷ []) batch refl (omega arith) (omega arith) refl))
            (add [] (selecting ∷ []) [] m1 (m2 ∷ []) 1 refl refl refl))
          (add [] (selecting ∷ []) (m1 ∷ []) m2 [] 2 refl refl refl))
        (handle [] (selecting ∷ []) batch refl refl refl))
      (take_handler [] (selecting ∷ []) true batch refl (omega arith) refl)

-- An error without responses settles the first message of a batch only.
first_only : settle batch [] (some (codes "e")) ≡ some (abandon m1 ∷ [])
unfolding settle
first_only = refl

abbrev two_responses : List HandlerResponseItem
two_responses =
    record { entry_id = codes "a"; error = none }
    ∷ record { entry_id = codes "b"; error = some (codes "retry") }
    ∷ []

-- the two calls, of which the second has started first and has returned
abbrev one_left : Calls
one_left = record { to_start = []; in_flight = complete m1 ∷ []; returned = abandon m2 ∷ [] }

in_progress_example : in_progress in_handler.goroutines ≤ 5
in_progress_example = in_progress-bounded opts limits in_handler (omega arith) opts-limits run

active_example : All (Held in_handler.goroutines []) in_handler.active
active_example = active-Held limits in_handler run

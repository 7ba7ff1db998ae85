-- ===== src/Servicebus/Subscription.antt =====
-- common/component/azure/servicebus/subscription.go: the limits of a subscription, the map of
-- its active messages, and what handleMessages does with the responses of a handler.
pub mod Capacity
pub mod Settling
pub mod System
pub mod Counting
pub mod Invariant
pub mod Bounds
pub mod Entries
pub mod Active
mod Tests
use dapr_components_contrib.Prelude.{
  ℕ, suc, ◌+◌, ◌-◌, ◌/◌, ◌≤◌, ◌<◌, Text, Option, none, some, List, [], ◌∷◌, ◌++◌, length, map, Bool,
  true, false, ltb, ◌==◌, if◌then◌else◌, ◌≡◌, ◌≢◌,
}
use dapr_components_contrib.Strconv.{ℤ, pos, negsuc}

-- SubscriptionOptions: metadata.go refuses a MaxActiveMessages below 1, so none is negative here.
pub record SubscriptionOptions : Type 0 where
  pub max_active_messages : ℕ
  pub max_bulk_sub_count : Option ℤ
  pub max_concurrent_handlers : ℤ
  pub require_sessions : Bool

-- the channels of a Subscription are counters: `capacity` is the one of activeOperationsChan, and
-- `max_handlers` of handleChan, 0 when there is none
pub record Limits : Type 0 where
  pub max_bulk : ℕ
  pub capacity : ℕ
  pub max_handlers : ℕ
  pub require_sessions : Bool

-- the first half of NewSubscription: the bulk count from the option
unfoldable pub at_least_one : Option ℤ → ℕ
at_least_one none = 1
at_least_one (some (negsuc n)) = 1
at_least_one (some (pos n)) = if ltb n 1 then 1 else n

unfoldable pub bulk_count : SubscriptionOptions → ℕ
unfolding at_least_one
bulk_count opts =
    if ltb opts.max_active_messages (at_least_one opts.max_bulk_sub_count)
    then opts.max_active_messages
    else at_least_one opts.max_bulk_sub_count

abbrev pub handler_count : ℤ → ℕ
handler_count (pos n) = n
handler_count (negsuc n) = 0

-- NewSubscription; `none` is the panic of a division by zero
unfoldable pub new_subscription : SubscriptionOptions → Option Limits
new_subscription opts =
    if bulk_count opts == 0
    then none
    else some (record {
      max_bulk = bulk_count opts;
      capacity = opts.max_active_messages / bulk_count opts;
      max_handlers = handler_count opts.max_concurrent_handlers;
      require_sessions = opts.require_sessions;
    })

-- azservicebus.ReceivedMessage
pub record Message : Type 0 where
  pub message_id : Text
  pub sequence_number : Option ℕ

-- activeMessages[n] = m, and delete(activeMessages, n)
unfoldable pub put_entry : ℕ → Message → List (ℕ × Message) → List (ℕ × Message)
put_entry n m [] = (n, m) ∷ []
put_entry n m ((k, old) ∷ rest) = if k == n then (n, m) ∷ rest else (k, old) ∷ put_entry n m rest

unfoldable pub remove_entry : ℕ → List (ℕ × Message) → List (ℕ × Message)
remove_entry n [] = []
remove_entry n ((k, old) ∷ rest) =
    let others = remove_entry n rest in if k == n then others else (k, old) ∷ others

-- removeActiveMessages, on messages that all have a number
unfoldable pub remove_active_messages : List Message → List (ℕ × Message) → List (ℕ × Message)
unfolding remove_entry
remove_active_messages [] active = active
remove_active_messages (m ∷ msgs) active = elim m.sequence_number [
  | none ↦ remove_active_messages msgs active
  | some n ↦ remove_active_messages msgs (remove_entry n active)
]

-- a call of CompleteMessage or AbandonMessage
pub data Settlement : Type 0 where
  complete : Message → Settlement
  abandon : Message → Settlement

-- HandlerResponseItem, with whether it has an error
pub record HandlerResponseItem : Type 0 where
  pub entry_id : Text
  pub error : Option Text

unfoldable pub settle_one : HandlerResponseItem → Message → Settlement
settle_one r m = elim r.error [ none ↦ complete m | some e ↦ abandon m ]

-- the loop over the responses; `none` is the panic of an index that is out of range
unfoldable pub settle_each : List HandlerResponseItem → List Message → Option (List Settlement)
unfolding settle_one
settle_each [] msgs = some []
settle_each (r ∷ resps) [] = none
settle_each (r ∷ resps) (m ∷ msgs) = elim (settle_each resps msgs) [
  | none ↦ none
  | some calls ↦ some (settle_one r m ∷ calls)
]

-- handleMessages, after the handler has returned: the calls that it is to make. Settling says in which order.
unfoldable pub settle :
    List Message → List HandlerResponseItem → Option Text → Option (List Settlement)
unfolding settle_each
settle msgs resps none = some (map complete msgs)
settle [] [] (some e) = none
settle (m ∷ msgs) [] (some e) = some (abandon m ∷ [])
settle msgs (r ∷ resps) (some e) = settle_each (r ∷ resps) msgs

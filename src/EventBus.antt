-- ===== src/EventBus.antt =====
-- common/eventbus/event_bus.go: subscriptions by topic, and what publishing makes the bus do.
-- `bus.lock` covers the whole of each operation here but the waits of Publish: see Async.
pub mod Wildcards
pub mod Subscriptions
pub mod Publishing
pub mod Async
mod Tests
use dapr_components_contrib.Prelude.{
  ℕ, suc, ◌+◌, Text, codes, text_eq, has_prefix, cut_suffix, Option, none, some, List, [], ◌∷◌,
  ◌++◌, length, take, drop, Bool, true, false, ◌&&◌, ◌||◌, not, ltb, ◌==◌, if◌then◌else◌,
}
use dapr_components_contrib.Dict.{Dict, lookup, insert}

-- What reflect tells of a function value: its type, with the types of its parameters, and the
-- address of its code. `closure` tells apart the functions that one literal makes, which have the
-- code in common; reflect has no access to it.
pub record Callback : Type 0 where
  pub type_ : Text
  pub params : List Text
  pub pointer : ℕ
  pub closure : ℕ

-- An argument of type interface{}: a function, a value of another kind, or nil
pub data Fn : Type 0 where
  func : Callback → Fn
  not_func : Text → Fn
  nil : Fn

-- eventHandler: `mutex` tells the embedded mutexes apart.
pub record Handler : Type 0 where
  pub call_back : Callback
  pub async : Bool
  pub transactional : Bool
  pub mutex : ℕ

pub record EventBus : Type 0 where
  pub enable_wildcards : Bool
  pub handlers : Dict (List Handler)

-- The errors, and the panic of reflect on nil.
pub data BusError : Type 0 where
  not_of_type_func : Text → BusError
  topic_does_not_exist : Text → BusError
  nil_pointer : BusError

-- New
abbrev pub new_event_bus : Bool → EventBus
new_event_bus enable_wildcards = record { enable_wildcards = enable_wildcards; handlers = [] }

-- bus.handlers[topic], nil for a topic that is not there
unfoldable pub at_topic : Text → EventBus → List Handler
at_topic topic bus = elim (lookup topic bus.handlers) [ none ↦ [] | some hs ↦ hs ]

-- doSubscribe, with the fields of the handler beside its callback
unfoldable pub do_subscribe : Text → Fn → Bool → Bool → ℕ → EventBus → EventBus × Option BusError
unfolding at_topic
do_subscribe topic nil async transactional mutex bus = (bus, some nil_pointer)
do_subscribe topic (not_func kind) async transactional mutex bus =
    (bus, some (not_of_type_func kind))
do_subscribe topic (func f) async transactional mutex bus =
    let handler : Handler = record {
      call_back = f;
      async = async;
      transactional = transactional;
      mutex = mutex;
    } in
    (record bus { handlers = insert topic (at_topic topic bus ++ handler ∷ []) bus.handlers }, none)

-- Subscribe
unfoldable pub subscribe : Text → Fn → ℕ → EventBus → EventBus × Option BusError
unfolding do_subscribe
subscribe topic fn mutex bus = do_subscribe topic fn false false mutex bus

-- SubscribeAsync
unfoldable pub subscribe_async : Text → Fn → Bool → ℕ → EventBus → EventBus × Option BusError
unfolding do_subscribe
subscribe_async topic fn transactional mutex bus =
    do_subscribe topic fn true transactional mutex bus

-- the test of getCallbacks on a topic k of the map
unfoldable pub matches : Text → Text → Bool
unfolding text_eq has_prefix cut_suffix
matches k topic = text_eq k topic || elim (cut_suffix k (codes "*")) [
  | none ↦ false
  | some stem ↦ has_prefix topic stem && not (text_eq topic stem)
]

-- the loop of getCallbacks over the map
unfoldable pub collect : Text → Dict (List Handler) → List Handler
unfolding matches
collect topic [] = []
collect topic ((k, h) ∷ rest) =
    if matches k topic then h ++ collect topic rest else collect topic rest

-- getCallbacks: nil and an empty slice are the same to its caller.
unfoldable pub get_callbacks : Text → EventBus → List Handler
unfolding at_topic collect
get_callbacks topic bus =
    if not bus.enable_wildcards then at_topic topic bus else collect topic bus.handlers

-- the test of findHandlerIdx
unfoldable pub same_callback : Callback → Callback → Bool
unfolding text_eq
same_callback f g = text_eq f.type_ g.type_ && f.pointer == g.pointer

-- findHandlerIdx, on the handlers of the topic; `none` is -1
unfoldable pub find_handler_idx : Callback → List Handler → Option ℕ
unfolding same_callback
find_handler_idx callback [] = none
find_handler_idx callback (h ∷ hs) =
    let rest = find_handler_idx callback hs in
    if same_callback h.call_back callback
    then some 0
    else elim rest [ none ↦ none | some idx ↦ some (suc idx) ]

-- removeHandler, on the handlers of the topic: the copy moves what is behind `idx` down.
unfoldable pub remove_handler : Option ℕ → List Handler → List Handler
remove_handler none hs = hs
remove_handler (some idx) hs = if ltb idx (length hs) then take idx hs ++ drop (suc idx) hs else hs

-- Unsubscribe. A value that is not a function has no code pointer: reflect panics on it, which
-- needs a handler to compare it with.
unfoldable pub unsubscribe : Text → Callback → EventBus → EventBus × Option BusError
unfolding at_topic find_handler_idx remove_handler
unsubscribe topic handler bus =
    let hs = at_topic topic bus in
    if ltb 0 (length hs)
    then (
      record bus {
        handlers = insert topic (remove_handler (find_handler_idx handler hs) hs) bus.handlers;
      },
      none,
    )
    else (bus, some (topic_does_not_exist topic))

-- What a callback gets: the argument, or the zero value of the parameter's type in place of nil.
pub data Passed {ℓ} (A : Type ℓ) : Type ℓ where
  zero_of : Text → Passed A
  value_of : A → Passed A

-- What Publish does, in order: a call in its own goroutine, or a new goroutine with the call, which
-- `wg` counts from before the wait for the handler's mutex. A panic is the end of it.
pub data Action {ℓ} (A : Type ℓ) : Type ℓ where
  call : Handler → List (Passed A) → Action A
  spawn : Handler → List (Option A) → Action A
  panic : Handler → Action A

module _ {ℓ} {A : Type ℓ} where
  unfoldable pub add_passed : Passed A → Option (List (Passed A)) → Option (List (Passed A))
  add_passed p none = none
  add_passed p (some ps) = some (p ∷ ps)

  -- setUpPublish on the parameters' types; none is the panic of In(i), which has no i-th parameter
  unfoldable pub set_up_publish : List Text → List (Option A) → Option (List (Passed A))
  unfolding add_passed
  set_up_publish params [] = some []
  set_up_publish [] (none ∷ args) = none
  set_up_publish [] (some v ∷ args) = add_passed (value_of v) (set_up_publish [] args)
  set_up_publish (t ∷ params) (none ∷ args) = add_passed (zero_of t) (set_up_publish params args)
  set_up_publish (t ∷ params) (some v ∷ args) = add_passed (value_of v) (set_up_publish params args)

  -- doPublish in the goroutine of Publish, and what comes after it
  unfoldable pub do_publish : Handler → List (Option A) → List (Action A) → List (Action A)
  unfolding set_up_publish
  do_publish handler args rest = elim (set_up_publish handler.call_back.params args) [
    | none ↦ panic handler ∷ []
    | some passed ↦ call handler passed ∷ rest
  ]

  -- the loop of Publish
  unfoldable pub publish_to : List Handler → List (Option A) → List (Action A)
  unfolding do_publish
  publish_to [] args = []
  publish_to (h ∷ hs) args =
      let rest = publish_to hs args in
      if not h.async then do_publish h args rest else spawn h args ∷ rest

  -- Publish
  unfoldable pub publish : Text → List (Option A) → EventBus → List (Action A)
  unfolding get_callbacks publish_to
  publish topic args bus = publish_to (get_callbacks topic bus) args

-- ===== src/EventBus/Subscriptions.antt =====
-- What subscribing and unsubscribing (common/eventbus/event_bus.go) do to the handlers.
use mathlib.Core.List.{append_assoc, append-nil}
use dapr_components_contrib.Prelude.{
  ℕ, Text, text_eq, text_eq_iff, text_eq_refl, Option, none, some, List, [], ◌∷◌, ◌++◌, ◌≡◌, refl,
  ap, ◌∙◌, inl, inr, Bool, true, false, Bool-cases, arith, if◌then◌else◌, length, length-append,
  suc, ltb, take, drop,
}
use dapr_components_contrib.Dict.{insert}
use dapr_components_contrib.Dict.Laws.{lookup-insert}
use dapr_components_contrib.EventBus.{
  Callback, Handler, EventBus, func, at_topic, do_subscribe, same_callback, find_handler_idx,
  remove_handler, unsubscribe, topic_does_not_exist, BusError,
}

-- None of the handlers has the callback's type and code.
abbrev pub NotSubscribed : Callback → List Handler → Type 0
NotSubscribed f [] = Unit
NotSubscribed f (h ∷ hs) = (same_callback h.call_back f ≡ false) × NotSubscribed f hs

find_handler_idx-append :
    (f : Callback) (front back : List Handler) (h : Handler)
    → NotSubscribed f front
    → same_callback h.call_back f ≡ true
    → find_handler_idx f (front ++ h ∷ back) ≡ some (length front)
unfolding find_handler_idx
find_handler_idx-append f [] back h n e = ground arith
find_handler_idx-append f (g ∷ front) back h n e =
    ground (arith, find_handler_idx-append f front back h n.1 e)

find_handler_idx-none :
    (f : Callback) (hs : List Handler) → NotSubscribed f hs → find_handler_idx f hs ≡ none
unfolding find_handler_idx
find_handler_idx-none f [] n = refl
find_handler_idx-none f (h ∷ hs) n = ground (arith, find_handler_idx-none f hs n.1)

take-append : (front back : List Handler) → take (length front) (front ++ back) ≡ front
take-append [] back = refl
take-append (g ∷ front) back = ap (◌∷◌ g) (take-append front back)

drop-append : (front back : List Handler) → drop (length front) (front ++ back) ≡ back
drop-append [] back = refl
drop-append (g ∷ front) back = drop-append front back

drop_past :
    (front back : List Handler) (h : Handler) → drop (suc (length front)) (front ++ h ∷ back) ≡ back
drop_past [] back h = refl
drop_past (g ∷ front) back h = drop_past front back h

remove_handler-none : (hs : List Handler) → remove_handler none hs ≡ hs
unfolding remove_handler
remove_handler-none hs = refl

ltb-length :
    (front back : List Handler) (h : Handler)
    → ltb (length front) (length (front ++ h ∷ back)) ≡ true
ltb-length front back h = ground (arith, length-append front (h ∷ back))

remove_handler-append :
    (front back : List Handler) (h : Handler)
    → remove_handler (some (length front)) (front ++ h ∷ back) ≡ front ++ back
unfolding remove_handler
remove_handler-append front back h =
    rw (ltb-length front back h, take-append front (h ∷ back), drop_past front back h) refl

at_topic-insert :
    (topic other : Text) (hs : List Handler) (bus : EventBus)
    → at_topic other (record bus { handlers = insert topic hs bus.handlers })
      ≡ (if text_eq topic other then hs else at_topic other bus)
unfolding at_topic
at_topic-insert topic other hs bus = ground (arith, lookup-insert topic other hs bus.handlers)

module _ (topic : Text) (f : Callback) (bus : EventBus) where
  unsubscribe_some :
      (hs : List Handler)
      → at_topic topic bus ≡ hs
      → ltb 0 (length hs) ≡ true
      → unsubscribe topic f bus ≡ (
        record bus {
          handlers = insert topic (remove_handler (find_handler_idx f hs) hs) bus.handlers;
        },
        none,
      )
  unfolding unsubscribe
  unsubscribe_some hs a n = rw (unsubscribe, a, n) refl

  unsubscribe_empty :
      ltb 0 (length (at_topic topic bus)) ≡ false
      → unsubscribe topic f bus ≡ (bus, some (topic_does_not_exist topic))
  unfolding unsubscribe
  unsubscribe_empty e = rw (unsubscribe, e) refl

  same_topic :
      (other : Text)
      → (if text_eq topic other then at_topic topic bus else at_topic other bus)
        ≡ at_topic other bus
  same_topic other = elim (Bool-cases (text_eq topic other)) [
    | inl e ↦ rw (e, (text_eq_iff topic other).0 e) refl
    | inr e ↦ rw e refl
  ]

  -- the bus after Unsubscribe
  abbrev pub unsubscribed : EventBus
  unsubscribed = (unsubscribe topic f bus).0

  -- Unsubscribe takes away the first handler of the topic that has the type and the code of its
  -- argument, without an error, and leaves the order of the others and all other topics alone.
  pub unsubscribe_first :
      (front back : List Handler) (h : Handler)
      → at_topic topic bus ≡ front ++ h ∷ back
      → NotSubscribed f front
      → same_callback h.call_back f ≡ true
      → ((unsubscribe topic f bus).1 ≡ none)
        × ((other : Text)
            → at_topic other unsubscribed
              ≡ (if text_eq topic other then front ++ back else at_topic other bus))
  unsubscribe_first front back h a n e =
      let p =
        unsubscribe_some (front ++ h ∷ back) a (ground (arith, length-append front (h ∷ back))) in
      (
        ap (λ (q : EventBus × Option BusError). q.1) p,
        λ other.
            ap (λ (q : EventBus × Option BusError). at_topic other q.0) p
            ∙ rw (find_handler_idx-append f front back h n e, remove_handler-append front back h)
                (at_topic-insert topic other (front ++ back) bus),
      )

  -- Without such a handler Unsubscribe changes nothing; it returns an error only when the topic
  -- has no handlers at all.
  pub unsubscribe-none :
      NotSubscribed f (at_topic topic bus)
      → ((unsubscribe topic f bus).1 ≡ (
          if ltb 0 (length (at_topic topic bus)) then none else some (topic_does_not_exist topic)))
        × ((other : Text) → at_topic other unsubscribed ≡ at_topic other bus)
  unsubscribe-none n = elim (Bool-cases (ltb 0 (length (at_topic topic bus)))) [
    | inl e ↦
        let p = unsubscribe_some (at_topic topic bus) refl e in
        (
          rw (ap (λ (q : EventBus × Option BusError). q.1) p, e) refl,
          λ other.
              ap (λ (q : EventBus × Option BusError). at_topic other q.0) p
              ∙ rw
                  (
                    find_handler_idx-none f (at_topic topic bus) n,
                    remove_handler-none (at_topic topic bus),
                  )
                  (at_topic-insert topic other (at_topic topic bus) bus)
              ∙ same_topic other,
        )
    | inr e ↦
        let p = unsubscribe_empty e in
        (
          rw (ap (λ (q : EventBus × Option BusError). q.1) p, e) refl,
          λ other. ap (λ (q : EventBus × Option BusError). at_topic other q.0) p,
        )
  ]

same_callback_refl : (f : Callback) → same_callback f f ≡ true
unfolding same_callback
same_callback_refl f = ground (arith, text_eq_refl f.type_)

module _ (topic : Text) (bus : EventBus) (async transactional : Bool) where
  -- the handler that a subscription makes
  abbrev pub made : Callback → ℕ → Handler
  made f mutex = record {
    call_back = f;
    async = async;
    transactional = transactional;
    mutex = mutex;
  }

  pub at_topic-do_subscribe :
      (f : Callback) (mutex : ℕ) (b : EventBus) (other : Text)
      → at_topic other (do_subscribe topic (func f) async transactional mutex b).0
        ≡ (if text_eq topic other then at_topic topic b ++ made f mutex ∷ [] else at_topic other b)
  unfolding do_subscribe
  at_topic-do_subscribe f mutex b other =
      at_topic-insert topic other (at_topic topic b ++ made f mutex ∷ []) b

  -- the bus after a subscription
  abbrev pub subscribed : Callback → ℕ → EventBus → EventBus
  subscribed f mutex b = (do_subscribe topic (func f) async transactional mutex b).0

  pub own_topic :
      (f : Callback) (mutex : ℕ) (b : EventBus)
      → at_topic topic (subscribed f mutex b) ≡ at_topic topic b ++ made f mutex ∷ []
  own_topic f mutex b = rw (at_topic-do_subscribe f mutex b topic, text_eq_refl topic) refl

  -- Subscribing a callback and unsubscribing it gives back the handlers of every topic, when no
  -- handler of the topic had the callback's type and code.
  pub unsubscribe-do_subscribe :
      (f : Callback) (mutex : ℕ)
      → NotSubscribed f (at_topic topic bus)
      → (other : Text)
      → at_topic other (unsubscribed topic f (subscribed f mutex bus)) ≡ at_topic other bus
  unsubscribe-do_subscribe f mutex n other =
      (unsubscribe_first topic f (subscribed f mutex bus) (at_topic topic bus) [] (made f mutex)
          (own_topic f mutex bus) n (same_callback_refl f)).1
        other
      ∙ elim (Bool-cases (text_eq topic other)) [
        | inl e ↦ rw (e, (text_eq_iff topic other).0 e) (append-nil (at_topic other bus))
        | inr e ↦ rw e (rw (at_topic-do_subscribe f mutex bus other, e) refl)
      ]

  -- Of two callbacks with one type and one code, which is what the closures of one function literal
  -- are, unsubscribing the second takes away the first and leaves the second subscribed.
  pub unsubscribe_twin :
      (f g : Callback) (i j : ℕ)
      → NotSubscribed g (at_topic topic bus)
      → same_callback f g ≡ true
      → at_topic topic (unsubscribed topic g (subscribed g j (subscribed f i bus)))
        ≡ at_topic topic bus ++ made g j ∷ []
  unsubscribe_twin f g i j n e =
      (unsubscribe_first topic g (subscribed g j (subscribed f i bus)) (at_topic topic bus)
          (made g j ∷ []) (made f i)
          (own_topic g j (subscribed f i bus)
            ∙ ap (λ hs. hs ++ made g j ∷ []) (own_topic f i bus)
            ∙ append_assoc (at_topic topic bus) (made f i ∷ []) (made g j ∷ []))
          n e).1
        topic
      ∙ rw (text_eq_refl topic) refl

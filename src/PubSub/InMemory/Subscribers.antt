-- ===== src/PubSub/InMemory/Subscribers.antt =====
-- Which handlers are subscribed while subscriptions of pubsub/in-memory/in-memory.go come and go.
use dapr_components_contrib.Prelude.{
  ℕ, ◌+◌, Text, codes, text_eq, text_eq_refl, text_eq_iff, List, [], ◌∷◌, ◌++◌, Bool, true, false,
  if◌then◌else◌, ◌≡◌, refl, ap, sym, ◌∙◌, subst, arith, length, length-append, All, All-append,
  Bool-cases, inl, inr,
}
use dapr_components_contrib.Dict.{lookup}
use dapr_components_contrib.EventBus.{
  Callback, Handler, func, EventBus, at_topic, do_subscribe, subscribe_async, unsubscribe,
  same_callback,
}
use dapr_components_contrib.EventBus.Subscriptions.{
  NotSubscribed, unsubscribe_first, at_topic-do_subscribe, unsubscribe_twin,
}
use dapr_components_contrib.PubSub.InMemory.{
  Subscription, Bus, init, log_handler, subscribe, unsubscribe_when_done, drain, close, Step,
  subscribing, ending, closing, Reach, here, next,
}

-- how many of the subscriptions are to the topic
unfoldable pub waiting_at : Text → List Subscription → ℕ
waiting_at topic [] = 0
waiting_at topic (s ∷ ss) = (if text_eq s.topic topic then 1 else 0) + waiting_at topic ss

waiting_at-append :
    (topic : Text) (front back : List Subscription) (x : Subscription)
    → waiting_at topic (front ++ x ∷ back)
      ≡ (if text_eq x.topic topic then 1 else 0) + waiting_at topic (front ++ back)
unfolding waiting_at
waiting_at-append topic [] back x = refl
waiting_at-append topic (s ∷ front) back x = omega (arith, waiting_at-append topic front back x)

no_handler : (hs : List Handler) → length hs ≡ 0 → hs ≡ []
no_handler [] e = refl
no_handler (h ∷ hs) e = absurd (omega (arith, e))

module _ (address : ℕ) where
  -- The callback is one of the closures that Subscribe makes.
  abbrev pub IsLog : Callback → Type 0
  IsLog f = (closure : ℕ) × (f ≡ log_handler address closure)

  pub record IsMatched (b : Bus) : Type 0 where
    pub logs : (topic : Text) → All (λ h. IsLog h.call_back) (at_topic topic b.bus)
    pub own : All (λ s. IsLog s.log_handler) b.subscriptions
    pub matched : (topic : Text) → length (at_topic topic b.bus) ≡ waiting_at topic b.subscriptions

  -- any two of them are the same to the event bus
  same_log : (f g : Callback) → IsLog f → IsLog g → same_callback f g ≡ true
  unfolding same_callback
  same_log f g (i, p) (j, q) =
      rw (p, q) (ground (arith, text_eq_refl (codes "func([]uint8, map[string]string)")))

  module _ (topic : Text) (f : Callback) (mutex : ℕ) (b : Bus) where
    -- the handler of a subscription
    abbrev pub subscriber : Handler
    subscriber = record { call_back = f; async = true; transactional = true; mutex = mutex }

    subscribe_closed : b.closed ≡ true → (subscribe topic f mutex b).0 ≡ b
    unfolding subscribe
    subscribe_closed e = rw (subscribe, e) refl

    pub subscribe_open :
        b.closed ≡ false
        → (subscribe topic f mutex b).0 ≡ record b {
          bus = (do_subscribe topic (func f) true true mutex b.bus).0;
          subscriptions = record { topic = topic; log_handler = f } ∷ b.subscriptions;
        }
    unfolding subscribe subscribe_async
    subscribe_open e = simp e

  unsubscribe_log :
      (x : Subscription) (bus : EventBus) (h : Handler) (hs : List Handler)
      → IsLog x.log_handler
      → IsLog h.call_back
      → at_topic x.topic bus ≡ h ∷ hs
      → (other : Text)
      → at_topic other (unsubscribe_when_done x bus)
        ≡ (if text_eq x.topic other then hs else at_topic other bus)
  unfolding unsubscribe_when_done
  unsubscribe_log x bus h hs l m a other =
      (unsubscribe_first x.topic x.log_handler bus [] hs h a tt
          (same_log h.call_back x.log_handler m l)).1
        other

  -- Both lists of a step are the same up to the choice of a topic.
  All-choice :
      (c : Bool) (xs ys : List Handler)
      → All (λ h. IsLog h.call_back) xs
      → All (λ h. IsLog h.call_back) ys
      → All (λ h. IsLog h.call_back) (if c then xs else ys)
  All-choice true xs ys x y = x
  All-choice false xs ys x y = y

  subscribed-IsMatched :
      (topic : Text) (closure mutex : ℕ) (b : Bus)
      → IsMatched b
      → IsMatched (subscribe topic (log_handler address closure) mutex b).0
  unfolding waiting_at
  subscribed-IsMatched topic closure mutex b v =
      let f = log_handler address closure in
      elim (Bool-cases b.closed) [
        | inl e ↦ subst IsMatched (sym (subscribe_closed topic f mutex b e)) v
        | inr e ↦ subst IsMatched (sym (subscribe_open topic f mutex b e)) (record {
          logs = λ other. rw (at_topic-do_subscribe topic b.bus true true f mutex b.bus other) (
              All-choice (text_eq topic other)
                (at_topic topic b.bus ++ subscriber topic f mutex b ∷ []) (at_topic other b.bus)
                (All-append (λ h. IsLog h.call_back) (at_topic topic b.bus)
                  (subscriber topic f mutex b ∷ []) (v.logs topic) ((closure, refl), tt))
                (v.logs other));
          own = ((closure, refl), v.own);
          matched = λ other. ground (
            arith,
            ap length (at_topic-do_subscribe topic b.bus true true f mutex b.bus other),
            length-append (at_topic topic b.bus) (subscriber topic f mutex b ∷ []),
            v.matched other,
            text_eq_iff topic other,
          );
        })
      ]

  All-split :
      (front back : List Subscription) (x : Subscription)
      → All (λ s. IsLog s.log_handler) (front ++ x ∷ back)
      → IsLog x.log_handler × All (λ s. IsLog s.log_handler) (front ++ back)
  All-split [] back x a = a
  All-split (y ∷ front) back x a = let (l, r) = All-split front back x a.1 in (l, (a.0, r))

  ended-IsMatched :
      (front back : List Subscription) (x : Subscription) (b : Bus) (hs : List Handler)
      → b.subscriptions ≡ front ++ x ∷ back
      → at_topic x.topic b.bus ≡ hs
      → IsMatched b
      → IsMatched (record b { bus = unsubscribe_when_done x b.bus; subscriptions = front ++ back })
  ended-IsMatched front back x b [] p a v = absurd (
      ground (
        arith,
        ap length a,
        v.matched x.topic,
        ap (waiting_at x.topic) p,
        waiting_at-append x.topic front back x,
        text_eq_refl x.topic,
      ))
  ended-IsMatched front back x b (h ∷ hs) p a v =
      let (l, own) =
        All-split front back x (subst (λ ss. All (λ s. IsLog s.log_handler) ss) p v.own) in
      let m = subst (λ l. All (λ h. IsLog h.call_back) l) a (v.logs x.topic) in
      let left = unsubscribe_log x b.bus h hs l m.0 a in
      record {
        logs = λ other.
            rw (left other)
              (All-choice (text_eq x.topic other) hs (at_topic other b.bus) m.1 (v.logs other));
        own = own;
        matched = λ other. ground (
          arith,
          left other,
          ap length (left other),
          ap length a,
          v.matched other,
          ap (waiting_at other) p,
          waiting_at-append other front back x,
          text_eq_iff x.topic other,
        );
      }

  Step-IsMatched : {s t : Bus} → Step address s t → IsMatched s → IsMatched t
  Step-IsMatched {s = s} (subscribing topic closure mutex e) v =
      subst IsMatched (sym e) (subscribed-IsMatched topic closure mutex s v)
  Step-IsMatched {s = s} (ending front back x p e) v =
      subst IsMatched (sym e) (ended-IsMatched front back x s (at_topic x.topic s.bus) p refl v)
  Step-IsMatched (closing e) v =
      subst IsMatched (sym e) (record { logs = v.logs; own = v.own; matched = v.matched })

  pub Reach-IsMatched : {b : Bus} → Reach address init b → IsMatched b
  unfolding at_topic waiting_at lookup
  Reach-IsMatched here = record { logs = λ topic. tt; own = tt; matched = λ topic. refl }
  Reach-IsMatched (next r st) = Step-IsMatched st (Reach-IsMatched r)

  -- However subscriptions come, end and are closed, each topic has as many handlers as there are
  -- subscriptions to it that have not ended; once all have, as after Close, it has none.
  pub handlers_lem :
      {b : Bus}
      → Reach address init b
      → (topic : Text)
      → (length (at_topic topic b.bus) ≡ waiting_at topic b.subscriptions)
        × (b.subscriptions ≡ [] → at_topic topic b.bus ≡ [])
  unfolding waiting_at
  handlers_lem {b} r topic =
      let e = (Reach-IsMatched r).matched topic in
      (e, λ n. no_handler (at_topic topic b.bus) (e ∙ rw (n, waiting_at) refl))

  drain-Reach :
      (ss : List Subscription) {b : Bus}
      → Reach address init b
      → b.subscriptions ≡ ss
      → Reach address init (record b { bus = drain ss b.bus; subscriptions = [] })
  unfolding drain
  drain-Reach [] {b} r e = subst (λ l. Reach address init (record b { subscriptions = l })) e r
  drain-Reach (x ∷ ss) r e = drain-Reach ss (next r (ending [] ss x e refl)) refl

  -- Close leaves no handler on any topic: every subscription unsubscribes.
  pub close_lem :
      {b : Bus} → Reach address init b → (topic : Text) → at_topic topic (close b).bus ≡ []
  unfolding close
  close_lem {b} r topic =
      (handlers_lem (next (drain-Reach b.subscriptions r refl) (closing refl)) topic).1 refl

  -- Of two subscribers to a topic that nobody else hears, the one whose context ends keeps its handler
  -- and the other one loses it, when the one that ends came second.
  pub wrong_subscriber_removed :
      (topic : Text) (b : Bus) (f g i j : ℕ)
      → b.closed ≡ false
      → at_topic topic b.bus ≡ []
      → let first = (subscribe topic (log_handler address f) i b).0 in
        let both = (subscribe topic (log_handler address g) j first).0 in
        at_topic topic (
          unsubscribe_when_done
            (record { topic = topic; log_handler = log_handler address g })
            both.bus)
        ≡ subscriber topic (log_handler address g) j b ∷ []
  unfolding unsubscribe_when_done
  wrong_subscriber_removed topic b f g i j o n =
      let lf = log_handler address f in
      let lg = log_handler address g in
      let once : Bus = record b {
        bus = (do_subscribe topic (func lf) true true i b.bus).0;
        subscriptions = record { topic = topic; log_handler = lf } ∷ b.subscriptions;
      } in
      ap (λ (c : Bus). at_topic topic (unsubscribe topic lg (subscribe topic lg j c).0.bus).0)
        (subscribe_open topic lf i b o)
      ∙ ap (λ (c : Bus). at_topic topic (unsubscribe topic lg c.bus).0)
          (subscribe_open topic lg j once o)
      ∙ unsubscribe_twin topic b.bus true true lf lg i j
          (subst (λ l. NotSubscribed lg l) (sym n) tt) (same_log lf lg (f, refl) (g, refl))
      ∙ ap (λ l. l ++ subscriber topic lg j b ∷ []) n

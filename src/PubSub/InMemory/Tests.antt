-- ===== src/PubSub/InMemory/Tests.antt =====
-- Runs of pubsub/in-memory/in-memory.go.
use dapr_components_contrib.Prelude.{codes, [], ◌∷◌, ◌≡◌, refl, length}
use dapr_components_contrib.Dict.{lookup, insert}
use dapr_components_contrib.EventBus.{at_topic, subscribe_async, publish}
use dapr_components_contrib.PubSub.InMemory.{
  Bus, init, log_handler, subscribe, unsubscribe_when_done, close, Reach, here, next, subscribing,
  publish_message,
}
use dapr_components_contrib.PubSub.InMemory.Subscribers.{
  subscriber, close_lem, wrong_subscriber_removed,
}

-- two subscribers to one topic
abbrev both : Bus
both =
    (subscribe (codes "t") (log_handler 7 2) 2 (subscribe (codes "t") (log_handler 7 1) 1 init).0).0

abbrev to_both : Reach 7 init both
to_both = next (next here (subscribing (codes "t") 1 1 refl)) (subscribing (codes "t") 2 2 refl)

close_example : at_topic (codes "t") (close both).bus ≡ []
close_example = close_lem 7 to_both (codes "t")

wrong_subscriber_removed_example :
    at_topic
      (codes "t")
      (unsubscribe_when_done (record { topic = codes "t"; log_handler = log_handler 7 2 }) both.bus)
    ≡ subscriber 7 (codes "t") (log_handler 7 2) 2 init ∷ []
unfolding at_topic lookup
wrong_subscriber_removed_example = wrong_subscriber_removed 7 (codes "t") init 1 2 1 2 refl refl

delivered_to_both : length (publish_message (codes "t") (codes "hi") [] both).1 ≡ 2
unfolding publish_message subscribe subscribe_async publish insert lookup
delivered_to_both = refl

-- ===== src/PubSub/Envelope/Tests.antt =====
-- Runs and witnesses for the cloud events envelope.
use dapr_components_contrib.Prelude.{
  ℕ, ◌+◌, Text, codes, text_eq, Option, some, false, true, [], ◌∷◌, ◌≡◌, refl,
}
use mathlib.Core.Option
use dapr_components_contrib.Dict.{Dict, lookup, insert}
use dapr_components_contrib.Strconv.{format_uint, parse_uint}
use dapr_components_contrib.State.Query.{Json, null, string}
use dapr_components_contrib.Metadata.{present}
use dapr_components_contrib.PubSub.Envelope.{
  from_cloud_event, has_expired, apply_metadata, if_missing, if_nil, trace_fields,
}
use dapr_components_contrib.PubSub.Envelope.Kept.{lookup-from_cloud_event}
use dapr_components_contrib.PubSub.Envelope.Expiry.{has_expired-apply_metadata}

abbrev event : Dict Json
event =
    (codes "id", string (codes "7"))
    ∷ (codes "source", null)
    ∷ (codes "topic", string (codes "old"))
    ∷ (codes "type", string (codes "order"))
    ∷ []

received :
    from_cloud_event
      (some event)
      (codes "new")
      (codes "redis")
      (codes "00-1")
      (codes "s")
      (codes "now")
    ≡ some (
        (codes "id", string (codes "7"))
        ∷ (codes "source", string (codes "Dapr"))
        ∷ (codes "topic", string (codes "new"))
        ∷ (codes "type", string (codes "order"))
        ∷ (codes "time", string (codes "now"))
        ∷ (codes "traceid", string (codes "00-1"))
        ∷ (codes "traceparent", string (codes "00-1"))
        ∷ (codes "tracestate", string (codes "s"))
        ∷ (codes "pubsubname", string (codes "redis"))
        ∷ (codes "specversion", string (codes "1.0"))
        ∷ [])
unfolding from_cloud_event if_missing if_nil trace_fields insert lookup text_eq
received = refl

event_type : lookup (codes "type") event ≡ some (string (codes "order"))
unfolding lookup
event_type = refl

topic_elsewhere : text_eq (codes "topic") (codes "type") ≡ false
unfolding text_eq
topic_elsewhere = refl

pubsub_elsewhere : text_eq (codes "pubsubname") (codes "type") ≡ false
unfolding text_eq
pubsub_elsewhere = refl

parent_elsewhere : text_eq (codes "traceparent") (codes "type") ≡ false
unfolding text_eq
parent_elsewhere = refl

lookup-from_cloud_event_example :
    Option.map (lookup (codes "type")) (
      from_cloud_event
        (some event)
        (codes "new")
        (codes "redis")
        (codes "00-1")
        (codes "s")
        (codes "now"))
    ≡ some (some (string (codes "order")))
lookup-from_cloud_event_example =
    lookup-from_cloud_event event (codes "new") (codes "redis") (codes "00-1") (codes "s")
      (codes "now") (codes "type") (string (codes "order")) event_type refl topic_elsewhere
      pubsub_elsewhere parent_elsewhere

-- a clock whose times print as their numbers
abbrev sprint : Json → Text
sprint e = codes "%!s"

abbrev clock_text : ℕ → Text
clock_text t = format_uint t

abbrev read_clock : Text → Option ℕ
read_clock s = parse_uint s

deadline_non_empty : text_eq (clock_text (100 + 5)) [] ≡ false
unfolding text_eq format_uint
deadline_non_empty = refl

deadline_read : read_clock (clock_text (100 + 5)) ≡ some 105
unfolding parse_uint format_uint
deadline_read = refl

has_expired-apply_metadata_example :
    has_expired sprint read_clock 106 (apply_metadata clock_text 100 false (present 5) event) ≡ true
has_expired-apply_metadata_example =
    has_expired-apply_metadata sprint read_clock clock_text 100 5 106 105 event deadline_non_empty
      deadline_read

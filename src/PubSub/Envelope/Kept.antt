-- ===== src/PubSub/Envelope/Kept.antt =====
-- pubsub/envelope.go: the fields of a cloud event that FromCloudEvent leaves as they are.
use dapr_components_contrib.Prelude.{
  Text, codes, text_eq, text_eq_iff, some, Bool, true, false, ◌≡◌, ap, ◌∙◌, arith,
}
use mathlib.Core.Option
use dapr_components_contrib.Dict.{Dict, lookup, insert}
use dapr_components_contrib.Dict.Laws.{lookup-insert}
use dapr_components_contrib.State.Query.{Json, null, boolean, number, string, array, object}
use dapr_components_contrib.PubSub.Envelope.{if_missing, if_nil, trace_fields, from_cloud_event}

-- v == nil
abbrev pub is_nil : Json → Bool
is_nil null = true
is_nil (boolean b) = false
is_nil (number n) = false
is_nil (string s) = false
is_nil (array js) = false
is_nil (object fs) = false

-- a field that another write leaves
insert_elsewhere :
    (key k : Text) (w v : Json) (m : Dict Json)
    → text_eq key k ≡ false
    → lookup k m ≡ some v
    → lookup k (insert key w m) ≡ some v
insert_elsewhere key k w v m n e = lookup-insert key k w m ∙ rw n e

lookup-if_missing :
    (key k value : Text) (v : Json) (m : Dict Json)
    → lookup k m ≡ some v
    → lookup k (if_missing key value m) ≡ some v
unfolding if_missing
lookup-if_missing key k value v m e =
    ground (arith, lookup-insert key k (string value) m, text_eq_iff key k)

lookup-if_nil :
    (key k value : Text) (v : Json) (m : Dict Json)
    → is_nil v ≡ false
    → lookup k m ≡ some v
    → lookup k (if_nil key value m) ≡ some v
unfolding if_nil
lookup-if_nil key k value v m n e =
    ground (arith, lookup-insert key k (string value) m, text_eq_iff key k)

lookup-trace_fields :
    (k trace_parent : Text) (v : Json) (m : Dict Json)
    → text_eq (codes "traceparent") k ≡ false
    → lookup k m ≡ some v
    → lookup k (trace_fields trace_parent m) ≡ some v
unfolding trace_fields
lookup-trace_fields k trace_parent v m n e = ground (
  arith,
  lookup-insert (codes "traceparent") k (string trace_parent)
      (insert (codes "traceid") (string trace_parent) m),
  lookup-insert (codes "traceid") k (string trace_parent) m,
  text_eq_iff (codes "traceid") k,
)

-- FromCloudEvent keeps every field of the event that is not null, the topic, the name of the pubsub and
-- the parent of the trace apart.
pub lookup-from_cloud_event :
    (m : Dict Json) (topic pubsub trace_parent trace_state now k : Text) (v : Json)
    → lookup k m ≡ some v
    → is_nil v ≡ false
    → text_eq (codes "topic") k ≡ false
    → text_eq (codes "pubsubname") k ≡ false
    → text_eq (codes "traceparent") k ≡ false
    → Option.map (lookup k) (from_cloud_event (some m) topic pubsub trace_parent trace_state now)
      ≡ some (some v)
unfolding from_cloud_event
lookup-from_cloud_event m topic pubsub trace_parent trace_state now k v e n t p q = ap some (
    lookup-if_nil _ k _ v _ n (
      lookup-if_nil _ k _ v _ n (
        lookup-if_nil _ k _ v _ n (
          insert_elsewhere _ k _ v _ p (
            insert_elsewhere _ k _ v _ t (
              lookup-if_missing _ k _ v _
                (lookup-trace_fields k trace_parent v _ q (lookup-if_missing _ k _ v _ e))))))))

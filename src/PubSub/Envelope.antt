-- ===== src/PubSub/Envelope.antt =====
-- pubsub/envelope.go: the cloud events that carry messages, as maps of JSON values.
pub mod Expiry
pub mod Kept
mod Tests
use dapr_components_contrib.Prelude.{
  ℕ, ◌+◌, Text, codes, text_eq, Option, none, some, List, [], ◌∷◌, ltb, Bool, true, false,
  if◌then◌else◌,
}
use dapr_components_contrib.Dict.{Dict, lookup, insert}
use dapr_components_contrib.State.Query.{Json, null, boolean, number, string, array, object}
use dapr_components_contrib.Metadata.{Property, absent, present, invalid}

abbrev default_to : Text → Text → Text
default_to value default = if text_eq value [] then default else value

-- what contenttype says of the data: whether it is JSON, and whether it is binary or a cloud event in
-- protobuf
pub data DataKind : Type 0 where
  json_data binary_data text_data : DataKind

-- the field and the value of the data; `unmarshal_precise` decodes JSON, `base64` is EncodeToString
unfoldable pub data_entry : (Text → Option Json) → (Text → Text) → DataKind → Text → Text × Json
data_entry unmarshal_precise base64 json_data data_ = elim (unmarshal_precise data_) [
  | some v ↦ (codes "data", v)
  | none ↦ (codes "data", string data_)
]
data_entry unmarshal_precise base64 binary_data data_ = (codes "data_base64", string (base64 data_))
data_entry unmarshal_precise base64 text_data data_ = (codes "data", string data_)

-- the arguments of NewCloudEventsEnvelope
pub record Published : Type 0 where
  pub id : Text
  pub source : Text
  pub event_type : Text
  pub subject : Text
  pub topic : Text
  pub pubsub_name : Text
  pub data_content_type : Text
  pub payload : Text
  pub trace_parent : Text
  pub trace_state : Text

-- NewCloudEventsEnvelope; `uuid` is a new identifier, `now` the text of the time, and `kind` tells the
-- kind of data by its content type
unfoldable pub new_cloud_events_envelope :
    (Text → Option Json)
    → (Text → Text)
    → (Text → Text → DataKind)
    → Text
    → Text
    → Published
    → Dict Json
unfolding data_entry insert text_eq
new_cloud_events_envelope unmarshal_precise base64 kind uuid now p =
    let content_type = default_to p.data_content_type (codes "text/plain") in
    let entry = data_entry unmarshal_precise base64 (kind content_type p.payload) p.payload in
    let ce = insert entry.0 entry.1 (
      (codes "id", string (default_to p.id uuid))
      ∷ (codes "specversion", string (codes "1.0"))
      ∷ (codes "datacontenttype", string content_type)
      ∷ (codes "source", string (default_to p.source (codes "Dapr")))
      ∷ (codes "type", string (default_to p.event_type (codes "com.dapr.event.sent")))
      ∷ (codes "topic", string p.topic)
      ∷ (codes "pubsubname", string p.pubsub_name)
      ∷ (codes "traceid", string p.trace_parent)
      ∷ (codes "traceparent", string p.trace_parent)
      ∷ (codes "tracestate", string p.trace_state)
      ∷ (codes "time", string now)
      ∷ []) in
    if text_eq p.subject [] then ce else insert (codes "subject") (string p.subject) ce

-- m[key] is set where the key is not there
unfoldable pub if_missing : Text → Text → Dict Json → Dict Json
if_missing key value m = elim (lookup key m) [ none ↦ insert key (string value) m | some v ↦ m ]

-- m[key] is set where the key is not there or is null
unfoldable pub if_nil : Text → Text → Dict Json → Dict Json
if_nil key value m = elim (lookup key m) [
  | none ↦ insert key (string value) m
  | some null ↦ insert key (string value) m
  | some (boolean b) ↦ m
  | some (number n) ↦ m
  | some (string s) ↦ m
  | some (array js) ↦ m
  | some (object fs) ↦ m
]

-- the two trace fields that are set together
unfoldable pub trace_fields : Text → Dict Json → Dict Json
trace_fields trace_parent m = elim (lookup (codes "traceid") m) [
  | none ↦
      insert (codes "traceparent") (string trace_parent)
        (insert (codes "traceid") (string trace_parent) m)
  | some v ↦ m
]

-- FromCloudEvent, after the JSON is decoded to an object or to null, which is an empty map that cannot be
-- written to: `none` is the error of the decoder or the panic
unfoldable pub from_cloud_event :
    Option (Dict Json) → Text → Text → Text → Text → Text → Option (Dict Json)
unfolding if_missing if_nil trace_fields
from_cloud_event none topic pubsub trace_parent trace_state now = none
from_cloud_event (some m) topic pubsub trace_parent trace_state now = some (
    if_nil (codes "specversion") (codes "1.0") (
      if_nil (codes "type") (codes "com.dapr.event.sent") (
        if_nil (codes "source") (codes "Dapr") (
          insert (codes "pubsubname") (string pubsub) (
            insert (codes "topic") (string topic) (
              if_missing (codes "tracestate") trace_state
                (trace_fields trace_parent (if_missing (codes "time") now m))))))))

-- FromRawPayload
unfoldable pub from_raw_payload : (Text → Text) → Text → Text → Text → Text → Dict Json
from_raw_payload base64 uuid data_ topic pubsub =
    (codes "id", string uuid)
    ∷ (codes "specversion", string (codes "1.0"))
    ∷ (codes "datacontenttype", string (codes "application/octet-stream"))
    ∷ (codes "source", string (codes "Dapr"))
    ∷ (codes "type", string (codes "com.dapr.event.sent"))
    ∷ (codes "topic", string topic)
    ∷ (codes "pubsubname", string pubsub)
    ∷ (codes "data_base64", string (base64 data_))
    ∷ []

-- what fmt.Sprintf("%s", e) gives for the value of the field, and nothing for the empty string
unfoldable pub expiration_text : (Json → Text) → Json → Option Text
unfolding text_eq
expiration_text sprint (string s) = if text_eq s [] then none else some s
expiration_text sprint null = some (sprint null)
expiration_text sprint (boolean b) = some (sprint (boolean b))
expiration_text sprint (number n) = some (sprint (number n))
expiration_text sprint (array js) = some (sprint (array js))
expiration_text sprint (object fs) = some (sprint (object fs))

-- the end of HasExpired
unfoldable pub is_before : (Text → Option ℕ) → ℕ → Option Text → Bool
is_before parse_time now none = false
is_before parse_time now (some e) = elim (parse_time e) [ none ↦ false | some t ↦ ltb t now ]

-- HasExpired: `parse_time` is time.Parse at RFC 3339, times are counted in nanoseconds
unfoldable pub has_expired : (Json → Text) → (Text → Option ℕ) → ℕ → Dict Json → Bool
unfolding expiration_text is_before
has_expired sprint parse_time now ce = elim (lookup (codes "expiration") ce) [
  | none ↦ false
  | some e ↦ is_before parse_time now (expiration_text sprint e)
]

-- ApplyMetadata, with what TryGetTTL gives for the metadata; `format_time` is Format at RFC 3339
unfoldable pub apply_metadata : (ℕ → Text) → ℕ → Bool → Property ℕ → Dict Json → Dict Json
apply_metadata format_time now has_message_ttl absent ce = ce
apply_metadata format_time now has_message_ttl (invalid e) ce = ce
apply_metadata format_time now has_message_ttl (present ttl) ce =
    if has_message_ttl
    then ce
    else insert (codes "expiration") (string (format_time (now + ttl))) ce

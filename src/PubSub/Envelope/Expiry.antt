-- ===== src/PubSub/Envelope/Expiry.antt =====
-- pubsub/envelope.go: the expiration that ApplyMetadata writes and HasExpired reads.
use dapr_components_contrib.Prelude.{
  ℕ, ◌+◌, Text, codes, text_eq, Option, none, some, ltb, Bool, false, ◌≡◌, refl, ap, ◌∙◌, [],
}
use dapr_components_contrib.Dict.{Dict, lookup, insert}
use dapr_components_contrib.Dict.Laws.{lookup-insert}
use dapr_components_contrib.State.Query.{Json, string}
use dapr_components_contrib.Metadata.{present}
use dapr_components_contrib.PubSub.Envelope.{
  expiration_text, is_before, has_expired, apply_metadata,
}

-- HasExpired on the value of the field
abbrev expired_at : (Json → Text) → (Text → Option ℕ) → ℕ → Option Json → Bool
expired_at sprint parse_time now none = false
expired_at sprint parse_time now (some e) = is_before parse_time now (expiration_text sprint e)

has_expired_at :
    (sprint : Json → Text) (parse_time : Text → Option ℕ) (now : ℕ) (ce : Dict Json)
    → has_expired sprint parse_time now ce
      ≡ expired_at sprint parse_time now (lookup (codes "expiration") ce)
unfolding has_expired
has_expired_at sprint parse_time now ce = elim (lookup (codes "expiration") ce) [
  | none ↦ refl
  | some e ↦ refl
]

expiration_inserted :
    (e : Text) (ce : Dict Json)
    → lookup (codes "expiration") (insert (codes "expiration") (string e) ce) ≡ some (string e)
unfolding text_eq
expiration_inserted e ce = lookup-insert (codes "expiration") (codes "expiration") (string e) ce

-- If the format of a time is no empty text and is read back as some time, an event to which a time to live
-- was applied has expired exactly where that time is past: the expiration replaces one that was there.
pub has_expired-apply_metadata :
    (sprint : Json → Text) (parse_time : Text → Option ℕ) (format_time : ℕ → Text)
    → (now ttl later read : ℕ) (ce : Dict Json) → text_eq (format_time (now + ttl)) [] ≡ false
    → parse_time (format_time (now + ttl)) ≡ some read
    → has_expired sprint parse_time later (apply_metadata format_time now false (present ttl) ce)
      ≡ ltb read later
unfolding apply_metadata expiration_text is_before
has_expired-apply_metadata sprint parse format now ttl later read ce nonempty parsed =
    has_expired_at sprint parse later _
    ∙ ap (expired_at sprint parse later) (expiration_inserted (format (now + ttl)) ce)
    ∙ rw (nonempty, parsed) refl

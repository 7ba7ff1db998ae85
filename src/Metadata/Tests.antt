-- ===== src/Metadata/Tests.antt =====
-- Runs for the properties of a request.
use dapr_components_contrib.Prelude.{
  ◌-◌, ◌^◌, Text, codes, text_eq, Option, none, some, [], ◌∷◌, ◌≡◌, refl, if◌then◌else◌,
}
use dapr_components_contrib.Dict.{Dict, lookup, insert}
use dapr_components_contrib.Strconv.{ℤ, parse_int}
use dapr_components_contrib.Metadata.{
  present, ttl_of_seconds, read_ttl, try_get_priority, non_empty_property, priority_of,
  get_metadata_property, lc_props, first_property,
}

-- a parser that takes no duration
abbrev no_duration : Text → Option ℤ
no_duration s = none

-- 18446744074 seconds wrap around to less than one second, which is not negative.
wrapped_ttl : read_ttl no_duration (codes "18446744074") ≡ present 290448384
unfolding read_ttl ttl_of_seconds text_eq parse_int
wrapped_ttl = refl

large_ttl : read_ttl no_duration (codes "9223372037") ≡ present (2 ^ 63 - 1)
unfolding read_ttl ttl_of_seconds text_eq parse_int
large_ttl = refl

ten_seconds : read_ttl no_duration (codes "10") ≡ present 10000000000
unfolding read_ttl ttl_of_seconds text_eq parse_int
ten_seconds = refl

abbrev props : Dict Text
props = (codes "TTL", codes "10") ∷ (codes "priority", codes "300") ∷ []

high_priority : try_get_priority props ≡ present 255
unfolding try_get_priority non_empty_property priority_of lookup text_eq parse_int
high_priority = refl

-- a conversion to lower case of the one name above
abbrev lower : Text → Text
lower k = if text_eq k (codes "TTL") then codes "ttl" else k

ttl_property :
    get_metadata_property lower props (codes "TTL" ∷ codes "priority" ∷ []) ≡ some (codes "10")
unfolding get_metadata_property lc_props first_property lookup insert text_eq
ttl_property = refl

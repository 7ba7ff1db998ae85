-- ===== src/Metadata.antt =====
-- metadata/utils.go: the properties of a request that the components read.
pub mod Bounds
mod Tests
use dapr_components_contrib.Prelude.{
  ℕ, zero, suc, ◌+◌, ◌-◌, ◌*◌, ◌%◌, ◌^◌, Text, codes, text_eq, Option, none, some, List, [], ◌∷◌,
  ◌++◌, ltb, Bool, true, false, ◌||◌, if◌then◌else◌,
}
use dapr_components_contrib.Dict.{Dict, lookup, insert}
use dapr_components_contrib.Strconv.{ℤ, pos, negsuc, pos_part, parse_int, format_int}

-- the value of a property, its absence, or an error
pub data Property {ℓ} (A : Type ℓ) : Type ℓ where
  absent : Property A
  present : A → Property A
  invalid : Text → Property A

-- a time.Duration of n seconds, which wraps around, or math.MaxInt64 where it is negative then
unfoldable pub seconds : ℕ → ℕ
seconds n =
    let wrapped = n * 10 ^ 9 % 2 ^ 64 in if ltb wrapped (2 ^ 63) then wrapped else 2 ^ 63 - 1

-- the number of seconds in TryGetTTL
unfoldable pub ttl_of_seconds : Option ℤ → Text → Property ℕ
unfolding seconds
ttl_of_seconds none val =
    invalid (codes "ttl value must be a valid integer: actual is '" ++ val ++ codes "'")
ttl_of_seconds (some (negsuc n)) val =
    invalid (
      codes "ttl value must be higher than zero: actual is '" ++ format_int (negsuc n) ++ codes "'")
ttl_of_seconds (some (pos zero)) val =
    invalid (
      codes "ttl value must be higher than zero: actual is '" ++ format_int (pos zero) ++ codes "'")
ttl_of_seconds (some (pos (suc n))) val = present (seconds (suc n))

-- TryGetTTL, from the value on; `parse_duration` is time.ParseDuration
unfoldable pub read_ttl : (Text → Option ℤ) → Text → Property ℕ
read_ttl parse_duration val = if text_eq val (codes "") then absent else elim (parse_duration val) [
  | some duration ↦ present (pos_part duration)
  | none ↦ ttl_of_seconds (parse_int val) val
]

-- TryGetTTL; `get_metadata_property` is kitmd.GetMetadataProperty, which gives the value of the first of
-- the names that is there
unfoldable pub try_get_ttl :
    (Dict Text → List Text → Text) → (Text → Option ℤ) → Dict Text → Property ℕ
unfolding read_ttl
try_get_ttl get_metadata_property parse_duration props =
    read_ttl parse_duration (get_metadata_property props (codes "ttl" ∷ codes "ttlInSeconds" ∷ []))

-- the number in TryGetPriority, as a uint8
unfoldable pub priority_of : Option ℤ → Text → Property ℕ
priority_of none val =
    invalid (codes "priority value must be a valid integer: actual is '" ++ val ++ codes "'")
priority_of (some (negsuc n)) val = present 0
priority_of (some (pos n)) val = present (if ltb 255 n then 255 else n % 2 ^ 8)

-- val, ok := props[key]; ok && val != ""
unfoldable pub non_empty_property : Text → Dict Text → Option Text
non_empty_property key props = elim (lookup key props) [
  | none ↦ none
  | some val ↦ if text_eq val (codes "") then none else some val
]

-- TryGetPriority
unfoldable pub try_get_priority : Dict Text → Property ℕ
try_get_priority props = elim (non_empty_property (codes "priority") props) [
  | none ↦ absent
  | some val ↦ priority_of (parse_int val) val
]

-- strconv.ParseBool
unfoldable pub parse_bool : Text → Option Bool
unfolding text_eq
parse_bool s =
    if text_eq s (codes "1")
      || text_eq s (codes "t")
      || text_eq s (codes "T")
      || text_eq s (codes "true")
      || text_eq s (codes "TRUE")
      || text_eq s (codes "True")
    then some true
    else if text_eq s (codes "0")
        || text_eq s (codes "f")
        || text_eq s (codes "F")
        || text_eq s (codes "false")
        || text_eq s (codes "FALSE")
        || text_eq s (codes "False")
    then some false
    else none

-- IsRawPayload
unfoldable pub is_raw_payload : Dict Text → Property Bool
is_raw_payload props = elim (non_empty_property (codes "rawPayload") props) [
  | none ↦ present false
  | some val ↦ elim (parse_bool val) [
    | some b ↦ present b
    | none ↦
        invalid (codes "rawPayload value must be a valid boolean: actual is '" ++ val ++ codes "'")
  ]
]

-- TryGetQueryIndexName
unfoldable pub try_get_query_index_name : Dict Text → Option Text
try_get_query_index_name props = non_empty_property (codes "queryIndexName") props

-- the map lcProps of GetMetadataProperty, as the range over the entries in this order makes it
unfoldable pub lc_props : (Text → Text) → Dict Text → Dict Text → Dict Text
lc_props to_lower lower [] = lower
lc_props to_lower lower ((k, v) ∷ props) = lc_props to_lower (insert (to_lower k) v lower) props

-- the loop of GetMetadataProperty over the names
unfoldable pub first_property : (Text → Text) → Dict Text → List Text → Option Text
first_property to_lower lower [] = none
first_property to_lower lower (k ∷ keys) = elim (lookup (to_lower k) lower) [
  | some val ↦ some val
  | none ↦ first_property to_lower lower keys
]

-- GetMetadataProperty; `to_lower` is strings.ToLower
unfoldable pub get_metadata_property : (Text → Text) → Dict Text → List Text → Option Text
unfolding lc_props first_property
get_metadata_property to_lower props keys =
    first_property to_lower (lc_props to_lower [] props) keys

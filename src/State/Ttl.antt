-- ===== src/State/Ttl.antt =====
-- state/utils/ttl.go
use dapr_components_contrib.Prelude.{
  ℕ, ◌^◌, ◌-◌, Text, codes, text_eq, Option, none, some, ltb, Bool, ◌==◌, if◌then◌else◌, not,
}
use dapr_components_contrib.Dict.{Dict, lookup}
use dapr_components_contrib.Strconv.{ℤ, pos, negsuc, parse_int}
use dapr_components_contrib.State.Errors.{Result, ok, err, invalid_ttl}

abbrev pub metadata_ttl_key : Text
metadata_ttl_key = codes "ttlInSeconds"

-- m[k] on a map of strings: the empty string for a missing key
unfoldable pub value_or_empty : Text → Dict Text → Text
unfolding lookup
value_or_empty k m = elim (lookup k m) [ none ↦ codes "" | some v ↦ v ]

abbrev pub max_int32 : ℕ
max_int32 = 2 ^ 31 - 1

-- parsedVal < -1 || parsedVal > math.MaxInt32
out_of_range : ℤ → Bool
out_of_range (pos n) = ltb max_int32 n
out_of_range (negsuc n) = not (n == 0)

checked_ttl : Text → Option ℤ → Result (Option ℤ)
unfolding out_of_range
checked_ttl val none = err (invalid_ttl val)
checked_ttl val (some i) = if out_of_range i then err (invalid_ttl val) else ok (some i)

-- ParseTTL; ParseTTL64 is the same at type int64
unfoldable pub parse_ttl : Dict Text → Result (Option ℤ)
unfolding value_or_empty parse_int checked_ttl text_eq
parse_ttl request_metadata =
    let val = value_or_empty metadata_ttl_key request_metadata in
    if text_eq val (codes "") then ok none else checked_ttl val (parse_int val)

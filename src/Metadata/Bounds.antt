-- ===== src/Metadata/Bounds.antt =====
-- metadata/utils.go: the ranges of the time to live and of the priority.
use dapr_components_contrib.Prelude.{
  ℕ, suc, ◌*◌, ◌^◌, ◌<◌, Text, codes, text_eq, Option, none, some, List, [], ◌∷◌, ltb,
  if◌then◌else◌, false, ◌≡◌, refl, ap, ◌∙◌, arith,
}
use dapr_components_contrib.Dict.{Dict, lookup}
use dapr_components_contrib.Strconv.{ℤ, pos, negsuc, parse_int}
use dapr_components_contrib.Metadata.{
  absent, present, seconds, ttl_of_seconds, read_ttl, try_get_ttl, priority_of, non_empty_property,
  try_get_priority,
}

seconds_lem : (n : ℕ) → n * 10 ^ 9 < 2 ^ 63 → seconds n ≡ n * 10 ^ 9
unfolding seconds
seconds_lem n h = ground arith

read_ttl_lem :
    (parse_duration : Text → Option ℤ) (val : Text) (n : ℕ)
    → text_eq val [] ≡ false
    → parse_duration val ≡ none
    → parse_int val ≡ some (pos (suc n))
    → suc n * 10 ^ 9 < 2 ^ 63
    → read_ttl parse_duration val ≡ present (suc n * 10 ^ 9)
unfolding read_ttl ttl_of_seconds
read_ttl_lem parse val n v d p b =
    rw (v, d) (ap (λ o. ttl_of_seconds o val) p ∙ ap present (seconds_lem (suc n) b))

-- A property that is a positive number of seconds is read as that many nanoseconds, if they are below
-- 2 ^ 63 and the text is no duration with a unit.
pub try_get_ttl_lem :
    (get_metadata_property : Dict Text → List Text → Text) (parse_duration : Text → Option ℤ)
    → (props : Dict Text) (val : Text) (n : ℕ)
    → get_metadata_property props (codes "ttl" ∷ codes "ttlInSeconds" ∷ []) ≡ val
    → text_eq val [] ≡ false
    → parse_duration val ≡ none
    → parse_int val ≡ some (pos (suc n))
    → suc n * 10 ^ 9 < 2 ^ 63
    → try_get_ttl get_metadata_property parse_duration props ≡ present (suc n * 10 ^ 9)
unfolding try_get_ttl
try_get_ttl_lem get parse props val n e v d p b =
    ap (read_ttl parse) e ∙ read_ttl_lem parse val n v d p b

-- the priority nearest to a number
abbrev pub clamped : ℤ → ℕ
clamped (negsuc n) = 0
clamped (pos n) = if ltb n 256 then n else 255

priority_of_lem : (i : ℤ) (val : Text) → priority_of (some i) val ≡ present (clamped i)
unfolding priority_of
priority_of_lem (negsuc n) val = refl
priority_of_lem (pos n) val = ap present (ground arith)

non_empty_property_lem :
    (key : Text) (props : Dict Text) (val : Text)
    → lookup key props ≡ some val
    → text_eq val [] ≡ false
    → non_empty_property key props ≡ some val
unfolding non_empty_property
non_empty_property_lem key props val e v = rw (e, non_empty_property, v) refl

-- A priority that is a number is read as the nearest one from 0 to 255.
pub try_get_priority_lem :
    (props : Dict Text) (val : Text) (i : ℤ)
    → lookup (codes "priority") props ≡ some val
    → text_eq val [] ≡ false
    → parse_int val ≡ some i
    → try_get_priority props ≡ present (clamped i)
unfolding try_get_priority
try_get_priority_lem props val i e v p =
    ap (λ o. elim o [ none ↦ absent | some val ↦ priority_of (parse_int val) val ])
      (non_empty_property_lem _ props val e v)
    ∙ (ap (λ o. priority_of o val) p ∙ priority_of_lem i val)

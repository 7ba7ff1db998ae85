-- ===== src/State/Stringify/Tests.antt =====
-- Runs and a witness for the texts of values.
use dapr_components_contrib.Prelude.{
  Text, codes, Option, none, some, [], ◌∷◌, ◌++◌, true, ◌≡◌, ◌↔◌, refl, All,
}
use dapr_components_contrib.Strconv.{negsuc, format_int, format_uint}
use dapr_components_contrib.State.Stringify.{
  int, string, other, escape_quotes, trim_newline, json_stringify,
}
use dapr_components_contrib.State.Stringify.RoundTrip.{is_plain, read_json_string}
use dapr_components_contrib.State.Stringify.Losses.{json_stringify_iff}

-- floats by their texts
abbrev float_text : Text → Text
float_text x = x

abbrev encode : Text → Text × Option Text
encode written = (written ++ 10 ∷ [], none)

minus_five : json_stringify float_text encode (int (negsuc 4)) ≡ (codes "-5", none)
unfolding json_stringify format_int format_uint
minus_five = refl

without_newline : json_stringify float_text encode (other (codes "[1]")) ≡ (codes "[1]", none)
unfolding json_stringify trim_newline
without_newline = refl

quotes_escaped :
    json_stringify float_text encode (string (b'a' ∷ b'"' ∷ []))
    ≡ (b'"' ∷ b'a' ∷ b'\\' ∷ b'"' ∷ b'"' ∷ [], none)
unfolding json_stringify escape_quotes
quotes_escaped = refl

-- A backslash at the end makes a text that is not JSON, and one before a letter makes another string.
backslash_at_end :
    read_json_string (json_stringify float_text encode (string (b'a' ∷ b'\\' ∷ []))).0 ≡ none
unfolding json_stringify escape_quotes
backslash_at_end = refl

backslash_inside :
    read_json_string (json_stringify float_text encode (string (b'\\' ∷ b'n' ∷ []))).0
    ≡ some (10 ∷ [])
unfolding json_stringify escape_quotes
backslash_inside = refl

json_stringify_iff_example :
    (read_json_string (json_stringify float_text encode (string (b'a' ∷ b'"' ∷ []))).0
      ≡ some (b'a' ∷ b'"' ∷ []))
    ↔ All (λ c. is_plain c ≡ true) (b'a' ∷ b'"' ∷ [])
json_stringify_iff_example = json_stringify_iff float_text encode (b'a' ∷ b'"' ∷ [])

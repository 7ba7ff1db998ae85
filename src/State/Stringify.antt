-- ===== src/State/Stringify.antt =====
-- state/utils/utils.go: the text in which a store keeps a value.
pub mod Losses
pub mod RoundTrip
mod Tests
use dapr_components_contrib.Prelude.{
  ℕ, Text, codes, Option, none, some, List, [], ◌∷◌, ◌++◌, ◌==◌, Bool, true, false, if◌then◌else◌,
}
use dapr_components_contrib.Strconv.{ℤ, format_int, format_uint}

-- a value by its dynamic type, where A holds the floats and B the values of all other types, uint8 among them
pub data Value {ℓ κ} (A : Type ℓ) (B : Type κ) : Type (ℓ ⊔ κ) where
  bytes : Text → Value A B
  int : ℤ → Value A B
  uint : ℕ → Value A B
  float : A → Value A B
  bool : Bool → Value A B
  string : Text → Value A B
  other : B → Value A B

-- strings.ReplaceAll(value, `"`, `\"`)
unfoldable pub escape_quotes : Text → Text
escape_quotes [] = []
escape_quotes (c ∷ s) =
    let rest = escape_quotes s in if c == b'"' then b'\\' ∷ c ∷ rest else c ∷ rest

-- bytes.TrimSuffix(b, []byte{0xa})
unfoldable pub trim_newline : Text → Text
trim_newline [] = []
trim_newline (c ∷ []) = if c == 10 then [] else c ∷ []
trim_newline (c ∷ d ∷ s) = c ∷ trim_newline (d ∷ s)

module _ {ℓ κ} {A : Type ℓ} {B : Type κ} where
  -- JSONStringify, with its error; `format_float` is FormatFloat with the shortest digits, `encode` is
  -- what the JSON encoder writes and its error
  unfoldable pub json_stringify :
      (A → Text) → (B → Text × Option Text) → Value A B → Text × Option Text
  unfolding escape_quotes trim_newline
  json_stringify format_float encode (bytes b) = (b, none)
  json_stringify format_float encode (int i) = (format_int i, none)
  json_stringify format_float encode (uint n) = (format_uint n, none)
  json_stringify format_float encode (float x) = (format_float x, none)
  json_stringify format_float encode (bool true) = (codes "true", none)
  json_stringify format_float encode (bool false) = (codes "false", none)
  json_stringify format_float encode (string s) = (b'"' ∷ escape_quotes s ++ b'"' ∷ [], none)
  json_stringify format_float encode (other v) =
      let written = encode v in (trim_newline written.0, written.1)

  -- Marshal, where `marshaler` gives the bytes and an error for a value that is not bytes already
  unfoldable pub marshal : (Value A B → Text × Option Text) → Value A B → Text × Option Text
  marshal marshaler (bytes b) = (b, none)
  marshal marshaler (int i) = marshaler (int i)
  marshal marshaler (uint n) = marshaler (uint n)
  marshal marshaler (float x) = marshaler (float x)
  marshal marshaler (bool b) = marshaler (bool b)
  marshal marshaler (string s) = marshaler (string s)
  marshal marshaler (other v) = marshaler (other v)

-- ===== src/State/Stringify/RoundTrip.antt =====
-- state/utils/utils.go: a string read back from the JSON that JSONStringify makes of it.
use dapr_components_contrib.Prelude.{
  ℕ, Text, Option, none, some, [], ◌∷◌, ◌++◌, ◌==◌, ltb, leb, Bool, true, false, if◌then◌else◌, ◌≡◌,
  refl, ap, ◌∙◌, arith, All, Bool-cases, inl, inr,
}
use mathlib.Core.Option.{none-ne-some}
use dapr_components_contrib.State.Stringify.{string, escape_quotes, json_stringify}

-- the characters after a backslash in a JSON string, the form with a number left out
abbrev pub escaped : ℕ → Option ℕ
escaped c =
    if c == b'"'
    then some c
    else if c == b'\\'
    then some c
    else if c == b'/'
    then some c
    else if c == b'b'
    then some 8
    else if c == b'f'
    then some 12
    else if c == b'n'
    then some 10
    else if c == b'r'
    then some 13
    else if c == b't'
    then some 9
    else none

abbrev pub with_first : Option ℕ → Option Text → Option Text
with_first none rest = none
with_first (some c) none = none
with_first (some c) (some s) = some (c ∷ s)

-- a reader of JSON strings, behind the opening quote
abbrev pub read_body : Text → Option Text
read_body [] = none
read_body (c ∷ []) = if c == b'"' then some [] else none
read_body (c ∷ d ∷ s) =
    let after_escape = read_body s in
    let after = read_body (d ∷ s) in
    if c == b'"'
    then none
    else if c == b'\\'
    then with_first (escaped d) after_escape
    else if ltb c 32
    then none
    else with_first (some c) after

abbrev pub read_json_string : Text → Option Text
read_json_string [] = none
read_json_string (c ∷ s) = if c == b'"' then read_body s else none

-- no backslash and no control character
abbrev pub is_plain : ℕ → Bool
is_plain c = if c == b'\\' then false else leb 32 c

read_plain :
    (c : ℕ) (t s : Text)
    → is_plain c ≡ true
    → (c == b'"') ≡ false
    → read_body t ≡ some s
    → read_body (c ∷ t) ≡ some (c ∷ s)
read_plain c [] s p n e = absurd (none-ne-some s e)
read_plain c (d ∷ t) s p n e = ground arith

pub escaped_quote : (c : ℕ) → (c == b'"') ≡ true → escaped c ≡ some c
escaped_quote c e = rw e refl

read_escape_quotes :
    (s : Text) → All (λ c. is_plain c ≡ true) s → read_body (escape_quotes s ++ b'"' ∷ []) ≡ some s
unfolding escape_quotes
read_escape_quotes [] h = refl
read_escape_quotes (c ∷ s) h = elim (Bool-cases (c == b'"')) [
  | inl quote ↦ rw quote (
      ap (λ o. with_first o (read_body (escape_quotes s ++ b'"' ∷ []))) (escaped_quote c quote)
      ∙ ap (with_first (some c)) (read_escape_quotes s h.1))
  | inr n ↦ rw n (read_plain c (escape_quotes s ++ b'"' ∷ []) s h.0 n (read_escape_quotes s h.1))
]

-- A string without backslashes and control characters is what the JSON text that JSONStringify makes of
-- it says, its quotes included.
pub read_json_string-json_stringify {ℓ κ} :
    {A : Type ℓ} {B : Type κ} (format_float : A → Text) (encode : B → Text × Option Text)
    → (s : Text) → All (λ c. is_plain c ≡ true) s
    → read_json_string (json_stringify format_float encode (string s)).0 ≡ some s
unfolding json_stringify
read_json_string-json_stringify format_float encode s h = read_escape_quotes s h

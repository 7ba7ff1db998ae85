-- ===== src/State/Stringify/Losses.antt =====
-- state/utils/utils.go: the strings that are not read back from the JSON that JSONStringify makes of them.
use dapr_components_contrib.Prelude.{
  ℕ, suc, ◌≤◌, Text, length, Option, none, some, [], ◌∷◌, ◌++◌, ◌==◌, ltb, true, false, ◌≡◌, ◌↔◌,
  refl, ap, sym, ◌∙◌, arith, All, Bool-cases, inl, inr, subst,
}
use mathlib.Core.List.{tail-eq_of_cons-eq}
use mathlib.Core.Option.{none-ne-some, some-injective}
use dapr_components_contrib.State.Stringify.{string, escape_quotes, json_stringify}
use dapr_components_contrib.State.Stringify.RoundTrip.{
  escaped, escaped_quote, with_first, read_body, is_plain, read_json_string,
  read_json_string-json_stringify,
}

-- what with_first gives has the head and the tail
with_first-some :
    (c : ℕ) (r : Option Text) (t : Text)
    → with_first (some c) r ≡ some t
    → (s : Text) × (r ≡ some s) × (t ≡ c ∷ s)
with_first-some c none t e = absurd (none-ne-some t e)
with_first-some c (some s) t e = (s, refl, sym (some-injective (c ∷ s) t e))

read_low :
    (c d : ℕ) (t : Text)
    → (c == b'"') ≡ false
    → (c == b'\\') ≡ false
    → ltb c 32 ≡ true
    → read_body (c ∷ d ∷ t) ≡ none
read_low c d t q b low = rw (q, b, low) refl

read_high :
    (c d : ℕ) (t : Text)
    → (c == b'"') ≡ false
    → (c == b'\\') ≡ false
    → ltb c 32 ≡ false
    → read_body (c ∷ d ∷ t) ≡ with_first (some c) (read_body (d ∷ t))
read_high c d t q b high = rw (q, b, high) refl

-- what is left to read behind a character that is read
first_read :
    (c : ℕ) (t r : Text)
    → (c == b'"') ≡ false
    → (c == b'\\') ≡ false
    → read_body (c ∷ t) ≡ some r
    → (is_plain c ≡ true) × (s : Text) × (read_body t ≡ some s) × (r ≡ c ∷ s)
first_read c [] r q b e = absurd (none-ne-some r (rw q refl ∙ e))
first_read c (d ∷ t) r q b e = elim (Bool-cases (ltb c 32)) [
  | inl low ↦ absurd (none-ne-some r (sym (read_low c d t q b low) ∙ e))
  | inr high ↦
      let parts = with_first-some c (read_body (d ∷ t)) r (sym (read_high c d t q b high) ∙ e) in
      (ground arith, parts.0, parts.1, parts.2)
]

-- the JSON text of a string, behind the opening quote
abbrev body : Text → Text
body s = escape_quotes s ++ b'"' ∷ []

body_quote : (c : ℕ) (s : Text) → (c == b'"') ≡ true → body (c ∷ s) ≡ b'\\' ∷ c ∷ body s
unfolding escape_quotes
body_quote c s q = rw q refl

body_other : (c : ℕ) (s : Text) → (c == b'"') ≡ false → body (c ∷ s) ≡ c ∷ body s
unfolding escape_quotes
body_other c s q = rw q refl

-- Any character but a backslash is read as it was written.
first_kept :
    (c : ℕ) (s r : Text)
    → (c == b'\\') ≡ false
    → read_body (body (c ∷ s)) ≡ some r
    → (is_plain c ≡ true) × (t : Text) × (read_body (body s) ≡ some t) × (r ≡ c ∷ t)
first_kept c s r b e = elim (Bool-cases (c == b'"')) [
  | inl q ↦
      let parts = with_first-some c (read_body (body s)) r (
        ap (λ o. with_first o (read_body (body s))) (sym (escaped_quote c q))
        ∙ ap read_body (sym (body_quote c s q))
        ∙ e) in
      (ground arith, parts.0, parts.1, parts.2)
  | inr q ↦ first_read c (body s) r q b (ap read_body (sym (body_other c s q)) ∙ e)
]

with_first-length :
    (o : Option ℕ) (r : Option Text) (t : Text)
    → with_first o r ≡ some t
    → (s : Text) × (r ≡ some s) × (length t ≡ suc (length s))
with_first-length none r t e = absurd (none-ne-some t e)
with_first-length (some c) none t e = absurd (none-ne-some t e)
with_first-length (some c) (some s) t e = (s, refl, ap length (sym (some-injective (c ∷ s) t e)))

-- A text ends with its closing quote.
quote_before : (s : Text) → read_body (b'"' ∷ body s) ≡ none
unfolding escape_quotes
quote_before [] = refl
quote_before (c ∷ s) = elim (Bool-cases (c == b'"')) [ inl q ↦ rw q refl | inr q ↦ rw q refl ]

lone_backslash : read_body (body (b'\\' ∷ [])) ≡ none
unfolding escape_quotes
lone_backslash = refl

equal_code : (c d : ℕ) → (c == d) ≡ true → c ≡ d
equal_code c d e = ground arith

-- A backslash takes the character behind it along.
backslash_lost :
    (d : ℕ) (s r : Text)
    → read_body (body (b'\\' ∷ d ∷ s)) ≡ some r
    → (t : Text) × (read_body (body s) ≡ some t) × (length r ≡ suc (length t))
unfolding escape_quotes
backslash_lost d s r e = elim (Bool-cases (d == b'"')) [
  | inl q ↦ absurd (
      none-ne-some r (
        sym (ap (with_first (some b'\\')) (quote_before s))
        ∙ subst (λ d. read_body (body (b'\\' ∷ d ∷ s)) ≡ some r) (equal_code d b'"' q) e))
  | inr q ↦
      with_first-length (escaped d) (read_body (body s)) r
        (ap (λ t. read_body (b'\\' ∷ t)) (sym (body_other d s q)) ∙ e)
]

backslash_first :
    (c : ℕ) (s r : Text)
    → (c == b'\\') ≡ true
    → read_body (body (c ∷ s)) ≡ some r
    → read_body (body (b'\\' ∷ s)) ≡ some r
backslash_first c s r b e = subst (λ c. read_body (body (c ∷ s)) ≡ some r) (equal_code c b'\\' b) e

no_lone_backslash {ℓ} :
    {A : Type ℓ} (c : ℕ) (r : Text) → (c == b'\\') ≡ true → read_body (body (c ∷ [])) ≡ some r → A
no_lone_backslash c r b e =
    absurd (none-ne-some r (sym lone_backslash ∙ backslash_first c [] r b e))

length-read_body : (s r : Text) → read_body (body s) ≡ some r → length r ≤ length s
unfolding escape_quotes
length-read_body [] r e = subst (λ r. length r ≤ 0) (some-injective [] r e) (omega arith)
length-read_body (c ∷ []) r e = elim (Bool-cases (c == b'\\')) [
  | inl b ↦ no_lone_backslash c r b e
  | inr b ↦
      let kept = first_kept c [] r b e in
      let shorter = length-read_body [] kept.1 kept.2 in
      subst (λ r. length r ≤ 1) (sym kept.3) (omega arith)
]
length-read_body (c ∷ d ∷ s) r e = elim (Bool-cases (c == b'\\')) [
  | inl b ↦
      let lost = backslash_lost d s r (backslash_first c (d ∷ s) r b e) in
      let shorter = length-read_body s lost.0 lost.1 in omega arith
  | inr b ↦
      let kept = first_kept c (d ∷ s) r b e in
      let shorter = length-read_body (d ∷ s) kept.1 kept.2 in
      subst (λ r. length r ≤ suc (suc (length s))) (sym kept.3) (omega arith)
]

read_body-plain : (s : Text) → read_body (body s) ≡ some s → All (λ c. is_plain c ≡ true) s
unfolding escape_quotes
read_body-plain [] e = tt
read_body-plain (c ∷ []) e = elim (Bool-cases (c == b'\\')) [
  | inl b ↦ no_lone_backslash c (c ∷ []) b e
  | inr b ↦ ((first_kept c [] (c ∷ []) b e).0, tt)
]
read_body-plain (c ∷ d ∷ s) e = elim (Bool-cases (c == b'\\')) [
  | inl b ↦
      let lost = backslash_lost d s (c ∷ d ∷ s) (backslash_first c (d ∷ s) (c ∷ d ∷ s) b e) in
      let shorter = length-read_body s lost.0 lost.1 in absurd (omega arith)
  | inr b ↦
      let kept = first_kept c (d ∷ s) (c ∷ d ∷ s) b e in
      (kept.0, read_body-plain (d ∷ s) (kept.2 ∙ ap some (sym (tail-eq_of_cons-eq kept.3))))
]

-- A JSON reader gives back a string from the text that JSONStringify makes of it exactly where the string has
-- no backslash and no control character.
pub json_stringify_iff {ℓ κ} :
    {A : Type ℓ} {B : Type κ} (format_float : A → Text) (encode : B → Text × Option Text) (s : Text)
    → (read_json_string (json_stringify format_float encode (string s)).0 ≡ some s)
      ↔ All (λ c. is_plain c ≡ true) s
unfolding json_stringify
json_stringify_iff format_float encode s =
    (read_body-plain s, read_json_string-json_stringify format_float encode s)

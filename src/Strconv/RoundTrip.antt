-- ===== src/Strconv/RoundTrip.antt =====
-- A 64-bit number that is printed reads back as itself.
use dapr_components_contrib.Prelude.{
  ℕ, zero, suc, ◌+◌, ◌-◌, ◌*◌, ◌/◌, ◌%◌, ◌^◌, ◌<◌, ◌≤◌, ◌∙◌, ap, Text, codes, text_eq, false,
  Option, none, some, [], ◌∷◌, ◌++◌, ltb, ◌≡◌, refl, arith, Bool-cases, inl, inr,
}
use native.Mathlib.Nat.{pow-suc}
use dapr_components_contrib.Strconv.{
  is_digit, digits, non_empty_digits, parse_uint, print, format_uint, ℤ, pos, negsuc, parse_int,
  format_int, positive, negative,
}

abbrev and_then : Option ℕ → Text → Option ℕ
and_then none t = none
and_then (some n) t = digits n t

-- Reading two pieces is reading the second onto the number of the first.
digits-append : (n : ℕ) (s t : Text) → digits n (s ++ t) ≡ and_then (digits n s) t
unfolding digits
digits-append n [] t = refl
digits-append n (c ∷ s) t = elim (Bool-cases (is_digit c)) [
  | inl h ↦ rw h (digits-append (n * 10 + (c - b'0')) s t)
  | inr h ↦ rw h refl
]

div_ten_bound : (fuel n : ℕ) → n < 10 ^ suc fuel → n / 10 < 10 ^ fuel
div_ten_bound fuel n h = omega (arith, pow-suc 10 fuel)

digit_last : (m : ℕ) → digits (m / 10) ((b'0' + m % 10) ∷ []) ≡ some m
unfolding digits is_digit
digit_last m = ground arith

pub digits-print : (fuel n : ℕ) → n < 10 ^ fuel → digits 0 (print fuel n) ≡ some n
unfolding print
digits-print zero n h = unfold digits in ground arith
digits-print (suc fuel) n h = elim (Bool-cases (ltb n 10)) [
  | inl small ↦ rw small (unfold digits is_digit in ground arith)
  | inr large ↦
      rw
        (
          large,
          digits-append 0 (print fuel (n / 10)) ((b'0' + n % 10) ∷ []),
          digits-print fuel (n / 10) (div_ten_bound fuel n h),
        )
        (digit_last n)
]

non_empty_digits-append :
    (s : Text) (c : ℕ) → non_empty_digits (s ++ c ∷ []) ≡ digits 0 (s ++ c ∷ [])
unfolding non_empty_digits
non_empty_digits-append [] c = refl
non_empty_digits-append (d ∷ s) c = refl

non_empty_digits-print :
    (fuel n : ℕ) → non_empty_digits (print (suc fuel) n) ≡ digits 0 (print (suc fuel) n)
unfolding print
non_empty_digits-print fuel n = elim (Bool-cases (ltb n 10)) [
  | inl small ↦ rw small (unfold non_empty_digits in refl)
  | inr large ↦ rw large (non_empty_digits-append (print fuel (n / 10)) (b'0' + n % 10))
]

print_20 : (n : ℕ) → n < 2 ^ 64 → digits 0 (print 20 n) ≡ some n
print_20 n h = digits-print 20 n (omega arith)

-- Every 64-bit number that `FormatUint` prints reads back by `ParseUint` as itself.
pub parse_uint-format_uint : (n : ℕ) → n < 2 ^ 64 → parse_uint (format_uint n) ≡ some n
unfolding parse_uint format_uint
parse_uint-format_uint n h = rw (non_empty_digits-print 19 n, print_20 n h) (ground arith)

-- The number does not begin with a sign.
starts_with_digit : (fuel n : ℕ) → (c : ℕ) × (s : Text) × (print (suc fuel) n ≡ c ∷ s) × (b'0' ≤ c)
unfolding print
starts_with_digit zero n = elim (Bool-cases (ltb n 10)) [
  | inl small ↦ (b'0' + n, [], rw small refl, omega arith)
  | inr large ↦ (b'0' + n % 10, [], rw large refl, omega arith)
]
starts_with_digit (suc fuel) n = elim (Bool-cases (ltb n 10)) [
  | inl small ↦ (b'0' + n, [], rw small refl, omega arith)
  | inr large ↦
      let (c, s, e, h) = starts_with_digit fuel (n / 10) in
      (c, s ++ (b'0' + n % 10) ∷ [], rw large (ap (λ t. t ++ (b'0' + n % 10) ∷ []) e), h)
]

parse_int_unsigned :
    (t : Text) (c : ℕ) (s : Text) → t ≡ c ∷ s → b'0' ≤ c → parse_int t ≡ positive (parse_uint t)
unfolding parse_int
parse_int_unsigned t c s e h = rw e (ground arith)

unfoldable pub IsInt64 : ℤ → Type 0
IsInt64 (pos n) = n < 2 ^ 63
IsInt64 (negsuc n) = n < 2 ^ 63

unsigned : (n : ℕ) → (c : ℕ) × (s : Text) × (format_uint n ≡ c ∷ s) × (b'0' ≤ c)
unfolding format_uint
unsigned n = starts_with_digit 19 n

positive_lem : (n : ℕ) → n < 2 ^ 63 → positive (some n) ≡ some (pos n)
unfolding positive
positive_lem n h = ground arith

negative_lem : (n : ℕ) → n < 2 ^ 63 → negative (some (suc n)) ≡ some (negsuc n)
unfolding negative
negative_lem n h = ground arith

pub format_int_non_empty : (i : ℤ) → text_eq (format_int i) (codes "") ≡ false
unfolding format_int text_eq
format_int_non_empty (pos n) = let (c, s, e, d) = unsigned n in rw e refl
format_int_non_empty (negsuc n) = refl

-- Every int64 that `FormatInt` prints reads back by `ParseInt` as itself.
pub parse_int-format_int : (i : ℤ) → IsInt64 i → parse_int (format_int i) ≡ some i
unfolding format_int IsInt64
parse_int-format_int (pos n) h =
    let (c, s, e, d) = unsigned n in
    parse_int_unsigned (format_uint n) c s e d
    ∙ (ap positive (parse_uint-format_uint n (omega arith)) ∙ positive_lem n h)
parse_int-format_int (negsuc n) h =
    unfold parse_int in
    ap negative (parse_uint-format_uint (suc n) (omega arith)) ∙ negative_lem n h

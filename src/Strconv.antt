-- ===== src/Strconv.antt =====
-- What the program uses of Go's package `strconv`, in base 10 and for 64-bit numbers.
pub mod RoundTrip
use dapr_components_contrib.Prelude.{
  ℕ, zero, suc, ◌+◌, ◌-◌, ◌*◌, ◌/◌, ◌%◌, ◌^◌, Text, Option, none, some, List, [], ◌∷◌, ◌++◌, ltb,
  leb, ◌==◌, ◌&&◌, Bool, if◌then◌else◌,
}

-- `negsuc n` is -(n + 1).
pub data ℤ : Type 0 where
  pos : ℕ → ℤ
  negsuc : ℕ → ℤ

abbrev pub negate : ℕ → ℤ
negate zero = pos 0
negate (suc n) = negsuc n

abbrev pub is_negative : ℤ → Bool
is_negative (pos n) = Bool.false
is_negative (negsuc n) = Bool.true

-- The value of a number that is not negative, and 0 for one that is.
abbrev pub pos_part : ℤ → ℕ
pos_part (pos n) = n
pos_part (negsuc n) = 0

pub is_digit : ℕ → Bool
is_digit c = leb b'0' c && leb c b'9'

-- The digits of a number, read from the left onto what was read before.
pub digits : ℕ → Text → Option ℕ
digits n [] = some n
digits n (c ∷ s) = let rest = digits (n * 10 + (c - b'0')) s in if is_digit c then rest else none

non_empty_digits : Text → Option ℕ
non_empty_digits [] = none
non_empty_digits (c ∷ s) = digits 0 (c ∷ s)

below_or_none : ℕ → Option ℕ → Option ℕ
below_or_none bound none = none
below_or_none bound (some n) = if ltb n bound then some n else none

-- strconv.ParseUint(s, 10, 64); `none` is an error
unfoldable pub parse_uint : Text → Option ℕ
unfolding digits is_digit non_empty_digits below_or_none
parse_uint s = below_or_none (2 ^ 64) (non_empty_digits s)

positive : Option ℕ → Option ℤ
positive none = none
positive (some n) = if ltb n (2 ^ 63) then some (pos n) else none

negative : Option ℕ → Option ℤ
negative none = none
negative (some n) = if leb n (2 ^ 63) then some (negate n) else none

-- strconv.ParseInt(s, 10, 64), which `Atoi` and `ParseInt(s, 10, 0)` are on a 64-bit machine
unfoldable pub parse_int : Text → Option ℤ
unfolding parse_uint positive negative
parse_int [] = none
parse_int (c ∷ s) =
    if c == b'+'
    then positive (parse_uint s)
    else if c == b'-'
    then negative (parse_uint s)
    else positive (parse_uint (c ∷ s))

-- The decimal digits of a number. A number below 10 ^ fuel has its digits written in full.
pub print : ℕ → ℕ → Text
print zero n = []
print (suc fuel) n =
    let before = print fuel (n / 10) in
    if ltb n 10 then (b'0' + n) ∷ [] else before ++ (b'0' + n % 10) ∷ []

-- strconv.FormatUint(n, 10): 20 digits hold every 64-bit number.
unfoldable pub format_uint : ℕ → Text
unfolding print
format_uint n = print 20 n

-- strconv.FormatInt(i, 10), and strconv.Itoa
unfoldable pub format_int : ℤ → Text
format_int (pos n) = format_uint n
format_int (negsuc n) = b'-' ∷ format_uint (suc n)

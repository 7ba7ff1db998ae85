-- ===== src/State/InMemory/Accepted.antt =====
-- state/in-memory/in_memory.go: the parameters and values of a `Set` that are accepted, described apart
-- from the code.
use dapr_components_contrib.Prelude.{
  ℕ, Text, codes, text_eq, text_eq_iff, Option, none, some, ◌≡◌, ◌↔◌, ◌⊎◌, inl, inr, refl, sym, ap,
  ◌∙◌, arith, Bool-cases, if◌then◌else◌, subst,
}
use mathlib.Core.Option.{some-injective}
use dapr_components_contrib.Dict.{Dict}
use dapr_components_contrib.Strconv.{ℤ, pos, negsuc, parse_int}
use dapr_components_contrib.State.Errors.{Result, ok, err, invalid_ttl, ◌>>◌}
use dapr_components_contrib.State.Options.{
  first_write, last_write, strong, eventual, validate_concurrency_option,
  validate_consistency_option, check_request_options, set_option,
}
use dapr_components_contrib.State.Requests.{Value, bytes, other, SetRequest}
use dapr_components_contrib.State.Ttl.{metadata_ttl_key, value_or_empty}
use dapr_components_contrib.State.InMemory.{
  marshal, clamped_ttl, do_parse_ttl_in_seconds, do_set_validate_parameters,
}

abbrev pub OneOf : Text → Text → Text → Type 0
OneOf a b t = (t ≡ codes "") ⊎ ((t ≡ a) ⊎ (t ≡ b))

-- A negative number of seconds counts as 0.
abbrev pub CountsAs : ℤ → ℕ → Type 0
CountsAs (pos k) n = k ≡ n
CountsAs (negsuc k) n = 0 ≡ n

-- the number of seconds for the text of ttlInSeconds, which is empty where there is none
abbrev pub Seconds : Text → ℕ → Type 0
Seconds s n =
    if text_eq s (codes "") then (0 ≡ n) else ((i : ℤ) × (parse_int s ≡ some i) × CountsAs i n)

-- What the options and the metadata of a request have to be, and the time to live that they ask for.
abbrev pub Parameters : SetRequest → ℕ → Type 0
Parameters req ttl =
    OneOf strong eventual req.options.consistency
    × OneOf first_write last_write req.options.concurrency
    × Seconds (value_or_empty metadata_ttl_key req.metadata) ttl

-- The bytes that a value is stored as.
abbrev pub StoredAs : Value → Text → Type 0
StoredAs (bytes b) t = b ≡ t
StoredAs (other o) t = o ≡ some t

pub marshal_iff : (v : Value) (t : Text) → (marshal v ≡ ok t) ↔ StoredAs v t
unfolding marshal
marshal_iff (bytes b) t = (λ e. cc, λ e. ap ok e)
marshal_iff (other (some b)) t = (λ e. cc, λ e. cc)
marshal_iff (other none) t = (λ e. cc, λ e. cc)

consistency_iff : (c : Text) → (validate_consistency_option c ≡ ok tt) ↔ OneOf strong eventual c
unfolding validate_consistency_option
consistency_iff c =
    ground (arith, text_eq_iff c (codes ""), text_eq_iff c strong, text_eq_iff c eventual)

concurrency_iff :
    (c : Text) → (validate_concurrency_option c ≡ ok tt) ↔ OneOf first_write last_write c
unfolding validate_concurrency_option
concurrency_iff c =
    ground (arith, text_eq_iff c (codes ""), text_eq_iff c first_write, text_eq_iff c last_write)

-- Two checks pass where both pass.
then_iff {ℓ} :
    {B : Type ℓ} (a : Result (Unit {0})) (r : Result B) (x : B)
    → ((a >> r) ≡ ok x) ↔ ((a ≡ ok tt) × (r ≡ ok x))
then_iff (ok u) r x = (λ e. (refl, e), λ h. h.1)
then_iff (err e) r x = (λ h. cc, λ h. cc)

options_iff :
    (req : SetRequest)
    → (check_request_options (set_option req.options) ≡ ok tt) ↔ (
        OneOf strong eventual req.options.consistency
        × OneOf first_write last_write req.options.concurrency)
unfolding check_request_options
options_iff req =
    let both =
      then_iff (validate_consistency_option req.options.consistency)
        (validate_concurrency_option req.options.concurrency) tt in
    let left = consistency_iff req.options.consistency in
    let right = concurrency_iff req.options.concurrency in
    (λ h. let (a, b) = both.0 h in (left.0 a, right.0 b), λ h. both.1 (left.1 h.0, right.1 h.1))

-- the number that is parsed, with its sign cut off
abbrev counted : Option ℤ → Text → Result ℕ
counted none s = err (invalid_ttl s)
counted (some (pos k)) s = ok k
counted (some (negsuc k)) s = ok 0

counted_iff :
    (o : Option ℤ) (s : Text) (n : ℕ)
    → (counted o s ≡ ok n) ↔ ((i : ℤ) × (o ≡ some i) × CountsAs i n)
counted_iff none s n = (λ e. cc, λ (i, e, c). cc)
counted_iff (some (pos k)) s n = (
  λ e. (pos k, refl, cc),
  λ (i, e, c). ap ok (subst (λ j. CountsAs j n) (sym (some-injective (pos k) i e)) c),
)
counted_iff (some (negsuc k)) s n = (
  λ e. (negsuc k, refl, cc),
  λ (i, e, c). ap ok (subst (λ j. CountsAs j n) (sym (some-injective (negsuc k) i e)) c),
)

Seconds-iff :
    (s : Text) (n : ℕ)
    → ((if text_eq s (codes "") then ok 0 else counted (parse_int s) s) ≡ ok n) ↔ Seconds s n
Seconds-iff s n = elim (Bool-cases (text_eq s (codes ""))) [
  | inl e ↦ rw e (λ h. cc, λ h. ap ok h)
  | inr e ↦ rw e (counted_iff (parse_int s) s n)
]

clamped-counted : (s : Text) (o : Option ℤ) → clamped_ttl s o ≡ counted o s
unfolding clamped_ttl
clamped-counted s none = refl
clamped-counted s (some (pos k)) = refl
clamped-counted s (some (negsuc k)) = refl

do_parse_ttl-counted :
    (m : Dict Text)
    → do_parse_ttl_in_seconds m ≡ (
        if text_eq (value_or_empty metadata_ttl_key m) (codes "")
        then ok 0
        else counted
            (parse_int (value_or_empty metadata_ttl_key m))
            (value_or_empty metadata_ttl_key m))
unfolding do_parse_ttl_in_seconds
do_parse_ttl-counted m =
    ap (λ r. if text_eq (value_or_empty metadata_ttl_key m) (codes "") then ok 0 else r)
      (clamped-counted (value_or_empty metadata_ttl_key m)
        (parse_int (value_or_empty metadata_ttl_key m)))

-- doSetValidateParameters accepts a request exactly with such options and metadata.
pub Parameters-iff :
    (req : SetRequest) (ttl : ℕ) → (do_set_validate_parameters req ≡ ok ttl) ↔ Parameters req ttl
unfolding do_set_validate_parameters
Parameters-iff req ttl =
    let both =
      then_iff (check_request_options (set_option req.options))
        (do_parse_ttl_in_seconds req.metadata) ttl in
    let secs = Seconds-iff (value_or_empty metadata_ttl_key req.metadata) ttl in
    let opts = options_iff req in
    (
      λ h.
          let (a, b) = both.0 h in
          let (c, d) = opts.0 a in (c, d, secs.0 (sym (do_parse_ttl-counted req.metadata) ∙ b)),
      λ (c, d, e). both.1 (opts.1 (c, d), do_parse_ttl-counted req.metadata ∙ secs.1 e),
    )

-- ===== src/State/Options.antt =====
-- state/request_options.go
use dapr_components_contrib.Prelude.{Text, codes, text_eq, ◌&&◌, not, if◌then◌else◌}
use dapr_components_contrib.State.Errors.{
  Result, ok, err, unrecognized_concurrency, unrecognized_consistency, ◌>>◌,
}

abbrev pub first_write : Text
first_write = codes "first-write"

abbrev pub last_write : Text
last_write = codes "last-write"

abbrev pub strong : Text
strong = codes "strong"

abbrev pub eventual : Text
eventual = codes "eventual"

pub record SetStateOption : Type 0 where
  pub concurrency : Text
  pub consistency : Text

pub record DeleteStateOption : Type 0 where
  pub concurrency : Text
  pub consistency : Text

pub record GetStateOption : Type 0 where
  pub consistency : Text

-- The dynamic type of the argument of `CheckRequestOptions`, an `interface{}`.
pub data RequestOptions : Type 0 where
  set_option : SetStateOption → RequestOptions
  delete_option : DeleteStateOption → RequestOptions
  get_option : GetStateOption → RequestOptions
  other_value : RequestOptions

unfoldable pub validate_concurrency_option : Text → Result (Unit {0})
unfolding text_eq
validate_concurrency_option c =
    if not (text_eq c (codes "")) && not (text_eq c first_write) && not (text_eq c last_write)
    then err (unrecognized_concurrency c)
    else ok tt

unfoldable pub validate_consistency_option : Text → Result (Unit {0})
unfolding text_eq
validate_consistency_option c =
    if not (text_eq c (codes "")) && not (text_eq c strong) && not (text_eq c eventual)
    then err (unrecognized_consistency c)
    else ok tt

unfoldable pub check_request_options : RequestOptions → Result (Unit {0})
unfolding validate_concurrency_option validate_consistency_option
check_request_options (set_option o) = do
  validate_consistency_option o.consistency
  validate_concurrency_option o.concurrency
check_request_options (delete_option o) = do
  validate_consistency_option o.consistency
  validate_concurrency_option o.concurrency
check_request_options (get_option o) = validate_consistency_option o.consistency
check_request_options other_value = ok tt

-- ===== src/State/Requests.antt =====
-- state/requests.go and state/responses.go: the fields that the stores below read.
use dapr_components_contrib.Prelude.{
  ℕ, Text, codes, text_eq, cut_suffix, Option, none, some, ◌||◌, ◌++◌, not, Bool, false,
  if◌then◌else◌,
}
use dapr_components_contrib.Dict.{Dict}
use dapr_components_contrib.State.Errors.{Result, ok, err, prefix_required}
use dapr_components_contrib.State.Options.{SetStateOption, DeleteStateOption, GetStateOption}

-- A value of type `any`: bytes, or something else with what `json.Marshal` makes of it, which is
-- `none` where it fails.
pub data Value : Type 0 where
  bytes : Text → Value
  other : Option Text → Value

pub record GetRequest : Type 0 where
  pub key : Text
  pub options : GetStateOption

pub record DeleteRequest : Type 0 where
  pub key : Text
  pub etag : Option Text
  pub options : DeleteStateOption

pub record SetRequest : Type 0 where
  pub key : Text
  pub value : Value
  pub etag : Option Text
  pub metadata : Dict Text
  pub options : SetStateOption

-- (SetRequest).HasETag and (DeleteRequest).HasETag: an etag that is there and not empty
unfoldable pub has_etag : Option Text → Bool
unfolding text_eq
has_etag none = false
has_etag (some e) = not (text_eq e (codes ""))

abbrev pub separator : Text
separator = codes "||"

-- (*DeleteWithPrefixRequest).Validate: the prefix that the request has afterwards
unfoldable pub validate_prefix : Text → Result Text
unfolding text_eq cut_suffix
validate_prefix prefix =
    if text_eq prefix (codes "") || text_eq prefix separator
    then err prefix_required
    else elim (cut_suffix prefix separator) [ none ↦ ok (prefix ++ separator) | some _ ↦ ok prefix ]

-- `expires` is the metadata entry `ttlExpireTime`, before it is written as text.
pub record GetResponse : Type 0 where
  pub data_ : Option Text
  pub etag : Option Text
  pub expires : Option ℕ

abbrev pub empty_response : GetResponse
empty_response = record { data_ = none; etag = none; expires = none }

pub record BulkGetResponse : Type 0 where
  pub key : Text
  pub data_ : Option Text
  pub etag : Option Text
  pub expires : Option ℕ

pub record KeysLikeRequest : Type 0 where
  pub pattern_ : Text
  pub continuation_token : Option Text
  pub page_size : Option ℕ

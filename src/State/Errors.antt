-- ===== src/State/Errors.antt =====
-- state/errors.go, and the errors that the operations of a store return.
use dapr_components_contrib.Prelude.{ℕ, Text, codes, Option, none, some, ◌++◌}
use dapr_components_contrib.Strconv.{format_uint}

pub data ETagErrorKind : Type 0 where
  invalid mismatch : ETagErrorKind

-- `err` is the message of the wrapped error, `none` for nil.
pub record ETagError : Type 0 where
  pub err : Option Text
  pub kind : ETagErrorKind

abbrev pub new_etag_error : ETagErrorKind → Option Text → ETagError
new_etag_error kind err = record { err = err; kind = kind }

prefix : ETagErrorKind → Text
prefix ETagErrorKind.invalid = codes "invalid etag value"
prefix ETagErrorKind.mismatch = codes "possible etag mismatch. error from state store"

-- (*ETagError).Error
pub etag_error_text : ETagError → Text
unfolding prefix
etag_error_text e = elim e.err [
  | none ↦ prefix e.kind
  | some message ↦ prefix e.kind ++ codes ": " ++ message
]

-- The errors of the operations, one constructor for each place that makes one.
pub data StateError : Type 0 where
  unrecognized_concurrency : Text → StateError
  unrecognized_consistency : Text → StateError
  etag_error : ETagError → StateError
  invalid_ttl : Text → StateError
  marshal_failed : StateError
  prefix_required : StateError
  keys_like_empty_pattern : StateError
  invalid_continue_token : Text → StateError
  bulk_store_error : Text → StateError → StateError

-- BulkStoreError: the error of the operation on a key
abbrev pub new_bulk_store_error : Text → StateError → StateError
new_bulk_store_error key err = bulk_store_error key err

-- (BulkStoreError).Key; the other errors have none
abbrev pub bulk_store_key : StateError → Option Text
bulk_store_key (bulk_store_error key e) = some key
bulk_store_key (unrecognized_concurrency v) = none
bulk_store_key (unrecognized_consistency v) = none
bulk_store_key (etag_error e) = none
bulk_store_key (invalid_ttl s) = none
bulk_store_key marshal_failed = none
bulk_store_key prefix_required = none
bulk_store_key keys_like_empty_pattern = none
bulk_store_key (invalid_continue_token s) = none

-- (BulkStoreError).ETagError: errors.As looks at an error and at those that it wraps.
unfoldable pub find_etag_error : StateError → Option ETagError
find_etag_error (etag_error e) = some e
find_etag_error (bulk_store_error key e) = find_etag_error e
find_etag_error (unrecognized_concurrency v) = none
find_etag_error (unrecognized_consistency v) = none
find_etag_error (invalid_ttl s) = none
find_etag_error marshal_failed = none
find_etag_error prefix_required = none
find_etag_error keys_like_empty_pattern = none
find_etag_error (invalid_continue_token s) = none

-- BulkDeleteRowMismatchError: its fields are uint64
pub record RowMismatch : Type 0 where
  pub expected : ℕ
  pub affected : ℕ

abbrev pub new_row_mismatch : ℕ → ℕ → RowMismatch
new_row_mismatch expected affected = record { expected = expected; affected = affected }

-- (*BulkDeleteRowMismatchError).Error
unfoldable pub row_mismatch_text : RowMismatch → Text
unfolding format_uint
row_mismatch_text e =
    codes "delete affected only "
    ++ format_uint e.affected
    ++ codes " rows, expected "
    ++ format_uint e.expected

pub data Result {ℓ} (A : Type ℓ) : Type ℓ where
  ok : A → Result A
  err : StateError → Result A

module _ {ℓ κ} {A : Type ℓ} {B : Type κ} where
  infixl 5 ◌>>=◌
  -- `if err != nil { return err }` after a call with a result
  abbrev pub ◌>>=◌ : Result A → (A → Result B) → Result B
  err failure >>= next = err failure
  ok value >>= next = next value

module _ {ℓ} {B : Type ℓ} where
  infixl 5 ◌>>◌
  -- the same after a call that has no other result
  abbrev pub ◌>>◌ : Result (Unit {0}) → Result B → Result B
  first >> next = first >>= λ _. next

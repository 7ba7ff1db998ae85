-- ===== src/State/Bulk/Tests.antt =====
-- Runs of state/bulk.go with one request.
use dapr_components_contrib.Prelude.{
  ℕ, ◌<◌, ◌≤◌, codes, Option, none, some, [], ◌∷◌, length, ◌≡◌, refl, ◌==◌, if◌then◌else◌, ◌⊎◌,
  arith,
}
use dapr_components_contrib.Strconv.{pos}
use dapr_components_contrib.State.Errors.{
  ok, err, StateError, marshal_failed, bulk_store_error, etag_error, new_etag_error, mismatch,
  new_bulk_store_error, bulk_store_key, find_etag_error, new_row_mismatch, row_mismatch_text,
}
use dapr_components_contrib.State.Bulk.{
  BulkGetResult, bulk_get_result, tokens_for_get, Getting, GetStep, start_get, end_get, fill,
  GetReach, get_begins, get_goes_on, IsDone, Storing, store_result, may_start, StoreReach,
  store_begins, store_goes_on, start_store, end_store, receive,
}
use dapr_components_contrib.State.Bulk.Reads.{left, bulk_get_lem, bulk_get_ends}

abbrev answer : ℕ → BulkGetResult
answer i = bulk_get_result (codes "a") (ok none)

all_at_once : tokens_for_get (pos 0) 3 ≡ 3
unfolding tokens_for_get
all_at_once = refl

abbrev one_started : Getting
one_started = record { started = 1; running = 0 ∷ []; res = λ i. none; filled = 0 }

abbrev to_one_started : GetReach 1 1 answer one_started
to_one_started = get_goes_on get_begins (start_get (omega arith) (omega arith) refl)

-- the return of DoBulkGet
abbrev answered : Getting
answered = record {
  started = 1;
  running = [];
  res = λ j. if 0 == j then some (answer 0) else none;
  filled = 1;
}

abbrev to_answered : GetReach 1 1 answer answered
to_answered =
    get_goes_on (get_goes_on to_one_started (end_get [] [] 0 refl refl))
      (fill refl (omega arith) refl)

bulk_get_example :
    (length answered.running ≤ 1)
    × (IsDone 1 1 answered → (j : ℕ) → j < 1 → answered.res j ≡ some (answer j))
bulk_get_example = bulk_get_lem 1 1 answer to_answered

bulk_get_ends_example :
    (IsDone 1 1 one_started ⊎ (t : Getting) × GetStep 1 1 answer one_started t)
    × ((t : Getting)
        → GetStep 1 1 answer one_started t
        → left 1 1 answer t < left 1 1 answer one_started)
bulk_get_ends_example = bulk_get_ends 1 1 answer to_one_started (omega arith)

-- one request that fails
abbrev failing : ℕ → Option StateError
failing i = some (bulk_store_error (codes "a") marshal_failed)

sends_key : store_result (codes "a") (err marshal_failed) ≡ failing 0
unfolding store_result
sends_key = refl

abbrev reported : Storing
reported = record { started = 1; running = []; sent = []; errs = failing 0 ∷ [] }

to_reported : StoreReach 1 (pos 2) failing reported
unfolding may_start
to_reported =
    store_goes_on
      (store_goes_on (store_goes_on store_begins (start_store (omega arith) refl refl))
        (end_store [] [] 0 refl refl))
      (receive (failing 0) [] refl refl (omega arith) refl)

etag_error_found :
    find_etag_error (new_bulk_store_error (codes "a") (etag_error (new_etag_error mismatch none)))
    ≡ some (new_etag_error mismatch none)
unfolding find_etag_error
etag_error_found = refl

key_found : bulk_store_key (new_bulk_store_error (codes "a") marshal_failed) ≡ some (codes "a")
key_found = refl

rows_printed :
    row_mismatch_text (new_row_mismatch 3 12) ≡ codes "delete affected only 12 rows, expected 3"
unfolding row_mismatch_text
rows_printed = refl

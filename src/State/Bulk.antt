-- ===== src/State/Bulk.antt =====
-- state/bulk.go: the bulk operations that run one request after another or side by side, with at most
-- `Parallelism` at a time, as interleaved steps.
pub mod Reads
pub mod Writes
mod Tests
use dapr_components_contrib.Prelude.{
  ℕ, suc, ◌+◌, ◌<◌, Text, Option, none, some, List, [], ◌∷◌, ◌++◌, length, Bool, ◌==◌, ltb,
  if◌then◌else◌, ◌≡◌, ◌≢◌,
}
use dapr_components_contrib.Strconv.{ℤ, pos_part}
use dapr_components_contrib.State.Errors.{Result, ok, err, StateError, bulk_store_error}
use dapr_components_contrib.State.Requests.{GetResponse, BulkGetResponse}

-- A slot of the results of DoBulkGet
pub record BulkGetResult : Type 0 where
  pub response : BulkGetResponse
  pub error : Option StateError

-- what the goroutine of a request puts in its slot: getFn may give nil and no error
unfoldable pub bulk_get_result : Text → Result (Option GetResponse) → BulkGetResult
bulk_get_result key (err e) = record {
  response = record { key = key; data_ = none; etag = none; expires = none };
  error = some e;
}
bulk_get_result key (ok none) = record {
  response = record { key = key; data_ = none; etag = none; expires = none };
  error = none;
}
bulk_get_result key (ok (some item)) = record {
  response = record { key = key; data_ = item.data_; etag = item.etag; expires = item.expires };
  error = none;
}

-- opts.Parallelism, or the number of requests where it is not set
unfoldable pub tokens_for_get : ℤ → ℕ → ℕ
tokens_for_get parallelism n = if pos_part parallelism == 0 then n else pos_part parallelism

-- DoBulkGet on its way: how many goroutines have been started, which of them run (each holds a token),
-- the slots, and how many tokens the loop at the end has put into the channel
pub record Getting : Type 0 where
  pub started : ℕ
  pub running : List ℕ
  pub res : ℕ → Option BulkGetResult
  pub filled : ℕ

abbrev pub getting : Getting
getting = record { started = 0; running = []; res = λ i. none; filled = 0 }

-- `n` requests, of which the one with index i gets `answer i` as its slot, and the tokens
module _ (n tokens : ℕ) (answer : ℕ → BulkGetResult) where
  pub data GetStep (s t : Getting) : Type 0 where
    start_get :
        s.started < n
        → length s.running < tokens
        → t ≡ record s { started = suc s.started; running = s.started ∷ s.running }
        → GetStep s t
    end_get :
        (front back : List ℕ) (i : ℕ)
        → s.running ≡ front ++ i ∷ back
        → t ≡ record s {
          running = front ++ back;
          res = λ j. if i == j then some (answer i) else s.res j;
        }
        → GetStep s t
    fill :
        s.started ≡ n
        → length s.running + s.filled < tokens
        → t ≡ record s { filled = suc s.filled }
        → GetStep s t

  pub data GetReach : Getting → Type 0 where
    get_begins : GetReach getting
    get_goes_on : {s t : Getting} → GetReach s → GetStep s t → GetReach t

-- DoBulkGet returns.
abbrev pub IsDone : ℕ → ℕ → Getting → Type 0
IsDone n tokens s = (s.started ≡ n) × (s.filled ≡ tokens)

-- DoBulkSetDelete on its way: `sent` is what is in errCh, and `errs` what the loop at the end has read
pub record Storing : Type 0 where
  pub started : ℕ
  pub running : List ℕ
  pub sent : List (Option StateError)
  pub errs : List (Option StateError)

abbrev pub storing : Storing
storing = record { started = 0; running = []; sent = []; errs = [] }

-- what the goroutine of the request with the key sends: its error with the key, or nil
unfoldable pub store_result : Text → Result (Unit {0}) → Option StateError
store_result key (ok _) = none
store_result key (err e) = some (bulk_store_error key e)

-- whether there is a token, where the parallelism is limited
unfoldable pub may_start : ℤ → List ℕ → Bool
may_start parallelism running =
    if pos_part parallelism == 0 then Bool.true else ltb (length running) (pos_part parallelism)

-- `n` requests, of which the one with index i sends `outcome i`. A goroutine gives its token back
-- when it has sent.
module _ (n : ℕ) (parallelism : ℤ) (outcome : ℕ → Option StateError) where
  pub data StoreStep (s t : Storing) : Type 0 where
    start_store :
        s.started < n
        → may_start parallelism s.running ≡ Bool.true
        → t ≡ record s { started = suc s.started; running = s.started ∷ s.running }
        → StoreStep s t
    end_store :
        (front back : List ℕ) (i : ℕ)
        → s.running ≡ front ++ i ∷ back
        → t ≡ record s { running = front ++ back; sent = s.sent ++ outcome i ∷ [] }
        → StoreStep s t
    receive :
        (e : Option StateError) (rest : List (Option StateError))
        → s.started ≡ n
        → s.sent ≡ e ∷ rest
        → length s.errs < n
        → t ≡ record s { sent = rest; errs = s.errs ++ e ∷ [] }
        → StoreStep s t

  pub data StoreReach : Storing → Type 0 where
    store_begins : StoreReach storing
    store_goes_on : {s t : Storing} → StoreReach s → StoreStep s t → StoreReach t

-- errors.Join: the errors that are not nil; nil if there are none
unfoldable pub join_errors : List (Option StateError) → List StateError
join_errors [] = []
join_errors (none ∷ es) = join_errors es
join_errors (some e ∷ es) = e ∷ join_errors es

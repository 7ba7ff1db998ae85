-- ===== src/State/InMemory/Multi.antt =====
-- `Multi` of state/in-memory/in_memory.go: a transaction of writes.
pub mod Atomic
pub mod Success
use dapr_components_contrib.Prelude.{ℕ, suc, ◌+◌, Text, Option, none, some, List, [], ◌∷◌}
use dapr_components_contrib.State.Errors.{Result, ok, err, StateError, ◌>>=◌, ◌>>◌}
use dapr_components_contrib.State.Options.{other_value, check_request_options}
use dapr_components_contrib.State.Requests.{DeleteRequest, SetRequest}
use dapr_components_contrib.State.InMemory.{
  Store, do_validate_etag, do_delete, marshal, do_set_validate_parameters, do_set,
}

-- innerSetRequest
pub record InnerSetRequest : Type 0 where
  pub req : SetRequest
  pub ttl : ℕ
  pub data_ : Text

-- A `TransactionalStateOperation`, by its dynamic type; every switch of `Multi` skips a type that
-- it has no case for.
pub data Operation : Type 0 where
  upsert : SetRequest → Operation
  inner : InnerSetRequest → Operation
  remove : DeleteRequest → Operation
  other_operation : Operation

-- Step 1 on one operation: what stands in its place afterwards. The case of a `DeleteRequest` hands
-- the pointer `&req` to `CheckRequestOptions`, which is none of the types that it checks.
unfoldable pub prepare_operation : Operation → Result Operation
prepare_operation (upsert req) = do
  ttl ← do_set_validate_parameters req
  bt ← marshal req.value
  ok (inner (record { req = req; ttl = ttl; data_ = bt }))
prepare_operation (remove req) = do check_request_options other_value; ok (remove req)
prepare_operation (inner r) = ok (inner r)
prepare_operation other_operation = ok other_operation

-- The loop of step 1: the operations as it leaves them in the caller's slice, also when it stops
-- at an error.
unfoldable pub prepare : List Operation → List Operation × Option StateError
unfolding prepare_operation
prepare [] = ([], none)
prepare (op ∷ ops) =
    let (ops', e) = prepare ops in
    elim (prepare_operation op) [ ok op' ↦ (op' ∷ ops', e) | err x ↦ (op ∷ ops, some x) ]

unfoldable pub validate_operation : Store → Operation → Result (Unit {0})
validate_operation store (inner r) =
    do_validate_etag r.req.key r.req.etag r.req.options.concurrency store
validate_operation store (remove req) =
    do_validate_etag req.key req.etag req.options.concurrency store
validate_operation store (upsert req) = ok tt
validate_operation store other_operation = ok tt

-- The loop of step 2: every etag is held against the store as it was before the transaction.
unfoldable pub validate_all : Store → List Operation → Result (Unit {0})
unfolding validate_operation
validate_all store [] = ok tt
validate_all store (op ∷ ops) =
    let rest = validate_all store ops in
    elim (validate_operation store op) [ ok _ ↦ rest | err e ↦ err e ]

unfoldable pub apply_operation : Text → ℕ → Operation → Store → Store
apply_operation etag now (inner r) store = do_set etag now r.req.key r.data_ r.ttl store
apply_operation etag now (remove req) store = do_delete req.key store
apply_operation etag now (upsert req) store = store
apply_operation etag now other_operation store = store

-- The loop of step 3: `uuid i` and `clock i` are the etag made and the time read at operation `i`.
unfoldable pub apply_all : (ℕ → Text) → (ℕ → ℕ) → ℕ → List Operation → Store → Store
unfolding apply_operation
apply_all uuid clock i [] store = store
apply_all uuid clock i (op ∷ ops) store =
    apply_all uuid clock (i + 1) ops (apply_operation (uuid i) (clock i) op store)

pub record MultiOutcome : Type 0 where
  pub store : Store
  pub operations : List Operation
  pub result : Result (Unit {0})

-- Steps 2 and 3, after step 1 has left the operations and perhaps an error.
unfoldable pub run_prepared :
    (ℕ → Text) → (ℕ → ℕ) → List Operation → Option StateError → Store → MultiOutcome
unfolding validate_all apply_all
run_prepared uuid clock ops (some e) store = record {
  store = store;
  operations = ops;
  result = err e;
}
run_prepared uuid clock ops none store = elim (validate_all store ops) [
  | err e ↦ record { store = store; operations = ops; result = err e }
  | ok _ ↦ record { store = apply_all uuid clock 0 ops store; operations = ops; result = ok tt }
]

-- Multi: the store, the request's operations and the result.
unfoldable pub multi : (ℕ → Text) → (ℕ → ℕ) → List Operation → Store → MultiOutcome
unfolding prepare run_prepared
multi uuid clock operations store =
    let (ops, failed) = prepare operations in run_prepared uuid clock ops failed store

-- ===== src/State/InMemory/Multi/Success.antt =====
-- When a transaction of state/in-memory/in_memory.go succeeds, described apart from the code.
use dapr_components_contrib.Prelude.{ℕ, Text, List, [], ◌∷◌, ◌≡◌, ◌↔◌, refl, sym, ap, ◌∙◌, All}
use dapr_components_contrib.State.Errors.{Result, ok, err, ◌>>=◌}
use dapr_components_contrib.State.Options.{check_request_options}
use dapr_components_contrib.State.Requests.{SetRequest, DeleteRequest}
use dapr_components_contrib.State.InMemory.{Store, marshal, do_set_validate_parameters}
use dapr_components_contrib.State.InMemory.Etag.{MayWrite, do_validate_etag_iff}
use dapr_components_contrib.State.InMemory.Accepted.{
  Parameters, StoredAs, Parameters-iff, marshal_iff,
}
use dapr_components_contrib.State.InMemory.Multi.{
  InnerSetRequest, Operation, upsert, inner, remove, other_operation, prepare_operation,
  validate_operation, multi,
}
use dapr_components_contrib.State.InMemory.Multi.Atomic.{Prepared, multi_ok_steps}

-- An upsert needs options, metadata and a value that can be stored; an upsert and a delete both need the
-- etag to let them write to the store as it is before the transaction.
abbrev pub Acceptable : Store → Operation → Type 0
Acceptable s (upsert req) =
    (ttl : ℕ) × (bt : Text) × Parameters req ttl
    × StoredAs req.value bt
    × MayWrite req.key req.etag req.options.concurrency s
Acceptable s (inner r) = MayWrite r.req.key r.req.etag r.req.options.concurrency s
Acceptable s (remove req) = MayWrite req.key req.etag req.options.concurrency s
Acceptable s other_operation = Unit

-- step 1 on an upsert with the results of its two checks
abbrev upsert_steps : SetRequest → Result ℕ → Result Text → Result Operation
upsert_steps req params value = do
  ttl ← params
  bt ← value
  ok (inner (record { req = req; ttl = ttl; data_ = bt }))

prepare-upsert :
    (req : SetRequest)
    → prepare_operation (upsert req)
      ≡ upsert_steps req (do_set_validate_parameters req) (marshal req.value)
unfolding prepare_operation
prepare-upsert req = refl

upsert_steps_inv :
    (req : SetRequest) (params : Result ℕ) (value : Result Text) (op' : Operation)
    → upsert_steps req params value ≡ ok op'
    → (ttl : ℕ) × (bt : Text) × (params ≡ ok ttl)
      × (value ≡ ok bt)
      × (op' ≡ inner (record { req = req; ttl = ttl; data_ = bt }))
upsert_steps_inv req (ok ttl) (ok bt) op' h = (ttl, bt, refl, refl, cc)
upsert_steps_inv req (ok ttl) (err e) op' h = cc
upsert_steps_inv req (err e) value op' h = cc

same_operation : (a b : Operation) → ok a ≡ ok b → a ≡ b
same_operation a b e = cc

prepare-inner : (r : InnerSetRequest) → prepare_operation (inner r) ≡ ok (inner r)
unfolding prepare_operation
prepare-inner r = refl

prepare-remove : (req : DeleteRequest) → prepare_operation (remove req) ≡ ok (remove req)
unfolding prepare_operation check_request_options
prepare-remove req = refl

prepare-other : prepare_operation other_operation ≡ ok other_operation
unfolding prepare_operation
prepare-other = refl

passes→Acceptable :
    (s : Store) (op op' : Operation)
    → prepare_operation op ≡ ok op'
    → validate_operation s op' ≡ ok tt
    → Acceptable s op
unfolding validate_operation
passes→Acceptable s (upsert req) op' p v =
    let (ttl, bt, a, b, e) =
      upsert_steps_inv req (do_set_validate_parameters req) (marshal req.value) op'
        (sym (prepare-upsert req) ∙ p) in
    (
      ttl,
      bt,
      (Parameters-iff req ttl).0 a,
      (marshal_iff req.value bt).0 b,
      (do_validate_etag_iff req.key req.etag req.options.concurrency s).0
          (ap (validate_operation s) (sym e) ∙ v),
    )
passes→Acceptable s (inner r) op' p v =
    (do_validate_etag_iff r.req.key r.req.etag r.req.options.concurrency s).0
      (ap (validate_operation s) (same_operation (inner r) op' (sym (prepare-inner r) ∙ p)) ∙ v)
passes→Acceptable s (remove req) op' p v =
    (do_validate_etag_iff req.key req.etag req.options.concurrency s).0 (
      ap (validate_operation s) (same_operation (remove req) op' (sym (prepare-remove req) ∙ p))
      ∙ v)
passes→Acceptable s other_operation op' p v = tt

Acceptable→passes :
    (s : Store) (op : Operation)
    → Acceptable s op
    → (op' : Operation) × (prepare_operation op ≡ ok op') × (validate_operation s op' ≡ ok tt)
unfolding validate_operation
Acceptable→passes s (upsert req) (ttl, bt, p, b, a) = (
  inner (record { req = req; ttl = ttl; data_ = bt }),
  prepare-upsert req ∙ rw ((Parameters-iff req ttl).1 p, (marshal_iff req.value bt).1 b) refl,
  (do_validate_etag_iff req.key req.etag req.options.concurrency s).1 a,
)
Acceptable→passes s (inner r) a = (
  inner r,
  prepare-inner r,
  (do_validate_etag_iff r.req.key r.req.etag r.req.options.concurrency s).1 a,
)
Acceptable→passes s (remove req) a = (
  remove req,
  prepare-remove req,
  (do_validate_etag_iff req.key req.etag req.options.concurrency s).1 a,
)
Acceptable→passes s other_operation a = (other_operation, prepare-other, refl)

all→Acceptable :
    (s : Store) (ops ops' : List Operation)
    → Prepared ops ops'
    → All (λ op. validate_operation s op ≡ ok tt) ops'
    → All (Acceptable s) ops
all→Acceptable s [] ops' p a = tt
all→Acceptable s (op ∷ ops) [] p a = absurd p
all→Acceptable s (op ∷ ops) (op' ∷ ops') p a =
    (passes→Acceptable s op op' p.0 a.0, all→Acceptable s ops ops' p.1 a.1)

Acceptable→all :
    (s : Store) (ops : List Operation)
    → All (Acceptable s) ops
    → (ops' : List Operation) × Prepared ops ops' × All (λ op. validate_operation s op ≡ ok tt) ops'
Acceptable→all s [] a = ([], tt, tt)
Acceptable→all s (op ∷ ops) a =
    let (op', p, v) = Acceptable→passes s op a.0 in
    let (ops', ps, vs) = Acceptable→all s ops a.1 in (op' ∷ ops', (p, ps), (v, vs))

-- A transaction succeeds exactly where each of its operations is acceptable in the store as it was before: an
-- upsert with options and metadata that are accepted, a value that can be stored and an etag that lets it
-- write, a delete with such an etag.
pub multi_ok_iff :
    (uuid : ℕ → Text) (clock : ℕ → ℕ) (ops : List Operation) (s : Store)
    → ((multi uuid clock ops s).result ≡ ok tt) ↔ All (Acceptable s) ops
multi_ok_iff uuid clock ops s =
    let steps = multi_ok_steps uuid clock ops s in
    (
      λ h. let (ops', p, a) = steps.0 h in all→Acceptable s ops ops' p a,
      λ a. steps.1 (Acceptable→all s ops a),
    )

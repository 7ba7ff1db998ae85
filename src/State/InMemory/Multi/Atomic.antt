-- ===== src/State/InMemory/Multi/Atomic.antt =====
-- A transaction of state/in-memory/in_memory.go takes place as a whole or not at all.
use dapr_components_contrib.Prelude.{
  ℕ, ◌+◌, ◌<◌, ◌≤◌, ◌^◌, Text, Option, none, some, List, [], ◌∷◌, ◌≡◌, ◌↔◌, ◌⊎◌, inl, inr, refl,
  arith, All, length, ap, sym, ◌∙◌,
}
use mathlib.Core.Option.{none-ne-some}
use dapr_components_contrib.State.Errors.{Result, ok, err, StateError}
use dapr_components_contrib.State.Options.{check_request_options, delete_option}
use dapr_components_contrib.State.Requests.{DeleteRequest}
use dapr_components_contrib.State.InMemory.{Store, do_validate_etag, do_set, do_delete, delete_item}
use dapr_components_contrib.State.InMemory.Invariant.{IsValid, do_set-IsValid, do_delete-IsValid}
use dapr_components_contrib.State.InMemory.Multi.{
  Operation, upsert, inner, remove, other_operation, prepare_operation, prepare, validate_operation,
  validate_all, apply_operation, apply_all, run_prepared, MultiOutcome, multi,
}

-- A transaction that fails leaves the store as it was.
pub multi_error :
    (uuid : ℕ → Text) (clock : ℕ → ℕ) (ops : List Operation) (s : Store) (e : StateError)
    → (multi uuid clock ops s).result ≡ err e
    → (multi uuid clock ops s).store ≡ s
unfolding multi
multi_error uuid clock ops s e h = ground arith

-- An operation that step 1 has accepted it leaves alone when it sees it again.
prepare_operation_idem :
    (op op' : Operation) → prepare_operation op ≡ ok op' → prepare_operation op' ≡ ok op'
unfolding prepare_operation
prepare_operation_idem (upsert r) op' h = ground arith
prepare_operation_idem (inner r) op' h = ground arith
prepare_operation_idem (remove r) op' h = ground arith
prepare_operation_idem other_operation op' h = ground arith

abbrev operation_cases :
    (r : Result Operation) → ((op : Operation) × (r ≡ ok op)) ⊎ ((e : StateError) × (r ≡ err e))
operation_cases (ok op) = inl (op, refl)
operation_cases (err e) = inr (e, refl)

prepare_idem : (ops : List Operation) → prepare (prepare ops).0 ≡ prepare ops
unfolding prepare
prepare_idem [] = refl
prepare_idem (op ∷ ops) = elim (operation_cases (prepare_operation op)) [
  | inl (op', e) ↦ rw (e, prepare, prepare_operation_idem op op' e, prepare_idem ops)
  | inr (x, e) ↦ rw (e, prepare, e)
]

multi-operations :
    (uuid : ℕ → Text) (clock : ℕ → ℕ) (ops : List Operation) (s : Store)
    → (multi uuid clock ops s).operations ≡ (prepare ops).0
unfolding multi
multi-operations uuid clock ops s = ground arith

-- `Multi` replaces the operations in the caller's slice. A retry with what it has left there, after
-- a success or an error, on any store, does what the first request would do.
pub multi_retry :
    (uuid uuid' : ℕ → Text) (clock clock' : ℕ → ℕ) (ops : List Operation) (s t : Store)
    → multi uuid clock (multi uuid' clock' ops s).operations t ≡ multi uuid clock ops t
unfolding multi
multi_retry uuid uuid' clock clock' ops s t = rw multi-operations (
    ap (λ (p : List Operation × Option StateError). run_prepared uuid clock p.0 p.1 t)
      (prepare_idem ops))

-- Each operation is accepted by step 1, with what stands in its place.
abbrev pub Prepared : List Operation → List Operation → Type 0
Prepared [] [] = Unit
Prepared [] (op' ∷ ops') = ⊥
Prepared (op ∷ ops) [] = ⊥
Prepared (op ∷ ops) (op' ∷ ops') = (prepare_operation op ≡ ok op') × Prepared ops ops'

prepare→Prepared : (ops : List Operation) → (prepare ops).1 ≡ none → Prepared ops (prepare ops).0
unfolding prepare
prepare→Prepared [] h = tt
prepare→Prepared (op ∷ ops) h = elim (operation_cases (prepare_operation op)) [
  | inl (op', e) ↦ rw (e, prepare) (e, prepare→Prepared ops (rw (e, prepare) at h))
  | inr (x, e) ↦ absurd (none-ne-some x (sym (rw (e, prepare) at h)))
]

abbrev unit_cases : (r : Result (Unit {0})) → (r ≡ ok tt) ⊎ ((e : StateError) × (r ≡ err e))
unit_cases (ok u) = inl refl
unit_cases (err e) = inr (e, refl)

validate_all_iff :
    (s : Store) (ops : List Operation)
    → (validate_all s ops ≡ ok tt) ↔ All (λ op. validate_operation s op ≡ ok tt) ops
unfolding validate_all
validate_all_iff s [] = (λ e. tt, λ a. refl)
validate_all_iff s (op ∷ ops) =
    let ih = validate_all_iff s ops in
    elim (unit_cases (validate_operation s op)) [
      | inl e ↦ rw (e, validate_all) (λ x. (refl, ih.0 x), λ (a, b). ih.1 b)
      | inr (x, e) ↦ rw (e, validate_all) (λ y. cc, λ (a, b). cc)
    ]

Prepared→prepare : (ops ops' : List Operation) → Prepared ops ops' → prepare ops ≡ (ops', none)
unfolding prepare
Prepared→prepare [] [] p = refl
Prepared→prepare [] (op' ∷ ops') p = absurd p
Prepared→prepare (op ∷ ops) [] p = absurd p
Prepared→prepare (op ∷ ops) (op' ∷ ops') (e, p) = rw (e, prepare, Prepared→prepare ops ops' p)

run_prepared_ok :
    (uuid : ℕ → Text) (clock : ℕ → ℕ) (ops : List Operation) (failed : Option StateError)
    (s : Store)
    → (run_prepared uuid clock ops failed s).result ≡ ok tt
    → (failed ≡ none) × (validate_all s ops ≡ ok tt)
unfolding run_prepared
run_prepared_ok uuid clock ops (some e) s h = cc
run_prepared_ok uuid clock ops none s h = (refl, ground arith)

run_prepared-none :
    (uuid : ℕ → Text) (clock : ℕ → ℕ) (ops : List Operation) (s : Store)
    → validate_all s ops ≡ ok tt
    → run_prepared uuid clock ops none s
      ≡ record { store = apply_all uuid clock 0 ops s; operations = ops; result = ok tt }
unfolding run_prepared
run_prepared-none uuid clock ops s h = rw (h, run_prepared)

multi_run :
    (uuid : ℕ → Text) (clock : ℕ → ℕ) (ops ops' : List Operation) (s : Store)
    → prepare ops ≡ (ops', none)
    → validate_all s ops' ≡ ok tt
    → multi uuid clock ops s
      ≡ record { store = apply_all uuid clock 0 ops' s; operations = ops'; result = ok tt }
unfolding multi
multi_run uuid clock ops ops' s p v =
    ap (λ (q : List Operation × Option StateError). run_prepared uuid clock q.0 q.1 s) p
    ∙ run_prepared-none uuid clock ops' s v

-- A transaction succeeds exactly where each operation is accepted and each etag is right in the
-- store as it was before; then all operations take place, in order.
pub multi_ok_steps :
    (uuid : ℕ → Text) (clock : ℕ → ℕ) (ops : List Operation) (s : Store)
    → ((multi uuid clock ops s).result ≡ ok tt) ↔ (
        (ops' : List Operation) × Prepared ops ops'
        × All (λ op. validate_operation s op ≡ ok tt) ops')
unfolding multi run_prepared
multi_ok_steps uuid clock ops s = (
  λ h.
      let (accepted, allowed) = run_prepared_ok uuid clock (prepare ops).0 (prepare ops).1 s h in
      (
        (prepare ops).0,
        prepare→Prepared ops accepted,
        (validate_all_iff s (prepare ops).0).0 allowed,
      ),
  λ (ops', p, a).
      ap (λ (o : MultiOutcome). o.result)
        (multi_run uuid clock ops ops' s (Prepared→prepare ops ops' p)
          ((validate_all_iff s ops').1 a)),
)

pub multi_store :
    (uuid : ℕ → Text) (clock : ℕ → ℕ) (ops : List Operation) (s : Store)
    → (multi uuid clock ops s).result ≡ ok tt
    → (multi uuid clock ops s).store ≡ apply_all uuid clock 0 (prepare ops).0 s
unfolding multi run_prepared
multi_store uuid clock ops s h = ground arith

apply_operation-idx :
    (etag : Text) (now : ℕ) (op : Operation) (s : Store)
    → s.idx + 1 < 2 ^ 64
    → (apply_operation etag now op s).idx ≤ s.idx + 1
unfolding apply_operation do_set do_delete
apply_operation-idx etag now (inner r) s room = omega arith
apply_operation-idx etag now op s room = omega arith

apply_operation-IsValid :
    (etag : Text) (now : ℕ) (op : Operation) {s : Store}
    → s.idx + 1 < 2 ^ 64
    → IsValid s
    → IsValid (apply_operation etag now op s)
unfolding apply_operation
apply_operation-IsValid etag now (inner r) room v =
    do_set-IsValid etag now r.req.key r.data_ r.ttl room v
apply_operation-IsValid etag now (remove req) room v = do_delete-IsValid req.key v
apply_operation-IsValid etag now op room v = v

apply_all-IsValid :
    (uuid : ℕ → Text) (clock : ℕ → ℕ) (i : ℕ) (ops : List Operation) {s : Store}
    → s.idx + length ops < 2 ^ 64
    → IsValid s
    → IsValid (apply_all uuid clock i ops s)
unfolding apply_all
apply_all-IsValid uuid clock i [] room v = v
apply_all-IsValid uuid clock i (op ∷ ops) {s} room v =
    apply_all-IsValid uuid clock (i + 1) ops
      (omega (arith, apply_operation-idx (uuid i) (clock i) op s))
      (apply_operation-IsValid (uuid i) (clock i) op (omega arith) v)

length-prepare : (ops : List Operation) → length (prepare ops).0 ≡ length ops
unfolding prepare
length-prepare [] = refl
length-prepare (op ∷ ops) = ground (arith, length-prepare ops)

-- A transaction keeps the store valid, as long as the counter of insertions does not wrap around.
pub multi-IsValid :
    (uuid : ℕ → Text) (clock : ℕ → ℕ) (ops : List Operation) {s : Store}
    → s.idx + length ops < 2 ^ 64
    → IsValid s
    → IsValid (multi uuid clock ops s).store
unfolding multi run_prepared
multi-IsValid uuid clock ops {s} room v = ground (
  arith,
  apply_all-IsValid uuid clock 0 (prepare ops).0 {s = s} (omega (arith, length-prepare ops)) v,
)

prepare_remove : (req : DeleteRequest) → prepare (remove req ∷ []) ≡ (remove req ∷ [], none)
unfolding prepare check_request_options
prepare_remove req = refl

validate_remove :
    (req : DeleteRequest) (s : Store)
    → do_validate_etag req.key req.etag req.options.concurrency s ≡ ok tt
    → validate_all s (remove req ∷ []) ≡ ok tt
validate_remove req s h =
    (validate_all_iff s (remove req ∷ [])).1 (unfold validate_operation in (h, tt))

apply_remove :
    (uuid : ℕ → Text) (clock : ℕ → ℕ) (req : DeleteRequest) (s : Store)
    → apply_all uuid clock 0 (remove req ∷ []) s ≡ do_delete req.key s
unfolding apply_all
apply_remove uuid clock req s = refl

-- A delete with a consistency or concurrency option that does not exist fails on its own, and in a
-- transaction it takes place: step 1 does not check its options.
pub multi_delete_unchecked :
    (uuid : ℕ → Text) (clock : ℕ → ℕ) (req : DeleteRequest) (s : Store) (e : StateError)
    → check_request_options (delete_option req.options) ≡ err e
    → do_validate_etag req.key req.etag req.options.concurrency s ≡ ok tt
    → (delete_item req s ≡ (s, err e))
      × ((multi uuid clock (remove req ∷ []) s).result ≡ ok tt)
      × ((multi uuid clock (remove req ∷ []) s).store ≡ do_delete req.key s)
unfolding delete_item
multi_delete_unchecked uuid clock req s e bad allowed =
    let run =
      multi_run uuid clock (remove req ∷ []) (remove req ∷ []) s (prepare_remove req)
        (validate_remove req s allowed) in
    (
      rw (bad, delete_item),
      ap (λ (o : MultiOutcome). o.result) run,
      ap (λ (o : MultiOutcome). o.store) run ∙ apply_remove uuid clock req s,
    )

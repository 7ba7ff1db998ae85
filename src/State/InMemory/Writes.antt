-- ===== src/State/InMemory/Writes.antt =====
-- `Set` and `Delete` of state/in-memory/in_memory.go: when they succeed, what a reader sees
-- afterwards, and that of several conditional writes one wins.
use dapr_components_contrib.Prelude.{
  ℕ, ◌+◌, ◌*◌, ◌^◌, ◌<◌, ◌≤◌, Text, text_eq, text_eq_refl, none, some, ◌≡◌, ◌↔◌, refl, arith, true,
  if◌then◌else◌, ltb, lt→ltb,
}
use dapr_components_contrib.Dict.Laws.{lookup-insert}
use dapr_components_contrib.State.Errors.{Result, ok, err, StateError, ◌>>=◌, ◌>>◌}
use dapr_components_contrib.State.Requests.{SetRequest}
use dapr_components_contrib.State.InMemory.{
  Store, is_expired, do_validate_etag, marshal, do_set_validate_parameters, add_seconds, new_item,
  do_set, set,
}
use dapr_components_contrib.State.InMemory.View.{live, view}
use dapr_components_contrib.State.InMemory.Etag.{MayWrite, do_validate_etag_iff}

-- `set` with the results of its three checks: the parameters, the etag, the value.
set_steps : Result ℕ → Result (Unit {0}) → Result Text → Text → ℕ → Text → Store → Result Store
set_steps params allowed value etag now key store = do
  ttl ← params
  allowed
  bt ← value
  ok (do_set etag now key bt ttl store)

set_steps_inv :
    (params : Result ℕ) (allowed : Result (Unit {0})) (value : Result Text) (etag : Text) (now : ℕ)
    (key : Text) (store after : Store)
    → set_steps params allowed value etag now key store ≡ ok after
    → (ttl : ℕ) × (bt : Text) × (params ≡ ok ttl)
      × (allowed ≡ ok tt)
      × (value ≡ ok bt)
      × (after ≡ do_set etag now key bt ttl store)
unfolding set_steps
set_steps_inv (ok ttl) (ok u) (ok bt) etag now key store after h = (ttl, bt, refl, refl, refl, cc)
set_steps_inv (ok ttl) (ok u) (err e) etag now key store after h = cc
set_steps_inv (ok ttl) (err e) value etag now key store after h = cc
set_steps_inv (err e) allowed value etag now key store after h = cc

abbrev set_result : Store → Result Store → Store × Result (Unit {0})
set_result store (ok after) = (after, ok tt)
set_result store (err e) = (store, err e)

abbrev steps_of : Text → ℕ → SetRequest → Store → Result Store
steps_of etag now req store =
    set_steps (do_set_validate_parameters req)
      (do_validate_etag req.key req.etag req.options.concurrency store) (marshal req.value) etag now
      req.key store

set-steps :
    (etag : Text) (now : ℕ) (req : SetRequest) (store : Store)
    → set etag now req store ≡ set_result store (steps_of etag now req store)
unfolding set set_steps
set-steps etag now req store = ground arith

-- What a successful `Set` has passed, and the store that it leaves.
pub record Stored (etag : Text) (now : ℕ) (req : SetRequest) (store : Store) : Type 0 where
  pub ttl : ℕ
  pub bt : Text
  pub params : do_set_validate_parameters req ≡ ok ttl
  pub allowed : MayWrite req.key req.etag req.options.concurrency store
  pub value : marshal req.value ≡ ok bt
  pub result : set etag now req store ≡ (do_set etag now req.key bt ttl store, ok tt)

result_inv :
    (store : Store) (r : Result Store)
    → (set_result store r).1 ≡ ok tt
    → (after : Store) × (r ≡ ok after)
result_inv store (ok after) h = (after, refl)
result_inv store (err e) h = cc

module _ (etag : Text) (now : ℕ) (req : SetRequest) (store : Store) where
  pub set-Stored : (set etag now req store).1 ≡ ok tt → Stored etag now req store
  set-Stored h =
      let (after, e) = result_inv store (steps_of etag now req store) (rw set-steps at h) in
      let (ttl, bt, p, a, v, x) =
        set_steps_inv (do_set_validate_parameters req) _ (marshal req.value) etag now req.key store
          after e in
      record {
        ttl = ttl;
        bt = bt;
        params = p;
        allowed = (do_validate_etag_iff req.key req.etag req.options.concurrency store).0 a;
        value = v;
        result = rw (set-steps, e, x);
      }

  -- `Set` succeeds exactly where its options and its `ttlInSeconds` are accepted, the etag lets it
  -- write, and the value can be marshalled.
  pub set_ok_checks : ((set etag now req store).1 ≡ ok tt) ↔ (
      (ttl : ℕ) × (bt : Text) × (do_set_validate_parameters req ≡ ok ttl)
      × MayWrite req.key req.etag req.options.concurrency store
      × (marshal req.value ≡ ok bt))
  unfolding set_steps
  set_ok_checks = (
    λ h. let r = set-Stored h in (r.ttl, r.bt, r.params, r.allowed, r.value),
    λ (ttl, bt, p, a, v). rw (
      set-steps,
      set_steps,
      p,
      (do_validate_etag_iff req.key req.etag req.options.concurrency store).1 a,
      v,
    ),
  )

  -- A `Set` that fails changes nothing.
  pub set_error :
      (e : StateError) → (set etag now req store).1 ≡ err e → (set etag now req store).0 ≡ store
  unfolding set
  set_error e h = ground arith

  set_run :
      (ttl : ℕ) (bt : Text)
      → do_set_validate_parameters req ≡ ok ttl
      → MayWrite req.key req.etag req.options.concurrency store
      → marshal req.value ≡ ok bt
      → set etag now req store ≡ (do_set etag now req.key bt ttl store, ok tt)
  unfolding set_steps
  set_run ttl bt p a v = rw (
    set-steps,
    set_steps,
    p,
    (do_validate_etag_iff req.key req.etag req.options.concurrency store).1 a,
    v,
  )

pub add_seconds_small :
    (now ttl : ℕ)
    → ttl * 1_000_000_000 < 2 ^ 63
    → 2 ^ 63 ≤ now
    → add_seconds now ttl ≡ now + ttl * 1_000_000_000
unfolding add_seconds
add_seconds_small now ttl small late = omega arith

add_seconds_wrapped :
    (now ttl : ℕ)
    → 2 ^ 63 ≤ ttl * 1_000_000_000
    → ttl * 1_000_000_000 < 2 ^ 64
    → 2 ^ 63 ≤ now
    → add_seconds now ttl < now
unfolding add_seconds
add_seconds_wrapped now ttl big small late = omega arith

is_expired_small :
    (now ttl t : ℕ) (bt etag : Text) (idx : ℕ)
    → 0 < ttl
    → ttl * 1_000_000_000 < 2 ^ 63
    → 2 ^ 63 ≤ now
    → is_expired (new_item etag now bt ttl idx) t ≡ ltb (now + ttl * 1_000_000_000) t
is_expired_small now ttl t bt etag idx pos small late =
    unfold new_item is_expired in rw (lt→ltb 0 ttl pos, add_seconds_small now ttl small late)

is_expired_wrapped :
    (now ttl : ℕ) (bt etag : Text) (idx : ℕ)
    → 2 ^ 63 ≤ ttl * 1_000_000_000
    → ttl * 1_000_000_000 < 2 ^ 64
    → 2 ^ 63 ≤ now
    → is_expired (new_item etag now bt ttl idx) now ≡ true
is_expired_wrapped now ttl bt etag idx big small late =
    unfold new_item is_expired in
    rw (lt→ltb 0 ttl (omega arith)) (lt→ltb _ _ (add_seconds_wrapped now ttl big small late))

module _ (etag : Text) (now : ℕ) (req : SetRequest) (store : Store) (ttl : ℕ) (bt : Text)
    (params : do_set_validate_parameters req ≡ ok ttl)
    (allowed : MayWrite req.key req.etag req.options.concurrency store)
    (value : marshal req.value ≡ ok bt) where
  -- After a `Set` that may write, a reader sees the new value under its key, until it expires, and
  -- under every other key what was there before.
  pub view-inserted :
      (t : ℕ) (j : Text)
      → view t j (set etag now req store).0 ≡ (
          if text_eq req.key j
          then live t (some (new_item etag now bt ttl store.idx))
          else view t j store)
  unfolding view do_set
  view-inserted t j =
      rw (set_run etag now req store ttl bt params allowed value) (rw lookup-insert (ground arith))

  view-set_self :
      (t : ℕ)
      → view t req.key (set etag now req store).0
        ≡ live t (some (new_item etag now bt ttl store.idx))
  view-set_self t = rw (view-inserted, text_eq_refl req.key)

  -- An item that was set with a time to live is gone exactly when more than that has passed.
  pub set_expiry :
      (t : ℕ)
      → 0 < ttl
      → ttl * 1_000_000_000 < 2 ^ 63
      → 2 ^ 63 ≤ now
      → (view t req.key (set etag now req store).0 ≡ none) ↔ (now + ttl * 1_000_000_000 < t)
  set_expiry t pos small late =
      rw (view-set_self, is_expired_small now ttl t bt etag store.idx pos small late) (ground arith)

  -- A time to live of 2 ^ 63 nanoseconds or more, and below twice that, wraps around: the item that
  -- was just set is not there.
  pub set_ttl_overflow :
      2 ^ 63 ≤ ttl * 1_000_000_000
      → ttl * 1_000_000_000 < 2 ^ 64
      → 2 ^ 63 ≤ now
      → view now req.key (set etag now req store).0 ≡ none
  set_ttl_overflow big small late =
      rw (view-set_self, is_expired_wrapped now ttl bt etag store.idx big small late) refl

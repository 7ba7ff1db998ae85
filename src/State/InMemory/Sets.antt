-- ===== src/State/InMemory/Sets.antt =====
-- `Set` of state/in-memory/in_memory.go: when it succeeds and what a reader sees then, described apart from
-- the code.
use dapr_components_contrib.Prelude.{
  ℕ, ◌+◌, ◌*◌, ◌^◌, ◌<◌, ◌≤◌, Text, text_eq, none, some, ◌≡◌, ◌↔◌, refl, ap, ◌∙◌, ltb, ◌&&◌,
  if◌then◌else◌, Bool-cases, inl, inr,
}
use dapr_components_contrib.State.Errors.{ok}
use dapr_components_contrib.State.Requests.{SetRequest}
use dapr_components_contrib.State.InMemory.{Item, Store, is_expired, new_item, set}
use dapr_components_contrib.State.InMemory.View.{live, view}
use dapr_components_contrib.State.InMemory.Etag.{MayWrite}
use dapr_components_contrib.State.InMemory.Accepted.{
  Parameters, StoredAs, Parameters-iff, marshal_iff,
}
use dapr_components_contrib.State.InMemory.Writes.{set_ok_checks, view-inserted, add_seconds_small}

-- `Set` succeeds exactly where its consistency and its concurrency are empty or one of the names, its
-- ttlInSeconds is empty or a number, the etag lets it write, and the value can be marshalled.
pub set_ok_iff :
    (etag : Text) (now : ℕ) (req : SetRequest) (store : Store)
    → ((set etag now req store).1 ≡ ok tt) ↔ (
        (ttl : ℕ) × (bt : Text) × Parameters req ttl
        × MayWrite req.key req.etag req.options.concurrency store
        × StoredAs req.value bt)
set_ok_iff etag now req store =
    let checks = set_ok_checks etag now req store in
    (
      λ h.
          let (ttl, bt, p, a, v) = checks.0 h in
          (ttl, bt, (Parameters-iff req ttl).0 p, a, (marshal_iff req.value bt).0 v),
      λ (ttl, bt, p, a, v).
          checks.1 (ttl, bt, (Parameters-iff req ttl).1 p, a, (marshal_iff req.value bt).1 v),
    )

-- what is under the key after a write, with the time at which it ends
abbrev pub written : Text → ℕ → Text → ℕ → ℕ → Item
written etag now bt ttl idx = record {
  data_ = bt;
  etag = some etag;
  expire = if ltb 0 ttl then some (now + ttl * 1_000_000_000) else none;
  idx = idx;
}

new_item-written :
    (etag : Text) (now : ℕ) (bt : Text) (ttl idx : ℕ)
    → ttl * 1_000_000_000 < 2 ^ 63
    → 2 ^ 63 ≤ now
    → new_item etag now bt ttl idx ≡ written etag now bt ttl idx
unfolding new_item
new_item-written etag now bt ttl idx small late = rw (add_seconds_small now ttl small late) refl

live-written :
    (etag : Text) (now : ℕ) (bt : Text) (ttl idx t : ℕ)
    → live t (some (written etag now bt ttl idx)) ≡ (
        if ltb 0 ttl && ltb (now + ttl * 1_000_000_000) t
        then none
        else some (written etag now bt ttl idx))
unfolding is_expired
live-written etag now bt ttl idx t = elim (Bool-cases (ltb 0 ttl)) [
  | inl e ↦ rw e refl
  | inr e ↦ rw e refl
]

-- After a `Set` that succeeds, a reader sees under its key the bytes of the value with the new etag and, if
-- it has a time to live, with the end of that, until the time is past it; under every other key what was
-- there before. The time to live is below 2 ^ 63 nanoseconds, the clock at 2 ^ 63 or more.
pub view-set :
    (etag : Text) (now : ℕ) (req : SetRequest) (store : Store) (ttl : ℕ) (bt : Text)
    → Parameters req ttl
    → MayWrite req.key req.etag req.options.concurrency store
    → StoredAs req.value bt
    → ttl * 1_000_000_000 < 2 ^ 63
    → 2 ^ 63 ≤ now
    → (t : ℕ) (j : Text)
    → view t j (set etag now req store).0 ≡ (
        if text_eq req.key j
        then (if ltb 0 ttl && ltb (now + ttl * 1_000_000_000) t
            then none
            else some (written etag now bt ttl store.idx))
        else view t j store)
view-set etag now req store ttl bt p a v small late t j =
    view-inserted etag now req store ttl bt ((Parameters-iff req ttl).1 p) a
      ((marshal_iff req.value bt).1 v) t j
    ∙ ap (λ o. if text_eq req.key j then o else view t j store)
        (ap (λ i. live t (some i)) (new_item-written etag now bt ttl store.idx small late)
          ∙ live-written etag now bt ttl store.idx t)

-- ===== src/State/InMemory/Invariant.antt =====
-- What stays true of the store of state/in-memory/in_memory.go: one entry for each key, and the
-- insertion numbers of the items below the counter and all different.
use dapr_components_contrib.Prelude.{
  ℕ, ◌+◌, ◌<◌, ◌^◌, ◌%◌, Text, text_eq, [], ◌∷◌, ◌≡◌, ◌≢◌, refl, arith, Bool-cases, inl, inr,
}
use dapr_components_contrib.Dict.{Dict, insert, delete, Distinct, AllValues}
use dapr_components_contrib.Dict.Laws.{
  Distinct-insert, Distinct-delete, AllValues-insert, AllValues-delete,
}
use dapr_components_contrib.State.Requests.{DeleteRequest, SetRequest, validate_prefix}
use dapr_components_contrib.State.InMemory.{
  Item, Store, new_state_store, do_delete, delete_item, delete_keys, delete_with_prefix,
  get_and_expire, get, new_item, do_set, set, clean_items, do_clean_expired_items, is_expired,
  has_only_prefix,
}
use dapr_components_contrib.State.Errors.{Result, ok, err}

-- The items' numbers differ from one another.
abbrev pub DistinctIdx : Dict Item → Type 0
DistinctIdx [] = Unit
DistinctIdx ((k, item) ∷ m) = AllValues (λ v. v.idx ≢ item.idx) m × DistinctIdx m

pub record IsValid (s : Store) : Type 0 where
  pub distinct : Distinct s.items
  pub below : AllValues (λ v. v.idx < s.idx) s.items
  pub unique : DistinctIdx s.items
  pub counter : s.idx < 2 ^ 64

AllValues-imp :
    {P Q : Item → Type 0} (m : Dict Item) → ((v : Item) → P v → Q v) → AllValues P m → AllValues Q m
AllValues-imp [] f h = tt
AllValues-imp ((k, v) ∷ m) f h = (f v h.0, AllValues-imp m f h.1)

DistinctIdx-delete : (k : Text) (m : Dict Item) → DistinctIdx m → DistinctIdx (delete k m)
unfolding delete
DistinctIdx-delete k [] h = tt
DistinctIdx-delete k ((j, w) ∷ m) h = elim (Bool-cases (text_eq j k)) [
  | inl e ↦ rw e h.1
  | inr e ↦ rw e (AllValues-delete (λ v. v.idx ≢ w.idx) k m h.0, DistinctIdx-delete k m h.1)
]

-- A new item has a number above all others.
DistinctIdx-insert :
    (k : Text) (item : Item) (m : Dict Item)
    → AllValues (λ v. v.idx < item.idx) m
    → DistinctIdx m
    → DistinctIdx (insert k item m)
unfolding insert
DistinctIdx-insert k item [] b h = (tt, tt)
DistinctIdx-insert k item ((j, w) ∷ m) b h = elim (Bool-cases (text_eq j k)) [
  | inl e ↦ rw e (AllValues-imp m (λ v lt. omega arith) b.1, h.1)
  | inr e ↦ rw e (
    AllValues-insert (λ v. v.idx ≢ w.idx) k item m (omega (arith, b.0)) h.0,
    DistinctIdx-insert k item m b.1 h.1,
  )
]

pub new_state_store-IsValid : IsValid new_state_store
new_state_store-IsValid = record { distinct = tt; below = tt; unique = tt; counter = omega arith }

pub do_delete-IsValid : (k : Text) {s : Store} → IsValid s → IsValid (do_delete k s)
unfolding do_delete
do_delete-IsValid k {s} v = record {
  distinct = Distinct-delete k s.items v.distinct;
  below = AllValues-delete (λ w. w.idx < s.idx) k s.items v.below;
  unique = DistinctIdx-delete k s.items v.unique;
  counter = v.counter;
}

pub do_set-IsValid :
    (etag : Text) (now : ℕ) (key value : Text) (ttl : ℕ) {s : Store}
    → s.idx + 1 < 2 ^ 64
    → IsValid s
    → IsValid (do_set etag now key value ttl s)
unfolding do_set
do_set-IsValid etag now key value ttl {s} room v =
    let item = new_item etag now value ttl s.idx in
    record {
      distinct = Distinct-insert key item s.items v.distinct;
      below =
          AllValues-insert (λ w. w.idx < (s.idx + 1) % 2 ^ 64) key item s.items
            (unfold new_item in omega arith) (AllValues-imp s.items (λ w lt. omega arith) v.below);
      unique = DistinctIdx-insert key item s.items (unfold new_item in v.below) v.unique;
      counter = omega arith;
    }

delete_keys-IsValid :
    (p : Text) (es : Dict Item) (m : Dict Item) (count : ℕ) (idx : ℕ)
    → IsValid (record { items = m; idx = idx })
    → IsValid (record { items = (delete_keys p es m count).0; idx = idx })
unfolding delete_keys do_delete
delete_keys-IsValid p [] m count idx v = v
delete_keys-IsValid p ((k, item) ∷ es) m count idx v = elim (Bool-cases (has_only_prefix p k)) [
  | inl e ↦
      rw (e, delete_keys)
        (delete_keys-IsValid p es (delete k m) (count + 1) idx (do_delete-IsValid k v))
  | inr e ↦ rw (e, delete_keys) (delete_keys-IsValid p es m count idx v)
]

pub delete_with_prefix-IsValid :
    (p : Text) {s : Store} → IsValid s → IsValid (delete_with_prefix p s).0
unfolding delete_with_prefix
delete_with_prefix-IsValid p {s} v = validated (validate_prefix p) refl
  where
    validated : (r : Result Text) → validate_prefix p ≡ r → IsValid (delete_with_prefix p s).0
    validated (err e) h = rw (h, delete_with_prefix) v
    validated (ok q) h =
        rw (h, delete_with_prefix) (delete_keys-IsValid q s.items s.items 0 s.idx v)

clean_items-IsValid :
    (clock : Text → ℕ) (es m : Dict Item) (idx : ℕ)
    → IsValid (record { items = m; idx = idx })
    → IsValid (record { items = clean_items clock es m; idx = idx })
unfolding clean_items do_delete
clean_items-IsValid clock [] m idx v = v
clean_items-IsValid clock ((k, item) ∷ es) m idx v = elim (Bool-cases (is_expired item (clock k))) [
  | inl e ↦ rw e (clean_items-IsValid clock es (delete k m) idx (do_delete-IsValid k v))
  | inr e ↦ rw e (clean_items-IsValid clock es m idx v)
]

pub do_clean_expired_items-IsValid :
    (clock : Text → ℕ) {s : Store} → IsValid s → IsValid (do_clean_expired_items clock s)
unfolding do_clean_expired_items
do_clean_expired_items-IsValid clock {s} v = clean_items-IsValid clock s.items s.items s.idx v

pub get_and_expire-IsValid :
    (k : Text) (now : ℕ) {s : Store} → IsValid s → IsValid (get_and_expire k now s).0
unfolding get_and_expire
get_and_expire-IsValid k now {s} v = ground (arith, do_delete-IsValid k v)

pub get-IsValid :
    (others : Store → Store) (now later : ℕ) (k : Text) {s : Store}
    → IsValid s
    → IsValid (others s)
    → IsValid (get others now later k s).0
unfolding get
get-IsValid others now later k {s} v w = ground (arith, get_and_expire-IsValid k later w)

pub delete_item-IsValid :
    (req : DeleteRequest) {s : Store} → IsValid s → IsValid (delete_item req s).0
unfolding delete_item
delete_item-IsValid req {s} v = ground (arith, do_delete-IsValid req.key v)

-- Whether it succeeds or not, `set` keeps the store valid.
pub set-IsValid :
    (etag : Text) (now : ℕ) (req : SetRequest) {s : Store}
    → s.idx + 1 < 2 ^ 64
    → IsValid s
    → IsValid (set etag now req s).0
unfolding set
set-IsValid etag now req {s} room v = grind (arith, do_set-IsValid)

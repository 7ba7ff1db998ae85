-- ===== src/State/InMemory/Etag.antt =====
-- `doValidateEtag` of state/in-memory/in_memory.go against a description of when a write may go
-- ahead: optimistic concurrency by etags, and first-write.
use dapr_components_contrib.Prelude.{
  Text, text_eq, text_eq_iff, Option, none, some, ◌≡◌, ◌↔◌, inl, inr, refl, arith, Bool, true,
  false, Bool-cases, Option-cases, if◌then◌else◌, ◌&&◌,
}
use dapr_components_contrib.Dict.{lookup}
use dapr_components_contrib.State.Errors.{ok}
use dapr_components_contrib.State.Options.{first_write}
use dapr_components_contrib.State.Requests.{has_etag}
use dapr_components_contrib.State.InMemory.{
  Item, Store, validate_absent, validate_match, do_validate_etag, etag_or_empty,
}

abbrev item_etag : Option Item → Option Text
item_etag none = none
item_etag (some item) = item.etag

-- The etag of the item that the store holds under a key, expired or not.
abbrev pub current_etag : Text → Store → Option Text
current_etag key store = item_etag (lookup key store.items)

-- A request with an etag may write where it is the item's etag, a first write without one where
-- there is no item, and any other always.
abbrev pub MayWrite : Text → Option Text → Text → Store → Type 0
MayWrite key etag concurrency store =
    if has_etag etag
    then (current_etag key store ≡ etag)
    else if text_eq concurrency first_write
    then (lookup key store.items ≡ none)
    else Unit

validate_match_iff :
    (key expect : Text) (found : Option Item)
    → (validate_match key expect found ≡ ok tt) ↔ (item_etag found ≡ some expect)
unfolding validate_match
validate_match_iff key expect none = (λ e. cc, λ e. cc)
validate_match_iff key expect (some item) = elim (Option-cases item.etag) [
  | inl n ↦ (λ e. ground (arith, n), λ e. cc (n, e))
  | inr (current, n) ↦ (
    λ e. ground (arith, n, text_eq_iff current expect),
    λ e. ground (arith, n, text_eq_iff current expect),
  )
]

has_etag-some : (etag : Option Text) → has_etag etag ≡ true → etag ≡ some (etag_or_empty etag)
unfolding has_etag
has_etag-some none h = cc
has_etag-some (some e) h = refl

validate_absent_iff : (found : Option Item) → (validate_absent found ≡ ok tt) ↔ (found ≡ none)
unfolding validate_absent
validate_absent_iff none = (λ e. refl, λ e. refl)
validate_absent_iff (some item) = (λ e. cc, λ e. cc)

and_false : (b : Bool) → (b && false) ≡ false
and_false b = ground arith

-- `doValidateEtag` passes exactly where the write may go ahead.
pub do_validate_etag_iff :
    (key : Text) (etag : Option Text) (concurrency : Text) (store : Store)
    → (do_validate_etag key etag concurrency store ≡ ok tt) ↔ MayWrite key etag concurrency store
unfolding do_validate_etag validate_absent
do_validate_etag_iff key etag concurrency store = elim (Bool-cases (has_etag etag)) [
  | inl h ↦
      rw (h, and_false, has_etag-some etag h)
        (validate_match_iff key (etag_or_empty etag) (lookup key store.items))
  | inr h ↦ elim (Bool-cases (text_eq concurrency first_write)) [
    | inl f ↦ rw (h, f) (validate_absent_iff (lookup key store.items))
    | inr f ↦ rw (h, f) (λ e. tt, λ e. refl)
  ]
]

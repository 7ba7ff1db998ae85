-- ===== src/State/InMemory/View.antt =====
-- What a reader of the store in state/in-memory/in_memory.go can see: the items that have not
-- expired. Expired items are dropped lazily by `Get` and in the background.
use dapr_components_contrib.Prelude.{
  ℕ, ◌≤◌, Text, text_eq, text_eq_iff, Option, none, some, [], ◌∷◌, ◌≡◌, ◌⊎◌, inl, inr, refl, arith,
  Bool, true, false, ◌||◌, if◌then◌else◌, Bool-cases, Option-cases, subst, ap, ◌∙◌,
}
use dapr_components_contrib.Dict.{Dict, lookup, delete, Absent, Distinct}
use dapr_components_contrib.Dict.Laws.{lookup-delete, Distinct-delete}
use dapr_components_contrib.State.InMemory.{
  Item, Store, is_expired, do_delete, respond, get_and_expire, get, clean_items,
  do_clean_expired_items,
}
use dapr_components_contrib.State.InMemory.Invariant.{IsValid}

abbrev pub live : ℕ → Option Item → Option Item
live now none = none
live now (some item) = if is_expired item now then none else some item

-- The item that a reader finds under a key at a time.
unfoldable pub view : ℕ → Text → Store → Option Item
view now key store = live now (lookup key store.items)

-- What has expired stays expired.
pub is_expired_mono :
    (item : Item) (now t : ℕ) → now ≤ t → is_expired item now ≡ true → is_expired item t ≡ true
unfolding is_expired
is_expired_mono item now t h e = ground arith

-- Deleting an item that has expired changes nothing that a reader sees from then on.
view-delete_expired :
    (key j : Text) (item : Item) (now t : ℕ) {s : Store}
    → IsValid s
    → lookup key s.items ≡ some item
    → is_expired item now ≡ true
    → now ≤ t
    → view t j (do_delete key s) ≡ view t j s
unfolding view do_delete
view-delete_expired key j item now t {s} v found e h = ground (
  arith,
  lookup-delete key j s.items v.distinct,
  text_eq_iff key j,
  is_expired_mono item now t h e,
)

pub view-get_and_expire :
    (key j : Text) (now t : ℕ) {s : Store}
    → IsValid s
    → now ≤ t
    → view t j (get_and_expire key now s).0 ≡ view t j s
unfolding view get_and_expire
view-get_and_expire key j now t {s} v h = elim (Option-cases (lookup key s.items)) [
  | inl e ↦ rw (e, get_and_expire) refl
  | inr (item, e) ↦ elim (Bool-cases (is_expired item now)) [
    | inl x ↦ rw (e, get_and_expire, x) (view-delete_expired key j item now t v e x h)
    | inr x ↦ rw (e, get_and_expire, x) refl
  ]
]

pub get_and_expire-view :
    (key : Text) (now : ℕ) (s : Store) → (get_and_expire key now s).1 ≡ view now key s
unfolding view get_and_expire
get_and_expire-view key now s = ground arith

-- A read answers with what is there at its first reading of the clock, or at its second one in
-- the store that the other goroutines have left.
pub get_linearizes :
    (others : Store → Store) (now later : ℕ) (key : Text) (s : Store)
    → ((get others now later key s).1 ≡ respond (view now key s))
      ⊎ ((get others now later key s).1 ≡ respond (view later key (others s)))
unfolding view get
get_linearizes others now later key s = ground (arith, get_and_expire-view key later (others s))

get-state :
    (others : Store → Store) (now later : ℕ) (key : Text) (s : Store)
    → ((get others now later key s).0 ≡ s)
      ⊎ ((get others now later key s).0 ≡ (get_and_expire key later (others s)).0)
unfolding get
get-state others now later key s = ground arith

quiet_response :
    (now later : ℕ) (key : Text) (s : Store)
    → now ≤ later
    → (get (λ x. x) now later key s).1 ≡ respond (view now key s)
unfolding get view
quiet_response now later key s h = elim (Option-cases (lookup key s.items)) [
  | inl e ↦ rw (e, get)
  | inr (item, e) ↦ rw (e, get) (ground (arith, is_expired_mono item now later h))
]

-- Without interference a read answers with what is there, and no reader sees later that it has
-- dropped the item.
pub get_quiet :
    (now later t : ℕ) (key j : Text) {s : Store}
    → IsValid s
    → now ≤ later
    → later ≤ t
    → ((get (λ x. x) now later key s).1 ≡ respond (view now key s))
      × (view t j (get (λ x. x) now later key s).0 ≡ view t j s)
get_quiet now later t key j {s} v h k = (
  quiet_response now later key s h,
  elim (get-state (λ x. x) now later key s) [
    | inl e ↦ ap (view t j) e
    | inr e ↦ ap (view t j) e ∙ view-get_and_expire key j later t v k
  ],
)

-- Whether the cleaner removes the entry of a key.
gone : (Text → ℕ) → Text → Dict Item → Bool
gone clock j [] = false
gone clock j ((k, item) ∷ m) =
    if text_eq k j then is_expired item (clock k) || gone clock j m else gone clock j m

lookup-clean_items :
    (clock : Text → ℕ) (j : Text) (es m : Dict Item)
    → Distinct m
    → lookup j (clean_items clock es m) ≡ (if gone clock j es then none else lookup j m)
unfolding clean_items gone
lookup-clean_items clock j [] m d = refl
lookup-clean_items clock j ((k, item) ∷ es) m d = elim (Bool-cases (is_expired item (clock k))) [
  | inl e ↦
      rw
        (
          e,
          clean_items,
          lookup-clean_items clock j es (delete k m) (Distinct-delete k m d),
          lookup-delete k j m d,
        )
        (ground arith)
  | inr e ↦ rw (e, clean_items, lookup-clean_items clock j es m d) (ground arith)
]

gone-Absent : (clock : Text → ℕ) (j : Text) (m : Dict Item) → Absent j m → gone clock j m ≡ false
unfolding gone
gone-Absent clock j [] a = refl
gone-Absent clock j ((k, item) ∷ m) a = rw a.0 (gone-Absent clock j m a.1)

expired_at : ℕ → Option Item → Bool
expired_at now none = false
expired_at now (some item) = is_expired item now

or_false : (a b : Bool) → b ≡ false → (a || b) ≡ a
or_false a b h = ground arith

gone-lookup :
    (clock : Text → ℕ) (j : Text) (m : Dict Item)
    → Distinct m
    → gone clock j m ≡ expired_at (clock j) (lookup j m)
unfolding gone expired_at lookup
gone-lookup clock j [] d = refl
gone-lookup clock j ((k, item) ∷ m) d = elim (Bool-cases (text_eq k j)) [
  | inl e ↦
      rw (e, (text_eq_iff k j).0 e)
        (or_false _ _ (gone-Absent clock j m (subst (λ x. Absent x m) ((text_eq_iff k j).0 e) d.0)))
  | inr e ↦ rw e (gone-lookup clock j m d.1)
]

-- The background cleaner is invisible: no reader sees from then on what it has dropped.
pub view-clean :
    (clock : Text → ℕ) (t : ℕ) (j : Text) {s : Store}
    → IsValid s
    → clock j ≤ t
    → view t j (do_clean_expired_items clock s) ≡ view t j s
unfolding view do_clean_expired_items expired_at
view-clean clock t j {s} v h = elim (Option-cases (lookup j s.items)) [
  | inl e ↦ rw (
    lookup-clean_items clock j s.items s.items v.distinct,
    gone-lookup clock j s.items v.distinct,
    e,
  )
  | inr (item, e) ↦
      rw
        (
          lookup-clean_items clock j s.items s.items v.distinct,
          gone-lookup clock j s.items v.distinct,
          e,
        )
        (ground (arith, is_expired_mono item (clock j) t h))
]

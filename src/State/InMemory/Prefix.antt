-- ===== src/State/InMemory/Prefix.antt =====
-- `DeleteWithPrefix` of state/in-memory/in_memory.go: which items it removes.
use dapr_components_contrib.Prelude.{
  ℕ, ◌+◌, Text, text_eq, text_eq_iff, drop_prefix, contains, has_prefix→append, has_prefix-append,
  drop_prefix-append, none, [], ◌∷◌, ◌++◌, ◌≡◌, ◌↔◌, refl, arith, Bool, true, false, Bool-cases,
  inl, inr, if◌then◌else◌, keep, length, subst, ap, sym, ◌∙◌,
}
use dapr_components_contrib.Dict.{Dict, lookup, delete, Absent, Distinct}
use dapr_components_contrib.Dict.Laws.{lookup-delete, Distinct-delete}
use dapr_components_contrib.State.Errors.{ok}
use dapr_components_contrib.State.Requests.{separator, validate_prefix}
use dapr_components_contrib.State.InMemory.{
  Item, Store, has_only_prefix, delete_keys, delete_with_prefix,
}
use dapr_components_contrib.State.InMemory.Invariant.{IsValid}

-- A key is removed exactly where it is the prefix followed by a text with no further `||`.
pub has_only_prefix_iff :
    (p k : Text)
    → (has_only_prefix p k ≡ true)
      ↔ ((rest : Text) × (k ≡ p ++ rest) × (contains rest separator ≡ false))
unfolding has_only_prefix
has_only_prefix_iff p k = (
  λ h. (drop_prefix k p, has_prefix→append k p (ground arith), ground arith),
  λ (rest, e, n). rw (e, has_prefix-append p rest, drop_prefix-append p rest, n),
)

-- Whether the loop comes by the entry of a key and removes it.
hit : Text → Text → Dict Item → Bool
hit p j [] = false
hit p j ((k, item) ∷ m) =
    if text_eq k j then (if has_only_prefix p k then true else hit p j m) else hit p j m

lookup-delete_keys :
    (p j : Text) (es m : Dict Item) (count : ℕ)
    → Distinct m
    → lookup j (delete_keys p es m count).0 ≡ (if hit p j es then none else lookup j m)
unfolding delete_keys hit
lookup-delete_keys p j [] m count d = refl
lookup-delete_keys p j ((k, item) ∷ es) m count d = elim (Bool-cases (has_only_prefix p k)) [
  | inl e ↦
      rw
        (
          e,
          delete_keys,
          lookup-delete_keys p j es (delete k m) (count + 1) (Distinct-delete k m d),
          lookup-delete k j m d,
        )
        (ground arith)
  | inr e ↦ rw (e, delete_keys, lookup-delete_keys p j es m count d) (ground arith)
]

hit-Absent : (p j : Text) (m : Dict Item) → Absent j m → hit p j m ≡ false
unfolding hit
hit-Absent p j [] a = refl
hit-Absent p j ((k, item) ∷ m) a = rw a.0 (hit-Absent p j m a.1)

-- Where the map has the key, the loop removes it exactly by the test.
hit-lookup :
    (p j : Text) (m : Dict Item)
    → Distinct m
    → (if hit p j m then none else lookup j m) ≡ (if has_only_prefix p j then none else lookup j m)
unfolding hit lookup
hit-lookup p j [] d = ground arith
hit-lookup p j ((k, item) ∷ m) d = elim (Bool-cases (text_eq k j)) [
  | inl e ↦
      rw
        (
          e,
          (text_eq_iff k j).0 e,
          hit-Absent p j m (subst (λ x. Absent x m) ((text_eq_iff k j).0 e) d.0),
        )
        (ground arith)
  | inr e ↦ rw e (hit-lookup p j m d.1)
]

count-delete_keys :
    (p : Text) (es m : Dict Item) (count : ℕ)
    → (delete_keys p es m count).1 ≡ count + length (keep (λ e. has_only_prefix p e.0) es)
unfolding delete_keys
count-delete_keys p [] m count = omega arith
count-delete_keys p ((k, item) ∷ es) m count = elim (Bool-cases (has_only_prefix p k)) [
  | inl e ↦ rw (e, delete_keys) (omega (arith, count-delete_keys p es (delete k m) (count + 1)))
  | inr e ↦ rw (e, delete_keys) (count-delete_keys p es m count)
]

count_from_zero :
    (p : Text) (m : Dict Item)
    → (delete_keys p m m 0).1 ≡ length (keep (λ e. has_only_prefix p e.0) m)
count_from_zero p m = omega (arith, count-delete_keys p m m 0)

deleted_by_test :
    (prefix p j : Text) {s : Store}
    → IsValid s
    → validate_prefix prefix ≡ ok p
    → (lookup j (delete_with_prefix prefix s).0.items
        ≡ (if has_only_prefix p j then none else lookup j s.items))
      × ((delete_with_prefix prefix s).1 ≡ ok (length (keep (λ e. has_only_prefix p e.0) s.items)))
unfolding delete_with_prefix
deleted_by_test prefix p j {s} v h = (
  rw (
    h,
    delete_with_prefix,
    lookup-delete_keys p j s.items s.items 0 v.distinct,
    hit-lookup p j s.items v.distinct,
  ),
  rw (h, delete_with_prefix) (ap ok (count_from_zero p s.items)),
)

-- The key is the prefix and a text with no further `||`.
abbrev pub OnlyPrefix : Text → Text → Type 0
OnlyPrefix p k = (rest : Text) × (k ≡ p ++ rest) × (contains rest separator ≡ false)

same_test :
    (p : Text) (test : Text → Bool) (k : Text)
    → (test k ≡ true) ↔ OnlyPrefix p k
    → has_only_prefix p k ≡ test k
same_test p test k h = elim (Bool-cases (test k)) [
  | inl t ↦ (has_only_prefix_iff p k).1 (h.0 t) ∙ sym t
  | inr f ↦ elim (Bool-cases (has_only_prefix p k)) [
    | inl t ↦ t ∙ sym (h.1 ((has_only_prefix_iff p k).0 t))
    | inr g ↦ g ∙ sym f
  ]
]

keep-same :
    (p : Text) (test : Text → Bool) (m : Dict Item)
    → ((k : Text) → has_only_prefix p k ≡ test k)
    → keep (λ e. has_only_prefix p e.0) m ≡ keep (λ e. test e.0) m
keep-same p test [] h = refl
keep-same p test ((k, item) ∷ m) h =
    rw (h k) (ap (λ rest. if test k then (k, item) ∷ rest else rest) (keep-same p test m h))

-- With a prefix that is accepted, the keys that are that prefix and a text with no further `||` are removed,
-- all others stay, and the result is how many there were: this for any test that holds of just these keys.
pub delete_with_prefix_lem :
    (prefix p : Text) (test : Text → Bool) (j : Text) {s : Store}
    → ((k : Text) → (test k ≡ true) ↔ OnlyPrefix p k)
    → IsValid s
    → validate_prefix prefix ≡ ok p
    → (lookup j (delete_with_prefix prefix s).0.items ≡ (if test j then none else lookup j s.items))
      × ((delete_with_prefix prefix s).1 ≡ ok (length (keep (λ e. test e.0) s.items)))
delete_with_prefix_lem prefix p test j {s} only v h =
    let same : (k : Text) → has_only_prefix p k ≡ test k = λ k. same_test p test k (only k) in
    let (found, counted) = deleted_by_test prefix p j v h in
    (
      found ∙ ap (λ b. if b then none else lookup j s.items) (same j),
      counted ∙ ap (λ (m : Dict Item). ok (length m)) (keep-same p test s.items same),
    )

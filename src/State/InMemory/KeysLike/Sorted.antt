-- ===== src/State/InMemory/KeysLike/Sorted.antt =====
-- The listing of `KeysLike` (state/in-memory/in_memory.go) is in the order of insertion and holds
-- the matching keys of the map.
use dapr_components_contrib.Prelude.{
  ℕ, suc, ◌<◌, ◌^◌, Text, [], ◌∷◌, ◌≡◌, ◌≢◌, inl, inr, refl, arith, Bool, true, false, Bool-cases,
  keep, All, leb, length,
}
use dapr_components_contrib.Dict.{Dict, AllValues}
use dapr_components_contrib.State.InMemory.{Item, Store}
use dapr_components_contrib.State.InMemory.Invariant.{IsValid, DistinctIdx}
use dapr_components_contrib.State.InMemory.KeysLike.{Entries, matching, insert_sorted, sort_stable}

-- Each number is below all that follow.
abbrev pub Ascending : Entries → Type 0
Ascending [] = Unit
Ascending (x ∷ xs) = All (λ e. x.1.idx < e.1.idx) xs × Ascending xs

module _ (P : Text × Item → Type 0) where
  All-insert_sorted : (x : Text × Item) (ys : Entries) → P x → All P ys → All P (insert_sorted x ys)
  unfolding insert_sorted
  All-insert_sorted x [] p h = (p, tt)
  All-insert_sorted x (y ∷ ys) p h = elim (Bool-cases (leb x.1.idx y.1.idx)) [
    | inl e ↦ rw e (p, h)
    | inr e ↦ rw e (h.0, All-insert_sorted x ys p h.1)
  ]

  pub All-sort_stable : (xs : Entries) → All P xs → All P (sort_stable xs)
  unfolding sort_stable
  All-sort_stable [] h = tt
  All-sort_stable (x ∷ xs) h = All-insert_sorted x (sort_stable xs) h.0 (All-sort_stable xs h.1)

All-imp :
    {P Q : Text × Item → Type 0} (xs : Entries)
    → ((e : Text × Item) → P e → Q e)
    → All P xs
    → All Q xs
All-imp [] f h = tt
All-imp (x ∷ xs) f h = (f x h.0, All-imp xs f h.1)

le_ne : (a b : ℕ) → leb a b ≡ true → b ≢ a → a < b
le_ne a b h n = ground arith

gt_of : (a b : ℕ) → leb a b ≡ false → b < a
gt_of a b h = ground arith

insert_sorted-Ascending :
    (x : Text × Item) (ys : Entries)
    → All (λ e. e.1.idx ≢ x.1.idx) ys
    → Ascending ys
    → Ascending (insert_sorted x ys)
unfolding insert_sorted
insert_sorted-Ascending x [] n h = (tt, tt)
insert_sorted-Ascending x (y ∷ ys) n h = elim (Bool-cases (leb x.1.idx y.1.idx)) [
  | inl e ↦
      let lt = le_ne x.1.idx y.1.idx e n.0 in
      rw e ((lt, All-imp ys (λ z hz. omega (arith, lt)) h.0), h)
  | inr e ↦ rw e (
    All-insert_sorted (λ z. y.1.idx < z.1.idx) x ys (gt_of x.1.idx y.1.idx e) h.0,
    insert_sorted-Ascending x ys n.1 h.1,
  )
]

-- The numbers of the entries differ.
abbrev DistinctEntries : Entries → Type 0
DistinctEntries [] = Unit
DistinctEntries (x ∷ xs) = All (λ e. e.1.idx ≢ x.1.idx) xs × DistinctEntries xs

-- Sorting entries with different numbers gives strictly rising numbers.
pub sort_stable-Ascending : (xs : Entries) → DistinctEntries xs → Ascending (sort_stable xs)
unfolding sort_stable
sort_stable-Ascending [] h = tt
sort_stable-Ascending (x ∷ xs) h =
    insert_sorted-Ascending x (sort_stable xs) (All-sort_stable (λ e. e.1.idx ≢ x.1.idx) xs h.0)
      (sort_stable-Ascending xs h.1)

All-keep :
    (P : Item → Type 0) (p : Text × Item → Bool) (m : Dict Item)
    → AllValues P m
    → All (λ e. P e.1) (keep p m)
All-keep P p [] h = tt
All-keep P p ((k, v) ∷ m) h = elim (Bool-cases (p (k, v))) [
  | inl e ↦ rw e (h.0, All-keep P p m h.1)
  | inr e ↦ rw e (All-keep P p m h.1)
]

keep-DistinctEntries :
    (p : Text × Item → Bool) (m : Dict Item) → DistinctIdx m → DistinctEntries (keep p m)
keep-DistinctEntries p [] h = tt
keep-DistinctEntries p ((k, v) ∷ m) h = elim (Bool-cases (p (k, v))) [
  | inl e ↦ rw e (All-keep (λ w. w.idx ≢ v.idx) p m h.0, keep-DistinctEntries p m h.1)
  | inr e ↦ rw e (keep-DistinctEntries p m h.1)
]

-- The listing of a pattern is strictly in the order of insertion.
pub listing-Ascending :
    (pattern_ : Text) {s : Store} → IsValid s → Ascending (sort_stable (matching pattern_ s.items))
listing-Ascending pattern_ {s} v =
    sort_stable-Ascending (matching pattern_ s.items) (keep-DistinctEntries _ s.items v.unique)

-- Every number of the listing is a 64-bit number.
pub listing-bounded :
    (pattern_ : Text) {s : Store}
    → IsValid s
    → All (λ e. e.1.idx < 2 ^ 64) (sort_stable (matching pattern_ s.items))
listing-bounded pattern_ {s} v =
    All-sort_stable (λ e. e.1.idx < 2 ^ 64) (matching pattern_ s.items)
      (All-imp (matching pattern_ s.items) (λ e lt. omega (arith, v.counter))
        (All-keep (λ w. w.idx < s.idx) _ s.items v.below))

length-insert_sorted :
    (x : Text × Item) (ys : Entries) → length (insert_sorted x ys) ≡ suc (length ys)
unfolding insert_sorted
length-insert_sorted x [] = refl
length-insert_sorted x (y ∷ ys) = ground (arith, length-insert_sorted x ys)

pub length-sort_stable : (xs : Entries) → length (sort_stable xs) ≡ length xs
unfolding sort_stable
length-sort_stable [] = refl
length-sort_stable (x ∷ xs) =
    omega (arith, length-insert_sorted x (sort_stable xs), length-sort_stable xs)

-- ===== src/State/InMemory/KeysLike/Listed.antt =====
-- Which keys `KeysLike` (state/in-memory/in_memory.go) lists.
use dapr_components_contrib.Prelude.{
  Text, text_eq, text_eq_iff, Option, none, some, [], ◌∷◌, ◌≡◌, ◌≢◌, ◌↔◌, ◌⊎◌, inl, inr, refl, Bool,
  true, false, Bool-cases, keep, leb, if◌then◌else◌, sym, ◌∙◌, List, codes,
}
use mathlib.Core.Option.{none-ne-some}
use dapr_components_contrib.Dict.{Dict, lookup}
use dapr_components_contrib.State.InMemory.{Item, Store}
use dapr_components_contrib.State.InMemory.Like.{like_to_regex, match_string}
use dapr_components_contrib.State.InMemory.KeysLike.{
  Entries, matching, insert_sorted, sort_stable, keys_of, page, keys_like,
}
use dapr_components_contrib.State.InMemory.KeysLike.Pages.{keys_like_named, list_entries_first}
use dapr_components_contrib.State.InMemory.Like.Correct.{Like, NoNewline, like_to_regex_iff}
use dapr_components_contrib.State.Errors.{ok}
use mathlib.Core.List.{Memᴰ}
use mathlib.Core.List.Memᴰ.{head, tail, not-nil}

-- The entries have the key.
abbrev pub Has : Text → Entries → Type 0
Has k [] = ⊥
Has k ((j, v) ∷ m) = (text_eq j k ≡ true) ⊎ Has k m

insert_sorted→Has :
    (k j : Text) (v : Item) (ys : Entries)
    → Has k (insert_sorted (j, v) ys)
    → (text_eq j k ≡ true) ⊎ Has k ys
unfolding insert_sorted
insert_sorted→Has k j v [] h = h
insert_sorted→Has k j v ((i, w) ∷ ys) h = elim (Bool-cases (leb v.idx w.idx)) [
  | inl e ↦ rw (e, insert_sorted) at h
  | inr e ↦ elim (rw (e, insert_sorted) at h) [
    | inl x ↦ inr (inl x)
    | inr x ↦ elim (insert_sorted→Has k j v ys x) [ inl y ↦ inl y | inr y ↦ inr (inr y) ]
  ]
]

Has→insert_sorted :
    (k j : Text) (v : Item) (ys : Entries)
    → (text_eq j k ≡ true) ⊎ Has k ys
    → Has k (insert_sorted (j, v) ys)
unfolding insert_sorted
Has→insert_sorted k j v [] h = h
Has→insert_sorted k j v ((i, w) ∷ ys) h = elim (Bool-cases (leb v.idx w.idx)) [
  | inl e ↦ rw (e, insert_sorted) h
  | inr e ↦
      rw (e, insert_sorted)
        (elim h [
          | inl x ↦ inr (Has→insert_sorted k j v ys (inl x))
          | inr x ↦ elim x [ inl y ↦ inl y | inr y ↦ inr (Has→insert_sorted k j v ys (inr y)) ]
        ])
]

Has-sort_stable : (k : Text) (xs : Entries) → Has k (sort_stable xs) ↔ Has k xs
unfolding sort_stable
Has-sort_stable k [] = (λ h. h, λ h. h)
Has-sort_stable k ((j, v) ∷ xs) =
    let ih = Has-sort_stable k xs in
    (
      λ h. elim (insert_sorted→Has k j v (sort_stable xs) h) [
        | inl e ↦ inl e
        | inr x ↦ inr (ih.0 x)
      ],
      λ h.
          Has→insert_sorted k j v (sort_stable xs)
            (elim h [ inl e ↦ inl e | inr x ↦ inr (ih.1 x) ]),
    )

found_or_none :
    (b : Bool) (v : Item) (o : Option Item) → o ≢ none → (if b then some v else o) ≢ none
found_or_none true v o h n = none-ne-some v (sym n)
found_or_none false v o h n = h n

module _ (test : Text → Bool) (k : Text) where
  keep→Has :
      (m : Dict Item) → Has k (keep (λ e. test e.0) m) → (test k ≡ true) × (lookup k m ≢ none)
  unfolding lookup
  keep→Has [] h = absurd h
  keep→Has ((j, v) ∷ m) h = elim (Bool-cases (test j)) [
    | inl passes ↦ elim (rw passes at h) [
      | inl same ↦ (rw (← (text_eq_iff j k).0 same) passes, rw same (λ n. none-ne-some v (sym n)))
      | inr later ↦ let (t, l) = keep→Has m later in (t, found_or_none (text_eq j k) v _ l)
    ]
    | inr fails ↦ let (t, l) = keep→Has m (rw fails at h) in (t, found_or_none (text_eq j k) v _ l)
  ]

  Has→keep : (m : Dict Item) → test k ≡ true → lookup k m ≢ none → Has k (keep (λ e. test e.0) m)
  unfolding lookup
  Has→keep [] t h = absurd (h refl)
  Has→keep ((j, v) ∷ m) t h = elim (Bool-cases (text_eq j k)) [
    | inl same ↦ rw (rw (sym ((text_eq_iff j k).0 same)) at t) (inl same)
    | inr other ↦ elim (Bool-cases (test j)) [
      | inl passes ↦ rw passes (inr (Has→keep m t (rw (other, lookup) at h)))
      | inr fails ↦ rw fails (Has→keep m t (rw (other, lookup) at h))
    ]
  ]

sorted_iff :
    (pattern_ k : Text) (store : Store)
    → Has k (sort_stable (matching pattern_ store.items))
      ↔ ((match_string (like_to_regex pattern_) k ≡ true) × (lookup k store.items ≢ none))
sorted_iff pattern_ k store =
    let test : Text → Bool = match_string (like_to_regex pattern_) in
    let sorted = Has-sort_stable k (matching pattern_ store.items) in
    (
      λ h. keep→Has test k store.items (sorted.0 h),
      λ (m, h). sorted.1 (Has→keep test k store.items m h),
    )

Has→Memᴰ : (k : Text) (kk : Entries) → Has k kk → Memᴰ k (keys_of kk)
Has→Memᴰ k [] h = absurd h
Has→Memᴰ k ((j, v) ∷ kk) (inl e) = head (sym ((text_eq_iff j k).0 e))
Has→Memᴰ k ((j, v) ∷ kk) (inr h) = tail (Has→Memᴰ k kk h)

Memᴰ→Has : (k : Text) (kk : Entries) → Memᴰ k (keys_of kk) → Has k kk
Memᴰ→Has k [] m = not-nil m
Memᴰ→Has k ((j, v) ∷ kk) (head e) = inl ((text_eq_iff j k).1 (sym e))
Memᴰ→Has k ((j, v) ∷ kk) (tail m) = inr (Memᴰ→Has k kk m)

-- For a pattern that is not empty and a request without token and page size, KeysLike answers without a token, and
-- a key with no newline is in its answer exactly where the store has it and LIKE matches the pattern with it.
pub listed_iff :
    (pattern_ k : Text) (store : Store)
    → text_eq pattern_ (codes "") ≡ false
    → NoNewline k
    → (keys : List Text) × (keys_like
          (record { pattern_ = pattern_; continuation_token = none; page_size = none })
          store
        ≡ ok (record { keys = keys; continuation_token = none }))
      × (Memᴰ k keys ↔ (Like pattern_ k × (lookup k store.items ≢ none)))
unfolding page
listed_iff pattern_ k store named plain =
    let listing = sort_stable (matching pattern_ store.items) in
    let found = sorted_iff pattern_ k store in
    let like = like_to_regex_iff pattern_ k plain in
    (
      keys_of listing,
      keys_like_named (record { pattern_ = pattern_; continuation_token = none; page_size = none })
            store named
          ∙ list_entries_first none (matching pattern_ store.items),
      (
        λ m. let (t, l) = found.0 (Memᴰ→Has k listing m) in (like.0 t, l),
        λ (t, l). Has→Memᴰ k listing (found.1 (like.1 t, l)),
      ),
    )

-- ===== src/State/InMemory/KeysLike/Pages.antt =====
-- Reading a listing of `KeysLike` (state/in-memory/in_memory.go) page by page.
use dapr_components_contrib.Prelude.{
  ℕ, zero, suc, ◌<◌, ◌≤◌, ◌^◌, Text, codes, text_eq, Option, none, some, List, [], ◌∷◌, ◌++◌, ◌≡◌,
  ◌≢◌, inl, inr, refl, sym, ap, ◌∙◌, subst, arith, false, Bool-cases, All, leb, ltb, length, take,
  drop, get_elem?, take-append-drop, length-drop, ltb_false→le, ltb→lt, lt→ltb, le→ltb_false,
}
use mathlib.Core.List.{map-append, append_assoc, append-nil}
use dapr_components_contrib.Strconv.{parse_uint, format_uint}
use dapr_components_contrib.Strconv.RoundTrip.{parse_uint-format_uint}
use dapr_components_contrib.State.Errors.{ok, err}
use dapr_components_contrib.State.Requests.{KeysLikeRequest}
use dapr_components_contrib.State.InMemory.{Item, Store}
use dapr_components_contrib.State.InMemory.Invariant.{IsValid}
use dapr_components_contrib.State.InMemory.KeysLike.{
  Entries, matching, sort_stable, cut_at, keys_of, page, continue_at, continue_from, list_entries,
  keys_like,
}
use dapr_components_contrib.State.InMemory.KeysLike.Sorted.{
  Ascending, listing-Ascending, listing-bounded, length-sort_stable,
}

abbrev and_more : List Text → Option (List Text) → Option (List Text)
and_more keys none = none
and_more keys (some more) = some (keys ++ more)

-- The client that asks for pages of `size` keys, each with the token of the page before, until a
-- page has no token. `none`: an error, or more requests than `fuel`.
unfoldable pub read_pages : ℕ → ℕ → Option Text → Text → Store → Option (List Text)
read_pages zero size token pattern_ store = none
read_pages (suc fuel) size token pattern_ store =
    elim (keys_like
      (record { pattern_ = pattern_; continuation_token = token; page_size = some size }) store) [
        | err e ↦ none
        | ok r ↦ and_more r.keys (elim r.continuation_token [
          | none ↦ some []
          | some next ↦ read_pages fuel size (some next) pattern_ store
        ])
      ]

All-middle :
    (P : Text × Item → Type 0) (before after : Entries) (x : Text × Item)
    → All P (before ++ x ∷ after)
    → P x
All-middle P [] after x h = h.0
All-middle P (y ∷ before) after x h = All-middle P before after x h.1

below_at :
    (before after : Entries) (x : Text × Item) (n : ℕ)
    → All (λ e. n < e.1.idx) (before ++ x ∷ after)
    → leb x.1.idx n ≡ false
below_at before after x n h = ground (arith, All-middle (λ e. n < e.1.idx) before after x h)

-- The cut finds the entry whose number the token holds.
cut_at-append :
    (before after : Entries) (x : Text × Item)
    → Ascending (before ++ x ∷ after)
    → cut_at x.1.idx (before ++ x ∷ after) ≡ x ∷ after
unfolding cut_at
cut_at-append [] after x h = ground arith
cut_at-append (y ∷ before) after x h =
    rw (below_at before after x y.1.idx h.0, cut_at) (cut_at-append before after x h.1)

-- What is left at an index.
split_at :
    (n : ℕ) (xs : Entries)
    → n < length xs
    → (x : Text × Item) × (rest : Entries) × (get_elem? xs n ≡ some x) × (drop n xs ≡ x ∷ rest)
split_at n [] h = elim h [ ]
split_at zero (x ∷ xs) h = (x, xs, refl, refl)
split_at (suc n) (x ∷ xs) h = split_at n xs (omega arith)

-- A request that has found something pages over the sorted entries.
list_entries_sorted :
    (token : Option Text) (size : Option ℕ) (kk : Entries)
    → sort_stable kk ≢ []
    → list_entries token size kk ≡ continue_from token size (sort_stable kk)
unfolding list_entries
list_entries_sorted token size [] h = absurd (h refl)
list_entries_sorted token size (e ∷ kk) h = refl

pub keys_like_named :
    (req : KeysLikeRequest) (store : Store)
    → text_eq req.pattern_ (codes "") ≡ false
    → keys_like req store
      ≡ list_entries req.continuation_token req.page_size (matching req.pattern_ store.items)
unfolding keys_like
keys_like_named req store named = rw (named, keys_like)

continue_at_parsed :
    (token : Text) (ct : ℕ) (size : Option ℕ) (listing : Entries)
    → parse_uint token ≡ some ct
    → continue_from (some token) size listing ≡ ok (page size (cut_at ct listing))
unfolding continue_from
continue_at_parsed token ct size listing h = ap (λ o. continue_at token o size listing) h

-- The token of an entry leads back to that entry.
continue_page :
    (size : Option ℕ) (listing before after : Entries) (x : Text × Item)
    → listing ≡ before ++ x ∷ after
    → Ascending listing
    → All (λ e. e.1.idx < 2 ^ 64) listing
    → continue_from (some (format_uint x.1.idx)) size listing ≡ ok (page size (x ∷ after))
continue_page size listing before after x e up small =
    let up' : Ascending (before ++ x ∷ after) = subst Ascending e up in
    let small' : All (λ z. z.1.idx < 2 ^ 64) (before ++ x ∷ after) =
      subst (All (λ z. z.1.idx < 2 ^ 64)) e small in
    continue_at_parsed (format_uint x.1.idx) x.1.idx size listing
      (parse_uint-format_uint x.1.idx (All-middle (λ z. z.1.idx < 2 ^ 64) before after x small'))
    ∙ ap (λ l. ok (page size l)) (ap (cut_at x.1.idx) e ∙ cut_at-append before after x up')

append_cons_ne_nil : (before after : Entries) (x : Text × Item) → before ++ x ∷ after ≢ []
append_cons_ne_nil [] after x h = cc
append_cons_ne_nil (y ∷ before) after x h = cc

page_small :
    (size : ℕ) (kk : Entries)
    → length kk ≤ size
    → page (some size) kk ≡ record { keys = keys_of kk; continuation_token = none }
unfolding page
page_small size kk h = rw (le→ltb_false size (length kk) h)

page_large :
    (size : ℕ) (kk : Entries) (y : Text × Item)
    → size < length kk
    → get_elem? kk size ≡ some y
    → page (some size) kk
      ≡ record { keys = keys_of (take size kk); continuation_token = some (format_uint y.1.idx) }
unfolding page
page_large size kk y h e = rw (lt→ltb size (length kk) h, e)

pub list_entries_first :
    (size : Option ℕ) (kk : Entries) → list_entries none size kk ≡ ok (page size (sort_stable kk))
unfolding list_entries sort_stable page
list_entries_first none [] = refl
list_entries_first (some size) [] = ap ok (sym (page_small size [] (omega arith)))
list_entries_first size (e ∷ kk) = refl

read_pages_last :
    (fuel size : ℕ) (token : Option Text) (pattern_ : Text) (store : Store) (keys : List Text)
    → keys_like
        (record { pattern_ = pattern_; continuation_token = token; page_size = some size })
        store
      ≡ ok (record { keys = keys; continuation_token = none })
    → read_pages (suc fuel) size token pattern_ store ≡ some (keys ++ [])
unfolding read_pages
read_pages_last fuel size token pattern_ store keys h = rw (h, read_pages)

read_pages_more :
    (fuel size : ℕ) (token : Option Text) (pattern_ : Text) (store : Store) (keys : List Text)
    (next : Text)
    → keys_like
        (record { pattern_ = pattern_; continuation_token = token; page_size = some size })
        store
      ≡ ok (record { keys = keys; continuation_token = some next })
    → read_pages (suc fuel) size token pattern_ store
      ≡ and_more keys (read_pages fuel size (some next) pattern_ store)
unfolding read_pages
read_pages_more fuel size token pattern_ store keys next h = rw (h, read_pages)

keys_of-split :
    (n : ℕ) (kk : Entries) (y : Text × Item) (rest : Entries)
    → drop n kk ≡ y ∷ rest
    → keys_of (take n kk) ++ keys_of (y ∷ rest) ≡ keys_of kk
keys_of-split n kk y rest e =
    sym (map-append (λ (z : Text × Item). z.0) (take n kk) (y ∷ rest))
    ∙ ap keys_of (ap (◌++◌ (take n kk)) (sym e) ∙ take-append-drop n kk)

module _ (pattern_ : Text) (store : Store) (valid : IsValid store) (size : ℕ) (pos : 0 < size)
    (named : text_eq pattern_ (codes "") ≡ false) where
  abbrev listing : Entries
  listing = sort_stable (matching pattern_ store.items)

  abbrev request : Option Text → KeysLikeRequest
  request token = record { pattern_ = pattern_; continuation_token = token; page_size = some size }

  keys_like-page :
      (before after : Entries) (x : Text × Item)
      → listing ≡ before ++ x ∷ after
      → keys_like (request (some (format_uint x.1.idx))) store ≡ ok (page (some size) (x ∷ after))
  keys_like-page before after x e =
      keys_like_named (request (some (format_uint x.1.idx))) store named
      ∙ list_entries_sorted _ _ _ (λ n. append_cons_ne_nil before after x (sym e ∙ n))
      ∙ continue_page (some size) listing before after x e (listing-Ascending pattern_ valid)
          (listing-bounded pattern_ valid)

  read_from :
      (fuel : ℕ) (token : Option Text) (before kk : Entries)
      → listing ≡ before ++ kk
      → keys_like (request token) store ≡ ok (page (some size) kk)
      → length kk < fuel
      → read_pages fuel size token pattern_ store ≡ some (keys_of kk)
  read_from zero token before kk e p h = absurd (omega arith)
  read_from (suc fuel) token before kk e p h = elim (Bool-cases (ltb size (length kk))) [
    | inl more ↦
        let (y, rest, at_size, left) = split_at size kk (ltb→lt _ _ more) in
        let here = p ∙ ap ok (page_large size kk y (ltb→lt _ _ more) at_size) in
        let e' =
          e
          ∙ ap (◌++◌ before) (sym (take-append-drop size kk) ∙ ap (◌++◌ (take size kk)) left)
          ∙ sym (append_assoc before (take size kk) (y ∷ rest)) in
        read_pages_more fuel size token pattern_ store (keys_of (take size kk))
          (format_uint y.1.idx) here
        ∙ ap (and_more (keys_of (take size kk))) (
            read_from fuel (some (format_uint y.1.idx)) (before ++ take size kk) (y ∷ rest) e'
              (keys_like-page (before ++ take size kk) rest y e')
              (omega (arith, ap length left, length-drop size kk)))
        ∙ ap some (keys_of-split size kk y rest left)
    | inr last ↦
        let here = p ∙ ap ok (page_small size kk (ltb_false→le _ _ last)) in
        read_pages_last fuel size token pattern_ store (keys_of kk) here
        ∙ ap some (append-nil (keys_of kk))
  ]

  -- With pages of 1 key or more, reading page by page ends, and gives every matching key once, in the order of
  -- insertion.
  pub read_pages_all :
      (fuel : ℕ)
      → length (matching pattern_ store.items) < fuel
      → read_pages fuel size none pattern_ store
        ≡ some (keys_of (sort_stable (matching pattern_ store.items)))
  read_pages_all fuel h =
      read_from fuel none [] listing refl
        (keys_like_named (request none) store named
          ∙ list_entries_first (some size) (matching pattern_ store.items))
        (omega (arith, length-sort_stable (matching pattern_ store.items)))

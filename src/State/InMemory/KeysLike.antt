-- ===== src/State/InMemory/KeysLike.antt =====
-- `KeysLike` of state/in-memory/in_memory.go, with the sorting of state/in-memory/keys.go.
pub mod Sorted
pub mod Pages
pub mod Listed
use dapr_components_contrib.Prelude.{
  ℕ, Text, codes, text_eq, Option, none, some, List, [], ◌∷◌, map, keep, length, get_elem?, take,
  Bool, ltb, leb, if◌then◌else◌,
}
use dapr_components_contrib.Dict.{Dict}
use dapr_components_contrib.Strconv.{parse_uint, format_uint}
use dapr_components_contrib.State.Errors.{
  Result, ok, err, keys_like_empty_pattern, invalid_continue_token,
}
use dapr_components_contrib.State.Requests.{KeysLikeRequest}
use dapr_components_contrib.State.InMemory.{Item, Store}
use dapr_components_contrib.State.InMemory.Like.{like_to_regex, match_string}

pub record KeysLikeResponse : Type 0 where
  pub keys : List Text
  pub continuation_token : Option Text

abbrev pub no_keys : KeysLikeResponse
no_keys = record { keys = []; continuation_token = none }

-- sortingKeys: the keys with their items, which `Swap` moves together
abbrev pub Entries : Type 0
Entries = List (Text × Item)

-- the keys of the map that match, in the order in which Go ranges over it
abbrev pub matching : Text → Dict Item → Entries
matching pattern_ items = keep (λ e. match_string (like_to_regex pattern_) e.0) items

-- sort.Stable by `Less`, which compares the numbers of the items
unfoldable pub insert_sorted : Text × Item → Entries → Entries
insert_sorted x [] = x ∷ []
insert_sorted x (y ∷ ys) = if leb x.1.idx y.1.idx then x ∷ y ∷ ys else y ∷ insert_sorted x ys

unfoldable pub sort_stable : Entries → Entries
unfolding insert_sorted
sort_stable [] = []
sort_stable (x ∷ xs) = insert_sorted x (sort_stable xs)

-- the entries from the first one on whose number is at least `ct`; none for the cut -1
unfoldable pub cut_at : ℕ → Entries → Entries
cut_at ct [] = []
cut_at ct (x ∷ xs) = if leb ct x.1.idx then x ∷ xs else cut_at ct xs

abbrev pub keys_of : Entries → List Text
keys_of = map (λ e. e.0)

token_of : Option (Text × Item) → Option Text
token_of none = none
token_of (some e) = some (format_uint e.1.idx)

-- the part of `KeysLike` about `PageSize`, a uint32
unfoldable pub page : Option ℕ → Entries → KeysLikeResponse
unfolding token_of format_uint
page none kk = record { keys = keys_of kk; continuation_token = none }
page (some page_size) kk =
    if ltb page_size (length kk)
    then record {
      keys = keys_of (take page_size kk);
      continuation_token = token_of (get_elem? kk page_size);
    }
    else record { keys = keys_of kk; continuation_token = none }

continue_at : Text → Option ℕ → Option ℕ → Entries → Result KeysLikeResponse
continue_at token none page_size kk = err (invalid_continue_token token)
continue_at token (some ct) page_size kk = ok (page page_size (cut_at ct kk))

-- the part of `KeysLike` about `ContinuationToken`
unfoldable pub continue_from : Option Text → Option ℕ → Entries → Result KeysLikeResponse
unfolding page continue_at parse_uint cut_at
continue_from none page_size kk = ok (page page_size kk)
continue_from (some token) page_size kk = continue_at token (parse_uint token) page_size kk

unfoldable pub list_entries : Option Text → Option ℕ → Entries → Result KeysLikeResponse
unfolding continue_from sort_stable
list_entries token page_size [] = ok no_keys
list_entries token page_size (e ∷ kk) = continue_from token page_size (sort_stable (e ∷ kk))

-- KeysLike
unfoldable pub keys_like : KeysLikeRequest → Store → Result KeysLikeResponse
unfolding text_eq list_entries like_to_regex match_string
keys_like req store =
    if text_eq req.pattern_ (codes "")
    then err keys_like_empty_pattern
    else list_entries req.continuation_token req.page_size (matching req.pattern_ store.items)

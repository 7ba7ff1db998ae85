-- ===== src/State/InMemory.antt =====
-- state/in-memory/in_memory.go: a store in a map behind one lock.
-- An operation is a function on the store that stands for what it does while it holds the lock.
-- The clock is a number of nanoseconds since the year 1, which is the zero of Go's `time.Time`;
-- what an operation reads from it, and each etag that the uuid package makes, is an argument.
-- The metadata entry `ttlExpireTime` is the time itself, before it is written in RFC 3339.
pub mod Invariant
pub mod View
pub mod Etag
pub mod Accepted
pub mod Writes
pub mod Sets
pub mod Races
pub mod Multi
pub mod Like
pub mod Prefix
pub mod Shutdown
mod Tests
pub mod KeysLike
use dapr_components_contrib.Prelude.{
  ℕ, suc, ◌+◌, ◌-◌, ◌*◌, ◌%◌, ◌^◌, Text, codes, text_eq, has_prefix, drop_prefix, contains, Option,
  none, some, List, [], ◌∷◌, ◌++◌, Bool, ◌&&◌, not, false, ltb, if◌then◌else◌,
}
use dapr_components_contrib.Dict.{Dict, lookup, insert, delete}
use dapr_components_contrib.Strconv.{ℤ, pos_part, parse_int}
use dapr_components_contrib.State.Errors.{
  Result, ok, err, StateError, etag_error, new_etag_error, mismatch, invalid_ttl, marshal_failed,
  ◌>>=◌, ◌>>◌,
}
use dapr_components_contrib.State.Options.{
  first_write, set_option, delete_option, other_value, check_request_options,
}
use dapr_components_contrib.State.Requests.{
  Value, bytes, other, GetRequest, DeleteRequest, SetRequest, has_etag, separator, validate_prefix,
  GetResponse, empty_response, BulkGetResponse,
}
use dapr_components_contrib.State.Ttl.{metadata_ttl_key, value_or_empty}

-- inMemStateStoreItem
pub record Item : Type 0 where
  pub data_ : Text
  pub etag : Option Text
  pub expire : Option ℕ
  pub idx : ℕ

-- InMemoryStore: `idx` is a uint64.
pub record Store : Type 0 where
  pub items : Dict Item
  pub idx : ℕ

abbrev pub new_state_store : Store
new_state_store = record { items = []; idx = 0 }

-- (*inMemStateStoreItem).isExpired, on an item that is not nil
unfoldable pub is_expired : Item → ℕ → Bool
is_expired item now = elim item.expire [ none ↦ false | some t ↦ ltb t now ]

abbrev pub etag_mismatch : Text → StateError
etag_mismatch message = etag_error (new_etag_error mismatch (some message))

abbrev pub etag_or_empty : Option Text → Text
etag_or_empty none = codes ""
etag_or_empty (some e) = e

-- the first branch of `doValidateEtag`: first-write, and no etag
unfoldable pub validate_absent : Option Item → Result (Unit {0})
validate_absent none = ok tt
validate_absent (some item) =
    err (etag_mismatch (codes "item already exists and no etag was passed"))

not_match : Text → Text → Text → StateError
not_match key current expect = etag_mismatch (
    codes "state etag not match for key="
    ++ (key ++ (codes ": current=" ++ (current ++ (codes ", expect=" ++ expect)))))

-- the second branch: an etag that has to be the item's
unfoldable pub validate_match : Text → Text → Option Item → Result (Unit {0})
unfolding text_eq not_match
validate_match key expect none =
    err (etag_mismatch (codes "state not exist or expired for key=" ++ key))
validate_match key expect (some item) = elim item.etag [
  | none ↦ err (not_match key (codes "nil") expect)
  | some current ↦ if text_eq current expect then ok tt else err (not_match key current expect)
]

unfoldable pub do_validate_etag : Text → Option Text → Text → Store → Result (Unit {0})
unfolding text_eq has_etag validate_absent
do_validate_etag key etag concurrency store =
    if text_eq concurrency first_write && not (has_etag etag)
    then validate_absent (lookup key store.items)
    else if has_etag etag
    then validate_match key (etag_or_empty etag) (lookup key store.items)
    else ok tt

unfoldable pub do_delete : Text → Store → Store
do_delete key store = record store { items = delete key store.items }

-- Delete
unfoldable pub delete_item : DeleteRequest → Store → Store × Result (Unit {0})
delete_item req store =
    let checked = do
      check_request_options (delete_option req.options)
      do_validate_etag req.key req.etag req.options.concurrency store
    in elim checked [ ok _ ↦ (do_delete req.key store, ok tt) | err e ↦ (store, err e) ]

-- the test of the loop of `DeleteWithPrefix`
unfoldable pub has_only_prefix : Text → Text → Bool
has_only_prefix prefix key =
    has_prefix key prefix && not (contains (drop_prefix key prefix) separator)

-- the loop of `DeleteWithPrefix` over the items, with the map and the count so far
unfoldable pub delete_keys : Text → Dict Item → Dict Item → ℕ → Dict Item × ℕ
delete_keys prefix [] m count = (m, count)
delete_keys prefix ((key, item) ∷ rest) m count =
    let hit = has_only_prefix prefix key in
    delete_keys prefix rest (if hit then delete key m else m) (if hit then count + 1 else count)

-- DeleteWithPrefix: the number of items that were removed
unfoldable pub delete_with_prefix : Text → Store → Store × Result ℕ
unfolding delete_keys
delete_with_prefix prefix store = elim (validate_prefix prefix) [
  | err e ↦ (store, err e)
  | ok p ↦
      let (m, count) = delete_keys p store.items store.items 0 in
      (record store { items = m }, ok count)
]

unfoldable pub respond : Option Item → GetResponse
respond none = empty_response
respond (some item) = record { data_ = some item.data_; etag = item.etag; expires = item.expire }

unfoldable pub get_and_expire : Text → ℕ → Store → Store × Option Item
unfolding do_delete is_expired
get_and_expire key now store = elim (lookup key store.items) [
  | none ↦ (store, none)
  | some item ↦ if is_expired item now then (do_delete key store, none) else (store, some item)
]

-- Get. It gives the read lock back before it takes the write lock: `others` is what the other
-- goroutines do to the store in between, and `later` is the second reading of the clock.
unfoldable pub get : (Store → Store) → ℕ → ℕ → Text → Store → Store × GetResponse
unfolding respond get_and_expire is_expired
get others now later key store = elim (lookup key store.items) [
  | none ↦ (store, respond none)
  | some item ↦
      if is_expired item now
      then (let (after, found) = get_and_expire key later (others store) in (after, respond found))
      else (store, respond (some item))
]

unfoldable pub bulk_response : ℕ → Text → Option Item → BulkGetResponse
unfolding is_expired
bulk_response now key none = record { key = key; data_ = none; etag = none; expires = none }
bulk_response now key (some item) =
    if is_expired item now
    then record { key = key; data_ = none; etag = none; expires = none }
    else record { key = key; data_ = some item.data_; etag = item.etag; expires = item.expire }

-- BulkGet: `clock i` is what the clock says at the request with index `i`.
unfoldable pub bulk_get : (ℕ → ℕ) → ℕ → List GetRequest → Store → List BulkGetResponse
bulk_get clock i [] store = []
bulk_get clock i (r ∷ req) store =
    bulk_response (clock i) r.key (lookup r.key store.items) ∷ bulk_get clock (i + 1) req store

unfoldable pub marshal : Value → Result Text
marshal (bytes b) = ok b
marshal (other (some b)) = ok b
marshal (other none) = err marshal_failed

unfoldable pub clamped_ttl : Text → Option ℤ → Result ℕ
clamped_ttl s none = err (invalid_ttl s)
clamped_ttl s (some i) = ok (pos_part i)

-- doParseTTLInSeconds: a negative number becomes 0
unfoldable pub do_parse_ttl_in_seconds : Dict Text → Result ℕ
unfolding value_or_empty clamped_ttl parse_int text_eq
do_parse_ttl_in_seconds metadata =
    let s = value_or_empty metadata_ttl_key metadata in
    if text_eq s (codes "") then ok 0 else clamped_ttl s (parse_int s)

unfoldable pub do_set_validate_parameters : SetRequest → Result ℕ
do_set_validate_parameters req = do
  check_request_options (set_option req.options)
  do_parse_ttl_in_seconds req.metadata

-- now.Add(time.Duration(ttl) * time.Second): the product is an int64 that wraps around.
unfoldable pub add_seconds : ℕ → ℕ → ℕ
add_seconds now ttl = now + (ttl * 1_000_000_000 + 2 ^ 63) % 2 ^ 64 - 2 ^ 63

unfoldable pub new_item : Text → ℕ → Text → ℕ → ℕ → Item
unfolding add_seconds
new_item etag now value ttl idx = record {
  data_ = value;
  etag = some etag;
  expire = if ltb 0 ttl then some (add_seconds now ttl) else none;
  idx = idx;
}

unfoldable pub do_set : Text → ℕ → Text → Text → ℕ → Store → Store
do_set etag now key value ttl store = record {
  items = insert key (new_item etag now value ttl store.idx) store.items;
  idx = (store.idx + 1) % 2 ^ 64;
}

-- Set
unfoldable pub set : Text → ℕ → SetRequest → Store → Store × Result (Unit {0})
set etag now req store =
    let checked = do
      ttl ← do_set_validate_parameters req
      do_validate_etag req.key req.etag req.options.concurrency store
      bt ← marshal req.value
      ok (do_set etag now req.key bt ttl store)
    in elim checked [ ok after ↦ (after, ok tt) | err e ↦ (store, err e) ]

unfoldable pub clean_items : (Text → ℕ) → Dict Item → Dict Item → Dict Item
unfolding is_expired
clean_items clock [] m = m
clean_items clock ((key, item) ∷ rest) m =
    clean_items clock rest (if is_expired item (clock key) then delete key m else m)

-- doCleanExpiredItems: `clock key` is what the clock says when the loop is at that key.
unfoldable pub do_clean_expired_items : (Text → ℕ) → Store → Store
unfolding clean_items
do_clean_expired_items clock store = record store {
  items = clean_items clock store.items store.items;
}

-- ===== src/State/InMemory/Tests.antt =====
-- Runs of state/in-memory on small stores, and the theorems about it at concrete inputs.
use dapr_components_contrib.Prelude.{
  ltb, ◌&&◌, ℕ, ◌^◌, ◌<◌, ◌≤◌, ◌*◌, ◌+◌, Text, codes, text_eq, none, some, List, [], ◌∷◌, ◌≡◌, ◌≢◌,
  ◌↔◌, ◌⊎◌, refl, arith, true, false, if◌then◌else◌, All, keep, length, text_eq_iff,
}
use dapr_components_contrib.Dict.{lookup}
use dapr_components_contrib.State.Errors.{ok, err, unrecognized_consistency}
use dapr_components_contrib.State.Options.{
  SetStateOption, first_write, check_request_options, delete_option,
}
use dapr_components_contrib.State.Requests.{
  SetRequest, DeleteRequest, bytes, has_etag, validate_prefix,
}
use dapr_components_contrib.State.InMemory.{
  Item, Store, etag_mismatch, do_validate_etag, delete_with_prefix, has_only_prefix, respond, get,
  do_set_validate_parameters, do_parse_ttl_in_seconds, validate_match, marshal, set,
  do_clean_expired_items,
}
use dapr_components_contrib.State.InMemory.Invariant.{IsValid}
use dapr_components_contrib.State.InMemory.View.{view, get_linearizes, view-clean}
use dapr_components_contrib.State.InMemory.Etag.{MayWrite}
use dapr_components_contrib.State.InMemory.Writes.{set_expiry}
use dapr_components_contrib.State.InMemory.Sets.{set_ok_iff, written, view-set}
use dapr_components_contrib.State.InMemory.Accepted.{Parameters, StoredAs, Parameters-iff}
use mathlib.Core.List.{Memᴰ}
use dapr_components_contrib.State.InMemory.Races.{Attempt, successes, at_most_one_wins}
use dapr_components_contrib.State.InMemory.Multi.{upsert, remove, multi, prepare_operation}
use dapr_components_contrib.State.InMemory.Multi.Atomic.{multi_error, multi-IsValid}
use dapr_components_contrib.State.InMemory.Multi.Success.{Acceptable, multi_ok_iff}
use dapr_components_contrib.State.InMemory.Like.{like_to_regex, match_string}
use dapr_components_contrib.State.InMemory.Like.Correct.{Like, like_to_regex_iff}
use dapr_components_contrib.State.InMemory.Prefix.{has_only_prefix_iff, delete_with_prefix_lem}
use dapr_components_contrib.State.InMemory.KeysLike.{matching, sort_stable, keys_of, keys_like}
use dapr_components_contrib.State.InMemory.KeysLike.Pages.{read_pages, read_pages_all}
use dapr_components_contrib.State.InMemory.KeysLike.Listed.{listed_iff}
use dapr_components_contrib.State.InMemory.Shutdown.{
  System, Reach, Step, Deadlocked, IsSafe, started, Reach-IsSafe, close_deadlock, here, next, tick,
  ticked,
}

abbrev plain : Item
plain = record { data_ = codes "1"; etag = some (codes "e1"); expire = none; idx = 0 }

abbrev brief : Item
brief = record { data_ = codes "2"; etag = some (codes "e2"); expire = some 50; idx = 1 }

-- an item for ever, and one until time 50
abbrev sample : Store
sample = record { items = (codes "a", plain) ∷ (codes "a||b", brief) ∷ []; idx = 2 }

sample-IsValid : IsValid sample
unfolding text_eq
sample-IsValid = record {
  distinct = ((refl, tt), (tt, tt));
  below = omega arith;
  unique = ((λ e. absurd (omega arith), tt), (tt, tt));
  counter = omega arith;
}

abbrev no_option : SetStateOption
no_option = record { concurrency = codes ""; consistency = codes "" }

abbrev write_a : SetRequest
write_a = record {
  key = codes "a";
  value = bytes (codes "new");
  etag = some (codes "e1");
  metadata = (codes "ttlInSeconds", codes "10") ∷ [];
  options = no_option;
}

abbrev year_292 : ℕ
year_292 = 2 ^ 63

write_a-ttl : do_set_validate_parameters write_a ≡ ok 10
unfolding do_set_validate_parameters check_request_options do_parse_ttl_in_seconds
write_a-ttl = refl

write_a-marshal : marshal write_a.value ≡ ok (codes "new")
unfolding marshal
write_a-marshal = refl

write_a-MayWrite : MayWrite write_a.key write_a.etag write_a.options.concurrency sample
unfolding has_etag lookup
write_a-MayWrite = refl

set_runs : (set (codes "e3") 0 write_a sample).1 ≡ ok tt
unfolding set do_set_validate_parameters check_request_options do_parse_ttl_in_seconds
    do_validate_etag validate_match marshal lookup
set_runs = refl

get_runs : (get (λ s. s) 51 52 (codes "a||b") sample).1 ≡ respond none
unfolding get lookup
get_runs = refl

get_linearizes_example :
    ((get (λ s. s) 51 52 (codes "a||b") sample).1 ≡ respond (view 51 (codes "a||b") sample))
    ⊎ ((get (λ s. s) 51 52 (codes "a||b") sample).1 ≡ respond (view 52 (codes "a||b") sample))
get_linearizes_example = get_linearizes (λ s. s) 51 52 (codes "a||b") sample

view-clean_example :
    view 70 (codes "a||b") (do_clean_expired_items (λ k. 60) sample) ≡ view 70 (codes "a||b") sample
view-clean_example = view-clean (λ k. 60) 70 (codes "a||b") sample-IsValid (omega arith)

set_ok_iff_example : ((set (codes "e3") year_292 write_a sample).1 ≡ ok tt) ↔ (
    (ttl : ℕ) × (bt : Text) × Parameters write_a ttl
    × MayWrite write_a.key write_a.etag write_a.options.concurrency sample
    × StoredAs write_a.value bt)
set_ok_iff_example = set_ok_iff (codes "e3") year_292 write_a sample

view-set_example : view 5 (codes "a") (set (codes "e3") year_292 write_a sample).0 ≡ (
    if text_eq (codes "a") (codes "a")
    then (if ltb 0 10 && ltb (year_292 + 10 * 1_000_000_000) 5
        then none
        else some (written (codes "e3") year_292 (codes "new") 10 2))
    else view 5 (codes "a") sample)
view-set_example =
    view-set (codes "e3") year_292 write_a sample 10 (codes "new")
      ((Parameters-iff write_a 10).0 write_a-ttl) write_a-MayWrite refl (omega arith) (omega arith)
      5 (codes "a")

set_expiry_example :
    (view (year_292 + 1) (codes "a") (set (codes "e3") year_292 write_a sample).0 ≡ none)
    ↔ (year_292 + 10 * 1_000_000_000 < year_292 + 1)
set_expiry_example =
    set_expiry (codes "e3") year_292 write_a sample 10 (codes "new") write_a-ttl write_a-MayWrite
      write_a-marshal (year_292 + 1) (omega arith) (omega arith) (omega arith)

-- about 292 years
abbrev write_long : SetRequest
write_long = record write_a { metadata = (codes "ttlInSeconds", codes "10000000000") ∷ [] }

write_long-ttl : do_set_validate_parameters write_long ≡ ok 10_000_000_000
unfolding do_set_validate_parameters check_request_options do_parse_ttl_in_seconds
write_long-ttl = refl

text_ne : (s t : Text) → text_eq s t ≡ false → s ≢ t
text_ne s t h e = ground (arith, text_eq_iff s t)

e1_ne : (codes "e3" ≢ codes "e1") × (codes "e4" ≢ codes "e1")
unfolding text_eq
e1_ne = (text_ne (codes "e3") (codes "e1") refl, text_ne (codes "e4") (codes "e1") refl)

has_etag_e1 : has_etag (some (codes "e1")) ≡ true
unfolding has_etag
has_etag_e1 = refl

abbrev rivals : List Attempt
rivals =
    record { new_etag = codes "e3"; now = 1; req = write_a }
    ∷ record { new_etag = codes "e4"; now = 2; req = write_a }
    ∷ []

at_most_one_wins_example : successes rivals sample ≤ 1
at_most_one_wins_example =
    at_most_one_wins (codes "a") (codes "e1") has_etag_e1 rivals sample
      ((refl, refl, e1_ne.0), ((refl, refl, e1_ne.1), tt))

abbrev first_b : SetRequest
first_b = record {
  key = codes "a||b";
  value = bytes [];
  etag = none;
  metadata = [];
  options = record { concurrency = first_write; consistency = codes "" };
}

abbrev bad_delete : DeleteRequest
bad_delete = record {
  key = codes "a";
  etag = none;
  options = record { concurrency = codes ""; consistency = codes "bogus" };
}

abbrev uuids : ℕ → Text
uuids i = codes "u"

first_b_fails :
    (multi uuids (λ i. i) (upsert first_b ∷ []) sample).result
    ≡ err (etag_mismatch (codes "item already exists and no etag was passed"))
unfolding multi prepare_operation do_set_validate_parameters check_request_options
    do_parse_ttl_in_seconds marshal do_validate_etag lookup
first_b_fails = refl

multi_error_example : (multi uuids (λ i. i) (upsert first_b ∷ []) sample).store ≡ sample
multi_error_example =
    multi_error uuids (λ i. i) (upsert first_b ∷ []) sample
      (etag_mismatch (codes "item already exists and no etag was passed")) first_b_fails

multi_ok_iff_example :
    ((multi uuids (λ i. i) (upsert write_a ∷ remove bad_delete ∷ []) sample).result ≡ ok tt)
    ↔ All (Acceptable sample) (upsert write_a ∷ remove bad_delete ∷ [])
multi_ok_iff_example = multi_ok_iff uuids (λ i. i) (upsert write_a ∷ remove bad_delete ∷ []) sample

multi-IsValid_example :
    IsValid (multi uuids (λ i. i) (upsert write_a ∷ upsert write_long ∷ []) sample).store
multi-IsValid_example =
    multi-IsValid uuids (λ i. i) (upsert write_a ∷ upsert write_long ∷ []) (omega arith)
      sample-IsValid

bad_delete-options :
    check_request_options (delete_option bad_delete.options)
    ≡ err (unrecognized_consistency (codes "bogus"))
unfolding check_request_options
bad_delete-options = refl

bad_delete-etag : do_validate_etag (codes "a") none (codes "") sample ≡ ok tt
unfolding do_validate_etag
bad_delete-etag = refl

like_runs : match_string (like_to_regex (codes "a_b%\\%")) (codes "axb--%") ≡ true
unfolding like_to_regex match_string
like_runs = refl

like_to_regex_iff_example :
    (match_string (like_to_regex (codes "a%")) (codes "abc") ≡ true)
    ↔ Like (codes "a%") (codes "abc")
like_to_regex_iff_example = like_to_regex_iff (codes "a%") (codes "abc") (omega arith)

a-prefix : validate_prefix (codes "a") ≡ ok (codes "a||")
unfolding validate_prefix
a-prefix = refl

delete_with_prefix_lem_example :
    (lookup (codes "a||b") (delete_with_prefix (codes "a") sample).0.items ≡ (
      if has_only_prefix (codes "a||") (codes "a||b")
      then none
      else lookup (codes "a||b") sample.items))
    × ((delete_with_prefix (codes "a") sample).1
        ≡ ok (length (keep (λ e. has_only_prefix (codes "a||") e.0) sample.items)))
delete_with_prefix_lem_example =
    delete_with_prefix_lem (codes "a") (codes "a||") (has_only_prefix (codes "a||")) (codes "a||b")
      (has_only_prefix_iff (codes "a||")) sample-IsValid a-prefix

pages_run : read_pages 4 1 none (codes "a%") sample ≡ some (codes "a" ∷ codes "a||b" ∷ [])
unfolding read_pages keys_like
pages_run = refl

percent-named : text_eq (codes "a%") (codes "") ≡ false
unfolding text_eq
percent-named = refl

few_pages : length (matching (codes "a%") sample.items) < 4
unfolding like_to_regex match_string
few_pages = omega arith

read_pages_all_example :
    read_pages 4 1 none (codes "a%") sample
    ≡ some (keys_of (sort_stable (matching (codes "a%") sample.items)))
read_pages_all_example =
    read_pages_all (codes "a%") sample sample-IsValid 1 (omega arith) percent-named 4 few_pages

listed_iff_example :
    (keys : List Text) × (keys_like
        (record { pattern_ = codes "a%"; continuation_token = none; page_size = none })
        sample
      ≡ ok (record { keys = keys; continuation_token = none }))
    × (Memᴰ (codes "a") keys
        ↔ (Like (codes "a%") (codes "a") × (lookup (codes "a") sample.items ≢ none)))
listed_iff_example = listed_iff (codes "a%") (codes "a") sample percent-named (omega arith)

abbrev after_tick : System
after_tick = record (started sample.items) { cleaner = ticked }

Reach-IsSafe_example : IsSafe after_tick
Reach-IsSafe_example = Reach-IsSafe sample.items (next here (tick refl refl))

close_deadlock_example :
    (s : System) × Reach (started sample.items) s × Deadlocked s × ((t : System) → Step s t → ⊥)
close_deadlock_example = close_deadlock sample.items

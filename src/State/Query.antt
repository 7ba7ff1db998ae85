-- ===== src/State/Query.antt =====
-- state/query: the filters of a query and their JSON form (filter.go), and the builder that hands
-- them to the visitor of a state store (query.go).
pub mod Form
pub mod Builder
mod Tests
pub mod Reading
use dapr_components_contrib.Prelude.{
  ℕ, suc, Text, codes, text_eq, Option, none, some, Bool, ltb, if◌then◌else◌, List, [], ◌∷◌,
}

mutual
  -- The values of encoding/json: an object has its keys in the order in which Go ranges over it.
  pub data Json : Type 0 where
    null : Json
    boolean : Bool → Json
    number : Text → Json
    string : Text → Json
    array : Jsons → Json
    object : Fields → Json

  pub data Jsons : Type 0 where
    no_values : Jsons
    value : Json → Jsons → Jsons

  pub data Fields : Type 0 where
    no_fields : Fields
    field : Text → Json → Fields → Fields

abbrev pub count : Jsons → ℕ
count no_values = 0
count (value j js) = suc (count js)

mutual
  -- the types that implement Filter
  pub data Filter : Type 0 where
    eq neq gt gte lt lte : Text → Json → Filter
    in_ : Text → Jsons → Filter
    and_ or_ : Filters → Filter

  pub data Filters : Type 0 where
    no_filters : Filters
    filter : Filter → Filters → Filters

-- the errors of ParseFilter and of the methods Parse
pub data FilterError : Type 0 where
  unit_not_map unit_not_single in_not_array : FilterError
  unsupported : Text → FilterError
  not_map not_single not_array too_few : Text → FilterError

pub data Parsed {ℓ} (A : Type ℓ) : Type ℓ where
  done : A → Parsed A
  failed : FilterError → Parsed A

-- the methods Parse of EQ, NEQ, GT, GTE, LT and LTE, which differ in the name that they report
unfoldable pub parse_comparison : Text → (Text → Json → Filter) → Json → Parsed Filter
parse_comparison name make (object (field k v no_fields)) = done (make k v)
parse_comparison name make (object no_fields) = failed (not_single name)
parse_comparison name make (object (field k v (field l w rest))) = failed (not_single name)
parse_comparison name make null = failed (not_map name)
parse_comparison name make (boolean b) = failed (not_map name)
parse_comparison name make (number n) = failed (not_map name)
parse_comparison name make (string s) = failed (not_map name)
parse_comparison name make (array js) = failed (not_map name)

-- EQ.Parse
unfoldable pub parse_eq : Json → Parsed Filter
unfolding parse_comparison
parse_eq = parse_comparison (codes "EQ") eq

-- NEQ.Parse
unfoldable pub parse_neq : Json → Parsed Filter
unfolding parse_comparison
parse_neq = parse_comparison (codes "NEQ") neq

-- GT.Parse
unfoldable pub parse_gt : Json → Parsed Filter
unfolding parse_comparison
parse_gt = parse_comparison (codes "GT") gt

-- GTE.Parse
unfoldable pub parse_gte : Json → Parsed Filter
unfolding parse_comparison
parse_gte = parse_comparison (codes "GTE") gte

-- LT.Parse
unfoldable pub parse_lt : Json → Parsed Filter
unfolding parse_comparison
parse_lt = parse_comparison (codes "LT") lt

-- LTE.Parse
unfoldable pub parse_lte : Json → Parsed Filter
unfolding parse_comparison
parse_lte = parse_comparison (codes "LTE") lte

in_value : Text → Json → Parsed Filter
in_value k (array js) = done (in_ k js)
in_value k null = failed in_not_array
in_value k (boolean b) = failed in_not_array
in_value k (number n) = failed in_not_array
in_value k (string s) = failed in_not_array
in_value k (object fs) = failed in_not_array

-- IN.Parse
unfoldable pub parse_in : Json → Parsed Filter
unfolding in_value
parse_in (object (field k v no_fields)) = in_value k v
parse_in (object no_fields) = failed (not_single (codes "IN"))
parse_in (object (field k v (field l w rest))) = failed (not_single (codes "IN"))
parse_in null = failed (not_map (codes "IN"))
parse_in (boolean b) = failed (not_map (codes "IN"))
parse_in (number n) = failed (not_map (codes "IN"))
parse_in (string s) = failed (not_map (codes "IN"))
parse_in (array js) = failed (not_map (codes "IN"))

-- AND.Parse and OR.Parse, after parseFilters
unfoldable pub combine : (Filters → Filter) → Parsed Filters → Parsed Filter
combine make (done fs) = done (make fs)
combine make (failed e) = failed e

-- the switch of ParseFilter on the one key of the map; the last argument is parseFilters on the value
unfoldable pub parse_operator : Text → Json → (Text → Parsed Filters) → Parsed Filter
unfolding text_eq parse_eq parse_neq parse_gt parse_gte parse_lt parse_lte parse_in combine
parse_operator k v filters =
    if text_eq k (codes "EQ")
    then parse_eq v
    else if text_eq k (codes "NEQ")
    then parse_neq v
    else if text_eq k (codes "GT")
    then parse_gt v
    else if text_eq k (codes "GTE")
    then parse_gte v
    else if text_eq k (codes "LT")
    then parse_lt v
    else if text_eq k (codes "LTE")
    then parse_lte v
    else if text_eq k (codes "IN")
    then parse_in v
    else if text_eq k (codes "AND")
    then combine and_ (filters (codes "AND"))
    else if text_eq k (codes "OR")
    then combine or_ (filters (codes "OR"))
    else failed (unsupported k)

-- the step of the loop of parseFilters, which stops at the first error
unfoldable pub add_filter : Parsed Filter → Parsed Filters → Parsed Filters
add_filter (failed e) rest = failed e
add_filter (done f) (failed e) = failed e
add_filter (done f) (done fs) = done (filter f fs)

unfoldable mutual
  unfolding parse_operator add_filter

  -- ParseFilter
  pub parse_filter : Json → Parsed Filter
  parse_filter (object fields) = parse_unit fields
  parse_filter null = failed unit_not_map
  parse_filter (boolean b) = failed unit_not_map
  parse_filter (number n) = failed unit_not_map
  parse_filter (string s) = failed unit_not_map
  parse_filter (array js) = failed unit_not_map

  pub parse_unit : Fields → Parsed Filter
  parse_unit no_fields = failed unit_not_single
  parse_unit (field k v no_fields) = parse_operator k v (parse_filters v)
  parse_unit (field k v (field l w rest)) = failed unit_not_single

  -- parseFilters
  pub parse_filters : Json → Text → Parsed Filters
  parse_filters (array js) name =
      let filters = parse_entries js in if ltb (count js) 2 then failed (too_few name) else filters
  parse_filters null name = failed (not_array name)
  parse_filters (boolean b) name = failed (not_array name)
  parse_filters (number n) name = failed (not_array name)
  parse_filters (string s) name = failed (not_array name)
  parse_filters (object fs) name = failed (not_array name)

  -- its loop
  pub parse_entries : Jsons → Parsed Filters
  parse_entries no_values = done no_filters
  parse_entries (value j js) = add_filter (parse_filter j) (parse_entries js)

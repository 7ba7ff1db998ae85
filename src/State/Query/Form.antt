-- ===== src/State/Query/Form.antt =====
-- The JSON form of filters (state/query/filter.go): ParseFilter reads exactly the forms of the
-- filters whose AND and OR have at least two entries.
use dapr_components_contrib.Prelude.{ℕ, suc, ◌≤◌, Text, codes, ◌≡◌, refl, ap, sym, subst, arith}
use dapr_components_contrib.State.Query.{
  Json, array, object, Jsons, no_values, value, no_fields, field, count, Filter, eq, neq, gt, gte,
  lt, lte, in_, and_, or_, Filters, no_filters, filter, done, combine, parse_filter, parse_unit,
  parse_filters, parse_entries,
}

-- {"name": v}
abbrev pub unit : Text → Json → Json
unit name v = object (field name v no_fields)

unfoldable mutual
  -- the JSON form of a filter
  pub print : Filter → Json
  print (eq k v) = unit (codes "EQ") (unit k v)
  print (neq k v) = unit (codes "NEQ") (unit k v)
  print (gt k v) = unit (codes "GT") (unit k v)
  print (gte k v) = unit (codes "GTE") (unit k v)
  print (lt k v) = unit (codes "LT") (unit k v)
  print (lte k v) = unit (codes "LTE") (unit k v)
  print (in_ k vs) = unit (codes "IN") (unit k (array vs))
  print (and_ fs) = unit (codes "AND") (array (print_all fs))
  print (or_ fs) = unit (codes "OR") (array (print_all fs))

  pub print_all : Filters → Jsons
  print_all no_filters = no_values
  print_all (filter f fs) = value (print f) (print_all fs)

abbrev pub size : Filters → ℕ
size no_filters = 0
size (filter f fs) = suc (size fs)

unfoldable mutual
  -- AND and OR have at least two entries, at every depth.
  pub IsWell : Filter → Type 0
  IsWell (eq k v) = Unit
  IsWell (neq k v) = Unit
  IsWell (gt k v) = Unit
  IsWell (gte k v) = Unit
  IsWell (lt k v) = Unit
  IsWell (lte k v) = Unit
  IsWell (in_ k vs) = Unit
  IsWell (and_ fs) = (2 ≤ size fs) × AllWell fs
  IsWell (or_ fs) = (2 ≤ size fs) × AllWell fs

  pub AllWell : Filters → Type 0
  AllWell no_filters = Unit
  AllWell (filter f fs) = IsWell f × AllWell fs

pub count-print_all : (fs : Filters) → count (print_all fs) ≡ size fs
unfolding print_all
count-print_all no_filters = refl
count-print_all (filter f fs) = ap suc (count-print_all fs)

parse_filters_array :
    (js : Jsons) (name : Text) (fs : Filters)
    → 2 ≤ count js
    → parse_entries js ≡ done fs
    → parse_filters (array js) name ≡ done fs
unfolding parse_filters
parse_filters_array js name fs n e = ground (arith, e)

mutual
  unfolding parse_filter parse_entries print print_all IsWell parse_unit

  pub parse_filter-print : (f : Filter) → IsWell f → parse_filter (print f) ≡ done f
  parse_filter-print (eq k v) w = refl
  parse_filter-print (neq k v) w = refl
  parse_filter-print (gt k v) w = refl
  parse_filter-print (gte k v) w = refl
  parse_filter-print (lt k v) w = refl
  parse_filter-print (lte k v) w = refl
  parse_filter-print (in_ k vs) w = refl
  parse_filter-print (and_ fs) w = ap (combine and_) (
      parse_filters_array (print_all fs) (codes "AND") fs
        (subst (λ n. 2 ≤ n) (sym (count-print_all fs)) w.0) (parse_entries-print_all fs w.1))
  parse_filter-print (or_ fs) w = ap (combine or_) (
      parse_filters_array (print_all fs) (codes "OR") fs
        (subst (λ n. 2 ≤ n) (sym (count-print_all fs)) w.0) (parse_entries-print_all fs w.1))

  parse_entries-print_all : (fs : Filters) → AllWell fs → parse_entries (print_all fs) ≡ done fs
  parse_entries-print_all no_filters w = refl
  parse_entries-print_all (filter f fs) w =
      rw (parse_filter-print f w.0, parse_entries-print_all fs w.1) refl

-- ===== src/Postgresql/Visitor.antt =====
-- common/component/postgresql/v1/postgresql_query.go: Query and the methods that turn a filter into SQL
-- text with numbered placeholders, and the list of the parameters for them.
pub mod Correct
pub mod Refusals
pub mod Meaning
mod Tests
use dapr_components_contrib.Prelude.{
  ℕ, zero, suc, ◌+◌, ◌-◌, ◌%◌, ◌^◌, Text, codes, join, split, text_eq, Option, none, some, List, [],
  ◌∷◌, ◌++◌, length, map, leb, ltb, ◌==◌, if◌then◌else◌, Bool,
}
use dapr_components_contrib.Strconv.{ℤ, pos_part, pos, negsuc, parse_int, format_int, format_uint}
use dapr_components_contrib.State.Query.{
  Json, string, null, boolean, number, array, object, Jsons, no_values, value, Filter, eq, neq, gt,
  gte, lt, lte, in_, and_, or_, Filters, no_filters, filter,
}
use dapr_components_contrib.State.Query.Builder.{
  Query, Sorting, Visited, built, refused, Visitor, build_query,
}

-- Query of the package
pub record SqlQuery : Type 0 where
  pub query : Text
  pub params : List Text
  pub limit : ℕ
  pub skip : Option ℤ
  pub table_name : Text
  pub etag_column : Text

-- The steps of a field's path, with the arrow that reads text at the last one
unfoldable pub arrows : List Text → Text
arrows [] = []
arrows (part ∷ []) = codes "->>'" ++ part ++ codes "'"
arrows (part ∷ next ∷ rest) = codes "->'" ++ part ++ codes "'" ++ arrows (next ∷ rest)

abbrev pub first_field : List Text → Text
first_field [] = []
first_field (part ∷ rest) = part ++ arrows rest

unfoldable pub translate_field_to_filter : Text → Text
unfolding arrows split
translate_field_to_filter key = first_field (split (codes "value." ++ key) b'.')

-- `sprint` is fmt.Sprintf("%v", value).
module _ (sprint : Json → Text) where
  -- addParamValueAndReturnPosition; the position is the length of the list after it
  unfoldable pub add_param_value : Json → SqlQuery → SqlQuery
  add_param_value v q = record q { params = q.params ++ sprint v ∷ [] }

  -- the body that whereFieldEqual and the five others have in common
  unfoldable pub where_field : Text → Text → Json → SqlQuery → SqlQuery × Text
  unfolding add_param_value
  where_field op key v q =
      let after = add_param_value v q in
      (after, translate_field_to_filter key ++ op ++ codes "$" ++ format_uint (length after.params))

  unfoldable pub where_field_equal : Text → Json → SqlQuery → SqlQuery × Text
  unfolding where_field
  where_field_equal = where_field (codes "=")

  unfoldable pub where_field_not_equal : Text → Json → SqlQuery → SqlQuery × Text
  unfolding where_field
  where_field_not_equal = where_field (codes "!=")

  unfoldable pub where_field_greater_than : Text → Json → SqlQuery → SqlQuery × Text
  unfolding where_field
  where_field_greater_than = where_field (codes ">")

  unfoldable pub where_field_greater_than_equal : Text → Json → SqlQuery → SqlQuery × Text
  unfolding where_field
  where_field_greater_than_equal = where_field (codes ">=")

  unfoldable pub where_field_less_than : Text → Json → SqlQuery → SqlQuery × Text
  unfolding where_field
  where_field_less_than = where_field (codes "<")

  unfoldable pub where_field_less_than_equal : Text → Json → SqlQuery → SqlQuery × Text
  unfolding where_field
  where_field_less_than_equal = where_field (codes "<=")

  visited : SqlQuery × Text → SqlQuery × Visited Text
  visited (q, s) = (q, built s)

  -- VisitEQ
  unfoldable pub visit_eq : Text → Json → SqlQuery → SqlQuery × Visited Text
  unfolding where_field_equal visited
  visit_eq key v q = visited (where_field_equal key v q)

  -- VisitNEQ
  unfoldable pub visit_neq : Text → Json → SqlQuery → SqlQuery × Visited Text
  unfolding where_field_not_equal visited
  visit_neq key v q = visited (where_field_not_equal key v q)

  -- the switch on the value's type that VisitGT, VisitGTE, VisitLT and VisitLTE begin with
  unfoldable pub not_string :
      (Text → Json → SqlQuery → SqlQuery × Text) → Text → Json → SqlQuery → SqlQuery × Visited Text
  unfolding visited
  not_string compare key (string s) q =
      (q, refused (codes "unsupported type of value " ++ s ++ codes "; string type not permitted"))
  not_string compare key null q = visited (compare key null q)
  not_string compare key (boolean b) q = visited (compare key (boolean b) q)
  not_string compare key (number n) q = visited (compare key (number n) q)
  not_string compare key (array js) q = visited (compare key (array js) q)
  not_string compare key (object fs) q = visited (compare key (object fs) q)

  -- VisitGT
  unfoldable pub visit_gt : Text → Json → SqlQuery → SqlQuery × Visited Text
  unfolding not_string where_field_greater_than
  visit_gt = not_string where_field_greater_than

  -- VisitGTE
  unfoldable pub visit_gte : Text → Json → SqlQuery → SqlQuery × Visited Text
  unfolding not_string where_field_greater_than_equal
  visit_gte = not_string where_field_greater_than_equal

  -- VisitLT
  unfoldable pub visit_lt : Text → Json → SqlQuery → SqlQuery × Visited Text
  unfolding not_string where_field_less_than
  visit_lt = not_string where_field_less_than

  -- VisitLTE
  unfoldable pub visit_lte : Text → Json → SqlQuery → SqlQuery × Visited Text
  unfolding not_string where_field_less_than_equal
  visit_lte = not_string where_field_less_than_equal

  -- the loop of VisitIN over the values behind the first
  unfoldable pub or_equal : Text → Jsons → SqlQuery → SqlQuery × Text
  unfolding where_field_equal
  or_equal key no_values q = (q, [])
  or_equal key (value v vs) q =
      let (q', s) = where_field_equal key v q in
      let (q'', rest) = or_equal key vs q' in (q'', codes " OR " ++ s ++ rest)

  -- VisitIN
  unfoldable pub visit_in : Text → Jsons → SqlQuery → SqlQuery × Visited Text
  unfolding where_field_equal or_equal
  visit_in key no_values q =
      (q, refused (codes "empty IN operator for key " ++ 34 ∷ key ++ 34 ∷ []))
  visit_in key (value v vs) q =
      let (q', s) = where_field_equal key v q in
      let (q'', rest) = or_equal key vs q' in (q'', built (codes "(" ++ s ++ rest ++ codes ")"))

  -- the end of visitFilters
  unfoldable pub joined : Text → SqlQuery × Visited (List Text) → SqlQuery × Visited Text
  unfolding join
  joined op (q, built arr) =
      (q, built (codes "(" ++ join arr (codes " " ++ op ++ codes " ") ++ codes ")"))
  joined op (q, refused e) = (q, refused e)

  -- the text of a filter before those of the filters behind it
  unfoldable pub cons_visited :
      Text → SqlQuery × Visited (List Text) → SqlQuery × Visited (List Text)
  cons_visited s (q, built arr) = (q, built (s ∷ arr))
  cons_visited s (q, refused e) = (q, refused e)

  -- a filter and those behind it in the loop, which stops at the first error
  unfoldable pub append_visited :
      SqlQuery × Visited Text
      → (SqlQuery → SqlQuery × Visited (List Text))
      → SqlQuery × Visited (List Text)
  unfolding cons_visited
  append_visited (q, refused e) rest = (q, refused e)
  append_visited (q, built s) rest = cons_visited s (rest q)

  unfoldable mutual
    unfolding visit_eq visit_neq visit_gt visit_gte visit_lt visit_lte visit_in joined
        append_visited

    -- the switch of visitFilters, with VisitAND and VisitOR written out
    pub visit : Filter → SqlQuery → SqlQuery × Visited Text
    visit (eq k v) q = visit_eq k v q
    visit (neq k v) q = visit_neq k v q
    visit (gt k v) q = visit_gt k v q
    visit (gte k v) q = visit_gte k v q
    visit (lt k v) q = visit_lt k v q
    visit (lte k v) q = visit_lte k v q
    visit (in_ k vs) q = visit_in k vs q
    visit (and_ fs) q = joined (codes "AND") (visit_each fs q)
    visit (or_ fs) q = joined (codes "OR") (visit_each fs q)

    -- the loop of visitFilters
    pub visit_each : Filters → SqlQuery → SqlQuery × Visited (List Text)
    visit_each no_filters q = (q, built [])
    visit_each (filter f fs) q = append_visited (visit f q) (visit_each fs)

  -- visitFilters
  unfoldable pub visit_filters : Text → Filters → SqlQuery → SqlQuery × Visited Text
  unfolding visit joined
  visit_filters op filters q = joined op (visit_each filters q)

  -- VisitAND
  unfoldable pub visit_and : Filters → SqlQuery → SqlQuery × Visited Text
  unfolding visit_filters
  visit_and fs q = visit_filters (codes "AND") fs q

  -- VisitOR
  unfoldable pub visit_or : Filters → SqlQuery → SqlQuery × Visited Text
  unfolding visit_filters
  visit_or fs q = visit_filters (codes "OR") fs q

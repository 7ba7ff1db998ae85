-- ===== src/Postgresql/Query.antt =====
-- common/component/postgresql/v1/postgresql_query.go: Finalize, execute and Query.
pub mod Pages
pub mod Fields
pub mod Statement
mod Tests
use dapr_components_contrib.Prelude.{
  ℕ, zero, suc, ◌+◌, ◌-◌, ◌%◌, ◌^◌, Text, codes, join, split, text_eq, Option, none, some, List, [],
  ◌∷◌, ◌++◌, length, map, leb, ltb, ◌==◌, if◌then◌else◌, Bool,
}
use dapr_components_contrib.Strconv.{ℤ, pos_part, pos, negsuc, parse_int, format_int, format_uint}
use dapr_components_contrib.State.Query.{
  Json, string, null, boolean, number, array, object, Jsons, no_values, value, Filter, eq, neq, gt,
  gte, lt, lte, in_, and_, or_, Filters, no_filters, filter,
}
use dapr_components_contrib.State.Query.Builder.{
  Query, Sorting, Visited, built, refused, Visitor, build_query,
}
use dapr_components_contrib.Postgresql.Visitor.{
  SqlQuery, translate_field_to_filter, visit_eq, visit_neq, visit_gt, visit_gte, visit_lt,
  visit_lte, visit_in, visit_and, visit_or,
}

-- one item of ORDER BY
unfoldable pub sort_text : Sorting → Text
unfolding translate_field_to_filter text_eq
sort_text item =
    translate_field_to_filter item.key
    ++ (if text_eq item.order (codes "") then [] else codes " " ++ item.order)

-- the loop over the items of the sort
unfoldable pub order_by : List Sorting → Text
unfolding sort_text
order_by [] = []
order_by (item ∷ []) = sort_text item
order_by (item ∷ next ∷ rest) = sort_text item ++ codes ", " ++ order_by (next ∷ rest)

-- The parts of the text that Finalize appends, one for each of its conditions
unfoldable pub where_part : Text → Text
unfolding text_eq
where_part filters = if text_eq filters (codes "") then [] else codes " WHERE " ++ filters

unfoldable pub order_part : List Sorting → Text
unfolding order_by
order_part [] = []
order_part (item ∷ rest) = codes " ORDER BY " ++ order_by (item ∷ rest)

unfoldable pub limit_part : ℤ → Text
limit_part (pos zero) = []
limit_part (pos (suc n)) = codes " LIMIT " ++ format_uint (suc n)
limit_part (negsuc n) = []

-- the limit after Finalize, from the one before it
unfoldable pub limit_of : ℤ → ℕ → ℕ
limit_of (pos zero) old = old
limit_of (pos (suc n)) old = suc n
limit_of (negsuc n) old = old

-- the end of Finalize, about the token
unfoldable pub add_offset : Text → SqlQuery → SqlQuery × Visited (Unit {0})
unfolding text_eq
add_offset token q = if text_eq token (codes "") then (q, built tt) else elim (parse_int token) [
  | none ↦ (q, refused (codes "invalid syntax: " ++ token))
  | some skip ↦ (
    record q { query = q.query ++ codes " OFFSET " ++ format_int skip; skip = some skip },
    built tt,
  )
]

-- Finalize, up to the token
unfoldable pub selected : Text → Query → SqlQuery → SqlQuery
unfolding where_part order_part limit_part limit_of
selected filters qq q = record q {
  query =
      codes "SELECT key, value, "
      ++ q.etag_column
      ++ codes " as etag FROM "
      ++ q.table_name
      ++ where_part filters
      ++ order_part qq.query_fields.sort
      ++ limit_part qq.query_fields.page.limit;
  limit = limit_of qq.query_fields.page.limit q.limit;
}

-- Finalize
unfoldable pub finalize : Text → Query → SqlQuery → SqlQuery × Visited (Unit {0})
unfolding selected add_offset
finalize filters qq q = add_offset qq.query_fields.page.token (selected filters qq q)

-- the visitor that Query gives to the builder
abbrev pub visitor : (Json → Text) → Visitor SqlQuery
visitor sprint = record {
  visit_eq = visit_eq sprint;
  visit_neq = visit_neq sprint;
  visit_gt = visit_gt sprint;
  visit_gte = visit_gte sprint;
  visit_lt = visit_lt sprint;
  visit_lte = visit_lte sprint;
  visit_in = visit_in sprint;
  visit_and = visit_and sprint;
  visit_or = visit_or sprint;
  finalize = finalize;
}

-- The row of a result, with its etag as a uint32
pub record Row : Type 0 where
  pub key : Text
  pub data_ : Text
  pub etag : ℕ

pub record QueryItem : Type 0 where
  pub key : Text
  pub data_ : Text
  pub etag : Text

unfoldable pub item_of : Row → QueryItem
item_of r = record { key = r.key; data_ = r.data_; etag = format_uint r.etag }

-- a sum of two int64, the second one not negative, which wraps around
unfoldable pub add_int64 : ℤ → ℕ → ℤ
add_int64 (pos a) n =
    let sum = (a + n) % 2 ^ 64 in if ltb sum (2 ^ 63) then pos sum else negsuc (2 ^ 64 - sum - 1)
add_int64 (negsuc a) n = if leb (suc a) n then pos (n - suc a) else negsuc (a - n)

-- execute, on the rows that the database gives
unfoldable pub execute : SqlQuery → List Row → List QueryItem × Text
unfolding item_of add_int64
execute q rows =
    let skip : ℤ = elim q.skip [ none ↦ pos 0 | some n ↦ n ] in
    (map item_of rows, if q.limit == 0 then [] else format_int (add_int64 skip (length rows)))

-- execute, with what the database gives to the text and the parameters: its rows, or an error
unfoldable pub answer :
    (Text → List Text → Visited (List Row)) → SqlQuery → Visited (List QueryItem × Text)
answer db q = elim (db q.query q.params) [
  | refused e ↦ refused e
  | built rows ↦ built (execute q rows)
]

unfoldable pub answer_built :
    (Text → List Text → Visited (List Row))
    → SqlQuery × Visited (Unit {0})
    → Visited (List QueryItem × Text)
unfolding answer
answer_built db (q, built _) = answer db q
answer_built db (q, refused e) = refused e

abbrev pub new_query : Text → Text → SqlQuery
new_query table_name etag_column = record {
  query = [];
  params = [];
  limit = 0;
  skip = none;
  table_name = table_name;
  etag_column = etag_column;
}

-- Query, with the database
unfoldable pub run_query :
    (Json → Text)
    → (Text → List Text → Visited (List Row))
    → Text
    → Text
    → Query
    → Visited (List QueryItem × Text)
unfolding build_query answer_built
run_query sprint db table_name etag_column qq =
    answer_built db (build_query (visitor sprint) qq (new_query table_name etag_column))

-- ===== src/Postgresql/Visitor/Tests.antt =====
-- Runs and witnesses for the visitor.
use dapr_components_contrib.Prelude.{
  Text, codes, [], ◌∷◌, true, ◌≡◌, refl, text_eq, Bool, none, if◌then◌else◌,
}
use dapr_components_contrib.State.Query.{
  Json, string, number, value, no_values, Filter, eq, gt, in_, and_, no_filters, filter,
}
use dapr_components_contrib.State.Query.Builder.{built}
use dapr_components_contrib.Postgresql.Visitor.{SqlQuery, translate_field_to_filter, visit}
use dapr_components_contrib.Postgresql.Visitor.Correct.{with_params}
use dapr_components_contrib.Postgresql.Visitor.Refusals.{visit_lem}
use dapr_components_contrib.Postgresql.Condition.{Comparison, sql, values, translate, supported}
use dapr_components_contrib.Strconv.{format_uint}

abbrev shown : Json → Text
shown (string s) = s
shown (number n) = n
shown _ = []

abbrev empty_query : SqlQuery
empty_query = record {
  query = [];
  params = codes "x" ∷ [];
  limit = 0;
  skip = none;
  table_name = codes "state";
  etag_column = codes "etag";
}

-- {"AND": [{"EQ": {"person.name": "Ann"}}, {"IN": {"city": ["A", "B"]}}]}
abbrev ann : Filter
ann = and_ (
    filter (eq (codes "person.name") (string (codes "Ann"))) (
      filter
        (in_ (codes "city") (value (string (codes "A")) (value (string (codes "B")) no_values)))
        no_filters))

abbrev order_of_text : Filter
order_of_text = gt (codes "age") (string (codes "7"))

-- A quote in a key ends the literal that the key is put in.
quote_in_key :
    translate_field_to_filter (codes "a' IS NULL OR 'b'='b' OR value->>'c")
    ≡ codes "value->>'a' IS NULL OR 'b'='b' OR value->>'c'"
unfolding translate_field_to_filter
quote_in_key = refl

ann_text : visit shown ann empty_query ≡ (
  with_params shown empty_query (codes "Ann" ∷ codes "A" ∷ codes "B" ∷ []),
  built (codes "(value->'person'->>'name'=$2 AND (value->>'city'=$3 OR value->>'city'=$4))"),
)
unfolding visit translate_field_to_filter format_uint
ann_text = refl

ann-supported : supported ann ≡ true
unfolding supported
ann-supported = refl

visit_lem_example :
    visit shown ann empty_query
    ≡ (with_params shown empty_query (values shown ann), built (sql (translate shown ann 1)))
visit_lem_example = (visit_lem shown ann empty_query).0 ann-supported

-- A row whose name is Ann and whose city is B
abbrev in_row : Comparison → Text → Text → Bool
in_row op k v = text_eq v (if text_eq k (codes "city") then codes "B" else codes "Ann")

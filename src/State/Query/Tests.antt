-- ===== src/State/Query/Tests.antt =====
-- Queries of state/query at concrete inputs.
use dapr_components_contrib.Prelude.{codes, [], ◌≡◌, refl, ◌↔◌}
use dapr_components_contrib.Strconv.{pos}
use dapr_components_contrib.State.Query.{
  Fields, null, string, array, object, no_values, value, no_fields, field, Filter, eq, in_, and_,
  no_filters, filter, done, failed, too_few, unsupported, parse_filter,
}
use dapr_components_contrib.State.Query.Reading.{IsForm, parse_filter_iff}
use dapr_components_contrib.State.Query.Builder.{QueryFields}

-- {"AND": [{"EQ": {"person.org": "A"}}, {"IN": {"state": ["CA", "WA"]}}]}
abbrev sample : Filter
sample = and_ (
    filter (eq (codes "person.org") (string (codes "A"))) (
      filter
        (in_ (codes "state") (value (string (codes "CA")) (value (string (codes "WA")) no_values)))
        no_filters))

abbrev sample_fields : Fields
sample_fields =
    field (codes "AND")
      (array (
        value
          (object (
            field (codes "EQ") (object (field (codes "person.org") (string (codes "A")) no_fields))
              no_fields))
          (value
            (object (
              field (codes "IN")
                (object (
                  field (codes "state")
                    (array (value (string (codes "CA")) (value (string (codes "WA")) no_values)))
                    no_fields))
                no_fields))
            no_values)))
      no_fields

sample_read : parse_filter (object sample_fields) ≡ done sample
unfolding parse_filter
sample_read = refl

one_entry :
    parse_filter (object (field (codes "OR") (array (value null no_values)) no_fields))
    ≡ failed (too_few (codes "OR"))
unfolding parse_filter
one_entry = refl

lower_case :
    parse_filter (object (field (codes "eq") null no_fields)) ≡ failed (unsupported (codes "eq"))
unfolding parse_filter
lower_case = refl

parse_filter_iff_example :
    (parse_filter (object sample_fields) ≡ done sample) ↔ IsForm (object sample_fields) sample
parse_filter_iff_example = parse_filter_iff (object sample_fields) sample

abbrev sample_query : QueryFields
sample_query = record {
  filters = sample_fields;
  sort = [];
  page = record { limit = pos 3; token = [] };
}

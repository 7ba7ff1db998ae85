-- ===== src/Postgresql/Query/Tests.antt =====
-- Runs and witnesses for Finalize, execute and Query.
use dapr_components_contrib.Prelude.{
  split, ◌+◌, Text, codes, List, [], ◌∷◌, ◌++◌, true, false, ◌≡◌, refl, some, text_eq, length, sym,
  if◌then◌else◌, arith,
}
use dapr_components_contrib.Strconv.{pos, format_int, parse_int, format_uint}
use dapr_components_contrib.State.Query.{Json, string, no_fields, Filter, eq, gt}
use dapr_components_contrib.State.Query.Builder.{Query, Visited, built, refused}
use dapr_components_contrib.Postgresql.Visitor.{SqlQuery, visit_eq, translate_field_to_filter}
use dapr_components_contrib.Postgresql.Condition.{Condition, sql, supported, evaluate, matches}
use dapr_components_contrib.Postgresql.Query.{
  Row, execute, finalize, answer, run_query, order_part, limit_part,
}
use dapr_components_contrib.Postgresql.Query.Pages.{finalize-execute}
use dapr_components_contrib.Postgresql.Query.Fields.{quoted_names, Unquoted, AllKeys}
use dapr_components_contrib.Postgresql.Query.Statement.{run_query_lem}

abbrev shown : Json → Text
shown (string s) = s
shown _ = []

abbrev rows : List Row
rows =
    record { key = codes "k1"; data_ = codes "1"; etag = 7 }
    ∷ record { key = codes "k2"; data_ = codes "2"; etag = 8 }
    ∷ []

-- a database that gives the two rows to any statement
abbrev two_rows : Text → List Text → Visited (List Row)
two_rows s ps = built rows

abbrev is_name : Filter
is_name = eq (codes "name") (string (codes "Ann"))

abbrev after_name : Filter
after_name = gt (codes "name") (string (codes "Ann"))

abbrev asking : Filter → Text → Query
asking f token = record {
  query_fields = record {
    filters = no_fields;
    sort =
        record { key = codes "age"; order = codes "DESC" }
        ∷ record { key = codes "name"; order = [] }
        ∷ [];
    page = record { limit = pos 2; token = token };
  };
  filter = some f;
}

first_page :
    run_query shown two_rows (codes "state") (codes "xmin") (asking is_name [])
    ≡ built (
      record { key = codes "k1"; data_ = codes "1"; etag = codes "7" }
          ∷ record { key = codes "k2"; data_ = codes "2"; etag = codes "8" }
          ∷ [],
      codes "2",
    )
unfolding run_query visit_eq finalize execute format_int format_uint
first_page = refl

-- a database that gives rows to the one statement expected
abbrev expecting : Text → Text → List Text → Visited (List Row)
expecting expected s ps = if text_eq s expected then built rows else refused (codes "unexpected")

second_page :
    run_query shown
      (expecting (
        codes
          "SELECT key, value, xmin as etag FROM state WHERE value->>'name'=$1 ORDER BY value->>'age' DESC, value->>'name' LIMIT 2 OFFSET 2"))
      (codes "state")
      (codes "xmin")
      (asking is_name (codes "2"))
    ≡ built (
      record { key = codes "k1"; data_ = codes "1"; etag = codes "7" }
          ∷ record { key = codes "k2"; data_ = codes "2"; etag = codes "8" }
          ∷ [],
      codes "4",
    )
unfolding run_query visit_eq finalize execute format_int format_uint translate_field_to_filter
    parse_int
second_page = refl

abbrev page_query : SqlQuery
page_query = record {
  query = [];
  params = [];
  limit = 2;
  skip = some (pos 4);
  table_name = codes "state";
  etag_column = codes "xmin";
}

token_read : (execute page_query rows).1 ≡ codes "6"
unfolding execute format_int format_uint
token_read = refl

finalize-execute_example :
    ((finalize [] (asking is_name (codes "6")) page_query).1 ≡ built tt)
    × ((finalize [] (asking is_name (codes "6")) page_query).0.skip ≡ some (pos (4 + length rows)))
    × ((before : Text) × ((finalize [] (asking is_name (codes "6")) page_query).0.query
          ≡ before ++ codes " OFFSET " ++ format_int (pos (4 + length rows))))
finalize-execute_example =
    finalize-execute page_query rows 4 [] (asking is_name (codes "6")) page_query (ground arith)
      refl (omega arith) (sym token_read)

is_name-supported : supported is_name ≡ true
unfolding supported
is_name-supported = refl

is_name-Unquoted : AllKeys Unquoted is_name
unfolding AllKeys
is_name-Unquoted = ground arith

run_query_lem_example :
    (c : Condition) × (q : SqlQuery) × (run_query shown two_rows
        (codes "state")
        (codes "xmin")
        (asking is_name [])
      ≡ answer two_rows q)
    × (q.query
        ≡ codes "SELECT key, value, "
          ++ codes "xmin"
          ++ codes " as etag FROM "
          ++ codes "state"
          ++ (codes " WHERE " ++ sql c)
          ++ order_part (asking is_name []).query_fields.sort
          ++ limit_part (pos 2))
    × (evaluate (λ op k v. text_eq v (codes "Ann")) q.params c
        ≡ matches (λ op k v. text_eq v (codes "Ann")) shown is_name)
    × AllKeys (λ k. quoted_names (translate_field_to_filter k) ≡ split k b'.') is_name
run_query_lem_example =
    run_query_lem shown (λ op k v. text_eq v (codes "Ann")) two_rows (codes "state") (codes "xmin")
      (asking is_name []) is_name refl is_name-supported is_name-Unquoted refl

after_name_refused : supported after_name ≡ false
unfolding supported
after_name_refused = refl

-- ===== src/Postgresql/Query/Pages.antt =====
-- common/component/postgresql/v1/postgresql_query.go: the token of a page.
use dapr_components_contrib.Prelude.{ℕ, ◌+◌, ◌^◌, Text, codes, none, some, List, ◌++◌, length}
use dapr_components_contrib.Strconv.{ℤ, pos, format_int}
use dapr_components_contrib.State.Query.Builder.{Query, Visited, built}
use dapr_components_contrib.Postgresql.Visitor.{SqlQuery}
use dapr_components_contrib.Postgresql.Query.{
  Row, execute, finalize, add_offset, add_int64, selected,
}
use dapr_components_contrib.Strconv.RoundTrip.{IsInt64, parse_int-format_int, format_int_non_empty}
use dapr_components_contrib.Prelude.{◌≡◌, refl, ap, ◌∙◌, ◌≢◌, arith, ◌<◌, ne→eq_false}

abbrev pub skipped : SqlQuery → ℤ
skipped q = elim q.skip [ none ↦ pos 0 | some n ↦ n ]

add_int64_lem : (s n : ℕ) → s + n < 2 ^ 63 → add_int64 (pos s) n ≡ pos (s + n)
unfolding add_int64
add_int64_lem s n h = ground arith

token_lem :
    (q : SqlQuery) (rows : List Row) (s : ℕ)
    → q.limit ≢ 0
    → skipped q ≡ pos s
    → s + length rows < 2 ^ 63
    → (execute q rows).1 ≡ format_int (pos (s + length rows))
unfolding execute
token_lem q rows s h e b =
    rw (ne→eq_false q.limit 0 h)
      (ap format_int (ap (λ z. add_int64 z (length rows)) e ∙ add_int64_lem s (length rows) b))

abbrev with_offset : SqlQuery → ℤ → SqlQuery
with_offset q i = record q { query = q.query ++ codes " OFFSET " ++ format_int i; skip = some i }

add_offset_lem :
    (i : ℤ) (q : SqlQuery) → IsInt64 i → add_offset (format_int i) q ≡ (with_offset q i, built tt)
unfolding add_offset
add_offset_lem i q h = rw (format_int_non_empty i, parse_int-format_int i h) refl

-- A page that has a limit gives a token. A query with that token skips the rows that were skipped
-- before the page and those of the page, in its text and in what its own token counts from, as long
-- as their number is an int64.
pub finalize-execute :
    (q : SqlQuery) (rows : List Row) (s : ℕ) (filters : Text) (next : Query) (q' : SqlQuery)
    → q.limit ≢ 0
    → skipped q ≡ pos s
    → s + length rows < 2 ^ 63
    → next.query_fields.page.token ≡ (execute q rows).1
    → ((finalize filters next q').1 ≡ built tt)
      × ((finalize filters next q').0.skip ≡ some (pos (s + length rows)))
      × ((before : Text) × ((finalize filters next q').0.query
            ≡ before ++ codes " OFFSET " ++ format_int (pos (s + length rows))))
unfolding finalize
finalize-execute q rows s filters next q' h e b t =
    let p : finalize filters next q'
        ≡ (with_offset (selected filters next q') (pos (s + length rows)), built tt) =
      ap (λ token. add_offset token (selected filters next q')) (t ∙ token_lem q rows s h e b)
      ∙ add_offset_lem (pos (s + length rows)) (selected filters next q') (unfold IsInt64 in b) in
    (
      ap (λ r. r.1) p,
      ap (λ (r : SqlQuery × Visited (Unit {0})). r.0.skip) p,
      ((selected filters next q').query, ap (λ (r : SqlQuery × Visited (Unit {0})). r.0.query) p),
    )

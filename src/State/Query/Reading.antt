-- ===== src/State/Query/Reading.antt =====
-- What ParseFilter (state/query/filter.go) accepts: only the JSON forms of filters.
use dapr_components_contrib.Prelude.{
  ◌≤◌, Text, codes, text_eq, text_eq_iff, ◌≡◌, refl, ap, ◌∙◌, ◌↔◌, ◌⊎◌, inl, inr, true, Bool-cases,
  ltb, arith,
}
use dapr_components_contrib.State.Query.{
  Json, null, boolean, number, string, array, object, Jsons, no_values, value, Fields, no_fields,
  field, count, Filter, eq, neq, gt, gte, lt, lte, in_, and_, or_, Filters, no_filters, filter,
  Parsed, done, failed, parse_comparison, parse_eq, parse_neq, parse_gt, parse_gte, parse_lt,
  parse_lte, parse_in, in_value, combine, parse_operator, add_filter, parse_filter, parse_unit,
  parse_filters, parse_entries,
}
use dapr_components_contrib.State.Query.Form.{
  unit, print, print_all, size, IsWell, AllWell, count-print_all, parse_filter-print,
}

-- What a comparison reads
parse_comparison_done :
    (name : Text) (make : Text → Json → Filter) (v : Json) (f : Filter)
    → parse_comparison name make v ≡ done f
    → (k : Text) × (w : Json) × (v ≡ unit k w) × (f ≡ make k w)
unfolding parse_comparison
parse_comparison_done name make (object (field k v no_fields)) f e = (k, v, refl, ground arith)
parse_comparison_done name make (object no_fields) f e = ground arith
parse_comparison_done name make (object (field k v (field l w rest))) f e = ground arith
parse_comparison_done name make null f e = ground arith
parse_comparison_done name make (boolean b) f e = ground arith
parse_comparison_done name make (number n) f e = ground arith
parse_comparison_done name make (string s) f e = ground arith
parse_comparison_done name make (array js) f e = ground arith

in_value_done :
    (k : Text) (v : Json) (f : Filter)
    → in_value k v ≡ done f
    → (vs : Jsons) × (v ≡ array vs) × (f ≡ in_ k vs)
unfolding in_value
in_value_done k (array vs) f e = (vs, refl, ground arith)
in_value_done k null f e = ground arith
in_value_done k (boolean b) f e = ground arith
in_value_done k (number n) f e = ground arith
in_value_done k (string s) f e = ground arith
in_value_done k (object fs) f e = ground arith

parse_in_done :
    (v : Json) (f : Filter)
    → parse_in v ≡ done f
    → (k : Text) × (vs : Jsons) × (v ≡ unit k (array vs)) × (f ≡ in_ k vs)
unfolding parse_in
parse_in_done (object (field k v no_fields)) f e =
    let (vs, p, q) = in_value_done k v f e in (k, vs, ap (unit k) p, q)
parse_in_done (object no_fields) f e = ground arith
parse_in_done (object (field k v (field l w rest))) f e = ground arith
parse_in_done null f e = ground arith
parse_in_done (boolean b) f e = ground arith
parse_in_done (number n) f e = ground arith
parse_in_done (string s) f e = ground arith
parse_in_done (array js) f e = ground arith

combine_done :
    (make : Filters → Filter) (p : Parsed Filters) (f : Filter)
    → combine make p ≡ done f
    → (fs : Filters) × (p ≡ done fs) × (f ≡ make fs)
unfolding combine
combine_done make (done fs) f e = (fs, refl, ground arith)
combine_done make (failed x) f e = ground arith

add_filter_done :
    (p : Parsed Filter) (q : Parsed Filters) (fs : Filters)
    → add_filter p q ≡ done fs
    → (f : Filter) × (rest : Filters) × (p ≡ done f) × (q ≡ done rest) × (fs ≡ filter f rest)
unfolding add_filter
add_filter_done (failed x) q fs e = ground arith
add_filter_done (done f) (failed x) fs e = ground arith
add_filter_done (done f) (done rest) fs e = (f, rest, refl, refl, ground arith)

-- It is the form of the filter.
abbrev pub IsForm : Json → Filter → Type 0
IsForm j f = (j ≡ print f) × IsWell f

abbrev pub AreForms : Jsons → Filters → Type 0
AreForms js fs = (js ≡ print_all fs) × AllWell fs

-- What the switch reads, with parseFilters still to be looked into
abbrev Read : Text → Json → (Text → Parsed Filters) → Filter → Type 0
Read k v filters f =
    IsForm (unit k v) f
    ⊎ (((fs : Filters) × (k ≡ codes "AND") × (filters (codes "AND") ≡ done fs) × (f ≡ and_ fs))
        ⊎ ((fs : Filters) × (k ≡ codes "OR") × (filters (codes "OR") ≡ done fs) × (f ≡ or_ fs)))

-- One case of the switch
module _ (k : Text) (v : Json) (f : Filter) where
  compared :
      (name : Text) (make : Text → Json → Filter)
      → ((l : Text) (w : Json) → IsForm (unit name (unit l w)) (make l w))
      → text_eq k name ≡ true
      → parse_comparison name make v ≡ done f
      → IsForm (unit k v) f
  compared name make form t e =
      let (l, w, p, q) = parse_comparison_done name make v f e in
      rw ((text_eq_iff k name).0 t, p, q) (form l w)

  included : text_eq k (codes "IN") ≡ true → parse_in v ≡ done f → IsForm (unit k v) f
  unfolding print IsWell
  included t e =
      let (l, vs, p, q) = parse_in_done v f e in
      rw ((text_eq_iff k (codes "IN")).0 t, p, q) (refl, tt)

  parse_operator_done :
      (filters : Text → Parsed Filters) → parse_operator k v filters ≡ done f → Read k v filters f
  unfolding parse_operator print IsWell parse_eq parse_neq parse_gt parse_gte parse_lt parse_lte
  parse_operator_done filters e = elim (Bool-cases (text_eq k (codes "EQ"))) [
    | inl t ↦ inl (compared (codes "EQ") eq (λ l w. (refl, tt)) t (rw t at e))
    | inr t ↦
        let e = rw t at e in
        elim (Bool-cases (text_eq k (codes "NEQ"))) [
          | inl t ↦ inl (compared (codes "NEQ") neq (λ l w. (refl, tt)) t (rw t at e))
          | inr t ↦
              let e = rw t at e in
              elim (Bool-cases (text_eq k (codes "GT"))) [
                | inl t ↦ inl (compared (codes "GT") gt (λ l w. (refl, tt)) t (rw t at e))
                | inr t ↦
                    let e = rw t at e in
                    elim (Bool-cases (text_eq k (codes "GTE"))) [
                      | inl t ↦ inl (compared (codes "GTE") gte (λ l w. (refl, tt)) t (rw t at e))
                      | inr t ↦
                          let e = rw t at e in
                          elim (Bool-cases (text_eq k (codes "LT"))) [
                            | inl t ↦
                                inl (compared (codes "LT") lt (λ l w. (refl, tt)) t (rw t at e))
                            | inr t ↦
                                let e = rw t at e in
                                elim (Bool-cases (text_eq k (codes "LTE"))) [
                                  | inl t ↦
                                      inl (
                                        compared (codes "LTE") lte (λ l w. (refl, tt)) t
                                          (rw t at e))
                                  | inr t ↦
                                      let e = rw t at e in
                                      elim (Bool-cases (text_eq k (codes "IN"))) [
                                        | inl t ↦ inl (included t (rw t at e))
                                        | inr t ↦
                                            let e = rw t at e in
                                            elim (Bool-cases (text_eq k (codes "AND"))) [
                                              | inl t ↦
                                                  let (fs, p, q) =
                                                    combine_done and_ (filters (codes "AND")) f
                                                      (rw t at e) in
                                                  inr (
                                                    inl
                                                      (fs, (text_eq_iff k (codes "AND")).0 t, p, q))
                                              | inr t ↦
                                                  let e = rw t at e in
                                                  elim (Bool-cases (text_eq k (codes "OR"))) [
                                                    | inl t ↦
                                                        let (fs, p, q) =
                                                          combine_done or_ (filters (codes "OR")) f
                                                            (rw t at e) in
                                                        inr (
                                                          inr (
                                                            fs,
                                                            (text_eq_iff k (codes "OR")).0 t,
                                                            p,
                                                            q,
                                                          ))
                                                    | inr t ↦ ground (arith, t, e)
                                                  ]
                                            ]
                                      ]
                                ]
                          ]
                    ]
              ]
        ]
  ]

Read→IsForm :
    (k : Text) (v : Json) (f : Filter)
    → ((name : Text) (fs : Filters)
        → parse_filters v name ≡ done fs
        → (v ≡ array (print_all fs)) × (2 ≤ size fs) × AllWell fs)
    → Read k v (parse_filters v) f
    → IsForm (unit k v) f
unfolding print IsWell
Read→IsForm k v f below (inl form) = form
Read→IsForm k v f below (inr (inl (fs, p, q, r))) =
    let (e, n, w) = below (codes "AND") fs q in rw (p, e, r) (refl, (n, w))
Read→IsForm k v f below (inr (inr (fs, p, q, r))) =
    let (e, n, w) = below (codes "OR") fs q in rw (p, e, r) (refl, (n, w))

-- parseFilters reads what its loop reads, from two entries on.
parse_filters_done :
    (js : Jsons) (name : Text) (fs : Filters)
    → ((gs : Filters) → parse_entries js ≡ done gs → AreForms js gs)
    → parse_filters (array js) name ≡ done fs
    → (array js ≡ array (print_all fs)) × (2 ≤ size fs) × AllWell fs
unfolding parse_filters
parse_filters_done js name fs below e = elim (Bool-cases (ltb (count js) 2)) [
  | inl t ↦ ground (arith, t, e)
  | inr t ↦
      let (p, w) = below fs (rw t at e) in
      (ap array p, ground (arith, t, ap count p, count-print_all fs), w)
]

mutual
  unfolding parse_filter parse_unit parse_filters parse_entries print_all AllWell

  parse_filter_done : (j : Json) (f : Filter) → parse_filter j ≡ done f → IsForm j f
  parse_filter_done (object fields) f e = parse_unit_done fields f e
  parse_filter_done null f e = ground arith
  parse_filter_done (boolean b) f e = ground arith
  parse_filter_done (number n) f e = ground arith
  parse_filter_done (string s) f e = ground arith
  parse_filter_done (array js) f e = ground arith

  parse_unit_done :
      (fields : Fields) (f : Filter) → parse_unit fields ≡ done f → IsForm (object fields) f
  parse_unit_done no_fields f e = ground arith
  parse_unit_done (field k v no_fields) f e =
      Read→IsForm k v f (parse_array_done v) (parse_operator_done k v f (parse_filters v) e)
  parse_unit_done (field k v (field l w rest)) f e = ground arith

  parse_array_done :
      (v : Json) (name : Text) (fs : Filters)
      → parse_filters v name ≡ done fs
      → (v ≡ array (print_all fs)) × (2 ≤ size fs) × AllWell fs
  parse_array_done (array js) name fs e = parse_filters_done js name fs (parse_entries_done js) e
  parse_array_done null name fs e = ground arith
  parse_array_done (boolean b) name fs e = ground arith
  parse_array_done (number n) name fs e = ground arith
  parse_array_done (string s) name fs e = ground arith
  parse_array_done (object _) name fs e = ground arith

  parse_entries_done : (js : Jsons) (fs : Filters) → parse_entries js ≡ done fs → AreForms js fs
  parse_entries_done no_values no_filters e = (refl, tt)
  parse_entries_done no_values (filter f fs) e = ground arith
  parse_entries_done (value j js) fs e =
      let (f, rest, p, q, r) = add_filter_done (parse_filter j) (parse_entries js) fs e in
      let (x, w) = parse_filter_done j f p in
      let (y, ws) = parse_entries_done js rest q in rw (x, y, r) (refl, (w, ws))

-- ParseFilter gives a filter exactly for the JSON form of that filter, and it gives only filters whose
-- AND and OR have at least two entries at every depth.
pub parse_filter_iff : (j : Json) (f : Filter) → (parse_filter j ≡ done f) ↔ IsForm j f
parse_filter_iff j f = (parse_filter_done j f, λ (p, w). ap parse_filter p ∙ parse_filter-print f w)

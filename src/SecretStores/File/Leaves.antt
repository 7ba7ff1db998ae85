-- ===== src/SecretStores/File/Leaves.antt =====
-- secretstores/local/file/filestore.go: the visit of a file against the list of its primitive values.
use dapr_components_contrib.Prelude.{
  ℕ, suc, Text, Option, none, some, List, [], ◌∷◌, ◌++◌, length, length-append, take, ◌≡◌, refl, ap,
  sym, ◌∙◌, subst, arith, Option-cases, inl, inr,
}
use dapr_components_contrib.Dict.{Dict, lookup, insert}
use dapr_components_contrib.Strconv.{format_uint}
use dapr_components_contrib.State.Query.{
  Json, null, boolean, number, string, array, object, Jsons, no_values, value, Fields, no_fields,
  field,
}
use dapr_components_contrib.SecretStores.File.{
  Visiting, VisitError, duplicate_key, primitive_text, combine, enter_context, pop, exit_context,
  visit_primitive, visit_next, visit_property, visit_json_object, visit_array,
}

-- Entries are put into a map one by one, up to the first whose key is there.
unfoldable pub add_all : Dict Text → Dict Text → Dict Text × Option VisitError
add_all [] m = (m, none)
add_all ((k, t) ∷ rest) m = elim (lookup k m) [
  | some old ↦ (m, some duplicate_key)
  | none ↦ add_all rest (insert k t m)
]

abbrev and_then :
    Dict Text × Option VisitError
    → (Dict Text → Dict Text × Option VisitError)
    → Dict Text × Option VisitError
and_then (m, none) f = f m
and_then (m, some e) f = (m, some e)

add_all-append : (a b m : Dict Text) → add_all (a ++ b) m ≡ and_then (add_all a m) (add_all b)
unfolding add_all
add_all-append [] b m = refl
add_all-append ((k, t) ∷ a) b m = elim (Option-cases (lookup k m)) [
  | inl e ↦ rw (e, add_all) (add_all-append a b (insert k t m))
  | inr (old, e) ↦ rw (e, add_all) refl
]

take-snoc {ℓ} : {A : Type ℓ} (xs : List A) (x : A) → take (length xs) (xs ++ x ∷ []) ≡ xs
take-snoc [] x = refl
take-snoc (y ∷ xs) x = ap (◌∷◌ y) (take-snoc xs x)

pop_lem : (xs : List Text) (x : Text) → pop (xs ++ x ∷ []) ≡ xs
unfolding pop
pop_lem xs x =
    ap (λ n. take n (xs ++ x ∷ [])) (omega (arith, length-append xs (x ∷ []))) ∙ take-snoc xs x

module _ (sep : Text) (show_float : Text → Text) where
  unfoldable mutual
    -- the primitive values below a path, with their own paths joined
    pub leaves : List Text → Json → Dict Text
    leaves path null = (combine sep path, primitive_text show_float null) ∷ []
    leaves path (boolean b) = (combine sep path, primitive_text show_float (boolean b)) ∷ []
    leaves path (number n) = (combine sep path, primitive_text show_float (number n)) ∷ []
    leaves path (string t) = (combine sep path, t) ∷ []
    leaves path (array js) = leaves_from 0 path js
    leaves path (object fs) = leaves_of path fs

    pub leaves_of : List Text → Fields → Dict Text
    leaves_of path no_fields = []
    leaves_of path (field k v rest) = leaves (path ++ k ∷ []) v ++ leaves_of path rest

    pub leaves_from : ℕ → List Text → Jsons → Dict Text
    leaves_from i path no_values = []
    leaves_from i path (value v rest) =
        leaves (path ++ format_uint i ∷ []) v ++ leaves_from (suc i) path rest

  -- A visit adds the entries one by one, and leaves the context as it was if no key is there twice.
  abbrev pub Visits : Visiting → Visiting × Option VisitError → Dict Text → Type 0
  Visits s r found =
      ((r.0.secrets, r.1) ≡ add_all found s.secrets)
      × (r.1 ≡ none → r.0.curren_context ≡ s.curren_context)

  visit_primitive-add_all :
      (t : Text) (s : Visiting) → Visits s (visit_primitive t s) ((s.current_path, t) ∷ [])
  unfolding visit_primitive add_all
  visit_primitive-add_all t s = elim (Option-cases (lookup s.current_path s.secrets)) [
    | inl h ↦ rw (h, visit_primitive, add_all) (refl, λ _. refl)
    | inr (old, h) ↦ rw (h, visit_primitive, add_all) (refl, λ p. ground (arith, p))
  ]

  visit_primitive_lem :
      (t : Text) (s : Visiting)
      → s.current_path ≡ combine sep s.curren_context
      → Visits s (visit_primitive t s) ((combine sep s.curren_context, t) ∷ [])
  visit_primitive_lem t s e =
      subst (λ k. Visits s (visit_primitive t s) ((k, t) ∷ [])) e (visit_primitive-add_all t s)

  exit_context_lem :
      (s : Visiting) (k : Text) (path : List Text)
      → s.curren_context ≡ path ++ k ∷ []
      → (exit_context sep s).curren_context ≡ path
  unfolding exit_context
  exit_context_lem s k path e = ap pop e ∙ pop_lem path k

  visit_next_lem :
      (k : Text) (s : Visiting) (r : Visiting × Option VisitError)
      → (rest : Visiting → Visiting × Option VisitError) (a b : Dict Text)
      → Visits (enter_context sep k s) r a
      → ((s' : Visiting) → s'.curren_context ≡ s.curren_context → Visits s' (rest s') b)
      → Visits s (visit_next sep r rest) (a ++ b)
  unfolding visit_next enter_context
  visit_next_lem k s (s', some e) rest a b h step = (
    sym (add_all-append a b s.secrets ∙ ap (λ z. and_then z (add_all b)) (sym h.0)),
    λ p. ground (arith, p),
  )
  visit_next_lem k s (s', none) rest a b h step =
      let back = exit_context_lem s' k s.curren_context (h.1 refl) in
      let after = step (exit_context sep s') back in
      (
        after.0 ∙ sym (add_all-append a b s.secrets ∙ ap (λ z. and_then z (add_all b)) (sym h.0)),
        λ p. after.1 p ∙ back,
      )

  mutual
    unfolding visit_property leaves enter_context add_all

    visit_property_lem :
        (j : Json) (s : Visiting)
        → s.current_path ≡ combine sep s.curren_context
        → Visits s (visit_property sep show_float j s) (leaves s.curren_context j)
    visit_property_lem null s e = visit_primitive_lem _ s e
    visit_property_lem (boolean b) s e = visit_primitive_lem _ s e
    visit_property_lem (number n) s e = visit_primitive_lem _ s e
    visit_property_lem (string t) s e = visit_primitive_lem t s e
    visit_property_lem (array js) s e = visit_array_lem 0 js s.curren_context s refl
    visit_property_lem (object fs) s e = visit_object_lem fs s.curren_context s refl

    pub visit_object_lem :
        (fs : Fields) (path : List Text) (s : Visiting)
        → s.curren_context ≡ path
        → Visits s (visit_json_object sep show_float fs s) (leaves_of path fs)
    visit_object_lem no_fields path s e = (refl, λ _. refl)
    visit_object_lem (field k v rest) path s e =
        visit_next_lem k s _ (visit_json_object sep show_float rest) (leaves (path ++ k ∷ []) v)
          (leaves_of path rest)
          (subst
            (λ p.
              Visits (enter_context sep k s)
                (visit_property sep show_float v (enter_context sep k s)) (leaves (p ++ k ∷ []) v))
            e (visit_property_lem v (enter_context sep k s) refl))
          (λ s' e'. visit_object_lem rest path s' (e' ∙ e))

    visit_array_lem :
        (i : ℕ) (js : Jsons) (path : List Text) (s : Visiting)
        → s.curren_context ≡ path
        → Visits s (visit_array sep show_float i js s) (leaves_from i path js)
    visit_array_lem i no_values path s e = (refl, λ _. refl)
    visit_array_lem i (value v rest) path s e =
        visit_next_lem (format_uint i) s _ (visit_array sep show_float (suc i) rest)
          (leaves (path ++ format_uint i ∷ []) v) (leaves_from (suc i) path rest)
          (subst
            (λ p.
              Visits (enter_context sep (format_uint i) s)
                (visit_property sep show_float v (enter_context sep (format_uint i) s))
                (leaves (p ++ format_uint i ∷ []) v))
            e (visit_property_lem v (enter_context sep (format_uint i) s) refl))
          (λ s' e'. visit_array_lem (suc i) rest path s' (e' ∙ e))

-- ===== src/EventBus/Publishing.antt =====
-- What Publish (common/eventbus/event_bus.go) does with a message: who gets it, in which order, and
-- with which arguments.
use mathlib.Core.List.{Memᴰ}
use mathlib.Core.List.Memᴰ.{append_left, append_right, append_cases}
use dapr_components_contrib.Prelude.{
  ℕ, zero, Text, Option, none, some, List, [], ◌∷◌, map, ◌≡◌, refl, ap, subst, ◌↔◌, ◌⊎◌, inl, inr,
  true, Bool-cases, Option-cases, arith, length, suc, drop, get_elem?, ◌<◌, ◌≤◌, All,
}
use dapr_components_contrib.Dict.{Dict}
use dapr_components_contrib.EventBus.{
  Handler, EventBus, matches, collect, get_callbacks, Passed, Action, call, spawn, panic, value_of,
  zero_of, set_up_publish, add_passed, do_publish, publish_to, publish,
}
use dapr_components_contrib.EventBus.Wildcards.{IsUnder, matches_iff}

-- A handler of a subscription whose topic hears the message's topic
abbrev pub Hears : Text → Dict (List Handler) → Handler → Type 0
Hears topic m h =
    (k : Text) × (hs : List Handler) × Memᴰ (k, hs) m × ((k ≡ topic) ⊎ IsUnder k topic) × Memᴰ h hs

Hears-tail :
    (topic : Text) (m : Dict (List Handler)) (e : Text × List Handler) (h : Handler)
    → Hears topic m h
    → Hears topic (e ∷ m) h
Hears-tail topic m e h (k, hs, d, x, y) = (k, hs, Memᴰ.tail d, x, y)

collect→Hears :
    (topic : Text) (m : Dict (List Handler)) (h : Handler)
    → Memᴰ h (collect topic m)
    → Hears topic m h
unfolding collect
collect→Hears topic [] h d = elim d [ ]
collect→Hears topic ((k, hs) ∷ m) h d = elim (Bool-cases (matches k topic)) [
  | inl e ↦ elim (append_cases hs (rw e at d)) [
    | inl x ↦ (k, hs, Memᴰ.head refl, (matches_iff k topic).0 e, x)
    | inr x ↦ Hears-tail topic m (k, hs) h (collect→Hears topic m h x)
  ]
  | inr e ↦ Hears-tail topic m (k, hs) h (collect→Hears topic m h (rw e at d))
]

Hears→collect :
    (topic : Text) (m : Dict (List Handler)) (h : Handler)
    → Hears topic m h
    → Memᴰ h (collect topic m)
unfolding collect
Hears→collect topic [] h (k, hs, d, x, y) = elim d [ ]
Hears→collect topic ((j, gs) ∷ m) h (k, hs, Memᴰ.head e, x, y) =
    rw (subst (λ t. matches t topic ≡ true) (ap (λ p. p.0) e) ((matches_iff k topic).1 x))
      (append_left (collect topic m) (subst (λ l. Memᴰ h l) (ap (λ p. p.1) e) y))
Hears→collect topic ((j, gs) ∷ m) h (k, hs, Memᴰ.tail d, x, y) =
    let rest = Hears→collect topic m h (k, hs, d, x, y) in
    elim (Bool-cases (matches j topic)) [ inl e ↦ rw e (append_right gs rest) | inr e ↦ rw e rest ]

-- With wildcards, Publish goes to the handlers of the subscriptions whose topic is the message's or
-- is a stem of it with a star behind, and to no others.
pub get_callbacks_iff :
    (topic : Text) (bus : EventBus)
    → bus.enable_wildcards ≡ true
    → (h : Handler) → Memᴰ h (get_callbacks topic bus) ↔ Hears topic bus.handlers h
unfolding get_callbacks
get_callbacks_iff topic bus w h =
    rw w (collect→Hears topic bus.handlers h, Hears→collect topic bus.handlers h)

get_elem?-drop :
    (params : List Text) (i : ℕ) → get_elem? (drop 1 params) i ≡ get_elem? params (suc i)
get_elem?-drop [] zero = refl
get_elem?-drop [] (suc i) = refl
get_elem?-drop (t ∷ params) i = refl

module _ {ℓ} {A : Type ℓ} where
  add_passed-none : (p : Passed A) (r : Option (List (Passed A))) → add_passed p r ≡ none → r ≡ none
  unfolding add_passed
  add_passed-none p none e = refl
  add_passed-none p (some ps) e = ground arith

  add_passed-some :
      (p : Passed A) (r : Option (List (Passed A))) (ps : List (Passed A))
      → add_passed p r ≡ some ps
      → (qs : List (Passed A)) × (r ≡ some qs) × (ps ≡ p ∷ qs)
  unfolding add_passed
  add_passed-some p none ps e = ground arith
  add_passed-some p (some qs) ps e = (qs, refl, ground arith)

  set_up_publish_none→ :
      (params : List Text) (args : List (Option A))
      → set_up_publish params args ≡ none
      → (i : ℕ) × (length params ≤ i) × (get_elem? args i ≡ some none)
  unfolding set_up_publish
  set_up_publish_none→ params [] e = ground arith
  set_up_publish_none→ [] (none ∷ args) e = (0, ground arith, refl)
  set_up_publish_none→ [] (some v ∷ args) e =
      let (i, l, x) = set_up_publish_none→ [] args (add_passed-none _ _ e) in
      (suc i, omega arith, x)
  set_up_publish_none→ (t ∷ params) (none ∷ args) e =
      let (i, l, x) = set_up_publish_none→ params args (add_passed-none _ _ e) in
      (suc i, omega (arith, l), x)
  set_up_publish_none→ (t ∷ params) (some v ∷ args) e =
      let (i, l, x) = set_up_publish_none→ params args (add_passed-none _ _ e) in
      (suc i, omega (arith, l), x)

  →set_up_publish_none :
      (params : List Text) (args : List (Option A)) (i : ℕ)
      → length params ≤ i
      → get_elem? args i ≡ some none
      → set_up_publish params args ≡ none
  unfolding set_up_publish
  →set_up_publish_none params [] i l e = ground arith
  →set_up_publish_none [] (none ∷ args) i l e = refl
  →set_up_publish_none [] (some v ∷ args) zero l e = ground arith
  →set_up_publish_none [] (some v ∷ args) (suc i) l e =
      rw (→set_up_publish_none [] args i (ground arith) e) refl
  →set_up_publish_none (t ∷ params) (none ∷ args) zero l e = ground arith
  →set_up_publish_none (t ∷ params) (none ∷ args) (suc i) l e =
      rw (→set_up_publish_none params args i (ground arith) e) refl
  →set_up_publish_none (t ∷ params) (some v ∷ args) zero l e = ground arith
  →set_up_publish_none (t ∷ params) (some v ∷ args) (suc i) l e =
      rw (→set_up_publish_none params args i (ground arith) e) refl

  -- set_up_publish panics exactly on a nil for which the function has no parameter.
  pub set_up_publish-none_iff :
      (params : List Text) (args : List (Option A))
      → (set_up_publish params args ≡ none)
        ↔ ((i : ℕ) × (length params ≤ i) × (get_elem? args i ≡ some none))
  unfolding set_up_publish
  set_up_publish-none_iff params args =
      (set_up_publish_none→ params args, λ (i, l, e). →set_up_publish_none params args i l e)

  -- What is passed for an argument, with the type of the parameter at its position
  abbrev pub Fits : Option Text → Option A → Passed A → Type ℓ
  Fits t (some v) x = x ≡ value_of v
  Fits t none x = (type_ : Text) × (t ≡ some type_) × (x ≡ zero_of type_)

  set_up_publish_cons :
      (params : List Text) (a : Option A) (args : List (Option A)) (passed : List (Passed A))
      → set_up_publish params (a ∷ args) ≡ some passed
      → (x : Passed A) × (rest : List (Passed A)) × (set_up_publish (drop 1 params) args
          ≡ some rest)
        × (passed ≡ x ∷ rest)
        × Fits (get_elem? params 0) a x
  unfolding set_up_publish
  set_up_publish_cons [] none args passed e = ground arith
  set_up_publish_cons [] (some v) args passed e =
      let (rest, r, x) = add_passed-some _ _ passed e in (value_of v, rest, r, x, refl)
  set_up_publish_cons (t ∷ params) none args passed e =
      let (rest, r, x) = add_passed-some _ _ passed e in (zero_of t, rest, r, x, (t, refl, refl))
  set_up_publish_cons (t ∷ params) (some v) args passed e =
      let (rest, r, x) = add_passed-some _ _ passed e in (value_of v, rest, r, x, refl)

  Fits-cons :
      (params : List Text) (a b : Option A) (args : List (Option A)) (y x : Passed A)
      (rest : List (Passed A)) (i : ℕ)
      → Fits (get_elem? params 0) b y
      → ((j : ℕ)
          → get_elem? args j ≡ some a
          → get_elem? rest j ≡ some x
          → Fits (get_elem? (drop 1 params) j) a x)
      → get_elem? (b ∷ args) i ≡ some a
      → get_elem? (y ∷ rest) i ≡ some x
      → Fits (get_elem? params i) a x
  Fits-cons params a b args y x rest zero fits ih h k =
      let p : b ≡ a = cc in
      let q : y ≡ x = cc in
      subst (λ c. Fits (get_elem? params 0) c x) p
        (subst (λ z. Fits (get_elem? params 0) b z) q fits)
  Fits-cons params a b args y x rest (suc i) fits ih h k =
      subst (λ t. Fits t a x) (get_elem?-drop params i) (ih i h k)

  set_up_publish_nil :
      (params : List Text) (passed : List (Passed A))
      → set_up_publish {A = A} params [] ≡ some passed
      → passed ≡ []
  unfolding set_up_publish
  set_up_publish_nil params passed e = ground arith

  -- There is one value for each argument, in their order: the argument itself, or for a nil the zero
  -- value of the type of the parameter at its position.
  pub set_up_publish_lem :
      (params : List Text) (args : List (Option A)) (passed : List (Passed A))
      → set_up_publish params args ≡ some passed
      → (length passed ≡ length args)
        × ((i : ℕ) (a : Option A) (x : Passed A)
            → get_elem? args i ≡ some a
            → get_elem? passed i ≡ some x
            → Fits (get_elem? params i) a x)
  set_up_publish_lem params [] passed e =
      (rw (set_up_publish_nil params passed e) refl, λ i a x h k. ground arith)
  set_up_publish_lem params (b ∷ args) passed e =
      let (y, rest, r, x, fits) = set_up_publish_cons params b args passed e in
      let ih = set_up_publish_lem (drop 1 params) args rest r in
      (
        rw x (ap suc ih.0),
        λ i a z h k. Fits-cons params a b args y z rest i fits (λ j. ih.1 j a z) h (rw x at k),
      )

  -- the handler that an action is for
  abbrev pub handler_of : Action A → Handler
  handler_of (call h passed) = h
  handler_of (spawn h args) = h
  handler_of (panic h) = h

  get_elem?_bound :
      (args : List (Option A)) (i : ℕ) (a : Option A) → get_elem? args i ≡ some a → i < length args
  get_elem?_bound [] i a e = ground arith
  get_elem?_bound (b ∷ args) zero a e = omega arith
  get_elem?_bound (b ∷ args) (suc i) a e = omega (arith, get_elem?_bound args i a e)

  set_up_publish-some :
      (params : List Text) (args : List (Option A))
      → length args ≤ length params
      → (passed : List (Passed A)) × (set_up_publish params args ≡ some passed)
  set_up_publish-some params args l = elim (Option-cases (set_up_publish params args)) [
    | inl e ↦
        let (i, m, x) = set_up_publish_none→ params args e in
        absurd (omega (arith, get_elem?_bound args i none x))
    | inr p ↦ p
  ]

  handlers-publish_to :
      (args : List (Option A)) (hs : List Handler)
      → All (λ h. length args ≤ length h.call_back.params) hs
      → map handler_of (publish_to hs args) ≡ hs
  unfolding publish_to
  handlers-publish_to args [] n = refl
  handlers-publish_to args (h ∷ hs) n = elim (Bool-cases h.async) [
    | inl e ↦ rw (e, handlers-publish_to args hs n.1) refl
    | inr e ↦
        let (passed, x) = set_up_publish-some h.call_back.params args n.0 in
        simp (e, do_publish, x, handlers-publish_to args hs n.1)
  ]

  -- When each function has a parameter for each argument, Publish deals with every handler of the topic
  -- once and in order, and does not panic.
  pub publish_lem :
      (topic : Text) (args : List (Option A)) (bus : EventBus)
      → All (λ h. length args ≤ length h.call_back.params) (get_callbacks topic bus)
      → map handler_of (publish topic args bus) ≡ get_callbacks topic bus
  unfolding publish
  publish_lem topic args bus n = handlers-publish_to args (get_callbacks topic bus) n

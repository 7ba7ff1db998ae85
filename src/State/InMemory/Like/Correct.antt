-- ===== src/State/InMemory/Like/Correct.antt =====
-- The expressions of `likeToRegex` (state/in-memory/in_memory.go) against SQL's `LIKE`.
use dapr_components_contrib.Prelude.{
  and_true, ne→eq_false, ℕ, Text, List, [], ◌∷◌, Bool, true, false, ◌||◌, ◌==◌, ◌≡◌, ◌≢◌, ◌↔◌, ◌⊎◌,
  inl, inr, refl, arith, All, ==_iff, ap, sym,
}
use native.Mathlib.Decide.{ℕ_discrete}
use dapr_components_contrib.State.InMemory.Like.{
  Piece, any_run, any_char, literal, backslash, percent, underscore, newline, like_pieces,
  like_to_regex, match_string,
}

-- SQL's `LIKE` with the escape character `\`: `%` stands for any run of characters, `_` for one, an
-- escaped character for itself, and so does every other. A backslash at the end is itself.
pub data Like : Text → Text → Type 0 where
  done : Like [] []
  run_end : {r : ℕ} {p t : Text} → r ≡ percent → Like p t → Like (r ∷ p) t
  run_more : {r c : ℕ} {p t : Text} → r ≡ percent → Like (r ∷ p) t → Like (r ∷ p) (c ∷ t)
  one : {r c : ℕ} {p t : Text} → r ≡ underscore → Like p t → Like (r ∷ p) (c ∷ t)
  escape : {r c : ℕ} {p t : Text} → r ≡ backslash → Like p t → Like (r ∷ c ∷ p) (c ∷ t)
  trailing : {r c : ℕ} → r ≡ backslash → c ≡ backslash → Like (r ∷ []) (c ∷ [])
  same :
      {r : ℕ} {p t : Text}
      → r ≢ percent
      → r ≢ underscore
      → r ≢ backslash
      → Like p t
      → Like (r ∷ p) (r ∷ t)

-- What is left of a pattern after the loop has read a backslash, or has not.
abbrev Rest : Bool → Text → Text → Type 0
Rest false p t = Like p t
Rest true p t = Like (backslash ∷ p) t

or_true : (a b : Bool) → (a || b) ≡ true → (a ≡ true) ⊎ (b ≡ true)
or_true a b h = ground arith

abbrev IsPlain : ℕ → Type 0
IsPlain r = (r ≢ percent) × (r ≢ underscore) × (r ≢ backslash)

pieces_percent :
    (r : ℕ) (p : Text) → r ≡ percent → like_pieces false (r ∷ p) ≡ any_run ∷ like_pieces false p
unfolding like_pieces
pieces_percent r p e = rw e refl

pieces_underscore :
    (r : ℕ) (p : Text) → r ≡ underscore → like_pieces false (r ∷ p) ≡ any_char ∷ like_pieces false p
unfolding like_pieces
pieces_underscore r p e = rw e refl

pieces_backslash :
    (r : ℕ) (p : Text) → r ≡ backslash → like_pieces false (r ∷ p) ≡ like_pieces true p
unfolding like_pieces
pieces_backslash r p e = rw e refl

pieces_plain :
    (r : ℕ) (p : Text) → IsPlain r → like_pieces false (r ∷ p) ≡ literal r ∷ like_pieces false p
unfolding like_pieces
pieces_plain r p (np, nu, nb) =
    rw (
      ne→eq_false r backslash nb,
      like_pieces,
      ne→eq_false r percent np,
      ne→eq_false r underscore nu,
    )

-- The four branches of the loop on a character that is not escaped.
branches :
    (r : ℕ) (p : Text)
    → ((r ≡ backslash) × (like_pieces false (r ∷ p) ≡ like_pieces true p))
      ⊎ (((r ≡ percent) × (like_pieces false (r ∷ p) ≡ any_run ∷ like_pieces false p))
          ⊎ (((r ≡ underscore) × (like_pieces false (r ∷ p) ≡ any_char ∷ like_pieces false p))
              ⊎ (IsPlain r × (like_pieces false (r ∷ p) ≡ literal r ∷ like_pieces false p))))
branches r p = elim (ℕ_discrete r backslash) [
  | yes e ↦ inl (e, pieces_backslash r p e)
  | no nb ↦ elim (ℕ_discrete r percent) [
    | yes e ↦ inr (inl (e, pieces_percent r p e))
    | no np ↦ elim (ℕ_discrete r underscore) [
      | yes e ↦ inr (inr (inl (e, pieces_underscore r p e)))
      | no nu ↦ inr (inr (inr ((np, nu, nb), pieces_plain r p (np, nu, nb))))
    ]
  ]
]

module _ (r : ℕ) (p : Text) (e : r ≡ percent) where
  run_sound :
      ((t : Text) → match_string (like_pieces false p) t ≡ true → Like p t)
      → (t : Text) → match_string (any_run ∷ like_pieces false p) t ≡ true
      → Like (r ∷ p) t
  unfolding match_string
  run_sound k [] h = run_end e (k [] h)
  run_sound k (d ∷ t) h = elim (or_true _ _ h) [
    | inl here ↦ run_end e (k (d ∷ t) here)
    | inr on ↦ run_more e (run_sound k t (and_true _ _ on).1)
  ]

any_char_sound :
    (ps : List Piece) (t : Text)
    → match_string (any_char ∷ ps) t ≡ true
    → (c : ℕ) × (u : Text) × (t ≡ c ∷ u) × (match_string ps u ≡ true)
unfolding match_string
any_char_sound ps [] h = cc
any_char_sound ps (c ∷ u) h = (c, u, refl, (and_true _ _ h).1)

literal_sound :
    (r : ℕ) (ps : List Piece) (t : Text)
    → match_string (literal r ∷ ps) t ≡ true
    → (u : Text) × (t ≡ r ∷ u) × (match_string ps u ≡ true)
unfolding match_string
literal_sound r ps [] h = cc
literal_sound r ps (c ∷ u) h =
    let (e, rest) = and_true _ _ h in (u, ap (λ x. x ∷ u) (sym ((==_iff r c).0 e)), rest)

plain_sound :
    (r : ℕ) (p t : Text)
    → ((u : Text) → match_string (like_pieces false p) u ≡ true → Like p u)
    → ((u : Text) → match_string (like_pieces true p) u ≡ true → Like (backslash ∷ p) u)
    → match_string (like_pieces false (r ∷ p)) t ≡ true
    → Like (r ∷ p) t
plain_sound r p t k k' h = elim (branches r p) [
  | inl (e, q) ↦ rw e (k' t (rw q at h))
  | inr (inl (e, q)) ↦ run_sound r p e k t (rw q at h)
  | inr (inr (inl (e, q))) ↦
      let (c, u, x, m) = any_char_sound (like_pieces false p) t (rw q at h) in rw x (one e (k u m))
  | inr (inr (inr ((np, nu, nb), q))) ↦
      let (u, x, m) = literal_sound r (like_pieces false p) t (rw q at h) in
      rw x (same np nu nb (k u m))
]

-- The expression finds no text but those that `LIKE` allows.
match_sound :
    (escaped : Bool) (p t : Text) → match_string (like_pieces escaped p) t ≡ true → Rest escaped p t
match_sound false [] [] h = done
match_sound false [] (d ∷ t) h = unfold like_pieces match_string in cc
match_sound true [] [] h = unfold like_pieces match_string in cc
match_sound true [] (d ∷ []) h =
    trailing {c = d} refl (unfold like_pieces match_string in ground arith)
match_sound true [] (d ∷ e ∷ t) h = absurd (unfold like_pieces match_string in ground arith)
match_sound true (r ∷ p) [] h = unfold like_pieces match_string in cc
match_sound true (r ∷ p) (d ∷ t) h =
    let (same_char, rest) =
      and_true (r == d) (match_string (like_pieces false p) t)
        (unfold like_pieces match_string in h) in
    rw ((==_iff r d).0 same_char) (escape refl (match_sound false p t rest))
match_sound false (r ∷ p) t h =
    let sound = match_sound false p in
    let sound' = match_sound true p in plain_sound r p t sound sound' h

run_here :
    (ps : List Piece) (t : Text) → match_string ps t ≡ true → match_string (any_run ∷ ps) t ≡ true
unfolding match_string
run_here ps [] h = h
run_here ps (d ∷ t) h = rw (h, match_string)

run_on :
    (ps : List Piece) (c : ℕ) (t : Text)
    → c ≢ newline
    → match_string (any_run ∷ ps) t ≡ true
    → match_string (any_run ∷ ps) (c ∷ t) ≡ true
unfolding match_string
run_on ps c t n h = rw (ne→eq_false c newline n, h) (ground arith)

abbrev pub NoNewline : Text → Type 0
NoNewline = All (λ c. c ≢ newline)

match_literal :
    (r : ℕ) (ps : List Piece) (t : Text)
    → match_string ps t ≡ true
    → match_string (literal r ∷ ps) (r ∷ t) ≡ true
unfolding match_string
match_literal r ps t h = rw ((==_iff r r).1 refl) h

match_any_char :
    (c : ℕ) (ps : List Piece) (t : Text)
    → c ≢ newline
    → match_string ps t ≡ true
    → match_string (any_char ∷ ps) (c ∷ t) ≡ true
unfolding match_string
match_any_char c ps t n h = rw (ne→eq_false c newline n) h

escaped_pieces :
    (c : ℕ) (p t : Text)
    → match_string (like_pieces false p) t ≡ true
    → match_string (like_pieces true (c ∷ p)) (c ∷ t) ≡ true
unfolding like_pieces
escaped_pieces c p t h = match_literal c (like_pieces false p) t h

match_complete : {p t : Text} → Like p t → NoNewline t → match_string (like_pieces false p) t ≡ true
match_complete done n = unfold like_pieces match_string in refl
match_complete (run_end {r} {p} {t} e l) n =
    rw (pieces_percent r p e) (run_here (like_pieces false p) t (match_complete l n))
match_complete (run_more {r} {c} {p} {t} e l) n =
    rw (pieces_percent r p e)
      (run_on (like_pieces false p) c t n.0 (rw (pieces_percent r p e) at (match_complete l n.1)))
match_complete (one {r} {c} {p} {t} e l) n =
    rw (pieces_underscore r p e)
      (match_any_char c (like_pieces false p) t n.0 (match_complete l n.1))
match_complete (escape {r} {c} {p} {t} e l) n =
    rw (pieces_backslash r (c ∷ p) e) (escaped_pieces c p t (match_complete l n.1))
match_complete (trailing {r} {c} e e') n =
    rw (pieces_backslash r [] e, e') (unfold like_pieces match_string in refl)
match_complete (same {r} {p} {t} np nu nb l) n =
    rw (pieces_plain r p (np, nu, nb))
      (match_literal r (like_pieces false p) t (match_complete l n.1))

-- On a text with no newline the expression of `likeToRegex` matches exactly what `LIKE` does.
pub like_to_regex_iff :
    (p t : Text) → NoNewline t → (match_string (like_to_regex p) t ≡ true) ↔ Like p t
unfolding like_to_regex
like_to_regex_iff p t n = (match_sound false p t, λ l. match_complete l n)

Like-percent : (t : Text) → Like (percent ∷ []) t
Like-percent [] = run_end refl done
Like-percent (c ∷ t) = run_more refl (Like-percent t)

run_stops : (t : Text) → ¬ NoNewline t → match_string (any_run ∷ []) t ≡ false
unfolding match_string
run_stops [] h = absurd (h tt)
run_stops (c ∷ t) h = elim (ℕ_discrete c newline) [
  | yes e ↦ rw e refl
  | no n ↦ rw (run_stops t (λ k. h (n, k))) (ground arith)
]

-- `%` matches every text by `LIKE`, and no text that has a newline by the expression.
pub percent_newline :
    (t : Text)
    → ¬ NoNewline t
    → Like (percent ∷ []) t × (match_string (like_to_regex (percent ∷ [])) t ≡ false)
unfolding like_to_regex like_pieces
percent_newline t h = (Like-percent t, run_stops t h)

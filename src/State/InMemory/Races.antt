-- ===== src/State/InMemory/Races.antt =====
-- Conditional writes that compete for one key of the store in state/in-memory/in_memory.go.
-- Each holds the write lock, so that concurrent writes are a sequence of them.
use dapr_components_contrib.Prelude.{
  ℕ, suc, ◌≤◌, Text, text_eq_refl, Option, none, some, List, [], ◌∷◌, ◌≡◌, ◌≢◌, inl, inr, refl,
  arith, true, false, All, ◌⊎◌, sym, ◌∙◌, subst,
}
use mathlib.Core.Option.{some-injective, none-ne-some}
use dapr_components_contrib.Dict.{lookup}
use dapr_components_contrib.Dict.Laws.{lookup-insert}
use dapr_components_contrib.State.Errors.{Result, ok, err, StateError}
use dapr_components_contrib.State.Options.{first_write}
use dapr_components_contrib.State.Requests.{has_etag, SetRequest}
use dapr_components_contrib.State.InMemory.{Item, Store, is_expired, new_item, do_set, set}
use dapr_components_contrib.State.InMemory.View.{view}
use dapr_components_contrib.State.InMemory.Etag.{current_etag, MayWrite}
use dapr_components_contrib.State.InMemory.Writes.{set-Stored, set_error}

-- A `Set` with the etag that uuid makes for it and the time at which it runs.
pub record Attempt : Type 0 where
  pub new_etag : Text
  pub now : ℕ
  pub req : SetRequest

-- How many of the attempts succeed, made one after the other.
pub successes : List Attempt → Store → ℕ
successes [] store = 0
successes (a ∷ rest) store =
    let (after, result) = set a.new_etag a.now a.req store in
    let later = successes rest after in elim result [ ok _ ↦ suc later | err _ ↦ later ]

current_etag-do_set :
    (etag : Text) (now : ℕ) (key bt : Text) (ttl : ℕ) (s : Store)
    → current_etag key (do_set etag now key bt ttl s) ≡ some etag
unfolding do_set new_item
current_etag-do_set etag now key bt ttl s = rw (lookup-insert, text_eq_refl key)

MayWrite-etag :
    (key e c : Text) (s : Store)
    → has_etag (some e) ≡ true
    → MayWrite key (some e) c s
    → current_etag key s ≡ some e
MayWrite-etag key e c s h m = rw h at m

-- The attempts carry one etag for one key, and uuid makes none of the new etags equal to it.
abbrev pub Competes : Text → Text → Attempt → Type 0
Competes key e a = (a.req.key ≡ key) × (a.req.etag ≡ some e) × (a.new_etag ≢ e)

abbrev outcome_cases : (r : Result (Unit {0})) → (r ≡ ok tt) ⊎ ((e : StateError) × (r ≡ err e))
outcome_cases (ok u) = inl refl
outcome_cases (err e) = inr (e, refl)

Stored-etag :
    (key e : Text) (a : Attempt) (s : Store)
    → has_etag (some e) ≡ true
    → Competes key e a
    → (set a.new_etag a.now a.req s).1 ≡ ok tt
    → current_etag key s ≡ some e
Stored-etag key e a s h (k, t, n) win =
    let w = set-Stored a.new_etag a.now a.req s win in
    MayWrite-etag key e a.req.options.concurrency s h (
      subst (λ x. MayWrite key x a.req.options.concurrency s) t
        (subst (λ x. MayWrite x a.req.etag a.req.options.concurrency s) k w.allowed))

etag_after_set :
    (etag : Text) (now : ℕ) (req : SetRequest) (s : Store)
    → (set etag now req s).1 ≡ ok tt
    → current_etag req.key (set etag now req s).0 ≡ some etag
etag_after_set etag now req s win =
    let w = set-Stored etag now req s win in
    rw w.result (current_etag-do_set etag now req.key w.bt w.ttl s)

etag_after_win :
    (key e : Text) (a : Attempt) (s : Store)
    → Competes key e a
    → (set a.new_etag a.now a.req s).1 ≡ ok tt
    → current_etag key (set a.new_etag a.now a.req s).0 ≢ some e
etag_after_win key e a s (k, t, n) win same = n (
    some-injective _ _ (
      sym (
        subst (λ x. current_etag x (set a.new_etag a.now a.req s).0 ≡ some a.new_etag) k
          (etag_after_set a.new_etag a.now a.req s win))
      ∙ same))

module _ (key e : Text) (h : has_etag (some e) ≡ true) where
  -- Once the key has another etag, every attempt fails and changes nothing.
  losers_fail :
      (attempts : List Attempt) (s : Store)
      → All (Competes key e) attempts
      → current_etag key s ≢ some e
      → successes attempts s ≡ 0
  unfolding successes
  losers_fail [] s c other = refl
  losers_fail (a ∷ rest) s c other = elim (outcome_cases (set a.new_etag a.now a.req s).1) [
    | inl win ↦ absurd (other (Stored-etag key e a s h c.0 win))
    | inr (x, lost) ↦
        rw (lost, successes, set_error a.new_etag a.now a.req s x lost)
          (losers_fail rest s c.1 other)
  ]

  -- Of any number of writes that carry the same etag for a key, at most one succeeds, in whatever
  -- order they get the lock.
  pub at_most_one_wins :
      (attempts : List Attempt) (s : Store)
      → All (Competes key e) attempts
      → successes attempts s ≤ 1
  unfolding successes
  at_most_one_wins [] s c = omega arith
  at_most_one_wins (a ∷ rest) s c = elim (outcome_cases (set a.new_etag a.now a.req s).1) [
    | inl win ↦
        rw
          (
            win,
            successes,
            losers_fail rest (set a.new_etag a.now a.req s).0 c.1
                (etag_after_win key e a s c.0 win),
          )
          (omega arith)
    | inr (x, lost) ↦
        rw (lost, successes, set_error a.new_etag a.now a.req s x lost)
          (at_most_one_wins rest s c.1)
  ]

MayWrite-first :
    (key : Text) (etag : Option Text) (c : Text) (s : Store)
    → has_etag etag ≡ false
    → c ≡ first_write
    → MayWrite key etag c s
    → lookup key s.items ≡ none
MayWrite-first key etag c s h f m = rw (h, f, text_eq_refl first_write) at m

-- A first write with no etag fails while an item that has expired is still in the map, although no
-- reader sees that item.
pub expired_item_blocks_first_write :
    (etag : Text) (now : ℕ) (req : SetRequest) (s : Store) (item : Item)
    → lookup req.key s.items ≡ some item
    → is_expired item now ≡ true
    → has_etag req.etag ≡ false
    → req.options.concurrency ≡ first_write
    → (view now req.key s ≡ none) × ((set etag now req s).1 ≢ ok tt)
unfolding view
expired_item_blocks_first_write etag now req s item found old no_etag first = (
  rw (found, old) refl,
  λ win.
      let w = set-Stored etag now req s win in
      none-ne-some item (
        sym (MayWrite-first req.key req.etag req.options.concurrency s no_etag first w.allowed)
        ∙ found),
)

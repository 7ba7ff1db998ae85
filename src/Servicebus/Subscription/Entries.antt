-- ===== src/Servicebus/Subscription/Entries.antt =====
-- common/component/azure/servicebus/subscription.go: what addActiveMessage and removeActiveMessages do to
-- the entries of activeMessages.
use dapr_components_contrib.Prelude.{
  ℕ, List, [], ◌∷◌, ◌++◌, none, some, ◌==◌, ◌≡◌, ◌≢◌, refl, sym, ap, ◌∙◌, subst, arith, All,
  Bool-cases, Option-cases, ◌⊎◌, inl, inr,
}
use mathlib.Core.List.{Memᴰ}
use mathlib.Core.List.Memᴰ.{head, tail, not-nil}
use dapr_components_contrib.Servicebus.Subscription.{
  Message, put_entry, remove_entry, remove_active_messages,
}
use dapr_components_contrib.Servicebus.Subscription.System.{
  Stage, waiting, handling, leaving, removed, Goroutine, selecting, receiving, adding, operating,
}

abbrev pub IsLive : Stage → Type 0
IsLive waiting = Unit
IsLive (handling b) = Unit
IsLive (leaving b) = Unit
IsLive removed = ⊥

-- The goroutine has added the message and has not removed it yet.
abbrev pub Owns : Goroutine → Message → Type 0
Owns selecting m = ⊥
Owns receiving m = ⊥
Owns (adding added msgs) m = Memᴰ m added
Owns (operating own msgs stage) m = IsLive stage × Memᴰ m msgs

abbrev pub Live : List Goroutine → Message → Type 0
Live [] m = ⊥
Live (g ∷ gs) m = Owns g m ⊎ Live gs m

module _ (P : ℕ × Message → Type 0) where
  pub All-put_entry :
      (n : ℕ) (m : Message) (active : List (ℕ × Message))
      → P (n, m)
      → All P active
      → All P (put_entry n m active)
  unfolding put_entry
  All-put_entry n m [] p a = (p, tt)
  All-put_entry n m ((k, old) ∷ rest) p a = elim (Bool-cases (k == n)) [
    | inl e ↦ rw e (p, a.1)
    | inr e ↦ rw e (a.0, All-put_entry n m rest p a.1)
  ]

  pub All-remove_entry :
      (n : ℕ) (active : List (ℕ × Message))
      → All P active
      → All (λ (e : ℕ × Message). P e × (e.0 ≢ n)) (remove_entry n active)
  unfolding remove_entry
  All-remove_entry n [] a = tt
  All-remove_entry n ((k, old) ∷ rest) a = elim (Bool-cases (k == n)) [
    | inl e ↦ rw e (All-remove_entry n rest a.1)
    | inr e ↦ rw e ((a.0, λ x. ground (arith, e, x)), All-remove_entry n rest a.1)
  ]

pub All-mono {ℓ κ λ'} :
    {A : Type ℓ} {P : A → Type κ} {Q : A → Type λ'} (xs : List A)
    → ((x : A) → P x → Q x)
    → All P xs
    → All Q xs
All-mono [] f a = tt
All-mono (x ∷ xs) f a = (f x a.0, All-mono xs f a.1)

pub Live-out :
    (front back : List Goroutine) (g : Goroutine) (m : Message)
    → Live (front ++ g ∷ back) m
    → Owns g m ⊎ Live (front ++ back) m
Live-out [] back g m l = l
Live-out (x ∷ front) back g m (inl l) = inr (inl l)
Live-out (x ∷ front) back g m (inr l) = elim (Live-out front back g m l) [
  | inl h ↦ inl h
  | inr h ↦ inr (inr h)
]

pub Live-into :
    (front back : List Goroutine) (g : Goroutine) (m : Message)
    → Owns g m ⊎ Live (front ++ back) m
    → Live (front ++ g ∷ back) m
Live-into [] back g m l = l
Live-into (x ∷ front) back g m (inl l) = inr (Live-into front back g m (inl l))
Live-into (x ∷ front) back g m (inr (inl l)) = inl l
Live-into (x ∷ front) back g m (inr (inr l)) = inr (Live-into front back g m (inr l))

abbrev pub Free : List Message → ℕ → Type 0
Free msgs k = (m : Message) → Memᴰ m msgs → m.sequence_number ≢ some k

pub Free-nil : (k : ℕ) → Free [] k
Free-nil k m i = absurd (not-nil i)

pub Free-cons :
    (m : Message) (msgs : List Message) (k : ℕ)
    → m.sequence_number ≢ some k
    → Free msgs k
    → Free (m ∷ msgs) k
Free-cons m msgs k here_free there_free x (head e) =
    λ p. here_free (ap (λ (z : Message). z.sequence_number) (sym e) ∙ p)
Free-cons m msgs k here_free there_free x (tail i) = there_free x i

remove-unnumbered :
    (m : Message) (msgs : List Message) (active : List (ℕ × Message))
    → m.sequence_number ≡ none
    → remove_active_messages (m ∷ msgs) active ≡ remove_active_messages msgs active
unfolding remove_active_messages
remove-unnumbered m msgs active e = rw (e, remove_active_messages) refl

remove-numbered :
    (m : Message) (msgs : List Message) (active : List (ℕ × Message)) (n : ℕ)
    → m.sequence_number ≡ some n
    → remove_active_messages (m ∷ msgs) active ≡ remove_active_messages msgs (remove_entry n active)
unfolding remove_active_messages
remove-numbered m msgs active n e = rw (e, remove_active_messages) refl

-- After the messages are removed, no entry has the number of one of them.
pub All-remove_active :
    (P : ℕ × Message → Type 0) (msgs : List Message) (active : List (ℕ × Message))
    → All P active
    → All (λ (e : ℕ × Message). P e × Free msgs e.0) (remove_active_messages msgs active)
unfolding remove_active_messages
All-remove_active P [] active a = All-mono active (λ e p. (p, Free-nil e.0)) a
All-remove_active P (m ∷ msgs) active a = elim (Option-cases m.sequence_number) [
  | inl e ↦
      subst (All (λ (x : ℕ × Message). P x × Free (m ∷ msgs) x.0))
        (sym (remove-unnumbered m msgs active e))
        (All-mono _ (λ x p. (p.0, Free-cons m msgs x.0 (λ q. ground (arith, e, q)) p.1))
          (All-remove_active P msgs active a))
  | inr (n, e) ↦
      subst (All (λ (x : ℕ × Message). P x × Free (m ∷ msgs) x.0))
        (sym (remove-numbered m msgs active n e))
        (All-mono _ (λ x p. (p.0.0, Free-cons m msgs x.0 (λ q. p.0.1 (ground (arith, e, q))) p.1))
          (All-remove_active (λ (x : ℕ × Message). P x × (x.0 ≢ n)) msgs (remove_entry n active)
            (All-remove_entry P n active a)))
]

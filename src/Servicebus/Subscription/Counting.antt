-- ===== src/Servicebus/Subscription/Counting.antt =====
-- common/component/azure/servicebus/subscription.go: counting goroutines by what they hold.
use dapr_components_contrib.Prelude.{
  ℕ, ◌+◌, List, [], ◌∷◌, ◌++◌, length, if◌then◌else◌, ◌≡◌, refl, arith, All,
}
use dapr_components_contrib.Servicebus.Subscription.System.{
  Stage, waiting, handling, leaving, removed, Goroutine, selecting, receiving, adding, operating,
}

abbrev pub total : (Goroutine → ℕ) → List Goroutine → ℕ
total f [] = 0
total f (g ∷ gs) = f g + total f gs

pub total-append :
    (f : Goroutine → ℕ) (front back : List Goroutine) (g : Goroutine)
    → total f (front ++ g ∷ back) ≡ f g + total f (front ++ back)
total-append f [] back g = refl
total-append f (x ∷ front) back g = omega (arith, total-append f front back g)

-- entries in activeOperationsChan
abbrev pub token_of : Goroutine → ℕ
token_of selecting = 0
token_of receiving = 1
token_of (adding added msgs) = 1
token_of (operating own msgs stage) = 1

-- entries in handleChan
abbrev pub held_by : Stage → ℕ
held_by waiting = 0
held_by (handling b) = if b then 1 else 0
held_by (leaving b) = if b then 1 else 0
held_by removed = 0

abbrev pub holds : Goroutine → ℕ
holds selecting = 0
holds receiving = 0
holds (adding added msgs) = 0
holds (operating own msgs stage) = held_by stage

-- messages that were received and whose handleMessages has not returned
abbrev pub messages_of : Goroutine → ℕ
messages_of selecting = 0
messages_of receiving = 0
messages_of (adding added msgs) = length added + length msgs
messages_of (operating own msgs stage) = length msgs

abbrev pub in_progress : List Goroutine → ℕ
in_progress = total messages_of

-- handlers that run
abbrev pub runs : Stage → ℕ
runs waiting = 0
runs (handling b) = 1
runs (leaving b) = 0
runs removed = 0

abbrev pub handler_of : Goroutine → ℕ
handler_of selecting = 0
handler_of receiving = 0
handler_of (adding added msgs) = 0
handler_of (operating own msgs stage) = runs stage

abbrev pub running : List Goroutine → ℕ
running = total handler_of

pub All-out {ℓ κ} :
    {A : Type ℓ} (P : A → Type κ) (front back : List A) (x : A)
    → All P (front ++ x ∷ back)
    → P x × All P (front ++ back)
All-out P [] back x a = a
All-out P (y ∷ front) back x a = let (p, q) = All-out P front back x a.1 in (p, (a.0, q))

pub All-into {ℓ κ} :
    {A : Type ℓ} (P : A → Type κ) (front back : List A) (x : A)
    → P x
    → All P (front ++ back)
    → All P (front ++ x ∷ back)
All-into P [] back x p a = (p, a)
All-into P (y ∷ front) back x p a = (a.0, All-into P front back x p a.1)

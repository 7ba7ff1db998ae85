-- ===== src/Servicebus/Subscription/Settling.antt =====
-- common/component/azure/servicebus/subscription.go: which messages handleMessages completes, and which
-- it abandons.
use dapr_components_contrib.Prelude.{ℕ, Text, Option, some, List, [], ◌∷◌, length, ◌≡◌, ◌++◌, ◌<◌}
use mathlib.Core.List.{Permᴰ}
use mathlib.Core.List.Permᴰ
use dapr_components_contrib.Servicebus.Subscription.{
  Message, Settlement, complete, abandon, HandlerResponseItem, settle_one, settle,
}

abbrev pub message_of : Settlement → Message
message_of (complete m) = m
message_of (abandon m) = m

-- the call for each message, by the response at its place
abbrev pub zip_settle : List HandlerResponseItem → List Message → List Settlement
zip_settle [] msgs = []
zip_settle (r ∷ resps) [] = []
zip_settle (r ∷ resps) (m ∷ msgs) = settle_one r m ∷ zip_settle resps msgs

-- The calls of one handleMessages: those that its loop has not started, those that run, in goroutines of their
-- own, and those that have returned. A single call runs in handleMessages itself.
pub record Calls : Type 0 where
  pub to_start : List Settlement
  pub in_flight : List Settlement
  pub returned : List Settlement

abbrev pub max_concurrent_ops : ℕ
max_concurrent_ops = 20

pub data CallStep (s t : Calls) : Type 0 where
  -- limitCh <- struct{}{}, and the goroutine
  start :
      (c : Settlement) (rest : List Settlement)
      → s.to_start ≡ c ∷ rest
      → length s.in_flight < max_concurrent_ops
      → t ≡ record s { to_start = rest; in_flight = c ∷ s.in_flight }
      → CallStep s t
  -- the call returns, and <-limitCh
  return :
      (front back : List Settlement) (c : Settlement)
      → s.in_flight ≡ front ++ c ∷ back
      → t ≡ record s { in_flight = front ++ back; returned = c ∷ s.returned }
      → CallStep s t

-- What can become of the calls after the handler has returned.
pub data Settles (msgs : List Message) (resps : List HandlerResponseItem) (err : Option Text)
    : Calls → Type 0 where
  to_settle :
      (calls : List Settlement)
      → settle msgs resps err ≡ some calls
      → Settles msgs resps err (record { to_start = calls; in_flight = []; returned = [] })
  after_call : {s t : Calls} → Settles msgs resps err s → CallStep s t → Settles msgs resps err t

abbrev pub all_calls : Calls → List Settlement
all_calls s = s.to_start ++ (s.in_flight ++ s.returned)

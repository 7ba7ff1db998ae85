-- ===== src/Servicebus/Subscription/System.antt =====
-- common/component/azure/servicebus/subscription.go: the calls of ReceiveBlocking on one subscription and the
-- calls of handleMessages, as goroutines whose steps interleave. A component calls ReceiveBlocking again
-- after a lost connection, and with sessions several times at once.
use dapr_components_contrib.Prelude.{
  ℕ, ◌+◌, ◌-◌, ◌≤◌, ◌<◌, none, some, List, [], ◌∷◌, ◌++◌, length, Bool, true, false, ◌≡◌, ◌≢◌,
}
use dapr_components_contrib.Servicebus.Subscription.{
  Limits, Message, put_entry, remove_active_messages,
}

-- where a call of handleMessages is: before handleChan, in the handler or starting the calls that settle
-- its messages, in its deferred function (with whether it still holds a handler), or past the removal
-- of its messages
pub data Stage : Type 0 where
  waiting : Stage
  handling : Bool → Stage
  leaving : Bool → Stage
  removed : Stage

-- a goroutine: ReceiveBlocking at its select, at ReceiveMessages, or between two messages that it adds (with
-- those that it has added and those that are left), or a call of handleMessages, which a loop makes itself
-- if sessions are required, and which is a goroutine of its own otherwise
pub data Goroutine : Type 0 where
  selecting : Goroutine
  receiving : Goroutine
  adding : List Message → List Message → Goroutine
  operating : Bool → List Message → Stage → Goroutine

pub record System : Type 0 where
  pub goroutines : List Goroutine
  -- the entries in activeOperationsChan and in handleChan
  pub tokens : ℕ
  pub handlers : ℕ
  pub active : List (ℕ × Message)
  -- the messages that were added by batches that were skipped: the code keeps no record of them
  pub skipped : List Message

abbrev pub started : System
started = record { goroutines = []; tokens = 0; handlers = 0; active = []; skipped = [] }

module _ (limits : Limits) where
  pub data Step (s t : System) : Type 0 where
    -- a call of ReceiveBlocking
    receive_blocking : t ≡ record s { goroutines = selecting ∷ s.goroutines } → Step s t
    -- s.activeOperationsChan <- struct{}{}
    take_token :
        (front back : List Goroutine)
        → s.goroutines ≡ front ++ selecting ∷ back
        → s.tokens < limits.capacity
        → t ≡ record s { goroutines = front ++ receiving ∷ back; tokens = s.tokens + 1 }
        → Step s t
    -- ctx.Done() in the select of the loop
    stop :
        (front back : List Goroutine)
        → s.goroutines ≡ front ++ selecting ∷ back
        → t ≡ record s { goroutines = front ++ back }
        → Step s t
    -- an error from ReceiveMessages, or no message
    receive_nothing :
        (front back : List Goroutine)
        → s.goroutines ≡ front ++ receiving ∷ back
        → t ≡ record s { goroutines = front ++ back; tokens = s.tokens - 1 }
        → Step s t
    -- a batch, which ReceiveMessages keeps within its maximum
    receive :
        (front back : List Goroutine) (msgs : List Message)
        → s.goroutines ≡ front ++ receiving ∷ back
        → 1 ≤ length msgs
        → length msgs ≤ limits.max_bulk
        → t ≡ record s { goroutines = front ++ adding [] msgs ∷ back }
        → Step s t
    -- addActiveMessage
    add :
        (front back : List Goroutine) (added : List Message) (m : Message) (msgs : List Message)
        (n : ℕ)
        → s.goroutines ≡ front ++ adding added (m ∷ msgs) ∷ back
        → m.sequence_number ≡ some n
        → t ≡ record s {
          goroutines = front ++ adding (added ++ m ∷ []) msgs ∷ back;
          active = put_entry n m s.active;
        }
        → Step s t
    -- a message that has no number, and <-s.activeOperationsChan
    skip :
        (front back : List Goroutine) (added : List Message) (m : Message) (msgs : List Message)
        → s.goroutines ≡ front ++ adding added (m ∷ msgs) ∷ back
        → m.sequence_number ≡ none
        → t ≡ record s {
          goroutines = front ++ selecting ∷ back;
          tokens = s.tokens - 1;
          skipped = added ++ s.skipped;
        }
        → Step s t
    -- s.handleMessages with sessions
    handle :
        (front back : List Goroutine) (msgs : List Message)
        → s.goroutines ≡ front ++ adding msgs [] ∷ back
        → limits.require_sessions ≡ true
        → t ≡ record s { goroutines = front ++ operating true msgs waiting ∷ back }
        → Step s t
    -- go s.handleMessages without
    go_handle :
        (front back : List Goroutine) (msgs : List Message)
        → s.goroutines ≡ front ++ adding msgs [] ∷ back
        → limits.require_sessions ≡ false
        → t ≡ record s { goroutines = selecting ∷ front ++ operating false msgs waiting ∷ back }
        → Step s t
    -- handleMessages without handleChan
    enter :
        (front back : List Goroutine) (own : Bool) (msgs : List Message)
        → s.goroutines ≡ front ++ operating own msgs waiting ∷ back
        → limits.max_handlers ≡ 0
        → t ≡ record s { goroutines = front ++ operating own msgs (handling false) ∷ back }
        → Step s t
    -- s.handleChan <- struct{}{}
    take_handler :
        (front back : List Goroutine) (own : Bool) (msgs : List Message)
        → s.goroutines ≡ front ++ operating own msgs waiting ∷ back
        → s.handlers < limits.max_handlers
        → t ≡ record s {
          goroutines = front ++ operating own msgs (handling true) ∷ back;
          handlers = s.handlers + 1;
        }
        → Step s t
    -- ctx.Done() in the select of handleMessages
    give_up :
        (front back : List Goroutine) (own : Bool) (msgs : List Message)
        → s.goroutines ≡ front ++ operating own msgs waiting ∷ back
        → limits.max_handlers ≢ 0
        → t ≡ record s { goroutines = front ++ operating own msgs (leaving false) ∷ back }
        → Step s t
    -- the return of handleMessages, which does not wait for the goroutines that settle its messages
    handled :
        (front back : List Goroutine) (own : Bool) (msgs : List Message) (taken : Bool)
        → s.goroutines ≡ front ++ operating own msgs (handling taken) ∷ back
        → t ≡ record s { goroutines = front ++ operating own msgs (leaving taken) ∷ back }
        → Step s t
    -- <-s.handleChan
    release_handler :
        (front back : List Goroutine) (own : Bool) (msgs : List Message)
        → s.goroutines ≡ front ++ operating own msgs (leaving true) ∷ back
        → t ≡ record s {
          goroutines = front ++ operating own msgs (leaving false) ∷ back;
          handlers = s.handlers - 1;
        }
        → Step s t
    -- s.removeActiveMessages(msgs), under one lock
    remove_messages :
        (front back : List Goroutine) (own : Bool) (msgs : List Message)
        → s.goroutines ≡ front ++ operating own msgs (leaving false) ∷ back
        → t ≡ record s {
          goroutines = front ++ operating own msgs removed ∷ back;
          active = remove_active_messages msgs s.active;
        }
        → Step s t
    -- <-s.activeOperationsChan, and the loop goes on
    release_token :
        (front back : List Goroutine) (msgs : List Message)
        → s.goroutines ≡ front ++ operating true msgs removed ∷ back
        → t ≡ record s { goroutines = front ++ selecting ∷ back; tokens = s.tokens - 1 }
        → Step s t
    -- the same in a goroutine of its own, which ends
    end_operation :
        (front back : List Goroutine) (msgs : List Message)
        → s.goroutines ≡ front ++ operating false msgs removed ∷ back
        → t ≡ record s { goroutines = front ++ back; tokens = s.tokens - 1 }
        → Step s t

  pub data Reach : System → Type 0 where
    here : Reach started
    next : {s t : System} → Reach s → Step s t → Reach t

-- ===== src/State/InMemory/Shutdown.antt =====
-- `Init`, `startCleanThread` and `Close` of state/in-memory/in_memory.go: the goroutine that cleans
-- and the one that closes, as interleaved steps over the lock. Any
-- other operation is one step, which takes place while the lock is free.
use dapr_components_contrib.Prelude.{ℕ, Text, [], ◌≡◌, refl, arith, Bool, true, false}
use dapr_components_contrib.Dict.{Dict}
use dapr_components_contrib.State.InMemory.{Item, clean_items}

-- Where the goroutine of `Init` is: in its `select`, past the timer and about to take the lock,
-- inside `doCleanExpiredItems`, or done, with `wg.Done` called.
pub data Cleaner : Type 0 where
  selecting ticked cleaning exited : Cleaner

-- Where `Close` is: not called, past `close(closeCh)` and about to take the lock, at `wg.Wait` with
-- the lock held and the items deleted, or back, with the lock given back.
pub data Closer : Type 0 where
  not_called locking draining returned : Closer

pub data Holder : Type 0 where
  nobody the_cleaner the_closer : Holder

pub record System : Type 0 where
  pub cleaner : Cleaner
  pub closer : Closer
  pub holder : Holder
  pub closed : Bool
  pub items : Dict Item

-- after `Init`, with the items that clients have stored so far
abbrev pub started : Dict Item → System
started items = record {
  cleaner = selecting;
  closer = not_called;
  holder = nobody;
  closed = false;
  items = items;
}

pub data Step (s t : System) : Type 0 where
  -- the timer of the select fires
  tick : s.cleaner ≡ selecting → t ≡ record s { cleaner = ticked } → Step s t
  -- `closeCh` is closed, and the select takes that case
  stop : s.cleaner ≡ selecting → s.closed ≡ true → t ≡ record s { cleaner = exited } → Step s t
  lock_to_clean :
      s.cleaner ≡ ticked
      → s.holder ≡ nobody
      → t ≡ record s { cleaner = cleaning; holder = the_cleaner }
      → Step s t
  clean :
      (clock : Text → ℕ)
      → s.cleaner ≡ cleaning
      → t ≡ record s {
        cleaner = selecting;
        holder = nobody;
        items = clean_items clock s.items s.items;
      }
      → Step s t
  close : s.closer ≡ not_called → t ≡ record s { closer = locking; closed = true } → Step s t
  lock_to_close :
      s.closer ≡ locking
      → s.holder ≡ nobody
      → t ≡ record s { closer = draining; holder = the_closer; items = [] }
      → Step s t
  -- `wg.Wait` returns once the goroutine is done.
  return_ :
      s.closer ≡ draining
      → s.cleaner ≡ exited
      → t ≡ record s { closer = returned; holder = nobody }
      → Step s t
  operate : (after : Dict Item) → s.holder ≡ nobody → t ≡ record s { items = after } → Step s t

pub data Reach (s : System) : System → Type 0 where
  here : Reach s s
  next : {t u : System} → Reach s t → Step t u → Reach s u

-- The lock is held by the one that is inside, and `Close` sees an empty map while it waits.
pub record IsSafe (s : System) : Type 0 where
  pub cleaner_holds : s.cleaner ≡ cleaning → s.holder ≡ the_cleaner
  pub closer_holds : s.closer ≡ draining → s.holder ≡ the_closer
  pub emptied : s.closer ≡ draining → s.items ≡ []
  pub finished : s.closer ≡ returned → s.cleaner ≡ exited

Step-IsSafe : {s t : System} → Step s t → IsSafe s → IsSafe t
Step-IsSafe (tick c e) v = ground arith
Step-IsSafe (stop c d e) v = ground arith
Step-IsSafe (lock_to_clean c h e) v = ground arith
Step-IsSafe (clean clock c e) v = ground arith
Step-IsSafe (close c e) v = ground arith
Step-IsSafe (lock_to_close c h e) v = ground arith
Step-IsSafe (return_ c d e) v = ground arith
Step-IsSafe (operate after h e) v = ground arith

-- In every interleaving the lock is held by the goroutine while that cleans and by `Close` while
-- that waits, the map is empty while `Close` waits, and once it is back the goroutine is done.
pub Reach-IsSafe : (items : Dict Item) {s : System} → Reach (started items) s → IsSafe s
Reach-IsSafe items here = ground arith
Reach-IsSafe items (next r st) = Step-IsSafe st (Reach-IsSafe items r)

-- `Close` waits with the lock held for a goroutine that waits for the lock.
abbrev pub Deadlocked : System → Type 0
Deadlocked s = (s.cleaner ≡ ticked) × (s.closer ≡ draining) × (s.holder ≡ the_closer)

no-Step : {s t : System} → Deadlocked s → Step s t → ⊥
no-Step d (tick c e) = ground arith
no-Step d (stop c x e) = ground arith
no-Step d (lock_to_clean c h e) = ground arith
no-Step d (clean clock c e) = ground arith
no-Step d (close c e) = ground arith
no-Step d (lock_to_close c h e) = ground arith
no-Step d (return_ c x e) = ground arith
no-Step d (operate after h e) = ground arith

-- Whatever is stored, `Close` can end in a deadlock: a state is within reach in which it holds the
-- lock and waits for the goroutine, the goroutine waits for the lock, and no step is left.
pub close_deadlock :
    (items : Dict Item)
    → (s : System) × Reach (started items) s × Deadlocked s × ((t : System) → Step s t → ⊥)
close_deadlock items = (
  record { cleaner = ticked; closer = draining; holder = the_closer; closed = true; items = [] },
  next (next (next here (tick refl refl)) (close refl refl)) (lock_to_close refl refl refl),
  (refl, refl, refl),
  λ t. no-Step (refl, refl, refl),
)

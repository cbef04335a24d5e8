-- ===== src/Process.antt =====
-- startRelayer of cmd/neutron_query_relayer/cmd/start.go from its goroutines on: the web server, the
-- checker, the subscriber and the relayer, the context that they share, the queue of tasks between
-- the last two, and the wait for all of them before the storage is closed.
pub mod Soundness
pub mod Shutdown
pub mod Blocked
use neutron_query_relayer.Prelude.{
  ℕ, zero, suc, ◌<◌, ◌≡◌, Bool, true, false, List, [], ◌∷◌, ◌++◌, length,
}
use neutron_query_relayer.Errors.{Error}
use neutron_query_relayer.Relay.{RegisteredQuery}

-- A goroutine: its `Run` at some point, its `Run` returned with an error and the context not yet
-- cancelled for it, or all done.
pub data Routine (A : Type 0) : Type 0 where
  running : A → Routine A
  failing : Error → Routine A
  exited : Routine A

-- TxSubmitChecker.Run: before it reads the pending transactions, or with so many to check before it
-- waits for the next one.
pub data Checking : Type 0 where
  starting : Checking
  checking : ℕ → Checking

-- Subscriber.Subscribe: before its subscriptions, or with these queries to send before it waits for
-- the next event.
pub data Subscribing : Type 0 where
  fetching : Subscribing
  sending : List RegisteredQuery → Subscribing

-- Relayer.Run: at its `select`, or with a query that it took.
pub data Relaying : Type 0 where
  idle : Relaying
  processing : RegisteredQuery → Relaying

pub record Process : Type 0 where
  pub cancelled : Bool
  -- queriesTasksQueue
  pub capacity : ℕ
  pub queue : List RegisteredQuery
  pub web : Routine (Unit {0})
  pub checker : Routine Checking
  pub subscriber : Routine Subscribing
  pub relayer : Routine Relaying
  pub storage_open : Bool

-- the goroutines just started
unfoldable pub start : ℕ → Process
start capacity = record {
  cancelled = false;
  capacity = capacity;
  queue = [];
  web = running tt;
  checker = running starting;
  subscriber = running fetching;
  relayer = running idle;
  storage_open = true;
}

-- What comes from outside: a signal to terminate, a block with the queries that are due at it, an
-- event that cannot be processed, a submitted transaction to check, and a server that fails.
pub data Arrival (s : Process) : Process → Type 0 where
  signal : Arrival s (record s { cancelled = true })
  block :
      (due : List RegisteredQuery)
      → s.subscriber ≡ running (sending [])
      → Arrival s (record s { subscriber = running (sending due) })
  bad_event :
      (e : Error)
      → s.subscriber ≡ running (sending [])
      → Arrival s (record s { subscriber = failing e })
  submitted :
      s.checker ≡ running (checking 0) → Arrival s (record s { checker = running (checking 1) })
  server_error : (e : Error) → s.web ≡ running tt → Arrival s (record s { web = failing e })

-- What the process does by itself. A goroutine whose `Run` gave an error cancels the context, and
-- one that waits returns once it is cancelled.
pub data Move (s : Process) : Process → Type 0 where
  web_cancel :
      (e : Error) → s.web ≡ failing e → Move s (record s { web = exited; cancelled = true })
  web_stop : s.web ≡ running tt → s.cancelled ≡ true → Move s (record s { web = exited })
  read_pending :
      (n : ℕ) → s.checker ≡ running starting → Move s (record s { checker = running (checking n) })
  read_error :
      (e : Error) → s.checker ≡ running starting → Move s (record s { checker = failing e })
  checked :
      (n : ℕ)
      → s.checker ≡ running (checking (suc n))
      → Move s (record s { checker = running (checking n) })
  checker_cancel :
      (e : Error) → s.checker ≡ failing e → Move s (record s { checker = exited; cancelled = true })
  checker_stop :
      s.checker ≡ running (checking 0) → s.cancelled ≡ true → Move s (record s { checker = exited })
  fetched :
      s.subscriber ≡ running fetching → Move s (record s { subscriber = running (sending []) })
  fetch_error :
      (e : Error) → s.subscriber ≡ running fetching → Move s (record s { subscriber = failing e })
  -- `tasks <- *activeQuery` into the buffer, or into the hand of a relayer that waits
  send :
      (q : RegisteredQuery) (due : List RegisteredQuery)
      → s.subscriber ≡ running (sending (q ∷ due))
      → length s.queue < s.capacity
      → Move s (record s { subscriber = running (sending due); queue = s.queue ++ q ∷ [] })
  hand :
      (q : RegisteredQuery) (due : List RegisteredQuery)
      → s.subscriber ≡ running (sending (q ∷ due))
      → s.queue ≡ []
      → s.relayer ≡ running idle
      → Move s (record s { subscriber = running (sending due); relayer = running (processing q) })
  subscriber_cancel :
      (e : Error)
      → s.subscriber ≡ failing e
      → Move s (record s { subscriber = exited; cancelled = true })
  subscriber_stop :
      s.subscriber ≡ running (sending [])
      → s.cancelled ≡ true
      → Move s (record s { subscriber = exited })
  take :
      (q : RegisteredQuery) (rest : List RegisteredQuery)
      → s.relayer ≡ running idle
      → s.queue ≡ q ∷ rest
      → Move s (record s { relayer = running (processing q); queue = rest })
  -- a query is done with, its error logged if it has one that is not critical
  processed :
      (q : RegisteredQuery)
      → s.relayer ≡ running (processing q)
      → Move s (record s { relayer = running idle })
  critical :
      (q : RegisteredQuery) (e : Error)
      → s.relayer ≡ running (processing q)
      → Move s (record s { relayer = failing e })
  relayer_cancel :
      (e : Error) → s.relayer ≡ failing e → Move s (record s { relayer = exited; cancelled = true })
  relayer_stop :
      s.relayer ≡ running idle → s.cancelled ≡ true → Move s (record s { relayer = exited })
  -- `wg.Wait()`, then the deferred Close of the storage
  close :
      s.web ≡ exited
      → s.checker ≡ exited
      → s.subscriber ≡ exited
      → s.relayer ≡ exited
      → s.storage_open ≡ true
      → Move s (record s { storage_open = false })

pub data Step (s t : Process) : Type 0 where
  arrives : Arrival s t → Step s t
  moves : Move s t → Step s t

pub data Reach (s : Process) : Process → Type 0 where
  here : Reach s s
  next : {t u : Process} → Reach s t → Step t u → Reach s u

-- ===== src/Process/Soundness.antt =====
-- What holds of the process of start.go at every moment.
use neutron_query_relayer.Prelude.{ℕ, ◌≤◌, ◌≡◌, true, false, [], ◌∷◌, length, length-append, arith}
use neutron_query_relayer.Process.{
  exited, Process, start, Arrival, signal, block, bad_event, submitted, server_error, Move,
  web_cancel, web_stop, read_pending, read_error, checked, checker_cancel, checker_stop, fetched,
  fetch_error, send, hand, subscriber_cancel, subscriber_stop, take, processed, critical,
  relayer_cancel, relayer_stop, close, Step, arrives, moves, Reach, here, next,
}

-- The buffer never holds more than its capacity, no goroutine ends before the context is cancelled,
-- and the storage is open as long as one of them runs.
pub record IsSound (s : Process) : Type 0 where
  pub fits : length s.queue ≤ s.capacity
  pub web_ended : s.web ≡ exited → s.cancelled ≡ true
  pub checker_ended : s.checker ≡ exited → s.cancelled ≡ true
  pub subscriber_ended : s.subscriber ≡ exited → s.cancelled ≡ true
  pub relayer_ended : s.relayer ≡ exited → s.cancelled ≡ true
  pub web_open : s.storage_open ≡ false → s.web ≡ exited
  pub checker_open : s.storage_open ≡ false → s.checker ≡ exited
  pub subscriber_open : s.storage_open ≡ false → s.subscriber ≡ exited
  pub relayer_open : s.storage_open ≡ false → s.relayer ≡ exited

start-IsSound : (capacity : ℕ) → IsSound (start capacity)
unfolding start
start-IsSound capacity = ground arith

Arrival-IsSound : {s t : Process} → Arrival s t → IsSound s → IsSound t
Arrival-IsSound signal h = ground arith
Arrival-IsSound (block due p) h = ground arith
Arrival-IsSound (bad_event e p) h = ground arith
Arrival-IsSound (submitted p) h = ground arith
Arrival-IsSound (server_error e p) h = ground arith

Move-IsSound : {s t : Process} → Move s t → IsSound s → IsSound t
Move-IsSound (web_cancel e p) h = ground arith
Move-IsSound (web_stop p c) h = ground arith
Move-IsSound (read_pending n p) h = ground arith
Move-IsSound (read_error e p) h = ground arith
Move-IsSound (checked n p) h = ground arith
Move-IsSound (checker_cancel e p) h = ground arith
Move-IsSound (checker_stop p c) h = ground arith
Move-IsSound (fetched p) h = ground arith
Move-IsSound (fetch_error e p) h = ground arith
Move-IsSound {s} (send q due p l) h = ground (arith, length-append s.queue (q ∷ []))
Move-IsSound (hand q due p r i) h = ground arith
Move-IsSound (subscriber_cancel e p) h = ground arith
Move-IsSound (subscriber_stop p c) h = ground arith
Move-IsSound (take q rest p r) h = ground arith
Move-IsSound (processed q p) h = ground arith
Move-IsSound (critical q e p) h = ground arith
Move-IsSound (relayer_cancel e p) h = ground arith
Move-IsSound (relayer_stop p c) h = ground arith
Move-IsSound (close w c b r o) h = ground arith

pub Step-IsSound : {s t : Process} → Step s t → IsSound s → IsSound t
Step-IsSound (arrives a) h = Arrival-IsSound a h
Step-IsSound (moves m) h = Move-IsSound m h

-- In every state that the started process reaches, the queue of tasks holds no more than its
-- capacity, a goroutine has ended only if the context is cancelled, and the storage is closed only
-- when all four have ended.
pub Reach-IsSound : (capacity : ℕ) {s : Process} → Reach (start capacity) s → IsSound s
Reach-IsSound capacity here = start-IsSound capacity
Reach-IsSound capacity (next r st) = Step-IsSound st (Reach-IsSound capacity r)

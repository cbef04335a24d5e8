-- ===== src/Process/Blocked.antt =====
-- The send of a task in processBlockEvent waits for room without a look at the context.
use neutron_query_relayer.Prelude.{◌≤◌, ◌≡◌, true, List, ◌∷◌, length, arith}
use neutron_query_relayer.Relay.{RegisteredQuery}
use neutron_query_relayer.Process.{
  running, exited, sending, Process, Arrival, signal, block, bad_event, submitted, server_error,
  Move, web_cancel, web_stop, read_pending, read_error, checked, checker_cancel, checker_stop,
  fetched, fetch_error, send, hand, subscriber_cancel, subscriber_stop, take, processed, critical,
  relayer_cancel, relayer_stop, close, Step, arrives, moves, Reach, here, next,
}

-- The relayer has ended, the queue is full, and the subscriber has a query to send.
pub record IsBlocked (q : RegisteredQuery) (due : List RegisteredQuery) (s : Process) : Type 0 where
  pub gone : s.relayer ≡ exited
  pub full : s.capacity ≤ length s.queue
  pub sends : s.subscriber ≡ running (sending (q ∷ due))
  pub still_open : s.storage_open ≡ true

module _ (q : RegisteredQuery) (due : List RegisteredQuery) where
  Arrival-IsBlocked : {s t : Process} → Arrival s t → IsBlocked q due s → IsBlocked q due t
  Arrival-IsBlocked signal h = ground arith
  Arrival-IsBlocked (block new p) h = ground arith
  Arrival-IsBlocked (bad_event e p) h = ground arith
  Arrival-IsBlocked (submitted p) h = ground arith
  Arrival-IsBlocked (server_error e p) h = ground arith

  Move-IsBlocked : {s t : Process} → Move s t → IsBlocked q due s → IsBlocked q due t
  Move-IsBlocked (web_cancel e p) h = ground arith
  Move-IsBlocked (web_stop p c) h = ground arith
  Move-IsBlocked (read_pending n p) h = ground arith
  Move-IsBlocked (read_error e p) h = ground arith
  Move-IsBlocked (checked n p) h = ground arith
  Move-IsBlocked (checker_cancel e p) h = ground arith
  Move-IsBlocked (checker_stop p c) h = ground arith
  Move-IsBlocked (fetched p) h = ground arith
  Move-IsBlocked (fetch_error e p) h = ground arith
  Move-IsBlocked (send r rest p l) h = ground arith
  Move-IsBlocked (hand r rest p f i) h = ground arith
  Move-IsBlocked (subscriber_cancel e p) h = ground arith
  Move-IsBlocked (subscriber_stop p c) h = ground arith
  Move-IsBlocked (take r rest p f) h = ground arith
  Move-IsBlocked (processed r p) h = ground arith
  Move-IsBlocked (critical r e p) h = ground arith
  Move-IsBlocked (relayer_cancel e p) h = ground arith
  Move-IsBlocked (relayer_stop p c) h = ground arith
  Move-IsBlocked (close w c b r o) h = ground arith

  Step-IsBlocked : {s t : Process} → Step s t → IsBlocked q due s → IsBlocked q due t
  Step-IsBlocked (arrives a) h = Arrival-IsBlocked a h
  Step-IsBlocked (moves m) h = Move-IsBlocked m h

  -- From a state in which the relayer has ended, the queue is full, the subscriber has a query to
  -- send and the storage is open, every state that is reached is such a state: the process never
  -- ends.
  pub Reach-IsBlocked :
      (s : Process) {t : Process} → IsBlocked q due s → Reach s t → IsBlocked q due t
  Reach-IsBlocked s h here = h
  Reach-IsBlocked s h (next r st) = Step-IsBlocked st (Reach-IsBlocked s h r)

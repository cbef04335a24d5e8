-- ===== src/Examples/Running.antt =====
-- The theorems on the process of start.go, at runs of it.
use neutron_query_relayer.Prelude.{refl, true, [], ◌∷◌, codes, arith}
use neutron_query_relayer.Errors.{plain, critical as critical_error}
use neutron_query_relayer.Process.{
  running, exited, starting, sending, Process, start, signal, block, fetched, send, take, critical,
  relayer_cancel, arrives, moves, Reach, here, next,
}
use neutron_query_relayer.Process.Soundness.{IsSound, Reach-IsSound}
use neutron_query_relayer.Process.Shutdown.{Ends, shutdown-Ends}
use neutron_query_relayer.Process.Blocked.{IsBlocked, Reach-IsBlocked}
use neutron_query_relayer.Examples.Subscribing.{a_query}

-- A block at which three queries are due, and a queue of one: the relayer takes the first one and
-- ends with a critical error when the second one is in the queue.
abbrev blocked : Process
blocked = record {
  cancelled = true;
  capacity = 1;
  queue = a_query ∷ [];
  web = running tt;
  checker = running starting;
  subscriber = running (sending (a_query ∷ []));
  relayer = exited;
  storage_open = true;
}

blocked_reach : Reach (start 1) blocked
unfolding start
blocked_reach =
    next
      (next
        (next
          (next
            (next
              (next (next here (moves (fetched refl)))
                (arrives (block (a_query ∷ a_query ∷ a_query ∷ []) refl)))
              (moves (send a_query _ refl (omega arith))))
            (moves (take a_query [] refl refl)))
          (moves (send a_query _ refl (omega arith))))
        (moves (critical a_query (critical_error (plain (codes "refused"))) refl)))
      (moves (relayer_cancel _ refl))

Reach-IsSound_example : IsSound blocked
Reach-IsSound_example = Reach-IsSound 1 blocked_reach

Reach-IsBlocked_example : IsBlocked a_query [] (record blocked { cancelled = true })
Reach-IsBlocked_example =
    Reach-IsBlocked a_query [] blocked
      (record { gone = refl; full = omega arith; sends = refl; still_open = refl })
      (next here (arrives signal))

-- the same with room for one more
shutdown-Ends_example : Ends (record blocked { capacity = 2 })
shutdown-Ends_example = shutdown-Ends (record blocked { capacity = 2 }) refl (omega arith)

-- ===== src/Process/Shutdown.antt =====
-- Once the context of start.go is cancelled and nothing more arrives, the process comes to its end:
-- if the subscriber has room in the queue for all that it still sends.
use neutron_query_relayer.Prelude.{
  ℕ, zero, suc, ◌+◌, ◌*◌, ◌≤◌, ◌<◌, ◌≡◌, refl, ◌∙◌, ◌⊎◌, inl, inr, Bool, true, false, [], ◌∷◌,
  length, length-append, arith, Bool-cases,
}
use neutron_query_relayer.Process.{
  Routine, running, failing, exited, Checking, starting, checking, Subscribing, fetching, sending,
  Relaying, idle, processing, Process, Move, web_cancel, web_stop, read_pending, read_error,
  checked, checker_cancel, checker_stop, fetched, fetch_error, send, hand, subscriber_cancel,
  subscriber_stop, take, processed, critical, relayer_cancel, relayer_stop, close,
}

-- The process ends whatever moves it makes: it cannot stand still before the storage is closed, and
-- there is no infinite sequence of its moves.
pub data Ends : Process → Type 0 where
  ends :
      {s : Process}
      → ((s.storage_open ≡ false) ⊎ ((t : Process) × Move s t))
      → ((t : Process) → Move s t → Ends t)
      → Ends s

-- what the subscriber still has to send
abbrev pub unsent : Routine Subscribing → ℕ
unsent (running fetching) = 0
unsent (running (sending due)) = length due
unsent (failing e) = 0
unsent exited = 0

abbrev pub HasRoom : Process → Type 0
HasRoom s = unsent s.subscriber + length s.queue ≤ s.capacity

-- How many moves a goroutine has before it, at most. A query counts for three until it is taken, and
-- for one more until it is sent.
abbrev web_moves : Routine (Unit {0}) → ℕ
web_moves (running u) = 1
web_moves (failing e) = 1
web_moves exited = 0

abbrev checker_moves : Routine Checking → ℕ
checker_moves (running starting) = 0
checker_moves (running (checking n)) = n + 1
checker_moves (failing e) = 1
checker_moves exited = 0

abbrev subscriber_moves : Routine Subscribing → ℕ
subscriber_moves (running fetching) = 2
subscriber_moves (running (sending due)) = 4 * length due + 1
subscriber_moves (failing e) = 1
subscriber_moves exited = 0

abbrev relayer_moves : Routine Relaying → ℕ
relayer_moves (running idle) = 1
relayer_moves (running (processing q)) = 3
relayer_moves (failing e) = 1
relayer_moves exited = 0

abbrev storage_moves : Bool → ℕ
storage_moves true = 1
storage_moves false = 0

abbrev measure : Process → ℕ
measure s =
    web_moves s.web
    + checker_moves s.checker
    + subscriber_moves s.subscriber
    + 3 * length s.queue
    + relayer_moves s.relayer
    + storage_moves s.storage_open

-- whether the checker has read the pending transactions, of which it may find any number
abbrev has_read : Routine Checking → Bool
has_read (running starting) = false
has_read (running (checking n)) = true
has_read (failing e) = true
has_read exited = true

-- A cancelled process with room.
record IsEnding (s : Process) : Type 0 where
  is_cancelled : s.cancelled ≡ true
  has_room : HasRoom s

Move-IsEnding : {s t : Process} → Move s t → IsEnding s → IsEnding t
Move-IsEnding (web_cancel e p) h = ground arith
Move-IsEnding (web_stop p c) h = ground arith
Move-IsEnding (read_pending n p) h = ground arith
Move-IsEnding (read_error e p) h = ground arith
Move-IsEnding (checked n p) h = ground arith
Move-IsEnding (checker_cancel e p) h = ground arith
Move-IsEnding (checker_stop p c) h = ground arith
Move-IsEnding (fetched p) h = ground arith
Move-IsEnding (fetch_error e p) h = ground arith
Move-IsEnding {s} (send q due p l) h = ground (arith, length-append s.queue (q ∷ []))
Move-IsEnding (hand q due p r i) h = ground arith
Move-IsEnding (subscriber_cancel e p) h = ground arith
Move-IsEnding (subscriber_stop p c) h = ground arith
Move-IsEnding (take q rest p r) h = ground arith
Move-IsEnding (processed q p) h = ground arith
Move-IsEnding (critical q e p) h = ground arith
Move-IsEnding (relayer_cancel e p) h = ground arith
Move-IsEnding (relayer_stop p c) h = ground arith
Move-IsEnding (close w c b r o) h = ground arith

-- A move lowers the measure, or it is the checker's that reads.
Lowers : Process → Process → Type 0
Lowers s t =
    ((measure t < measure s) × (has_read t.checker ≡ has_read s.checker))
    ⊎ ((has_read s.checker ≡ false) × (has_read t.checker ≡ true))

Move-Lowers : {s t : Process} → Move s t → Lowers s t
unfolding Lowers
Move-Lowers (web_cancel e p) = inl (ground arith)
Move-Lowers (web_stop p c) = inl (ground arith)
Move-Lowers (read_pending n p) = inr (ground arith)
Move-Lowers (read_error e p) = inr (ground arith)
Move-Lowers (checked n p) = inl (ground arith)
Move-Lowers (checker_cancel e p) = inl (ground arith)
Move-Lowers (checker_stop p c) = inl (ground arith)
Move-Lowers (fetched p) = inl (ground arith)
Move-Lowers (fetch_error e p) = inl (ground arith)
Move-Lowers {s} (send q due p l) = inl (ground (arith, length-append s.queue (q ∷ [])))
Move-Lowers (hand q due p r i) = inl (ground arith)
Move-Lowers (subscriber_cancel e p) = inl (ground arith)
Move-Lowers (subscriber_stop p c) = inl (ground arith)
Move-Lowers (take q rest p r) = inl (ground arith)
Move-Lowers (processed q p) = inl (ground arith)
Move-Lowers (critical q e p) = inl (ground arith)
Move-Lowers (relayer_cancel e p) = inl (ground arith)
Move-Lowers (relayer_stop p c) = inl (ground arith)
Move-Lowers (close w c b r o) = inl (ground arith)

abbrev CanMove : Process → Type 0
CanMove s = (s.storage_open ≡ false) ⊎ ((t : Process) × Move s t)

module _ (s : Process) (h : IsEnding s) where
  open h use {is_cancelled, has_room}

  web_progress : (r : Routine (Unit {0})) → s.web ≡ r → (r ≡ exited) ⊎ CanMove s
  web_progress (running u) e = inr (inr (_, web_stop e is_cancelled))
  web_progress (failing x) e = inr (inr (_, web_cancel x e))
  web_progress exited e = inl refl

  checker_progress : (r : Routine Checking) → s.checker ≡ r → (r ≡ exited) ⊎ CanMove s
  checker_progress (running starting) e = inr (inr (_, read_pending 0 e))
  checker_progress (running (checking zero)) e = inr (inr (_, checker_stop e is_cancelled))
  checker_progress (running (checking (suc n))) e = inr (inr (_, checked n e))
  checker_progress (failing x) e = inr (inr (_, checker_cancel x e))
  checker_progress exited e = inl refl

  subscriber_progress : (r : Routine Subscribing) → s.subscriber ≡ r → (r ≡ exited) ⊎ CanMove s
  subscriber_progress (running fetching) e = inr (inr (_, fetched e))
  subscriber_progress (running (sending [])) e = inr (inr (_, subscriber_stop e is_cancelled))
  subscriber_progress (running (sending (q ∷ due))) e =
      inr (inr (_, send q due e (ground (arith, has_room))))
  subscriber_progress (failing x) e = inr (inr (_, subscriber_cancel x e))
  subscriber_progress exited e = inl refl

  relayer_progress : (r : Routine Relaying) → s.relayer ≡ r → (r ≡ exited) ⊎ CanMove s
  relayer_progress (running idle) e = inr (inr (_, relayer_stop e is_cancelled))
  relayer_progress (running (processing q)) e = inr (inr (_, processed q e))
  relayer_progress (failing x) e = inr (inr (_, relayer_cancel x e))
  relayer_progress exited e = inl refl

  close_progress :
      s.web ≡ exited → s.checker ≡ exited → s.subscriber ≡ exited → s.relayer ≡ exited → CanMove s
  close_progress w c b r = elim (Bool-cases s.storage_open) [
    | inl o ↦ inr (_, close w c b r o)
    | inr n ↦ inl n
  ]

  progress : CanMove s
  progress = elim (web_progress s.web refl) [
    | inr m ↦ m
    | inl w ↦ elim (checker_progress s.checker refl) [
      | inr m ↦ m
      | inl c ↦ elim (subscriber_progress s.subscriber refl) [
        | inr m ↦ m
        | inl b ↦ elim (relayer_progress s.relayer refl) [
          | inr m ↦ m
          | inl r ↦ close_progress w c b r
        ]
      ]
    ]
  ]

-- A process ends after a move, if it does by a smaller measure, and after the checker's reading.
Ends-move :
    (s t : Process)
    → Move s t
    → ((measure t < measure s) → has_read t.checker ≡ has_read s.checker → Ends t)
    → (has_read s.checker ≡ false → has_read t.checker ≡ true → Ends t)
    → Ends t
unfolding Lowers
Ends-move s t mv smaller read = elim (Move-Lowers mv) [
  | inl (m, same) ↦ smaller m same
  | inr (before, after) ↦ read before after
]

Ends-read : (n : ℕ) (s : Process) → measure s < n → has_read s.checker ≡ true → IsEnding s → Ends s
Ends-read zero s m r h = absurd (omega (arith, m))
Ends-read (suc n) s m r h = ends (progress s h) λ t mv.
    Ends-move s t mv (λ l same. Ends-read n t (omega (arith, l, m)) (same ∙ r) (Move-IsEnding mv h))
      (λ before _. cc)

Ends-any : (n : ℕ) (s : Process) → measure s < n → IsEnding s → Ends s
Ends-any zero s m h = absurd (omega (arith, m))
Ends-any (suc n) s m h = ends (progress s h) λ t mv.
    Ends-move s t mv (λ l _. Ends-any n t (omega (arith, l, m)) (Move-IsEnding mv h))
      (λ _ after. Ends-read (suc (measure t)) t (omega arith) after (Move-IsEnding mv h))

-- When the context is cancelled, nothing more arrives, and the queue has room for the queries that
-- the subscriber still sends, the process ends: until the storage is closed it can always move,
-- and no sequence of its moves is infinite.
pub shutdown-Ends : (s : Process) → s.cancelled ≡ true → HasRoom s → Ends s
shutdown-Ends s c room =
    Ends-any (suc (measure s)) s (omega arith) (record { is_cancelled = c; has_room = room })

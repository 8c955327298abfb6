-- ===== src/Lamport/Causal.antt =====
-- The clock condition of internal/lamport/clock.go: timestamps grow along cause and effect.
use mi_desbloqueio_do_estrei.Common.{◌≡◌, arith, if◌then◌else◌}
use mi_desbloqueio_do_estrei.Common.Int.{
  ℤ, ltb_ℤ, suc_ℤ, ◌<ℤ◌, IsInt64, min_int64, max_int64, wrap_int64_id, wrap_int64,
}
use mi_desbloqueio_do_estrei.Lamport.{Clock, tick, update, get}

-- `max(local, received) + 1`, the rule in the comment of `Update`.
abbrev pub lamport_rule : ℤ → ℤ → ℤ
lamport_rule a b = suc_ℤ (if ltb_ℤ a b then b else a)

-- Below the greatest int64, Update follows the rule, keeps what it returns, and is later than both.
pub update_lem :
    (c : Clock) (received : ℤ)
    → IsInt64 (get c)
    → IsInt64 received
    → get c <ℤ max_int64
    → received <ℤ max_int64
    → ((update c received).1 ≡ lamport_rule (get c) received)
      × (get (update c received).0 ≡ (update c received).1)
      × (get c <ℤ (update c received).1)
      × (received <ℤ (update c received).1)
unfolding update get
update_lem c received h g p q = ground (arith, wrap_int64_id (lamport_rule c.value received))

pub tick_lem :
    (c : Clock)
    → IsInt64 (get c)
    → get c <ℤ max_int64
    → (get c <ℤ (tick c).1) × (get (tick c).0 ≡ (tick c).1)
unfolding tick get
tick_lem c h p = ground (arith, wrap_int64_id (suc_ℤ c.value))

-- `Event c t c'`: a node with the clock `c` stamps an event of its own, or the receipt of a message, with
-- `t`, and has the clock `c'` then. No clock and no message has reached the greatest int64.
pub data Event : Clock → ℤ → Clock → Type 0 where
  acts : (c : Clock) → IsInt64 (get c) → get c <ℤ max_int64 → Event c (tick c).1 (tick c).0
  hears :
      (c : Clock) (received : ℤ)
      → IsInt64 (get c)
      → IsInt64 received
      → get c <ℤ max_int64
      → received <ℤ max_int64
      → Event c (update c received).1 (update c received).0

-- `Later c t`: a node with the clock `c` stamps some event after that with `t`.
pub data Later : Clock → ℤ → Type 0 where
  next : {c c' : Clock} {t : ℤ} → Event c t c' → Later c t
  then_on : {c c' : Clock} {s t : ℤ} → Event c s c' → Later c' t → Later c t

-- `Causes s t`: an event with timestamp `s` comes before one with timestamp `t`. The second is a
-- later event of the same node, of either kind, or the receipt of a message stamped `s`.
pub data Causes : ℤ → ℤ → Type 0 where
  same_node : {c c' : Clock} {s t : ℤ} → Event c s c' → Later c' t → Causes s t
  message :
      {s : ℤ} (c : Clock)
      → IsInt64 (get c)
      → IsInt64 s
      → get c <ℤ max_int64
      → s <ℤ max_int64
      → Causes s (update c s).1
  follow : {s t u : ℤ} → Causes s t → Causes t u → Causes s u

Event-lt : {c c' : Clock} {t : ℤ} → Event c t c' → (get c <ℤ t) × (get c' ≡ t)
Event-lt (acts c h p) = tick_lem c h p
Event-lt (hears c r h g p q) = let (rule, same, own, other) = update_lem c r h g p q in (own, same)

Later-lt : {c : Clock} {t : ℤ} → Later c t → get c <ℤ t
Later-lt (next e) = (Event-lt e).0
Later-lt (then_on e l) = let (a, b) = Event-lt e in let d = Later-lt l in ground (arith, a, b, d)

-- Whatever chain of events and messages leads from one event to another, over any nodes, the later event
-- has the greater timestamp, as long as no clock and no message on the way has reached the greatest int64.
pub Causes-lt : {s t : ℤ} → Causes s t → s <ℤ t
Causes-lt (same_node e l) = let (a, b) = Event-lt e in let d = Later-lt l in ground (arith, a, b, d)
Causes-lt {s} (message c h g p q) = (update_lem c s h g p q).3
Causes-lt (follow a b) = omega (arith, Causes-lt a, Causes-lt b)

-- A message stamped with the greatest int64 sends the clock of its receiver to the least one.
pub update-max : (c : Clock) → IsInt64 (get c) → get (update c max_int64).0 ≡ min_int64
unfolding update get wrap_int64
update-max c h = ground arith

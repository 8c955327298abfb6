-- ===== src/System/Tasks.antt =====
-- The goroutines of a base that hold the lock on a request: those that wait for its votes, and those
-- whose drone has been sent.
use mi_desbloqueio_do_estrei.Common.{
  ℕ, zero, suc, ◌+◌, ◌≤◌, ◌≡◌, subst, String, Bool, true, false, Option, some, List, [], ◌∷◌, ◌++◌,
  All, count, get_elem?, if◌then◌else◌, ◌==◌, arith,
}
use mi_desbloqueio_do_estrei.Models.{Base, Message}
use mi_desbloqueio_do_estrei.BaseNode.{
  Node, Task, gossip_queue_add, gossip_queue_update, propagate_drone_info, broadcast_lock_release,
  send_full_queue_sync, balance_drones, dispatch, await_votes, await_drone,
}
use mi_desbloqueio_do_estrei.BaseNode.Step.{without}

abbrev pub is_flight : String → Task → Bool
is_flight id (await_drone r d) = r.id == id
is_flight id _ = false

abbrev pub holds : String → Task → Bool
holds id (await_votes r d peers) = r.id == id
holds id (await_drone r d) = r.id == id
holds id _ = false

-- How many orders a base has given for a request of which it awaits the drone.
abbrev pub flights : String → Node → ℕ
flights id n = count (is_flight id) n.started

-- Whether the drone has said yes to its order for the request, when the goroutine goes on.
abbrev pub accepts : String → Option Task → Option Message → ℕ
accepts id (some (await_drone r d)) (some m) = if r.id == id then 1 else 0
accepts id _ _ = 0

abbrev pub busy : String → Node → ℕ
busy id n = count (holds id) n.started

-- A goroutine that waits for votes has asked these peers.
abbrev pub Asked : List Base → Task → Type 0
Asked online (await_votes r d peers) = peers ≡ online
Asked online _ = Unit

is_flight-holds : (id : String) (t : Task) → is_flight id t ≡ true → holds id t ≡ true
is_flight-holds id (gossip_queue_add r) h = h
is_flight-holds id (gossip_queue_update r) h = h
is_flight-holds id (propagate_drone_info d) h = h
is_flight-holds id (broadcast_lock_release i) h = h
is_flight-holds id (send_full_queue_sync a) h = h
is_flight-holds id balance_drones h = h
is_flight-holds id (dispatch r d) h = h
is_flight-holds id (await_votes r d peers) h = absurd (ground (arith, h))
is_flight-holds id (await_drone r d) h = h

flights_from : (id : String) (ts : List Task) → count (is_flight id) ts ≤ count (holds id) ts
flights_from id [] = omega arith
flights_from id (t ∷ ts) = ground (arith, flights_from id ts, is_flight-holds id t)

pub flights-le-busy : (id : String) (n : Node) → flights id n ≤ busy id n
flights-le-busy id n = flights_from id n.started

pub count-without :
    (p : Task → Bool) (ts : List Task) (i : ℕ) (t : Task)
    → get_elem? ts i ≡ some t
    → count p (without i ts) + (if p t then 1 else 0) ≡ count p ts
count-without p [] i t h = absurd (ground (arith, h))
count-without p (u ∷ ts) zero t h = ground (arith, h)
count-without p (u ∷ ts) (suc i) t h = omega (arith, count-without p ts i t h)

module _ (P : Task → Type 0) where
  pub All-without : (ts : List Task) (i : ℕ) → All P ts → All P (without i ts)
  All-without [] i a = a
  All-without (t ∷ ts) zero a = a.1
  All-without (t ∷ ts) (suc i) a = (a.0, All-without ts i a.1)

  pub All-append_one : (ts : List Task) (t : Task) → All P ts → P t → All P (ts ++ t ∷ [])
  All-append_one [] t a h = (h, tt)
  All-append_one (u ∷ ts) t a h = (a.0, All-append_one ts t a.1 h)

  pub All-get_elem? : (ts : List Task) (i : ℕ) (t : Task) → get_elem? ts i ≡ some t → All P ts → P t
  All-get_elem? [] i t h a = absurd (ground (arith, h))
  All-get_elem? (u ∷ ts) zero t h a = subst P (ground (arith, h)) a.0
  All-get_elem? (u ∷ ts) (suc i) t h a = All-get_elem? ts i t h a.1

-- ===== src/BaseNode/Dispatcher/Votes.antt =====
-- The goroutine of tryDispatch and acquireLock in cmd/base/dispatcher.go: when the drone is sent, and
-- what is undone when it is not.
use mi_desbloqueio_do_estrei.Common.{
  ℕ, ◌+◌, ◌≤◌, ◌≡◌, refl, ap, ◌∙◌, String, Bool, true, false, not, ◌&&◌, Option, none, some,
  update_first, List, [], ◌∷◌, map, length, count, count-append, if◌then◌else◌, ◌==◌, nat_eq, arith,
  inl, inr, Bool-cases, Option-cases, eq_refl,
}
use mi_desbloqueio_do_estrei.Common.Assoc.{lookup, lookup-delete, lookup-modify, map_option}
use mi_desbloqueio_do_estrei.Models.{
  Request, Drone, Base, Message, status_pending, status_assigned, msg_dispatch, drone_idle,
}
use mi_desbloqueio_do_estrei.Queue
use mi_desbloqueio_do_estrei.Queue.{has_id, update_status}
use mi_desbloqueio_do_estrei.Queue.Assignment.{
  FreeAt, update_status_undo, taken_at, update_status_assign,
}
use mi_desbloqueio_do_estrei.State.{
  update_drone_status, BaseState, try_lock, is_locked, release_lock, online_peers, get_drone,
}
use mi_desbloqueio_do_estrei.State.Locks.{holder, try_lock-held, try_lock_lem, release_lock_lem}
use mi_desbloqueio_do_estrei.BaseNode.{
  Config, Json, Node, Sent, to, reply, heartbeat_to, go, send, broadcast, stamped, announce,
}
use mi_desbloqueio_do_estrei.BaseNode.Dispatcher.{
  reserve, release_everywhere, give_up, gossip_update_now, send_dispatch, ask_votes, ask_or_send,
  start_dispatch, granted_by, granted, end_votes, end_dispatch,
}

abbrev is_dispatch : Sent → Bool
is_dispatch (to addr msg) = msg.type == msg_dispatch
is_dispatch (reply msg) = msg.type == msg_dispatch
is_dispatch (heartbeat_to addr msg) = msg.type == msg_dispatch

-- How many orders to fly a base has sent.
abbrev pub dispatches : Node → ℕ
dispatches n = count is_dispatch n.sent

pub online_peers-try_lock :
    (s : BaseState) (id base : String) → online_peers (try_lock s id base).0 ≡ online_peers s
unfolding try_lock online_peers
online_peers-try_lock s id base = elim (Option-cases (lookup id s.locks)) [
  | inl e ↦ rw (try_lock, e) refl
  | inr (b, e) ↦ rw (try_lock, e) refl
]

holder-freed :
    (now : ℕ) (s : BaseState) (id drone : String)
    → holder (update_drone_status now (release_lock s id) drone drone_idle) id ≡ none
unfolding update_drone_status release_lock holder
holder-freed now s id drone = ground (arith, lookup-delete id id s.locks, eq_refl id)

-- The drone once it has been marked as idle.
abbrev pub idle_since : ℕ → Drone → Drone
idle_since now d = record d { status = drone_idle; last_seen = now }

drone-freed :
    (now : ℕ) (s : BaseState) (id drone : String)
    → get_drone (update_drone_status now (release_lock s id) drone drone_idle) drone
      ≡ map_option (idle_since now) (get_drone s drone)
unfolding update_drone_status release_lock get_drone
drone-freed now s id drone =
    lookup-modify drone drone (idle_since now) s.drones ∙ rw (eq_refl drone) refl

drone-freed_first :
    (now : ℕ) (s : BaseState) (id drone : String)
    → get_drone (release_lock (update_drone_status now s drone drone_idle) id) drone
      ≡ map_option (idle_since now) (get_drone s drone)
unfolding update_drone_status release_lock get_drone
drone-freed_first now s id drone =
    lookup-modify drone drone (idle_since now) s.drones ∙ rw (eq_refl drone) refl

-- No order is among the copies of a message of another type.
not_dispatch :
    (msg : Message) (addrs : List String)
    → (msg.type == msg_dispatch) ≡ false
    → count is_dispatch (map (λ a. to a msg) addrs) ≡ 0
not_dispatch msg [] h = refl
not_dispatch msg (a ∷ addrs) h = ground (arith, not_dispatch msg addrs h)

module _ (json : Json) (cfg : Config) where
  -- Every peer asked has answered, with a reply that can be read and grants the lock.
  abbrev pub unanimous : List Base → List (Option Message) → Bool
  unanimous [] votes = true
  unanimous (p ∷ peers) [] = false
  unanimous (p ∷ peers) (v ∷ votes) = granted_by json cfg v && unanimous peers votes

  granted_le :
      (peers : List Base) (votes : List (Option Message))
      → granted json cfg peers votes ≤ length peers
  unfolding granted
  granted_le [] votes = omega arith
  granted_le (p ∷ peers) [] = omega arith
  granted_le (p ∷ peers) (v ∷ votes) = ground (arith, granted_le peers votes)

  pub granted-eq-length :
      (peers : List Base) (votes : List (Option Message))
      → nat_eq (granted json cfg peers votes) (length peers) ≡ unanimous peers votes
  unfolding granted
  granted-eq-length [] votes = ground arith
  granted-eq-length (p ∷ peers) [] = ground arith
  granted-eq-length (p ∷ peers) (v ∷ votes) = elim (Bool-cases (granted_by json cfg v)) [
    | inl e ↦ rw e (ground (arith, granted-eq-length peers votes, granted_le peers votes))
    | inr e ↦ rw e (ground (arith, granted-eq-length peers votes, granted_le peers votes))
  ]

  dispatches-send_dispatch :
      (n : Node) (r : Request) (d : Drone)
      → dispatches (send_dispatch json cfg n r d) ≡ dispatches n + 1
  unfolding send_dispatch send stamped go
  dispatches-send_dispatch n r d = count-append is_dispatch n.sent _

  dispatches-ask_votes :
      (n : Node) (r : Request) (d : Drone) (peers : List Base)
      → dispatches (ask_votes json cfg n r d peers) ≡ dispatches n
  unfolding ask_votes broadcast go
  dispatches-ask_votes n r d peers = grind (arith, count-append is_dispatch n.sent, not_dispatch)

  dispatches-release_everywhere :
      (n : Node) (id : String) → dispatches (release_everywhere json cfg n id) ≡ dispatches n
  unfolding release_everywhere announce stamped broadcast
  dispatches-release_everywhere n id = grind (arith, count-append is_dispatch n.sent, not_dispatch)

  dispatches-ask_or_send :
      (n : Node) (r : Request) (d : Drone) (peers : List Base)
      → dispatches (ask_or_send json cfg n r d peers)
        ≡ dispatches n + (if nat_eq (length peers) 0 then 1 else 0)
  unfolding ask_or_send
  dispatches-ask_or_send n r d [] = dispatches-send_dispatch n r d
  dispatches-ask_or_send n r d (p ∷ peers) = ground (arith, dispatches-ask_votes n r d (p ∷ peers))

  -- The goroutine sends the order at once exactly if this base could take the lock and no other base is
  -- online.
  pub start_dispatch_lem :
      (now : ℕ) (n : Node) (r : Request) (d : Drone)
      → dispatches (start_dispatch json cfg now n r d)
        ≡ dispatches n
          + (if not (is_locked n.state r.id) && nat_eq (length (online_peers n.state)) 0
              then 1
              else 0)
  unfolding start_dispatch give_up
  start_dispatch_lem now n r d = elim (Bool-cases (is_locked n.state r.id)) [
    | inl e ↦ rw (try_lock-held n.state r.id cfg.base_id e, e) (omega arith)
    | inr e ↦
        let (s, won) = try_lock n.state r.id cfg.base_id in
        let taken = (try_lock_lem n.state r.id cfg.base_id r.id).0 in
        rw (taken, e)
          (dispatches-ask_or_send (record n { state = s }) r d (online_peers s)
            ∙ ap (λ l. dispatches n + (if nat_eq (length l) 0 then 1 else 0))
                (online_peers-try_lock n.state r.id cfg.base_id))
  ]

  -- After the votes the order is sent exactly if every peer that was asked granted the lock. If not,
  -- this base gives the lock up and its drone is idle from then on; else both stay as they are.
  pub end_votes_lem :
      (now : ℕ) (n : Node) (r : Request) (d : Drone) (peers : List Base)
      (votes : List (Option Message))
      → let n' = end_votes json cfg now n r d peers votes in
        (dispatches n' ≡ dispatches n + (if unanimous peers votes then 1 else 0))
        × (holder n'.state r.id ≡ (if unanimous peers votes then holder n.state r.id else none))
        × (get_drone n'.state d.id ≡ (
            if unanimous peers votes
            then get_drone n.state d.id
            else map_option (idle_since now) (get_drone n.state d.id)))
  unfolding end_votes
  end_votes_lem now n r d peers votes =
      rw (granted-eq-length peers votes) (elim (Bool-cases (unanimous peers votes)) [
        | inl e ↦ rw e (dispatches-send_dispatch n r d, refl, refl)
        | inr e ↦ rw e (
          ground (
            arith,
            dispatches-release_everywhere (record n { state = release_lock n.state r.id }) r.id,
          ),
          holder-freed now n.state r.id d.id,
          drone-freed now n.state r.id d.id,
        )
      ])

  ask_or_send-pq :
      (n : Node) (r : Request) (d : Drone) (peers : List Base)
      → (ask_or_send json cfg n r d peers).pq ≡ n.pq
  unfolding ask_or_send send_dispatch ask_votes stamped send broadcast go
  ask_or_send-pq n r d [] = refl
  ask_or_send-pq n r d (p ∷ peers) = refl

  module _ (now later : ℕ) (n : Node) (r : Request) (d : Drone) (free : FreeAt r.id n.pq.heap) where
    undone :
        (q : Queue.PriorityQueue)
        → q ≡ (reserve cfg now n r d).pq
        → (update_status later q r.id status_pending "" "").0 ≡ n.pq
    unfolding reserve go
    undone q h = rw h (update_status_undo now later n.pq r.id cfg.base_id d.id free)

    handed_over :
        (q : Queue.PriorityQueue)
        → q ≡ (reserve cfg now n r d).pq
        → (update_status later q r.id status_assigned cfg.base_id d.id).0 ≡ record n.pq {
          heap = update_first (has_id r.id) (taken_at later cfg.base_id d.id) n.pq.heap;
        }
    unfolding reserve go
    handed_over q h = rw h (update_status_assign now later n.pq r.id cfg.base_id d.id free)

    -- A request that no one held is set aside, and nothing else happens to the queue until the dispatch
    -- goes on. If it fails, since the lock is held already, or since not every peer that was asked grants
    -- it, or since the drone does not answer, the queue is again as it was before; in the last case this
    -- base does not hold the lock any more, and the drone is idle again. If the lock is taken, and if all
    -- peers grant it, the queue stays as it is; if the drone answers, the request is assigned to it in
    -- the queue, and the lock and the drone stay as they are.
    pub failed_dispatch_lem :
        (m : Node) (peers : List Base) (votes : List (Option Message)) (ack : Message)
        → m.pq ≡ (reserve cfg now n r d).pq
        → ((start_dispatch json cfg later m r d).pq
            ≡ (if is_locked m.state r.id then n.pq else m.pq))
          × ((end_votes json cfg later m r d peers votes).pq
              ≡ (if unanimous peers votes then m.pq else n.pq))
          × ((end_dispatch json cfg later m r d none).pq ≡ n.pq)
          × (holder (end_dispatch json cfg later m r d none).state r.id ≡ none)
          × (get_drone (end_dispatch json cfg later m r d none).state d.id
              ≡ map_option (idle_since later) (get_drone m.state d.id))
          × ((end_dispatch json cfg later m r d (some ack)).pq ≡ record n.pq {
            heap = update_first (has_id r.id) (taken_at later cfg.base_id d.id) n.pq.heap;
          })
          × (holder (end_dispatch json cfg later m r d (some ack)).state r.id ≡ holder m.state r.id)
          × (get_drone (end_dispatch json cfg later m r d (some ack)).state d.id
              ≡ get_drone m.state d.id)
    unfolding start_dispatch end_votes end_dispatch give_up release_everywhere announce stamped
        broadcast send_dispatch send go gossip_update_now
    failed_dispatch_lem m peers votes ack h = (
      elim (Bool-cases (is_locked m.state r.id)) [
        | inl l ↦ rw (try_lock-held m.state r.id cfg.base_id l, l) (undone m.pq h)
        | inr l ↦
            rw ((try_lock_lem m.state r.id cfg.base_id r.id).0, l)
              (ask_or_send-pq (record m { state = (try_lock m.state r.id cfg.base_id).0 }) r d
                (online_peers (try_lock m.state r.id cfg.base_id).0))
      ],
      rw (granted-eq-length peers votes) (elim (Bool-cases (unanimous peers votes)) [
        | inl u ↦ rw u refl
        | inr u ↦ rw u (undone m.pq h)
      ]),
      undone m.pq h,
      release_lock_lem (update_drone_status later m.state d.id drone_idle) r.id r.id
          ∙ rw (eq_refl r.id) refl,
      drone-freed_first later m.state r.id d.id,
      handed_over m.pq h,
      refl,
      refl,
    )

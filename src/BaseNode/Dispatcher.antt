-- ===== src/BaseNode/Dispatcher.antt =====
-- cmd/base/dispatcher.go: a pending request and an idle drone are set aside, the other bases are
-- asked for the lock, and the drone is sent. Each function runs up to the next wait for the network.
pub mod Reserve
pub mod Votes
pub mod Release
use mi_desbloqueio_do_estrei.Common.{
  ℕ, zero, suc, ◌+◌, String, Bool, true, false, not, ◌&&◌, ◌||◌, Option, none, some, List, [], ◌∷◌,
  ◌++◌, length, map, if◌then◌else◌, ◌==◌, nat_eq,
}
use mi_desbloqueio_do_estrei.Common.Int.{ℤ, pos}
use mi_desbloqueio_do_estrei.Models.{
  Request, Drone, Base, Message, status_pending, status_locked, status_assigned, drone_idle,
  drone_busy, msg_lock_release, msg_dispatch, msg_lock_request, msg_queue_update,
}
use mi_desbloqueio_do_estrei.Lamport
use mi_desbloqueio_do_estrei.Queue
use mi_desbloqueio_do_estrei.State
use mi_desbloqueio_do_estrei.BaseNode.{
  Config, Json, Node, Task, dispatch, await_votes, await_drone, Sent, to, go, send, broadcast,
  stamped, announce,
}

unfoldable pub sector_coord_x : String → ℤ
sector_coord_x id =
    if id == "A"
    then pos 10
    else if id == "B"
    then pos 30
    else if id == "C"
    then pos 10
    else if id == "D"
    then pos 30
    else pos 20

unfoldable pub sector_coord_y : String → ℤ
sector_coord_y id =
    if id == "A"
    then pos 10
    else if id == "B"
    then pos 10
    else if id == "C"
    then pos 30
    else if id == "D"
    then pos 30
    else pos 20

-- tryDispatch after its two choices: the request and the drone are set aside.
unfoldable pub reserve : Config → ℕ → Node → Request → Drone → Node
unfolding go
reserve cfg now n req drone =
    go
      (record n {
        pq = (Queue.update_status now n.pq req.id status_locked cfg.base_id drone.id).0;
        state = State.update_drone_status now n.state drone.id drone_busy;
      })
      (dispatch req drone)

-- With the drone that idleDrone found.
unfoldable pub try_drone : Config → ℕ → Node → Request → Option Drone → Node
unfolding reserve
try_drone cfg now n req none = n
try_drone cfg now n req (some drone) =
    if Queue.is_drone_assigned n.pq drone.id then n else reserve cfg now n req drone

-- With the request that Peek found.
unfoldable pub try_request : Config → ℕ → ℕ → Node → Option Request → Node
unfolding try_drone
try_request cfg now choice n none = n
try_request cfg now choice n (some req) =
    if not (req.status == status_pending)
    then n
    else try_drone cfg now n req (State.idle_drone choice n.state cfg.base_id)

unfoldable pub try_dispatch : Config → ℕ → ℕ → Node → Node
unfolding try_request
try_dispatch cfg now choice n = try_request cfg now choice n (Queue.peek n.pq)

module _ (json : Json) (cfg : Config) where
  -- The body of broadcastLockRelease.
  unfoldable pub release_everywhere : Node → String → Node
  unfolding announce
  release_everywhere n req_id = announce cfg n cfg.peer_gossip msg_lock_release (
      json.put_lock_request
        (record { request_id = req_id; base_id = cfg.base_id; lamport_ts = pos 0 }))

  -- The request goes back to the queue and the drone is free.
  unfoldable pub give_up : ℕ → Node → Request → Drone → Node
  give_up now n r d = record n {
    state = State.update_drone_status now n.state d.id drone_idle;
    pq = (Queue.update_status now n.pq r.id status_pending "" "").0;
  }

  -- The lock is held: the drone is told, and its answer awaited.
  unfoldable pub send_dispatch : Node → Request → Drone → Node
  unfolding stamped send go
  send_dispatch n r d =
      let (n1, msg) = stamped cfg n msg_dispatch (
        json.put_dispatch (record {
          request_id = r.id;
          sector_id = r.sector_id;
          target_x = sector_coord_x r.sector_id;
          target_y = sector_coord_y r.sector_id;
          description = r.description;
          priority = r.priority;
        })) in
      go (send n1 (to d.addr msg)) (await_drone r d)

  -- The request for the lock, stamped twice as in acquireLock, to every peer that is online.
  unfoldable pub ask_votes : Node → Request → Drone → List Base → Node
  unfolding broadcast go
  ask_votes n r d peers =
      let (c, ts) = Lamport.tick n.clk in
      let payload =
        json.put_lock_request
          (record { request_id = r.id; base_id = cfg.base_id; lamport_ts = ts }) in
      let msg : Message = record {
        type = msg_lock_request;
        sender_id = cfg.base_id;
        lamport_ts = Lamport.get c;
        payload = payload;
      } in
      go (broadcast (record n { clk = c }) (map (λ (p : Base). p.gossip_addr) peers) msg)
        (await_votes r d peers)

  unfoldable pub ask_or_send : Node → Request → Drone → List Base → Node
  unfolding send_dispatch ask_votes
  ask_or_send n r d [] = send_dispatch n r d
  ask_or_send n r d (p ∷ peers) = ask_votes n r d (p ∷ peers)

  -- The goroutine of tryDispatch, up to the votes.
  unfoldable pub start_dispatch : ℕ → Node → Request → Drone → Node
  unfolding give_up ask_or_send
  start_dispatch now n r d =
      let (s, locked) = State.try_lock n.state r.id cfg.base_id in
      if not locked
      then give_up now n r d
      else ask_or_send (record n { state = s }) r d (State.online_peers s)

  abbrev pub granted_by : Option Message → Bool
  granted_by none = false
  granted_by (some reply) = elim (json.get_lock_reply reply.payload) [
    | none ↦ false
    | some vote ↦ vote.granted
  ]

  -- `granted`: the peers whose answer came, could be read and says yes. `none` is an error.
  unfoldable pub granted : List Base → List (Option Message) → ℕ
  granted [] votes = 0
  granted (p ∷ peers) [] = 0
  granted (p ∷ peers) (v ∷ votes) = (if granted_by v then 1 else 0) + granted peers votes

  -- acquireLock after wg.Wait(), and what tryDispatch does with its result.
  unfoldable pub end_votes : ℕ → Node → Request → Drone → List Base → List (Option Message) → Node
  unfolding granted release_everywhere give_up send_dispatch
  end_votes now n r d peers votes =
      if nat_eq (granted peers votes) (length peers)
      then send_dispatch n r d
      else give_up now
          (release_everywhere (record n { state = State.release_lock n.state r.id }) r.id) r d

  -- gossipQueueUpdate, which servers.go defines.
  unfoldable pub gossip_update_now : Node → Request → Node
  unfolding announce
  gossip_update_now n req = announce cfg n cfg.peer_bases msg_queue_update (json.put_request req)

  -- After the drone's answer, or the lack of it.
  unfoldable pub end_dispatch : ℕ → Node → Request → Drone → Option Message → Node
  unfolding release_everywhere gossip_update_now
  end_dispatch now n r d none =
      let n1 : Node = record n {
        state = State.release_lock (State.update_drone_status now n.state d.id drone_idle) r.id;
      } in
      let n2 = release_everywhere n1 r.id in
      record n2 { pq = (Queue.update_status now n2.pq r.id status_pending "" "").0 }
  end_dispatch now n r d (some _) =
      gossip_update_now
        (record n { pq = (Queue.update_status now n.pq r.id status_assigned cfg.base_id d.id).0 })
        (record r { status = status_assigned; assigned_to = d.id })

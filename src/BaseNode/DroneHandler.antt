-- ===== src/BaseNode/DroneHandler.antt =====
-- cmd/base/drone_handler.go: what the drones tell their base. balanceDrones is in `Balance`.
pub mod Registration
use mi_desbloqueio_do_estrei.Common.{ℕ, String, Bool, Option, none, some, List, [], ◌∷◌, ◌++◌}
use mi_desbloqueio_do_estrei.Models.{
  Request, zero_request, Drone, drone_idle, Message, MissionDonePayload, RegisterPayload,
  DroneStatusPayload, status_done, msg_register, msg_drone_info,
}
use mi_desbloqueio_do_estrei.Queue
use mi_desbloqueio_do_estrei.State
use mi_desbloqueio_do_estrei.BaseNode.{
  Config, Json, Node, propagate_drone_info, broadcast_lock_release, gossip_queue_update, reply, go,
  send, stamped, announce,
}

-- `go propagateDroneInfo(d)`, if the drone is known.
unfoldable pub propagate_if : Node → Option Drone → Node
unfolding go
propagate_if n none = n
propagate_if n (some d) = go n (propagate_drone_info d)

-- handleDroneRegister, once its payload is read.
unfoldable pub register : Config → ℕ → Node → RegisterPayload → Node
unfolding stamped send go
register cfg now n reg =
    let drone : Drone = record {
      id = reg.drone_id;
      base_id = cfg.base_id;
      sector_id = cfg.sector_id;
      status = drone_idle;
      mission_desc = "";
      x = reg.x;
      y = reg.y;
      last_seen = now;
      addr = reg.addr;
    } in
    let n1 : Node = record n {
      state = State.register_drone n.state drone;
      pq = Queue.clear_drone_assignments n.pq drone.id;
    } in
    let (n2, msg) = stamped cfg n1 msg_register "" in
    go (send n2 (reply msg)) (propagate_drone_info drone)

-- handleMissionDone, once its payload is read.
unfoldable pub mission_done : Config → ℕ → Node → MissionDonePayload → Node
unfolding propagate_if go
mission_done cfg now n done =
    let s1 = State.update_drone_status now n.state done.drone_id drone_idle in
    let s2 = State.update_drone_mission_desc now s1 done.drone_id "" in
    let n1 = propagate_if (record n { state = s2 }) (State.get_drone s2 done.drone_id) in
    let q1 =
      (Queue.update_status now n1.pq done.request_id status_done cfg.base_id done.drone_id).0 in
    let n2 : Node = record n1 {
      pq = (Queue.remove q1 done.request_id).0;
      state = State.release_lock n1.state done.request_id;
    } in
    let n3 = go n2 (broadcast_lock_release done.request_id) in
    go n3 (
      gossip_queue_update (record zero_request {
        id = done.request_id;
        status = status_done;
        assigned_to = done.drone_id;
        locked_by = cfg.base_id;
      }))

-- handleDroneStatusUpdate, once its payload is read.
unfoldable pub drone_status_update : ℕ → Node → DroneStatusPayload → Node
unfolding propagate_if
drone_status_update now n update =
    let s = State.update_drone_mission_desc now n.state update.drone_id update.mission_desc in
    propagate_if (record n { state = s }) (State.get_drone s update.drone_id)

module _ (json : Json) (cfg : Config) where
  unfoldable pub handle_drone_register : ℕ → Node → Message → Node
  unfolding register
  handle_drone_register now n msg = elim (json.get_register msg.payload) [
    | none ↦ n
    | some reg ↦ register cfg now n reg
  ]

  unfoldable pub handle_mission_done : ℕ → Node → Message → Node
  unfolding mission_done
  handle_mission_done now n msg = elim (json.get_mission_done msg.payload) [
    | none ↦ n
    | some done ↦ mission_done cfg now n done
  ]

  unfoldable pub handle_drone_status_update : ℕ → Node → Message → Node
  unfolding drone_status_update
  handle_drone_status_update now n msg = elim (json.get_drone_status msg.payload) [
    | none ↦ n
    | some update ↦ drone_status_update now n update
  ]

  -- propagateDroneInfo, when its goroutine runs.
  unfoldable pub propagate_now : Node → Drone → Node
  unfolding announce
  propagate_now n drone = announce cfg n cfg.peer_bases msg_drone_info (json.put_drone drone)

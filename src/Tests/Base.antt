-- ===== src/Tests/Base.antt =====
-- A base: what it does on messages, timers and the answers of the network.
use mi_desbloqueio_do_estrei.Common.{
  ◌+◌, ◌≡◌, ◌⊎◌, refl, true, false, not, ◌&&◌, some, none, Option, List, [], ◌∷◌, count, length,
  nat_eq, if◌then◌else◌, to_lower,
}
use mi_desbloqueio_do_estrei.Common.Int.{pos}
use mi_desbloqueio_do_estrei.Common.Assoc.{lookup, map_option}
use mi_desbloqueio_do_estrei.Models.{
  Message, Drone, HeartbeatPayload, RegisterPayload, drone_idle, msg_new_request, msg_lock_reply,
  msg_lock_request, msg_mission_done,
}
use mi_desbloqueio_do_estrei.RequestHeap.Order.{IsHeap}
use mi_desbloqueio_do_estrei.Queue.{pending_len, is_drone_assigned, assigned_to}
use mi_desbloqueio_do_estrei.Queue.Op.{IsValid, IsFinished}
use mi_desbloqueio_do_estrei.State.{is_locked, online_peers, get_drone, is_idle_at, all_drones}
use mi_desbloqueio_do_estrei.State.Locks.{holder}
use mi_desbloqueio_do_estrei.BaseNode.Dispatcher.{
  reserve, try_drone, try_dispatch, start_dispatch, end_votes, end_dispatch,
}
use mi_desbloqueio_do_estrei.BaseNode.Dispatcher.Reserve.{
  IsBlocked, IsReserved, try_dispatch_lem, reserve_twice,
}
use mi_desbloqueio_do_estrei.BaseNode.Dispatcher.Votes.{
  dispatches, unanimous, idle_since, start_dispatch_lem, end_votes_lem, failed_dispatch_lem,
}
use mi_desbloqueio_do_estrei.BaseNode.DroneHandler.{register}
use mi_desbloqueio_do_estrei.BaseNode.DroneHandler.Registration.{register-IsStuck, retried, IsStuck}
use mi_desbloqueio_do_estrei.BaseNode.Heartbeat.{handle_drone_heartbeat}
use mi_desbloqueio_do_estrei.BaseNode.Balance.{alive_of, target_peer}
use mi_desbloqueio_do_estrei.BaseNode.Balance.Target.{IsChosen, target_peer_lem}
use mi_desbloqueio_do_estrei.BaseNode.Step.{
  Outcome, Event, main_conn, gossip_conn, dispatch_tick, health_tick, starvation_tick, task_runs,
  steps,
}
use mi_desbloqueio_do_estrei.BaseNode.Step.Invariant.{steps_sound, steps-IsFinished}
use mi_desbloqueio_do_estrei.Queue.Assignment.{taken_at}
use mi_desbloqueio_do_estrei.Queue.{has_id}
use mi_desbloqueio_do_estrei.Common.{update_first}
use mi_desbloqueio_do_estrei.Tests.Queue.{sample-IsValid, sample-IsHeap, r1-FreeAt}
use mi_desbloqueio_do_estrei.Tests.Samples.{
  urgent, ordinary, in_flight, sample, idle_one, busy_one, other_base, sample_state, sample_config,
  sample_json, sample_node, message,
}

abbrev granting : List (Option Message)
granting = some (message msg_lock_reply "granted") ∷ []

abbrev outcome : Outcome
outcome = record {
  now = 220;
  choice = 0;
  votes = granting;
  answer = some (message "STATUS_UPDATE" "");
}

-- A request arrives, another is dispatched and done, and the other base asks for a lock.
abbrev pub events : List Event
events =
    main_conn 200 (message msg_new_request "r4")
    ∷ dispatch_tick 210 0
    ∷ task_runs 1 outcome
    ∷ task_runs 1 outcome
    ∷ task_runs 1 outcome
    ∷ main_conn 230 (message msg_mission_done "r3")
    ∷ gossip_conn (message msg_lock_request "r2")
    ∷ health_tick 240 0
    ∷ starvation_tick 50000000000
    ∷ []

steps_sound_example :
    IsValid (steps sample_json sample_config sample_node events).pq
    × IsHeap (steps sample_json sample_config sample_node events).pq.heap
steps_sound_example =
    steps_sound sample_json sample_config sample_node events sample-IsValid sample-IsHeap

steps-IsFinished_example : IsFinished "r0" (steps sample_json sample_config sample_node events).pq
steps-IsFinished_example =
    steps-IsFinished sample_json sample_config sample_node "r0" events refl (refl, refl)

try_dispatch_lem_example :
    ((try_dispatch sample_config 200 0 sample_node ≡ sample_node)
      × IsBlocked sample_config 200 0 sample_node)
    ⊎ IsReserved sample_config 200 0 sample_node (try_dispatch sample_config 200 0 sample_node)
try_dispatch_lem_example = try_dispatch_lem sample_config 200 0 sample_node

start_dispatch_lem_example :
    dispatches (start_dispatch sample_json sample_config 220 sample_node urgent idle_one)
    ≡ dispatches sample_node
      + (if not (is_locked sample_node.state "r1")
            && nat_eq (length (online_peers sample_node.state)) 0
          then 1
          else 0)
start_dispatch_lem_example =
    start_dispatch_lem sample_json sample_config 220 sample_node urgent idle_one

end_votes_lem_example :
    let n' =
      end_votes sample_json sample_config 220 sample_node urgent idle_one
        (other_base ∷ [])
        granting in
    (dispatches n'
      ≡ dispatches sample_node
        + (if unanimous sample_json sample_config (other_base ∷ []) granting then 1 else 0))
    × (holder n'.state "r1" ≡ (
        if unanimous sample_json sample_config (other_base ∷ []) granting
        then holder sample_node.state "r1"
        else none))
    × (get_drone n'.state "d1" ≡ (
        if unanimous sample_json sample_config (other_base ∷ []) granting
        then get_drone sample_node.state "d1"
        else map_option (idle_since 220) (get_drone sample_node.state "d1")))
end_votes_lem_example =
    end_votes_lem sample_json sample_config 220 sample_node urgent idle_one (other_base ∷ [])
      granting

abbrev drone_ack : Message
drone_ack = message "STATUS_UPDATE" ""

failed_dispatch_lem_example :
    let m = reserve sample_config 200 sample_node urgent idle_one in
    ((start_dispatch sample_json sample_config 220 m urgent idle_one).pq
      ≡ (if is_locked m.state "r1" then sample else m.pq))
    × ((end_votes sample_json sample_config 220 m urgent idle_one (other_base ∷ []) granting).pq
        ≡ (if unanimous sample_json sample_config (other_base ∷ []) granting then m.pq else sample))
    × ((end_dispatch sample_json sample_config 220 m urgent idle_one none).pq ≡ sample)
    × (holder (end_dispatch sample_json sample_config 220 m urgent idle_one none).state "r1" ≡ none)
    × (get_drone (end_dispatch sample_json sample_config 220 m urgent idle_one none).state "d1"
        ≡ map_option (idle_since 220) (get_drone m.state "d1"))
    × ((end_dispatch sample_json sample_config 220 m urgent idle_one (some drone_ack)).pq
        ≡ record sample {
          heap = update_first (has_id "r1") (taken_at 220 "base-A" "d1") sample.heap;
        })
    × (holder
          (end_dispatch sample_json sample_config 220 m urgent idle_one (some drone_ack)).state
          "r1"
        ≡ holder m.state "r1")
    × (get_drone
          (end_dispatch sample_json sample_config 220 m urgent idle_one (some drone_ack)).state
          "d1"
        ≡ get_drone m.state "d1")
failed_dispatch_lem_example =
    failed_dispatch_lem sample_json sample_config 200 220 sample_node urgent idle_one r1-FreeAt
      (reserve sample_config 200 sample_node urgent idle_one) (other_base ∷ []) granting drone_ack
      refl

abbrev from_d1 : HeartbeatPayload
from_d1 = record {
  node_type = "drone";
  node_id = "d1";
  base_id = "base-A";
  sector_id = "A";
  gossip_addr = "";
  addr = "localhost:9001";
  status = drone_idle;
}

abbrev registration : RegisterPayload
registration = record { drone_id = "d2"; addr = "localhost:9002"; x = pos 0; y = pos 0 }

reserve_twice_example :
    let n' =
      handle_drone_heartbeat 210 (reserve sample_config 200 sample_node urgent idle_one) from_d1 in
    (again : Drone) × (get_drone n'.state "d1" ≡ some again)
    × (is_idle_at "base-A" again ≡ true)
    × (try_drone sample_config 210 n' ordinary (some again)
        ≡ reserve sample_config 210 n' ordinary again)
unfolding get_drone lookup is_drone_assigned
reserve_twice_example =
    reserve_twice sample_config 200 210 sample_node urgent ordinary idle_one from_d1 refl refl refl
      refl refl refl

register-IsStuck_example :
    let n' = register sample_config 200 sample_node registration in
    (is_drone_assigned n'.pq "d2" ≡ false)
    × (pending_len n'.pq
        ≡ pending_len sample_node.pq + count (assigned_to "d2") sample_node.pq.heap)
    × IsStuck in_flight n'
        (retried sample_json sample_config in_flight n' ((220, idle_one) ∷ (230, busy_one) ∷ []))
unfolding is_locked lookup
register-IsStuck_example =
    register-IsStuck sample_json sample_config 200 sample_node registration in_flight
      ((220, idle_one) ∷ (230, busy_one) ∷ []) refl

target_peer_lem_example :
    let drones = all_drones sample_state in
    IsChosen drones
      (to_lower "base-A")
      (alive_of drones "base-A")
      (other_base ∷ [])
      (target_peer sample_config drones (other_base ∷ []))
target_peer_lem_example = target_peer_lem sample_config (all_drones sample_state) (other_base ∷ [])

-- ===== src/BaseNode/Heartbeat.antt =====
-- cmd/base/heartbeat.go: what a base learns from heartbeats, the heartbeat it sends, and what it does
-- about those that fall silent. Times are in nanoseconds.
pub mod Health
pub mod Recovery
use mi_desbloqueio_do_estrei.Common.{
  ℕ, ◌+◌, String, Bool, true, not, ◌&&◌, none, some, List, [], ◌∷◌, ◌++◌, map, find?, ltb,
  if◌then◌else◌, ◌==◌, concat, to_lower, to_upper, trim_prefix,
}
use mi_desbloqueio_do_estrei.Common.Int.{ℤ, pos, negsuc}
use mi_desbloqueio_do_estrei.Models.{
  Request, Drone, drone_lost, Base, base_online, base_offline, Message, HeartbeatPayload,
  status_pending, msg_heartbeat,
}
use mi_desbloqueio_do_estrei.Lamport
use mi_desbloqueio_do_estrei.Queue
use mi_desbloqueio_do_estrei.State
use mi_desbloqueio_do_estrei.Alerts
use mi_desbloqueio_do_estrei.Alerts.{Manager}
use mi_desbloqueio_do_estrei.BaseNode.{
  Config, Json, Node, broadcast_lock_release, gossip_queue_update, send_full_queue_sync,
  heartbeat_to, go,
}
use mi_desbloqueio_do_estrei.BaseNode.Balance.{balance}

-- network.HeartbeatTimeout, and the age at which a lost drone is forgotten.
abbrev pub heartbeat_timeout : ℕ
heartbeat_timeout = 3000000000

abbrev pub forget_after : ℕ
forget_after = 15000000000

-- `needsSync`, from the peer with this ID, if there is one.
unfoldable pub needs_sync : List Base → String → Bool
needs_sync peers id = elim (find? (λ (p : Base). p.id == id) peers) [
  | none ↦ true
  | some p ↦ p.status == base_offline
]

unfoldable pub handle_base_heartbeat : ℕ → Node → HeartbeatPayload → Node
unfolding needs_sync go
handle_base_heartbeat now n hb =
    let id = to_upper hb.node_id in
    let base : Base = record {
      id = id;
      sector_id = to_upper hb.sector_id;
      addr = hb.addr;
      gossip_addr = hb.gossip_addr;
      status = base_online;
      last_seen = now;
      x = pos 0;
      y = pos 0;
    } in
    let n1 : Node = record n { state = State.update_peer n.state base } in
    if needs_sync (State.all_peers n.state) id && not (hb.addr == "")
    then go
        (record n1 {
          alert_mgr =
              Alerts.ok now n1.alert_mgr
                (concat ("Base " ∷ id ∷ " detectada — sincronizando fila" ∷ []));
        })
        (send_full_queue_sync hb.addr)
    else n1

unfoldable pub handle_drone_heartbeat : ℕ → Node → HeartbeatPayload → Node
handle_drone_heartbeat now n hb = record n {
  state = State.touch_drone now n.state hb.node_id hb.base_id hb.status;
}

-- The `switch` of handleHeartbeat.
unfoldable pub heartbeat_switch : ℕ → Node → ℤ → HeartbeatPayload → Node
unfolding handle_base_heartbeat handle_drone_heartbeat
heartbeat_switch now n new_ts hb =
    let type = to_lower hb.node_type in
    if type == "base"
    then handle_base_heartbeat now n hb
    else if type == "drone"
    then handle_drone_heartbeat now n hb
    else if type == "sensor"
    then record n { state = State.touch_sensor n.state hb.node_id new_ts }
    else if type == "broker"
    then record n { state = State.touch_broker n.state hb.node_id new_ts }
    else n

unfoldable pub handle_heartbeat : Json → ℕ → Node → Message → Node
unfolding heartbeat_switch
handle_heartbeat json now n msg =
    let (c, new_ts) = Lamport.update n.clk msg.lamport_ts in
    let n1 : Node = record n { clk = c } in
    elim (json.get_heartbeat msg.payload) [
      | none ↦ n1
      | some hb ↦ heartbeat_switch now n1 new_ts hb
    ]

-- With network.BroadcastHeartbeat and the message of SendHeartbeat.
unfoldable pub broadcast_my_heartbeat : Json → Config → Node → Node
broadcast_my_heartbeat json cfg n =
    let (c, ts) = Lamport.tick n.clk in
    let payload = json.put_heartbeat (record {
      node_type = "base";
      node_id = cfg.base_id;
      base_id = "";
      sector_id = cfg.sector_id;
      gossip_addr = cfg.gossip_host;
      addr = cfg.base_host;
      status = "";
    }) in
    let msg : Message = record {
      type = msg_heartbeat;
      sender_id = cfg.base_id;
      lamport_ts = ts;
      payload = payload;
    } in
    record n { clk = c; sent = n.sent ++ map (λ a. heartbeat_to a msg) cfg.peer_hb }

-- `now.Sub(t) > d`, with the subtraction moved to the other side.
abbrev pub older_than : ℕ → ℕ → ℕ → Bool
older_than d now t = ltb (t + d) now

-- The request as recoverBusyDroneMission rewrites it.
unfoldable pub rescued : Request → Request
rescued req =
    let d1 = trim_prefix req.description "NORMAL - " in
    let d2 = trim_prefix d1 "CRITICO - " in
    let d3 = trim_prefix d2 "[FALHA] " in
    let d4 = trim_prefix d3 "FALHA - " in
    record req {
      priority = negsuc 0;
      lamport_ts = pos 0;
      type = "FALHA";
      description = concat ("FALHA - " ∷ d4 ∷ []);
      status = status_pending;
      assigned_to = "";
      locked_by = "";
    }

-- One round of its loop, and the loop over the snapshot of the queue.
unfoldable pub recover_one : ℕ → Drone → Node → Request → Node
unfolding rescued go
recover_one now drone n req =
    if req.assigned_to == drone.id
    then (let req' = rescued req in
        let n1 : Node = record n {
          pq = Queue.replace n.pq req';
          state = State.release_lock n.state req'.id;
        } in
        let n2 = go (go n1 (broadcast_lock_release req'.id)) (gossip_queue_update req') in
        record n2 {
          alert_mgr = Alerts.warn now n2.alert_mgr (
              concat (
                "Missão [" ∷ req'.id ∷ "] resgatada do drone morto " ∷ drone.id ∷ " com sucesso!"
                ∷ []));
        })
    else n

unfoldable pub recover_all : ℕ → Drone → Node → List Request → Node
unfolding recover_one
recover_all now drone n [] = n
recover_all now drone n (req ∷ reqs) = recover_all now drone (recover_one now drone n req) reqs

unfoldable pub recover_busy_drone_mission : ℕ → Node → Drone → Node
unfolding recover_all
recover_busy_drone_mission now n drone = recover_all now drone n (Queue.get_all n.pq)

-- One round of checkDroneHealth.
unfoldable pub check_drone : ℕ → Node → Drone → Node
unfolding recover_busy_drone_mission
check_drone now n drone =
    if drone.status == drone_lost
    then (if older_than forget_after now drone.last_seen
        then record n { state = State.remove_drone n.state drone.id }
        else n)
    else if older_than heartbeat_timeout now drone.last_seen
    then recover_busy_drone_mission now
        (record n {
          alert_mgr = Alerts.critical now n.alert_mgr (concat ("Drone " ∷ drone.id ∷ " LOST" ∷ []));
          state = State.update_drone_status now n.state drone.id drone_lost;
        })
        drone
    else n

unfoldable pub check_drones : ℕ → Node → List Drone → Node
unfolding check_drone
check_drones now n [] = n
check_drones now n (d ∷ ds) = check_drones now (check_drone now n d) ds

unfoldable pub check_drone_health : ℕ → Node → Node
unfolding check_drones
check_drone_health now n = check_drones now n (State.all_drones n.state)

-- The body of startStarvationCheck's loop (main.go), after the wait: a warning for each request that
-- has been pending for longer than 45 seconds.
abbrev pub max_wait : ℕ
max_wait = 45000000000

unfoldable pub warn_stale : ℕ → Manager → List Request → Manager
warn_stale now m [] = m
warn_stale now m (req ∷ reqs) =
    let text =
      concat ("Req " ∷ req.id ∷ " aguardando há mais de 45s (inanição) [" ∷ req.type ∷ "]" ∷ []) in
    warn_stale now (Alerts.warn now m text) reqs

unfoldable pub check_stale : ℕ → Node → Node
unfolding warn_stale
check_stale now n = record n {
  alert_mgr = warn_stale now n.alert_mgr (Queue.check_starvation now n.pq max_wait);
}

-- One round of checkPeersHealth.
unfoldable pub check_peer : ℕ → Node → Base → Node
check_peer now n peer =
    if peer.status == base_offline
    then n
    else if older_than heartbeat_timeout now peer.last_seen
    then record n {
      state = State.mark_peer_offline n.state peer.id;
      alert_mgr = Alerts.critical now n.alert_mgr (concat ("Base " ∷ peer.id ∷ " OFFLINE" ∷ []));
    }
    else n

unfoldable pub check_peers : ℕ → Node → List Base → Node
unfolding check_peer
check_peers now n [] = n
check_peers now n (p ∷ ps) = check_peers now (check_peer now n p) ps

unfoldable pub check_peers_health : Json → Config → ℕ → ℕ → Node → Node
unfolding check_peers check_drone_health balance
check_peers_health json cfg now choice n =
    balance json cfg now choice
      (check_drone_health now (check_peers now n (State.all_peers n.state)))

-- ===== src/BaseNode/Servers.antt =====
-- cmd/base/servers.go: the two TCP servers of a base, and what it tells the others and the dashboard.
-- A connection that ends before a message can be read changes nothing, so a handler takes a message.
pub mod Locking
use mi_desbloqueio_do_estrei.Common.{
  ℕ, String, none, some, [], ◌∷◌, ◌++◌, if◌then◌else◌, ◌==◌, concat,
}
use mi_desbloqueio_do_estrei.Common.Int.{pos}
use mi_desbloqueio_do_estrei.Models.{
  Request, Message, LockRequestPayload, StatusUpdatePayload, base_online, status_done,
  msg_new_request, msg_queue_sync, msg_queue_add, msg_queue_update, msg_queue_clear, msg_drone_info,
  msg_register, msg_mission_done, msg_drone_status_update, msg_alert, msg_status_update,
  msg_lock_request, msg_lock_release, msg_lock_reply,
}
use mi_desbloqueio_do_estrei.Lamport
use mi_desbloqueio_do_estrei.Queue
use mi_desbloqueio_do_estrei.State
use mi_desbloqueio_do_estrei.Alerts
use mi_desbloqueio_do_estrei.BaseNode.{
  Config, Json, Node, gossip_queue_add, to, reply, go, send, stamped, announce,
}
use mi_desbloqueio_do_estrei.BaseNode.DroneHandler.{
  handle_drone_register, handle_mission_done, handle_drone_status_update,
}

-- handleNewRequest, once its payload is read.
unfoldable pub new_request : ℕ → Node → Request → Node
unfolding go
new_request now n req =
    let (q, added) = Queue.push n.pq req in
    let n1 : Node = record n { pq = q } in
    if added
    then go
        (record n1 {
          alert_mgr =
              Alerts.info now n.alert_mgr
                (concat ("Nova req " ∷ req.id ∷ " [" ∷ req.type ∷ "] adicionada à fila" ∷ []));
        })
        (gossip_queue_add req)
    else n1

-- handleQueueUpdate, once its payload is read.
unfoldable pub queue_update : Node → Request → Node
queue_update n req =
    let n1 : Node = record n { pq = Queue.replace n.pq req } in
    if req.status == status_done
    then record n1 {
      pq = (Queue.remove n1.pq req.id).0;
      state = State.release_lock n1.state req.id;
    }
    else n1

unfoldable pub handle_queue_clear : Node → Node
handle_queue_clear n = record n {
  pq = Queue.clear_all n.pq;
  state = State.purge_lost_drones (State.clear_locks n.state);
}

module _ (json : Json) (cfg : Config) where
  unfoldable pub handle_new_request : ℕ → Node → Message → Node
  unfolding new_request
  handle_new_request now n msg = elim (json.get_request msg.payload) [
    | none ↦ n
    | some req ↦ new_request now n req
  ]

  unfoldable pub handle_queue_add : Node → Message → Node
  handle_queue_add n msg = elim (json.get_request msg.payload) [
    | none ↦ n
    | some req ↦ record n { pq = (Queue.push n.pq req).0 }
  ]

  unfoldable pub handle_queue_sync : Node → Message → Node
  handle_queue_sync n msg = elim (json.get_requests msg.payload) [
    | none ↦ n
    | some snapshot ↦ record n { pq = (Queue.sync_from n.pq snapshot).0 }
  ]

  unfoldable pub handle_queue_update : Node → Message → Node
  unfolding queue_update
  handle_queue_update n msg = elim (json.get_request msg.payload) [
    | none ↦ n
    | some req ↦ queue_update n req
  ]

  unfoldable pub handle_drone_info : Node → Message → Node
  handle_drone_info n msg = elim (json.get_drone msg.payload) [
    | none ↦ n
    | some d ↦ record n { state = State.register_drone n.state d }
  ]

  unfoldable pub handle_incoming_alert : Node → Message → Node
  handle_incoming_alert n msg = elim (json.get_alert msg.payload) [
    | none ↦ n
    | some alert ↦ record n { alert_mgr = Alerts.add n.alert_mgr alert }
  ]

  -- The `switch` of handleMainConn, in two parts.
  unfoldable pub drone_switch : ℕ → Node → Message → Node
  unfolding handle_drone_info handle_drone_register handle_mission_done handle_drone_status_update
      handle_incoming_alert stamped send
  drone_switch now n msg =
      if msg.type == msg_drone_info
      then handle_drone_info n msg
      else if msg.type == msg_register
      then handle_drone_register json cfg now n msg
      else if msg.type == msg_mission_done
      then (let (n1, ack) = stamped cfg n msg_status_update "" in
          handle_mission_done json cfg now (send n1 (reply ack)) msg)
      else if msg.type == msg_drone_status_update
      then handle_drone_status_update json cfg now n msg
      else if msg.type == msg_alert
      then handle_incoming_alert n msg
      else n

  unfoldable pub main_switch : ℕ → Node → Message → Node
  unfolding handle_new_request handle_queue_sync handle_queue_add handle_queue_update
      handle_queue_clear drone_switch
  main_switch now n msg =
      if msg.type == msg_new_request
      then handle_new_request now n msg
      else if msg.type == msg_queue_sync
      then handle_queue_sync n msg
      else if msg.type == msg_queue_add
      then handle_queue_add n msg
      else if msg.type == msg_queue_update
      then handle_queue_update n msg
      else if msg.type == msg_queue_clear
      then handle_queue_clear n
      else drone_switch now n msg

  unfoldable pub handle_main_conn : ℕ → Node → Message → Node
  unfolding main_switch
  handle_main_conn now n msg =
      main_switch now (record n { clk = (Lamport.update n.clk msg.lamport_ts).0 }) msg

  -- handleLockRequest, once its payload is read.
  unfoldable pub lock_request : Node → LockRequestPayload → Node
  unfolding stamped send
  lock_request n payload =
      let (s, granted) = State.try_lock n.state payload.request_id payload.base_id in
      let answer =
        json.put_lock_reply
          (record { request_id = payload.request_id; granted = granted; base_id = cfg.base_id }) in
      let (n1, msg) = stamped cfg (record n { state = s }) msg_lock_reply answer in
      send n1 (reply msg)

  unfoldable pub handle_lock_request : Node → Message → Node
  unfolding lock_request
  handle_lock_request n msg = elim (json.get_lock_request msg.payload) [
    | none ↦ n
    | some payload ↦ lock_request n payload
  ]

  unfoldable pub handle_lock_release : Node → Message → Node
  handle_lock_release n msg = elim (json.get_lock_request msg.payload) [
    | none ↦ n
    | some payload ↦ record n { state = State.release_lock n.state payload.request_id }
  ]

  unfoldable pub gossip_switch : Node → Message → Node
  unfolding handle_lock_request handle_lock_release
  gossip_switch n msg =
      if msg.type == msg_lock_request
      then handle_lock_request n msg
      else if msg.type == msg_lock_release
      then handle_lock_release n msg
      else n

  unfoldable pub handle_gossip_conn : Node → Message → Node
  unfolding gossip_switch
  handle_gossip_conn n msg =
      gossip_switch (record n { clk = (Lamport.update n.clk msg.lamport_ts).0 }) msg

  -- The goroutines that tell the other bases, when they run.
  unfoldable pub gossip_add_now : Node → Request → Node
  unfolding announce
  gossip_add_now n req = announce cfg n cfg.peer_bases msg_queue_add (json.put_request req)

  unfoldable pub full_sync_now : Node → String → Node
  unfolding stamped send
  full_sync_now n peer_addr =
      let (n1, msg) = stamped cfg n msg_queue_sync (json.put_requests (Queue.get_all n.pq)) in
      send n1 (to peer_addr msg)

unfoldable pub build_status_update : Config → Node → StatusUpdatePayload
build_status_update cfg n = record {
  sector_id = cfg.sector_id;
  bases =
      State.all_peers n.state
      ++ record {
        id = cfg.base_id;
        sector_id = cfg.sector_id;
        addr = cfg.base_host;
        gossip_addr = "";
        status = base_online;
        last_seen = 0;
        x = pos 0;
        y = pos 0;
      }
        ∷ [];
  drones = State.all_drones n.state;
  queue = Queue.get_all n.pq;
  alerts = Alerts.get_last n.alert_mgr 20;
  active_sensors = State.get_active_sensors n.state;
  active_brokers = State.get_active_brokers n.state;
}

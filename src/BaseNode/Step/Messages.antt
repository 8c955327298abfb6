-- ===== src/BaseNode/Step/Messages.antt =====
-- What the handlers of cmd/base/servers.go and drone_handler.go do to the queue.
use mi_desbloqueio_do_estrei.Common.{ℕ, ◌≡◌, refl, sym, false, Option, none, some, ◌==◌}
use mi_desbloqueio_do_estrei.Models.{
  Drone, DroneStatusPayload, Request, Message, MissionDonePayload, RegisterPayload, status_done,
  msg_queue_clear, msg_new_request, msg_queue_sync, msg_queue_add, msg_queue_update, msg_drone_info,
  msg_register, msg_mission_done, msg_drone_status_update, msg_alert, msg_lock_request,
  msg_lock_release,
}
use mi_desbloqueio_do_estrei.Queue
use mi_desbloqueio_do_estrei.Queue.Op.{
  push_op, replace_op, update_op, remove_op, clear_drone_op, sync_op, apply,
}
use mi_desbloqueio_do_estrei.BaseNode.{Config, Json, Node, go, send, stamped}
use mi_desbloqueio_do_estrei.BaseNode.DroneHandler.{
  propagate_if, register, mission_done, drone_status_update, handle_drone_register,
  handle_mission_done, handle_drone_status_update,
}
use mi_desbloqueio_do_estrei.BaseNode.Servers.{
  new_request, queue_update, handle_new_request, handle_queue_add, handle_queue_sync,
  handle_queue_update, handle_drone_info, handle_incoming_alert, drone_switch, main_switch,
  handle_main_conn, lock_request, handle_lock_request, handle_lock_release, gossip_switch,
  handle_gossip_conn,
}
use mi_desbloqueio_do_estrei.BaseNode.Step.Evolution.{
  Evolves-trans, Evolves-apply, Keeps, Keeps-same, Keeps-trans, Keeps-if, Keeps-some,
}

Keeps-new_request : (now : ℕ) (n : Node) (req : Request) → Keeps n (new_request now n req)
unfolding new_request go apply
Keeps-new_request now n req =
    let e = Evolves-apply n.pq (push_op req) refl in
    Keeps-if (Queue.push n.pq req).1 (record { evolves = e }) (record { evolves = e })

Keeps-queue_update : (n : Node) (req : Request) → Keeps n (queue_update n req)
unfolding queue_update apply
Keeps-queue_update n req =
    let e = Evolves-apply n.pq (replace_op req) refl in
    Keeps-if (req.status == status_done)
      (record {
        evolves = Evolves-trans e (Evolves-apply (Queue.replace n.pq req) (remove_op req.id) refl);
      })
      (record { evolves = e })

propagate_if-pq : (n : Node) (d : Option Drone) → (propagate_if n d).pq ≡ n.pq
unfolding propagate_if go
propagate_if-pq n none = refl
propagate_if-pq n (some d) = refl

Keeps-register :
    (cfg : Config) (now : ℕ) (n : Node) (reg : RegisterPayload) → Keeps n (register cfg now n reg)
unfolding register stamped send go apply
Keeps-register cfg now n reg = record {
  evolves = Evolves-apply n.pq (clear_drone_op reg.drone_id) refl;
}

Keeps-mission_done :
    (cfg : Config) (now : ℕ) (n : Node) (done : MissionDonePayload)
    → Keeps n (mission_done cfg now n done)
unfolding mission_done go apply
Keeps-mission_done cfg now n done = record {
  evolves = rw propagate_if-pq (
      Evolves-trans
        (Evolves-apply n.pq (update_op now done.request_id status_done cfg.base_id done.drone_id)
          refl)
        (Evolves-apply _ (remove_op done.request_id) refl));
}

Keeps-drone_status_update :
    (now : ℕ) (n : Node) (update : DroneStatusPayload) → Keeps n (drone_status_update now n update)
unfolding drone_status_update
Keeps-drone_status_update now n update = Keeps-same (sym (propagate_if-pq _ _))

module _ (json : Json) (cfg : Config) where
  -- The part of the switch that comes after QUEUE_CLEAR.
  Keeps-drone_switch :
      (now : ℕ) (n : Node) (msg : Message) → Keeps n (drone_switch json cfg now n msg)
  unfolding drone_switch handle_drone_info handle_drone_register handle_mission_done
      handle_drone_status_update handle_incoming_alert stamped send
  Keeps-drone_switch now n msg =
      Keeps-if (msg.type == msg_drone_info)
        (Keeps-some (json.get_drone msg.payload) (λ d. Keeps-same refl))
        (Keeps-if (msg.type == msg_register)
          (Keeps-some (json.get_register msg.payload) (Keeps-register cfg now n))
          (Keeps-if (msg.type == msg_mission_done)
            (Keeps-trans (Keeps-same refl)
              (Keeps-some (json.get_mission_done msg.payload) (Keeps-mission_done cfg now _)))
            (Keeps-if (msg.type == msg_drone_status_update)
              (Keeps-some (json.get_drone_status msg.payload) (Keeps-drone_status_update now n))
              (Keeps-if (msg.type == msg_alert)
                (Keeps-some (json.get_alert msg.payload) (λ a. Keeps-same refl))
                (Keeps-same refl)))))

  -- Every handler of the main server but that of QUEUE_CLEAR.
  Keeps-main_switch :
      (now : ℕ) (n : Node) (msg : Message)
      → (msg.type == msg_queue_clear) ≡ false
      → Keeps n (main_switch json cfg now n msg)
  unfolding main_switch handle_new_request handle_queue_add handle_queue_sync handle_queue_update
      apply
  Keeps-main_switch now n msg h =
      Keeps-if (msg.type == msg_new_request)
        (Keeps-some (json.get_request msg.payload) (Keeps-new_request now n))
        (Keeps-if (msg.type == msg_queue_sync)
          (Keeps-some (json.get_requests msg.payload)
            (λ s. record { evolves = Evolves-apply n.pq (sync_op s) refl }))
          (Keeps-if (msg.type == msg_queue_add)
            (Keeps-some (json.get_request msg.payload)
              (λ r. record { evolves = Evolves-apply n.pq (push_op r) refl }))
            (Keeps-if (msg.type == msg_queue_update)
              (Keeps-some (json.get_request msg.payload) (Keeps-queue_update n))
              (rw h (Keeps-drone_switch now n msg)))))

  pub Keeps-main_conn :
      (now : ℕ) (n : Node) (msg : Message)
      → (msg.type == msg_queue_clear) ≡ false
      → Keeps n (handle_main_conn json cfg now n msg)
  unfolding handle_main_conn
  Keeps-main_conn now n msg h = Keeps-trans (Keeps-same refl) (Keeps-main_switch now _ msg h)

  pub Keeps-gossip_conn : (n : Node) (msg : Message) → Keeps n (handle_gossip_conn json cfg n msg)
  unfolding handle_gossip_conn gossip_switch handle_lock_request handle_lock_release lock_request
      stamped send
  Keeps-gossip_conn n msg = Keeps-trans (Keeps-same refl) (
      Keeps-if (msg.type == msg_lock_request)
        (Keeps-some (json.get_lock_request msg.payload) (λ p. Keeps-same refl))
        (Keeps-if (msg.type == msg_lock_release)
          (Keeps-some (json.get_lock_request msg.payload) (λ p. Keeps-same refl))
          (Keeps-same refl)))

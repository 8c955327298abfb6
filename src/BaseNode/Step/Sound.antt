-- ===== src/BaseNode/Step/Sound.antt =====
-- What the handlers of servers.go, drone_handler.go and dispatcher.go of cmd/base do to the state of the
-- base: each drone and each base stays once and under its own ID, and a lock that is held is only let go.
use mi_desbloqueio_do_estrei.Common.{ℕ, ◌≡◌, refl, Option, none, some, ◌==◌}
use mi_desbloqueio_do_estrei.Models.{
  Request, Drone, Message, MissionDonePayload, DroneStatusPayload, RegisterPayload, drone_idle,
  status_done, msg_new_request, msg_queue_sync, msg_queue_add, msg_queue_update, msg_queue_clear,
  msg_drone_info, msg_register, msg_mission_done, msg_drone_status_update, msg_alert,
  msg_lock_request, msg_lock_release,
}
use mi_desbloqueio_do_estrei.Queue
use mi_desbloqueio_do_estrei.State
use mi_desbloqueio_do_estrei.State.{BaseState, is_locked}
use mi_desbloqueio_do_estrei.State.WellFormed.{
  register_op, status_op, mission_op, release_op, clear_locks_op, purge_op, apply_op,
}
use mi_desbloqueio_do_estrei.BaseNode.{Config, Json, Node, go, send, stamped}
use mi_desbloqueio_do_estrei.BaseNode.DroneHandler.{
  propagate_if, register, mission_done, drone_status_update, handle_drone_register,
  handle_mission_done, handle_drone_status_update,
}
use mi_desbloqueio_do_estrei.BaseNode.Servers.{
  new_request, queue_update, handle_new_request, handle_queue_add, handle_queue_sync,
  handle_queue_update, handle_queue_clear, handle_drone_info, handle_incoming_alert, drone_switch,
  main_switch, handle_main_conn, lock_request, handle_lock_request, handle_lock_release,
  gossip_switch, handle_gossip_conn,
}
use mi_desbloqueio_do_estrei.BaseNode.Step.Passing.{
  Sound, Passes, Sound-same, Sound-op, Sound-trans, Sound-if, Sound-some, Sound-op-op, Passes-Sound,
  Passes-take, Passes-if, Passes-some,
}

propagate_if-state : (n : Node) (d : Option Drone) → (propagate_if n d).state ≡ n.state
unfolding propagate_if go
propagate_if-state n none = refl
propagate_if-state n (some d) = refl

Sound-new_request : (now : ℕ) (n : Node) (req : Request) → Sound n (new_request now n req)
unfolding new_request go
Sound-new_request now n req = Sound-if (Queue.push n.pq req).1 (Sound-same refl) (Sound-same refl)

Sound-queue_update : (n : Node) (req : Request) → Sound n (queue_update n req)
unfolding queue_update apply_op
Sound-queue_update n req =
    Sound-if (req.status == status_done) (Sound-op (release_op req.id) tt refl) (Sound-same refl)

Sound-register :
    (cfg : Config) (now : ℕ) (n : Node) (reg : RegisterPayload) → Sound n (register cfg now n reg)
unfolding register stamped send go apply_op
Sound-register cfg now n reg = Sound-op (register_op _) tt refl

Sound-mission_done :
    (cfg : Config) (now : ℕ) (n : Node) (done : MissionDonePayload)
    → Sound n (mission_done cfg now n done)
unfolding mission_done go apply_op
Sound-mission_done cfg now n done =
    Sound-trans
      (Sound-op-op
        {n' = propagate_if
          (record n {
            state =
                State.update_drone_mission_desc now
                  (State.update_drone_status now n.state done.drone_id drone_idle) done.drone_id "";
          })
          _}
        (status_op now done.drone_id drone_idle) (mission_op now done.drone_id "") tt tt
        (propagate_if-state _ _))
      (Sound-op (release_op done.request_id) tt refl)

Sound-drone_status_update :
    (now : ℕ) (n : Node) (update : DroneStatusPayload) → Sound n (drone_status_update now n update)
unfolding drone_status_update apply_op
Sound-drone_status_update now n update =
    Sound-op (mission_op now update.drone_id update.mission_desc) tt (propagate_if-state _ _)

module _ (json : Json) (cfg : Config) where
  Sound-drone_switch :
      (now : ℕ) (n : Node) (msg : Message) → Sound n (drone_switch json cfg now n msg)
  unfolding drone_switch handle_drone_info handle_drone_register handle_mission_done
      handle_drone_status_update handle_incoming_alert stamped send apply_op
  Sound-drone_switch now n msg =
      Sound-if (msg.type == msg_drone_info)
        (Sound-some (json.get_drone msg.payload) (Sound-same refl)
          (λ d. Sound-op (register_op d) tt refl))
        (Sound-if (msg.type == msg_register)
          (Sound-some (json.get_register msg.payload) (Sound-same refl) (Sound-register cfg now n))
          (Sound-if (msg.type == msg_mission_done)
            (Sound-trans (Sound-same refl) (
              Sound-some (json.get_mission_done msg.payload) (Sound-same refl)
                (Sound-mission_done cfg now _)))
            (Sound-if (msg.type == msg_drone_status_update)
              (Sound-some (json.get_drone_status msg.payload) (Sound-same refl)
                (Sound-drone_status_update now n))
              (Sound-if (msg.type == msg_alert)
                (Sound-some (json.get_alert msg.payload) (Sound-same refl) (λ a. Sound-same refl))
                (Sound-same refl)))))

  pub Sound-main_conn :
      (now : ℕ) (n : Node) (msg : Message) → Sound n (handle_main_conn json cfg now n msg)
  unfolding handle_main_conn main_switch handle_new_request handle_queue_add handle_queue_sync
      handle_queue_update handle_queue_clear apply_op
  Sound-main_conn now n msg =
      Sound-if (msg.type == msg_new_request)
        (Sound-some (json.get_request msg.payload) (Sound-same refl)
          (λ r. Sound-trans (Sound-same refl) (Sound-new_request now _ r)))
        (Sound-if (msg.type == msg_queue_sync)
          (Sound-some (json.get_requests msg.payload) (Sound-same refl) (λ s. Sound-same refl))
          (Sound-if (msg.type == msg_queue_add)
            (Sound-some (json.get_request msg.payload) (Sound-same refl) (λ r. Sound-same refl))
            (Sound-if (msg.type == msg_queue_update)
              (Sound-some (json.get_request msg.payload) (Sound-same refl)
                (λ r. Sound-trans (Sound-same refl) (Sound-queue_update _ r)))
              (Sound-if (msg.type == msg_queue_clear)
                (Sound-op-op clear_locks_op purge_op tt tt refl)
                (Sound-trans (Sound-same refl) (Sound-drone_switch now _ msg))))))

  pub Passes-gossip_conn : (n : Node) (msg : Message) → Passes n (handle_gossip_conn json cfg n msg)
  unfolding handle_gossip_conn gossip_switch handle_lock_request handle_lock_release lock_request
      stamped send apply_op
  Passes-gossip_conn n msg =
      Passes-if (msg.type == msg_lock_request)
        (Passes-some (json.get_lock_request msg.payload) (Passes-Sound (Sound-same refl))
          (λ p. Passes-take p.request_id p.base_id refl))
        (Passes-Sound (
          Sound-if (msg.type == msg_lock_release)
            (Sound-some (json.get_lock_request msg.payload) (Sound-same refl)
              (λ p. Sound-op (release_op p.request_id) tt refl))
            (Sound-same refl)))

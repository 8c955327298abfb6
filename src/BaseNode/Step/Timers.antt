-- ===== src/BaseNode/Step/Timers.antt =====
-- What the timers and the goroutines of cmd/base (dispatcher.go, heartbeat.go, drone_handler.go) do to
-- the queue.
use mi_desbloqueio_do_estrei.Common.{
  ℕ, ◌%◌, refl, not, ◌&&◌, Option, none, some, List, [], ◌∷◌, length, get_elem?, ◌==◌, nat_eq,
  to_lower, to_upper,
}
use mi_desbloqueio_do_estrei.Models.{
  Request, Drone, Base, Message, HeartbeatPayload, status_pending, status_locked, status_assigned,
  drone_lost, base_offline,
}
use mi_desbloqueio_do_estrei.Common.Int.{ℤ}
use mi_desbloqueio_do_estrei.Lamport
use mi_desbloqueio_do_estrei.Queue
use mi_desbloqueio_do_estrei.Queue.Op.{replace_op, update_op, apply}
use mi_desbloqueio_do_estrei.State
use mi_desbloqueio_do_estrei.BaseNode.{Config, Json, Node, go, send, broadcast, stamped, announce}
use mi_desbloqueio_do_estrei.BaseNode.Dispatcher.{
  reserve, try_drone, try_request, try_dispatch, release_everywhere, give_up, send_dispatch,
  ask_votes, ask_or_send, start_dispatch, granted, end_votes, gossip_update_now, end_dispatch,
}
use mi_desbloqueio_do_estrei.BaseNode.Balance.{
  give_drone, balance_with, balance, my_idle_drones, target_peer,
}
use mi_desbloqueio_do_estrei.BaseNode.Heartbeat.{
  needs_sync, handle_base_heartbeat, handle_drone_heartbeat, heartbeat_switch, handle_heartbeat,
  older_than, heartbeat_timeout, forget_after, rescued, recover_one, recover_all,
  recover_busy_drone_mission, check_drone, check_drones, check_drone_health, check_peer,
  check_peers, check_peers_health,
}
use mi_desbloqueio_do_estrei.BaseNode.Step.Evolution.{
  Evolves-apply, Keeps, Keeps-same, Keeps-trans, Keeps-if, Keeps-some,
}

Keeps-try_drone :
    (cfg : Config) (now : ℕ) (n : Node) (req : Request) (d : Option Drone)
    → Keeps n (try_drone cfg now n req d)
unfolding try_drone reserve go apply
Keeps-try_drone cfg now n req none = Keeps-same refl
Keeps-try_drone cfg now n req (some d) =
    Keeps-if (Queue.is_drone_assigned n.pq d.id) (Keeps-same refl) (record {
      evolves = Evolves-apply n.pq (update_op now req.id status_locked cfg.base_id d.id) refl;
    })

Keeps-try_request :
    (cfg : Config) (now choice : ℕ) (n : Node) (o : Option Request)
    → Keeps n (try_request cfg now choice n o)
unfolding try_request
Keeps-try_request cfg now choice n none = Keeps-same refl
Keeps-try_request cfg now choice n (some req) =
    Keeps-if (not (req.status == status_pending)) (Keeps-same refl)
      (Keeps-try_drone cfg now n req (State.idle_drone choice n.state cfg.base_id))

pub Keeps-try_dispatch :
    (cfg : Config) (now choice : ℕ) (n : Node) → Keeps n (try_dispatch cfg now choice n)
unfolding try_dispatch
Keeps-try_dispatch cfg now choice n = Keeps-try_request cfg now choice n (Queue.peek n.pq)

module _ (json : Json) (cfg : Config) where
  Keeps-give_up :
      (now : ℕ) (n : Node) (r : Request) (d : Drone) → Keeps n (give_up json cfg now n r d)
  unfolding give_up apply
  Keeps-give_up now n r d = record {
    evolves = Evolves-apply n.pq (update_op now r.id status_pending "" "") refl;
  }

  Keeps-ask_or_send :
      (n : Node) (r : Request) (d : Drone) (peers : List Base)
      → Keeps n (ask_or_send json cfg n r d peers)
  unfolding ask_or_send send_dispatch ask_votes stamped send broadcast go
  Keeps-ask_or_send n r d [] = Keeps-same refl
  Keeps-ask_or_send n r d (p ∷ peers) = Keeps-same refl

  pub Keeps-start_dispatch :
      (now : ℕ) (n : Node) (r : Request) (d : Drone) → Keeps n (start_dispatch json cfg now n r d)
  unfolding start_dispatch
  Keeps-start_dispatch now n r d =
      let (s, locked) = State.try_lock n.state r.id cfg.base_id in
      Keeps-if (not locked) (Keeps-give_up now n r d)
        (Keeps-trans (Keeps-same refl) (Keeps-ask_or_send _ r d (State.online_peers s)))

  pub Keeps-end_votes :
      (now : ℕ) (n : Node) (r : Request) (d : Drone) (peers : List Base)
      (votes : List (Option Message))
      → Keeps n (end_votes json cfg now n r d peers votes)
  unfolding end_votes
  Keeps-end_votes now n r d peers votes =
      Keeps-if (nat_eq (granted json cfg peers votes) (length peers))
        (unfold send_dispatch stamped send go in Keeps-same refl)
        (Keeps-trans (unfold release_everywhere announce broadcast stamped in Keeps-same refl)
          (Keeps-give_up now _ r d))

  pub Keeps-end_dispatch :
      (now : ℕ) (n : Node) (r : Request) (d : Drone) (answer : Option Message)
      → Keeps n (end_dispatch json cfg now n r d answer)
  unfolding end_dispatch release_everywhere gossip_update_now announce broadcast stamped apply
  Keeps-end_dispatch now n r d none = record {
    evolves = Evolves-apply n.pq (update_op now r.id status_pending "" "") refl;
  }
  Keeps-end_dispatch now n r d (some _) = record {
    evolves = Evolves-apply n.pq (update_op now r.id status_assigned cfg.base_id d.id) refl;
  }

  Keeps-balance_with :
      (now : ℕ) (n : Node) (d : Option Drone) (p : Option Base)
      → Keeps n (balance_with json cfg now n d p)
  unfolding balance_with give_drone stamped send go
  Keeps-balance_with now n none p = Keeps-same refl
  Keeps-balance_with now n (some d) none = Keeps-same refl
  Keeps-balance_with now n (some d) (some p) = Keeps-same refl

  pub Keeps-balance : (now choice : ℕ) (n : Node) → Keeps n (balance json cfg now choice n)
  unfolding balance
  Keeps-balance now choice n =
      let drones = State.all_drones n.state in
      let idle = my_idle_drones cfg drones in
      Keeps-balance_with now n (get_elem? idle (choice % length idle))
        (target_peer cfg drones (State.online_peers n.state))

Keeps-recover_all :
    (now : ℕ) (d : Drone) (n : Node) (reqs : List Request) → Keeps n (recover_all now d n reqs)
unfolding recover_all recover_one go apply
Keeps-recover_all now d n [] = Keeps-same refl
Keeps-recover_all now d n (r ∷ reqs) =
    Keeps-trans
      (Keeps-if (r.assigned_to == d.id)
        (record { evolves = Evolves-apply n.pq (replace_op (rescued r)) refl }) (Keeps-same refl))
      (Keeps-recover_all now d (recover_one now d n r) reqs)

Keeps-check_drone : (now : ℕ) (n : Node) (d : Drone) → Keeps n (check_drone now n d)
unfolding check_drone recover_busy_drone_mission
Keeps-check_drone now n d =
    Keeps-if (d.status == drone_lost)
      (Keeps-if (older_than forget_after now d.last_seen) (Keeps-same refl) (Keeps-same refl))
      (Keeps-if (older_than heartbeat_timeout now d.last_seen)
        (Keeps-trans (Keeps-same refl) (Keeps-recover_all now d _ (Queue.get_all n.pq)))
        (Keeps-same refl))

Keeps-check_drones : (now : ℕ) (n : Node) (ds : List Drone) → Keeps n (check_drones now n ds)
unfolding check_drones
Keeps-check_drones now n [] = Keeps-same refl
Keeps-check_drones now n (d ∷ ds) =
    Keeps-trans (Keeps-check_drone now n d) (Keeps-check_drones now (check_drone now n d) ds)

Keeps-check_peers : (now : ℕ) (n : Node) (ps : List Base) → Keeps n (check_peers now n ps)
unfolding check_peers check_peer
Keeps-check_peers now n [] = Keeps-same refl
Keeps-check_peers now n (p ∷ ps) =
    Keeps-trans
      (Keeps-if (p.status == base_offline) (Keeps-same refl) (
        Keeps-if (older_than heartbeat_timeout now p.last_seen) (Keeps-same refl)
          (Keeps-same refl)))
      (Keeps-check_peers now (check_peer now n p) ps)

pub Keeps-check_peers_health :
    (json : Json) (cfg : Config) (now choice : ℕ) (n : Node)
    → Keeps n (check_peers_health json cfg now choice n)
unfolding check_peers_health check_drone_health
Keeps-check_peers_health json cfg now choice n =
    let n1 = check_peers now n (State.all_peers n.state) in
    let n2 = check_drone_health now n1 in
    Keeps-trans (Keeps-check_peers now n (State.all_peers n.state)) (
      Keeps-trans (Keeps-check_drones now n1 (State.all_drones n1.state))
        (Keeps-balance json cfg now choice n2))

Keeps-heartbeat_switch :
    (now : ℕ) (n : Node) (ts : ℤ) (hb : HeartbeatPayload) → Keeps n (heartbeat_switch now n ts hb)
unfolding heartbeat_switch handle_base_heartbeat handle_drone_heartbeat go
Keeps-heartbeat_switch now n ts hb =
    let type = to_lower hb.node_type in
    Keeps-if (type == "base")
      (Keeps-if (needs_sync (State.all_peers n.state) (to_upper hb.node_id) && not (hb.addr == ""))
        (Keeps-same refl) (Keeps-same refl))
      (Keeps-if (type == "drone") (Keeps-same refl) (
        Keeps-if (type == "sensor") (Keeps-same refl)
          (Keeps-if (type == "broker") (Keeps-same refl) (Keeps-same refl))))

pub Keeps-heartbeat :
    (json : Json) (now : ℕ) (n : Node) (msg : Message) → Keeps n (handle_heartbeat json now n msg)
unfolding handle_heartbeat
Keeps-heartbeat json now n msg =
    let (c, ts) = Lamport.update n.clk msg.lamport_ts in
    Keeps-trans (Keeps-same refl) (
      Keeps-some (json.get_heartbeat msg.payload)
        (Keeps-heartbeat_switch now (record n { clk = c }) ts))

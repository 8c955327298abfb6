-- ===== src/BaseNode/Heartbeat/Health.antt =====
-- checkPeersHealth and checkDroneHealth of cmd/base/heartbeat.go: what becomes of the bases and the
-- drones that fall silent.
use mi_desbloqueio_do_estrei.Common.{
  ℕ, ◌≡◌, refl, ap, ◌∙◌, String, Option, none, List, [], ◌∷◌, if◌then◌else◌, ◌==◌, arith,
  Bool-cases, inl, inr, concat,
}
use mi_desbloqueio_do_estrei.Common.Assoc.{lookup, values, map_option, lookup-modify, lookup-delete}
use mi_desbloqueio_do_estrei.Common.Keyed.{visits, on_found, visits-values}
use mi_desbloqueio_do_estrei.Models.{Request, Drone, Base, drone_lost, base_offline}
use mi_desbloqueio_do_estrei.Queue
use mi_desbloqueio_do_estrei.Alerts
use mi_desbloqueio_do_estrei.State
use mi_desbloqueio_do_estrei.State.{
  BaseState, get_drone, all_drones, all_peers, update_drone_status, remove_drone, mark_peer_offline,
}
use mi_desbloqueio_do_estrei.State.WellFormed.{IsWellFormed, drone_key, base_key}
use mi_desbloqueio_do_estrei.BaseNode.{Node, go}
use mi_desbloqueio_do_estrei.BaseNode.Heartbeat.{
  older_than, heartbeat_timeout, forget_after, check_peer, check_peers, check_drone, check_drones,
  check_drone_health, recover_one, recover_all, recover_busy_drone_mission,
}

-- A base that was not offline and was last heard of longer ago than the timeout is offline.
abbrev pub peer_verdict : ℕ → Base → Option Base → Option Base
peer_verdict now p o =
    if p.status == base_offline
    then o
    else if older_than heartbeat_timeout now p.last_seen
    then map_option (λ (b : Base). record b { status = base_offline }) o
    else o

check_peer-lookup :
    (now : ℕ) (n : Node) (p : Base) (id : String)
    → lookup id (check_peer now n p).state.peers ≡ (
        if p.id == id
        then peer_verdict now p (lookup id n.state.peers)
        else lookup id n.state.peers)
unfolding check_peer mark_peer_offline
check_peer-lookup now n p id =
    ground (
      arith,
      lookup-modify p.id id (λ (b : Base). record b { status = base_offline }) n.state.peers,
    )

check_peers-lookup :
    (now : ℕ) (n : Node) (ps : List Base) (id : String)
    → lookup id (check_peers now n ps).state.peers
      ≡ visits base_key (peer_verdict now) id ps (lookup id n.state.peers)
unfolding check_peers
check_peers-lookup now n [] id = refl
check_peers-lookup now n (p ∷ ps) id =
    check_peers-lookup now (check_peer now n p) ps id
    ∙ ap (visits base_key (peer_verdict now) id ps) (check_peer-lookup now n p id)

-- A drone that is lost is forgotten when its news is older than 15 seconds; another that was last heard
-- of longer ago than the timeout is lost from now on.
abbrev pub drone_verdict : ℕ → Drone → Option Drone → Option Drone
drone_verdict now d o =
    if d.status == drone_lost
    then (if older_than forget_after now d.last_seen then none else o)
    else if older_than heartbeat_timeout now d.last_seen
    then map_option (λ (x : Drone). record x { status = drone_lost; last_seen = now }) o
    else o

recover_all-drones :
    (now : ℕ) (d : Drone) (n : Node) (reqs : List Request)
    → (recover_all now d n reqs).state.drones ≡ n.state.drones
unfolding recover_all recover_one go State.release_lock
recover_all-drones now d n [] = refl
recover_all-drones now d n (r ∷ reqs) =
    recover_all-drones now d (recover_one now d n r) reqs ∙ round
  where
    round : (recover_one now d n r).state.drones ≡ n.state.drones
    round = elim (Bool-cases (r.assigned_to == d.id)) [
      | inl e ↦ rw (e, recover_one) refl
      | inr e ↦ rw (e, recover_one) refl
    ]

-- The node once checkDroneHealth has marked the drone as lost.
abbrev marked_lost : ℕ → Node → Drone → Node
marked_lost now n d = record n {
  alert_mgr = Alerts.critical now n.alert_mgr (concat ("Drone " ∷ d.id ∷ " LOST" ∷ []));
  state = update_drone_status now n.state d.id drone_lost;
}

check_drone-lookup :
    (now : ℕ) (n : Node) (d : Drone) (id : String)
    → get_drone (check_drone now n d).state id
      ≡ (if d.id == id then drone_verdict now d (get_drone n.state id) else get_drone n.state id)
unfolding check_drone get_drone remove_drone update_drone_status recover_busy_drone_mission
check_drone-lookup now n d id = elim (Bool-cases (d.status == drone_lost)) [
  | inl l ↦ rw l (ground (arith, lookup-delete d.id id n.state.drones))
  | inr l ↦ elim (Bool-cases (older_than heartbeat_timeout now d.last_seen)) [
    | inl o ↦
        rw (l, o)
          (ap (lookup id) (recover_all-drones now d (marked_lost now n d) (Queue.get_all n.pq))
            ∙ lookup-modify d.id id
                (λ (x : Drone). record x { status = drone_lost; last_seen = now }) n.state.drones)
    | inr o ↦ rw (l, o) (ground arith)
  ]
]

check_drones-lookup :
    (now : ℕ) (n : Node) (ds : List Drone) (id : String)
    → get_drone (check_drones now n ds).state id
      ≡ visits drone_key (drone_verdict now) id ds (get_drone n.state id)
unfolding check_drones
check_drones-lookup now n [] id = refl
check_drones-lookup now n (d ∷ ds) id =
    check_drones-lookup now (check_drone now n d) ds id
    ∙ ap (visits drone_key (drone_verdict now) id ds) (check_drone-lookup now n d id)

-- Where each base stands once under its own ID, one round of checkPeersHealth over all bases marks as
-- offline exactly those that were last heard of longer ago than the timeout, and leaves all else of
-- each as it was.
pub check_peers-all :
    (now : ℕ) (n : Node) (id : String)
    → IsWellFormed n.state
    → lookup id (check_peers now n (all_peers n.state)).state.peers
      ≡ on_found base_key (peer_verdict now) (lookup id n.state.peers) (lookup id n.state.peers)
unfolding all_peers
check_peers-all now n id w =
    check_peers-lookup now n (values n.state.peers) id
    ∙ visits-values base_key (peer_verdict now) id n.state.peers (lookup id n.state.peers) w.peers

-- Where each drone stands once under its own ID, checkDroneHealth forgets exactly the lost drones whose
-- news is older than 15 seconds, marks as lost exactly the others that were last heard of longer ago
-- than the timeout, and leaves every other drone as it was.
pub check_drone_health-get_drone :
    (now : ℕ) (n : Node) (id : String)
    → IsWellFormed n.state
    → get_drone (check_drone_health now n).state id
      ≡ on_found drone_key (drone_verdict now) (get_drone n.state id) (get_drone n.state id)
unfolding check_drone_health all_drones get_drone
check_drone_health-get_drone now n id w =
    check_drones-lookup now n (values n.state.drones) id
    ∙ visits-values drone_key (drone_verdict now) id n.state.drones (lookup id n.state.drones)
        w.drones

-- ===== src/BaseNode/Balance.antt =====
-- balanceDrones of cmd/base/drone_handler.go: a base that has more drones than another gives one away.
-- `alive_of` counts the drones of a base that are not lost. The first idle drone of the `range` over
-- the map is any of them, so it is a choice.
pub mod Target
pub mod Chain
use mi_desbloqueio_do_estrei.Common.{
  ap, ℕ, ◌+◌, ◌%◌, ◌≤◌, ◌<◌, ◌≡◌, refl, sym, String, Bool, true, false, not, ◌&&◌, ◌||◌, Option,
  none, some, List, [], ◌∷◌, length, get_elem?, select, count, IsIn, All, ltb, nat_eq,
  if◌then◌else◌, ◌==◌, ltb_string, to_lower, equal_fold, arith, inl, inr, Bool-cases,
}
use mi_desbloqueio_do_estrei.Models.{Drone, Base, drone_idle, drone_lost, msg_reassign}
use mi_desbloqueio_do_estrei.State
use mi_desbloqueio_do_estrei.BaseNode.{Config, Json, Node, balance_drones, to, go, send, stamped}

-- The test of both counts.
abbrev pub is_alive_at : String → Drone → Bool
is_alive_at base_id d = equal_fold d.base_id base_id && not (d.status == drone_lost)

unfoldable pub alive_of : List Drone → String → ℕ
alive_of drones base_id = count (is_alive_at base_id) drones

-- `diff > 1 || (diff == 1 && myID > peerID)`
unfoldable pub may_receive : String → ℕ → String → ℕ → Bool
may_receive my_id my_count peer_id n =
    ltb (n + 1) my_count || (nat_eq my_count (n + 1) && ltb_string peer_id my_id)

-- One round over the peers: `minDrones`, and `targetPeer` if it was found.
unfoldable pub consider : List Drone → String → ℕ → ℕ × Option Base → Base → ℕ × Option Base
unfolding alive_of may_receive
consider drones my_id my_count (least, target) peer =
    let n = alive_of drones peer.id in
    if may_receive my_id my_count (to_lower peer.id) n
    then (if ltb n least then (n, some peer) else elim target [
      | none ↦ (least, none)
      | some t ↦
          if nat_eq n least && ltb_string (to_lower peer.id) (to_lower t.id)
          then (least, some peer)
          else (least, some t)
    ])
    else (least, target)

unfoldable pub consider_all :
    List Drone → String → ℕ → ℕ × Option Base → List Base → ℕ × Option Base
unfolding consider
consider_all drones my_id my_count acc [] = acc
consider_all drones my_id my_count acc (peer ∷ peers) =
    consider_all drones my_id my_count (consider drones my_id my_count acc peer) peers

unfoldable pub target_peer : Config → List Drone → List Base → Option Base
unfolding consider_all
target_peer cfg drones peers =
    let my_count = alive_of drones cfg.base_id in
    (consider_all drones (to_lower cfg.base_id) my_count (my_count, none) peers).1

-- The drone to give, and the peer.
unfoldable pub give_drone : Json → Config → ℕ → Node → Drone → Base → Node
unfolding stamped send go
give_drone json cfg now n d peer =
    let n1 : Node = record n { state = State.update_drone_status now n.state d.id drone_lost } in
    let (n2, msg) =
      stamped cfg n1 msg_reassign
        (json.put_reassign (record { new_base_id = peer.id; new_base_addr = peer.addr })) in
    go (send n2 (to d.addr msg)) balance_drones

unfoldable pub my_idle_drones : Config → List Drone → List Drone
my_idle_drones cfg drones = select (λ d. is_alive_at cfg.base_id d && d.status == drone_idle) drones

unfoldable pub balance_with : Json → Config → ℕ → Node → Option Drone → Option Base → Node
unfolding give_drone
balance_with json cfg now n none target = n
balance_with json cfg now n (some d) none = n
balance_with json cfg now n (some d) (some peer) = give_drone json cfg now n d peer

unfoldable pub balance : Json → Config → ℕ → ℕ → Node → Node
unfolding balance_with my_idle_drones target_peer
balance json cfg now choice n =
    let drones = State.all_drones n.state in
    let idle = my_idle_drones cfg drones in
    balance_with json cfg now n (get_elem? idle (choice % length idle))
      (target_peer cfg drones (State.online_peers n.state))

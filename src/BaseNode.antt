-- ===== src/BaseNode.antt =====
-- cmd/base: one base of the system. `Node` holds what main.go keeps in its package variables, the
-- goroutines that have been started and have not run, and the messages that have been sent.
-- A goroutine is a task. It runs in steps from one wait for the network to the next; the handlers and
-- the steps of the tasks may come in any order. All time.Now() calls of one step read one time.
-- encoding/json is the parameter `Json`: the text of a value, and the value of a text or an error.
pub mod Dispatcher
pub mod DroneHandler
pub mod Servers
pub mod Heartbeat
pub mod Balance
pub mod Step
use mi_desbloqueio_do_estrei.Common.{ℕ, String, Bool, Option, none, some, List, [], ◌∷◌, ◌++◌, map}
use mi_desbloqueio_do_estrei.Common.Int.{ℤ}
use mi_desbloqueio_do_estrei.Models.{
  Request, Drone, Base, Alert, Message, HeartbeatPayload, LockRequestPayload, LockReplyPayload,
  DispatchPayload, MissionDonePayload, DroneStatusPayload, RegisterPayload, ReassignPayload,
}
use mi_desbloqueio_do_estrei.Lamport.{Clock, tick}
use mi_desbloqueio_do_estrei.Queue.{PriorityQueue}
use mi_desbloqueio_do_estrei.State.{BaseState}
use mi_desbloqueio_do_estrei.Alerts.{Manager}

-- `cfg`, with the fields that the handlers read.
pub record Config : Type 0 where
  pub sector_id : String
  pub base_id : String
  pub base_host : String
  pub gossip_host : String
  pub peer_bases : List String
  pub peer_gossip : List String
  pub peer_hb : List String

-- json.Marshal and json.Unmarshal at the types that the base sends and receives.
pub record Json : Type 0 where
  pub put_request : Request → String
  pub put_requests : List Request → String
  pub put_drone : Drone → String
  pub put_lock_request : LockRequestPayload → String
  pub put_lock_reply : LockReplyPayload → String
  pub put_dispatch : DispatchPayload → String
  pub put_reassign : ReassignPayload → String
  pub put_heartbeat : HeartbeatPayload → String
  pub get_request : String → Option Request
  pub get_requests : String → Option (List Request)
  pub get_drone : String → Option Drone
  pub get_alert : String → Option Alert
  pub get_register : String → Option RegisterPayload
  pub get_mission_done : String → Option MissionDonePayload
  pub get_drone_status : String → Option DroneStatusPayload
  pub get_lock_request : String → Option LockRequestPayload
  pub get_lock_reply : String → Option LockReplyPayload
  pub get_heartbeat : String → Option HeartbeatPayload

-- The goroutines that a base starts. The last three are the dispatch of tryDispatch, at its start,
-- while it waits for the votes of the bases asked, and while it waits for the drone.
pub data Task : Type 0 where
  gossip_queue_add : Request → Task
  gossip_queue_update : Request → Task
  propagate_drone_info : Drone → Task
  broadcast_lock_release : String → Task
  send_full_queue_sync : String → Task
  balance_drones : Task
  dispatch : Request → Drone → Task
  await_votes : Request → Drone → List Base → Task
  await_drone : Request → Drone → Task

-- A message on its way: to an address, as the answer on the connection in hand, or by UDP.
pub data Sent : Type 0 where
  to : String → Message → Sent
  reply : Message → Sent
  heartbeat_to : String → Message → Sent

pub record Node : Type 0 where
  pub clk : Clock
  pub pq : PriorityQueue
  pub state : BaseState
  pub alert_mgr : Manager
  pub started : List Task
  pub sent : List Sent

-- `go f(...)`
unfoldable pub go : Node → Task → Node
go n t = record n { started = n.started ++ t ∷ [] }

unfoldable pub send : Node → Sent → Node
send n e = record n { sent = n.sent ++ e ∷ [] }

-- network.BroadcastMessage, of which the base drops the result.
unfoldable pub broadcast : Node → List String → Message → Node
broadcast n addrs msg = record n { sent = n.sent ++ map (λ a. to a msg) addrs }

-- A message stamped by clk.Tick().
unfoldable pub stamped : Config → Node → String → String → Node × Message
stamped cfg n type payload =
    let (c, ts) = tick n.clk in
    (
      record n { clk = c },
      record { type = type; sender_id = cfg.base_id; lamport_ts = ts; payload = payload },
    )

-- A broadcast of a stamped message.
unfoldable pub announce : Config → Node → List String → String → String → Node
unfolding stamped broadcast
announce cfg n addrs type payload =
    let (n', msg) = stamped cfg n type payload in broadcast n' addrs msg

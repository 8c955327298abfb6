-- ===== src/Models.antt =====
-- internal/models/types.go: the data that the parts of the system share and exchange.
-- The named string types are strings, since a message may carry any text. A `time.Time` is a number
-- of nanoseconds, with 0 for the zero time. A coordinate is an integer: the program makes only whole
-- ones, and the parts modelled here only hand them on. A payload is the text of its JSON.
use mi_desbloqueio_do_estrei.Common.{ℕ, String, List, Bool, ◌==◌, if◌then◌else◌}
use mi_desbloqueio_do_estrei.Common.Int.{ℤ, pos}

abbrev pub RequestType : Type 0
RequestType = String

abbrev pub type_critical : RequestType
type_critical = "CRITICAL"

abbrev pub type_normal : RequestType
type_normal = "NORMAL"

unfoldable pub priority : RequestType → ℤ
priority rt = if rt == type_critical then pos 1 else if rt == type_normal then pos 2 else pos 99

abbrev pub RequestStatus : Type 0
RequestStatus = String

abbrev pub status_pending : RequestStatus
status_pending = "PENDING"

abbrev pub status_locked : RequestStatus
status_locked = "LOCKED"

abbrev pub status_assigned : RequestStatus
status_assigned = "ASSIGNED"

abbrev pub status_done : RequestStatus
status_done = "DONE"

pub record Request : Type 0 where
  pub id : String
  pub sector_id : String
  pub sensor_id : String
  pub type : RequestType
  pub priority : ℤ
  pub lamport_ts : ℤ
  pub wall_clock : ℕ
  pub status : RequestStatus
  pub locked_by : String
  pub assigned_to : String
  pub description : String

-- `models.Request{}`
abbrev pub zero_request : Request
zero_request = record {
  id = "";
  sector_id = "";
  sensor_id = "";
  type = "";
  priority = pos 0;
  lamport_ts = pos 0;
  wall_clock = 0;
  status = "";
  locked_by = "";
  assigned_to = "";
  description = "";
}

abbrev pub DroneStatus : Type 0
DroneStatus = String

abbrev pub drone_idle : DroneStatus
drone_idle = "IDLE"

abbrev pub drone_busy : DroneStatus
drone_busy = "BUSY"

abbrev pub drone_lost : DroneStatus
drone_lost = "LOST"

pub record Drone : Type 0 where
  pub id : String
  pub base_id : String
  pub sector_id : String
  pub status : DroneStatus
  pub mission_desc : String
  pub x : ℤ
  pub y : ℤ
  pub last_seen : ℕ
  pub addr : String

abbrev pub BaseStatus : Type 0
BaseStatus = String

abbrev pub base_online : BaseStatus
base_online = "ONLINE"

abbrev pub base_offline : BaseStatus
base_offline = "OFFLINE"

pub record Base : Type 0 where
  pub id : String
  pub sector_id : String
  pub addr : String
  pub gossip_addr : String
  pub status : BaseStatus
  pub last_seen : ℕ
  pub x : ℤ
  pub y : ℤ

abbrev pub AlertLevel : Type 0
AlertLevel = String

abbrev pub alert_info : AlertLevel
alert_info = "INFO"

abbrev pub alert_warn : AlertLevel
alert_warn = "WARN"

abbrev pub alert_critical : AlertLevel
alert_critical = "CRITICAL"

abbrev pub alert_ok : AlertLevel
alert_ok = "OK"

pub record Alert : Type 0 where
  pub level : AlertLevel
  pub source : String
  pub message : String
  pub timestamp : ℕ

abbrev pub MessageType : Type 0
MessageType = String

abbrev pub msg_sensor_event : MessageType
msg_sensor_event = "SENSOR_EVENT"

abbrev pub msg_new_request : MessageType
msg_new_request = "NEW_REQUEST"

abbrev pub msg_queue_sync : MessageType
msg_queue_sync = "QUEUE_SYNC"

abbrev pub msg_queue_add : MessageType
msg_queue_add = "QUEUE_ADD"

abbrev pub msg_queue_clear : MessageType
msg_queue_clear = "QUEUE_CLEAR"

abbrev pub msg_queue_update : MessageType
msg_queue_update = "QUEUE_UPDATE"

abbrev pub msg_lock_request : MessageType
msg_lock_request = "LOCK_REQUEST"

abbrev pub msg_lock_reply : MessageType
msg_lock_reply = "LOCK_REPLY"

abbrev pub msg_lock_release : MessageType
msg_lock_release = "LOCK_RELEASE"

abbrev pub msg_drone_info : MessageType
msg_drone_info = "DRONE_INFO"

abbrev pub msg_drone_adopt : MessageType
msg_drone_adopt = "DRONE_ADOPT"

abbrev pub msg_dispatch : MessageType
msg_dispatch = "DISPATCH"

abbrev pub msg_reassign : MessageType
msg_reassign = "REASSIGN"

abbrev pub msg_mission_done : MessageType
msg_mission_done = "MISSION_DONE"

abbrev pub msg_drone_status_update : MessageType
msg_drone_status_update = "DRONE_STATUS_UPDATE"

abbrev pub msg_register : MessageType
msg_register = "REGISTER"

abbrev pub msg_alert : MessageType
msg_alert = "ALERT"

abbrev pub msg_heartbeat : MessageType
msg_heartbeat = "HEARTBEAT"

abbrev pub msg_status_update : MessageType
msg_status_update = "STATUS_UPDATE"

pub record Message : Type 0 where
  pub type : MessageType
  pub sender_id : String
  pub lamport_ts : ℤ
  pub payload : String

pub record HeartbeatPayload : Type 0 where
  pub node_type : String
  pub node_id : String
  pub base_id : String
  pub sector_id : String
  pub gossip_addr : String
  pub addr : String
  pub status : String

pub record LockRequestPayload : Type 0 where
  pub request_id : String
  pub base_id : String
  pub lamport_ts : ℤ

pub record LockReplyPayload : Type 0 where
  pub request_id : String
  pub granted : Bool
  pub base_id : String

pub record DispatchPayload : Type 0 where
  pub request_id : String
  pub sector_id : String
  pub target_x : ℤ
  pub target_y : ℤ
  pub description : String
  pub priority : ℤ

pub record MissionDonePayload : Type 0 where
  pub drone_id : String
  pub request_id : String
  pub success : Bool

pub record DroneStatusPayload : Type 0 where
  pub drone_id : String
  pub mission_desc : String

pub record RegisterPayload : Type 0 where
  pub drone_id : String
  pub addr : String
  pub x : ℤ
  pub y : ℤ

pub record ReassignPayload : Type 0 where
  pub new_base_id : String
  pub new_base_addr : String

pub record StatusUpdatePayload : Type 0 where
  pub sector_id : String
  pub bases : List Base
  pub drones : List Drone
  pub queue : List Request
  pub alerts : List Alert
  pub active_sensors : List (String × ℤ)
  pub active_brokers : List (String × ℤ)

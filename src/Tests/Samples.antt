-- ===== src/Tests/Samples.antt =====
-- Requests, drones, bases and a base node for the tests.
use mi_desbloqueio_do_estrei.Common.{String, true, none, some, [], ◌∷◌, if◌then◌else◌, ◌==◌}
use mi_desbloqueio_do_estrei.Common.Int.{pos}
use mi_desbloqueio_do_estrei.Models.{
  Request, zero_request, Drone, Base, Message, type_critical, type_normal, status_pending,
  status_assigned, drone_idle, drone_busy, base_online,
}
use mi_desbloqueio_do_estrei.Queue.{PriorityQueue}
use mi_desbloqueio_do_estrei.State.{BaseState}
use mi_desbloqueio_do_estrei.BaseNode.{Config, Json, Node}

abbrev pub urgent : Request
urgent = record zero_request {
  id = "r1";
  sector_id = "A";
  type = type_critical;
  priority = pos 1;
  lamport_ts = pos 7;
  status = status_pending;
}

abbrev pub ordinary : Request
ordinary = record zero_request {
  id = "r2";
  sector_id = "B";
  type = type_normal;
  priority = pos 2;
  lamport_ts = pos 4;
  status = status_pending;
}

abbrev pub in_flight : Request
in_flight = record zero_request {
  id = "r3";
  sector_id = "C";
  type = type_normal;
  priority = pos 2;
  lamport_ts = pos 2;
  status = status_assigned;
  assigned_to = "d2";
  locked_by = "base-A";
}

abbrev pub sample : PriorityQueue
sample = record { heap = urgent ∷ ordinary ∷ in_flight ∷ []; seen = "r3" ∷ "r2" ∷ "r1" ∷ "r0" ∷ [] }

abbrev pub idle_one : Drone
idle_one = record {
  id = "d1";
  base_id = "base-A";
  sector_id = "A";
  status = drone_idle;
  mission_desc = "";
  x = pos 0;
  y = pos 0;
  last_seen = 100;
  addr = "localhost:9001";
}

abbrev pub busy_one : Drone
busy_one = record idle_one { id = "d2"; status = drone_busy; addr = "localhost:9002" }

abbrev pub other_base : Base
other_base = record {
  id = "BASE-B";
  sector_id = "B";
  addr = "localhost:8011";
  gossip_addr = "localhost:8012";
  status = base_online;
  last_seen = 100;
  x = pos 0;
  y = pos 0;
}

abbrev pub sample_state : BaseState
sample_state = record {
  drones = ("d1", idle_one) ∷ ("d2", busy_one) ∷ [];
  peers = ("BASE-B", other_base) ∷ [];
  locks = ("r3", "base-A") ∷ [];
  sensors = ("sensor-A1", pos 5) ∷ [];
  brokers = [];
}

abbrev pub sample_config : Config
sample_config = record {
  sector_id = "A";
  base_id = "base-A";
  base_host = "localhost:8001";
  gossip_host = "localhost:8002";
  peer_bases = "localhost:8011" ∷ [];
  peer_gossip = "localhost:8012" ∷ [];
  peer_hb = "localhost:8510" ∷ [];
}

-- Each kind of payload has one text, and one value to read.
abbrev pub sample_json : Json
sample_json = record {
  put_request = λ r. r.id;
  put_requests = λ _. "requests";
  put_drone = λ d. d.id;
  put_lock_request = λ p. p.request_id;
  put_lock_reply = λ p. if p.granted then "granted" else "denied";
  put_dispatch = λ p. p.request_id;
  put_reassign = λ p. p.new_base_id;
  put_heartbeat = λ p. p.node_id;
  get_request = λ s. if s == "r4" then some (record urgent { id = "r4" }) else none;
  get_requests = λ _. some (urgent ∷ ordinary ∷ []);
  get_drone = λ _. some idle_one;
  get_alert = λ _. none;
  get_register = λ s. some (record { drone_id = s; addr = "localhost:9001"; x = pos 0; y = pos 0 });
  get_mission_done = λ s. some (record { drone_id = "d2"; request_id = s; success = true });
  get_drone_status = λ s. some (record { drone_id = "d1"; mission_desc = s });
  get_lock_request = λ s. some (record { request_id = s; base_id = "base-B"; lamport_ts = pos 3 });
  get_lock_reply =
      λ s. some (record { request_id = "r1"; granted = s == "granted"; base_id = "base-B" });
  get_heartbeat = λ _. none;
}

abbrev pub sample_node : Node
sample_node = record {
  clk = record { value = pos 9 };
  pq = sample;
  state = sample_state;
  alert_mgr = record { alerts = []; source = "base-A"; handlers = [] };
  started = [];
  sent = [];
}

abbrev pub message : String → String → Message
message type payload = record {
  type = type;
  sender_id = "base-B";
  lamport_ts = pos 11;
  payload = payload;
}

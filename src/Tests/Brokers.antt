-- ===== src/Tests/Brokers.antt =====
-- A broker that hears from a sensor.
use mi_desbloqueio_do_estrei.Common.{
  refl, some, none, [], ◌∷◌, arith, inl, inr, if◌then◌else◌, ◌==◌,
}
use mi_desbloqueio_do_estrei.Common.Int.{pos}
use mi_desbloqueio_do_estrei.Models.{msg_sensor_event}
use mi_desbloqueio_do_estrei.Alerts
use mi_desbloqueio_do_estrei.Lamport.{get, update}
use mi_desbloqueio_do_estrei.Common.Int.{wrap_int64}
use mi_desbloqueio_do_estrei.Broker.{Config, Library, Network, Node, handle_sensor_conn}
use mi_desbloqueio_do_estrei.Broker.{new_request}
use mi_desbloqueio_do_estrei.BaseNode.{Json}
use mi_desbloqueio_do_estrei.Models.{Request, priority}
use mi_desbloqueio_do_estrei.Common.{any}
use mi_desbloqueio_do_estrei.Broker.Delivery.{IsDelivered, made, carried, handle-IsDelivered}
use mi_desbloqueio_do_estrei.Tests.Samples.{sample_json, sample_config, sample_node}
use mi_desbloqueio_do_estrei.Broker.Forward.{IsForwarded, handle-IsForwarded}
use mi_desbloqueio_do_estrei.Tests.Samples.{urgent, message}

abbrev sample_broker : Config
sample_broker = record {
  sector_id = "A";
  broker_id = "broker-A";
  peer_bases = "localhost:8001" ∷ "localhost:8011" ∷ [];
  hb_targets = [];
}

abbrev broker_library : Library
broker_library = record {
  put_request = λ r. r.description;
  put_heartbeat = λ p. p.node_id;
  get_request = λ s. if s == "fire" then some urgent else none;
  decode_error = λ s. s;
  decimal = λ z. "7";
  show_addrs = λ addrs. "";
}

-- The second base cannot be reached.
abbrev half_down : Network
half_down _ addr = addr == "localhost:8011"

abbrev listening : Node
listening = record {
  clk = record { value = pos 20 };
  alert_mgr = Alerts.new "broker-A";
  req_counter = pos 6;
  sent = [];
}

handle-IsForwarded_example :
    IsForwarded sample_broker broker_library half_down
      (handle_sensor_conn sample_broker broker_library half_down 90 listening
        (message msg_sensor_event "fire")).sent
      "localhost:8001"
      urgent
      (pos 11)
      90
      (pos 7)
unfolding get update wrap_int64
handle-IsForwarded_example =
    handle-IsForwarded sample_broker broker_library half_down 90 listening
      (message msg_sensor_event "fire") urgent "localhost:8001" refl refl refl (inl refl)
      (λ _. refl) (omega arith, omega arith) (omega arith, omega arith) (omega arith) (omega arith)
      (omega arith)

-- The request that the broker makes, and a base that can read it.
abbrev fire : Request
fire = record urgent { id = "req-A-7-7"; lamport_ts = pos 21; wall_clock = 90 }

abbrev reads_fire : Json
reads_fire = record sample_json {
  get_request = λ s. if s == urgent.description then some fire else none;
}

handle-IsDelivered_example :
    IsDelivered reads_fire sample_config
      (handle_sensor_conn sample_broker broker_library half_down 90 listening
        (message msg_sensor_event "fire")).sent
      "localhost:8001"
      (carried sample_broker broker_library half_down 90 listening
        (message msg_sensor_event "fire")
        urgent)
      (made sample_broker broker_library half_down 90 listening
        (message msg_sensor_event "fire")
        urgent)
      95
      sample_node
unfolding new_request update get wrap_int64 priority mi_desbloqueio_do_estrei.Common.concat
handle-IsDelivered_example =
    handle-IsDelivered sample_broker broker_library half_down reads_fire sample_config 90 95
      listening (message msg_sensor_event "fire") urgent "localhost:8001" sample_node refl refl refl
      (inl refl) (λ _. refl) refl refl

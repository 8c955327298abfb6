-- ===== src/Tests/Sensors.antt =====
-- A sensor whose broker fails and comes back.
use mi_desbloqueio_do_estrei.Common.{ℕ, String, Bool, true, false, List, [], ◌∷◌, ◌==◌, ltb}
use mi_desbloqueio_do_estrei.Common.Int.{pos}
use mi_desbloqueio_do_estrei.Alerts
use mi_desbloqueio_do_estrei.Sensor.{
  Config, Library, Network, Node, Event, event_round, watch_round, heartbeat_round,
}

abbrev sample_sensor : Config
sample_sensor = record {
  sector_id = "A";
  sensor_id = "sensor-A1";
  primary_broker = "localhost:7001";
  peer_brokers = "localhost:7001" ∷ "localhost:7002" ∷ "localhost:7003" ∷ [];
  hb_targets = "localhost:8500" ∷ [];
}

abbrev sensor_library : Library
sensor_library = record {
  put_request = λ r. r.description;
  put_heartbeat = λ p. p.node_id;
  decimal = λ z. "1";
}

abbrev third_up : String → Bool
third_up addr = addr == "localhost:7003"

abbrev third_only : Network
third_only _ addr = third_up addr

abbrev measuring : Node
measuring = record {
  clk = record { value = pos 0 };
  alert_mgr = Alerts.new "sensor-A1";
  active_broker = "localhost:7001";
  broker_failed = false;
  event_count = pos 0;
  round = pos 0;
  sent = [];
}

-- A roll of 0.5.
abbrev half : ℕ → Bool
half t = ltb t 500

abbrev rounds : List Event
rounds =
    event_round 10 half
    ∷ watch_round false
    ∷ heartbeat_round
    ∷ event_round 20 half
    ∷ watch_round true
    ∷ event_round 30 half
    ∷ []

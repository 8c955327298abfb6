-- ===== src/Settings/Programs.antt =====
-- The configuration of each program, from its environment: loadConfig of cmd/base/main.go and the first
-- lines of main in cmd/broker, cmd/sensor, cmd/drone and cmd/webdash.
use mi_desbloqueio_do_estrei.Common.{
  String, none, some, List, [], ◌∷◌, ◌++◌, not, if◌then◌else◌, ◌==◌, concat,
}
use mi_desbloqueio_do_estrei.Common.Split.{is_comma, is_equals, split, split_two, trim_space}
use mi_desbloqueio_do_estrei.BaseNode
use mi_desbloqueio_do_estrei.Broker
use mi_desbloqueio_do_estrei.DroneNode
use mi_desbloqueio_do_estrei.Sensor
use mi_desbloqueio_do_estrei.Settings.{Env, get_env, env_list, default_host, default_drone_host}

unfoldable pub base_config : Env → BaseNode.Config
unfolding get_env env_list default_host
base_config env =
    let sector_id = get_env env "SECTOR_ID" "A" in
    record {
      sector_id = sector_id;
      base_id = concat ("base-" ∷ sector_id ∷ []);
      base_host = get_env env "BASE_HOST" (default_host (get_env env "BASE_ADDR" "0.0.0.0:8001"));
      gossip_host =
          get_env env "GOSSIP_HOST" (default_host (get_env env "GOSSIP_ADDR" "0.0.0.0:8002"));
      peer_bases = env_list env "PEER_BASES";
      peer_gossip = env_list env "PEER_GOSSIP";
      peer_hb = env_list env "PEER_HB";
    }

unfoldable pub broker_config : Env → Broker.Config
unfolding get_env env_list
broker_config env =
    let sector_id = get_env env "SECTOR_ID" "A" in
    let base_addr = get_env env "BASE_ADDR" "127.0.0.1:8101" in
    record {
      sector_id = sector_id;
      broker_id = concat ("broker-" ∷ sector_id ∷ []);
      peer_bases =
          env_list env "PEER_BASES" ++ (if not (base_addr == "") then base_addr ∷ [] else []);
      hb_targets = env_list env "HB_TARGETS";
    }

unfoldable pub sensor_config : Env → Sensor.Config
unfolding get_env env_list
sensor_config env =
    let sector_id = get_env env "SECTOR_ID" "A" in
    record {
      sector_id = sector_id;
      sensor_id = get_env env "SENSOR_ID" (concat ("sensor-" ∷ sector_id ∷ "1" ∷ []));
      primary_broker = get_env env "BROKER_ADDR" "localhost:7001";
      peer_brokers = env_list env "PEER_BROKERS";
      hb_targets = env_list env "HB_TARGETS";
    }

unfoldable pub drone_config : Env → DroneNode.Config
unfolding get_env env_list default_drone_host
drone_config env = record {
  drone_id = get_env env "DRONE_ID" "drone-A1";
  drone_host =
      get_env env "DRONE_HOST" (default_drone_host (get_env env "DRONE_ADDR" "0.0.0.0:9001"));
  home_addr = get_env env "BASE_ADDR" "localhost:8001";
  peer_bases = env_list env "PEER_BASES";
  hb_targets = env_list env "HB_TARGETS";
}

-- sectorDash of the web dashboard: a base by its sector.
pub record SectorDash : Type 0 where
  pub id : String
  pub addr : String

unfoldable pub parse_parts : List String → List SectorDash
unfolding trim_space split_two
parse_parts [] = []
parse_parts (part ∷ parts) =
    let rest = parse_parts parts in
    elim (split_two is_equals (trim_space part)) [
      | none ↦ rest
      | some (id, addr) ↦ record { id = id; addr = addr } ∷ rest
    ]

-- The loops over BASE_ADDRS and BASE_TCP_ADDRS.
unfoldable pub parse_sectors : String → List SectorDash
unfolding parse_parts split
parse_sectors raw = parse_parts (split is_comma raw)

unfoldable pub dash_sectors : Env → List SectorDash
unfolding get_env parse_sectors
dash_sectors env =
    parse_sectors (
      get_env env "BASE_ADDRS"
        "A=localhost:3001,B=localhost:3011,C=localhost:3021,D=localhost:3031")

unfoldable pub dash_tcp_sectors : Env → List SectorDash
unfolding get_env parse_sectors
dash_tcp_sectors env = parse_sectors (
    get_env env "BASE_TCP_ADDRS"
      "A=localhost:8001,B=localhost:8011,C=localhost:8021,D=localhost:8031")

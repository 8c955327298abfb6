-- ===== src/Tests/DroneRuns.antt =====
-- A drone: its missions, its reports, and its change of base.
use mi_desbloqueio_do_estrei.Common.{
  ℕ, ◌⊎◌, get_elem?, ◌≡◌, ◌≢◌, ◌≤◌, refl, String, true, false, Option, some, none, List, [], ◌∷◌,
  arith, find?, is_some, IsIn, if◌then◌else◌, ◌==◌, eq_iff,
}
use mi_desbloqueio_do_estrei.Common.Int.{pos}
use mi_desbloqueio_do_estrei.Models.{Message, msg_dispatch, msg_mission_done, msg_reassign}
use mi_desbloqueio_do_estrei.Alerts
use mi_desbloqueio_do_estrei.DroneNode.{
  Config, Library, Network, Node, Event, command, watch_tick, heartbeat_tick, task_runs, ask,
  reporting, steps, report,
}
use mi_desbloqueio_do_estrei.DroneNode.Single.{IsSingle, steps-IsSingle, turns, turns_bound}
use mi_desbloqueio_do_estrei.DroneNode.{Task}
use mi_desbloqueio_do_estrei.DroneNode.Turns.{on_mission}
use mi_desbloqueio_do_estrei.DroneNode.Fallback.{is_refuge, addr_after, IsTold, report_lem}
use mi_desbloqueio_do_estrei.Tests.Samples.{message}

abbrev sample_drone : Config
sample_drone = record {
  drone_id = "d1";
  drone_host = "localhost:9001";
  home_addr = "localhost:8001";
  peer_bases = "localhost:8001" ∷ "localhost:8011" ∷ "localhost:8021" ∷ [];
  hb_targets = "localhost:8500" ∷ "localhost:8510" ∷ [];
}

abbrev sample_library : Library
sample_library = record {
  put_register = λ p. p.drone_id;
  put_drone_status = λ p. p.mission_desc;
  put_mission_done = λ p. p.request_id;
  put_heartbeat = λ p. p.status;
  get_dispatch = λ s. record {
    request_id = s;
    sector_id = "B";
    target_x = pos 30;
    target_y = pos 10;
    description = "";
    priority = pos 1;
  };
  get_reassign = λ s. record { new_base_id = "base-C"; new_base_addr = s };
  travel_ms = λ x y u v. 16000;
}

-- Only the third base answers.
abbrev alive : String → Option Message
alive addr = if addr == "localhost:8021" then some (message "STATUS_UPDATE" "") else none

abbrev steady_net : Network
steady_net _ addr _ = alive addr

abbrev resting : Node
resting = record {
  clk = record { value = pos 3 };
  alert_mgr = Alerts.new "d1";
  busy = false;
  base_addr = "localhost:8001";
  base_id = "base-A";
  pos_x = pos 10;
  pos_y = pos 10;
  fails = 0;
  started = [];
  sent = [];
}

resting-IsSingle : IsSingle resting
resting-IsSingle = record { one = omega arith; few = omega arith }

based : ◌≢◌ {A = String} "localhost:8001" ""
based e = absurd (ground (arith, eq_iff "localhost:8001" "", e))

-- A mission and a second order, with its base dead, the drone watching, and a reassignment meanwhile.
abbrev mission : List Event
mission =
    command (message msg_dispatch "r1")
    ∷ command (message msg_dispatch "r2")
    ∷ task_runs 0 10
    ∷ watch_tick 20 false
    ∷ task_runs 0 30
    ∷ heartbeat_tick
    ∷ task_runs 0 40
    ∷ command (message msg_reassign "localhost:8011")
    ∷ task_runs 0 50
    ∷ task_runs 1 60
    ∷ task_runs 0 70
    ∷ task_runs 0 80
    ∷ []

steps-IsSingle_example : IsSingle (steps sample_drone sample_library steady_net resting mission)
steps-IsSingle_example =
    steps-IsSingle sample_drone sample_library steady_net resting mission resting-IsSingle

abbrev flying : Node
flying =
    steps sample_drone sample_library steady_net resting (command (message msg_dispatch "r1") ∷ [])

flying-IsSingle : IsSingle flying
flying-IsSingle =
    steps-IsSingle sample_drone sample_library steady_net resting
      (command (message msg_dispatch "r1") ∷ []) resting-IsSingle

turns_bound_example :
    let landed = steps sample_drone sample_library steady_net flying mission in
    (turns sample_drone sample_library steady_net flying mission ≤ 6)
    × ((landed.busy ≡ false)
        ⊎ ((i : ℕ) × (t : Task) × (get_elem? landed.started i ≡ some t) × (on_mission t ≡ true)))
turns_bound_example =
    turns_bound sample_drone sample_library steady_net flying mission flying-IsSingle

report_lem_example :
    let msg = message msg_mission_done "r1" in
    let chosen = find? (is_refuge alive "localhost:8001") sample_drone.peer_bases in
    let told = report sample_drone sample_library steady_net 3 resting msg in
    let moved = report sample_drone sample_library steady_net 0 resting msg in
    let there = is_some (alive "localhost:8001") in
    (IsIn (ask "localhost:8001" msg) told.sent
      × (told.busy ≡ (if there then false else false))
      × (told.started ≡ (if there then [] else reporting 2 msg ∷ [])))
    × (IsTold chosen msg moved.sent
        × (moved.base_addr ≡ addr_after chosen "localhost:8001")
        × (moved.busy ≡ false))
report_lem_example =
    report_lem sample_drone sample_library steady_net alive 2 resting
      (message msg_mission_done "r1") (λ sent addr msg. refl) based

abbrev doubting : Node
doubting = record resting { fails = 2 }

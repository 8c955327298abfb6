-- ===== src/DroneNode.antt =====
-- cmd/drone/main.go: one drone. `Node` holds its package variables, the goroutines that have been started
-- and wait for their next step, and what has been sent. A step lasts from one time.Sleep to the next:
-- what the network answers within a step is there at once, and steps of different goroutines may come in
-- any order. The network is a parameter: its answer may depend on all that has been sent before.
pub mod Quiet
pub mod Turns
pub mod Single
pub mod Fallback
pub mod Watch
use mi_desbloqueio_do_estrei.Common.{
  ℕ, zero, suc, ◌+◌, ◌*◌, String, Bool, true, false, not, Option, none, some, List, [], ◌∷◌, ◌++◌,
  get_elem?, if◌then◌else◌, ◌==◌, leb, ltb, concat,
}
use mi_desbloqueio_do_estrei.Common.Int.{ℤ, pos}
use mi_desbloqueio_do_estrei.Models.{
  Message, DispatchPayload, ReassignPayload, RegisterPayload, DroneStatusPayload,
  MissionDonePayload, HeartbeatPayload, drone_busy, drone_idle, msg_register, msg_dispatch,
  msg_reassign, msg_status_update, msg_drone_status_update, msg_mission_done, msg_heartbeat,
}
use mi_desbloqueio_do_estrei.Lamport
use mi_desbloqueio_do_estrei.Lamport.{Clock}
use mi_desbloqueio_do_estrei.Alerts
use mi_desbloqueio_do_estrei.Alerts.{Manager}

-- The package variables that main sets once.
pub record Config : Type 0 where
  pub drone_id : String
  pub drone_host : String
  pub home_addr : String
  pub peer_bases : List String
  pub hb_targets : List String

-- json.Marshal and json.Unmarshal at the types that the drone sends and receives. The drone ignores the
-- error of Unmarshal, so that reading a payload gives what Unmarshal has written to the variable.
-- `travel_ms` is time.Duration(dist*800), with dist by math.Sqrt and math.Pow, from where the drone is
-- to where it goes.
pub record Library : Type 0 where
  pub put_register : RegisterPayload → String
  pub put_drone_status : DroneStatusPayload → String
  pub put_mission_done : MissionDonePayload → String
  pub put_heartbeat : HeartbeatPayload → String
  pub get_dispatch : String → DispatchPayload
  pub get_reassign : String → ReassignPayload
  pub travel_ms : ℤ → ℤ → ℤ → ℤ → ℕ

-- A message on its way: with SendMessageWithReply or SendMessage, as the answer on the connection in
-- hand, or by UDP.
pub data Sent : Type 0 where
  ask : String → Message → Sent
  tell : String → Message → Sent
  reply : Message → Sent
  heartbeat_to : String → Message → Sent

-- The answer to a message, or `none` for an error, after what has been sent.
abbrev pub Network : Type 0
Network = List Sent → String → Message → Option Message

-- The goroutines: handleDispatch at its start, on the way with its travel time, on the way back, and with
-- MISSION_DONE and the tries that reportMissionDone has left; and handleReassign.
pub data Task : Type 0 where
  dispatched : Message → Task
  going : ℕ → DispatchPayload → Task
  returning : String → Task
  reporting : ℕ → Message → Task
  reassigned : Message → Task

-- `fails` is the counter of watchBaseConnection.
pub record Node : Type 0 where
  pub clk : Clock
  pub alert_mgr : Manager
  pub busy : Bool
  pub base_addr : String
  pub base_id : String
  pub pos_x : ℤ
  pub pos_y : ℤ
  pub fails : ℕ
  pub started : List Task
  pub sent : List Sent

unfoldable pub go : Node → Task → Node
go n t = record n { started = n.started ++ t ∷ [] }

unfoldable pub send : Node → Sent → Node
send n e = record n { sent = n.sent ++ e ∷ [] }

-- The end of handleDispatch.
unfoldable pub mission_over : Node → Node
mission_over n = record n { busy = false }

-- What the drone meets: a message, the end of a wait of watchBaseConnection with the result of dialling
-- the base, the end of a wait of runHeartbeat, and a goroutine, by its place, that goes on. Each that
-- writes an alert has the time.
pub data Event : Type 0 where
  command : Message → Event
  watch_tick : ℕ → Bool → Event
  heartbeat_tick : Event
  task_runs : ℕ → ℕ → Event

-- The list without the item at a place.
abbrev pub without : ℕ → List Task → List Task
without i [] = []
without zero (t ∷ ts) = ts
without (suc i) (t ∷ ts) = t ∷ without i ts

module _ (cfg : Config) (lib : Library) where
  -- A message stamped by clk.Tick().
  unfoldable pub stamped : Node → String → String → Node × Message
  stamped n type payload =
      let (c, ts) = Lamport.tick n.clk in
      (
        record n { clk = c },
        record { type = type; sender_id = cfg.drone_id; lamport_ts = ts; payload = payload },
      )

  unfoldable pub register_message : Node → Node × Message
  unfolding stamped
  register_message n = stamped n msg_register (
      lib.put_register
        (record { drone_id = cfg.drone_id; addr = cfg.drone_host; x = n.pos_x; y = n.pos_y }))

  -- registerWithBase after the answer of the base at `addr`. The flag says that there is no error.
  unfoldable pub registered : Node → String → Option Message → Node × Bool
  registered n addr none = (n, false)
  registered n addr (some answer) =
      (record n { base_addr = addr; base_id = answer.sender_id }, true)

  unfoldable pub register_with_base : Network → Node → String → Node × Bool
  unfolding register_message registered send
  register_with_base net n addr =
      let (n1, msg) = register_message n in
      registered (send n1 (ask addr msg)) addr (net n.sent addr msg)

  -- The loop of tryFallbackBases.
  unfoldable pub try_each : Network → Node → List String → Node × Bool
  unfolding register_with_base
  try_each net n [] = (n, false)
  try_each net n (addr ∷ addrs) =
      let (n1, ok) = register_with_base net n addr in
      let skip = try_each net n addrs in
      let rest = try_each net n1 addrs in
      if addr == n.base_addr then skip else if ok then (n1, true) else rest

  unfoldable pub try_fallback_bases : Network → Node → Node × Bool
  unfolding try_each
  try_fallback_bases net n = try_each net n cfg.peer_bases

  -- main, up to the goroutines.
  unfoldable pub start : Network → ℕ → Node → Node
  unfolding register_with_base try_fallback_bases
  start net now n =
      let (n1, ok) = register_with_base net n cfg.home_addr in
      if ok
      then n1
      else (try_fallback_bases net (record n1 {
        alert_mgr =
            Alerts.critical now n1.alert_mgr
              (concat ("Falha ao registrar na base home " ∷ n1.base_addr ∷ []));
      })).0

  unfoldable pub send_status_update : Node → String → Node
  unfolding stamped send
  send_status_update n desc =
      if n.base_addr == ""
      then n
      else let (n1, msg) =
          stamped n msg_drone_status_update
            (lib.put_drone_status (record { drone_id = cfg.drone_id; mission_desc = desc })) in
        send n1 (tell n.base_addr msg)

  -- handleBaseCommand on a message that could be read.
  unfoldable pub handle_base_command : Node → Message → Node
  unfolding stamped send go
  handle_base_command n msg =
      let n1 : Node = record n { clk = (Lamport.update n.clk msg.lamport_ts).0 } in
      if msg.type == msg_dispatch
      then (if n1.busy
          then n1
          else let (n2, answer) = stamped (record n1 { busy = true }) msg_status_update "" in
            go (send n2 (reply answer)) (dispatched msg))
      else if msg.type == msg_reassign
      then go n1 (reassigned msg)
      else n1

  -- `travelTime`, in nanoseconds.
  unfoldable pub travel_time : Node → DispatchPayload → ℕ
  travel_time n dp =
      let t = lib.travel_ms n.pos_x n.pos_y dp.target_x dp.target_y * 1000000 in
      let t1 = if ltb t 10000000000 then 10000000000 else t in
      if ltb 20000000000 t1 then 20000000000 else t1

  -- handleDispatch up to the first time.Sleep.
  unfoldable pub begin_mission : ℕ → Node → Message → Node
  unfolding send_status_update travel_time go
  begin_mission now n msg =
      let dp = lib.get_dispatch msg.payload in
      let n1 : Node = record n {
        alert_mgr =
            Alerts.info now n.alert_mgr (concat ("Missão iniciada: req " ∷ dp.request_id ∷ []));
      } in
      let n2 = send_status_update n1 "Atendendo..." in go n2 (going (travel_time n2 dp) dp)

  -- At the target, up to the second time.Sleep.
  unfoldable pub turn_back : Node → DispatchPayload → Node
  unfolding send_status_update go
  turn_back n dp =
      go
        (send_status_update (record n { pos_x = dp.target_x; pos_y = dp.target_y })
          "Retornando para a base")
        (returning dp.request_id)

  -- reportMissionDone after its loop, and the end of handleDispatch.
  unfoldable pub report_elsewhere : Network → Node → Message → Node
  unfolding try_fallback_bases send mission_over
  report_elsewhere net n msg =
      let (n1, ok) = try_fallback_bases net n in
      mission_over (if ok then send n1 (ask n1.base_addr msg) else n1)

  -- A try to report, with the answer that comes when the base is asked.
  unfoldable pub answered : ℕ → Node → Message → Option Message → Node
  unfolding mission_over go
  answered tries n msg none = go n (reporting tries msg)
  answered tries n msg (some _) = mission_over n

  -- The loop of reportMissionDone with so many tries left.
  unfoldable pub report : Network → ℕ → Node → Message → Node
  unfolding report_elsewhere answered send go
  report net zero n msg = report_elsewhere net n msg
  report net (suc tries) n msg =
      if n.base_addr == ""
      then go n (reporting tries msg)
      else answered tries (send n (ask n.base_addr msg)) msg (net n.sent n.base_addr msg)

  unfoldable pub report_mission_done : Network → Node → String → Node
  unfolding stamped report
  report_mission_done net n req_id =
      let (n1, msg) = stamped n msg_mission_done (
        lib.put_mission_done
          (record { drone_id = cfg.drone_id; request_id = req_id; success = true })) in
      report net 3 n1 msg

  unfoldable pub handle_reassign : Network → Node → Message → Node
  unfolding register_with_base
  handle_reassign net n msg =
      let rp = lib.get_reassign msg.payload in
      (register_with_base net (record n { base_addr = rp.new_base_addr; base_id = rp.new_base_id })
        rp.new_base_addr).0

  -- watchBaseConnection after a time.Sleep. The flag says that the base could be dialled.
  unfoldable pub watch_failed : Network → ℕ → Node → Node
  unfolding try_fallback_bases
  watch_failed net now n =
      if not (leb 3 n.fails)
      then n
      else let (n1, ok) = try_fallback_bases net n in
        if ok
        then record n1 {
          alert_mgr =
              Alerts.ok now n1.alert_mgr (concat ("Drone redistribuído para " ∷ n1.base_addr ∷ []));
          fails = 0;
        }
        else n1

  unfoldable pub watch : Network → ℕ → Bool → Node → Node
  unfolding watch_failed
  watch net now dialled n =
      if n.base_addr == ""
      then n
      else if n.busy
      then record n { fails = 0 }
      else if not dialled
      then watch_failed net now (record n { fails = n.fails + 1 })
      else record n { fails = 0 }

  unfoldable pub heartbeat_payload : Node → HeartbeatPayload
  heartbeat_payload n = record {
    node_type = "drone";
    node_id = cfg.drone_id;
    base_id = n.base_id;
    sector_id = "";
    gossip_addr = "";
    addr = cfg.drone_host;
    status = if n.busy then drone_busy else drone_idle;
  }

  -- With the message of SendHeartbeat.
  unfoldable pub send_heartbeat : Node → String → Node
  unfolding stamped send heartbeat_payload
  send_heartbeat n target =
      let (n1, msg) = stamped n msg_heartbeat (lib.put_heartbeat (heartbeat_payload n)) in
      send n1 (heartbeat_to target msg)

  -- One round of runHeartbeat.
  unfoldable pub heartbeats : Node → List String → Node
  unfolding send_heartbeat
  heartbeats n [] = n
  heartbeats n (target ∷ targets) = heartbeats (send_heartbeat n target) targets

  unfoldable pub run_task : Network → ℕ → Node → Task → Node
  unfolding begin_mission turn_back report_mission_done report handle_reassign
  run_task net now n (dispatched msg) = begin_mission now n msg
  run_task net now n (going t dp) = turn_back n dp
  run_task net now n (returning req_id) = report_mission_done net n req_id
  run_task net now n (reporting tries msg) = report net tries n msg
  run_task net now n (reassigned msg) = handle_reassign net n msg

  unfoldable pub run_started : Network → ℕ → ℕ → Node → Option Task → Node
  unfolding run_task
  run_started net i now n none = n
  run_started net i now n (some t) = run_task net now (record n { started = without i n.started }) t

  unfoldable pub step : Network → Node → Event → Node
  unfolding handle_base_command watch heartbeats run_started
  step net n (command msg) = handle_base_command n msg
  step net n (watch_tick now dialled) = watch net now dialled n
  step net n heartbeat_tick = heartbeats n cfg.hb_targets
  step net n (task_runs i now) = run_started net i now n (get_elem? n.started i)

  unfoldable pub steps : Network → Node → List Event → Node
  unfolding step
  steps net n [] = n
  steps net n (e ∷ events) = steps net (step net n e) events

-- ===== src/Sensor.antt =====
-- cmd/sensor/main.go: a sensor, which reports to one broker and falls back on others. A round of each of
-- its loops, between two calls of time.Sleep, is one step. The network is a parameter: whether a
-- broker answers may depend on all that has been sent before. A roll of rng.Float32 is the test whether
-- it exceeds so many thousandths.
pub mod Link
use mi_desbloqueio_do_estrei.Common.{
  ℕ, String, Bool, true, false, not, List, [], ◌∷◌, ◌++◌, if◌then◌else◌, ◌==◌, concat,
}
use mi_desbloqueio_do_estrei.Common.Int.{ℤ, pos, suc_ℤ, wrap_int64}
use mi_desbloqueio_do_estrei.Models.{
  Request, RequestType, zero_request, Message, HeartbeatPayload, priority, type_critical,
  type_normal, status_pending, msg_sensor_event, msg_heartbeat,
}
use mi_desbloqueio_do_estrei.Lamport
use mi_desbloqueio_do_estrei.Lamport.{Clock}
use mi_desbloqueio_do_estrei.Alerts
use mi_desbloqueio_do_estrei.Alerts.{Manager}

pub record Config : Type 0 where
  pub sector_id : String
  pub sensor_id : String
  pub primary_broker : String
  pub peer_brokers : List String
  pub hb_targets : List String

-- json.Marshal, and the verb %d of fmt.Sprintf for an int64.
pub record Library : Type 0 where
  pub put_request : Request → String
  pub put_heartbeat : HeartbeatPayload → String
  pub decimal : ℤ → String

pub data Sent : Type 0 where
  ask : String → Message → Sent
  heartbeat_to : String → Message → Sent

-- Whether SendMessageWithReply gets an answer, after what has been sent.
abbrev pub Network : Type 0
Network = List Sent → String → Bool

-- `round` is the counter of sendEventsLoop; `broker_failed` is true for 1.
pub record Node : Type 0 where
  pub clk : Clock
  pub alert_mgr : Manager
  pub active_broker : String
  pub broker_failed : Bool
  pub event_count : ℤ
  pub round : ℤ
  pub sent : List Sent

unfoldable pub event_type : (ℕ → Bool) → RequestType
event_type roll = if roll 900 then type_critical else if roll 100 then type_normal else "TELEMETRY"

unfoldable pub send : Node → Sent → Node
send n e = record n { sent = n.sent ++ e ∷ [] }

module _ (cfg : Config) (lib : Library) where
  unfoldable pub event_text : (ℕ → Bool) → String
  event_text roll =
      let place = cfg.sensor_id ∷ " AREA " ∷ cfg.sector_id ∷ [] in
      if roll 900
      then concat ("CRITICO - SENSOR " ∷ place)
      else if roll 100
      then concat ("NORMAL - SENSOR " ∷ place)
      else "Dados contínuos descartados"

  unfoldable pub generate_event : (ℕ → Bool) → ℤ → Request
  unfolding event_type event_text
  generate_event roll n = record zero_request {
    id = concat ("req-" ∷ cfg.sensor_id ∷ "-" ∷ lib.decimal n ∷ []);
    sector_id = cfg.sector_id;
    sensor_id = cfg.sensor_id;
    type = event_type roll;
    priority = priority (event_type roll);
    description = event_text roll;
    status = status_pending;
  }

  -- The loop of tryFallbackBroker, at the active broker when it starts.
  unfoldable pub try_each : Network → Node → Message → List String → Node
  unfolding send
  try_each net n msg [] = n
  try_each net n msg (addr ∷ addrs) =
      let n1 = send n (ask addr msg) in
      let skip = try_each net n msg addrs in
      let rest = try_each net n1 msg addrs in
      if addr == n.active_broker
      then skip
      else if net n.sent addr
      then record n1 { active_broker = addr; broker_failed = true }
      else rest

  -- The event of the next round of sendEventsLoop, and its message.
  unfoldable pub next_event : (ℕ → Bool) → Node → Request
  unfolding generate_event
  next_event roll n = generate_event roll (wrap_int64 (suc_ℤ n.round))

  unfoldable pub event_message : (ℕ → Bool) → Node → Message
  unfolding next_event
  event_message roll n = record {
    type = msg_sensor_event;
    sender_id = cfg.sensor_id;
    lamport_ts = (Lamport.tick n.clk).1;
    payload = lib.put_request (next_event roll n);
  }

  -- The sensor once the active broker has been asked.
  unfoldable pub asked : (ℕ → Bool) → Node → Node
  unfolding event_message send
  asked roll n =
      send
        (record n {
          clk = (Lamport.tick n.clk).0;
          round = wrap_int64 (suc_ℤ n.round);
          event_count = wrap_int64 (suc_ℤ n.event_count);
        })
        (ask n.active_broker (event_message roll n))

  unfoldable pub confirmed : ℕ → Node → Request → Node
  confirmed now n req = if req.type == "TELEMETRY" then n else record n {
    alert_mgr = Alerts.info now n.alert_mgr (
        concat (
          "[Evento #"
          ∷ lib.decimal n.event_count
          ∷ "] Enviado e Confirmado → "
          ∷ n.active_broker
          ∷ " | ["
          ∷ req.type
          ∷ "]"
          ∷ []));
  }

  unfoldable pub send_event : Network → ℕ → (ℕ → Bool) → Node → Node
  unfolding asked confirmed try_each
  send_event net now roll n =
      if net n.sent n.active_broker
      then confirmed now (asked roll n) (next_event roll n)
      else try_each net (asked roll n) (event_message roll n) cfg.peer_brokers

  -- A round of watchPrimaryBroker, with the result of IsAlive.
  unfoldable pub watch : Bool → Node → Node
  watch alive n =
      if not n.broker_failed
      then n
      else if alive
      then record n { active_broker = cfg.primary_broker; broker_failed = false }
      else n

  -- With the message of SendHeartbeat.
  unfoldable pub send_heartbeat : Node → String → Node
  unfolding send
  send_heartbeat n target =
      let (c, ts) = Lamport.tick n.clk in
      let payload = lib.put_heartbeat (record {
        node_type = "sensor";
        node_id = cfg.sensor_id;
        base_id = "";
        sector_id = cfg.sector_id;
        gossip_addr = "";
        addr = "";
        status = "";
      }) in
      let msg : Message = record {
        type = msg_heartbeat;
        sender_id = cfg.sensor_id;
        lamport_ts = ts;
        payload = payload;
      } in
      send (record n { clk = c }) (heartbeat_to target msg)

  unfoldable pub heartbeats : Node → List String → Node
  unfolding send_heartbeat
  heartbeats n [] = n
  heartbeats n (target ∷ targets) = heartbeats (send_heartbeat n target) targets

-- The rounds of the three loops that main starts.
pub data Event : Type 0 where
  event_round : ℕ → (ℕ → Bool) → Event
  watch_round : Bool → Event
  heartbeat_round : Event

module _ (cfg : Config) (lib : Library) (net : Network) where
  unfoldable pub step : Node → Event → Node
  unfolding send_event watch heartbeats
  step n (event_round now roll) = send_event cfg lib net now roll n
  step n (watch_round alive) = watch cfg lib alive n
  step n heartbeat_round = heartbeats cfg lib n cfg.hb_targets

  unfoldable pub steps : Node → List Event → Node
  unfolding step
  steps n [] = n
  steps n (e ∷ events) = steps (step n e) events

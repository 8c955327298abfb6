-- ===== src/Broker.antt =====
-- cmd/broker/main.go: the broker of a sector, which turns what sensors send into requests for the bases.
-- A connection from a sensor is one step. Which bases cannot be reached is a parameter, and may depend on
-- all that has been sent before; they are listed in the order of the configuration.
pub mod Forward
pub mod Delivery
use mi_desbloqueio_do_estrei.Common.{
  ℕ, ◌-◌, String, Bool, true, false, not, Option, none, some, List, [], ◌∷◌, ◌++◌, length, map,
  select, nat_eq, if◌then◌else◌, ◌==◌, concat,
}
use mi_desbloqueio_do_estrei.Common.Int.{ℤ, pos, suc_ℤ, wrap_int64}
use mi_desbloqueio_do_estrei.Models.{
  Request, Message, HeartbeatPayload, priority, status_pending, msg_sensor_event, msg_new_request,
  msg_heartbeat,
}
use mi_desbloqueio_do_estrei.Lamport
use mi_desbloqueio_do_estrei.Lamport.{Clock}
use mi_desbloqueio_do_estrei.Alerts
use mi_desbloqueio_do_estrei.Alerts.{Manager}

pub record Config : Type 0 where
  pub sector_id : String
  pub broker_id : String
  pub peer_bases : List String
  pub hb_targets : List String

-- json.Marshal and json.Unmarshal, the text of the error for a payload that cannot be read, and the
-- verbs of fmt.Sprintf that the broker uses: %d for an int64, %v for a list of addresses.
pub record Library : Type 0 where
  pub put_request : Request → String
  pub put_heartbeat : HeartbeatPayload → String
  pub get_request : String → Option Request
  pub decode_error : String → String
  pub decimal : ℤ → String
  pub show_addrs : List String → String

pub data Sent : Type 0 where
  to : String → Message → Sent
  reply : Message → Sent
  heartbeat_to : String → Message → Sent

abbrev pub Network : Type 0
Network = List Sent → String → Bool

pub record Node : Type 0 where
  pub clk : Clock
  pub alert_mgr : Manager
  pub req_counter : ℤ
  pub sent : List Sent

-- The answer to the sensor, which has no stamp.
unfoldable pub acknowledge : Config → Node → Node
acknowledge cfg n = record n {
  sent =
      n.sent
      ++ reply (record {
        type = msg_new_request;
        sender_id = cfg.broker_id;
        lamport_ts = pos 0;
        payload = "";
      })
        ∷ [];
}

module _ (cfg : Config) (lib : Library) (down : Network) where
  -- The alerts of propagateRequest after BroadcastMessage.
  unfoldable pub told : ℕ → Node → Request → List String → Node
  told now n req failed =
      let success = length cfg.peer_bases - length failed in
      let m1 =
        if nat_eq (length failed) 0
        then n.alert_mgr
        else Alerts.warn now n.alert_mgr (
            concat (
              "Falha ao propagar para "
              ∷ lib.decimal (pos (length failed))
              ∷ " bases: "
              ∷ lib.show_addrs failed
              ∷ [])) in
      record n {
        alert_mgr =
            if nat_eq success 0
            then Alerts.critical now m1 (
                concat (
                  "Req " ∷ req.id ∷ " NÃO chegou a nenhuma base! Sistema sem drones disponíveis?"
                  ∷ []))
            else Alerts.info now m1 (
                concat (
                  "Req "
                  ∷ req.id
                  ∷ " propagada para "
                  ∷ lib.decimal (pos success)
                  ∷ "/"
                  ∷ lib.decimal (pos (length cfg.peer_bases))
                  ∷ " bases"
                  ∷ []));
      }

  -- propagateRequest after Tick, with the bases that are configured. A base that `down` says cannot be
  -- reached gets nothing.
  unfoldable pub send_to_bases : ℕ → Node → Request → Message → List String → Node
  unfolding told
  send_to_bases now n req msg [] = record n {
    alert_mgr =
        Alerts.warn now n.alert_mgr
          (concat ("Nenhuma base configurada — requisição " ∷ req.id ∷ " perdida!" ∷ []));
  }
  send_to_bases now n req msg (base ∷ bases) =
      told now
        (record n {
          sent = n.sent ++ map (λ a. to a msg) (select (λ a. not (down n.sent a)) (base ∷ bases));
        })
        req (select (down n.sent) (base ∷ bases))

  unfoldable pub propagate_request : ℕ → Node → Request → Node
  unfolding send_to_bases
  propagate_request now n req =
      let (c, ts) = Lamport.tick n.clk in
      let msg : Message = record {
        type = msg_new_request;
        sender_id = cfg.broker_id;
        lamport_ts = ts;
        payload = lib.put_request req;
      } in
      send_to_bases now (record n { clk = c }) req msg cfg.peer_bases

  -- The request that the broker makes of what a sensor reports, at the counter's new value.
  unfoldable pub new_request : ℕ → ℤ → ℤ → Request → Request
  new_request now counter ts req = record req {
    id =
        concat
          ("req-" ∷ req.sector_id ∷ "-" ∷ lib.decimal (pos now) ∷ "-" ∷ lib.decimal counter ∷ []);
    lamport_ts = ts;
    wall_clock = now;
    status = status_pending;
    priority = priority req.type;
  }

  -- The counter and the alert for a request that has come in.
  unfoldable pub noted : ℕ → Node → ℤ → Request → Node
  noted now n counter req =
      let text = concat (
        "Req recebida do sensor "
        ∷ req.sensor_id
        ∷ ": ["
        ∷ req.type
        ∷ "] "
        ∷ req.description
        ∷ " (Lamport="
        ∷ lib.decimal req.lamport_ts
        ∷ ")"
        ∷ []) in
      record n { req_counter = counter; alert_mgr = Alerts.info now n.alert_mgr text }

  unfoldable pub accept_event : ℕ → Node → ℤ → Request → Node
  unfolding new_request noted acknowledge propagate_request
  accept_event now n ts req =
      let counter = wrap_int64 (suc_ℤ n.req_counter) in
      let req' = new_request now counter ts req in
      propagate_request now (acknowledge cfg (noted now n counter req')) req'

  -- handleSensorConn after the clock, with what could be read of the payload.
  unfoldable pub sensor_event : ℕ → Node → ℤ → Message → Option Request → Node
  unfolding accept_event acknowledge
  sensor_event now n ts msg none = record n {
    alert_mgr = Alerts.warn now n.alert_mgr (
        concat (
          "Payload inválido do sensor "
          ∷ msg.sender_id
          ∷ ": "
          ∷ lib.decode_error msg.payload
          ∷ []));
  }
  sensor_event now n ts msg (some req) =
      if req.type == "TELEMETRY" then acknowledge cfg n else accept_event now n ts req

  unfoldable pub handle_sensor_conn : ℕ → Node → Message → Node
  unfolding sensor_event
  handle_sensor_conn now n msg =
      if not (msg.type == msg_sensor_event)
      then n
      else let (c, ts) = Lamport.update n.clk msg.lamport_ts in
        sensor_event now (record n { clk = c }) ts msg (lib.get_request msg.payload)

  -- One round of runHeartbeat, with the message of SendHeartbeat.
  unfoldable pub send_heartbeat : Node → String → Node
  send_heartbeat n target =
      let (c, ts) = Lamport.tick n.clk in
      let payload = lib.put_heartbeat (record {
        node_type = "broker";
        node_id = cfg.broker_id;
        base_id = "";
        sector_id = cfg.sector_id;
        gossip_addr = "";
        addr = "";
        status = "";
      }) in
      let msg : Message = record {
        type = msg_heartbeat;
        sender_id = cfg.broker_id;
        lamport_ts = ts;
        payload = payload;
      } in
      record n { clk = c; sent = n.sent ++ heartbeat_to target msg ∷ [] }

  unfoldable pub heartbeats : Node → List String → Node
  unfolding send_heartbeat
  heartbeats n [] = n
  heartbeats n (target ∷ targets) = heartbeats (send_heartbeat n target) targets

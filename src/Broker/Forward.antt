-- ===== src/Broker/Forward.antt =====
-- handleSensorConn and propagateRequest of cmd/broker/main.go: what reaches the bases.
use mi_desbloqueio_do_estrei.Common.{
  ℕ, ◌≡◌, refl, ap, String, Bool, true, false, some, List, [], ◌∷◌, ◌++◌, IsIn, map, ◌==◌, arith,
  inl, inr, Bool-cases, not, select, concat,
}
use mi_desbloqueio_do_estrei.Common.Int.{ℤ, pos, ◌<ℤ◌, IsInt64, max_int64, suc_ℤ, wrap_int64}
use mi_desbloqueio_do_estrei.Models.{
  Request, Message, priority, status_pending, msg_sensor_event, msg_new_request,
}
use mi_desbloqueio_do_estrei.Lamport
use mi_desbloqueio_do_estrei.Lamport.Causal.{update_lem, tick_lem}
use mi_desbloqueio_do_estrei.Broker.{
  Config, Library, Network, Node, Sent, to, acknowledge, told, send_to_bases, propagate_request,
  new_request, noted, accept_event, sensor_event, handle_sensor_conn,
}

pub IsIn-append : {A : Type 0} (xs ys : List A) (y : A) → IsIn y ys → IsIn y (xs ++ ys)
IsIn-append [] ys y i = i
IsIn-append (x ∷ xs) ys y i = inr (IsIn-append xs ys y i)

IsIn-to :
    (m : Message) (addrs : List String) (a : String)
    → IsIn a addrs
    → IsIn (to a m) (map (λ b. to b m) addrs)
IsIn-to m [] a i = absurd i
IsIn-to m (b ∷ addrs) a (inl e) = inl (ap (λ c. to c m) e)
IsIn-to m (b ∷ addrs) a (inr i) = inr (IsIn-to m addrs a i)

select-IsIn :
    (p : String → Bool) (xs : List String) (x : String)
    → IsIn x xs
    → p x ≡ true
    → IsIn x (select p xs)
select-IsIn p [] x i h = absurd i
select-IsIn p (y ∷ xs) x (inl e) h = rw (← e, h) (inl refl)
select-IsIn p (y ∷ xs) x (inr i) h = elim (Bool-cases (p y)) [
  | inl e ↦ rw e (inr (select-IsIn p xs x i h))
  | inr e ↦ rw e (select-IsIn p xs x i h)
]

module _ (cfg : Config) (lib : Library) (down : Network) where
  pub IsIn-send :
      (now : ℕ) (n : Node) (req : Request) (m : Message) (bases : List String) (base : String)
      → IsIn base bases
      → down n.sent base ≡ false
      → IsIn (to base m) (send_to_bases cfg lib down now n req m bases).sent
  unfolding send_to_bases told
  IsIn-send now n req m [] base i up = absurd i
  IsIn-send now n req m (b ∷ bases) base i up =
      let reached = select (λ a. not (down n.sent a)) (b ∷ bases) in
      IsIn-append n.sent (map (λ a. to a m) reached) (to base m) (
        IsIn-to m reached base
          (select-IsIn (λ a. not (down n.sent a)) (b ∷ bases) base i (rw up refl)))

  -- What a base is sent for a report: the report as a pending request, with the priority of its type, the
  -- time, and an ID of its sector, the time and the counter, later than the sensor's message, in a
  -- message that is later than the request.
  pub record IsForwarded (sent : List Sent) (base : String) (report : Request) (stamp : ℤ) (now : ℕ)
      (counter : ℤ) : Type 0 where
    pub request : Request
    pub out : Message
    pub on_its_way : IsIn (to base out) sent
    pub type : out.type ≡ msg_new_request
    pub payload : out.payload ≡ lib.put_request request
    pub content : request ≡ record report {
      id = concat (
          "req-" ∷ report.sector_id ∷ "-" ∷ lib.decimal (pos now) ∷ "-" ∷ lib.decimal counter ∷ []);
      lamport_ts = request.lamport_ts;
      wall_clock = now;
      status = status_pending;
      priority = priority report.type;
    }
    pub later : stamp <ℤ request.lamport_ts
    pub order : request.lamport_ts <ℤ out.lamport_ts

  accept-IsForwarded :
      (now : ℕ) (n : Node) (ts stamp : ℤ) (req : Request) (base : String)
      → IsIn base cfg.peer_bases
      → ((sent : List Sent) → down sent base ≡ false)
      → stamp <ℤ ts
      → ts <ℤ (Lamport.tick n.clk).1
      → IsForwarded
          (accept_event cfg lib down now n ts req).sent
          base
          req
          stamp
          now
          (wrap_int64 (suc_ℤ n.req_counter))
  unfolding accept_event new_request acknowledge noted propagate_request
  accept-IsForwarded now n ts stamp req base i up p q =
      let counter = wrap_int64 (suc_ℤ n.req_counter) in
      let req' = new_request cfg lib down now counter ts req in
      let n1 = acknowledge cfg (noted cfg lib down now n counter req') in
      let (c, stamped) = Lamport.tick n.clk in
      let msg : Message = record {
        type = msg_new_request;
        sender_id = cfg.broker_id;
        lamport_ts = stamped;
        payload = lib.put_request req';
      } in
      record {
        request = req';
        out = msg;
        on_its_way =
            IsIn-send now (record n1 { clk = c }) req' msg cfg.peer_bases base i (up n1.sent);
        type = refl;
        payload = refl;
        content = refl;
        later = p;
        order = q;
      }

  -- Where the clock of the broker, the sensor's stamp and what Update makes of both are below the greatest
  -- int64: what a sensor reports, if it is more than telemetry, is sent on to each base of the
  -- configuration that can be reached, as a pending request with the priority of its type and an ID of
  -- the sector, the time and the next value of the counter. The request is later than the sensor's
  -- message, and the message to the base later than the request.
  pub handle-IsForwarded :
      (now : ℕ) (n : Node) (msg : Message) (req : Request) (base : String)
      → msg.type ≡ msg_sensor_event
      → lib.get_request msg.payload ≡ some req
      → (req.type == "TELEMETRY") ≡ false
      → IsIn base cfg.peer_bases
      → ((sent : List Sent) → down sent base ≡ false)
      → IsInt64 (Lamport.get n.clk)
      → IsInt64 msg.lamport_ts
      → Lamport.get n.clk <ℤ max_int64
      → msg.lamport_ts <ℤ max_int64
      → (Lamport.update n.clk msg.lamport_ts).1 <ℤ max_int64
      → IsForwarded
          (handle_sensor_conn cfg lib down now n msg).sent
          base
          req
          msg.lamport_ts
          now
          (wrap_int64 (suc_ℤ n.req_counter))
  unfolding handle_sensor_conn sensor_event
  handle-IsForwarded now n msg req base t read more i up ci mi cb mb ub =
      let (c, ts) = Lamport.update n.clk msg.lamport_ts in
      let (rule, same, local, stamp) = update_lem n.clk msg.lamport_ts ci mi cb mb in
      let reached : IsInt64 (Lamport.get c) = ground (arith, same, local, ub) in
      let (ticks, got) = tick_lem c reached (ground (arith, same, ub)) in
      simp (t, read, more)
        (accept-IsForwarded now (record n { clk = c }) ts msg.lamport_ts req base i up stamp
          (ground (arith, same, ticks)))

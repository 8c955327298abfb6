-- ===== src/Broker/Delivery.antt =====
-- From a sensor's report at a broker (handleSensorConn of cmd/broker/main.go) to the queue of a base
-- (handleMainConn and handleNewRequest of cmd/base/servers.go).
use mi_desbloqueio_do_estrei.Common.{
  ℕ, ◌≡◌, refl, String, true, false, ◌&&◌, some, List, [], ◌∷◌, All, IsIn, count, SameItems, ◌==◌,
  arith, inl, inr, Bool-cases, eq_refl,
}
use mi_desbloqueio_do_estrei.Common.Int.{suc_ℤ, wrap_int64}
use mi_desbloqueio_do_estrei.Models.{Request, Message, msg_sensor_event, msg_new_request}
use mi_desbloqueio_do_estrei.Lamport
use mi_desbloqueio_do_estrei.RequestHeap
use mi_desbloqueio_do_estrei.RequestHeap.{less}
use mi_desbloqueio_do_estrei.RequestHeap.Items.{count-push}
use mi_desbloqueio_do_estrei.Queue.{PriorityQueue, contains, push, peek, is_pending, pending_len}
use mi_desbloqueio_do_estrei.Queue.Peek.{peek_lem}
use mi_desbloqueio_do_estrei.BaseNode
use mi_desbloqueio_do_estrei.BaseNode.{Json, Task, gossip_queue_add, go}
use mi_desbloqueio_do_estrei.BaseNode.Servers
use mi_desbloqueio_do_estrei.BaseNode.Servers.{handle_main_conn, main_switch, handle_new_request}
use mi_desbloqueio_do_estrei.Broker.{
  Config, Library, Network, Node, Sent, to, new_request, handle_sensor_conn, sensor_event,
  accept_event, propagate_request, acknowledge, noted,
}
use mi_desbloqueio_do_estrei.Broker.Forward.{IsIn-append, IsIn-send}

-- The request that the broker makes of a report, and the message that takes it to the bases.
abbrev pub made : Config → Library → Network → ℕ → Node → Message → Request → Request
made cfg lib down now n msg report =
    new_request cfg lib down now (wrap_int64 (suc_ℤ n.req_counter))
      (Lamport.update n.clk msg.lamport_ts).1 report

abbrev pub carried : Config → Library → Network → ℕ → Node → Message → Request → Message
carried cfg lib down now n msg report = record {
  type = msg_new_request;
  sender_id = cfg.broker_id;
  lamport_ts = (Lamport.tick (Lamport.update n.clk msg.lamport_ts).0).1;
  payload = lib.put_request (made cfg lib down now n msg report);
}

all_not :
    (best : Request) (xs : List Request)
    → All (λ x. is_pending x ≡ true → less x best ≡ false) xs
    → count (λ x. is_pending x && less x best) xs ≡ 0
all_not best [] a = refl
all_not best (x ∷ xs) (f, a) = elim (Bool-cases (is_pending x)) [
  | inl e ↦ ground (arith, f e, all_not best xs a)
  | inr e ↦ ground (arith, e, all_not best xs a)
]

pushed :
    (q : PriorityQueue) (r : Request)
    → contains q.seen r.id ≡ false
    → push q r ≡ (record { heap = RequestHeap.push q.heap r; seen = r.id ∷ q.seen }, true)
unfolding push
pushed q r fresh = rw fresh refl

-- The queue holds a pending request, so that Peek finds one that it does not precede.
peek-push :
    (q : PriorityQueue) (r : Request)
    → contains q.seen r.id ≡ false
    → is_pending r ≡ true
    → (best : Request) × (peek (push q r).0 ≡ some best) × (less r best ≡ false)
unfolding pending_len
peek-push q r fresh p = elim (peek_lem (push q r).0) [
  | inl (e, c) ↦
      let c' : count is_pending (RequestHeap.push q.heap r) ≡ 0 = rw (pushed q r fresh) at c in
      absurd (ground (arith, c', p, count-push is_pending q.heap r))
  | inr (best, e, i, f) ↦
      let ahead = λ (x : Request). is_pending x && less x best in
      let none_ahead = all_not best (push q r).0.heap f.1 in
      let c : count ahead (RequestHeap.push q.heap r) ≡ 0 = rw (pushed q r fresh) at none_ahead in
      (best, e, ground (arith, c, p, count-push ahead q.heap r))
]

-- What has happened to a report: the broker has sent `out` to `base`. The base that reads it has the
-- request in its queue besides what was there, is about to tell the other bases, and dispatches
-- next a request that the new one does not precede. The same message again changes nothing in
-- the queue.
pub record IsDelivered (json : Json) (cfg : BaseNode.Config) (sent : List Sent) (base : String)
    (out : Message) (r : Request) (later : ℕ) (b : BaseNode.Node) : Type 0 where
  pub on_its_way : IsIn (to base out) sent
  pub queued : SameItems (handle_main_conn json cfg later b out).pq.heap (r ∷ b.pq.heap)
  pub announced : IsIn (gossip_queue_add r) (handle_main_conn json cfg later b out).started
  pub next :
      (best : Request) × (peek (handle_main_conn json cfg later b out).pq ≡ some best)
      × (less r best ≡ false)
  pub once :
      (handle_main_conn json cfg later (handle_main_conn json cfg later b out) out).pq
      ≡ (handle_main_conn json cfg later b out).pq

module _ (json : Json) (cfg : BaseNode.Config) where
  -- handleMainConn with a message that carries a request.
  arrives :
      (later : ℕ) (b : BaseNode.Node) (out : Message) (r : Request)
      → out.type ≡ msg_new_request
      → json.get_request out.payload ≡ some r
      → handle_main_conn json cfg later b out
        ≡ Servers.new_request later (record b { clk = (Lamport.update b.clk out.lamport_ts).0 }) r
  unfolding handle_main_conn main_switch handle_new_request
  arrives later b out r t e = simp (t, handle_new_request, e) refl

  once_more :
      (later : ℕ) (b : BaseNode.Node) (r : Request)
      → contains b.pq.seen r.id ≡ true
      → (Servers.new_request later b r).pq ≡ b.pq
  unfolding Servers.new_request push
  once_more later b r e = rw e refl

  queue-new_request :
      (later : ℕ) (b : BaseNode.Node) (r : Request)
      → (Servers.new_request later b r).pq ≡ (push b.pq r).0
  unfolding Servers.new_request go
  queue-new_request later b r = elim (Bool-cases (push b.pq r).1) [
    | inl e ↦ rw e refl
    | inr e ↦ rw e refl
  ]

  announced-new_request :
      (later : ℕ) (b : BaseNode.Node) (r : Request)
      → contains b.pq.seen r.id ≡ false
      → IsIn (gossip_queue_add r) (Servers.new_request later b r).started
  unfolding Servers.new_request go
  announced-new_request later b r fresh =
      rw (pushed b.pq r fresh)
        (IsIn-append b.started (gossip_queue_add r ∷ []) (gossip_queue_add r) (inl refl))

module _ (cfg : Config) (lib : Library) (down : Network) (json : Json)
    (base_cfg : BaseNode.Config) where
  carried_on :
      (now : ℕ) (n : Node) (msg : Message) (report : Request) (base : String)
      → msg.type ≡ msg_sensor_event
      → lib.get_request msg.payload ≡ some report
      → (report.type == "TELEMETRY") ≡ false
      → IsIn base cfg.peer_bases
      → ((sent : List Sent) → down sent base ≡ false)
      → IsIn
          (to base (carried cfg lib down now n msg report))
          (handle_sensor_conn cfg lib down now n msg).sent
  unfolding handle_sensor_conn sensor_event accept_event propagate_request acknowledge noted
      new_request
  carried_on now n msg report base t read more i up =
      let (c, ts) = Lamport.update n.clk msg.lamport_ts in
      let counter = wrap_int64 (suc_ℤ n.req_counter) in
      let req = made cfg lib down now n msg report in
      let told = acknowledge cfg (noted cfg lib down now (record n { clk = c }) counter req) in
      simp (t, read, more)
        (IsIn-send cfg lib down now (record told { clk = (Lamport.tick c).0 }) req
          (carried cfg lib down now n msg report) cfg.peer_bases base i (up told.sent))

  -- A report that is more than telemetry reaches each base of the broker's configuration that can be reached, as a request
  -- that is new to the base, if the base can read what the broker writes: it is put into the queue of
  -- the base besides what was there, and announced to the other bases; Peek then finds a request
  -- that it does not precede; and the message does not change the queue a second time.
  pub handle-IsDelivered :
      (now later : ℕ) (n : Node) (msg : Message) (report : Request) (base : String)
      (b : BaseNode.Node)
      → msg.type ≡ msg_sensor_event
      → lib.get_request msg.payload ≡ some report
      → (report.type == "TELEMETRY") ≡ false
      → IsIn base cfg.peer_bases
      → ((sent : List Sent) → down sent base ≡ false)
      → json.get_request (lib.put_request (made cfg lib down now n msg report))
        ≡ some (made cfg lib down now n msg report)
      → contains b.pq.seen (made cfg lib down now n msg report).id ≡ false
      → IsDelivered json base_cfg
          (handle_sensor_conn cfg lib down now n msg).sent
          base
          (carried cfg lib down now n msg report)
          (made cfg lib down now n msg report)
          later
          b
  unfolding new_request
  handle-IsDelivered now later n msg report base b t read more i up back fresh =
      let r = made cfg lib down now n msg report in
      let out = carried cfg lib down now n msg report in
      let b1 = record b { clk = (Lamport.update b.clk out.lamport_ts).0 } in
      let b2 = handle_main_conn json base_cfg later b out in
      let first = arrives json base_cfg later b out r refl back in
      let held : b2.pq ≡ (push b.pq r).0 = rw first (queue-new_request json base_cfg later b1 r) in
      record {
        on_its_way = carried_on now n msg report base t read more i up;
        queued = λ p. rw (held, pushed b.pq r fresh) (omega (arith, count-push p b.pq.heap r));
        announced = rw first (announced-new_request json base_cfg later b1 r fresh);
        next = rw held (peek-push b.pq r fresh refl);
        once = rw (arrives json base_cfg later b2 out r refl back) (
            once_more json base_cfg later
              (record b2 { clk = (Lamport.update b2.clk out.lamport_ts).0 }) r
              (rw (held, pushed b.pq r fresh, eq_refl r.id) refl));
      }

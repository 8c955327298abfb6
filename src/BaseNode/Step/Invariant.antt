-- ===== src/BaseNode/Step/Invariant.antt =====
-- What holds of the queue of a base whatever it meets: messages, timers and goroutines in any order.
use mi_desbloqueio_do_estrei.Common.{
  ◌≡◌, refl, sym, subst, ℕ, inl, inr, Bool-cases, eq_iff, String, true, false, Option, none, some,
  List, [], ◌∷◌, any, get_elem?, arith,
}
use mi_desbloqueio_do_estrei.Models.{msg_queue_clear}
use mi_desbloqueio_do_estrei.Queue.{clear_all}
use mi_desbloqueio_do_estrei.Queue.Op.{
  Op, clear_all_op, apply, run, IsValid, run-IsValid, IsFinished, run-IsFinished,
}
use mi_desbloqueio_do_estrei.Queue.Ordered.{run_ordered}
use mi_desbloqueio_do_estrei.RequestHeap.Order.{IsHeap}
use mi_desbloqueio_do_estrei.BaseNode.{
  Config, Json, Node, Task, gossip_queue_add, gossip_queue_update, propagate_drone_info,
  broadcast_lock_release, send_full_queue_sync, balance_drones, dispatch, await_votes, await_drone,
  send, broadcast, stamped, announce,
}
use mi_desbloqueio_do_estrei.BaseNode.Dispatcher.{release_everywhere, gossip_update_now}
use mi_desbloqueio_do_estrei.BaseNode.DroneHandler.{propagate_now}
use mi_desbloqueio_do_estrei.BaseNode.Servers.{
  handle_main_conn, main_switch, gossip_add_now, full_sync_now, handle_queue_clear,
}
use mi_desbloqueio_do_estrei.BaseNode.Heartbeat.{broadcast_my_heartbeat, check_stale}
use mi_desbloqueio_do_estrei.BaseNode.Step.{
  Outcome, Event, main_conn, gossip_conn, heartbeat, heartbeat_tick, dispatch_tick, health_tick,
  starvation_tick, task_runs, run_task, run_started, step, steps, clears, without,
}
use mi_desbloqueio_do_estrei.BaseNode.Step.Evolution.{Keeps, Keeps-same, Keeps-trans}
use mi_desbloqueio_do_estrei.BaseNode.Step.Messages.{Keeps-main_conn, Keeps-gossip_conn}
use mi_desbloqueio_do_estrei.BaseNode.Step.Timers.{
  Keeps-try_dispatch, Keeps-start_dispatch, Keeps-end_votes, Keeps-end_dispatch, Keeps-balance,
  Keeps-check_peers_health, Keeps-heartbeat,
}

module _ (json : Json) (cfg : Config) where
  Keeps-run_task : (o : Outcome) (n : Node) (t : Task) → Keeps n (run_task json cfg o n t)
  unfolding run_task gossip_add_now gossip_update_now propagate_now release_everywhere full_sync_now
      send broadcast stamped announce
  Keeps-run_task o n (gossip_queue_add req) = Keeps-same refl
  Keeps-run_task o n (gossip_queue_update req) = Keeps-same refl
  Keeps-run_task o n (propagate_drone_info d) = Keeps-same refl
  Keeps-run_task o n (broadcast_lock_release id) = Keeps-same refl
  Keeps-run_task o n (send_full_queue_sync addr) = Keeps-same refl
  Keeps-run_task o n balance_drones = Keeps-balance json cfg o.now o.choice n
  Keeps-run_task o n (dispatch r d) = Keeps-start_dispatch json cfg o.now n r d
  Keeps-run_task o n (await_votes r d peers) = Keeps-end_votes json cfg o.now n r d peers o.votes
  Keeps-run_task o n (await_drone r d) = Keeps-end_dispatch json cfg o.now n r d o.answer

  Keeps-run_started :
      (i : ℕ) (o : Outcome) (n : Node) (t : Option Task) → Keeps n (run_started json cfg i o n t)
  unfolding run_started
  Keeps-run_started i o n none = Keeps-same refl
  Keeps-run_started i o n (some t) =
      Keeps-trans (Keeps-same refl)
        (Keeps-run_task o (record n { started = without i n.started }) t)

  -- Every event but QUEUE_CLEAR changes the queue by its methods, and never by ClearAll.
  pub Keeps-step : (n : Node) (e : Event) → clears e ≡ false → Keeps n (step json cfg n e)
  unfolding step broadcast_my_heartbeat check_stale
  Keeps-step n (main_conn now msg) h = Keeps-main_conn json cfg now n msg h
  Keeps-step n (gossip_conn msg) h = Keeps-gossip_conn json cfg n msg
  Keeps-step n (heartbeat now msg) h = Keeps-heartbeat json now n msg
  Keeps-step n heartbeat_tick h = Keeps-same refl
  Keeps-step n (dispatch_tick now choice) h = Keeps-try_dispatch cfg now choice n
  Keeps-step n (health_tick now choice) h = Keeps-check_peers_health json cfg now choice n
  Keeps-step n (starvation_tick now) h = Keeps-same refl
  Keeps-step n (task_runs i o) h = Keeps-run_started i o n (get_elem? n.started i)

  -- QUEUE_CLEAR empties the queue, whatever its payload.
  pub clears-step :
      (n : Node) (e : Event) → clears e ≡ true → (step json cfg n e).pq ≡ clear_all n.pq
  unfolding step handle_main_conn main_switch handle_queue_clear
  clears-step n (main_conn now msg) h = let t = (eq_iff msg.type msg_queue_clear).0 h in rw t refl
  clears-step n (gossip_conn msg) h = cc
  clears-step n (heartbeat now msg) h = cc
  clears-step n heartbeat_tick h = cc
  clears-step n (dispatch_tick now choice) h = cc
  clears-step n (health_tick now choice) h = cc
  clears-step n (starvation_tick now) h = cc
  clears-step n (task_runs i o) h = cc

  step-pq : (n : Node) (e : Event) → (ops : List Op) × (run n.pq ops ≡ (step json cfg n e).pq)
  unfolding run apply
  step-pq n e = elim (Bool-cases (clears e)) [
    | inl h ↦ (clear_all_op ∷ [], sym (clears-step n e h))
    | inr h ↦ let k = (Keeps-step n e h).evolves in (k.ops, k.ran)
  ]

  -- Whatever a base meets, in whatever order, its queue holds each ID once and remembers it, and stays
  -- in heap order.
  pub steps_sound :
      (n : Node) (events : List Event)
      → IsValid n.pq
      → IsHeap n.pq.heap
      → IsValid (steps json cfg n events).pq × IsHeap (steps json cfg n events).pq.heap
  unfolding steps
  steps_sound n [] v o = (v, o)
  steps_sound n (e ∷ events) v o =
      let (ops, ran) = step-pq n e in
      steps_sound (step json cfg n e) events (subst IsValid ran (run-IsValid n.pq ops v))
        (subst (λ q. IsHeap q.heap) ran (run_ordered n.pq ops o))

  -- A request that has left the queue of a base never comes back, whatever messages, timers and
  -- goroutines follow in whatever order, as long as no QUEUE_CLEAR arrives.
  pub steps-IsFinished :
      (n : Node) (k : String) (events : List Event)
      → any clears events ≡ false
      → IsFinished k n.pq
      → IsFinished k (steps json cfg n events).pq
  unfolding steps
  steps-IsFinished n k [] h f = f
  steps-IsFinished n k (e ∷ events) h f =
      let kept = (Keeps-step n e (ground arith)).evolves in
      steps-IsFinished (step json cfg n e) k events (ground arith)
        (subst (IsFinished k) kept.ran (run-IsFinished n.pq k kept.ops kept.no_clear f))

-- ===== src/BaseNode/Step.antt =====
-- cmd/base as a state machine: the events that a base meets, in any order. The servers and the timers
-- of main.go raise the first seven; a goroutine that has been started runs, or goes on, at any time.
pub mod Evolution
pub mod Messages
pub mod Timers
pub mod Passing
pub mod Sound
pub mod WellFormed
pub mod Invariant
use mi_desbloqueio_do_estrei.Common.{
  ℕ, zero, suc, String, Bool, true, false, ◌&&◌, ◌||◌, Option, none, some, List, [], ◌∷◌, ◌++◌,
  get_elem?, ◌==◌,
}
use mi_desbloqueio_do_estrei.Models.{Message, msg_queue_clear}
use mi_desbloqueio_do_estrei.BaseNode.{
  Config, Json, Node, Task, gossip_queue_add, gossip_queue_update, propagate_drone_info,
  broadcast_lock_release, send_full_queue_sync, balance_drones, dispatch, await_votes, await_drone,
}
use mi_desbloqueio_do_estrei.BaseNode.Dispatcher.{
  try_dispatch, release_everywhere, start_dispatch, end_votes, gossip_update_now, end_dispatch,
}
use mi_desbloqueio_do_estrei.BaseNode.DroneHandler.{propagate_now}
use mi_desbloqueio_do_estrei.BaseNode.Servers.{
  handle_main_conn, handle_gossip_conn, gossip_add_now, full_sync_now,
}
use mi_desbloqueio_do_estrei.BaseNode.Heartbeat.{
  handle_heartbeat, broadcast_my_heartbeat, check_peers_health, check_stale,
}
use mi_desbloqueio_do_estrei.BaseNode.Balance.{balance}

-- What a goroutine meets when it goes on: the time, the choice of a `range`, and the answers from the
-- network, where `none` is an error.
pub record Outcome : Type 0 where
  pub now : ℕ
  pub choice : ℕ
  pub votes : List (Option Message)
  pub answer : Option Message

pub data Event : Type 0 where
  main_conn : ℕ → Message → Event
  gossip_conn : Message → Event
  heartbeat : ℕ → Message → Event
  heartbeat_tick : Event
  dispatch_tick : ℕ → ℕ → Event
  health_tick : ℕ → ℕ → Event
  starvation_tick : ℕ → Event
  task_runs : ℕ → Outcome → Event

-- The list without the item at a place.
abbrev pub without : ℕ → List Task → List Task
without i [] = []
without zero (t ∷ ts) = ts
without (suc i) (t ∷ ts) = t ∷ without i ts

module _ (json : Json) (cfg : Config) where
  unfoldable pub run_task : Outcome → Node → Task → Node
  unfolding gossip_add_now gossip_update_now propagate_now release_everywhere full_sync_now balance
      start_dispatch end_votes end_dispatch
  run_task o n (gossip_queue_add req) = gossip_add_now json cfg n req
  run_task o n (gossip_queue_update req) = gossip_update_now json cfg n req
  run_task o n (propagate_drone_info d) = propagate_now json cfg n d
  run_task o n (broadcast_lock_release id) = release_everywhere json cfg n id
  run_task o n (send_full_queue_sync addr) = full_sync_now json cfg n addr
  run_task o n balance_drones = balance json cfg o.now o.choice n
  run_task o n (dispatch req d) = start_dispatch json cfg o.now n req d
  run_task o n (await_votes req d peers) = end_votes json cfg o.now n req d peers o.votes
  run_task o n (await_drone req d) = end_dispatch json cfg o.now n req d o.answer

  unfoldable pub run_started : ℕ → Outcome → Node → Option Task → Node
  unfolding run_task
  run_started i o n none = n
  run_started i o n (some t) = run_task o (record n { started = without i n.started }) t

  unfoldable pub step : Node → Event → Node
  unfolding handle_main_conn handle_gossip_conn handle_heartbeat broadcast_my_heartbeat try_dispatch
      check_peers_health check_stale run_started
  step n (main_conn now msg) = handle_main_conn json cfg now n msg
  step n (gossip_conn msg) = handle_gossip_conn json cfg n msg
  step n (heartbeat now msg) = handle_heartbeat json now n msg
  step n heartbeat_tick = broadcast_my_heartbeat json cfg n
  step n (dispatch_tick now choice) = try_dispatch cfg now choice n
  step n (health_tick now choice) = check_peers_health json cfg now choice n
  step n (starvation_tick now) = check_stale now n
  step n (task_runs i o) = run_started i o n (get_elem? n.started i)

  unfoldable pub steps : Node → List Event → Node
  unfolding step
  steps n [] = n
  steps n (e ∷ events) = steps (step n e) events

-- A message that clears the queue.
abbrev pub clears : Event → Bool
clears (main_conn now msg) = msg.type == msg_queue_clear
clears _ = false

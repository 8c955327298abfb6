-- ===== src/BaseNode/Step/WellFormed.antt =====
-- What the timers and the goroutines of cmd/base do to the state of the base, and every step of it: the
-- well-formedness of the maps, and the holders of locks.
use mi_desbloqueio_do_estrei.Common.{
  ℕ, ◌%◌, ◌≡◌, ◌⊎◌, String, refl, not, ◌&&◌, Option, none, some, List, [], ◌∷◌, length, get_elem?,
  ◌==◌, nat_eq, to_lower, to_upper,
}
use mi_desbloqueio_do_estrei.Common.Int.{ℤ}
use mi_desbloqueio_do_estrei.Models.{
  Request, Drone, Base, Message, HeartbeatPayload, drone_idle, drone_busy, drone_lost,
  status_pending, base_offline,
}
use mi_desbloqueio_do_estrei.Lamport
use mi_desbloqueio_do_estrei.Queue
use mi_desbloqueio_do_estrei.State
use mi_desbloqueio_do_estrei.State.Locks.{holder}
use mi_desbloqueio_do_estrei.State.WellFormed.{
  status_op, release_op, remove_drone_op, offline_op, update_peer_op, touch_drone_op,
  touch_sensor_op, touch_broker_op, apply_op, IsWellFormed,
}
use mi_desbloqueio_do_estrei.BaseNode.{
  Config, Json, Node, Task, gossip_queue_add, gossip_queue_update, propagate_drone_info,
  broadcast_lock_release, send_full_queue_sync, balance_drones, dispatch, await_votes, await_drone,
  go, send, broadcast, stamped, announce,
}
use mi_desbloqueio_do_estrei.BaseNode.Dispatcher.{
  reserve, try_drone, try_request, try_dispatch, release_everywhere, give_up, send_dispatch,
  ask_votes, ask_or_send, start_dispatch, granted, end_votes, gossip_update_now, end_dispatch,
}
use mi_desbloqueio_do_estrei.BaseNode.DroneHandler.{propagate_now}
use mi_desbloqueio_do_estrei.BaseNode.Servers.{gossip_add_now, full_sync_now}
use mi_desbloqueio_do_estrei.BaseNode.Balance.{
  give_drone, balance_with, balance, my_idle_drones, target_peer,
}
use mi_desbloqueio_do_estrei.BaseNode.Heartbeat.{
  needs_sync, handle_base_heartbeat, handle_drone_heartbeat, heartbeat_switch, handle_heartbeat,
  broadcast_my_heartbeat, older_than, heartbeat_timeout, forget_after, rescued, recover_one,
  recover_all, recover_busy_drone_mission, check_drone, check_drones, check_drone_health,
  check_stale, check_peer, check_peers, check_peers_health,
}
use mi_desbloqueio_do_estrei.BaseNode.Step.{
  Outcome, Event, main_conn, gossip_conn, heartbeat, heartbeat_tick, dispatch_tick, health_tick,
  starvation_tick, task_runs, run_task, run_started, step, steps, without,
}
use mi_desbloqueio_do_estrei.BaseNode.Step.Sound.{Sound-main_conn, Passes-gossip_conn}
use mi_desbloqueio_do_estrei.BaseNode.Step.Passing.{
  Sound, Passes, Sound-same, Sound-op, Sound-trans, Sound-if, Sound-some, Sound-op-op, Passes-Sound,
  Passes-take, Passes-then, Passes-from, Passes-if,
}

module _ (json : Json) (cfg : Config) where
  Sound-try_drone :
      (now : ℕ) (n : Node) (r : Request) (d : Option Drone) → Sound n (try_drone cfg now n r d)
  unfolding try_drone reserve go apply_op
  Sound-try_drone now n r none = Sound-same refl
  Sound-try_drone now n r (some d) =
      Sound-if (Queue.is_drone_assigned n.pq d.id) (Sound-same refl)
        (Sound-op (status_op now d.id drone_busy) tt refl)

  Sound-try_request :
      (now choice : ℕ) (n : Node) (r : Option Request) → Sound n (try_request cfg now choice n r)
  unfolding try_request
  Sound-try_request now choice n none = Sound-same refl
  Sound-try_request now choice n (some r) =
      Sound-if (not (r.status == status_pending)) (Sound-same refl)
        (Sound-try_drone now n r (State.idle_drone choice n.state cfg.base_id))

  Sound-give_up :
      (now : ℕ) (n : Node) (r : Request) (d : Drone) → Sound n (give_up json cfg now n r d)
  unfolding give_up apply_op
  Sound-give_up now n r d = Sound-op (status_op now d.id drone_idle) tt refl

  Sound-ask_or_send :
      (n : Node) (r : Request) (d : Drone) (peers : List Base)
      → Sound n (ask_or_send json cfg n r d peers)
  unfolding ask_or_send send_dispatch ask_votes stamped send broadcast go
  Sound-ask_or_send n r d [] = Sound-same refl
  Sound-ask_or_send n r d (p ∷ peers) = Sound-same refl

  Passes-start_dispatch :
      (now : ℕ) (n : Node) (r : Request) (d : Drone) → Passes n (start_dispatch json cfg now n r d)
  unfolding start_dispatch apply_op
  Passes-start_dispatch now n r d =
      let (s, locked) = State.try_lock n.state r.id cfg.base_id in
      Passes-if (not locked) (Passes-Sound (Sound-give_up now n r d)) (
        Passes-then {b = record n { state = s }} (Passes-take r.id cfg.base_id refl)
          (Sound-ask_or_send (record n { state = s }) r d (State.online_peers s)))

  Sound-end_votes :
      (now : ℕ) (n : Node) (r : Request) (d : Drone) (peers : List Base)
      (votes : List (Option Message))
      → Sound n (end_votes json cfg now n r d peers votes)
  unfolding end_votes
  Sound-end_votes now n r d peers votes =
      Sound-if (nat_eq (granted json cfg peers votes) (length peers))
        (unfold send_dispatch stamped send go in Sound-same refl)
        (Sound-trans
          {b = release_everywhere json cfg (record n { state = State.release_lock n.state r.id })
            r.id}
          (unfold release_everywhere announce broadcast stamped apply_op in
            Sound-op (release_op r.id) tt refl)
          (Sound-give_up now _ r d))

  Sound-end_dispatch :
      (now : ℕ) (n : Node) (r : Request) (d : Drone) (answer : Option Message)
      → Sound n (end_dispatch json cfg now n r d answer)
  unfolding end_dispatch release_everywhere gossip_update_now announce broadcast stamped apply_op
  Sound-end_dispatch now n r d none =
      Sound-op-op (status_op now d.id drone_idle) (release_op r.id) tt tt refl
  Sound-end_dispatch now n r d (some m) = Sound-same refl

  Sound-balance_with :
      (now : ℕ) (n : Node) (d : Option Drone) (p : Option Base)
      → Sound n (balance_with json cfg now n d p)
  unfolding balance_with give_drone stamped send go apply_op
  Sound-balance_with now n none p = Sound-same refl
  Sound-balance_with now n (some d) none = Sound-same refl
  Sound-balance_with now n (some d) (some p) = Sound-op (status_op now d.id drone_lost) tt refl

  Sound-balance : (now choice : ℕ) (n : Node) → Sound n (balance json cfg now choice n)
  unfolding balance
  Sound-balance now choice n =
      let drones = State.all_drones n.state in
      let idle = my_idle_drones cfg drones in
      Sound-balance_with now n (get_elem? idle (choice % length idle))
        (target_peer cfg drones (State.online_peers n.state))

  Passes-run_task : (o : Outcome) (n : Node) (t : Task) → Passes n (run_task json cfg o n t)
  unfolding run_task gossip_add_now gossip_update_now propagate_now release_everywhere full_sync_now
      send broadcast stamped announce
  Passes-run_task o n (gossip_queue_add req) = Passes-Sound (Sound-same refl)
  Passes-run_task o n (gossip_queue_update req) = Passes-Sound (Sound-same refl)
  Passes-run_task o n (propagate_drone_info d) = Passes-Sound (Sound-same refl)
  Passes-run_task o n (broadcast_lock_release id) = Passes-Sound (Sound-same refl)
  Passes-run_task o n (send_full_queue_sync addr) = Passes-Sound (Sound-same refl)
  Passes-run_task o n balance_drones = Passes-Sound (Sound-balance o.now o.choice n)
  Passes-run_task o n (dispatch r d) = Passes-start_dispatch o.now n r d
  Passes-run_task o n (await_votes r d peers) =
      Passes-Sound (Sound-end_votes o.now n r d peers o.votes)
  Passes-run_task o n (await_drone r d) = Passes-Sound (Sound-end_dispatch o.now n r d o.answer)

  Passes-run_started :
      (i : ℕ) (o : Outcome) (n : Node) (t : Option Task) → Passes n (run_started json cfg i o n t)
  unfolding run_started
  Passes-run_started i o n none = Passes-Sound (Sound-same refl)
  Passes-run_started i o n (some t) =
      Passes-from {b = record n { started = without i n.started }} refl
        (Passes-run_task o (record n { started = without i n.started }) t)

Sound-recover_all :
    (now : ℕ) (d : Drone) (n : Node) (reqs : List Request) → Sound n (recover_all now d n reqs)
unfolding recover_all recover_one go apply_op rescued
Sound-recover_all now d n [] = Sound-same refl
Sound-recover_all now d n (r ∷ reqs) =
    Sound-trans
      (Sound-if (r.assigned_to == d.id) (Sound-op (release_op r.id) tt refl) (Sound-same refl))
      (Sound-recover_all now d (recover_one now d n r) reqs)

Sound-check_drone : (now : ℕ) (n : Node) (d : Drone) → Sound n (check_drone now n d)
unfolding check_drone recover_busy_drone_mission apply_op
Sound-check_drone now n d =
    Sound-if (d.status == drone_lost)
      (Sound-if (older_than forget_after now d.last_seen) (Sound-op (remove_drone_op d.id) tt refl)
        (Sound-same refl))
      (Sound-if (older_than heartbeat_timeout now d.last_seen)
        (Sound-trans (Sound-op (status_op now d.id drone_lost) tt refl)
          (Sound-recover_all now d _ (Queue.get_all n.pq)))
        (Sound-same refl))

Sound-check_drones : (now : ℕ) (n : Node) (ds : List Drone) → Sound n (check_drones now n ds)
unfolding check_drones
Sound-check_drones now n [] = Sound-same refl
Sound-check_drones now n (d ∷ ds) =
    Sound-trans (Sound-check_drone now n d) (Sound-check_drones now (check_drone now n d) ds)

Sound-check_peers : (now : ℕ) (n : Node) (ps : List Base) → Sound n (check_peers now n ps)
unfolding check_peers check_peer apply_op
Sound-check_peers now n [] = Sound-same refl
Sound-check_peers now n (p ∷ ps) =
    Sound-trans
      (Sound-if (p.status == base_offline) (Sound-same refl) (
        Sound-if (older_than heartbeat_timeout now p.last_seen) (Sound-op (offline_op p.id) tt refl)
          (Sound-same refl)))
      (Sound-check_peers now (check_peer now n p) ps)

Sound-heartbeat_switch :
    (now : ℕ) (n : Node) (ts : ℤ) (hb : HeartbeatPayload) → Sound n (heartbeat_switch now n ts hb)
unfolding heartbeat_switch handle_base_heartbeat handle_drone_heartbeat go apply_op
Sound-heartbeat_switch now n ts hb =
    let type = to_lower hb.node_type in
    Sound-if (type == "base")
      (Sound-if (needs_sync (State.all_peers n.state) (to_upper hb.node_id) && not (hb.addr == ""))
        (Sound-op (update_peer_op _) tt refl) (Sound-op (update_peer_op _) tt refl))
      (Sound-if (type == "drone")
        (Sound-op (touch_drone_op now hb.node_id hb.base_id hb.status) tt refl)
        (Sound-if (type == "sensor") (Sound-op (touch_sensor_op hb.node_id ts) tt refl) (
          Sound-if (type == "broker") (Sound-op (touch_broker_op hb.node_id ts) tt refl)
            (Sound-same refl))))

module _ (json : Json) (cfg : Config) where
  Passes-step : (n : Node) (e : Event) → Passes n (step json cfg n e)
  unfolding step broadcast_my_heartbeat check_stale try_dispatch handle_heartbeat check_peers_health
      check_drone_health
  Passes-step n (main_conn now msg) = Passes-Sound (Sound-main_conn json cfg now n msg)
  Passes-step n (gossip_conn msg) = Passes-gossip_conn json cfg n msg
  Passes-step n (heartbeat now msg) =
      let (c, ts) = Lamport.update n.clk msg.lamport_ts in
      Passes-Sound (
        Sound-some (json.get_heartbeat msg.payload) (Sound-same refl) (λ hb.
          Sound-trans (Sound-same refl) (Sound-heartbeat_switch now (record n { clk = c }) ts hb)))
  Passes-step n heartbeat_tick = Passes-Sound (Sound-same refl)
  Passes-step n (dispatch_tick now choice) =
      Passes-Sound (Sound-try_request json cfg now choice n (Queue.peek n.pq))
  Passes-step n (health_tick now choice) =
      let n1 = check_peers now n (State.all_peers n.state) in
      let n2 = check_drones now n1 (State.all_drones n1.state) in
      Passes-Sound (
        Sound-trans (Sound-check_peers now n (State.all_peers n.state)) (
          Sound-trans (Sound-check_drones now n1 (State.all_drones n1.state))
            (Sound-balance json cfg now choice n2)))
  Passes-step n (starvation_tick now) = Passes-Sound (Sound-same refl)
  Passes-step n (task_runs i o) = Passes-run_started json cfg i o n (get_elem? n.started i)

  -- Whatever a base meets, in whatever order: if every drone and every base it knows stands once and under
  -- its own ID, and each request is locked by one holder at most, that stays so.
  pub steps-IsWellFormed :
      (n : Node) (events : List Event)
      → IsWellFormed n.state
      → IsWellFormed (steps json cfg n events).state
  unfolding steps
  steps-IsWellFormed n [] w = w
  steps-IsWellFormed n (e ∷ events) w =
      steps-IsWellFormed (step json cfg n e) events ((Passes-step n e).stays w)

  -- No event passes a lock from one base to another: whatever a base meets, and in whatever state it is, a
  -- lock that it holds for a base stays with that base or is freed.
  pub step-Passes :
      (n : Node) (e : Event) (id b : String)
      → holder n.state id ≡ some b
      → (holder (step json cfg n e).state id ≡ some b)
        ⊎ (holder (step json cfg n e).state id ≡ none)
  step-Passes n e id b h = (Passes-step n e).held id b h

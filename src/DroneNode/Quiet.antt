-- ===== src/DroneNode/Quiet.antt =====
-- The functions of cmd/drone/main.go that neither start a goroutine nor touch droneBusy.
use mi_desbloqueio_do_estrei.Common.{
  ℕ, ◌+◌, ◌≡◌, refl, ◌∙◌, Bool, Option, none, some, List, [], ◌∷◌, arith, inl, inr, Bool-cases,
  ◌==◌, String,
}
use mi_desbloqueio_do_estrei.Models.{Message}
use mi_desbloqueio_do_estrei.DroneNode
use mi_desbloqueio_do_estrei.DroneNode.{
  Config, Library, Network, Node, Task, dispatched, going, returning, reporting, reassigned, Event,
  command, watch_tick, heartbeat_tick, task_runs, without, go, send, stamped, travel_time,
  register_message, registered, register_with_base, try_each, try_fallback_bases,
  send_status_update, handle_base_command, begin_mission, turn_back, mission_over, report_elsewhere,
  answered, report, report_mission_done, handle_reassign, watch_failed, watch, heartbeats,
  send_heartbeat, run_task, run_started, step, steps,
}

-- The tasks, the flag and the answers that a step leaves alone.
pub record Same (n n' : Node) : Type 0 where
  pub busy : n'.busy ≡ n.busy
  pub started : n'.started ≡ n.started

pub Same-refl : {n : Node} → Same n n
Same-refl = record { busy = refl; started = refl }

pub Same-trans : {a b c : Node} → Same a b → Same b c → Same a c
Same-trans e f = record { busy = f.busy ∙ e.busy; started = f.started ∙ e.started }

module _ (cfg : Config) (lib : Library) (net : Network) where
  pub Same-registered :
      (n : Node) (addr : String) (o : Option Message) → Same n (registered cfg lib n addr o).0
  unfolding registered
  Same-registered n addr none = Same-refl
  Same-registered n addr (some answer) = record { busy = refl; started = refl }

  pub Same-register : (n : Node) (addr : String) → Same n (register_with_base cfg lib net n addr).0
  unfolding register_with_base register_message stamped send
  Same-register n addr =
      let (n1, msg) = register_message cfg lib n in
      Same-trans (record { busy = refl; started = refl })
        (Same-registered (send n1 (DroneNode.ask addr msg)) addr (net n.sent addr msg))

  pub Same-try_each : (n : Node) (addrs : List String) → Same n (try_each cfg lib net n addrs).0
  unfolding try_each
  Same-try_each n [] = Same-refl
  Same-try_each n (addr ∷ addrs) =
      let r = register_with_base cfg lib net n addr in
      elim (Bool-cases (addr == n.base_addr)) [
        | inl e ↦ rw e (Same-try_each n addrs)
        | inr e ↦ elim (Bool-cases r.1) [
          | inl f ↦ rw (e, f) (Same-register n addr)
          | inr f ↦ rw (e, f) (Same-trans (Same-register n addr) (Same-try_each r.0 addrs))
        ]
      ]

  pub Same-fallback : (n : Node) → Same n (try_fallback_bases cfg lib net n).0
  unfolding try_fallback_bases
  Same-fallback n = Same-try_each n cfg.peer_bases

  pub Same-status : (n : Node) (desc : String) → Same n (send_status_update cfg lib n desc)
  unfolding send_status_update stamped send
  Same-status n desc = elim (Bool-cases (n.base_addr == "")) [
    | inl e ↦ rw (e, send_status_update) Same-refl
    | inr e ↦ rw (e, send_status_update) (record { busy = refl; started = refl })
  ]

  pub Same-heartbeats : (n : Node) (targets : List String) → Same n (heartbeats cfg lib n targets)
  unfolding heartbeats send_heartbeat stamped send
  Same-heartbeats n [] = Same-refl
  Same-heartbeats n (t ∷ ts) =
      Same-trans (record { busy = refl; started = refl })
        (Same-heartbeats (send_heartbeat cfg lib n t) ts)

  pub Same-watch : (now : ℕ) (n : Node) (dialled : Bool) → Same n (watch cfg lib net now dialled n)
  unfolding watch watch_failed
  Same-watch now n dialled =
      let m : Node = record n { fails = n.fails + 1 } in
      let f = Same-fallback m in
      record { busy = ground (arith, f.busy); started = ground (arith, f.started) }

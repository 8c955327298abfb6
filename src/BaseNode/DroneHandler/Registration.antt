-- ===== src/BaseNode/DroneHandler/Registration.antt =====
-- handleDroneRegister of cmd/base/drone_handler.go, for a drone that had a mission when it registers.
use mi_desbloqueio_do_estrei.Common.{
  ℕ, ◌+◌, ◌≡◌, List, [], ◌∷◌, refl, ◌∙◌, String, true, false, count, Bool-cases, inl, inr, ltb,
  Option-cases,
}
use mi_desbloqueio_do_estrei.Common.Assoc.{lookup}
use mi_desbloqueio_do_estrei.Models.{drone_idle, Request, Drone, RegisterPayload}
use mi_desbloqueio_do_estrei.Queue.{assigned_to, pending_len, is_drone_assigned}
use mi_desbloqueio_do_estrei.Queue.Assignment.{clear_drone_assignments_lem}
use mi_desbloqueio_do_estrei.State.{update_drone_status, BaseState, register_drone, is_locked}
use mi_desbloqueio_do_estrei.BaseNode.{Config, Json, Node, send, stamped, go}
use mi_desbloqueio_do_estrei.BaseNode.DroneHandler.{register}
use mi_desbloqueio_do_estrei.BaseNode.Dispatcher.{start_dispatch, give_up}
use mi_desbloqueio_do_estrei.State.Locks.{try_lock-held}

is_locked-register_drone :
    (s : BaseState) (d : Drone) (id : String) → is_locked (register_drone s d) id ≡ is_locked s id
unfolding register_drone is_locked
is_locked-register_drone s d id = elim (Option-cases (lookup d.id s.drones)) [
  | inl e ↦ rw (register_drone, e) refl
  | inr (old, e) ↦ elim (Bool-cases (ltb d.last_seen old.last_seen)) [
    | inl l ↦ rw (register_drone, e, l) refl
    | inr l ↦ rw (register_drone, e, l) refl
  ]
]

is_locked-register :
    (cfg : Config) (now : ℕ) (n : Node) (reg : RegisterPayload) (id : String)
    → is_locked (register cfg now n reg).state id ≡ is_locked n.state id
unfolding register stamped send go
is_locked-register cfg now n reg id = is_locked-register_drone n.state _ id

-- The goroutine of tryDispatch for a request, once for each time and drone, one after another.
abbrev pub retried : Json → Config → Request → Node → List (ℕ × Drone) → Node
retried json cfg r n [] = n
retried json cfg r n ((now, d) ∷ tries) =
    retried json cfg r (start_dispatch json cfg now n r d) tries

-- A base that is stuck with a request: its lock is held, and it has sent and started this much.
abbrev pub IsStuck : Request → Node → Node → Type 0
IsStuck r n n' = (is_locked n'.state r.id ≡ true) × (n'.sent ≡ n.sent) × (n'.started ≡ n.started)

is_locked-update_drone_status :
    (now : ℕ) (s : BaseState) (drone status id : String)
    → is_locked (update_drone_status now s drone status) id ≡ is_locked s id
unfolding update_drone_status is_locked
is_locked-update_drone_status now s drone status id = refl

start_dispatch-IsStuck :
    (json : Json) (cfg : Config) (now : ℕ) (n : Node) (r : Request) (d : Drone)
    → is_locked n.state r.id ≡ true
    → IsStuck r n (start_dispatch json cfg now n r d)
unfolding start_dispatch give_up
start_dispatch-IsStuck json cfg now n r d h =
    rw (try_lock-held n.state r.id cfg.base_id h)
      (is_locked-update_drone_status now n.state d.id drone_idle r.id ∙ h, refl, refl)

retried-IsStuck :
    (json : Json) (cfg : Config) (n : Node) (r : Request) (tries : List (ℕ × Drone))
    → is_locked n.state r.id ≡ true
    → IsStuck r n (retried json cfg r n tries)
retried-IsStuck json cfg n r [] h = (h, refl, refl)
retried-IsStuck json cfg n r ((now, d) ∷ tries) h =
    let (l, s, t) = start_dispatch-IsStuck json cfg now n r d h in
    let (l', s', t') = retried-IsStuck json cfg (start_dispatch json cfg now n r d) r tries l in
    (l', s' ∙ s, t' ∙ t)

-- After a drone has registered, no request is assigned to it and those that were are pending again. But a
-- lock that is held on a request stays held, however often the dispatch of the request is then tried with
-- nothing in between that releases it, and no try sends anything or leaves a goroutine that would.
pub register-IsStuck :
    (json : Json) (cfg : Config) (now : ℕ) (n : Node) (reg : RegisterPayload) (r : Request)
    (tries : List (ℕ × Drone))
    → is_locked n.state r.id ≡ true
    → let n' = register cfg now n reg in
      (is_drone_assigned n'.pq reg.drone_id ≡ false)
      × (pending_len n'.pq ≡ pending_len n.pq + count (assigned_to reg.drone_id) n.pq.heap)
      × IsStuck r n' (retried json cfg r n' tries)
unfolding register stamped send go
register-IsStuck json cfg now n reg r tries locked =
    let n' = register cfg now n reg in
    let (free, pending) = clear_drone_assignments_lem n.pq reg.drone_id in
    (
      free,
      pending,
      retried-IsStuck json cfg n' r tries (is_locked-register cfg now n reg r.id ∙ locked),
    )

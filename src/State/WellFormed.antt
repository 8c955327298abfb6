-- ===== src/State/WellFormed.antt =====
-- The methods of cmd/base/state.go that change the state, as one type of operations, and the
-- well-formedness that every one of them keeps.
use mi_desbloqueio_do_estrei.Common.{
  ℕ, ◌≤◌, ◌≡◌, refl, String, List, [], ◌∷◌, arith, Option-cases, Bool-cases, inl, inr, ltb,
}
use mi_desbloqueio_do_estrei.Common.Int.{ℤ}
use mi_desbloqueio_do_estrei.Common.Assoc
use mi_desbloqueio_do_estrei.Common.Assoc.{lookup, entries, entries-insert, entries-delete}
use mi_desbloqueio_do_estrei.Common.Keyed.{
  IsKeyed, IsKeyed-nil, IsKeyed-insert, IsKeyed-modify, IsKeyed-delete, IsKeyed-delete_if,
}
use mi_desbloqueio_do_estrei.Models.{Drone, DroneStatus, Base}
use mi_desbloqueio_do_estrei.State.{
  BaseState, new_base_state, touch_sensor, touch_broker, register_drone, update_drone_status,
  touched, touch_drone, update_drone_mission_desc, remove_drone, purge_lost_drones, update_peer,
  mark_peer_offline, try_lock, release_lock, clear_locks,
}

pub data StateOp : Type 0 where
  touch_sensor_op : String → ℤ → StateOp
  touch_broker_op : String → ℤ → StateOp
  register_op : Drone → StateOp
  status_op : ℕ → String → DroneStatus → StateOp
  touch_drone_op : ℕ → String → String → String → StateOp
  mission_op : ℕ → String → String → StateOp
  remove_drone_op : String → StateOp
  purge_op : StateOp
  update_peer_op : Base → StateOp
  offline_op : String → StateOp
  try_lock_op : String → String → StateOp
  release_op : String → StateOp
  clear_locks_op : StateOp

unfoldable pub apply_op : BaseState → StateOp → BaseState
apply_op s (touch_sensor_op id t) = touch_sensor s id t
apply_op s (touch_broker_op id t) = touch_broker s id t
apply_op s (register_op d) = register_drone s d
apply_op s (status_op now id status) = update_drone_status now s id status
apply_op s (touch_drone_op now id base status) = touch_drone now s id base status
apply_op s (mission_op now id desc) = update_drone_mission_desc now s id desc
apply_op s (remove_drone_op id) = remove_drone s id
apply_op s purge_op = purge_lost_drones s
apply_op s (update_peer_op b) = update_peer s b
apply_op s (offline_op id) = mark_peer_offline s id
apply_op s (try_lock_op req base) = (try_lock s req base).0
apply_op s (release_op req) = release_lock s req
apply_op s clear_locks_op = clear_locks s

unfoldable pub run_ops : BaseState → List StateOp → BaseState
unfolding apply_op
run_ops s [] = s
run_ops s (op ∷ ops) = run_ops (apply_op s op) ops

abbrev pub drone_key : Drone → String
drone_key d = d.id

abbrev pub base_key : Base → String
base_key b = b.id

-- Every drone and every base stands once, under its own ID, and a lock has one holder.
pub record IsWellFormed (s : BaseState) : Type 0 where
  pub drones : IsKeyed drone_key s.drones
  pub peers : IsKeyed base_key s.peers
  pub locks : (req : String) → entries req s.locks ≤ 1

module _ (s : BaseState) (w : IsWellFormed s) where
  register_drone-IsWellFormed : (d : Drone) → IsWellFormed (register_drone s d)
  unfolding register_drone
  register_drone-IsWellFormed d =
      let added : IsKeyed drone_key _ = IsKeyed-insert drone_key d s.drones w.drones in
      elim (Option-cases (lookup d.id s.drones)) [
        | inl e ↦
            rw (e, register_drone) (record { drones = added; peers = w.peers; locks = w.locks })
        | inr (old, e) ↦ elim (Bool-cases (ltb d.last_seen old.last_seen)) [
          | inl l ↦ rw (e, l, register_drone) w
          | inr l ↦
              rw (e, l, register_drone)
                (record { drones = added; peers = w.peers; locks = w.locks })
        ]
      ]

  update_peer-IsWellFormed : (b : Base) → IsWellFormed (update_peer s b)
  unfolding update_peer
  update_peer-IsWellFormed b = elim (Option-cases (lookup b.id s.peers)) [
    | inl e ↦
        rw (e, update_peer)
          (record {
            drones = w.drones;
            peers = IsKeyed-insert base_key b s.peers w.peers;
            locks = w.locks;
          })
    | inr (old, e) ↦
        rw (e, update_peer)
          (record {
            drones = w.drones;
            peers = IsKeyed-modify base_key b.id _ s.peers (λ p. refl) w.peers;
            locks = w.locks;
          })
  ]

  try_lock-IsWellFormed : (req base : String) → IsWellFormed (try_lock s req base).0
  unfolding try_lock
  try_lock-IsWellFormed req base = elim (Option-cases (lookup req s.locks)) [
    | inl e ↦
        rw (e, try_lock)
          (record {
            drones = w.drones;
            peers = w.peers;
            locks = λ k. entries-insert req k base s.locks (w.locks k);
          })
    | inr (old, e) ↦ rw (e, try_lock) w
  ]

  modified :
      (id : String) (f : Drone → Drone)
      → ((d : Drone) → drone_key (f d) ≡ drone_key d)
      → IsWellFormed (record s { drones = Assoc.modify id f s.drones })
  modified id f h = record {
    drones = IsKeyed-modify drone_key id f s.drones h w.drones;
    peers = w.peers;
    locks = w.locks;
  }

touched-id :
    (now : ℕ) (base status : String) (d : Drone)
    → drone_key (touched now base status d) ≡ drone_key d
unfolding touched
touched-id now base status d = ground arith

pub apply_op-IsWellFormed :
    (s : BaseState) (op : StateOp) → IsWellFormed s → IsWellFormed (apply_op s op)
unfolding apply_op touch_sensor touch_broker update_drone_status touch_drone
    update_drone_mission_desc remove_drone purge_lost_drones mark_peer_offline release_lock
    clear_locks
apply_op-IsWellFormed s (touch_sensor_op id t) w = record {
  drones = w.drones;
  peers = w.peers;
  locks = w.locks;
}
apply_op-IsWellFormed s (touch_broker_op id t) w = record {
  drones = w.drones;
  peers = w.peers;
  locks = w.locks;
}
apply_op-IsWellFormed s (register_op d) w = register_drone-IsWellFormed s w d
apply_op-IsWellFormed s (status_op now id status) w = modified s w id _ (λ d. refl)
apply_op-IsWellFormed s (touch_drone_op now id base status) w =
    modified s w id _ (touched-id now base status)
apply_op-IsWellFormed s (mission_op now id desc) w = modified s w id _ (λ d. refl)
apply_op-IsWellFormed s (remove_drone_op id) w = record {
  drones = IsKeyed-delete drone_key id s.drones w.drones;
  peers = w.peers;
  locks = w.locks;
}
apply_op-IsWellFormed s purge_op w = record {
  drones = IsKeyed-delete_if drone_key _ s.drones w.drones;
  peers = w.peers;
  locks = w.locks;
}
apply_op-IsWellFormed s (update_peer_op b) w = update_peer-IsWellFormed s w b
apply_op-IsWellFormed s (offline_op id) w = record {
  drones = w.drones;
  peers = IsKeyed-modify base_key id _ s.peers (λ p. refl) w.peers;
  locks = w.locks;
}
apply_op-IsWellFormed s (try_lock_op req base) w = try_lock-IsWellFormed s w req base
apply_op-IsWellFormed s (release_op req) w = record {
  drones = w.drones;
  peers = w.peers;
  locks = λ k. omega (arith, entries-delete req k s.locks, w.locks k);
}
apply_op-IsWellFormed s clear_locks_op w = record {
  drones = w.drones;
  peers = w.peers;
  locks = λ k. omega arith;
}

run_ops_from : (s : BaseState) (ops : List StateOp) → IsWellFormed s → IsWellFormed (run_ops s ops)
unfolding run_ops
run_ops_from s [] w = w
run_ops_from s (op ∷ ops) w = run_ops_from (apply_op s op) ops (apply_op-IsWellFormed s op w)

-- From a new state, whatever methods are called, in whatever order, every drone and every base stands
-- once and under its own ID, and each request is locked by one holder at most.
pub run_ops-IsWellFormed : (ops : List StateOp) → IsWellFormed (run_ops new_base_state ops)
unfolding new_base_state
run_ops-IsWellFormed ops = run_ops_from new_base_state ops (record {
  drones = IsKeyed-nil drone_key;
  peers = IsKeyed-nil base_key;
  locks = λ k. omega arith;
})

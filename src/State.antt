-- ===== src/State.antt =====
-- `BaseState` of cmd/base/state.go: what a base knows of its drones, the other bases, and the locks.
-- The mutex makes each method one step. Every method hands out copies, so a drone or a base is a
-- value. `dashClients`, which no code reads, is left out. A method that calls time.Now() takes the
-- time; one that returns from the middle of a `range` over a map takes the choice that Go makes.
pub mod Drones
pub mod Locks
pub mod WellFormed
use mi_desbloqueio_do_estrei.Common.{
  ℕ, ◌%◌, String, Bool, true, false, not, ◌&&◌, Option, none, some, List, [], ◌∷◌, length,
  get_elem?, select, ltb, if◌then◌else◌, ◌==◌, is_some,
}
use mi_desbloqueio_do_estrei.Common.Int.{ℤ, ltb_ℤ}
use mi_desbloqueio_do_estrei.Common.Assoc.{Assoc, lookup, insert, delete, modify, values, delete_if}
use mi_desbloqueio_do_estrei.Models.{
  Drone, DroneStatus, drone_idle, drone_lost, Base, base_online, base_offline,
}

pub record BaseState : Type 0 where
  pub drones : Assoc Drone
  pub peers : Assoc Base
  pub locks : Assoc String
  pub sensors : Assoc ℤ
  pub brokers : Assoc ℤ

unfoldable pub new_base_state : BaseState
new_base_state = record { drones = []; peers = []; locks = []; sensors = []; brokers = [] }

-- `if existing, ok := m[id]; !ok || ts > existing { m[id] = ts }`
unfoldable pub touch : Assoc ℤ → String → ℤ → Assoc ℤ
touch m id ts = elim (lookup id m) [
  | none ↦ insert id ts m
  | some existing ↦ if ltb_ℤ existing ts then insert id ts m else m
]

unfoldable pub touch_sensor : BaseState → String → ℤ → BaseState
unfolding touch
touch_sensor s id ts = record s { sensors = touch s.sensors id ts }

unfoldable pub get_active_sensors : BaseState → Assoc ℤ
get_active_sensors s = s.sensors

unfoldable pub touch_broker : BaseState → String → ℤ → BaseState
unfolding touch
touch_broker s id ts = record s { brokers = touch s.brokers id ts }

unfoldable pub get_active_brokers : BaseState → Assoc ℤ
get_active_brokers s = s.brokers

unfoldable pub register_drone : BaseState → Drone → BaseState
register_drone s d = elim (lookup d.id s.drones) [
  | none ↦ record s { drones = insert d.id d s.drones }
  | some existing ↦
      if ltb d.last_seen existing.last_seen then s else record s { drones = insert d.id d s.drones }
]

unfoldable pub update_drone_status : ℕ → BaseState → String → DroneStatus → BaseState
update_drone_status now s id status = record s {
  drones = modify id (λ d. record d { status = status; last_seen = now }) s.drones;
}

-- What touchDrone writes to a drone that is known.
unfoldable pub touched : ℕ → String → String → Drone → Drone
touched now base_id status d =
    let d1 : Drone = record d {
      last_seen = now;
      base_id = if not (base_id == "") && not (d.base_id == base_id) then base_id else d.base_id;
    } in
    if not (status == "")
    then record d1 { status = status }
    else if d.status == drone_lost
    then record d1 { status = drone_idle }
    else d1

unfoldable pub touch_drone : ℕ → BaseState → String → String → String → BaseState
unfolding touched
touch_drone now s id base_id status = record s {
  drones = modify id (touched now base_id status) s.drones;
}

unfoldable pub update_drone_mission_desc : ℕ → BaseState → String → String → BaseState
update_drone_mission_desc now s id desc = record s {
  drones = modify id (λ d. record d { mission_desc = desc; last_seen = now }) s.drones;
}

unfoldable pub get_drone : BaseState → String → Option Drone
get_drone s id = lookup id s.drones

abbrev pub is_idle_at : String → Drone → Bool
is_idle_at base_id d = d.base_id == base_id && d.status == drone_idle

-- Any of the idle drones of the base: `choice` says which one the `range` meets first.
unfoldable pub idle_drone : ℕ → BaseState → String → Option Drone
idle_drone choice s local_base_id =
    let idle = select (is_idle_at local_base_id) (values s.drones) in
    get_elem? idle (choice % length idle)

unfoldable pub all_drones : BaseState → List Drone
all_drones s = values s.drones

unfoldable pub drone_count : BaseState → ℕ
drone_count s = length s.drones

unfoldable pub remove_drone : BaseState → String → BaseState
remove_drone s id = record s { drones = delete id s.drones }

unfoldable pub purge_lost_drones : BaseState → BaseState
purge_lost_drones s = record s { drones = delete_if (λ d. d.status == drone_lost) s.drones }

unfoldable pub update_peer : BaseState → Base → BaseState
update_peer s b = elim (lookup b.id s.peers) [
  | some existing ↦ record s {
    peers =
        modify b.id
          (λ p. record p {
            last_seen = b.last_seen;
            status = b.status;
            addr = b.addr;
            gossip_addr = b.gossip_addr;
          })
          s.peers;
  }
  | none ↦ record s { peers = insert b.id b s.peers }
]

unfoldable pub mark_peer_offline : BaseState → String → BaseState
mark_peer_offline s id = record s {
  peers = modify id (λ p. record p { status = base_offline }) s.peers;
}

unfoldable pub online_peers : BaseState → List Base
online_peers s = select (λ p. p.status == base_online) (values s.peers)

unfoldable pub all_peers : BaseState → List Base
all_peers s = values s.peers

unfoldable pub try_lock : BaseState → String → String → BaseState × Bool
try_lock s req_id base_id = elim (lookup req_id s.locks) [
  | some _ ↦ (s, false)
  | none ↦ (record s { locks = insert req_id base_id s.locks }, true)
]

unfoldable pub release_lock : BaseState → String → BaseState
release_lock s req_id = record s { locks = delete req_id s.locks }

unfoldable pub clear_locks : BaseState → BaseState
clear_locks s = record s { locks = [] }

unfoldable pub is_locked : BaseState → String → Bool
is_locked s req_id = is_some (lookup req_id s.locks)

-- ===== src/State/Drones.antt =====
-- The drones and the sensors of cmd/base/state.go: news that arrives late never replaces newer news.
use mi_desbloqueio_do_estrei.Common.{
  ℕ, zero, suc, count, length-select, IsIn-select, get_elem?-IsIn, ◌≤◌, ◌<◌, ◌≡◌, ◌≢◌, refl, String,
  true, Option, none, some, List, [], ◌∷◌, arith, if◌then◌else◌, ◌==◌, eq_iff, eq_refl, ltb, IsIn,
  select, length, ◌%◌, get_elem?,
}
use mi_desbloqueio_do_estrei.Common.Int.{ℤ, ltb_ℤ}
use mi_desbloqueio_do_estrei.Common.Assoc.{
  Assoc, lookup, values, lookup-insert, lookup-delete_if, entries, drop_option,
}
use mi_desbloqueio_do_estrei.Models.{Drone, drone_lost}
use mi_desbloqueio_do_estrei.State.{
  BaseState, touch, register_drone, get_drone, purge_lost_drones, is_idle_at, idle_drone,
  all_drones,
}

-- The later of what is known of a drone and what is reported; a tie goes to the report.
abbrev pub later : Option Drone → Drone → Drone
later none d = d
later (some e) d = if ltb d.last_seen e.last_seen then e else d

-- registerDrone keeps the later of the two records of a drone, and changes no other drone.
pub register_drone_lem :
    (s : BaseState) (d : Drone) (id : String)
    → get_drone (register_drone s d) id
      ≡ (if d.id == id then some (later (get_drone s d.id) d) else get_drone s id)
unfolding register_drone get_drone
register_drone_lem s d id = ground (arith, lookup-insert d.id id d s.drones, eq_iff d.id id)

-- Two reports of different times leave the same knowledge in either order of arrival.
pub register_drone_comm :
    (s : BaseState) (d e : Drone) (id : String)
    → d.last_seen ≢ e.last_seen
    → get_drone (register_drone (register_drone s d) e) id
      ≡ get_drone (register_drone (register_drone s e) d) id
register_drone_comm s d e id ne = ground (
  arith,
  register_drone_lem s d id,
  register_drone_lem s e id,
  register_drone_lem s d e.id,
  register_drone_lem s e d.id,
  register_drone_lem (register_drone s d) e id,
  register_drone_lem (register_drone s e) d id,
  eq_iff d.id id,
  eq_iff e.id id,
  eq_iff d.id e.id,
  eq_iff e.id d.id,
)

abbrev pub max_option : Option ℤ → ℤ → ℤ
max_option none t = t
max_option (some u) t = if ltb_ℤ u t then t else u

-- The time of a sensor or broker is the greatest reported.
pub touch_lem :
    (m : Assoc ℤ) (id other : String) (t : ℤ)
    → lookup other (touch m id t)
      ≡ (if id == other then some (max_option (lookup id m) t) else lookup other m)
unfolding touch
touch_lem m id other t = ground (arith, lookup-insert id other t m, eq_iff id other)

touch_comm_self :
    (m : Assoc ℤ) (id : String) (t u : ℤ)
    → lookup id (touch (touch m id t) id u) ≡ lookup id (touch (touch m id u) id t)
touch_comm_self m id t u = ground (
  arith,
  eq_refl id,
  touch_lem m id id t,
  touch_lem m id id u,
  touch_lem (touch m id t) id id u,
  touch_lem (touch m id u) id id t,
)

-- PurgeLostDrones forgets the lost drones and no other.
pub purge_lost_drones_lem :
    (s : BaseState) (id : String)
    → entries id s.drones ≤ 1
    → get_drone (purge_lost_drones s) id
      ≡ drop_option (λ d. d.status == drone_lost) (get_drone s id)
unfolding purge_lost_drones get_drone
purge_lost_drones_lem s id h = lookup-delete_if (λ d. d.status == drone_lost) id s.drones h

get_elem?_of_lt :
    (xs : List Drone) (i : ℕ) → i < length xs → (d : Drone) × (get_elem? xs i ≡ some d)
get_elem?_of_lt [] i h = absurd (omega arith)
get_elem?_of_lt (x ∷ xs) zero h = (x, refl)
get_elem?_of_lt (x ∷ xs) (suc i) h = get_elem?_of_lt xs i (omega arith)

-- Whichever drone the range meets first, it is a known drone of the base and idle.
pub idle_drone-IsIn :
    (choice : ℕ) (s : BaseState) (base : String) (d : Drone)
    → idle_drone choice s base ≡ some d
    → IsIn d (all_drones s) × (is_idle_at base d ≡ true)
unfolding idle_drone all_drones
idle_drone-IsIn choice s base d h =
    IsIn-select (is_idle_at base) (values s.drones) d
      (get_elem?-IsIn (select (is_idle_at base) (values s.drones)) _ d h)

-- If the base has an idle drone, one is found.
pub idle_drone_found :
    (choice : ℕ) (s : BaseState) (base : String)
    → 0 < count (is_idle_at base) (all_drones s)
    → (d : Drone) × (idle_drone choice s base ≡ some d)
unfolding idle_drone all_drones
idle_drone_found choice s base h =
    let idle = select (is_idle_at base) (values s.drones) in
    get_elem?_of_lt idle (choice % length idle)
      (grind (arith, length-select (is_idle_at base) (values s.drones)))

-- ===== src/WebDash.antt =====
-- cmd/webdash/aggregator.go: what the web dashboard knows of each sector, and the picture it makes of all.
-- A range over the map of sectors goes in the order of the association list, which may be any.
pub mod Latest
pub mod Picture
use mi_desbloqueio_do_estrei.Common.{
  ℕ, String, Bool, true, false, not, ◌||◌, none, some, List, [], ◌∷◌, ◌++◌, count, length, map, ltb,
  if◌then◌else◌, ◌==◌, concat, to_lower, to_upper,
}
use mi_desbloqueio_do_estrei.Common.Assoc.{Assoc, lookup, insert, modify, values}
use mi_desbloqueio_do_estrei.Common.Int.{ℤ}
use mi_desbloqueio_do_estrei.Models.{
  Request, Drone, Base, Alert, StatusUpdatePayload, drone_busy, drone_idle, drone_lost, base_online,
  base_offline, status_pending, status_locked,
}

pub record SectorState : Type 0 where
  pub payload : StatusUpdatePayload
  pub updated_at : ℕ
  pub online : Bool

-- `sectors` of Aggregator.
abbrev pub Aggregator : Type 0
Aggregator = Assoc SectorState

-- The zero time of Go is 0.
unfoldable pub new_aggregator : List String → Aggregator → Aggregator
new_aggregator [] a = a
new_aggregator (id ∷ ids) a =
    let payload : StatusUpdatePayload = record {
      sector_id = to_upper id;
      bases = [];
      drones = [];
      queue = [];
      alerts = [];
      active_sensors = [];
      active_brokers = [];
    } in
    new_aggregator ids
      (insert (to_upper id) (record { payload = payload; updated_at = 0; online = false }) a)

unfoldable pub update : ℕ → Aggregator → StatusUpdatePayload → Aggregator
update now a payload =
    let id = to_upper payload.sector_id in
    let news : SectorState = record { payload = payload; updated_at = now; online = true } in
    elim (lookup id a) [ some _ ↦ modify id (λ _. news) a | none ↦ insert id news a ]

unfoldable pub mark_offline : Aggregator → String → Aggregator
mark_offline a sector_id = modify (to_upper sector_id) (λ s. record s { online = false }) a

-- readSectorLoop on a payload that it has decoded.
unfoldable pub receive : ℕ → Aggregator → String → StatusUpdatePayload → Aggregator
unfolding update
receive now a sector_id payload =
    update now a
      (if payload.sector_id == "" then record payload { sector_id = sector_id } else payload)

unfoldable pub add_drone : Assoc Drone → Drone → Assoc Drone
add_drone m d = elim (lookup d.id m) [
  | none ↦ insert d.id d m
  | some existing ↦ if ltb existing.last_seen d.last_seen then insert d.id d m else m
]

unfoldable pub add_drones : Assoc Drone → List Drone → Assoc Drone
unfolding add_drone
add_drones m [] = m
add_drones m (d ∷ ds) = add_drones (add_drone m d) ds

-- The two nested loops: the drones of one sector after another.
unfoldable pub global_drones : Assoc Drone → List SectorState → Assoc Drone
unfolding add_drones
global_drones m [] = m
global_drones m (s ∷ ss) = global_drones (add_drones m s.payload.drones) ss

unfoldable pub add_request : Assoc Request → Request → Assoc Request
add_request m r = elim (lookup r.id m) [ none ↦ insert r.id r m | some _ ↦ m ]

unfoldable pub add_requests : Assoc Request → List Request → Assoc Request
unfolding add_request
add_requests m [] = m
add_requests m (r ∷ rs) = add_requests (add_request m r) rs

unfoldable pub global_requests : Assoc Request → List SectorState → Assoc Request
unfolding add_requests
global_requests m [] = m
global_requests m (s ∷ ss) = global_requests (add_requests m s.payload.queue) ss

pub record GlobalStats : Type 0 where
  pub drone_total : ℕ
  pub busy : ℕ
  pub idle : ℕ
  pub lost : ℕ
  pub pending_queue : ℕ

unfoldable pub stats : List Drone → List Request → GlobalStats
stats ds rs = record {
  drone_total = length ds;
  busy = count (λ d. d.status == drone_busy) ds;
  idle = count (λ d. d.status == drone_idle) ds;
  lost = count (λ d. d.status == drone_lost) ds;
  pending_queue = count (λ r. r.status == status_pending || r.status == status_locked) rs;
}

-- strings.EqualFold, on ASCII letters.
unfoldable pub equal_fold : String → String → Bool
equal_fold a b = to_lower a == to_lower b

-- The sector's own base is shown as the sector is.
unfoldable pub show_base : String → Bool → Base → Base
unfolding equal_fold
show_base sector_id online b =
    if equal_fold b.id (concat ("base-" ∷ sector_id ∷ []))
    then record b { status = if online then base_online else base_offline }
    else b

-- What GlobalSnapshot writes to a sector.
unfoldable pub show : SectorState → SectorState
unfolding show_base
show s =
    let p : StatusUpdatePayload =
      if s.online
      then s.payload
      else record s.payload { active_sensors = []; active_brokers = []; drones = [] } in
    record s { payload = record p { bases = map (show_base p.sector_id s.online) p.bases } }

unfoldable pub show_all : Aggregator → Aggregator
unfolding show
show_all [] = []
show_all ((key, s) ∷ a) = (key, show s) ∷ show_all a

-- GlobalState. A SectorSnapshot has the fields of a SectorState.
pub record GlobalState : Type 0 where
  pub timestamp : ℕ
  pub sectors : List SectorState
  pub stats : GlobalStats

-- The picture, and the aggregator, which GlobalSnapshot changes.
unfoldable pub global_snapshot : ℕ → Aggregator → GlobalState × Aggregator
unfolding global_drones global_requests stats show_all
global_snapshot now a =
    let drones = values (global_drones [] (values a)) in
    let requests = values (global_requests [] (values a)) in
    let a' = show_all a in
    (record { timestamp = now; sectors = values a'; stats = stats drones requests }, a')

-- What the dashboard meets: a payload on the connection to a sector, the loss of that connection
-- (connectSector), and a browser that asks for a picture.
pub data Event : Type 0 where
  received : ℕ → String → StatusUpdatePayload → Event
  lost : String → Event
  asked : ℕ → Event

unfoldable pub step : Aggregator → Event → Aggregator
unfolding receive mark_offline global_snapshot
step a (received now id payload) = receive now a id payload
step a (lost id) = mark_offline a id
step a (asked now) = (global_snapshot now a).1

unfoldable pub steps : Aggregator → List Event → Aggregator
unfolding step
steps a [] = a
steps a (e ∷ events) = steps (step a e) events

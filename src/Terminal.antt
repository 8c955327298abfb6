-- ===== src/Terminal.antt =====
-- cmd/dashboard/main.go: the monitor in a terminal. `render` makes a screen, which holds what is printed
-- without its layout: the padding of the columns, the colours and the lines between them. A colour is
-- kept by the test that chooses it, and the time of day by the number of nanoseconds.
pub mod Shown
pub mod Stream
use mi_desbloqueio_do_estrei.Common.{
  ℕ, zero, suc, ◌+◌, ◌-◌, String, Bool, true, false, not, ◌&&◌, ◌||◌, Option, none, some, List, [],
  ◌∷◌, ◌++◌, count, length, drop, get_elem?, map, ltb, leb, if◌then◌else◌, ◌==◌, concat,
}
use mi_desbloqueio_do_estrei.Common.Assoc.{Assoc, lookup, insert}
use mi_desbloqueio_do_estrei.Common.Int.{ℤ}
use mi_desbloqueio_do_estrei.Models.{
  Request, Drone, Base, Alert, StatusUpdatePayload, status_pending, status_locked, base_offline,
  drone_busy, drone_lost, type_critical, alert_critical, alert_warn, alert_ok,
}
use mi_desbloqueio_do_estrei.Network.Scanner.{byte_len}
use mi_desbloqueio_do_estrei.Network.Udp.{take_bytes}

-- `m[k]`, with nil for a missing key.
abbrev or_nil : Option (List Drone) → List Drone
or_nil none = []
or_nil (some ds) = ds

abbrev pub drones_at : Assoc (List Drone) → String → List Drone
drones_at m k = or_nil (lookup k m)

-- The loop that fills dronesByBase.
unfoldable pub group_by_base : Assoc (List Drone) → List Drone → Assoc (List Drone)
group_by_base m [] = m
group_by_base m (d ∷ ds) = group_by_base (insert d.base_id (drones_at m d.base_id ++ d ∷ []) m) ds

abbrev pub is_open : Request → Bool
is_open r = r.status == status_pending || r.status == status_locked

-- The loop that fills `pending`, which breaks at eight.
unfoldable pub open_requests : List Request → List Request → List Request
open_requests pending [] = pending
open_requests pending (r ∷ queue) =
    let pending' = if is_open r then pending ++ r ∷ [] else pending in
    let rest = open_requests pending' queue in if leb 8 (length pending') then pending' else rest

-- `alerts[len(alerts)-8:]`, if there are more.
unfoldable pub last_alerts : List Alert → List Alert
last_alerts alerts = if ltb 8 (length alerts) then drop (length alerts - 8) alerts else alerts

-- The message of an alert, cut at a number of bytes. A character that is cut in the middle is left out.
unfoldable pub clip : String → String
unfolding byte_len take_bytes
clip msg = if ltb 38 (byte_len msg) then concat (take_bytes 35 msg ∷ "..." ∷ []) else msg

pub record BaseCell : Type 0 where
  pub offline : Bool
  pub id : String
  pub status : String
  pub drones : ℕ

pub record RequestCell : Type 0 where
  pub critical : Bool
  pub type : String
  pub sector_id : String
  pub lamport_ts : ℤ

pub record DroneCell : Type 0 where
  pub busy : Bool
  pub lost : Bool
  pub id : String
  pub status : String
  pub base_id : String

pub record AlertCell : Type 0 where
  pub level : String
  pub timestamp : ℕ
  pub text : String

unfoldable pub base_cell : Assoc (List Drone) → Base → BaseCell
base_cell by_base b = record {
  offline = b.status == base_offline;
  id = b.id;
  status = b.status;
  drones = length (drones_at by_base b.id);
}

unfoldable pub request_cell : Request → RequestCell
request_cell r = record {
  critical = r.type == type_critical;
  type = r.type;
  sector_id = r.sector_id;
  lamport_ts = r.lamport_ts;
}

unfoldable pub drone_cell : Drone → DroneCell
drone_cell d = record {
  busy = d.status == drone_busy;
  lost = d.status == drone_lost;
  id = d.id;
  status = d.status;
  base_id = d.base_id;
}

unfoldable pub alert_cell : Alert → AlertCell
unfolding clip
alert_cell a = record { level = a.level; timestamp = a.timestamp; text = clip a.message }

-- `for i := 0; i < maxRows; i++`: the cells of two columns side by side, from the row `i` on, `k` rows.
unfoldable pub rows : {A B : Type 0} → ℕ → ℕ → List A → List B → List (Option A × Option B)
rows i zero left right = []
rows i (suc k) left right = (get_elem? left i, get_elem? right i) ∷ rows (i + 1) k left right

-- maxRows.
unfoldable pub max_rows : ℕ → ℕ → ℕ
max_rows left right = if ltb left right then right else left

pub record Screen : Type 0 where
  pub sector_id : String
  pub upper : List (Option BaseCell × Option RequestCell)
  pub lower : List (Option DroneCell × Option AlertCell)
  pub busy_count : ℕ
  pub pending_count : ℕ
  pub queue_len : ℕ

unfoldable pub render : StatusUpdatePayload → Screen
unfolding group_by_base open_requests last_alerts base_cell request_cell drone_cell alert_cell rows
    max_rows
render p =
    let by_base = group_by_base [] p.drones in
    let pending = open_requests [] p.queue in
    let alerts = last_alerts p.alerts in
    record {
      sector_id = p.sector_id;
      upper =
          rows 0 (max_rows (length p.bases) (length pending)) (map (base_cell by_base) p.bases)
            (map request_cell pending);
      lower =
          rows 0 (max_rows (length p.drones) (length alerts)) (map drone_cell p.drones)
            (map alert_cell alerts);
      busy_count = count (λ (d : Drone). d.status == drone_busy) p.drones;
      pending_count = count (λ (r : Request). r.status == status_pending) p.queue;
      queue_len = length p.queue;
    }

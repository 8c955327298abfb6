-- ===== src/Queue.antt =====
-- `PriorityQueue` of internal/queue/queue.go. The mutex makes each method one step, so a method is a
-- function from the queue to the queue and its result. `seen` lists the keys of the map, all of whose
-- values are true. A method that calls time.Now() takes the time. A request of a `range` loop is a
-- copy, so requests are values.
pub mod Op
pub mod Peek
pub mod Sort
pub mod First
pub mod Assignment
pub mod Sync
pub mod Ordered
use mi_desbloqueio_do_estrei.Common.{
  ℕ, ◌+◌, ◌-◌, ◌<◌, String, Bool, true, false, not, ◌&&◌, ◌||◌, Option, none, some, List, [], ◌∷◌,
  length, any, count, select, map, update_first, remove_first, ltb, if◌then◌else◌, ◌==◌, ltb_string,
}
use mi_desbloqueio_do_estrei.Common.Int.{ltb_ℤ, eqb_ℤ}
use mi_desbloqueio_do_estrei.Models.{Request, RequestStatus, status_pending, status_assigned}
use mi_desbloqueio_do_estrei.RequestHeap

pub record PriorityQueue : Type 0 where
  pub heap : List Request
  pub seen : List String

unfoldable pub new : PriorityQueue
new = record { heap = RequestHeap.init []; seen = [] }

abbrev pub has_id : String → Request → Bool
has_id id r = r.id == id

-- `pq.seen[id]`
abbrev pub contains : List String → String → Bool
contains seen id = any (λ k. k == id) seen

unfoldable pub push : PriorityQueue → Request → PriorityQueue × Bool
push pq req =
    if contains pq.seen req.id
    then (pq, false)
    else (record { heap = RequestHeap.push pq.heap req; seen = req.id ∷ pq.seen }, true)

unfoldable pub replace : PriorityQueue → Request → PriorityQueue
replace pq req =
    if not (contains pq.seen req.id)
    then record { heap = RequestHeap.push pq.heap req; seen = req.id ∷ pq.seen }
    else if any (has_id req.id) pq.heap
    then record pq { heap = RequestHeap.init (update_first (has_id req.id) (λ _. req) pq.heap) }
    else pq

abbrev pub is_pending : Request → Bool
is_pending r = r.status == status_pending

-- The test of Peek against the best request so far.
unfoldable pub beats : Request → Request → Bool
beats req best =
    ltb_ℤ req.priority best.priority
    || (eqb_ℤ req.priority best.priority && ltb_ℤ req.lamport_ts best.lamport_ts)
    || (eqb_ℤ req.priority best.priority
        && eqb_ℤ req.lamport_ts best.lamport_ts
        && ltb_string req.id best.id)

-- One round of Peek: `none` while nothing is found.
unfoldable pub better : Option Request → Request → Option Request
better none req = if is_pending req then some req else none
better (some best) req = if is_pending req && beats req best then some req else some best

unfoldable pub scan : Option Request → List Request → Option Request
unfolding better
scan best [] = best
scan best (req ∷ rest) = scan (better best req) rest

-- The pair (request, found) as an optional request.
unfoldable pub peek : PriorityQueue → Option Request
unfolding scan
peek pq = scan none pq.heap

-- What UpdateStatus writes to the request that it finds.
unfoldable pub set_status : ℕ → RequestStatus → String → String → Request → Request
set_status now status locked_by assigned_to r =
    let r1 : Request = record r { status = status } in
    let r2 : Request =
      if status == status_pending && locked_by == "" && assigned_to == ""
      then record r1 { locked_by = ""; assigned_to = "" }
      else record r1 {
        locked_by = if not (locked_by == "") then locked_by else r.locked_by;
        assigned_to = if not (assigned_to == "") then assigned_to else r.assigned_to;
      } in
    if status == status_assigned then record r2 { wall_clock = now } else r2

unfoldable pub update_status :
    ℕ → PriorityQueue → String → RequestStatus → String → String → PriorityQueue × Bool
unfolding set_status
update_status now pq req_id status locked_by assigned_to = (
  record pq {
    heap = update_first (has_id req_id) (set_status now status locked_by assigned_to) pq.heap;
  },
  any (has_id req_id) pq.heap,
)

unfoldable pub clear_assignment : PriorityQueue → String → PriorityQueue
clear_assignment pq req_id = record pq {
  heap = update_first (has_id req_id) (λ r. record r { locked_by = ""; assigned_to = "" }) pq.heap;
}

unfoldable pub remove : PriorityQueue → String → PriorityQueue × Bool
remove pq req_id =
    if any (has_id req_id) pq.heap
    then (record pq { heap = RequestHeap.init (remove_first (has_id req_id) pq.heap) }, true)
    else (pq, false)

unfoldable pub clear_all : PriorityQueue → PriorityQueue
clear_all pq = record { heap = []; seen = [] }

-- `Status == ASSIGNED && AssignedTo == droneID`
abbrev pub assigned_to : String → Request → Bool
assigned_to drone_id r = r.status == status_assigned && r.assigned_to == drone_id

unfoldable pub release : String → Request → Request
release drone_id r =
    if assigned_to drone_id r
    then record r { status = status_pending; assigned_to = ""; locked_by = "" }
    else r

unfoldable pub clear_drone_assignments : PriorityQueue → String → PriorityQueue
unfolding release
clear_drone_assignments pq drone_id =
    let heap' = map (release drone_id) pq.heap in
    record pq {
      heap = if any (assigned_to drone_id) pq.heap then RequestHeap.init heap' else heap';
    }

unfoldable pub len : PriorityQueue → ℕ
len pq = length pq.heap

unfoldable pub pending_len : PriorityQueue → ℕ
pending_len pq = count is_pending pq.heap

-- `WallClock.Before(now.Add(-maxWait))`, with the subtraction moved to the other side.
unfoldable pub check_starvation : ℕ → PriorityQueue → ℕ → List Request
check_starvation now pq max_wait =
    select (λ r. is_pending r && ltb (r.wall_clock + max_wait) now) pq.heap

unfoldable pub has : PriorityQueue → String → Bool
has pq req_id = contains pq.seen req_id

-- One round of SyncFrom.
unfoldable pub sync_one : PriorityQueue × ℕ → Request → PriorityQueue × ℕ
sync_one (pq, added) req =
    if not (contains pq.seen req.id)
    then (record { heap = RequestHeap.push pq.heap req; seen = req.id ∷ pq.seen }, added + 1)
    else (pq, added)

unfoldable pub sync_loop : PriorityQueue × ℕ → List Request → PriorityQueue × ℕ
unfolding sync_one
sync_loop acc [] = acc
sync_loop acc (req ∷ snapshot) = sync_loop (sync_one acc req) snapshot

unfoldable pub sync_from : PriorityQueue → List Request → PriorityQueue × ℕ
unfolding sync_loop
sync_from pq snapshot = sync_loop (pq, 0) snapshot

unfoldable pub is_drone_assigned : PriorityQueue → String → Bool
is_drone_assigned pq drone_id = any (assigned_to drone_id) pq.heap

-- The comparison that GetAll sorts by.
unfoldable pub shown_before : Request → Request → Bool
shown_before a b =
    if a.status == status_pending && b.status == status_pending
    then RequestHeap.less a b
    else if a.status == status_assigned && b.status == status_assigned
    then ltb a.wall_clock b.wall_clock
    else ltb_string a.status b.status

-- sort.SliceStable: before the first that it does not follow.
unfoldable pub insert_stable : Request → List Request → List Request
unfolding shown_before
insert_stable x [] = x ∷ []
insert_stable x (y ∷ ys) = if shown_before y x then y ∷ insert_stable x ys else x ∷ y ∷ ys

unfoldable pub sort_stable : List Request → List Request
unfolding insert_stable
sort_stable [] = []
sort_stable (x ∷ xs) = insert_stable x (sort_stable xs)

unfoldable pub get_all : PriorityQueue → List Request
unfolding sort_stable
get_all pq = sort_stable pq.heap

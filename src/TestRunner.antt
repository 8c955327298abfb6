-- ===== src/TestRunner.antt =====
-- cmd/testrunner/main.go: the tests that the repository runs against its own components. A test is a
-- function of what it does not fix itself: the time, and the order in which its goroutines come to the
-- mutex, each with what it was started with. The texts of its results are left out.
pub mod Schedules
use mi_desbloqueio_do_estrei.Common.{
  ℕ, zero, suc, ◌+◌, ◌-◌, String, Bool, true, false, not, ◌&&◌, ◌||◌, Option, none, some, List, [],
  ◌∷◌, ◌++◌, length, count, nat_eq, if◌then◌else◌, ◌==◌, concat,
}
use mi_desbloqueio_do_estrei.Common.Assoc.{Assoc, lookup, insert}
use mi_desbloqueio_do_estrei.Common.Int.{pos, ltb_ℤ}
use mi_desbloqueio_do_estrei.Models.{
  Request, zero_request, DroneStatus, drone_idle, drone_busy, type_critical, type_normal,
  status_pending,
}
use mi_desbloqueio_do_estrei.Lamport
use mi_desbloqueio_do_estrei.Queue
use mi_desbloqueio_do_estrei.Queue.{PriorityQueue}

unfoldable pub test_lamport_ordering : Bool
test_lamport_ordering =
    let (c1, ts1) = Lamport.tick Lamport.new in
    let (c2, ts2) = Lamport.update Lamport.new ts1 in
    let (c3, ts3) = Lamport.update c1 ts2 in ltb_ℤ ts1 ts2 && ltb_ℤ ts2 ts3

-- The closure tryLock of TestNoDoubleDroneForSameReq, and LoadOrStore of TestLockExclusivity: the map,
-- and whether the key was free.
unfoldable pub store_if_absent : Assoc String → String → String → Assoc String × Bool
store_if_absent locks req_id base_id = elim (lookup req_id locks) [
  | some _ ↦ (locks, false)
  | none ↦ (insert req_id base_id locks, true)
]

-- The goroutines of one of these tests, by the bases that they stand for: the map, and `successes`.
unfoldable pub lock_race : String → Assoc String × ℕ → List String → Assoc String × ℕ
unfolding store_if_absent
lock_race req_id (locks, successes) [] = (locks, successes)
lock_race req_id (locks, successes) (base ∷ order) =
    let (locks', won) = store_if_absent locks req_id base in
    lock_race req_id (locks', if won then successes + 1 else successes) order

unfoldable pub test_no_double_drone_for_same_req : List String → Bool
unfolding lock_race
test_no_double_drone_for_same_req order = nat_eq (lock_race "req-test-001" ([], 0) order).1 1

unfoldable pub test_lock_exclusivity : List String → Bool
unfolding lock_race
test_lock_exclusivity order = nat_eq (lock_race "concurrent-req" ([], 0) order).1 1

-- The closure tryAssign of TestNoDroneDoubleAssign.
unfoldable pub try_assign : DroneStatus → DroneStatus × Bool
try_assign status = if not (status == drone_idle) then (status, false) else (drone_busy, true)

-- Its goroutines, which are all alike: the status of the drone, and `assigned`.
unfoldable pub assign_race : DroneStatus × ℕ → ℕ → DroneStatus × ℕ
unfolding try_assign
assign_race (status, assigned) zero = (status, assigned)
assign_race (status, assigned) (suc k) =
    let (status', won) = try_assign status in
    assign_race (status', if won then assigned + 1 else assigned) k

unfoldable pub test_no_drone_double_assign : Bool
unfolding assign_race
test_no_drone_double_assign = nat_eq (assign_race (drone_idle, 0) 20).1 1

unfoldable pub pending_request : String → ℕ → ℕ → ℕ → Request
pending_request id priority ts wall_clock = record zero_request {
  id = id;
  type = if nat_eq priority 1 then type_critical else type_normal;
  priority = pos priority;
  lamport_ts = pos ts;
  wall_clock = wall_clock;
  status = status_pending;
}

unfoldable pub test_queue_deduplication : ℕ → Bool
unfolding pending_request
test_queue_deduplication now =
    let req = pending_request "req-dup-001" 2 1 now in
    let (q1, added1) = Queue.push Queue.new req in
    let (q2, added2) = Queue.push q1 req in
    let (q3, added3) = Queue.push q2 req in
    added1 && not added2 && not added3 && nat_eq (Queue.len q3) 1

unfoldable pub push_all : PriorityQueue → List Request → PriorityQueue
push_all q [] = q
push_all q (r ∷ rs) = push_all (Queue.push q r).0 rs

unfoldable pub test_queue_priority_order : ℕ → Bool
unfolding pending_request push_all
test_queue_priority_order now =
    let q = push_all Queue.new (
      pending_request "n1" 2 1 now
      ∷ pending_request "n2" 2 2 now
      ∷ pending_request "c1" 1 5 now
      ∷ pending_request "c2" 1 3 now
      ∷ []) in
    elim (Queue.peek q) [ none ↦ false | some top ↦ top.id == "c2" ]

-- `now` is the time of the requests, `later` that of CheckStarvation.
unfoldable pub test_starvation_detection : ℕ → ℕ → Bool
unfolding pending_request push_all
test_starvation_detection now later =
    let q = push_all Queue.new (
      pending_request "old-req" 2 1 (now - 50000000000) ∷ pending_request "new-req" 2 2 now ∷ []) in
    let found : List Request → Bool =
      λ stale. elim stale [ [] ↦ false | r ∷ rest ↦ nat_eq (length rest) 0 && r.id == "old-req" ] in
    found (Queue.check_starvation later q 45000000000)

unfoldable pub test_queue_sync_from : ℕ → Bool
unfolding pending_request push_all
test_queue_sync_from now =
    let r2 = pending_request "r2" 2 2 now in
    let local = push_all Queue.new (pending_request "r1" 2 1 now ∷ r2 ∷ []) in
    let (q, added) = Queue.sync_from local (r2 ∷ pending_request "r3" 1 3 now ∷ []) in
    nat_eq added 1 && nat_eq (Queue.len q) 3

-- The goroutines of TestHighLoad, each with its request: the queue, and `added`.
unfoldable pub load_race : PriorityQueue × ℕ → List Request → PriorityQueue × ℕ
load_race (q, added) [] = (q, added)
load_race (q, added) (r ∷ order) =
    let (q', new) = Queue.push q r in load_race (q', if new then added + 1 else added) order

unfoldable pub test_high_load : ℕ → List Request → Bool
unfolding load_race
test_high_load total order =
    let (q, added) = load_race (Queue.new, 0) order in
    nat_eq added total && nat_eq (Queue.len q) total

-- What the runs of the tests do not fix.
pub record Schedule : Type 0 where
  pub now : ℕ
  pub later : ℕ
  pub lockers : List String
  pub loaders : List Request
  pub storers : List String

unfoldable pub suite : Schedule → List (String × Bool)
suite s =
    ("TestLamportOrdering", test_lamport_ordering)
    ∷ ("TestNoDoubleDroneForSameReq", test_no_double_drone_for_same_req s.lockers)
    ∷ ("TestNoDroneDoubleAssign", test_no_drone_double_assign)
    ∷ ("TestQueueDeduplication", test_queue_deduplication s.now)
    ∷ ("TestQueuePriorityOrder", test_queue_priority_order s.now)
    ∷ ("TestStarvationDetection", test_starvation_detection s.now s.later)
    ∷ ("TestQueueSyncFrom", test_queue_sync_from s.now)
    ∷ ("TestHighLoad", test_high_load 200 s.loaders)
    ∷ ("TestLockExclusivity", test_lock_exclusivity s.storers)
    ∷ []

-- The loop of main: the results of all tests, or of the one with the name of the flag.
unfoldable pub run_suite : String → List (String × Bool) → List Bool
run_suite name [] = []
run_suite name ((test, passed) ∷ tests) =
    let rest = run_suite name tests in
    if not (name == "") && not (test == name) then rest else passed ∷ rest

-- The first line of printSummary: whether all have passed, and how many of how many.
unfoldable pub summary : List Bool → Bool × ℕ × ℕ
summary results =
    let passed = count (λ b. b) results in (nat_eq passed (length results), passed, length results)

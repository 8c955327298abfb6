-- ===== src/TestRunner/Schedules.antt =====
-- The suite of cmd/testrunner passes, in whatever order its goroutines come to the mutex.
use mi_desbloqueio_do_estrei.Common.{
  ℕ, ◌+◌, ◌≤◌, ◌≡◌, ◌≢◌, refl, ◌∙◌, String, Bool, true, ◌&&◌, some, List, [], ◌∷◌, All, count,
  length, length-eq-count, nat_eq, if◌then◌else◌, arith, Bool-cases, inl, inr, eq_iff, eq_refl,
}
use mi_desbloqueio_do_estrei.Common.Assoc.{Assoc, lookup, insert, lookup-insert}
use mi_desbloqueio_do_estrei.Common.Int.{wrap_int64}
use mi_desbloqueio_do_estrei.Models.{Request}
use mi_desbloqueio_do_estrei.Lamport
use mi_desbloqueio_do_estrei.RequestHeap
use mi_desbloqueio_do_estrei.RequestHeap.Items.{count-push}
use mi_desbloqueio_do_estrei.Queue
use mi_desbloqueio_do_estrei.Queue.{PriorityQueue, contains, has_id}
use mi_desbloqueio_do_estrei.TestRunner.{
  test_lamport_ordering, store_if_absent, lock_race, test_no_double_drone_for_same_req,
  test_lock_exclusivity, test_no_drone_double_assign, test_queue_deduplication,
  test_queue_priority_order, test_starvation_detection, test_queue_sync_from, load_race,
  test_high_load, Schedule, suite, run_suite, summary,
}

lamport_passes : test_lamport_ordering ≡ true
unfolding test_lamport_ordering Lamport.tick Lamport.update Lamport.new wrap_int64
lamport_passes = refl

assign_passes : test_no_drone_double_assign ≡ true
unfolding test_no_drone_double_assign
assign_passes = refl

deduplication_passes : (now : ℕ) → test_queue_deduplication now ≡ true
unfolding test_queue_deduplication Queue.push Queue.new Queue.len RequestHeap.push RequestHeap.init
deduplication_passes now = refl

priority_passes : (now : ℕ) → test_queue_priority_order now ≡ true
unfolding test_queue_priority_order Queue.push Queue.new Queue.peek Queue.beats RequestHeap.push
    RequestHeap.init
priority_passes now = refl

sync_passes : (now : ℕ) → test_queue_sync_from now ≡ true
unfolding test_queue_sync_from Queue.push Queue.new Queue.len Queue.sync_from RequestHeap.push
    RequestHeap.init
sync_passes now = refl

starvation_passes :
    (now later : ℕ)
    → 50000000000 ≤ now
    → now ≤ later
    → later ≤ now + 45000000000
    → test_starvation_detection now later ≡ true
unfolding test_starvation_detection Queue.push Queue.new Queue.check_starvation RequestHeap.push
    RequestHeap.init
starvation_passes now later a b c = ground arith

lock_race-held :
    (k : String) (locks : Assoc String) (n : ℕ) (b : String) (order : List String)
    → lookup k locks ≡ some b
    → (lock_race k (locks, n) order).1 ≡ n
unfolding lock_race
lock_race-held k locks n b [] h = refl
lock_race-held k locks n b (c ∷ order) h =
    rw (lock_race, store_if_absent, h) (lock_race-held k locks n b order h)

-- Of the goroutines that race for one free lock, one gets it.
lock_race-once : (k : String) (order : List String) → order ≢ [] → (lock_race k ([], 0) order).1 ≡ 1
unfolding lock_race lookup
lock_race-once k [] ne = absurd (ne refl)
lock_race-once k (b ∷ order) ne =
    lock_race-held k (insert k b []) 1 b order (lookup-insert k k b [] ∙ rw (eq_refl k) refl)

locks_pass :
    (order : List String)
    → order ≢ []
    → (test_no_double_drone_for_same_req order ≡ true) × (test_lock_exclusivity order ≡ true)
unfolding test_no_double_drone_for_same_req test_lock_exclusivity
locks_pass order ne = (
  rw (lock_race-once "req-test-001" order ne) refl,
  rw (lock_race-once "concurrent-req" order ne) refl,
)

length-push : (h : List Request) (r : Request) → length (RequestHeap.push h r) ≡ length h + 1
length-push h r =
    omega
      (arith, count-push (λ _. true) h r, length-eq-count (RequestHeap.push h r), length-eq-count h)

load_race-all :
    (q : PriorityQueue) (n : ℕ) (order : List Request)
    → ((k : String) → count (has_id k) order + (if contains q.seen k then 1 else 0) ≤ 1)
    → ((load_race (q, n) order).1 ≡ n + length order)
      × (length (load_race (q, n) order).0.heap ≡ length q.heap + length order)
unfolding load_race Queue.push
load_race-all q n [] d = (omega arith, omega arith)
load_race-all q n (r ∷ order) d = elim (Bool-cases (contains q.seen r.id)) [
  | inl e ↦ absurd (ground (arith, d r.id, e, eq_refl r.id))
  | inr e ↦
      let q' : PriorityQueue = record { heap = RequestHeap.push q.heap r; seen = r.id ∷ q.seen } in
      let (a, b) = load_race-all q' (n + 1) order (λ k. ground (arith, d k, e, eq_iff r.id k)) in
      rw (load_race, Queue.push, e) (omega (arith, a), omega (arith, b, length-push q.heap r))
]

both_equal : (a b total : ℕ) → a ≡ total → b ≡ total → (nat_eq a total && nat_eq b total) ≡ true
both_equal a b total e f = ground (arith, e, f)

high_load_passes :
    (total : ℕ) (order : List Request)
    → length order ≡ total
    → ((k : String) → count (has_id k) order ≤ 1)
    → test_high_load total order ≡ true
unfolding test_high_load Queue.new Queue.len RequestHeap.init
high_load_passes total order l d =
    let (a, b) = load_race-all Queue.new 0 order (λ k. omega (arith, d k)) in
    both_equal (load_race (Queue.new, 0) order).1 (length (load_race (Queue.new, 0) order).0.heap)
      total (omega (arith, a, l)) (omega (arith, b, l))

-- What a run of the suite leaves open: at least one goroutine for each lock, 200 requests with different
-- IDs, and less than 45 seconds between the requests and the look at them, from the time on at which a
-- request can be 50 seconds old.
pub record IsRun (s : Schedule) : Type 0 where
  pub lockers : s.lockers ≢ []
  pub storers : s.storers ≢ []
  pub loads : length s.loaders ≡ 200
  pub distinct : (k : String) → count (has_id k) s.loaders ≤ 1
  pub old_enough : 50000000000 ≤ s.now
  pub in_order : s.now ≤ s.later
  pub in_time : s.later ≤ s.now + 45000000000

suite_passes : (s : Schedule) → IsRun s → All (λ (t : String × Bool). t.1 ≡ true) (suite s)
unfolding suite
suite_passes s r =
    let (first_lock, _) = locks_pass s.lockers r.lockers in
    let (_, last_lock) = locks_pass s.storers r.storers in
    let load = high_load_passes 200 s.loaders r.loads r.distinct in
    let stale = starvation_passes s.now s.later r.old_enough r.in_order r.in_time in
    (
      lamport_passes,
      (
        first_lock,
        (
          assign_passes,
          (
            deduplication_passes s.now,
            (priority_passes s.now, (stale, (sync_passes s.now, (load, (last_lock, tt))))),
          ),
        ),
      ),
    )

all_pass :
    (name : String) (tests : List (String × Bool))
    → All (λ (t : String × Bool). t.1 ≡ true) tests
    → count (λ b. b) (run_suite name tests) ≡ length (run_suite name tests)
unfolding run_suite
all_pass name [] a = refl
all_pass name ((test, passed) ∷ tests) a = ground (arith, a.0, all_pass name tests a.1)

-- In whatever order the goroutines of the tests come to the mutex, the suite reports that all tests have
-- passed, whichever of them are asked for, provided that each race for a lock has a goroutine, the load
-- test makes 200 requests with different IDs, and no 45 seconds go by inside the starvation test, which
-- starts no earlier than 50 seconds after the zero time.
pub summary-suite :
    (name : String) (s : Schedule) → IsRun s → (summary (run_suite name (suite s))).0 ≡ true
unfolding summary
summary-suite name s r = let e = all_pass name (suite s) (suite_passes s r) in equal_counts _ _ e
  where
    equal_counts : (a b : ℕ) → a ≡ b → nat_eq a b ≡ true
    equal_counts a b e = ground (arith, e)

-- ===== src/BaseNode/Heartbeat/Recovery.antt =====
-- recoverBusyDroneMission of cmd/base/heartbeat.go with Replace of internal/queue/queue.go: what becomes
-- of the missions of a drone that is lost.
use mi_desbloqueio_do_estrei.Common.{
  ℕ, ◌≤◌, ◌≡◌, ◌≢◌, refl, ap, String, Bool, true, false, ◌&&◌, List, [], ◌∷◌, count, update_first,
  if◌then◌else◌, ◌==◌, eq_iff, eq_refl, arith, inl, inr, Bool-cases, any-eq-false, count_mono,
  count-update_first,
}
use mi_desbloqueio_do_estrei.Models.{Request, Drone}
use mi_desbloqueio_do_estrei.RequestHeap.Items.{count-push, count-init}
use mi_desbloqueio_do_estrei.Queue.{PriorityQueue, has_id, replace, get_all}
use mi_desbloqueio_do_estrei.Queue.Op.{IsValid, replace_op, apply, apply-IsValid, same_id, copies}
use mi_desbloqueio_do_estrei.Queue.Sort.{get_all_lem}
use mi_desbloqueio_do_estrei.BaseNode.{Node, go}
use mi_desbloqueio_do_estrei.BaseNode.Heartbeat.{
  rescued, recover_one, recover_all, recover_busy_drone_mission,
}

-- The request has the ID and is the drone's.
abbrev tied : String → String → Request → Bool
tied drone k r = has_id k r && r.assigned_to == drone

-- Writing over the first item that passes, where at most one does, leaves none.
count-overwrite :
    (p q : Request → Bool) (r : Request) (xs : List Request)
    → q r ≡ false
    → count p xs ≤ 1
    → ((x : Request) → q x ≡ true → p x ≡ true)
    → count q (update_first p (λ _. r) xs) ≡ 0
count-overwrite p q r [] a b c = refl
count-overwrite p q r (x ∷ xs) a b c =
    ground (arith, count-overwrite p q r xs a, count_mono q p xs c, c x)

-- Replacing a request by one of the same ID that is nobody's.
module _ (drone : String) (q : PriorityQueue) (r : Request) where
  tied-own : r.assigned_to ≡ "" → drone ≢ "" → (k : String) → tied drone k r ≡ false
  tied-own free ne k = ground (arith, eq_iff r.assigned_to drone)

  tied_few : (k : String) (xs : List Request) → count (tied drone k) xs ≤ count (has_id k) xs
  tied_few k xs = count_mono (tied drone k) (has_id k) xs (λ x h. ground arith)

  replace-own :
      drone ≢ "" → r.assigned_to ≡ "" → IsValid q → count (tied drone r.id) (replace q r).heap ≡ 0
  unfolding replace
  replace-own ne free v =
      let p = has_id r.id in
      let t = tied drone r.id in
      ground (
        arith,
        tied-own free ne r.id,
        v.unique r.id,
        tied_few r.id q.heap,
        any-eq-false p q.heap,
        count-push t q.heap r,
        count-init t (update_first p (λ _. r) q.heap),
        count-overwrite p t r q.heap,
      )

  replace-others :
      (k : String)
      → (r.id == k) ≡ false
      → count (tied drone k) (replace q r).heap ≡ count (tied drone k) q.heap
  unfolding replace
  replace-others k other =
      let p = has_id r.id in
      let t = tied drone k in
      ground (
        arith,
        count-push t q.heap r,
        count-init t (update_first p (λ _. r) q.heap),
        count-update_first t p (λ _. r) q.heap (λ x h. ground (arith, other, same_id k r x h)),
      )

replace-stays : (k : String) (q : PriorityQueue) (r : Request) → copies q k ≤ copies (replace q r) k
unfolding replace
replace-stays k q r =
    let p = has_id r.id in
    ground (
      arith,
      count-push (has_id k) q.heap r,
      count-init (has_id k) (update_first p (λ _. r) q.heap),
      count-update_first (has_id k) p (λ _. r) q.heap (same_id k r),
    )

-- What is left to do: each request of the drone's is among those still to be visited.
record Rescues (drone : String) (q : PriorityQueue) (reqs : List Request) : Type 0 where
  valid : IsValid q
  left : (k : String) → count (tied drone k) q.heap ≤ count (tied drone k) reqs

recover_one-pq :
    (now : ℕ) (d : Drone) (n : Node) (r : Request)
    → (recover_one now d n r).pq
      ≡ (if r.assigned_to == d.id then replace n.pq (rescued r) else n.pq)
unfolding recover_one go
recover_one-pq now d n r = elim (Bool-cases (r.assigned_to == d.id)) [
  | inl e ↦ rw (e, recover_one) refl
  | inr e ↦ rw (e, recover_one) refl
]

rescue :
    (drone : String) (q : PriorityQueue) (r : Request) (reqs : List Request)
    → drone ≢ ""
    → Rescues drone q (r ∷ reqs)
    → Rescues drone (if r.assigned_to == drone then replace q (rescued r) else q) reqs
unfolding rescued
rescue drone q r reqs ne s = elim (Bool-cases (r.assigned_to == drone)) [
  | inr e ↦ rw e (record { valid = s.valid; left = λ k. ground (arith, e, s.left k) })
  | inl e ↦
      let r' = rescued r in
      rw e (record {
        valid = unfold apply in apply-IsValid q (replace_op r') s.valid;
        left = λ k. elim (Bool-cases (r.id == k)) [
          | inl same ↦
              rw (← (eq_iff r.id k).0 same)
                (rw (replace-own drone q r' ne refl s.valid) (omega arith))
          | inr other ↦ rw (replace-others drone q r' k other) (ground (arith, other, s.left k))
        ];
      })
]

rescue_all :
    (now : ℕ) (d : Drone) (n : Node) (reqs : List Request)
    → d.id ≢ ""
    → Rescues d.id n.pq reqs
    → Rescues d.id (recover_all now d n reqs).pq []
      × ((k : String) → copies n.pq k ≤ copies (recover_all now d n reqs).pq k)
unfolding recover_all
rescue_all now d n [] ne s = (s, λ k. omega arith)
rescue_all now d n (r ∷ reqs) ne s =
    let step = recover_one-pq now d n r in
    let (rest, more) =
      rescue_all now d (recover_one now d n r) reqs ne (rw step (rescue d.id n.pq r reqs ne s)) in
    (rest, λ k. ground (arith, more k, replace-stays k n.pq (rescued r), ap (λ q. copies q k) step))

untied :
    (drone : String) (xs : List Request)
    → ((k : String) → count (tied drone k) xs ≡ 0)
    → count (λ r. r.assigned_to == drone) xs ≡ 0
untied drone [] h = refl
untied drone (x ∷ xs) h =
    ground (arith, h x.id, eq_refl x.id, untied drone xs (λ k. omega (arith, h k)))

-- For a drone with an ID, and a queue whose IDs are distinct, recoverBusyDroneMission leaves no request
-- of the queue assigned to the drone, takes none out of it, and leaves its IDs distinct.
pub recover_busy_drone_mission_lem :
    (now : ℕ) (n : Node) (d : Drone)
    → d.id ≢ ""
    → IsValid n.pq
    → (count (λ r. r.assigned_to == d.id) (recover_busy_drone_mission now n d).pq.heap ≡ 0)
      × ((k : String) → copies n.pq k ≤ copies (recover_busy_drone_mission now n d).pq k)
      × IsValid (recover_busy_drone_mission now n d).pq
unfolding recover_busy_drone_mission
recover_busy_drone_mission_lem now n d ne v =
    let (done, more) =
      rescue_all now d n (get_all n.pq) ne
        (record { valid = v; left = λ k. omega (arith, (get_all_lem n.pq).0 (tied d.id k)) }) in
    (
      untied d.id (recover_all now d n (get_all n.pq)).pq.heap (λ k. omega (arith, done.left k)),
      more,
      done.valid,
    )

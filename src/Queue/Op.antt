-- ===== src/Queue/Op.antt =====
-- The methods of internal/queue/queue.go that change the queue, as one type of operations, and what
-- every one of them keeps.
use mi_desbloqueio_do_estrei.Common.{
  ap, sym, count-map_self, ℕ, ◌+◌, ◌≤◌, String, ◌≡◌, refl, Bool, true, false, List, [], ◌∷◌, any,
  count, update_first, remove_first, arith, if◌then◌else◌, ◌==◌, eq_iff, count-update_first,
  count-remove_first, map,
}
use mi_desbloqueio_do_estrei.Models.{Request, RequestStatus}
use mi_desbloqueio_do_estrei.RequestHeap.Items.{count-push, count-init}
use mi_desbloqueio_do_estrei.Queue.{
  PriorityQueue, has_id, contains, push, replace, set_status, update_status, clear_assignment,
  remove, clear_all, release, clear_drone_assignments, sync_one, sync_loop, sync_from,
}

pub data Op : Type 0 where
  push_op : Request → Op
  replace_op : Request → Op
  update_op : ℕ → String → RequestStatus → String → String → Op
  clear_assignment_op : String → Op
  remove_op : String → Op
  clear_drone_op : String → Op
  sync_op : List Request → Op
  clear_all_op : Op

unfoldable pub apply : PriorityQueue → Op → PriorityQueue
apply q (push_op r) = (push q r).0
apply q (replace_op r) = replace q r
apply q (update_op now id status by to) = (update_status now q id status by to).0
apply q (clear_assignment_op id) = clear_assignment q id
apply q (remove_op id) = (remove q id).0
apply q (clear_drone_op id) = clear_drone_assignments q id
apply q (sync_op snapshot) = (sync_from q snapshot).0
apply q clear_all_op = clear_all q

unfoldable pub run : PriorityQueue → List Op → PriorityQueue
unfolding apply
run q [] = q
run q (op ∷ ops) = run (apply q op) ops

-- How many requests of the queue have an ID, and 1 if the queue has seen it.
abbrev pub copies : PriorityQueue → String → ℕ
copies q k = count (has_id k) q.heap

abbrev pub mark : PriorityQueue → String → ℕ
mark q k = if contains q.seen k then 1 else 0

-- IDs are distinct, and each ID in the queue has been seen.
pub record IsValid (q : PriorityQueue) : Type 0 where
  pub unique : (k : String) → copies q k ≤ mark q k

-- From `q` to `q'` no ID is forgotten, and a request comes in only under an ID that was not seen.
pub record Extends (q q' : PriorityQueue) : Type 0 where
  pub remembers : (k : String) → mark q k ≤ mark q' k
  pub admits : (k : String) → copies q' k + mark q k ≤ copies q k + mark q' k

pub Extends-trans : {a b c : PriorityQueue} → Extends a b → Extends b c → Extends a c
Extends-trans e f = record {
  remembers = λ k. omega (arith, e.remembers k, f.remembers k);
  admits = λ k. omega (arith, e.admits k, f.admits k);
}

pub same_id : (k : String) (r x : Request) → has_id r.id x ≡ true → has_id k r ≡ has_id k x
same_id k r x h = ap (λ (i : String). i == k) (sym ((eq_iff x.id r.id).0 h))

release-id : (k id : String) (r : Request) → has_id k (release id r) ≡ has_id k r
unfolding release
release-id k id r = ground arith

module _ (q : PriorityQueue) where
  Extends-push : (r : Request) → Extends q (push q r).0
  unfolding push
  Extends-push r = record {
    remembers = λ k. ground arith;
    admits = λ k. ground (arith, count-push (has_id k) q.heap r, eq_iff r.id k);
  }

  Extends-replace : (r : Request) → Extends q (replace q r)
  unfolding replace
  Extends-replace r = record {
    remembers = λ k. ground arith;
    admits = λ k. ground (
      arith,
      count-push (has_id k) q.heap r,
      eq_iff r.id k,
      count-init (has_id k) (update_first (has_id r.id) (λ _. r) q.heap),
      count-update_first (has_id k) (has_id r.id) (λ _. r) q.heap (same_id k r),
    );
  }

  Extends-update :
      (now : ℕ) (id : String) (status : RequestStatus) (by to : String)
      → Extends q (update_status now q id status by to).0
  unfolding update_status set_status
  Extends-update now id status by to = record {
    remembers = λ k. omega arith;
    admits = λ k. omega (
      arith,
      count-update_first (has_id k) (has_id id) (set_status now status by to) q.heap
          (λ x _. ground arith),
    );
  }

  Extends-clear_assignment : (id : String) → Extends q (clear_assignment q id)
  unfolding clear_assignment
  Extends-clear_assignment id = record {
    remembers = λ k. omega arith;
    admits = λ k. omega (
      arith,
      count-update_first (has_id k) (has_id id) (λ r. record r { locked_by = ""; assigned_to = "" })
          q.heap (λ x _. refl),
    );
  }

  Extends-remove : (id : String) → Extends q (remove q id).0
  unfolding remove
  Extends-remove id = record {
    remembers = λ k. ground arith;
    admits = λ k. ground (
      arith,
      count-init (has_id k) (remove_first (has_id id) q.heap),
      count-remove_first (has_id k) (has_id id) q.heap,
    );
  }

  Extends-clear_drone : (id : String) → Extends q (clear_drone_assignments q id)
  unfolding clear_drone_assignments
  Extends-clear_drone id = record {
    remembers = λ k. omega arith;
    admits = λ k. ground (
      arith,
      count-init (has_id k) (map (release id) q.heap),
      count-map_self (has_id k) (release id) q.heap (release-id k id),
    );
  }

Extends-sync_one : (q : PriorityQueue) (n : ℕ) (r : Request) → Extends q (sync_one (q, n) r).0
unfolding sync_one
Extends-sync_one q n r = record {
  remembers = λ k. ground arith;
  admits = λ k. ground (arith, count-push (has_id k) q.heap r, eq_iff r.id k);
}

Extends-sync_loop :
    (q : PriorityQueue) (n : ℕ) (snapshot : List Request) → Extends q (sync_loop (q, n) snapshot).0
unfolding sync_loop
Extends-sync_loop q n [] = record { remembers = λ k. omega arith; admits = λ k. omega arith }
Extends-sync_loop q n (r ∷ snapshot) =
    let (q', n') = sync_one (q, n) r in
    Extends-trans (Extends-sync_one q n r) (Extends-sync_loop q' n' snapshot)

abbrev pub is_clear : Op → Bool
is_clear clear_all_op = true
is_clear _ = false

-- Every operation but ClearAll.
pub Extends-apply : (q : PriorityQueue) (op : Op) → is_clear op ≡ false → Extends q (apply q op)
unfolding apply
Extends-apply q (push_op r) h = Extends-push q r
Extends-apply q (replace_op r) h = Extends-replace q r
Extends-apply q (update_op now id status by to) h = Extends-update q now id status by to
Extends-apply q (clear_assignment_op id) h = Extends-clear_assignment q id
Extends-apply q (remove_op id) h = Extends-remove q id
Extends-apply q (clear_drone_op id) h = Extends-clear_drone q id
Extends-apply q (sync_op snapshot) h = unfold sync_from in Extends-sync_loop q 0 snapshot
Extends-apply q clear_all_op h = cc

pub IsValid-Extends : {q q' : PriorityQueue} → Extends q q' → IsValid q → IsValid q'
IsValid-Extends e v = record { unique = λ k. omega (arith, e.admits k, e.remembers k, v.unique k) }

-- Every method keeps the IDs in the queue distinct and remembered in `seen`.
pub apply-IsValid : (q : PriorityQueue) (op : Op) → IsValid q → IsValid (apply q op)
unfolding apply clear_all
apply-IsValid q clear_all_op v = record { unique = λ k. omega arith }
apply-IsValid q op v = IsValid-Extends (Extends-apply q op refl) v

pub run-IsValid : (q : PriorityQueue) (ops : List Op) → IsValid q → IsValid (run q ops)
unfolding run
run-IsValid q [] v = v
run-IsValid q (op ∷ ops) v = run-IsValid (apply q op) ops (apply-IsValid q op v)

-- `k` was in the queue and is not any more.
abbrev pub IsFinished : String → PriorityQueue → Type 0
IsFinished k q = (contains q.seen k ≡ true) × (copies q k ≡ 0)

pub IsFinished-Extends :
    {q q' : PriorityQueue} (k : String) → Extends q q' → IsFinished k q → IsFinished k q'
IsFinished-Extends {q} {q'} k e f = ground (arith, e.admits k, e.remembers k)

-- A request that has left the queue never comes back by any sequence of methods without ClearAll.
pub run-IsFinished :
    (q : PriorityQueue) (k : String) (ops : List Op)
    → any is_clear ops ≡ false
    → IsFinished k q
    → IsFinished k (run q ops)
unfolding run
run-IsFinished q k [] h f = f
run-IsFinished q k (op ∷ ops) h f =
    run-IsFinished (apply q op) k ops (ground arith)
      (IsFinished-Extends k (Extends-apply q op (ground arith)) f)

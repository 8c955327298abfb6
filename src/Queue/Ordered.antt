-- ===== src/Queue/Ordered.antt =====
-- Every method of internal/queue/queue.go leaves the slice in heap order.
use mi_desbloqueio_do_estrei.Common.{
  ◌<◌, ℕ, zero, suc, ◌≡◌, refl, ◌∙◌, String, Bool, List, [], ◌∷◌, length, map, any, update_first,
  remove_first, arith, Bool-cases, inl, inr,
}
use mi_desbloqueio_do_estrei.Models.{Request}
use mi_desbloqueio_do_estrei.RequestHeap.{parent}
use mi_desbloqueio_do_estrei.RequestHeap.Less.{SameKeys, less_congr}
use mi_desbloqueio_do_estrei.RequestHeap.Order.{at, IsHeap, NotBelow}
use mi_desbloqueio_do_estrei.RequestHeap.Up.{push-IsHeap}
use mi_desbloqueio_do_estrei.RequestHeap.Down.{init-IsHeap}
use mi_desbloqueio_do_estrei.RequestHeap.Correct.{IsHeap-root}
use mi_desbloqueio_do_estrei.Queue.{
  PriorityQueue, has_id, contains, new, push, replace, set_status, update_status, clear_assignment,
  remove, clear_all, assigned_to, release, clear_drone_assignments, sync_one, sync_loop, sync_from,
}
use mi_desbloqueio_do_estrei.Queue.Op.{
  Op, push_op, replace_op, update_op, clear_assignment_op, remove_op, clear_drone_op, sync_op,
  clear_all_op, apply, run,
}

-- The same keys, place by place.
abbrev AllSameKeys : List Request → List Request → Type 0
AllSameKeys [] [] = Unit
AllSameKeys (x ∷ xs) (y ∷ ys) = SameKeys x y × AllSameKeys xs ys
AllSameKeys _ _ = ⊥

AllSameKeys-at :
    (xs ys : List Request) (i : ℕ)
    → AllSameKeys xs ys
    → (length xs ≡ length ys) × SameKeys (at xs i) (at ys i)
unfolding at
AllSameKeys-at [] [] i h = (refl, (refl, refl, refl))
AllSameKeys-at [] (y ∷ ys) i h = absurd h
AllSameKeys-at (x ∷ xs) [] i h = absurd h
AllSameKeys-at (x ∷ xs) (y ∷ ys) zero h = (omega (arith, (AllSameKeys-at xs ys zero h.1).0), h.0)
AllSameKeys-at (x ∷ xs) (y ∷ ys) (suc i) h =
    let ih = AllSameKeys-at xs ys i h.1 in (omega (arith, ih.0), ih.1)

IsHeap-keys : (xs ys : List Request) → AllSameKeys xs ys → IsHeap ys → IsHeap xs
IsHeap-keys xs ys s o c p q b =
    let (size, keys) = AllSameKeys-at xs ys c s in
    let (_, parent_keys) = AllSameKeys-at xs ys (parent c) s in
    less_congr (at xs c) (at ys c) (at xs (parent c)) (at ys (parent c)) keys parent_keys
    ∙ o c p (omega (arith, size)) b

AllSameKeys-refl : (xs : List Request) → AllSameKeys xs xs
AllSameKeys-refl [] = tt
AllSameKeys-refl (x ∷ xs) = ((refl, refl, refl), AllSameKeys-refl xs)

AllSameKeys-update_first :
    (p : Request → Bool) (f : Request → Request) (xs : List Request)
    → ((x : Request) → SameKeys (f x) x)
    → AllSameKeys (update_first p f xs) xs
AllSameKeys-update_first p f [] h = tt
AllSameKeys-update_first p f (x ∷ xs) h = elim (Bool-cases (p x)) [
  | inl e ↦ rw e (h x, AllSameKeys-refl xs)
  | inr e ↦ rw e ((refl, refl, refl), AllSameKeys-update_first p f xs h)
]

AllSameKeys-map :
    (f : Request → Request) (xs : List Request)
    → ((x : Request) → SameKeys (f x) x)
    → AllSameKeys (map f xs) xs
AllSameKeys-map f [] h = tt
AllSameKeys-map f (x ∷ xs) h = (h x, AllSameKeys-map f xs h)

SameKeys-set_status :
    (now : ℕ) (status by to : String) (r : Request) → SameKeys (set_status now status by to r) r
unfolding set_status
SameKeys-set_status now status by to r = ground arith

SameKeys-release : (id : String) (r : Request) → SameKeys (release id r) r
unfolding release
SameKeys-release id r = elim (Bool-cases (assigned_to id r)) [
  | inl e ↦ rw e (refl, refl, refl)
  | inr e ↦ rw e (refl, refl, refl)
]

module _ (q : PriorityQueue) (o : IsHeap q.heap) where
  push-ordered : (r : Request) → IsHeap (push q r).0.heap
  unfolding push
  push-ordered r = elim (Bool-cases (contains q.seen r.id)) [
    | inl e ↦ rw e o
    | inr e ↦ rw e (push-IsHeap q.heap r o)
  ]

  replace-ordered : (r : Request) → IsHeap (replace q r).heap
  unfolding replace
  replace-ordered r = elim (Bool-cases (contains q.seen r.id)) [
    | inr e ↦ rw e (push-IsHeap q.heap r o)
    | inl e ↦ elim (Bool-cases (any (has_id r.id) q.heap)) [
      | inl f ↦ rw (e, f) (init-IsHeap (update_first (has_id r.id) (λ _. r) q.heap))
      | inr f ↦ rw (e, f) o
    ]
  ]

  remove-ordered : (id : String) → IsHeap (remove q id).0.heap
  unfolding remove
  remove-ordered id = elim (Bool-cases (any (has_id id) q.heap)) [
    | inl e ↦ rw e (init-IsHeap (remove_first (has_id id) q.heap))
    | inr e ↦ rw e o
  ]

  clear_drone-ordered : (id : String) → IsHeap (clear_drone_assignments q id).heap
  unfolding clear_drone_assignments
  clear_drone-ordered id = elim (Bool-cases (any (assigned_to id) q.heap)) [
    | inl e ↦ rw e (init-IsHeap (map (release id) q.heap))
    | inr e ↦ rw e (
        IsHeap-keys (map (release id) q.heap) q.heap
          (AllSameKeys-map (release id) q.heap (SameKeys-release id)) o)
  ]

  update-ordered :
      (p : Request → Bool) (f : Request → Request)
      → ((x : Request) → SameKeys (f x) x)
      → IsHeap (update_first p f q.heap)
  update-ordered p f h =
      IsHeap-keys (update_first p f q.heap) q.heap (AllSameKeys-update_first p f q.heap h) o

sync_loop-ordered :
    (acc : PriorityQueue × ℕ) (snapshot : List Request)
    → IsHeap acc.0.heap
    → IsHeap (sync_loop acc snapshot).0.heap
unfolding sync_loop
sync_loop-ordered acc [] o = o
sync_loop-ordered (q, n) (r ∷ rest) o =
    sync_loop-ordered (sync_one (q, n) r) rest (elim (Bool-cases (contains q.seen r.id)) [
      | inl e ↦ rw e o
      | inr e ↦ rw e (push-IsHeap q.heap r o)
    ])

-- Every method keeps the slice in heap order, ClearAll included.
pub apply-IsHeap : (q : PriorityQueue) (op : Op) → IsHeap q.heap → IsHeap (apply q op).heap
unfolding apply
apply-IsHeap q (push_op r) o = push-ordered q o r
apply-IsHeap q (replace_op r) o = replace-ordered q o r
apply-IsHeap q (update_op now id status by to) o =
    unfold update_status in
    update-ordered q o (has_id id) (set_status now status by to)
      (SameKeys-set_status now status by to)
apply-IsHeap q (clear_assignment_op id) o =
    unfold clear_assignment in
    update-ordered q o (has_id id) (λ r. record r { locked_by = ""; assigned_to = "" })
      (λ x. (refl, refl, refl))
apply-IsHeap q (remove_op id) o = remove-ordered q o id
apply-IsHeap q (clear_drone_op id) o = clear_drone-ordered q o id
apply-IsHeap q (sync_op snapshot) o = unfold sync_from in sync_loop-ordered (q, 0) snapshot o
apply-IsHeap q clear_all_op o = unfold clear_all in λ c p l b. absurd (omega arith)

-- Any sequence of methods keeps it.
pub run_ordered : (q : PriorityQueue) (ops : List Op) → IsHeap q.heap → IsHeap (run q ops).heap
unfolding run
run_ordered q [] o = o
run_ordered q (op ∷ ops) o = run_ordered (apply q op) ops (apply-IsHeap q op o)

-- From New, whatever methods are called, the slice is in heap order, and no request of it precedes the
-- first.
pub run_first :
    (ops : List Op) (i : ℕ)
    → i < length (run new ops).heap
    → IsHeap (run new ops).heap × NotBelow (run new ops).heap i 0
unfolding new
run_first ops i h =
    let o = run_ordered new ops (init-IsHeap []) in (o, IsHeap-root (run new ops).heap i o h)

-- ===== src/Queue/Assignment.antt =====
-- UpdateStatus, ClearDroneAssignments and IsDroneAssigned of internal/queue/queue.go: which drone a
-- request is tied to.
use mi_desbloqueio_do_estrei.Common.{
  ℕ, ◌+◌, ◌≡◌, refl, ap, String, Bool, true, false, List, [], ◌∷◌, any, count, map, update_first,
  arith, if◌then◌else◌, ==_other, Bool-cases, inl, inr, not, ◌==◌, ◌∙◌, sym, eq_iff,
}
use mi_desbloqueio_do_estrei.Models.{Request, status_pending, status_assigned, status_locked}
use mi_desbloqueio_do_estrei.RequestHeap
use mi_desbloqueio_do_estrei.RequestHeap.Items.{count-init}
use mi_desbloqueio_do_estrei.Queue.{
  PriorityQueue, has_id, is_pending, set_status, update_status, assigned_to, release,
  clear_drone_assignments, is_drone_assigned, pending_len,
}

any_of_count : (p : Request → Bool) (xs : List Request) → count p xs ≡ 0 → any p xs ≡ false
any_of_count p [] h = refl
any_of_count p (x ∷ xs) h = ground (arith, any_of_count p xs)

not-assigned-release : (id : String) (r : Request) → assigned_to id (release id r) ≡ false
not-assigned-release id r = elim (Bool-cases (assigned_to id r)) [
  | inl e ↦ unfold release in rw e refl
  | inr e ↦ unfold release in rw e e
]

is_pending-release :
    (id : String) (r : Request)
    → (if is_pending (release id r) then 1 else 0)
      ≡ (if is_pending r then 1 else 0) + (if assigned_to id r then 1 else 0)
unfolding release
is_pending-release id r = elim (Bool-cases (assigned_to id r)) [
  | inl e ↦ rw e (ground (arith, ==_other r.status status_assigned status_pending refl))
  | inr e ↦ rw e (omega arith)
]

count-released :
    (id : String) (xs : List Request) → count (assigned_to id) (map (release id) xs) ≡ 0
count-released id [] = refl
count-released id (x ∷ xs) = ground (arith, count-released id xs, not-assigned-release id x)

pending-released :
    (id : String) (xs : List Request)
    → count is_pending (map (release id) xs) ≡ count is_pending xs + count (assigned_to id) xs
pending-released id [] = omega arith
pending-released id (x ∷ xs) = omega (arith, pending-released id xs, is_pending-release id x)

-- After ClearDroneAssignments no request is assigned to the drone, and each that was is pending.
pub clear_drone_assignments_lem :
    (q : PriorityQueue) (id : String)
    → (is_drone_assigned (clear_drone_assignments q id) id ≡ false)
      × (pending_len (clear_drone_assignments q id) ≡ pending_len q + count (assigned_to id) q.heap)
unfolding clear_drone_assignments is_drone_assigned pending_len
clear_drone_assignments_lem q id = (
  ground (
    arith,
    any_of_count (assigned_to id) (RequestHeap.init (map (release id) q.heap)),
    any_of_count (assigned_to id) (map (release id) q.heap),
    count-init (assigned_to id) (map (release id) q.heap),
    count-released id q.heap,
  ),
  ground (arith, count-init is_pending (map (release id) q.heap), pending-released id q.heap),
)

-- A request that no one holds.
abbrev pub IsFree : Request → Type 0
IsFree r = (r.status ≡ status_pending) × (r.locked_by ≡ "") × (r.assigned_to ≡ "")

abbrev pub FreeAt : String → List Request → Type 0
FreeAt id [] = Unit
FreeAt id (r ∷ rs) = (has_id id r ≡ true → IsFree r) × FreeAt id rs

give_back :
    (now later : ℕ) (id base drone : String) (xs : List Request)
    → FreeAt id xs
    → update_first
        (has_id id)
        (set_status later status_pending "" "")
        (update_first (has_id id) (set_status now status_locked base drone) xs)
      ≡ xs
unfolding set_status
give_back now later id base drone [] f = refl
give_back now later id base drone (x ∷ xs) f =
    ground (arith, give_back now later id base drone xs f.1)

-- A request whose drone has accepted it.
abbrev pub taken_at : ℕ → String → String → Request → Request
taken_at later base drone x = record x {
  status = status_assigned;
  locked_by = base;
  assigned_to = drone;
  wall_clock = later;
}

-- A field that is only written with a value that is not empty, and was empty before.
filled : (v old : String) → old ≡ "" → (if not (v == "") then v else old) ≡ v
filled v old h = elim (Bool-cases (v == "")) [
  | inl e ↦ rw e (h ∙ sym ((eq_iff v "").0 e))
  | inr e ↦ rw e refl
]

lock_then_assign :
    (now later : ℕ) (base drone : String) (x : Request)
    → IsFree x
    → set_status later status_assigned base drone (set_status now status_locked base drone x)
      ≡ taken_at later base drone x
unfolding set_status
lock_then_assign now later base drone x (s, l, a) =
    rw (filled base x.locked_by l, filled drone x.assigned_to a, same base, same drone) refl
  where
    same : (v : String) → (if not (v == "") then v else v) ≡ v
    same v = elim (Bool-cases (v == "")) [ inl e ↦ rw e refl | inr e ↦ rw e refl ]

has_id-set_status :
    (id : String) (now : ℕ) (base drone : String) (x : Request)
    → has_id id (set_status now status_locked base drone x) ≡ has_id id x
unfolding set_status
has_id-set_status id now base drone x = refl

hand_over :
    (now later : ℕ) (id base drone : String) (xs : List Request)
    → FreeAt id xs
    → update_first
        (has_id id)
        (set_status later status_assigned base drone)
        (update_first (has_id id) (set_status now status_locked base drone) xs)
      ≡ update_first (has_id id) (taken_at later base drone) xs
hand_over now later id base drone [] f = refl
hand_over now later id base drone (x ∷ xs) f = elim (Bool-cases (has_id id x)) [
  | inl e ↦
      rw (e, has_id-set_status id now base drone x, e)
        (ap (λ y. y ∷ xs) (lock_then_assign now later base drone x (f.0 e)))
  | inr e ↦ rw (e, e) (ap (λ ys. x ∷ ys) (hand_over now later id base drone xs f.1))
]

-- To lock a free request for a drone and then to assign it to the drone.
pub update_status_assign :
    (now later : ℕ) (q : PriorityQueue) (id base drone : String)
    → FreeAt id q.heap
    → (update_status later
        (update_status now q id status_locked base drone).0
        id
        status_assigned
        base
        drone).0
      ≡ record q { heap = update_first (has_id id) (taken_at later base drone) q.heap }
unfolding update_status
update_status_assign now later q id base drone f =
    ap (λ h. record q { heap = h }) (hand_over now later id base drone q.heap f)

-- To lock a free request for a drone and to give it back leaves the queue as it was.
pub update_status_undo :
    (now later : ℕ) (q : PriorityQueue) (id base drone : String)
    → FreeAt id q.heap
    → (update_status later
        (update_status now q id status_locked base drone).0
        id
        status_pending
        ""
        "").0
      ≡ q
unfolding update_status
update_status_undo now later q id base drone f =
    ap (λ h. record q { heap = h }) (give_back now later id base drone q.heap f)

-- ===== src/Queue/Sort.antt =====
-- GetAll of internal/queue/queue.go: its comparison is a strict weak order, so the stable sort is well
-- defined.
use mi_desbloqueio_do_estrei.Common.{
  ◌+◌, ◌≡◌, refl, Bool, true, false, List, [], ◌∷◌, All, count, SameItems, arith, if◌then◌else◌,
  inl, inr, Bool-cases, ltb, ltb_string, ◌==◌, eq_iff, ltb_string_irrefl, ltb_string_trans,
  not-ltb_string_trans, ltb_string_total,
}
use mi_desbloqueio_do_estrei.Models.{Request, status_pending, status_assigned}
use mi_desbloqueio_do_estrei.RequestHeap.{less}
use mi_desbloqueio_do_estrei.RequestHeap.Less.{less_asymm, not-less_trans}
use mi_desbloqueio_do_estrei.Queue.{
  PriorityQueue, shown_before, insert_stable, sort_stable, get_all,
}

count-insert_stable :
    (p : Request → Bool) (x : Request) (xs : List Request)
    → count p (insert_stable x xs) ≡ (if p x then 1 else 0) + count p xs
unfolding insert_stable
count-insert_stable p x [] = refl
count-insert_stable p x (y ∷ ys) = ground (arith, count-insert_stable p x ys)

pub count-sort_stable :
    (p : Request → Bool) (xs : List Request) → count p (sort_stable xs) ≡ count p xs
unfolding sort_stable
count-sort_stable p [] = refl
count-sort_stable p (x ∷ xs) =
    omega (arith, count-insert_stable p x (sort_stable xs), count-sort_stable p xs)

-- GetAll shows exactly the requests of the heap.
pub get_all-SameItems : (q : PriorityQueue) → SameItems (get_all q) q.heap
unfolding get_all
get_all-SameItems q p = count-sort_stable p q.heap

-- The comparison of two requests of one status.
same_status : Request → Request → Bool
same_status a b =
    if a.status == status_pending
    then less a b
    else if a.status == status_assigned
    then ltb a.wall_clock b.wall_clock
    else false

-- The comparison groups by status first.
shown_before_lem :
    (a b : Request)
    → shown_before a b
      ≡ (if a.status == b.status then same_status a b else ltb_string a.status b.status)
unfolding shown_before same_status
shown_before_lem a b = ground (
  arith,
  eq_iff a.status b.status,
  eq_iff a.status status_pending,
  eq_iff b.status status_pending,
  eq_iff a.status status_assigned,
  eq_iff b.status status_assigned,
  ltb_string_irrefl a.status,
)

not-same_status_trans :
    (a b c : Request)
    → a.status ≡ b.status
    → b.status ≡ c.status
    → same_status b a ≡ false
    → same_status c b ≡ false
    → same_status c a ≡ false
unfolding same_status
not-same_status_trans a b c e f h g = ground (arith, not-less_trans a b c)

-- Not to come before is transitive.
pub not-shown_trans :
    (a b c : Request)
    → shown_before b a ≡ false
    → shown_before c b ≡ false
    → shown_before c a ≡ false
not-shown_trans a b c h g = ground (
  arith,
  shown_before_lem b a,
  shown_before_lem c b,
  shown_before_lem c a,
  eq_iff b.status a.status,
  eq_iff c.status b.status,
  eq_iff c.status a.status,
  not-same_status_trans a b c,
  not-ltb_string_trans a.status b.status c.status,
  ltb_string_total b.status a.status,
  ltb_string_total c.status b.status,
)

shown_asymm : (a b : Request) → shown_before a b ≡ true → shown_before b a ≡ false
unfolding same_status
shown_asymm a b h = ground (
  arith,
  shown_before_lem a b,
  shown_before_lem b a,
  eq_iff a.status b.status,
  eq_iff b.status a.status,
  less_asymm a b,
  ltb_string_trans a.status b.status a.status,
  ltb_string_irrefl a.status,
)

-- No request comes before an earlier one of the list.
abbrev pub IsShown : List Request → Type 0
IsShown [] = Unit
IsShown (x ∷ xs) = All (λ y. shown_before y x ≡ false) xs × IsShown xs

pub All-insert :
    (P : Request → Type 0) (x : Request) (xs : List Request)
    → P x
    → All P xs
    → All P (insert_stable x xs)
unfolding insert_stable
All-insert P x [] h a = (h, tt)
All-insert P x (y ∷ ys) h a = elim (Bool-cases (shown_before y x)) [
  | inl e ↦ rw e (a.0, All-insert P x ys h a.1)
  | inr e ↦ rw e (h, a)
]

All-mono :
    (P Q : Request → Type 0) (xs : List Request) → ((x : Request) → P x → Q x) → All P xs → All Q xs
All-mono P Q [] f a = tt
All-mono P Q (x ∷ xs) f a = (f x a.0, All-mono P Q xs f a.1)

insert_stable-IsShown :
    (x : Request) (xs : List Request) → IsShown xs → IsShown (insert_stable x xs)
unfolding insert_stable
insert_stable-IsShown x [] s = (tt, tt)
insert_stable-IsShown x (y ∷ ys) s = elim (Bool-cases (shown_before y x)) [
  | inl e ↦ rw e (All-insert _ x ys (shown_asymm y x e) s.0, insert_stable-IsShown x ys s.1)
  | inr e ↦ rw e ((e, All-mono _ _ ys (λ z p. not-shown_trans x y z e p) s.0), s)
]

pub sort_stable-IsShown : (xs : List Request) → IsShown (sort_stable xs)
unfolding sort_stable
sort_stable-IsShown [] = tt
sort_stable-IsShown (x ∷ xs) = insert_stable-IsShown x (sort_stable xs) (sort_stable-IsShown xs)

-- GetAll returns exactly the requests of the heap, each as often, in an order in which no request
-- comes before an earlier one.
pub get_all_lem : (q : PriorityQueue) → SameItems (get_all q) q.heap × IsShown (get_all q)
unfolding get_all
get_all_lem q = (get_all-SameItems q, sort_stable-IsShown q.heap)

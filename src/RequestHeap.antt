-- ===== src/RequestHeap.antt =====
-- `requestHeap` of internal/queue/queue.go, with the calls of container/heap that the queue makes:
-- heap.Push is Push and then `up`, heap.Init runs `down` from the last parent to the root. An index
-- out of range, which none of the calls makes, leaves the slice alone.
-- A loop runs on fuel: `up` from `j` makes at most `j` rounds, `down` at most as many as the length.
pub mod Items
pub mod Less
pub mod Order
pub mod Up
pub mod Down
pub mod Correct
use mi_desbloqueio_do_estrei.Common.{
  ℕ, zero, suc, ◌+◌, ◌-◌, ◌*◌, ◌/◌, Bool, true, false, not, Option, none, some, List, [], ◌∷◌, ◌++◌,
  length, get_elem?, set, ltb, if◌then◌else◌, ltb_string, ◌&&◌, nat_eq,
}
use mi_desbloqueio_do_estrei.Common.Int.{eqb_ℤ, ltb_ℤ}
use mi_desbloqueio_do_estrei.Models.{Request}

-- Less, on the two requests.
unfoldable pub less : Request → Request → Bool
less a b =
    if not (eqb_ℤ a.priority b.priority)
    then ltb_ℤ a.priority b.priority
    else if not (eqb_ℤ a.lamport_ts b.lamport_ts)
    then ltb_ℤ a.lamport_ts b.lamport_ts
    else ltb_string a.id b.id

less_found : Option Request → Option Request → Bool
unfolding less
less_found (some a) (some b) = less a b
less_found _ _ = false

-- `h.Less(i, j)`
unfoldable pub less_at : List Request → ℕ → ℕ → Bool
unfolding less_found
less_at h i j = less_found (get_elem? h i) (get_elem? h j)

swap_found : List Request → ℕ → ℕ → Option Request → Option Request → List Request
swap_found h i j (some a) (some b) = set (set h i b) j a
swap_found h i j _ _ = h

-- `h.Swap(i, j)`
unfoldable pub swap : List Request → ℕ → ℕ → List Request
unfolding swap_found
swap h i j = swap_found h i j (get_elem? h i) (get_elem? h j)

abbrev pub parent : ℕ → ℕ
parent j = (j - 1) / 2

unfoldable pub up : ℕ → List Request → ℕ → List Request
unfolding less_at swap
up zero h j = h
up (suc f) h j =
    let rest = up f (swap h (parent j) j) (parent j) in
    if nat_eq (parent j) j then h else if not (less_at h j (parent j)) then h else rest

-- The child of `i` that `down` compares with it.
unfoldable pub child : List Request → ℕ → ℕ
unfolding less_at
child h i =
    if ltb (2 * i + 2) (length h) && less_at h (2 * i + 2) (2 * i + 1) then 2 * i + 2 else 2 * i + 1

unfoldable pub down : ℕ → List Request → ℕ → List Request
unfolding less_at swap child
down zero h i = h
down (suc f) h i =
    let rest = down f (swap h i (child h i)) (child h i) in
    if not (ltb (2 * i + 1) (length h))
    then h
    else if not (less_at h (child h i) i)
    then h
    else rest

-- The loop of heap.Init over the parents below `i`.
unfoldable pub init_from : ℕ → List Request → List Request
unfolding down
init_from zero h = h
init_from (suc i) h = init_from i (down (length h) h i)

-- `heap.Init(&h)`
unfoldable pub init : List Request → List Request
unfolding init_from
init h = init_from (length h / 2) h

-- `heap.Push(&h, x)`
unfoldable pub push : List Request → Request → List Request
unfolding up
push h x = up (length h + 1) (h ++ x ∷ []) (length h)

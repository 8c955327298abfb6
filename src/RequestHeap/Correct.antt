-- ===== src/RequestHeap/Correct.antt =====
-- What heap.Push and heap.Init do for the queue of internal/queue/queue.go: the order of the slice, its
-- requests, and its first place.
use mi_desbloqueio_do_estrei.Common.{ℕ, zero, suc, ◌<◌, List, ◌∷◌, length, SameItems, arith}
use mi_desbloqueio_do_estrei.Models.{Request}
use mi_desbloqueio_do_estrei.RequestHeap.{parent, init, push}
use mi_desbloqueio_do_estrei.RequestHeap.Items.{count-init, count-push}
use mi_desbloqueio_do_estrei.RequestHeap.Less.{less_irrefl, not-less_trans}
use mi_desbloqueio_do_estrei.RequestHeap.Order.{at, IsHeap, NotBelow}
use mi_desbloqueio_do_estrei.RequestHeap.Up.{push-IsHeap}
use mi_desbloqueio_do_estrei.RequestHeap.Down.{init-IsHeap}

-- heap.Init brings any slice into heap order, with the same requests.
pub init_correct : (h : List Request) → IsHeap (init h) × SameItems (init h) h
init_correct h = (init-IsHeap h, λ p. count-init p h)

-- heap.Push on a slice in heap order leaves it in heap order, with the new request and the old ones.
pub push_correct :
    (h : List Request) (x : Request) → IsHeap h → IsHeap (push h x) × SameItems (push h x) (x ∷ h)
push_correct h x o = (push-IsHeap h x o, λ p. omega (arith, count-push p h x))

root_up_to : (h : List Request) → IsHeap h → (k i : ℕ) → i < k → i < length h → NotBelow h i 0
root_up_to h o zero i b p = absurd (omega arith)
root_up_to h o (suc k) zero b p = less_irrefl (at h 0)
root_up_to h o (suc k) (suc i) b p =
    not-less_trans (at h 0) (at h (parent (suc i))) (at h (suc i))
      (root_up_to h o k (parent (suc i)) (omega arith) (omega arith))
      (o (suc i) (omega arith) p (omega arith))

-- In a slice in heap order no request precedes the first.
pub IsHeap-root : (h : List Request) (i : ℕ) → IsHeap h → i < length h → NotBelow h i 0
IsHeap-root h i o p = root_up_to h o (suc i) i (omega arith) p

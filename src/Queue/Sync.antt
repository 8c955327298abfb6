-- ===== src/Queue/Sync.antt =====
-- Push and SyncFrom of internal/queue/queue.go: what is taken in, and what is dropped as known.
use mi_desbloqueio_do_estrei.Common.{
  ℕ, ◌+◌, ◌≡◌, refl, String, true, List, [], ◌∷◌, All, length, arith, eq_refl, length-eq-count,
}
use mi_desbloqueio_do_estrei.Models.{Request}
use mi_desbloqueio_do_estrei.RequestHeap
use mi_desbloqueio_do_estrei.RequestHeap.Items.{count-push}
use mi_desbloqueio_do_estrei.Queue.{PriorityQueue, has, len, sync_one, sync_loop, sync_from}

length-push : (h : List Request) (r : Request) → length (RequestHeap.push h r) ≡ length h + 1
length-push h r =
    omega
      (arith, length-eq-count (RequestHeap.push h r), length-eq-count h, count-push (λ _. true) h r)

sync_one-len :
    (acc : PriorityQueue × ℕ) (r : Request)
    → (sync_one acc r).1 + length acc.0.heap ≡ acc.1 + length (sync_one acc r).0.heap
unfolding sync_one
sync_one-len (q, n) r = ground (arith, length-push q.heap r)

sync_loop-len :
    (acc : PriorityQueue × ℕ) (snapshot : List Request)
    → (sync_loop acc snapshot).1 + length acc.0.heap
      ≡ acc.1 + length (sync_loop acc snapshot).0.heap
unfolding sync_loop
sync_loop-len acc [] = refl
sync_loop-len acc (r ∷ rest) =
    omega (arith, sync_loop-len (sync_one acc r) rest, sync_one-len acc r)

sync_one-seen :
    (acc : PriorityQueue × ℕ) (r : Request)
    → (has (sync_one acc r).0 r.id ≡ true)
      × ((k : String) → has acc.0 k ≡ true → has (sync_one acc r).0 k ≡ true)
unfolding sync_one has
sync_one-seen (q, n) r = (ground (arith, eq_refl r.id), λ k h. ground arith)

abbrev pub AllSeen : PriorityQueue → List Request → Type 0
AllSeen q = All (λ r. has q r.id ≡ true)

sync_loop-seen :
    (acc : PriorityQueue × ℕ) (snapshot : List Request)
    → AllSeen (sync_loop acc snapshot).0 snapshot
      × ((k : String) → has acc.0 k ≡ true → has (sync_loop acc snapshot).0 k ≡ true)
unfolding sync_loop
sync_loop-seen acc [] = (tt, λ k h. h)
sync_loop-seen acc (r ∷ rest) =
    let (all, keep) = sync_loop-seen (sync_one acc r) rest in
    let (first, keep1) = sync_one-seen acc r in ((keep r.id first, all), λ k h. keep k (keep1 k h))

sync_loop_known :
    (q : PriorityQueue) (n : ℕ) (snapshot : List Request)
    → AllSeen q snapshot
    → sync_loop (q, n) snapshot ≡ (q, n)
unfolding sync_loop has
sync_loop_known q n [] h = refl
sync_loop_known q n (r ∷ rest) h = rw h.0 (sync_loop_known q n rest h.1)

-- SyncFrom reports by how much the queue grows, afterwards knows every ID of the snapshot, and a
-- second call with the snapshot adds nothing.
pub sync_from_lem :
    (q : PriorityQueue) (snapshot : List Request)
    → ((sync_from q snapshot).1 + len q ≡ len (sync_from q snapshot).0)
      × AllSeen (sync_from q snapshot).0 snapshot
      × (sync_from (sync_from q snapshot).0 snapshot ≡ ((sync_from q snapshot).0, 0))
unfolding sync_from len
sync_from_lem q snapshot =
    let seen = sync_loop-seen (q, 0) snapshot in
    (
      omega (arith, sync_loop-len (q, 0) snapshot),
      seen.0,
      sync_loop_known (sync_loop (q, 0) snapshot).0 0 snapshot seen.0,
    )

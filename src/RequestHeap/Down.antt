-- ===== src/RequestHeap/Down.antt =====
-- heap.Init brings any slice of internal/queue/queue.go into heap order.
use mi_desbloqueio_do_estrei.Common.{
  ℕ, zero, suc, ◌+◌, ◌*◌, ◌/◌, ◌≤◌, ◌<◌, ◌≡◌, ◌≢◌, ◌⊎◌, sym, ◌∙◌, true, List, length, ltb, arith,
  if◌then◌else◌, nat_eq, Bool-cases, inl, inr,
}
use native.Mathlib.Decide.{ℕ_discrete}
use mi_desbloqueio_do_estrei.Models.{Request}
use mi_desbloqueio_do_estrei.RequestHeap.{less, less_at, swap, parent, child, down, init_from, init}
use mi_desbloqueio_do_estrei.RequestHeap.Less.{less_irrefl, less_asymm, not-less_trans}
use mi_desbloqueio_do_estrei.RequestHeap.Order.{
  at, NotBelow, IsHeapFrom, IsHeap, less_at-at, length-swap, at-swap,
}

-- From `lo` all edges are in order but those from `i` to its children, and the parent of `i` does not
-- follow those children.
pub record Sinking (lo : ℕ) (h : List Request) (i : ℕ) : Type 0 where
  pub within : lo ≤ i
  pub edges :
      (c : ℕ) → 0 < c → c < length h → lo ≤ parent c → parent c ≢ i → NotBelow h c (parent c)
  pub bridge :
      (c : ℕ)
      → 0 < c
      → c < length h
      → parent c ≡ i
      → 0 < i
      → lo ≤ parent i
      → NotBelow h c (parent i)

-- The child that `down` takes exists, and its sibling does not precede it.
record Smaller (h : List Request) (i j : ℕ) : Type 0 where
  inside : j < length h
  below : (0 < j) × (parent j ≡ i)
  least : (c : ℕ) → 0 < c → c < length h → parent c ≡ i → NotBelow h c j

children : (i c : ℕ) → 0 < c → parent c ≡ i → (c ≡ 2 * i + 1) ⊎ (c ≡ 2 * i + 2)
children i c p e = omega arith

right_Smaller :
    (h : List Request) (i : ℕ)
    → 2 * i + 2 < length h
    → less (at h (2 * i + 2)) (at h (2 * i + 1)) ≡ true
    → Smaller h i (2 * i + 2)
right_Smaller h i p l = record {
  inside = p;
  below = omega arith;
  least = λ c b q e. elim (children i c b e) [
    | inl d ↦ rw d (less_asymm (at h (2 * i + 2)) (at h (2 * i + 1)) l)
    | inr d ↦ rw d (less_irrefl (at h (2 * i + 2)))
  ];
}

left_Smaller :
    (h : List Request) (i : ℕ)
    → 2 * i + 1 < length h
    → (2 * i + 2 < length h → NotBelow h (2 * i + 2) (2 * i + 1))
    → Smaller h i (2 * i + 1)
left_Smaller h i p l = record {
  inside = p;
  below = omega arith;
  least = λ c b q e. elim (children i c b e) [
    | inl d ↦ rw d (less_irrefl (at h (2 * i + 1)))
    | inr d ↦ rw d (l (rw d at q))
  ];
}

child-Smaller : (h : List Request) (i : ℕ) → 2 * i + 1 < length h → Smaller h i (child h i)
unfolding child
child-Smaller h i p = elim (Bool-cases (ltb (2 * i + 2) (length h))) [
  | inl e ↦
      let inside : 2 * i + 2 < length h = ground arith in
      let test = less_at-at h (2 * i + 2) (2 * i + 1) inside p in
      elim (Bool-cases (less_at h (2 * i + 2) (2 * i + 1))) [
        | inl l ↦ rw (e, l) (right_Smaller h i inside (sym test ∙ l))
        | inr l ↦ rw (e, l) (left_Smaller h i p (λ _. sym test ∙ l))
      ]
  | inr e ↦ rw e (left_Smaller h i p (λ q. absurd (ground arith)))
]

module _ (lo : ℕ) (h : List Request) (i j : ℕ) (s : Sinking lo h i) (m : Smaller h i j)
    (below : less (at h j) (at h i) ≡ true) where
  abbrev sunk : List Request
  sunk = swap h i j

  sunk-at :
      (c : ℕ) → at sunk c ≡ (if nat_eq c j then at h i else if nat_eq c i then at h j else at h c)
  sunk-at = at-swap h i j (omega (arith, m.inside, m.below)) m.inside

  sunk-length : length sunk ≡ length h
  sunk-length = length-swap h i j (omega (arith, m.inside, m.below)) m.inside

  sunk_edges :
      (c : ℕ) → 0 < c → c < length sunk → lo ≤ parent c → parent c ≢ j → NotBelow sunk c (parent c)
  sunk_edges c p q b n = ground (
    arith,
    sunk-length,
    m.below,
    m.inside,
    sunk-at c,
    sunk-at (parent c),
    s.edges c,
    s.bridge j,
    m.least c,
    less_asymm (at h j) (at h i),
  )

  sunk_bridge :
      (c : ℕ)
      → 0 < c
      → c < length sunk
      → parent c ≡ j
      → 0 < j
      → lo ≤ parent j
      → NotBelow sunk c (parent j)
  sunk_bridge c p q e a b =
      ground (arith, sunk-length, s.within, m.below, sunk-at c, sunk-at (parent j), s.edges c)

  sunk-Sinking : Sinking lo sunk j
  sunk-Sinking = record {
    within = omega (arith, m.below, s.within);
    edges = sunk_edges;
    bridge = sunk_bridge;
  }

-- Where no child precedes `i`, every edge is in order.
Sinking-IsHeapFrom :
    (lo : ℕ) (h : List Request) (i : ℕ)
    → Sinking lo h i
    → ((c : ℕ) → 0 < c → c < length h → parent c ≡ i → NotBelow h c i)
    → IsHeapFrom lo h
Sinking-IsHeapFrom lo h i s last c p q b = elim (ℕ_discrete (parent c) i) [
  | yes e ↦ rw e (last c p q e)
  | no n ↦ s.edges c p q b n
]

down-IsHeapFrom :
    (lo f : ℕ) (h : List Request) (i : ℕ)
    → length h ≤ i + f
    → Sinking lo h i
    → IsHeapFrom lo (down f h i)
unfolding down
down-IsHeapFrom lo zero h i b s = Sinking-IsHeapFrom lo h i s (λ c p q e. absurd (omega arith))
down-IsHeapFrom lo (suc f) h i b s = elim (Bool-cases (ltb (2 * i + 1) (length h))) [
  | inr e ↦ rw e (Sinking-IsHeapFrom lo h i s (λ c p q d. absurd (ground arith)))
  | inl e ↦
      let m = child-Smaller h i (ground arith) in
      let j = child h i in
      let test = less_at-at h j i m.inside (omega (arith, m.inside, m.below)) in
      elim (Bool-cases (less_at h j i)) [
        | inl l ↦
            rw (e, l)
              (down-IsHeapFrom lo f (sunk lo h i j s m (sym test ∙ l)) j
                (omega (arith, m.below, sunk-length lo h i j s m (sym test ∙ l)))
                (sunk-Sinking lo h i j s m (sym test ∙ l)))
        | inr l ↦
            rw (e, l)
              (Sinking-IsHeapFrom lo h i s (λ c p q d.
                not-less_trans (at h i) (at h j) (at h c) (sym test ∙ l) (m.least c p q d)))
      ]
]

init_from-IsHeap : (i : ℕ) (h : List Request) → IsHeapFrom i h → IsHeap (init_from i h)
unfolding init_from
init_from-IsHeap zero h o = o
init_from-IsHeap (suc i) h o = init_from-IsHeap i (down (length h) h i) (
    down-IsHeapFrom i (length h) h i (omega arith) (record {
      within = omega arith;
      edges = λ c p q b n. o c p q (omega arith);
      bridge = λ c p q e a b. absurd (omega arith);
    }))

-- heap.Init brings any slice into heap order.
pub init-IsHeap : (h : List Request) → IsHeap (init h)
unfolding init
init-IsHeap h = init_from-IsHeap (length h / 2) h (λ c p q b. absurd (omega arith))

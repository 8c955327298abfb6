-- ===== src/RequestHeap/Up.antt =====
-- heap.Push keeps the heap order of internal/queue/queue.go.
use mi_desbloqueio_do_estrei.Common.{
  ℕ, zero, suc, ◌+◌, ◌<◌, ◌≡◌, ◌≢◌, refl, sym, ◌∙◌, true, List, [], ◌∷◌, ◌++◌, length, arith,
  if◌then◌else◌, nat_eq, Bool-cases, inl, inr, length-append,
}
use native.Mathlib.Decide.{ℕ_discrete}
use mi_desbloqueio_do_estrei.Models.{Request}
use mi_desbloqueio_do_estrei.RequestHeap.{less, less_at, swap, parent, up, push}
use mi_desbloqueio_do_estrei.RequestHeap.Less.{less_asymm, not-less_trans}
use mi_desbloqueio_do_estrei.RequestHeap.Order.{
  at, NotBelow, IsHeap, less_at-at, length-swap, at-swap,
}

-- All edges are in order but the one from `j` to its parent, and that parent does not follow the
-- children of `j`.
pub record Rising (h : List Request) (j : ℕ) : Type 0 where
  pub inside : j < length h
  pub edges : (c : ℕ) → 0 < c → c < length h → c ≢ j → NotBelow h c (parent c)
  pub bridge : (c : ℕ) → 0 < c → c < length h → parent c ≡ j → 0 < j → NotBelow h c (parent j)

Rising-IsHeap : (h : List Request) (j : ℕ) → Rising h j → NotBelow h j (parent j) → IsHeap h
Rising-IsHeap h j r last c p q _ = elim (ℕ_discrete c j) [
  | yes e ↦ rw e last
  | no n ↦ r.edges c p q n
]

module _ (h : List Request) (j : ℕ) (r : Rising h j) (above : 0 < j)
    (below : less (at h j) (at h (parent j)) ≡ true) where
  abbrev raised : List Request
  raised = swap h (parent j) j

  raised-at :
      (c : ℕ)
      → at raised c
        ≡ (if nat_eq c j then at h (parent j) else if nat_eq c (parent j) then at h j else at h c)
  raised-at = at-swap h (parent j) j (omega (arith, r.inside)) r.inside

  raised-length : length raised ≡ length h
  raised-length = length-swap h (parent j) j (omega (arith, r.inside)) r.inside

  raised_edges : (c : ℕ) → 0 < c → c < length raised → c ≢ parent j → NotBelow raised c (parent c)
  raised_edges c p q n = ground (
    arith,
    raised-length,
    raised-at c,
    raised-at (parent c),
    r.edges c,
    r.bridge c,
    less_asymm (at h j) (at h (parent j)),
    not-less_trans (at h j) (at h (parent j)) (at h c),
  )

  raised_bridge :
      (c : ℕ)
      → 0 < c
      → c < length raised
      → parent c ≡ parent j
      → 0 < parent j
      → NotBelow raised c (parent (parent j))
  raised_bridge c p q e n = ground (
    arith,
    raised-length,
    raised-at c,
    raised-at (parent (parent j)),
    r.edges c,
    r.edges (parent j),
    not-less_trans (at h (parent (parent j))) (at h (parent j)) (at h c),
  )

  raised-Rising : Rising raised (parent j)
  raised-Rising = record {
    inside = omega (arith, raised-length, r.inside);
    edges = raised_edges;
    bridge = raised_bridge;
  }

pub up-IsHeap : (f : ℕ) (h : List Request) (j : ℕ) → j < f → Rising h j → IsHeap (up f h j)
unfolding up
up-IsHeap zero h j f r = absurd (omega arith)
up-IsHeap (suc f) h j b r = elim (Bool-cases (nat_eq (parent j) j)) [
  | inl e ↦ rw e (λ c p q _. r.edges c p q (ground arith))
  | inr e ↦ elim (Bool-cases (less_at h j (parent j))) [
    | inl l ↦
        let above : 0 < j = ground arith in
        let first = less_at-at h j (parent j) r.inside (omega (arith, r.inside)) in
        rw (e, l)
          (up-IsHeap f (raised h j r above (sym first ∙ l)) (parent j) (omega arith)
            (raised-Rising h j r above (sym first ∙ l)))
    | inr l ↦
        let first = less_at-at h j (parent j) r.inside (omega (arith, r.inside)) in
        rw (e, l) (Rising-IsHeap h j r (sym first ∙ l))
  ]
]

at-append : (h : List Request) (x : Request) (c : ℕ) → c < length h → at (h ++ x ∷ []) c ≡ at h c
unfolding at
at-append [] x c p = absurd (omega arith)
at-append (y ∷ h) x zero p = refl
at-append (y ∷ h) x (suc c) p = at-append h x c (omega arith)

-- heap.Push on a slice in heap order leaves it in heap order.
pub push-IsHeap : (h : List Request) (x : Request) → IsHeap h → IsHeap (push h x)
unfolding push
push-IsHeap h x ordered = up-IsHeap (length h + 1) (h ++ x ∷ []) (length h) (omega arith) (record {
  inside = omega (arith, size);
  edges = λ c p q n. ground (arith, size, ordered c, at-append h x c, at-append h x (parent c));
  bridge = λ c p q e n. absurd (omega (arith, size));
})
  where
    size : length (h ++ x ∷ []) ≡ length h + 1
    size = length-append h (x ∷ [])

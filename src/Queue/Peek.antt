-- ===== src/Queue/Peek.antt =====
-- Peek of internal/queue/queue.go: the most urgent pending request, whatever the order of the heap.
use mi_desbloqueio_do_estrei.Common.{
  ◌≡◌, refl, Bool, true, false, not, ◌&&◌, ◌||◌, none, some, List, [], ◌∷◌, All, IsIn, count, arith,
  if◌then◌else◌, inl, inr, Bool-cases, ◌⊎◌, ltb_string,
}
use mi_desbloqueio_do_estrei.Common.Int.{ℤ, ltb_ℤ, eqb_ℤ}
use mi_desbloqueio_do_estrei.Models.{Request}
use mi_desbloqueio_do_estrei.RequestHeap.{less}
use mi_desbloqueio_do_estrei.RequestHeap.Less.{less_irrefl, less_asymm, not-less_trans}
use mi_desbloqueio_do_estrei.Queue.{PriorityQueue, is_pending, beats, scan, peek, pending_len}

beats_keys :
    (a b c d : ℤ) (s : Bool)
    → (ltb_ℤ a b || (eqb_ℤ a b && ltb_ℤ c d) || (eqb_ℤ a b && eqb_ℤ c d && s))
      ≡ (if not (eqb_ℤ a b) then ltb_ℤ a b else if not (eqb_ℤ c d) then ltb_ℤ c d else s)
beats_keys a b c d s = ground arith

-- The test that Peek writes out is Less.
pub beats-eq-less : (a b : Request) → beats a b ≡ less a b
unfolding beats less
beats-eq-less a b =
    beats_keys a.priority b.priority a.lamport_ts b.lamport_ts (ltb_string a.id b.id)

-- `r` is pending, and no pending request of the list precedes it.
abbrev pub IsFirst : List Request → Request → Type 0
IsFirst xs r = (is_pending r ≡ true) × All (λ x. is_pending x ≡ true → less x r ≡ false) xs

-- From a pending best so far, the loop ends at it or at a request of the rest, and precedes all.
scan-some :
    (best : Request) (xs : List Request)
    → is_pending best ≡ true
    → (r : Request) × (scan (some best) xs ≡ some r)
      × ((r ≡ best) ⊎ IsIn r xs)
      × (less best r ≡ false)
      × IsFirst xs r
unfolding scan
scan-some best [] h = (best, refl, inl refl, less_irrefl best, (h, tt))
scan-some best (x ∷ xs) h = elim (Bool-cases (is_pending x && less x best)) [
  | inl e ↦
      let (r, p, m, l, f) = scan-some x xs (ground arith) in
      let behind = not-less_trans r x best l (less_asymm x best (ground arith)) in
      (r, rw (beats-eq-less x best, e) p, inr m, behind, (f.0, (λ _. l, f.1)))
  | inr e ↦
      let (r, p, m, l, f) = scan-some best xs h in
      (
        r,
        rw (beats-eq-less x best, e) p,
        elim m [ inl q ↦ inl q | inr q ↦ inr (inr q) ],
        l,
        (f.0, (λ px. not-less_trans r best x l (ground arith), f.1)),
      )
]

scan-none :
    (xs : List Request)
    → ((scan none xs ≡ none) × (count is_pending xs ≡ 0))
      ⊎ ((r : Request) × (scan none xs ≡ some r) × IsIn r xs × IsFirst xs r)
unfolding scan
scan-none [] = inl (refl, refl)
scan-none (x ∷ xs) = elim (Bool-cases (is_pending x)) [
  | inl e ↦ let (r, p, m, l, f) = scan-some x xs e in inr (r, rw e p, m, (f.0, (λ _. l, f.1)))
  | inr e ↦ elim (scan-none xs) [
    | inl (p, c) ↦ inl (rw e p, ground arith)
    | inr (r, p, m, f) ↦ inr (r, rw e p, inr m, (f.0, (λ px. absurd (ground arith), f.1)))
  ]
]

-- Peek finds a request exactly when one is pending. The one found is pending, stands in the heap,
-- and no pending request of the heap precedes it by priority, timestamp and ID.
pub peek_lem :
    (q : PriorityQueue)
    → ((peek q ≡ none) × (pending_len q ≡ 0))
      ⊎ ((r : Request) × (peek q ≡ some r) × IsIn r q.heap × IsFirst q.heap r)
unfolding peek pending_len
peek_lem q = scan-none q.heap

-- ===== src/Queue/First.antt =====
-- GetAll and Peek of internal/queue/queue.go agree on the most urgent pending request.
use mi_desbloqueio_do_estrei.Common.{
  ◌≡◌, refl, sym, ap, ◌∙◌, true, false, Option, none, some, List, [], ◌∷◌, All, IsIn, find?, arith,
  inl, inr, Bool-cases, Option-cases, eq_iff, eq_refl, find?-IsIn, find?-eq-none, IsIn-unique,
  IsIn-count, All-IsIn,
}
use mi_desbloqueio_do_estrei.Models.{Request}
use mi_desbloqueio_do_estrei.RequestHeap.{less}
use mi_desbloqueio_do_estrei.RequestHeap.Less.{less_irrefl, less_total}
use mi_desbloqueio_do_estrei.Queue.{
  PriorityQueue, is_pending, has_id, shown_before, insert_stable, sort_stable, get_all, peek,
  pending_len,
}
use mi_desbloqueio_do_estrei.Queue.Op.{IsValid}
use mi_desbloqueio_do_estrei.Queue.Peek.{peek_lem}
use mi_desbloqueio_do_estrei.Queue.Sort.{
  IsShown, All-insert, count-sort_stable, sort_stable-IsShown,
}

shown_pending :
    (a b : Request) → is_pending a ≡ true → is_pending b ≡ true → shown_before a b ≡ less a b
unfolding shown_before
shown_pending a b p q = ground arith

-- The first pending request of a list in order precedes the other pending ones.
find_first :
    (xs : List Request) (r x : Request)
    → IsShown xs
    → find? is_pending xs ≡ some r
    → IsIn x xs
    → is_pending x ≡ true
    → less x r ≡ false
find_first [] r x s f m p = absurd m
find_first (y ∷ ys) r x s f m p = elim (Bool-cases (is_pending y)) [
  | inl e ↦
      let same : y ≡ r = ground arith in
      elim m [
        | inl d ↦ rw (d, ← same) (less_irrefl y)
        | inr n ↦ rw (← same) (ground (arith, shown_pending x y, All-IsIn _ ys x s.0 n))
      ]
  | inr e ↦ elim m [
    | inl d ↦ absurd (ground (arith, ap is_pending d))
    | inr n ↦ find_first ys r x s.1 (ground arith) n p
  ]
]

IsIn-insert :
    (x : Request) (xs : List Request)
    → IsIn x (insert_stable x xs) × ((y : Request) → IsIn y xs → IsIn y (insert_stable x xs))
unfolding insert_stable
IsIn-insert x [] = (inl refl, λ y m. absurd m)
IsIn-insert x (z ∷ xs) = elim (Bool-cases (shown_before z x)) [
  | inl e ↦
      let ih = IsIn-insert x xs in
      rw e (inr ih.0, λ y m. elim m [ inl d ↦ inl d | inr n ↦ inr (ih.1 y n) ])
  | inr e ↦ rw e (inl refl, λ y m. inr m)
]

IsIn-sort : (xs : List Request) (x : Request) → IsIn x xs → IsIn x (sort_stable xs)
unfolding sort_stable
IsIn-sort [] x m = m
IsIn-sort (y ∷ ys) x (inl e) = rw e (IsIn-insert y (sort_stable ys)).0
IsIn-sort (y ∷ ys) x (inr m) = (IsIn-insert y (sort_stable ys)).1 x (IsIn-sort ys x m)

All-sort : (P : Request → Type 0) (xs : List Request) → All P xs → All P (sort_stable xs)
unfolding sort_stable
All-sort P [] a = tt
All-sort P (x ∷ xs) a = All-insert P x (sort_stable xs) a.0 (All-sort P xs a.1)

module _ (q : PriorityQueue) (valid : IsValid q) where
  -- Two pending requests that neither precedes are one, since IDs are distinct.
  same_request :
      (a b : Request)
      → IsIn a (sort_stable q.heap)
      → IsIn b (sort_stable q.heap)
      → less a b ≡ false
      → less b a ≡ false
      → a ≡ b
  same_request a b m n h g =
      IsIn-unique (has_id a.id) (sort_stable q.heap) a b
        (ground (arith, count-sort_stable (has_id a.id) q.heap, valid.unique a.id)) m n
        (eq_refl a.id) (ground (arith, less_total a b h g, eq_iff b.id a.id))

  found_eq-peek : (r : Request) → find? is_pending (sort_stable q.heap) ≡ some r → some r ≡ peek q
  unfolding pending_len
  found_eq-peek r f =
      let (m, p) = find?-IsIn is_pending (sort_stable q.heap) r f in
      elim (peek_lem q) [
        | inl (e, z) ↦ absurd (
            omega (
              arith,
              IsIn-count is_pending (sort_stable q.heap) r m p,
              count-sort_stable is_pending q.heap,
            ))
        | inr (best, e, n, first) ↦
            let n' = IsIn-sort q.heap best n in
            let precedes = All-IsIn _ (sort_stable q.heap) r (All-sort _ q.heap first.1) m p in
            let follows =
              find_first (sort_stable q.heap) r best (sort_stable-IsShown q.heap) f n' first.0 in
            ap {B = Option Request} some (same_request r best m n' precedes follows) ∙ sym e
      ]

  none_eq-peek : find? is_pending (sort_stable q.heap) ≡ none → none ≡ peek q
  none_eq-peek e = elim (peek_lem q) [
    | inl (p, z) ↦ sym p
    | inr (best, p, n, first) ↦ absurd (
        omega (
          arith,
          IsIn-count is_pending q.heap best n first.0,
          find?-eq-none is_pending (sort_stable q.heap) e,
          count-sort_stable is_pending q.heap,
        ))
  ]

  -- The request that Peek hands to the dispatcher is the first pending one that GetAll shows.
  pub find?-get_all : find? is_pending (get_all q) ≡ peek q
  unfolding get_all
  find?-get_all = elim (Option-cases (find? is_pending (sort_stable q.heap))) [
    | inl e ↦ e ∙ none_eq-peek e
    | inr (r, e) ↦ e ∙ found_eq-peek r e
  ]

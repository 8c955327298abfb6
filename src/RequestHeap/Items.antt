-- ===== src/RequestHeap/Items.antt =====
-- The heap operations of internal/queue/queue.go move requests and never add or lose one.
use mi_desbloqueio_do_estrei.Common.{
  ℕ, zero, suc, ◌+◌, ◌/◌, ◌≡◌, refl, ◌∙◌, Bool, true, some, List, [], ◌∷◌, ◌++◌, inl, inr, length,
  get_elem?, set, count, arith, if◌then◌else◌, count-set, get_elem?-set, count-append, Option-cases,
  SameItems, length-eq-count, sym,
}
use mi_desbloqueio_do_estrei.Models.{Request}
use mi_desbloqueio_do_estrei.RequestHeap.{
  swap, swap_found, parent, up, child, down, init_from, init, push,
}

count-swap_found :
    (p : Request → Bool) (h : List Request) (i j : ℕ) (a b : Request)
    → get_elem? h i ≡ some a
    → get_elem? h j ≡ some b
    → count p (set (set h i b) j a) ≡ count p h
count-swap_found p h i j a b hi hj = elim (get_elem?-set h i j b b hj) [
  | inl e ↦ omega (arith, count-set p h i b a hi, count-set p (set h i b) j a b e)
  | inr e ↦ omega (arith, count-set p h i b a hi, count-set p (set h i b) j a b e.1)
]

pub count-swap :
    (p : Request → Bool) (h : List Request) (i j : ℕ) → count p (swap h i j) ≡ count p h
unfolding swap
count-swap p h i j = elim (Option-cases (get_elem? h i)) [
  | inl e ↦ rw (e, swap_found) refl
  | inr (a, ea) ↦ elim (Option-cases (get_elem? h j)) [
    | inl e ↦ rw (ea, e, swap_found) refl
    | inr (b, eb) ↦ rw (ea, eb, swap_found) (count-swap_found p h i j a b ea eb)
  ]
]

pub count-up :
    (p : Request → Bool) (f : ℕ) (h : List Request) (j : ℕ) → count p (up f h j) ≡ count p h
unfolding up
count-up p zero h j = refl
count-up p (suc f) h j =
    ground (arith, count-up p f (swap h (parent j) j) (parent j), count-swap p h (parent j) j)

pub count-down :
    (p : Request → Bool) (f : ℕ) (h : List Request) (i : ℕ) → count p (down f h i) ≡ count p h
unfolding down
count-down p zero h i = refl
count-down p (suc f) h i =
    ground (arith, count-down p f (swap h i (child h i)) (child h i), count-swap p h i (child h i))

count-init_from :
    (p : Request → Bool) (i : ℕ) (h : List Request) → count p (init_from i h) ≡ count p h
unfolding init_from
count-init_from p zero h = refl
count-init_from p (suc i) h =
    count-init_from p i (down (length h) h i) ∙ count-down p (length h) h i

pub count-init : (p : Request → Bool) (h : List Request) → count p (init h) ≡ count p h
unfolding init
count-init p h = count-init_from p (length h / 2) h

pub count-push :
    (p : Request → Bool) (h : List Request) (x : Request)
    → count p (push h x) ≡ count p h + (if p x then 1 else 0)
unfolding push
count-push p h x =
    omega (arith, count-up p (length h + 1) (h ++ x ∷ []) (length h), count-append p h (x ∷ []))

pub length_of_items : (g h : List Request) → SameItems g h → length g ≡ length h
length_of_items g h s = sym (length-eq-count g) ∙ s (λ _. true) ∙ length-eq-count h

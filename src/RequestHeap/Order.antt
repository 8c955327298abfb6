-- ===== src/RequestHeap/Order.antt =====
-- The heap order of the slice in internal/queue/queue.go.
use mi_desbloqueio_do_estrei.Common.{
  ℕ, zero, suc, ◌≤◌, ◌<◌, ◌≡◌, refl, ◌∙◌, false, some, List, [], ◌∷◌, length, get_elem?, set, arith,
  if◌then◌else◌, nat_eq,
}
use mi_desbloqueio_do_estrei.Models.{Request, zero_request}
use mi_desbloqueio_do_estrei.RequestHeap.{less, less_found, less_at, swap, swap_found, parent}

-- `h[i]`, with the zero request out of range.
unfoldable pub at : List Request → ℕ → Request
at [] i = zero_request
at (x ∷ h) zero = x
at (x ∷ h) (suc i) = at h i

-- `h[c]` does not precede `h[d]`.
abbrev pub NotBelow : List Request → ℕ → ℕ → Type 0
NotBelow h c d = less (at h c) (at h d) ≡ false

-- Every edge from a parent at `lo` or later is in order.
abbrev pub IsHeapFrom : ℕ → List Request → Type 0
IsHeapFrom lo h = (c : ℕ) → 0 < c → c < length h → lo ≤ parent c → NotBelow h c (parent c)

-- No request precedes its parent.
abbrev pub IsHeap : List Request → Type 0
IsHeap h = IsHeapFrom 0 h

pub get_elem?-at : (h : List Request) (i : ℕ) → i < length h → get_elem? h i ≡ some (at h i)
unfolding at
get_elem?-at [] i p = absurd (omega arith)
get_elem?-at (x ∷ h) zero p = refl
get_elem?-at (x ∷ h) (suc i) p = get_elem?-at h i (omega arith)

at-set :
    (h : List Request) (i c : ℕ) (v : Request)
    → i < length h
    → at (set h i v) c ≡ (if nat_eq c i then v else at h c)
unfolding at
at-set [] i c v p = absurd (omega arith)
at-set (x ∷ h) zero zero v p = refl
at-set (x ∷ h) zero (suc c) v p = ground arith
at-set (x ∷ h) (suc i) zero v p = ground arith
at-set (x ∷ h) (suc i) (suc c) v p = ground (arith, at-set h i c v)

length-set : (h : List Request) (i : ℕ) (v : Request) → length (set h i v) ≡ length h
length-set [] i v = refl
length-set (x ∷ h) zero v = refl
length-set (x ∷ h) (suc i) v = omega (arith, length-set h i v)

module _ (h : List Request) (i j : ℕ) (hi : i < length h) (hj : j < length h) where
  pub less_at-at : less_at h i j ≡ less (at h i) (at h j)
  unfolding less_at
  less_at-at = rw (get_elem?-at h i hi, get_elem?-at h j hj, less_found) refl

  swap_lem : swap h i j ≡ set (set h i (at h j)) j (at h i)
  unfolding swap
  swap_lem = rw (get_elem?-at h i hi, get_elem?-at h j hj, swap_found) refl

  pub length-swap : length (swap h i j) ≡ length h
  length-swap = rw swap_lem (length-set (set h i (at h j)) j (at h i) ∙ length-set h i (at h j))

  pub at-swap :
      (c : ℕ)
      → at (swap h i j) c ≡ (if nat_eq c j then at h i else if nat_eq c i then at h j else at h c)
  at-swap c = rw swap_lem (
      ground (
        arith,
        length-set h i (at h j),
        at-set (set h i (at h j)) j c (at h i),
        at-set h i c (at h j),
      ))

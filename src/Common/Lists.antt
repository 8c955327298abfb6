-- ===== src/Common/Lists.antt =====
-- Lists measured by native numbers, indexed access, and the loops of the program over slices.
-- `count` is the view of a list that forgets its order: two lists hold the same items exactly when
-- every Boolean test passes equally often in both.
use Prim.Native.Nat.{ℕ, zero, suc, ◌+◌, ◌-◌, ◌≤◌}
use mathlib.Core.Path.{◌≡◌, refl, sym, ap, ◌∙◌, subst}
use mathlib.Core.Logic.{◌⊎◌, inl, inr}
use mathlib.Core.Bool.{Bool, true, false, ◌&&◌, ◌||◌}
use mathlib.Core.Option.{Option, none, some}
use mathlib.Core.List.{List, [], ◌∷◌, ◌++◌, map}
use native.Mathlib.Omega.{arith}
use mi_desbloqueio_do_estrei.Common.Tests.{if◌then◌else◌, Bool-cases}

module _ {ℓ} {A : Type ℓ} where
  abbrev pub length : List A → ℕ
  length [] = 0
  length (x ∷ xs) = suc (length xs)

  abbrev pub get_elem? : List A → ℕ → Option A
  get_elem? [] i = none
  get_elem? (x ∷ xs) zero = some x
  get_elem? (x ∷ xs) (suc i) = get_elem? xs i

  abbrev pub set : List A → ℕ → A → List A
  set [] i v = []
  set (x ∷ xs) zero v = v ∷ xs
  set (x ∷ xs) (suc i) v = x ∷ set xs i v

  abbrev pub drop : ℕ → List A → List A
  drop zero xs = xs
  drop (suc n) [] = []
  drop (suc n) (x ∷ xs) = drop n xs

  -- How many items pass a test.
  abbrev pub count : (A → Bool) → List A → ℕ
  count p [] = 0
  count p (x ∷ xs) = (if p x then 1 else 0) + count p xs

  abbrev pub any : (A → Bool) → List A → Bool
  any p [] = false
  any p (x ∷ xs) = p x || any p xs

  -- The items that pass, in order.
  abbrev pub select : (A → Bool) → List A → List A
  select p [] = []
  select p (x ∷ xs) = let rest = select p xs in if p x then x ∷ rest else rest

  abbrev pub find? : (A → Bool) → List A → Option A
  find? p [] = none
  find? p (x ∷ xs) = if p x then some x else find? p xs

  -- `for i := range xs { if p(xs[i]) { xs[i] = f(xs[i]); return } }`
  abbrev pub update_first : (A → Bool) → (A → A) → List A → List A
  update_first p f [] = []
  update_first p f (x ∷ xs) = if p x then f x ∷ xs else x ∷ update_first p f xs

  -- `xs = append(xs[:i], xs[i+1:]...)` at the first item that passes.
  abbrev pub remove_first : (A → Bool) → List A → List A
  remove_first p [] = []
  remove_first p (x ∷ xs) = if p x then xs else x ∷ remove_first p xs

  abbrev pub All {κ} : (A → Type κ) → List A → Type κ
  All P [] = Unit
  All P (x ∷ xs) = P x × All P xs

  abbrev pub SameItems : List A → List A → Type ℓ
  SameItems xs ys = (p : A → Bool) → count p xs ≡ count p ys

module _ {ℓ} {A : Type ℓ} where
  pub length-append : (xs ys : List A) → length (xs ++ ys) ≡ length xs + length ys
  length-append [] ys = omega arith
  length-append (x ∷ xs) ys = omega (arith, length-append xs ys)

  pub length-drop : (n : ℕ) (xs : List A) → length (drop n xs) ≡ length xs - n
  length-drop zero xs = omega arith
  length-drop (suc n) [] = omega arith
  length-drop (suc n) (x ∷ xs) = omega (arith, length-drop n xs)

  pub count-append : (p : A → Bool) (xs ys : List A) → count p (xs ++ ys) ≡ count p xs + count p ys
  count-append p [] ys = omega arith
  count-append p (x ∷ xs) ys = omega (arith, count-append p xs ys)

  pub length-eq-count : (xs : List A) → count (λ _. true) xs ≡ length xs
  length-eq-count [] = refl
  length-eq-count (x ∷ xs) = omega (arith, length-eq-count xs)

  pub any-eq-false : (p : A → Bool) (xs : List A) → any p xs ≡ false → count p xs ≡ 0
  any-eq-false p [] h = refl
  any-eq-false p (x ∷ xs) h = ground (arith, any-eq-false p xs)

  pub any-eq-true : (p : A → Bool) (xs : List A) → any p xs ≡ true → 1 ≤ count p xs
  any-eq-true p [] h = ground arith
  any-eq-true p (x ∷ xs) h = ground (arith, any-eq-true p xs)

  -- A write at `i` trades the item there for the new one.
  pub count-set :
      (p : A → Bool) (xs : List A) (i : ℕ) (v x : A)
      → get_elem? xs i ≡ some x
      → count p (set xs i v) + (if p x then 1 else 0) ≡ count p xs + (if p v then 1 else 0)
  count-set p [] i v x h = ground arith
  count-set p (y ∷ xs) zero v x h = ground arith
  count-set p (y ∷ xs) (suc i) v x h = omega (arith, count-set p xs i v x h)

  pub get_elem?-set :
      (xs : List A) (i j : ℕ) (v x : A)
      → get_elem? xs j ≡ some x
      → (get_elem? (set xs i v) j ≡ some x) ⊎ ((i ≡ j) × (get_elem? (set xs i v) j ≡ some v))
  get_elem?-set [] i j v x h = ground arith
  get_elem?-set (y ∷ xs) zero zero v x h = inr (refl, refl)
  get_elem?-set (y ∷ xs) zero (suc j) v x h = inl h
  get_elem?-set (y ∷ xs) (suc i) zero v x h = inl h
  get_elem?-set (y ∷ xs) (suc i) (suc j) v x h = ground (arith, get_elem?-set xs i j v x h)

  pub count-update_first :
      (q p : A → Bool) (f : A → A) (xs : List A)
      → ((x : A) → p x ≡ true → q (f x) ≡ q x)
      → count q (update_first p f xs) ≡ count q xs
  count-update_first q p f [] h = refl
  count-update_first q p f (x ∷ xs) h = ground (arith, h x, count-update_first q p f xs h)

  pub count-remove_first : (q p : A → Bool) (xs : List A) → count q (remove_first p xs) ≤ count q xs
  count-remove_first q p [] = omega arith
  count-remove_first q p (x ∷ xs) = ground (arith, count-remove_first q p xs)

  pub count-remove_first_self :
      (p : A → Bool) (xs : List A) → count p (remove_first p xs) ≡ count p xs - 1
  count-remove_first_self p [] = omega arith
  count-remove_first_self p (x ∷ xs) = ground (arith, count-remove_first_self p xs)

  pub count-select :
      (q p : A → Bool) (xs : List A) → count q (select p xs) ≡ count (λ x. p x && q x) xs
  count-select q p [] = refl
  count-select q p (x ∷ xs) = ground (arith, count-select q p xs)

  pub length-select : (p : A → Bool) (xs : List A) → length (select p xs) ≡ count p xs
  length-select p [] = refl
  length-select p (x ∷ xs) = ground (arith, length-select p xs)

  pub count-map {κ} :
      {B : Type κ} (q : B → Bool) (f : A → B) (xs : List A)
      → count q (map f xs) ≡ count (λ x. q (f x)) xs
  count-map q f [] = refl
  count-map q f (x ∷ xs) = ground (arith, count-map q f xs)

  pub count-map_self :
      (q : A → Bool) (f : A → A) (xs : List A)
      → ((x : A) → q (f x) ≡ q x)
      → count q (map f xs) ≡ count q xs
  count-map_self q f [] h = refl
  count-map_self q f (x ∷ xs) h = ground (arith, h x, count-map_self q f xs h)

  pub count_mono :
      (p q : A → Bool) (xs : List A) → ((x : A) → p x ≡ true → q x ≡ true) → count p xs ≤ count q xs
  count_mono p q [] h = omega arith
  count_mono p q (x ∷ xs) h = ground (arith, h x, count_mono p q xs h)

  pub find?-eq-some :
      (p : A → Bool) (xs : List A) (x : A) → find? p xs ≡ some x → (p x ≡ true) × (any p xs ≡ true)
  find?-eq-some p [] x h = ground arith
  find?-eq-some p (y ∷ xs) x h = ground (arith, find?-eq-some p xs x)

-- The item stands somewhere in the list.
abbrev pub IsIn : {A : Type 0} → A → List A → Type 0
IsIn a [] = ⊥
IsIn a (x ∷ xs) = (a ≡ x) ⊎ IsIn a xs

module _ {A : Type 0} where
  pub IsIn-count : (p : A → Bool) (xs : List A) (a : A) → IsIn a xs → p a ≡ true → 1 ≤ count p xs
  IsIn-count p [] a m h = absurd m
  IsIn-count p (x ∷ xs) a (inl e) h = rw (sym e, h) (omega arith)
  IsIn-count p (x ∷ xs) a (inr m) h = omega (arith, IsIn-count p xs a m h)

  pub All-IsIn {κ} : (P : A → Type κ) (xs : List A) (a : A) → All P xs → IsIn a xs → P a
  All-IsIn P [] a h m = absurd m
  All-IsIn P (x ∷ xs) a h (inl e) = subst P (sym e) h.0
  All-IsIn P (x ∷ xs) a h (inr m) = All-IsIn P xs a h.1 m

  -- Where at most one item passes, two that pass are one.
  pub IsIn-unique :
      (p : A → Bool) (xs : List A) (a b : A)
      → count p xs ≤ 1
      → IsIn a xs
      → IsIn b xs
      → p a ≡ true
      → p b ≡ true
      → a ≡ b
  IsIn-unique p [] a b c m n h g = absurd m
  IsIn-unique p (x ∷ xs) a b c (inl e) (inl f) h g = e ∙ sym f
  IsIn-unique p (x ∷ xs) a b c (inl e) (inr n) h g =
      absurd (ground (arith, IsIn-count p xs b n g, ap p e))
  IsIn-unique p (x ∷ xs) a b c (inr m) (inl f) h g =
      absurd (ground (arith, IsIn-count p xs a m h, ap p f))
  IsIn-unique p (x ∷ xs) a b c (inr m) (inr n) h g = IsIn-unique p xs a b (omega arith) m n h g

  pub find?-IsIn :
      (p : A → Bool) (xs : List A) (a : A) → find? p xs ≡ some a → IsIn a xs × (p a ≡ true)
  find?-IsIn p [] a h = absurd (ground arith)
  find?-IsIn p (x ∷ xs) a h = elim (Bool-cases (p x)) [
    | inl e ↦ (inl (ground arith), ground arith)
    | inr e ↦ let r = find?-IsIn p xs a (ground arith) in (inr r.0, r.1)
  ]

  -- A list with the same items has the same members, where the members are told apart by a test.
  pub find?-eq-none : (p : A → Bool) (xs : List A) → find? p xs ≡ none → count p xs ≡ 0
  find?-eq-none p [] h = refl
  find?-eq-none p (x ∷ xs) h = ground (arith, find?-eq-none p xs)

  pub get_elem?-IsIn : (xs : List A) (i : ℕ) (a : A) → get_elem? xs i ≡ some a → IsIn a xs
  get_elem?-IsIn [] i a h = absurd (ground arith)
  get_elem?-IsIn (x ∷ xs) zero a h = inl (ground arith)
  get_elem?-IsIn (x ∷ xs) (suc i) a h = inr (get_elem?-IsIn xs i a h)

  pub IsIn-select :
      (p : A → Bool) (xs : List A) (a : A) → IsIn a (select p xs) → IsIn a xs × (p a ≡ true)
  IsIn-select p [] a m = absurd m
  IsIn-select p (x ∷ xs) a m = elim (Bool-cases (p x)) [
    | inr e ↦ let r = IsIn-select p xs a (rw e at m) in (inr r.0, r.1)
    | inl e ↦
        let m' : (a ≡ x) ⊎ IsIn a (select p xs) = rw e at m in
        elim m' [
          | inl d ↦ (inl d, ap p d ∙ e)
          | inr n ↦ let r = IsIn-select p xs a n in (inr r.0, r.1)
        ]
  ]

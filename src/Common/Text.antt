-- ===== src/Common/Text.antt =====
-- Go's operations on strings that the program uses: the order, letter case and prefixes.
-- A string is a sequence of code points. The order of code points is that of their UTF-8 bytes, by
-- which Go compares. Case is changed on ASCII letters only.
use Prim.Native.Nat.{ℕ, ◌+◌, ◌-◌, ◌<◌, compare as compare_ℕ, Ordering}
use Prim.Native.Char.{Char, char, code, IsScalar}
use Prim.Native.String.compare
use Prim.Native.String.{String, compare, [], ◌∷◌, ◌++◌, slice, len, then as or_else}
use mathlib.Core.Path.{◌≡◌, refl}
use mathlib.Core.Bool.{Bool, true, false}
use mathlib.Core.List
use mathlib.Core.Logic.{dite, inl, inr}
use mi_desbloqueio_do_estrei.Common.Tests.{if◌then◌else◌, Bool-cases}
use native.Mathlib.Omega.{arith}
use native.Mathlib.Decide.{dec_le}
use text.Mathlib.Text.{is_lt, starts_with, ◌==◌}
use text.Mathlib.TextEquality.{eq_iff, path_by_compare}
use text.Mathlib.TextPositions.{compare_refl}

abbrev pub ltb_string : String → String → Bool
ltb_string a b = is_lt (compare a b)

pub ltb_string_irrefl : (a : String) → ltb_string a a ≡ false
ltb_string_irrefl a = ground (arith, compare_refl a)

then_trans :
    (i j k : ℕ) (p q r : Ordering)
    → (is_lt p ≡ true → is_lt q ≡ true → is_lt r ≡ true)
    → is_lt (or_else (compare_ℕ i j) p) ≡ true
    → is_lt (or_else (compare_ℕ j k) q) ≡ true
    → is_lt (or_else (compare_ℕ i k) r) ≡ true
then_trans i j k p q r h g f = ground arith

pub ltb_string_trans :
    (a b c : String) → ltb_string a b ≡ true → ltb_string b c ≡ true → ltb_string a c ≡ true
ltb_string_trans [] [] c h g = g
ltb_string_trans [] (y ∷ b) [] h g = ground (arith, compare.cons-nil y b)
ltb_string_trans [] (y ∷ b) (z ∷ c) h g = ground (arith, compare.nil-cons z c)
ltb_string_trans (x ∷ a) [] c h g = ground (arith, compare.cons-nil x a)
ltb_string_trans (x ∷ a) (y ∷ b) [] h g = ground (arith, compare.cons-nil y b)
ltb_string_trans (x ∷ a) (y ∷ b) (z ∷ c) h g = rw (compare.cons-cons x z a c) (
    then_trans (code x) (code y) (code z) (compare a b) (compare b c) (compare a c)
      (ltb_string_trans a b c) (rw (compare.cons-cons x y a b) at h)
      (rw (compare.cons-cons y z b c) at g))

compare_eq :
    (a b : String) → ltb_string a b ≡ false → ltb_string b a ≡ false → compare a b ≡ Ordering.eq
compare_eq [] [] h g = refl
compare_eq [] (y ∷ b) h g = ground (arith, compare.nil-cons y b)
compare_eq (x ∷ a) [] h g = ground (arith, compare.nil-cons x a)
compare_eq (x ∷ a) (y ∷ b) h g =
    ground (arith, compare.cons-cons x y a b, compare.cons-cons y x b a, compare_eq a b)

pub ltb_string_total : (a b : String) → ltb_string a b ≡ false → ltb_string b a ≡ false → a ≡ b
ltb_string_total a b h g = path_by_compare a b (compare_eq a b h g)

pub not-ltb_string_trans :
    (a b c : String) → ltb_string b a ≡ false → ltb_string c b ≡ false → ltb_string c a ≡ false
not-ltb_string_trans a b c h g = elim (Bool-cases (ltb_string a b)) [
  | inl e ↦ elim (Bool-cases (ltb_string c a)) [
    | inl f ↦ ground (arith, ltb_string_trans c a b f e)
    | inr f ↦ f
  ]
  | inr e ↦ rw (ltb_string_total a b e h) g
]

-- A text is not two different ones.
pub ==_other : (s a b : String) → (a == b) ≡ false → (s == a) ≡ true → (s == b) ≡ false
==_other s a b ne h = rw ((eq_iff s a).0 h) ne

compare_of_lt : (n : ℕ) → n < 55296 → compare_ℕ n 55296 ≡ Ordering.lt
compare_of_lt n h = ground arith

-- A code point below the surrogates is a scalar value.
scalar_of_lt : (n : ℕ) → n < 55296 → IsScalar n
scalar_of_lt n h = rw (compare_of_lt n h) tt

-- `strings.ToLower` and `strings.ToUpper`, on one character.
lower_char : Char → Char
unfolding dec_le scalar_of_lt compare_of_lt
lower_char c =
    dite (dec_le 65 (code c))
      (λ h.
        dite (dec_le (code c) 90)
          (λ g. char (code c + 32) (scalar_of_lt (code c + 32) (omega arith))) (λ _. c))
      (λ _. c)

upper_char : Char → Char
unfolding dec_le scalar_of_lt compare_of_lt
upper_char c =
    dite (dec_le 97 (code c))
      (λ h.
        dite (dec_le (code c) 122)
          (λ g. char (code c - 32) (scalar_of_lt (code c - 32) (omega arith))) (λ _. c))
      (λ _. c)

unfoldable pub to_lower : String → String
unfolding lower_char
to_lower [] = []
to_lower (c ∷ s) = lower_char c ∷ to_lower s

unfoldable pub to_upper : String → String
unfolding upper_char
to_upper [] = []
to_upper (c ∷ s) = upper_char c ∷ to_upper s

-- `strings.EqualFold`, on ASCII letters.
unfoldable pub equal_fold : String → String → Bool
unfolding to_lower
equal_fold a b = to_lower a == to_lower b

-- `strings.TrimPrefix`.
unfoldable pub trim_prefix : String → String → String
trim_prefix s p = if starts_with s p then slice s (len p) (len s) else s

-- `fmt.Sprintf` of a format with %s alone: its pieces and arguments in order.
unfoldable pub concat : List.List String → String
concat List.[] = ""
concat (List.◌∷◌ s l) = s ++ concat l

to_lower_runs : to_lower "Base-A" ≡ "base-a"
unfolding to_lower
to_lower_runs = refl

trim_prefix_runs : trim_prefix "NORMAL - SENSOR" "NORMAL - " ≡ "SENSOR"
unfolding trim_prefix
trim_prefix_runs = refl

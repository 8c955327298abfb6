-- ===== src/Common/Split.antt =====
-- `strings.Split` at one character, `strings.SplitN` in two, `strings.TrimSpace`, and the joining that
-- they undo. A separator and a kind of character are Boolean tests.
use Prim.Native.Nat.{ℕ}
use Prim.Native.Char.{Char, code}
use Prim.Native.String.append
use Prim.Native.String.{String, [], ◌∷◌, ◌++◌}
use mathlib.Core.Path.{◌≡◌, refl}
use mathlib.Core.Logic.{◌≢◌, inl, inr}
use mathlib.Core.Bool.{Bool, true, false, ◌&&◌, ◌||◌}
use mathlib.Core.Option.{Option, none, some}
use mathlib.Core.List.{List}
use native.Mathlib.Omega.{arith}
use text.Mathlib.Text.{◌==◌}
use mi_desbloqueio_do_estrei.Common.Tests.{if◌then◌else◌, leb, nat_eq, Bool-cases}
use mi_desbloqueio_do_estrei.Common.Lists.{All}

abbrev pub is_char : ℕ → Char → Bool
is_char k c = nat_eq (code c) k

abbrev pub is_comma : Char → Bool
is_comma = is_char b','

abbrev pub is_equals : Char → Bool
is_equals = is_char b'='

-- `unicode.IsSpace`.
unfoldable pub is_space : Char → Bool
is_space c =
    (leb 9 (code c) && leb (code c) 13)
    || is_char 32 c
    || is_char 133 c
    || is_char 160 c
    || is_char 5760 c
    || (leb 8192 (code c) && leb (code c) 8202)
    || is_char 8232 c
    || is_char 8233 c
    || is_char 8239 c
    || is_char 8287 c
    || is_char 12288 c

-- No character passes.
abbrev pub Lacks : (Char → Bool) → String → Type 0
Lacks p [] = Unit
Lacks p (c ∷ s) = (p c ≡ false) × Lacks p s

-- A character before the first part.
unfoldable pub before_first : Char → List String → List String
before_first c List.[] = List.◌∷◌ (c ∷ []) List.[]
before_first c (List.◌∷◌ p ps) = List.◌∷◌ (c ∷ p) ps

-- `strings.Split(s, sep)`
unfoldable pub split : (Char → Bool) → String → List String
unfolding before_first
split sep [] = List.◌∷◌ [] List.[]
split sep (c ∷ s) =
    let rest = split sep s in if sep c then List.◌∷◌ [] rest else before_first c rest

-- The text up to the separator and the text after it: `strings.SplitN(s, sep, 2)` where it has two
-- parts.
unfoldable pub split_two : (Char → Bool) → String → Option (String × String)
split_two sep [] = none
split_two sep (c ∷ s) =
    let rest : Option (String × String) = elim (split_two sep s) [
      | none ↦ none
      | some (a, b) ↦ some (c ∷ a, b)
    ] in
    if sep c then some ([], s) else rest

unfoldable pub trim_left : (Char → Bool) → String → String
trim_left p [] = []
trim_left p (c ∷ s) = let rest = trim_left p s in if p c then rest else c ∷ s

unfoldable pub trim_right : (Char → Bool) → String → String
trim_right p [] = []
trim_right p (c ∷ s) = let rest = trim_right p s in if p c && rest == [] then [] else c ∷ rest

-- `strings.TrimSpace(s)`
unfoldable pub trim_space : String → String
unfolding is_space trim_left trim_right
trim_space s = trim_right is_space (trim_left is_space s)

-- `strings.Join(parts, c)`
unfoldable pub join : Char → List String → String
join c List.[] = []
join c (List.◌∷◌ p List.[]) = p
join c (List.◌∷◌ p (List.◌∷◌ q ps)) = p ++ (c ∷ join c (List.◌∷◌ q ps))

before_first-ne-nil : (c : Char) (ps : List String) → before_first c ps ≢ List.[]
unfolding before_first
before_first-ne-nil c List.[] e = absurd (cc)
before_first-ne-nil c (List.◌∷◌ p ps) e = absurd (cc)

-- The part before a separator comes first.
pub split-append :
    (sep : Char → Bool) (p : String) (c : Char) (rest : String)
    → Lacks sep p
    → sep c ≡ true
    → split sep (p ++ (c ∷ rest)) ≡ List.◌∷◌ p (split sep rest)
unfolding split
split-append sep [] c rest l h = rw (append.nil, split, h) refl
split-append sep (d ∷ p) c rest l h =
    rw (append.cons, split, l.0, split-append sep p c rest l.1 h, before_first) refl

pub split-ne-nil : (sep : Char → Bool) (s : String) → split sep s ≢ List.[]
unfolding split
split-ne-nil sep [] e = absurd (cc)
split-ne-nil sep (c ∷ s) e = elim (Bool-cases (sep c)) [
  | inl h ↦ let e' : List.◌∷◌ [] (split sep s) ≡ List.[] = rw h at e in absurd (ground (arith, e'))
  | inr h ↦ absurd (before_first-ne-nil c (split sep s) (rw h at e))
]

split_whole : (sep : Char → Bool) (p : String) → Lacks sep p → split sep p ≡ List.◌∷◌ p List.[]
unfolding split
split_whole sep [] l = refl
split_whole sep (c ∷ p) l = rw (l.0, split_whole sep p l.1, before_first) refl

-- Splitting a join gives the parts back, if there is one and none holds a separator.
pub split-join :
    (sep : Char → Bool) (c : Char) (ps : List String)
    → sep c ≡ true
    → ps ≢ List.[]
    → All (Lacks sep) ps
    → split sep (join c ps) ≡ ps
unfolding join
split-join sep c List.[] h ne l = absurd (ne refl)
split-join sep c (List.◌∷◌ p List.[]) h ne l = split_whole sep p l.0
split-join sep c (List.◌∷◌ p (List.◌∷◌ q ps)) h ne l =
    rw
      (
        split-append sep p c (join c (List.◌∷◌ q ps)) l.0 h,
        split-join sep c (List.◌∷◌ q ps) h (λ e. absurd (ground (arith, e))) l.1,
      )
      refl

pub split_two-append :
    (sep : Char → Bool) (a : String) (c : Char) (b : String)
    → Lacks sep a
    → sep c ≡ true
    → split_two sep (a ++ (c ∷ b)) ≡ some (a, b)
unfolding split_two
split_two-append sep [] c b l h = rw (append.nil, split_two, h) refl
split_two-append sep (d ∷ a) c b l h =
    rw (append.cons, split_two, l.0, split_two-append sep a c b l.1 h) refl

trim_left_none : (p : Char → Bool) (s : String) → Lacks p s → trim_left p s ≡ s
unfolding trim_left
trim_left_none p [] l = refl
trim_left_none p (c ∷ s) l = rw l.0 refl

trim_right_none : (p : Char → Bool) (s : String) → Lacks p s → trim_right p s ≡ s
unfolding trim_right
trim_right_none p [] l = refl
trim_right_none p (c ∷ s) l = rw (l.0, trim_right_none p s l.1) refl

-- A text without spaces is left as it is.
pub trim_space_none : (s : String) → Lacks is_space s → trim_space s ≡ s
unfolding trim_space
trim_space_none s l = rw (trim_left_none is_space s l) (trim_right_none is_space s l)

pub Lacks-append : (p : Char → Bool) (a b : String) → Lacks p a → Lacks p b → Lacks p (a ++ b)
Lacks-append p [] b l m = rw append.nil m
Lacks-append p (c ∷ a) b l m = rw append.cons (l.0, Lacks-append p a b l.1 m)

split_runs : split is_comma "a,,b" ≡ List.◌∷◌ "a" (List.◌∷◌ "" (List.◌∷◌ "b" List.[]))
unfolding split
split_runs = refl

trim_space_runs : trim_space " a b " ≡ "a b"
unfolding trim_space
trim_space_runs = refl

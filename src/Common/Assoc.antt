-- ===== src/Common/Assoc.antt =====
-- A Go map with string keys, as an association list. Go ranges over a map in any order; the order of
-- the list stands for one of them.
use Prim.Native.Nat.{max}
use mi_desbloqueio_do_estrei.Common.{
  ℕ, ◌≤◌, ◌≡◌, refl, String, Bool, Option, none, some, List, [], ◌∷◌, count, arith, if◌then◌else◌,
  ◌==◌, eq_iff,
}

abbrev pub Assoc {ℓ} : Type ℓ → Type ℓ
Assoc V = List (String × V)

module _ {ℓ} {V : Type ℓ} where
  -- `v, ok := m[k]`
  unfoldable pub lookup : String → Assoc V → Option V
  lookup key [] = none
  lookup key ((name, held) ∷ dict) = if name == key then some held else lookup key dict

  -- `m[k] = v`
  unfoldable pub insert : String → V → Assoc V → Assoc V
  insert key held [] = (key, held) ∷ []
  insert key held ((name, old) ∷ dict) =
      if name == key then (key, held) ∷ dict else (name, old) ∷ insert key held dict

  -- `delete(m, k)`
  unfoldable pub delete : String → Assoc V → Assoc V
  delete key [] = []
  delete key ((name, held) ∷ dict) =
      let rest = delete key dict in if name == key then rest else (name, held) ∷ rest

  -- `if v, ok := m[k]; ok { *v = f(*v) }`
  unfoldable pub modify : String → (V → V) → Assoc V → Assoc V
  modify key f [] = []
  modify key f ((name, held) ∷ dict) =
      if name == key then (name, f held) ∷ dict else (name, held) ∷ modify key f dict

  -- The values, in the order of the list.
  unfoldable pub values : Assoc V → List V
  values [] = []
  values ((name, held) ∷ dict) = held ∷ values dict

  -- `for k, v := range m { if p(v) { delete(m, k) } }`
  unfoldable pub delete_if : (V → Bool) → Assoc V → Assoc V
  delete_if p [] = []
  delete_if p ((name, held) ∷ dict) =
      let rest = delete_if p dict in if p held then rest else (name, held) ∷ rest

  abbrev pub map_option : (V → V) → Option V → Option V
  map_option f none = none
  map_option f (some held) = some (f held)

  pub lookup-insert :
      (key name : String) (held : V) (dict : Assoc V)
      → lookup name (insert key held dict) ≡ (if key == name then some held else lookup name dict)
  unfolding lookup insert
  lookup-insert key name held [] = ground arith
  lookup-insert key name held ((at, old) ∷ dict) =
      ground
        (arith, lookup-insert key name held dict, eq_iff at key, eq_iff at name, eq_iff key name)

  pub lookup-delete :
      (key name : String) (dict : Assoc V)
      → lookup name (delete key dict) ≡ (if key == name then none else lookup name dict)
  unfolding lookup delete
  lookup-delete key name [] = ground arith
  lookup-delete key name ((at, old) ∷ dict) =
      ground (arith, eq_iff key name, eq_iff at key, eq_iff at name, lookup-delete key name dict)

  pub lookup-modify :
      (key name : String) (f : V → V) (dict : Assoc V)
      → lookup name (modify key f dict)
        ≡ (if key == name then map_option f (lookup name dict) else lookup name dict)
  unfolding lookup modify
  lookup-modify key name f [] = ground arith
  lookup-modify key name f ((at, old) ∷ dict) =
      ground (arith, eq_iff key name, eq_iff at key, eq_iff at name, lookup-modify key name f dict)

  -- How many entries a key has.
  abbrev pub entries : String → Assoc V → ℕ
  entries key = count (λ e. e.0 == key)

  entries-insert_lem :
      (key name : String) (held : V) (dict : Assoc V)
      → entries name (insert key held dict)
        ≡ (if key == name then max 1 (entries name dict) else entries name dict)
  unfolding insert
  entries-insert_lem key name held [] = ground arith
  entries-insert_lem key name held ((at, old) ∷ dict) =
      ground (
        arith,
        eq_iff key name,
        eq_iff at key,
        eq_iff at name,
        entries-insert_lem key name held dict,
      )

  pub entries-insert :
      (key name : String) (held : V) (dict : Assoc V)
      → entries name dict ≤ 1
      → entries name (insert key held dict) ≤ 1
  entries-insert key name held dict h = ground (arith, entries-insert_lem key name held dict)

  pub entries-modify :
      (key name : String) (f : V → V) (dict : Assoc V)
      → entries name (modify key f dict) ≡ entries name dict
  unfolding modify
  entries-modify key name f [] = refl
  entries-modify key name f ((at, old) ∷ dict) = ground (arith, entries-modify key name f dict)

  pub entries-delete :
      (key name : String) (dict : Assoc V) → entries name (delete key dict) ≤ entries name dict
  unfolding delete
  entries-delete key name [] = omega arith
  entries-delete key name ((at, old) ∷ dict) = ground (arith, entries-delete key name dict)

  pub entries-delete_if :
      (p : V → Bool) (name : String) (dict : Assoc V)
      → entries name (delete_if p dict) ≤ entries name dict
  unfolding delete_if
  entries-delete_if p name [] = omega arith
  entries-delete_if p name ((at, old) ∷ dict) = ground (arith, entries-delete_if p name dict)

  lookup-eq-none :
      (name : String) (dict : Assoc V) → entries name dict ≡ 0 → lookup name dict ≡ none
  unfolding lookup
  lookup-eq-none name [] h = refl
  lookup-eq-none name ((at, old) ∷ dict) h = ground (arith, lookup-eq-none name dict)

  abbrev pub drop_option : (V → Bool) → Option V → Option V
  drop_option p none = none
  drop_option p (some held) = if p held then none else some held

  -- Where keys are distinct, an entry is found after the loop just if its value is not dropped.
  pub lookup-delete_if :
      (p : V → Bool) (name : String) (dict : Assoc V)
      → entries name dict ≤ 1
      → lookup name (delete_if p dict) ≡ drop_option p (lookup name dict)
  unfolding lookup delete_if
  lookup-delete_if p name [] h = refl
  lookup-delete_if p name ((at, old) ∷ dict) h = ground (
    arith,
    lookup-delete_if p name dict,
    lookup-eq-none name (delete_if p dict),
    entries-delete_if p name dict,
  )

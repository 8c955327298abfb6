-- ===== src/Common/Keyed.antt =====
-- Maps that hold each value under its own key, as the program's maps of drones and of bases do.
use mi_desbloqueio_do_estrei.Common.{
  ap, sym, ◌∙◌, eq_iff, ◌≤◌, ◌≡◌, refl, String, Bool, Option, none, some, List, [], ◌∷◌, arith,
  if◌then◌else◌, ◌==◌, Bool-cases, inl, inr,
}
use mi_desbloqueio_do_estrei.Common.Assoc.{
  Assoc, lookup, insert, delete, modify, values, delete_if, entries, entries-insert, entries-modify,
  entries-delete, entries-delete_if,
}

module _ {ℓ} {V : Type ℓ} (id : V → String) where
  abbrev pub Owns : Assoc V → Type 0
  Owns [] = Unit
  Owns ((key, v) ∷ m) = (id v ≡ key) × Owns m

  -- Keys are distinct, and each is the key of its value.
  pub record IsKeyed (m : Assoc V) : Type 0 where
    pub distinct : (key : String) → entries key m ≤ 1
    pub own : Owns m

  pub IsKeyed-nil : IsKeyed []
  IsKeyed-nil = record { distinct = λ key. omega arith; own = tt }

  Owns-insert : (v : V) (m : Assoc V) → Owns m → Owns (insert (id v) v m)
  unfolding insert
  Owns-insert v [] o = (refl, tt)
  Owns-insert v ((key, w) ∷ m) o = elim (Bool-cases (key == id v)) [
    | inl e ↦ rw e (refl, o.1)
    | inr e ↦ rw e (o.0, Owns-insert v m o.1)
  ]

  pub Owns-lookup :
      (key : String) (m : Assoc V) (v : V) → Owns m → lookup key m ≡ some v → id v ≡ key
  unfolding lookup
  Owns-lookup key [] v o h = absurd (ground (arith, h))
  Owns-lookup key ((at, w) ∷ m) v o h = elim (Bool-cases (at == key)) [
    | inl e ↦
        let same : w ≡ v = ground (arith, h, e) in ap id (sym same) ∙ o.0 ∙ (eq_iff at key).0 e
    | inr e ↦ Owns-lookup key m v o.1 (ground (arith, h, e))
  ]

  pub IsKeyed-insert : (v : V) (m : Assoc V) → IsKeyed m → IsKeyed (insert (id v) v m)
  IsKeyed-insert v m k = record {
    distinct = λ key. entries-insert (id v) key v m (k.distinct key);
    own = Owns-insert v m k.own;
  }

  Owns-modify :
      (at : String) (f : V → V) (m : Assoc V)
      → ((v : V) → id (f v) ≡ id v)
      → Owns m
      → Owns (modify at f m)
  unfolding modify
  Owns-modify at f [] h o = tt
  Owns-modify at f ((key, w) ∷ m) h o = elim (Bool-cases (key == at)) [
    | inl e ↦ rw (e, h w) o
    | inr e ↦ rw e (o.0, Owns-modify at f m h o.1)
  ]

  pub IsKeyed-modify :
      (at : String) (f : V → V) (m : Assoc V)
      → ((v : V) → id (f v) ≡ id v)
      → IsKeyed m
      → IsKeyed (modify at f m)
  IsKeyed-modify at f m h k = record {
    distinct = λ key. omega (arith, entries-modify at key f m, k.distinct key);
    own = Owns-modify at f m h k.own;
  }

  Owns-delete : (at : String) (m : Assoc V) → Owns m → Owns (delete at m)
  unfolding delete
  Owns-delete at [] o = tt
  Owns-delete at ((key, w) ∷ m) o = elim (Bool-cases (key == at)) [
    | inl e ↦ rw e (Owns-delete at m o.1)
    | inr e ↦ rw e (o.0, Owns-delete at m o.1)
  ]

  pub IsKeyed-delete : (at : String) (m : Assoc V) → IsKeyed m → IsKeyed (delete at m)
  IsKeyed-delete at m k = record {
    distinct = λ key. omega (arith, entries-delete at key m, k.distinct key);
    own = Owns-delete at m k.own;
  }

  Owns-delete_if : (p : V → Bool) (m : Assoc V) → Owns m → Owns (delete_if p m)
  unfolding delete_if
  Owns-delete_if p [] o = tt
  Owns-delete_if p ((key, w) ∷ m) o = elim (Bool-cases (p w)) [
    | inl e ↦ rw e (Owns-delete_if p m o.1)
    | inr e ↦ rw e (o.0, Owns-delete_if p m o.1)
  ]

  pub IsKeyed-delete_if : (p : V → Bool) (m : Assoc V) → IsKeyed m → IsKeyed (delete_if p m)
  IsKeyed-delete_if p m k = record {
    distinct = λ key. omega (arith, entries-delete_if p key m, k.distinct key);
    own = Owns-delete_if p m k.own;
  }

  pub IsKeyed-tail : (e : String × V) (m : Assoc V) → IsKeyed (e ∷ m) → IsKeyed m
  IsKeyed-tail e m k = record { distinct = λ key. ground (arith, k.distinct key); own = k.own.1 }

  -- What a loop over the values does to the entry of one key, if a round changes only the entry of its
  -- own value.
  abbrev pub visits {κ} : {B : Type κ} → (V → B → B) → String → List V → B → B
  visits f key [] b = b
  visits f key (v ∷ vs) b = visits f key vs (if id v == key then f v b else b)

  abbrev pub on_found {κ} : {B : Type κ} → (V → B → B) → Option V → B → B
  on_found f none b = b
  on_found f (some v) b = f v b

  visits-cons {κ} :
      {B : Type κ} (f : V → B → B) (key at : String) (v : V) (m : Assoc V) (b : B)
      → visits f key (values ((at, v) ∷ m)) b
        ≡ visits f key (values m) (if id v == key then f v b else b)
  unfolding values
  visits-cons f key at v m b = refl

  visits_absent {κ} :
      {B : Type κ} (f : V → B → B) (key : String) (m : Assoc V) (b : B)
      → Owns m
      → entries key m ≡ 0
      → visits f key (values m) b ≡ b
  unfolding values
  visits_absent f key [] b o h = refl
  visits_absent f key ((at, v) ∷ m) b o h = elim (Bool-cases (at == key)) [
    | inl e ↦ absurd (ground arith)
    | inr e ↦ rw (visits-cons, o.0, e) (visits_absent f key m b o.1 (ground arith))
  ]

  pub visits-values {κ} :
      {B : Type κ} (f : V → B → B) (key : String) (m : Assoc V) (b : B)
      → IsKeyed m
      → visits f key (values m) b ≡ on_found f (lookup key m) b
  unfolding values lookup
  visits-values f key [] b k = refl
  visits-values f key ((at, v) ∷ m) b k = elim (Bool-cases (at == key)) [
    | inl e ↦
        rw (visits-cons, k.own.0, e)
          (visits_absent f key m (f v b) k.own.1 (ground (arith, k.distinct key)))
    | inr e ↦ rw (visits-cons, k.own.0, e) (visits-values f key m b (IsKeyed-tail (at, v) m k))
  ]

-- ===== src/RequestHeap/Less.antt =====
-- Less of internal/queue/queue.go is a strict total order on priority, timestamp and ID.
use mi_desbloqueio_do_estrei.Common.{
  ◌≡◌, refl, ◌∙◌, Bool, true, false, not, inl, inr, Bool-cases, arith, if◌then◌else◌,
  ltb_string_irrefl, ltb_string_trans, ltb_string_total,
}
use mi_desbloqueio_do_estrei.Common.Int.{ℤ, eqb_ℤ, ltb_ℤ, eqb_ℤ_refl}
use mi_desbloqueio_do_estrei.Models.{Request}
use mi_desbloqueio_do_estrei.RequestHeap.{less}

pub less_irrefl : (a : Request) → less a a ≡ false
unfolding less
less_irrefl a =
    ground (arith, eqb_ℤ_refl a.priority, eqb_ℤ_refl a.lamport_ts, ltb_string_irrefl a.id)

-- One level of the comparison: by a key, and by the rest where the keys are equal.
lex_trans :
    (a b c : ℤ) (p q r : Bool)
    → (p ≡ true → q ≡ true → r ≡ true)
    → (if not (eqb_ℤ a b) then ltb_ℤ a b else p) ≡ true
    → (if not (eqb_ℤ b c) then ltb_ℤ b c else q) ≡ true
    → (if not (eqb_ℤ a c) then ltb_ℤ a c else r) ≡ true
lex_trans a b c p q r h g f = ground arith

lex_total :
    (a b : ℤ) (p q : Bool)
    → (if not (eqb_ℤ a b) then ltb_ℤ a b else p) ≡ false
    → (if not (eqb_ℤ b a) then ltb_ℤ b a else q) ≡ false
    → (a ≡ b) × (p ≡ false) × (q ≡ false)
lex_total a b p q h g = ground arith

pub less_trans : (a b c : Request) → less a b ≡ true → less b c ≡ true → less a c ≡ true
unfolding less
less_trans a b c =
    lex_trans a.priority b.priority c.priority _ _ _
      (lex_trans a.lamport_ts b.lamport_ts c.lamport_ts _ _ _ (ltb_string_trans a.id b.id c.id))

-- Requests that neither precedes the other agree on the three keys.
pub less_total :
    (a b : Request)
    → less a b ≡ false
    → less b a ≡ false
    → (a.priority ≡ b.priority) × (a.lamport_ts ≡ b.lamport_ts) × (a.id ≡ b.id)
unfolding less
less_total a b h g =
    let outer = lex_total a.priority b.priority _ _ h g in
    let inner = lex_total a.lamport_ts b.lamport_ts _ _ outer.1 outer.2 in
    (outer.0, inner.0, ltb_string_total a.id b.id inner.1 inner.2)

pub less_asymm : (a b : Request) → less a b ≡ true → less b a ≡ false
less_asymm a b h = elim (Bool-cases (less b a)) [
  | inl e ↦ ground (arith, less_trans a b a h e, less_irrefl a)
  | inr e ↦ e
]

-- Two requests with the same priority, timestamp and ID.
abbrev pub SameKeys : Request → Request → Type 0
SameKeys a b = (a.priority ≡ b.priority) × (a.lamport_ts ≡ b.lamport_ts) × (a.id ≡ b.id)

-- Less sees the three keys and nothing else.
pub less_congr : (a b c d : Request) → SameKeys a b → SameKeys c d → less a c ≡ less b d
unfolding less
less_congr a b c d (p, t, i) (p', t', i') = rw (p, t, i, p', t', i')

-- Not to precede is transitive too: the order is total.
pub not-less_trans : (a b c : Request) → less b a ≡ false → less c b ≡ false → less c a ≡ false
not-less_trans a b c h g = elim (Bool-cases (less a b)) [
  | inl e ↦ elim (Bool-cases (less c a)) [
    | inl f ↦ ground (arith, less_trans c a b f e)
    | inr f ↦ f
  ]
  | inr e ↦ less_congr c c a b (refl, refl, refl) (less_total a b e h) ∙ g
]

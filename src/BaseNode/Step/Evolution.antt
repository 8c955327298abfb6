-- ===== src/BaseNode/Step/Evolution.antt =====
-- What the handlers of cmd/base do to the queue: they change it through its methods alone, and only
-- QUEUE_CLEAR empties it.
use mi_desbloqueio_do_estrei.Common.{
  ◌≡◌, refl, ap, ◌∙◌, Bool, true, false, ◌||◌, Option, none, some, List, [], ◌∷◌, ◌++◌, any,
  if◌then◌else◌, arith,
}
use mi_desbloqueio_do_estrei.Queue.{PriorityQueue}
use mi_desbloqueio_do_estrei.Queue.Op.{Op, apply, run, is_clear}
use mi_desbloqueio_do_estrei.BaseNode.{Node}

-- The queue becomes another by a run of methods, none of them ClearAll.
pub record Evolves (q q' : PriorityQueue) : Type 0 where
  pub ops : List Op
  pub ran : run q ops ≡ q'
  pub no_clear : any is_clear ops ≡ false

run-append : (q : PriorityQueue) (xs ys : List Op) → run q (xs ++ ys) ≡ run (run q xs) ys
unfolding run
run-append q [] ys = refl
run-append q (x ∷ xs) ys = run-append (apply q x) xs ys

any-append : (xs ys : List Op) → any is_clear (xs ++ ys) ≡ (any is_clear xs || any is_clear ys)
any-append [] ys = refl
any-append (x ∷ xs) ys = ground (arith, any-append xs ys)

pub Evolves-refl : {q : PriorityQueue} → Evolves q q
unfolding run
Evolves-refl = record { ops = []; ran = refl; no_clear = refl }

pub Evolves-trans : {a b c : PriorityQueue} → Evolves a b → Evolves b c → Evolves a c
Evolves-trans {a} {b} {c} e f = record {
  ops = e.ops ++ f.ops;
  ran = run-append a e.ops f.ops ∙ ap (λ q. run q f.ops) e.ran ∙ f.ran;
  no_clear = ground (arith, any-append e.ops f.ops, e.no_clear, f.no_clear);
}

pub Evolves-apply : (q : PriorityQueue) (op : Op) → is_clear op ≡ false → Evolves q (apply q op)
unfolding run
Evolves-apply q op h = record { ops = op ∷ []; ran = refl; no_clear = ground arith }

-- The queue of one node evolves to that of another.
pub record Keeps (n n' : Node) : Type 0 where
  pub evolves : Evolves n.pq n'.pq

pub Keeps-same : {n n' : Node} → n.pq ≡ n'.pq → Keeps n n'
unfolding run
Keeps-same h = record { evolves = record { ops = []; ran = h; no_clear = refl } }

pub Keeps-trans : {a b c : Node} → Keeps a b → Keeps b c → Keeps a c
Keeps-trans e f = record { evolves = Evolves-trans e.evolves f.evolves }

pub Keeps-if : {n a b : Node} (c : Bool) → Keeps n a → Keeps n b → Keeps n (if c then a else b)
Keeps-if true h g = h
Keeps-if false h g = g

-- A handler that does nothing when a value is missing.
pub Keeps-some :
    {A : Type 0} {n : Node} {f : A → Node} (o : Option A)
    → ((a : A) → Keeps n (f a))
    → Keeps n (elim o [ none ↦ n | some a ↦ f a ])
Keeps-some none h = Keeps-same refl
Keeps-some (some a) h = h a

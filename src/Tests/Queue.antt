-- ===== src/Tests/Queue.antt =====
-- The priority queue.
use mi_desbloqueio_do_estrei.Common.{
  ◌+◌, ◌≡◌, ◌⊎◌, refl, false, some, none, List, [], ◌∷◌, IsIn, find?, count, arith,
}
use mi_desbloqueio_do_estrei.Models.{Request}
use mi_desbloqueio_do_estrei.RequestHeap
use mi_desbloqueio_do_estrei.RequestHeap.Order.{IsHeap, NotBelow}
use mi_desbloqueio_do_estrei.Queue.{
  new, push, remove, beats, len, peek, pending_len, is_pending, get_all, sync_from,
  clear_drone_assignments, is_drone_assigned, assigned_to,
}
use mi_desbloqueio_do_estrei.Queue.Op.{Op, push_op, remove_op, sync_op, run, IsValid, run-IsValid}
use mi_desbloqueio_do_estrei.Queue.Peek.{IsFirst, peek_lem}
use mi_desbloqueio_do_estrei.Queue.First.{find?-get_all}
use mi_desbloqueio_do_estrei.Queue.Ordered.{run_first, run_ordered}
use mi_desbloqueio_do_estrei.Queue.Assignment.{FreeAt, clear_drone_assignments_lem}
use mi_desbloqueio_do_estrei.Tests.Samples.{urgent, ordinary, in_flight, sample}

peek-sample : peek sample ≡ some urgent
unfolding peek beats
peek-sample = refl

get_all-sample : get_all sample ≡ in_flight ∷ urgent ∷ ordinary ∷ []
unfolding get_all RequestHeap.less
get_all-sample = refl

-- The methods that make the sample.
abbrev history : List Op
history =
    push_op (record urgent { id = "r0" })
    ∷ remove_op "r0"
    ∷ push_op urgent
    ∷ push_op ordinary
    ∷ push_op in_flight
    ∷ []

pub sample-IsValid : IsValid sample
unfolding run new push remove RequestHeap.push RequestHeap.init RequestHeap.less
sample-IsValid = run-IsValid new history (record { unique = λ k. omega arith })

pub sample-IsHeap : IsHeap sample.heap
unfolding run new push remove RequestHeap.push RequestHeap.init RequestHeap.less
sample-IsHeap = run_ordered new history (λ c p l b. absurd (omega arith))

peek_lem_example :
    ((peek sample ≡ none) × (pending_len sample ≡ 0))
    ⊎ ((r : Request) × (peek sample ≡ some r) × IsIn r sample.heap × IsFirst sample.heap r)
peek_lem_example = peek_lem sample

find?-get_all_example : find? is_pending (get_all sample) ≡ peek sample
find?-get_all_example = find?-get_all sample sample-IsValid

abbrev late : List Request
late = ordinary ∷ record urgent { id = "r5" } ∷ []

abbrev ops : List Op
ops = push_op ordinary ∷ push_op urgent ∷ remove_op "r2" ∷ sync_op late ∷ []

run-ops : len (run new ops) ≡ 2
unfolding run len new sync_from remove push RequestHeap.push RequestHeap.init RequestHeap.less
run-ops = refl

run_first_example : IsHeap (run new ops).heap × NotBelow (run new ops).heap 1 0
unfolding run new sync_from remove push RequestHeap.push RequestHeap.init RequestHeap.less
run_first_example = run_first ops 1 (omega arith)

clear_drone_assignments_lem_example :
    (is_drone_assigned (clear_drone_assignments sample "d2") "d2" ≡ false)
    × (pending_len (clear_drone_assignments sample "d2")
        ≡ pending_len sample + count (assigned_to "d2") sample.heap)
clear_drone_assignments_lem_example = clear_drone_assignments_lem sample "d2"

pub r1-FreeAt : FreeAt "r1" sample.heap
r1-FreeAt = ground arith

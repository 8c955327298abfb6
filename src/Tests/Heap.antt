-- ===== src/Tests/Heap.antt =====
-- The heap of requests.
use mi_desbloqueio_do_estrei.Common.{◌≡◌, refl, List, [], ◌∷◌, SameItems}
use mi_desbloqueio_do_estrei.Models.{Request}
use mi_desbloqueio_do_estrei.RequestHeap.{init, push}
use mi_desbloqueio_do_estrei.RequestHeap.Order.{IsHeap}
use mi_desbloqueio_do_estrei.RequestHeap.Correct.{init_correct}
use mi_desbloqueio_do_estrei.Tests.Samples.{urgent, ordinary, in_flight}

abbrev unordered : List Request
unordered = ordinary ∷ in_flight ∷ urgent ∷ []

init-unordered : init unordered ≡ urgent ∷ in_flight ∷ ordinary ∷ []
unfolding init
init-unordered = refl

push-ordinary : push (in_flight ∷ ordinary ∷ []) urgent ≡ urgent ∷ ordinary ∷ in_flight ∷ []
unfolding push
push-ordinary = refl

init_correct_example : IsHeap (init unordered) × SameItems (init unordered) unordered
init_correct_example = init_correct unordered

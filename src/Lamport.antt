-- ===== src/Lamport.antt =====
-- internal/lamport/clock.go: the logical clock. The mutex makes each method one step, so a method is
-- a function from the clock to the clock and its result. The value is an `int64` and wraps.
pub mod Causal
use mi_desbloqueio_do_estrei.Common.{if◌then◌else◌}
use mi_desbloqueio_do_estrei.Common.Int.{ℤ, pos, ltb_ℤ, suc_ℤ, wrap_int64}

pub record Clock : Type 0 where
  pub value : ℤ

unfoldable pub new : Clock
new = record { value = pos 0 }

unfoldable pub tick : Clock → Clock × ℤ
tick c = let c' : Clock = record { value = wrap_int64 (suc_ℤ c.value) } in (c', c'.value)

unfoldable pub update : Clock → ℤ → Clock × ℤ
update c received =
    let c1 : Clock = if ltb_ℤ c.value received then record { value = received } else c in
    let c2 : Clock = record { value = wrap_int64 (suc_ℤ c1.value) } in (c2, c2.value)

unfoldable pub get : Clock → ℤ
get c = c.value

unfoldable pub set : Clock → ℤ → Clock
set c v = if ltb_ℤ c.value v then record { value = v } else c

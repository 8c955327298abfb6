-- ===== src/Tests/Clock.antt =====
-- The clock and the history of alerts.
use mi_desbloqueio_do_estrei.Common.{◌≡◌, refl, [], ◌∷◌, arith}
use mi_desbloqueio_do_estrei.Common.Int.{pos, ◌<ℤ◌, wrap_int64}
use mi_desbloqueio_do_estrei.Models.{Alert, alert_warn}
use mi_desbloqueio_do_estrei.Lamport.{Clock, tick, update, get}
use mi_desbloqueio_do_estrei.Lamport.Causal.{
  Event, acts, hears, next, then_on, Causes, message, same_node, follow, Causes-lt,
}
use mi_desbloqueio_do_estrei.Alerts
use mi_desbloqueio_do_estrei.Alerts.History.{last, add_all, add_all-new}

abbrev slow : Clock
slow = record { value = pos 4 }

update_runs : (update slow (pos 9)).1 ≡ pos 10
unfolding update wrap_int64
update_runs = refl

-- A message stamped 9 reaches a node at 4, which then does something of its own, and hears of 5.
received : Causes (pos 9) (pos 10)
unfolding get update wrap_int64
received = message slow (omega arith) (omega arith) (omega arith) (omega arith)

heard : Event slow (pos 10) (record { value = pos 10 })
unfolding get update wrap_int64
heard = hears slow (pos 9) (omega arith) (omega arith) (omega arith) (omega arith)

at_ten : Event (record { value = pos 10 }) (pos 11) (record { value = pos 11 })
unfolding get tick wrap_int64
at_ten = acts (record { value = pos 10 }) (omega arith) (omega arith)

at_eleven : Event (record { value = pos 11 }) (pos 12) (record { value = pos 12 })
unfolding get update wrap_int64
at_eleven =
    hears (record { value = pos 11 }) (pos 5) (omega arith) (omega arith) (omega arith)
      (omega arith)

Causes-lt_example : pos 9 <ℤ pos 12
Causes-lt_example = Causes-lt (follow received (same_node heard (then_on at_ten (next at_eleven))))

abbrev alert : Alert
alert = record { level = alert_warn; source = "base-A"; message = "m"; timestamp = 3 }

add_all-new_example :
    Alerts.get_all (add_all (Alerts.new "base-A") (alert ∷ alert ∷ []))
    ≡ last Alerts.max_alerts (alert ∷ alert ∷ [])
add_all-new_example = add_all-new "base-A" (alert ∷ alert ∷ [])

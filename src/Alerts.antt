-- ===== src/Alerts.antt =====
-- internal/alerts/alerts.go: the history of alerts. Each method that locks the mutex is one step. A
-- message comes formatted. A handler is known by a name, and emit returns the handlers that it starts.
-- printAlert, which writes to the terminal, is left out.
pub mod History
use mi_desbloqueio_do_estrei.Common.{
  ℕ, ◌-◌, String, List, [], ◌∷◌, ◌++◌, length, drop, leb, if◌then◌else◌,
}
use mi_desbloqueio_do_estrei.Models.{
  Alert, AlertLevel, alert_info, alert_warn, alert_critical, alert_ok,
}

abbrev pub max_alerts : ℕ
max_alerts = 100

pub record Manager : Type 0 where
  pub alerts : List Alert
  pub source : String
  pub handlers : List String

unfoldable pub new : String → Manager
new source = record { alerts = []; source = source; handlers = [] }

unfoldable pub on_alert : Manager → String → Manager
on_alert m handler = record m { handlers = m.handlers ++ handler ∷ [] }

-- The bounded append that emit and Add share.
unfoldable pub append_alert : List Alert → Alert → List Alert
append_alert alerts alert =
    if leb max_alerts (length alerts) then drop 1 alerts ++ alert ∷ [] else alerts ++ alert ∷ []

-- The manager, the alert, and the handlers to call with it.
unfoldable pub emit : ℕ → Manager → AlertLevel → String → Manager × Alert × List String
unfolding append_alert
emit now m level msg =
    let alert : Alert = record {
      level = level;
      source = m.source;
      message = msg;
      timestamp = now;
    } in
    (record m { alerts = append_alert m.alerts alert }, alert, m.handlers)

unfoldable pub info : ℕ → Manager → String → Manager
unfolding emit
info now m msg = (emit now m alert_info msg).0

unfoldable pub warn : ℕ → Manager → String → Manager
unfolding emit
warn now m msg = (emit now m alert_warn msg).0

unfoldable pub critical : ℕ → Manager → String → Manager
unfolding emit
critical now m msg = (emit now m alert_critical msg).0

unfoldable pub ok : ℕ → Manager → String → Manager
unfolding emit
ok now m msg = (emit now m alert_ok msg).0

unfoldable pub get_all : Manager → List Alert
get_all m = m.alerts

unfoldable pub get_last : Manager → ℕ → List Alert
get_last m n = if leb (length m.alerts) n then m.alerts else drop (length m.alerts - n) m.alerts

unfoldable pub add : Manager → Alert → Manager
unfolding append_alert
add m alert = record m { alerts = append_alert m.alerts alert }

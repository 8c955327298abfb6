-- ===== src/Tests/State.antt =====
-- The drones, the bases and the locks that a base knows.

use mi_desbloqueio_do_estrei.Models.{Drone}
use mi_desbloqueio_do_estrei.Tests.Samples.{idle_one}

abbrev newer : Drone
newer = record idle_one { last_seen = 300 }

abbrev older : Drone
older = record idle_one { last_seen = 200 }

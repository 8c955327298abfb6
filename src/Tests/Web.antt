-- ===== src/Tests/Web.antt =====
-- The web dashboard on the payloads of two sectors.
use mi_desbloqueio_do_estrei.Common.{◌≡◌, ◌≤◌, refl, true, false, some, List, [], ◌∷◌, inl}
use mi_desbloqueio_do_estrei.Common.Assoc.{lookup, map_option, values}
use mi_desbloqueio_do_estrei.Common.Keyed.{IsKeyed}
use mi_desbloqueio_do_estrei.Models.{Drone, StatusUpdatePayload}
use mi_desbloqueio_do_estrei.State.WellFormed.{drone_key}
use mi_desbloqueio_do_estrei.WebDash.{
  SectorState, Event, received, lost, asked, steps, new_aggregator, global_drones, global_snapshot,
}
use mi_desbloqueio_do_estrei.WebDash.Latest.{IsReported, global_drones_lem}
use mi_desbloqueio_do_estrei.WebDash.Picture.{pictured, ideals, global_snapshot-ideal}
use mi_desbloqueio_do_estrei.Tests.Samples.{urgent, idle_one, busy_one, other_base}

abbrev seen_later : Drone
seen_later = record busy_one { id = "d1"; last_seen = 500 }

abbrev sector_a : StatusUpdatePayload
sector_a = record {
  sector_id = "A";
  bases = other_base ∷ [];
  drones = idle_one ∷ [];
  queue = urgent ∷ [];
  alerts = [];
  active_sensors = [];
  active_brokers = [];
}

abbrev sector_b : StatusUpdatePayload
sector_b = record sector_a { sector_id = "b"; drones = busy_one ∷ seen_later ∷ [] }

abbrev both : List SectorState
both =
    record { payload = sector_a; updated_at = 3; online = true }
    ∷ record { payload = sector_b; updated_at = 5; online = false }
    ∷ []

reported : IsReported both idle_one
reported = record {
  sector = record { payload = sector_a; updated_at = 3; online = true };
  known = inl refl;
  listed = inl refl;
}

global_drones_lem_example :
    (news : Drone) × (lookup "d1" (global_drones [] both) ≡ some news)
    × IsReported both news
    × (news.id ≡ "d1")
    × (100 ≤ news.last_seen)
    × IsKeyed drone_key (global_drones [] both)
global_drones_lem_example = global_drones_lem both idle_one reported

abbrev day : List Event
day =
    received 3 "A" sector_a
    ∷ received 5 "B" sector_b
    ∷ asked 6
    ∷ lost "b"
    ∷ asked 8
    ∷ received 9 "A" (record sector_a { sector_id = "" })
    ∷ []

global_snapshot-ideal_example :
    let start = new_aggregator ("A" ∷ "B" ∷ []) [] in
    let (picture, after) = global_snapshot 10 (steps start day) in
    (lookup "B" after ≡ map_option pictured (ideals "B" (lookup "B" start) day))
    × (picture.sectors ≡ values after)
global_snapshot-ideal_example =
    global_snapshot-ideal (new_aggregator ("A" ∷ "B" ∷ []) []) "B" day 10

-- ===== src/DroneNode/Turns.antt =====
-- handleDispatch and reportMissionDone of cmd/drone/main.go: the turns that a mission takes.
use mi_desbloqueio_do_estrei.Common.{
  ℕ, zero, suc, ◌+◌, ◌≤◌, ◌≡◌, refl, Bool, true, false, Option, none, some, List, [], ◌∷◌, ◌++◌,
  count, get_elem?, count-append, if◌then◌else◌, arith, inl, inr, ◌⊎◌, Bool-cases, ◌==◌, String,
  concat,
}
use mi_desbloqueio_do_estrei.Models.{Message}
use mi_desbloqueio_do_estrei.Alerts
use mi_desbloqueio_do_estrei.DroneNode
use mi_desbloqueio_do_estrei.DroneNode.{
  Config, Library, Network, Node, Task, dispatched, going, returning, reporting, reassigned, Event,
  command, watch_tick, heartbeat_tick, task_runs, without, go, send, stamped, travel_time,
  register_message, registered, register_with_base, try_each, try_fallback_bases,
  send_status_update, handle_base_command, begin_mission, turn_back, mission_over, report_elsewhere,
  answered, report, report_mission_done, handle_reassign, watch_failed, watch, heartbeats,
  send_heartbeat, run_task, run_started, step, steps,
}
use mi_desbloqueio_do_estrei.DroneNode.Quiet.{
  Same, Same-refl, Same-trans, Same-register, Same-fallback, Same-status,
}

-- How many steps a goroutine has before it ends the mission, 0 if it has no mission.
abbrev pub turns_left : Task → ℕ
turns_left (dispatched msg) = 6
turns_left (going t dp) = 5
turns_left (returning id) = 4
turns_left (reporting tries msg) = suc tries
turns_left (reassigned msg) = 0

abbrev pub on_mission : Task → Bool
on_mission (reassigned msg) = false
on_mission _ = true

abbrev pub missions : List Task → ℕ
missions = count on_mission

abbrev pub work : List Task → ℕ
work [] = 0
work (t ∷ ts) = turns_left t + work ts

pub work-append : (xs ys : List Task) → work (xs ++ ys) ≡ work xs + work ys
work-append [] ys = omega arith
work-append (x ∷ xs) ys = omega (arith, work-append xs ys)

pub missions-without :
    (i : ℕ) (ts : List Task) (t : Task)
    → get_elem? ts i ≡ some t
    → (missions ts ≡ missions (without i ts) + (if on_mission t then 1 else 0))
      × (work ts ≡ work (without i ts) + turns_left t)
missions-without i [] t h = absurd (ground arith)
missions-without zero (x ∷ ts) t h = (ground (arith, h), ground (arith, h))
missions-without (suc i) (x ∷ ts) t h =
    let (a, b) = missions-without i ts t h in (omega (arith, a), omega (arith, b))

pub no_work : (ts : List Task) → missions ts ≡ 0 → work ts ≡ 0
no_work [] h = refl
no_work (reassigned msg ∷ ts) h = omega (arith, no_work ts (omega arith))
no_work (dispatched msg ∷ ts) h = absurd (omega arith)
no_work (going t dp ∷ ts) h = absurd (omega arith)
no_work (returning id ∷ ts) h = absurd (omega arith)
no_work (reporting tries msg ∷ ts) h = absurd (omega arith)

-- A step of the goroutine of a mission with `k` turns left, after which it has fewer, or the mission is
-- over.
abbrev pub GoesOn : ℕ → Node → Node → Type 0
GoesOn k n n' =
    (n'.busy ≡ n.busy)
    × (missions n'.started ≡ missions n.started + 1)
    × (work n'.started + 1 ≤ work n.started + k)

abbrev pub IsOver : Node → Node → Type 0
IsOver n n' = (n'.busy ≡ false) × (n'.started ≡ n.started)

goes_on :
    (k : ℕ) (n m : Node) (t : Task)
    → Same n m
    → on_mission t ≡ true
    → turns_left t + 1 ≤ k
    → GoesOn k n (go m t)
unfolding go
goes_on k n m t s o h =
    rw (s.started, count-append, work-append) (s.busy, ground (arith, o), omega arith)

is_over : (n m : Node) → Same n m → IsOver n (mission_over m)
unfolding mission_over
is_over n m s = (refl, s.started)

module _ (cfg : Config) (lib : Library) (net : Network) where
  answered_ends :
      (tries : ℕ) (n m : Node) (msg : Message) (o : Option Message)
      → Same n m
      → GoesOn (suc (suc tries)) n (answered cfg lib tries m msg o)
        ⊎ IsOver n (answered cfg lib tries m msg o)
  unfolding answered
  answered_ends tries n m msg none s =
      inl (goes_on (suc (suc tries)) n m (reporting tries msg) s refl (omega arith))
  answered_ends tries n m msg (some r) s = inr (is_over n m s)

  -- With the try that it makes first, the goroutine has one turn fewer.
  report_ends :
      (tries : ℕ) (n m : Node) (msg : Message)
      → Same n m
      → GoesOn (suc tries) n (report cfg lib net tries m msg)
        ⊎ IsOver n (report cfg lib net tries m msg)
  unfolding report report_elsewhere send
  report_ends zero n m msg s =
      let f = try_fallback_bases cfg lib net m in
      let e = Same-trans s (Same-fallback cfg lib net m) in
      inr (
        is_over n (if f.1 then send f.0 (DroneNode.ask f.0.base_addr msg) else f.0)
          (elim (Bool-cases f.1) [
            | inl t ↦ rw t (record { busy = e.busy; started = e.started })
            | inr t ↦ rw t e
          ]))
  report_ends (suc tries) n m msg s = elim (Bool-cases (m.base_addr == "")) [
    | inl e ↦
        rw (e, report)
          (inl (goes_on (suc (suc tries)) n m (reporting tries msg) s refl (omega arith)))
    | inr e ↦
        rw (e, report)
          (answered_ends tries n (send m (DroneNode.ask m.base_addr msg)) msg
            (net m.sent m.base_addr msg) (record { busy = s.busy; started = s.started }))
  ]

  -- reportMissionDone up to its loop.
  abbrev asked : String → Node → Node × Message
  asked id n =
      stamped cfg lib n DroneNode.msg_mission_done
        (lib.put_mission_done (record { drone_id = cfg.drone_id; request_id = id; success = true }))

  pub mission_turn :
      (now : ℕ) (n : Node) (t : Task)
      → on_mission t ≡ true
      → GoesOn (turns_left t) n (run_task cfg lib net now n t)
        ⊎ IsOver n (run_task cfg lib net now n t)
  unfolding run_task begin_mission turn_back report_mission_done stamped
  mission_turn now n (dispatched msg) h =
      let dp = lib.get_dispatch msg.payload in
      let text = concat ("Missão iniciada: req " ∷ dp.request_id ∷ []) in
      let n1 : Node = record n { alert_mgr = Alerts.info now n.alert_mgr text } in
      let n2 = send_status_update cfg lib n1 "Atendendo..." in
      let s = Same-status cfg lib net n1 "Atendendo..." in
      inl (
        goes_on 6 n n2 (going (travel_time cfg lib n2 dp) dp)
          (record { busy = s.busy; started = s.started }) refl (omega arith))
  mission_turn now n (going t dp) h =
      let n1 : Node = record n { pos_x = dp.target_x; pos_y = dp.target_y } in
      let s = Same-status cfg lib net n1 "Retornando para a base" in
      inl (
        goes_on 5 n (send_status_update cfg lib n1 "Retornando para a base")
          (returning dp.request_id) (record { busy = s.busy; started = s.started }) refl
          (omega arith))
  mission_turn now n (returning id) h =
      elim (report_ends 3 n (asked id n).0 (asked id n).1
        (record { busy = refl; started = refl })) [
          | inl (b, m, w) ↦ inl (b, m, omega arith)
          | inr e ↦ inr e
        ]
  mission_turn now n (reporting tries msg) h = report_ends tries n n msg Same-refl
  mission_turn now n (reassigned msg) h = absurd (ground arith)

  pub other_turn :
      (now : ℕ) (n : Node) (t : Task) → on_mission t ≡ false → Same n (run_task cfg lib net now n t)
  unfolding run_task handle_reassign
  other_turn now n (reassigned msg) h =
      let rp = lib.get_reassign msg.payload in
      let m : Node = record n { base_addr = rp.new_base_addr; base_id = rp.new_base_id } in
      let s = Same-register cfg lib net m rp.new_base_addr in
      record { busy = s.busy; started = s.started }
  other_turn now n (dispatched msg) h = absurd (ground arith)
  other_turn now n (going t dp) h = absurd (ground arith)
  other_turn now n (returning id) h = absurd (ground arith)
  other_turn now n (reporting tries msg) h = absurd (ground arith)

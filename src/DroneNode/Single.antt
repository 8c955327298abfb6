-- ===== src/DroneNode/Single.antt =====
-- droneBusy of cmd/drone/main.go, from handleBaseCommand to the end of handleDispatch.
use mi_desbloqueio_do_estrei.Common.{
  ℕ, suc, ◌⊎◌, ◌+◌, ◌*◌, ◌≤◌, ◌≡◌, refl, ap, Bool, true, false, Option, none, some, List, [], ◌∷◌,
  ◌++◌, get_elem?, count-append, if◌then◌else◌, arith, inl, inr, Bool-cases, ◌==◌,
}
use mi_desbloqueio_do_estrei.Models.{Message, msg_dispatch, msg_reassign}
use mi_desbloqueio_do_estrei.DroneNode.{
  Config, Library, Network, Node, Task, dispatched, reassigned, Event, command, watch_tick,
  heartbeat_tick, task_runs, without, go, send, stamped, handle_base_command, watch, heartbeats,
  run_started, step, steps,
}
use mi_desbloqueio_do_estrei.DroneNode.Quiet.{Same, Same-refl, Same-heartbeats, Same-watch}
use mi_desbloqueio_do_estrei.DroneNode.Turns.{
  on_mission, missions, work, work-append, missions-without, no_work, mission_turn, other_turn,
}

abbrev pub flag : Node → ℕ
flag n = if n.busy then 1 else 0

-- A drone has at most one mission, is busy exactly while it has one, and a mission has six turns.
pub record IsSingle (n : Node) : Type 0 where
  pub one : missions n.started ≡ flag n
  pub few : work n.started ≤ 6 * flag n

-- The event is a turn of a mission.
abbrev pub is_turn : Node → Event → Bool
is_turn n (task_runs i now) = elim (get_elem? n.started i) [ none ↦ false | some t ↦ on_mission t ]
is_turn n _ = false

-- What a step keeps, and that a turn uses work up.
record Steps (n n' : Node) (turn : Bool) : Type 0 where
  single : IsSingle n'
  uses : n.busy ≡ true → work n'.started + (if turn then 1 else 0) ≤ work n.started

Steps-quiet : (n n' : Node) → IsSingle n → Same n n' → Steps n n' false
Steps-quiet n n' v s = record {
  single = record { one = rw (s.busy, s.started) v.one; few = rw (s.busy, s.started) v.few };
  uses = λ b. rw s.started (omega arith);
}

module _ (cfg : Config) (lib : Library) (net : Network) where
  run_started-Steps :
      (i now : ℕ) (n : Node) (o : Option Task)
      → get_elem? n.started i ≡ o
      → IsSingle n
      → Steps n
          (run_started cfg lib net i now n o)
          (elim o [ none ↦ false | some t ↦ on_mission t ])
  unfolding run_started
  run_started-Steps i now n none h v = Steps-quiet n n v Same-refl
  run_started-Steps i now n (some t) h v =
      let m : Node = record n { started = without i n.started } in
      let (a, b) = missions-without i n.started t h in
      elim (Bool-cases (on_mission t)) [
        | inr e ↦
            let s = other_turn cfg lib net now m t e in
            record {
              single = record {
                one = ground (arith, s.busy, e, v.one, a, ap missions s.started);
                few = ground (arith, s.busy, e, v.few, b, ap work s.started);
              };
              uses = λ u. ground (arith, e, b, ap work s.started);
            }
        | inl e ↦ elim (mission_turn cfg lib net now m t e) [
          | inl (y, k, w) ↦ record {
            single = record {
              one = ground (arith, y, k, a, e, v.one);
              few = ground (arith, y, k, w, b, e, v.few);
            };
            uses = λ u. ground (arith, w, b, e);
          }
          | inr (y, k) ↦
              let none_left = no_work m.started (ground (arith, a, e, v.one)) in
              record {
                single = record {
                  one = ground (arith, y, ap missions k, a, e, v.one);
                  few = ground (arith, y, ap work k, none_left);
                };
                uses = λ u. ground (arith, ap work k, none_left, a, e, v.one);
              }
        ]
      ]

  accepted :
      (n m : Node) (msg : Message)
      → IsSingle n
      → n.busy ≡ false
      → m.started ≡ n.started ++ dispatched msg ∷ []
      → m.busy ≡ true
      → Steps n m false
  accepted n m msg v free s b = record {
    single = record {
      one = ground (
        arith,
        b,
        free,
        v.one,
        ap missions s,
        count-append on_mission n.started (dispatched msg ∷ []),
      );
      few = ground (arith, b, free, v.few, ap work s, work-append n.started (dispatched msg ∷ []));
    };
    uses = λ u. absurd (ground arith);
  }

  queued :
      (n m : Node) (msg : Message)
      → IsSingle n
      → m.started ≡ n.started ++ reassigned msg ∷ []
      → m.busy ≡ n.busy
      → Steps n m false
  queued n m msg v s b = record {
    single = record {
      one =
          ground (
            arith,
            b,
            v.one,
            ap missions s,
            count-append on_mission n.started (reassigned msg ∷ []),
          );
      few = ground (arith, b, v.few, ap work s, work-append n.started (reassigned msg ∷ []));
    };
    uses = λ u. ground (arith, ap work s, work-append n.started (reassigned msg ∷ []));
  }

  command-Steps :
      (n : Node) (msg : Message) → IsSingle n → Steps n (handle_base_command cfg lib n msg) false
  unfolding handle_base_command stamped send go
  command-Steps n msg v =
      let m = handle_base_command cfg lib n msg in
      elim (Bool-cases (msg.type == msg_dispatch)) [
        | inl e ↦ elim (Bool-cases n.busy) [
          | inl b ↦ Steps-quiet n m v (record { busy = rw (e, b) refl; started = rw (e, b) refl })
          | inr b ↦ accepted n m msg v b (rw (e, b) refl) (rw (e, b) refl)
        ]
        | inr e ↦ elim (Bool-cases (msg.type == msg_reassign)) [
          | inl f ↦ queued n m msg v (rw (e, f) refl) (rw (e, f) refl)
          | inr f ↦ Steps-quiet n m v (record { busy = rw (e, f) refl; started = rw (e, f) refl })
        ]
      ]

  step-Steps : (n : Node) (e : Event) → IsSingle n → Steps n (step cfg lib net n e) (is_turn n e)
  unfolding step
  step-Steps n (command msg) v = command-Steps n msg v
  step-Steps n (watch_tick now dialled) v =
      Steps-quiet n (watch cfg lib net now dialled n) v (Same-watch cfg lib net now n dialled)
  step-Steps n heartbeat_tick v =
      Steps-quiet n (heartbeats cfg lib n cfg.hb_targets) v
        (Same-heartbeats cfg lib net n cfg.hb_targets)
  step-Steps n (task_runs i now) v = run_started-Steps i now n (get_elem? n.started i) refl v

  -- Whatever a drone meets, in whatever order, and whatever the network answers: it has at most one
  -- mission at a time, is busy exactly while it has one, and the mission has at most six turns left.
  pub steps-IsSingle :
      (n : Node) (events : List Event) → IsSingle n → IsSingle (steps cfg lib net n events)
  unfolding steps
  steps-IsSingle n [] v = v
  steps-IsSingle n (e ∷ events) v =
      steps-IsSingle (step cfg lib net n e) events (step-Steps n e v).single

  -- The turns of the mission while the drone stays busy.
  pub turns : Node → List Event → ℕ
  turns n [] = 0
  turns n (e ∷ events) =
      let rest = turns (step cfg lib net n e) events in
      if n.busy then (if is_turn n e then 1 else 0) + rest else 0

  turns-work : (n : Node) (events : List Event) → IsSingle n → turns n events ≤ work n.started
  unfolding turns
  turns-work n [] v = omega arith
  turns-work n (e ∷ events) v =
      let s = step-Steps n e v in
      ground (arith, s.uses, turns-work (step cfg lib net n e) events s.single)

  mission_found :
      (ts : List Task)
      → 1 ≤ missions ts
      → (i : ℕ) × (t : Task) × (get_elem? ts i ≡ some t) × (on_mission t ≡ true)
  mission_found [] h = absurd (omega (arith, h))
  mission_found (t ∷ ts) h = elim (Bool-cases (on_mission t)) [
    | inl e ↦ (0, t, refl, e)
    | inr e ↦ let (i, u, at, m) = mission_found ts (ground (arith, h, e)) in (suc i, u, at, m)
  ]

  -- Whatever a drone meets besides, and whatever the network answers: the mission of a busy drone has its
  -- turn at most six times while the drone stays busy; and whenever the drone is busy, a goroutine of
  -- the mission is there to have its next turn. So it does not hang.
  pub turns_bound :
      (n : Node) (events : List Event)
      → IsSingle n
      → (turns n events ≤ 6)
        × (((steps cfg lib net n events).busy ≡ false)
            ⊎ ((i : ℕ) × (t : Task) × (get_elem? (steps cfg lib net n events).started i ≡ some t)
                × (on_mission t ≡ true)))
  turns_bound n events v = (
    ground (arith, v.few, turns-work n events v),
    elim (Bool-cases (steps cfg lib net n events).busy) [
      | inr e ↦ inl e
      | inl e ↦
          let one = (steps-IsSingle n events v).one in
          inr (mission_found (steps cfg lib net n events).started (ground (arith, one, e)))
    ],
  )

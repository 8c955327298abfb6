-- ===== src/Tests/Runs.antt =====
-- Browsers at a hub, a screen, a chain of gifts, and the tests of the repository.
use mi_desbloqueio_do_estrei.Common.{
  ◌⊎◌, inl, inr, Bool-cases, ℕ, zero, suc, ◌-◌, ◌≤◌, ◌<◌, ◌≡◌, refl, String, true, false, none,
  some, List, [], ◌∷◌, count, select, get_elem?, map, length, drop, ◌==◌, nat_eq, arith, eq_iff,
  equal_fold, ap, ◌∙◌, sym,
}
use mi_desbloqueio_do_estrei.Common.Assoc.{values}
use mi_desbloqueio_do_estrei.Models.{Request, zero_request, StatusUpdatePayload}
use mi_desbloqueio_do_estrei.State.WellFormed.{IsWellFormed}
use mi_desbloqueio_do_estrei.BaseNode.Balance.{my_idle_drones}
use mi_desbloqueio_do_estrei.BaseNode.Balance.Chain.{
  balance_chain, EndsAt, idle_drones, balance_chain-EndsAt,
}
use mi_desbloqueio_do_estrei.State.{all_drones}
use mi_desbloqueio_do_estrei.Network.Scanner.{byte_len}
use mi_desbloqueio_do_estrei.Queue.{has_id}
use mi_desbloqueio_do_estrei.BaseNode.Step.WellFormed.{step-Passes}
use mi_desbloqueio_do_estrei.BaseNode.Step.{step, gossip_conn}
use mi_desbloqueio_do_estrei.Common.Assoc.{lookup}
use mi_desbloqueio_do_estrei.State.Locks.{holder}
use mi_desbloqueio_do_estrei.Models.{msg_lock_request}
use mi_desbloqueio_do_estrei.Tests.Samples.{message}
use mi_desbloqueio_do_estrei.WebServer.Hub
use mi_desbloqueio_do_estrei.WebServer.Hub.{Hub, connected, left, ticked, new_hub}
use mi_desbloqueio_do_estrei.WebServer.Viewers.{viewer, viewer_steps, viewer-steps}
use mi_desbloqueio_do_estrei.Terminal.{render, is_open, request_cell, drone_cell, alert_cell}
use mi_desbloqueio_do_estrei.Terminal.Shown.{take, ideal_base, row_of, render_lem}
use mi_desbloqueio_do_estrei.TestRunner.{Schedule, suite, run_suite, summary}
use mi_desbloqueio_do_estrei.TestRunner.Schedules.{IsRun, summary-suite}
use mi_desbloqueio_do_estrei.Tests.Samples.{
  urgent, ordinary, idle_one, other_base, sample_config, sample_json, sample_node, sample_state,
}

abbrev viewing : List Hub.Event
viewing =
    connected 1
    ∷ connected 2
    ∷ ticked (some "first") (λ c. nat_eq c 1)
    ∷ ticked (some "second") (λ c. true)
    ∷ left 1
    ∷ []

viewer-steps_example :
    viewer 1 (Hub.steps new_hub viewing) ≡ viewer_steps 1 (viewer 1 new_hub) viewing
viewer-steps_example = viewer-steps 1 new_hub viewing (λ c. omega arith)

first_viewer :
    viewer 1 (Hub.steps new_hub viewing) ≡ record { on = false; shown = "first" ∷ "second" ∷ [] }
unfolding Hub.steps
first_viewer = refl

abbrev shown_update : StatusUpdatePayload
shown_update = record {
  sector_id = "A";
  bases = other_base ∷ [];
  drones = idle_one ∷ [];
  queue = urgent ∷ ordinary ∷ [];
  alerts = [];
  active_sensors = [];
  active_brokers = [];
}

render_lem_example :
    (get_elem? (render shown_update).upper 1
      ≡ row_of
          (map (ideal_base shown_update.drones) shown_update.bases)
          (map request_cell (take 8 (select is_open shown_update.queue)))
          1)
    × (get_elem? (render shown_update).lower 1
        ≡ row_of
            (map drone_cell shown_update.drones)
            (map alert_cell (drop (length shown_update.alerts - 8) shown_update.alerts))
            1)
render_lem_example = render_lem shown_update 1

sample_state-IsWellFormed : IsWellFormed sample_state
sample_state-IsWellFormed = record {
  drones = record {
    distinct = λ k. ground (arith, eq_iff "d1" "d2", eq_iff "d1" k, eq_iff "d2" k);
    own = (refl, (refl, tt));
  };
  peers = record { distinct = λ k. ground arith; own = (refl, tt) };
  locks = λ k. ground arith;
}

-- Another base asks for a lock that is held.
step-Passes_example :
    let n' =
      step sample_json sample_config sample_node (gossip_conn (message msg_lock_request "r3")) in
    (holder n'.state "r3" ≡ some "base-A") ⊎ (holder n'.state "r3" ≡ none)
unfolding holder lookup
step-Passes_example =
    step-Passes sample_json sample_config sample_node (gossip_conn (message msg_lock_request "r3"))
      "r3" "base-A" refl

few_idle : idle_drones sample_json sample_config sample_node < 2
unfolding my_idle_drones all_drones values equal_fold
few_idle = omega arith

balance_chain-EndsAt_example :
    EndsAt sample_json sample_config sample_node
      (balance_chain sample_json sample_config sample_node ((300, 0) ∷ (301, 0) ∷ []))
balance_chain-EndsAt_example =
    balance_chain-EndsAt sample_json sample_config sample_node ((300, 0) ∷ (301, 0) ∷ [])
      sample_state-IsWellFormed.drones few_idle

-- Requests whose IDs are of different lengths.
unary : ℕ → String
unary zero = String.[]
unary (suc n) = String.◌∷◌ "x" (unary n)

byte_len-unary : (n : ℕ) → byte_len (unary n) ≡ n
unfolding byte_len unary
byte_len-unary zero = refl
byte_len-unary (suc n) = omega (arith, byte_len-unary n)

loads : ℕ → List Request
loads zero = []
loads (suc n) = record zero_request { id = unary n } ∷ loads n

length-loads : (n : ℕ) → length (loads n) ≡ n
unfolding loads
length-loads zero = refl
length-loads (suc n) = omega (arith, length-loads n)

size_of : (n : ℕ) (k : String) → (unary n == k) ≡ true → byte_len k ≡ n
size_of n k e = ap byte_len (sym ((eq_iff (unary n) k).0 e)) ∙ byte_len-unary n

loads_short : (n : ℕ) (k : String) → n ≤ byte_len k → count (has_id k) (loads n) ≡ 0
unfolding loads
loads_short zero k h = refl
loads_short (suc n) k h = elim (Bool-cases (unary n == k)) [
  | inl e ↦ absurd (omega (arith, h, size_of n k e))
  | inr e ↦ rw e (omega (arith, loads_short n k (omega (arith, h))))
]

loads_distinct : (n : ℕ) (k : String) → count (has_id k) (loads n) ≤ 1
unfolding loads
loads_distinct zero k = omega arith
loads_distinct (suc n) k = elim (Bool-cases (unary n == k)) [
  | inl e ↦ rw e (omega (arith, loads_short n k (omega (arith, size_of n k e))))
  | inr e ↦ rw e (omega (arith, loads_distinct n k))
]

abbrev one_run : Schedule
one_run = record {
  now = 60000000000;
  later = 60000000500;
  lockers = "base-3" ∷ "base-0" ∷ "base-1" ∷ [];
  loaders = loads 200;
  storers = "base-7" ∷ [];
}

one_run-IsRun : IsRun one_run
one_run-IsRun = record {
  lockers = λ e. absurd (ground (arith, e));
  storers = λ e. absurd (ground (arith, e));
  loads = length-loads 200;
  distinct = loads_distinct 200;
  old_enough = omega arith;
  in_order = omega arith;
  in_time = omega arith;
}

summary-suite_example : (summary (run_suite "TestHighLoad" (suite one_run))).0 ≡ true
summary-suite_example = summary-suite "TestHighLoad" one_run one_run-IsRun

-- ===== src/Tests/Systems.antt =====
-- Two bases, of which one asks the other for the lock on a request and sends its drone.
use mi_desbloqueio_do_estrei.Common.{
  ◌≡◌, ◌≢◌, ◌⊎◌, refl, String, some, none, List, [], ◌∷◌, inl, IsIn, arith, eq_iff,
}
use mi_desbloqueio_do_estrei.Common.Int.{pos, wrap_int64}
use mi_desbloqueio_do_estrei.Common.Assoc.{lookup, values}
use mi_desbloqueio_do_estrei.Models.{LockRequestPayload, msg_lock_request, msg_lock_reply}
use mi_desbloqueio_do_estrei.Queue
use mi_desbloqueio_do_estrei.State
use mi_desbloqueio_do_estrei.State.{online_peers}
use mi_desbloqueio_do_estrei.BaseNode.{Config, Json}
use mi_desbloqueio_do_estrei.BaseNode.Step.{Outcome}
use mi_desbloqueio_do_estrei.Lamport
use mi_desbloqueio_do_estrei.System.{
  System, Act, picks, serves, asks, runs, perform_all, MayPerformAll,
}
use mi_desbloqueio_do_estrei.System.Exclusive.{under_way}
use mi_desbloqueio_do_estrei.System.Safety.{flights_exclusive}
use mi_desbloqueio_do_estrei.Tests.Locks.{lock_json, lock_json-ReadsReplies}
use mi_desbloqueio_do_estrei.Tests.Samples.{other_base, sample_config, sample_node, message}

-- The lock requests that can be read are those of base-A.
abbrev pair_json : Json
pair_json = record lock_json {
  get_lock_request = λ s. some (record { request_id = s; base_id = "base-A"; lamport_ts = pos 3 });
}

-- A base has its address for its name.
abbrev named : String → Config
named addr = record sample_config { base_id = addr }

abbrev pair : System
pair = record { nodes = λ a. sample_node; ballots = []; missions = [] }

abbrev voted : Outcome
voted = record {
  now = 220;
  choice = 0;
  votes =
      some (record {
        type = msg_lock_reply;
        sender_id = "localhost:8012";
        lamport_ts = pos 13;
        payload = "yr1";
      })
      ∷ [];
  answer = none;
}

abbrev answered : Outcome
answered = record voted { now = 230; votes = []; answer = some (message "STATUS_UPDATE" "") }

abbrev acts : List Act
acts =
    picks "base-A" 210 0
    ∷ runs "base-A" 0 voted
    ∷ serves "base-A" (message "QUEUE_ADD" "")
    ∷ asks "base-A" "localhost:8012" (message msg_lock_request "r1")
    ∷ runs "base-A" 0 voted
    ∷ runs "base-A" 0 answered
    ∷ []

-- The drone of the first base has said yes to its order.
first_flies : under_way pair_json named "r1" (perform_all pair_json named pair acts) "base-A" ≡ 1
unfolding perform_all Queue.peek Queue.beats State.idle_drone values Queue.is_drone_assigned
    State.try_lock lookup State.update_drone_status online_peers
first_flies = refl

a_not_b : ◌≢◌ {A = String} "base-A" "localhost:8012"
a_not_b = ground (arith, eq_iff "base-A" "localhost:8012")

name_of :
    (p : LockRequestPayload)
    → some (record { request_id = "r1"; base_id = "base-A"; lamport_ts = pos 3 }) ≡ some p
    → p.base_id ≡ "base-A"
name_of p e = cc

b_online :
    IsIn other_base (online_peers ((perform_all pair_json named pair acts).nodes "base-A").state)
unfolding perform_all Queue.peek Queue.beats State.idle_drone values Queue.is_drone_assigned
    State.try_lock lookup State.update_drone_status online_peers
b_online = inl refl

acts_allowed : MayPerformAll pair_json named pair acts
unfolding perform_all Queue.peek Queue.beats State.idle_drone values Queue.is_drone_assigned
    State.try_lock lookup State.update_drone_status online_peers Lamport.update Lamport.tick
    wrap_int64
acts_allowed = (tt, (tt, (refl, ((refl, a_not_b, name_of), ((inl refl, tt), (tt, tt))))))

flights_exclusive_example :
    (under_way pair_json named "r1" (perform_all pair_json named pair acts) "base-A" ≡ 0)
    ⊎ (under_way pair_json named "r1" (perform_all pair_json named pair acts) "localhost:8012" ≡ 0)
flights_exclusive_example =
    flights_exclusive pair_json named "r1" pair acts "base-A" "localhost:8012" other_base
      lock_json-ReadsReplies (λ a b e. e) (λ a. refl, refl, refl) acts_allowed a_not_b refl b_online

-- ===== src/Tests/Locks.antt =====
-- The lock server of a base, the bases that ask it, and what happens to those that fall silent.
use Prim.Native.Char.{Char, code}
use Prim.Native.String.{[] as empty, ◌∷◌ as cons}
use mi_desbloqueio_do_estrei.Common.{
  ◌≤◌, ◌≡◌, ◌≢◌, refl, String, Bool, true, false, Option, some, none, List, [], ◌∷◌, count, arith,
  ◌==◌, IsIn, inl, nat_eq, eq_iff,
}
use mi_desbloqueio_do_estrei.Common.Int.{pos}
use mi_desbloqueio_do_estrei.Common.Assoc.{lookup}
use mi_desbloqueio_do_estrei.Common.Keyed.{on_found}
use mi_desbloqueio_do_estrei.Models.{Message, LockReplyPayload, msg_lock_request, msg_queue_add}
use mi_desbloqueio_do_estrei.Queue.Op.{IsValid, copies}
use mi_desbloqueio_do_estrei.State.{get_drone, new_base_state}
use mi_desbloqueio_do_estrei.State.Locks.{holder}
use mi_desbloqueio_do_estrei.State.WellFormed.{
  StateOp, register_op, touch_drone_op, update_peer_op, try_lock_op, release_op, purge_op, run_ops,
  drone_key, run_ops-IsWellFormed,
}
use mi_desbloqueio_do_estrei.BaseNode.{Json, Node, to}
use mi_desbloqueio_do_estrei.BaseNode.Dispatcher.{end_votes}
use mi_desbloqueio_do_estrei.BaseNode.Dispatcher.Release.{loser_frees_winner}
use mi_desbloqueio_do_estrei.BaseNode.Servers.{handle_gossip_conn}
use mi_desbloqueio_do_estrei.BaseNode.Servers.Locking.{
  ReadsReplies, ReadsRequests, grants, gossip_all, gossip_all_exclusive,
}
use mi_desbloqueio_do_estrei.BaseNode.Heartbeat.{check_drone_health, recover_busy_drone_mission}
use mi_desbloqueio_do_estrei.BaseNode.Heartbeat.Health.{drone_verdict, check_drone_health-get_drone}
use mi_desbloqueio_do_estrei.BaseNode.Heartbeat.Recovery.{recover_busy_drone_mission_lem}
use mi_desbloqueio_do_estrei.Tests.Queue.{sample-IsValid}
use mi_desbloqueio_do_estrei.Tests.Samples.{
  urgent, idle_one, busy_one, other_base, sample_config, sample_json, sample_node, message,
}

abbrev answer : Bool → Char
answer true = "y"
answer false = "n"

-- The answer is the first letter, the rest is the request's ID.
abbrev read_reply : String → Option LockReplyPayload
read_reply empty = none
read_reply (cons c id) =
    some (record { request_id = id; granted = nat_eq (code c) 121; base_id = "base-A" })

abbrev pub lock_json : Json
lock_json = record sample_json {
  put_lock_reply = λ p. cons (answer p.granted) p.request_id;
  get_lock_reply = read_reply;
}

reads_answer :
    (granted : Bool) (id : String)
    → read_reply (cons (answer granted) id)
      ≡ some (record { request_id = id; granted = granted; base_id = "base-A" })
reads_answer true id = refl
reads_answer false id = refl

pub lock_json-ReadsReplies : ReadsReplies lock_json
lock_json-ReadsReplies p = (
  record { request_id = p.request_id; granted = p.granted; base_id = "base-A" },
  reads_answer p.granted p.request_id,
  refl,
  refl,
)

sample_json-ReadsRequests : ReadsRequests sample_json
sample_json-ReadsRequests p =
    (record { request_id = p.request_id; base_id = "base-B"; lamport_ts = pos 3 }, refl, refl)

abbrev asks : List Message
asks =
    message msg_lock_request "r1"
    ∷ message msg_queue_add "r4"
    ∷ message msg_lock_request "r3"
    ∷ message msg_lock_request "r1"
    ∷ []

gossip_all_exclusive_example :
    (grants lock_json sample_config "r3" (gossip_all lock_json sample_config sample_node asks)
      ≡ grants lock_json sample_config "r3" sample_node)
    × (holder (gossip_all lock_json sample_config sample_node asks).state "r3" ≡ some "base-A")
gossip_all_exclusive_example =
    gossip_all_exclusive lock_json sample_config "r3" "base-A" sample_node asks
      lock_json-ReadsReplies (refl, (refl, (refl, (refl, tt)))) (unfold holder lookup in refl)

loser_frees_winner_example :
    let lost =
      end_votes sample_json sample_config 220 sample_node urgent idle_one
        (other_base ∷ [])
        (none ∷ []) in
    (release : Message) × IsIn (to "localhost:8012" release) lost.sent
    × (holder (handle_gossip_conn sample_json sample_config sample_node release).state "r1" ≡ none)
    × (holder
          (handle_gossip_conn sample_json sample_config
            (handle_gossip_conn sample_json sample_config sample_node release)
            (message msg_lock_request "r1")).state
          "r1"
        ≡ some "base-B")
loser_frees_winner_example =
    loser_frees_winner sample_json sample_config sample_config 220 sample_node sample_node urgent
      idle_one (other_base ∷ []) (none ∷ []) "localhost:8012" (message msg_lock_request "r1")
      (record { request_id = "r1"; base_id = "base-B"; lamport_ts = pos 3 })
      sample_json-ReadsRequests refl (inl refl) refl refl refl

d2_named : busy_one.id ≢ ""
d2_named e = absurd (ground (arith, eq_iff "d2" "", e))

abbrev ops : List StateOp
ops =
    register_op idle_one
    ∷ register_op busy_one
    ∷ touch_drone_op 300 "d1" "base-A" "BUSY"
    ∷ update_peer_op other_base
    ∷ update_peer_op (record other_base { addr = "localhost:8013" })
    ∷ try_lock_op "r1" "base-A"
    ∷ try_lock_op "r1" "base-B"
    ∷ release_op "r2"
    ∷ purge_op
    ∷ []

abbrev watched : Node
watched = record sample_node { state = run_ops new_base_state ops }

check_drone_health-get_drone_example :
    get_drone (check_drone_health 4000000000 watched).state "d2"
    ≡ on_found drone_key
        (drone_verdict 4000000000)
        (get_drone watched.state "d2")
        (get_drone watched.state "d2")
check_drone_health-get_drone_example =
    check_drone_health-get_drone 4000000000 watched "d2" (run_ops-IsWellFormed ops)

recover_busy_drone_mission_lem_example :
    (count
        (λ r. r.assigned_to == busy_one.id)
        (recover_busy_drone_mission 220 sample_node busy_one).pq.heap
      ≡ 0)
    × ((k : String)
        → copies sample_node.pq k
          ≤ copies (recover_busy_drone_mission 220 sample_node busy_one).pq k)
    × IsValid (recover_busy_drone_mission 220 sample_node busy_one).pq
recover_busy_drone_mission_lem_example =
    recover_busy_drone_mission_lem 220 sample_node busy_one d2_named sample-IsValid

-- ===== src/System.antt =====
-- Several bases of cmd/base and the locks that they ask each other for: acquireLock of dispatcher.go on
-- one side, handleLockRequest of servers.go on the other. A base is known by the address of its gossip
-- server. Each act is an event of one base, as BaseNode.Step has it; `asks` is the exchange of
-- SendMessageWithReply, whose answer is kept as a ballot until the asking base has all of them.
pub mod Tasks
pub mod Turn
pub mod Runs
pub mod Vote
pub mod Exclusive
pub mod Safety
use mi_desbloqueio_do_estrei.Common.{
  ℕ, ◌≡◌, ◌≢◌, String, Bool, false, Option, none, some, List, [], ◌∷◌, ◌++◌, IsIn, length,
  get_elem?, if◌then◌else◌, ◌==◌,
}
use mi_desbloqueio_do_estrei.Models.{Base, Message, LockRequestPayload, msg_lock_release}
use mi_desbloqueio_do_estrei.BaseNode.{
  Config, Json, Node, Task, await_votes, await_drone, Sent, reply,
}
use mi_desbloqueio_do_estrei.BaseNode.Step.{
  Outcome, Event, dispatch_tick, gossip_conn, task_runs, step,
}

-- The answer of one base to another that has asked it for the lock on a request.
pub record Ballot : Type 0 where
  pub asker : String
  pub voter : String
  pub request_id : String
  pub answer : Message

-- `missions` keeps the orders that a drone has said yes to, with the base: the drone flies from then on.
pub record System : Type 0 where
  pub nodes : String → Node
  pub ballots : List Ballot
  pub missions : List (String × String)

unfoldable pub place : System → String → Node → System
place s addr n = record s { nodes = λ a. if a == addr then n else s.nodes a }

-- A base looks for a request and a drone; its gossip server reads a message; another base asks it, and
-- waits for the answer; a goroutine of the base goes on.
pub data Act : Type 0 where
  picks : String → ℕ → ℕ → Act
  serves : String → Message → Act
  asks : String → String → Message → Act
  runs : String → ℕ → Outcome → Act

-- The ballot, if the request could be read and has been answered.
unfoldable pub ballot_of : String → String → Option LockRequestPayload → Option Sent → List Ballot
ballot_of asker voter (some p) (some (reply msg)) =
    record { asker = asker; voter = voter; request_id = p.request_id; answer = msg } ∷ []
ballot_of asker voter _ _ = []

-- The order that a drone has said yes to when the goroutine goes on.
unfoldable pub mission_of : String → Option Task → Option Message → List (String × String)
mission_of addr (some (await_drone r d)) (some m) = (addr, r.id) ∷ []
mission_of addr _ _ = []

module _ (json : Json) (cfgs : String → Config) where
  unfoldable pub event : System → String → Event → Node
  unfolding step
  event s addr e = step json (cfgs addr) (s.nodes addr) e

  unfoldable pub perform : System → Act → System
  unfolding place event ballot_of mission_of
  perform s (picks addr now choice) = place s addr (event s addr (dispatch_tick now choice))
  perform s (serves addr msg) = place s addr (event s addr (gossip_conn msg))
  perform s (asks asker addr msg) =
      let n = event s addr (gossip_conn msg) in
      record (place s addr n) {
        ballots =
            s.ballots
            ++ ballot_of asker addr (json.get_lock_request msg.payload)
                (get_elem? n.sent (length (s.nodes addr).sent));
      }
  perform s (runs addr i o) = record (place s addr (event s addr (task_runs i o))) {
    missions = s.missions ++ mission_of addr (get_elem? (s.nodes addr).started i) o.answer;
  }

  unfoldable pub perform_all : System → List Act → System
  unfolding perform
  perform_all s [] = s
  perform_all s (a ∷ acts) = perform_all (perform s a) acts

  -- Each vote is an error or the answer of the peer that was asked.
  abbrev pub Collected : System → String → String → List Base → List (Option Message) → Type 0
  Collected s asker id [] votes = Unit
  Collected s asker id (p ∷ peers) [] = Unit
  Collected s asker id (p ∷ peers) (none ∷ votes) = Collected s asker id peers votes
  Collected s asker id (p ∷ peers) (some msg ∷ votes) =
      IsIn (record { asker = asker; voter = p.gossip_addr; request_id = id; answer = msg })
        s.ballots
      × Collected s asker id peers votes

  -- What a goroutine that waits for votes meets are the votes.
  abbrev pub MayRun : System → String → Outcome → Option Task → Type 0
  MayRun s addr o (some (await_votes r d peers)) = Collected s addr r.id peers o.votes
  MayRun s addr o _ = Unit

  -- No LOCK_RELEASE arrives. A base asks others than itself, and in its own name.
  abbrev pub MayPerform : System → Act → Type 0
  MayPerform s (picks addr now choice) = Unit
  MayPerform s (serves addr msg) = (msg.type == msg_lock_release) ≡ false
  MayPerform s (asks asker addr msg) =
      ((msg.type == msg_lock_release) ≡ false)
      × (asker ≢ addr)
      × ((p : LockRequestPayload)
          → json.get_lock_request msg.payload ≡ some p
          → p.base_id ≡ (cfgs asker).base_id)
  MayPerform s (runs addr i o) = MayRun s addr o (get_elem? (s.nodes addr).started i)

  abbrev pub MayPerformAll : System → List Act → Type 0
  MayPerformAll s [] = Unit
  MayPerformAll s (a ∷ acts) = MayPerform s a × MayPerformAll (perform s a) acts

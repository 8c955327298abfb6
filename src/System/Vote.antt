-- ===== src/System/Vote.antt =====
-- The lock server of one base of cmd/base (handleGossipConn of servers.go) as a turn of the lock on a
-- request, and what its answer says.
use mi_desbloqueio_do_estrei.Common.{
  ◌≡◌, refl, sym, ap, ◌∙◌, String, true, false, Option, none, some, List, [], ◌∷◌, ◌++◌, get_elem?,
  length, ◌==◌, arith, Bool-cases, inl, inr, eq_refl, IsIn,
}
use mi_desbloqueio_do_estrei.Models.{
  Message, LockRequestPayload, LockReplyPayload, msg_lock_request, msg_lock_release, msg_lock_reply,
}
use mi_desbloqueio_do_estrei.Lamport
use mi_desbloqueio_do_estrei.State.{BaseState, online_peers, try_lock}
use mi_desbloqueio_do_estrei.State.Locks.{holder, try_lock_lem}
use mi_desbloqueio_do_estrei.BaseNode.{Config, Json, Node, Sent, reply, send, stamped}
use mi_desbloqueio_do_estrei.BaseNode.Dispatcher.{granted_by}
use mi_desbloqueio_do_estrei.BaseNode.Dispatcher.Votes.{online_peers-try_lock}
use mi_desbloqueio_do_estrei.BaseNode.Servers.{
  lock_request, handle_lock_request, gossip_switch, handle_gossip_conn,
}
use mi_desbloqueio_do_estrei.BaseNode.Servers.Locking.{ReadsReplies, handle_gossip_conn-Serves}
use mi_desbloqueio_do_estrei.System.{Ballot, ballot_of}
use mi_desbloqueio_do_estrei.System.Turn.{calm, Turned}

module _ (json : Json) (cfg : Config) where
  -- A message of another type than LOCK_RELEASE leaves the peers and the goroutines.
  record Serving (n n' : Node) : Type 0 where
    online : online_peers n'.state ≡ online_peers n.state
    started : n'.started ≡ n.started

  Serving-some :
      (n m : Node) (o : Option LockRequestPayload)
      → online_peers m.state ≡ online_peers n.state
      → m.started ≡ n.started
      → Serving n (elim o [ none ↦ m | some p ↦ lock_request json cfg m p ])
  unfolding lock_request stamped send
  Serving-some n m none e f = record { online = e; started = f }
  Serving-some n m (some p) e f = record {
    online = online_peers-try_lock m.state p.request_id p.base_id ∙ e;
    started = f;
  }

  serving :
      (n : Node) (msg : Message)
      → (msg.type == msg_lock_release) ≡ false
      → Serving n (handle_gossip_conn json cfg n msg)
  unfolding handle_gossip_conn gossip_switch handle_lock_request
  serving n msg other =
      let m : Node = record n { clk = (Lamport.update n.clk msg.lamport_ts).0 } in
      elim (Bool-cases (msg.type == msg_lock_request)) [
        | inl e ↦ rw e (Serving-some n m (json.get_lock_request msg.payload) refl refl)
        | inr e ↦ rw (e, other) (record { online = refl; started = refl })
      ]

  pub Turned-gossip_conn :
      (id : String) (W : Type 0) (n : Node) (msg : Message)
      → ReadsReplies json
      → (msg.type == msg_lock_release) ≡ false
      → Turned json cfg id W 0 n (handle_gossip_conn json cfg n msg)
  Turned-gossip_conn id W n msg reads other =
      let s = serving n msg other in
      record {
        turn =
            calm (rw s.started (omega arith)) (rw s.started (omega arith))
              (handle_gossip_conn-Serves json cfg id n msg reads other).keeps;
        online = s.online;
        asked = λ all. rw (s.started, s.online) all;
      }

  -- If the ballot grants it, the lock on its request is held in this name.
  abbrev pub Grants : Ballot → BaseState → String → Type 0
  Grants b s name = granted_by json cfg (some b.answer) ≡ true → holder s b.request_id ≡ some name

  -- The answer of lockRequest stands behind what has been sent, and grants the lock only if it is now
  -- held in the name of the one that asks.
  record Answered (n n' : Node) (p : LockRequestPayload) : Type 0 where
    answer : Message
    sent : n'.sent ≡ n.sent ++ reply answer ∷ []
    grants :
        granted_by json cfg (some answer) ≡ true → holder n'.state p.request_id ≡ some p.base_id

  read_back :
      (msg : Message) (payload : LockReplyPayload)
      → ReadsReplies json
      → msg.payload ≡ json.put_lock_reply payload
      → granted_by json cfg (some msg) ≡ payload.granted
  read_back msg payload reads e = let (q, r, i, g) = reads payload in rw (granted_by, e, r) g

  lock_request-Answered :
      (n : Node) (p : LockRequestPayload)
      → ReadsReplies json
      → Answered n (lock_request json cfg n p) p
  unfolding lock_request stamped send
  lock_request-Answered n p reads =
      let s = try_lock n.state p.request_id p.base_id in
      let (granted, after) = try_lock_lem n.state p.request_id p.base_id p.request_id in
      let payload : LockReplyPayload = record {
        request_id = p.request_id;
        granted = s.1;
        base_id = cfg.base_id;
      } in
      let msg =
        (stamped cfg (record n { state = s.0 }) msg_lock_reply (json.put_lock_reply payload)).1 in
      record {
        answer = msg;
        sent = refl;
        grants = λ g.
            let won : s.1 ≡ true = sym (read_back msg payload reads refl) ∙ g in
            after ∙ rw (eq_refl p.request_id) (ground (arith, granted, won));
      }

  get_elem?-last : (xs : List Sent) (x : Sent) → get_elem? (xs ++ x ∷ []) (length xs) ≡ some x
  get_elem?-last [] x = refl
  get_elem?-last (y ∷ xs) x = get_elem?-last xs x

  get_elem?_past : (xs : List Sent) → get_elem? xs (length xs) ≡ none
  get_elem?_past [] = refl
  get_elem?_past (y ∷ xs) = get_elem?_past xs

  -- What the lock server answers, as a ballot.
  abbrev pub ballots_at : String → String → Node → Message → List Ballot
  ballots_at asker voter n msg =
      ballot_of asker voter (json.get_lock_request msg.payload)
        (get_elem? (handle_gossip_conn json cfg n msg).sent (length n.sent))

  pub record IsVote (asker voter name : String) (s : BaseState) (b : Ballot) : Type 0 where
    pub from : b.asker ≡ asker
    pub by : b.voter ≡ voter
    pub grants : Grants b s name

  lock_request-IsVote :
      (asker voter name : String) (n m n' : Node) (p : LockRequestPayload) (b : Ballot)
      → m.sent ≡ n.sent
      → Answered m n' p
      → p.base_id ≡ name
      → IsIn b (ballot_of asker voter (some p) (get_elem? n'.sent (length n.sent)))
      → IsVote asker voter name n'.state b
  unfolding ballot_of
  lock_request-IsVote asker voter name n m n' p b same a own i =
      let at : get_elem? n'.sent (length n.sent) ≡ some (reply a.answer) =
        rw (a.sent, same) (get_elem?-last n.sent (reply a.answer)) in
      let found : IsIn b (
          record { asker = asker; voter = voter; request_id = p.request_id; answer = a.answer }
          ∷ []) =
        rw at at i in
      elim found [
        | inr e ↦ absurd e
        | inl e ↦ rw e (record { from = refl; by = refl; grants = λ g. a.grants g ∙ ap some own })
      ]

  unasked-IsVote :
      (asker voter name : String) (n m : Node) (o : Option LockRequestPayload) (b : Ballot)
      → m.sent ≡ n.sent
      → IsIn b (ballot_of asker voter o (get_elem? m.sent (length n.sent)))
      → IsVote asker voter name m.state b
  unfolding ballot_of
  unasked-IsVote asker voter name n m none b same i = absurd i
  unasked-IsVote asker voter name n m (some p) b same i =
      let gone : get_elem? m.sent (length n.sent) ≡ none = rw same (get_elem?_past n.sent) in
      absurd (rw gone at i)

  gossip-IsVote :
      (asker voter name : String) (n m : Node) (o : Option LockRequestPayload) (b : Ballot)
      → m.sent ≡ n.sent
      → ReadsReplies json
      → ((p : LockRequestPayload) → o ≡ some p → p.base_id ≡ name)
      → IsIn b (
          ballot_of asker voter o (
            get_elem?
              (elim o as (λ x. Node) [ none ↦ m | some p ↦ lock_request json cfg m p ]).sent
              (length n.sent)))
      → IsVote asker voter name
          (elim o as (λ x. Node) [ none ↦ m | some p ↦ lock_request json cfg m p ]).state
          b
  gossip-IsVote asker voter name n m none b same reads own i =
      unasked-IsVote asker voter name n m none b same i
  gossip-IsVote asker voter name n m (some p) b same reads own i =
      lock_request-IsVote asker voter name n m (lock_request json cfg m p) p b same
        (lock_request-Answered m p reads) (own p refl) i

  -- The ballot that the lock server of a base casts on a message in the name of the one that asks: if it
  -- grants the lock, that one is its holder.
  pub ballots_at-IsVote :
      (asker voter name : String) (n : Node) (msg : Message) (b : Ballot)
      → ReadsReplies json
      → (msg.type == msg_lock_release) ≡ false
      → ((p : LockRequestPayload) → json.get_lock_request msg.payload ≡ some p → p.base_id ≡ name)
      → IsIn b (ballots_at asker voter n msg)
      → IsVote asker voter name (handle_gossip_conn json cfg n msg).state b
  unfolding handle_gossip_conn gossip_switch handle_lock_request
  ballots_at-IsVote asker voter name n msg b reads other own i =
      let m : Node = record n { clk = (Lamport.update n.clk msg.lamport_ts).0 } in
      elim (Bool-cases (msg.type == msg_lock_request)) [
        | inl e ↦ rw e (
            gossip-IsVote asker voter name n m (json.get_lock_request msg.payload) b refl reads own
              (rw e at i))
        | inr e ↦
            rw (e, other)
              (unasked-IsVote asker voter name n m (json.get_lock_request msg.payload) b refl
                (rw (e, other) at i))
      ]

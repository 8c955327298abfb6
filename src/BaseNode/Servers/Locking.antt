-- ===== src/BaseNode/Servers/Locking.antt =====
-- The lock server of cmd/base/servers.go (handleLockRequest, handleLockRelease) and the base that asks
-- it (acquireLock of cmd/base/dispatcher.go): who is granted a lock, and who may free it.
use mi_desbloqueio_do_estrei.Common.{
  ℕ, ◌+◌, ◌≡◌, refl, String, Bool, false, ◌&&◌, Option, none, some, List, [], ◌∷◌, All, count,
  count-append, if◌then◌else◌, ◌==◌, eq_iff, arith, inl, inr, Bool-cases, is_some,
}
use mi_desbloqueio_do_estrei.Models.{
  Message, LockRequestPayload, LockReplyPayload, msg_lock_request, msg_lock_release,
}
use mi_desbloqueio_do_estrei.Lamport
use mi_desbloqueio_do_estrei.State.{BaseState, try_lock, is_locked}
use mi_desbloqueio_do_estrei.State.Locks.{holder, try_lock_lem}
use mi_desbloqueio_do_estrei.BaseNode.{Config, Json, Node, Sent, reply, send, stamped}
use mi_desbloqueio_do_estrei.BaseNode.Servers.{
  lock_request, handle_lock_request, gossip_switch, handle_gossip_conn,
}

-- What is read from a lock request has the request's ID.
abbrev pub ReadsRequests : Json → Type 0
ReadsRequests json =
    (p : LockRequestPayload)
    → (q : LockRequestPayload) × (json.get_lock_request (json.put_lock_request p) ≡ some q)
      × (q.request_id ≡ p.request_id)

-- What is read from a reply has its ID and its answer.
abbrev pub ReadsReplies : Json → Type 0
ReadsReplies json =
    (p : LockReplyPayload)
    → (q : LockReplyPayload) × (json.get_lock_reply (json.put_lock_reply p) ≡ some q)
      × (q.request_id ≡ p.request_id)
      × (q.granted ≡ p.granted)

pub is_locked-holder : (s : BaseState) (id : String) → is_locked s id ≡ is_some (holder s id)
unfolding is_locked holder
is_locked-holder s id = refl

module _ (json : Json) (cfg : Config) where
  -- A reply that grants the lock on a request.
  abbrev grants_in : String → Option LockReplyPayload → Bool
  grants_in id none = false
  grants_in id (some p) = p.request_id == id && p.granted

  abbrev is_grant : String → Sent → Bool
  is_grant id (reply msg) = grants_in id (json.get_lock_reply msg.payload)
  is_grant id _ = false

  -- How often a base has granted the lock on a request.
  abbrev pub grants : String → Node → ℕ
  grants id n = count (is_grant id) n.sent

  -- The lock server on one message after another.
  pub gossip_all : Node → List Message → Node
  gossip_all n [] = n
  gossip_all n (msg ∷ msgs) = gossip_all (handle_gossip_conn json cfg n msg) msgs

  -- 1 if the lock is held.
  abbrev pub held : String → Node → ℕ
  held id n = if is_locked n.state id then 1 else 0

  -- What a step of the lock server keeps: a holder stays, and a grant is what makes a lock held.
  pub record Serves (id : String) (n n' : Node) : Type 0 where
    pub keeps : (b : String) → holder n.state id ≡ some b → holder n'.state id ≡ some b
    pub counts : grants id n' + held id n ≡ grants id n + held id n'

  Serves-same : (id : String) (n n' : Node) → n'.state ≡ n.state → n'.sent ≡ n.sent → Serves id n n'
  Serves-same id n n' s t = record { keeps = λ b h. rw s h; counts = rw (s, t) refl }

  lock_request-Serves :
      (id : String) (n : Node) (p : LockRequestPayload)
      → ReadsReplies json
      → Serves id n (lock_request json cfg n p)
  unfolding lock_request stamped send
  lock_request-Serves id n p reads =
      let s = try_lock n.state p.request_id p.base_id in
      let (granted, after) = try_lock_lem n.state p.request_id p.base_id id in
      let (q, r, i, g) =
        reads (record { request_id = p.request_id; granted = s.1; base_id = cfg.base_id }) in
      record {
        keeps = λ b h.
            ground (arith, after, h, is_locked-holder n.state p.request_id, eq_iff p.request_id id);
        counts = rw count-append (
            ground (
              arith,
              r,
              i,
              g,
              granted,
              after,
              eq_iff p.request_id id,
              is_locked-holder n.state id,
              is_locked-holder n.state p.request_id,
              is_locked-holder s.0 id,
            ));
      }

  Serves-trans : {id : String} {a b c : Node} → Serves id a b → Serves id b c → Serves id a c
  Serves-trans e f = record {
    keeps = λ b h. f.keeps b (e.keeps b h);
    counts = omega (arith, e.counts, f.counts);
  }

  Serves-some :
      (id : String) (n : Node) (o : Option LockRequestPayload)
      → ReadsReplies json
      → Serves id n (elim o [ none ↦ n | some p ↦ lock_request json cfg n p ])
  Serves-some id n none reads = Serves-same id n n refl refl
  Serves-some id n (some p) reads = lock_request-Serves id n p reads

  pub handle_gossip_conn-Serves :
      (id : String) (n : Node) (msg : Message)
      → ReadsReplies json
      → (msg.type == msg_lock_release) ≡ false
      → Serves id n (handle_gossip_conn json cfg n msg)
  unfolding handle_gossip_conn gossip_switch handle_lock_request
  handle_gossip_conn-Serves id n msg reads other =
      let n1 : Node = record n { clk = (Lamport.update n.clk msg.lamport_ts).0 } in
      Serves-trans (Serves-same id n n1 refl refl)
        (elim (Bool-cases (msg.type == msg_lock_request)) [
          | inl e ↦ rw e (Serves-some id n1 (json.get_lock_request msg.payload) reads)
          | inr e ↦ rw (e, other) (Serves-same id n1 n1 refl refl)
        ])

  gossip_all-Serves :
      (id : String) (n : Node) (msgs : List Message)
      → ReadsReplies json
      → All (λ m. (m.type == msg_lock_release) ≡ false) msgs
      → Serves id n (gossip_all n msgs)
  unfolding gossip_all
  gossip_all-Serves id n [] reads a = Serves-same id n n refl refl
  gossip_all-Serves id n (m ∷ ms) reads a =
      Serves-trans (handle_gossip_conn-Serves id n m reads a.0)
        (gossip_all-Serves id (handle_gossip_conn json cfg n m) ms reads a.1)

  -- Whatever messages reach the lock server of a base, in whatever order, none of them a LOCK_RELEASE:
  -- if its replies can be read back, the grants of the lock on a request that it sends are 1 if the
  -- lock was free and is held afterwards, and 0 otherwise.
  pub grants-gossip_all :
      (id : String) (n : Node) (msgs : List Message)
      → ReadsReplies json
      → All (λ m. (m.type == msg_lock_release) ≡ false) msgs
      → grants id (gossip_all n msgs) + held id n ≡ grants id n + held id (gossip_all n msgs)
  grants-gossip_all id n msgs reads a = (gossip_all-Serves id n msgs reads a).counts

  -- While a lock is held and no LOCK_RELEASE arrives, the lock server of a base, whose replies can be
  -- read back, grants it to nobody, and the holder stays the holder.
  pub gossip_all_exclusive :
      (id owner : String) (n : Node) (msgs : List Message)
      → ReadsReplies json
      → All (λ m. (m.type == msg_lock_release) ≡ false) msgs
      → holder n.state id ≡ some owner
      → (grants id (gossip_all n msgs) ≡ grants id n)
        × (holder (gossip_all n msgs).state id ≡ some owner)
  gossip_all_exclusive id owner n msgs reads a h =
      let s = gossip_all-Serves id n msgs reads a in
      let h' = s.keeps owner h in
      (
        ground (
          arith,
          s.counts,
          h',
          is_locked-holder n.state id,
          is_locked-holder (gossip_all n msgs).state id,
        ),
        h',
      )

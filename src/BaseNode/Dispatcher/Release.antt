-- ===== src/BaseNode/Dispatcher/Release.antt =====
-- broadcastLockRelease of cmd/base/dispatcher.go, met by handleLockRelease of cmd/base/servers.go: what
-- a base that did not get the lock does to the base that holds it.
use mi_desbloqueio_do_estrei.Common.{
  ℕ, ◌≡◌, refl, ap, ◌∙◌, String, false, Option, none, some, List, [], ◌∷◌, ◌++◌, IsIn, map, eq_refl,
  arith, inl, inr,
}
use mi_desbloqueio_do_estrei.Common.Int.{pos}
use mi_desbloqueio_do_estrei.Models.{
  Request, Drone, Base, Message, LockRequestPayload, msg_lock_request, msg_lock_release,
}
use mi_desbloqueio_do_estrei.Lamport
use mi_desbloqueio_do_estrei.State.Locks.{holder, try_lock_lem, release_lock_lem}
use mi_desbloqueio_do_estrei.BaseNode.{
  Config, Json, Node, Sent, to, announce, stamped, broadcast, send,
}
use mi_desbloqueio_do_estrei.BaseNode.Dispatcher.{release_everywhere, give_up, end_votes}
use mi_desbloqueio_do_estrei.BaseNode.Dispatcher.Votes.{unanimous, granted-eq-length}
use mi_desbloqueio_do_estrei.BaseNode.Servers.{
  lock_request, handle_lock_request, handle_lock_release, gossip_switch, handle_gossip_conn,
}
use mi_desbloqueio_do_estrei.BaseNode.Servers.Locking.{ReadsRequests, is_locked-holder}

IsIn-append_right : (xs ys : List Sent) (y : Sent) → IsIn y ys → IsIn y (xs ++ ys)
IsIn-append_right [] ys y m = m
IsIn-append_right (x ∷ xs) ys y m = inr (IsIn-append_right xs ys y m)

IsIn-map :
    (msg : Message) (addrs : List String) (a : String)
    → IsIn a addrs
    → IsIn (to a msg) (map (λ b. to b msg) addrs)
IsIn-map msg (b ∷ addrs) a (inl e) = inl (ap (λ c. to c msg) e)
IsIn-map msg (b ∷ addrs) a (inr m) = inr (IsIn-map msg addrs a m)
IsIn-map msg [] a m = absurd m

module _ (json : Json) (cfg : Config) (n : Node) (msg : Message) (p : LockRequestPayload) where
  -- handleLockRelease asks for no holder.
  freed :
      (id : String)
      → msg.type ≡ msg_lock_release
      → json.get_lock_request msg.payload ≡ some p
      → p.request_id ≡ id
      → holder (handle_gossip_conn json cfg n msg).state id ≡ none
  unfolding handle_gossip_conn gossip_switch handle_lock_release
  freed id t e same =
      simp (t, e, handle_lock_release)
        (rw same (release_lock_lem n.state id id ∙ rw (eq_refl id) refl))

  -- A free lock goes to the one who asks.
  taken :
      (id : String)
      → msg.type ≡ msg_lock_request
      → json.get_lock_request msg.payload ≡ some p
      → p.request_id ≡ id
      → holder n.state id ≡ none
      → holder (handle_gossip_conn json cfg n msg).state id ≡ some p.base_id
  unfolding handle_gossip_conn gossip_switch handle_lock_request lock_request stamped send
  taken id t e same free =
      simp (t, e, handle_lock_request)
        (rw same (
          ground (
            arith,
            free,
            try_lock_lem n.state id p.base_id id,
            eq_refl id,
            is_locked-holder n.state id,
          )))

-- A base that asked for a lock and was not granted it by all tells every base it gossips with to
-- release that lock, and each does so, whoever holds it: the next base that asks is granted it, though
-- the holder before may have sent its drone.
pub loser_frees_winner :
    (json : Json) (cfg_a cfg_b : Config) (now : ℕ) (a b : Node) (r : Request) (d : Drone)
    (peers : List Base) (votes : List (Option Message)) (addr : String) (ask : Message)
    (p : LockRequestPayload)
    → ReadsRequests json
    → unanimous json cfg_b peers votes ≡ false
    → IsIn addr cfg_b.peer_gossip
    → ask.type ≡ msg_lock_request
    → json.get_lock_request ask.payload ≡ some p
    → p.request_id ≡ r.id
    → (release : Message) × IsIn (to addr release) (end_votes json cfg_b now b r d peers votes).sent
      × (holder (handle_gossip_conn json cfg_a a release).state r.id ≡ none)
      × (holder
            (handle_gossip_conn json cfg_a (handle_gossip_conn json cfg_a a release) ask).state
            r.id
          ≡ some p.base_id)
unfolding end_votes give_up release_everywhere announce stamped broadcast
loser_frees_winner json cfg_a cfg_b now a b r d peers votes addr ask p reads lost near t e same =
    let payload : LockRequestPayload = record {
      request_id = r.id;
      base_id = cfg_b.base_id;
      lamport_ts = pos 0;
    } in
    let (c, ts) = Lamport.tick b.clk in
    let release : Message = record {
      type = msg_lock_release;
      sender_id = cfg_b.base_id;
      lamport_ts = ts;
      payload = json.put_lock_request payload;
    } in
    let (q, read, id) = reads payload in
    let free : holder (handle_gossip_conn json cfg_a a release).state r.id ≡ none =
      freed json cfg_a a release q r.id refl read id in
    (
      release,
      rw (granted-eq-length json cfg_b peers votes, lost)
          (IsIn-append_right b.sent (map (λ z. to z release) cfg_b.peer_gossip) (to addr release)
            (IsIn-map release cfg_b.peer_gossip addr near)),
      free,
      taken json cfg_a (handle_gossip_conn json cfg_a a release) ask p r.id t e same free,
    )

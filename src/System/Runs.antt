-- ===== src/System/Runs.antt =====
-- The events of one base of cmd/base that are not messages: the timer of the dispatcher and the
-- goroutines, each as a turn of the lock on a request.
use mi_desbloqueio_do_estrei.Common.{
  ℕ, ◌+◌, ◌≤◌, ◌≡◌, refl, sym, ap, ◌∙◌, String, true, false, Option, none, some, List, [], ◌∷◌,
  ◌++◌, ◌⊎◌, inl, inr, count, count-append, get_elem?, length, if◌then◌else◌, ◌==◌, arith,
  Bool-cases, Option-cases, eq_iff, ◌%◌,
}
use mi_desbloqueio_do_estrei.Models.{Request, Drone, Base, Message, status_pending}
use mi_desbloqueio_do_estrei.Queue
use mi_desbloqueio_do_estrei.State
use mi_desbloqueio_do_estrei.State.{
  BaseState, online_peers, try_lock, is_locked, release_lock, update_drone_status,
}
use mi_desbloqueio_do_estrei.State.Locks.{holder, try_lock_lem, release_lock_lem}
use mi_desbloqueio_do_estrei.BaseNode.{
  Config, Json, Node, Task, gossip_queue_add, gossip_queue_update, propagate_drone_info,
  broadcast_lock_release, send_full_queue_sync, balance_drones, dispatch, await_votes, await_drone,
  go, send, broadcast, stamped, announce,
}
use mi_desbloqueio_do_estrei.BaseNode.Dispatcher.{
  reserve, try_drone, try_request, try_dispatch, release_everywhere, give_up, send_dispatch,
  ask_votes, ask_or_send, start_dispatch, end_votes, gossip_update_now, end_dispatch,
}
use mi_desbloqueio_do_estrei.BaseNode.DroneHandler.{propagate_now}
use mi_desbloqueio_do_estrei.BaseNode.Servers.{gossip_add_now, full_sync_now}
use mi_desbloqueio_do_estrei.BaseNode.Balance.{
  give_drone, balance_with, balance, my_idle_drones, target_peer,
}
use mi_desbloqueio_do_estrei.BaseNode.Dispatcher.Votes.{
  unanimous, granted-eq-length, online_peers-try_lock,
}
use mi_desbloqueio_do_estrei.BaseNode.Step.{Outcome, without, run_task, run_started}
use mi_desbloqueio_do_estrei.System.Tasks.{
  accepts, holds, is_flight, busy, flights, Asked, count-without, All-without, All-append_one,
}
use mi_desbloqueio_do_estrei.System.Turn.{calm, begins, flies, fails, Turned, Quiet, Turned-Quiet}

module _ (json : Json) (cfg : Config) (id : String) (W : Type 0) where
  Quiet-try_drone :
      (now : ℕ) (n : Node) (r : Request) (d : Option Drone)
      → Quiet json cfg id n (try_drone cfg now n r d)
  unfolding try_drone reserve go update_drone_status
  Quiet-try_drone now n r none = record { locks = refl; peers = refl; tasks = inl refl }
  Quiet-try_drone now n r (some d) = elim (Bool-cases (Queue.is_drone_assigned n.pq d.id)) [
    | inl e ↦ rw (try_drone, e) (record { locks = refl; peers = refl; tasks = inl refl })
    | inr e ↦
        rw (try_drone, e)
          (record { locks = refl; peers = refl; tasks = inr (dispatch r d, refl, tt) })
  ]

  Quiet-try_request :
      (now choice : ℕ) (n : Node) (r : Option Request)
      → Quiet json cfg id n (try_request cfg now choice n r)
  unfolding try_request
  Quiet-try_request now choice n none = record { locks = refl; peers = refl; tasks = inl refl }
  Quiet-try_request now choice n (some r) = elim (Bool-cases (r.status == status_pending)) [
    | inl e ↦
        rw (try_request, e) (Quiet-try_drone now n r (State.idle_drone choice n.state cfg.base_id))
    | inr e ↦ rw (try_request, e) (record { locks = refl; peers = refl; tasks = inl refl })
  ]

  pub Turned-try_dispatch :
      (now choice : ℕ) (n : Node) → Turned json cfg id W 0 n (try_dispatch cfg now choice n)
  unfolding try_dispatch
  Turned-try_dispatch now choice n =
      Turned-Quiet json cfg id W 0 n n (try_dispatch cfg now choice n) refl (omega arith)
        (omega arith) (λ ps a. a) (Quiet-try_request now choice n (Queue.peek n.pq))

  Quiet-give_up :
      (now : ℕ) (n : Node) (r : Request) (d : Drone)
      → Quiet json cfg id n (give_up json cfg now n r d)
  unfolding give_up update_drone_status
  Quiet-give_up now n r d = record { locks = refl; peers = refl; tasks = inl refl }

  Quiet-balance_with :
      (now : ℕ) (n : Node) (d : Option Drone) (p : Option Base)
      → Quiet json cfg id n (balance_with json cfg now n d p)
  unfolding balance_with give_drone stamped send go update_drone_status
  Quiet-balance_with now n none p = record { locks = refl; peers = refl; tasks = inl refl }
  Quiet-balance_with now n (some d) none = record { locks = refl; peers = refl; tasks = inl refl }
  Quiet-balance_with now n (some d) (some p) = record {
    locks = refl;
    peers = refl;
    tasks = inr (balance_drones, refl, tt);
  }

  Quiet-balance : (now choice : ℕ) (n : Node) → Quiet json cfg id n (balance json cfg now choice n)
  unfolding balance
  Quiet-balance now choice n =
      let drones = State.all_drones n.state in
      let idle = my_idle_drones cfg drones in
      Quiet-balance_with now n (get_elem? idle (choice % length idle))
        (target_peer cfg drones (online_peers n.state))

  -- The node once a goroutine has left its list, and what that leaves.
  module _ (n : Node) (i : ℕ) (t : Task) (at : get_elem? n.started i ≡ some t) where
    abbrev popped : Node
    popped = record n { started = without i n.started }

    -- A goroutine that does nothing to the locks.
    Turned-popped : (n' : Node) → Quiet json cfg id popped n' → Turned json cfg id W 0 n n'
    Turned-popped n' q =
        Turned-Quiet json cfg id W 0 n popped n' refl
          (omega (arith, count-without (holds id) n.started i t at))
          (omega (arith, count-without (is_flight id) n.started i t at))
          (λ ps a. All-without (Asked ps) n.started i a) q

  free-holder : (s : BaseState) (k : String) → is_locked s k ≡ false → holder s k ≡ none
  unfolding is_locked holder
  free-holder s k h = ground (arith, h)

  -- The goroutine that goes on once the lock is taken.
  abbrev next : Request → Drone → List Base → Task
  next r d [] = await_drone r d
  next r d (p ∷ peers) = await_votes r d (p ∷ peers)

  ask_or_send-shape :
      (n : Node) (r : Request) (d : Drone) (peers : List Base)
      → ((ask_or_send json cfg n r d peers).state ≡ n.state)
        × ((ask_or_send json cfg n r d peers).started ≡ n.started ++ next r d peers ∷ [])
  unfolding ask_or_send send_dispatch ask_votes stamped send broadcast go
  ask_or_send-shape n r d [] = (refl, refl)
  ask_or_send-shape n r d (p ∷ peers) = (refl, refl)

  holds-next :
      (r : Request) (d : Drone) (peers : List Base) → holds id (next r d peers) ≡ (r.id == id)
  holds-next r d [] = refl
  holds-next r d (p ∷ peers) = refl

  flight-next :
      (r : Request) (d : Drone) (peers : List Base)
      → (is_flight id (next r d peers) ≡ false) ⊎ (peers ≡ [])
  flight-next r d [] = inr refl
  flight-next r d (p ∷ peers) = inl refl

  flight-le-holds :
      (r : Request) (d : Drone) (peers : List Base)
      → (r.id == id) ≡ false
      → is_flight id (next r d peers) ≡ false
  flight-le-holds r d [] h = h
  flight-le-holds r d (p ∷ peers) h = refl

  asked-next : (r : Request) (d : Drone) (peers : List Base) → Asked peers (next r d peers)
  asked-next r d [] = tt
  asked-next r d (p ∷ peers) = refl

  module _ (n : Node) (i : ℕ) (r : Request) (d : Drone)
      (at : get_elem? n.started i ≡ some (dispatch r d)) where
    -- The lock is free: it is taken, and the peers that are online are asked.
    Turned-taken :
        (s : BaseState)
        → s ≡ (try_lock n.state r.id cfg.base_id).0
        → is_locked n.state r.id ≡ false
        → Turned json cfg id W 0 n (
            ask_or_send json cfg
              (record n { state = s; started = without i n.started })
              r
              d
              (online_peers s))
    Turned-taken s es free =
        let m : Node = record n { state = s; started = without i n.started } in
        let peers = online_peers s in
        let n' = ask_or_send json cfg m r d peers in
        let (st, ts) = ask_or_send-shape m r d peers in
        let on : online_peers s ≡ online_peers n.state =
          ap online_peers es ∙ online_peers-try_lock n.state r.id cfg.base_id in
        let after = (try_lock_lem n.state r.id cfg.base_id id).1 in
        let got : holder n'.state id
            ≡ (if r.id == id then some cfg.base_id else holder n.state id) =
          ap (λ x. holder x id) (st ∙ es) ∙ after ∙ rw free (ground arith) in
        let bs : busy id n' ≡ busy id n + (if r.id == id then 1 else 0) =
          rw (ts, count-append (holds id) (without i n.started) _, holds-next r d peers)
            (omega (arith, count-without (holds id) n.started i (dispatch r d) at)) in
        let fs : flights id n' ≡ flights id n + (if is_flight id (next r d peers) then 1 else 0) =
          rw (ts, count-append (is_flight id) (without i n.started) _)
            (omega (arith, count-without (is_flight id) n.started i (dispatch r d) at)) in
        record {
          turn = elim (Bool-cases (r.id == id)) [
            | inl e ↦
                begins refl (rw (← (eq_iff r.id id).0 e) (free-holder n.state r.id free))
                  (got ∙ rw e refl) (bs ∙ rw e refl)
                  (elim (flight-next r d peers) [
                    | inl f ↦ inl (fs ∙ rw f (omega arith))
                    | inr f ↦ inr (sym on ∙ f)
                  ])
            | inr e ↦
                calm (ground (arith, bs, e)) (ground (arith, fs, flight-le-holds r d peers e))
                  (λ o h. got ∙ rw e h)
          ];
          online = ap online_peers st ∙ on;
          asked = λ all.
              rw (st, ts)
                (All-append_one (Asked peers) (without i n.started) (next r d peers)
                  (rw on (All-without (Asked (online_peers n.state)) n.started i all))
                  (asked-next r d peers));
        }

    Turned-start_dispatch :
        (now : ℕ)
        → Turned json cfg id W 0 n (start_dispatch json cfg now (popped n i (dispatch r d) at) r d)
    unfolding start_dispatch
    Turned-start_dispatch now =
        let granted = (try_lock_lem n.state r.id cfg.base_id id).0 in
        elim (Bool-cases (is_locked n.state r.id)) [
          | inl e ↦
              let no : (try_lock n.state r.id cfg.base_id).1 ≡ false = granted ∙ rw e refl in
              rw (start_dispatch, no)
                (Turned-popped n i (dispatch r d) at _
                  (Quiet-give_up now (popped n i (dispatch r d) at) r d))
          | inr e ↦
              let yes' : (try_lock n.state r.id cfg.base_id).1 ≡ true = granted ∙ rw e refl in
              rw (start_dispatch, yes') (Turned-taken (try_lock n.state r.id cfg.base_id).0 refl e)
        ]

  -- A goroutine that gives up and frees the lock on its request, or one that holds it no more.
  Turned-freed :
      (n : Node) (i : ℕ) (t : Task) (n' : Node) (k : String)
      → get_elem? n.started i ≡ some t
      → holds id t ≡ (k == id)
      → n'.started ≡ without i n.started
      → n'.state.peers ≡ n.state.peers
      → holder n'.state id ≡ (if k == id then none else holder n.state id)
      → Turned json cfg id W 0 n n'
  unfolding online_peers
  Turned-freed n i t n' k at h ts ps got =
      let bs : busy id n' + (if k == id then 1 else 0) ≡ busy id n =
        rw (ts, ← h) (count-without (holds id) n.started i t at) in
      let fs : flights id n' ≤ flights id n =
        rw ts (omega (arith, count-without (is_flight id) n.started i t at)) in
      record {
        turn = elim (Bool-cases (k == id)) [
          | inl e ↦ fails refl (ground (arith, bs, e)) (got ∙ rw e refl) fs
          | inr e ↦ calm (ground (arith, bs, e)) (omega (arith, fs)) (λ o g. got ∙ rw e g)
        ];
        online = rw ps refl;
        asked = λ all. rw (ts, ps) (All-without (Asked (online_peers n.state)) n.started i all);
      }

  released :
      (now : ℕ) (s : BaseState) (k d : String) (st : String)
      → holder (update_drone_status now (release_lock s k) d st) id
        ≡ (if k == id then none else holder s id)
  unfolding update_drone_status holder
  released now s k d st = unfold holder in release_lock_lem s k id

  module _ (n : Node) (i : ℕ) (r : Request) (d : Drone) where
    Turned-send_dispatch :
        (peers : List Base) (at : get_elem? n.started i ≡ some (await_votes r d peers))
        → (r.id ≡ id → W)
        → Turned json cfg id W 0 n
            (send_dispatch json cfg (popped n i (await_votes r d peers) at) r d)
    unfolding send_dispatch stamped send go
    Turned-send_dispatch peers at win =
        let ts = without i n.started in
        let bs : count (holds id) (ts ++ await_drone r d ∷ []) ≡ busy id n =
          rw (count-append (holds id) ts (await_drone r d ∷ []))
            (omega (arith, count-without (holds id) n.started i (await_votes r d peers) at)) in
        record {
          turn = elim (Bool-cases (r.id == id)) [
            | inl e ↦ flies refl (win ((eq_iff r.id id).0 e)) refl bs
            | inr e ↦
                calm (omega (arith, bs))
                  (rw (count-append (is_flight id) ts (await_drone r d ∷ []), e)
                    (omega
                      (arith, count-without (is_flight id) n.started i (await_votes r d peers) at)))
                  (λ o h. h)
          ];
          online = refl;
          asked = λ all. All-append_one _ ts (await_drone r d) (All-without _ n.started i all) tt;
        }

    Turned-end_votes :
        (now : ℕ) (o : Outcome) (peers : List Base)
        (at : get_elem? n.started i ≡ some (await_votes r d peers))
        → (r.id ≡ id → unanimous json cfg peers o.votes ≡ true → W)
        → Turned json cfg id W 0 n
            (end_votes json cfg now (popped n i (await_votes r d peers) at) r d peers o.votes)
    unfolding end_votes
    Turned-end_votes now o peers at win = elim (Bool-cases (unanimous json cfg peers o.votes)) [
      | inl e ↦
          rw (end_votes, granted-eq-length json cfg peers o.votes, e)
            (Turned-send_dispatch peers at (λ f. win f e))
      | inr e ↦
          rw (end_votes, granted-eq-length json cfg peers o.votes, e)
            (unfold give_up release_everywhere announce stamped broadcast in
              Turned-freed n i (await_votes r d peers) _ r.id at refl refl
                (unfold update_drone_status release_lock in refl)
                (released now n.state r.id d.id "IDLE"))
    ]

    Turned-end_dispatch :
        (now : ℕ) (answer : Option Message) (at : get_elem? n.started i ≡ some (await_drone r d))
        → Turned json cfg id W
            (accepts id (some (await_drone r d)) answer)
            n
            (end_dispatch json cfg now (popped n i (await_drone r d) at) r d answer)
    unfolding end_dispatch release_everywhere gossip_update_now announce stamped broadcast
    Turned-end_dispatch now (some m) at =
        let gone = count-without (is_flight id) n.started i (await_drone r d) at in
        let left = count-without (holds id) n.started i (await_drone r d) at in
        Turned-Quiet json cfg id W (if r.id == id then 1 else 0) n (popped n i (await_drone r d) at)
          _ refl (omega (arith, left)) (omega (arith, gone))
          (λ ps a. All-without (Asked ps) n.started i a)
          (record { locks = refl; peers = refl; tasks = inl refl })
    Turned-end_dispatch now none at =
        Turned-freed n i (await_drone r d) _ r.id at refl refl
          (unfold update_drone_status release_lock in refl)
          (unfold update_drone_status holder in release_lock_lem _ r.id id)

  -- Every goroutine of a base, when it goes on.
  pub Turned-run_started :
      (i : ℕ) (o : Outcome) (n : Node)
      → ((r : Request) (d : Drone) (peers : List Base)
          → get_elem? n.started i ≡ some (await_votes r d peers)
          → r.id ≡ id
          → unanimous json cfg peers o.votes ≡ true
          → W)
      → Turned json cfg id W
          (accepts id (get_elem? n.started i) o.answer)
          n
          (run_started json cfg i o n (get_elem? n.started i))
  unfolding run_started run_task
  Turned-run_started i o n win = elim (Option-cases (get_elem? n.started i)) [
    | inl e ↦
        rw (run_started, e)
          (Turned-Quiet json cfg id W 0 n n n refl (omega arith) (omega arith) (λ ps a. a)
            (record { locks = refl; peers = refl; tasks = inl refl }))
    | inr (t, e) ↦ rw (run_started, e) (runs t e)
  ]
    where
      runs :
          (t : Task)
          → get_elem? n.started i ≡ some t
          → Turned json cfg id W
              (accepts id (some t) o.answer)
              n
              (run_task json cfg o (record n { started = without i n.started }) t)
      runs (gossip_queue_add r) e =
          unfold gossip_add_now announce stamped broadcast in
          Turned-popped n i (gossip_queue_add r) e _
            (record { locks = refl; peers = refl; tasks = inl refl })
      runs (gossip_queue_update r) e =
          unfold gossip_update_now announce stamped broadcast in
          Turned-popped n i (gossip_queue_update r) e _
            (record { locks = refl; peers = refl; tasks = inl refl })
      runs (propagate_drone_info d) e =
          unfold propagate_now announce stamped broadcast in
          Turned-popped n i (propagate_drone_info d) e _
            (record { locks = refl; peers = refl; tasks = inl refl })
      runs (broadcast_lock_release k) e =
          unfold release_everywhere announce stamped broadcast in
          Turned-popped n i (broadcast_lock_release k) e _
            (record { locks = refl; peers = refl; tasks = inl refl })
      runs (send_full_queue_sync a) e =
          unfold full_sync_now stamped send in
          Turned-popped n i (send_full_queue_sync a) e _
            (record { locks = refl; peers = refl; tasks = inl refl })
      runs balance_drones e =
          Turned-popped n i balance_drones e _
            (Quiet-balance o.now o.choice (record n { started = without i n.started }))
      runs (dispatch r d) e = Turned-start_dispatch n i r d e o.now
      runs (await_votes r d peers) e = Turned-end_votes n i r d o.now o peers e (win r d peers e)
      runs (await_drone r d) e = Turned-end_dispatch n i r d o.now o.answer e

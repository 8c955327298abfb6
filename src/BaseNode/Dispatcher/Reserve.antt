-- ===== src/BaseNode/Dispatcher/Reserve.antt =====
-- tryDispatch of cmd/base/dispatcher.go: which request and which drone are set aside, and what a
-- heartbeat of the drone does to that.
use mi_desbloqueio_do_estrei.Common.{
  ℕ, ◌≡◌, refl, ◌∙◌, ◌++◌, ◌&&◌, ◌||◌, ◌==◌, String, some, Bool, true, false, none, List, [], ◌∷◌,
  any, count, update_first, IsIn, arith, inl, inr, ◌⊎◌, Bool-cases, Option-cases, eq_refl, ltb,
}
use mi_desbloqueio_do_estrei.Common.Assoc.{map_option, modify, lookup-modify}
use mi_desbloqueio_do_estrei.Models.{
  Request, Drone, HeartbeatPayload, status_locked, drone_idle, drone_busy,
}
use mi_desbloqueio_do_estrei.Queue.{
  has_id, pending_len, set_status, update_status, is_drone_assigned, assigned_to,
}
use mi_desbloqueio_do_estrei.Queue.Peek.{IsFirst, peek_lem}
use mi_desbloqueio_do_estrei.State.{
  all_drones, get_drone, idle_drone, is_idle_at, touched, touch_drone, update_drone_status,
}
use mi_desbloqueio_do_estrei.State.Drones.{idle_drone-IsIn, idle_drone_found}
use mi_desbloqueio_do_estrei.BaseNode.{Config, Node, dispatch, go}
use mi_desbloqueio_do_estrei.BaseNode.Dispatcher.{reserve, try_drone, try_request, try_dispatch}
use mi_desbloqueio_do_estrei.BaseNode.Heartbeat.{handle_drone_heartbeat}

module _ (cfg : Config) (now choice : ℕ) (n : Node) where
  -- Why nothing is set aside: no request is pending, no drone of the base is idle, or the idle one that
  -- idleDrone gives still has a request assigned to it.
  abbrev pub IsBlocked : Type 0
  IsBlocked =
      (pending_len n.pq ≡ 0)
      ⊎ (count (is_idle_at cfg.base_id) (all_drones n.state) ≡ 0)
      ⊎ ((d : Drone) × (idle_drone choice n.state cfg.base_id ≡ some d)
          × IsIn d (all_drones n.state)
          × (is_idle_at cfg.base_id d ≡ true)
          × (is_drone_assigned n.pq d.id ≡ true))

  -- A request with this ID that is locked by this base for the drone. UpdateStatus writes no empty name.
  abbrev pub locked_for : String → String → Request → Bool
  locked_for id drone x =
      has_id id x
      && x.status == status_locked
      && (x.locked_by == cfg.base_id || cfg.base_id == "")
      && (x.assigned_to == drone || drone == "")

  -- The request is locked in the queue for the drone, the drone is busy, and a goroutine of this base will
  -- ask for the lock on the request; no message is sent.
  pub record IsSetAside (n' : Node) (r : Request) (d : Drone) : Type 0 where
    pub locked : any (locked_for r.id d.id) n'.pq.heap ≡ true
    pub busy :
        get_drone n'.state d.id
        ≡ map_option
            (λ x. record x { status = drone_busy; last_seen = now })
            (get_drone n.state d.id)
    pub started : n'.started ≡ n.started ++ dispatch r d ∷ []
    pub sent : n'.sent ≡ n.sent

  any-locked :
      (base drone : String) (r : Request) (xs : List Request)
      → base ≡ cfg.base_id
      → IsIn r xs
      → any
          (locked_for r.id drone)
          (update_first (has_id r.id) (set_status now status_locked base drone) xs)
        ≡ true
  unfolding set_status
  any-locked base drone r [] b i = absurd i
  any-locked base drone r (x ∷ xs) b (inl e) =
      rw (← e, ← b) (ground (arith, eq_refl r.id, eq_refl base, eq_refl drone))
  any-locked base drone r (x ∷ xs) b (inr i) = elim (Bool-cases (has_id r.id x)) [
    | inl e ↦ rw (e, ← b) (ground (arith, e, eq_refl base, eq_refl drone))
    | inr e ↦ rw e (ground (arith, any-locked base drone r xs b i))
  ]

  reserve-IsSetAside :
      (r : Request) (d : Drone) → IsIn r n.pq.heap → IsSetAside (reserve cfg now n r d) r d
  unfolding reserve go update_status update_drone_status get_drone
  reserve-IsSetAside r d i = record {
    locked = any-locked cfg.base_id d.id r n.pq.heap refl i;
    busy =
        lookup-modify d.id d.id (λ (x : Drone). record x { status = drone_busy; last_seen = now })
          n.state.drones
        ∙ rw (eq_refl d.id) refl;
    started = refl;
    sent = refl;
  }

  -- What is set aside: the first of the pending requests, and the idle drone of the base that idleDrone
  -- gives, to which no request is assigned.
  abbrev pub IsReserved : Node → Type 0
  IsReserved n' =
      (r : Request) × (d : Drone) × IsIn r n.pq.heap
      × IsFirst n.pq.heap r
      × (idle_drone choice n.state cfg.base_id ≡ some d)
      × IsIn d (all_drones n.state)
      × (is_idle_at cfg.base_id d ≡ true)
      × (is_drone_assigned n.pq d.id ≡ false)
      × IsSetAside n' r d

  no_idle :
      idle_drone choice n.state cfg.base_id ≡ none
      → count (is_idle_at cfg.base_id) (all_drones n.state) ≡ 0
  no_idle e = elim (Bool-cases (ltb 0 (count (is_idle_at cfg.base_id) (all_drones n.state)))) [
    | inl l ↦
        let (d, found) = idle_drone_found choice n.state cfg.base_id (ground arith) in
        absurd (ground arith)
    | inr l ↦ ground arith
  ]

  with_request :
      (r : Request)
      → IsIn r n.pq.heap
      → IsFirst n.pq.heap r
      → ((try_request cfg now choice n (some r) ≡ n) × IsBlocked)
        ⊎ IsReserved (try_request cfg now choice n (some r))
  unfolding try_request try_drone
  with_request r m f = elim (Option-cases (idle_drone choice n.state cfg.base_id)) [
    | inl e ↦ inl (rw (f.0, e) refl, inr (inl (no_idle e)))
    | inr (d, e) ↦
        let (i, idle) = idle_drone-IsIn choice n.state cfg.base_id d e in
        elim (Bool-cases (is_drone_assigned n.pq d.id)) [
          | inl a ↦ inl (rw (f.0, e, a) refl, inr (inr (d, e, i, idle, a)))
          | inr a ↦ inr (r, d, m, f, e, i, idle, a, rw (f.0, e, a) (reserve-IsSetAside r d m))
        ]
  ]

  -- A tick of the dispatcher either changes nothing, since no request is pending, or no drone of the base
  -- is idle, or the idle drone that it looks at still has a request; or it sets aside the first of the
  -- pending requests and an idle drone of the base to which no request is assigned: the request is locked
  -- in the queue for the drone, the drone is busy, and a goroutine is started that asks for the lock.
  pub try_dispatch_lem :
      ((try_dispatch cfg now choice n ≡ n) × IsBlocked) ⊎ IsReserved (try_dispatch cfg now choice n)
  unfolding try_dispatch try_request
  try_dispatch_lem = elim (peek_lem n.pq) [
    | inl (e, z) ↦ inl (rw e refl, inl z)
    | inr (r, e, m, f) ↦ rw e (with_request r m f)
  ]

any-update_first_lock :
    (p q : Request → Bool) (f : Request → Request) (xs : List Request)
    → ((x : Request) → q (f x) ≡ true → q x ≡ true)
    → any q xs ≡ false
    → any q (update_first p f xs) ≡ false
any-update_first_lock p q f [] h a = refl
any-update_first_lock p q f (x ∷ xs) h a = elim (Bool-cases (p x)) [
  | inl e ↦ rw e (ground (arith, h x))
  | inr e ↦ rw e (ground (arith, any-update_first_lock p q f xs h (ground arith)))
]

-- A locked request does not count as assigned.
is_drone_assigned-reserve :
    (cfg : Config) (now : ℕ) (n : Node) (r : Request) (d : Drone)
    → is_drone_assigned n.pq d.id ≡ false
    → is_drone_assigned (reserve cfg now n r d).pq d.id ≡ false
unfolding reserve go update_status is_drone_assigned set_status
is_drone_assigned-reserve cfg now n r d a =
    any-update_first_lock (has_id r.id) (assigned_to d.id)
      (set_status now status_locked cfg.base_id d.id) n.pq.heap (λ x h. absurd (ground arith)) a

-- While a drone is set aside and has not been told, its own heartbeat, which says IDLE, makes it idle
-- again, and the queue does not say that it is taken: for any other pending request the dispatcher
-- sets it aside a second time.
pub reserve_twice :
    (cfg : Config) (now later : ℕ) (n : Node) (r other : Request) (d : Drone)
    (hb : HeartbeatPayload)
    → get_drone n.state d.id ≡ some d
    → d.base_id ≡ cfg.base_id
    → is_drone_assigned n.pq d.id ≡ false
    → hb.node_id ≡ d.id
    → hb.base_id ≡ cfg.base_id
    → hb.status ≡ drone_idle
    → let n' = handle_drone_heartbeat later (reserve cfg now n r d) hb in
      (again : Drone) × (get_drone n'.state d.id ≡ some again)
      × (is_idle_at cfg.base_id again ≡ true)
      × (try_drone cfg later n' other (some again) ≡ reserve cfg later n' other again)
unfolding handle_drone_heartbeat touch_drone touched update_drone_status get_drone try_drone reserve
    go
reserve_twice cfg now later n r other d hb known home a id base status =
    let busy : Drone = record d { status = drone_busy; last_seen = now } in
    let seen =
      modify d.id (λ (x : Drone). record x { status = drone_busy; last_seen = now })
        n.state.drones in
    (
      touched later hb.base_id hb.status busy,
      ground (
        arith,
        eq_refl d.id,
        eq_refl hb.node_id,
        lookup-modify d.id d.id (λ (x : Drone). record x { status = drone_busy; last_seen = now })
            n.state.drones,
        lookup-modify hb.node_id d.id (touched later hb.base_id hb.status) seen,
      ),
      rw (status, base, home) (ground (arith, eq_refl cfg.base_id)),
      rw (status, is_drone_assigned-reserve cfg now n r d a) refl,
    )

-- ===== src/System/Turn.antt =====
-- What one event does to the lock on a request and to the goroutines that hold it, at one base of
-- cmd/base.
use mi_desbloqueio_do_estrei.Common.{
  ℕ, ◌+◌, ◌≤◌, ◌≡◌, refl, ap, ◌∙◌, String, false, none, some, List, [], ◌∷◌, ◌++◌, ◌⊎◌, inl, inr,
  All, count, count-append, arith,
}
use mi_desbloqueio_do_estrei.Models.{Base}
use mi_desbloqueio_do_estrei.State.{BaseState, online_peers}
use mi_desbloqueio_do_estrei.State.Locks.{holder}
use mi_desbloqueio_do_estrei.BaseNode.{
  Config, Json, Node, Task, gossip_queue_add, gossip_queue_update, propagate_drone_info,
  broadcast_lock_release, send_full_queue_sync, balance_drones, dispatch, await_votes, await_drone,
}
use mi_desbloqueio_do_estrei.System.Tasks.{holds, is_flight, busy, flights, Asked, All-append_one}

-- A goroutine that holds no lock.
abbrev pub IsIdle : Task → Type 0
IsIdle (await_votes r d peers) = ⊥
IsIdle (await_drone r d) = ⊥
IsIdle _ = Unit

holds_idle : (id : String) (t : Task) → IsIdle t → (holds id t ≡ false) × (is_flight id t ≡ false)
holds_idle id (gossip_queue_add r) i = (refl, refl)
holds_idle id (gossip_queue_update r) i = (refl, refl)
holds_idle id (propagate_drone_info d) i = (refl, refl)
holds_idle id (broadcast_lock_release r) i = (refl, refl)
holds_idle id (send_full_queue_sync a) i = (refl, refl)
holds_idle id balance_drones i = (refl, refl)
holds_idle id (dispatch r d) i = (refl, refl)
holds_idle id (await_votes r d peers) i = absurd i
holds_idle id (await_drone r d) i = absurd i

asked_idle : (ps : List Base) (t : Task) → IsIdle t → Asked ps t
asked_idle ps (gossip_queue_add r) i = tt
asked_idle ps (gossip_queue_update r) i = tt
asked_idle ps (propagate_drone_info d) i = tt
asked_idle ps (broadcast_lock_release r) i = tt
asked_idle ps (send_full_queue_sync a) i = tt
asked_idle ps balance_drones i = tt
asked_idle ps (dispatch r d) i = tt
asked_idle ps (await_votes r d peers) i = absurd i
asked_idle ps (await_drone r d) i = absurd i

-- The goroutines of one list are those of another, but for one more that is idle.
abbrev pub AddsIdle : List Task → List Task → Type 0
AddsIdle ts ts' = (ts' ≡ ts) ⊎ ((t : Task) × (ts' ≡ ts ++ t ∷ []) × IsIdle t)

count-AddsIdle :
    (id : String) (ts ts' : List Task)
    → AddsIdle ts ts'
    → (count (holds id) ts' ≡ count (holds id) ts)
      × (count (is_flight id) ts' ≡ count (is_flight id) ts)
count-AddsIdle id ts ts' (inl e) = (ap (count (holds id)) e, ap (count (is_flight id)) e)
count-AddsIdle id ts ts' (inr (t, e, i)) =
    let (a, b) = holds_idle id t i in
    (
      rw (e, count-append (holds id) ts (t ∷ []), a) (omega arith),
      rw (e, count-append (is_flight id) ts (t ∷ []), b) (omega arith),
    )

asked-AddsIdle :
    (ps : List Base) (ts ts' : List Task) → AddsIdle ts ts' → All (Asked ps) ts → All (Asked ps) ts'
asked-AddsIdle ps ts ts' (inl e) a = rw e a
asked-AddsIdle ps ts ts' (inr (t, e, i)) a =
    rw e (All-append_one (Asked ps) ts t a (asked_idle ps t i))

-- What an event does as to the lock on a request, for a base with this name: nothing but that a free
-- lock may be taken or a goroutine ends; or it takes the lock for a dispatch of its own; or it has
-- won, as `W` says, and sends the drone; or it gives up and frees the lock. `k` counts the drones that
-- have said yes to their order by this event, and are not awaited any more.
pub data Turn (json : Json) (cfg : Config) (id : String) (W : Type 0) (k : ℕ) (n n' : Node)
    : Type 0 where
  calm :
      (busy id n' + k ≤ busy id n)
      → (flights id n' + k ≤ flights id n)
      → ((o : String) → holder n.state id ≡ some o → holder n'.state id ≡ some o)
      → Turn json cfg id W k n n'
  begins :
      (k ≡ 0)
      → (holder n.state id ≡ none)
      → (holder n'.state id ≡ some cfg.base_id)
      → (busy id n' ≡ busy id n + 1)
      → ((flights id n' ≡ flights id n) ⊎ (online_peers n.state ≡ []))
      → Turn json cfg id W k n n'
  flies :
      (k ≡ 0)
      → W
      → (holder n'.state id ≡ holder n.state id)
      → (busy id n' ≡ busy id n)
      → Turn json cfg id W k n n'
  fails :
      (k ≡ 0)
      → (busy id n ≡ busy id n' + 1)
      → (holder n'.state id ≡ none)
      → (flights id n' ≤ flights id n)
      → Turn json cfg id W k n n'

pub record Turned (json : Json) (cfg : Config) (id : String) (W : Type 0) (k : ℕ) (n n' : Node)
    : Type 0 where
  pub turn : Turn json cfg id W k n n'
  pub online : online_peers n'.state ≡ online_peers n.state
  pub asked :
      All (Asked (online_peers n.state)) n.started → All (Asked (online_peers n'.state)) n'.started

module _ (json : Json) (cfg : Config) (id : String) where
  -- The locks and the peers stay, and at most an idle goroutine is started.
  pub record Quiet (n n' : Node) : Type 0 where
    pub locks : n'.state.locks ≡ n.state.locks
    pub peers : n'.state.peers ≡ n.state.peers
    pub tasks : AddsIdle n.started n'.started

  online-Quiet : (s s' : BaseState) → s'.peers ≡ s.peers → online_peers s' ≡ online_peers s
  unfolding online_peers
  online-Quiet s s' e = rw e refl

  holder-Quiet : (s s' : BaseState) → s'.locks ≡ s.locks → holder s' id ≡ holder s id
  unfolding holder
  holder-Quiet s s' e = rw e refl

  -- A quiet event after a goroutine has left the list, or none.
  pub Turned-Quiet :
      (W : Type 0) (k : ℕ) (n m n' : Node)
      → m.state ≡ n.state
      → count (holds id) m.started + k ≤ busy id n
      → count (is_flight id) m.started + k ≤ flights id n
      → ((ps : List Base) → All (Asked ps) n.started → All (Asked ps) m.started)
      → Quiet m n'
      → Turned json cfg id W k n n'
  Turned-Quiet W k n m n' s b f a q =
      let (cb, cf) = count-AddsIdle id m.started n'.started q.tasks in
      let on : online_peers n'.state ≡ online_peers n.state =
        online-Quiet n.state n'.state (q.peers ∙ ap (λ (t : BaseState). t.peers) s) in
      record {
        turn = calm (omega (arith, b, cb)) (omega (arith, f, cf)) (λ o h.
            holder-Quiet n.state n'.state (q.locks ∙ ap (λ (t : BaseState). t.locks) s) ∙ h);
        online = on;
        asked = λ all. rw on (asked-AddsIdle _ m.started n'.started q.tasks (a _ all));
      }

-- ===== src/BaseNode/Step/Passing.antt =====
-- What a method of cmd/base/state.go does to the well-formedness of the state and to the holder of each
-- lock, for one method and for several in a row.
use mi_desbloqueio_do_estrei.Common.{
  ◌≡◌, refl, ◌∙◌, String, Bool, true, false, Option, none, some, if◌then◌else◌, ◌==◌, ◌⊎◌, inl, inr,
  Bool-cases, Option-cases, eq_iff, ltb,
}
use mi_desbloqueio_do_estrei.Models.{Drone, Base}
use mi_desbloqueio_do_estrei.State
use mi_desbloqueio_do_estrei.Common.Assoc.{lookup}
use mi_desbloqueio_do_estrei.State.{BaseState, is_locked}
use mi_desbloqueio_do_estrei.State.Locks.{holder, try_lock_lem, release_lock_lem}
use mi_desbloqueio_do_estrei.State.WellFormed.{
  StateOp, touch_sensor_op, touch_broker_op, touch_drone_op, remove_drone_op, update_peer_op,
  offline_op, register_op, status_op, mission_op, release_op, clear_locks_op, purge_op, try_lock_op,
  apply_op, apply_op-IsWellFormed, IsWellFormed,
}
use mi_desbloqueio_do_estrei.BaseNode.{Node}

-- The operation does not take a lock.
abbrev pub IsNoTake : StateOp → Type 0
IsNoTake (try_lock_op req base) = ⊥
IsNoTake _ = Unit

-- A lock stays as it is, or is freed.
abbrev pub IsLetGo : BaseState → BaseState → Type 0
IsLetGo s s' = (id : String) → (holder s' id ≡ holder s id) ⊎ (holder s' id ≡ none)

register_drone-locks : (s : BaseState) (d : Drone) → (State.register_drone s d).locks ≡ s.locks
unfolding State.register_drone
register_drone-locks s d = elim (Option-cases (lookup d.id s.drones)) [
  | inl e ↦ rw (State.register_drone, e) refl
  | inr (old, e) ↦ elim (Bool-cases (ltb d.last_seen old.last_seen)) [
    | inl l ↦ rw (State.register_drone, e, l) refl
    | inr l ↦ rw (State.register_drone, e, l) refl
  ]
]

update_peer-locks : (s : BaseState) (b : Base) → (State.update_peer s b).locks ≡ s.locks
unfolding State.update_peer
update_peer-locks s b = elim (Option-cases (lookup b.id s.peers)) [
  | inl e ↦ rw (State.update_peer, e) refl
  | inr (old, e) ↦ rw (State.update_peer, e) refl
]

release_lock-IsLetGo : (s : BaseState) (req : String) → IsLetGo s (State.release_lock s req)
release_lock-IsLetGo s req id = elim (Bool-cases (req == id)) [
  | inl e ↦ inr (release_lock_lem s req id ∙ rw e refl)
  | inr e ↦ inl (release_lock_lem s req id ∙ rw e refl)
]

apply_op-IsLetGo : (s : BaseState) (op : StateOp) → IsNoTake op → IsLetGo s (apply_op s op)
unfolding apply_op State.touch_sensor State.touch_broker State.update_drone_status State.touch_drone
    State.update_drone_mission_desc State.remove_drone State.purge_lost_drones
    State.mark_peer_offline State.clear_locks holder lookup
apply_op-IsLetGo s (touch_sensor_op k t) u id = inl refl
apply_op-IsLetGo s (touch_broker_op k t) u id = inl refl
apply_op-IsLetGo s (register_op d) u id = inl (rw (register_drone-locks s d) refl)
apply_op-IsLetGo s (status_op now k status) u id = inl refl
apply_op-IsLetGo s (touch_drone_op now k base status) u id = inl refl
apply_op-IsLetGo s (mission_op now k desc) u id = inl refl
apply_op-IsLetGo s (remove_drone_op k) u id = inl refl
apply_op-IsLetGo s purge_op u id = inl refl
apply_op-IsLetGo s (update_peer_op b) u id = inl (rw (update_peer-locks s b) refl)
apply_op-IsLetGo s (offline_op k) u id = inl refl
apply_op-IsLetGo s (try_lock_op req base) u id = absurd u
apply_op-IsLetGo s (release_op req) u id = unfold holder in release_lock-IsLetGo s req id
apply_op-IsLetGo s clear_locks_op u id = inr refl

-- A well-formed state stays one, and locks are only let go.
pub record Sound (n n' : Node) : Type 0 where
  pub stays : IsWellFormed n.state → IsWellFormed n'.state
  pub locks : IsLetGo n.state n'.state

-- A well-formed state stays one, and a lock that is held stays with its holder or is freed.
pub record Passes (n n' : Node) : Type 0 where
  pub stays : IsWellFormed n.state → IsWellFormed n'.state
  pub held :
      (id b : String)
      → holder n.state id ≡ some b
      → (holder n'.state id ≡ some b) ⊎ (holder n'.state id ≡ none)

pub Sound-same : {n n' : Node} → n'.state ≡ n.state → Sound n n'
Sound-same e = record { stays = λ w. rw e w; locks = λ id. inl (rw e refl) }

pub Sound-op :
    {n n' : Node} (op : StateOp) → IsNoTake op → n'.state ≡ apply_op n.state op → Sound n n'
Sound-op {n} op u e = record {
  stays = λ w. rw e (apply_op-IsWellFormed n.state op w);
  locks = rw e (apply_op-IsLetGo n.state op u);
}

IsLetGo-trans : (a b c : BaseState) → IsLetGo a b → IsLetGo b c → IsLetGo a c
IsLetGo-trans a b c f g id = elim (g id) [
  | inr e ↦ inr e
  | inl e ↦ elim (f id) [ inl d ↦ inl (e ∙ d) | inr d ↦ inr (e ∙ d) ]
]

pub Sound-trans : {a b c : Node} → Sound a b → Sound b c → Sound a c
Sound-trans {a} {b} {c} e f = record {
  stays = λ w. f.stays (e.stays w);
  locks = IsLetGo-trans a.state b.state c.state e.locks f.locks;
}

pub Sound-if : {n a b : Node} (c : Bool) → Sound n a → Sound n b → Sound n (if c then a else b)
Sound-if true h g = h
Sound-if false h g = g

pub Sound-some :
    {A : Type 0} {n m : Node} {f : A → Node} (o : Option A)
    → Sound n m
    → ((a : A) → Sound n (f a))
    → Sound n (elim o [ none ↦ m | some a ↦ f a ])
Sound-some none h g = h
Sound-some (some a) h g = g a

pub Sound-op-op :
    {n n' : Node} (op op' : StateOp)
    → IsNoTake op
    → IsNoTake op'
    → n'.state ≡ apply_op (apply_op n.state op) op'
    → Sound n n'
Sound-op-op {n} op op' u v e = record {
  stays = λ w.
      rw e (apply_op-IsWellFormed (apply_op n.state op) op' (apply_op-IsWellFormed n.state op w));
  locks = rw e (
      IsLetGo-trans n.state (apply_op n.state op) (apply_op (apply_op n.state op) op')
        (apply_op-IsLetGo n.state op u) (apply_op-IsLetGo (apply_op n.state op) op' v));
}

pub Passes-Sound : {n n' : Node} → Sound n n' → Passes n n'
Passes-Sound f = record {
  stays = f.stays;
  held = λ id b h. elim (f.locks id) [ inl e ↦ inl (e ∙ h) | inr e ↦ inr e ];
}

held_locked :
    (s : BaseState) (req id b : String)
    → (req == id) ≡ true
    → holder s id ≡ some b
    → is_locked s req ≡ true
unfolding is_locked holder
held_locked s req id b q h = let same : req ≡ id = (eq_iff req id).0 q in rw (same, h) refl

try_lock-keeps :
    (s : BaseState) (req base id b : String)
    → holder s id ≡ some b
    → holder (State.try_lock s req base).0 id ≡ some b
try_lock-keeps s req base id b h = elim (Bool-cases (req == id)) [
  | inl q ↦ (try_lock_lem s req base id).1 ∙ rw (q, held_locked s req id b q h) h
  | inr q ↦ (try_lock_lem s req base id).1 ∙ rw q h
]

-- tryLock on a lock that is held changes nothing.
pub Passes-take :
    {n n' : Node} (req base : String)
    → n'.state ≡ apply_op n.state (try_lock_op req base)
    → Passes n n'
unfolding apply_op
Passes-take {n} req base e = record {
  stays = λ w. rw e (apply_op-IsWellFormed n.state (try_lock_op req base) w);
  held = λ id b h. inl (rw e (try_lock-keeps n.state req base id b h));
}

pub Passes-then : {a b c : Node} → Passes a b → Sound b c → Passes a c
Passes-then f g = record {
  stays = λ w. g.stays (f.stays w);
  held = λ id b h. elim (f.held id b h) [
    | inl e ↦ elim (g.locks id) [ inl d ↦ inl (d ∙ e) | inr d ↦ inr d ]
    | inr e ↦ elim (g.locks id) [ inl d ↦ inr (d ∙ e) | inr d ↦ inr d ]
  ];
}

pub Passes-from : {a b c : Node} → b.state ≡ a.state → Passes b c → Passes a c
Passes-from e f = record { stays = λ w. f.stays (rw e w); held = λ id b h. f.held id b (rw e h) }

pub Passes-if : {n a b : Node} (c : Bool) → Passes n a → Passes n b → Passes n (if c then a else b)
Passes-if true h g = h
Passes-if false h g = g

pub Passes-some :
    {A : Type 0} {n m : Node} {f : A → Node} (o : Option A)
    → Passes n m
    → ((a : A) → Passes n (f a))
    → Passes n (elim o [ none ↦ m | some a ↦ f a ])
Passes-some none h g = h
Passes-some (some a) h g = g a

-- ===== src/State/Locks.antt =====
-- The locks of cmd/base/state.go: a request has one holder at a time.
use mi_desbloqueio_do_estrei.Common.{
  ◌≡◌, String, true, false, not, ◌&&◌, Option, none, some, arith, if◌then◌else◌, ◌==◌, eq_iff,
}
use mi_desbloqueio_do_estrei.Common.Assoc.{lookup, lookup-insert, lookup-delete}
use mi_desbloqueio_do_estrei.State.{BaseState, try_lock, release_lock, is_locked}

-- The holder of the lock on a request.
unfoldable pub holder : BaseState → String → Option String
holder s req_id = lookup req_id s.locks

-- tryLock succeeds exactly on a free request, makes the caller its holder, and touches no other
-- lock; on a held request it changes nothing.
pub try_lock_lem :
    (s : BaseState) (req base other : String)
    → ((try_lock s req base).1 ≡ not (is_locked s req))
      × (holder (try_lock s req base).0 other
          ≡ (if req == other && not (is_locked s req) then some base else holder s other))
unfolding try_lock is_locked holder
try_lock_lem s req base other =
    ground (arith, lookup-insert req other base s.locks, eq_iff req other)

-- releaseLock frees the request, whoever holds it, and no other.
pub release_lock_lem :
    (s : BaseState) (req other : String)
    → holder (release_lock s req) other ≡ (if req == other then none else holder s other)
unfolding release_lock holder
release_lock_lem s req other = lookup-delete req other s.locks

pub try_lock-held :
    (s : BaseState) (req base : String) → is_locked s req ≡ true → try_lock s req base ≡ (s, false)
unfolding try_lock is_locked
try_lock-held s req base h = ground arith

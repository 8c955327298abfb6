-- ===== src/System/Safety.antt =====
-- Runs of several bases of cmd/base: no two of them have a drone under way for one request, if one takes
-- the other for online and no lock is released by a message.
use mi_desbloqueio_do_estrei.Common.{
  ◌+◌, count-append, eq_iff, ◌&&◌, ap, ℕ, ◌≤◌, ◌≡◌, ◌≢◌, refl, sym, ◌∙◌, subst, String, true,
  Option, none, some, List, [], ◌∷◌, ◌++◌, ◌⊎◌, inl, inr, IsIn, get_elem?, ltb, if◌then◌else◌, ◌==◌,
  arith, Bool-cases, eq_refl,
}
use mi_desbloqueio_do_estrei.Models.{Request, Drone, Base, Message}
use mi_desbloqueio_do_estrei.State.{online_peers}
use mi_desbloqueio_do_estrei.State.Locks.{holder}
use mi_desbloqueio_do_estrei.BaseNode.{
  Config, Json, Node, Task, gossip_queue_add, gossip_queue_update, propagate_drone_info,
  broadcast_lock_release, send_full_queue_sync, balance_drones, dispatch, await_votes, await_drone,
}
use mi_desbloqueio_do_estrei.BaseNode.Dispatcher.Votes.{unanimous}
use mi_desbloqueio_do_estrei.BaseNode.Servers.{handle_gossip_conn}
use mi_desbloqueio_do_estrei.BaseNode.Servers.Locking.{ReadsReplies}
use mi_desbloqueio_do_estrei.BaseNode.Step.{Outcome, step}
use mi_desbloqueio_do_estrei.System.{
  System, Ballot, Act, picks, serves, asks, runs, place, event, perform, perform_all, Collected,
  MayPerform, MayPerformAll, mission_of,
}
use mi_desbloqueio_do_estrei.System.Tasks.{accepts, flights-le-busy, Asked, All-get_elem?}
use mi_desbloqueio_do_estrei.System.Runs.{Turned-try_dispatch, Turned-run_started}
use mi_desbloqueio_do_estrei.System.Vote.{Turned-gossip_conn, IsVote, ballots_at, ballots_at-IsVote}
use mi_desbloqueio_do_estrei.System.Exclusive.{
  flown, under_way, committed, IsKept, HasWon, IsSafe, IsSafe-turn, some_inj,
}

IsIn-append : {A : Type 0} (a : A) (xs ys : List A) → IsIn a (xs ++ ys) → IsIn a xs ⊎ IsIn a ys
IsIn-append a [] ys i = inr i
IsIn-append a (x ∷ xs) ys (inl e) = inl (inl e)
IsIn-append a (x ∷ xs) ys (inr i) = elim (IsIn-append a xs ys i) [
  | inl j ↦ inl (inr j)
  | inr j ↦ inr j
]

-- Every base has a name of its own.
abbrev pub HasNames : (String → Config) → Type 0
HasNames cfgs = (a b : String) → (cfgs a).base_id ≡ (cfgs b).base_id → a ≡ b

-- No dispatch is under way, and no drone flies.
abbrev pub IsAtRest : System → Type 0
IsAtRest s = ((a : String) → (s.nodes a).started ≡ []) × (s.ballots ≡ []) × (s.missions ≡ [])

module _ (json : Json) (cfgs : String → Config) (id : String) where
  -- Bases that have all granted the lock hold it for the one that has asked.
  voters :
      (s : System) (addr : String) (peers : List Base) (votes : List (Option Message))
      → IsSafe json cfgs id s
      → Collected json cfgs s addr id peers votes
      → unanimous json (cfgs addr) peers votes ≡ true
      → (p : Base) → IsIn p peers
      → holder (s.nodes p.gossip_addr).state id ≡ some (cfgs addr).base_id
  voters s addr [] votes safe c u p i = absurd i
  voters s addr (q ∷ peers) [] safe c u p i = absurd (cc)
  voters s addr (q ∷ peers) (none ∷ votes) safe c u p i = absurd (cc)
  voters s addr (q ∷ peers) (some msg ∷ votes) safe c u p (inl e) =
      rw e (safe.kept _ c.0 refl (ground (arith, u))).1
  voters s addr (q ∷ peers) (some msg ∷ votes) safe c u p (inr i) =
      voters s addr peers votes safe c.1 (ground (arith, u)) p i

  wins :
      (s : System) (addr : String) (i : ℕ) (o : Outcome) (r : Request) (d : Drone)
      (peers : List Base)
      → IsSafe json cfgs id s
      → MayPerform json cfgs s (runs addr i o)
      → get_elem? (s.nodes addr).started i ≡ some (await_votes r d peers)
      → r.id ≡ id
      → unanimous json (cfgs addr) peers o.votes ≡ true
      → HasWon json cfgs id s.nodes addr
  wins s addr i o r d peers safe may at e u p j =
      let got : Collected json cfgs s addr r.id peers o.votes = rw at at may in
      let all : peers ≡ online_peers (s.nodes addr).state =
        All-get_elem? (Asked (online_peers (s.nodes addr).state)) (s.nodes addr).started i
          (await_votes r d peers) at (safe.asked addr) in
      voters s addr peers o.votes safe
        (subst (λ k. Collected json cfgs s addr k peers o.votes) e got) u p
        (subst (IsIn p) (sym all) j)

  placed :
      (s : System) (n' : Node) (addr voter asker from : String)
      → voter ≡ addr
      → from ≡ asker
      → holder n'.state id ≡ some (cfgs asker).base_id
      → holder (if voter == addr then n' else s.nodes voter).state id ≡ some (cfgs from).base_id
  placed s n' addr voter asker from v f h = rw (v, f, eq_refl addr) h

  new_ballot :
      (s : System) (asker addr : String) (n' : Node) (b : Ballot)
      → asker ≢ addr
      → IsVote json (cfgs addr) asker addr (cfgs asker).base_id n'.state b
      → IsKept json cfgs id (λ a. if a == addr then n' else s.nodes a) b
  new_ballot s asker addr n' b ne v r g = (
    λ q. ne (sym v.from ∙ q ∙ v.by),
    placed s n' addr b.voter asker b.asker v.by v.from
        (subst (λ k. holder n'.state k ≡ some (cfgs asker).base_id) r (v.grants g)),
  )

  flown-mission_of :
      (addr c : String) (t : Option Task) (answer : Option Message)
      → flown json cfgs id (mission_of addr t answer) c
        ≡ (if addr == c then accepts id t answer else 0)
  unfolding mission_of
  flown-mission_of addr c none answer = ground arith
  flown-mission_of addr c (some (gossip_queue_add r)) answer = ground arith
  flown-mission_of addr c (some (gossip_queue_update r)) answer = ground arith
  flown-mission_of addr c (some (propagate_drone_info d)) answer = ground arith
  flown-mission_of addr c (some (broadcast_lock_release k)) answer = ground arith
  flown-mission_of addr c (some (send_full_queue_sync a)) answer = ground arith
  flown-mission_of addr c (some balance_drones) answer = ground arith
  flown-mission_of addr c (some (dispatch r d)) answer = ground arith
  flown-mission_of addr c (some (await_votes r d peers)) answer = ground arith
  flown-mission_of addr c (some (await_drone r d)) none = ground arith
  flown-mission_of addr c (some (await_drone r d)) (some m) = ground arith

  flown-append :
      (ms : List (String × String)) (addr c : String) (t : Option Task) (answer : Option Message)
      → flown json cfgs id (ms ++ mission_of addr t answer) c
        ≡ flown json cfgs id ms c + (if addr == c then accepts id t answer else 0)
  flown-append ms addr c t answer =
      count-append (λ (m : String × String). m.0 == c && m.1 == id) ms (mission_of addr t answer)
      ∙ ap (λ x. flown json cfgs id ms c + x) (flown-mission_of addr c t answer)

  flown_more :
      (ms : List (String × String)) (addr : String) (t : Option Task) (answer : Option Message)
      → flown json cfgs id (ms ++ mission_of addr t answer) addr
        ≡ flown json cfgs id ms addr + accepts id t answer
  flown_more ms addr t answer = flown-append ms addr addr t answer ∙ rw (eq_refl addr) refl

  flown_others :
      (ms : List (String × String)) (addr c : String) (t : Option Task) (answer : Option Message)
      → c ≢ addr
      → flown json cfgs id (ms ++ mission_of addr t answer) c ≡ flown json cfgs id ms c
  flown_others ms addr c t answer ne = elim (Bool-cases (addr == c)) [
    | inl e ↦ absurd (ne (sym ((eq_iff addr c).0 e)))
    | inr e ↦ flown-append ms addr c t answer ∙ rw e (omega arith)
  ]

  perform-IsSafe :
      (s : System) (a : Act)
      → ReadsReplies json
      → HasNames cfgs
      → MayPerform json cfgs s a
      → IsSafe json cfgs id s
      → IsSafe json cfgs id (perform json cfgs s a)
  unfolding perform place event step
  perform-IsSafe s (picks addr now choice) reads names may safe =
      IsSafe-turn json cfgs id names s safe addr 0 _
        (Turned-try_dispatch json (cfgs addr) id _ now choice (s.nodes addr)) s.missions
        (omega arith) (λ c ne. refl) s.ballots (λ b i. inl i)
  perform-IsSafe s (serves addr msg) reads names may safe =
      IsSafe-turn json cfgs id names s safe addr 0 _
        (Turned-gossip_conn json (cfgs addr) id _ (s.nodes addr) msg reads may) s.missions
        (omega arith) (λ c ne. refl) s.ballots (λ b i. inl i)
  perform-IsSafe s (runs addr i o) reads names may safe =
      IsSafe-turn json cfgs id names s safe addr
        (accepts id (get_elem? (s.nodes addr).started i) o.answer) _
        (Turned-run_started json (cfgs addr) id _ i o (s.nodes addr)
          (λ r d peers at e u. wins s addr i o r d peers safe may at e u))
        (s.missions ++ mission_of addr (get_elem? (s.nodes addr).started i) o.answer)
        (flown_more s.missions addr (get_elem? (s.nodes addr).started i) o.answer)
        (λ c ne. flown_others s.missions addr c (get_elem? (s.nodes addr).started i) o.answer ne)
        s.ballots (λ b j. inl j)
  perform-IsSafe s (asks asker addr msg) reads names (other, ne, own) safe =
      IsSafe-turn json cfgs id names s safe addr 0 _
        (Turned-gossip_conn json (cfgs addr) id _ (s.nodes addr) msg reads other) s.missions
        (omega arith) (λ c ne. refl)
        (s.ballots ++ ballots_at json (cfgs addr) asker addr (s.nodes addr) msg)
        (λ b i. elim (IsIn-append b s.ballots _ i) [
          | inl j ↦ inl j
          | inr j ↦ inr (
              new_ballot s asker addr (handle_gossip_conn json (cfgs addr) (s.nodes addr) msg) b ne
                (ballots_at-IsVote json (cfgs addr) asker addr (cfgs asker).base_id (s.nodes addr)
                  msg b reads other own j))
        ])

  perform_all-IsSafe :
      (s : System) (acts : List Act)
      → ReadsReplies json
      → HasNames cfgs
      → MayPerformAll json cfgs s acts
      → IsSafe json cfgs id s
      → IsSafe json cfgs id (perform_all json cfgs s acts)
  unfolding perform_all
  perform_all-IsSafe s [] reads names may safe = safe
  perform_all-IsSafe s (a ∷ acts) reads names may safe =
      perform_all-IsSafe (perform json cfgs s a) acts reads names may.1
        (perform-IsSafe s a reads names may.0 safe)

  IsSafe-IsAtRest : (s : System) → IsAtRest s → IsSafe json cfgs id s
  IsSafe-IsAtRest s (rest, empty, landed) = record {
    own = λ a h. absurd (nothing a h);
    single = λ a. rw (rest a, landed) (omega arith);
    asked = λ a. rw (rest a) tt;
    kept = λ b i. absurd (rw empty at i);
    won = λ a h. absurd (nothing a (omega (arith, h, flights-le-busy id (s.nodes a))));
  }
    where
      nothing : (a : String) → 1 ≤ committed json cfgs id s a → ⊥
      nothing a h = let h' : 1 ≤ 0 + 0 = rw (rest a, landed) at h in absurd (omega (arith, h'))

  -- From a system of bases in which no dispatch is under way and no drone flies, whatever locks are held, after any acts: if
  -- the base at `a` takes a base with the gossip address `b` for online, they do not both have a drone
  -- under way for one request, where a drone is under way from its order until it fails to answer the
  -- order, and for good once it has answered. The acts are the timers of their dispatchers, their
  -- goroutines, and messages at their lock servers, in any order; no LOCK_RELEASE arrives, and nothing
  -- at their main servers, bases have different names, ask others than themselves and in their own
  -- name, and replies can be read back.
  pub flights_exclusive :
      (s : System) (acts : List Act) (a b : String) (p : Base)
      → ReadsReplies json
      → HasNames cfgs
      → IsAtRest s
      → MayPerformAll json cfgs s acts
      → a ≢ b
      → p.gossip_addr ≡ b
      → IsIn p (online_peers ((perform_all json cfgs s acts).nodes a).state)
      → (under_way json cfgs id (perform_all json cfgs s acts) a ≡ 0)
        ⊎ (under_way json cfgs id (perform_all json cfgs s acts) b ≡ 0)
  flights_exclusive s acts a b p reads names rest may ne at i =
      let s' = perform_all json cfgs s acts in
      let safe = perform_all-IsSafe s acts reads names may (IsSafe-IsAtRest s rest) in
      elim (Bool-cases (ltb 0 (under_way json cfgs id s' a))) [
        | inr e ↦ inl (ground (arith, e))
        | inl e ↦ elim (Bool-cases (ltb 0 (under_way json cfgs id s' b))) [
          | inr f ↦ inr (ground (arith, f))
          | inl f ↦
              let mine = safe.own b (ground (arith, f, flights-le-busy id (s'.nodes b))) in
              let theirs : holder (s'.nodes b).state id ≡ some (cfgs a).base_id =
                rw (← at) (safe.won a (ground (arith, e)) p i) in
              absurd (ne (names a b (some_inj (sym theirs ∙ mine))))
        ]
      ]

-- ===== src/BaseNode/Balance/Chain.antt =====
-- balanceDrones of cmd/base/drone_handler.go starts itself again each time that it has given a drone away.
-- Here the chain of these goroutines runs with nothing in between.
use mi_desbloqueio_do_estrei.Common.{
  ℕ, ◌+◌, ◌%◌, ◌≤◌, ◌<◌, ◌≡◌, refl, subst, ap, String, Bool, ◌&&◌, Option, none, some, List, [],
  ◌∷◌, length, length-select, get_elem?, get_elem?-IsIn, IsIn, IsIn-select, count, ltb,
  if◌then◌else◌, ◌==◌, arith, ◌⊎◌, inl, inr, Bool-cases, Option-cases, eq_refl,
}
use mi_desbloqueio_do_estrei.Common.Assoc.{Assoc, lookup, modify, values, entries}
use mi_desbloqueio_do_estrei.Common.Keyed.{IsKeyed, IsKeyed-tail, IsKeyed-modify}
use mi_desbloqueio_do_estrei.Models.{Drone, Base, drone_idle, drone_lost}
use mi_desbloqueio_do_estrei.State.{all_drones, update_drone_status, online_peers}
use mi_desbloqueio_do_estrei.State.WellFormed.{drone_key}
use mi_desbloqueio_do_estrei.BaseNode.{Config, Json, Node, go, send, stamped}
use mi_desbloqueio_do_estrei.BaseNode.Balance.{
  is_alive_at, my_idle_drones, target_peer, give_drone, balance_with, balance,
}

module _ {V : Type 0} (id : V → String) where
  count-values-modify :
      (p : V → Bool) (key : String) (f : V → V) (m : Assoc V) (v : V)
      → lookup key m ≡ some v
      → count p (values (modify key f m)) + (if p v then 1 else 0)
        ≡ count p (values m) + (if p (f v) then 1 else 0)
  unfolding lookup modify values
  count-values-modify p key f [] v h = absurd (ground (arith, h))
  count-values-modify p key f ((at, w) ∷ m) v h = elim (Bool-cases (at == key)) [
    | inl e ↦ let same : w ≡ v = ground (arith, h, e) in rw (e, same) (omega arith)
    | inr e ↦
        let rest = count-values-modify p key f m v (ground (arith, h, e)) in
        rw e (omega (arith, rest))
  ]

  entries_of : (v : V) (m : Assoc V) → IsKeyed id m → IsIn v (values m) → 1 ≤ entries (id v) m
  unfolding values
  entries_of v [] k i = absurd i
  entries_of v ((at, w) ∷ m) k (inl e) = rw (e, k.own.0, eq_refl at) (omega arith)
  entries_of v ((at, w) ∷ m) k (inr i) =
      omega (arith, entries_of v m (IsKeyed-tail id (at, w) m k) i)

  pub lookup-IsIn :
      (v : V) (m : Assoc V) → IsKeyed id m → IsIn v (values m) → lookup (id v) m ≡ some v
  unfolding lookup values
  lookup-IsIn v [] k i = absurd i
  lookup-IsIn v ((at, w) ∷ m) k (inl e) = rw (e, k.own.0, eq_refl at) refl
  lookup-IsIn v ((at, w) ∷ m) k (inr i) = elim (Bool-cases (at == id v)) [
    | inl e ↦
        absurd
          (ground (arith, e, k.distinct (id v), entries_of v m (IsKeyed-tail id (at, w) m k) i))
    | inr e ↦ rw e (lookup-IsIn v m (IsKeyed-tail id (at, w) m k) i)
  ]

module _ (json : Json) (cfg : Config) where
  abbrev is_mine : Drone → Bool
  is_mine d = is_alive_at cfg.base_id d && d.status == drone_idle

  -- How many drones the base could give away.
  abbrev pub idle_drones : Node → ℕ
  idle_drones n = length (my_idle_drones cfg (all_drones n.state))

  -- Whether a goroutine has started another.
  abbrev goes_on : Node → Node → Bool
  goes_on n n' = ltb (length n.started) (length n'.started)

  -- balanceDrones and the goroutine that it starts, and so on, with the time and the choice of each; none
  -- if the list of these ends before the chain does.
  pub balance_chain : Node → List (ℕ × ℕ) → Option Node
  unfolding balance
  balance_chain n [] = none
  balance_chain n ((now, choice) ∷ rounds) =
      let n' = balance json cfg now choice n in
      let rest = balance_chain (record n' { started = n.started }) rounds in
      if goes_on n n' then rest else some n'

  idle_drones-count : (n : Node) → idle_drones n ≡ count is_mine (values n.state.drones)
  unfolding my_idle_drones all_drones
  idle_drones-count n = length-select is_mine (values n.state.drones)

  -- What a gift leaves.
  record Gives (n n' : Node) : Type 0 where
    fewer : idle_drones n' + 1 ≡ idle_drones n
    keyed : IsKeyed drone_key n'.state.drones

  gives :
      (now : ℕ) (n : Node) (d : Drone) (p : Base)
      → IsKeyed drone_key n.state.drones
      → IsIn d (my_idle_drones cfg (all_drones n.state))
      → Gives n (give_drone json cfg now n d p)
  unfolding give_drone stamped send go update_drone_status my_idle_drones all_drones
  gives now n d p k i =
      let (found, mine) = IsIn-select is_mine (values n.state.drones) d i in
      let f = λ (e : Drone). record e { status = drone_lost; last_seen = now } in
      let counted =
        count-values-modify drone_key is_mine d.id f n.state.drones d
          (lookup-IsIn drone_key d n.state.drones k found) in
      record {
        fewer =
            rw (idle_drones-count (give_drone json cfg now n d p), idle_drones-count n)
              (ground (arith, counted, mine));
        keyed = IsKeyed-modify drone_key d.id f n.state.drones (λ e. refl) k;
      }

  -- A round gives nothing and changes nothing, or gives one idle drone away.
  round-cases :
      (now : ℕ) (n : Node) (idle : List Drone) (i : ℕ) (target : Option Base)
      → IsKeyed drone_key n.state.drones
      → idle ≡ my_idle_drones cfg (all_drones n.state)
      → (balance_with json cfg now n (get_elem? idle i) target ≡ n)
        ⊎ Gives n (balance_with json cfg now n (get_elem? idle i) target)
  unfolding balance_with
  round-cases now n idle i target k e = elim (Option-cases (get_elem? idle i)) [
    | inl none_idle ↦ rw none_idle (inl refl)
    | inr (d, at) ↦ elim (Option-cases target) [
      | inl no_target ↦ rw (at, no_target) (inl refl)
      | inr (p, found) ↦
          rw (at, found) (inr (gives now n d p k (subst (IsIn d) e (get_elem?-IsIn idle i d at))))
    ]
  ]

  balance-cases :
      (now choice : ℕ) (n : Node)
      → IsKeyed drone_key n.state.drones
      → (balance json cfg now choice n ≡ n) ⊎ Gives n (balance json cfg now choice n)
  unfolding balance
  balance-cases now choice n k =
      let idle = my_idle_drones cfg (all_drones n.state) in
      round-cases now n idle (choice % length idle)
        (target_peer cfg (all_drones n.state) (online_peers n.state)) k refl

  -- The chain has ended, and has made no drone idle.
  abbrev pub EndsAt : Node → Option Node → Type 0
  EndsAt n none = ⊥
  EndsAt n (some n') = (idle_drones n' ≤ idle_drones n) × IsKeyed drone_key n'.state.drones

  -- Whatever idle drone is chosen in each round, a chain of balanceDrones goroutines ends after at most as
  -- many gifts as the base has idle drones: with one round more than it has, the chain comes to a round
  -- that starts no other. The drones the base knows must stand once and under their own IDs, and nothing
  -- else runs in between.
  pub balance_chain-EndsAt :
      (n : Node) (rounds : List (ℕ × ℕ))
      → IsKeyed drone_key n.state.drones
      → idle_drones n < length rounds
      → EndsAt n (balance_chain n rounds)
  unfolding balance_chain
  balance_chain-EndsAt n [] k h = absurd (omega (arith, h))
  balance_chain-EndsAt n ((now, choice) ∷ rounds) k h =
      let n' = balance json cfg now choice n in
      let m : Node = record n' { started = n.started } in
      elim (Bool-cases (goes_on n n')) [
        | inr e ↦ elim (balance-cases now choice n k) [
          | inl same ↦ rw (e, same) (omega arith, k)
          | inr g ↦ rw e (omega (arith, g.fewer), g.keyed)
        ]
        | inl e ↦ elim (balance-cases now choice n k) [
          | inl same ↦ absurd (ground (arith, e, ap (λ (x : Node). length x.started) same))
          | inr g ↦ rw e (
              later n m (balance_chain m rounds) (omega (arith, g.fewer))
                (balance_chain-EndsAt m rounds g.keyed (omega (arith, g.fewer, h))))
        ]
      ]
    where
      later :
          (n m : Node) (o : Option Node) → idle_drones m ≤ idle_drones n → EndsAt m o → EndsAt n o
      later n m none l e = e
      later n m (some x) l e = (omega (arith, l, e.0), e.1)

-- ===== src/DroneNode/Watch.antt =====
-- watchBaseConnection of cmd/drone/main.go: when a drone leaves its base.
use mi_desbloqueio_do_estrei.Common.{
  ℕ, ◌+◌, ◌≡◌, ◌≢◌, refl, ap, ◌∙◌, String, Bool, true, false, ◌||◌, Option, some, List, [], ◌∷◌,
  find?, is_some, leb,
}
use mi_desbloqueio_do_estrei.Models.{Message}
use mi_desbloqueio_do_estrei.DroneNode.{
  Config, Library, Network, Node, try_fallback_bases, watch_failed, watch,
}
use mi_desbloqueio_do_estrei.DroneNode.Fallback.{
  IsSteady, is_refuge, addr_after, unnamed, try_fallback_bases_lem,
}

-- Some three of the results in a row, or the first ones after so many failures, are failures.
abbrev pub three_fail : ℕ → List Bool → Bool
three_fail fails [] = false
three_fail fails (true ∷ dials) = three_fail 0 dials
three_fail fails (false ∷ dials) = leb 3 (fails + 1) || three_fail (fails + 1) dials

-- The drone has the base that it had, and has sent nothing.
pub record Stays (n n' : Node) : Type 0 where
  pub addr : n'.base_addr ≡ n.base_addr
  pub id : n'.base_id ≡ n.base_id
  pub sent : n'.sent ≡ n.sent
  pub busy : n'.busy ≡ n.busy

module _ (cfg : Config) (lib : Library) (net : Network) (now : ℕ) where
  -- One dial after another.
  pub watch_all : Node → List Bool → Node
  watch_all n [] = n
  watch_all n (dialled ∷ dials) = watch_all (watch cfg lib net now dialled n) dials

  watch_gives_up :
      (n : Node)
      → n.busy ≡ false
      → n.base_addr ≢ ""
      → watch cfg lib net now false n
        ≡ watch_failed cfg lib net now (record n { fails = n.fails + 1 })
  unfolding watch
  watch_gives_up n b ne = rw (unnamed n.base_addr ne, b) refl

  watch_failed_moves :
      (n : Node)
      → leb 3 n.fails ≡ true
      → (try_fallback_bases cfg lib net n).1 ≡ true
      → let n' = watch_failed cfg lib net now n in
        (n'.base_addr ≡ (try_fallback_bases cfg lib net n).0.base_addr) × (n'.fails ≡ 0)
  unfolding watch_failed
  watch_failed_moves n third found = (rw (third, found) refl, rw (third, found) refl)

  -- The third dial in a row that fails makes an idle drone look for another base; if one answers, where
  -- that depends on its address alone, the drone moves to it and counts anew.
  pub watch_moves :
      (n : Node) (up : String → Option Message) (refuge : String)
      → IsSteady net up
      → n.busy ≡ false
      → n.base_addr ≢ ""
      → leb 3 (n.fails + 1) ≡ true
      → find? (is_refuge up n.base_addr) cfg.peer_bases ≡ some refuge
      → let n' = watch cfg lib net now false n in (n'.base_addr ≡ refuge) × (n'.fails ≡ 0)
  watch_moves n up refuge steady b ne third away =
      let (found, addr, id) =
        try_fallback_bases_lem cfg lib net up (record n { fails = n.fails + 1 }) steady in
      let m =
        watch_failed_moves (record n { fails = n.fails + 1 }) third (found ∙ ap is_some away) in
      rw (watch_gives_up n b ne) (m.0 ∙ addr ∙ ap (λ o. addr_after o n.base_addr) away, m.1)

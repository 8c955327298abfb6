-- ===== src/DroneNode/Fallback.antt =====
-- tryFallbackBases of cmd/drone/main.go, and reportMissionDone, which falls back on it.
use mi_desbloqueio_do_estrei.Common.{
  ℕ, zero, suc, ◌≡◌, ◌≢◌, refl, ap, ◌∙◌, String, Bool, false, not, ◌&&◌, Option, none, some, List,
  [], ◌∷◌, ◌++◌, find?, is_some, IsIn, if◌then◌else◌, ◌==◌, arith, inl, inr, Bool-cases, eq_iff,
}
use mi_desbloqueio_do_estrei.Models.{Message}
use mi_desbloqueio_do_estrei.DroneNode.{
  Config, Library, Network, Node, Sent, ask, reporting, send, go, stamped, register_message,
  registered, register_with_base, try_each, try_fallback_bases, report_elsewhere, answered, report,
  mission_over,
}

-- Whether a base answers, and what, depends on its address alone.
abbrev pub IsSteady : Network → (String → Option Message) → Type 0
IsSteady net up = (sent : List Sent) (addr : String) (msg : Message) → net sent addr msg ≡ up addr

-- The base answers and is not the drone's.
abbrev pub is_refuge : (String → Option Message) → String → String → Bool
is_refuge up base addr = not (addr == base) && is_some (up addr)

-- The address and the ID of the drone's base, when it has moved to the base at that address.
abbrev pub addr_after : Option String → String → String
addr_after none base = base
addr_after (some addr) base = addr

abbrev pub sender : Option Message → String → String
sender none id = id
sender (some answer) id = answer.sender_id

abbrev pub id_after : (String → Option Message) → Option String → String → String
id_after up none id = id
id_after up (some addr) id = sender (up addr) id

-- The message has been sent to the base that was chosen, if there is one.
abbrev pub IsTold : Option String → Message → List Sent → Type 0
IsTold none msg sent = Unit
IsTold (some addr) msg sent = IsIn (ask addr msg) sent

pub unnamed : (s : String) → s ≢ "" → (s == "") ≡ false
unnamed s ne = ground (arith, eq_iff s "")

module _ (cfg : Config) (lib : Library) (net : Network) (up : String → Option Message) where
  -- The result of a search for a base, and the base after it.
  record Moves (n : Node) (chosen : Option String) (r : Node × Bool) : Type 0 where
    found : r.1 ≡ is_some chosen
    addr : r.0.base_addr ≡ addr_after chosen n.base_addr
    id : r.0.base_id ≡ id_after up chosen n.base_id

  registered_with :
      (n m : Node) (addr : String) (o : Option Message)
      → m.base_addr ≡ n.base_addr
      → m.base_id ≡ n.base_id
      → up addr ≡ o
      → Moves n (if is_some o then some addr else none) (registered cfg lib m addr o)
  unfolding registered
  registered_with n m addr none a i h = record { found = refl; addr = a; id = i }
  registered_with n m addr (some answer) a i h = record {
    found = refl;
    addr = refl;
    id = rw h refl;
  }

  register_with_base-Moves :
      (n : Node) (addr : String)
      → IsSteady net up
      → Moves n
          (if is_some (up addr) then some addr else none)
          (register_with_base cfg lib net n addr)
  unfolding register_with_base register_message stamped send
  register_with_base-Moves n addr steady =
      let (n1, msg) = register_message cfg lib n in
      rw steady (registered_with n (send n1 (ask addr msg)) addr (up addr) refl refl refl)

  from :
      (n m : Node) (chosen : Option String) (r : Node × Bool)
      → m.base_addr ≡ n.base_addr
      → m.base_id ≡ n.base_id
      → Moves m chosen r
      → Moves n chosen r
  from n m chosen r a i v = record {
    found = v.found;
    addr = v.addr ∙ ap (addr_after chosen) a;
    id = v.id ∙ ap (id_after up chosen) i;
  }

  try_each-Moves :
      (n : Node) (addrs : List String)
      → IsSteady net up
      → Moves n (find? (is_refuge up n.base_addr) addrs) (try_each cfg lib net n addrs)
  unfolding try_each
  try_each-Moves n [] steady = record { found = refl; addr = refl; id = refl }
  try_each-Moves n (addr ∷ addrs) steady =
      let r = register_with_base cfg lib net n addr in
      let m = register_with_base-Moves n addr steady in
      elim (Bool-cases (addr == n.base_addr)) [
        | inl e ↦ rw e (try_each-Moves n addrs steady)
        | inr e ↦ elim (Bool-cases (is_some (up addr))) [
          | inl f ↦
              let m' : Moves n (some addr) r = rw f at m in
              rw (e, f, m'.found) (record { found = refl; addr = m'.addr; id = m'.id })
          | inr f ↦
              let m' : Moves n none r = rw f at m in
              let ih : Moves r.0 (find? (is_refuge up r.0.base_addr) addrs)
                  (try_each cfg lib net r.0 addrs) =
                try_each-Moves r.0 addrs steady in
              rw (e, f, m'.found)
                (from n r.0 (find? (is_refuge up n.base_addr) addrs)
                  (try_each cfg lib net r.0 addrs) m'.addr m'.id (rw m'.addr at ih))
        ]
      ]

  -- Where it depends on a base's address alone whether the base answers, tryFallbackBases finds the first
  -- base of the list that answers and is not the drone's own, and takes over its address and the ID
  -- from its answer. If there is none, it says so, and the drone keeps its base.
  pub try_fallback_bases_lem :
      (n : Node)
      → IsSteady net up
      → let r = try_fallback_bases cfg lib net n in
        let chosen = find? (is_refuge up n.base_addr) cfg.peer_bases in
        (r.1 ≡ is_some chosen)
        × (r.0.base_addr ≡ addr_after chosen n.base_addr)
        × (r.0.base_id ≡ id_after up chosen n.base_id)
  unfolding try_fallback_bases
  try_fallback_bases_lem n steady =
      let m = try_each-Moves n cfg.peer_bases steady in (m.found, m.addr, m.id)

  IsIn-last : (xs : List Sent) (x : Sent) → IsIn x (xs ++ x ∷ [])
  IsIn-last [] x = inl refl
  IsIn-last (y ∷ xs) x = inr (IsIn-last xs x)

  sent_elsewhere :
      (n : Node) (msg : Message) (chosen : Option String) (r : Node × Bool)
      → Moves n chosen r
      → let after : Node = if r.1 then send r.0 (ask r.0.base_addr msg) else r.0 in
        IsTold chosen msg after.sent × (after.base_addr ≡ addr_after chosen n.base_addr)
  unfolding send
  sent_elsewhere n msg none r m = rw m.found (tt, m.addr)
  sent_elsewhere n msg (some addr) r m =
      rw (m.found, m.addr) (IsIn-last r.0.sent (ask addr msg), refl)

  asked_base :
      (tries : ℕ) (n : Node) (msg : Message) (o : Option Message)
      → let after = answered cfg lib tries n msg o in
        (after.sent ≡ n.sent)
        × (after.busy ≡ (if is_some o then false else n.busy))
        × (after.started ≡ (if is_some o then n.started else n.started ++ reporting tries msg ∷ []))
  unfolding answered mission_over go
  asked_base tries n msg none = (refl, refl, refl)
  asked_base tries n msg (some answer) = (refl, refl, refl)

  -- Where it depends on a base's address alone whether the base answers, and the drone has a base, a try of
  -- reportMissionDone sends MISSION_DONE to it. If it answers the drone is free, if not the drone stays as
  -- it is and one try fewer is left. When none is left, the first other base of the list that answers,
  -- if there is one, is the drone's base from then on and is sent the message, and the drone is free.
  pub report_lem :
      (tries : ℕ) (n : Node) (msg : Message)
      → IsSteady net up
      → n.base_addr ≢ ""
      → let chosen = find? (is_refuge up n.base_addr) cfg.peer_bases in
        let told = report cfg lib net (suc tries) n msg in
        let moved = report cfg lib net zero n msg in
        let there = is_some (up n.base_addr) in
        (IsIn (ask n.base_addr msg) told.sent
          × (told.busy ≡ (if there then false else n.busy))
          × (told.started ≡ (if there then n.started else n.started ++ reporting tries msg ∷ [])))
        × (IsTold chosen msg moved.sent
            × (moved.base_addr ≡ addr_after chosen n.base_addr)
            × (moved.busy ≡ false))
  unfolding report report_elsewhere mission_over send try_fallback_bases
  report_lem tries n msg steady ne =
      let m = try_each-Moves n cfg.peer_bases steady in
      let e =
        sent_elsewhere n msg (find? (is_refuge up n.base_addr) cfg.peer_bases)
          (try_each cfg lib net n cfg.peer_bases) m in
      let (sent, busy, started) =
        asked_base tries (send n (ask n.base_addr msg)) msg (up n.base_addr) in
      (
        rw (unnamed n.base_addr ne, steady)
            (rw sent (IsIn-last n.sent (ask n.base_addr msg)), busy, started),
        (e.0, e.1, refl),
      )

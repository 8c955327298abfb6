-- ===== src/System/Exclusive.antt =====
-- The locks of several bases of cmd/base: two bases of which one takes the other for online do not both
-- send a drone for one request, while no lock is released by a message.
use mi_desbloqueio_do_estrei.Common.{
  ℕ, ◌+◌, ◌&&◌, ◌≤◌, ◌≡◌, ◌≢◌, count, sym, ◌∙◌, subst, String, true, false, Option, none, some,
  List, All, ◌⊎◌, inl, inr, IsIn, if◌then◌else◌, ◌==◌, ltb, arith, Bool-cases, eq_iff, eq_refl,
}
use mi_desbloqueio_do_estrei.Models.{Base}
use mi_desbloqueio_do_estrei.State.{online_peers}
use mi_desbloqueio_do_estrei.State.Locks.{holder}
use mi_desbloqueio_do_estrei.BaseNode.{Config, Json, Node}
use mi_desbloqueio_do_estrei.BaseNode.Dispatcher.{granted_by}
use mi_desbloqueio_do_estrei.System.{System, Ballot}
use mi_desbloqueio_do_estrei.System.Tasks.{busy, flights, flights-le-busy, Asked}
use mi_desbloqueio_do_estrei.System.Turn.{calm, begins, flies, fails, Turned}

pub some_inj : {a b : String} → ◌≡◌ {A = Option String} (some a) (some b) → a ≡ b
some_inj e = cc

module _ (json : Json) (cfgs : String → Config) (id : String) where
  -- Another base than the one that asks has granted it the lock, and keeps it for it.
  abbrev pub IsKept : (String → Node) → Ballot → Type 0
  IsKept nodes b =
      b.request_id ≡ id
      → granted_by json (cfgs b.asker) (some b.answer) ≡ true
      → (b.asker ≢ b.voter) × (holder (nodes b.voter).state id ≡ some (cfgs b.asker).base_id)

  -- Every base that this one takes for online holds the lock for it.
  abbrev pub HasWon : (String → Node) → String → Type 0
  HasWon nodes a =
      (p : Base)
      → IsIn p (online_peers (nodes a).state)
      → holder (nodes p.gossip_addr).state id ≡ some (cfgs a).base_id

  -- How many drones have said yes to an order of this base for the request.
  abbrev pub flown : List (String × String) → String → ℕ
  flown missions a = count (λ m. m.0 == a && m.1 == id) missions

  -- How many drones a base has ordered to the request, and not been refused.
  abbrev pub under_way : System → String → ℕ
  under_way s a = flights id (s.nodes a) + flown s.missions a

  -- How many dispatches of the request a base has begun and not given up.
  abbrev pub committed : System → String → ℕ
  committed s a = busy id (s.nodes a) + flown s.missions a

  -- A base with a dispatch of the request under way has locked it in its own name, has one such dispatch,
  -- and once its drone is sent has won.
  pub record IsSafe (s : System) : Type 0 where
    pub own : (a : String) → 1 ≤ committed s a → holder (s.nodes a).state id ≡ some (cfgs a).base_id
    pub single : (a : String) → committed s a ≤ 1
    pub asked : (a : String) → All (Asked (online_peers (s.nodes a).state)) (s.nodes a).started
    pub kept : (b : Ballot) → IsIn b s.ballots → IsKept s.nodes b
    pub won : (a : String) → 1 ≤ under_way s a → HasWon s.nodes a

  -- One base has had its turn.
  module _ (distinct : (a b : String) → (cfgs a).base_id ≡ (cfgs b).base_id → a ≡ b) (s : System)
      (safe : IsSafe s) (addr : String) (k : ℕ) (n' : Node)
      (t : Turned json (cfgs addr) id (HasWon s.nodes addr) k (s.nodes addr) n')
      (missions : List (String × String)) (more : flown missions addr ≡ flown s.missions addr + k)
      (others : (a : String) → a ≢ addr → flown missions a ≡ flown s.missions a) where
    abbrev pub after : String → Node
    after a = if a == addr then n' else s.nodes a

    -- What a base does not hold in its own name it does not let go.
    stays :
        (c : String)
        → c ≢ addr
        → holder (s.nodes addr).state id ≡ some (cfgs c).base_id
        → holder n'.state id ≡ some (cfgs c).base_id
    stays c ne h = elim t.turn [
      | calm b f keeps ↦ keeps (cfgs c).base_id h
      | begins z free took b f ↦ absurd (cc)
      | flies z w same b ↦ same ∙ h
      | fails z b free f ↦
          absurd (ne (distinct c addr (some_inj (sym h ∙ safe.own addr (omega (arith, b))))))
    ]

    stays_at :
        (c a : String)
        → c ≢ addr
        → holder (s.nodes a).state id ≡ some (cfgs c).base_id
        → holder (after a).state id ≡ some (cfgs c).base_id
    stays_at c a ne h = elim (Bool-cases (a == addr)) [
      | inl e ↦ rw e (stays c ne (rw ((eq_iff a addr).0 e) at h))
      | inr e ↦ rw e h
    ]

    own_after : 1 ≤ busy id n' + flown missions addr → holder n'.state id ≡ some (cfgs addr).base_id
    own_after h = elim t.turn [
      | calm b f keeps ↦ keeps _ (safe.own addr (omega (arith, b, h, more)))
      | begins z free took b f ↦ took
      | flies z w same b ↦ same ∙ safe.own addr (omega (arith, b, h, z, more))
      | fails z b free f ↦ absurd (omega (arith, b, h, z, more, safe.single addr))
    ]

    idle_if_free : holder (s.nodes addr).state id ≡ none → committed s addr ≡ 0
    idle_if_free free = elim (Bool-cases (ltb 0 (committed s addr))) [
      | inl e ↦ let h = safe.own addr (ground (arith, e)) in absurd (cc)
      | inr e ↦ ground (arith, e)
    ]

    single_after : busy id n' + flown missions addr ≤ 1
    single_after = elim t.turn [
      | calm b f keeps ↦ omega (arith, b, more, safe.single addr)
      | begins z free took b f ↦ omega (arith, b, z, more, idle_if_free free)
      | flies z w same b ↦ omega (arith, b, z, more, safe.single addr)
      | fails z b free f ↦ omega (arith, b, z, more, safe.single addr)
    ]

    won_after :
        1 ≤ flights id n' + flown missions addr
        → (p : Base) → IsIn p (online_peers n'.state)
        → holder (after p.gossip_addr).state id ≡ some (cfgs addr).base_id
    won_after h p i =
        let i' : IsIn p (online_peers (s.nodes addr).state) = rw t.online at i in
        elim t.turn [
          | calm b f keeps ↦ there p (safe.won addr (omega (arith, f, h, more)) p i') (keeps _)
          | begins z free took b f ↦ elim f [
            | inl e ↦
                absurd (
                  omega
                    (arith, e, h, z, more, idle_if_free free, flights-le-busy id (s.nodes addr)))
            | inr e ↦ absurd (rw e at i')
          ]
          | flies z w same b ↦ there p (w p i') (λ g. same ∙ g)
          | fails z b free f ↦
              absurd (omega (arith, b, h, z, more, flights-le-busy id n', safe.single addr))
        ]
      where
        there :
            (p : Base)
            → holder (s.nodes p.gossip_addr).state id ≡ some (cfgs addr).base_id
            → (holder (s.nodes addr).state id ≡ some (cfgs addr).base_id
                → holder n'.state id ≡ some (cfgs addr).base_id)
            → holder (after p.gossip_addr).state id ≡ some (cfgs addr).base_id
        there p g k = elim (Bool-cases (p.gossip_addr == addr)) [
          | inl e ↦ rw e (k (rw ((eq_iff p.gossip_addr addr).0 e) at g))
          | inr e ↦ rw e g
        ]

    IsKept-after : (b : Ballot) → IsKept s.nodes b → IsKept after b
    IsKept-after b k r g =
        let (ne, h) = k r g in
        elim (Bool-cases (b.asker == addr)) [
          | inl e ↦ (ne, away b h (λ v. ne ((eq_iff b.asker addr).0 e ∙ sym v)))
          | inr e ↦ (
            ne,
            stays_at b.asker b.voter (λ q. absurd (ground (arith, e, eq_iff b.asker addr, q))) h,
          )
        ]
      where
        away :
            (b : Ballot)
            → holder (s.nodes b.voter).state id ≡ some (cfgs b.asker).base_id
            → b.voter ≢ addr
            → holder (after b.voter).state id ≡ some (cfgs b.asker).base_id
        away b h ne = elim (Bool-cases (b.voter == addr)) [
          | inl e ↦ absurd (ne ((eq_iff b.voter addr).0 e))
          | inr e ↦ rw e h
        ]

    won_elsewhere :
        (a : String)
        → a ≢ addr
        → 1 ≤ flights id (s.nodes a) + flown missions a
        → (p : Base) → IsIn p (online_peers (s.nodes a).state)
        → holder (after p.gossip_addr).state id ≡ some (cfgs a).base_id
    won_elsewhere a ne h p i =
        stays_at a p.gossip_addr ne (safe.won a (omega (arith, h, others a ne)) p i)

    -- The turn of one base, with the ballots that it has cast, keeps the system safe.
    pub IsSafe-turn :
        (ballots : List Ballot)
        → ((b : Ballot) → IsIn b ballots → IsIn b s.ballots ⊎ IsKept after b)
        → IsSafe (record { nodes = after; ballots = ballots; missions = missions })
    IsSafe-turn ballots new = record {
      own = λ a. elim (Bool-cases (a == addr)) [
        | inl e ↦ rw (e, (eq_iff a addr).0 e) own_after
        | inr e ↦ rw e (λ h. safe.own a (omega (arith, h, others a (away a e))))
      ];
      single = λ a. elim (Bool-cases (a == addr)) [
        | inl e ↦ rw (e, (eq_iff a addr).0 e) single_after
        | inr e ↦ rw e (omega (arith, safe.single a, others a (away a e)))
      ];
      asked = λ a. elim (Bool-cases (a == addr)) [
        | inl e ↦ rw e (t.asked (safe.asked addr))
        | inr e ↦ rw e (safe.asked a)
      ];
      kept = λ b i. elim (new b i) [ inl j ↦ IsKept-after b (safe.kept b j) | inr k ↦ k ];
      won = λ a. elim (Bool-cases (a == addr)) [
        | inl e ↦ at_addr a e
        | inr e ↦ rw e (won_elsewhere a (away a e))
      ];
    }
      where
        away : (a : String) → (a == addr) ≡ false → a ≢ addr
        away a e q = absurd (ground (arith, e, eq_iff a addr, q))

        at_addr :
            (a : String)
            → (a == addr) ≡ true
            → 1 ≤ flights id (after a) + flown missions a
            → HasWon after a
        at_addr a e =
            let same : a ≡ addr = (eq_iff a addr).0 e in
            subst (λ c. 1 ≤ flights id (after c) + flown missions c → HasWon after c) (sym same)
              (rw (eq_refl addr) won_after)

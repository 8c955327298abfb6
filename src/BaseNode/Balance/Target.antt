-- ===== src/BaseNode/Balance/Target.antt =====
-- balanceDrones of cmd/base/drone_handler.go: the base to which a drone is given.
use mi_desbloqueio_do_estrei.Common.{
  ℕ, ◌+◌, ◌≤◌, ◌<◌, ◌≡◌, refl, String, true, false, ◌&&◌, Option, none, some, List, [], ◌∷◌, IsIn,
  ltb, nat_eq, if◌then◌else◌, ltb_string, ltb_string_irrefl, ltb_string_trans, not-ltb_string_trans,
  to_lower, arith, inl, inr, ◌⊎◌, Bool-cases,
}
use mi_desbloqueio_do_estrei.Models.{Drone, Base}
use mi_desbloqueio_do_estrei.BaseNode.{Config}
use mi_desbloqueio_do_estrei.BaseNode.Balance.{
  alive_of, may_receive, consider, consider_all, target_peer,
}

before_irrev : (a b : String) → ltb_string a b ≡ true → ltb_string b a ≡ false
before_irrev a b h = ground (arith, ltb_string_trans a b a h, ltb_string_irrefl a)

module _ (drones : List Drone) (my_id : String) (my_count : ℕ) where
  abbrev load : Base → ℕ
  load p = alive_of drones p.id

  -- The peer may be given a drone: this base has at least two more than the peer, or one more and an ID
  -- after the peer's.
  abbrev pub MayReceive : Base → Type 0
  MayReceive p =
      (load p + 2 ≤ my_count)
      ⊎ ((my_count ≡ load p + 1) × (ltb_string (to_lower p.id) my_id ≡ true))

  may_receive-MayReceive :
      (p : Base) → may_receive my_id my_count (to_lower p.id) (load p) ≡ true → MayReceive p
  unfolding may_receive
  may_receive-MayReceive p h = elim (Bool-cases (ltb (load p + 1) my_count)) [
    | inl e ↦ inl (ground (arith, e))
    | inr e ↦ inr (ground (arith, e, h), ground (arith, e, h))
  ]

  MayReceive-may_receive :
      (p : Base) → MayReceive p → may_receive my_id my_count (to_lower p.id) (load p) ≡ true
  unfolding may_receive
  MayReceive-may_receive p (inl h) = ground (arith, h)
  MayReceive-may_receive p (inr (h, l)) = ground (arith, h, l)

  -- `t` has fewer drones than `p`, or as many, and then `p` is not before it by the lower-case ID.
  abbrev pub IsBetter : Base → Base → Type 0
  IsBetter t p =
      (load t < load p) ⊎ ((load t ≡ load p) × (ltb_string (to_lower p.id) (to_lower t.id) ≡ false))

  -- The best of the peers that may be given a drone.
  abbrev pub IsTarget : List Base → Base → Type 0
  IsTarget peers t =
      IsIn t peers × MayReceive t × ((p : Base) → IsIn p peers → MayReceive p → IsBetter t p)

  -- What the loop has found among the peers that it has seen.
  abbrev Found : List Base → ℕ × Option Base → Type 0
  Found peers (least, none) = (least ≡ my_count) × ((p : Base) → IsIn p peers → MayReceive p → ⊥)
  Found peers (least, some t) = (least ≡ load t) × IsTarget peers t

  MayReceive-lt : (p : Base) → MayReceive p → load p < my_count
  MayReceive-lt p (inl h) = omega (arith, h)
  MayReceive-lt p (inr (h, l)) = omega (arith, h)

  IsBetter-refl : (p : Base) → IsBetter p p
  IsBetter-refl p = inr (refl, ltb_string_irrefl (to_lower p.id))

  IsBetter-trans : (a b c : Base) → IsBetter a b → IsBetter b c → IsBetter a c
  IsBetter-trans a b c (inl h) (inl g) = inl (omega arith)
  IsBetter-trans a b c (inl h) (inr g) = inl (omega (arith, g.0))
  IsBetter-trans a b c (inr h) (inl g) = inl (omega (arith, h.0))
  IsBetter-trans a b c (inr h) (inr g) = inr (
    omega (arith, h.0, g.0),
    not-ltb_string_trans (to_lower a.id) (to_lower b.id) (to_lower c.id) h.1 g.1,
  )

  -- A peer that replaces the best so far, and one that does not.
  take_new :
      (peers : List Base) (t q : Base)
      → IsTarget peers t
      → MayReceive q
      → IsBetter q t
      → IsTarget (q ∷ peers) q
  take_new peers t q (m, r, best) mq b = (
    inl refl,
    mq,
    λ p i mp. elim i [
      | inl e ↦ rw e (IsBetter-refl q)
      | inr j ↦ IsBetter-trans q t p b (best p j mp)
    ],
  )

  keep_old :
      (peers : List Base) (t q : Base)
      → IsTarget peers t
      → (MayReceive q → IsBetter t q)
      → IsTarget (q ∷ peers) t
  keep_old peers t q (m, r, best) b =
      (inr m, r, λ p i mp. elim i [ inl e ↦ rw e (b (rw e at mp)) | inr j ↦ best p j mp ])

  skip :
      (seen : List Base) (acc : ℕ × Option Base) (q : Base)
      → Found seen acc
      → (MayReceive q → ⊥)
      → Found (q ∷ seen) acc
  skip seen (least, none) q (e, nobody) nq =
      (e, λ p i m. elim i [ inl d ↦ nq (rw d at m) | inr j ↦ nobody p j m ])
  skip seen (least, some t) q (e, best) nq = (e, keep_old seen t q best (λ m. absurd (nq m)))

  -- A peer with fewer drones than the best so far, or than this base.
  win :
      (seen : List Base) (acc : ℕ × Option Base) (q : Base)
      → Found seen acc
      → MayReceive q
      → load q < acc.0
      → IsTarget (q ∷ seen) q
  win seen (least, none) q (e, nobody) mq l = (
    inl refl,
    mq,
    λ p i m. elim i [ inl d ↦ rw d (IsBetter-refl q) | inr j ↦ absurd (nobody p j m) ],
  )
  win seen (least, some t) q (e, best) mq l = take_new seen t q best mq (inl (omega (arith, e)))

  behind :
      (least : ℕ) (t q : Base)
      → least ≡ load t
      → ltb (load q) least ≡ false
      → (nat_eq (load q) least && ltb_string (to_lower q.id) (to_lower t.id)) ≡ false
      → IsBetter t q
  behind least t q e l h = elim (Bool-cases (nat_eq (load q) least)) [
    | inl a ↦ inr (ground arith, ground arith)
    | inr a ↦ inl (ground arith)
  ]

  -- A peer with as many drones as the best so far, or more.
  tie :
      (seen : List Base) (least : ℕ) (target : Option Base) (q : Base)
      → Found seen (least, target)
      → MayReceive q
      → ltb (load q) least ≡ false
      → Found (q ∷ seen) (elim target [
        | none ↦ (least, none)
        | some t ↦
            if nat_eq (load q) least && ltb_string (to_lower q.id) (to_lower t.id)
            then (least, some q)
            else (least, some t)
      ])
  tie seen least none q (e, nobody) mq l = absurd (ground (arith, MayReceive-lt q mq))
  tie seen least (some t) q (e, best) mq l =
      elim (Bool-cases (nat_eq (load q) least && ltb_string (to_lower q.id) (to_lower t.id))) [
        | inl h ↦ rw h (
          ground arith,
          take_new seen t q best mq
              (inr (ground arith, before_irrev (to_lower q.id) (to_lower t.id) (ground arith))),
        )
        | inr h ↦ rw h (e, keep_old seen t q best (λ _. behind least t q e l h))
      ]

  consider-Found :
      (seen : List Base) (acc : ℕ × Option Base) (q : Base)
      → Found seen acc
      → Found (q ∷ seen) (consider drones my_id my_count acc q)
  unfolding consider
  consider-Found seen (least, target) q f =
      elim (Bool-cases (may_receive my_id my_count (to_lower q.id) (load q))) [
        | inr e ↦
            rw e
              (skip seen (least, target) q f (λ m. ground (arith, MayReceive-may_receive q m, e)))
        | inl e ↦ elim (Bool-cases (ltb (load q) least)) [
          | inl l ↦
              rw (e, l)
                (refl, win seen (least, target) q f (may_receive-MayReceive q e) (ground arith))
          | inr l ↦ rw (e, l) (tie seen least target q f (may_receive-MayReceive q e) l)
        ]
      ]

  -- The peers seen, once the loop has gone over the rest.
  abbrev seen_after : List Base → List Base → List Base
  seen_after seen [] = seen
  seen_after seen (q ∷ peers) = seen_after (q ∷ seen) peers

  consider_all-Found :
      (seen : List Base) (acc : ℕ × Option Base) (peers : List Base)
      → Found seen acc
      → Found (seen_after seen peers) (consider_all drones my_id my_count acc peers)
  unfolding consider_all
  consider_all-Found seen acc [] f = f
  consider_all-Found seen acc (q ∷ peers) f =
      consider_all-Found (q ∷ seen) (consider drones my_id my_count acc q) peers
        (consider-Found seen acc q f)

  IsIn-seen_after :
      (seen peers : List Base) (p : Base)
      → (IsIn p seen ⊎ IsIn p peers → IsIn p (seen_after seen peers))
        × (IsIn p (seen_after seen peers) → IsIn p seen ⊎ IsIn p peers)
  IsIn-seen_after seen [] p = (λ i. elim i [ inl m ↦ m | inr m ↦ absurd m ], λ m. inl m)
  IsIn-seen_after seen (q ∷ peers) p =
      let (into, out) = IsIn-seen_after (q ∷ seen) peers p in
      (
        λ i. into (elim i [
          | inl m ↦ inl (inr m)
          | inr m ↦ elim m [ inl e ↦ inl (inl e) | inr n ↦ inr n ]
        ]),
        λ m. elim (out m) [
          | inl n ↦ elim n [ inl e ↦ inr (inl e) | inr k ↦ inl k ]
          | inr n ↦ inr (inr n)
        ],
      )

-- The peers of which one is chosen: `Target.0` where there is one, none otherwise.
abbrev pub IsChosen : List Drone → String → ℕ → List Base → Option Base → Type 0
IsChosen drones my_id my_count peers none =
    (p : Base) → IsIn p peers → MayReceive drones my_id my_count p → ⊥
IsChosen drones my_id my_count peers (some t) = IsTarget drones my_id my_count peers t

chosen :
    (drones : List Drone) (my_id : String) (my_count : ℕ) (peers : List Base)
    (acc : ℕ × Option Base)
    → Found drones my_id my_count (seen_after drones my_id my_count [] peers) acc
    → IsChosen drones my_id my_count peers acc.1
chosen drones my_id my_count peers (least, none) f =
    λ p i m. f.1 p ((IsIn-seen_after drones my_id my_count [] peers p).0 (inr i)) m
chosen drones my_id my_count peers (least, some t) (e, (i, m, best)) = (
  elim ((IsIn-seen_after drones my_id my_count [] peers t).1 i) [ inl n ↦ absurd n | inr n ↦ n ],
  m,
  λ p j mp. best p ((IsIn-seen_after drones my_id my_count [] peers p).0 (inr j)) mp,
)

-- The peer that balanceDrones looks for, to give it a drone: this base has at least two drones more than it, or one
-- more and an ID after it; it has the fewest drones of all such peers and of those the least ID. None is
-- found only if there is no such peer.
pub target_peer_lem :
    (cfg : Config) (drones : List Drone) (peers : List Base)
    → IsChosen drones
        (to_lower cfg.base_id)
        (alive_of drones cfg.base_id)
        peers
        (target_peer cfg drones peers)
unfolding target_peer
target_peer_lem cfg drones peers =
    let my_id = to_lower cfg.base_id in
    let my_count = alive_of drones cfg.base_id in
    chosen drones my_id my_count peers (consider_all drones my_id my_count (my_count, none) peers)
      (consider_all-Found drones my_id my_count [] (my_count, none) peers (refl, λ p i m. absurd i))

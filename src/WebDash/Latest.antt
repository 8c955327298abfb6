-- ===== src/WebDash/Latest.antt =====
-- The first loops of GlobalSnapshot in cmd/webdash/aggregator.go: each drone in its latest news.
use mi_desbloqueio_do_estrei.Common.{
  ◌≤◌, ◌≡◌, ◌⊎◌, refl, sym, ◌∙◌, String, some, List, [], ◌∷◌, IsIn, ltb, ◌==◌, arith, inl, inr,
  Bool-cases, Option-cases, eq_iff, eq_refl, subst,
}
use mi_desbloqueio_do_estrei.Common.Assoc.{Assoc, lookup, insert, lookup-insert}
use mi_desbloqueio_do_estrei.Common.Keyed.{IsKeyed, IsKeyed-nil, IsKeyed-insert, Owns-lookup}
use mi_desbloqueio_do_estrei.Models.{Drone}
use mi_desbloqueio_do_estrei.State.WellFormed.{drone_key}
use mi_desbloqueio_do_estrei.WebDash.{SectorState, add_drone, add_drones, global_drones}

-- News of the drone that is as late or later stands in the map.
pub record Covers (m : Assoc Drone) (d : Drone) : Type 0 where
  pub news : Drone
  pub found : lookup d.id m ≡ some news
  pub same : news.id ≡ d.id
  pub later : d.last_seen ≤ news.last_seen

Covers-insert :
    (m : Assoc Drone) (d x : Drone)
    → Covers m x
    → ((old : Drone) → lookup d.id m ≡ some old → old.last_seen ≤ d.last_seen)
    → Covers (insert d.id d m) x
Covers-insert m d x c newer = elim (Bool-cases (d.id == x.id)) [
  | inl e ↦
      let same = (eq_iff d.id x.id).0 e in
      record {
        news = d;
        found = lookup-insert d.id x.id d m ∙ rw e refl;
        same = same;
        later = omega (arith, c.later, newer c.news (rw same c.found));
      }
  | inr e ↦ record {
    news = c.news;
    found = lookup-insert d.id x.id d m ∙ rw e c.found;
    same = c.same;
    later = c.later;
  }
]

inserted : (m : Assoc Drone) (d : Drone) → Covers (insert d.id d m) d
inserted m d = record {
  news = d;
  found = lookup-insert d.id d.id d m ∙ rw (eq_refl d.id) refl;
  same = refl;
  later = omega arith;
}

-- The map holds each drone once, and each entry is one of the map before or the drone that is added.
record Adds (m : Assoc Drone) (d : Drone) (m' : Assoc Drone) : Type 0 where
  keyed : IsKeyed drone_key m → IsKeyed drone_key m'
  covers : IsKeyed drone_key m → Covers m' d
  keeps : (x : Drone) → Covers m x → Covers m' x
  from : (id : String) (x : Drone) → lookup id m' ≡ some x → (lookup id m ≡ some x) ⊎ (x ≡ d)

inserted-from :
    (m : Assoc Drone) (d : Drone) (id : String) (x : Drone)
    → lookup id (insert d.id d m) ≡ some x
    → (lookup id m ≡ some x) ⊎ (x ≡ d)
inserted-from m d id x h = elim (Bool-cases (d.id == id)) [
  | inl e ↦ inr (ground (arith, h, lookup-insert d.id id d m, e))
  | inr e ↦ inl (sym (lookup-insert d.id id d m ∙ rw e refl) ∙ h)
]

add_drone-Adds : (m : Assoc Drone) (d : Drone) → Adds m d (add_drone m d)
unfolding add_drone
add_drone-Adds m d = elim (Option-cases (lookup d.id m)) [
  | inl e ↦
      rw (e, add_drone)
        (record {
          keyed = λ k. IsKeyed-insert drone_key d m k;
          covers = λ k. inserted m d;
          keeps = λ x c. Covers-insert m d x c (λ old h. absurd (ground (arith, e, h)));
          from = inserted-from m d;
        })
  | inr (old, e) ↦ elim (Bool-cases (ltb old.last_seen d.last_seen)) [
    | inl l ↦
        rw (e, l, add_drone)
          (record {
            keyed = λ k. IsKeyed-insert drone_key d m k;
            covers = λ k. inserted m d;
            keeps = λ x c. Covers-insert m d x c (λ o h. ground (arith, l, sym e ∙ h));
            from = inserted-from m d;
          })
    | inr l ↦
        rw (e, l, add_drone)
          (record {
            keyed = λ k. k;
            covers = λ k. record {
              news = old;
              found = e;
              same = Owns-lookup drone_key d.id m old k.own e;
              later = ground arith;
            };
            keeps = λ x c. c;
            from = λ id x h. inl h;
          })
  ]
]

-- Each drone of a list once it has been added, and each before.
add_drones-Covers :
    (m : Assoc Drone) (ds : List Drone)
    → IsKeyed drone_key m
    → IsKeyed drone_key (add_drones m ds)
      × ((x : Drone) → Covers m x ⊎ IsIn x ds → Covers (add_drones m ds) x)
unfolding add_drones
add_drones-Covers m [] k = (k, λ x h. elim h [ inl c ↦ c | inr i ↦ absurd i ])
add_drones-Covers m (d ∷ ds) k =
    let a = add_drone-Adds m d in
    let (k', all) = add_drones-Covers (add_drone m d) ds (a.keyed k) in
    (
      k',
      λ x h. elim h [
        | inl c ↦ all x (inl (a.keeps x c))
        | inr i ↦ elim i [
          | inl e ↦ all x (inl (subst (Covers (add_drone m d)) (sym e) (a.covers k)))
          | inr j ↦ all x (inr j)
        ]
      ],
    )

add_drones-from :
    (m : Assoc Drone) (ds : List Drone) (id : String) (x : Drone)
    → lookup id (add_drones m ds) ≡ some x
    → (lookup id m ≡ some x) ⊎ IsIn x ds
unfolding add_drones
add_drones-from m [] id x h = inl h
add_drones-from m (d ∷ ds) id x h = elim (add_drones-from (add_drone m d) ds id x h) [
  | inr j ↦ inr (inr j)
  | inl g ↦ elim ((add_drone-Adds m d).from id x g) [ inl b ↦ inl b | inr e ↦ inr (inl e) ]
]

-- A sector reports the drone.
pub record IsReported (ss : List SectorState) (d : Drone) : Type 0 where
  pub sector : SectorState
  pub known : IsIn sector ss
  pub listed : IsIn d sector.payload.drones

global-Covers :
    (m : Assoc Drone) (ss : List SectorState)
    → IsKeyed drone_key m
    → IsKeyed drone_key (global_drones m ss)
      × ((x : Drone) → Covers m x ⊎ IsReported ss x → Covers (global_drones m ss) x)
unfolding global_drones
global-Covers m [] k = (k, λ x h. elim h [ inl c ↦ c | inr r ↦ absurd r.known ])
global-Covers m (s ∷ ss) k =
    let (k1, one) = add_drones-Covers m s.payload.drones k in
    let (k2, all) = global-Covers (add_drones m s.payload.drones) ss k1 in
    (
      k2,
      λ x h. elim h [
        | inl c ↦ all x (inl (one x (inl c)))
        | inr r ↦ elim r.known [
          | inl e ↦ all x (inl (one x (inr (subst (λ t. IsIn x t.payload.drones) e r.listed))))
          | inr j ↦ all x (inr (record { sector = r.sector; known = j; listed = r.listed }))
        ]
      ],
    )

global-from :
    (m : Assoc Drone) (ss : List SectorState) (id : String) (x : Drone)
    → lookup id (global_drones m ss) ≡ some x
    → (lookup id m ≡ some x) ⊎ IsReported ss x
unfolding global_drones
global-from m [] id x h = inl h
global-from m (s ∷ ss) id x h = elim (global-from (add_drones m s.payload.drones) ss id x h) [
  | inr r ↦ inr (record { sector = r.sector; known = inr r.known; listed = r.listed })
  | inl g ↦ elim (add_drones-from m s.payload.drones id x g) [
    | inl b ↦ inl b
    | inr i ↦ inr (record { sector = s; known = inl refl; listed = i })
  ]
]

-- Each drone that a sector reports is counted once, under its ID, in news that some sector reports of it
-- and that is at least as late as this one, whatever the order of the sectors.
pub global_drones_lem :
    (ss : List SectorState) (d : Drone)
    → IsReported ss d
    → (news : Drone) × (lookup d.id (global_drones [] ss) ≡ some news)
      × IsReported ss news
      × (news.id ≡ d.id)
      × (d.last_seen ≤ news.last_seen)
      × IsKeyed drone_key (global_drones [] ss)
unfolding lookup
global_drones_lem ss d r =
    let (keyed, all) = global-Covers [] ss (IsKeyed-nil drone_key) in
    let c = all d (inr r) in
    let reported : IsReported ss c.news = elim (global-from [] ss d.id c.news c.found) [
      | inl e ↦ absurd (ground arith)
      | inr i ↦ i
    ] in
    (c.news, c.found, reported, c.same, c.later, keyed)

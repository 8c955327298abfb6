-- ===== src/Terminal/Shown.antt =====
-- What the screen of cmd/dashboard/main.go shows of an update.
use Prim.Native.Nat.{max}
use mi_desbloqueio_do_estrei.Common.{
  ℕ, zero, suc, ◌+◌, ◌-◌, ◌≡◌, refl, sym, subst, ap, ◌∙◌, String, true, false, Option, none, some,
  List, [], ◌∷◌, ◌++◌, count, select, length, length-append, length-select, drop, get_elem?, map,
  ltb, if◌then◌else◌, ◌==◌, arith, Bool-cases, inl, inr, eq_iff,
}
use mathlib.Core.List.{append-nil, append_assoc}
use mi_desbloqueio_do_estrei.Common.Assoc.{Assoc, lookup, insert, lookup-insert}
use mi_desbloqueio_do_estrei.Models.{Request, Drone, Base, Alert, StatusUpdatePayload, base_offline}
use mi_desbloqueio_do_estrei.Terminal.{
  drones_at, group_by_base, is_open, open_requests, last_alerts, BaseCell, base_cell, request_cell,
  drone_cell, alert_cell, rows, max_rows, render,
}

abbrev pub take {ℓ} : {A : Type ℓ} → ℕ → List A → List A
take zero xs = []
take (suc n) [] = []
take (suc n) (x ∷ xs) = x ∷ take n xs

open_requests-full :
    (pending queue : List Request) (k : ℕ)
    → length pending + suc k ≡ 8
    → open_requests pending queue ≡ pending ++ take (suc k) (select is_open queue)
unfolding open_requests
open_requests-full pending [] k h = rw append-nil refl
open_requests-full pending (r ∷ queue) zero h = elim (Bool-cases (is_open r)) [
  | inl e ↦ rw (e, open_requests) (ground (arith, h, length-append pending (r ∷ [])))
  | inr e ↦ rw (open_requests, e) (ground (arith, h, open_requests-full pending queue zero h))
]
open_requests-full pending (r ∷ queue) (suc k) h = elim (Bool-cases (is_open r)) [
  | inl e ↦
      let size = length-append pending (r ∷ []) in
      rw (open_requests, e)
        (ground (
          arith,
          h,
          size,
          open_requests-full (pending ++ r ∷ []) queue k (omega (arith, h, size)),
          append_assoc pending (r ∷ []) (take (suc k) (select is_open queue)),
        ))
  | inr e ↦ rw (open_requests, e) (ground (arith, h, open_requests-full pending queue (suc k) h))
]

drones_at-insert :
    (m : Assoc (List Drone)) (k at : String) (ds : List Drone)
    → drones_at (insert at ds m) k ≡ (if at == k then ds else drones_at m k)
drones_at-insert m k at ds =
    rw (lookup-insert at k ds m)
      (elim (Bool-cases (at == k)) [ inl e ↦ rw e refl | inr e ↦ rw e refl ])

-- The drones of a base, in their order.
drones_at-group_by_base :
    (m : Assoc (List Drone)) (k : String) (ds : List Drone)
    → drones_at (group_by_base m ds) k ≡ drones_at m k ++ select (λ (d : Drone). d.base_id == k) ds
unfolding group_by_base
drones_at-group_by_base m k [] = sym (append-nil (drones_at m k))
drones_at-group_by_base m k (d ∷ ds) =
    let m' = insert d.base_id (drones_at m d.base_id ++ d ∷ []) m in
    let ih = drones_at-group_by_base m' k ds in
    let step = drones_at-insert m k d.base_id (drones_at m d.base_id ++ d ∷ []) in
    elim (Bool-cases (d.base_id == k)) [
      | inl e ↦
          let same : d.base_id ≡ k = (eq_iff d.base_id k).0 e in
          let at_k : drones_at m' k ≡ drones_at m k ++ d ∷ [] =
            step ∙ rw e (ap (λ j. drones_at m j ++ d ∷ []) same) in
          rw e (ih ∙ rw (at_k, append_assoc) refl)
      | inr e ↦
          let at_k : drones_at m' k ≡ drones_at m k = step ∙ rw e refl in rw e (ih ∙ rw at_k refl)
    ]

get_elem?-rows :
    {A B : Type 0} (i k : ℕ) (left : List A) (right : List B) (j : ℕ)
    → get_elem? (rows i k left right) j
      ≡ (if ltb j k then some (get_elem? left (i + j), get_elem? right (i + j)) else none)
unfolding rows
get_elem?-rows i zero left right j = ground arith
get_elem?-rows i (suc k) left right zero = let z : i + 0 ≡ i = omega arith in rw z (ground arith)
get_elem?-rows i (suc k) left right (suc j) =
    let z : (i + 1) + j ≡ i + suc j = omega arith in
    get_elem?-rows (i + 1) k left right j
    ∙ rw z (elim (Bool-cases (ltb j k)) [
      | inl e ↦ let f : ltb (suc j) (suc k) ≡ true = ground (arith, e) in rw (e, f) refl
      | inr e ↦ let f : ltb (suc j) (suc k) ≡ false = ground (arith, e) in rw (e, f) refl
    ])

last_alerts-drop : (alerts : List Alert) → last_alerts alerts ≡ drop (length alerts - 8) alerts
unfolding last_alerts
last_alerts-drop alerts = elim (Bool-cases (ltb 8 (length alerts))) [
  | inl e ↦ rw (last_alerts, e) refl
  | inr e ↦ let z : length alerts - 8 ≡ 0 = ground (arith, e) in rw (last_alerts, e, z) refl
]

-- A base with the number of the drones that name it.
abbrev pub ideal_base : List Drone → Base → BaseCell
ideal_base drones b = record {
  offline = b.status == base_offline;
  id = b.id;
  status = b.status;
  drones = count (λ (d : Drone). d.base_id == b.id) drones;
}

map-base_cell :
    (drones : List Drone) (bases : List Base)
    → map (base_cell (group_by_base [] drones)) bases ≡ map (ideal_base drones) bases
unfolding base_cell lookup
map-base_cell drones [] = refl
map-base_cell drones (b ∷ bases) =
    let grouped = drones_at-group_by_base [] b.id drones in
    let size : length (drones_at (group_by_base [] drones) b.id)
        ≡ count (λ (d : Drone). d.base_id == b.id) drones =
      ap length grouped ∙ length-select _ drones in
    rw (map-base_cell drones bases, base_cell, size) refl

max-max_rows : (a b : ℕ) → max_rows a b ≡ max a b
unfolding max_rows
max-max_rows a b = ground arith

-- Row `i` of two columns side by side, up to the end of the longer one.
abbrev pub row_of : {A B : Type 0} → List A → List B → ℕ → Option (Option A × Option B)
row_of left right i =
    if ltb i (max (length left) (length right))
    then some (get_elem? left i, get_elem? right i)
    else none

length-map : {A B : Type 0} (f : A → B) (xs : List A) → length (map f xs) ≡ length xs
length-map f [] = refl
length-map f (x ∷ xs) = ap suc (length-map f xs)

columns :
    {A B : Type 0} (left : List A) (right : List B) (a b i : ℕ)
    → length left ≡ a
    → length right ≡ b
    → get_elem? (rows 0 (max_rows a b) left right) i ≡ row_of left right i
columns left right a b i e f =
    let z : 0 + i ≡ i = omega arith in
    get_elem?-rows 0 (max_rows a b) left right i ∙ rw (z, max-max_rows, e, f) refl

-- The rows of the screen: each base with the number of drones that name it, beside the first eight of
-- the requests that are pending or locked, in the order of the queue; and each drone beside the last
-- eight alerts. There are as many rows as the longer column has.
pub render_lem :
    (p : StatusUpdatePayload) (i : ℕ)
    → (get_elem? (render p).upper i
        ≡ row_of
            (map (ideal_base p.drones) p.bases)
            (map request_cell (take 8 (select is_open p.queue)))
            i)
      × (get_elem? (render p).lower i
          ≡ row_of
              (map drone_cell p.drones)
              (map alert_cell (drop (length p.alerts - 8) p.alerts))
              i)
unfolding render
render_lem p i =
    let open_ones = open_requests-full [] p.queue 7 (omega arith) in
    let bases = map-base_cell p.drones p.bases in
    let alerts = last_alerts-drop p.alerts in
    (
      rw (← bases, ← open_ones)
          (columns _ _ (length p.bases) (length (open_requests [] p.queue)) i (length-map _ p.bases)
            (length-map _ (open_requests [] p.queue))),
      subst
          (λ al.
            get_elem? (render p).lower i ≡ row_of (map drone_cell p.drones) (map alert_cell al) i)
          alerts
          (columns (map drone_cell p.drones) (map alert_cell (last_alerts p.alerts))
            (length p.drones) (length (last_alerts p.alerts)) i (length-map drone_cell p.drones)
            (length-map alert_cell (last_alerts p.alerts))),
    )

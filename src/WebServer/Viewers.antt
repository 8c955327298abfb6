-- ===== src/WebServer/Viewers.antt =====
-- The hub of cmd/webdash/wsserver.go as one browser sees it: to its viewer it makes no difference who
-- else is connected.
use mi_desbloqueio_do_estrei.Common.{
  ℕ, ◌≤◌, ◌≡◌, refl, ap, ◌∙◌, String, Bool, true, false, not, ◌&&◌, Option, none, some, List, [],
  ◌∷◌, ◌++◌, any, count, count-append, count_mono, select, count-select, length, if◌then◌else◌,
  nat_eq, Bool-cases, inl, inr, arith,
}
use mi_desbloqueio_do_estrei.WebServer.Hub.{
  Hub, add, remove, write_to, write_all, broadcast, client_count, on_tick, Event, refused,
  connected, left, ticked, step, steps,
}

-- A connection: whether the hub writes to it, and what it has been sent.
pub record Viewer : Type 0 where
  pub on : Bool
  pub shown : List String

abbrev pub shown_to : ℕ → List (ℕ × String) → List String
shown_to c [] = []
shown_to c ((d, text) ∷ w) = let rest = shown_to c w in if nat_eq c d then text ∷ rest else rest

abbrev pub viewer : ℕ → Hub → Viewer
viewer c h = record { on = any (nat_eq c) h.clients; shown = shown_to c h.written }

-- What an event does to one connection.
abbrev pub viewer_tick : ℕ → Option String → (ℕ → Bool) → Viewer → Viewer
viewer_tick c none accepts v = v
viewer_tick c (some text) accepts v =
    if v.on
    then if accepts c then record v { shown = v.shown ++ text ∷ [] } else record v { on = false }
    else v

abbrev pub viewer_step : ℕ → Viewer → Event → Viewer
viewer_step c v refused = v
viewer_step c v (connected d) = if nat_eq c d then record v { on = true } else v
viewer_step c v (left d) = if nat_eq c d then record v { on = false } else v
viewer_step c v (ticked picture accepts) = viewer_tick c picture accepts v

abbrev pub viewer_steps : ℕ → Viewer → List Event → Viewer
viewer_steps c v [] = v
viewer_steps c v (e ∷ events) = viewer_steps c (viewer_step c v e) events

-- A connection stands once among the clients.
abbrev pub IsHub : Hub → Type 0
IsHub h = (c : ℕ) → count (nat_eq c) h.clients ≤ 1

shown_to-append :
    (c : ℕ) (w : List (ℕ × String)) (d : ℕ) (text : String)
    → shown_to c (w ++ (d, text) ∷ [])
      ≡ (if nat_eq c d then shown_to c w ++ text ∷ [] else shown_to c w)
shown_to-append c [] d text = ground arith
shown_to-append c ((e, t) ∷ w) d text = ground (arith, shown_to-append c w d text)

any-append :
    (c : ℕ) (xs : List ℕ) (d : ℕ)
    → any (nat_eq c) (xs ++ d ∷ []) ≡ (if nat_eq c d then true else any (nat_eq c) xs)
any-append c [] d = ground arith
any-append c (x ∷ xs) d = ground (arith, any-append c xs d)

any-select :
    (c d : ℕ) (xs : List ℕ)
    → any (nat_eq c) (select (λ e. not (nat_eq d e)) xs)
      ≡ (if nat_eq c d then false else any (nat_eq c) xs)
any-select c d [] = ground arith
any-select c d (x ∷ xs) = ground (arith, any-select c d xs)

absent : (c : ℕ) (xs : List ℕ) → count (nat_eq c) xs ≡ 0 → any (nat_eq c) xs ≡ false
absent c [] h = refl
absent c (x ∷ xs) h = ground (arith, absent c xs)

any-count : (c : ℕ) (xs : List ℕ) → any (nat_eq c) xs ≡ false → count (nat_eq c) xs ≡ 0
any-count c [] h = refl
any-count c (x ∷ xs) h = ground (arith, any-count c xs)

viewer-remove : (c d : ℕ) (h : Hub) → viewer c (remove h d) ≡ viewer_step c (viewer c h) (left d)
unfolding remove
viewer-remove c d h = rw (any-select c d h.clients) (ground arith)

-- A write matters only to the connection written to.
viewer-write_to :
    (c d : ℕ) (text : String) (accepts : ℕ → Bool) (h : Hub)
    → (nat_eq c d ≡ true → any (nat_eq c) h.clients ≡ true)
    → viewer c (write_to text accepts h d)
      ≡ (if nat_eq c d then viewer_tick c (some text) accepts (viewer c h) else viewer c h)
unfolding write_to remove
viewer-write_to c d text accepts h m = elim (Bool-cases (nat_eq c d)) [
  | inl e ↦
      let same : c ≡ d = ground (arith, e) in
      let on = m e in
      elim (Bool-cases (accepts d)) [
        | inl a ↦
            rw (e, a, write_to, shown_to-append c h.written d text, e, same, a)
              (ground (arith, on, same))
        | inr a ↦
            rw (e, a, write_to, any-select c d h.clients, e, same, a) (ground (arith, on, same))
      ]
  | inr e ↦ elim (Bool-cases (accepts d)) [
    | inl a ↦ rw (e, write_to, a, shown_to-append c h.written d text, e) refl
    | inr a ↦ rw (e, write_to, a, any-select c d h.clients, e) refl
  ]
]

viewer-write_all :
    (c : ℕ) (text : String) (accepts : ℕ → Bool) (h : Hub) (conns : List ℕ)
    → count (nat_eq c) conns ≤ 1
    → (any (nat_eq c) conns ≡ true → any (nat_eq c) h.clients ≡ true)
    → viewer c (write_all text accepts h conns) ≡ (
        if any (nat_eq c) conns then viewer_tick c (some text) accepts (viewer c h) else viewer c h)
unfolding write_all
viewer-write_all c text accepts h [] n m = refl
viewer-write_all c text accepts h (d ∷ conns) n m =
    let h' = write_to text accepts h d in
    let one = viewer-write_to c d text accepts h (λ e. m (ground (arith, e))) in
    elim (Bool-cases (nat_eq c d)) [
      | inl e ↦
          let none_left : any (nat_eq c) conns ≡ false = absent c conns (ground (arith, e, n)) in
          rw
            (
              viewer-write_all c text accepts h' conns (ground (arith, n, e)) (λ a. absurd (cc)),
              none_left,
              one,
              e,
            )
            refl
      | inr e ↦
          let same : viewer c h' ≡ viewer c h = rw (one, e) refl in
          rw e (
            viewer-write_all c text accepts h' conns (ground (arith, n, e))
              (λ a. ap (λ (v : Viewer). v.on) same ∙ m (ground (arith, a)))
            ∙ ap (λ v. if any (nat_eq c) conns then viewer_tick c (some text) accepts v else v)
                same)
    ]

viewer-broadcast :
    (c : ℕ) (text : String) (accepts : ℕ → Bool) (h : Hub)
    → IsHub h
    → viewer c (broadcast text accepts h) ≡ viewer_tick c (some text) accepts (viewer c h)
unfolding broadcast
viewer-broadcast c text accepts h i =
    rw (viewer-write_all c text accepts h h.clients (i c) (λ a. a)) (ground arith)

nobody : (c : ℕ) (xs : List ℕ) → nat_eq (length xs) 0 ≡ true → any (nat_eq c) xs ≡ false
nobody c [] e = refl
nobody c (x ∷ xs) e = absurd (ground arith)

viewer-on_tick :
    (c : ℕ) (picture : Option String) (accepts : ℕ → Bool) (h : Hub)
    → IsHub h
    → viewer c (on_tick picture accepts h) ≡ viewer_tick c picture accepts (viewer c h)
unfolding on_tick client_count
viewer-on_tick c none accepts h i = ground arith
viewer-on_tick c (some text) accepts h i = elim (Bool-cases (nat_eq (length h.clients) 0)) [
  | inl e ↦ rw (e, nobody c h.clients e) refl
  | inr e ↦ rw e (viewer-broadcast c text accepts h i)
]

viewer-add : (c d : ℕ) (h : Hub) → viewer c (add h d) ≡ viewer_step c (viewer c h) (connected d)
unfolding add
viewer-add c d h = elim (Bool-cases (any (nat_eq d) h.clients)) [
  | inl e ↦ elim (Bool-cases (nat_eq c d)) [
    | inl f ↦ let same : c ≡ d = ground (arith, f) in rw (e, f, same, e) refl
    | inr f ↦ rw (e, f) refl
  ]
  | inr e ↦ rw (e, any-append c h.clients d) (ground arith)
]

viewer-step :
    (c : ℕ) (h : Hub) (e : Event) → IsHub h → viewer c (step h e) ≡ viewer_step c (viewer c h) e
unfolding step
viewer-step c h refused i = refl
viewer-step c h (connected d) i = viewer-add c d h
viewer-step c h (left d) i = viewer-remove c d h
viewer-step c h (ticked picture accepts) i = viewer-on_tick c picture accepts h i

remove-IsHub : (h : Hub) (d : ℕ) → IsHub h → IsHub (remove h d)
unfolding remove
remove-IsHub h d i c = omega (
  arith,
  i c,
  count-select (nat_eq c) (λ e. not (nat_eq d e)) h.clients,
  count_mono (λ x. not (nat_eq d x) && nat_eq c x) (nat_eq c) h.clients (λ x p. ground (arith, p)),
)

write_to-IsHub :
    (text : String) (accepts : ℕ → Bool) (h : Hub) (d : ℕ)
    → IsHub h
    → IsHub (write_to text accepts h d)
unfolding write_to
write_to-IsHub text accepts h d i = elim (Bool-cases (accepts d)) [
  | inl e ↦ rw (write_to, e) i
  | inr e ↦ rw (write_to, e) (remove-IsHub h d i)
]

write_all-IsHub :
    (text : String) (accepts : ℕ → Bool) (h : Hub) (conns : List ℕ)
    → IsHub h
    → IsHub (write_all text accepts h conns)
unfolding write_all write_to
write_all-IsHub text accepts h [] i = i
write_all-IsHub text accepts h (d ∷ conns) i =
    write_all-IsHub text accepts (write_to text accepts h d) conns
      (write_to-IsHub text accepts h d i)

add-IsHub : (h : Hub) (d : ℕ) → IsHub h → IsHub (add h d)
unfolding add
add-IsHub h d i c = elim (Bool-cases (any (nat_eq d) h.clients)) [
  | inl e ↦ rw (e, add) (i c)
  | inr e ↦
      rw (add, e, count-append (nat_eq c) h.clients (d ∷ []))
        (elim (Bool-cases (nat_eq c d)) [
          | inl f ↦
              let same : c ≡ d = ground (arith, f) in
              ground (arith, same, any-count d h.clients e, i c)
          | inr f ↦ ground (arith, f, i c)
        ])
]

on_tick-IsHub :
    (picture : Option String) (accepts : ℕ → Bool) (h : Hub)
    → IsHub h
    → IsHub (on_tick picture accepts h)
unfolding on_tick broadcast
on_tick-IsHub picture accepts h i = elim (Bool-cases (nat_eq (client_count h) 0)) [
  | inl e ↦ rw (on_tick, e) i
  | inr e ↦ rw (on_tick, e) (tick picture)
]
  where
    tick : (o : Option String) → IsHub (elim o [ none ↦ h | some text ↦ broadcast text accepts h ])
    tick none = i
    tick (some text) = write_all-IsHub text accepts h h.clients i

pub step-IsHub : (h : Hub) (e : Event) → IsHub h → IsHub (step h e)
unfolding step
step-IsHub h refused i = i
step-IsHub h (connected d) i = add-IsHub h d i
step-IsHub h (left d) i = remove-IsHub h d i
step-IsHub h (ticked picture accepts) i = on_tick-IsHub picture accepts h i

-- Whatever browsers come and go and whatever pictures are broadcast, each connection of a hub whose
-- clients are distinct fares as if it were alone: it gets the picture of each tick that has one, in
-- order and once, from its connection until it leaves or refuses a write, and after that none, unless it
-- connects again.
pub viewer-steps :
    (c : ℕ) (h : Hub) (events : List Event)
    → IsHub h
    → viewer c (steps h events) ≡ viewer_steps c (viewer c h) events
unfolding steps
viewer-steps c h [] i = refl
viewer-steps c h (e ∷ events) i =
    viewer-steps c (step h e) events (step-IsHub h e i)
    ∙ ap (λ v. viewer_steps c v events) (viewer-step c h e i)

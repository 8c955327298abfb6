-- ===== src/WebDash/Picture.antt =====
-- GlobalSnapshot of cmd/webdash/aggregator.go, which changes what it shows, met by update and markOffline.
use mi_desbloqueio_do_estrei.Common.{
  ℕ, ◌≡◌, refl, sym, ap, ◌∙◌, String, Bool, true, false, Option, none, some, List, [], ◌∷◌, map,
  if◌then◌else◌, ◌==◌, arith, inl, inr, Bool-cases, Option-cases, concat, to_upper, eq_iff,
}
use mi_desbloqueio_do_estrei.Common.Assoc.{lookup, values, map_option, lookup-insert, lookup-modify}
use mi_desbloqueio_do_estrei.Models.{base_online, base_offline, Base, StatusUpdatePayload}
use mi_desbloqueio_do_estrei.WebDash.{
  SectorState, Aggregator, update, mark_offline, receive, show_base, show, show_all,
  global_snapshot, equal_fold, Event, received, lost, asked, step, steps,
}

show_base_twice :
    (sector_id : String) (x y : Bool) (b : Base)
    → show_base sector_id x (show_base sector_id y b) ≡ show_base sector_id x b
unfolding show_base
show_base_twice sector_id x y b =
    elim (Bool-cases (equal_fold b.id (concat ("base-" ∷ sector_id ∷ [])))) [
      | inl e ↦ rw (e, e) refl
      | inr e ↦ rw (e, e) refl
    ]

map_twice :
    (f g : Base → Base) (bs : List Base)
    → ((b : Base) → f (g b) ≡ f b)
    → map f (map g bs) ≡ map f bs
map_twice f g [] h = refl
map_twice f g (b ∷ bs) h = rw (h b, map_twice f g bs h) refl

shown_bases :
    (sector_id : String) (x y : Bool) (bs : List Base)
    → map (show_base sector_id x) (map (show_base sector_id y) bs) ≡ map (show_base sector_id x) bs
shown_bases sector_id x y bs =
    map_twice (show_base sector_id x) (show_base sector_id y) bs (show_base_twice sector_id x y)

abbrev disconnected : SectorState → SectorState
disconnected s = record s { online = false }

show_again : (s : SectorState) → show (show s) ≡ show s
unfolding show
show_again s = elim (Bool-cases s.online) [
  | inl e ↦ rw (e, shown_bases s.payload.sector_id true true s.payload.bases) refl
  | inr e ↦ rw (e, shown_bases s.payload.sector_id false false s.payload.bases) refl
]

-- To show a sector before it is lost changes nothing of what is shown after.
show_lost : (s : SectorState) → show (disconnected (show s)) ≡ show (disconnected s)
unfolding show
show_lost s = elim (Bool-cases s.online) [
  | inl e ↦ rw (e, shown_bases s.payload.sector_id false true s.payload.bases) refl
  | inr e ↦ rw (e, shown_bases s.payload.sector_id false false s.payload.bases) refl
]

lookup-show_all :
    (key : String) (a : Aggregator) → lookup key (show_all a) ≡ map_option show (lookup key a)
unfolding lookup show_all
lookup-show_all key [] = refl
lookup-show_all key ((at, s) ∷ a) = ground (arith, lookup-show_all key a)

-- The sector that a payload is of, and what update keeps of it.
abbrev pub named : String → StatusUpdatePayload → StatusUpdatePayload
named id payload = if payload.sector_id == "" then record payload { sector_id = id } else payload

-- What an event does to a sector, if to make a picture changed nothing.
abbrev pub ideal : String → Option SectorState → Event → Option SectorState
ideal key o (received now id payload) =
    if to_upper (named id payload).sector_id == key
    then some (record { payload = named id payload; updated_at = now; online = true })
    else o
ideal key o (lost id) =
    if to_upper id == key then map_option (λ s. record s { online = false }) o else o
ideal key o (asked now) = o

pub ideals : String → Option SectorState → List Event → Option SectorState
ideals key o [] = o
ideals key o (e ∷ events) = ideals key (ideal key o e) events

lookup-update :
    (now : ℕ) (a : Aggregator) (p : StatusUpdatePayload) (key : String)
    → lookup key (update now a p) ≡ (
        if to_upper p.sector_id == key
        then some (record { payload = p; updated_at = now; online = true })
        else lookup key a)
unfolding update
lookup-update now a p key =
    let id = to_upper p.sector_id in
    let news : SectorState = record { payload = p; updated_at = now; online = true } in
    elim (Option-cases (lookup id a)) [
      | inl e ↦ rw (e, update) (lookup-insert id key news a)
      | inr (old, e) ↦
          rw (e, update) (ground (arith, e, lookup-modify id key (λ _. news) a, eq_iff id key))
    ]

-- Both branches of a test look alike.
alike :
    (c : Bool) (x y p q : Option SectorState)
    → map_option show x ≡ map_option show y
    → map_option show p ≡ map_option show q
    → map_option show (if c then x else p) ≡ map_option show (if c then y else q)
alike true x y p q h g = h
alike false x y p q h g = g

shown_again : (o : Option SectorState) → map_option show (map_option show o) ≡ map_option show o
shown_again none = refl
shown_again (some s) = ap (λ t. some t) (show_again s)

shown_lost :
    (o : Option SectorState)
    → map_option show (map_option disconnected (map_option show o))
      ≡ map_option show (map_option disconnected o)
shown_lost none = refl
shown_lost (some s) = ap (λ t. some t) (show_lost s)

-- A sector that looks like another still does after an event.
step-shown :
    (a : Aggregator) (key : String) (o : Option SectorState) (e : Event)
    → map_option show (lookup key a) ≡ map_option show o
    → map_option show (lookup key (step a e)) ≡ map_option show (ideal key o e)
unfolding step receive mark_offline global_snapshot
step-shown a key o (received now id payload) h =
    let p = named id payload in
    let news : Option SectorState =
      some (record { payload = p; updated_at = now; online = true }) in
    ap (map_option show) (lookup-update now a p key)
    ∙ alike (to_upper p.sector_id == key) news news (lookup key a) o refl h
step-shown a key o (lost id) h =
    let off = map_option disconnected in
    ap (map_option show) (lookup-modify (to_upper id) key disconnected a)
    ∙ alike (to_upper id == key) (off (lookup key a)) (off o) (lookup key a) o
        (sym (shown_lost (lookup key a)) ∙ ap (λ w. map_option show (off w)) h ∙ shown_lost o) h
step-shown a key o (asked now) h = rw lookup-show_all (shown_again (lookup key a) ∙ h)

steps-shown :
    (a : Aggregator) (key : String) (o : Option SectorState) (events : List Event)
    → map_option show (lookup key a) ≡ map_option show o
    → map_option show (lookup key (steps a events)) ≡ map_option show (ideals key o events)
unfolding steps ideals
steps-shown a key o [] h = h
steps-shown a key o (e ∷ events) h =
    steps-shown (step a e) key (ideal key o e) events (step-shown a key o e h)

-- How a sector is shown: without sensors, brokers and drones where it is lost, its own base as it is.
abbrev pub pictured_base : String → Bool → Base → Base
pictured_base id online b = record b {
  status =
      if equal_fold b.id (concat ("base-" ∷ id ∷ []))
      then (if online then base_online else base_offline)
      else b.status;
}

abbrev pub pictured : SectorState → SectorState
pictured s = record s {
  payload = record s.payload {
    active_sensors = if s.online then s.payload.active_sensors else [];
    active_brokers = if s.online then s.payload.active_brokers else [];
    drones = if s.online then s.payload.drones else [];
    bases = map (pictured_base s.payload.sector_id s.online) s.payload.bases;
  };
}

show_base-pictured :
    (id : String) (online : Bool) (b : Base) → show_base id online b ≡ pictured_base id online b
unfolding show_base
show_base-pictured id online b = elim (Bool-cases (equal_fold b.id (concat ("base-" ∷ id ∷ [])))) [
  | inl e ↦ rw e refl
  | inr e ↦ rw e refl
]

map_alike : (f g : Base → Base) (bs : List Base) → ((b : Base) → f b ≡ g b) → map f bs ≡ map g bs
map_alike f g [] h = refl
map_alike f g (b ∷ bs) h = rw (h b, map_alike f g bs h) refl

show-pictured : (s : SectorState) → show s ≡ pictured s
unfolding show
show-pictured s =
    let id = s.payload.sector_id in
    let same = λ (online : Bool).
      map_alike (show_base id online) (pictured_base id online) s.payload.bases
        (show_base-pictured id online) in
    elim (Bool-cases s.online) [ inl e ↦ rw (e, same true) refl | inr e ↦ rw (e, same false) refl ]

show-pictured_option : (o : Option SectorState) → map_option show o ≡ map_option pictured o
show-pictured_option none = refl
show-pictured_option (some s) = ap (λ t. some t) (show-pictured s)

-- Whatever the dashboard has met, in whatever order, the next picture shows each sector as it would if no
-- picture had changed anything: by its last payload, without its
-- sensors, brokers and drones where the sector has been lost since, and its own base as the sector is.
pub global_snapshot-ideal :
    (a : Aggregator) (key : String) (events : List Event) (now : ℕ)
    → let (picture, after) = global_snapshot now (steps a events) in
      (lookup key after ≡ map_option pictured (ideals key (lookup key a) events))
      × (picture.sectors ≡ values after)
unfolding global_snapshot
global_snapshot-ideal a key events now = (
  lookup-show_all key (steps a events)
      ∙ steps-shown a key (lookup key a) events refl
      ∙ show-pictured_option (ideals key (lookup key a) events),
  refl,
)

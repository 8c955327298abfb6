-- ===== src/WebServer/Hub.antt =====
-- cmd/webdash/wsserver.go: the hub of the web sockets of the browsers. A connection is a number, as its
-- address. A range over the map of clients goes in the order of the list, which may be any.
use mi_desbloqueio_do_estrei.Common.{
  ℕ, String, Bool, not, Option, none, some, List, [], ◌∷◌, ◌++◌, any, select, length, if◌then◌else◌,
  nat_eq,
}

-- `clients`, the connections that Close has been called on, and what has been written, in order.
pub record Hub : Type 0 where
  pub clients : List ℕ
  pub closed : List ℕ
  pub written : List (ℕ × String)

abbrev pub new_hub : Hub
new_hub = record { clients = []; closed = []; written = [] }

unfoldable pub add : Hub → ℕ → Hub
add h c = if any (nat_eq c) h.clients then h else record h { clients = h.clients ++ c ∷ [] }

unfoldable pub remove : Hub → ℕ → Hub
remove h c = record h {
  clients = select (λ d. not (nat_eq c d)) h.clients;
  closed = h.closed ++ c ∷ [];
}

-- `count`
unfoldable pub client_count : Hub → ℕ
client_count h = length h.clients

-- One write of broadcast, with its outcome.
unfoldable pub write_to : String → (ℕ → Bool) → Hub → ℕ → Hub
unfolding remove
write_to text accepts h c =
    if accepts c then record h { written = h.written ++ (c, text) ∷ [] } else remove h c

unfoldable pub write_all : String → (ℕ → Bool) → Hub → List ℕ → Hub
unfolding write_to
write_all text accepts h [] = h
write_all text accepts h (c ∷ conns) = write_all text accepts (write_to text accepts h c) conns

unfoldable pub broadcast : String → (ℕ → Bool) → Hub → Hub
unfolding write_all
broadcast text accepts h = write_all text accepts h h.clients

-- A tick of startBroadcastLoop: the text of the picture, or the error of json.Marshal, and which
-- connections take a write.
unfoldable pub on_tick : Option String → (ℕ → Bool) → Hub → Hub
unfolding client_count broadcast
on_tick picture accepts h =
    let sent : Hub = elim picture [ none ↦ h | some text ↦ broadcast text accepts h ] in
    if nat_eq (client_count h) 0 then h else sent

-- ServeWS adds a connection that has been upgraded, and removes it when a read fails.
pub data Event : Type 0 where
  refused : Event
  connected : ℕ → Event
  left : ℕ → Event
  ticked : Option String → (ℕ → Bool) → Event

unfoldable pub step : Hub → Event → Hub
unfolding add remove on_tick
step h refused = h
step h (connected c) = add h c
step h (left c) = remove h c
step h (ticked picture accepts) = on_tick picture accepts h

unfoldable pub steps : Hub → List Event → Hub
unfolding step
steps h [] = h
steps h (e ∷ events) = steps (step h e) events

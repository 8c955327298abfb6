-- ===== src/WebServer.antt =====
-- cmd/webdash/main.go: which handler serves a path, and the handler that clears the queues of the bases.
-- The hub of web sockets is the child Hub.
pub mod Hub
pub mod Viewers
pub mod Clear
use mi_desbloqueio_do_estrei.Common.{
  ◌≡◌, refl, String, Bool, true, false, not, ◌||◌, Option, none, some, List, [], ◌∷◌, if◌then◌else◌,
  ◌==◌, is_some,
}
use mi_desbloqueio_do_estrei.Common.Int.{pos}
use mi_desbloqueio_do_estrei.Models.{Message, msg_queue_clear}
use mi_desbloqueio_do_estrei.Network.{Codec, Peer, send_message}
use mi_desbloqueio_do_estrei.Settings.Programs.{SectorDash}
use text.Mathlib.Text.{starts_with}

-- The handlers that main registers.
pub data Route : Type 0 where
  static_files index not_found web_socket api_state api_clear : Route

-- The longest pattern of the ServeMux that matches, and the test of the handler of "/".
unfoldable pub route : String → Route
route path =
    if path == "/ws"
    then web_socket
    else if path == "/api/state"
    then api_state
    else if path == "/api/clear-requests"
    then api_clear
    else if starts_with path "/static/"
    then static_files
    else if path == "/"
    then index
    else not_found

-- The answers of /api/clear-requests: 405, 200 with `{"ok": true}` and 500 with `{"ok": false}`.
pub data Answer : Type 0 where
  not_allowed cleared not_cleared : Answer

-- The message of the handler, without a stamp.
abbrev pub clear_message : Message
clear_message = record {
  type = msg_queue_clear;
  sender_id = "webdash";
  lamport_ts = pos 0;
  payload = "";
}

-- The loop over baseTCPAddrs: `ok` at its end, and what has been written to each address.
unfoldable pub clear_bases :
    Codec → (String → Peer) → Bool → List SectorDash → Bool × List (String × String)
unfolding send_message
clear_bases c net ok [] = (ok, [])
clear_bases c net ok (s ∷ sectors) =
    let (error, line) = send_message c net s.addr clear_message in
    let (ok', lines) = clear_bases c net (if is_some error then ok else true) sectors in
    (ok', (s.addr, line) ∷ lines)

-- The handler, with the method of the request: the answer, and what has been written to each base.
unfoldable pub clear_requests :
    Codec → (String → Peer) → List SectorDash → String → Answer × List (String × String)
unfolding clear_bases
clear_requests c net sectors method =
    let (ok, lines) = clear_bases c net false sectors in
    if not (method == "POST")
    then (not_allowed, [])
    else (if ok then cleared else not_cleared, lines)

route_runs : route "/static/app.js" ≡ static_files
unfolding route
route_runs = refl

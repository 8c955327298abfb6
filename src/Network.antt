-- ===== src/Network.antt =====
-- internal/network/tcp.go: a message is one line of JSON on a TCP connection. A text stands for its
-- UTF-8 bytes. What a connection does is an argument: `Peer` says whether it can be dialled, whether it
-- takes all that is written, and what comes back.
pub mod Scanner
pub mod Udp
pub mod Exchange
use Prim.Native.String.{◌++◌, slice}
use mi_desbloqueio_do_estrei.Common.{
  ℕ, String, Bool, not, Option, none, some, List, [], ◌∷◌, if◌then◌else◌, is_some,
}
use mi_desbloqueio_do_estrei.Models.{Message}
use mi_desbloqueio_do_estrei.Network.Scanner.{
  NetError, connect, marshal, write, unmarshal, closed, Received, Scanned, token, at_end,
  scan_failed, scan,
}

-- json.Marshal and json.Unmarshal at models.Message.
pub record Codec : Type 0 where
  pub put : Message → Option String
  pub get : String → Option Message

-- A value or an error.
pub data Result (A : Type 0) : Type 0 where
  ok : A → Result A
  failed : NetError → Result A

-- `takes` is none, or how many characters are written before an error. `answer` is what can be read
-- after a text has been written.
pub record Peer : Type 0 where
  pub dials : Bool
  pub takes : Option ℕ
  pub answer : String → Received

-- conn.Write: the error, and what has been written.
unfoldable pub written : Peer → String → Option NetError × String
written p line = elim p.takes [ none ↦ (none, line) | some k ↦ (some write, slice line 0 k) ]

unfoldable pub with_reply : Codec → Received → Result Message
unfolding scan
with_reply c r = elim (scan r) [
  | token line ↦ elim (c.get line) [ none ↦ failed unmarshal | some msg ↦ ok msg ]
  | at_end ↦ failed closed
  | scan_failed e ↦ failed e
]

-- ReadMessage.
unfoldable pub read_message : Codec → Received → Result Message
unfolding with_reply
read_message c r = with_reply c r

-- WriteMessage.
unfoldable pub write_message : Codec → Peer → Message → Option NetError × String
unfolding written
write_message c p msg = elim (c.put msg) [
  | none ↦ (some marshal, "")
  | some text ↦ written p (text ++ "\n")
]

-- SendMessage to an address that `net` describes.
unfoldable pub send_message : Codec → (String → Peer) → String → Message → Option NetError × String
unfolding written
send_message c net addr msg =
    let p = net addr in
    let tried : Option NetError × String = elim (c.put msg) [
      | none ↦ (some marshal, "")
      | some text ↦ written p (text ++ "\n")
    ] in
    if not p.dials then (some connect, "") else tried

-- After the write of SendMessageWithReply.
unfoldable pub await_reply : Codec → Peer → Option NetError × String → Result Message
unfolding with_reply
await_reply c p (some e, sent) = failed e
await_reply c p (none, sent) = with_reply c (p.answer sent)

unfoldable pub send_message_with_reply : Codec → (String → Peer) → String → Message → Result Message
unfolding written await_reply
send_message_with_reply c net addr msg =
    let p = net addr in
    let tried : Result Message = elim (c.put msg) [
      | none ↦ failed marshal
      | some text ↦ await_reply c p (written p (text ++ "\n"))
    ] in
    if not p.dials then failed connect else tried

-- BroadcastMessage, with the addresses in the order in which their results come in.
unfoldable pub broadcast_message : Codec → (String → Peer) → Message → List String → List String
unfolding send_message
broadcast_message c net msg [] = []
broadcast_message c net msg (addr ∷ order) =
    let rest = broadcast_message c net msg order in
    if is_some (send_message c net addr msg).0 then addr ∷ rest else rest

unfoldable pub is_alive : (String → Peer) → String → Bool
is_alive net addr = (net addr).dials

-- The loop of StartTCPServer on what Accept gives: the connections that are handed on.
unfoldable pub accepted : {A : Type 0} → List (Option A) → List A
accepted [] = []
accepted (none ∷ conns) = accepted conns
accepted (some conn ∷ conns) = conn ∷ accepted conns

-- StartTCPServer: none if it cannot listen.
unfoldable pub start_tcp_server : {A : Type 0} → Bool → List (Option A) → Option (List A)
unfolding accepted
start_tcp_server listens conns = if not listens then none else some (accepted conns)

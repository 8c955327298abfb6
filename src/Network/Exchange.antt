-- ===== src/Network/Exchange.antt =====
-- What SendMessageWithReply brings back from a server that reads one message and answers it, as
-- handleGossipConn of cmd/base and handleBaseCommand of cmd/drone do.
use Prim.Native.String.{◌++◌}
use mi_desbloqueio_do_estrei.Common.{
  ◌≡◌, refl, sym, subst, ◌∙◌, not, String, Bool, true, false, ◌&&◌, Option, none, some, List, [],
  ◌∷◌, SameItems, count, if◌then◌else◌, Bool-cases, inl, inr, arith, is_some,
}
use mi_desbloqueio_do_estrei.Common.Split.{split_two, Lacks, split_two-append}
use mi_desbloqueio_do_estrei.Models.{Message}
use mi_desbloqueio_do_estrei.Network.Scanner.{
  NetError, connect, marshal, closed, timed_out, too_long, Received, token, scan_failed, is_newline,
  is_return, fits_token, scan, drop_return_none,
}
use mi_desbloqueio_do_estrei.Network.{
  Codec, Result, ok, failed, Peer, written, with_reply, read_message, await_reply, send_message,
  send_message_with_reply, write_message, broadcast_message,
}

-- The text of a message, which is one line and can be read back.
pub record IsText (c : Codec) (msg : Message) (text : String) : Type 0 where
  pub put : c.put msg ≡ some text
  pub get : c.get text ≡ some msg
  pub one_line : Lacks is_newline text
  pub no_return : Lacks is_return text

-- A connection that takes all that is written to it.
abbrev pub open_conn : Peer
open_conn = record { dials = true; takes = none; answer = λ s. record { text = ""; error = none } }

-- A handler that reads one message, writes its answer and closes the connection.
pub reply_to : Codec → (Message → Message) → Received → String
unfolding read_message write_message
reply_to c f r = elim (read_message c r) [
  | ok msg ↦ (write_message c open_conn (f msg)).1
  | failed e ↦ ""
]

-- What the caller gets, who leaves the connection open. As long as no newline has come, the handler waits
-- for the rest of the line, ten seconds, and the caller for the answer, five: the caller gives up first.
pub answer_in_time : Codec → (Message → Message) → String → Received
unfolding reply_to
answer_in_time c f sent = elim (split_two is_newline sent) [
  | none ↦ record { text = ""; error = some timed_out }
  | some (line, rest) ↦ record {
    text = reply_to c f (record { text = sent; error = none });
    error = none;
  }
]

-- A peer with such a handler.
abbrev pub server : Codec → (Message → Message) → Peer
server c f = record { dials = true; takes = none; answer = answer_in_time c f }

scan-line :
    (text rest : String) (e : Option NetError)
    → Lacks is_newline text
    → Lacks is_return text
    → scan (record { text = text ++ (String.◌∷◌ "\n" rest); error = e })
      ≡ (if fits_token text then token text else scan_failed too_long)
unfolding scan
scan-line text rest e l r =
    rw (scan, split_two-append is_newline text "\n" rest l refl, drop_return_none text r) refl

-- A message that stands as a line on a connection is read as it is, whatever follows it, if it has less
-- than 65536 bytes, and is an error otherwise.
pub read_message-line :
    (c : Codec) (msg : Message) (text rest : String) (e : Option NetError)
    → IsText c msg text
    → read_message c (record { text = text ++ (String.◌∷◌ "\n" rest); error = e })
      ≡ (if fits_token text then ok msg else failed too_long)
unfolding read_message with_reply
read_message-line c msg text rest e t =
    rw (with_reply, scan-line text rest e t.one_line t.no_return)
      (elim (Bool-cases (fits_token text)) [ inl h ↦ rw (h, t.get) refl | inr h ↦ rw h refl ])

-- WriteMessage of a message that has a text.
write-open :
    (c : Codec) (msg : Message) (text : String)
    → c.put msg ≡ some text
    → (write_message c open_conn msg).1 ≡ text ++ "\n"
unfolding write_message written
write-open c msg text e = rw (write_message, e) refl

reply_to-line :
    (c : Codec) (f : Message → Message) (msg : Message) (text : String)
    → IsText c msg text
    → reply_to c f (record { text = text ++ "\n"; error = none })
      ≡ (if fits_token text then (write_message c open_conn (f msg)).1 else "")
unfolding reply_to
reply_to-line c f msg text t =
    rw (reply_to, read_message-line c msg text "" none t)
      (elim (Bool-cases (fits_token text)) [ inl h ↦ rw h refl | inr h ↦ rw h refl ])

answer_in_time-line :
    (c : Codec) (f : Message → Message) (text : String)
    → Lacks is_newline text
    → answer_in_time c f (text ++ "\n")
      ≡ record { text = reply_to c f (record { text = text ++ "\n"; error = none }); error = none }
unfolding answer_in_time
answer_in_time-line c f text l =
    rw (answer_in_time, split_two-append is_newline text "\n" "" l refl) refl

-- An answer or none at all.
with_reply-if :
    (c : Codec) (b : Bool) (sent : String) (r : Result Message)
    → with_reply c (record { text = sent; error = none }) ≡ r
    → with_reply c (record { text = if b then sent else ""; error = none })
      ≡ (if b then r else failed closed)
unfolding with_reply scan
with_reply-if c true sent r h = h
with_reply-if c false sent r h = refl

await_reply-server :
    (c : Codec) (f : Message → Message) (msg : Message) (text answer : String)
    → IsText c msg text
    → IsText c (f msg) answer
    → await_reply c (server c f) (written (server c f) (text ++ "\n")) ≡ (
        if fits_token text
        then if fits_token answer then ok (f msg) else failed too_long
        else failed closed)
unfolding await_reply written
await_reply-server c f msg text answer t u =
    rw (await_reply, written, answer_in_time-line c f text t.one_line, reply_to-line c f msg text t)
      (with_reply-if c (fits_token text) _ _ (
        rw (write-open c (f msg) answer u.put)
          (unfold read_message in read_message-line c (f msg) answer "" none u)))

dialled :
    (c : Codec) (net : String → Peer) (addr : String) (msg : Message) (text : String) (p : Peer)
    → net addr ≡ p
    → p.dials ≡ true
    → c.put msg ≡ some text
    → send_message_with_reply c net addr msg ≡ await_reply c p (written p (text ++ "\n"))
unfolding send_message_with_reply
dialled c net addr msg text p e d put =
    subst
      (λ q.
        (let tried : Result Message = elim (c.put msg) [
          | none ↦ failed marshal
          | some t ↦ await_reply c q (written q (t ++ "\n"))
        ] in
          if not q.dials then failed connect else tried)
        ≡ await_reply c p (written p (text ++ "\n")))
      (sym e) (rw (d, put) refl)

-- A message to a server that reads one message and writes its answer `f msg`: the caller gets just that
-- answer if both texts have less than 65536 bytes. If the message is longer the connection closes
-- without an answer, and if only the answer is, the caller's scanner fails.
pub send_message_with_reply-server :
    (c : Codec) (net : String → Peer) (addr : String) (f : Message → Message) (msg : Message)
    (text answer : String)
    → net addr ≡ server c f
    → IsText c msg text
    → IsText c (f msg) answer
    → send_message_with_reply c net addr msg ≡ (
        if fits_token text
        then if fits_token answer then ok (f msg) else failed too_long
        else failed closed)
send_message_with_reply-server c net addr f msg text answer e t u =
    dialled c net addr msg text (server c f) e refl t.put
    ∙ await_reply-server c f msg text answer t u

broadcast_message-count :
    (c : Codec) (net : String → Peer) (msg : Message) (order : List String) (p : String → Bool)
    → count p (broadcast_message c net msg order)
      ≡ count (λ a. p a && is_some (send_message c net a msg).0) order
unfolding broadcast_message
broadcast_message-count c net msg [] p = refl
broadcast_message-count c net msg (a ∷ order) p =
    ground (arith, broadcast_message-count c net msg order p)

-- A broadcast reports an address exactly as often as it was given, if the message cannot be sent there,
-- and never otherwise, in whatever order the results come in.
pub broadcast_message_lem :
    (c : Codec) (net : String → Peer) (msg : Message) (addrs order : List String)
    (p : String → Bool)
    → SameItems order addrs
    → count p (broadcast_message c net msg order)
      ≡ count (λ a. p a && is_some (send_message c net a msg).0) addrs
broadcast_message_lem c net msg addrs order p same =
    broadcast_message-count c net msg order p
    ∙ same (λ a. p a && is_some (send_message c net a msg).0)

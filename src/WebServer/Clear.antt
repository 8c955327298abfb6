-- ===== src/WebServer/Clear.antt =====
-- What /api/clear-requests of cmd/webdash/main.go does to a base, over the network and through the
-- server of cmd/base/servers.go.
use Prim.Native.String.{◌++◌}
use mi_desbloqueio_do_estrei.Common.{
  ◌≡◌, refl, ap, subst, ℕ, not, String, Bool, true, false, ◌||◌, Option, none, some, List, [], ◌∷◌,
  IsIn, inl, inr, any, if◌then◌else◌, arith, is_some,
}
use mi_desbloqueio_do_estrei.Queue
use mi_desbloqueio_do_estrei.BaseNode.{Config, Json, Node}
use mi_desbloqueio_do_estrei.BaseNode.Servers.{handle_main_conn, main_switch, handle_queue_clear}
use mi_desbloqueio_do_estrei.Network.{Codec, ok, failed, Peer, send_message, read_message, written}
use mi_desbloqueio_do_estrei.Network.Scanner.{NetError, fits_token}
use mi_desbloqueio_do_estrei.Network.Exchange.{IsText, read_message-line}
use mi_desbloqueio_do_estrei.Settings.Programs.{SectorDash}
use mi_desbloqueio_do_estrei.WebServer.{cleared, clear_message, clear_bases, clear_requests}

-- The main server of a base on one connection, on which `line` has been written.
unfoldable pub serve : Codec → Json → Config → ℕ → Node → String → Node
unfolding read_message
serve c json cfg now n line = elim (read_message c (record { text = line; error = none })) [
  | ok msg ↦ handle_main_conn json cfg now n msg
  | failed e ↦ n
]

-- The message reaches the address.
abbrev pub reached : Codec → (String → Peer) → SectorDash → Bool
reached c net s = not (is_some (send_message c net s.addr clear_message).0)

clear_bases-any :
    (c : Codec) (net : String → Peer) (b : Bool) (sectors : List SectorDash)
    → (clear_bases c net b sectors).0 ≡ (b || any (reached c net) sectors)
unfolding clear_bases
clear_bases-any c net b [] = ground arith
clear_bases-any c net b (s ∷ sectors) = ground (
  arith,
  clear_bases-any c net (if is_some (send_message c net s.addr clear_message).0 then b else true)
      sectors,
)

clear_bases-IsIn :
    (c : Codec) (net : String → Peer) (b : Bool) (sectors : List SectorDash) (s : SectorDash)
    → IsIn s sectors
    → IsIn (s.addr, (send_message c net s.addr clear_message).1) (clear_bases c net b sectors).1
unfolding clear_bases
clear_bases-IsIn c net b [] s m = absurd m
clear_bases-IsIn c net b (t ∷ sectors) s (inl e) =
    inl (ap (λ (q : SectorDash). (q.addr, (send_message c net q.addr clear_message).1)) e)
clear_bases-IsIn c net b (t ∷ sectors) s (inr m) = inr (
    clear_bases-IsIn c net (if is_some (send_message c net t.addr clear_message).0 then b else true)
      sectors s m)

reached-any :
    (c : Codec) (net : String → Peer) (sectors : List SectorDash) (s : SectorDash)
    → IsIn s sectors
    → reached c net s ≡ true
    → any (reached c net) sectors ≡ true
reached-any c net [] s m r = absurd m
reached-any c net (t ∷ sectors) s (inl e) r = rw (← e, r) refl
reached-any c net (t ∷ sectors) s (inr m) r = rw (reached-any c net sectors s m r) (ground arith)

send_message-open :
    (c : Codec) (net : String → Peer) (addr : String) (text : String)
    → (net addr).dials ≡ true
    → (net addr).takes ≡ none
    → c.put clear_message ≡ some text
    → send_message c net addr clear_message ≡ (none, text ++ "\n")
unfolding send_message written
send_message-open c net addr text d t e = rw (send_message, e, d, written, t) refl

serve-clear :
    (c : Codec) (json : Json) (cfg : Config) (now : ℕ) (n : Node) (text : String)
    → IsText c clear_message text
    → fits_token text ≡ true
    → (serve c json cfg now n (text ++ "\n")).pq ≡ Queue.clear_all n.pq
unfolding serve handle_main_conn main_switch handle_queue_clear
serve-clear c json cfg now n text t f =
    rw (serve, read_message-line c clear_message text "" none t, f) refl

-- A POST to /api/clear-requests, for sectors of which some base can be dialled and takes what is
-- written, answers that the queues are cleared; and each base like that has been sent a line which
-- empties its queue, whatever it was, when its server reads it, even if other bases cannot be reached.
-- The message must have a text of one line that fits the scanner.
pub clear_requests_lem :
    (c : Codec) (net : String → Peer) (sectors : List SectorDash) (s : SectorDash) (text : String)
    (json : Json) (cfg : Config) (now : ℕ) (n : Node)
    → IsText c clear_message text
    → fits_token text ≡ true
    → IsIn s sectors
    → (net s.addr).dials ≡ true
    → (net s.addr).takes ≡ none
    → ((clear_requests c net sectors "POST").0 ≡ cleared)
      × IsIn (s.addr, text ++ "\n") (clear_requests c net sectors "POST").1
      × ((serve c json cfg now n (text ++ "\n")).pq ≡ Queue.clear_all n.pq)
unfolding clear_requests
clear_requests_lem c net sectors s text json cfg now n t f m d k =
    let sent = send_message-open c net s.addr text d k t.put in
    let got : reached c net s ≡ true =
      ap (λ (w : Option NetError × String). not (is_some w.0)) sent in
    (
      rw (clear_bases-any c net false sectors, reached-any c net sectors s m got) refl,
      subst (λ w. IsIn (s.addr, w.1) (clear_bases c net false sectors).1) sent
          (clear_bases-IsIn c net false sectors s m),
      serve-clear c json cfg now n text t f,
    )

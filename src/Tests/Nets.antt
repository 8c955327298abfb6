-- ===== src/Tests/Nets.antt =====
-- Messages, heartbeats and updates on their way, and the settings that name the addresses.

use Prim.Native.String.{◌++◌}
use Prim.Native.String.append
use mi_desbloqueio_do_estrei.Common.{
  ◌+◌, ◌≤◌, ◌≡◌, refl, sym, ap, ◌∙◌, String, true, false, some, none, List, [], ◌∷◌, inl, inr, IsIn,
  map, select, if◌then◌else◌, ◌==◌, nat_eq, arith,
}
use mi_desbloqueio_do_estrei.Common.Split.{is_space, join}
use mi_desbloqueio_do_estrei.Models.{Message, msg_queue_clear, msg_heartbeat}
use mi_desbloqueio_do_estrei.Queue.{clear_all}
use mi_desbloqueio_do_estrei.BaseNode.{Node}
use mi_desbloqueio_do_estrei.BaseNode.Servers.{build_status_update}
use mi_desbloqueio_do_estrei.Network
use mi_desbloqueio_do_estrei.Network.{Peer, Result, ok, failed, send_message_with_reply}
use mi_desbloqueio_do_estrei.Network.Scanner.{byte_len, fits_token, too_long, closed}
use mi_desbloqueio_do_estrei.Network.Udp
use mi_desbloqueio_do_estrei.Network.Udp.{heard, fits, IsDatagram, heard-select}
use mi_desbloqueio_do_estrei.Network.Exchange.{IsText, server, send_message_with_reply-server}
use mi_desbloqueio_do_estrei.Settings.Programs.{SectorDash, parse_sectors}
use mi_desbloqueio_do_estrei.Settings.Peers.{show_sector, IsPlain, parse_sectors-join}
use mi_desbloqueio_do_estrei.Terminal.{render}
use mi_desbloqueio_do_estrei.Terminal.Stream
use mi_desbloqueio_do_estrei.Terminal.Stream.{
  push_updates, connect, in_full, take_while, IsUpdate, connect-push_updates,
}
use mi_desbloqueio_do_estrei.WebServer.{clear_message, clear_requests, cleared}
use mi_desbloqueio_do_estrei.WebServer.Clear.{serve, clear_requests_lem}
use mi_desbloqueio_do_estrei.Tests.Samples.{sample_config, sample_json, sample_node, message}

-- A codec for two messages: the text of one is its first letter.
abbrev two_messages : Network.Codec
two_messages = record {
  put = λ m. some (if m.type == msg_queue_clear then "Q" else "S");
  get = λ s. some (if s == "Q" then clear_message else message "STATUS_UPDATE" "");
}

clear-IsText : IsText two_messages clear_message "Q"
clear-IsText = record { put = refl; get = refl; one_line = (refl, tt); no_return = (refl, tt) }

status-IsText : IsText two_messages (message "STATUS_UPDATE" "") "S"
status-IsText = record { put = refl; get = refl; one_line = (refl, tt); no_return = (refl, tt) }

abbrev acknowledge : Message → Message
acknowledge m = message "STATUS_UPDATE" ""

send_message_with_reply-server_example :
    send_message_with_reply two_messages
      (λ addr. server two_messages acknowledge)
      "localhost:8001"
      clear_message
    ≡ (if fits_token "Q"
        then if fits_token "S" then ok (message "STATUS_UPDATE" "") else failed too_long
        else failed closed)
send_message_with_reply-server_example =
    send_message_with_reply-server two_messages (λ addr. server two_messages acknowledge)
      "localhost:8001" acknowledge clear_message "Q" "S" refl clear-IsText status-IsText

-- Datagrams of one byte are read, and no others.
abbrev one_byte : Udp.Codec
one_byte = record {
  put_heartbeat = λ h. some h.node_id;
  put = λ m. some "H";
  get = λ s. if nat_eq (byte_len s) 1 then some (message msg_heartbeat "base-B") else none;
}

byte_len-append : (s t : String) → byte_len (s ++ t) ≡ byte_len s + byte_len t
unfolding byte_len
byte_len-append String.[] t = rw append.nil (omega arith)
byte_len-append (String.◌∷◌ c s) t = rw append.cons (omega (arith, byte_len-append s t))

byte_len_pos : (s : String) → (s == "") ≡ false → 1 ≤ byte_len s
unfolding byte_len
byte_len_pos String.[] h = absurd (ground (arith, h))
byte_len_pos (String.◌∷◌ c s) h = ground arith

heartbeat-IsDatagram : IsDatagram one_byte (message msg_heartbeat "base-B", "H")
unfolding byte_len
heartbeat-IsDatagram = record {
  get = refl;
  whole = λ s rest joined ne.
      let size : byte_len s + byte_len rest ≡ 1 =
        sym (byte_len-append s rest) ∙ ap byte_len joined in
      let short : nat_eq (byte_len s) 1 ≡ false = ground (arith, size, byte_len_pos rest ne) in
      rw short refl;
}

abbrev beats : List (Message × String)
beats = (message msg_heartbeat "base-B", "H") ∷ (message msg_heartbeat "base-B", "H") ∷ []

heard-select_example :
    heard one_byte (map (λ s. some s.1) beats) ≡ map (λ s. s.0) (select fits beats)
heard-select_example =
    heard-select one_byte beats (heartbeat-IsDatagram, (heartbeat-IsDatagram, tt))

abbrev sector_c : SectorDash
sector_c = record { id = "C"; addr = "c:31" }

abbrev sector_d : SectorDash
sector_d = record { id = "D"; addr = "d:32" }

c-IsPlain : IsPlain sector_c
unfolding is_space
c-IsPlain = record {
  id_commas = (refl, tt);
  id_equals = (refl, tt);
  id_spaces = (refl, tt);
  addr_commas = (refl, (refl, (refl, (refl, tt))));
  addr_spaces = (refl, (refl, (refl, (refl, tt))));
}

d-IsPlain : IsPlain sector_d
unfolding is_space
d-IsPlain = record {
  id_commas = (refl, tt);
  id_equals = (refl, tt);
  id_spaces = (refl, tt);
  addr_commas = (refl, (refl, (refl, (refl, tt))));
  addr_spaces = (refl, (refl, (refl, (refl, tt))));
}

two_sectors : parse_sectors "C=c:31, D=d:32,E" ≡ sector_c ∷ sector_d ∷ []
unfolding parse_sectors
two_sectors = refl

parse_sectors-join_example :
    parse_sectors (join "," (map show_sector (sector_c ∷ sector_d ∷ []))) ≡ sector_c ∷ sector_d ∷ []
parse_sectors-join_example =
    parse_sectors-join (sector_c ∷ sector_d ∷ []) (λ e. absurd (ground (arith, e)))
      (c-IsPlain, (d-IsPlain, tt))

-- One base can be dialled.
abbrev one_up : String → Peer
one_up addr = record {
  dials = addr == "c:31";
  takes = none;
  answer = λ sent. record { text = ""; error = none };
}

fits_Q : fits_token "Q" ≡ true
unfolding byte_len
fits_Q = refl

clear_requests_lem_example :
    ((clear_requests two_messages one_up (sector_d ∷ sector_c ∷ []) "POST").0 ≡ cleared)
    × IsIn
        ("c:31", "Q" ++ "\n")
        (clear_requests two_messages one_up (sector_d ∷ sector_c ∷ []) "POST").1
    × ((serve two_messages sample_json sample_config 300 sample_node ("Q" ++ "\n")).pq
        ≡ clear_all sample_node.pq)
clear_requests_lem_example =
    clear_requests_lem two_messages one_up (sector_d ∷ sector_c ∷ []) sector_c "Q" sample_json
      sample_config 300 sample_node clear-IsText fits_Q (inr (inl refl)) refl refl

-- Every update has one text.
abbrev one_update : Stream.Codec
one_update = record {
  put = λ u. some "U";
  get = λ s. some (build_status_update sample_config sample_node);
}

sample-IsUpdate : IsUpdate one_update sample_config (sample_node, "U")
sample-IsUpdate = record { put = refl; get = refl; one_line = (refl, tt); no_return = (refl, tt) }

abbrev two_ticks : List (Node × String)
two_ticks = (sample_node, "U") ∷ (sample_node, "U") ∷ []

connect-push_updates_example :
    connect one_update true
      (push_updates one_update sample_config (map (in_full one_update sample_config) two_ticks))
    ≡ some (
        map
          (λ t. render (build_status_update sample_config t.0))
          (take_while (λ t. fits_token t.1) two_ticks))
connect-push_updates_example =
    connect-push_updates one_update sample_config two_ticks (sample-IsUpdate, (sample-IsUpdate, tt))

-- ===== src/Network/Udp.antt =====
-- internal/network/udp.go: heartbeats as datagrams of JSON, of which the listener reads 4096 bytes.
use Prim.Native.Nat.{ℕ, ◌-◌}
use Prim.Native.Char.{Char}
use Prim.Native.String.{◌++◌}
use Prim.Native.String.append
use Prim.Native.String.compare
use mi_desbloqueio_do_estrei.Common.{
  String, ◌≡◌, refl, Bool, false, not, Option, none, some, List, [], ◌∷◌, map, select, All, leb,
  ◌≤◌, arith, if◌then◌else◌, ◌==◌, Bool-cases, inl, inr,
}
use mi_desbloqueio_do_estrei.Common.Int.{ℤ}
use mi_desbloqueio_do_estrei.Models.{Message, HeartbeatPayload, msg_heartbeat}
use mi_desbloqueio_do_estrei.Network.Scanner.{byte_len}

abbrev pub udp_buffer_size : ℕ
udp_buffer_size = 4096

-- `buf[:n]`: what of a datagram fits into a buffer. A character that does not fit whole is left out.
unfoldable pub take_bytes : ℕ → String → String
unfolding byte_len
take_bytes n String.[] = String.[]
take_bytes n (String.◌∷◌ c s) =
    let size = byte_len (String.◌∷◌ c String.[]) in
    let rest = take_bytes (n - size) s in if leb size n then String.◌∷◌ c rest else String.[]

-- json.Marshal at the two types, and json.Unmarshal at models.Message.
pub record Codec : Type 0 where
  pub put_heartbeat : HeartbeatPayload → Option String
  pub put : Message → Option String
  pub get : String → Option Message

-- SendHeartbeat: the datagram, if one is sent. `dials` says whether net.Dial works.
unfoldable pub send_heartbeat : Codec → Bool → HeartbeatPayload → String → ℤ → Option String
send_heartbeat c dials payload sender_id lamport_ts = elim (c.put_heartbeat payload) [
  | none ↦ none
  | some text ↦
      if dials
      then c.put (record {
        type = msg_heartbeat;
        sender_id = sender_id;
        lamport_ts = lamport_ts;
        payload = text;
      })
      else none
]

-- BroadcastHeartbeat: the datagrams by address.
unfoldable pub broadcast_heartbeat :
    Codec → (String → Bool) → List String → HeartbeatPayload → String → ℤ → List (String × String)
unfolding send_heartbeat
broadcast_heartbeat c dials [] payload sender_id ts = []
broadcast_heartbeat c dials (addr ∷ addrs) payload sender_id ts =
    let rest = broadcast_heartbeat c dials addrs payload sender_id ts in
    elim (send_heartbeat c (dials addr) payload sender_id ts) [
      | none ↦ rest
      | some datagram ↦ (addr, datagram) ∷ rest
    ]

-- The loop of StartUDPListener on what ReadFromUDP meets, none for an error: the messages that are
-- handed on.
unfoldable pub heard : Codec → List (Option String) → List Message
unfolding take_bytes
heard c [] = []
heard c (none ∷ datagrams) = heard c datagrams
heard c (some datagram ∷ datagrams) =
    let rest = heard c datagrams in
    elim (c.get (take_bytes udp_buffer_size datagram)) [ none ↦ rest | some msg ↦ msg ∷ rest ]

-- StartUDPListener: none if the address cannot be resolved or listened on.
unfoldable pub start_udp_listener :
    Codec → Bool → Bool → List (Option String) → Option (List Message)
unfolding heard
start_udp_listener c resolves listens datagrams =
    if not resolves then none else if not listens then none else some (heard c datagrams)

take_bytes_all : (n : ℕ) (s : String) → byte_len s ≤ n → take_bytes n s ≡ s
unfolding take_bytes byte_len
take_bytes_all n String.[] h = refl
take_bytes_all n (String.◌∷◌ c s) h =
    ground (arith, take_bytes_all (n - byte_len (String.◌∷◌ c String.[])) s)

cons-eq-nil : (c : Char) (s : String) → (String.◌∷◌ c s == "") ≡ false
cons-eq-nil c s = ground (arith, compare.cons-nil c s)

-- What a datagram that is too long loses is not empty.
take_bytes_cut :
    (n : ℕ) (s : String)
    → leb (byte_len s) n ≡ false
    → (rest : String) × (take_bytes n s ++ rest ≡ s) × ((rest == "") ≡ false)
unfolding take_bytes byte_len
take_bytes_cut n String.[] h = absurd (ground arith)
take_bytes_cut n (String.◌∷◌ c s) h =
    let size = byte_len (String.◌∷◌ c String.[]) in
    elim (Bool-cases (leb size n)) [
      | inr g ↦ (String.◌∷◌ c s, rw (g, take_bytes, append.nil) refl, cons-eq-nil c s)
      | inl g ↦
          let (rest, joins, ne) = take_bytes_cut (n - size) s (ground (arith, g)) in
          (rest, rw (take_bytes, g, append.cons, joins) refl, ne)
    ]

-- The text of a message, which can be read back, and of which no shorter beginning can be read.
pub record IsDatagram (c : Codec) (sent : Message × String) : Type 0 where
  pub get : c.get sent.1 ≡ some sent.0
  pub whole : (s rest : String) → s ++ rest ≡ sent.1 → (rest == "") ≡ false → c.get s ≡ none

abbrev pub fits : Message × String → Bool
fits sent = leb (byte_len sent.1) udp_buffer_size

get-take_bytes :
    (c : Codec) (sent : Message × String)
    → IsDatagram c sent
    → c.get (take_bytes udp_buffer_size sent.1) ≡ (if fits sent then some sent.0 else none)
get-take_bytes c sent d = elim (Bool-cases (fits sent)) [
  | inl h ↦ rw (h, take_bytes_all udp_buffer_size sent.1 (ground (arith, h)), d.get) refl
  | inr h ↦
      let (rest, joins, ne) = take_bytes_cut udp_buffer_size sent.1 h in
      rw (h, d.whole (take_bytes udp_buffer_size sent.1) rest joins ne) refl
]

-- Of the messages that reach the listener as datagrams, each the text of its message, it hands on just
-- those whose text has at most 4096 bytes, each as it was, in their order.
pub heard-select :
    (c : Codec) (sents : List (Message × String))
    → All (IsDatagram c) sents
    → heard c (map (λ s. some s.1) sents) ≡ map (λ s. s.0) (select fits sents)
unfolding heard
heard-select c [] d = refl
heard-select c (s ∷ sents) d =
    rw (heard, get-take_bytes c s d.0)
      (elim (Bool-cases (fits s)) [
        | inl h ↦ rw (h, heard-select c sents d.1) refl
        | inr h ↦ rw h (heard-select c sents d.1)
      ])

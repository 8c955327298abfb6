-- ===== src/Network/Scanner.antt =====
-- bufio.Scanner with its default split by lines, as internal/network/tcp.go and cmd/dashboard use it.
use Prim.Native.Nat.{ℕ, ◌+◌}
use Prim.Native.Char.{Char, code}
use mi_desbloqueio_do_estrei.Common.{
  String, ◌≡◌, refl, Bool, not, Option, none, some, ltb, if◌then◌else◌, ◌==◌,
}
use mi_desbloqueio_do_estrei.Common.Split.{is_char, split_two, Lacks}

-- Which call has failed: net.Dial, json.Marshal, conn.Write, json.Unmarshal, a line over the
-- scanner's limit, a read that times out, a connection that ends without a line.
pub data NetError : Type 0 where
  connect marshal write unmarshal too_long timed_out closed : NetError

-- The text that a connection gives before it ends, and the error of the read, if it is not the end.
pub record Received : Type 0 where
  pub text : String
  pub error : Option NetError

-- What Scan finds: a line, the end without an error, or an error.
pub data Scanned : Type 0 where
  token : String → Scanned
  at_end : Scanned
  scan_failed : NetError → Scanned

abbrev pub is_newline : Char → Bool
is_newline = is_char 10

abbrev pub is_return : Char → Bool
is_return = is_char 13

abbrev utf8_size : ℕ → ℕ
utf8_size k = if ltb k 128 then 1 else if ltb k 2048 then 2 else if ltb k 65536 then 3 else 4

-- `len(s)` in Go.
unfoldable pub byte_len : String → ℕ
byte_len String.[] = 0
byte_len (String.◌∷◌ c s) = utf8_size (code c) + byte_len s

-- bufio.MaxScanTokenSize: a line and its newline fit into a buffer of this many bytes.
abbrev pub max_token : ℕ
max_token = 65536

-- One carriage return at the end is dropped.
unfoldable pub drop_return : String → String
drop_return String.[] = String.[]
drop_return (String.◌∷◌ c String.[]) = if is_return c then String.[] else String.◌∷◌ c String.[]
drop_return (String.◌∷◌ c (String.◌∷◌ d s)) = String.◌∷◌ c (drop_return (String.◌∷◌ d s))

abbrev pub fits_token : String → Bool
fits_token line = ltb (byte_len line) max_token

-- The first Scan on a connection. What is left when a read fails counts as a line.
unfoldable pub scan : Received → Scanned
unfolding byte_len drop_return split_two
scan r = elim (split_two is_newline r.text) [
  | some (line, rest) ↦ if fits_token line then token (drop_return line) else scan_failed too_long
  | none ↦
      if not (fits_token r.text)
      then scan_failed too_long
      else if r.text == ""
      then elim r.error [ none ↦ at_end | some e ↦ scan_failed e ]
      else token (drop_return r.text)
]

pub drop_return_none : (s : String) → Lacks is_return s → drop_return s ≡ s
unfolding drop_return
drop_return_none String.[] l = refl
drop_return_none (String.◌∷◌ c String.[]) l = rw l.0 refl
drop_return_none (String.◌∷◌ c (String.◌∷◌ d s)) l = rw (drop_return_none (String.◌∷◌ d s) l.1) refl

scan_runs : scan (record { text = "a\r\nb"; error = none }) ≡ token "a"
unfolding scan
scan_runs = refl

scan_rest : scan (record { text = "ab"; error = some timed_out }) ≡ token "ab"
unfolding scan
scan_rest = refl

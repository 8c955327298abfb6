-- ===== src/Settings.antt =====
-- How the programs read their configuration: getEnv, which every main.go declares alike, addresses
-- of hosts as package net takes them apart, and lists separated by commas.
-- os.Getenv is the parameter `Env`: the text of a variable, empty if it is not set.
pub mod Programs
pub mod Peers
use Prim.Native.Char.{Char}
use Prim.Native.String
use mi_desbloqueio_do_estrei.Common.{
  ◌≡◌, refl, String, Bool, true, false, not, ◌||◌, Option, none, some, List, [], ◌∷◌, if◌then◌else◌,
  ◌==◌, concat,
}
use mi_desbloqueio_do_estrei.Common.Split.{is_char, is_comma, split, split_two}

abbrev pub Env : Type 0
Env = String → String

unfoldable pub get_env : Env → String → String → String
get_env env k d = let v = env k in if not (v == "") then v else d

-- `if v := getEnv(k, ""); v != "" { xs = strings.Split(v, ",") }`, with `xs` nil before.
unfoldable pub env_list : Env → String → List String
unfolding get_env
env_list env k = let v = get_env env k "" in if not (v == "") then split is_comma v else []

-- Some character passes.
unfoldable pub contains : (Char → Bool) → String → Bool
contains p String.[] = false
contains p (String.◌∷◌ c s) = p c || contains p s

abbrev is_bracket : Char → Bool
is_bracket c = is_char b'[' c || is_char b']' c

-- The rest of `net.SplitHostPort` for an address that starts with a bracket, of which this is what
-- follows it.
bracketed : String → Option (String × String)
unfolding contains split_two
bracketed s = elim (split_two (is_char b']') s) [
  | none ↦ none
  | some (host, rest) ↦ elim (split_two (is_char b':') rest) [
    | none ↦ none
    | some (gap, port) ↦
        if not (gap == "")
          || contains (is_char b':') port
          || contains (is_char b'[') host
          || contains is_bracket port
        then none
        else some (host, port)
  ]
]

-- `net.SplitHostPort`: host and port, or an error.
unfoldable pub split_host_port : String → Option (String × String)
unfolding bracketed contains split_two
split_host_port String.[] = none
split_host_port (String.◌∷◌ c s) =
    let addr = String.◌∷◌ c s in
    let plain : Option (String × String) = elim (split_two (is_char b':') addr) [
      | none ↦ none
      | some (host, port) ↦
          if contains (is_char b':') port || contains is_bracket addr
          then none
          else some (host, port)
    ] in
    if is_char b'[' c then bracketed s else plain

-- `net.JoinHostPort`
unfoldable pub join_host_port : String → String → String
unfolding contains
join_host_port host port =
    if contains (is_char b':') host
    then concat ("[" ∷ host ∷ "]:" ∷ port ∷ [])
    else concat (host ∷ ":" ∷ port ∷ [])

-- `host == "" || host == "0.0.0.0" || host == "127.0.0.1" || host == "localhost"`
unfoldable pub is_local : String → Bool
is_local host = host == "" || host == "0.0.0.0" || host == "127.0.0.1" || host == "localhost"

-- defaultHost of cmd/base/main.go.
unfoldable pub default_host : String → String
unfolding split_host_port join_host_port is_local
default_host bind_addr = elim (split_host_port bind_addr) [
  | none ↦ bind_addr
  | some (host, port) ↦
      if is_local host then join_host_port "localhost" port else join_host_port host port
]

-- The default of DRONE_HOST in cmd/drone/main.go, which ignores the error of SplitHostPort.
unfoldable pub default_drone_host : String → String
unfolding split_host_port join_host_port is_local
default_drone_host drone_addr = elim (split_host_port drone_addr) [
  | none ↦ join_host_port "localhost" ""
  | some (host, port) ↦ if is_local host then join_host_port "localhost" port else drone_addr
]

default_host_runs : default_host "0.0.0.0:8001" ≡ "localhost:8001"
unfolding default_host concat
default_host_runs = refl

default_host_bracketed : default_host "[::1]:80" ≡ "[::1]:80"
unfolding default_host concat
default_host_bracketed = refl

default_drone_host_bad : default_drone_host "0.0.0.0" ≡ "localhost:"
unfolding default_drone_host concat
default_drone_host_bad = refl

-- ===== src/Settings/Peers.antt =====
-- What a program reads is what was written: lists of addresses and of sectors in the environment.

use Prim.Native.String.{◌++◌}
use mi_desbloqueio_do_estrei.Common.{
  ◌≡◌, refl, ◌≢◌, ◌∙◌, String, false, List, [], ◌∷◌, map, All, ◌==◌, arith,
}
use mi_desbloqueio_do_estrei.Common.Split.{
  is_comma, is_equals, is_space, Lacks, Lacks-append, join, split, split-join, split_two-append,
  trim_space_none,
}
use mi_desbloqueio_do_estrei.Settings.{Env, env_list}
use mi_desbloqueio_do_estrei.Settings.Programs.{SectorDash, parse_parts, parse_sectors}

-- A sector as it stands in BASE_ADDRS.
abbrev pub show_sector : SectorDash → String
show_sector s = s.id ++ (String.◌∷◌ "=" s.addr)

pub record IsPlain (s : SectorDash) : Type 0 where
  pub id_commas : Lacks is_comma s.id
  pub id_equals : Lacks is_equals s.id
  pub id_spaces : Lacks is_space s.id
  pub addr_commas : Lacks is_comma s.addr
  pub addr_spaces : Lacks is_space s.addr

parse_parts-map :
    (sectors : List SectorDash)
    → All IsPlain sectors
    → parse_parts (map show_sector sectors) ≡ sectors
unfolding parse_parts is_space
parse_parts-map [] p = refl
parse_parts-map (s ∷ sectors) p =
    rw
      (
        parse_parts,
        trim_space_none (show_sector s)
            (Lacks-append is_space s.id _ p.0.id_spaces (refl, p.0.addr_spaces)),
        split_two-append is_equals s.id "=" s.addr p.0.id_equals refl,
        parse_parts-map sectors p.1,
      )
      refl

map-Lacks :
    (sectors : List SectorDash)
    → All IsPlain sectors
    → All (Lacks is_comma) (map show_sector sectors)
map-Lacks [] p = tt
map-Lacks (s ∷ sectors) p =
    (Lacks-append is_comma s.id _ p.0.id_commas (refl, p.0.addr_commas), map-Lacks sectors p.1)

-- A list of sectors, written as `id=address` with a comma between, is read back as it was, if it is not
-- empty, no ID holds a comma, a space or an equals sign, and no address a comma or a space.
pub parse_sectors-join :
    (sectors : List SectorDash)
    → sectors ≢ []
    → All IsPlain sectors
    → parse_sectors (join "," (map show_sector sectors)) ≡ sectors
unfolding parse_sectors
parse_sectors-join [] ne p = absurd (ne refl)
parse_sectors-join (s ∷ sectors) ne p =
    rw
      (split-join is_comma "," (map show_sector (s ∷ sectors)) refl (λ e. cc)
        (map-Lacks (s ∷ sectors) p))
      (parse_parts-map (s ∷ sectors) p)

env_list_set :
    (env : Env) (k : String) → (env k == "") ≡ false → env_list env k ≡ split is_comma (env k)
unfolding env_list
env_list_set env k full = ground (arith, full)

-- A list of addresses, joined by commas, is read back as it was, if it is not the one empty text, not
-- empty, and no address holds a comma.
pub env_list-join :
    (env : Env) (k : String) (addrs : List String)
    → env k ≡ join "," addrs
    → addrs ≢ []
    → (join "," addrs == "") ≡ false
    → All (Lacks is_comma) addrs
    → env_list env k ≡ addrs
env_list-join env k addrs e ne full l =
    env_list_set env k (rw e full) ∙ rw e (split-join is_comma "," addrs refl ne l)

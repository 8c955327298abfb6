-- ===== src/Terminal/Stream.antt =====
-- What a base pushes to a terminal dashboard (handleDashConn of cmd/base/servers.go) and what the
-- dashboard reads (connect of cmd/dashboard/main.go): one line of JSON each second.
use Prim.Native.String.{◌++◌, slice}
use mi_desbloqueio_do_estrei.Common.{
  ℕ, ◌≡◌, ◌≢◌, refl, ap, String, Bool, true, not, ◌&&◌, Option, none, some, List, [], ◌∷◌, map, All,
  if◌then◌else◌, ◌==◌, Bool-cases, inl, inr,
}
use mi_desbloqueio_do_estrei.Common.Split.{Lacks, split, split-append, split-ne-nil}
use mi_desbloqueio_do_estrei.Models.{StatusUpdatePayload}
use mi_desbloqueio_do_estrei.BaseNode.{Config, Node}
use mi_desbloqueio_do_estrei.BaseNode.Servers.{build_status_update}
use mi_desbloqueio_do_estrei.Network.Scanner.{
  byte_len, is_newline, is_return, fits_token, drop_return, drop_return_none,
}
use mi_desbloqueio_do_estrei.Terminal.{Screen, render}

-- json.Marshal and json.Unmarshal at models.StatusUpdatePayload.
pub record Codec : Type 0 where
  pub put : StatusUpdatePayload → Option String
  pub get : String → Option StatusUpdatePayload

-- handleDashConn from one tick to the next: the base at each tick, and none if the write works, or how
-- many characters are written before its error. What reaches the connection.
unfoldable pub push_updates : Codec → Config → List (Node × Option ℕ) → String
push_updates c cfg [] = ""
push_updates c cfg ((n, takes) ∷ ticks) =
    let rest = push_updates c cfg ticks in
    elim (c.put (build_status_update cfg n)) [
      | none ↦ ""
      | some text ↦ elim takes [
        | none ↦ text ++ (String.◌∷◌ "\n" rest)
        | some k ↦ slice (text ++ "\n") 0 k
      ]
    ]

-- What Scan gives, one call after another, on the pieces between the newlines.
unfoldable pub scan_lines : List String → List String
unfolding drop_return
scan_lines [] = []
scan_lines (last ∷ []) = if fits_token last && not (last == "") then drop_return last ∷ [] else []
scan_lines (line ∷ next ∷ lines) =
    let rest = scan_lines (next ∷ lines) in if fits_token line then drop_return line ∷ rest else []

-- The loop of connect: a line that cannot be read is passed over.
unfoldable pub screens : Codec → List String → List Screen
screens c [] = []
screens c (line ∷ lines) =
    let rest = screens c lines in
    elim (c.get line) [ none ↦ rest | some payload ↦ render payload ∷ rest ]

-- connect: none if it cannot dial, otherwise what it shows until the connection ends.
unfoldable pub connect : Codec → Bool → String → Option (List Screen)
unfolding scan_lines screens split
connect c dials text =
    if not dials then none else some (screens c (scan_lines (split is_newline text)))

-- The state of a base, and the text of what it pushes, which is one line and can be read back.
pub record IsUpdate (c : Codec) (cfg : Config) (tick : Node × String) : Type 0 where
  pub put : c.put (build_status_update cfg tick.0) ≡ some tick.1
  pub get : c.get tick.1 ≡ some (build_status_update cfg tick.0)
  pub one_line : Lacks is_newline tick.1
  pub no_return : Lacks is_return tick.1

-- The items before the first that does not pass.
abbrev pub take_while {ℓ} : {A : Type ℓ} → (A → Bool) → List A → List A
take_while p [] = []
take_while p (x ∷ xs) = let rest = take_while p xs in if p x then x ∷ rest else []

scan_lines-cons :
    (line : String) (lines : List String)
    → lines ≢ []
    → scan_lines (line ∷ lines)
      ≡ (if fits_token line then drop_return line ∷ scan_lines lines else [])
unfolding scan_lines
scan_lines-cons line [] ne = absurd (ne refl)
scan_lines-cons line (l ∷ lines) ne = refl

module _ (c : Codec) (cfg : Config) where
  abbrev pub in_full : Node × String → Node × Option ℕ
  in_full tick = (tick.0, none)

  pushed_line :
      (t : Node × String) (ticks : List (Node × Option ℕ))
      → IsUpdate c cfg t
      → push_updates c cfg (in_full t ∷ ticks) ≡ t.1 ++ (String.◌∷◌ "\n" (push_updates c cfg ticks))
  unfolding push_updates
  pushed_line t ticks u = rw (push_updates, u.put) refl

  shown :
      (ticks : List (Node × String))
      → All (IsUpdate c cfg) ticks
      → screens c (scan_lines (split is_newline (push_updates c cfg (map in_full ticks))))
        ≡ map (λ t. render (build_status_update cfg t.0)) (take_while (λ t. fits_token t.1) ticks)
  unfolding screens byte_len
  shown [] u = unfold push_updates split scan_lines in refl
  shown (t ∷ ticks) (u, us) =
      let rest = push_updates c cfg (map in_full ticks) in
      rw
        (
          pushed_line t (map in_full ticks) u,
          split-append is_newline t.1 "\n" rest u.one_line refl,
          scan_lines-cons t.1 (split is_newline rest) (split-ne-nil is_newline rest),
          drop_return_none t.1 u.no_return,
        )
        (elim (Bool-cases (fits_token t.1)) [
          | inl e ↦ rw (e, screens, u.get, shown ticks us) refl
          | inr e ↦ rw (e, screens) refl
        ])

  -- A terminal dashboard shows just what the base has pushed, update by update, as long as each fits into
  -- the scanner's 64 KiB. From the first that does not fit on it shows nothing. The writes must work, and
  -- each update must have a text of one line that can be read back.
  pub connect-push_updates :
      (ticks : List (Node × String))
      → All (IsUpdate c cfg) ticks
      → connect c true (push_updates c cfg (map in_full ticks))
        ≡ some (
            map
              (λ t. render (build_status_update cfg t.0))
              (take_while (λ t. fits_token t.1) ticks))
  unfolding connect
  connect-push_updates ticks u = ap some (shown ticks u)

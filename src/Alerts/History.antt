-- ===== src/Alerts/History.antt =====
-- The history of internal/alerts/alerts.go is the end of all alerts there were, at most a hundred.
use mi_desbloqueio_do_estrei.Common.{
  ℕ, String, zero, suc, ◌+◌, ◌-◌, ◌≤◌, ◌≡◌, refl, ap, ◌∙◌, sym, List, [], ◌∷◌, ◌++◌, length, drop,
  leb, arith, Bool-cases, inl, inr, true, length-append, length-drop,
}
use mathlib.Core.List.{append-nil, append_assoc}
use mi_desbloqueio_do_estrei.Models.{Alert}
use mi_desbloqueio_do_estrei.Alerts.{Manager, new, max_alerts, append_alert, add, get_all, get_last}

-- The last `n` items of a list.
abbrev pub last : ℕ → List Alert → List Alert
last n xs = drop (length xs - n) xs

-- Add of one alert after another.
unfoldable pub add_all : Manager → List Alert → Manager
add_all m [] = m
add_all m (a ∷ rest) = add_all (add m a) rest

drop-append : (n : ℕ) (xs ys : List Alert) → n ≤ length xs → drop n (xs ++ ys) ≡ drop n xs ++ ys
drop-append zero xs ys h = refl
drop-append (suc n) [] ys h = absurd (omega arith)
drop-append (suc n) (x ∷ xs) ys h = drop-append n xs ys (omega arith)

index : (n m : ℕ) → suc (n + m) ≡ suc n + m
index n m = omega arith

drop-nil : (n : ℕ) → drop {A = Alert} n [] ≡ []
drop-nil zero = refl
drop-nil (suc n) = refl

drop-drop : (m n : ℕ) (xs : List Alert) → drop m (drop n xs) ≡ drop (n + m) xs
drop-drop m zero xs = ap (λ (k : ℕ). drop k xs) (omega arith)
drop-drop m (suc n) [] = drop-nil m ∙ sym (drop-nil (suc n + m))
drop-drop m (suc n) (x ∷ xs) = drop-drop m n xs ∙ ap (λ (k : ℕ). drop k (x ∷ xs)) (index n m)

-- One more alert after a history that is the end of `all`.
append-last :
    (all : List Alert) (a : Alert)
    → append_alert (last max_alerts all) a ≡ last max_alerts (all ++ a ∷ [])
unfolding append_alert
append-last all a = elim (Bool-cases (leb max_alerts (length all))) [
  | inl e ↦
      let n = length all - max_alerts in
      let full : leb max_alerts (length (drop n all)) ≡ true = ground (arith, length-drop n all) in
      let next : length (all ++ a ∷ []) - max_alerts ≡ n + 1 =
        ground (arith, length-append all (a ∷ [])) in
      rw (full, next, drop-drop 1 n all) (sym (drop-append (n + 1) all (a ∷ []) (ground arith)))
  | inr e ↦
      let none_out : length all - max_alerts ≡ 0 = ground arith in
      let next : length (all ++ a ∷ []) - max_alerts ≡ 0 =
        ground (arith, length-append all (a ∷ [])) in
      rw (none_out, next, e) refl
]

add_all-last :
    (m : Manager) (all rest : List Alert)
    → get_all m ≡ last max_alerts all
    → get_all (add_all m rest) ≡ last max_alerts (all ++ rest)
unfolding add_all add get_all
add_all-last m all [] h = h ∙ ap (last max_alerts) (sym (append-nil all))
add_all-last m all (a ∷ rest) h =
    add_all-last (add m a) (all ++ a ∷ []) rest (ap (λ l. append_alert l a) h ∙ append-last all a)
    ∙ ap (last max_alerts) (append_assoc all (a ∷ []) rest)

-- After any alerts a new manager holds the last hundred of them, in order.
pub add_all-new :
    (source : String) (alerts : List Alert)
    → get_all (add_all (new source) alerts) ≡ last max_alerts alerts
unfolding new get_all
add_all-new source alerts = add_all-last (new source) [] alerts refl

-- GetLast returns the end of the history, and all of it where more is asked for.
pub get_last_lem :
    (m : Manager) (n : ℕ) → (get_last m n ≡ last n (get_all m)) × (length (get_last m n) ≤ n)
unfolding get_last get_all
get_last_lem m n = elim (Bool-cases (leb (length m.alerts) n)) [
  | inl e ↦
      let all_of_it : length m.alerts - n ≡ 0 = ground arith in
      rw (e, all_of_it) (refl, ground arith)
  | inr e ↦ rw e (refl, ground (arith, length-drop (length m.alerts - n) m.alerts))
]

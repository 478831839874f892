-- ===== src/AtModem/LineLoop.antt =====
-- The inner loop of `run_at` of src/at_modem.cpp as it is written, with `find`, `substr` and `erase`
-- on the whole buffer, beside the scan of its bytes one after another.
use zero_touch.AtModem.{
  Fed, Scan, end_line, feed, finished, go, is_error, scan, stop, waiting, without_cr,
}
use zero_touch.AtModem.Pieces.{Fed-cases, scan-line, scan_go, scan_stop}
use zero_touch.Base.{
  Bool, Bool-cases, List, Option, Option-cases, [], ap, append-nil, arith, drop, drop-past, false,
  if◌then◌else◌, inl, inr, is_empty, length, length-append, none, refl, some, subst, suc, sym, take,
  take-length_append, true, zero, ℕ, ◌++◌, ◌+◌, ◌<◌, ◌==◌, ◌||◌, ◌∙◌, ◌∷◌, ◌≡◌,
}
use zero_touch.Base.Bytes.{Bytes, codes, equals, find, find_sound, lacks}

-- What follows a whole line.
abbrev pub after_line : (List Bytes → Bytes → Option Scan) → Fed → Bytes → Option Scan
after_line next (go found cur) rest = next found rest
after_line next (stop ok found) rest = some (finished ok found rest)

abbrev pub line_found :
    (List Bytes → Bytes → Option Scan) → Bytes → List Bytes → Bytes → Option ℕ → Option Scan
line_found next cmd found rx none = some (waiting found rx)
line_found next cmd found rx (some nl) =
    after_line next (end_line cmd found (without_cr (take nl rx))) (drop (nl + 1) rx)

-- The loop `while ((nl = m_rx.find('\n')) != npos)`; `none` where it makes more turns than `fuel`.
unfoldable pub line_loop : ℕ → Bytes → List Bytes → Bytes → Option Scan
unfolding find
line_loop zero cmd found rx = none
line_loop (suc fuel) cmd found rx = line_found (line_loop fuel cmd) cmd found rx (find b'\n' rx)

-- The next line starts empty.
abbrev StartsEmpty : Fed → Type 0
StartsEmpty (go found cur) = cur ≡ []
StartsEmpty (stop ok found) = Unit

either-StartsEmpty :
    (b : Bool) (f g : Fed) → StartsEmpty f → StartsEmpty g → StartsEmpty (if b then f else g)
either-StartsEmpty true f g h k = h
either-StartsEmpty false f g h k = k

end_line-StartsEmpty :
    (cmd : Bytes) (found : List Bytes) (l : Bytes) → StartsEmpty (end_line cmd found l)
unfolding end_line
end_line-StartsEmpty cmd found l =
    let failed = stop false (found ++ l ∷ []) in
    let kept = go (found ++ l ∷ []) [] in
    let tested = if is_error l then failed else kept in
    either-StartsEmpty (is_empty l || equals l cmd) (go found [])
      (if equals l (codes "OK") then stop true found else tested) refl
      (either-StartsEmpty (equals l (codes "OK")) (stop true found) tested tt
        (either-StartsEmpty (is_error l) failed kept tt refl))

end_line-cur :
    (cmd : Bytes) (found found' : List Bytes) (l cur : Bytes)
    → end_line cmd found l ≡ go found' cur
    → cur ≡ []
end_line-cur cmd found found' l cur e = subst StartsEmpty e (end_line-StartsEmpty cmd found l)

lacks-find : (c : ℕ) (s : Bytes) → find c s ≡ none → lacks c s ≡ true
unfolding find lacks
lacks-find c [] h = refl
lacks-find c (x ∷ s) h = elim (Bool-cases (x == c)) [
  | inl hit ↦ absurd (ground arith)
  | inr miss ↦ elim (Option-cases (find c s)) [
    | inl e ↦ rw miss (lacks-find c s e)
    | inr (i, e) ↦ absurd (ground arith)
  ]
]

scan_last_line :
    (cmd : Bytes) (found : List Bytes) (rx : Bytes)
    → lacks b'\n' rx ≡ true
    → scan cmd found [] rx ≡ waiting found rx
unfolding scan
scan_last_line cmd found rx h =
    ap (scan cmd found []) (sym (append-nil rx)) ∙ scan-line cmd found [] rx [] h

feed_newline :
    (cmd : Bytes) (found : List Bytes) (l : Bytes)
    → feed cmd found l b'\n' ≡ end_line cmd found (without_cr l)
unfolding feed
feed_newline cmd found l = refl

loop_line :
    (next : List Bytes → Bytes → Option Scan) (cmd : Bytes) (found : List Bytes) (pre post : Bytes)
    → lacks b'\n' pre ≡ true
    → ((found' : List Bytes) → next found' post ≡ some (scan cmd found' [] post))
    → after_line next (end_line cmd found (without_cr pre)) post
      ≡ some (scan cmd found [] (pre ++ b'\n' ∷ post))
loop_line next cmd found pre post clean ih =
    elim (Fed-cases (end_line cmd found (without_cr pre))) [
      | inl (found', cur, e) ↦
          ap (λ f. after_line next f post) e
          ∙ ih found'
          ∙ ap some (
              ap (λ x. scan cmd found' x post) (sym (end_line-cur cmd found found' _ cur e))
              ∙ sym (scan_go cmd found found' pre cur post b'\n' (feed_newline cmd found pre ∙ e))
              ∙ sym (scan-line cmd found [] pre (b'\n' ∷ post) clean))
      | inr (ok, found', e) ↦
          ap (λ f. after_line next f post) e
          ∙ ap some (
              sym (scan_stop cmd found found' pre post b'\n' ok (feed_newline cmd found pre ∙ e))
              ∙ sym (scan-line cmd found [] pre (b'\n' ∷ post) clean))
    ]

line_loop_found :
    (fuel : ℕ) (cmd : Bytes) (found : List Bytes) (rx : Bytes) (o : Option ℕ)
    → find b'\n' rx ≡ o
    → line_loop (suc fuel) cmd found rx ≡ line_found (line_loop fuel cmd) cmd found rx o
unfolding line_loop
line_loop_found fuel cmd found rx o e = ap (line_found (line_loop fuel cmd) cmd found rx) e

-- The loop ends: fuel beyond the length of the buffer is enough for it, whatever the buffer holds,
-- and what it then leaves - the lines, the result and the rest of the buffer - is what the scan of the
-- buffer byte by byte gives.
pub line_loop-scan :
    (fuel : ℕ) (cmd : Bytes) (found : List Bytes) (rx : Bytes)
    → length rx < fuel
    → line_loop fuel cmd found rx ≡ some (scan cmd found [] rx)
line_loop-scan zero cmd found rx h = absurd (omega (arith, h))
line_loop-scan (suc fuel) cmd found rx h = elim (Option-cases (find b'\n' rx)) [
  | inl e ↦
      line_loop_found fuel cmd found rx none e
      ∙ ap some (sym (scan_last_line cmd found rx (lacks-find b'\n' rx e)))
  | inr (nl, e) ↦
      let (pre, post, split, clean, place) = find_sound b'\n' rx e in
      let shorter : length post < fuel =
        omega (arith, h, ap length split, length-append pre (b'\n' ∷ post)) in
      let line_is : take nl rx ≡ pre =
        ap (λ n. take n rx) place
        ∙ ap (take (length pre)) split
        ∙ take-length_append pre (b'\n' ∷ post) in
      let rest_is : drop (nl + 1) rx ≡ post =
        ap (drop (nl + 1)) split ∙ drop-past pre b'\n' post (nl + 1) (omega (arith, place)) in
      line_loop_found fuel cmd found rx (some nl) e
      ∙ rw (line_is, rest_is)
          (loop_line (line_loop fuel cmd) cmd found pre post clean
            (λ found'. line_loop-scan fuel cmd found' post shorter))
      ∙ ap (λ x. some (scan cmd found [] x)) (sym split)
]

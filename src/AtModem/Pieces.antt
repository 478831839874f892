-- ===== src/AtModem/Pieces.antt =====
-- How the bytes of a reply are cut into pieces, for `run_at` of src/at_modem.cpp.
use zero_touch.AtModem.{
  AtResult, Fed, Scan, end_line, feed, finished, go, is_error, on_read, read_loop, scan, stop,
  waiting, without_cr,
}
use zero_touch.Base.{
  Bool, Bool-cases, List, [], ap, append-nil, append_assoc, arith, false, inl, inr, is_empty, refl,
  subst, sym, true, ℕ, ◌++◌, ◌==◌, ◌||◌, ◌∙◌, ◌∷◌, ◌≡◌, ◌⊎◌,
}
use zero_touch.Base.Bytes.{Bytes, codes, equals, lacks}
use zero_touch.Config.Lines.{line}

pub Fed-cases :
    (f : Fed)
    → ((found : List Bytes) × (cur : Bytes) × (f ≡ go found cur))
      ⊎ ((ok : Bool) × (found : List Bytes) × (f ≡ stop ok found))
Fed-cases (go found cur) = inl (found, cur, refl)
Fed-cases (stop ok found) = inr (ok, found, refl)

pub scan_go :
    (cmd : Bytes) (found found' : List Bytes) (cur cur' s : Bytes) (c : ℕ)
    → feed cmd found cur c ≡ go found' cur'
    → scan cmd found cur (c ∷ s) ≡ scan cmd found' cur' s
unfolding scan
scan_go cmd found found' cur cur' s c e = rw (e, scan)

pub scan_stop :
    (cmd : Bytes) (found found' : List Bytes) (cur s : Bytes) (c : ℕ) (ok : Bool)
    → feed cmd found cur c ≡ stop ok found'
    → scan cmd found cur (c ∷ s) ≡ finished ok found' s
unfolding scan
scan_stop cmd found found' cur s c ok e = rw (e, scan)

-- A scan that goes on with more bytes.
abbrev resume : Bytes → Scan → Bytes → Scan
resume cmd (finished ok found rest) b = finished ok found (rest ++ b)
resume cmd (waiting found cur) b = scan cmd found cur b

pub scan-append :
    (cmd : Bytes) (found : List Bytes) (cur a b : Bytes)
    → scan cmd found cur (a ++ b) ≡ resume cmd (scan cmd found cur a) b
scan-append cmd found cur [] b = unfold scan in refl
scan-append cmd found cur (c ∷ a) b = elim (Fed-cases (feed cmd found cur c)) [
  | inl (found', cur', e) ↦
      scan_go cmd found found' cur cur' (a ++ b) c e
      ∙ scan-append cmd found' cur' a b
      ∙ ap (λ x. resume cmd x b) (sym (scan_go cmd found found' cur cur' a c e))
  | inr (ok, found', e) ↦
      scan_stop cmd found found' cur (a ++ b) c ok e
      ∙ ap (λ x. resume cmd x b) (sym (scan_stop cmd found found' cur a c ok e))
]

-- Bytes with no newline join the line being read.
pub scan-line :
    (cmd : Bytes) (found : List Bytes) (cur p b : Bytes)
    → lacks b'\n' p ≡ true
    → scan cmd found cur (p ++ b) ≡ scan cmd found (cur ++ p) b
unfolding lacks
scan-line cmd found cur [] b h = ap (λ x. scan cmd found x b) (sym (append-nil cur))
scan-line cmd found cur (c ∷ p) b h = elim (Bool-cases (c == b'\n')) [
  | inl newline ↦ absurd (ground arith)
  | inr plain ↦
      (scan_go cmd found found cur (cur ++ c ∷ []) (p ++ b) c (unfold feed in rw plain)
        ∙ scan-line cmd found (cur ++ c ∷ []) p b (ground arith)
        ∙ ap (λ x. scan cmd found x b) (append_assoc cur (c ∷ []) p))
]

-- A line being read has no newline.
abbrev NoNewline : Scan → Type 0
NoNewline (finished ok found rest) = Unit
NoNewline (waiting found cur) = lacks b'\n' cur ≡ true

abbrev FedNoNewline : Fed → Type 0
FedNoNewline (go found cur) = lacks b'\n' cur ≡ true
FedNoNewline (stop ok found) = Unit

lacks-concat :
    (cur : Bytes) (c : ℕ)
    → lacks b'\n' cur ≡ true
    → (c == b'\n') ≡ false
    → lacks b'\n' (cur ++ c ∷ []) ≡ true
unfolding lacks
lacks-concat [] c h k = ground arith
lacks-concat (x ∷ cur) c h k = ground (arith, lacks-concat cur c)

end_line-FedNoNewline :
    (cmd : Bytes) (found : List Bytes) (line : Bytes) → FedNoNewline (end_line cmd found line)
unfolding end_line lacks
end_line-FedNoNewline cmd found line = elim (Bool-cases (is_empty line || equals line cmd)) [
  | inl skip ↦ rw skip refl
  | inr kept ↦ elim (Bool-cases (equals line (codes "OK"))) [
    | inl done ↦ rw (kept, done) tt
    | inr text ↦ elim (Bool-cases (is_error line)) [
      | inl bad ↦ rw (kept, text, bad) tt
      | inr good ↦ rw (kept, text, good) refl
    ]
  ]
]

feed-FedNoNewline :
    (cmd : Bytes) (found : List Bytes) (cur : Bytes) (c : ℕ)
    → lacks b'\n' cur ≡ true
    → FedNoNewline (feed cmd found cur c)
unfolding feed
feed-FedNoNewline cmd found cur c h = elim (Bool-cases (c == b'\n')) [
  | inl newline ↦ rw newline (end_line-FedNoNewline cmd found (without_cr cur))
  | inr plain ↦ rw plain (lacks-concat cur c h plain)
]

scan-NoNewline :
    (cmd : Bytes) (found : List Bytes) (cur s : Bytes)
    → lacks b'\n' cur ≡ true
    → NoNewline (scan cmd found cur s)
scan-NoNewline cmd found cur [] h = unfold scan in h
scan-NoNewline cmd found cur (c ∷ s) h = elim (Fed-cases (feed cmd found cur c)) [
  | inl (found', cur', e) ↦ subst NoNewline (sym (scan_go cmd found found' cur cur' s c e)) (
      scan-NoNewline cmd found' cur' s (subst FedNoNewline e (feed-FedNoNewline cmd found cur c h)))
  | inr (ok, found', e) ↦ subst NoNewline (sym (scan_stop cmd found found' cur s c ok e)) tt
]

-- The bytes of the pieces.
abbrev pub joined : List Bytes → Bytes
joined [] = []
joined (p ∷ ps) = p ++ joined ps

-- An exchange with what it leaves to the next one: the buffer and the bytes still on the line.
abbrev pub exchange : Bytes → List Bytes → Bytes → List Bytes → AtResult × Bytes
exchange cmd found rx pieces =
    let (r, rx', unread) = read_loop cmd false found rx pieces in (r, rx' ++ joined unread)

abbrev pub after : Scan → AtResult × Bytes
after (finished ok found rest) = (record { ok = ok; lines = found }, rest)
after (waiting found cur) = (record { ok = false; lines = found }, cur)

Scan-cases :
    (x : Scan)
    → ((ok : Bool) × (found : List Bytes) × (rest : Bytes) × (x ≡ finished ok found rest))
      ⊎ ((found : List Bytes) × (cur : Bytes) × (x ≡ waiting found cur))
Scan-cases (finished ok found rest) = inl (ok, found, rest, refl)
Scan-cases (waiting found cur) = inr (found, cur, refl)

exchange_finished :
    (cmd : Bytes) (found : List Bytes) (rx p : Bytes) (ps : List Bytes) (ok : Bool)
    (found' : List Bytes) (rest : Bytes)
    → on_read cmd false found rx p ≡ finished ok found' rest
    → exchange cmd found rx (p ∷ ps) ≡ (record { ok = ok; lines = found' }, rest ++ joined ps)
unfolding read_loop
exchange_finished cmd found rx p ps ok found' rest e = rw (e, read_loop)

exchange_waiting :
    (cmd : Bytes) (found : List Bytes) (rx p : Bytes) (ps : List Bytes) (found' : List Bytes)
    (rx' : Bytes)
    → on_read cmd false found rx p ≡ waiting found' rx'
    → exchange cmd found rx (p ∷ ps) ≡ exchange cmd found' rx' ps
unfolding read_loop
exchange_waiting cmd found rx p ps found' rx' e = rw (e, read_loop)

on_read_full :
    (cmd : Bytes) (found : List Bytes) (rx : Bytes) (c : ℕ) (p : Bytes)
    → on_read cmd false found rx (c ∷ p) ≡ scan cmd found [] (rx ++ c ∷ p)
unfolding on_read
on_read_full cmd found rx c p = refl

on_read_rest :
    (cmd : Bytes) (found : List Bytes) (cur q : Bytes)
    → lacks b'\n' cur ≡ true
    → on_read cmd false found cur q ≡ scan cmd found cur q
on_read_rest cmd found cur [] h = unfold on_read scan in refl
on_read_rest cmd found cur (c ∷ q) h =
    on_read_full cmd found cur c q ∙ scan-line cmd found [] cur (c ∷ q) h

-- The exchange is what one piece of all the bytes would make of it.
pub exchange_lem :
    (cmd : Bytes) (found : List Bytes) (rx : Bytes) (ps : List Bytes)
    → exchange cmd found rx ps ≡ after (on_read cmd false found rx (joined ps))
exchange_lem cmd found rx [] =
    unfold on_read read_loop in ap (λ x. (record { ok = false; lines = found }, x)) (append-nil rx)
exchange_lem cmd found rx ([] ∷ ps) =
    exchange_waiting cmd found rx [] ps found rx (unfold on_read in refl)
    ∙ exchange_lem cmd found rx ps
exchange_lem cmd found rx ((c ∷ p) ∷ ps) =
    let split : on_read cmd false found rx ((c ∷ p) ++ joined ps)
        ≡ resume cmd (on_read cmd false found rx (c ∷ p)) (joined ps) =
      on_read_full cmd found rx c (p ++ joined ps)
      ∙ ap (scan cmd found []) (sym (append_assoc rx (c ∷ p) (joined ps)))
      ∙ scan-append cmd found [] (rx ++ c ∷ p) (joined ps)
      ∙ ap (λ x. resume cmd x (joined ps)) (sym (on_read_full cmd found rx c p)) in
    elim (Scan-cases (on_read cmd false found rx (c ∷ p))) [
      | inl (ok, found', rest, e) ↦
          exchange_finished cmd found rx (c ∷ p) ps ok found' rest e
          ∙ sym (ap after (split ∙ ap (λ x. resume cmd x (joined ps)) e))
      | inr (found', cur, e) ↦
          let plain =
            subst NoNewline (sym (on_read_full cmd found rx c p) ∙ e)
              (scan-NoNewline cmd found [] (rx ++ c ∷ p) (unfold lacks in refl)) in
          exchange_waiting cmd found rx (c ∷ p) ps found' cur e
          ∙ exchange_lem cmd found' cur ps
          ∙ ap after (on_read_rest cmd found' cur (joined ps) plain)
          ∙ sym (ap after (split ∙ ap (λ x. resume cmd x (joined ps)) e))
    ]

-- However the serial line cuts its bytes into pieces, a command that waits for no prompt gets the
-- same result, and leaves the same bytes to the next command.
pub exchange-pieces :
    (cmd rx : Bytes) (ps qs : List Bytes)
    → joined ps ≡ joined qs
    → exchange cmd [] rx ps ≡ exchange cmd [] rx qs
exchange-pieces cmd rx ps qs e =
    exchange_lem cmd [] rx ps
    ∙ ap (λ x. after (on_read cmd false [] rx x)) e
    ∙ sym (exchange_lem cmd [] rx qs)

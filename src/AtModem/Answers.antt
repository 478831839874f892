-- ===== src/AtModem/Answers.antt =====
-- What `run_at` of src/at_modem.cpp makes of a whole reply.
use zero_touch.AtModem.{
  AtResult, end_line, feed, finished, go, is_error, on_read, scan, stop, without_cr,
}
use zero_touch.AtModem.Pieces.{after, exchange, exchange_lem, joined, scan-line, scan_go, scan_stop}
use zero_touch.Base.{
  Bool, List, [], all, ap, append-nil, append_assoc, arith, false, if◌then◌else◌, is_empty, not,
  refl, sym, true, ◌&&◌, ◌++◌, ◌||◌, ◌∙◌, ◌∷◌, ◌≡◌, ◌≢◌,
}
use zero_touch.Base.Bytes.{Bytes, codes, equals, lacks, starts_with}

-- The final codes of an error, as the modem sends them: the bare one, and those with a number or a
-- text behind them.
abbrev pub is_error_code : Bytes → Bool
is_error_code l =
    equals l (codes "ERROR")
    || starts_with (codes "+CME ERROR") l
    || starts_with (codes "+CMS ERROR") l

is_error_lem : (l : Bytes) → is_error l ≡ is_error_code l
unfolding is_error
is_error_lem l = refl

-- A line of information: no blank line, no echo of the command, no final code, no newline in it.
abbrev pub is_info : Bytes → Bytes → Bool
is_info cmd l =
    not (is_empty l)
    && not (equals l cmd)
    && not (equals l (codes "OK"))
    && not (is_error_code l)
    && lacks b'\n' l

-- The lines as the modem sends them.
abbrev pub sent_lines : List Bytes → Bytes → Bytes
sent_lines [] rest = rest
sent_lines (l ∷ ls) rest = l ++ b'\r' ∷ b'\n' ∷ sent_lines ls rest

without_cr-append : (l : Bytes) → without_cr (l ++ b'\r' ∷ []) ≡ l
unfolding without_cr
without_cr-append [] = refl
without_cr-append (c ∷ []) = refl
without_cr-append (c ∷ d ∷ l) = ap (◌∷◌ c) (without_cr-append (d ∷ l))

-- A line is read up to its end.
scan-full_line :
    (cmd : Bytes) (found : List Bytes) (l rest : Bytes)
    → lacks b'\n' l ≡ true
    → scan cmd found [] (l ++ b'\r' ∷ b'\n' ∷ rest)
      ≡ scan cmd found (l ++ b'\r' ∷ []) (b'\n' ∷ rest)
scan-full_line cmd found l rest h =
    scan-line cmd found [] l (b'\r' ∷ b'\n' ∷ rest) h
    ∙ scan_go cmd found found l (l ++ b'\r' ∷ []) (b'\n' ∷ rest) b'\r' (unfold feed in refl)

feed-newline :
    (cmd : Bytes) (found : List Bytes) (l : Bytes)
    → feed cmd found (l ++ b'\r' ∷ []) b'\n' ≡ end_line cmd found l
unfolding feed
feed-newline cmd found l = ap (end_line cmd found) (without_cr-append l)

end_line-info :
    (cmd : Bytes) (found : List Bytes) (l : Bytes)
    → is_info cmd l ≡ true
    → end_line cmd found l ≡ go (found ++ l ∷ []) []
unfolding end_line
end_line-info cmd found l h = ground (arith, is_error_lem l)

scan-sent_lines :
    (cmd : Bytes) (found ls : List Bytes) (rest : Bytes)
    → all (is_info cmd) ls ≡ true
    → scan cmd found [] (sent_lines ls rest) ≡ scan cmd (found ++ ls) [] rest
scan-sent_lines cmd found [] rest h = ap (λ f. scan cmd f [] rest) (sym (append-nil found))
scan-sent_lines cmd found (l ∷ ls) rest h =
    scan-full_line cmd found l (sent_lines ls rest) (ground arith)
    ∙ scan_go cmd found (found ++ l ∷ []) (l ++ b'\r' ∷ []) [] (sent_lines ls rest) b'\n'
        (feed-newline cmd found l ∙ end_line-info cmd found l (ground arith))
    ∙ scan-sent_lines cmd (found ++ l ∷ []) ls rest (ground arith)
    ∙ ap (λ f. scan cmd f [] rest) (append_assoc found (l ∷ []) ls)

scan-final :
    (cmd : Bytes) (found found' : List Bytes) (l rest : Bytes) (ok : Bool)
    → lacks b'\n' l ≡ true
    → end_line cmd found l ≡ stop ok found'
    → scan cmd found [] (l ++ b'\r' ∷ b'\n' ∷ rest) ≡ finished ok found' rest
scan-final cmd found found' l rest ok h e =
    scan-full_line cmd found l rest h
    ∙ scan_stop cmd found found' (l ++ b'\r' ∷ []) rest b'\n' ok (feed-newline cmd found l ∙ e)

-- A final code: `OK`, or an error of one of the three forms, as a line that is not an echo.
abbrev pub is_final : Bytes → Bytes → Bool
is_final cmd l =
    not (is_empty l)
    && not (equals l cmd)
    && (equals l (codes "OK") || is_error_code l)
    && lacks b'\n' l

-- The lines of the result: those of information, and the final one if it is an error.
abbrev pub result_of : List Bytes → Bytes → AtResult
result_of ls l =
    if equals l (codes "OK")
    then record { ok = true; lines = ls }
    else record { ok = false; lines = ls ++ l ∷ [] }

end_line-final :
    (cmd : Bytes) (found : List Bytes) (l : Bytes)
    → is_final cmd l ≡ true
    → end_line cmd found l ≡ stop (result_of found l).ok (result_of found l).lines
unfolding end_line
end_line-final cmd found l h = ground (arith, is_error_lem l)

on_read_none :
    (cmd rx : Bytes) (found : List Bytes) (s : Bytes)
    → s ≢ []
    → on_read cmd false found rx s ≡ scan cmd found [] (rx ++ s)
unfolding on_read
on_read_none cmd rx found [] n = absurd (n refl)
on_read_none cmd rx found (c ∷ s) n = refl

reply_ne : (ls : List Bytes) (l rest : Bytes) → sent_lines ls (l ++ b'\r' ∷ rest) ≢ []
reply_ne [] [] rest e = cc
reply_ne [] (c ∷ l) rest e = cc
reply_ne ([] ∷ ls) l rest e = cc
reply_ne ((c ∷ k) ∷ ls) l rest e = cc

-- A reply of lines of information and a final code - OK, ERROR, or a line that starts with +CME ERROR
-- or +CMS ERROR - that arrives before the deadline, in pieces of any size, on an empty buffer, gives
-- those lines, with the final one behind them if it is an error, and `ok` exactly for `OK`; what the
-- modem sent behind the final code is left to the next command.
pub exchange-reply :
    (cmd : Bytes) (ls : List Bytes) (l rest : Bytes) (ps : List Bytes)
    → all (is_info cmd) ls ≡ true
    → is_final cmd l ≡ true
    → joined ps ≡ sent_lines ls (l ++ b'\r' ∷ b'\n' ∷ rest)
    → exchange cmd [] [] ps ≡ (result_of ls l, rest)
exchange-reply cmd ls l rest ps h f e =
    exchange_lem cmd [] [] ps
    ∙ ap after (
        ap (on_read cmd false [] []) e
        ∙ on_read_none cmd [] [] (sent_lines ls (l ++ b'\r' ∷ b'\n' ∷ rest))
            (reply_ne ls l (b'\n' ∷ rest))
        ∙ scan-sent_lines cmd [] ls (l ++ b'\r' ∷ b'\n' ∷ rest) h
        ∙ scan-final cmd ls (result_of ls l).lines l rest (result_of ls l).ok (ground arith)
            (end_line-final cmd ls l f))

-- ===== src/AtModem.antt =====
-- src/at_modem.cpp: the exchange of a command and its reply over the serial line. What the line
-- gives until the deadline is an argument: the pieces that `read` returns, in order, an empty one
-- where it returns none.
pub mod Pieces
pub mod Answers
pub mod Inbox
pub mod Sending
pub mod Vendors
pub mod LineLoop
pub mod Serial
use zero_touch.Base.{
  Bool, List, [], false, if◌then◌else◌, is_empty, not, true, ℕ, ◌&&◌, ◌++◌, ◌==◌, ◌||◌, ◌∷◌,
}
use zero_touch.Base.Bytes.{Bytes, codes, equals, lacks, starts_with}
use zero_touch.Config.Lines.{line}

-- `AtResult`
pub record AtResult : Type 0 where
  pub ok : Bool
  pub lines : List Bytes

-- `line_with`
unfoldable pub first_with : Bytes → List Bytes → Bytes
unfolding starts_with
first_with prefix [] = []
first_with prefix (l ∷ ls) =
    let rest = first_with prefix ls in if starts_with prefix l then l else rest

-- `is_error`
unfoldable pub is_error : Bytes → Bool
unfolding equals starts_with
is_error l =
    equals l (codes "ERROR")
    || starts_with (codes "+CME ERROR") l
    || starts_with (codes "+CMS ERROR") l

-- `if (!line.empty() && line.back() == '\r') line.pop_back();`
unfoldable pub without_cr : Bytes → Bytes
without_cr [] = []
without_cr (c ∷ []) = if c == b'\r' then [] else c ∷ []
without_cr (c ∷ d ∷ s) = c ∷ without_cr (d ∷ s)

-- One byte of the buffer: the loop goes on with the lines and the line being read, or returns.
pub data Fed : Type 0 where
  go : List Bytes → Bytes → Fed
  stop : Bool → List Bytes → Fed

-- A whole line.
unfoldable pub end_line : Bytes → List Bytes → Bytes → Fed
unfolding is_error equals
end_line cmd found line =
    if is_empty line || equals line cmd
    then go found []
    else if equals line (codes "OK")
    then stop true found
    else if is_error line
    then stop false (found ++ line ∷ [])
    else go (found ++ line ∷ []) []

unfoldable pub feed : Bytes → List Bytes → Bytes → ℕ → Fed
unfolding end_line without_cr
feed cmd found cur c =
    if c == b'\n' then end_line cmd found (without_cr cur) else go found (cur ++ c ∷ [])

-- Where the buffer leaves the exchange: returned, with what is left in `m_rx`, or at the end of the
-- buffer, with the start of a line in it.
pub data Scan : Type 0 where
  finished : Bool → List Bytes → Bytes → Scan
  waiting : List Bytes → Bytes → Scan

-- The loop over the lines of `m_rx`, with the line being read in `cur`.
unfoldable pub scan : Bytes → List Bytes → Bytes → Bytes → Scan
unfolding feed
scan cmd found cur [] = waiting found cur
scan cmd found cur (c ∷ s) = elim (feed cmd found cur c) [
  | go found' cur' ↦ scan cmd found' cur' s
  | stop ok found' ↦ finished ok found' s
]

-- What a piece does to the buffer `rx`.
unfoldable pub on_read : Bytes → Bool → List Bytes → Bytes → Bytes → Scan
unfolding scan lacks
on_read cmd want_prompt found rx piece =
    if is_empty piece
    then waiting found rx
    else if want_prompt && not (lacks b'>' (rx ++ piece))
    then finished true found []
    else scan cmd found [] (rx ++ piece)

-- The loop of `run_at`: the result, the buffer, and the pieces that are still on the line.
unfoldable pub read_loop :
    Bytes → Bool → List Bytes → Bytes → List Bytes → AtResult × Bytes × List Bytes
unfolding on_read
read_loop cmd want_prompt found rx [] = (record { ok = false; lines = found }, rx, [])
read_loop cmd want_prompt found rx (piece ∷ pieces) =
    elim (on_read cmd want_prompt found rx piece) [
      | finished ok found' rest ↦ (record { ok = ok; lines = found' }, rest, pieces)
      | waiting found' rx' ↦ read_loop cmd want_prompt found' rx' pieces
    ]

abbrev pub no_reply : AtResult
no_reply = record { ok = false; lines = [] }

-- `run_at`, where `opened` is `m_fd >= 0` and `written` what `write_all` would return.
unfoldable pub run_at :
    Bool → Bool → Bytes → Bool → Bytes → List Bytes → AtResult × Bytes × List Bytes
unfolding read_loop
run_at opened written cmd want_prompt rx pieces =
    if not opened
    then (no_reply, rx, pieces)
    else if not (is_empty cmd) && not written
    then (no_reply, rx, pieces)
    else read_loop cmd want_prompt [] rx pieces

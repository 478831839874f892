-- ===== src/Base/Text.antt =====
-- The text routines that several sources repeat: `trim`, `std::getline`, comma lists.
use mathlib.Core.Option
use Prim.Native.Nat.{suc, ℕ, ◌+◌, ◌-◌}
use mathlib.Core.Bool.{Bool, not, true, ◌&&◌, ◌||◌}
use mathlib.Core.List.{List, [], ◌++◌, ◌∷◌}
use mathlib.Core.Option.{Option, none, some}
use mathlib.Core.Path.{refl, ◌≡◌}
use native.Mathlib.Omega.{arith}
use zero_touch.Base.Bytes.{Bytes, find, lacks, substr}
use zero_touch.Base.Lists.{drop, is_empty, take}
use zero_touch.Base.Logic.{if◌then◌else◌, ◌==◌}

-- The set " \t\r\n" of `trim`.
unfoldable pub is_blank : ℕ → Bool
is_blank c = c == b' ' || c == b'\t' || c == b'\r' || c == b'\n'

-- `s.find_first_not_of(" \t\r\n")`
unfoldable pub find_first_not_blank : Bytes → Option ℕ
unfolding is_blank
find_first_not_blank [] = none
find_first_not_blank (c ∷ s) =
    let rest = find_first_not_blank s in if is_blank c then Option.map suc rest else some 0

-- `s.find_last_not_of(" \t\r\n")`
unfoldable pub find_last_not_blank : Bytes → Option ℕ
unfolding is_blank
find_last_not_blank [] = none
find_last_not_blank (c ∷ s) = elim (find_last_not_blank s) [
  | some i ↦ some (suc i)
  | none ↦ if is_blank c then none else some 0
]

-- With `e == npos` the length `e - b + 1` wraps round to a huge one.
trim_to : Bytes → ℕ → Option ℕ → Bytes
trim_to s b none = drop b s
trim_to s b (some e) = substr s b (e - b + 1)

trim_from : Bytes → Option ℕ → Bytes
unfolding trim_to
trim_from s none = []
trim_from s (some b) = trim_to s b (find_last_not_blank s)

unfoldable pub trim : Bytes → Bytes
unfolding trim_from find_first_not_blank find_last_not_blank
trim s = trim_from s (find_first_not_blank s)

on_first_line : ℕ → List Bytes → List Bytes
on_first_line c [] = (c ∷ []) ∷ []
on_first_line c (l ∷ ls) = (c ∷ l) ∷ ls

-- The lines that `while (std::getline(ss, line))` sees: a last line with no newline counts, an
-- empty one behind the last newline does not.
unfoldable pub lines : Bytes → List Bytes
unfolding on_first_line
lines [] = []
lines (c ∷ s) = let rest = lines s in if c == b'\n' then [] ∷ rest else on_first_line c rest

-- `split_csv`: the pieces between commas, without spaces and tabs, the empty ones left out. `cur`
-- is the piece being read.
unfoldable pub split_csv_from : Bytes → Bytes → List Bytes
split_csv_from cur [] = if is_empty cur then [] else cur ∷ []
split_csv_from cur (c ∷ s) =
    let next = split_csv_from [] s in
    let longer = split_csv_from (cur ++ c ∷ []) s in
    let same = split_csv_from cur s in
    if c == b','
    then (if is_empty cur then next else cur ∷ next)
    else if not (c == b' ') && not (c == b'\t')
    then longer
    else same

unfoldable pub split_csv : Bytes → List Bytes
unfolding split_csv_from
split_csv = split_csv_from []

-- `line.erase(line.find('#'))`, where there is one
unfoldable pub strip_comment : Bytes → Bytes
strip_comment line = elim (find b'#' line) [ none ↦ line | some h ↦ take h line ]

pub lines-cons : (l s : Bytes) → lacks b'\n' l ≡ true → lines (l ++ b'\n' ∷ s) ≡ l ∷ lines s
unfolding lines lacks
lines-cons [] s h = refl
lines-cons (c ∷ l) s h = ground (arith, lines-cons l s)

-- ===== src/Tests/Loops.antt =====
-- The loops of grpc-tunnel/src/echo_service.cc and src/at_modem.cpp, and the seed of
-- sim/zt_gnmi_simd.cpp, at concrete inputs.
use zero_touch.SimTree.{set}
use zero_touch.AtModem.{Scan, end_line, is_error, scan, without_cr}
use zero_touch.AtModem.LineLoop.{line_loop, line_loop-scan}
use zero_touch.Base.{[], arith, false, none, refl, some, true, ℕ, ◌++◌, ◌-◌, ◌^◌, ◌∷◌, ◌≡◌}
use zero_touch.Base.Bytes.{Bytes, codes, equals, starts_with}
use zero_touch.Base.Keys.{nat_ord, text_ord}
use zero_touch.Base.Map.{insert, lookup}
use zero_touch.Base.Num.{int_to_string, pos}
use zero_touch.Echo.{StreamStatus, Turn, say_stream}
use zero_touch.Echo.Stream.{Ends, numbered, say_stream-Ends, say_stream-endless}
use zero_touch.SimTree.Seed.{
  scalar_to_string, Doubles, SeedFile, bool_value, double_value, load_seed, members, scalar, table,
}
use zero_touch.SimTree.Seed.Loading.{given_by, load_seed-given}

abbrev good_turn : ℕ → Turn
good_turn i = record { is_cancelled = false; writes = true }

say_stream-Ends_example : Ends (say_stream 10 (codes "h") (codes "hi") good_turn 2)
say_stream-Ends_example =
    say_stream-Ends 10 (codes "h") (codes "hi") good_turn 2 (omega arith) (omega arith)

say_stream-endless_example : say_stream 5 (codes "h") (codes "hi") good_turn (2 ^ 32 - 1) ≡ none
say_stream-endless_example =
    say_stream-endless 5 (codes "h") (codes "hi") good_turn (λ k. (refl, refl))

three_by_default :
    say_stream 10 (codes "h") (codes "hi") good_turn 0
    ≡ some (numbered (codes "h") (codes "hi") 1 3, StreamStatus.finished)
unfolding say_stream
three_by_default = refl

abbrev two_lines : Bytes
two_lines = codes "+CSQ: 17" ++ (b'\r' ∷ b'\n' ∷ codes "OK" ++ (b'\r' ∷ b'\n' ∷ codes "x"))

line_loop-scan_example :
    line_loop 20 (codes "AT+CSQ") [] two_lines ≡ some (scan (codes "AT+CSQ") [] [] two_lines)
line_loop-scan_example = line_loop-scan 20 (codes "AT+CSQ") [] two_lines (omega arith)

rest_left :
    line_loop 3 (codes "AT+CSQ") [] two_lines
    ≡ some (Scan.finished true (codes "+CSQ: 17" ∷ []) (codes "x"))
unfolding line_loop end_line without_cr equals is_error starts_with
rest_left = refl

abbrev whole_numbers : Doubles ℕ
whole_numbers = record { integral = λ n. some (pos n); print = λ n. [] }

abbrev some_seed : SeedFile ℕ
some_seed = members (
    (codes "/a", scalar (double_value 1500))
    ∷ (codes "b", scalar (bool_value true))
    ∷ (codes "/c", table)
    ∷ [])

load_seed-given_example :
    (
      (load_seed whole_numbers some_seed []).0,
      lookup (codes "/a") (load_seed whole_numbers some_seed []).1,
    )
    ≡ given_by whole_numbers some_seed (codes "/a")
load_seed-given_example = load_seed-given whole_numbers some_seed (codes "/a")

seed_loaded : load_seed whole_numbers some_seed [] ≡ (true, (codes "/a", codes "1500") ∷ [])
unfolding load_seed int_to_string scalar_to_string set insert
seed_loaded = refl

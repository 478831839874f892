-- ===== src/Tunnel/Args.antt =====
-- `Arg` of grpc-tunnel/src/tunnel_server.cc, over the arguments behind the program's name. The
-- client has the same function.
use zero_touch.Base.{List, [], drop, if◌then◌else◌, length, ◌++◌, ◌∷◌}
use zero_touch.Base.Bytes.{Bytes, codes, equals, starts_with}

unfoldable pub arg : List Bytes → Bytes → Bytes → Bytes
unfolding equals starts_with
arg [] flag fallback = fallback
arg (a ∷ []) flag fallback =
    if starts_with (flag ++ codes "=") a then drop (length (flag ++ codes "=")) a else fallback
arg (a ∷ b ∷ args) flag fallback =
    let rest = arg (b ∷ args) flag fallback in
    if equals a flag
    then b
    else if starts_with (flag ++ codes "=") a
    then drop (length (flag ++ codes "=")) a
    else rest

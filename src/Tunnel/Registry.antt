-- ===== src/Tunnel/Registry.antt =====
-- `Registry` of grpc-tunnel/src/tunnel_server.cc: which session serves which target. A session is
-- named by a number, since the table compares pointers.
pub mod Entries
pub mod Binding
use zero_touch.Base.{Bool, List, Option, false, if◌then◌else◌, none, some, ℕ, ◌==◌}
use zero_touch.Base.Bytes.{Bytes}
use zero_touch.Base.Keys.{nat_ord, text_ord}
use zero_touch.Base.Map.{erase, insert, lookup}

abbrev pub Registry : Type 0
Registry = List (Bytes × ℕ)

-- `Add`
unfoldable pub add : Bytes → ℕ → Registry → Registry
add target sess r = insert target sess r

abbrev pub is_ours : ℕ → Option ℕ → Bool
is_ours sess none = false
is_ours sess (some s) = s == sess

-- `Remove`
unfoldable pub remove : Bytes → ℕ → Registry → Registry
remove target sess r = if is_ours sess (lookup target r) then erase target r else r

-- `Get`
unfoldable pub get : Bytes → Registry → Option ℕ
get target r = lookup target r

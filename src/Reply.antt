-- ===== src/Reply.antt =====
-- src/gnmi_reply.cpp, with the results of inc/zerotouch/gnmi_sink.hpp: one reply SMS for the
-- outcome of a gNMI call.
pub mod Bounds
use Prim.Native.Char.{code}
use Prim.Native.Nat.{max}
use zero_touch.Base.{
  Bool, List, [], false, if◌then◌else◌, is_empty, leb, length, not, take, true, ℕ, ◌++◌, ◌-◌, ◌==◌,
  ◌∷◌,
}
use zero_touch.Base.Bytes.{Bytes, codes}
use zero_touch.Base.Num.{int_to_string, negsuc, pos, to_string, ℤ}

-- `GnmiPathResult`
pub record GnmiPathResult : Type 0 where
  pub xpath : Bytes
  pub value : Bytes
  pub error : Bytes

-- `GnmiResult`
pub record GnmiResult : Type 0 where
  pub ok : Bool
  pub grpc_status : ℤ
  pub grpc_message : Bytes
  pub paths : List GnmiPathResult

-- `GnmiResult out;` with its default members
abbrev pub no_result : GnmiResult
no_result = record { ok = false; grpc_status = negsuc 0; grpc_message = []; paths = [] }

-- `kMaxReply`
abbrev pub max_reply : ℕ
max_reply = 160

-- `clamp_sms`, at any limit
unfoldable pub clamp_to : Bytes → ℕ → Bytes
clamp_to s max =
    if leb (length s) max
    then s
    else if leb max 3
    then take max s
    else take (max - 3) s ++ codes "..."

unfoldable pub clamp_sms : Bytes → Bytes
unfolding clamp_to
clamp_sms s = clamp_to s max_reply

-- The `switch` of `grpc_status_text`, and what follows it.
unfoldable pub status_text : ℕ → Bytes
status_text code =
    if code == 1
    then codes "cancelled"
    else if code == 2
    then codes "unknown"
    else if code == 3
    then codes "invalid argument"
    else if code == 4
    then codes "deadline exceeded"
    else if code == 5
    then codes "not found"
    else if code == 6
    then codes "already exists"
    else if code == 7
    then codes "permission denied"
    else if code == 8
    then codes "resource exhausted"
    else if code == 9
    then codes "failed precondition"
    else if code == 10
    then codes "aborted"
    else if code == 11
    then codes "out of range"
    else if code == 12
    then codes "unimplemented"
    else if code == 13
    then codes "internal"
    else if code == 14
    then codes "unavailable"
    else if code == 15
    then codes "data loss"
    else if code == 16
    then codes "unauthenticated"
    else if code == 0
    then codes "failed"
    else codes "status " ++ to_string code

unfoldable pub grpc_status_text : ℤ → Bytes
unfolding status_text
grpc_status_text (negsuc n) =
    if n == 0 then codes "transport error" else codes "status " ++ int_to_string (negsuc n)
grpc_status_text (pos code) = status_text code

unfoldable pub failure_text : GnmiResult → Bytes
unfolding grpc_status_text
failure_text r = if is_empty r.grpc_message then grpc_status_text r.grpc_status else r.grpc_message

-- What one row adds to the body.
unfoldable pub row_text : GnmiPathResult → Bytes
row_text p =
    p.xpath
    ++ codes "="
    ++ (if is_empty p.error then p.value else codes "<" ++ p.error ++ codes ">")

-- The loop of `format_get`, from the flag `first` and the body so far.
unfoldable pub format_rows : Bool → Bytes → List GnmiPathResult → Bytes
unfolding row_text
format_rows first body [] = body
format_rows first body (p ∷ ps) =
    format_rows false ((if first then body else body ++ codes "; ") ++ row_text p) ps

unfoldable pub format_get : GnmiResult → Bytes
unfolding clamp_sms failure_text format_rows
format_get r =
    if not r.ok
    then clamp_sms (codes "ERR GNMI GET " ++ failure_text r)
    else clamp_sms (format_rows true (codes "OK GNMI GET ") r.paths)

unfoldable pub format_set : GnmiResult → ℕ → Bytes
unfolding clamp_sms failure_text
format_set r n =
    if not r.ok
    then clamp_sms (codes "ERR GNMI SET " ++ failure_text r)
    else clamp_sms (codes "OK GNMI SET " ++ to_string n ++ codes " path(s) updated")

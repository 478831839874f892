-- ===== src/Echo.antt =====
-- The demo service of grpc-tunnel/src: echo_service.cc, echo_call.cc and echo_client.cc. gRPC is a
-- parameter: what its calls return.
pub mod Stream
use zero_touch.Base.{
  Bool, List, Option, [], false, if◌then◌else◌, leb, none, not, some, suc, zero, ℕ, ◌%◌, ◌++◌, ◌+◌,
  ◌==◌, ◌^◌, ◌||◌, ◌∷◌,
}
use zero_touch.Base.Bytes.{Bytes, codes, equals}
use zero_touch.Base.Num.{ℤ}
use zero_touch.Tunnel.Args.{arg}
use zero_touch.Tunnel.Net.{atoi}

-- `echo::SayReply`
pub record SayReply : Type 0 where
  pub message : Bytes
  pub served_by : Bytes
  pub seq : ℕ

-- `Say` of echo_service.cc
unfoldable pub say : Bytes → Bytes → SayReply
say host message = record { message = codes "echo: " ++ message; served_by = host; seq = 1 }

-- How a streaming call ends.
pub data StreamStatus : Type 0 where
  finished cancelled : StreamStatus

-- What a turn of the loop of `SayStream` meets: whether the call was cancelled, and whether the write
-- succeeds.
pub record Turn : Type 0 where
  pub is_cancelled : Bool
  pub writes : Bool

abbrev pub reply_of : Bytes → Bytes → ℕ → SayReply
reply_of host message i = record { message = codes "echo: " ++ message; served_by = host; seq = i }

abbrev pub before_rest :
    SayReply → Option (List SayReply × StreamStatus) → Option (List SayReply × StreamStatus)
before_rest r none = none
before_rest r (some (rs, status)) = some (r ∷ rs, status)

-- The loop of `SayStream` from `i` on, with 32 bits for `i`: the replies written and the status, or
-- `none` where the loop makes more turns than `fuel`. A turn is looked up by its place.
unfoldable pub say_loop :
    ℕ → Bytes → Bytes → (ℕ → Turn) → ℕ → ℕ → Option (List SayReply × StreamStatus)
say_loop zero host message turns count i = none
say_loop (suc fuel) host message turns count i =
    let rest = say_loop fuel host message turns count ((i + 1) % 2 ^ 32) in
    if not (leb i count)
    then some ([], finished)
    else if (turns i).is_cancelled
    then some ([], cancelled)
    else if not (turns i).writes
    then some ([], finished)
    else before_rest (reply_of host message i) rest

-- `SayStream` of echo_service.cc
unfoldable pub say_stream :
    ℕ → Bytes → Bytes → (ℕ → Turn) → ℕ → Option (List SayReply × StreamStatus)
unfolding say_loop
say_stream fuel host message turns count =
    say_loop fuel host message turns (if count == 0 then 3 else count) 1

-- The answer of a call: its error message, or its reply.
pub data Answer (A : Type 0) : Type 0 where
  failed : Bytes → Answer A
  answered : A → Answer A

-- `EchoCaller::Say`
unfoldable pub caller_say : Answer SayReply → Answer Bytes
caller_say (failed error) = failed error
caller_say (answered res) =
    answered (res.message ++ (codes "  (served by " ++ (res.served_by ++ codes ")")))

-- `EchoCaller::SayStream`: the replies that are logged, and the outcome.
unfoldable pub caller_stream : List SayReply → Option Bytes → List SayReply × Answer Unit
caller_stream replies none = (replies, answered tt)
caller_stream replies (some error) = (replies, failed error)

-- `HasFlag` of echo_client.cc
unfoldable pub has_flag : List Bytes → Bytes → Bool
unfolding equals
has_flag [] flag = false
has_flag (a ∷ args) flag = equals a flag || has_flag args flag

abbrev pub code_of : {A : Type 0} → Answer A → ℕ
code_of (failed error) = 1
code_of (answered a) = 0

-- `main` of echo_client.cc: the code that it leaves with, over the calls that it makes.
unfoldable pub echo_client :
    (Bytes → Bytes → Answer Bytes) → (Bytes → Bytes → Option ℤ → Answer Unit) → List Bytes → ℕ
unfolding arg atoi has_flag
echo_client say_at stream_at args =
    let addr = arg args (codes "--addr") (codes "127.0.0.1:50052") in
    let message = arg args (codes "--message") (codes "hello") in
    let count = atoi (arg args (codes "--count") (codes "3")) in
    let first = code_of (say_at addr message) in
    let second = code_of (stream_at addr message count) in
    if not (first == 0) then 1 else if has_flag args (codes "--stream") then second else 0

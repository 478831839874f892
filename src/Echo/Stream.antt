-- ===== src/Echo/Stream.antt =====
-- How many replies `SayStream` of grpc-tunnel/src/echo_service.cc writes, and whether it ends.
use zero_touch.Base.{
  Bool, List, Option, [], ap, arith, false, if◌then◌else◌, leb, none, not, refl, some, suc, true,
  zero, ℕ, ◌%◌, ◌+◌, ◌-◌, ◌<◌, ◌==◌, ◌^◌, ◌∙◌, ◌∷◌, ◌≡◌, ◌≤◌,
}
use zero_touch.Base.Bytes.{Bytes}
use zero_touch.Echo.{
  SayReply, StreamStatus, Turn, before_rest, cancelled, finished, reply_of, say_loop, say_stream,
}
use zero_touch.Sms.{enough}

-- The replies numbered from `i` on.
abbrev pub numbered : Bytes → Bytes → ℕ → ℕ → List SayReply
numbered host message i zero = []
numbered host message i (suc n) = reply_of host message i ∷ numbered host message (i + 1) n

-- A turn in which the call is not cancelled and the write succeeds.
abbrev pub IsGood : Turn → Type 0
IsGood t = (t.is_cancelled ≡ false) × (t.writes ≡ true)

say_turn :
    (fuel : ℕ) (host message : Bytes) (turns : ℕ → Turn) (count i : ℕ)
    → i ≤ count
    → IsGood (turns i)
    → say_loop (suc fuel) host message turns count i
      ≡ before_rest
          (reply_of host message i)
          (say_loop fuel host message turns count ((i + 1) % 2 ^ 32))
unfolding say_loop
say_turn fuel host message turns count i h good =
    let within : leb i count ≡ true = ground arith in rw (within, good.0, good.1) refl

say_end :
    (fuel : ℕ) (host message : Bytes) (turns : ℕ → Turn) (count i : ℕ)
    → count < i
    → say_loop (suc fuel) host message turns count i ≡ some ([], finished)
unfolding say_loop
say_end fuel host message turns count i h =
    let beyond : leb i count ≡ false = ground arith in rw beyond refl

say_loop-all :
    (n fuel : ℕ) (host message : Bytes) (turns : ℕ → Turn) (count i : ℕ)
    → ((k : ℕ) → IsGood (turns k))
    → count < 2 ^ 32 - 1
    → n + i ≡ count + 1
    → n < fuel
    → say_loop fuel host message turns count i ≡ some (numbered host message i n, finished)
say_loop-all n zero host message turns count i good small span enough =
    absurd (omega (arith, enough))
say_loop-all zero (suc fuel) host message turns count i good small span enough =
    say_end fuel host message turns count i (omega (arith, span))
say_loop-all (suc n) (suc fuel) host message turns count i good small span enough =
    let next : (i + 1) % 2 ^ 32 ≡ i + 1 = omega (arith, span, small) in
    say_turn fuel host message turns count i (omega (arith, span)) (good i)
    ∙ rw next (
        ap (before_rest (reply_of host message i)) (
          say_loop-all n fuel host message turns count (i + 1) good small (omega (arith, span))
            (omega (arith, enough))))

-- For a count below the largest one of 32 bits, with enough fuel, `SayStream`
-- writes, where the call is not cancelled and the writes succeed, exactly as many replies as were asked for - three
-- where none were - numbered from 1 on.
pub say_stream-all :
    (fuel : ℕ) (host message : Bytes) (turns : ℕ → Turn) (count : ℕ)
    → ((k : ℕ) → IsGood (turns k))
    → count < 2 ^ 32 - 1
    → count + 3 < fuel
    → say_stream fuel host message turns count
      ≡ some (numbered host message 1 (if count == 0 then 3 else count), finished)
unfolding say_stream
say_stream-all fuel host message turns count good small enough =
    let n = if count == 0 then 3 else count in
    say_loop-all n fuel host message turns n 1 good (ground arith) refl (ground arith)

-- The loop has a result.
abbrev pub Ends : Option (List SayReply × StreamStatus) → Type 0
Ends o = (r : List SayReply × StreamStatus) × (o ≡ some r)

before_rest-Ends :
    (r : SayReply) (o : Option (List SayReply × StreamStatus)) → Ends o → Ends (before_rest r o)
before_rest-Ends r none (s, e) = absurd (cc)
before_rest-Ends r (some (rs, status)) h = ((r ∷ rs, status), refl)

turn-Ends :
    (past gone broken : Bool) (o : Option (List SayReply × StreamStatus))
    → (past ≡ false → Ends o)
    → Ends (
        if past
        then some ([], finished)
        else if gone
        then some ([], cancelled)
        else if broken
        then some ([], finished)
        else o)
turn-Ends true gone broken o h = (([], finished), refl)
turn-Ends false true broken o h = (([], cancelled), refl)
turn-Ends false false true o h = (([], finished), refl)
turn-Ends false false false o h = h refl

say_loop-Ends :
    (n fuel : ℕ) (host message : Bytes) (turns : ℕ → Turn) (count i : ℕ)
    → count < 2 ^ 32 - 1
    → n + i ≡ count + 1
    → n < fuel
    → Ends (say_loop fuel host message turns count i)
unfolding say_loop
say_loop-Ends n zero host message turns count i small span enough = absurd (omega (arith, enough))
say_loop-Ends zero (suc fuel) host message turns count i small span enough =
    (([], finished), say_end fuel host message turns count i (omega (arith, span)))
say_loop-Ends (suc n) (suc fuel) host message turns count i small span enough =
    let next : (i + 1) % 2 ^ 32 ≡ i + 1 = omega (arith, span, small) in
    turn-Ends (not (leb i count)) (turns i).is_cancelled (not (turns i).writes) _ (λ within.
      before_rest-Ends (reply_of host message i) _ (
        rw next (
          say_loop-Ends n fuel host message turns count (i + 1) small (omega (arith, span))
            (omega (arith, enough)))))

-- `SayStream` ends for every count below the largest one of 32 bits, whatever its turns meet: with
-- more fuel than the count and three it has a result.
pub say_stream-Ends :
    (fuel : ℕ) (host message : Bytes) (turns : ℕ → Turn) (count : ℕ)
    → count < 2 ^ 32 - 1
    → count + 3 < fuel
    → Ends (say_stream fuel host message turns count)
unfolding say_stream
say_stream-Ends fuel host message turns count small enough =
    let n = if count == 0 then 3 else count in
    say_loop-Ends n fuel host message turns n 1 (ground arith) refl (ground arith)

endless :
    (fuel : ℕ) (host message : Bytes) (turns : ℕ → Turn) (i : ℕ)
    → ((k : ℕ) → IsGood (turns k))
    → i < 2 ^ 32
    → say_loop fuel host message turns (2 ^ 32 - 1) i ≡ none
unfolding say_loop
endless zero host message turns i good h = refl
endless (suc fuel) host message turns i good h =
    say_turn fuel host message turns (2 ^ 32 - 1) i (omega (arith, h)) (good i)
    ∙ ap (before_rest (reply_of host message i))
        (endless fuel host message turns ((i + 1) % 2 ^ 32) good (omega arith))

-- For the largest count of 32 bits `SayStream` does not end while the call is not cancelled and the
-- writes succeed: no fuel is enough, because its counter wraps before it can pass the count.
pub say_stream-endless :
    (fuel : ℕ) (host message : Bytes) (turns : ℕ → Turn)
    → ((k : ℕ) → IsGood (turns k))
    → say_stream fuel host message turns (2 ^ 32 - 1) ≡ none
unfolding say_stream
say_stream-endless fuel host message turns good =
    endless fuel host message turns 1 good (omega arith)

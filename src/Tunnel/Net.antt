-- ===== src/Tunnel/Net.antt =====
-- grpc-tunnel/src/net.cc: splitting an address, and writing a whole buffer to a socket.
pub mod Writing
pub mod Sockets
use zero_touch.Base.{
  Bool, List, Option, [], drop, false, if◌then◌else◌, leb, length, ltb, none, some, suc, take, true,
  zero, ℕ, ◌++◌, ◌+◌, ◌==◌, ◌^◌, ◌||◌, ◌∷◌,
}
use zero_touch.Base.Bytes.{Bytes, rfind}
use zero_touch.Base.Num.{is_digit, neg, negsuc, pos, read_digits, skip_white, ℤ}

-- `std::atoi`: white space, a sign, digits. What stands for it out of range is undefined, and is
-- `none` here.
unfoldable pub atoi_digits : Bytes → ℤ
atoi_digits [] = pos 0
atoi_digits (c ∷ s) = if is_digit c then pos (read_digits 0 (c ∷ s)) else pos 0

abbrev pub negate : ℤ → ℤ
negate (pos n) = neg n
negate (negsuc n) = pos (suc n)

unfoldable pub atoi_from : Bytes → ℤ
unfolding atoi_digits
atoi_from [] = pos 0
atoi_from (c ∷ s) =
    if c == b'-'
    then negate (atoi_digits s)
    else if c == b'+'
    then atoi_digits s
    else atoi_digits (c ∷ s)

abbrev pub fits_int : ℤ → Option ℤ
fits_int (pos n) = if ltb n (2 ^ 31) then some (pos n) else none
fits_int (negsuc n) = if ltb n (2 ^ 31) then some (negsuc n) else none

unfoldable pub atoi : Bytes → Option ℤ
unfolding skip_white atoi_from
atoi s = fits_int (atoi_from (skip_white s))

abbrev pub positive_port : Bytes → Option ℤ → Option (Bytes × ℕ)
positive_port host none = none
positive_port host (some (negsuc n)) = none
positive_port host (some (pos n)) = if ltb 0 n then some (host, n) else none

unfoldable pub split_at : Bytes → Option ℕ → Option (Bytes × ℕ)
unfolding atoi
split_at addr none = none
split_at addr (some i) =
    if i == 0 || leb (length addr) (i + 1)
    then none
    else positive_port (take i addr) (atoi (drop (i + 1) addr))

-- `SplitHostPort`: the host and the port where it returns true.
unfoldable pub split_host_port : Bytes → Option (Bytes × ℕ)
unfolding rfind split_at
split_host_port addr = split_at addr (rfind b':' addr)

-- A result of `send` that is no error: the bytes taken, or `EINTR` or `EAGAIN`.
pub data SendResult : Type 0 where
  sent : ℕ → SendResult
  retry : SendResult

-- The loop of `WriteAll` over what is left of the buffer, with the results of `send` up to its first
-- error, which stands at the end of the list. It returns whether all was written, and the bytes
-- that the socket took.
unfoldable pub write_all : Bytes → List SendResult → Bool × Bytes
write_all [] results = (true, [])
write_all (c ∷ s) [] = (false, [])
write_all (c ∷ s) (retry ∷ results) = write_all (c ∷ s) results
write_all (c ∷ s) (sent zero ∷ results) = (false, [])
write_all (c ∷ s) (sent (suc n) ∷ results) =
    let (ok, out) = write_all (drop n s) results in (ok, c ∷ take n s ++ out)

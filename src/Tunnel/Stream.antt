-- ===== src/Tunnel/Stream.antt =====
-- What a stream carries, in any interleaving of the threads of both ends: the bytes of one socket.
pub mod Shrinking
pub mod Carrying
pub mod Arriving
pub mod Follows
pub mod ToClient
pub mod Quiet
pub mod FromClient
pub mod ToServer
pub mod FromServer
pub mod Downstream
pub mod Upstream
use zero_touch.Base.{
  List, [], ap, append-nil, append_assoc, if◌then◌else◌, refl, sym, ℕ, ◌++◌, ◌==◌, ◌∙◌, ◌∷◌, ◌≡◌,
}
use zero_touch.Base.Bytes.{Bytes}
use zero_touch.Tunnel.{Frame, FrameType, data_bytes}
use zero_touch.Tunnel.Tally.{tally}

-- The bytes that were given to a socket, one piece after another.
abbrev pub bytes_to : ℕ → List (ℕ × Bytes) → Bytes
bytes_to fd [] = []
bytes_to fd ((n, buf) ∷ out) = (if n == fd then buf else []) ++ bytes_to fd out

-- What a frame carries for a stream.
abbrev pub carried : ℕ → FrameType → Frame → Bytes
carried id data_bytes f = if f.stream_id == id then f.payload else []
carried id _ f = []

-- What the DATA frames of a stream carry, one after another.
abbrev pub payloads : ℕ → List Frame → Bytes
payloads id = tally (carried id)

-- `xs` comes first in `ys`.
pub record IsPrefix (xs ys : Bytes) : Type 0 where
  pub behind : Bytes
  pub split : ys ≡ xs ++ behind

pub IsPrefix-append : (xs ys zs : Bytes) → IsPrefix xs ys → IsPrefix xs (ys ++ zs)
IsPrefix-append xs ys zs h = record {
  behind = h.behind ++ zs;
  split = ap (λ l. l ++ zs) h.split ∙ append_assoc xs h.behind zs;
}

pub IsPrefix-trans : (xs ys zs : Bytes) → IsPrefix xs ys → IsPrefix ys zs → IsPrefix xs zs
IsPrefix-trans xs ys zs h k = record {
  behind = h.behind ++ k.behind;
  split = k.split ∙ ap (λ l. l ++ k.behind) h.split ∙ append_assoc xs h.behind k.behind;
}

pub IsPrefix-whole : (xs ys : Bytes) → ys ≡ xs → IsPrefix xs ys
IsPrefix-whole xs ys e = record { behind = []; split = e ∙ sym (append-nil xs) }

pub bytes_to-append :
    (fd : ℕ) (out more : List (ℕ × Bytes))
    → bytes_to fd (out ++ more) ≡ bytes_to fd out ++ bytes_to fd more
bytes_to-append fd [] more = refl
bytes_to-append fd ((n, buf) ∷ out) more =
    ap (λ l. (if n == fd then buf else []) ++ l) (bytes_to-append fd out more)
    ∙ sym (append_assoc (if n == fd then buf else []) (bytes_to fd out) (bytes_to fd more))

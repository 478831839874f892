-- ===== src/Tunnel/Stream/Follows.antt =====
-- What a theorem on the socket of one stream asks of the steps of either end.
use zero_touch.Base.{Bool, List, [], append-nil, refl, subst, ℕ, ◌++◌, ◌≢◌}
use zero_touch.Base.Bytes.{Bytes}
use zero_touch.Tunnel.{Frame, data_bytes}
use zero_touch.Tunnel.Net.{SendResult}
use zero_touch.Tunnel.Server.{on_data}
use zero_touch.Tunnel.Session.{Session, add_conn, get_conn}
use zero_touch.Tunnel.Stream.{carried}
use zero_touch.Tunnel.Stream.Arriving.{on_data-Carries, on_data-Unused}
use zero_touch.Tunnel.Stream.Carrying.{
  Carries, Unused, add-Carries, add-Unused, shrink-Carries, shrink-Unused,
}
use zero_touch.Tunnel.Stream.Shrinking.{Shrinks}

-- A predicate on what arrived for a stream, the session and what was given to sockets, which
-- the steps that add no connection keep, and those that add one with another socket, and which
-- follows a DATA frame.
pub record Follows (id fd : ℕ) (P : Bytes → Session → List (ℕ × Bytes) → Type 0) : Type 0 where
  pub shrinks :
      (a : Bytes) (s s' : Session) (out : List (ℕ × Bytes)) → Shrinks s s' → P a s out → P a s' out
  pub adds :
      (a : Bytes) (j fd' : ℕ) (s : Session) (out : List (ℕ × Bytes))
      → fd' ≢ fd
      → P a s out
      → P a (add_conn j fd' s).1 out
  pub takes :
      (a : Bytes) (f : Frame) (ok : Bool) (results : List SendResult) (s : Session)
      (out : List (ℕ × Bytes))
      → P a s out
      → let (s', more) = on_data (get_conn f.stream_id s) f ok results s in
        P (a ++ carried id data_bytes f) s' (out ++ more)

-- A socket that no connection has, whatever arrives.
abbrev pub Untouched : ℕ → Bytes → Session → List (ℕ × Bytes) → Type 0
Untouched fd a = Unused fd

pub Untouched-Follows : (id fd : ℕ) → Follows id fd (Untouched fd)
Untouched-Follows id fd = record {
  shrinks = λ a s s' out k u. shrink-Unused fd s s' out out k refl u;
  adds = λ a j fd' s out n u. add-Unused fd j fd' s out n u;
  takes = λ a f ok results s out u. on_data-Unused fd f ok results s out u;
}

pub Carries-Follows : (id ref fd : ℕ) → Follows id fd (Carries id ref fd)
Carries-Follows id ref fd = record {
  shrinks = λ a s s' out k c.
      subst (λ l. Carries id ref fd l s' out) (append-nil a)
        (shrink-Carries id ref fd a [] s s' out out k refl (λ h. refl) c);
  adds = λ a j fd' s out n c. add-Carries id ref fd a j fd' s out n c;
  takes = λ a f ok results s out c. on_data-Carries id ref fd a f ok results s out c;
}

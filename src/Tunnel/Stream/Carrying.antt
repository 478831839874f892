-- ===== src/Tunnel/Stream/Carrying.antt =====
-- The socket of one stream: only the connection of the stream has it, and it was given the bytes that
-- arrived for the stream, or the first of them where the connection has left the table.
use zero_touch.Base.{
  ==_iff, List, [], ap, append-nil, arith, false, if◌then◌else◌, refl, some, sym, ℕ, ◌++◌, ◌<◌,
  ◌==◌, ◌∙◌, ◌≡◌, ◌≢◌,
}
use zero_touch.Base.Bytes.{Bytes}
use zero_touch.Base.Keys.{nat_ord, text_ord}
use zero_touch.Base.Map.{IsOrdered, IsOrdered-insert, insert, lookup, lookup-insert}
use zero_touch.Tunnel.Session.{Session, add_conn, deref, get_conn}
use zero_touch.Tunnel.Stream.{IsPrefix, IsPrefix-append, IsPrefix-whole, bytes_to}
use zero_touch.Tunnel.Stream.Shrinking.{Shrinks}

-- No connection has the socket, and it was given nothing.
pub record Unused (fd : ℕ) (s : Session) (out : List (ℕ × Bytes)) : Type 0 where
  pub ordered : IsOrdered s.conns
  pub below : (j r : ℕ) → lookup j s.conns ≡ some r → r < s.next_ref
  pub nobody : (r : ℕ) → (deref r s).fd ≢ fd
  pub silent : bytes_to fd out ≡ []

pub record Carries (id ref fd : ℕ) (arrived : Bytes) (s : Session) (out : List (ℕ × Bytes))
    : Type 0 where
  pub ordered : IsOrdered s.conns
  pub later : ref < s.next_ref
  pub sole : (j : ℕ) → lookup j s.conns ≡ some ref → j ≡ id
  pub owner : (r : ℕ) → (deref r s).fd ≡ fd → r ≡ ref
  pub held : (deref ref s).fd ≡ fd
  pub first : IsPrefix (bytes_to fd out) arrived
  pub exact : get_conn id s ≡ some ref → bytes_to fd out ≡ arrived

pub shrink-Unused :
    (fd : ℕ) (s s' : Session) (out out' : List (ℕ × Bytes))
    → Shrinks s s'
    → bytes_to fd out' ≡ bytes_to fd out
    → Unused fd s out
    → Unused fd s' out'
shrink-Unused fd s s' out out' k e u = record {
  ordered = k.ordered u.ordered;
  below = λ j r h. rw k.refs (u.below j r (k.fewer u.ordered j r h));
  nobody = λ r h. u.nobody r (sym (k.fds r) ∙ h);
  silent = e ∙ u.silent;
}

-- What arrives for the stream, `more`, is lost where its connection has left the table.
pub shrink-Carries :
    (id ref fd : ℕ) (arrived more : Bytes) (s s' : Session) (out out' : List (ℕ × Bytes))
    → Shrinks s s'
    → bytes_to fd out' ≡ bytes_to fd out
    → (get_conn id s ≡ some ref → more ≡ [])
    → Carries id ref fd arrived s out
    → Carries id ref fd (arrived ++ more) s' out'
unfolding get_conn
shrink-Carries id ref fd arrived more s s' out out' k e lost c = record {
  ordered = k.ordered c.ordered;
  later = rw k.refs c.later;
  sole = λ j h. c.sole j (k.fewer c.ordered j ref h);
  owner = λ r h. c.owner r (sym (k.fds r) ∙ h);
  held = k.fds ref ∙ c.held;
  first = rw e (IsPrefix-append (bytes_to fd out) arrived more c.first);
  exact = λ h.
      let open_before = k.fewer c.ordered id ref h in
      e
      ∙ c.exact open_before
      ∙ sym (append-nil arrived)
      ∙ ap (λ l. arrived ++ l) (sym (lost open_before));
}

added_fd :
    (j fd' r : ℕ) (s : Session)
    → (deref r (add_conn j fd' s).1).fd ≡ (if s.next_ref == r then fd' else (deref r s).fd)
unfolding add_conn deref
added_fd j fd' r s =
    rw (lookup-insert s.next_ref r (record { fd = fd'; closed = false }) s.heap) (ground arith)

-- A connection with another socket is added.
pub add-Unused :
    (fd j fd' : ℕ) (s : Session) (out : List (ℕ × Bytes))
    → fd' ≢ fd
    → Unused fd s out
    → Unused fd (add_conn j fd' s).1 out
unfolding add_conn
add-Unused fd j fd' s out other u = record {
  ordered = IsOrdered-insert j s.next_ref s.conns u.ordered;
  below = λ i r h. ground (arith, lookup-insert j i s.next_ref s.conns, u.below i r);
  nobody = λ r h. ground (arith, added_fd j fd' r s, u.nobody r);
  silent = u.silent;
}

pub add-Carries :
    (id ref fd : ℕ) (arrived : Bytes) (j fd' : ℕ) (s : Session) (out : List (ℕ × Bytes))
    → fd' ≢ fd
    → Carries id ref fd arrived s out
    → Carries id ref fd arrived (add_conn j fd' s).1 out
unfolding add_conn get_conn
add-Carries id ref fd arrived j fd' s out other c = record {
  ordered = IsOrdered-insert j s.next_ref s.conns c.ordered;
  later = omega (arith, c.later);
  sole = λ i h. c.sole i (older i h);
  owner = λ r h. ground (arith, added_fd j fd' r s, c.owner r);
  held = ground (arith, added_fd j fd' ref s, c.later, c.held);
  first = c.first;
  exact = λ h. c.exact (older id h);
}
  where
    older :
        (i : ℕ) → lookup i (insert j s.next_ref s.conns) ≡ some ref → lookup i s.conns ≡ some ref
    older i h = ground (arith, lookup-insert j i s.next_ref s.conns, c.later)

-- The connection of the stream is added.
pub open-Carries :
    (id fd : ℕ) (s : Session) (out : List (ℕ × Bytes))
    → Unused fd s out
    → Carries id s.next_ref fd [] (add_conn id fd s).1 out
unfolding add_conn get_conn
open-Carries id fd s out u = record {
  ordered = IsOrdered-insert id s.next_ref s.conns u.ordered;
  later = omega arith;
  sole = λ j h.
      ground (arith, lookup-insert id j s.next_ref s.conns, u.below j s.next_ref, ==_iff id j);
  owner = λ r h. ground (arith, added_fd id fd r s, u.nobody r, ==_iff s.next_ref r);
  held = ground (arith, added_fd id fd s.next_ref s, ==_iff s.next_ref s.next_ref);
  first = rw u.silent (IsPrefix-whole [] [] refl);
  exact = λ h. u.silent;
}

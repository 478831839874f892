-- ===== src/Tunnel/Net/Sockets/Held.antt =====
-- Which descriptors `DialTcp` and `ListenTcp` of grpc-tunnel/src/net.cc leave open.
use zero_touch.Base.{
  Bool, List, Option, [], arith, false, if◌then◌else◌, none, not, refl, some, true, ℕ, ◌==◌, ◌∷◌,
  ◌≡◌,
}
use zero_touch.Base.Bytes.{Bytes}
use zero_touch.Base.Num.{to_string}
use zero_touch.Tunnel.Net.Sockets.{
  Sockets, bind_to, connect_to, connected, dial_resolved, dial_tcp, listen_on, listen_tcp,
  local_address, set_no_delay, try_all,
}

-- The descriptors that are open, the newest first.
abbrev pub Descriptors : Type 0
Descriptors = List ℕ

abbrev pub drop_fd : ℕ → Descriptors → Descriptors
drop_fd n [] = []
drop_fd n (m ∷ fds) = let rest = drop_fd n fds in if m == n then fds else m ∷ rest

abbrev pub opened : Option ℕ → Descriptors → Descriptors
opened none fds = fds
opened (some n) fds = n ∷ fds

module _ {W : Type 0} where
  abbrev pub opening : Option ℕ × W → Descriptors → Option ℕ × (W × Descriptors)
  opening (fd, w) fds = (fd, (w, opened fd fds))

  abbrev pub asking : Bool × W → Descriptors → Bool × (W × Descriptors)
  asking (ok, w) fds = (ok, (w, fds))

module _ {W Address : Type 0} where
  -- A system that also keeps track of the open descriptors.
  abbrev pub tracked : Sockets W Address → Sockets (W × Descriptors) Address
  tracked s = record {
    resolve = λ w host service. let (found, w') = s.resolve w.0 host service in (found, (w', w.1));
    socket_for = λ w a. opening (s.socket_for w.0 a) w.1;
    connect = λ w n a. asking (s.connect w.0 n a) w.1;
    socket_inet = λ w. opening (s.socket_inet w.0) w.1;
    any_address = s.any_address;
    parse_address = s.parse_address;
    bind = λ w n a. asking (s.bind w.0 n a) w.1;
    listen = λ w n backlog. asking (s.listen w.0 n backlog) w.1;
    reuse_address = λ w n. (s.reuse_address w.0 n, w.1);
    no_delay = λ w n. (s.no_delay w.0 n, w.1);
    close = λ w n. (s.close w.0 n, drop_fd n w.1);
  }

drop_fd_newest : (n : ℕ) (fds : Descriptors) → drop_fd n (n ∷ fds) ≡ fds
drop_fd_newest n fds = ground arith

module _ {W : Type 0} where
  -- What was open is open still, and the descriptor that is returned besides, if there is one.
  abbrev pub Held : Descriptors → Option ℕ × (W × Descriptors) → Type 0
  Held fds (fd, (w, left)) = left ≡ opened fd fds

module _ {W Address : Type 0} (s : Sockets W Address) where
  connect_to-Held :
      (a : Address) (fds : Descriptors) (r : Option ℕ × W)
      → Held fds (connect_to (tracked s) a (opening r fds))
  connect_to-Held a fds (none, w) = refl
  connect_to-Held a fds (some n, w) = answered (s.connect w n a)
    where
      answered : (r : Bool × W) → Held fds (connected (tracked s) n (asking r (n ∷ fds)))
      answered (true, w') = refl
      answered (false, w') = drop_fd_newest n fds

  or_else-Held :
      (rest : List Address) (fds : Descriptors)
      (next : (w : W) → Held fds (try_all (tracked s) rest (w, fds)))
      (r : Option ℕ × (W × Descriptors))
      → Held fds r
      → Held fds (elim r.0 as (λ _. Option ℕ × (W × Descriptors)) [
        | some n ↦ (some n, r.1)
        | none ↦ try_all (tracked s) rest r.1
      ])
  or_else-Held rest fds next (none, (w, left)) e = rw e (next w)
  or_else-Held rest fds next (some n, r) e = e

  try_all-Held :
      (addresses : List Address) (w : W) (fds : Descriptors)
      → Held fds (try_all (tracked s) addresses (w, fds))
  unfolding try_all
  try_all-Held [] w fds = refl
  try_all-Held (a ∷ rest) w fds =
      or_else-Held rest fds (λ w. try_all-Held rest w fds) _
        (connect_to-Held a fds (s.socket_for w a))

  no_delay-Held :
      (fds : Descriptors) (r : Option ℕ × (W × Descriptors))
      → Held fds r
      → Held fds (set_no_delay (tracked s) r)
  no_delay-Held fds (none, w) e = e
  no_delay-Held fds (some n, w) e = e

  -- `DialTcp` leaves open the socket that it returns, if it returns one, and no other socket that it
  -- made, whatever the resolver, `socket` and `connect` answer for each of the addresses.
  pub dial_tcp-Held :
      (host : Bytes) (port : ℕ) (w : W) (fds : Descriptors)
      → Held fds (dial_tcp (tracked s) host port (w, fds))
  unfolding dial_tcp dial_resolved
  dial_tcp-Held host port w fds = resolved (s.resolve w host (to_string port))
    where
      resolved :
          (r : Option (List Address) × W) → Held fds (dial_resolved (tracked s) (r.0, (r.1, fds)))
      resolved (none, w') = refl
      resolved (some found, w') = no_delay-Held fds _ (try_all-Held found w' fds)

  -- `ListenTcp` leaves open the socket that it returns, if it returns one, and no socket where it fails:
  -- at an address that cannot be read, at `bind` or at `listen`.
  pub listen_tcp-Held :
      (host : Bytes) (port : ℕ) (w : W) (fds : Descriptors)
      → Held fds (listen_tcp (tracked s) host port (w, fds))
  unfolding listen_tcp
  listen_tcp-Held host port w fds = made (s.socket_inet w)
    where
      ended :
          (n : ℕ) (bound listening : Bool) (w1 w2 : W)
          → Held fds (
              if not bound
              then (none, (s.close w1 n, drop_fd n (n ∷ fds)))
              else if not listening
              then (none, (s.close w2 n, drop_fd n (n ∷ fds)))
              else (some n, (w2, n ∷ fds)))
      ended n false listening w1 w2 = drop_fd_newest n fds
      ended n true false w1 w2 = drop_fd_newest n fds
      ended n true true w1 w2 = refl

      listened :
          (n : ℕ) (r : Bool × W)
          → Held fds (
              let (listening, w2) = s.listen r.1 n 128 in
              if not r.0
              then (none, (s.close r.1 n, drop_fd n (n ∷ fds)))
              else if not listening
              then (none, (s.close w2 n, drop_fd n (n ∷ fds)))
              else (some n, (w2, n ∷ fds)))
      listened n r = ended n r.0 (s.listen r.1 n 128).0 r.1 (s.listen r.1 n 128).1

      bound : (n : ℕ) (a : Option Address) (w : W) → Held fds (bind_to (tracked s) n a (w, n ∷ fds))
      bound n none w = drop_fd_newest n fds
      bound n (some a) w = listened n (s.bind w n a)

      made : (r : Option ℕ × W) → Held fds (listen_on (tracked s) host port (opening r fds))
      made (none, w') = refl
      made (some n, w') = bound n (local_address (tracked s) host port) (s.reuse_address w' n)

-- ===== src/Tunnel/Forwarder/Opening.antt =====
-- The streams that the forwarder of grpc-tunnel/src/tunnel_server.cc opens.
use zero_touch.Base.{
  ==_iff, List, Option, [], ap, append-nil, append_assoc, false, length, none, refl, some, subst,
  suc, sym, true, zero, ℕ, ◌%◌, ◌++◌, ◌+◌, ◌^◌, ◌∙◌, ◌∷◌, ◌≡◌,
}
use zero_touch.Base.Bytes.{Bytes}
use zero_touch.Base.Keys.{nat_ord, text_ord}
use zero_touch.Base.Map.{insert, lookup, lookup-insert}
use zero_touch.Tunnel.{Frame, no_frame, open_stream}
use zero_touch.Tunnel.Forwarder.{
  AcceptResult, Forwarder, accept_on, accepted, forwarder_loop, session_at, session_or, started,
}
use zero_touch.Tunnel.Registry.{get}
use zero_touch.Tunnel.Server.{finish_forward, forward}
use zero_touch.Tunnel.Session.{Conn, Session, add_conn, next_stream_id, send}

-- The OPEN frames of `n` streams, from an id on.
abbrev pub opens_from : Bytes → ℕ → ℕ → List Frame
opens_from target id zero = []
opens_from target id (suc n) =
    record no_frame { stream_id = id; type = open_stream; target = target }
    ∷ opens_from target ((id + 1) % 2 ^ 64) n

abbrev pub accepts : List ℕ → List AcceptResult
accepts [] = []
accepts (fd ∷ fds) = accepted fd true ∷ accepts fds

-- The pumps of the streams, from an id and a reference on.
abbrev pub pumps_from : ℕ → ℕ → ℕ → ℕ → List (ℕ × ℕ × ℕ)
pumps_from sess id ref zero = []
pumps_from sess id ref (suc n) = (sess, id, ref) ∷ pumps_from sess ((id + 1) % 2 ^ 64) (ref + 1) n

-- The table with the streams in it, and the heap with the sockets as their connections.
abbrev pub tabled : ℕ → ℕ → List ℕ → List (ℕ × ℕ) → List (ℕ × ℕ)
tabled id ref [] conns = conns
tabled id ref (fd ∷ fds) conns = tabled ((id + 1) % 2 ^ 64) (ref + 1) fds (insert id ref conns)

abbrev pub held : ℕ → List ℕ → List (ℕ × Conn) → List (ℕ × Conn)
held ref [] heap = heap
held ref (fd ∷ fds) heap = held (ref + 1) fds (insert ref (record { fd = fd; closed = false }) heap)

-- What the forwarder has done on a session, and where it goes on: the next id and reference, the
-- frames written, the table, the heap, the pumps, and the sockets closed.
pub record Done : Type 0 where
  pub id : ℕ
  pub ref : ℕ
  pub log : List Frame
  pub conns : List (ℕ × ℕ)
  pub heap : List (ℕ × Conn)
  pub pumps : List (ℕ × ℕ × ℕ)
  pub closed : List ℕ

-- The forwarder `f` stands there, and its registry gives the session `sess`, which is alive, for the
-- target.
pub record Serves (target : Bytes) (sess : ℕ) (d : Done) (f : Forwarder) : Type 0 where
  pub bound : get target f.registry ≡ some sess
  pub up : (session_at sess f).alive ≡ true
  pub next_id : (session_at sess f).next_id ≡ d.id
  pub next_ref : (session_at sess f).next_ref ≡ d.ref
  pub written : (session_at sess f).written ≡ d.log
  pub table : (session_at sess f).conns ≡ d.conns
  pub sockets : (session_at sess f).heap ≡ d.heap
  pub reading : f.pumps ≡ d.pumps
  pub given_up : f.closed ≡ d.closed

-- One more socket was accepted.
abbrev pub with_socket : Bytes → ℕ → ℕ → Done → Done
with_socket target sess fd d = record d {
  id = (d.id + 1) % 2 ^ 64;
  ref = d.ref + 1;
  log = d.log ++ opens_from target d.id 1;
  conns = insert d.id d.ref d.conns;
  heap = insert d.ref (record { fd = fd; closed = false }) d.heap;
  pumps = d.pumps ++ (sess, d.id, d.ref) ∷ [];
}

-- What `forward` does to a session that is alive.
abbrev opened : Bytes → ℕ → Session → Session
opened target fd s = record s {
  conns = insert s.next_id s.next_ref s.conns;
  heap = insert s.next_ref (record { fd = fd; closed = false }) s.heap;
  next_ref = s.next_ref + 1;
  next_id = (s.next_id + 1) % 2 ^ 64;
  written = s.written ++ opens_from target s.next_id 1;
}

forward-opened :
    (fd : ℕ) (target : Bytes) (s : Session)
    → s.alive ≡ true
    → forward fd target true s ≡ (some (s.next_id, s.next_ref), opened target fd s)
unfolding forward next_stream_id add_conn send finish_forward
forward-opened fd target s up = rw up refl

session_at-insert :
    (sess : ℕ) (s : Session) (f : Forwarder) (pumps : List (ℕ × ℕ × ℕ))
    → session_at sess (record f { sessions = insert sess s f.sessions; pumps = pumps }) ≡ s
unfolding session_at
session_at-insert sess s f pumps =
    let found : lookup sess (insert sess s f.sessions) ≡ some s =
      lookup-insert sess sess s f.sessions ∙ rw ((==_iff sess sess).1 refl) refl in
    ap session_or found

opened_on :
    (target : Bytes) (sess fd : ℕ) (d : Done) (f : Forwarder)
    → Serves target sess d f
    → Serves target sess (with_socket target sess fd d) (accept_on (some sess) target fd true f)
unfolding accept_on
opened_on target sess fd d f h =
    let s = session_at sess f in
    subst
      (λ r.
        Serves target sess (with_socket target sess fd d)
          (record f { sessions = insert sess r.1 f.sessions; pumps = started sess r.0 f.pumps }))
      (sym (forward-opened fd target s h.up))
      (let e =
          session_at-insert sess (opened target fd s) f
            (started sess (some (s.next_id, s.next_ref)) f.pumps) in
        record {
          bound = h.bound;
          up = rw e h.up;
          next_id = rw (e, h.next_id) refl;
          next_ref = rw (e, h.next_ref) refl;
          written = rw (e, h.next_id, h.written) refl;
          table = rw (e, h.next_id, h.next_ref, h.table) refl;
          sockets = rw (e, h.next_ref, h.sockets) refl;
          reading = rw (h.next_id, h.next_ref, h.reading) refl;
          given_up = h.given_up;
        })

accept_on-Serves :
    (target : Bytes) (sess fd : ℕ) (d : Done) (f : Forwarder)
    → Serves target sess d f
    → Serves target sess
        (with_socket target sess fd d)
        (accept_on (get target f.registry) target fd true f)
accept_on-Serves target sess fd d f h =
    subst (λ o. Serves target sess (with_socket target sess fd d) (accept_on o target fd true f))
      (sym h.bound) (opened_on target sess fd d f h)

-- What the forwarder has done at the end, but for the next id and reference.
pub record Served (target : Bytes) (sess : ℕ) (fds : List ℕ) (d : Done) (f : Forwarder)
    : Type 0 where
  pub written : (session_at sess f).written ≡ d.log ++ opens_from target d.id (length fds)
  pub table : (session_at sess f).conns ≡ tabled d.id d.ref fds d.conns
  pub sockets : (session_at sess f).heap ≡ held d.ref fds d.heap
  pub reading : f.pumps ≡ d.pumps ++ pumps_from sess d.id d.ref (length fds)
  pub given_up : f.closed ≡ d.closed

-- As long as the registry gives a session for the target that is alive and whose writes succeed, the
-- forwarder announces each socket that it accepts to that session by one OPEN frame for the target,
-- in the order in which they were accepted and under ids that count on from the session's next one.
-- The socket is the connection of its id in the table, a pump is started on it, and no socket is
-- closed.
pub forwarder_loop-Serves :
    (target : Bytes) (sess : ℕ) (fds : List ℕ) (d : Done) (f : Forwarder)
    → Serves target sess d f
    → Served target sess fds d (forwarder_loop target (accepts fds) f)
unfolding forwarder_loop
forwarder_loop-Serves target sess [] d f h = record {
  written = h.written ∙ sym (append-nil d.log);
  table = h.table;
  sockets = h.sockets;
  reading = h.reading ∙ sym (append-nil d.pumps);
  given_up = h.given_up;
}
forwarder_loop-Serves target sess (fd ∷ fds) d f h =
    let r =
      forwarder_loop-Serves target sess fds (with_socket target sess fd d) _
        (accept_on-Serves target sess fd d f h) in
    record {
      written =
          r.written
          ∙ append_assoc d.log (opens_from target d.id 1)
              (opens_from target ((d.id + 1) % 2 ^ 64) (length fds));
      table = r.table;
      sockets = r.sockets;
      reading =
          r.reading
          ∙ append_assoc d.pumps ((sess, d.id, d.ref) ∷ [])
              (pumps_from sess ((d.id + 1) % 2 ^ 64) (d.ref + 1) (length fds));
      given_up = r.given_up;
    }

-- As long as no session is registered for the target, every socket that the forwarder accepts is
-- closed, in order, and nothing else changes.
pub forwarder_loop-refused :
    (target : Bytes) (fds : List ℕ) (f : Forwarder)
    → get target f.registry ≡ none
    → forwarder_loop target (accepts fds) f ≡ record f { closed = f.closed ++ fds }
unfolding forwarder_loop
forwarder_loop-refused target [] f h = rw (append-nil f.closed) refl
forwarder_loop-refused target (fd ∷ fds) f h =
    ap (λ (o : Option ℕ). forwarder_loop target (accepts fds) (accept_on o target fd true f)) h
    ∙ (unfold accept_on in
        forwarder_loop-refused target fds (record f { closed = f.closed ++ fd ∷ [] }) h
        ∙ rw (append_assoc f.closed (fd ∷ []) fds) refl)

-- ===== src/Tunnel/Session/Closing.antt =====
-- The barrier of `Shutdown`, and who announces the end of a stream, in grpc-tunnel/src/session.cc.
use zero_touch.Base.{
  Bool, List, Option, [], arith, false, if◌then◌else◌, none, refl, some, true, ℕ, ◌++◌, ◌<◌, ◌==◌,
  ◌∙◌, ◌∷◌, ◌≡◌,
}
use zero_touch.Base.Keys.{nat_ord, text_ord}
use zero_touch.Base.Map.{insert, lookup, lookup-insert}
use zero_touch.Tunnel.{close_stream, no_frame}
use zero_touch.Tunnel.Session.{
  Conn, Session, add_conn, close_all, close_conn, close_found, close_ref, close_refs, conn_or,
  deref, get_conn, next_stream_id, pump_close, pump_erase, pump_mark, send, send_close, shutdown,
}
use zero_touch.Tunnel.Session.Steps.{
  Op, adds, announces, close_refs-rest, closes, closes_all, erases, marks, pump_close-rest, run,
  send-rest, sends, shuts, step, takes_id,
}

-- Tearing down a stream leaves the tunnel up or down, and writes nothing.
pub close_found-dead :
    (id : ℕ) (o : Option ℕ) (s : Session)
    → ((close_found id o s).1.alive ≡ s.alive) × ((close_found id o s).1.written ≡ s.written)
unfolding close_found close_ref
close_found-dead id none s = (refl, refl)
close_found-dead id (some ref) s = (refl, refl)

step-dead :
    (s : Session) (o : Op)
    → s.alive ≡ false
    → ((step s o).alive ≡ false) × ((step s o).written ≡ s.written)
unfolding step close_conn close_all
step-dead s (sends f ok) h = unfold send in ground arith
step-dead s shuts h = unfold shutdown in (refl, refl)
step-dead s takes_id h = unfold next_stream_id in (h, refl)
step-dead s (adds id fd) h = unfold add_conn in (h, refl)
step-dead s (closes id) h = let k = close_found-dead id (get_conn id s) s in (k.0 ∙ h, k.1)
step-dead s closes_all h =
    let k = close_refs-rest s.conns (record s { conns = [] }) in (k.0 ∙ h, k.1)
step-dead s (marks ref) h = unfold pump_mark in (h, refl)
step-dead s (erases id) h = unfold pump_erase in (h, refl)
step-dead s (announces id ours ok) h = unfold pump_close send_close send in ground arith

run-dead : (s : Session) (os : List Op) → s.alive ≡ false → (run s os).written ≡ s.written
unfolding run
run-dead s [] h = refl
run-dead s (o ∷ os) h = let k = step-dead s o h in run-dead (step s o) os k.0 ∙ k.1

-- After `Shutdown` no frame is written, whatever the other threads go on to do.
pub run-shutdown : (s : Session) (os : List Op) → (run (shutdown s) os).written ≡ s.written
run-shutdown s os = run-dead (shutdown s) os (unfold shutdown in refl) ∙ unfold shutdown in refl

-- A connection that exists and is marked closed.
abbrev pub IsClosed : ℕ → Session → Type 0
IsClosed ref s = (ref < s.next_ref) × ((deref ref s).closed ≡ true)

deref-insert :
    (ref r : ℕ) (c : Conn) (s : Session)
    → conn_or (lookup ref (insert r c s.heap)) ≡ (if r == ref then c else deref ref s)
unfolding deref
deref-insert ref r c s = rw (lookup-insert r ref c s.heap) (ground arith)

mark-IsClosed :
    (ref r : ℕ) (c : Conn) (s : Session)
    → c.closed ≡ true
    → (deref ref s).closed ≡ true
    → (conn_or (lookup ref (insert r c s.heap))).closed ≡ true
mark-IsClosed ref r c s k h = rw (deref-insert ref r c s) (ground arith)

pub close_refs-IsClosed :
    (ref : ℕ) (taken : List (ℕ × ℕ)) (s : Session)
    → (deref ref s).closed ≡ true
    → (deref ref (close_refs taken s)).closed ≡ true
unfolding close_refs
close_refs-IsClosed ref [] s h = h
close_refs-IsClosed ref ((id, r) ∷ taken) s h = close_refs-IsClosed ref taken (close_ref r s) (
    unfold close_ref in
    (let k = mark-IsClosed ref r (record (deref r s) { closed = true }) s refl h in
      unfold deref in k))

-- The same heap holds the same connections.
same_heap-IsClosed :
    (ref : ℕ) (s s' : Session)
    → s'.heap ≡ s.heap
    → s'.next_ref ≡ s.next_ref
    → IsClosed ref s
    → IsClosed ref s'
unfolding deref
same_heap-IsClosed ref s s' e k h = (omega arith, rw e h.1)

close_found-IsClosed :
    (ref id : ℕ) (o : Option ℕ) (s : Session) → IsClosed ref s → IsClosed ref (close_found id o s).1
unfolding close_found close_ref deref
close_found-IsClosed ref id none s h = h
close_found-IsClosed ref id (some r) s h =
    (h.0, mark-IsClosed ref r (record (deref r s) { closed = true }) s refl h.1)

pub step-IsClosed : (ref : ℕ) (s : Session) (o : Op) → IsClosed ref s → IsClosed ref (step s o)
unfolding step
step-IsClosed ref s (sends f ok) h =
    let k = send-rest f ok s in same_heap-IsClosed ref s _ k.0 k.1 h
step-IsClosed ref s shuts h = unfold shutdown in same_heap-IsClosed ref s _ refl refl h
step-IsClosed ref s takes_id h = unfold next_stream_id in same_heap-IsClosed ref s _ refl refl h
step-IsClosed ref s (adds id fd) h =
    unfold add_conn deref in
    (
      omega arith,
      rw (deref-insert ref s.next_ref (record { fd = fd; closed = false }) s) (ground arith),
    )
step-IsClosed ref s (closes id) h =
    unfold close_conn in close_found-IsClosed ref id (get_conn id s) s h
step-IsClosed ref s closes_all h =
    unfold close_all in
    (
      rw (close_refs-rest s.conns (record s { conns = [] })).3 h.0,
      close_refs-IsClosed ref s.conns (record s { conns = [] }) (unfold deref in h.1),
    )
step-IsClosed ref s (marks r) h =
    unfold pump_mark deref in
    (h.0, mark-IsClosed ref r (record (deref r s) { closed = true }) s refl h.1)
step-IsClosed ref s (erases id) h = unfold pump_erase in same_heap-IsClosed ref s _ refl refl h
step-IsClosed ref s (announces id ours ok) h =
    let k = pump_close-rest id ours ok s in same_heap-IsClosed ref s _ k.0 k.1 h

pub run-IsClosed : (ref : ℕ) (s : Session) (os : List Op) → IsClosed ref s → IsClosed ref (run s os)
unfolding run
run-IsClosed ref s [] h = h
run-IsClosed ref s (o ∷ os) h = run-IsClosed ref (step s o) os (step-IsClosed ref s o h)

pub close_conn-IsClosed :
    (id ref : ℕ) (s : Session)
    → get_conn id s ≡ some ref
    → ref < s.next_ref
    → IsClosed ref (close_conn id s).1
unfolding close_conn close_found close_ref deref
close_conn-IsClosed id ref s e h =
    rw e (h, rw (deref-insert ref ref (record (deref ref s) { closed = true }) s) (ground arith))

-- A stream that this end has torn down, as it does when the peer closes it, is not announced: when
-- its pump comes to its end, after anything else that may happen, it finds that the end is not
-- its own, and it sends no CLOSE.
pub close_conn_unannounced :
    (id ref : ℕ) (s : Session) (os : List Op) (ok : Bool)
    → get_conn id s ≡ some ref
    → ref < s.next_ref
    → let t = run (close_conn id s).1 os in
      let (ours, t') = pump_mark ref t in
      (ours ≡ false) × ((pump_close id ours ok (pump_erase id t')).written ≡ t.written)
unfolding pump_mark pump_close pump_erase
close_conn_unannounced id ref s os ok e h =
    let k = (run-IsClosed ref (close_conn id s).1 os (close_conn-IsClosed id ref s e h)).1 in
    (rw k, rw k)

pub mark_self :
    (ref : ℕ) (s : Session)
    → (conn_or (lookup ref (insert ref (record (deref ref s) { closed = true }) s.heap))).closed
      ≡ true
mark_self ref s =
    rw (deref-insert ref ref (record (deref ref s) { closed = true }) s) (ground arith)

-- Where nobody closed the connection, the pump's end is its own, and it is announced exactly once:
-- by one CLOSE of the stream, without an error, if the tunnel is up.
pub pump_end_announced :
    (id ref : ℕ) (s : Session) (ok : Bool)
    → (deref ref s).closed ≡ false
    → s.alive ≡ true
    → let (ours, t) = pump_mark ref s in
      let u = pump_close id ours ok (pump_erase id t) in
      (u.written ≡ s.written ++ record no_frame { stream_id = id; type = close_stream } ∷ [])
      × ((pump_mark ref u).0 ≡ false)
unfolding pump_mark pump_close pump_erase
pump_end_announced id ref s ok open_yet up =
    let k = mark_self ref s in
    rw open_yet (unfold send_close send in rw up (refl, unfold deref in rw k))

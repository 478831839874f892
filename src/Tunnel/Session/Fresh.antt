-- ===== src/Tunnel/Session/Fresh.antt =====
-- Stream ids of the server's side: `forward` of grpc-tunnel/src/tunnel_server.cc never gives a new
-- connection the id of a stream that is still in the table.
use zero_touch.Base.{
  ==_iff, Bool, Bool-cases, List, Option, Option-cases, [], arith, false, inl, inr, length, none,
  refl, some, suc, true, ℕ, ◌+◌, ◌<◌, ◌==◌, ◌^◌, ◌∷◌, ◌≡◌, ◌≤◌,
}
use zero_touch.Base.Bytes.{Bytes}
use zero_touch.Base.Keys.{nat_ord, text_ord}
use zero_touch.Base.Map.{
  IsOrdered, IsOrdered-erase, IsOrdered-insert, erase, insert, lookup, lookup-erase, lookup-insert,
}
use zero_touch.Tunnel.{Frame, no_frame, open_stream}
use zero_touch.Tunnel.Server.{finish_forward, forward}
use zero_touch.Tunnel.Session.{
  Session, add_conn, close_all, close_conn, close_found, close_ref, get_conn, new_session,
  next_stream_id, pump_close, pump_erase, pump_mark, send, shutdown,
}
use zero_touch.Tunnel.Session.Steps.{close_refs-rest, pump_close-rest, send-rest}

pub no_entry : (j ref : ℕ) → lookup j [] ≡ some ref → ⊥
unfolding lookup
no_entry j ref h = cc

-- What happens to a session on the server: the forwarder accepts a socket, or any other operation
-- that adds no connection.
pub data ServerOp : Type 0 where
  forwards : ℕ → Bytes → Bool → ServerOp
  sends : Frame → Bool → ServerOp
  shuts : ServerOp
  closes : ℕ → ServerOp
  closes_all : ServerOp
  marks : ℕ → ServerOp
  erases : ℕ → ServerOp
  announces : ℕ → Bool → Bool → ServerOp

unfoldable pub server_step : Session → ServerOp → Session
server_step s (forwards fd target ok) = (forward fd target ok s).1
server_step s (sends f ok) = (send f ok s).1
server_step s shuts = shutdown s
server_step s (closes id) = (close_conn id s).1
server_step s closes_all = close_all s
server_step s (marks ref) = (pump_mark ref s).1
server_step s (erases id) = pump_erase id s
server_step s (announces id ours ok) = pump_close id ours ok s

unfoldable pub server_run : Session → List ServerOp → Session
unfolding server_step
server_run s [] = s
server_run s (o ∷ os) = server_run (server_step s o) os

-- The ids in the table are below the next one, which is at most `n`.
record Inv (n : ℕ) (s : Session) : Type 0 where
  ordered : IsOrdered s.conns
  below : (id : ℕ) (ref : ℕ) → lookup id s.conns ≡ some ref → id < s.next_id
  bounded : s.next_id ≤ n

weaken-Inv : (n m : ℕ) (s : Session) → n ≤ m → Inv n s → Inv m s
weaken-Inv n m s h v = record {
  ordered = v.ordered;
  below = v.below;
  bounded = omega (arith, v.bounded);
}

-- The same table and counter.
same-Inv :
    (n : ℕ) (s s' : Session) → s'.conns ≡ s.conns → s'.next_id ≡ s.next_id → Inv n s → Inv n s'
same-Inv n s s' e k v = record {
  ordered = rw e v.ordered;
  below = λ id ref h. rw k (v.below id ref (rw e at h));
  bounded = rw k v.bounded;
}

-- An erasure keeps the invariant.
erase-Inv :
    (n id : ℕ) (s s' : Session)
    → s'.conns ≡ erase id s.conns
    → s'.next_id ≡ s.next_id
    → Inv n s
    → Inv n s'
erase-Inv n id s s' e k v = record {
  ordered = rw e (IsOrdered-erase id s.conns v.ordered);
  below = λ j ref h. rw k (v.below j ref (kept j ref (rw e at h)));
  bounded = rw k v.bounded;
}
  where
    kept : (j ref : ℕ) → lookup j (erase id s.conns) ≡ some ref → lookup j s.conns ≡ some ref
    kept j ref h = ground (arith, lookup-erase id j s.conns v.ordered)

close_found-Inv : (n id : ℕ) (o : Option ℕ) (s : Session) → Inv n s → Inv n (close_found id o s).1
unfolding close_found close_ref
close_found-Inv n id none s v = v
close_found-Inv n id (some ref) s v = erase-Inv n id s _ refl refl v

empty-Inv : (n : ℕ) (s s' : Session) → s'.conns ≡ [] → s'.next_id ≡ s.next_id → Inv n s → Inv n s'
empty-Inv n s s' e k v = record {
  ordered = rw e tt;
  below = λ j ref h. absurd (no_entry j ref (rw e at h));
  bounded = rw k v.bounded;
}

-- `forward` before its frame is sent.
added-Inv :
    (n fd : ℕ) (s : Session)
    → n + 1 < 2 ^ 64
    → Inv n s
    → Inv (n + 1) (add_conn s.next_id fd (next_stream_id s).1).1
unfolding add_conn next_stream_id
added-Inv n fd s h v = record {
  ordered = IsOrdered-insert s.next_id s.next_ref s.conns v.ordered;
  below = λ id ref k. elim (Bool-cases (s.next_id == id)) [
    | inl same ↦ omega (arith, (==_iff s.next_id id).0 same, v.bounded)
    | inr other ↦ omega (arith, v.bounded, v.below id ref (older id ref other k))
  ];
  bounded = omega (arith, v.bounded);
}
  where
    older :
        (id ref : ℕ)
        → (s.next_id == id) ≡ false
        → lookup id (insert s.next_id s.next_ref s.conns) ≡ some ref
        → lookup id s.conns ≡ some ref
    older id ref o k = ground (arith, lookup-insert s.next_id id s.next_ref s.conns)

close_conn-Inv : (n id : ℕ) (s : Session) → Inv n s → Inv n (close_conn id s).1
unfolding close_conn
close_conn-Inv n id s v = close_found-Inv n id (get_conn id s) s v

finish_forward-Inv :
    (n id ref : ℕ) (done : Bool) (s : Session) → Inv n s → Inv n (finish_forward id ref (done, s)).1
unfolding finish_forward
finish_forward-Inv n id ref true s v = v
finish_forward-Inv n id ref false s v = close_conn-Inv n id s v

forward-Inv :
    (n fd : ℕ) (target : Bytes) (ok : Bool) (s : Session)
    → n + 1 < 2 ^ 64
    → Inv n s
    → Inv (n + 1) (forward fd target ok s).1
unfolding forward
forward-Inv n fd target ok s h v =
    let open_frame = record no_frame {
      stream_id = s.next_id;
      type = open_stream;
      target = target;
    } in
    let s2 = (add_conn s.next_id fd (next_stream_id s).1).1 in
    let r = send open_frame ok s2 in
    let k = send-rest open_frame ok s2 in
    finish_forward-Inv (n + 1) s.next_id s.next_ref r.0 r.1
      (same-Inv (n + 1) s2 r.1 k.2 k.3 (added-Inv n fd s h v))

step-Inv :
    (n : ℕ) (s : Session) (o : ServerOp) → n + 1 < 2 ^ 64 → Inv n s → Inv (n + 1) (server_step s o)
unfolding server_step
step-Inv n s (forwards fd target ok) h v = forward-Inv n fd target ok s h v
step-Inv n s (sends f ok) h v =
    let k = send-rest f ok s in weaken-Inv n (n + 1) _ (omega arith) (same-Inv n s _ k.2 k.3 v)
step-Inv n s shuts h v =
    unfold shutdown in weaken-Inv n (n + 1) _ (omega arith) (same-Inv n s _ refl refl v)
step-Inv n s (closes id) h v = weaken-Inv n (n + 1) _ (omega arith) (close_conn-Inv n id s v)
step-Inv n s closes_all h v =
    unfold close_all in
    let k = close_refs-rest s.conns (record s { conns = [] }) in
    weaken-Inv n (n + 1) _ (omega arith) (empty-Inv n s _ k.2 k.4 v)
step-Inv n s (marks ref) h v =
    unfold pump_mark in weaken-Inv n (n + 1) _ (omega arith) (same-Inv n s _ refl refl v)
step-Inv n s (erases id) h v =
    unfold pump_erase in weaken-Inv n (n + 1) _ (omega arith) (erase-Inv n id s _ refl refl v)
step-Inv n s (announces id ours ok) h v =
    let k = pump_close-rest id ours ok s in
    weaken-Inv n (n + 1) _ (omega arith) (same-Inv n s _ k.2 k.3 v)

run-Inv :
    (n : ℕ) (s : Session) (os : List ServerOp)
    → n + length os < 2 ^ 64
    → Inv n s
    → Inv (n + length os) (server_run s os)
unfolding server_run
run-Inv n s [] h v = weaken-Inv n (n + 0) s (omega arith) v
run-Inv n s (o ∷ os) h v =
    weaken-Inv (n + 1 + length os) (n + suc (length os)) _ (omega arith)
      (run-Inv (n + 1) (server_step s o) os (omega arith) (step-Inv n s o (omega arith) v))

-- Over any history of fewer than 2^64 - 1 operations of a session, the id that the forwarder takes
-- next is not in the table: no stream that is still open loses its connection to a new one.
pub next_id_unused :
    (os : List ServerOp)
    → 1 + length os < 2 ^ 64
    → let s = server_run new_session os in get_conn (next_stream_id s).0 s ≡ none
unfolding next_stream_id get_conn
next_id_unused os h =
    elim (Option-cases
      (lookup (server_run new_session os).next_id (server_run new_session os).conns)) [
        | inl unused ↦ unused
        | inr (ref, used) ↦
            absurd (omega (arith, (run-Inv 1 new_session os h start_Inv).below _ ref used))
      ]
  where
    start_Inv : Inv 1 new_session
    start_Inv = record {
      ordered = tt;
      below = λ id ref k. absurd (no_entry id ref k);
      bounded = omega arith;
    }

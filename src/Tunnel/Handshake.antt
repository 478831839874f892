-- ===== src/Tunnel/Handshake.antt =====
-- The OPEN of a stream through both ends: `ForwarderLoop` of grpc-tunnel/src/tunnel_server.cc, then
-- `RunTunnel` of grpc-tunnel/src/tunnel_client.cc, and back.
use zero_touch.Base.{
  ==_iff, Bool, List, Option, [], ap, arith, false, is_empty, none, not, refl, some, true, ℕ, ◌%◌,
  ◌&&◌, ◌++◌, ◌+◌, ◌^◌, ◌∙◌, ◌∷◌, ◌≡◌,
}
use zero_touch.Base.Bytes.{Bytes, codes, equals, equals_refl}
use zero_touch.Base.Keys.{nat_ord, text_ord}
use zero_touch.Base.Map.{
  IsOrdered, IsOrdered-insert, erase, insert, lookup, lookup-erase, lookup-insert,
}
use zero_touch.Tunnel.{Frame, close_stream, no_frame, open_stream}
use zero_touch.Tunnel.Client.{Client, client_frame, client_type, on_open}
use zero_touch.Tunnel.Net.{SendResult}
use zero_touch.Tunnel.Server.{Server, finish_forward, forward, on_frame, on_type}
use zero_touch.Tunnel.Session.{
  Session, add_conn, close_conn, close_found, close_ref, conn_or, deref, get_conn, next_stream_id,
  send, send_close,
}
use zero_touch.Tunnel.Settings.{served}

-- The frame that announces a stream.
abbrev pub open_of : ℕ → Bytes → Frame
open_of id target = record no_frame { stream_id = id; type = open_stream; target = target }

-- The answer to it where the target is not the client's.
abbrev pub mismatch : ℕ → Frame
mismatch id = record no_frame {
  stream_id = id;
  type = close_stream;
  error = codes "target mismatch";
}

-- The session behind `forward`.
abbrev forwarded : ℕ → Bytes → Session → Session
forwarded fd target s = record s {
  conns = insert s.next_id s.next_ref s.conns;
  next_id = (s.next_id + 1) % 2 ^ 64;
  heap = insert s.next_ref (record { fd = fd; closed = false }) s.heap;
  next_ref = s.next_ref + 1;
  written = s.written ++ open_of s.next_id target ∷ [];
}

forward-forwarded :
    (fd : ℕ) (target : Bytes) (s : Session)
    → s.alive ≡ true
    → (forward fd target true s).1 ≡ forwarded fd target s
unfolding forward finish_forward send next_stream_id add_conn
forward-forwarded fd target s up = rw up refl

found_itself : {V : Type 0} (k : ℕ) (v : V) (m : List (ℕ × V)) → lookup k (insert k v m) ≡ some v
found_itself k v m = lookup-insert k k v m ∙ rw ((==_iff k k).1 refl) refl

get_conn-add_conn :
    (id fd : ℕ) (s : Session) → get_conn id (add_conn id fd s).1 ≡ some (add_conn id fd s).0
unfolding get_conn add_conn
get_conn-add_conn id fd s = found_itself id s.next_ref s.conns

forward-get_conn :
    (fd : ℕ) (target : Bytes) (s : Session)
    → s.alive ≡ true
    → get_conn s.next_id (forward fd target true s).1 ≡ some s.next_ref
forward-get_conn fd target s up =
    ap (get_conn s.next_id) (forward-forwarded fd target s up)
    ∙ unfold get_conn in found_itself s.next_id s.next_ref s.conns

-- What the forwarder and the client make of a socket accepted for the client's own target: the
-- server's frame is an OPEN, the stream is in both tables under its id, and the client pumps it.
pub record Opened (target : Bytes) (fd : ℕ) (s : Session) (v v' : Client) : Type 0 where
  pub announced : (forward fd target true s).1.written ≡ s.written ++ open_of s.next_id target ∷ []
  pub at_server : get_conn s.next_id (forward fd target true s).1 ≡ some s.next_ref
  pub at_client : get_conn s.next_id v'.session ≡ some v.session.next_ref
  pub pumped : v'.pumps ≡ v.pumps ++ (s.next_id, v.session.next_ref) ∷ []

forward-written :
    (fd : ℕ) (target : Bytes) (s : Session)
    → s.alive ≡ true
    → (forward fd target true s).1.written ≡ s.written ++ open_of s.next_id target ∷ []
forward-written fd target s up = ap (λ (x : Session). x.written) (forward-forwarded fd target s up)

on_open-own :
    (id fd : ℕ) (target : Bytes) (ok : Bool) (v : Client)
    → let v' = on_open target (open_of id target) ok (some fd) v in
      (v'.session ≡ (add_conn id fd v.session).1)
      × (v'.pumps ≡ v.pumps ++ (id, (add_conn id fd v.session).0) ∷ [])
unfolding on_open
on_open-own id fd target ok v =
    let same : not (is_empty target) && not (equals target target) ≡ false =
      rw (equals_refl target) (ground arith) in
    rw same (refl, refl)

-- A socket that the forwarder accepts for the name under which the client registered becomes one
-- stream at both ends, where the client can dial: the server announces it, its id leads to the new
-- connection in the server's table and, once the client took the frame, in the client's, and the
-- client pumps it.
pub forward-Opened :
    (target : Bytes) (fd dialled : ℕ) (ok : Bool) (results : List SendResult) (s : Session)
    (v : Client)
    → s.alive ≡ true
    → Opened target fd s v
        (client_frame target (open_of s.next_id target) ok (some dialled) results v)
unfolding client_frame client_type
forward-Opened target fd dialled ok results s v up =
    let (session_is, pumps_are) = on_open-own s.next_id dialled target ok v in
    record {
      announced = forward-written fd target s up;
      at_server = forward-get_conn fd target s up;
      at_client =
          ap (get_conn s.next_id) session_is
          ∙ get_conn-add_conn s.next_id dialled v.session
          ∙ unfold add_conn in refl;
      pumped = pumps_are ∙ unfold add_conn in refl;
    }

-- What becomes of a socket accepted for a name that is not the client's `v`: the client answers by one
-- CLOSE that says so, and neither adds a stream nor starts a pump, whatever a dial would have given;
-- the server `w`, once it took that frame, no longer knows the stream, and has shut down the socket.
pub record Declined (fd : ℕ) (s : Session) (v v' : Client) (w' : Server) : Type 0 where
  pub answered : v'.session.written ≡ v.session.written ++ mismatch s.next_id ∷ []
  pub unchanged : (v'.session.conns ≡ v.session.conns) × (v'.pumps ≡ v.pumps)
  pub forgotten : get_conn s.next_id w'.session ≡ none
  pub released : w'.session.shut ≡ s.shut ++ fd ∷ []

on_open-other :
    (id : ℕ) (mine target : Bytes) (dialled : Option ℕ) (v : Client)
    → is_empty target ≡ false
    → equals target mine ≡ false
    → v.session.alive ≡ true
    → on_open mine (open_of id target) true dialled v
      ≡ record v { session = record v.session { written = v.session.written ++ mismatch id ∷ [] } }
unfolding on_open send_close send
on_open-other id mine target dialled v named other up = rw (named, other) (ground arith)

close_conn-forwarded :
    (fd : ℕ) (target : Bytes) (s : Session)
    → let x = forwarded fd target s in
      (close_conn s.next_id x).1
      ≡ close_ref s.next_ref (record x { conns = erase s.next_id x.conns })
unfolding close_conn get_conn close_found
close_conn-forwarded fd target s =
    ap (λ o. (close_found s.next_id o (forwarded fd target s)).1)
      (found_itself s.next_id s.next_ref s.conns)

close_forwarded :
    (fd : ℕ) (target : Bytes) (s : Session)
    → s.alive ≡ true
    → IsOrdered s.conns
    → let s' = (close_conn s.next_id (forward fd target true s).1).1 in
      (get_conn s.next_id s' ≡ none) × (s'.shut ≡ s.shut ++ fd ∷ [])
close_forwarded fd target s up o =
    let x = forwarded fd target s in
    let e =
      ap (λ y. (close_conn s.next_id y).1) (forward-forwarded fd target s up)
      ∙ close_conn-forwarded fd target s in
    let erased : lookup s.next_id (erase s.next_id x.conns) ≡ none =
      lookup-erase s.next_id s.next_id x.conns (IsOrdered-insert s.next_id s.next_ref s.conns o)
      ∙ rw ((==_iff s.next_id s.next_id).1 refl) refl in
    let socket : (conn_or (lookup s.next_ref x.heap)).fd ≡ fd =
      ap (λ c. (conn_or c).fd)
        (found_itself s.next_ref (record { fd = fd; closed = false }) s.heap) in
    (
      ap (get_conn s.next_id) e ∙ unfold get_conn close_ref in erased,
      ap (λ (y : Session). y.shut) e ∙ unfold close_ref deref in ap (λ n. s.shut ++ n ∷ []) socket,
    )

-- A socket that the forwarder accepts for another name than the client's own - a registry entry that
-- is out of date - is declined by the client and given up by the server.
pub forward-Declined :
    (me : ℕ) (mine target : Bytes) (fd : ℕ) (dialled : Option ℕ) (ok : Bool)
    (results : List SendResult) (s : Session) (v : Client) (w : Server)
    → s.alive ≡ true
    → IsOrdered s.conns
    → v.session.alive ≡ true
    → is_empty target ≡ false
    → equals target mine ≡ false
    → w.session ≡ (forward fd target true s).1
    → Declined fd s v
        (client_frame mine (open_of s.next_id target) true dialled results v)
        (on_frame me (mismatch s.next_id) ok results w)
unfolding client_frame client_type on_frame on_type
forward-Declined me mine target fd dialled ok results s v w up o client_up named other served =
    let e = on_open-other s.next_id mine target dialled v named other client_up in
    let (gone, shut) = close_forwarded fd target s up o in
    let closed = ap (λ (x : Session). (close_conn s.next_id x).1) served in
    record {
      answered = ap (λ (c : Client). c.session.written) e;
      unchanged = (ap (λ (c : Client). c.session.conns) e, ap (λ (c : Client). c.pumps) e);
      forgotten = ap (get_conn s.next_id) closed ∙ gone;
      released = ap (λ (x : Session). x.shut) closed ∙ shut;
    }

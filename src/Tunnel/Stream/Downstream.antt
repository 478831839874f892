-- ===== src/Tunnel/Stream/Downstream.antt =====
-- From a socket of the server to a socket of the client, in any interleaving of all the threads of
-- both ends.
use mathlib.Core.Option.{none-ne-some, some-injective}
use zero_touch.AtModem.Pieces.{after}
use zero_touch.Base.{
  Bool, List, [], ap, arith, false, is_empty, not, refl, some, subst, sym, true, ℕ, ◌&&◌, ◌++◌, ◌∙◌,
  ◌∷◌, ◌≡◌, ◌≢◌,
}
use zero_touch.Base.Bytes.{Bytes, equals, equals_iff}
use zero_touch.Base.Keys.{nat_ord, text_ord}
use zero_touch.Base.Map.{lookup}
use zero_touch.Tunnel.{Frame}
use zero_touch.Tunnel.Client.{Client, client_frame, client_type, on_open, register_client}
use zero_touch.Tunnel.Conformance.ClientEnd.{
  ClientStep, client_ends, client_gets, client_pumps, client_run, client_step, client_ticks,
  registered,
}
use zero_touch.Tunnel.Conformance.ServerEnd.{ServerStep, new_server, server_run}
use zero_touch.Tunnel.Handshake.{open_of}
use zero_touch.Tunnel.Net.{SendResult}
use zero_touch.Tunnel.Registry.{Registry}
use zero_touch.Tunnel.Session.{Session, conn_or, deref, get_conn, send}
use zero_touch.Tunnel.Session.Fresh.{no_entry}
use zero_touch.Tunnel.Stream.{IsPrefix, IsPrefix-trans, IsPrefix-whole, bytes_to, carried, payloads}
use zero_touch.Tunnel.Stream.Carrying.{Carries, Unused, open-Carries}
use zero_touch.Tunnel.Stream.Follows.{Carries-Follows, Untouched-Follows}
use zero_touch.Tunnel.Stream.FromServer.{server_reads, server_run-Said}
use zero_touch.Tunnel.Stream.Quiet.{Said}
use zero_touch.Tunnel.Stream.ToClient.{Spares, client_run-follows, frames_got}
use zero_touch.Tunnel.Tally.{tally-append}

client_run-append :
    (target : Bytes) (cs bs : List ClientStep) (v : Client)
    → client_run target (cs ++ bs) v ≡ client_run target bs (client_run target cs v)
unfolding client_run
client_run-append target [] bs v = refl
client_run-append target (d ∷ cs) bs v = client_run-append target cs bs (client_step target d v)

frames_got-append :
    (cs bs : List ClientStep) → frames_got (cs ++ bs) ≡ frames_got cs ++ frames_got bs
frames_got-append [] bs = refl
frames_got-append (client_gets f ok dialled results ∷ cs) bs = ap (◌∷◌ f) (frames_got-append cs bs)
frames_got-append (client_ticks ok ∷ cs) bs = frames_got-append cs bs
frames_got-append (client_pumps d ∷ cs) bs = frames_got-append cs bs
frames_got-append (client_ends ∷ cs) bs = frames_got-append cs bs

pub start-Unused : (fd : ℕ) (s : Session) → fd ≢ 0 → s.conns ≡ [] → s.heap ≡ [] → Unused fd s []
unfolding deref
start-Unused fd s n c h = record {
  ordered = rw c tt;
  below = λ j r e. absurd (no_entry j r (rw c at e));
  nobody = λ r e. n (sym e ∙ ap (λ m. (conn_or (lookup r m)).fd) h ∙ unfold lookup in refl);
  silent = refl;
}

-- A client that has just registered.
registered-Unused :
    (fd : ℕ) (target : Bytes) (ok : Bool) (v : Client)
    → fd ≢ 0
    → register_client target ok ≡ some v
    → Unused fd v.session v.to_socket
unfolding register_client send
registered-Unused fd target true v n e =
    subst (λ u. Unused fd u.session u.to_socket) (some-injective (registered target) v e)
      (start-Unused fd (registered target).session n refl refl)
registered-Unused fd target false v n e = absurd (none-ne-some v e)

-- The client takes an OPEN of its own name, and can dial.
opening-Carries :
    (id fd : ℕ) (target : Bytes) (ok : Bool) (results : List SendResult) (v : Client)
    → Unused fd v.session v.to_socket
    → let v' = client_step target (client_gets (open_of id target) ok (some fd) results) v in
      Carries id v.session.next_ref fd [] v'.session v'.to_socket
unfolding client_step client_frame client_type on_open
opening-Carries id fd target ok results v u =
    rw own_name (open-Carries id fd v.session v.to_socket u)
  where
    own_name : (not (is_empty target) && not (equals target target)) ≡ false
    own_name = ground (arith, equals_iff target target)

-- An OPEN for the client's own name, whose dial gives the socket.
abbrev pub opening : ℕ → Bytes → ℕ → ClientStep
opening id target fd = client_gets (open_of id target) true (some fd) []

-- What the client makes of the frames behind the OPEN.
client_run-Carries :
    (target : Bytes) (id fd : ℕ) (before after : List ClientStep) (v0 : Client)
    → register_client target true ≡ some v0
    → fd ≢ 0
    → Spares fd before
    → Spares fd after
    → let v = client_run target (before ++ opening id target fd ∷ after) v0 in
      Carries id
        (client_run target before v0).session.next_ref
        fd
        (payloads id (frames_got after))
        v.session
        v.to_socket
unfolding client_run client_step
client_run-Carries target id fd before after v0 e n h k =
    let v1 = client_run target before v0 in
    let unused =
      client_run-follows id fd (Untouched-Follows id fd) [] target before v0 h
        (registered-Unused fd target true v0 n e) in
    let at_open = opening-Carries id fd target true [] v1 unused in
    rw (client_run-append target before (opening id target fd ∷ after) v0) (
      client_run-follows id fd (Carries-Follows id v1.session.next_ref fd) [] target after
        (client_step target (opening id target fd) v1) k at_open)

-- What is behind the OPEN is all that the client took of the stream.
behind_open :
    (id fd : ℕ) (target : Bytes) (before after : List ClientStep)
    → payloads id (frames_got before) ≡ []
    → payloads id (frames_got (before ++ opening id target fd ∷ after))
      ≡ payloads id (frames_got after)
behind_open id fd target before after e =
    ap (payloads id) (frames_got-append before (opening id target fd ∷ after))
    ∙ tally-append (carried id) (frames_got before) (frames_got (opening id target fd ∷ after))
    ∙ ap (λ l. l ++ payloads id (frames_got after)) e

new_server-Said : (id : ℕ) (r : Registry) → Said id [] (new_server r).session
new_server-Said id r = record { whole = λ e. refl; first = IsPrefix-whole [] [] refl }

-- The bytes that a socket of the client was given are the first of the bytes that the server's pumps
-- read for the stream, in order: nothing is lost between them, doubled, changed or taken from another
-- stream, whatever the steps of both ends and whichever writes fail. The client had an OPEN for
-- its own name and dialled the socket, which no other stream of it has, and the stream's DATA came
-- behind the OPEN; gRPC gives the client the first of the frames that the server wrote, in order.
pub downstream :
    (target : Bytes) (me id fd : ℕ) (r : Registry) (serving : List ServerStep)
    (before after : List ClientStep) (v0 : Client) (under_way : List Frame)
    → register_client target true ≡ some v0
    → fd ≢ 0
    → Spares fd before
    → Spares fd after
    → payloads id (frames_got before) ≡ []
    → (server_run me serving (new_server r)).session.written
      ≡ frames_got (before ++ opening id target fd ∷ after) ++ under_way
    → IsPrefix
        (bytes_to fd (client_run target (before ++ opening id target fd ∷ after) v0).to_socket)
        (server_reads id serving)
downstream target me id fd r serving before after v0 under_way e n h k early delivery =
    let c = client_run-Carries target id fd before after v0 e n h k in
    let said = server_run-Said id me serving [] (new_server r) (new_server-Said id r) in
    IsPrefix-trans _ _ _ c.first (IsPrefix-trans _ _ _ reaches_it said.first)
  where
    reaches_it :
        IsPrefix
          (payloads id (frames_got after))
          (payloads id (server_run me serving (new_server r)).session.written)
    reaches_it = record {
      behind = payloads id under_way;
      split =
          ap (payloads id) delivery
          ∙ tally-append (carried id) (frames_got (before ++ opening id target fd ∷ after))
              under_way
          ∙ ap (λ l. l ++ payloads id under_way) (behind_open id fd target before after early);
    }

-- Where, beyond that, the client has taken every frame that the server wrote, the tunnel is up at the
-- server and the stream is still in the table of the client, the socket was given all that the
-- server's pumps read for the stream.
pub downstream_whole :
    (target : Bytes) (me id fd : ℕ) (r : Registry) (serving : List ServerStep)
    (before after : List ClientStep) (v0 : Client)
    → register_client target true ≡ some v0
    → fd ≢ 0
    → Spares fd before
    → Spares fd after
    → payloads id (frames_got before) ≡ []
    → let s = (server_run me serving (new_server r)).session in
      let v = client_run target (before ++ opening id target fd ∷ after) v0 in
      s.written ≡ frames_got (before ++ opening id target fd ∷ after)
      → s.alive ≡ true
      → get_conn id v.session ≡ some (client_run target before v0).session.next_ref
      → bytes_to fd v.to_socket ≡ server_reads id serving
downstream_whole target me id fd r serving before after v0 e n h k early delivery up there =
    let c = client_run-Carries target id fd before after v0 e n h k in
    let said = server_run-Said id me serving [] (new_server r) (new_server-Said id r) in
    c.exact there
    ∙ sym (behind_open id fd target before after early)
    ∙ ap (payloads id) (sym delivery)
    ∙ said.whole up

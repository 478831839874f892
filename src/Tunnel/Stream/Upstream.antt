-- ===== src/Tunnel/Stream/Upstream.antt =====
-- From a socket of the client to a socket of the server, in any interleaving of all the threads of
-- both ends.
use mathlib.Core.Option.{some-injective}
use zero_touch.AtModem.Pieces.{after}
use zero_touch.Base.{Bool, List, [], ap, refl, some, subst, true, ℕ, ◌++◌, ◌∙◌, ◌∷◌, ◌≡◌, ◌≢◌}
use zero_touch.Base.Bytes.{Bytes}
use zero_touch.Tunnel.{Frame}
use zero_touch.Tunnel.Client.{Client, register_client}
use zero_touch.Tunnel.Conformance.ClientEnd.{ClientStep, client_run, registered}
use zero_touch.Tunnel.Conformance.ServerEnd.{
  ServerStep, new_server, server_ends, server_forwards, server_gets, server_pumps, server_run,
  server_step,
}
use zero_touch.Tunnel.Registry.{Registry}
use zero_touch.Tunnel.Server.{Server, forward}
use zero_touch.Tunnel.Session.{Session, next_stream_id, send}
use zero_touch.Tunnel.Stream.{IsPrefix, IsPrefix-trans, IsPrefix-whole, bytes_to, carried, payloads}
use zero_touch.Tunnel.Stream.Carrying.{Carries, Unused, open-Carries, shrink-Unused}
use zero_touch.Tunnel.Stream.Downstream.{start-Unused}
use zero_touch.Tunnel.Stream.Follows.{Carries-Follows, Untouched-Follows}
use zero_touch.Tunnel.Stream.FromClient.{client_reads, client_run-Said}
use zero_touch.Tunnel.Stream.Quiet.{Said}
use zero_touch.Tunnel.Stream.ToServer.{
  Avoids, forward-Shrinks, frames_taken, next_stream_id-Shrinks, server_run-follows,
}
use zero_touch.Tunnel.Tally.{tally-append}

server_run-append :
    (me : ℕ) (cs bs : List ServerStep) (v : Server)
    → server_run me (cs ++ bs) v ≡ server_run me bs (server_run me cs v)
unfolding server_run
server_run-append me [] bs v = refl
server_run-append me (d ∷ cs) bs v = server_run-append me cs bs (server_step me d v)

frames_taken-append :
    (cs bs : List ServerStep) → frames_taken (cs ++ bs) ≡ frames_taken cs ++ frames_taken bs
frames_taken-append [] bs = refl
frames_taken-append (server_gets f ok results ∷ cs) bs = ap (◌∷◌ f) (frames_taken-append cs bs)
frames_taken-append (server_forwards n target ok ∷ cs) bs = frames_taken-append cs bs
frames_taken-append (server_pumps d ∷ cs) bs = frames_taken-append cs bs
frames_taken-append (server_ends ∷ cs) bs = frames_taken-append cs bs

-- The forwarder at_accept the socket.
accepting-Carries :
    (fd : ℕ) (target : Bytes) (ok : Bool) (s : Session) (out : List (ℕ × Bytes))
    → Unused fd s out
    → Carries (next_stream_id s).0 s.next_ref fd [] (forward fd target ok s).1 out
unfolding next_stream_id
accepting-Carries fd target ok s out u =
    (Carries-Follows s.next_id s.next_ref fd).shrinks [] _ _ out (forward-Shrinks fd target ok s) (
      open-Carries s.next_id fd (next_stream_id s).1 out
        (shrink-Unused fd s _ out out (next_stream_id-Shrinks s) refl u))

-- What the server makes of the frames behind the accept.
server_run-Carries :
    (target : Bytes) (me fd : ℕ) (ok : Bool) (r : Registry) (before after : List ServerStep)
    → fd ≢ 0
    → Avoids fd before
    → Avoids fd after
    → let s = (server_run me before (new_server r)).session in
      let v = server_run me (before ++ server_forwards fd target ok ∷ after) (new_server r) in
      let id = (next_stream_id s).0 in
      Carries id s.next_ref fd (payloads id (frames_taken after)) v.session v.to_socket
unfolding server_run server_step next_stream_id
server_run-Carries target me fd ok r before after n h k =
    let v1 = server_run me before (new_server r) in
    let id = (next_stream_id v1.session).0 in
    let unused =
      server_run-follows id fd (Untouched-Follows id fd) [] me before (new_server r) h
        (start-Unused fd (new_server r).session n refl refl) in
    let at_accept = accepting-Carries fd target ok v1.session v1.to_socket unused in
    rw (server_run-append me before (server_forwards fd target ok ∷ after) (new_server r)) (
      server_run-follows id fd (Carries-Follows id v1.session.next_ref fd) [] me after
        (server_step me (server_forwards fd target ok) v1) k at_accept)

registered-Said :
    (id : ℕ) (target : Bytes) (v : Client)
    → register_client target true ≡ some v
    → Said id [] v.session
unfolding register_client send
registered-Said id target v e =
    subst (λ u. Said id [] u.session) (some-injective (registered target) v e)
      (record { whole = λ h. refl; first = IsPrefix-whole [] [] refl })

-- The bytes that a socket of the server was given are the first of the bytes that the client's pumps
-- read for the stream, in order, whatever the steps of both ends and whichever writes fail. The
-- forwarder accepted the socket, which no other stream of the session has, and opened the stream on
-- it under the next id, and the stream's DATA came after that; gRPC gives the server the first of
-- the frames that the client wrote, in order.
pub upstream :
    (target name : Bytes) (me fd : ℕ) (ok : Bool) (r : Registry) (before after : List ServerStep)
    (dialling : List ClientStep) (v0 : Client) (under_way : List Frame)
    → let id = (next_stream_id (server_run me before (new_server r)).session).0 in
      let steps = before ++ server_forwards fd target ok ∷ after in
      register_client name true ≡ some v0
      → fd ≢ 0
      → Avoids fd before
      → Avoids fd after
      → payloads id (frames_taken before) ≡ []
      → (client_run name dialling v0).session.written ≡ frames_taken steps ++ under_way
      → IsPrefix
          (bytes_to fd (server_run me steps (new_server r)).to_socket)
          (client_reads id dialling)
upstream target name me fd ok r before after dialling v0 under_way e n h k early delivery =
    let c = server_run-Carries target me fd ok r before after n h k in
    let said = client_run-Said id name dialling [] v0 (registered-Said id name v0 e) in
    IsPrefix-trans _ _ _ c.first (IsPrefix-trans _ _ _ reaches_it said.first)
  where
    id : ℕ
    id = (next_stream_id (server_run me before (new_server r)).session).0

    reaches_it :
        IsPrefix
          (payloads id (frames_taken after))
          (payloads id (client_run name dialling v0).session.written)
    reaches_it = record {
      behind = payloads id under_way;
      split =
          ap (payloads id) delivery
          ∙ tally-append (carried id)
              (frames_taken (before ++ server_forwards fd target ok ∷ after)) under_way
          ∙ ap (λ l. l ++ payloads id under_way)
              (ap (payloads id) (frames_taken-append before (server_forwards fd target ok ∷ after))
                ∙ tally-append (carried id) (frames_taken before) (frames_taken after)
                ∙ ap (λ l. l ++ payloads id (frames_taken after)) early);
    }

-- ===== src/Tests/Relays.antt =====
-- A stream from end to end through grpc-tunnel/src at a concrete input.
use zero_touch.Base.{
  List, [], arith, drop, false, length, refl, some, suc, true, zero, ℕ, ◌++◌, ◌∷◌, ◌≡◌, ◌≤◌,
}
use zero_touch.Base.Bytes.{codes, equals}
use zero_touch.Base.Keys.{nat_ord, text_ord}
use zero_touch.Base.Map.{insert, lookup}
use zero_touch.Tunnel.{Frame, close_stream, no_frame, open_stream}
use zero_touch.Tunnel.Client.{Client, client_frame, new_client}
use zero_touch.Tunnel.Net.{SendResult, sent}
use zero_touch.Tunnel.Net.Writing.{taken_by}
use zero_touch.Tunnel.Relay.{receive_all, relay, to_fd}
use zero_touch.Tunnel.Session.{
  RecvResult, Session, add_conn, deref, get_conn, interrupted, new_session, next_stream_id, pump,
  received, send_close,
}

abbrev one_stream : Session
one_stream = (add_conn 1 9 (next_stream_id new_session).1).1

abbrev reads : List RecvResult
reads = received (codes "GET /") true ∷ interrupted ∷ received (codes "!") true ∷ []

abbrev one_client : Client
one_client = record new_client { session = (add_conn 1 7 new_session).1 }

abbrev whole_write : Frame → List SendResult
whole_write f = sent (length f.payload) ∷ []

whole_write_enough : (f : Frame) → length f.payload ≤ taken_by (whole_write f)
whole_write_enough f = enough (length f.payload)
  where
    enough : (n : ℕ) → n ≤ taken_by (sent n ∷ [])
    enough zero = omega arith
    enough (suc n) = omega arith

stream_open : (deref 0 one_stream).closed ≡ false
unfolding deref add_conn lookup insert next_stream_id
stream_open = refl

stream_up : one_stream.alive ≡ true
unfolding add_conn next_stream_id
stream_up = refl

client_has : get_conn 1 one_client.session ≡ some 0
unfolding get_conn add_conn lookup insert
client_has = refl

relay_example :
    (receive_all
      (codes "edge-1")
      whole_write
      (drop (length one_stream.written) (pump 1 0 reads true one_stream).written)
      one_client).to_socket
    ≡ one_client.to_socket ++ to_fd (deref 0 one_client.session).fd (codes "GET /" ∷ codes "!" ∷ [])
relay_example =
    relay (codes "edge-1") whole_write 1 0 0 reads one_stream one_client (refl, (tt, (refl, tt)))
      stream_up stream_open client_has whole_write_enough

-- A stream opened for another name is refused.
refused_open :
    (client_frame
      (codes "edge-1")
      (record no_frame { stream_id = 3; type = open_stream; target = codes "edge-2" })
      true
      (some 5)
      []
      new_client).session.written
    ≡ record no_frame { stream_id = 3; type = close_stream; error = codes "target mismatch" } ∷ []
unfolding client_frame equals send_close
refused_open = refl

-- ===== src/Tunnel/Session/Steps.antt =====
-- Any interleaving of the operations of grpc-tunnel/src/session.cc, by any threads.
use zero_touch.Base.{Bool, List, [], arith, false, refl, true, ℕ, ◌∷◌, ◌≡◌}
use zero_touch.Tunnel.{Frame}
use zero_touch.Tunnel.Session.{
  Session, add_conn, close_all, close_conn, close_ref, close_refs, next_stream_id, pump_close,
  pump_erase, pump_mark, send, send_close, shutdown,
}

pub data Op : Type 0 where
  sends : Frame → Bool → Op
  shuts : Op
  takes_id : Op
  adds : ℕ → ℕ → Op
  closes : ℕ → Op
  closes_all : Op
  marks : ℕ → Op
  erases : ℕ → Op
  announces : ℕ → Bool → Bool → Op

unfoldable pub step : Session → Op → Session
step s (sends f ok) = (send f ok s).1
step s shuts = shutdown s
step s takes_id = (next_stream_id s).1
step s (adds id fd) = (add_conn id fd s).1
step s (closes id) = (close_conn id s).1
step s closes_all = close_all s
step s (marks ref) = (pump_mark ref s).1
step s (erases id) = pump_erase id s
step s (announces id ours ok) = pump_close id ours ok s

unfoldable pub run : Session → List Op → Session
unfolding step
run s [] = s
run s (o ∷ os) = run (step s o) os

-- `close_all` changes the heap and what is shut down only.
pub close_refs-rest :
    (taken : List (ℕ × ℕ)) (s : Session)
    → let s' = close_refs taken s in
      (s'.alive ≡ s.alive)
      × (s'.written ≡ s.written)
      × (s'.conns ≡ s.conns)
      × (s'.next_ref ≡ s.next_ref)
      × (s'.next_id ≡ s.next_id)
unfolding close_refs
close_refs-rest [] s = (refl, refl, refl, refl, refl)
close_refs-rest ((id, ref) ∷ taken) s = unfold close_ref in close_refs-rest taken (close_ref ref s)

pub close_all-rest :
    (s : Session)
    → ((close_all s).alive ≡ s.alive)
      × ((close_all s).written ≡ s.written)
      × ((close_all s).next_ref ≡ s.next_ref)
      × ((close_all s).conns ≡ [])
unfolding close_all
close_all-rest s = let k = close_refs-rest s.conns (record s { conns = [] }) in (k.0, k.1, k.3, k.2)

-- `Send` adds to what was written only.
pub send-rest :
    (f : Frame) (ok : Bool) (s : Session)
    → ((send f ok s).1.heap ≡ s.heap)
      × ((send f ok s).1.next_ref ≡ s.next_ref)
      × ((send f ok s).1.conns ≡ s.conns)
      × ((send f ok s).1.next_id ≡ s.next_id)
unfolding send
send-rest f ok s = ground arith

pub pump_close-rest :
    (id : ℕ) (ours ok : Bool) (s : Session)
    → let s' = pump_close id ours ok s in
      (s'.heap ≡ s.heap)
      × (s'.next_ref ≡ s.next_ref)
      × (s'.conns ≡ s.conns)
      × (s'.next_id ≡ s.next_id)
unfolding pump_close
pump_close-rest id true ok s = unfold send_close in send-rest _ ok s
pump_close-rest id false ok s = (refl, refl, refl, refl)

-- ===== src/Tunnel/Conformance/Opens.antt =====
-- The ids in the OPEN frames that a server writes on a session, 3.2 of grpc-tunnel/SPEC.md.
use zero_touch.Base.{
  All, All-append, Bool, Bool-cases, List, [], ap, arith, false, inl, inr, length, refl, subst, suc,
  sym, true, ℕ, ◌%◌, ◌++◌, ◌+◌, ◌<◌, ◌^◌, ◌∷◌, ◌≡◌, ◌≤◌,
}
use zero_touch.Base.Bytes.{Bytes}
use zero_touch.Tunnel.{
  Frame, FrameType, close_stream, data_bytes, keepalive, open_stream, register, register_ack,
  unknown_type,
}
use zero_touch.Tunnel.Conformance.ServerEnd.{
  ServerStep, new_server, server_ends, server_forwards, server_gets, server_pumps, server_run,
  server_step,
}
use zero_touch.Tunnel.Handshake.{open_of}
use zero_touch.Tunnel.Net.{SendResult}
use zero_touch.Tunnel.Registry.{Registry}
use zero_touch.Tunnel.Server.{Server, finish_forward, forward, on_frame, on_type, teardown}
use zero_touch.Tunnel.Session.{
  Session, add_conn, close_all, get_conn, next_stream_id, send, shutdown,
}
use zero_touch.Tunnel.Session.Steps.{close_refs-rest}
use zero_touch.Tunnel.Tally.{
  Silent, Silent-close_conn, Silent-on_data, Silent-pump_step, Silent-same, Silent-send, tally,
  tally_last,
}

-- The id of an OPEN frame.
abbrev pub opened_id : FrameType → Frame → List ℕ
opened_id open_stream f = f.stream_id ∷ []
opened_id _ f = []

-- The ids of the OPEN frames, oldest first.
abbrev pub opened_ids : List Frame → List ℕ
opened_ids = tally opened_id

-- The ids grow, above a bound.
abbrev pub Growing : ℕ → List ℕ → Type 0
Growing n [] = Unit
Growing n (i ∷ ids) = (n < i) × Growing i ids

-- Every id is below a bound.
abbrev Below : ℕ → List ℕ → Type 0
Below n ids = All (λ i. i < n) ids

Below-weaken : (n m : ℕ) (ids : List ℕ) → n ≤ m → Below n ids → Below m ids
Below-weaken n m [] h b = tt
Below-weaken n m (i ∷ ids) h b = (omega (arith, b.0), Below-weaken n m ids h b.1)

Growing-last :
    (n i : ℕ) (ids : List ℕ) → n < i → Below i ids → Growing n ids → Growing n (ids ++ i ∷ [])
Growing-last n i [] h b g = (h, tt)
Growing-last n i (j ∷ ids) h b g = (g.0, Growing-last j i ids b.0 b.1 g.1)

-- After `n` steps at most: the ids so far grow from 1 on, all below the next one, which is at most
-- `n`.
record Counts (n : ℕ) (s : Session) : Type 0 where
  growing : Growing 0 (opened_ids s.written)
  below : Below s.next_id (opened_ids s.written)
  positive : 0 < s.next_id
  bounded : s.next_id ≤ n

-- Nothing was opened.
same-Counts :
    (n m : ℕ) (s s' : Session)
    → opened_ids s'.written ≡ opened_ids s.written
    → s'.next_id ≡ s.next_id
    → n ≤ m
    → Counts n s
    → Counts m s'
same-Counts n m s s' e k h c = record {
  growing = rw e c.growing;
  below = rw (e, k) c.below;
  positive = rw k c.positive;
  bounded = rw k (omega (arith, c.bounded));
}

on_type-Silent :
    (t : FrameType) (me : ℕ) (f : Frame) (ok : Bool) (results : List SendResult) (v : Server)
    → Silent opened_id v.session (on_type t me f ok results v).session
unfolding on_type
on_type-Silent register me f ok results v = Silent-send opened_id _ ok v.session refl
on_type-Silent data_bytes me f ok results v =
    Silent-on_data opened_id (λ g. refl) (get_conn f.stream_id v.session) f ok results v.session
on_type-Silent close_stream me f ok results v = Silent-close_conn opened_id f.stream_id v.session
on_type-Silent unknown_type me f ok results v = Silent-same opened_id _ _ refl refl refl
on_type-Silent open_stream me f ok results v = Silent-same opened_id _ _ refl refl refl
on_type-Silent register_ack me f ok results v = Silent-same opened_id _ _ refl refl refl
on_type-Silent keepalive me f ok results v = Silent-same opened_id _ _ refl refl refl

Silent-Counts : (n : ℕ) (s s' : Session) → Silent opened_id s s' → Counts n s → Counts (n + 1) s'
Silent-Counts n s s' m c = same-Counts n (n + 1) s s' m.untold m.same_next (omega arith) c

-- An OPEN is sent, or not, with the id that was next.
counted :
    (n fd : ℕ) (target : Bytes) (ok : Bool) (s : Session)
    → n + 1 < 2 ^ 64
    → Counts n s
    → Counts
        (n + 1)
        (send (open_of s.next_id target) ok (add_conn s.next_id fd (next_stream_id s).1).1).1
unfolding send add_conn next_stream_id
counted n fd target ok s h c = elim (Bool-cases s.alive) [
  | inl up ↦ simp up (record {
    growing =
        subst (Growing 0) (sym (tally_last opened_id s.written (open_of s.next_id target)))
          (Growing-last 0 s.next_id (opened_ids s.written) c.positive c.below c.growing);
    below =
        subst (Below ((s.next_id + 1) % 2 ^ 64))
          (sym (tally_last opened_id s.written (open_of s.next_id target)))
          (All-append (λ i. i < (s.next_id + 1) % 2 ^ 64) (opened_ids s.written) (s.next_id ∷ [])
            (Below-weaken s.next_id ((s.next_id + 1) % 2 ^ 64) (opened_ids s.written)
              (omega (arith, c.bounded)) c.below)
            (omega (arith, c.bounded), tt));
    positive = omega (arith, c.bounded);
    bounded = omega (arith, c.bounded);
  })
  | inr down ↦ simp down (record {
    growing = c.growing;
    below =
        Below-weaken s.next_id ((s.next_id + 1) % 2 ^ 64) (opened_ids s.written)
          (omega (arith, c.bounded)) c.below;
    positive = omega (arith, c.bounded);
    bounded = omega (arith, c.bounded);
  })
]

forward-Counts :
    (n fd : ℕ) (target : Bytes) (ok : Bool) (s : Session)
    → n + 1 < 2 ^ 64
    → Counts n s
    → Counts (n + 1) (forward fd target ok s).1
unfolding forward
forward-Counts n fd target ok s h c =
    finished (send (open_of s.next_id target) ok (add_conn s.next_id fd (next_stream_id s).1).1)
      (counted n fd target ok s h c)
  where
    finished :
        (r : Bool × Session)
        → Counts (n + 1) r.1
        → Counts (n + 1) (finish_forward s.next_id s.next_ref r).1
    finished (true, s') k = unfold finish_forward in k
    finished (false, s') k =
        let m = Silent-close_conn opened_id s.next_id s' in
        unfold finish_forward in
        same-Counts (n + 1) (n + 1) s' _ m.untold m.same_next (omega arith) k

step-Counts :
    (n me : ℕ) (d : ServerStep) (v : Server)
    → n + 1 < 2 ^ 64
    → Counts n v.session
    → Counts (n + 1) (server_step me d v).session
unfolding server_step on_frame teardown shutdown
step-Counts n me (server_gets f ok results) v h c =
    Silent-Counts n v.session _ (on_type-Silent f.type me f ok results v) c
step-Counts n me (server_forwards fd target ok) v h c = forward-Counts n fd target ok v.session h c
step-Counts n me (server_pumps d) v h c =
    Silent-Counts n v.session _ (Silent-pump_step opened_id (λ g. refl) (λ g. refl) d v.session) c
step-Counts n me server_ends v h c =
    unfold close_all in
    let k = close_refs-rest v.session.conns (record v.session { alive = false; conns = [] }) in
    same-Counts n (n + 1) v.session _ (ap opened_ids k.1) k.4 (omega arith) c

run-Counts :
    (n me : ℕ) (ds : List ServerStep) (v : Server)
    → n + length ds < 2 ^ 64
    → Counts n v.session
    → Counts (n + length ds) (server_run me ds v).session
unfolding server_run
run-Counts n me [] v h c = same-Counts n (n + 0) v.session v.session refl refl (omega arith) c
run-Counts n me (d ∷ ds) v h c =
    let after = server_run me ds (server_step me d v) in
    same-Counts (n + 1 + length ds) (n + suc (length ds)) after.session after.session refl refl
      (omega arith)
      (run-Counts (n + 1) me ds (server_step me d v) (omega arith)
        (step-Counts n me d v (omega arith) c))

-- The ids of the OPEN frames that the server writes on a session grow from 1 on, so that none is
-- used twice, over any history of fewer than 2^64 - 1 steps of the handler, the forwarder, the
-- pumps and the teardown.
pub opened_ids-Growing :
    (me : ℕ) (r : Registry) (ds : List ServerStep)
    → 1 + length ds < 2 ^ 64
    → Growing 0 (opened_ids (server_run me ds (new_server r)).session.written)
opened_ids-Growing me r ds h = (run-Counts 1 me ds (new_server r) h start_Counts).growing
  where
    start_Counts : Counts 1 (new_server r).session
    start_Counts = record {
      growing = tt;
      below = tt;
      positive = omega arith;
      bounded = omega arith;
    }

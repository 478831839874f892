-- ===== src/Tunnel/Stream/Quiet.antt =====
-- The operations that write no DATA frame of a stream, and what a session has said on the stream.
use zero_touch.Base.{
  Bool, Bool-cases, List, Option, [], ap, append-nil, false, if◌then◌else◌, inl, inr, refl, sym,
  true, ℕ, ◌++◌, ◌==◌, ◌∙◌, ◌≡◌,
}
use zero_touch.Base.Bytes.{Bytes}
use zero_touch.Tunnel.{Frame, data_bytes, no_frame}
use zero_touch.Tunnel.Conformance.{
  PumpStep, pump_step, pumps_close, pumps_data, pumps_erase, pumps_mark,
}
use zero_touch.Tunnel.Net.{SendResult}
use zero_touch.Tunnel.Server.{on_data}
use zero_touch.Tunnel.Session.{
  Session, close_all, close_conn, pump_close, pump_erase, pump_mark, send, send_close, send_data,
  shutdown,
}
use zero_touch.Tunnel.Session.Steps.{close_all-rest}
use zero_touch.Tunnel.Stream.{IsPrefix, IsPrefix-append, IsPrefix-whole, carried, payloads}
use zero_touch.Tunnel.Tally.{
  Silent, Silent-close_conn, Silent-on_data, Silent-send, Silent-send_close, tally_last,
}

pub record Quiet (id : ℕ) (s s' : Session) : Type 0 where
  pub still : s'.alive ≡ true → s.alive ≡ true
  pub unsaid : payloads id s'.written ≡ payloads id s.written

pub Quiet-trans : (id : ℕ) (s t u : Session) → Quiet id s t → Quiet id t u → Quiet id s u
Quiet-trans id s t u h k = record { still = λ e. h.still (k.still e); unsaid = k.unsaid ∙ h.unsaid }

pub Quiet-same :
    (id : ℕ) (s s' : Session) → s'.alive ≡ s.alive → s'.written ≡ s.written → Quiet id s s'
Quiet-same id s s' a w = record { still = λ e. sym a ∙ e; unsaid = ap (payloads id) w }

Silent-Quiet : (id : ℕ) (s s' : Session) → Silent (carried id) s s' → Quiet id s s'
Silent-Quiet id s s' h = record { still = λ e. sym h.same_alive ∙ e; unsaid = h.untold }

pub Quiet-send :
    (id : ℕ) (f : Frame) (ok : Bool) (s : Session)
    → carried id f.type f ≡ []
    → Quiet id s (send f ok s).1
Quiet-send id f ok s e = Silent-Quiet id s _ (Silent-send (carried id) f ok s e)

pub Quiet-send_close :
    (id j : ℕ) (error : Bytes) (ok : Bool) (s : Session) → Quiet id s (send_close j error ok s).1
Quiet-send_close id j error ok s =
    Silent-Quiet id s _ (Silent-send_close (carried id) (λ f. refl) j error ok s)

pub Quiet-close_conn : (id j : ℕ) (s : Session) → Quiet id s (close_conn j s).1
Quiet-close_conn id j s = Silent-Quiet id s _ (Silent-close_conn (carried id) j s)

pub Quiet-shutdown : (id : ℕ) (s : Session) → Quiet id s (close_all (shutdown s))
unfolding shutdown
Quiet-shutdown id s =
    let k = close_all-rest (shutdown s) in
    record { still = λ e. absurd (down (sym k.0 ∙ e)); unsaid = ap (payloads id) k.1 }
  where
    down : (shutdown s).alive ≡ true → ⊥
    down e = cc

pub Quiet-on_data :
    (id : ℕ) (o : Option ℕ) (f : Frame) (ok : Bool) (results : List SendResult) (s : Session)
    → Quiet id s (on_data o f ok results s).0
Quiet-on_data id o f ok results s =
    Silent-Quiet id s _ (Silent-on_data (carried id) (λ g. refl) o f ok results s)

-- The DATA frames of the stream carry what was read for it, or the first of that where the tunnel has
-- gone away.
pub record Said (id : ℕ) (read : Bytes) (s : Session) : Type 0 where
  pub whole : s.alive ≡ true → payloads id s.written ≡ read
  pub first : IsPrefix (payloads id s.written) read

pub Quiet-Said :
    (id : ℕ) (read : Bytes) (s s' : Session) → Quiet id s s' → Said id read s → Said id read s'
Quiet-Said id read s s' q h = record {
  whole = λ e. q.unsaid ∙ h.whole (q.still e);
  first = rw q.unsaid h.first;
}

-- What a step of a pump reads for the stream.
abbrev pub read_by : ℕ → PumpStep → Bytes
read_by id (pumps_data j buf ok) = if j == id then buf else []
read_by id _ = []

send_data-Said :
    (id j : ℕ) (buf : Bytes) (ok : Bool) (read : Bytes) (s : Session)
    → Said id read s
    → Said id (read ++ (if j == id then buf else [])) (send_data j buf ok s).1
unfolding send_data send
send_data-Said id j buf ok read s h = elim (Bool-cases s.alive) [
  | inl up ↦ simp up (
      let e =
        tally_last (carried id) s.written
          (record no_frame { stream_id = j; type = data_bytes; payload = buf })
        ∙ ap (λ l. l ++ (if j == id then buf else [])) (h.whole up) in
      record { whole = λ k. e; first = IsPrefix-whole _ _ (sym e) })
  | inr down ↦ simp down (record {
    whole = λ k. absurd (cc);
    first = IsPrefix-append (payloads id s.written) read (if j == id then buf else []) h.first;
  })
]

pub pump_step-Said :
    (id : ℕ) (d : PumpStep) (read : Bytes) (s : Session)
    → Said id read s
    → Said id (read ++ read_by id d) (pump_step d s)
unfolding pump_step
pump_step-Said id (pumps_data j buf ok) read s h = send_data-Said id j buf ok read s h
pump_step-Said id (pumps_mark r) read s h =
    rw append-nil (unfold pump_mark in Quiet-Said id read s _ (Quiet-same id s _ refl refl) h)
pump_step-Said id (pumps_erase j) read s h =
    rw append-nil (unfold pump_erase in Quiet-Said id read s _ (Quiet-same id s _ refl refl) h)
pump_step-Said id (pumps_close j true ok) read s h =
    rw append-nil (unfold pump_close in Quiet-Said id read s _ (Quiet-send_close id j [] ok s) h)
pump_step-Said id (pumps_close j false ok) read s h = rw append-nil (unfold pump_close in h)

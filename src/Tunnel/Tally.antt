-- ===== src/Tunnel/Tally.antt =====
-- What the frames that an end of grpc-tunnel/src wrote say, one after another, and the operations of
-- session.cc that add nothing to it.
use zero_touch.Base.{
  Bool, Bool-cases, List, Option, [], ap, append-nil, append_assoc, false, inl, inr, none, refl,
  some, sym, true, ℕ, ◌++◌, ◌∙◌, ◌∷◌, ◌≡◌,
}
use zero_touch.Base.Bytes.{Bytes, codes}
use zero_touch.Tunnel.{Frame, FrameType, close_stream, data_bytes}
use zero_touch.Tunnel.Conformance.{
  PumpStep, pump_step, pumps_close, pumps_data, pumps_erase, pumps_mark,
}
use zero_touch.Tunnel.Net.{SendResult, write_all}
use zero_touch.Tunnel.Server.{finish_forward, on_data}
use zero_touch.Tunnel.Session.{
  Session, close_conn, close_found, close_ref, get_conn, pump_close, pump_erase, pump_mark, send,
  send_close, send_data,
}

-- What the frames say, where `says` is what one of a type says.
abbrev pub tally : {A : Type 0} → (FrameType → Frame → List A) → List Frame → List A
tally says [] = []
tally says (f ∷ fs) = says f.type f ++ tally says fs

pub tally-append :
    {A : Type 0} (says : FrameType → Frame → List A) (fs gs : List Frame)
    → tally says (fs ++ gs) ≡ tally says fs ++ tally says gs
tally-append says [] gs = refl
tally-append says (f ∷ fs) gs =
    ap (λ l. says f.type f ++ l) (tally-append says fs gs)
    ∙ sym (append_assoc (says f.type f) (tally says fs) (tally says gs))

pub tally_last :
    {A : Type 0} (says : FrameType → Frame → List A) (fs : List Frame) (f : Frame)
    → tally says (fs ++ f ∷ []) ≡ tally says fs ++ says f.type f
tally_last says fs f =
    tally-append says fs (f ∷ []) ∙ ap (λ l. tally says fs ++ l) (append-nil (says f.type f))

-- From `s` to `s'` nothing was said, no id was taken, and the tunnel did not change.
pub record Silent {A : Type 0} (says : FrameType → Frame → List A) (s s' : Session) : Type 0 where
  pub same_alive : s'.alive ≡ s.alive
  pub same_next : s'.next_id ≡ s.next_id
  pub untold : tally says s'.written ≡ tally says s.written

module _ {A : Type 0} (says : FrameType → Frame → List A) where
  Silent-trans : (s t u : Session) → Silent says s t → Silent says t u → Silent says s u
  Silent-trans s t u h k = record {
    same_alive = k.same_alive ∙ h.same_alive;
    same_next = k.same_next ∙ h.same_next;
    untold = k.untold ∙ h.untold;
  }

  pub Silent-same :
      (s s' : Session)
      → s'.alive ≡ s.alive
      → s'.next_id ≡ s.next_id
      → s'.written ≡ s.written
      → Silent says s s'
  Silent-same s s' a n w = record { same_alive = a; same_next = n; untold = ap (tally says) w }

  pub Silent-send :
      (f : Frame) (ok : Bool) (s : Session) → says f.type f ≡ [] → Silent says s (send f ok s).1
  unfolding send
  Silent-send f ok s e = elim (Bool-cases s.alive) [
    | inl up ↦ simp up (record {
      same_alive = sym up;
      same_next = refl;
      untold =
          tally_last says s.written f
          ∙ ap (λ l. tally says s.written ++ l) e
          ∙ append-nil (tally says s.written);
    })
    | inr down ↦ simp down (Silent-same s s refl refl refl)
  ]

  pub Silent-close_conn : (id : ℕ) (s : Session) → Silent says s (close_conn id s).1
  unfolding close_conn
  Silent-close_conn id s = found (get_conn id s)
    where
      found : (o : Option ℕ) → Silent says s (close_found id o s).1
      found none = unfold close_found in Silent-same s _ refl refl refl
      found (some ref) = unfold close_found close_ref in Silent-same s _ refl refl refl

  pub Silent-finish_forward :
      (id ref : ℕ) (r : Bool × Session) → Silent says r.1 (finish_forward id ref r).1
  unfolding finish_forward
  Silent-finish_forward id ref (true, s) = Silent-same s s refl refl refl
  Silent-finish_forward id ref (false, s) = Silent-close_conn id s

  -- Where a CLOSE frame says nothing.
  module _ (closes_say : (f : Frame) → says close_stream f ≡ []) where
    pub Silent-send_close :
        (id : ℕ) (error : Bytes) (ok : Bool) (s : Session)
        → Silent says s (send_close id error ok s).1
    unfolding send_close
    Silent-send_close id error ok s = Silent-send _ ok s (closes_say _)

    pub Silent-on_data :
        (o : Option ℕ) (f : Frame) (ok : Bool) (results : List SendResult) (s : Session)
        → Silent says s (on_data o f ok results s).0
    unfolding on_data
    Silent-on_data none f ok results s = Silent-send_close f.stream_id [] ok s
    Silent-on_data (some r) f ok results s = elim (Bool-cases (write_all f.payload results).0) [
      | inl done ↦ rw done (Silent-same s s refl refl refl)
      | inr partial ↦ rw partial (
          Silent-trans s (close_conn f.stream_id s).1 _ (Silent-close_conn f.stream_id s) (
            Silent-send_close f.stream_id (codes "local write failed") ok
              (close_conn f.stream_id s).1))
    ]

    Silent-pump_close :
        (id : ℕ) (ours ok : Bool) (s : Session) → Silent says s (pump_close id ours ok s)
    unfolding pump_close
    Silent-pump_close id true ok s = Silent-send_close id [] ok s
    Silent-pump_close id false ok s = Silent-same s s refl refl refl

    -- Where a DATA frame says nothing either.
    pub Silent-pump_step :
        (datas_say : (f : Frame) → says data_bytes f ≡ []) (d : PumpStep) (s : Session)
        → Silent says s (pump_step d s)
    unfolding pump_step
    Silent-pump_step datas_say (pumps_data id buf ok) s =
        unfold send_data in Silent-send _ ok s (datas_say _)
    Silent-pump_step datas_say (pumps_mark ref) s =
        unfold pump_mark in Silent-same s _ refl refl refl
    Silent-pump_step datas_say (pumps_erase id) s =
        unfold pump_erase in Silent-same s _ refl refl refl
    Silent-pump_step datas_say (pumps_close id ours ok) s = Silent-pump_close id ours ok s

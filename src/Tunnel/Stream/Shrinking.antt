-- ===== src/Tunnel/Stream/Shrinking.antt =====
-- The operations that add no connection: they leave the sockets of the connections alone, and the
-- table has no entry behind them that it did not have before.
use zero_touch.Base.{
  ==_iff, Bool, List, Option, [], arith, false, none, refl, some, true, ℕ, ◌∙◌, ◌∷◌, ◌≡◌,
}
use zero_touch.Base.Bytes.{Bytes}
use zero_touch.Base.Keys.{nat_ord, text_ord}
use zero_touch.Base.Map.{
  IsOrdered, IsOrdered-erase, erase, insert, lookup, lookup-erase, lookup-insert,
}
use zero_touch.Tunnel.{Frame}
use zero_touch.Tunnel.Conformance.{
  PumpStep, pump_step, pumps_close, pumps_data, pumps_erase, pumps_mark,
}
use zero_touch.Tunnel.Session.{
  Session, close_all, close_conn, close_found, close_ref, close_refs, conn_or, deref, get_conn,
  pump_close, pump_erase, pump_mark, send, send_close, send_data, shutdown,
}
use zero_touch.Tunnel.Session.Fresh.{no_entry}
use zero_touch.Tunnel.Session.Steps.{send-rest}

pub record Shrinks (s s' : Session) : Type 0 where
  pub ordered : IsOrdered s.conns → IsOrdered s'.conns
  pub fewer : IsOrdered s.conns → (j r : ℕ) → lookup j s'.conns ≡ some r → lookup j s.conns ≡ some r
  pub fds : (r : ℕ) → (deref r s').fd ≡ (deref r s).fd
  pub refs : s'.next_ref ≡ s.next_ref

pub Shrinks-trans : (s t u : Session) → Shrinks s t → Shrinks t u → Shrinks s u
Shrinks-trans s t u h k = record {
  ordered = λ o. k.ordered (h.ordered o);
  fewer = λ o j r e. h.fewer o j r (k.fewer (h.ordered o) j r e);
  fds = λ r. k.fds r ∙ h.fds r;
  refs = k.refs ∙ h.refs;
}

-- The same table and the same heap.
pub Shrinks-same :
    (s s' : Session)
    → s'.conns ≡ s.conns
    → s'.heap ≡ s.heap
    → s'.next_ref ≡ s.next_ref
    → Shrinks s s'
unfolding deref
Shrinks-same s s' c h n = record {
  ordered = λ o. rw c o;
  fewer = λ o j r e. rw c at e;
  fds = λ r. rw h refl;
  refs = n;
}

-- A connection is marked closed.
marked_fd :
    (ref r : ℕ) (s : Session)
    → (conn_or (lookup r (insert ref (record (deref ref s) { closed = true }) s.heap))).fd
      ≡ (deref r s).fd
unfolding deref
marked_fd ref r s =
    rw (lookup-insert ref r (record (deref ref s) { closed = true }) s.heap)
      (ground (arith, ==_iff ref r))

pub Shrinks-close_ref : (ref : ℕ) (s : Session) → Shrinks s (close_ref ref s)
unfolding close_ref
Shrinks-close_ref ref s = record {
  ordered = λ o. o;
  fewer = λ o j r e. e;
  fds = λ r. unfold deref in (let k = marked_fd ref r s in unfold deref in k);
  refs = refl;
}

pub Shrinks-pump_mark : (ref : ℕ) (s : Session) → Shrinks s (pump_mark ref s).1
unfolding pump_mark
Shrinks-pump_mark ref s = record {
  ordered = λ o. o;
  fewer = λ o j r e. e;
  fds = λ r. unfold deref in (let k = marked_fd ref r s in unfold deref in k);
  refs = refl;
}

pub Shrinks-pump_erase : (id : ℕ) (s : Session) → Shrinks s (pump_erase id s)
unfolding pump_erase
Shrinks-pump_erase id s = record {
  ordered = λ o. IsOrdered-erase id s.conns o;
  fewer = λ o j r e. ground (arith, lookup-erase id j s.conns o);
  fds = λ r. unfold deref in refl;
  refs = refl;
}

pub Shrinks-send : (f : Frame) (ok : Bool) (s : Session) → Shrinks s (send f ok s).1
Shrinks-send f ok s = let k = send-rest f ok s in Shrinks-same s _ k.2 k.0 k.1

pub Shrinks-send_close :
    (id : ℕ) (error : Bytes) (ok : Bool) (s : Session) → Shrinks s (send_close id error ok s).1
unfolding send_close
Shrinks-send_close id error ok s = Shrinks-send _ ok s

pub Shrinks-close_conn : (id : ℕ) (s : Session) → Shrinks s (close_conn id s).1
unfolding close_conn
Shrinks-close_conn id s = found (get_conn id s)
  where
    found : (o : Option ℕ) → Shrinks s (close_found id o s).1
    found none = unfold close_found in Shrinks-same s s refl refl refl
    found (some ref) =
        unfold close_found in
        Shrinks-trans s (pump_erase id s) _ (Shrinks-pump_erase id s)
          (unfold pump_erase in Shrinks-close_ref ref (record s { conns = erase id s.conns }))

close_refs-Shrinks : (taken : List (ℕ × ℕ)) (s : Session) → Shrinks s (close_refs taken s)
unfolding close_refs
close_refs-Shrinks [] s = Shrinks-same s s refl refl refl
close_refs-Shrinks ((id, ref) ∷ taken) s =
    Shrinks-trans s (close_ref ref s) _ (Shrinks-close_ref ref s)
      (close_refs-Shrinks taken (close_ref ref s))

pub Shrinks-close_all : (s : Session) → Shrinks s (close_all s)
unfolding close_all
Shrinks-close_all s =
    Shrinks-trans s (record s { conns = [] }) _ emptied
      (close_refs-Shrinks s.conns (record s { conns = [] }))
  where
    emptied : Shrinks s (record s { conns = [] })
    emptied = record {
      ordered = λ o. tt;
      fewer = λ o j r e. absurd (no_entry j r e);
      fds = λ r. unfold deref in refl;
      refs = refl;
    }

pub Shrinks-pump_step : (d : PumpStep) (s : Session) → Shrinks s (pump_step d s)
unfolding pump_step
Shrinks-pump_step (pumps_data id buf ok) s = unfold send_data in Shrinks-send _ ok s
Shrinks-pump_step (pumps_mark ref) s = Shrinks-pump_mark ref s
Shrinks-pump_step (pumps_erase id) s = Shrinks-pump_erase id s
Shrinks-pump_step (pumps_close id true ok) s = unfold pump_close in Shrinks-send_close id [] ok s
Shrinks-pump_step (pumps_close id false ok) s = unfold pump_close in Shrinks-same s s refl refl refl

pub Shrinks-shutdown : (s : Session) → Shrinks s (close_all (shutdown s))
Shrinks-shutdown s =
    Shrinks-trans s (shutdown s) _ (unfold shutdown in Shrinks-same s _ refl refl refl)
      (Shrinks-close_all (shutdown s))

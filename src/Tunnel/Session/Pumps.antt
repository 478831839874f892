-- ===== src/Tunnel/Session/Pumps.antt =====
-- The pumps of a session of grpc-tunnel/src/session.cc, and what its teardown leaves of them.
use mathlib.Core.Option.{some-injective}
use zero_touch.Base.{
  ==_iff, All, Bool-cases, List, Option, [], ap, arith, false, inl, inr, none, refl, some, subst,
  sym, true, ℕ, ◌<◌, ◌==◌, ◌∙◌, ◌∷◌, ◌≡◌, ◌⊎◌,
}
use zero_touch.Base.Keys.{nat_ord, text_ord}
use zero_touch.Base.Map.{
  IsOrdered, IsOrdered-erase, IsOrdered-insert, erase, lookup, lookup-erase, lookup-insert,
}
use zero_touch.Tunnel.Session.{
  Session, add_conn, close_all, close_conn, close_found, close_ref, close_refs, deref, get_conn,
  new_session, next_stream_id, pump_erase, pump_mark, shutdown,
}
use zero_touch.Tunnel.Session.Closing.{
  IsClosed, close_conn-IsClosed, close_refs-IsClosed, mark_self, run-IsClosed, step-IsClosed,
}
use zero_touch.Tunnel.Session.Fresh.{no_entry}
use zero_touch.Tunnel.Session.Steps.{
  Op, adds, announces, close_all-rest, close_refs-rest, closes, closes_all, erases, marks,
  pump_close-rest, run, send-rest, sends, shuts, step, takes_id,
}

-- What an operation does about a pump of the stream `e.0`, on the connection `e.1`: a stream that is
-- added has another id, and an entry of its id is erased only behind the mark of its end.
abbrev pub Allows : Session → Op → ℕ × ℕ → Type 0
Allows s (adds id fd) e = (id == e.0) ≡ false
Allows s (erases id) e = (id == e.0) ≡ true → IsClosed e.1 s
Allows s _ e = Unit

-- A pump is started on each connection that is added, but for one whose OPEN could not be sent, which
-- counts as started here.
abbrev pub begun : Session → Op → List (ℕ × ℕ) → List (ℕ × ℕ)
begun s (adds id fd) started = (id, s.next_ref) ∷ started
begun s _ started = started

-- The sessions that the operations lead to, with the pumps that were started.
pub data Reached : Session → List (ℕ × ℕ) → Type 0 where
  begins : Reached new_session []
  goes :
      (s : Session) (started : List (ℕ × ℕ)) (o : Op)
      → Reached s started
      → All (Allows s o) started
      → Reached (step s o) (begun s o started)

-- The pump's stream is in the table, or its connection is marked closed.
abbrev Watched : Session → ℕ × ℕ → Type 0
Watched s e = ((lookup e.0 s.conns ≡ some e.1) × (e.1 < s.next_ref)) ⊎ IsClosed e.1 s

-- The table gives the same connection.
same-Watched :
    (s s' : Session) (e : ℕ × ℕ)
    → lookup e.0 s'.conns ≡ lookup e.0 s.conns
    → s'.next_ref ≡ s.next_ref
    → (lookup e.0 s.conns ≡ some e.1) × (e.1 < s.next_ref)
    → Watched s' e
same-Watched s s' e k n h = inl (k ∙ h.0, omega (arith, h.1))

close_refs_first :
    (ref : ℕ) (taken : List (ℕ × ℕ)) (s : Session)
    → ref < s.next_ref
    → IsClosed ref (close_refs taken (close_ref ref s))
close_refs_first ref taken s h = (
  rw (close_refs-rest taken (close_ref ref s)).3 (unfold close_ref in h),
  close_refs-IsClosed ref taken (close_ref ref s)
      (unfold close_ref in (let k = mark_self ref s in unfold deref in k)),
)

close_refs-found :
    (id ref : ℕ) (taken : List (ℕ × ℕ)) (s : Session)
    → lookup id taken ≡ some ref
    → ref < s.next_ref
    → IsClosed ref (close_refs taken s)
unfolding lookup close_refs
close_refs-found id ref [] s e h = absurd (cc)
close_refs-found id ref ((j, r) ∷ taken) s e h = elim (Bool-cases (j == id)) [
  | inl hit ↦
      subst (λ n. IsClosed ref (close_refs taken (close_ref n s)))
        (sym (some-injective r ref (rw hit at e))) (close_refs_first ref taken s h)
  | inr miss ↦ close_refs-found id ref taken (close_ref r s) (rw miss at e) (unfold close_ref in h)
]

closes-Watched :
    (id : ℕ) (s : Session) (e : ℕ × ℕ)
    → IsOrdered s.conns
    → (lookup e.0 s.conns ≡ some e.1) × (e.1 < s.next_ref)
    → Watched (close_conn id s).1 e
closes-Watched id s e ordered h = elim (Bool-cases (id == e.0)) [
  | inl hit ↦ inr (
      subst (λ j. IsClosed e.1 (close_conn j s).1) (sym ((==_iff id e.0).0 hit))
        (close_conn-IsClosed e.0 e.1 s (unfold get_conn in h.0) h.1))
  | inr miss ↦ unfold close_conn in others miss (get_conn id s)
]
  where
    others : (id == e.0) ≡ false → (o : Option ℕ) → Watched (close_found id o s).1 e
    others miss none = unfold close_found in inl h
    others miss (some r) =
        unfold close_found close_ref in
        same-Watched s (close_ref r (record s { conns = erase id s.conns })) e
          (lookup-erase id e.0 s.conns ordered ∙ rw miss refl) refl h

table-Watched :
    (s : Session) (o : Op) (e : ℕ × ℕ)
    → IsOrdered s.conns
    → Allows s o e
    → (lookup e.0 s.conns ≡ some e.1) × (e.1 < s.next_ref)
    → Watched (step s o) e
unfolding step
table-Watched s (sends f ok) e ordered a h =
    let k = send-rest f ok s in same-Watched s _ e (ap (lookup e.0) k.2) k.1 h
table-Watched s shuts e ordered a h = unfold shutdown in inl h
table-Watched s takes_id e ordered a h = unfold next_stream_id in inl h
table-Watched s (adds id fd) e ordered a h =
    unfold add_conn in inl (lookup-insert id e.0 s.next_ref s.conns ∙ rw a h.0, omega (arith, h.1))
table-Watched s (closes id) e ordered a h = closes-Watched id s e ordered h
table-Watched s closes_all e ordered a h =
    unfold close_all in inr (close_refs-found e.0 e.1 s.conns (record s { conns = [] }) h.0 h.1)
table-Watched s (marks ref) e ordered a h = unfold pump_mark in inl h
table-Watched s (erases id) e ordered a h = elim (Bool-cases (id == e.0)) [
  | inl hit ↦ inr (step-IsClosed e.1 s (erases id) (a hit))
  | inr miss ↦
      unfold pump_erase in
      same-Watched s (pump_erase id s) e (lookup-erase id e.0 s.conns ordered ∙ rw miss refl) refl h
]
table-Watched s (announces id ours ok) e ordered a h =
    let k = pump_close-rest id ours ok s in same-Watched s _ e (ap (lookup e.0) k.2) k.1 h

step-Watched :
    (s : Session) (o : Op) (e : ℕ × ℕ)
    → IsOrdered s.conns
    → Allows s o e
    → Watched s e
    → Watched (step s o) e
step-Watched s o e ordered a (inl h) = table-Watched s o e ordered a h
step-Watched s o e ordered a (inr h) = inr (step-IsClosed e.1 s o h)

steps-Watched :
    (s : Session) (o : Op) (started : List (ℕ × ℕ))
    → IsOrdered s.conns
    → All (Allows s o) started
    → All (Watched s) started
    → All (Watched (step s o)) started
steps-Watched s o [] ordered a h = tt
steps-Watched s o (e ∷ started) ordered a h =
    (step-Watched s o e ordered a.0 h.0, steps-Watched s o started ordered a.1 h.1)

closes-IsOrdered :
    (id : ℕ) (o : Option ℕ) (s : Session)
    → IsOrdered s.conns
    → IsOrdered (close_found id o s).1.conns
unfolding close_found close_ref
closes-IsOrdered id none s h = h
closes-IsOrdered id (some r) s h = IsOrdered-erase id s.conns h

step-IsOrdered : (s : Session) (o : Op) → IsOrdered s.conns → IsOrdered (step s o).conns
unfolding step
step-IsOrdered s (sends f ok) h = rw (send-rest f ok s).2 h
step-IsOrdered s shuts h = unfold shutdown in h
step-IsOrdered s takes_id h = unfold next_stream_id in h
step-IsOrdered s (adds id fd) h = unfold add_conn in IsOrdered-insert id s.next_ref s.conns h
step-IsOrdered s (closes id) h = unfold close_conn in closes-IsOrdered id (get_conn id s) s h
step-IsOrdered s closes_all h = rw (close_all-rest s).3 tt
step-IsOrdered s (marks ref) h = unfold pump_mark in h
step-IsOrdered s (erases id) h = unfold pump_erase in IsOrdered-erase id s.conns h
step-IsOrdered s (announces id ours ok) h = rw (pump_close-rest id ours ok s).2 h

begun-Watched :
    (s : Session) (o : Op) (started : List (ℕ × ℕ))
    → All (Watched (step s o)) started
    → All (Watched (step s o)) (begun s o started)
unfolding step
begun-Watched s (adds id fd) started h = (
  unfold add_conn in
      inl (lookup-insert id id s.next_ref s.conns ∙ rw ((==_iff id id).1 refl) refl, omega arith),
  h,
)
begun-Watched s (sends f ok) started h = h
begun-Watched s shuts started h = h
begun-Watched s takes_id started h = h
begun-Watched s (closes id) started h = h
begun-Watched s closes_all started h = h
begun-Watched s (marks ref) started h = h
begun-Watched s (erases id) started h = h
begun-Watched s (announces id ours ok) started h = h

-- A session that is reached watches its pumps.
record Watches (s : Session) (started : List (ℕ × ℕ)) : Type 0 where
  ordered : IsOrdered s.conns
  each : All (Watched s) started

Reached-Watches : (s : Session) (started : List (ℕ × ℕ)) → Reached s started → Watches s started
Reached-Watches _ _ begins = record { ordered = tt; each = tt }
Reached-Watches _ _ (goes s started o before allowed) =
    let w = Reached-Watches s started before in
    record {
      ordered = step-IsOrdered s o w.ordered;
      each = begun-Watched s o started (steps-Watched s o started w.ordered allowed w.each);
    }

harmless : (started : List (ℕ × ℕ)) → All {0, 0} (λ e. Unit) started
harmless [] = tt
harmless (e ∷ started) = (tt, harmless started)

torn_down :
    (s : Session) (os : List Op) (started : List (ℕ × ℕ))
    → s.conns ≡ []
    → All (Watched s) started
    → All (λ e. IsClosed e.1 (run s os)) started
torn_down s os [] empty h = tt
torn_down s os (e ∷ started) empty h = (ended h.0, torn_down s os started empty h.1)
  where
    ended : Watched s e → IsClosed e.1 (run s os)
    ended (inl k) = absurd (no_entry e.0 e.1 (rw empty at k.0))
    ended (inr k) = run-IsClosed e.1 s os k

-- A teardown leaves no pump reading: after `Shutdown` and `CloseAll`, and whatever the threads still
-- do, the connection of every pump that was started is marked closed, by the teardown, by
-- a `CloseConn` before it, or by the end of the pump. This holds after any interleaving of the
-- operations of a session in which a stream is added under an id that no other one had, and a pump
-- erases its entry behind its mark.
pub teardown_ends_pumps :
    (s : Session) (started : List (ℕ × ℕ)) (os : List Op)
    → Reached s started
    → All (λ e. IsClosed e.1 (run (close_all (shutdown s)) os)) started
unfolding step
teardown_ends_pumps s started os reached =
    let w = Reached-Watches s started reached in
    let shut_down = steps-Watched s shuts started w.ordered (harmless started) w.each in
    torn_down (close_all (shutdown s)) os started ((close_all-rest (shutdown s)).3) (
      steps-Watched (shutdown s) closes_all started (step-IsOrdered s shuts w.ordered)
        (harmless started) shut_down)

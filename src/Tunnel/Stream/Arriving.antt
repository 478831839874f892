-- ===== src/Tunnel/Stream/Arriving.antt =====
-- A DATA frame at either end, `case Frame::DATA` of `Register` and of `RunTunnel`, and the socket of
-- one stream.
use zero_touch.Base.{
  ==_iff, Bool, Bool-cases, List, Option, Option-cases, [], ap, append-nil, append_assoc, ap₂,
  arith, false, if◌then◌else◌, inl, inr, is_empty, none, refl, some, subst, sym, true, ℕ, ◌++◌,
  ◌==◌, ◌∙◌, ◌∷◌, ◌≡◌, ◌≢◌,
}
use zero_touch.Base.Bytes.{Bytes, codes}
use zero_touch.Base.Keys.{nat_ord, text_ord}
use zero_touch.Base.Map.{IsOrdered, lookup, lookup-erase}
use zero_touch.Tunnel.{Frame, data_bytes}
use zero_touch.Tunnel.Net.{SendResult, write_all}
use zero_touch.Tunnel.Net.Writing.{Wrote, write_all-Wrote}
use zero_touch.Tunnel.Server.{on_data}
use zero_touch.Tunnel.Session.{
  Session, close_conn, close_found, close_ref, deref, get_conn, send_close,
}
use zero_touch.Tunnel.Session.Steps.{send-rest}
use zero_touch.Tunnel.Stream.{IsPrefix, bytes_to, bytes_to-append, carried}
use zero_touch.Tunnel.Stream.Carrying.{Carries, Unused, shrink-Carries, shrink-Unused}
use zero_touch.Tunnel.Stream.Shrinking.{
  Shrinks, Shrinks-close_conn, Shrinks-send_close, Shrinks-trans, Shrinks-same,
}

on_data-Shrinks :
    (o : Option ℕ) (f : Frame) (ok : Bool) (results : List SendResult) (s : Session)
    → Shrinks s (on_data o f ok results s).0
unfolding on_data
on_data-Shrinks none f ok results s = Shrinks-send_close f.stream_id [] ok s
on_data-Shrinks (some r) f ok results s = elim (Bool-cases (write_all f.payload results).0) [
  | inl done ↦ rw done (Shrinks-same s s refl refl refl)
  | inr partial ↦ rw partial (
      Shrinks-trans s (close_conn f.stream_id s).1 _ (Shrinks-close_conn f.stream_id s) (
        Shrinks-send_close f.stream_id (codes "local write failed") ok
          (close_conn f.stream_id s).1))
]

-- Where the socket is another one, or there is none, nothing is given to this one.
on_data-elsewhere :
    (fd : ℕ) (o : Option ℕ) (f : Frame) (ok : Bool) (results : List SendResult) (s : Session)
    (out : List (ℕ × Bytes))
    → ((r : ℕ) → o ≡ some r → (deref r s).fd ≢ fd)
    → bytes_to fd (out ++ (on_data o f ok results s).1) ≡ bytes_to fd out
unfolding on_data
on_data-elsewhere fd none f ok results s out other = ap (bytes_to fd) (append-nil out)
on_data-elsewhere fd (some r) f ok results s out other =
    bytes_to-append fd out (((deref r s).fd, (write_all f.payload results).1) ∷ [])
    ∙ ap (λ b. bytes_to fd out ++ ((if b then (write_all f.payload results).1 else []) ++ []))
        missed
    ∙ append-nil (bytes_to fd out)
  where
    missed : ((deref r s).fd == fd) ≡ false
    missed = ground (arith, ==_iff (deref r s).fd fd, other r refl)

pub on_data-Unused :
    (fd : ℕ) (f : Frame) (ok : Bool) (results : List SendResult) (s : Session)
    (out : List (ℕ × Bytes))
    → Unused fd s out
    → let (s', more) = on_data (get_conn f.stream_id s) f ok results s in Unused fd s' (out ++ more)
on_data-Unused fd f ok results s out u =
    let o = get_conn f.stream_id s in
    shrink-Unused fd s _ out _ (on_data-Shrinks o f ok results s)
      (on_data-elsewhere fd o f ok results s out (λ r e. u.nobody r)) u

-- The bytes that the socket takes of a frame come behind those that it was given.
given :
    (fd : ℕ) (f : Frame) (ok : Bool) (results : List SendResult) (s : Session) (r : ℕ)
    (out : List (ℕ × Bytes))
    → (deref r s).fd ≡ fd
    → bytes_to fd (out ++ (on_data (some r) f ok results s).1)
      ≡ bytes_to fd out ++ (write_all f.payload results).1
unfolding on_data
given fd f ok results s r out e =
    bytes_to-append fd out (((deref r s).fd, (write_all f.payload results).1) ∷ [])
    ∙ ap (λ b. bytes_to fd out ++ ((if b then (write_all f.payload results).1 else []) ++ [])) hit
    ∙ ap (λ l. bytes_to fd out ++ l) (append-nil (write_all f.payload results).1)
  where
    hit : ((deref r s).fd == fd) ≡ true
    hit = (==_iff (deref r s).fd fd).1 e

-- A stream that was closed is not in the table.
closed_gone :
    (id r : ℕ) (s : Session)
    → IsOrdered s.conns
    → get_conn id s ≡ some r
    → get_conn id (close_conn id s).1 ≡ none
unfolding get_conn close_conn close_found close_ref
closed_gone id r s o e = rw (e, lookup-erase id id s.conns o) (ground (arith, ==_iff id id))

-- So is one whose write failed.
failed_gone :
    (r : ℕ) (f : Frame) (ok : Bool) (results : List SendResult) (s : Session)
    → IsOrdered s.conns
    → get_conn f.stream_id s ≡ some r
    → (write_all f.payload results).0 ≡ false
    → get_conn f.stream_id (on_data (some r) f ok results s).0 ≡ none
unfolding on_data send_close
failed_gone r f ok results s o e partial = rw partial (
    unfold get_conn in
    ap (lookup f.stream_id) (send-rest _ ok (close_conn f.stream_id s).1).2
    ∙ (let k = closed_gone f.stream_id r s o e in unfold get_conn in k))

Wrote-IsPrefix :
    (given_before arrived buf out : Bytes) (ok : Bool)
    → given_before ≡ arrived
    → Wrote buf ok out
    → IsPrefix (given_before ++ out) (arrived ++ buf)
Wrote-IsPrefix given_before arrived buf out ok e w = record {
  behind = w.unsent;
  split =
      ap₂ (λ (a b : Bytes). a ++ b) (sym e) w.in_order
      ∙ sym (append_assoc given_before out w.unsent);
}

nothing_left : (xs : Bytes) → is_empty xs ≡ true → xs ≡ []
nothing_left [] h = refl
nothing_left (x ∷ xs) h = cc

Wrote-whole : (buf out : Bytes) (ok : Bool) → ok ≡ true → Wrote buf ok out → out ≡ buf
Wrote-whole buf out ok done w = sym (
    w.in_order
    ∙ ap (λ l. out ++ l) (nothing_left w.unsent (sym w.complete ∙ done))
    ∙ append-nil out)

-- The frame is one of the stream, and the stream is in the table.
ours-Carries :
    (id ref fd : ℕ) (arrived : Bytes) (f : Frame) (ok : Bool) (results : List SendResult)
    (s : Session) (out : List (ℕ × Bytes))
    → f.stream_id ≡ id
    → get_conn id s ≡ some ref
    → Carries id ref fd arrived s out
    → let (s', more) = on_data (some ref) f ok results s in
      Carries id ref fd (arrived ++ f.payload) s' (out ++ more)
ours-Carries id ref fd arrived f ok results s out same found c =
    let after = on_data (some ref) f ok results s in
    let k = on_data-Shrinks (some ref) f ok results s in
    let w = write_all-Wrote f.payload results in
    let all_out = given fd f ok results s ref out c.held in
    record {
      ordered = k.ordered c.ordered;
      later = rw k.refs c.later;
      sole = λ j h. c.sole j (k.fewer c.ordered j ref h);
      owner = λ r h. c.owner r (sym (k.fds r) ∙ h);
      held = k.fds ref ∙ c.held;
      first = rw all_out (
          Wrote-IsPrefix (bytes_to fd out) arrived f.payload (write_all f.payload results).1
            (write_all f.payload results).0 (c.exact found) w);
      exact = λ h.
          all_out
          ∙ ap₂ (λ (a b : Bytes). a ++ b) (c.exact found)
              (Wrote-whole f.payload (write_all f.payload results).1 (write_all f.payload results).0
                (wrote_all h) w);
    }
  where
    gone :
        (write_all f.payload results).0 ≡ false
        → get_conn id (on_data (some ref) f ok results s).0 ≡ none
    gone partial =
        subst (λ j. get_conn j (on_data (some ref) f ok results s).0 ≡ none) same
          (failed_gone ref f ok results s c.ordered
            (subst (λ j. get_conn j s ≡ some ref) (sym same) found) partial)

    wrote_all :
        get_conn id (on_data (some ref) f ok results s).0 ≡ some ref
        → (write_all f.payload results).0 ≡ true
    wrote_all h = elim (Bool-cases (write_all f.payload results).0) [
      | inl done ↦ done
      | inr partial ↦ absurd (ground (arith, gone partial))
    ]

pub on_data-Carries :
    (id ref fd : ℕ) (arrived : Bytes) (f : Frame) (ok : Bool) (results : List SendResult)
    (s : Session) (out : List (ℕ × Bytes))
    → Carries id ref fd arrived s out
    → let (s', more) = on_data (get_conn f.stream_id s) f ok results s in
      Carries id ref fd (arrived ++ carried id data_bytes f) s' (out ++ more)
on_data-Carries id ref fd arrived f ok results s out c =
    elim (Option-cases (get_conn f.stream_id s)) [
      | inl missing ↦ passed (λ r e. ground arith) (λ h. ground (arith, ==_iff f.stream_id id))
      | inr (r, found) ↦ elim (Bool-cases (r == ref)) [
        | inl mine ↦ reached (found ∙ ap some ((==_iff r ref).0 mine))
        | inr other ↦
            passed (λ q e. ground (arith, c.owner q, ==_iff r ref))
              (λ h. ground (arith, ==_iff f.stream_id id, ==_iff r ref))
      ]
    ]
  where
    o : Option ℕ
    o = get_conn f.stream_id s

    -- The frame does not reach the socket.
    passed :
        ((r : ℕ) → o ≡ some r → (deref r s).fd ≢ fd)
        → (get_conn id s ≡ some ref → carried id data_bytes f ≡ [])
        → let (s', more) = on_data o f ok results s in
          Carries id ref fd (arrived ++ carried id data_bytes f) s' (out ++ more)
    passed misses lost =
        shrink-Carries id ref fd arrived (carried id data_bytes f) s _ out _
          (on_data-Shrinks o f ok results s) (on_data-elsewhere fd o f ok results s out misses) lost
          c

    reached :
        o ≡ some ref
        → let (s', more) = on_data o f ok results s in
          Carries id ref fd (arrived ++ carried id data_bytes f) s' (out ++ more)
    reached found =
        let same = c.sole f.stream_id (let k = found in unfold get_conn in k) in
        rw (found, (==_iff f.stream_id id).1 same)
          (ours-Carries id ref fd arrived f ok results s out same
            (subst (λ j. get_conn j s ≡ some ref) same found) c)

-- ===== src/Tunnel/Net/Writing.antt =====
-- What `WriteAll` of grpc-tunnel/src/net.cc puts on the socket.
use zero_touch.Base.{
  Bool, List, [], ap, append_assoc, arith, drop, is_empty, length, refl, suc, sym, take,
  take-append-drop, true, zero, ℕ, ◌++◌, ◌+◌, ◌-◌, ◌∙◌, ◌∷◌, ◌≡◌, ◌≤◌,
}
use zero_touch.Base.Bytes.{Bytes}
use zero_touch.Tunnel.Net.{SendResult, retry, sent, write_all}

-- The bytes taken are a prefix of the buffer, and `ok` says that they are all of it.
pub record Wrote (buf : Bytes) (ok : Bool) (out : Bytes) : Type 0 where
  pub unsent : Bytes
  pub in_order : buf ≡ out ++ unsent
  pub complete : ok ≡ is_empty unsent

Wrote-more :
    (c : ℕ) (n : ℕ) (s out : Bytes) {ok : Bool}
    → Wrote (drop n s) ok out
    → Wrote (c ∷ s) ok (c ∷ take n s ++ out)
Wrote-more c n s out w = record {
  unsent = w.unsent;
  in_order = ap (◌∷◌ c) (
      sym (take-append-drop n s)
      ∙ ap (◌++◌ (take n s)) w.in_order
      ∙ sym (append_assoc (take n s) out w.unsent));
  complete = w.complete;
}

-- The socket takes a prefix of the buffer, in order; all of it exactly when `WriteAll` returns true.
pub write_all-Wrote :
    (buf : Bytes) (results : List SendResult)
    → let (ok, out) = write_all buf results in Wrote buf ok out
unfolding write_all
write_all-Wrote [] results = record { unsent = []; in_order = refl; complete = refl }
write_all-Wrote (c ∷ s) [] = record { unsent = c ∷ s; in_order = refl; complete = refl }
write_all-Wrote (c ∷ s) (retry ∷ results) = write_all-Wrote (c ∷ s) results
write_all-Wrote (c ∷ s) (sent zero ∷ results) = record {
  unsent = c ∷ s;
  in_order = refl;
  complete = refl;
}
write_all-Wrote (c ∷ s) (sent (suc n) ∷ results) =
    Wrote-more c n s (write_all (drop n s) results).1 (write_all-Wrote (drop n s) results)

-- The bytes that the results stand for before the first that takes none.
abbrev pub taken_by : List SendResult → ℕ
taken_by [] = 0
taken_by (retry ∷ results) = taken_by results
taken_by (sent zero ∷ results) = 0
taken_by (sent (suc n) ∷ results) = suc n + taken_by results

length-drop : (n : ℕ) (xs : Bytes) → length (drop n xs) ≡ length xs - n
length-drop zero xs = omega arith
length-drop (suc n) [] = omega arith
length-drop (suc n) (x ∷ xs) = omega (arith, length-drop n xs)

-- Short writes do no harm: if the socket takes as many bytes as the buffer holds before an error,
-- in pieces of any size, `WriteAll` returns true.
pub write_all_enough :
    (buf : Bytes) (results : List SendResult)
    → length buf ≤ taken_by results
    → (write_all buf results).0 ≡ true
unfolding write_all
write_all_enough [] results h = refl
write_all_enough (c ∷ s) [] h = absurd (omega arith)
write_all_enough (c ∷ s) (retry ∷ results) h = write_all_enough (c ∷ s) results h
write_all_enough (c ∷ s) (sent zero ∷ results) h = absurd (omega arith)
write_all_enough (c ∷ s) (sent (suc n) ∷ results) h =
    write_all_enough (drop n s) results (omega (arith, length-drop n s))

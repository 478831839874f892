-- ===== src/DsTransport/Delivery.antt =====
-- Which messages src/ds_sms_transport.cpp hands on, over any sequence of steps of the listener thread
-- and the reactor thread.
use zero_touch.Base.{
  Bool-cases, List, Option, [], arith, false, inl, inr, is_empty, none, refl, some, sym, true, ◌++◌,
  ◌||◌, ◌↔◌, ◌∙◌, ◌∷◌, ◌≡◌, ◌≢◌,
}
use zero_touch.Base.Bytes.{equals_iff}
use zero_touch.DsTransport.{
  DsTransport, GetResult, drain, handle_exception, new_transport, on_version, read_last, same_sms,
  start,
}
use zero_touch.Sms.{InboundSms}

-- What happens from outside, each as one step. The modem daemon writes a message and bumps the
-- version, of which the listener is told; the reactor wakes up and takes the flag and the message;
-- or it wakes up and the store does not answer.
pub data Event : Type 0 where
  arrive : InboundSms → Event
  wake : Event
  wake_failed : Event

-- The store's keys, the transport, and what was handed on, oldest first.
pub record System : Type 0 where
  pub last : InboundSms
  pub transport : DsTransport
  pub delivered : List InboundSms

abbrev pub answer : InboundSms → GetResult
answer m = some (some m.sender ∷ some m.text ∷ some m.ts ∷ [])

abbrev pub hand_on : List InboundSms → Option InboundSms → List InboundSms
hand_on out none = out
hand_on out (some m) = out ++ m ∷ []

abbrev pub woken : GetResult → System → System
woken got s =
    let (t, m) = handle_exception got s.transport in
    record s { transport = t; delivered = hand_on s.delivered m }

unfoldable pub step : System → Event → System
unfolding on_version
step s (arrive m) = record s { last = m; transport = on_version s.transport }
step s wake = woken (answer s.last) s
step s wake_failed = woken none s

unfoldable pub run : System → List Event → System
unfolding step
run s [] = s
run s (e ∷ es) = run (step s e) es

-- The system once `start` has been called over a store that holds `m`.
abbrev pub started : InboundSms → System
started m = record { last = m; transport = start (answer m) new_transport; delivered = [] }

pub same_sms_iff : (a b : InboundSms) → (same_sms a b ≡ true) ↔ (a ≡ b)
unfolding same_sms
same_sms_iff a b =
    ground (arith, equals_iff a.sender b.sender, equals_iff a.text b.text, equals_iff a.ts b.ts)

-- A message that can be handed on.
abbrev pub IsComplete : InboundSms → Type 0
IsComplete m = (m.sender ≢ []) × (m.text ≢ [])

-- From a message `m`, each message of the list is complete and differs from the one before it.
abbrev pub Fresh : InboundSms → List InboundSms → Type 0
Fresh m [] = Unit
Fresh m (x ∷ xs) = IsComplete x × (x ≢ m) × Fresh x xs

abbrev pub last_of : InboundSms → List InboundSms → InboundSms
last_of m [] = m
last_of m (x ∷ xs) = last_of x xs

Fresh-concat :
    (m x : InboundSms) (xs : List InboundSms)
    → Fresh m xs
    → IsComplete x
    → x ≢ last_of m xs
    → Fresh m (xs ++ x ∷ [])
Fresh-concat m x [] f c n = (c, n, tt)
Fresh-concat m x (y ∷ ys) f c n = (f.0, f.1, Fresh-concat y x ys f.2 c n)

last_of-concat : (m x : InboundSms) (xs : List InboundSms) → last_of m (xs ++ x ∷ []) ≡ x
last_of-concat m x [] = refl
last_of-concat m x (y ∷ ys) = last_of-concat y x ys

-- What was handed on since the baseline is fresh, and the last of it is what was last seen.
record Inv (m : InboundSms) (s : System) : Type 0 where
  fresh : Fresh m s.delivered
  seen_last : s.transport.seen ≡ last_of m s.delivered

drain-Inv :
    (m : InboundSms) (o : Option InboundSms) (s : System) (t : DsTransport)
    → t.seen ≡ s.transport.seen
    → Inv m s
    → let (t', d) = drain o t in
      Inv m (record s { transport = t'; delivered = hand_on s.delivered d })
unfolding drain
drain-Inv m none s t e v = record { fresh = v.fresh; seen_last = e ∙ v.seen_last }
drain-Inv m (some x) s t e v = elim (Bool-cases (is_empty x.sender || is_empty x.text)) [
  | inl short ↦ rw short (record { fresh = v.fresh; seen_last = e ∙ v.seen_last })
  | inr full ↦ elim (Bool-cases (same_sms x t.seen)) [
    | inl same ↦ rw (full, same) (record { fresh = v.fresh; seen_last = e ∙ v.seen_last })
    | inr new ↦
        rw (full, new)
          (record {
            fresh =
                Fresh-concat m x s.delivered v.fresh (ground arith, ground arith)
                  (λ q. ground (arith, (same_sms_iff x t.seen).1 (q ∙ sym (e ∙ v.seen_last))));
            seen_last = sym (last_of-concat m x s.delivered);
          })
  ]
]

woken-Inv : (m : InboundSms) (got : GetResult) (s : System) → Inv m s → Inv m (woken got s)
unfolding handle_exception
woken-Inv m got s v = elim (Bool-cases s.transport.sms_dirty) [
  | inl dirty ↦
      rw dirty (drain-Inv m (read_last got) s (record s.transport { sms_dirty = false }) refl v)
  | inr idle ↦ rw idle (record { fresh = v.fresh; seen_last = v.seen_last })
]

step-Inv : (m : InboundSms) (s : System) (e : Event) → Inv m s → Inv m (step s e)
unfolding step
step-Inv m s (arrive x) v = record { fresh = v.fresh; seen_last = v.seen_last }
step-Inv m s wake v = woken-Inv m (answer s.last) s v
step-Inv m s wake_failed v = woken-Inv m none s v

run-Inv : (m : InboundSms) (s : System) (es : List Event) → Inv m s → Inv m (run s es)
unfolding run
run-Inv m s [] v = v
run-Inv m s (e ∷ es) v = run-Inv m (step s e) es (step-Inv m s e v)

-- Over any sequence of arrivals and wake-ups, each of them one step, the first message that is handed
-- on after `start` is not the one that the store held at the start, no message is handed on twice in
-- a row, and each has a sender and a text.
pub run-Fresh : (m : InboundSms) (es : List Event) → Fresh m (run (started m) es).delivered
run-Fresh m es =
    (run-Inv m (started m) es (record { fresh = tt; seen_last = unfold start in refl })).fresh

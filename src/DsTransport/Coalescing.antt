-- ===== src/DsTransport/Coalescing.antt =====
-- Which messages src/ds_sms_transport.cpp hands on, by how often the reactor wakes.
use zero_touch.Base.{
  Bool-cases, List, [], append-nil, append_assoc, arith, if◌then◌else◌, inl, inr, is_empty, refl,
  sym, ◌++◌, ◌||◌, ◌∙◌, ◌∷◌, ◌≡◌, ◌≢◌,
}
use zero_touch.DsTransport.{
  drain, drain_inbound, handle_exception, on_version, read_last, same_sms, start,
}
use zero_touch.DsTransport.Delivery.{
  Event, IsComplete, System, arrive, last_of, run, same_sms_iff, started, step, wake,
}
use zero_touch.Sms.{InboundSms}

-- Each message is followed by a wake-up.
abbrev pub paced : List InboundSms → List Event
paced [] = []
paced (x ∷ xs) = arrive x ∷ wake ∷ paced xs

-- The messages that are complete and differ from the one seen before.
abbrev pub novel : InboundSms → List InboundSms → List InboundSms
novel m [] = []
novel m (x ∷ xs) =
    if is_empty x.sender || is_empty x.text
    then novel m xs
    else if same_sms x m
    then novel m xs
    else x ∷ novel x xs

handled : InboundSms → System → System
handled x s = step (step s (arrive x)) wake

handled_lem :
    (x : InboundSms) (s : System) (xs : List InboundSms)
    → (handled x s).delivered ++ novel (handled x s).transport.seen xs
      ≡ s.delivered ++ novel s.transport.seen (x ∷ xs)
unfolding handled step handle_exception on_version drain_inbound read_last drain
handled_lem x s xs = elim (Bool-cases (is_empty x.sender || is_empty x.text)) [
  | inl short ↦ rw short
  | inr full ↦ elim (Bool-cases (same_sms x s.transport.seen)) [
    | inl same ↦ rw (full, same)
    | inr new ↦ rw (full, new) (append_assoc s.delivered (x ∷ []) (novel x xs))
  ]
]

run-paced_from :
    (xs : List InboundSms) (s : System)
    → (run s (paced xs)).delivered ≡ s.delivered ++ novel s.transport.seen xs
unfolding run handled
run-paced_from [] s = sym (append-nil s.delivered)
run-paced_from (x ∷ xs) s = run-paced_from xs (handled x s) ∙ handled_lem x s xs

-- Where the reactor wakes after each message, every complete message that differs from the one
-- before it is handed on, in order, and nothing else.
pub run-paced :
    (m : InboundSms) (xs : List InboundSms) → (run (started m) (paced xs)).delivered ≡ novel m xs
run-paced m xs = unfold start in run-paced_from xs (started m)

-- What arrives before the reactor wakes.
abbrev pub burst : List InboundSms → List Event
burst [] = wake ∷ []
burst (x ∷ xs) = arrive x ∷ burst xs

run-burst_from :
    (x : InboundSms) (xs : List InboundSms) (s : System)
    → (run s (burst (x ∷ xs))).delivered ≡ s.delivered ++ novel s.transport.seen (last_of x xs ∷ [])
unfolding run handled step on_version
run-burst_from x [] s = sym (append-nil (handled x s).delivered) ∙ handled_lem x s []
run-burst_from x (y ∷ ys) s = run-burst_from y ys (step s (arrive x))

run-burst-started :
    (m x : InboundSms) (xs : List InboundSms)
    → (run (started m) (burst (x ∷ xs))).delivered ≡ novel m (last_of x xs ∷ [])
run-burst-started m x xs = unfold start in run-burst_from x xs (started m)

novel_complete : (m x : InboundSms) → IsComplete x → x ≢ m → novel m (x ∷ []) ≡ x ∷ []
novel_complete m x full n = elim (Bool-cases (is_empty x.sender || is_empty x.text)) [
  | inl short ↦ absurd (ground (arith, full.0, full.1))
  | inr long ↦ elim (Bool-cases (same_sms x m)) [
    | inl same ↦ absurd (n ((same_sms_iff x m).0 same))
    | inr new ↦ rw (long, new) refl
  ]
]

-- Of several messages that arrive before the reactor wakes, the last one alone is handed on and the
-- others are lost, where the last one has a sender and a text and is not the message that the store
-- held at the start: it differs from that in its sender, its text or its time.
pub run-burst :
    (m x : InboundSms) (xs : List InboundSms)
    → IsComplete (last_of x xs)
    → last_of x xs ≢ m
    → (run (started m) (burst (x ∷ xs))).delivered ≡ last_of x xs ∷ []
run-burst m x xs full n = run-burst-started m x xs ∙ novel_complete m (last_of x xs) full n

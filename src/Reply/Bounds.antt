-- ===== src/Reply/Bounds.antt =====
-- `clamp_sms` of src/gnmi_reply.cpp: one SMS, and as much of the text as fits.
use zero_touch.Base.{
  Bool-cases, arith, inl, inr, leb, length, length-append, length-take, refl, take, true, ℕ, ◌++◌,
  ◌-◌, ◌<◌, ◌≡◌, ◌≤◌, ◌⊎◌,
}
use zero_touch.Base.Bytes.{Bytes, codes}
use zero_touch.Base.Num.{to_string}
use zero_touch.Reply.{
  GnmiResult, clamp_sms, clamp_to, failure_text, format_get, format_rows, format_set, max_reply,
}

-- What is cut: the front of the text, with an ellipsis behind it unless the limit is too small for
-- one.
abbrev pub Cut : Bytes → ℕ → Bytes → Type 0
Cut s limit r =
    ((limit ≤ 3) × (r ≡ take limit s)) ⊎ ((3 < limit) × (r ≡ take (limit - 3) s ++ codes "..."))

abbrev pub Clamped : Bytes → ℕ → Bytes → Type 0
Clamped s limit r =
    ((length s ≤ limit) × (r ≡ s)) ⊎ ((limit < length s) × (length r ≡ limit) × Cut s limit r)

-- A text within the limit is left alone. A longer one is cut to a text that fills the limit
-- exactly: its front, with an ellipsis behind it where the limit is above three.
pub clamp_to-Clamped : (s : Bytes) (limit : ℕ) → Clamped s limit (clamp_to s limit)
unfolding clamp_to
clamp_to-Clamped s limit = elim (Bool-cases (leb (length s) limit)) [
  | inl short ↦ rw short (inl (ground arith, refl))
  | inr long ↦ elim (Bool-cases (leb limit 3)) [
    | inl tiny ↦
        rw (long, tiny)
          (inr (ground arith, ground (arith, length-take limit s), inl (ground arith, refl)))
    | inr roomy ↦
        rw (long, roomy)
          (inr (
            ground arith,
            ground (
              arith,
              length-take (limit - 3) s,
              length-append (take (limit - 3) s) (codes "..."),
            ),
            inr (ground arith, refl),
          ))
  ]
]

fits : (s : Bytes) (limit : ℕ) (r : Bytes) → Clamped s limit r → length r ≤ limit
fits s limit r (inl h) = rw h.1 h.0
fits s limit r (inr h) = omega (arith, h.1)

pub length-clamp_sms : (s : Bytes) → length (clamp_sms s) ≤ max_reply
unfolding clamp_sms
length-clamp_sms s = fits s max_reply (clamp_to s max_reply) (clamp_to-Clamped s max_reply)

pub length-format_get : (r : GnmiResult) → length (format_get r) ≤ max_reply
unfolding format_get
length-format_get r = ground (
  arith,
  length-clamp_sms (codes "ERR GNMI GET " ++ failure_text r),
  length-clamp_sms (format_rows true (codes "OK GNMI GET ") r.paths),
)

pub length-format_set : (r : GnmiResult) (n : ℕ) → length (format_set r n) ≤ max_reply
unfolding format_set
length-format_set r n = ground (
  arith,
  length-clamp_sms (codes "ERR GNMI SET " ++ failure_text r),
  length-clamp_sms (codes "OK GNMI SET " ++ to_string n ++ codes " path(s) updated"),
)

-- ===== src/Sms.antt =====
-- inc/zerotouch/sms_transport.hpp and src/sms_util.cpp: a message, and who can be replied to.
use zero_touch.Base.{
  Bool, Bool-cases, Option, [], all, ap, arith, false, if◌then◌else◌, inl, inr, leb, none, not,
  some, true, ℕ, ◌&&◌, ◌+◌, ◌==◌, ◌||◌, ◌↔◌, ◌∷◌, ◌≡◌, ◌≤◌,
}
use zero_touch.Base.Bytes.{Bytes}

-- `InboundSms`
pub record InboundSms : Type 0 where
  pub sender : Bytes
  pub text : Bytes
  pub ts : Bytes

-- The loop of `is_reachable_sender`: the digits counted, or `none` for the early return.
unfoldable pub count_digits : ℕ → Bytes → Option ℕ
count_digits digits [] = some digits
count_digits digits (c ∷ s) =
    let more = count_digits (digits + 1) s in
    let same = count_digits digits s in
    if leb b'0' c && leb c b'9'
    then more
    else if not (c == b'+') && not (c == b' ') && not (c == b'-')
    then none
    else same

unfoldable pub enough : Option ℕ → Bool
enough none = false
enough (some digits) = leb 7 digits

-- `is_reachable_sender`
unfoldable pub is_reachable_sender : Bytes → Bool
unfolding count_digits enough
is_reachable_sender sender = enough (count_digits 0 sender)

-- A byte that a number may hold.
abbrev pub is_number_byte : ℕ → Bool
is_number_byte c = (leb b'0' c && leb c b'9') || c == b'+' || c == b' ' || c == b'-'

abbrev pub digits_in : Bytes → ℕ
digits_in [] = 0
digits_in (c ∷ s) = (if leb b'0' c && leb c b'9' then 1 else 0) + digits_in s

count_digits-digits_in :
    (n : ℕ) (s : Bytes)
    → count_digits n s ≡ (if all is_number_byte s then some (n + digits_in s) else none)
unfolding count_digits
count_digits-digits_in n [] = ap some (omega arith)
count_digits-digits_in n (c ∷ s) =
    ground (arith, count_digits-digits_in (n + 1) s, count_digits-digits_in n s)

-- A sender can be replied to exactly when it holds digits, `+`, spaces and `-` only, and at least
-- seven digits.
pub is_reachable_sender_iff :
    (sender : Bytes)
    → (is_reachable_sender sender ≡ true)
      ↔ ((all is_number_byte sender ≡ true) × (7 ≤ digits_in sender))
unfolding is_reachable_sender enough
is_reachable_sender_iff sender =
    let e = count_digits-digits_in 0 sender in
    elim (Bool-cases (all is_number_byte sender)) [
      | inl clean ↦ (λ h. (clean, ground arith), λ h. ground arith)
      | inr dirty ↦ (λ h. absurd (ground arith), λ h. ground arith)
    ]

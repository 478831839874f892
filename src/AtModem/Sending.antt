-- ===== src/AtModem/Sending.antt =====
-- `configure` and `send_sms` of src/at_modem.cpp. The encoder of the cellular library is not in the
-- repository: it is a parameter, with the port. `W` is the state of the port.
pub mod Order
use zero_touch.AtModem.{AtResult}
use zero_touch.Base.{Bool, Option, [], false, if◌then◌else◌, none, not, some, true, ℕ, ◌++◌, ◌∷◌}
use zero_touch.Base.Bytes.{Bytes, codes}
use zero_touch.Base.Num.{int_to_string, ℤ}

pub record Port (W : Type 0) : Type 0 where
  pub write : W → Bytes → Bool × W
  pub run : W → Bytes → ℕ → Bool → AtResult × W
  pub encode : Bytes → Bytes → Option (Bytes × ℤ)

module _ {W : Type 0} (p : Port W) where
  -- `at`
  unfoldable pub at : W → Bytes → AtResult × W
  at w cmd = p.run w cmd 3000 false

  -- `configure`
  unfoldable pub configure : W → W
  configure w0 =
      let w1 = (p.write w0 (27 ∷ [])).1 in
      let w2 = (p.run w1 (codes "ATE0") 1000 false).1 in
      let w3 = (p.run w2 (codes "AT+CMEE=1") 1000 false).1 in
      let w4 = (p.run w3 (codes "AT+CMGF=0") 1000 false).1 in
      (p.run w4 (codes "AT+CNMI=2,1,0,0,0") 1000 false).1

  -- The PDU behind the prompt.
  unfoldable pub submit : Bytes → AtResult × W → Bool × W
  submit pdu (prompt, w) =
      let (written, w1) = p.write w (pdu ++ 26 ∷ []) in
      let (r, w2) = p.run w1 [] 60000 false in
      if not prompt.ok then (false, w) else if not written then (false, w1) else (r.ok, w2)

  unfoldable pub send_pdu : Option (Bytes × ℤ) → W → Bool × W
  unfolding submit int_to_string
  send_pdu none w = (false, w)
  send_pdu (some (pdu, tpdu_len)) w0 =
      let w1 = (p.write w0 (27 ∷ [])).1 in
      let w2 = (p.run w1 (codes "AT+CMGF=0") 1000 false).1 in
      submit pdu (p.run w2 (codes "AT+CMGS=" ++ int_to_string tpdu_len) 5000 true)

  -- `send_sms`
  unfoldable pub send_sms : Bytes → Bytes → W → Bool × W
  unfolding send_pdu
  send_sms to text w = send_pdu (p.encode to text) w

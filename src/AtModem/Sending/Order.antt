-- ===== src/AtModem/Sending/Order.antt =====
-- What `send_sms` of src/at_modem.cpp gives to the port, and in which order.
use zero_touch.AtModem.Sending.{Port, send_pdu, send_sms, submit}
use zero_touch.Base.{
  Bool, Bool-cases, List, [], append_assoc, false, inl, inr, refl, some, subst, sym, true, ◌++◌,
  ◌∙◌, ◌∷◌, ◌≡◌,
}
use zero_touch.Base.Bytes.{Bytes, codes}
use zero_touch.Base.Num.{int_to_string, ℤ}

-- Bytes written as they are, or a command.
pub data Traffic : Type 0 where
  wrote_bytes : Bytes → Traffic
  ran_command : Bytes → Traffic

module _ {W : Type 0} (p : Port W) where
  -- The port, with what was given to it, oldest first.
  abbrev pub recorded_port : Port (W × List Traffic)
  recorded_port = record {
    write = λ w s. let (ok, v) = p.write w.0 s in (ok, (v, w.1 ++ wrote_bytes s ∷ []));
    run = λ w cmd timeout want_prompt.
        let (r, v) = p.run w.0 cmd timeout want_prompt in (r, (v, w.1 ++ ran_command cmd ∷ []));
    encode = p.encode;
  }

  -- What asks for the prompt.
  abbrev pub opening_traffic : ℤ → List Traffic
  opening_traffic len =
      wrote_bytes (27 ∷ [])
      ∷ ran_command (codes "AT+CMGF=0")
      ∷ ran_command (codes "AT+CMGS=" ++ int_to_string len)
      ∷ []

  -- Whether the modem gives the prompt.
  abbrev pub prompted : ℤ → W → Bool
  prompted len w =
      (p.run (p.run (p.write w (27 ∷ [])).1 (codes "AT+CMGF=0") 1000 false).1
        (codes "AT+CMGS=" ++ int_to_string len) 5000 true).0.ok

  -- The port once the length was given.
  abbrev pub asked_port : ℤ → W → W
  asked_port len w =
      (p.run (p.run (p.write w (27 ∷ [])).1 (codes "AT+CMGF=0") 1000 false).1
        (codes "AT+CMGS=" ++ int_to_string len) 5000 true).1

  -- Whether the message can be written there, and whether the answer behind it is OK.
  abbrev pub is_taken : Bytes → W → Bool
  is_taken pdu w = (p.write w (pdu ++ 26 ∷ [])).0

  abbrev pub is_answered : Bytes → W → Bool
  is_answered pdu w = (p.run (p.write w (pdu ++ 26 ∷ [])).1 [] 60000 false).0.ok

  -- By whether there was a prompt and whether the message could be written. With no prompt the
  -- sending fails and nothing more was given to the port. With one, the message and Ctrl-Z were; where
  -- they could not be written the sending fails and nothing more was given; else the wait for the
  -- answer was, and the answer decides.
  abbrev pub Ordered :
      Bytes → Bool → Bool → Bool → List Traffic → Bool × (W × List Traffic) → Type 0
  Ordered pdu false took confirmed log (ok, (w, log')) = (ok ≡ false) × (log' ≡ log)
  Ordered pdu true false confirmed log (ok, (w, log')) =
      (ok ≡ false) × (log' ≡ log ++ wrote_bytes (pdu ++ 26 ∷ []) ∷ [])
  Ordered pdu true true confirmed log (ok, (w, log')) =
      (ok ≡ confirmed) × (log' ≡ log ++ wrote_bytes (pdu ++ 26 ∷ []) ∷ ran_command [] ∷ [])

  submit-Ordered :
      (pdu : Bytes) (ok : Bool) (found : List Bytes) (w : W) (log : List Traffic)
      → Ordered pdu ok
          (is_taken pdu w)
          (is_answered pdu w)
          log
          (submit recorded_port pdu (record { ok = ok; lines = found }, (w, log)))
  unfolding submit
  submit-Ordered pdu false found w log = (refl, refl)
  submit-Ordered pdu true found w log = elim (Bool-cases (p.write w (pdu ++ 26 ∷ [])).0) [
    | inl taken ↦
        rw taken (refl, append_assoc log (wrote_bytes (pdu ++ 26 ∷ []) ∷ []) (ran_command [] ∷ []))
    | inr refused ↦ rw refused (refl, refl)
  ]

  -- How the sending of a PDU has to end.
  abbrev pub SentInOrder : Bytes → ℤ → W → List Traffic → Bool × (W × List Traffic) → Type 0
  SentInOrder pdu len w log =
      Ordered pdu (prompted len w) (is_taken pdu (asked_port len w))
        (is_answered pdu (asked_port len w)) (log ++ opening_traffic len)

  send_pdu-Ordered :
      (w : W) (log : List Traffic) (pdu : Bytes) (len : ℤ)
      → SentInOrder pdu len w log (send_pdu recorded_port (some (pdu, len)) (w, log))
  unfolding send_pdu
  send_pdu-Ordered w log pdu len =
      let escape = wrote_bytes (27 ∷ []) in
      let mode = ran_command (codes "AT+CMGF=0") in
      let size = ran_command (codes "AT+CMGS=" ++ int_to_string len) in
      let w2 = (p.run (p.write w (27 ∷ [])).1 (codes "AT+CMGF=0") 1000 false).1 in
      let (r, w3) = p.run w2 (codes "AT+CMGS=" ++ int_to_string len) 5000 true in
      let before = ((log ++ escape ∷ []) ++ mode ∷ []) ++ size ∷ [] in
      subst
        (λ l.
          Ordered pdu (prompted len w) (is_taken pdu w3) (is_answered pdu w3) l
            (submit recorded_port pdu (r, (w3, before))))
        (append_assoc (log ++ escape ∷ []) (mode ∷ []) (size ∷ [])
          ∙ append_assoc log (escape ∷ []) (mode ∷ size ∷ []))
        (submit-Ordered pdu r.ok r.lines w3 before)

  -- An SMS that can be encoded is given to the port in this order: an escape, PDU mode and the length;
  -- the message exactly if the modem then gives its prompt, and once; and the wait for the answer
  -- exactly if the message could be written. Without a prompt, or where the message could not be
  -- written, the sending fails; else it succeeds exactly if the answer is OK.
  pub send_sms-Ordered :
      (to message : Bytes) (w : W) (log : List Traffic) (pdu : Bytes) (len : ℤ)
      → p.encode to message ≡ some (pdu, len)
      → SentInOrder pdu len w log (send_sms recorded_port to message (w, log))
  unfolding send_sms
  send_sms-Ordered to message w log pdu len e =
      subst (λ o. SentInOrder pdu len w log (send_pdu recorded_port o (w, log))) (sym e)
        (send_pdu-Ordered w log pdu len)

-- ===== src/AtModem/Inbox.antt =====
-- `drain_sms` and `send_sms` of src/at_modem.cpp. The codecs and the reassembly of the cellular
-- library are not in the repository: they are parameters. `W` is the state of the modem and of
-- whoever takes the messages.
pub mod Listing
use zero_touch.AtModem.{AtResult}
use zero_touch.Base.{
  List, Option, [], drop, if◌then◌else◌, none, not, some, ℕ, ◌++◌, ◌+◌, ◌==◌, ◌∷◌,
}
use zero_touch.Base.Bytes.{Bytes, codes, find, starts_with}
use zero_touch.Base.Num.{int_to_string, stoi, ℤ}
use zero_touch.Sms.{InboundSms}

-- `cellular::SmsMessage`, its decoder and `SmsReassembler::add`; `at` is the exchange of a command,
-- and `hand_on` the callback `m_on_sms`, which may be empty.
pub record Mailbox (W Message : Type 0) : Type 0 where
  pub at : W → Bytes → AtResult × W
  pub decode : Bytes → Option Message
  pub set_index : ℤ → Message → Message
  pub total : Message → ℕ
  pub add : W → Message → Option Message × W
  pub to_sms : Message → InboundSms
  pub hand_on : Option (W → InboundSms → W)

abbrev pub after_colon : Option ℕ → Bytes → Bytes
after_colon none l = l
after_colon (some i) l = drop (i + 1) l

-- The index in a header, or `none` where the line is no header or `std::stoi` throws.
unfoldable pub index_of : Bytes → Option ℤ
unfolding starts_with find stoi
index_of l = if starts_with (codes "+CMGL:") l then stoi (after_colon (find b':' l) l) else none

module _ {W Message : Type 0} (m : Mailbox W Message) where
  -- `complete`, and `full`
  unfoldable pub assemble : W → Message → Option Message × W
  assemble w msg = if m.total msg == 0 then (some msg, w) else m.add w msg

  abbrev pub call_back : Option (W → InboundSms → W) → Option Message → W → W
  call_back (some f) (some full) w = f w (m.to_sms full)
  call_back _ _ w = w

  -- A decoded message: reassembled, and handed on when complete.
  unfoldable pub take_message : ℤ → Message → W → W
  unfolding assemble
  take_message index msg w =
      let (full, w') = assemble w (m.set_index index msg) in call_back m.hand_on full w'

  -- The loop over the lines of the reply, and the indices in `to_delete`. A line that is no header
  -- is passed over; the line behind a header is its PDU.
  unfoldable pub walk : List Bytes → W → W × List ℤ
  unfolding index_of take_message
  walk [] w = (w, [])
  walk (l ∷ []) w = (w, [])
  walk (l ∷ p ∷ ls) w = elim (index_of l) [
    | none ↦ walk (p ∷ ls) w
    | some index ↦ elim (m.decode p) [
      | none ↦ walk ls w
      | some msg ↦ let (w', gone) = walk ls (take_message index msg w) in (w', index ∷ gone)
    ]
  ]

  unfoldable pub delete_all : List ℤ → W → W
  unfolding int_to_string
  delete_all [] w = w
  delete_all (index ∷ gone) w = delete_all gone (m.at w (codes "AT+CMGD=" ++ int_to_string index)).1

  unfoldable pub drain_reply : AtResult × W → W
  unfolding walk delete_all
  drain_reply (r, w) =
      if not r.ok then w else (let (w', gone) = walk r.lines w in delete_all gone w')

  -- `drain_sms`
  unfoldable pub drain_sms : W → W
  unfolding drain_reply
  drain_sms w = drain_reply (m.at w (codes "AT+CMGL=4"))

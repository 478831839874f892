-- ===== src/Tests/Modems.antt =====
-- src/at_modem.cpp at concrete inputs.
use zero_touch.AtModem.{is_error, no_reply}
use zero_touch.AtModem.Answers.{exchange-reply, is_final, is_info, result_of}
use zero_touch.AtModem.Inbox.{Mailbox, take_message, walk}
use zero_touch.AtModem.Inbox.Listing.{Stored, collect, listing, walk-listing}
use zero_touch.AtModem.Pieces.{exchange, exchange-pieces, joined}
use zero_touch.AtModem.Sending.{Port, send_sms}
use zero_touch.AtModem.Sending.Order.{SentInOrder, recorded_port, send_sms-Ordered}
use zero_touch.Base.{
  List, Option, [], all, arith, if◌then◌else◌, none, refl, some, true, ℕ, ◌++◌, ◌==◌, ◌∷◌, ◌≡◌,
}
use zero_touch.Base.Bytes.{Bytes, codes, equals, lacks}
use zero_touch.Base.Num.{pos}

abbrev csq : Bytes
csq = codes "AT+CSQ"

abbrev csq_line : Bytes
csq_line = codes "+CSQ: 17,99"

abbrev halves : List Bytes
halves =
    codes "+CSQ: 1"
    ∷ []
    ∷ (codes "7,99" ++ b'\r' ∷ b'\n' ∷ codes "O")
    ∷ (codes "K" ++ b'\r' ∷ b'\n' ∷ codes "+CMTI")
    ∷ []

abbrev in_one : List Bytes
in_one = joined halves ∷ []

exchange-pieces_example : exchange csq [] [] halves ≡ exchange csq [] [] in_one
exchange-pieces_example = exchange-pieces csq [] halves in_one refl

csq_info : all (is_info csq) (csq_line ∷ []) ≡ true
unfolding equals is_error lacks
csq_info = refl

csq_final : is_final csq (codes "OK") ≡ true
unfolding equals lacks is_error
csq_final = refl

exchange-reply_example :
    exchange csq [] [] halves ≡ (result_of (csq_line ∷ []) (codes "OK"), codes "+CMTI")
exchange-reply_example =
    exchange-reply csq (csq_line ∷ []) (codes "OK") (codes "+CMTI") halves csq_info csq_final refl

-- Messages are texts, and what is taken is kept; a PDU that starts with `X` does not decode.
abbrev decode_here : Bytes → Option Bytes
decode_here [] = none
decode_here (c ∷ s) = if c == b'X' then none else some (c ∷ s)

abbrev mailbox_here : Mailbox (List Bytes) Bytes
mailbox_here = record {
  at = λ w cmd. (no_reply, w);
  decode = decode_here;
  set_index = λ i msg. msg;
  total = λ msg. 0;
  add = λ w msg. (none, w);
  to_sms = λ msg. record { sender = []; text = msg; ts = [] };
  hand_on = some (λ w sms. w ++ sms.text ∷ []);
}

abbrev three_stored : List Stored
three_stored =
    record { place = 3; rest = codes "1,,23"; pdu = codes "0791" }
    ∷ record { place = 4; rest = codes "1,,23"; pdu = codes "X" }
    ∷ record { place = 12; rest = []; pdu = codes "+CMGL: 5" }
    ∷ []

walk-listing_example :
    walk mailbox_here (listing three_stored) [] ≡ collect mailbox_here three_stored []
walk-listing_example =
    walk-listing mailbox_here three_stored [] (omega arith, (omega arith, (omega arith, tt)))

collected :
    collect mailbox_here three_stored []
    ≡ (codes "0791" ∷ codes "+CMGL: 5" ∷ [], pos 3 ∷ pos 12 ∷ [])
unfolding take_message
collected = refl

-- A port that takes everything and gives the prompt.
abbrev willing_port : Port ℕ
willing_port = record {
  write = λ w s. (true, w);
  run = λ w cmd timeout want_prompt. (record { ok = true; lines = [] }, w);
  encode = λ to message. some (message, pos 3);
}

send_sms-Ordered_example :
    SentInOrder willing_port
      (codes "hi")
      (pos 3)
      0
      []
      (send_sms (recorded_port willing_port) (codes "+49") (codes "hi") (0, []))
send_sms-Ordered_example =
    send_sms-Ordered willing_port (codes "+49") (codes "hi") 0 [] (codes "hi") (pos 3) refl

-- ===== src/AtModem/Inbox/Listing.antt =====
-- What `drain_sms` of src/at_modem.cpp makes of the listing of a modem.
-- A stored message in the listing: its index, what follows the index, and its PDU.
use zero_touch.AtModem.Inbox.{Mailbox, index_of, take_message, walk}
use zero_touch.Base.{
  All, Bool-cases, List, Option-cases, [], ap, arith, inl, inr, none, refl, some, suc, zero, ℕ, ◌%◌,
  ◌++◌, ◌+◌, ◌/◌, ◌<◌, ◌==◌, ◌^◌, ◌∙◌, ◌∷◌, ◌≡◌,
}
use zero_touch.Base.Bytes.{Bytes, codes, find, starts_with}
use zero_touch.Base.Num.{
  digits_onto, digits_onto-digit, parse_signed, parse_signed_digits, pos, read_digits,
  read_digits_onto, skip_white, stoi, to_string, ℤ,
}

pub record Stored : Type 0 where
  pub place : ℕ
  pub rest : Bytes
  pub pdu : Bytes

abbrev pub header : Stored → Bytes
header s = codes "+CMGL: " ++ (to_string s.place ++ b',' ∷ s.rest)

abbrev pub listing : List Stored → List Bytes
listing [] = []
listing (s ∷ ss) = header s ∷ s.pdu ∷ listing ss

digits_onto-append :
    (fuel n : ℕ) (a b : Bytes) → digits_onto fuel n a ++ b ≡ digits_onto fuel n (a ++ b)
unfolding digits_onto
digits_onto-append zero n a b = refl
digits_onto-append (suc fuel) n a b = elim (Bool-cases (n / 10 == 0)) [
  | inl last ↦ rw last refl
  | inr more ↦ rw more (digits_onto-append fuel (n / 10) ((b'0' + n % 10) ∷ a) b)
]

read_comma : (n : ℕ) (b : Bytes) → read_digits n (b',' ∷ b) ≡ n
unfolding read_digits
read_comma n b = refl

-- A number with a comma behind it is read as that number.
parse_signed-comma :
    (half n : ℕ) (b : Bytes) → n < half → parse_signed half (to_string n ++ b',' ∷ b) ≡ some (pos n)
unfolding to_string
parse_signed-comma half n b h =
    ap (parse_signed half) (digits_onto-append (suc n) n [] (b',' ∷ b))
    ∙ (let value = read_digits_onto (suc n) n (b',' ∷ b) (omega arith) ∙ read_comma n b in
        parse_signed_digits half (digits_onto (suc n) n (b',' ∷ b))
          (digits_onto-digit n n (b',' ∷ b)) (omega arith)
        ∙ ap (λ (v : ℕ). some (pos v)) value)

parse_signed_blank : (half : ℕ) (s : Bytes) → parse_signed half (b' ' ∷ s) ≡ parse_signed half s
unfolding parse_signed skip_white
parse_signed_blank half s = refl

index_of-header : (s : Stored) → s.place < 2 ^ 31 → index_of (header s) ≡ some (pos s.place)
unfolding index_of starts_with find stoi
index_of-header s h =
    parse_signed_blank (2 ^ 31) (to_string s.place ++ b',' ∷ s.rest)
    ∙ parse_signed-comma (2 ^ 31) s.place s.rest h

module _ {W Message : Type 0} (m : Mailbox W Message) where
  -- Message after message: one whose PDU decodes is handed to the reassembly, and its index noted;
  -- any other is left.
  abbrev pub collect : List Stored → W → W × List ℤ
  collect [] w = (w, [])
  collect (s ∷ ss) w = elim (m.decode s.pdu) [
    | none ↦ collect ss w
    | some msg ↦
        let (w', gone) = collect ss (take_message m (pos s.place) msg w) in (w', pos s.place ∷ gone)
  ]

  walk_bad :
      (l p : Bytes) (ls : List Bytes) (w : W) (i : ℤ)
      → index_of l ≡ some i
      → m.decode p ≡ none
      → walk m (l ∷ p ∷ ls) w ≡ walk m ls w
  unfolding walk
  walk_bad l p ls w i e d = rw (e, d, walk)

  walk_good :
      (l p : Bytes) (ls : List Bytes) (w : W) (i : ℤ) (msg : Message)
      → index_of l ≡ some i
      → m.decode p ≡ some msg
      → walk m (l ∷ p ∷ ls) w
        ≡ (let (w', gone) = walk m ls (take_message m i msg w) in (w', i ∷ gone))
  unfolding walk
  walk_good l p ls w i msg e d = rw (e, d, walk)

  -- For the listing of any messages stored at places that fit `int`, the loop takes each header
  -- with its PDU, whatever the PDUs are: those that decode are taken in order, and their places,
  -- and no others, are noted for deletion.
  pub walk-listing :
      (ss : List Stored) (w : W)
      → All (λ s. s.place < 2 ^ 31) ss
      → walk m (listing ss) w ≡ collect ss w
  walk-listing [] w a = unfold walk in refl
  walk-listing (s ∷ ss) w a = elim (Option-cases (m.decode s.pdu)) [
    | inl bad ↦
        walk_bad (header s) s.pdu (listing ss) w (pos s.place) (index_of-header s a.0) bad
        ∙ walk-listing ss w a.1
        ∙ rw (bad, collect)
    | inr (msg, good) ↦
        walk_good (header s) s.pdu (listing ss) w (pos s.place) msg (index_of-header s a.0) good
        ∙ ap (λ (r : W × List ℤ). (r.0, pos s.place ∷ r.1))
            (walk-listing ss (take_message m (pos s.place) msg w) a.1)
        ∙ rw (good, collect)
  ]

-- ===== src/Config/Printing.antt =====
-- A file of settings for src/config.cpp: one `key = value` line for each.
use zero_touch.Base.{
  All, Bool, List, [], all, ap, append-nil, append_assoc, arith, false, is_empty, not, refl, suc,
  true, zero, ℕ, ◌%◌, ◌&&◌, ◌++◌, ◌+◌, ◌/◌, ◌==◌, ◌∙◌, ◌∷◌, ◌≡◌, ◌≢◌,
}
use zero_touch.Base.Bytes.{Bytes, lacks}
use zero_touch.Base.Num.{digits_onto, to_string}
use zero_touch.Base.Text.{is_blank, lines, lines-cons, split_csv, split_csv_from}
use zero_touch.Base.Trim.{ends_blank, starts_blank}
use zero_touch.Command.Csv.{join_csv}
use zero_touch.Config.{AppConfig, assign, config_lines, default_config, parse_config}
use zero_touch.Config.Lines.{IsClean, IsKey, config_line-line, lacks-line, line}

abbrev pub is_plain : ℕ → Bool
unfolding is_blank
is_plain c = not (is_blank c) && not (c == b'#')

pub plain-lacks :
    (s : Bytes) → all is_plain s ≡ true → (lacks b'#' s ≡ true) × (lacks b'\n' s ≡ true)
unfolding lacks is_blank
plain-lacks [] h = (refl, refl)
plain-lacks (c ∷ s) h = ground (arith, plain-lacks s)

plain-ends_blank : (s : Bytes) → all is_plain s ≡ true → ends_blank s ≡ false
unfolding is_blank
plain-ends_blank [] h = refl
plain-ends_blank (c ∷ []) h = ground arith
plain-ends_blank (c ∷ d ∷ s) h = plain-ends_blank (d ∷ s) (ground arith)

plain-starts_blank : (s : Bytes) → all is_plain s ≡ true → starts_blank s ≡ false
unfolding is_blank
plain-starts_blank [] h = refl
plain-starts_blank (c ∷ s) h = ground arith

pub plain-IsClean : (s : Bytes) → all is_plain s ≡ true → IsClean s
plain-IsClean s h = record {
  no_mark = (plain-lacks s h).0;
  no_newline = (plain-lacks s h).1;
  trimmed = (plain-starts_blank s h, plain-ends_blank s h);
}

digits_onto-plain :
    (fuel n : ℕ) (rest : Bytes)
    → all is_plain rest ≡ true
    → all is_plain (digits_onto fuel n rest) ≡ true
unfolding digits_onto is_blank
digits_onto-plain zero n rest h = h
digits_onto-plain (suc fuel) n rest h =
    ground (arith, digits_onto-plain fuel (n / 10) ((b'0' + n % 10) ∷ rest))

pub to_string-plain : (n : ℕ) → all is_plain (to_string n) ≡ true
unfolding to_string
to_string-plain n = digits_onto-plain (suc n) n [] refl

-- A setting, and the file of many.
pub record Entry : Type 0 where
  pub key : Bytes
  pub val : Bytes

pub record IsEntry (e : Entry) : Type 0 where
  pub key_ok : IsKey e.key
  pub val_ok : IsClean e.val

abbrev pub render : List Entry → Bytes
render [] = []
render (e ∷ es) = line e.key e.val ++ b'\n' ∷ render es

abbrev pub assign_all : List Entry → AppConfig → AppConfig
assign_all [] c = c
assign_all (e ∷ es) c = assign_all es (assign e.key e.val c)

config_lines-render :
    (es : List Entry) (c : AppConfig)
    → All IsEntry es
    → config_lines (lines (render es)) c ≡ assign_all es c
unfolding config_lines
config_lines-render [] c h = unfold lines in refl
config_lines-render (e ∷ es) c h =
    rw
      (lines-cons (line e.key e.val) (render es) (
        lacks-line b'\n' e.key e.val (unfold lacks in refl) h.0.key_ok.clean.no_newline
          h.0.val_ok.no_newline))
      (ap (config_lines (lines (render es))) (config_line-line e.key e.val c h.0.key_ok h.0.val_ok)
        ∙ config_lines-render es (assign e.key e.val c) h.1)

pub parse_config-render :
    (es : List Entry) → All IsEntry es → parse_config (render es) ≡ assign_all es default_config
unfolding parse_config
parse_config-render es h = config_lines-render es default_config h

-- A byte of a number in the allow-list: no comma, no blank, no comment mark.
abbrev pub is_number_byte : ℕ → Bool
is_number_byte c = is_plain c && not (c == b',')

abbrev pub IsNumber : Bytes → Type 0
IsNumber p = (p ≢ []) × (all is_number_byte p ≡ true)

pub full_append : (cur : Bytes) (c : ℕ) → is_empty (cur ++ c ∷ []) ≡ false
full_append [] c = refl
full_append (x ∷ cur) c = refl

split_csv_from-append :
    (p cur s : Bytes)
    → is_empty (cur ++ p) ≡ false
    → all is_number_byte p ≡ true
    → split_csv_from cur (p ++ b',' ∷ s) ≡ (cur ++ p) ∷ split_csv_from [] s
unfolding split_csv_from is_blank
split_csv_from-append [] cur s n h = ground (arith, append-nil cur)
split_csv_from-append (c ∷ p) cur s n h =
    ground (arith, split_csv_from-append p (cur ++ c ∷ []) s, append_assoc cur (c ∷ []) p)

split_csv_from_last :
    (p cur : Bytes)
    → is_empty (cur ++ p) ≡ false
    → all is_number_byte p ≡ true
    → split_csv_from cur p ≡ (cur ++ p) ∷ []
unfolding split_csv_from is_blank
split_csv_from_last [] cur n h = ground (arith, append-nil cur)
split_csv_from_last (c ∷ p) cur n h =
    ground (arith, split_csv_from_last p (cur ++ c ∷ []), append_assoc cur (c ∷ []) p)

full : (p : Bytes) → p ≢ [] → is_empty p ≡ false
full [] h = absurd (h refl)
full (c ∷ p) h = refl

pub split_csv-join_csv : (ps : List Bytes) → All IsNumber ps → split_csv (join_csv ps) ≡ ps
unfolding split_csv
split_csv-join_csv [] a = unfold split_csv_from in refl
split_csv-join_csv (p ∷ []) a = split_csv_from_last p [] (full p a.0.0) a.0.1
split_csv-join_csv (p ∷ q ∷ ps) a =
    split_csv_from-append p [] (join_csv (q ∷ ps)) (full p a.0.0) a.0.1
    ∙ ap (◌∷◌ p) (split_csv-join_csv (q ∷ ps) a.1)

plain_comma :
    (a b : Bytes)
    → all is_plain a ≡ true
    → all is_plain b ≡ true
    → all is_plain (a ++ b',' ∷ b) ≡ true
unfolding is_blank
plain_comma [] b h k = k
plain_comma (c ∷ a) b h k = ground (arith, plain_comma a b)

number-plain : (p : Bytes) → all is_number_byte p ≡ true → all is_plain p ≡ true
number-plain [] h = refl
number-plain (c ∷ p) h = ground (arith, number-plain p)

pub join_csv-plain : (ps : List Bytes) → All IsNumber ps → all is_plain (join_csv ps) ≡ true
join_csv-plain [] a = refl
join_csv-plain (p ∷ []) a = number-plain p a.0.1
join_csv-plain (p ∷ q ∷ ps) a =
    plain_comma p (join_csv (q ∷ ps)) (number-plain p a.0.1) (join_csv-plain (q ∷ ps) a.1)

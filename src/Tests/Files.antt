-- ===== src/Tests/Files.antt =====
-- src/config.cpp, src/users.cpp and src/ds_sms_transport.cpp at concrete inputs.
use zero_touch.Base.{[], ap, arith, inl, inr, none, refl, some, true, ◌∷◌, ◌≡◌, ◌≢◌}
use zero_touch.Base.Bytes.{Bytes, codes, equals, equals_iff, find, lacks}
use zero_touch.Base.Keys.{nat_ord, text_lt, text_ord}
use zero_touch.Base.Map.{insert, lookup}
use zero_touch.Base.Num.{stol}
use zero_touch.Base.Text.{is_blank, strip_comment, trim}
use zero_touch.Config.{AppConfig, assign, assign_at, default_config, parse_config, quectel, to_u32}
use zero_touch.Config.Lines.{IsClean}
use zero_touch.Config.Printing.{plain-IsClean, render}
use zero_touch.Config.RoundTrip.{IsWritable, entries, parse_config-render-entries}
use zero_touch.DsTransport.Coalescing.{burst, run-burst}
use zero_touch.DsTransport.Delivery.{Fresh, arrive, run, run-Fresh, started, wake, wake_failed}
use zero_touch.Sms.{InboundSms}
use zero_touch.Users.{User, find_user, parse_user, parse_users}
use zero_touch.Users.RoundTrip.{IsPrintable, find_user-render_users, render_users}

abbrev some_config : AppConfig
some_config = record default_config {
  enabled = true;
  gnmi_port = 57400;
  allowed_numbers = codes "+491234567" ∷ codes "+490000001" ∷ [];
  modem_type = quectel;
}

text_IsClean : IsClean (codes "127.0.0.1")
unfolding is_blank
text_IsClean = plain-IsClean (codes "127.0.0.1") refl

some_config-IsWritable : IsWritable some_config
unfolding is_blank
some_config-IsWritable = record {
  host = text_IsClean;
  port = (omega arith, omega arith);
  numbers = (((λ e. cc), refl), (((λ e. cc), refl), tt));
  ttl = (omega arith, omega arith);
  failures = (omega arith, omega arith);
  lockout = (omega arith, omega arith);
  dev = plain-IsClean _ refl;
  baud = (omega arith, omega arith);
  users = plain-IsClean _ refl;
}

parse_config-render-entries_example : parse_config (render (entries some_config)) ≡ some_config
parse_config-render-entries_example = parse_config-render-entries some_config some_config-IsWritable

-- A port one above the largest wraps round to 0.
wrapped_port : (parse_config (codes "gnmi.port = 65536")).gnmi_port ≡ 0
unfolding parse_config assign trim to_u32 stol strip_comment find assign_at
wrapped_port = refl

abbrev users_text : Bytes
users_text = codes "# users\nann:h1:Admin\nbob:h2:root\nann:h3:Viewer\nbad line\n"

abbrev ann : User
ann = record { id = codes "ann"; hash = codes "h3"; access = codes "Viewer" }

abbrev ben : User
ben = record { id = codes "ben"; hash = codes "5e88"; access = codes "Admin" }

ann-IsPrintable : IsPrintable ann
unfolding lacks is_blank
ann-IsPrintable = record {
  id_clean = plain-IsClean (codes "ann") refl;
  hash_clean = plain-IsClean (codes "h3") refl;
  id_colon = refl;
  hash_colon = refl;
  has_id = λ e. cc;
  has_hash = λ e. cc;
  level = inr refl;
}

ben-IsPrintable : IsPrintable ben
unfolding lacks is_blank
ben-IsPrintable = record {
  id_clean = plain-IsClean (codes "ben") refl;
  hash_clean = plain-IsClean (codes "5e88") refl;
  id_colon = refl;
  hash_colon = refl;
  has_id = λ e. cc;
  has_hash = λ e. cc;
  level = inl refl;
}

other_id : codes "ben" ≢ codes "ann"
unfolding equals
other_id e = let k = (equals_iff (codes "ben") (codes "ann")).1 e in cc

find_user-render_users_example :
    find_user (codes "ann") (parse_users (render_users (ben ∷ ann ∷ ben ∷ []))) ≡ some ann
find_user-render_users_example =
    find_user-render_users (ben ∷ []) (ben ∷ []) ann
      (ben-IsPrintable, (ann-IsPrintable, (ben-IsPrintable, tt))) (other_id, tt)

find_ann : find_user (codes "ann") (parse_users users_text) ≡ some ann
unfolding find_user parse_users lookup insert equals text_lt trim strip_comment find
find_ann = refl

parse_ann : parse_user (codes "ann:h3:Viewer") ≡ some ann
unfolding parse_user trim strip_comment find equals
parse_ann = refl

bad_line : parse_user (codes "bad line") ≡ none
unfolding parse_user trim strip_comment find
bad_line = refl

abbrev sms_of : Bytes → Bytes → InboundSms
sms_of text ts = record { sender = codes "+491234567"; text = text; ts = ts }

abbrev old_sms : InboundSms
old_sms = sms_of (codes "old") (codes "1")

abbrev new_sms : InboundSms
new_sms = sms_of (codes "new") (codes "2")

run-Fresh_example :
    Fresh old_sms
      (run
        (started old_sms)
        (wake ∷ arrive new_sms ∷ wake ∷ arrive new_sms ∷ wake_failed ∷ wake ∷ [])).delivered
run-Fresh_example =
    run-Fresh old_sms (wake ∷ arrive new_sms ∷ wake ∷ arrive new_sms ∷ wake_failed ∷ wake ∷ [])

run-burst_example :
    (run (started old_sms) (burst (new_sms ∷ sms_of (codes "newer") (codes "3") ∷ []))).delivered
    ≡ sms_of (codes "newer") (codes "3") ∷ []
run-burst_example =
    run-burst old_sms new_sms (sms_of (codes "newer") (codes "3") ∷ []) ((λ e. cc), (λ e. cc))
      (λ e. newer_text (ap (λ m. m.text) e))
  where
    newer_text : codes "newer" ≢ old_sms.text
    newer_text e = cc

-- ===== src/Tests/Conversations.antt =====
-- A conversation by SMS with sim/zt_sim.cpp, at concrete inputs.
use zero_touch.Base.{List, [], if◌then◌else◌, none, refl, some, true, ℕ, ◌++◌, ◌∷◌, ◌≡◌}
use zero_touch.Base.Bytes.{Bytes, codes, equals, lacks, starts_with}
use zero_touch.Base.Keys.{nat_ord, text_ord}
use zero_touch.Base.Num.{to_string}
use zero_touch.Bridge.{on_sms}
use zero_touch.Classic.{Engine, not_a_command}
use zero_touch.Command.{csv, ieq, parse_gnmi}
use zero_touch.Command.Grammar.{set_message}
use zero_touch.Config.Lines.{line}
use zero_touch.Console.{console_send, new_sim, on_slash, on_text, sim_access, sim_allows}
use zero_touch.Console.ReadBack.{as_sender, read_back, sms_from, texts}
use zero_touch.Daemon.{SessionConfig, SessionStore}
use zero_touch.Executor.{handle}
use zero_touch.MemSinks.{mem_set}
use zero_touch.Policy.{is_sensitive_path}
use zero_touch.Reply.{clamp_sms, format_set}
use zero_touch.SimTree.{Tree}

-- The number +491 is an admin, and all others are viewers.
abbrev one_admin : SessionStore ℕ
one_admin = record {
  session = λ s sender now. some (record {
    id = codes "ann";
    hash = codes "h";
    access = if equals sender (codes "+491") then codes "Admin" else codes "Viewer";
  });
  allows = λ s sender. true;
  set_config = λ c s. s;
  sweep = λ now s. s;
  session_count = λ s. s;
}

abbrev quiet_engine : Engine Bytes ℕ Tree
quiet_engine = record {
  parse = λ text. text;
  kind = λ cmd. not_a_command;
  keyword = λ cmd. [];
  handle = λ sink lookup cmd sender now seed state. ([], state);
}

abbrev plain_config : ℕ → SessionConfig
plain_config s = record {
  allowed_numbers = [];
  session_ttl_sec = 0;
  lockout_failures = 0;
  lockout_sec = 0;
}

abbrev two_updates : List (Bytes × Bytes)
two_updates = (codes "/a", codes "1") ∷ (codes "/b", codes "2") ∷ []

-- A line that starts with W writes; another one reads.
abbrev tokens_for : Bytes → List Bytes
tokens_for line =
    if starts_with (codes "W") line
    then set_message (codes "IOT") (codes "GNMI") (codes "SET") two_updates
    else codes "iot" ∷ codes "gnmi" ∷ codes "get" ∷ codes "/a" ∷ []

abbrev same_hash : Bytes → Bytes
same_hash text = text

read_back_example :
    let s1 =
      sms_from quiet_engine one_admin plain_config same_hash tokens_for 1
        (codes "+491")
        (codes "W")
        (new_sim 0) in
    let s2 =
      texts quiet_engine one_admin plain_config same_hash tokens_for
        ((2, codes "+492", codes "W") ∷ [])
        s1 in
    (sms_from quiet_engine one_admin plain_config same_hash tokens_for 3
      (codes "+493")
      (codes "R")
      s2).sent
    ≡ s2.sent
      ++ (codes "+493", clamp_sms (codes "OK GNMI GET " ++ (codes "/a" ++ codes "=" ++ codes "1")))
        ∷ []
unfolding starts_with lacks equals is_sensitive_path on_text on_sms handle parse_gnmi csv sim_allows
    ieq sim_access format_set mem_set to_string console_send
read_back_example =
    read_back quiet_engine one_admin plain_config same_hash tokens_for 1 3 (codes "+491")
      (codes "+493") (codes "W") (codes "R") (codes "IOT") (codes "GNMI") (codes "SET")
      (codes "iot") (codes "gnmi") (codes "get") (codes "/a") (codes "1") []
      ((codes "/b", codes "2") ∷ []) ((2, codes "+492", codes "W") ∷ []) (new_sim 0)
      (record { is_iot = refl; is_gnmi = refl; is_op = refl })
      (record { is_iot = refl; is_gnmi = refl; is_op = refl }) ((refl, refl), ((refl, refl), tt))
      refl refl (refl, tt) refl refl refl ((λ e. cc), tt) refl (λ e. cc)

-- What `/from` makes of the simulator.
from_another :
    on_slash quiet_engine one_admin plain_config same_hash tokens_for none
      (codes "/from")
      (codes "+492")
      (new_sim 0)
    ≡ some (as_sender (codes "+492") (new_sim 0))
unfolding on_slash equals
from_another = refl

-- ===== src/Config.antt =====
-- src/config.cpp and inc/zerotouch/config.hpp: the `key = value` file of the standalone daemon.
pub mod Lines
pub mod Printing
pub mod RoundTrip
use zero_touch.Base.{
  Bool, List, Option, [], drop, false, if◌then◌else◌, is_empty, ltb, none, some, take, ℕ, ◌%◌, ◌+◌,
  ◌^◌, ◌||◌, ◌∷◌,
}
use zero_touch.Base.Bytes.{Bytes, codes, equals, find, lower, to_lower}
use zero_touch.Base.Num.{negsuc, pos, stol, ℤ}
use zero_touch.Base.Text.{lines, split_csv, strip_comment, trim}

-- `ModemType`
pub data ModemType : Type 0 where
  auto sierra quectel ublox generic : ModemType

-- `AppConfig`
pub record AppConfig : Type 0 where
  pub enabled : Bool
  pub gnmi_host : Bytes
  pub gnmi_port : ℕ
  pub allowed_numbers : List Bytes
  pub session_ttl_sec : ℕ
  pub lockout_failures : ℕ
  pub lockout_sec : ℕ
  pub modem_dev : Bytes
  pub modem_baud : ℕ
  pub modem_type : ModemType
  pub users_file : Bytes

-- `AppConfig c;` with its default members
abbrev pub default_config : AppConfig
default_config = record {
  enabled = false;
  gnmi_host = codes "127.0.0.1";
  gnmi_port = 50051;
  allowed_numbers = [];
  session_ttl_sec = 600;
  lockout_failures = 5;
  lockout_sec = 900;
  modem_dev = codes "/dev/ttyUSB2";
  modem_baud = 115200;
  modem_type = auto;
  users_file = codes "/etc/zerotouch/users";
}

unfoldable pub to_bool : Bytes → Bool
unfolding equals
to_bool v =
    equals v (codes "1")
    || equals v (codes "true")
    || equals v (codes "yes")
    || equals v (codes "on")

-- `if (n > 0) return static_cast<std::uint32_t>(n);`, or the default where `stol` throws
unfoldable pub positive_u32 : Option ℤ → ℕ → ℕ
positive_u32 none dflt = dflt
positive_u32 (some (negsuc n)) dflt = dflt
positive_u32 (some (pos n)) dflt = if ltb 0 n then n % 2 ^ 32 else dflt

unfoldable pub to_u32 : Bytes → ℕ → ℕ
unfolding positive_u32 stol
to_u32 v dflt = positive_u32 (stol v) dflt

-- `parse_modem_type`
unfoldable pub parse_modem_type : Bytes → ModemType
unfolding equals to_lower
parse_modem_type s =
    let v = lower s in
    if equals v (codes "sierra")
    then sierra
    else if equals v (codes "quectel")
    then quectel
    else if equals v (codes "ublox") || equals v (codes "u-blox")
    then ublox
    else if equals v (codes "generic")
    then generic
    else auto

-- `modem_type_name`
unfoldable pub modem_type_name : ModemType → Bytes
modem_type_name sierra = codes "sierra"
modem_type_name quectel = codes "quectel"
modem_type_name ublox = codes "ublox"
modem_type_name generic = codes "generic"
modem_type_name auto = codes "auto"

-- The chain of keys in the loop of `parse_config`.
unfoldable pub assign : Bytes → Bytes → AppConfig → AppConfig
unfolding equals to_bool to_u32 split_csv parse_modem_type
assign key val c =
    if equals key (codes "enabled")
    then record c { enabled = to_bool val }
    else if equals key (codes "gnmi.host")
    then record c { gnmi_host = val }
    else if equals key (codes "gnmi.port")
    then record c { gnmi_port = to_u32 val c.gnmi_port % 2 ^ 16 }
    else if equals key (codes "allowed.numbers")
    then record c { allowed_numbers = split_csv val }
    else if equals key (codes "session.ttl.sec")
    then record c { session_ttl_sec = to_u32 val c.session_ttl_sec }
    else if equals key (codes "lockout.failures")
    then record c { lockout_failures = to_u32 val c.lockout_failures }
    else if equals key (codes "lockout.sec")
    then record c { lockout_sec = to_u32 val c.lockout_sec }
    else if equals key (codes "modem.dev")
    then record c { modem_dev = val }
    else if equals key (codes "modem.baud")
    then record c { modem_baud = to_u32 val c.modem_baud }
    else if equals key (codes "modem.type")
    then record c { modem_type = parse_modem_type val }
    else if equals key (codes "users.file")
    then record c { users_file = val }
    else c

unfoldable pub assign_at : Bytes → Option ℕ → AppConfig → AppConfig
assign_at line none c = c
assign_at line (some eq) c = assign (trim (take eq line)) (trim (drop (eq + 1) line)) c

-- One turn of the loop of `parse_config`.
unfoldable pub config_line : Bytes → AppConfig → AppConfig
config_line raw c =
    let line = trim (strip_comment raw) in
    if is_empty line then c else assign_at line (find b'=' line) c

unfoldable pub config_lines : List Bytes → AppConfig → AppConfig
unfolding config_line
config_lines [] c = c
config_lines (l ∷ ls) c = config_lines ls (config_line l c)

-- `parse_config`
unfoldable pub parse_config : Bytes → AppConfig
unfolding lines config_lines
parse_config text = config_lines (lines text) default_config

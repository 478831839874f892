-- ===== src/Config/RoundTrip.antt =====
-- Settings written as a file, for src/config.cpp to read.
use zero_touch.Base.{
  All, Bool, List, [], all, ap, arith, false, refl, true, ℕ, ◌%◌, ◌<◌, ◌^◌, ◌∙◌, ◌∷◌, ◌≡◌, ◌≢◌,
}
use zero_touch.Base.Bytes.{Bytes, codes, equals, lacks}
use zero_touch.Base.Num.{parse_signed-to_string, stol, to_string}
use zero_touch.Base.Text.{is_blank}
use zero_touch.Command.Csv.{join_csv}
use zero_touch.Config.{
  AppConfig, ModemType, assign, auto, default_config, generic, modem_type_name, parse_config,
  parse_modem_type, positive_u32, quectel, sierra, to_bool, to_u32, ublox,
}
use zero_touch.Config.Lines.{IsClean, IsKey}
use zero_touch.Config.Printing.{
  Entry, IsEntry, IsNumber, assign_all, is_plain, join_csv-plain, parse_config-render,
  plain-IsClean, render, split_csv-join_csv, to_string-plain,
}

abbrev switch : Bool → Bytes
switch true = codes "true"
switch false = codes "false"

-- What a file can hold.
pub record IsWritable (c : AppConfig) : Type 0 where
  pub host : IsClean c.gnmi_host
  pub port : (0 < c.gnmi_port) × (c.gnmi_port < 2 ^ 16)
  pub numbers : All IsNumber c.allowed_numbers
  pub ttl : (0 < c.session_ttl_sec) × (c.session_ttl_sec < 2 ^ 32)
  pub failures : (0 < c.lockout_failures) × (c.lockout_failures < 2 ^ 32)
  pub lockout : (0 < c.lockout_sec) × (c.lockout_sec < 2 ^ 32)
  pub dev : IsClean c.modem_dev
  pub baud : (0 < c.modem_baud) × (c.modem_baud < 2 ^ 32)
  pub users : IsClean c.users_file

-- The file of a configuration.
abbrev pub entries : AppConfig → List Entry
entries c =
    record { key = codes "enabled"; val = switch c.enabled }
    ∷ record { key = codes "gnmi.host"; val = c.gnmi_host }
    ∷ record { key = codes "gnmi.port"; val = to_string c.gnmi_port }
    ∷ record { key = codes "allowed.numbers"; val = join_csv c.allowed_numbers }
    ∷ record { key = codes "session.ttl.sec"; val = to_string c.session_ttl_sec }
    ∷ record { key = codes "lockout.failures"; val = to_string c.lockout_failures }
    ∷ record { key = codes "lockout.sec"; val = to_string c.lockout_sec }
    ∷ record { key = codes "modem.dev"; val = c.modem_dev }
    ∷ record { key = codes "modem.baud"; val = to_string c.modem_baud }
    ∷ record { key = codes "modem.type"; val = modem_type_name c.modem_type }
    ∷ record { key = codes "users.file"; val = c.users_file }
    ∷ []

to_bool-switch : (b : Bool) → to_bool (switch b) ≡ b
unfolding to_bool
to_bool-switch true = refl
to_bool-switch false = refl

parse-modem_type_name : (m : ModemType) → parse_modem_type (modem_type_name m) ≡ m
unfolding parse_modem_type modem_type_name
parse-modem_type_name auto = refl
parse-modem_type_name sierra = refl
parse-modem_type_name quectel = refl
parse-modem_type_name ublox = refl
parse-modem_type_name generic = refl

to_u32-to_string : (n d : ℕ) → (0 < n) × (n < 2 ^ 32) → to_u32 (to_string n) d ≡ n
unfolding to_u32 positive_u32 stol
to_u32-to_string n d h = rw (parse_signed-to_string (2 ^ 63) n (omega arith)) (ground arith)

small_port : (n : ℕ) → n < 2 ^ 16 → n % 2 ^ 16 ≡ n
small_port n h = omega arith

-- The settings taken one after another are the configuration.
assign_entries : (c : AppConfig) → IsWritable c → assign_all (entries c) default_config ≡ c
unfolding assign equals
assign_entries c w =
    rw
      (
        to_bool-switch c.enabled,
        to_u32-to_string c.gnmi_port 50051 (w.port.0, omega (arith, w.port.1)),
        split_csv-join_csv c.allowed_numbers w.numbers,
        to_u32-to_string c.session_ttl_sec 600 w.ttl,
        to_u32-to_string c.lockout_failures 5 w.failures,
        to_u32-to_string c.lockout_sec 900 w.lockout,
        to_u32-to_string c.modem_baud 115200 w.baud,
        parse-modem_type_name c.modem_type,
      )
      (ap (λ n. record c { gnmi_port = n }) (small_port c.gnmi_port w.port.1))

IsKey-plain : (s : Bytes) → all is_plain s ≡ true → lacks b'=' s ≡ true → s ≢ [] → IsKey s
IsKey-plain s h k n = record { clean = plain-IsClean s h; no_equals = k; not_empty = n }

switch-IsClean : (b : Bool) → IsClean (switch b)
unfolding is_blank
switch-IsClean true = plain-IsClean _ refl
switch-IsClean false = plain-IsClean _ refl

modem_type_name-IsClean : (m : ModemType) → IsClean (modem_type_name m)
unfolding modem_type_name is_blank
modem_type_name-IsClean auto = plain-IsClean _ refl
modem_type_name-IsClean sierra = plain-IsClean _ refl
modem_type_name-IsClean quectel = plain-IsClean _ refl
modem_type_name-IsClean ublox = plain-IsClean _ refl
modem_type_name-IsClean generic = plain-IsClean _ refl

number-IsClean : (n : ℕ) → IsClean (to_string n)
number-IsClean n = plain-IsClean (to_string n) (to_string-plain n)

IsEntry-of :
    (key val : Bytes)
    → (all is_plain key ≡ true) × (lacks b'=' key ≡ true)
    → key ≢ []
    → IsClean val
    → IsEntry (record { key = key; val = val })
IsEntry-of key val h n v = record { key_ok = IsKey-plain key h.0 h.1 n; val_ok = v }

entries-IsEntry : (c : AppConfig) → IsWritable c → All IsEntry (entries c)
unfolding is_blank lacks
entries-IsEntry c w = (
  IsEntry-of (codes "enabled") _ (refl, refl) (λ e. cc) (switch-IsClean c.enabled),
  (
    IsEntry-of (codes "gnmi.host") _ (refl, refl) (λ e. cc) (w.host),
    (
      IsEntry-of (codes "gnmi.port") _ (refl, refl) (λ e. cc) (number-IsClean c.gnmi_port),
      (
        IsEntry-of (codes "allowed.numbers") _ (refl, refl) (λ e. cc)
            (plain-IsClean (join_csv c.allowed_numbers)
              (join_csv-plain c.allowed_numbers w.numbers)),
        (
          IsEntry-of (codes "session.ttl.sec") _ (refl, refl) (λ e. cc)
              (number-IsClean c.session_ttl_sec),
          (
            IsEntry-of (codes "lockout.failures") _ (refl, refl) (λ e. cc)
                (number-IsClean c.lockout_failures),
            (
              IsEntry-of (codes "lockout.sec") _ (refl, refl) (λ e. cc)
                  (number-IsClean c.lockout_sec),
              (
                IsEntry-of (codes "modem.dev") _ (refl, refl) (λ e. cc) (w.dev),
                (
                  IsEntry-of (codes "modem.baud") _ (refl, refl) (λ e. cc)
                      (number-IsClean c.modem_baud),
                  (
                    IsEntry-of (codes "modem.type") _ (refl, refl) (λ e. cc)
                        (modem_type_name-IsClean c.modem_type),
                    (IsEntry-of (codes "users.file") _ (refl, refl) (λ e. cc) (w.users), tt),
                  ),
                ),
              ),
            ),
          ),
        ),
      ),
    ),
  ),
)

-- Reading the file of a writable configuration gives that configuration.
pub parse_config-render-entries :
    (c : AppConfig) → IsWritable c → parse_config (render (entries c)) ≡ c
parse_config-render-entries c w =
    parse_config-render (entries c) (entries-IsEntry c w) ∙ assign_entries c w

-- ===== src/AtModem/Serial.antt =====
-- The port of src/at_modem.cpp: `write_all`, `open_port`, `start`, and `make_modem` of
-- src/modem_factory.cpp. The calls of the system are parameters; `W` is its state.
use zero_touch.AtModem.Inbox.{Mailbox, drain_sms}
use zero_touch.AtModem.Sending.{Port, at, configure}
use zero_touch.AtModem.Vendors.{Vendor, baud_const, resolve_vendor}
use zero_touch.Base.{
  Bool, List, Option, [], ap, append_assoc, drop, false, if◌then◌else◌, none, not, refl, some, sym,
  take, take-append-drop, true, ℕ, ◌++◌, ◌∙◌, ◌∷◌,
}
use zero_touch.Base.Bytes.{Bytes}
use zero_touch.Config.{AppConfig, ModemType}
use zero_touch.Tunnel.Net.Writing.{Wrote}

-- A result of `write` that is no error: the bytes taken, or `EAGAIN`.
pub data WriteResult : Type 0 where
  wrote : ℕ → WriteResult
  again : WriteResult

-- The loop of `write_all` over what is left of the text, with the results of `write` up to its first
-- error, which stands at the end of the list: whether all was written, and the bytes that were taken.
unfoldable pub write_port : Bytes → List WriteResult → Bool × Bytes
write_port [] results = (true, [])
write_port (c ∷ s) [] = (false, [])
write_port (c ∷ s) (again ∷ results) = write_port (c ∷ s) results
write_port (c ∷ s) (wrote n ∷ results) =
    let (ok, out) = write_port (drop n (c ∷ s)) results in (ok, take n (c ∷ s) ++ out)

-- The text comes to the port in order and without a gap, and to its end exactly where `write_all`
-- returns true.
pub write_port-Wrote :
    (s : Bytes) (results : List WriteResult)
    → let (ok, out) = write_port s results in Wrote s ok out
unfolding write_port
write_port-Wrote [] results = record { unsent = []; in_order = refl; complete = refl }
write_port-Wrote (c ∷ s) [] = record { unsent = c ∷ s; in_order = refl; complete = refl }
write_port-Wrote (c ∷ s) (again ∷ results) = write_port-Wrote (c ∷ s) results
write_port-Wrote (c ∷ s) (wrote n ∷ results) =
    let w = write_port-Wrote (drop n (c ∷ s)) results in
    let (ok, out) = write_port (drop n (c ∷ s)) results in
    record {
      unsent = w.unsent;
      in_order =
          sym (take-append-drop n (c ∷ s))
          ∙ ap (◌++◌ (take n (c ∷ s))) w.in_order
          ∙ sym (append_assoc (take n (c ∷ s)) out w.unsent);
      complete = w.complete;
    }

-- `termios`, as far as `open_port` sets it, and the calls of the system on a device.
pub record Terminal : Type 0 where
  pub raw : Bool
  pub input_speed : ℕ
  pub output_speed : ℕ
  pub local : Bool
  pub reads : Bool
  pub flow_control : Bool
  pub vmin : ℕ
  pub vtime : ℕ

pub record Devices (W : Type 0) : Type 0 where
  pub open_device : W → Bytes → Option ℕ × W
  pub attributes : W → ℕ → Option Terminal × W
  pub set_attributes : W → ℕ → Terminal → Bool × W

abbrev pub serial_settings : ℕ → Terminal → Terminal
serial_settings baud t = record t {
  raw = true;
  input_speed = baud_const baud;
  output_speed = baud_const baud;
  local = true;
  reads = true;
  flow_control = false;
  vmin = 0;
  vtime = 0;
}

module _ {W : Type 0} (d : Devices W) where
  abbrev pub set_serial : ℕ → ℕ → Option Terminal × W → Bool × W
  set_serial fd baud (none, w) = (false, w)
  set_serial fd baud (some t, w) = d.set_attributes w fd (serial_settings baud t)

  abbrev pub serial_opened : ℕ → Option ℕ × W → Bool × Option ℕ × W
  serial_opened baud (none, w) = (false, none, w)
  serial_opened baud (some fd, w) =
      let (ok, w') = set_serial fd baud (d.attributes w fd) in (ok, some fd, w')

  -- `open_port`: its result, and the descriptor that it leaves in `m_fd`.
  unfoldable pub open_port : Bytes → ℕ → W → Bool × Option ℕ × W
  unfolding baud_const
  open_port dev baud w = serial_opened baud (d.open_device w dev)

-- `AtModem::Config` as `make_modem` fills it
pub record ModemConfig : Type 0 where
  pub dev : Bytes
  pub baud : ℕ
  pub vendor_type : ModemType

unfoldable pub make_modem : AppConfig → ModemConfig
make_modem c = record { dev = c.modem_dev; baud = c.modem_baud; vendor_type = c.modem_type }

-- What `start` does once the port is open: the vendor is found, the modem is configured, and what is
-- stored in it is taken. The three act on one state.
abbrev pub set_going :
    {W Message : Type 0}
    → Port W
    → Mailbox W Message
    → (Bytes → Vendor)
    → ModemType
    → W
    → Option Vendor × W
set_going port box parse_vendor type w =
    let (vendor, w1) = resolve_vendor (at port) parse_vendor type w in
    (some vendor, drain_sms box (configure port w1))

-- `start`, with the vendor that it finds, or `none` where the port could not be opened.
unfoldable pub start_modem :
    {W Message : Type 0}
    → Devices W
    → Port W
    → Mailbox W Message
    → (Bytes → Vendor)
    → ModemConfig
    → W
    → Option Vendor × W
unfolding open_port resolve_vendor configure drain_sms
start_modem devices port box parse_vendor c w =
    let (ok, fd, w1) = open_port devices c.dev c.baud w in
    if not ok then (none, w1) else set_going port box parse_vendor c.vendor_type w1

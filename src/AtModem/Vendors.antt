-- ===== src/AtModem/Vendors.antt =====
-- The vendor and the speed in src/at_modem.cpp. `parse_vendor` of the cellular library is not in the
-- repository: it is a parameter.
-- `cellular::Vendor`, as far as the source names it
use zero_touch.AtModem.{AtResult}
use zero_touch.Base.{List, [], if◌then◌else◌, ℕ, ◌++◌, ◌==◌, ◌||◌, ◌∷◌}
use zero_touch.Base.Bytes.{Bytes, codes}
use zero_touch.Config.{ModemType, auto, generic, quectel, sierra, ublox}

pub data Vendor : Type 0 where
  sierra_vendor quectel_vendor ublox_vendor generic_vendor : Vendor

-- `baud_const`, as the speed that the constant stands for, on a system with all the constants
unfoldable pub baud_const : ℕ → ℕ
baud_const baud =
    if baud == 9600
      || baud == 19200
      || baud == 38400
      || baud == 57600
      || baud == 115200
      || baud == 230400
      || baud == 460800
      || baud == 921600
    then baud
    else 115200

-- `forced_vendor`
unfoldable pub forced_vendor : ModemType → Vendor
forced_vendor sierra = sierra_vendor
forced_vendor quectel = quectel_vendor
forced_vendor ublox = ublox_vendor
forced_vendor generic = generic_vendor
forced_vendor auto = generic_vendor

-- `vendor_name`
unfoldable pub vendor_name : Vendor → Bytes
vendor_name sierra_vendor = codes "Sierra"
vendor_name quectel_vendor = codes "Quectel"
vendor_name ublox_vendor = codes "u-blox"
vendor_name generic_vendor = codes "Generic"

-- `id += l + " "` over the lines
abbrev pub spaced : Bytes → List Bytes → Bytes
spaced id [] = id
spaced id (l ∷ ls) = spaced (id ++ (l ++ codes " ")) ls

module _ {W : Type 0} (at : W → Bytes → AtResult × W) (parse_vendor : Bytes → Vendor) where
  abbrev pub detected : W → Vendor × W
  detected w0 =
      let (maker, w1) = at w0 (codes "AT+GMI") in
      let (model, w2) = at w1 (codes "AT+CGMM") in
      (parse_vendor (spaced (spaced [] maker.lines) model.lines), w2)

  -- `resolve_vendor`
  unfoldable pub resolve_vendor : ModemType → W → Vendor × W
  unfolding forced_vendor
  resolve_vendor auto w = detected w
  resolve_vendor sierra w = (forced_vendor sierra, w)
  resolve_vendor quectel w = (forced_vendor quectel, w)
  resolve_vendor ublox w = (forced_vendor ublox, w)
  resolve_vendor generic w = (forced_vendor generic, w)

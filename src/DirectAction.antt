-- ===== src/DirectAction.antt =====
-- src/direct_action_sink.cpp: the classic commands as commands of the modem. The exchange of a
-- command and the reboot are parameters, as is the name of the reboot trigger, which smsctl fixes.
use zero_touch.AtModem.{AtResult, first_with}
use zero_touch.Base.{
  Bool, List, Option, [], drop, false, if◌then◌else◌, is_empty, leb, none, not, some, true, ℕ, ◌&&◌,
  ◌*◌, ◌++◌, ◌+◌, ◌-◌, ◌==◌, ◌||◌, ◌∷◌,
}
use zero_touch.Base.Bytes.{Bytes, codes, equals, find}
use zero_touch.Base.Num.{int_to_string, neg, negsuc, pos, stoi, ℤ}
use zero_touch.Config.Lines.{line}

abbrev pub is_front : ℕ → Bool
is_front c = c == b' ' || c == b'"'

abbrev pub is_back : ℕ → Bool
is_back c = c == b' ' || c == b'"' || c == b'\r'

-- The two loops of `flush` in `at_fields`.
unfoldable pub trim_front : Bytes → Bytes
trim_front [] = []
trim_front (c ∷ s) = let rest = trim_front s in if is_front c then rest else c ∷ s

unfoldable pub trim_back : Bytes → Bytes
trim_back [] = []
trim_back (c ∷ s) = let rest = trim_back s in if is_empty rest && is_back c then [] else c ∷ rest

-- The fields behind the colon, with the one being read in `cur`.
unfoldable pub fields_from : Bytes → Bytes → List Bytes
unfolding trim_front trim_back
fields_from cur [] = trim_back (trim_front cur) ∷ []
fields_from cur (c ∷ s) =
    let next = fields_from [] s in
    let longer = fields_from (cur ++ c ∷ []) s in
    if c == b',' then trim_back (trim_front cur) ∷ next else longer

abbrev pub fields_behind : Option ℕ → Bytes → List Bytes
fields_behind none line = []
fields_behind (some colon) line = fields_from [] (drop (colon + 1) line)

-- `at_fields`
unfoldable pub at_fields : Bytes → List Bytes
unfolding find
at_fields line = fields_behind (find b':' line) line

-- `reg_label`
unfoldable pub reg_label : Bytes → Bytes
unfolding equals
reg_label stat =
    if equals stat (codes "1")
    then codes "home"
    else if equals stat (codes "5")
    then codes "roam"
    else if equals stat (codes "2")
    then codes "searching"
    else if equals stat (codes "3")
    then codes "denied"
    else if equals stat (codes "0")
    then codes "off"
    else codes "-"

unfoldable pub reg_of : List Bytes → Option Bytes
unfolding reg_label
reg_of (n ∷ stat ∷ more) = some (reg_label stat)
reg_of _ = none

-- `-113 + 2 * n`, where the result fits `int`; what stands for it beyond is undefined.
abbrev pub dbm : ℤ → ℤ
dbm (pos n) = if leb 113 (2 * n) then pos (2 * n - 113) else neg (113 - 2 * n)
dbm (negsuc n) = neg (113 + 2 * (n + 1))

abbrev pub dbm_text : Option ℤ → Option Bytes
dbm_text none = none
dbm_text (some n) = some (int_to_string (dbm n))

unfoldable pub signal_of : List Bytes → Option Bytes
unfolding equals stoi
signal_of [] = none
signal_of (rssi ∷ more) = if equals rssi (codes "99") then none else dbm_text (stoi rssi)

unfoldable pub ip_of : List Bytes → Option Bytes
unfolding equals
ip_of (cid ∷ addr ∷ more) =
    if is_empty addr || equals addr (codes "0.0.0.0") then none else some addr
ip_of _ = none

-- What a query makes of the reply: nothing where it failed.
abbrev pub answer_of :
    {W : Type 0} → Bytes → (List Bytes → Option Bytes) → AtResult × W → Option Bytes × W
answer_of prefix value (r, w) =
    (if not r.ok then none else value (at_fields (first_with prefix r.lines)), w)

module _ {W : Type 0} (at : W → Bytes → AtResult × W) where
  -- `DirectActionSink::set`
  unfoldable pub action_set : W → Bytes → Bytes → Bool × W
  unfolding equals
  action_set w key value =
      let (apn, w1) = at w (
        codes "AT+CGDCONT=1,"
        ++ (b'"' ∷ codes "IP")
        ++ (b'"' ∷ b',' ∷ b'"' ∷ value)
        ++ b'"' ∷ []) in
      let (down, v1) = at w (codes "AT+CFUN=0") in
      let (up, v2) = at v1 (codes "AT+CFUN=1") in
      if equals key (codes "cell.apn")
      then (apn.ok, w1)
      else if equals key (codes "cell.reset.request")
      then (down.ok && up.ok, v2)
      else (true, w)

  -- `DirectActionSink::get`
  unfoldable pub action_get : W → Bytes → Option Bytes × W
  unfolding equals reg_of signal_of ip_of
  action_get w key =
      if equals key (codes "cell.reg") || equals key (codes "cell.reg.cs")
      then answer_of (codes "+CREG:") reg_of (at w (codes "AT+CREG?"))
      else if equals key (codes "cell.signal.dbm")
      then answer_of (codes "+CSQ:") signal_of (at w (codes "AT+CSQ"))
      else if equals key (codes "cell.ip")
      then answer_of (codes "+CGPADDR:") ip_of (at w (codes "AT+CGPADDR=1"))
      else (none, w)

  abbrev pub rebooted : Option (W → Bool × W) → W → Bool × W
  rebooted none w = (false, w)
  rebooted (some reboot) w = reboot w

  -- `DirectActionSink::arm_trigger`
  unfoldable pub arm_trigger : Bytes → Option (W → Bool × W) → W → Bytes → Bool × W
  unfolding equals
  arm_trigger reboot_trigger reboot w path =
      if equals path reboot_trigger then rebooted reboot w else (false, w)

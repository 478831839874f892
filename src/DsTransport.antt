-- ===== src/DsTransport.antt =====
-- src/ds_sms_transport.cpp: SMS over the keys that the modem daemon keeps in the data store. The
-- store's client is not in the repository: its answers and its `set` are parameters.
pub mod Delivery
pub mod Coalescing
use zero_touch.Base.{
  Bool, List, Option, [], false, if◌then◌else◌, is_empty, none, not, some, true, ℕ, ◌&&◌, ◌||◌, ◌∷◌,
}
use zero_touch.Base.Bytes.{Bytes, codes, equals}
use zero_touch.Base.Num.{to_string}
use zero_touch.Executor.Authorization.{asked}
use zero_touch.Sms.{InboundSms, is_reachable_sender}

-- The key set that the store is asked for, as its answer holds it: `none` where the call fails,
-- else for each key its text, or `none` where it has no value that is text.
abbrev pub GetResult : Type 0
GetResult = Option (List (Option Bytes))

-- `data_store::to_string(...).value_or("")`
abbrev pub text_of : Option Bytes → Bytes
text_of none = []
text_of (some t) = t

-- `read_last`
unfoldable pub read_last : GetResult → Option InboundSms
read_last (some (sender ∷ text ∷ ts ∷ more)) =
    some (record { sender = text_of sender; text = text_of text; ts = text_of ts })
read_last _ = none

-- `DsSmsTransport`: the dirty flag, and the message last seen.
pub record DsTransport : Type 0 where
  pub sms_dirty : Bool
  pub seen : InboundSms

abbrev pub no_sms : InboundSms
no_sms = record { sender = []; text = []; ts = [] }

abbrev pub new_transport : DsTransport
new_transport = record { sms_dirty = false; seen = no_sms }

abbrev baseline : Option InboundSms → DsTransport → DsTransport
baseline none t = t
baseline (some m) t = record t { seen = m }

-- `start`, with the store's answer: what is there now counts as seen.
unfoldable pub start : GetResult → DsTransport → DsTransport
unfolding read_last
start got t = baseline (read_last got) t

-- The callback of the watch on `sms.version`, on the listener's thread. It also wakes the reactor.
unfoldable pub on_version : DsTransport → DsTransport
on_version t = record t { sms_dirty = true }

unfoldable pub same_sms : InboundSms → InboundSms → Bool
same_sms a b = equals a.sender b.sender && equals a.text b.text && equals a.ts b.ts

-- `drain_inbound` behind `read_last`: the new state, and the message that it hands on.
unfoldable pub drain : Option InboundSms → DsTransport → DsTransport × Option InboundSms
unfolding same_sms
drain none t = (t, none)
drain (some m) t =
    if is_empty m.sender || is_empty m.text
    then (t, none)
    else if same_sms m t.seen
    then (t, none)
    else (record t { seen = m }, some m)

unfoldable pub drain_inbound : GetResult → DsTransport → DsTransport × Option InboundSms
unfolding read_last drain
drain_inbound got t = drain (read_last got) t

-- `handle_exception`, on the reactor's thread, with the answer that the store would give.
unfoldable pub handle_exception : GetResult → DsTransport → DsTransport × Option InboundSms
unfolding drain_inbound
handle_exception got t =
    let clean = record t { sms_dirty = false } in
    if t.sms_dirty then drain_inbound got clean else (clean, none)

-- `send`, over the store's two forms of `set` and the current time in milliseconds.
unfoldable pub ds_send :
    {W : Type 0} → (W → List (Bytes × Bytes) → Bool × W) → ℕ → W → Bytes → Bytes → Bool × W
unfolding is_reachable_sender to_string
ds_send set_keys now_ms w to text =
    let (queued, w1) =
      set_keys w ((codes "sms.send.to", to) ∷ (codes "sms.send.text", text) ∷ []) in
    let (asked, w2) = set_keys w1 ((codes "sms.send.request", to_string now_ms) ∷ []) in
    if not (is_reachable_sender to)
    then (false, w)
    else if not queued
    then (false, w1)
    else if not asked
    then (false, w2)
    else (true, w2)

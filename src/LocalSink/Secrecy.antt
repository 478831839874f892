-- ===== src/LocalSink/Secrecy.antt =====
-- No secret leaves through `LocalGnmiSink::get` of src/local_gnmi_sink.cpp: not in a request, and
-- not in a row of the result.
use zero_touch.Base.{
  All, All-append, Bool, Bool-cases, List, Option, [], ap, false, if◌then◌else◌, inl, inr, is_empty,
  map, none, refl, some, true, ◌++◌, ◌∙◌, ◌∷◌, ◌≡◌, ◌⊎◌,
}
use zero_touch.Base.Bytes.{Bytes, codes}
use zero_touch.LocalSink.{
  GnmiClient, RpcResponse, SinkConfig, Update, answered, deny_of, finish_get, is_zero,
  push_notifications, push_updates, row_of, screen, sink_get,
}
use zero_touch.Policy.{is_sensitive_path}
use zero_touch.Reply.{GnmiPathResult, GnmiResult, no_result}

-- A row with a sensitive path shows the refusal in place of a value.
abbrev pub IsMasked : List Bytes → GnmiPathResult → Type 0
IsMasked deny row =
    (is_sensitive_path row.xpath deny ≡ false)
    ⊎ ((row.value ≡ []) × (row.error ≡ codes "sensitive path denied"))

abbrev pub IsHarmless : List Bytes → Bytes → Type 0
IsHarmless deny xp = is_sensitive_path xp deny ≡ false

screen-IsMasked : (deny xps : List Bytes) → All (IsMasked deny) (screen deny xps).0
unfolding screen
screen-IsMasked deny [] = tt
screen-IsMasked deny (xp ∷ xps) = elim (Bool-cases (is_sensitive_path xp deny)) [
  | inl hit ↦ rw hit (inr (refl, refl), screen-IsMasked deny xps)
  | inr miss ↦ rw miss (screen-IsMasked deny xps)
]

pub screen-IsHarmless : (deny xps : List Bytes) → All (IsHarmless deny) (screen deny xps).1
unfolding screen
screen-IsHarmless deny [] = tt
screen-IsHarmless deny (xp ∷ xps) = elim (Bool-cases (is_sensitive_path xp deny)) [
  | inl hit ↦ rw hit (screen-IsHarmless deny xps)
  | inr miss ↦ rw miss (miss, screen-IsHarmless deny xps)
]

row_of-IsMasked : (deny : List Bytes) (u : Update) → IsMasked deny (row_of deny u)
unfolding row_of
row_of-IsMasked deny (xp, value) = elim (Bool-cases (is_sensitive_path xp deny)) [
  | inl hit ↦ rw hit (inr (refl, refl))
  | inr miss ↦ rw miss (inl miss)
]

push_updates-IsMasked :
    (deny : List Bytes) (rows : List GnmiPathResult) (us : List Update)
    → All (IsMasked deny) rows
    → All (IsMasked deny) (push_updates deny rows us)
unfolding push_updates
push_updates-IsMasked deny rows [] h = h
push_updates-IsMasked deny rows (u ∷ us) h =
    push_updates-IsMasked deny (rows ++ row_of deny u ∷ []) us
      (All-append (IsMasked deny) rows (row_of deny u ∷ []) h (row_of-IsMasked deny u, tt))

push_notifications-IsMasked :
    (deny : List Bytes) (rows : List GnmiPathResult) (ns : List (List Update))
    → All (IsMasked deny) rows
    → All (IsMasked deny) (push_notifications deny rows ns)
unfolding push_notifications
push_notifications-IsMasked deny rows [] h = h
push_notifications-IsMasked deny rows (n ∷ ns) h =
    push_notifications-IsMasked deny (push_updates deny rows n) ns
      (push_updates-IsMasked deny rows n h)

finish_get-IsMasked :
    (deny : List Bytes) (ok : Bool) (out : GnmiResult) (body : Option (List (List Update)))
    → All (IsMasked deny) out.paths
    → All (IsMasked deny) (finish_get deny ok out body).paths
unfolding finish_get
finish_get-IsMasked deny false out body h = h
finish_get-IsMasked deny true out none h = h
finish_get-IsMasked deny true out (some ns) h = push_notifications-IsMasked deny out.paths ns h

-- The value of a sensitive leaf blanked.
abbrev pub blank : List Bytes → Update → Update
blank deny (xp, value) = if is_sensitive_path xp deny then (xp, []) else (xp, value)

abbrev pub blank_body : List Bytes → Option (List (List Update)) → Option (List (List Update))
blank_body deny none = none
blank_body deny (some ns) = some (map (map (blank deny)) ns)

row_of-blank : (deny : List Bytes) (u : Update) → row_of deny (blank deny u) ≡ row_of deny u
unfolding row_of
row_of-blank deny (xp, value) = elim (Bool-cases (is_sensitive_path xp deny)) [
  | inl hit ↦ rw (hit, hit)
  | inr miss ↦ rw miss (rw miss)
]

push_updates-blank :
    (deny : List Bytes) (rows : List GnmiPathResult) (us : List Update)
    → push_updates deny rows (map (blank deny) us) ≡ push_updates deny rows us
unfolding push_updates
push_updates-blank deny rows [] = refl
push_updates-blank deny rows (u ∷ us) =
    ap (λ r. push_updates deny (rows ++ r ∷ []) (map (blank deny) us)) (row_of-blank deny u)
    ∙ push_updates-blank deny (rows ++ row_of deny u ∷ []) us

push_notifications-blank :
    (deny : List Bytes) (rows : List GnmiPathResult) (ns : List (List Update))
    → push_notifications deny rows (map (map (blank deny)) ns) ≡ push_notifications deny rows ns
unfolding push_notifications
push_notifications-blank deny rows [] = refl
push_notifications-blank deny rows (n ∷ ns) =
    ap (λ r. push_notifications deny r (map (map (blank deny)) ns)) (push_updates-blank deny rows n)
    ∙ push_notifications-blank deny (push_updates deny rows n) ns

finish_get-blank :
    (deny : List Bytes) (ok : Bool) (out : GnmiResult) (body : Option (List (List Update)))
    → finish_get deny ok out (blank_body deny body) ≡ finish_get deny ok out body
unfolding finish_get
finish_get-blank deny false out body = refl
finish_get-blank deny true out none = refl
finish_get-blank deny true out (some ns) =
    ap (λ r. record out { ok = true; paths = r }) (push_notifications-blank deny out.paths ns)

-- The answers to a read that are the same but for the values of sensitive leaves.
abbrev pub BlankedBy :
    {W : Type 0}
    → List Bytes
    → RpcResponse (List (List Update)) × W
    → RpcResponse (List (List Update)) × W
    → Type 0
BlankedBy deny (r, w) (r', w') =
    (r'.grpc_status ≡ r.grpc_status)
    × (r'.grpc_message ≡ r.grpc_message)
    × (r'.body ≡ blank_body deny r.body)
    × (w' ≡ w)

answered-IsMasked :
    {W : Type 0} (deny : List Bytes) (rows : List GnmiPathResult)
    (a : RpcResponse (List (List Update)) × W)
    → All (IsMasked deny) rows
    → All (IsMasked deny) (answered deny rows a).0.paths
unfolding answered
answered-IsMasked deny rows (r, w) h =
    finish_get-IsMasked deny (is_zero r.grpc_status)
      (record no_result {
        grpc_status = r.grpc_status;
        grpc_message = r.grpc_message;
        paths = rows;
      })
      r.body h

answered-blank :
    {W : Type 0} (deny : List Bytes) (rows : List GnmiPathResult)
    (a b : RpcResponse (List (List Update)) × W)
    → BlankedBy deny a b
    → answered deny rows b ≡ answered deny rows a
unfolding answered
answered-blank deny rows (r, w) (r', w') (s, m, e, v) =
    let out = record no_result {
      grpc_status = r.grpc_status;
      grpc_message = r.grpc_message;
      paths = rows;
    } in
    rw (s, m, e, v) (ap (λ x. (x, w)) (finish_get-blank deny (is_zero r.grpc_status) out r.body))

module _ {W : Type 0} (client : GnmiClient W) (cfg : SinkConfig) where
  -- Whatever the server answers, every row with a sensitive path carries no value.
  pub sink_get-IsMasked :
      (w : W) (xpaths : List Bytes)
      → All (IsMasked (deny_of cfg)) (sink_get client cfg w xpaths).0.paths
  unfolding sink_get
  sink_get-IsMasked w xpaths = elim (Bool-cases (is_empty (screen (deny_of cfg) xpaths).1)) [
    | inl idle ↦ rw idle (screen-IsMasked (deny_of cfg) xpaths)
    | inr asks ↦ rw asks (
        answered-IsMasked (deny_of cfg) (screen (deny_of cfg) xpaths).0
          (client.call_get w cfg.host cfg.port cfg.get_role (screen (deny_of cfg) xpaths).1)
          (screen-IsMasked (deny_of cfg) xpaths))
  ]

  -- The result does not depend on the sensitive values that the server holds, and no sensitive path
  -- is asked for: another server, which is like this one on requests for harmless paths but
  -- blanks the values of sensitive leaves, gives the same result and the same state.
  pub sink_get-secrecy :
      (other : GnmiClient W)
      → ((w : W) (xps : List Bytes)
          → All (IsHarmless (deny_of cfg)) xps
          → BlankedBy
              (deny_of cfg)
              (client.call_get w cfg.host cfg.port cfg.get_role xps)
              (other.call_get w cfg.host cfg.port cfg.get_role xps))
      → (w : W) (xpaths : List Bytes) → sink_get other cfg w xpaths ≡ sink_get client cfg w xpaths
  unfolding sink_get
  sink_get-secrecy other like w xpaths =
      let h = like w (screen (deny_of cfg) xpaths).1 (screen-IsHarmless (deny_of cfg) xpaths) in
      elim (Bool-cases (is_empty (screen (deny_of cfg) xpaths).1)) [
        | inl idle ↦ rw idle
        | inr asks ↦ rw asks (answered-blank (deny_of cfg) (screen (deny_of cfg) xpaths).0 _ _ h)
      ]

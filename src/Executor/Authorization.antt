-- ===== src/Executor/Authorization.antt =====
-- Who may do what, in src/gnmi_executor.cpp.
use zero_touch.Base.{arith, inl, inr, length, refl, ◌++◌, ◌≡◌, ◌≢◌, ◌≤◌, ◌⊎◌}
use zero_touch.Base.Bytes.{Bytes, codes}
use zero_touch.Command.{GnmiCommand, GnmiKind, get, not_gnmi, set, unknown}
use zero_touch.Executor.{
  Access, GnmiExecutor, access_of, admin, dispatch, handle, no_access, viewer,
}
use zero_touch.Reply.{max_reply}
use zero_touch.Reply.Bounds.{length-clamp_sms, length-format_get, length-format_set}

module _ {W : Type 0} (ex : GnmiExecutor W) (cmd : GnmiCommand) (sender : Bytes) (w : W) where
  abbrev pub current_access : Access
  current_access = (access_of ex.auth w sender).0

  -- The state once the sender's access has been asked for, and nothing else.
  abbrev pub asked : W
  asked = (access_of ex.auth w sender).1

  -- When the sink is asked to do something, what is allowed to be done, and nothing else: a write
  -- wants an admin, a read at least a viewer.
  abbrev pub Authorized : Type 0
  Authorized =
      ((cmd.kind ≡ set) × (current_access ≡ admin))
      ⊎ ((cmd.kind ≡ get) × (current_access ≢ no_access))

  dispatch-state :
      (k : GnmiKind) (a : Access)
      → ¬ (((k ≡ set) × (a ≡ admin)) ⊎ ((k ≡ get) × (a ≢ no_access)))
      → (dispatch k ex.sink a cmd asked).1 ≡ asked
  unfolding dispatch
  dispatch-state not_gnmi a n = refl
  dispatch-state unknown a n = refl
  dispatch-state get no_access n = refl
  dispatch-state get viewer n = absurd (n (inr (refl, λ e. cc)))
  dispatch-state get admin n = absurd (n (inr (refl, λ e. cc)))
  dispatch-state set no_access n = refl
  dispatch-state set viewer n = refl
  dispatch-state set admin n = absurd (n (inl (refl, refl)))

  -- A command that its sender is not authorised for touches nothing.
  pub handle-unauthorized : ¬ Authorized → (handle ex cmd sender w).1 ≡ asked
  unfolding handle
  handle-unauthorized n = dispatch-state cmd.kind current_access n

  length-dispatch :
      (k : GnmiKind) (a : Access) (v : W) → length (dispatch k ex.sink a cmd v).0 ≤ max_reply
  unfolding dispatch
  length-dispatch not_gnmi a v = omega arith
  length-dispatch unknown a v = length-clamp_sms (codes "ERR " ++ cmd.error)
  length-dispatch get no_access v = length-clamp_sms _
  length-dispatch get viewer v = length-format_get _
  length-dispatch get admin v = length-format_get _
  length-dispatch set no_access v = length-clamp_sms _
  length-dispatch set viewer v = length-clamp_sms _
  length-dispatch set admin v = length-format_set _ _

  -- Every reply fits one SMS.
  pub length-handle : length (handle ex cmd sender w).0 ≤ max_reply
  unfolding handle
  length-handle = length-dispatch cmd.kind current_access asked

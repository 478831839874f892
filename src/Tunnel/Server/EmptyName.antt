-- ===== src/Tunnel/Server/EmptyName.antt =====
-- The empty target name in the handler of grpc-tunnel/src/tunnel_server.cc.
use zero_touch.Base.{Bool, List, [], arith, false, refl, some, ℕ, ◌∙◌, ◌∷◌, ◌≡◌, ◌≢◌}
use zero_touch.Base.Bytes.{Bytes, equals_iff, equals_refl}
use zero_touch.Base.Keys.{nat_ord, text_ord}
use zero_touch.Base.Map.{IsOrdered, IsOrdered-insert, insert, lookup-insert}
use zero_touch.Tunnel.{Frame, no_frame, register}
use zero_touch.Tunnel.Net.{SendResult}
use zero_touch.Tunnel.Registry.{add, get}
use zero_touch.Tunnel.Registry.Entries.{lookup-remove}
use zero_touch.Tunnel.Server.{Server, on_frame, rebind, teardown}
use zero_touch.Tunnel.Session.{shutdown}
use zero_touch.Tunnel.Session.Steps.{close_all-rest}

abbrev pub register_frame : Bytes → Frame
register_frame t = record no_frame { type = register; target = t }

teardown-dead : (me : ℕ) (v : Server) → (teardown me v).session.alive ≡ false
unfolding teardown shutdown
teardown-dead me v = (close_all-rest (shutdown v.session)).0

-- A handler that registers the empty name first and another one then leaves the entry of the empty
-- name behind when it ends: the registry still gives its session, which is no longer alive.
pub teardown-empty_name :
    (me : ℕ) (t : Bytes) (ok : Bool) (results : List SendResult) (v : Server)
    → IsOrdered v.registry
    → v.target ≡ []
    → t ≢ []
    → let w = teardown me (
        on_frame me (register_frame t) ok results (on_frame me (register_frame []) ok results v)) in
      (get [] w.registry ≡ some me) × (w.session.alive ≡ false)
unfolding teardown on_frame get rebind add
teardown-empty_name me [] ok results v o e n = absurd (n refl)
teardown-empty_name me (c ∷ t) ok results v o e n = rw e (
  (lookup-remove (c ∷ t) [] me _
        (IsOrdered-insert (c ∷ t) me _ (IsOrdered-insert [] me v.registry o))
      ∙ ground (
        arith,
        lookup-insert (c ∷ t) [] me (insert [] me v.registry),
        lookup-insert [] [] me v.registry,
        equals_iff (c ∷ t) [],
        equals_refl [],
      )),
  teardown-dead me (
      on_frame me (register_frame (c ∷ t)) ok results
        (on_frame me (register_frame []) ok results v)),
)

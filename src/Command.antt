-- ===== src/Command.antt =====
-- src/gnmi_command.cpp and inc/zerotouch/gnmi_command.hpp: the grammar `IOT GNMI GET <xpaths>` and
-- `IOT GNMI SET <xpaths> <values>` over the tokens of an SMS.
pub mod Csv
pub mod Grammar
use zero_touch.Base.{
  Bool, List, [], false, get_or, if◌then◌else◌, length, ltb, not, true, ◌++◌, ◌==◌, ◌||◌, ◌∷◌,
}
use zero_touch.Base.Bytes.{Bytes, codes, to_lower}

-- `GnmiKind`
pub data GnmiKind : Type 0 where
  not_gnmi unknown get set : GnmiKind

-- `GnmiCommand`
pub record GnmiCommand : Type 0 where
  pub kind : GnmiKind
  pub xpaths : List Bytes
  pub updates : List (Bytes × Bytes)
  pub error : Bytes

-- `GnmiCommand cmd;` with its default members
abbrev pub no_command : GnmiCommand
no_command = record { kind = not_gnmi; xpaths = []; updates = []; error = [] }

-- The loop of `ieq` over the bytes of `a`, with those of `b` beside them.
unfoldable pub ieq_loop : Bytes → Bytes → Bool
unfolding to_lower
ieq_loop [] b = true
ieq_loop (x ∷ a) [] = false
ieq_loop (x ∷ a) (y ∷ b) = let rest = ieq_loop a b in if not (to_lower x == y) then false else rest

-- Only `a` is lowered; the callers pass a lower case literal as `b`.
unfoldable pub ieq : Bytes → Bytes → Bool
unfolding ieq_loop
ieq a b = if not (length a == length b) then false else ieq_loop a b

-- `csv`, with the piece being read in `cur`.
unfoldable pub csv_from : Bytes → Bytes → List Bytes
csv_from cur [] = cur ∷ []
csv_from cur (c ∷ s) =
    let next = csv_from [] s in
    let longer = csv_from (cur ++ c ∷ []) s in if c == b',' then cur ∷ next else longer

unfoldable pub csv : Bytes → List Bytes
unfolding csv_from
csv = csv_from []

-- `for (i = 0; i < xs.size(); ++i) cmd.updates.emplace_back(xs[i], vs[i]);`
unfoldable pub pair_up : List Bytes → List Bytes → List (Bytes × Bytes)
pair_up (x ∷ xs) (v ∷ vs) = (x, v) ∷ pair_up xs vs
pair_up _ _ = []

abbrev pub rejected : Bytes → GnmiCommand
rejected why = record no_command { kind = unknown; error = why }

-- The branch of `set`, on the two lists.
unfoldable pub parse_set : List Bytes → List Bytes → GnmiCommand
unfolding pair_up
parse_set xs vs =
    if not (length xs == length vs)
    then rejected (codes "gnmi set: xpath/value count mismatch")
    else record no_command { kind = set; updates = pair_up xs vs }

-- The operation and what follows it, `t[2]`, `t[3]`, ...
unfoldable pub parse_operation : Bytes → List Bytes → GnmiCommand
unfolding parse_set
parse_operation op args =
    if ieq op (codes "get")
    then (if ltb (length args) 1
        then rejected (codes "gnmi get: missing xpath")
        else record no_command { kind = get; xpaths = csv (get_or args 0 []) })
    else if ieq op (codes "set")
    then (if ltb (length args) 2
        then rejected (codes "gnmi set: expected <xpaths> <values>")
        else parse_set (csv (get_or args 0 [])) (csv (get_or args 1 [])))
    else rejected (codes "gnmi: unknown operation")

-- `parse_gnmi`
unfoldable pub parse_gnmi : List Bytes → GnmiCommand
unfolding parse_operation
parse_gnmi [] = no_command
parse_gnmi (iot ∷ []) = no_command
parse_gnmi (iot ∷ gnmi ∷ rest) =
    if not (ieq iot (codes "iot")) || not (ieq gnmi (codes "gnmi")) then no_command else elim rest [
      | [] ↦ rejected (codes "gnmi: expected GET or SET")
      | op ∷ args ↦ parse_operation op args
    ]

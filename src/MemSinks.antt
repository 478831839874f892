-- ===== src/MemSinks.antt =====
-- The sinks of sim/zt_sim.cpp: `MemDsSink` and `MemGnmiSink`, over their maps.
pub mod Masked
use zero_touch.Base.{List, Option, [], if◌then◌else◌, none, some, true, ◌∷◌}
use zero_touch.Base.Bytes.{Bytes, codes}
use zero_touch.Base.Keys.{nat_ord, text_ord}
use zero_touch.Base.Map.{insert, lookup}
use zero_touch.Base.Num.{pos}
use zero_touch.Classic.{DsSink}
use zero_touch.Policy.{default_deny_tokens, is_sensitive_path}
use zero_touch.Reply.{GnmiPathResult, GnmiResult}
use zero_touch.SimTree.{Tree}

-- `MemDsSink`
abbrev pub mem_ds_sink : DsSink Tree
mem_ds_sink = record {
  set = λ kv key value. (true, insert key value kv);
  get = λ kv key. (lookup key kv, kv);
  arm_trigger = λ kv path content. (true, kv);
}

abbrev pub leaf_row : Bytes → Option Bytes → GnmiPathResult
leaf_row xp none = record { xpath = xp; value = []; error = codes "not found" }
leaf_row xp (some value) = record { xpath = xp; value = value; error = [] }

-- The loop of `MemGnmiSink::get`.
unfoldable pub mem_rows : List Bytes → Tree → List GnmiPathResult
mem_rows [] tree = []
mem_rows (xp ∷ xps) tree =
    (if is_sensitive_path xp default_deny_tokens
      then record { xpath = xp; value = []; error = codes "sensitive path denied" }
      else leaf_row xp (lookup xp tree))
    ∷ mem_rows xps tree

-- `MemGnmiSink::get`
unfoldable pub mem_get : Tree → List Bytes → GnmiResult
unfolding mem_rows
mem_get tree xpaths = record {
  ok = true;
  grpc_status = pos 0;
  grpc_message = [];
  paths = mem_rows xpaths tree;
}

-- The loop of `MemGnmiSink::set`.
unfoldable pub mem_write : List (Bytes × Bytes) → Tree → List GnmiPathResult × Tree
mem_write [] tree = ([], tree)
mem_write ((xp, val) ∷ updates) tree =
    let (rows, tree') = mem_write updates (insert xp val tree) in
    (record { xpath = xp; value = []; error = [] } ∷ rows, tree')

-- `MemGnmiSink::set`
unfoldable pub mem_set : Tree → List (Bytes × Bytes) → GnmiResult × Tree
unfolding mem_write
mem_set tree updates =
    let (rows, tree') = mem_write updates tree in
    (record { ok = true; grpc_status = pos 0; grpc_message = []; paths = rows }, tree')

-- ===== src/SimTree/Seed.antt =====
-- The seed of sim/zt_gnmi_simd.cpp, and the connections of its server. Lua is a parameter: the
-- members of the table that it read.
pub mod Loading
use zero_touch.Base.{Bool, List, Option, [], false, if◌then◌else◌, none, some, true, ℕ, ◌==◌, ◌∷◌}
use zero_touch.Base.Bytes.{Bytes, codes}
use zero_touch.Base.Keys.{nat_ord, text_ord}
use zero_touch.Base.Map.{erase, insert, lookup}
use zero_touch.Base.Num.{int_to_string, negsuc, pos, to_string, ℤ}
use zero_touch.Config.RoundTrip.{entries}
use zero_touch.SimTree.{Tree, set}

-- `lua_file::value_type`, whose `double` is a parameter, and which may hold nothing that is
-- supported.
pub data Scalar (F : Type 0) : Type 0 where
  string_value : Bytes → Scalar F
  bool_value : Bool → Scalar F
  int_value : ℤ → Scalar F
  uint_value : ℕ → Scalar F
  double_value : F → Scalar F
  no_value : Scalar F

-- What a `double` is for `scalar_to_string`: the number that the cast to `long long` gives, where
-- the value is equal to it, and `std::to_string`.
pub record Doubles (F : Type 0) : Type 0 where
  pub integral : F → Option ℤ
  pub print : F → Bytes

-- An entry of a table: a scalar, or a table again.
pub data Entry (F : Type 0) : Type 0 where
  scalar : Scalar F → Entry F
  table : Entry F

-- The file, as far as `load_seed` looks into it: it could not be loaded, it has no member `tree`, the
-- member is no table, or the members of that table in the order in which they are visited.
pub data SeedFile (F : Type 0) : Type 0 where
  unloaded no_tree no_table : SeedFile F
  members : List (Bytes × Entry F) → SeedFile F

module _ {F : Type 0} (d : Doubles F) where
  abbrev pub double_text : F → Option ℤ → Bytes
  double_text x (some n) = int_to_string n
  double_text x none = d.print x

  -- `scalar_to_string`
  unfoldable pub scalar_to_string : Scalar F → Bytes
  unfolding int_to_string to_string
  scalar_to_string (string_value s) = s
  scalar_to_string (bool_value b) = if b then codes "true" else codes "false"
  scalar_to_string (int_value n) = int_to_string n
  scalar_to_string (uint_value n) = to_string n
  scalar_to_string (double_value x) = double_text x (d.integral x)
  scalar_to_string no_value = []

  -- Whether the key is an xpath.
  abbrev pub is_xpath : Bytes → Bool
  is_xpath [] = false
  is_xpath (c ∷ s) = c == b'/'

  -- What an entry sets, if anything.
  unfoldable pub leaf_of : Bytes → Entry F → Option Bytes
  leaf_of xpath table = none
  leaf_of xpath (scalar v) = if is_xpath xpath then some (scalar_to_string v) else none

  abbrev pub set_leaf : Bytes → Option Bytes → Tree → Tree
  set_leaf xpath none t = t
  set_leaf xpath (some v) t = set xpath v t

  -- The loop of `load_seed`.
  unfoldable pub load_members : List (Bytes × Entry F) → Tree → Tree
  unfolding leaf_of
  load_members [] t = t
  load_members ((xpath, entry) ∷ rest) t =
      load_members rest (set_leaf xpath (leaf_of xpath entry) t)

  -- `load_seed`
  unfoldable pub load_seed : SeedFile F → Tree → Bool × Tree
  unfolding load_members
  load_seed (members entries) t = (true, load_members entries t)
  load_seed _ t = (false, t)

-- `sim_server::m_conns`, with the peer of each connection.
abbrev pub Connections : Type 0
Connections = List (ℕ × Bytes)

abbrev pub emplaced : ℕ → Bytes → Option Bytes → Connections → ℤ × Connections
emplaced channel peer (some other) conns = (negsuc 0, conns)
emplaced channel peer none conns = (pos 0, insert channel peer conns)

-- `sim_server::handle_connect`
unfoldable pub connect_client : ℕ → Bytes → Connections → ℤ × Connections
connect_client channel peer conns = emplaced channel peer (lookup channel conns) conns

abbrev pub erased : Option Bytes → ℕ → Connections → ℕ × Connections
erased none channel conns = (0, conns)
erased (some peer) channel conns = (1, erase channel conns)

-- `sim_server::handle_close`; `sim_conn::handle_close` calls it and returns 0.
unfoldable pub close_client : ℕ → Connections → ℕ × Connections
close_client channel conns = erased (lookup channel conns) channel conns

-- `sim_conn::handle_read`, over what the session of the connection makes of the bytes.
unfoldable pub read_client : {G : Type 0} → (G → Bytes → ℤ × G) → Bytes → Bool → G → ℤ × G
read_client recv bytes dry_run g = if dry_run then (pos 0, g) else recv g bytes

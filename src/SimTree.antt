-- ===== src/SimTree.antt =====
-- sim/gnmi_tree.hpp, and the handlers of sim/zt_gnmi_simd.cpp over it: the tree of leaves that the
-- simulated gNMI server holds. A path and a value stand as the text that the codecs of the gNMI
-- library give for them; a request is `none` where protobuf cannot parse it.
pub mod Subtree
pub mod Writes
pub mod Refined
pub mod Seed
use zero_touch.Base.{
  List, Option, [], if◌then◌else◌, is_empty, length, none, not, some, ℕ, ◌&&◌, ◌++◌, ◌+◌, ◌==◌, ◌∷◌,
}
use zero_touch.Base.Bytes.{Bytes, codes, equals, starts_with}
use zero_touch.Base.Keys.{nat_ord, text_ord}
use zero_touch.Base.Map.{erase, insert, lookup}

-- `GnmiTree::m_kv`
abbrev pub Tree : Type 0
Tree = List (Bytes × Bytes)

-- `GnmiTree::set`
unfoldable pub set : Bytes → Bytes → Tree → Tree
set xpath value t = insert xpath value t

abbrev pub prefix_of : Bytes → Bytes
unfolding equals
prefix_of xpath = if equals xpath (codes "/") then codes "/" else xpath ++ codes "/"

-- The loop of `lookup`.
unfoldable pub matching : Bytes → Tree → Tree
unfolding starts_with
matching prefix [] = []
matching prefix ((k, v) ∷ t) =
    let rest = matching prefix t in if starts_with prefix k then (k, v) ∷ rest else rest

abbrev pub rows_found : Bytes → Option Bytes → Tree → Tree
rows_found xpath (some v) t = (xpath, v) ∷ []
rows_found xpath none t = matching (prefix_of xpath) t

-- `GnmiTree::lookup`
unfoldable pub rows : Bytes → Tree → Tree
unfolding matching
rows xpath t = rows_found xpath (lookup xpath t) t

-- The loop of `erase`: how many leaves went, and the tree.
unfoldable pub drop_matching : Bytes → Tree → ℕ × Tree
unfolding starts_with
drop_matching prefix [] = (0, [])
drop_matching prefix ((k, v) ∷ t) =
    let (n, rest) = drop_matching prefix t in
    if starts_with prefix k then (n + 1, rest) else (n, (k, v) ∷ rest)

abbrev pub erase_found : Bytes → Option Bytes → Tree → ℕ × Tree
erase_found xpath (some v) t = (1, erase xpath t)
erase_found xpath none t = drop_matching (prefix_of xpath) t

-- `GnmiTree::erase`
unfoldable pub erase_path : Bytes → Tree → ℕ × Tree
unfolding drop_matching
erase_path xpath t = erase_found xpath (lookup xpath t) t

-- `gnmi::GetRequest` and `gnmi::SetRequest`
pub record GetRequest : Type 0 where
  pub paths : List Bytes

pub record SetRequest : Type 0 where
  pub role : Bytes
  pub update : List (Bytes × Bytes)
  pub replace : List (Bytes × Bytes)
  pub delete : List Bytes

abbrev pub count_rows : List Tree → ℕ
count_rows [] = 0
count_rows (r ∷ rs) = length r + count_rows rs

unfoldable pub read_all : List Bytes → Tree → List Tree
unfolding rows
read_all [] t = []
read_all (p ∷ ps) t = rows p t ∷ read_all ps t

-- `handle_get`: the status, and the updates of each notification.
unfoldable pub handle_get : Option GetRequest → Tree → ℕ × List Tree
unfolding read_all
handle_get none t = (3, [])
handle_get (some req) t =
    let found = read_all req.paths t in
    if not (is_empty req.paths) && count_rows found == 0 then (5, []) else (0, found)

-- `gnmi::UpdateResult::Operation`
pub data Operation : Type 0 where
  updated replaced deleted : Operation

-- The three loops of `handle_set`: the responses, and the tree.
unfoldable pub update_all : List (Bytes × Bytes) → Tree → List (Bytes × Operation) × Tree
unfolding set
update_all [] t = ([], t)
update_all ((x, v) ∷ us) t = let (rs, t') = update_all us (set x v t) in ((x, updated) ∷ rs, t')

unfoldable pub replace_all : List (Bytes × Bytes) → Tree → List (Bytes × Operation) × Tree
unfolding set erase_path
replace_all [] t = ([], t)
replace_all ((x, v) ∷ us) t =
    let (rs, t') = replace_all us (set x v (erase_path x t).1) in ((x, replaced) ∷ rs, t')

unfoldable pub delete_all : List Bytes → Tree → List (Bytes × Operation) × Tree
unfolding erase_path
delete_all [] t = ([], t)
delete_all (x ∷ xs) t = let (rs, t') = delete_all xs (erase_path x t).1 in ((x, deleted) ∷ rs, t')

-- `handle_set`: the status and the responses, and the tree.
unfoldable pub handle_set : Option SetRequest → Tree → ℕ × List (Bytes × Operation) × Tree
unfolding equals update_all replace_all delete_all
handle_set none t = (3, [], t)
handle_set (some req) t =
    let (us, t1) = update_all req.update t in
    let (rs, t2) = replace_all req.replace t1 in
    let (ds, t3) = delete_all req.delete t2 in
    if not (equals req.role (codes "ADMIN")) then (7, [], t) else (0, us ++ (rs ++ ds), t3)

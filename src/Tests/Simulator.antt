-- ===== src/Tests/Simulator.antt =====
-- sim/gnmi_tree.hpp and the handlers of sim/zt_gnmi_simd.cpp at concrete inputs.
use zero_touch.Base.{List, Option, [], none, refl, some, ◌∷◌, ◌≡◌}
use zero_touch.Base.Bytes.{codes, equals, starts_with}
use zero_touch.Base.Keys.{nat_ord, text_lt, text_ord}
use zero_touch.Base.Map.{IsOrdered, erase, lookup}
use zero_touch.SimTree.{SetRequest, Tree, erase_path, rows}
use zero_touch.SimTree.Refined.{
  deletes_view, history, history_view, read_view, replaces_view, rows-history, set_view,
  updates_view,
}

abbrev seeded : Tree
seeded = (codes "/a", codes "1") ∷ (codes "/a/b", codes "2") ∷ (codes "/ab", codes "3") ∷ []

seeded-IsOrdered : IsOrdered seeded
unfolding text_lt
seeded-IsOrdered = (refl, (refl, tt))

-- A leaf hides what lies below it: erasing it leaves that there.
hidden_leaf :
    (erase_path (codes "/a") seeded).1 ≡ (codes "/a/b", codes "2") ∷ (codes "/ab", codes "3") ∷ []
unfolding erase_path lookup erase equals
hidden_leaf = refl

abbrev some_request : SetRequest
some_request = record {
  role = codes "ADMIN";
  update = (codes "/c", codes "4") ∷ [];
  replace = (codes "/a", codes "5") ∷ [];
  delete = codes "/d" ∷ [];
}

abbrev two_requests : List (Option SetRequest)
two_requests = some some_request ∷ some (record some_request { role = codes "VIEWER" }) ∷ []

rows-history_example :
    lookup (codes "/a") (rows (codes "/a") (history two_requests []))
    ≡ read_view (codes "/a") (history_view two_requests (λ z. none)) (codes "/a")
rows-history_example = rows-history two_requests (codes "/a") (codes "/a")

replaced : history_view two_requests (λ z. none) (codes "/a") ≡ some (codes "5")
unfolding history_view set_view updates_view replaces_view deletes_view equals starts_with
replaced = refl
